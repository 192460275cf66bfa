-- ===== src/Generation/Codec.antt =====
-- What the generation store uses of encoding/json and of the strict reading around it: a record has
-- one text, which reads back as that record. The member checks on the raw JSON text
-- (`validatePlatformGenerationJSONMembers`, `validPlatformGenerationWire`) belong to `parse`.
use porsche.Prelude.{ℕ, ◌≡◌, ◌↔◌, Bool, true, Option, some}
use porsche.Generation.Snapshot.{Snapshot, valid_snapshot}

pub record Codec : Type 1 where
  pub Raw : Type 0
  -- Go's `==` on texts.
  pub same : Raw → Raw → Bool
  pub same_iff : (a b : Raw) → (same a b ≡ true) ↔ (a ≡ b)
  pub size : Raw → ℕ
  pub marshal : Snapshot → Raw
  pub parse : Raw → Option Snapshot
  -- A record that passes the validity test reads back as it was written.
  pub parse-marshal : (s : Snapshot) → valid_snapshot s ≡ true → parse (marshal s) ≡ some s
