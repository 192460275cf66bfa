-- ===== src/Generation/Lifecycle/Ownership.antt =====
-- Who may change a generation: the bearer of a lease.
use porsche.Prelude.{
  ◌⊎◌, ℕ, ◌≡◌, refl, ◌≤◌, ◌<◌, String, Bool, true, false, not, ◌||◌, Option, none, some, arith,
  if◌then◌else◌, Option-cases, Bool-cases, inl, inr, ok, Result-cases, Result, subst, str_eq,
  eq_iff, ltb,
}
use porsche.Prelude.Int.{ℤ}
use porsche.Generation.Identity.{valid_identity, safe_integer}
use porsche.Generation.Snapshot.{Snapshot, is_running}
use porsche.Generation.Changes.{
  Change, StoreError, settle, owned, owned_authorized, running_lease_authorized, lease_matches,
}
use porsche.Generation.Codec.{Codec}
use porsche.Generation.Store.{
  Cell, encode, decode, cas, write, mutate, mutate_found, written, mutate_owned, Reply, done,
  refused,
}
use porsche.Generation.Lifecycle.Evolution.{decode-encode}

module _ (c : Codec) where
  open c use {Raw, same, same_iff, marshal}

  -- What an accepted mutation has read and written.
  pub record Accepted (now : ℕ) (f : Change) (read cell : Cell c) (t : Snapshot) : Type 0 where
    pub raw : Raw
    pub before : Snapshot
    pub after : Snapshot
    pub was_read : read ≡ some raw
    pub unchanged : cell ≡ some raw
    pub decoded : decode c raw ≡ some before
    pub in_time : before.updated_at ≤ now
    pub changed : f before ≡ ok after
    pub stored : t ≡ settle now after

  unless-done :
      (b : Bool) (cell : Cell c) (e : StoreError) (x : Cell c × Reply) (t : Snapshot)
      → (if b then (cell, refused e) else x).1 ≡ done t
      → (b ≡ false) × (x.1 ≡ done t)
  unless-done true cell e x t h = absurd (ground arith)
  unless-done false cell e x t h = (refl, h)

  write-done :
      (read : Raw) (s t : Snapshot) (cell : Cell c)
      → (write c read (encode c s) cell).1 ≡ done t
      → (cell ≡ some read) × (t ≡ s)
  unfolding write cas
  write-done read s t none h = elim (Option-cases (encode c s)) [
    | inl p ↦ absurd (ground (arith, p))
    | inr (raw, p) ↦ absurd (ground (arith, p))
  ]
  write-done read s t (some old) h = elim (Option-cases (encode c s)) [
    | inl p ↦ absurd (ground (arith, p))
    | inr (raw, p) ↦ ground (arith, p, same_iff old read, decode-encode c s raw p)
  ]

  written-done :
      (read : Raw) (now : ℕ) (s t : Snapshot) (f : Change) (cell : Cell c)
      → decode c read ≡ some s
      → s.updated_at ≤ now
      → (written c read now (f s) cell).1 ≡ done t
      → Accepted now f (some read) cell t
  written-done read now s t f cell d le h = elim (Result-cases (f s)) [
    | inl (after, p) ↦
        let (q, r) = write-done read (settle now after) t cell (
          subst (λ (x : Result StoreError Snapshot). (written c read now x cell).1 ≡ done t) p h) in
        record {
          raw = read;
          before = s;
          after = after;
          was_read = refl;
          unchanged = q;
          decoded = d;
          in_time = le;
          changed = p;
          stored = r;
        }
    | inr (e, p) ↦ absurd (ground (arith, p, h))
  ]

  found-done :
      (id : String) (now : ℕ) (f : Change) (read : Raw) (found : Option Snapshot) (cell : Cell c)
      (t : Snapshot)
      → decode c read ≡ found
      → (mutate_found c id now f read found cell).1 ≡ done t
      → Accepted now f (some read) cell t
  found-done id now f read none cell t d h = absurd (ground arith)
  found-done id now f read (some s) cell t d h =
      let (_, h₁) = unless-done (not (str_eq s.generation_id id)) cell _ _ t h in
      let (early, h₂) = unless-done (ltb now s.updated_at) cell _ _ t h₁ in
      written-done read now s t f cell d (ground (arith, early)) h₂

  -- A mutation that succeeds found the cell as it had read it, the time not gone back, and the change
  -- agreeing; what it returns is the change's result, settled.
  pub mutate-done :
      (u : ℤ) (id : String) (now : ℕ) (f : Change) (read cell : Cell c) (t : Snapshot)
      → (mutate c u id now f read cell).1 ≡ done t
      → Accepted now f read cell t
  unfolding mutate
  mutate-done u id now f none cell t h = absurd (ground arith)
  mutate-done u id now f (some read) cell t h =
      let (_, h₁) =
        unless-done (not (valid_identity u id) || not (safe_integer now)) cell _ _ t h in
      found-done id now f read (decode c read) cell t refl h₁

  owned-ok :
      (d : String) (now : ℕ) (f : Change) (s t : Snapshot)
      → owned d now f s ≡ ok t
      → (f s ≡ ok t) × (s.lease_owner ≡ d) × ((is_running s.state ≡ false) ⊎ (now < s.lease_until))
  unfolding owned owned_authorized running_lease_authorized lease_matches
  owned-ok d now f s t h = elim (Bool-cases (is_running s.state)) [
    | inl r ↦ (grind (arith, r, eq_iff), grind (arith, r, eq_iff), inr (grind (arith, r, eq_iff)))
    | inr r ↦ (grind (arith, r, eq_iff), grind (arith, r, eq_iff), inl r)
  ]

  -- A change by the bearer of a lease token succeeds only on the record that it read and found
  -- again, whose lease owner is that bearer, whose lease has not run out if the record runs, and
  -- whose time is not in the future; it returns the change's result, settled.
  pub mutate_owned-done :
      (u : ℤ) (id : String) (formed : Bool) (d : String) (now : ℕ) (f : Change) (read cell : Cell c)
      (t : Snapshot)
      → (mutate_owned c u id formed d now f read cell).1 ≡ done t
      → (formed ≡ true)
        × (a : Accepted now f read cell t) × (a.before.lease_owner ≡ d)
        × ((is_running a.before.state ≡ false) ⊎ (now < a.before.lease_until))
  unfolding mutate_owned
  mutate_owned-done u id formed d now f read cell t h =
      let (p, h₁) = unless-done (not formed) cell _ _ t h in
      let a = mutate-done u id now (owned d now f) read cell t h₁ in
      let (q, own, alive) = owned-ok d now f a.before a.after a.changed in
      (
        ground (arith, p),
        record {
          raw = a.raw;
          before = a.before;
          after = a.after;
          was_read = a.was_read;
          unchanged = a.unchanged;
          decoded = a.decoded;
          in_time = a.in_time;
          changed = q;
          stored = a.stored;
        },
        own,
        alive,
      )
