-- ===== src/Generation/Lifecycle/Births.antt =====
-- What the records hold that `Claim` and `CancelOrCreate` of
-- internal/service/platform_generation_store.go write without a record to start from.
use porsche.Prelude.{ℕ, ◌+◌, ◌≡◌, refl, String, List, [], ◌∷◌}
use porsche.Prelude.Dict.{Dict}
use porsche.Generation.Snapshot.{Mode, ModelState, Snapshot, State, no_mode, running, cancelled}
use porsche.Generation.Claim.{claimed, enriched, fresh_states, tombstone}

-- Every model, in the order of the models, in the one state and without a delta.
abbrev pub AllStand : State → List String → Dict ModelState → Type 0
AllStand st [] [] = Unit {0}
AllStand st [] (x ∷ xs) = ⊥
AllStand st (m ∷ ms) [] = ⊥
AllStand st (m ∷ ms) ((k, x) ∷ xs) =
    (k ≡ m)
    × (x.state ≡ st)
    × (x.seq ≡ 0)
    × (x.error_code ≡ "")
    × (x.message_guid ≡ "")
    × AllStand st ms xs

-- A generation that runs with every model, from this time, for a lease of 30 seconds.
pub record IsStarted (s : Snapshot) (now : ℕ) : Type 0 where
  pub runs : s.state ≡ running
  pub all_run : AllStand running s.models s.model_states
  pub no_error : s.error_code ≡ ""
  pub created : s.created_at ≡ now
  pub updated : s.updated_at ≡ now
  pub leased : s.lease_until ≡ now + 30000

-- A generation that was cancelled at this time, before its mode and its models were known.
pub record IsTombstone (s : Snapshot) (now : ℕ) : Type 0 where
  pub cancels : s.state ≡ cancelled
  pub modeless : s.mode ≡ no_mode
  pub no_models : s.models ≡ []
  pub no_states : s.model_states ≡ []
  pub no_error : s.error_code ≡ ""
  pub unowned : s.lease_owner ≡ ""
  pub unleased : s.lease_until ≡ 0
  pub created : s.created_at ≡ now
  pub updated : s.updated_at ≡ now

-- The record of a generation whose models became known after it was cancelled at this time.
pub record IsFilled (s : Snapshot) (now : ℕ) : Type 0 where
  pub cancels : s.state ≡ cancelled
  pub all_cancelled : AllStand cancelled s.models s.model_states
  pub no_error : s.error_code ≡ ""
  pub unowned : s.lease_owner ≡ ""
  pub unleased : s.lease_until ≡ 0
  pub created : s.created_at ≡ now
  pub updated : s.updated_at ≡ now

fresh_states-AllStand : (st : State) (ms : List String) → AllStand st ms (fresh_states st ms)
unfolding fresh_states
fresh_states-AllStand st [] = tt
fresh_states-AllStand st (m ∷ ms) = (refl, refl, refl, refl, refl, fresh_states-AllStand st ms)

pub claimed-IsStarted :
    (id : String) (mode : Mode) (models : List String) (now : ℕ) (d : String)
    → IsStarted (claimed id mode models now d) now
unfolding claimed
claimed-IsStarted id mode models now d = record {
  runs = refl;
  all_run = fresh_states-AllStand running models;
  no_error = refl;
  created = refl;
  updated = refl;
  leased = refl;
}

pub tombstone-IsTombstone : (id : String) (at : ℕ) → IsTombstone (tombstone id at) at
unfolding tombstone
tombstone-IsTombstone id at = record {
  cancels = refl;
  modeless = refl;
  no_models = refl;
  no_states = refl;
  no_error = refl;
  unowned = refl;
  unleased = refl;
  created = refl;
  updated = refl;
}

pub enriched-IsFilled :
    (id : String) (mode : Mode) (models : List String) (at : ℕ)
    → IsFilled (enriched id mode models at) at
unfolding enriched
enriched-IsFilled id mode models at = record {
  cancels = refl;
  all_cancelled = fresh_states-AllStand cancelled models;
  no_error = refl;
  unowned = refl;
  unleased = refl;
  created = refl;
  updated = refl;
}
