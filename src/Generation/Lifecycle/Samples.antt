-- ===== src/Generation/Lifecycle/Samples.antt =====
-- A generation that is claimed and runs, and one that has ended.
use porsche.Prelude.{
  ◌≡◌, refl, ◌↔◌, contains, ◌≢◌, ◌⊎◌, ◌<◌, ap, String, Bool, true, false, Option, none, some, List,
  [], ◌∷◌, str_eq, eq_iff, arith,
}
use native.Mathlib.Decide.{ℕ_discrete}
use porsche.Prelude.Int.{pos}
use porsche.Prelude.Dict
use porsche.Prelude.Dict.{Dict}
use porsche.Generation.Snapshot.{
  Mode, single, State, running, completed, is_running, Snapshot, valid_snapshot, valid_input,
  distinct_models, mode_fits, valid_lease, valid_digest, all_hex, valid_error, valid_counts,
  count_models, valid_found, valid_model,
}
use porsche.Generation.Identity.{
  canonical_uuid, valid_identity, model_identifier, message_guid, decimal_value,
}
use porsche.Generation.Codec.{Codec}
use porsche.Generation.Changes.{
  record_delta, settle, owned, owned_authorized, running_lease_authorized, lease_matches,
}
use porsche.Generation.Lifecycle.{
  Op, operates, claims, bearer, anyone, delta, asks_cancel, apply, history,
}
use porsche.Generation.Lifecycle.Births.{IsStarted}
use porsche.Generation.Lifecycle.Evolution.{Evolves}
use porsche.Generation.Lifecycle.Applied.{apply-Evolves}
use porsche.Generation.Lifecycle.Finality.{ended_completed, history-IsFinal}
use porsche.Generation.Lifecycle.Ownership.{Accepted, mutate_owned-done}
use porsche.Generation.Lifecycle.Exclusive.{claim-granted, granted_once}
use porsche.Generation.Store.{encode, decode, cas, write, mutate, mutate_owned, done}
use porsche.Generation.Claim.{
  claim, claim_script, claimed, enriched, fresh_states, granted, duplicate, tombstone_time,
  tombstone,
}

decide_text : (a b : String) (x : Bool) → str_eq a b ≡ x → Dec (a ≡ b)
decide_text a b true p = yes ((eq_iff a b).0 p)
decide_text a b false p = no (λ q. ground (arith, p, (eq_iff a b).1 q))

text_discrete : Discrete String
unfolding decide_text
text_discrete a b = decide_text a b (str_eq a b) refl

Mode-discrete : Discrete Mode
Mode-discrete = hlevel

State-discrete : Discrete State
State-discrete = hlevel

Snapshot-discrete : Discrete Snapshot
Snapshot-discrete = hlevel (ℕ_discrete, text_discrete)

is_yes : {A : Type 0} → Dec A → Bool
is_yes (yes _) = true
is_yes (no _) = false

same_by : Snapshot → Snapshot → Bool
unfolding Snapshot-discrete is_yes
same_by a b = is_yes (Snapshot-discrete a b)

same_by_iff : (a b : Snapshot) → (same_by a b ≡ true) ↔ (a ≡ b)
unfolding same_by is_yes
same_by_iff a b = go (Snapshot-discrete a b)
  where
    go : (d : Dec (a ≡ b)) → (is_yes d ≡ true) ↔ (a ≡ b)
    go (yes p) = ((λ _. p), λ _. refl)
    go (no n) = ((λ q. absurd (ground arith)), λ q. absurd (n q))

-- A codec whose texts are the records.
abbrev plain : Codec
plain = record {
  Raw = Snapshot;
  same = same_by;
  same_iff = same_by_iff;
  size = λ _. 1;
  marshal = λ s. s;
  parse = λ s. some s;
  parse-marshal = λ _ _. refl;
}

abbrev uuid : String
uuid = "0b5f2f6e-30b8-4d5c-9a51-0d2a6f1c7e42"

abbrev digest : String
digest = "00112233445566778899aabbccddeeff00112233445566778899aabbccddeeff"

abbrev fresh : Snapshot
unfolding claimed fresh_states
fresh = claimed uuid single ("gpt" ∷ []) 1000 digest

-- A delta of the model, by the bearer of the lease.
abbrev grown : Snapshot
grown = record fresh {
  updated_at = 2000;
  model_states =
      ("gpt", record { seq = 1; state = running; error_code = ""; message_guid = "" }) ∷ [];
}

claim_runs :
    claim plain (pos 7) uuid single ("gpt" ∷ []) 1000 digest none ≡ (some fresh, granted fresh)
unfolding claim claim_script encode decode claimed enriched fresh_states valid_snapshot
    valid_identity contains valid_input canonical_uuid distinct_models mode_fits model_identifier
    valid_lease valid_digest all_hex valid_error valid_counts count_models valid_found valid_model
    Dict.get
claim_runs = refl

claim_loses :
    claim plain (pos 8) uuid single ("gpt" ∷ []) 3000 digest (some grown)
    ≡ (some grown, duplicate grown)
unfolding claim claim_script tombstone_time tombstone enriched encode decode claimed fresh_states
    valid_snapshot valid_identity contains valid_input canonical_uuid distinct_models mode_fits
    model_identifier valid_lease valid_digest all_hex valid_error valid_counts count_models
    valid_found valid_model Dict.get same_by text_discrete
claim_loses = refl

delta_runs :
    mutate_owned plain
      (pos 7)
      uuid
      true
      digest
      2000
      (record_delta "gpt" 1)
      (some fresh)
      (some fresh)
    ≡ (some grown, done grown)
unfolding mutate_owned mutate write cas owned owned_authorized running_lease_authorized
    lease_matches record_delta settle same_by is_yes Snapshot-discrete text_discrete decide_text
    ℕ_discrete encode decode claimed fresh_states valid_snapshot valid_identity contains valid_input
    canonical_uuid distinct_models mode_fits model_identifier valid_lease valid_digest all_hex
    valid_error valid_counts count_models valid_found valid_model Dict.get Dict.put
delta_runs = refl

claim-granted_example :
    (◌≡◌ {A = Option Snapshot} none none)
    × ((claim plain (pos 7) uuid single ("gpt" ∷ []) 1000 digest none).0 ≡ some fresh)
    × (fresh.generation_id ≡ uuid)
    × (fresh.mode ≡ single)
    × (fresh.models ≡ "gpt" ∷ [])
    × (fresh.lease_owner ≡ digest)
    × IsStarted fresh 1000
claim-granted_example =
    claim-granted plain (pos 7) uuid single ("gpt" ∷ []) 1000 digest none fresh
      (ap (λ x. x.1) claim_runs)

mutate_owned-done_example :
    (true ≡ true)
    × (a : Accepted plain 2000 (record_delta "gpt" 1) (some fresh) (some fresh) grown)
    × (a.before.lease_owner ≡ digest)
    × ((is_running a.before.state ≡ false) ⊎ (2000 < a.before.lease_until))
mutate_owned-done_example =
    mutate_owned-done plain (pos 7) uuid true digest 2000 (record_delta "gpt" 1) (some fresh)
      (some fresh) grown (ap (λ x. x.1) delta_runs)

apply-Evolves_example : Evolves plain (some fresh) (
    apply plain
      (pos 7)
      uuid
      (operates 2000 (bearer true digest) (delta "gpt" 1))
      (some fresh)
      (some fresh))
apply-Evolves_example =
    apply-Evolves plain (pos 7) uuid (operates 2000 (bearer true digest) (delta "gpt" 1))
      (some fresh) (some fresh)

-- An operation with an old reading, and one with a fresh one.
abbrev calls : List (Op plain × Option Snapshot)
calls =
    (operates 2000 (bearer true digest) (delta "gpt" 1), some fresh)
    ∷ (operates 3000 anyone asks_cancel, some fresh)
    ∷ (claims single ("gpt" ∷ []) 4000 digest, none)
    ∷ []

granted_once_example :
    (claim plain (pos 7) uuid single ("gpt" ∷ []) 5000 digest (
      history plain
        (pos 7)
        uuid
        calls
        (claim plain (pos 7) uuid single ("gpt" ∷ []) 1000 digest none).0)).1
    ≢ granted fresh
granted_once_example =
    granted_once plain (pos 7) uuid single single ("gpt" ∷ []) ("gpt" ∷ []) 1000 5000 digest digest
      none calls fresh fresh (ap (λ x. x.1) claim_runs)

abbrev ended : Snapshot
ended = record grown {
  state = completed;
  updated_at = 6000;
  lease_owner = "";
  lease_until = 0;
  model_states =
      ("gpt", record { seq = 1; state = completed; error_code = ""; message_guid = "77" }) ∷ [];
}

ended_decodes : decode plain ended ≡ some ended
unfolding encode decode claimed fresh_states valid_snapshot valid_identity contains valid_input
    canonical_uuid distinct_models mode_fits model_identifier valid_lease valid_digest all_hex
    valid_error valid_counts count_models valid_found valid_model Dict.get message_guid
    decimal_value
ended_decodes = refl

history-IsFinal_example : history plain (pos 7) uuid calls (some ended) ≡ some ended
history-IsFinal_example =
    history-IsFinal plain (pos 7) uuid calls ended ended ended_decodes (ended_completed refl)
