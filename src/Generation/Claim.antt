-- ===== src/Generation/Claim.antt =====
-- internal/service/platform_generation_store.go: `Claim`, `Get`, and the script of `Claim`. The
-- script works on the stored text: it recognises the one text that a tombstone of the generation
-- has, which is here the tombstone that the text parses to, written again.
use porsche.Prelude.{
  ℕ, ◌+◌, ◌-◌, String, Bool, true, false, not, ◌&&◌, ◌||◌, Option, none, some, List, [], ◌∷◌,
  str_eq, ltb, if◌then◌else◌,
}
use porsche.Prelude.Int.{ℤ}
use porsche.Prelude.Dict.{Dict}
use porsche.Generation.Identity.{valid_identity, safe_integer, max_safe_integer}
use porsche.Generation.Snapshot.{
  Mode, no_mode, ModelState, Snapshot, State, running, cancelled, valid_input,
}
use porsche.Generation.Changes.{StoreError, invalid, not_found, lease_duration}
use porsche.Generation.Codec.{Codec}
use porsche.Generation.Store.{Cell, encode, decode, Reply, done, refused}

-- `modelStates[model] = PlatformGenerationModel{State: state}` for every model.
unfoldable pub fresh_states : State → List String → Dict ModelState
fresh_states st [] = []
fresh_states st (m ∷ ms) =
    (m, record { seq = 0; state = st; error_code = ""; message_guid = "" }) ∷ fresh_states st ms

-- The record that `Claim` creates.
unfoldable pub claimed : String → Mode → List String → ℕ → String → Snapshot
unfolding fresh_states
claimed id mode models now digest = record {
  generation_id = id;
  mode = mode;
  models = models;
  state = running;
  model_states = fresh_states running models;
  created_at = now;
  updated_at = now;
  error_code = "";
  lease_owner = digest;
  lease_until = now + lease_duration;
}

-- The cancelled record that takes a tombstone's place, with the tombstone's times.
unfoldable pub enriched : String → Mode → List String → ℕ → Snapshot
unfolding fresh_states
enriched id mode models at = record {
  generation_id = id;
  mode = mode;
  models = models;
  state = cancelled;
  model_states = fresh_states cancelled models;
  created_at = at;
  updated_at = at;
  error_code = "";
  lease_owner = "";
  lease_until = 0;
}

-- The record that `CancelOrCreate` creates.
unfoldable pub tombstone : String → ℕ → Snapshot
tombstone id at = record {
  generation_id = id;
  mode = no_mode;
  models = [];
  state = cancelled;
  model_states = [];
  created_at = at;
  updated_at = at;
  error_code = "";
  lease_owner = "";
  lease_until = 0;
}

-- The result of `Claim`: the record, and the lease token if the claim created it.
pub data ClaimReply : Type 0 where
  granted : Snapshot → ClaimReply
  duplicate : Snapshot → ClaimReply
  claim_refused : StoreError → ClaimReply

module _ (c : Codec) where
  open c use {Raw, same, marshal, parse}

  -- The times of the tombstone that a text is, if it is one of this generation.
  unfoldable pub tombstone_time : String → Raw → Option ℕ
  unfolding tombstone
  tombstone_time id raw = elim (parse raw) [
    | none ↦ none
    | some t ↦
        if same raw (marshal (tombstone id t.created_at))
          && ltb 0 t.created_at
          && safe_integer t.created_at
        then some t.created_at
        else none
  ]

  abbrev pub enrich_at : (ℕ → Raw) → Raw → Option ℕ → Raw × Bool
  enrich_at next old none = (old, false)
  enrich_at next old (some at) = (next at, false)

  -- `platformGenerationClaimScript`: the text that is then stored, and whether it was created.
  unfoldable pub claim_script : String → Raw → (ℕ → Raw) → Cell c → Raw × Bool
  unfolding tombstone_time
  claim_script id fresh next none = (fresh, true)
  claim_script id fresh next (some old) = enrich_at next old (tombstone_time id old)

  abbrev pub claim_reply : String → Option Snapshot → Bool → ClaimReply
  claim_reply id none created = claim_refused invalid
  claim_reply id (some s) created =
      if not (str_eq s.generation_id id)
      then claim_refused invalid
      else if created
      then granted s
      else duplicate s

  abbrev pub claim_stored :
      String → (ℕ → Raw) → Option Raw → Option Raw → Cell c → Cell c × ClaimReply
  claim_stored id next none _ cell = (cell, claim_refused invalid)
  claim_stored id next (some fresh) none cell = (cell, claim_refused invalid)
  claim_stored id next (some fresh) (some _) cell =
      let (stored, created) = claim_script id fresh next cell in
      (some stored, claim_reply id (decode c stored) created)

  -- `Claim`; `digest` is that of the lease token which the operation draws.
  unfoldable pub claim : ℤ → String → Mode → List String → ℕ → String → Cell c → Cell c × ClaimReply
  unfolding claim_script claimed enriched
  claim user_id id mode models now digest cell =
      if not (valid_identity user_id id)
        || not (valid_input id mode models now)
        || ltb (max_safe_integer - lease_duration) now
      then (cell, claim_refused invalid)
      else claim_stored id (λ at. marshal (enriched id mode models at))
          (encode c (claimed id mode models now digest)) (encode c (enriched id mode models now))
          cell

  abbrev found_reply : String → Option Snapshot → Reply
  found_reply id none = refused invalid
  found_reply id (some s) = if not (str_eq s.generation_id id) then refused invalid else done s

  -- `Get`.
  unfoldable pub lookup : ℤ → String → Cell c → Reply
  lookup user_id id none =
      if not (valid_identity user_id id) then refused invalid else refused not_found
  lookup user_id id (some raw) =
      if not (valid_identity user_id id) then refused invalid else found_reply id (decode c raw)
