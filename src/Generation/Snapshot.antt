-- ===== src/Generation/Snapshot.antt =====
-- internal/service/platform_generation_store.go: the durable record of a generation and the test
-- that every stored record passes. An integer that is none of an enumeration's values is
-- `undefined`; mode 0, the absent mode of a tombstone, is `no_mode`. Times and sequence numbers are
-- natural numbers: the code refuses a negative one wherever it refuses one that is too large.
use porsche.Prelude.{
  ℕ, ◌+◌, String, Bool, true, false, not, ◌&&◌, Option, none, some, List, [], ◌∷◌, str_eq, ltb, leb,
  ◌==◌, if◌then◌else◌, length, contains,
}
use porsche.Prelude.Dict
use porsche.Prelude.Dict.{Dict}
use porsche.Generation.Identity.{
  codes, canonical_uuid, is_lower_hex, safe_integer, model_identifier, message_guid,
}

pub data Mode : Type 0 where
  no_mode single compare undefined : Mode

pub data State : Type 0 where
  running cancelling cancelled committing completed failed undefined : State

pub record ModelState : Type 0 where
  pub seq : ℕ
  pub state : State
  pub error_code : String
  pub message_guid : String

pub record Snapshot : Type 0 where
  pub generation_id : String
  pub mode : Mode
  pub models : List String
  pub state : State
  pub model_states : Dict ModelState
  pub created_at : ℕ
  pub updated_at : ℕ
  pub error_code : String
  pub lease_owner : String
  pub lease_until : ℕ

abbrev pub is_running : State → Bool
is_running running = true
is_running _ = false

abbrev pub is_cancelling : State → Bool
is_cancelling cancelling = true
is_cancelling _ = false

abbrev pub is_committing : State → Bool
is_committing committing = true
is_committing _ = false

abbrev pub is_completed : State → Bool
is_completed completed = true
is_completed _ = false

abbrev pub is_failed : State → Bool
is_failed failed = true
is_failed _ = false

-- `platformSSEV2StableCodes`.
unfoldable pub stable_codes : List String
stable_codes =
    "gateway_upstream_error" ∷ "invalid_request" ∷ "rate_limited" ∷ "cancelled" ∷ "timeout"
    ∷ "internal_error" ∷ "upstream_error" ∷ []

unfoldable pub stable_code : String → Bool
stable_code c = contains stable_codes c

abbrev pub max_models : ℕ
max_models = 3

-- The loop over the models of `validatePlatformGenerationInput`.
unfoldable pub distinct_models : List String → List String → Bool
distinct_models seen [] = true
distinct_models seen (m ∷ ms) =
    model_identifier m && not (contains seen m) && distinct_models (m ∷ seen) ms

unfoldable pub mode_fits : Mode → ℕ → Bool
mode_fits single n = n == 1
mode_fits compare n = leb 2 n
mode_fits no_mode n = false
mode_fits undefined n = false

-- `validatePlatformGenerationInput` returns nil, its user identifier apart.
unfoldable pub valid_input : String → Mode → List String → ℕ → Bool
valid_input generation_id mode models now =
    canonical_uuid generation_id
    && safe_integer now
    && not (length models == 0)
    && leb (length models) max_models
    && mode_fits mode (length models)
    && distinct_models [] models

unfoldable pub all_hex : List ℕ → Bool
all_hex [] = true
all_hex (c ∷ cs) = is_lower_hex c && all_hex cs

-- `validPlatformGenerationLeaseDigest`.
unfoldable pub valid_digest : String → Bool
valid_digest value = length (codes value) == 64 && all_hex (codes value)

-- `validPlatformGenerationLease`.
unfoldable pub valid_lease : State → String → ℕ → Bool
valid_lease running owner until = valid_digest owner && safe_integer until && ltb 0 until
valid_lease cancelling owner until = valid_digest owner && until == 0
valid_lease _ owner until = str_eq owner "" && until == 0

-- The `switch` on a model's state, under the state of the record.
unfoldable pub valid_model : State → ModelState → Bool
valid_model s m = elim m.state [
  | running ↦ str_eq m.error_code "" && str_eq m.message_guid ""
  | completed ↦
      str_eq m.error_code ""
      && (if is_completed s then message_guid m.message_guid else str_eq m.message_guid "")
  | failed ↦ stable_code m.error_code && str_eq m.message_guid ""
  | cancelled ↦ str_eq m.error_code "" && str_eq m.message_guid ""
  | cancelling ↦ false
  | committing ↦ false
  | undefined ↦ false
]

abbrev pub is_terminal_model : State → Bool
is_terminal_model completed = true
is_terminal_model failed = true
is_terminal_model cancelled = true
is_terminal_model _ = false

abbrev pub bit : Bool → ℕ
bit true = 1
bit false = 0

unfoldable pub valid_found : State → Option ModelState → Bool
valid_found s none = false
valid_found s (some m) = safe_integer m.seq && valid_model s m

abbrev pub state_of : Option ModelState → State
state_of none = undefined
state_of (some m) = m.state

-- The loop over the models: `none` is the early `return false`, and otherwise the counts of
-- terminal and of successful models.
unfoldable pub count_models : State → Dict ModelState → List String → ℕ → ℕ → Option (ℕ × ℕ)
count_models s states [] terminal successful = some (terminal, successful)
count_models s states (m ∷ ms) terminal successful =
    let found = Dict.get states m in
    let rest =
      count_models s states ms (bit (is_terminal_model (state_of found)) + terminal)
        (bit (is_completed (state_of found)) + successful) in
    if valid_found s found then rest else none

-- The last tests, on the counts.
unfoldable pub valid_counts : State → ℕ → Option (ℕ × ℕ) → Bool
valid_counts s n none = false
valid_counts committing n (some (t, k)) = t == n && ltb 0 k
valid_counts completed n (some (t, k)) = t == n && ltb 0 k
valid_counts cancelled n (some (t, k)) = t == n
valid_counts failed n (some (t, k)) = t == n
valid_counts running n (some (t, k)) = true
valid_counts cancelling n (some (t, k)) = true
valid_counts undefined n (some (t, k)) = true

abbrev is_empty {ℓ} : {A : Type ℓ} → List A → Bool
is_empty [] = true
is_empty (_ ∷ _) = false

-- `validPlatformGenerationTombstone`.
unfoldable pub valid_tombstone : Snapshot → Bool
valid_tombstone s =
    is_empty s.models
    && is_empty s.model_states
    && str_eq s.error_code ""
    && str_eq s.lease_owner ""
    && s.lease_until == 0
    && canonical_uuid s.generation_id
    && ltb 0 s.created_at
    && safe_integer s.created_at
    && s.updated_at == s.created_at

abbrev pub is_tombstone : State → Mode → Bool
is_tombstone cancelled no_mode = true
is_tombstone _ _ = false

abbrev pub is_defined : State → Bool
is_defined undefined = false
is_defined _ = true

-- The error code goes with the failed state.
unfoldable pub valid_error : State → String → Bool
valid_error s code = if is_failed s then stable_code code else str_eq code ""

-- `validPlatformGenerationSnapshot`.
unfoldable pub valid_snapshot : Snapshot → Bool
valid_snapshot s =
    if is_tombstone s.state s.mode
    then valid_tombstone s
    else valid_input s.generation_id s.mode s.models s.created_at
      && safe_integer s.updated_at
      && leb s.created_at s.updated_at
      && length s.model_states == length s.models
      && valid_lease s.state s.lease_owner s.lease_until
      && is_defined s.state
      && valid_error s.state s.error_code
      && valid_counts s.state (length s.models) (count_models s.state s.model_states s.models 0 0)
