-- ===== src/Generation/Changes.antt =====
-- internal/service/platform_generation_store.go: the changes that the lifecycle operations make to a
-- snapshot, each the function that the operation hands to `mutate`. A change refuses with the error
-- that the operation returns.
use porsche.Prelude.{
  ℕ, suc, ◌+◌, String, Bool, true, false, not, ◌&&◌, ◌||◌, Option, none, some, List, [], ◌∷◌,
  str_eq, ltb, ◌==◌, if◌then◌else◌, length, contains, Result, ok, err, ◌>>=◌, ◌>>◌, guard,
}
use porsche.Prelude.Dict
use porsche.Prelude.Dict.{Dict}
use porsche.Generation.Identity.{codes, message_guid}
use porsche.Generation.Snapshot.{
  ModelState, Snapshot, running, cancelling, cancelled, committing, completed, failed, undefined,
  is_running, is_cancelling, is_committing, is_completed, state_of,
}

pub data StoreError : Type 0 where
  invalid conflict not_found : StoreError

abbrev pub convergence_window : ℕ
convergence_window = 30000

abbrev pub lease_duration : ℕ
lease_duration = 30000

abbrev pub Change : Type 0
Change = Snapshot → Result StoreError Snapshot

-- `snapshot.ModelStates[model] = state`.
abbrev pub put_model : Snapshot → String → ModelState → Snapshot
put_model s model m = record s { model_states = Dict.put s.model_states model m }

-- The guard that the model operations share, and the write that follows it.
abbrev pub change_found :
    Snapshot
    → String
    → (ModelState → Bool)
    → (ModelState → ModelState)
    → Option ModelState
    → Result StoreError Snapshot
change_found s model test write none = err conflict
change_found s model test write (some m) =
    if is_running s.state && is_running m.state && test m
    then ok (put_model s model (write m))
    else err conflict

-- `RecordDelta` and `RecordDeltaOwned`.
unfoldable pub record_delta : String → ℕ → Change
record_delta model seq s =
    change_found s model (λ m. seq == m.seq + 1) (λ m. record m { seq = seq })
      (Dict.get s.model_states model)

-- `MarkModelDone` and `MarkModelDoneOwned`.
unfoldable pub mark_model_done : String → ℕ → Change
mark_model_done model last_seq s =
    change_found s model (λ m. m.seq == last_seq) (λ m. record m { state = completed })
      (Dict.get s.model_states model)

-- `MarkModelFailed` and `MarkModelFailedOwned`.
unfoldable pub mark_model_failed : String → String → Change
mark_model_failed model code s =
    change_found s model (λ _. true) (λ m. record m { state = failed; error_code = code })
      (Dict.get s.model_states model)

-- `RequestCancel`.
unfoldable pub request_cancel : Change
request_cancel s =
    if not (is_running s.state) then err conflict else ok (record s { state = cancelling })

-- A loop over the map that rewrites the running models.
unfoldable pub stop_running : (ModelState → ModelState) → Dict ModelState → Dict ModelState
stop_running write [] = []
stop_running write ((k, m) ∷ ms) =
    (k, if is_running m.state then write m else m) ∷ stop_running write ms

abbrev pub cancel_model : ModelState → ModelState
cancel_model m = record m { state = cancelled }

abbrev pub fail_model : String → ModelState → ModelState
fail_model code m = record m { state = failed; error_code = code }

-- `MarkCancelled` and `acknowledgeCancelledOwnedSnapshot`.
unfoldable pub mark_cancelled : Change
mark_cancelled s =
    if not (is_cancelling s.state)
    then err conflict
    else ok
        (record s { state = cancelled; model_states = stop_running cancel_model s.model_states })

-- The loop of `BeginCommit`: the number of successes, unless a model is not yet done.
unfoldable pub successes : Dict ModelState → List String → ℕ → Option ℕ
successes states [] n = some n
successes states (m ∷ ms) n = elim (state_of (Dict.get states m)) [
  | completed ↦ successes states ms (suc n)
  | failed ↦ successes states ms n
  | running ↦ none
  | cancelling ↦ none
  | cancelled ↦ none
  | committing ↦ none
  | undefined ↦ none
]

abbrev some_success : Option ℕ → Bool
some_success none = false
some_success (some n) = not (n == 0)

-- `BeginCommit` and `BeginCommitOwned`.
unfoldable pub begin_commit : Change
begin_commit s =
    if not (is_running s.state)
    then err conflict
    else if some_success (successes s.model_states s.models 0)
    then ok (record s { state = committing })
    else err conflict

abbrev pub text_of : Option String → String
text_of none = ""
text_of (some t) = t

abbrev pub is_found : Option String → Bool
is_found none = false
is_found (some _) = true

abbrev pub model_of : Option ModelState → ModelState
model_of none = record { seq = 0; state = undefined; error_code = ""; message_guid = "" }
model_of (some m) = m

-- The loop of `Complete`: every completed model is given its message, and no message twice.
unfoldable pub assign_guids :
    Dict String
    → List String
    → List String
    → ℕ
    → Dict ModelState
    → Result StoreError (ℕ × Dict ModelState)
assign_guids guids [] seen n states = ok (n, states)
assign_guids guids (m ∷ ms) seen n states =
    let found = Dict.get states m in
    let guid = text_of (Dict.get guids m) in
    let skip = assign_guids guids ms seen n states in
    let next =
      assign_guids guids ms (guid ∷ seen) (suc n)
        (Dict.put states m (record (model_of found) { message_guid = guid })) in
    if not (is_completed (state_of found))
    then skip
    else if not (is_found (Dict.get guids m) && message_guid guid)
    then err invalid
    else if contains seen guid
    then err invalid
    else next

-- `Complete`.
unfoldable pub complete : Dict String → Change
complete guids s = if not (is_committing s.state) then err conflict else (do
  assigned ← assign_guids guids s.models [] 0 s.model_states
  guard (length guids == assigned.0) invalid
  ok (record s { state = completed; model_states = assigned.1 }))

-- `FailStaleCommit`, at the time of the call.
unfoldable pub fail_stale_commit : String → ℕ → Change
fail_stale_commit code now s =
    if not (is_committing s.state) || ltb now (s.updated_at + convergence_window)
    then err conflict
    else ok (record s { state = failed; error_code = code })

-- `Fail` and `failOwnedSnapshot`.
unfoldable pub fail : String → Change
fail code s =
    if not (is_running s.state)
    then err conflict
    else ok (record s {
      state = failed;
      error_code = code;
      model_states = stop_running (fail_model code) s.model_states;
    })

-- `platformGenerationLeaseMatches`; a constant-time comparison is equality.
unfoldable pub lease_matches : Snapshot → String → Bool
lease_matches s digest =
    length (codes s.lease_owner) == 64 && length (codes digest) == 64 && str_eq s.lease_owner digest

-- `platformGenerationRunningLeaseAuthorized`.
unfoldable pub running_lease_authorized : Snapshot → String → ℕ → Bool
unfolding lease_matches
running_lease_authorized s digest now =
    is_running s.state && lease_matches s digest && ltb now s.lease_until

-- `platformGenerationOwnedMutationAuthorized`.
unfoldable pub owned_authorized : Snapshot → String → ℕ → Bool
unfolding running_lease_authorized
owned_authorized s digest now =
    if is_running s.state then running_lease_authorized s digest now else lease_matches s digest

-- The change that `mutateOwned` hands on.
unfoldable pub owned : String → ℕ → Change → Change
owned digest now change s = if not (owned_authorized s digest now) then err conflict else change s

-- What `mutate` does after a change: the time, and the lease of a record that no longer runs.
unfoldable pub settle : ℕ → Snapshot → Snapshot
settle now s =
    if is_cancelling s.state
    then record s { updated_at = now; lease_until = 0 }
    else if not (is_running s.state)
    then record s { updated_at = now; lease_owner = ""; lease_until = 0 }
    else record s { updated_at = now }
