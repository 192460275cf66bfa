-- ===== src/Render/Transitions.antt =====
-- internal/service/public_render_job.go: what the holder of a lease does with the job (`Renew`,
-- `Complete` and `Fail`), each in its transaction; and the service's health.
use porsche.Prelude.Table.{find_row, rows_affected, update}
use porsche.Prelude.{
  ℕ, String, Bool, true, false, not, ◌&&◌, Option, none, some, List, ◌∷◌, str_eq, leb, ◌==◌,
  if◌then◌else◌, Result, ok, err, ◌>>=◌, ◌>>◌, guard,
}
use porsche.Prelude.Int.{ℤ, pos, ltb_ℤ, eq_ℤ}
use porsche.Intent.Texts.{trim_space}
use porsche.Render.{
  RenderError, render_invalid, lease_lost, JobState, queued, leased, succeeded, failed, same_state,
  Job, Publication, Price, Release, Alert, occurred, resolved, Database, Service, Checked,
  max_attempts, attempt_ordinal, attempt_exhausted, next_cycle_base, add_millis, retry_delay,
  sanitize_failure, valid_owner, valid_lease_input, of_row, load_generation, valid, watermark_for,
  crossed_boundary,
}

-- `PublicRenderTransitionInput`.
pub record TransitionInput : Type 0 where
  pub job_guid : ℤ
  pub owner_token : String
  pub fence : ℤ
  pub lease_millis : ℤ
  pub failure : String

abbrev pub is_text : Option String → String → Bool
is_text none t = false
is_text (some s) t = str_eq s t

abbrev pub is_number : Option ℤ → ℤ → Bool
is_number none n = false
is_number (some m) n = eq_ℤ m n

abbrev pub is_state : Option JobState → JobState → Bool
is_state none t = false
is_state (some s) t = same_state s t

-- `terminalReplay`.
unfoldable pub terminal_replay : Job → String → ℤ → ℤ → Bool
terminal_replay job owner fence operation =
    is_text job.last_terminal_owner_hmac owner
    && is_number job.last_terminal_fence fence
    && is_number job.last_terminal_operation operation
    && is_state job.last_terminal_state job.state

abbrev pub alive : Option ℤ → ℤ → Bool
alive none now = false
alive (some at) now = ltb_ℤ now at

-- The job is leased to this owner under this fence, and the lease has not run out.
unfoldable pub holds : String → ℤ → ℤ → Job → Bool
holds owner fence now job =
    same_state job.state leased
    && eq_ℤ job.attempt_count fence
    && is_text job.lease_owner_hmac owner
    && alive job.lease_expires_at now

abbrev pub has_guid : ℤ → Job → Bool
has_guid guid job = eq_ℤ job.guid guid

abbrev pub found_or_lost {ℓ} : {A : Type ℓ} → Option A → Result RenderError A
found_or_lost none = err lease_lost
found_or_lost (some a) = ok a

abbrev pub with_terminal : String → ℤ → ℤ → JobState → Job → Job
with_terminal owner fence operation state job = record job {
  last_terminal_owner_hmac = some owner;
  last_terminal_fence = some fence;
  last_terminal_operation = some operation;
  last_terminal_state = some state;
}

abbrev pub completed : String → ℤ → ℤ → Job → Job
completed owner fence now job = record (with_terminal owner fence (pos 1) succeeded job) {
  state = succeeded;
  completed_at = some now;
  lease_owner_hmac = none;
  lease_expires_at = none;
  last_failure = none;
  updated_at = now;
}

abbrev pub completed_again : String → ℤ → ℤ → ℤ → Job → Job
completed_again owner fence now base job = record (completed owner fence now job) {
  state = queued;
  attempt_count = base;
  completed_at = none;
  last_terminal_state = some queued;
}

abbrev pub renewed : ℤ → ℤ → Job → Job
renewed expires now job = record job { lease_expires_at = some expires; updated_at = now }

-- The updates of `Fail`, to a state and with a time before which the job is not leased again.
abbrev pub failed_with : String → ℤ → String → JobState → Option ℤ → ℤ → Job → Job
failed_with owner fence code state next now job =
    record (with_terminal owner fence (pos 2) state job) {
      state = state;
      last_failure = some code;
      lease_owner_hmac = none;
      updated_at = now;
      completed_at = if attempt_exhausted fence then job.completed_at else none;
      lease_expires_at = next;
    }

abbrev pub occurrence : Option String → ℤ → ℤ → Release → List Alert → List Alert
occurrence none guid now content alerts = alerts
occurrence (some code) guid now content alerts =
    occurred content.version guid (sanitize_failure code) now ∷ alerts

-- A repeated `Fail` is recognised by the failure that the updates carry; `Renew` carries none.
abbrev pub same_failure : Option String → Option String → Bool
same_failure none last = is_text last ""
same_failure (some code) last = is_text last code

-- What `Fail` makes of the job: failed at the last attempt of a cycle, or queued again, and when.
unfoldable pub failure_outcome : ℤ → ℤ → Checked (JobState × Option ℤ)
unfolding attempt_ordinal retry_delay add_millis
failure_outcome now fence =
    let ordinal = attempt_ordinal fence in
    if ordinal == 0
    then err render_invalid
    else if leb max_attempts ordinal
    then ok (failed, none)
    else elim (add_millis now (pos (retry_delay ordinal))) [
      | none ↦ err render_invalid
      | some next ↦ ok (queued, some next)
    ]

module _ (s : Service) where
  abbrev pub valid_transition : ℤ → TransitionInput → Bool
  valid_transition now input =
      valid s now && ltb_ℤ (pos 0) input.job_guid && ltb_ℤ (pos 0) input.fence

  -- The updates of `Complete`: a job whose attempt began before an announcement took effect is
  -- queued again.
  abbrev pub completion : TransitionInput → ℤ → Job → ℤ → Checked (Job → Job)
  completion input now job watermark =
      let owner = s.owner_hmac input.owner_token in
      if crossed_boundary job.completed_at watermark
      then (do
        base ← of_row (next_cycle_base input.fence)
        ok (completed_again owner input.fence now base))
      else ok (completed owner input.fence now)

  abbrev pub complete_held :
      TransitionInput → Database → ℤ → ℕ → Job → (Job → Job) → Checked Database
  complete_held input d now i job change =
      let test = holds (s.owner_hmac input.owner_token) input.fence now in
      do
        guard (rows_affected i test d.jobs == 1) lease_lost
        ok (record d { jobs = update i test change d.jobs; alerts = resolved job.guid ∷ d.alerts })

  abbrev pub complete_current :
      TransitionInput → Database → ℤ → ℕ → Job → Option (Price × Release) → Checked Database
  complete_current input d now i job none = err lease_lost
  complete_current input d now i job (some current) = do
    watermark ← watermark_for s d job.content_release_id now
    change ← completion input now job watermark
    complete_held input d now i job change

  abbrev pub complete_found :
      TransitionInput → Database → Publication → ℤ → ℕ × Job → Checked Database
  complete_found input d at now (i, job) =
      if terminal_replay job (s.owner_hmac input.owner_token) input.fence (pos 1) then ok d else (do
        current ← load_generation d at job.price_snapshot_id job.content_release_id
        complete_current input d now i job current)

  -- `Complete`.
  unfoldable pub complete : ℤ → TransitionInput → Database → Checked Database
  unfolding valid valid_owner find_row terminal_replay load_generation watermark_for
      crossed_boundary next_cycle_base holds rows_affected update
  complete now input d = do
    guard (valid_transition now input && valid_owner input.owner_token) render_invalid
    at ← of_row d.publication
    found ← found_or_lost (find_row (has_guid input.job_guid) d.jobs)
    complete_found input d at now found

  abbrev pub change_held :
      TransitionInput
      → Database
      → ℤ
      → (Job → Job)
      → Option String
      → ℕ
      → Job
      → Release
      → Checked Database
  change_held input d now change code i job content =
      if not (holds (s.owner_hmac (trim_space input.owner_token)) input.fence now job)
      then err lease_lost
      else ok (record d {
        jobs = update i (λ row. true) change d.jobs;
        alerts = occurrence code job.guid now content d.alerts;
      })

  abbrev pub change_current :
      TransitionInput
      → Database
      → ℤ
      → (Job → Job)
      → Option String
      → ℕ
      → Job
      → Option (Price × Release)
      → Checked Database
  change_current input d now change code i job none = err lease_lost
  change_current input d now change code i job (some (price, content)) =
      change_held input d now change code i job content

  abbrev pub transition_found :
      TransitionInput
      → ℤ
      → (Job → Job)
      → Option String
      → Database
      → Publication
      → ℕ × Job
      → Checked Database
  transition_found input now change code d at (i, job) =
      if terminal_replay job (s.owner_hmac input.owner_token) input.fence (pos 2)
      then (if same_failure code job.last_failure then ok d else err lease_lost)
      else (do
        current ← load_generation d at job.price_snapshot_id job.content_release_id
        change_current input d now change code i job current)

  -- `transitionCurrent`.
  unfoldable pub transition_current :
      TransitionInput → ℤ → (Job → Job) → Option String → Database → Checked Database
  unfolding terminal_replay load_generation holds update find_row
  transition_current input now change code d = do
    at ← of_row d.publication
    found ← found_or_lost (find_row (has_guid input.job_guid) d.jobs)
    transition_found input now change code d at found

  -- `Renew`.
  unfoldable pub renew : ℤ → TransitionInput → Database → Checked Database
  unfolding valid valid_lease_input transition_current add_millis
  renew now input d = do
    guard (valid_transition now input && valid_lease_input input.owner_token input.lease_millis)
        render_invalid
    expires ← elim (add_millis now input.lease_millis) [
      | none ↦ err render_invalid
      | some at ↦ ok at
    ]
    transition_current input now (renewed expires now) none d

  -- `Fail`.
  unfoldable pub fail : ℤ → TransitionInput → Database → Checked Database
  unfolding valid valid_owner failure_outcome sanitize_failure attempt_exhausted transition_current
  fail now input d = do
    guard (valid_transition now input && valid_owner input.owner_token) render_invalid
    outcome ← failure_outcome now input.fence
    let code = sanitize_failure input.failure
    let change =
        failed_with (s.owner_hmac input.owner_token) input.fence code outcome.0 outcome.1 now
    transition_current input now change (some code) d
