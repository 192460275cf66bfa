-- ===== src/Generation/Control.antt =====
-- internal/service/platform_generation_store_control.go: cancellation before or during a run, lease
-- renewal, and the convergence of abandoned records.
use porsche.Prelude.{
  ℕ, ◌+◌, ◌-◌, String, Bool, false, not, ◌&&◌, ◌||◌, Option, none, some, str_eq, ltb, leb, ◌==◌,
  if◌then◌else◌,
}
use porsche.Prelude.Int.{ℤ}
use porsche.Generation.Identity.{valid_identity, safe_integer, max_safe_integer}
use porsche.Generation.Snapshot.{Snapshot, cancelling, cancelled, failed, is_running, is_cancelling}
use porsche.Generation.Changes.{
  StoreError, invalid, conflict, not_found, stop_running, cancel_model, fail_model,
  convergence_window, lease_duration, running_lease_authorized,
}
use porsche.Generation.Codec.{Codec}
use porsche.Generation.Store.{Cell, encode, decode, cas, Reply, done, refused}
use porsche.Generation.Claim.{tombstone}

-- `platformGenerationLatestRunningActivity`. Where the lease ends within its first duration the
-- source's difference is negative and this one is 0: neither exceeds the time of the last update.
unfoldable pub latest_running_activity : Snapshot → ℕ
latest_running_activity s =
    if s.lease_until == 0
    then s.updated_at
    else if ltb s.updated_at (s.lease_until - lease_duration)
    then s.lease_until - lease_duration
    else s.updated_at

-- `renewPlatformGenerationLeaseSnapshot`.
unfoldable pub renewed : ℕ → Snapshot → Snapshot
renewed now s = record s { updated_at = now; lease_until = now + lease_duration }

-- The record that `CancelOrCreate` turns a running one into.
unfoldable pub cancelling_from : ℕ → Snapshot → Snapshot
cancelling_from now s = record s { state = cancelling; updated_at = now; lease_until = 0 }

-- The record that `FailExpiredRunning` writes.
unfoldable pub expired_from : ℕ → Snapshot → Snapshot
expired_from now s = record s {
  state = failed;
  model_states = stop_running (fail_model "internal_error") s.model_states;
  error_code = "internal_error";
  updated_at = now;
  lease_owner = "";
  lease_until = 0;
}

-- The record that `ConvergeStaleCancelling` writes.
unfoldable pub converged_from : ℕ → Snapshot → Snapshot
converged_from now s = record s {
  state = cancelled;
  model_states = stop_running cancel_model s.model_states;
  updated_at = now;
  lease_owner = "";
  lease_until = 0;
}

pub data CancelReply : Type 0 where
  unchanged created transitioned cancel_conflict : Snapshot → CancelReply
  cancel_refused : StoreError → CancelReply

-- What the client knows when it calls the script of `CancelOrCreate`: whether the record that it
-- read was understood, whether it runs, and the record to write in its place, if any.
pub data Expected {ℓ} (R : Type ℓ) : Type ℓ where
  unread settled_read stuck : Expected R
  next_read : R → Expected R

module _ (c : Codec) where
  open c use {Raw, same, parse}

  abbrev control_reply : String → Cell c → Bool → Reply
  control_reply id none wrote = refused not_found
  control_reply id (some raw) wrote = elim (decode c raw) [
    | none ↦ refused invalid
    | some s ↦
        if not (str_eq s.generation_id id)
        then refused invalid
        else if wrote
        then done s
        else refused conflict
  ]

  -- `writePlatformGenerationControlCAS`.
  unfoldable pub control_write : String → Raw → Option Raw → Cell c → Cell c × Reply
  unfolding cas decode
  control_write id read none cell = (cell, refused invalid)
  control_write id read (some next) cell =
      let (cell', wrote) = cas c read next cell in (cell', control_reply id cell' wrote)

  -- `loadPlatformGenerationForControl`, a guard on the record, and the write: the common body of the
  -- three control operations.
  abbrev pub control_found :
      String
      → (Snapshot → Bool)
      → (Snapshot → Snapshot)
      → Raw
      → Option Snapshot
      → Cell c
      → Cell c × Reply
  control_found id test next read none cell = (cell, refused invalid)
  control_found id test next read (some s) cell =
      if not (str_eq s.generation_id id)
      then (cell, refused invalid)
      else if not (test s)
      then (cell, refused conflict)
      else control_write id read (encode c (next s)) cell

  abbrev pub control :
      String → (Snapshot → Bool) → (Snapshot → Snapshot) → Cell c → Cell c → Cell c × Reply
  control id test next none cell = (cell, refused not_found)
  control id test next (some read) cell = control_found id test next read (decode c read) cell

  unfoldable pub renew_lease : ℤ → String → Bool → String → ℕ → Cell c → Cell c → Cell c × Reply
  unfolding control_write latest_running_activity
  renew_lease user_id id well_formed digest now read cell =
      if not (valid_identity user_id id)
        || not well_formed
        || not (safe_integer now)
        || now == 0
        || ltb (max_safe_integer - lease_duration) now
      then (cell, refused invalid)
      else control id
          (λ s. running_lease_authorized s digest now && leb (latest_running_activity s) now)
          (renewed now) read cell

  unfoldable pub fail_expired_running : ℤ → String → ℕ → Cell c → Cell c → Cell c × Reply
  unfolding control_write
  fail_expired_running user_id id now read cell =
      if not (valid_identity user_id id) || not (safe_integer now) || now == 0
      then (cell, refused invalid)
      else control id
          (λ s.
            is_running s.state
            && leb s.updated_at now
            && (s.lease_until == 0 || leb s.lease_until now))
          (expired_from now) read cell

  unfoldable pub converge_stale_cancelling : ℤ → String → ℕ → Cell c → Cell c → Cell c × Reply
  unfolding control_write
  converge_stale_cancelling user_id id now read cell =
      if not (valid_identity user_id id) || not (safe_integer now) || now == 0
      then (cell, refused invalid)
      else control id (λ s. is_cancelling s.state && leb (s.updated_at + convergence_window) now)
          (converged_from now) read cell

  -- What `CancelOrCreate` makes of the record that it read; `next_read none` is its early return for
  -- a record that cannot be encoded.
  unfoldable pub expectation : String → ℕ → Option Snapshot → Expected (Option Raw)
  unfolding latest_running_activity
  expectation id now none = unread
  expectation id now (some s) =
      if not (str_eq s.generation_id id)
      then unread
      else if not (is_running s.state)
      then settled_read
      else if ltb now (latest_running_activity s)
      then stuck
      else next_read (encode c (cancelling_from now s))

  abbrev pub cancel_reply : String → (Snapshot → CancelReply) → Raw → CancelReply
  cancel_reply id answer raw = elim (decode c raw) [
    | none ↦ cancel_refused invalid
    | some s ↦ if not (str_eq s.generation_id id) then cancel_refused invalid else answer s
  ]

  -- The script where the cell is still the record that was read.
  abbrev pub cancel_same : String → Raw → Expected (Option Raw) → Cell c × CancelReply
  cancel_same id old unread = (some old, cancel_refused invalid)
  cancel_same id old settled_read = (some old, cancel_reply id unchanged old)
  cancel_same id old stuck = (some old, cancel_reply id cancel_conflict old)
  cancel_same id old (next_read none) = (some old, cancel_refused invalid)
  cancel_same id old (next_read (some next)) = (some next, cancel_reply id transitioned next)

  -- The script where it is another: it reads the state alone, of whatever parses.
  abbrev pub cancel_other : String → Raw → Cell c × CancelReply
  cancel_other id old = elim (parse old) [
    | none ↦ (some old, cancel_refused invalid)
    | some s ↦
        if is_running s.state
        then (some old, cancel_reply id cancel_conflict old)
        else (some old, cancel_reply id unchanged old)
  ]

  abbrev pub same_read : Cell c → Raw → Bool
  same_read none old = false
  same_read (some read) old = same old read

  -- `platformGenerationCancelOrCreateScript`.
  unfoldable pub cancel_script :
      String → Raw → Cell c → Expected (Option Raw) → Cell c → Cell c × CancelReply
  cancel_script id fresh read e none = (some fresh, cancel_reply id created fresh)
  cancel_script id fresh read e (some old) =
      if same_read read old then cancel_same id old e else cancel_other id old

  abbrev pub decode_cell : Cell c → Option Snapshot
  decode_cell none = none
  decode_cell (some raw) = decode c raw

  abbrev pub cancel_with :
      String → Option Raw → Cell c → Expected (Option Raw) → Cell c → Cell c × CancelReply
  cancel_with id none read e cell = (cell, cancel_refused invalid)
  cancel_with id (some fresh) read (next_read none) cell = (cell, cancel_refused invalid)
  cancel_with id (some fresh) read (next_read (some r)) cell =
      cancel_script id fresh read (next_read (some r)) cell
  cancel_with id (some fresh) read unread cell = cancel_script id fresh read unread cell
  cancel_with id (some fresh) read settled_read cell = cancel_script id fresh read settled_read cell
  cancel_with id (some fresh) read stuck cell = cancel_script id fresh read stuck cell

  unfoldable pub cancel_or_create : ℤ → String → ℕ → Cell c → Cell c → Cell c × CancelReply
  unfolding cancel_script expectation tombstone
  cancel_or_create user_id id now read cell =
      if not (valid_identity user_id id) || not (safe_integer now) || now == 0
      then (cell, cancel_refused invalid)
      else cancel_with id (encode c (tombstone id now)) read (expectation id now (decode_cell read))
          cell
