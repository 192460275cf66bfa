-- ===== src/Generation/Lifecycle.antt =====
-- The lifecycle of a generation, and all the calls that may change its record.
pub mod Births
mod Edges
pub mod Evolution
pub mod Applied
pub mod Ownership
pub mod Finality
pub mod Exclusive
mod Samples
use porsche.Prelude.{
  ℕ, ◌+◌, String, Bool, true, false, not, ◌&&◌, ◌||◌, Option, none, some, List, [], ◌∷◌, ltb, leb,
  ◌==◌, if◌then◌else◌,
}
use porsche.Prelude.Int.{ℤ}
use porsche.Prelude.Dict.{Dict}
use porsche.Generation.Identity.{valid_identity, safe_integer, model_identifier}
use porsche.Generation.Snapshot.{Mode, Snapshot, stable_code}
use porsche.Generation.Changes.{
  Change, StoreError, invalid, record_delta, mark_model_done, mark_model_failed, request_cancel,
  mark_cancelled, begin_commit, complete, fail_stale_commit, fail,
}
use porsche.Generation.Codec.{Codec}
use porsche.Generation.Store.{Cell, Reply, refused, mutate, mutate_owned}
use porsche.Generation.Claim.{claim}
use porsche.Generation.Control.{
  renew_lease, fail_expired_running, converge_stale_cancelling, cancel_or_create,
}

-- The operations that go through `mutate`, with their arguments.
pub data Call : Type 0 where
  delta done_model : String → ℕ → Call
  failed_model : String → String → Call
  asks_cancel acknowledges commits : Call
  completes : Dict String → Call
  fails_stale fails : String → Call

-- The tests of the operations before they call `mutate`.
unfoldable pub precheck : Call → ℕ → Bool
precheck (delta model seq) now = model_identifier model && safe_integer seq && not (seq == 0)
precheck (done_model model seq) now = model_identifier model && safe_integer seq
precheck (failed_model model code) now = model_identifier model && stable_code code
precheck asks_cancel now = true
precheck acknowledges now = true
precheck commits now = true
precheck (completes guids) now = true
precheck (fails_stale code) now = not (now == 0) && stable_code code
precheck (fails code) now = stable_code code

unfoldable pub change_of : Call → ℕ → Change
change_of (delta model seq) now = record_delta model seq
change_of (done_model model seq) now = mark_model_done model seq
change_of (failed_model model code) now = mark_model_failed model code
change_of asks_cancel now = request_cancel
change_of acknowledges now = mark_cancelled
change_of commits now = begin_commit
change_of (completes guids) now = complete guids
change_of (fails_stale code) now = fail_stale_commit code now
change_of (fails code) now = fail code

-- A call by anyone, or by the bearer of a lease token: the test of its form, and its digest.
pub data Caller : Type 0 where
  anyone : Caller
  bearer : Bool → String → Caller

module _ (c : Codec) where
  unfoldable pub operate : ℤ → String → ℕ → Caller → Call → Cell c → Cell c → Cell c × Reply
  operate user_id id now anyone call read cell =
      if not (precheck call now)
      then (cell, refused invalid)
      else mutate c user_id id now (change_of call now) read cell
  operate user_id id now (bearer ok digest) call read cell =
      if not (precheck call now)
      then (cell, refused invalid)
      else mutate_owned c user_id id ok digest now (change_of call now) read cell

  -- Any operation on the record, by any process, at any time.
  pub data Op : Type 0 where
    operates : ℕ → Caller → Call → Op
    claims : Mode → List String → ℕ → String → Op
    renews : Bool → String → ℕ → Op
    expires converges cancels : ℕ → Op

  -- What an operation leaves in the cell, for whatever its GET read before.
  unfoldable pub apply : ℤ → String → Op → Cell c → Cell c → Cell c
  apply u id (operates now who call) read cell = (operate u id now who call read cell).0
  apply u id (claims mode models now digest) read cell =
      (claim c u id mode models now digest cell).0
  apply u id (renews ok digest now) read cell = (renew_lease c u id ok digest now read cell).0
  apply u id (expires now) read cell = (fail_expired_running c u id now read cell).0
  apply u id (converges now) read cell = (converge_stale_cancelling c u id now read cell).0
  apply u id (cancels now) read cell = (cancel_or_create c u id now read cell).0

  -- An execution: each operation with the cell that its GET read, which may be long out of date.
  unfoldable pub history : ℤ → String → List (Op × Cell c) → Cell c → Cell c
  history u id [] cell = cell
  history u id ((o, read) ∷ rest) cell = history u id rest (apply u id o read cell)
