-- ===== src/Render/Edges.antt =====
-- The edges of the lifecycle of one job of internal/service/public_render_job.go, written out column
-- by column.
use porsche.Prelude.{ℕ, suc, ◌*◌, ◌+◌, ◌≡◌, ◌⊎◌, String, Option, none, some}
use porsche.Prelude.Int.{ℤ, pos, pos_part, neg_part, ◌≤ℤ◌}
use porsche.Render.{Job, JobState, queued, leased, succeeded, failed}
use porsche.Render.Rules.{IsHeld, IsRecorded, IsSameJob, IsCycleEnd}

-- The columns of a row that a change sets, its record of the last lease apart.
pub record IsRow (state : JobState) (attempts : ℤ) (owner : Option String) (expires : Option ℤ)
    (failure : Option String) (completed : Option ℤ) (now : ℤ) (job : Job) : Type 0 where
  pub stands : job.state ≡ state
  pub counted : job.attempt_count ≡ attempts
  pub owned : job.lease_owner_hmac ≡ owner
  pub leased_until : job.lease_expires_at ≡ expires
  pub has_failed : job.last_failure ≡ failure
  pub ended_at : job.completed_at ≡ completed
  pub stamped : job.updated_at ≡ now

-- The row has no record of a lease that ended.
pub record IsCleared (job : Job) : Type 0 where
  pub no_owner : job.last_terminal_owner_hmac ≡ none
  pub no_fence : job.last_terminal_fence ≡ none
  pub no_operation : job.last_terminal_operation ≡ none
  pub no_state : job.last_terminal_state ≡ none

pub record KeepsRecord (a b : Job) : Type 0 where
  pub same_owner : b.last_terminal_owner_hmac ≡ a.last_terminal_owner_hmac
  pub same_fence : b.last_terminal_fence ≡ a.last_terminal_fence
  pub same_operation : b.last_terminal_operation ≡ a.last_terminal_operation
  pub same_state : b.last_terminal_state ≡ a.last_terminal_state

-- A time that is set and has come.
abbrev pub IsPast : ℤ → Option ℤ → Type 0
IsPast now o = (at : ℤ) × (o ≡ some at) × (at ≤ℤ now)

-- A worker may lease the job: it is queued and need not wait any more, or its lease has run out.
abbrev pub IsDue : ℤ → Job → Type 0
IsDue now job =
    ((job.state ≡ queued) × ((job.lease_expires_at ≡ none) ⊎ IsPast now job.lease_expires_at))
    ⊎ ((job.state ≡ leased) × IsPast now job.lease_expires_at)

-- The fence is the last of its cycle of three attempts.
abbrev pub IsLast : ℤ → Type 0
IsLast fence = (n : ℕ) × (fence ≡ pos (3 * suc n))

-- The one number is the next after the other.
abbrev pub IsNext : ℤ → ℤ → Type 0
IsNext a b = pos_part b + neg_part a ≡ suc (pos_part a + neg_part b)

-- The time of the next attempt after a failure: 5 seconds later after the first attempt of a cycle,
-- 10 seconds after the second.
abbrev pub IsRetry : ℤ → ℤ → ℤ → Type 0
IsRetry fence now next =
    (n : ℕ) × (t : ℕ) × (now ≡ pos t)
    × (((fence ≡ pos (3 * n + 1)) × (next ≡ pos (t + 5000)))
        ⊎ ((fence ≡ pos (3 * n + 2)) × (next ≡ pos (t + 10000))))

pub data JobEdge (a b : Job) : Type 0 where
  requeues :
      (now base : ℤ)
      → (a.state ≡ succeeded) ⊎ (a.state ≡ failed)
      → IsCycleEnd a.attempt_count base
      → IsSameJob a b
      → IsCleared b
      → IsRow queued base none none none none now b
      → JobEdge a b
  drops :
      (now : ℤ)
      → IsDue now a
      → IsSameJob a b
      → KeepsRecord a b
      → IsRow failed a.attempt_count none none (some "obsolete_generation") none now b
      → JobEdge a b
  exhausts :
      (now : ℤ)
      → a.state ≡ leased
      → IsPast now a.lease_expires_at
      → IsLast a.attempt_count
      → IsSameJob a b
      → IsCleared b
      → IsRow failed a.attempt_count none none (some "render_failed") a.completed_at now b
      → JobEdge a b
  takes :
      (owner : String) (attempt expires now : ℤ)
      → IsDue now a
      → (a.state ≡ queued) ⊎ (¬ IsLast a.attempt_count)
      → IsNext a.attempt_count attempt
      → attempt ≤ℤ pos 2147483647
      → IsSameJob a b
      → IsCleared b
      → IsRow leased attempt (some owner) (some expires) none (some now) now b
      → JobEdge a b
  renews :
      (owner : String) (fence expires now : ℤ)
      → IsHeld owner fence now a
      → IsSameJob a b
      → KeepsRecord a b
      → IsRow leased fence (some owner) (some expires) a.last_failure a.completed_at now b
      → JobEdge a b
  completes :
      (owner : String) (fence now : ℤ)
      → IsHeld owner fence now a
      → IsSameJob a b
      → IsRecorded owner fence (pos 1) b
      → IsRow succeeded fence none none none (some now) now b
      → JobEdge a b
  completes_again :
      (owner : String) (fence now base : ℤ)
      → IsHeld owner fence now a
      → IsCycleEnd fence base
      → IsSameJob a b
      → IsRecorded owner fence (pos 1) b
      → IsRow queued base none none none none now b
      → JobEdge a b
  gives_up :
      (owner : String) (fence : ℤ) (code : String) (now : ℤ)
      → IsHeld owner fence now a
      → IsLast fence
      → IsSameJob a b
      → IsRecorded owner fence (pos 2) b
      → IsRow failed fence none none (some code) a.completed_at now b
      → JobEdge a b
  retries :
      (owner : String) (fence : ℤ) (code : String) (now next : ℤ)
      → IsHeld owner fence now a
      → IsRetry fence now next
      → IsSameJob a b
      → IsRecorded owner fence (pos 2) b
      → IsRow queued fence none (some next) (some code) none now b
      → JobEdge a b
