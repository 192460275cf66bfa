-- ===== src/Render/Outcomes.antt =====
-- The tests and the arithmetic of internal/service/public_render_job.go against what the edges of the
-- lifecycle ask for.
use porsche.Prelude.{
  ℕ, zero, suc, ◌*◌, ◌+◌, ◌/◌, ◌%◌, ◌-◌, ◌≡◌, ◌⊎◌, inl, inr, refl, true, false, Option, none, some,
  arith, ok, Bool-cases, Option-cases,
}
use porsche.Prelude.Int.{ℤ, pos, negsuc}
use porsche.Render.{
  Job, JobState, queued, failed, same_state, attempt_exhausted, attempt_ordinal, retry_delay,
  add_millis,
}
use porsche.Render.Jobs.{due, expired, waited, succ_ℤ}
use porsche.Render.Transitions.{failure_outcome}
use porsche.Render.Edges.{IsPast, IsDue, IsLast, IsNext, IsRetry}

pub expired-IsPast : (now : ℤ) (o : Option ℤ) → expired now o ≡ true → IsPast now o
expired-IsPast now none h = absurd (ground arith)
expired-IsPast now (some at) h = (at, refl, ground arith)

waited_of : (now : ℤ) (o : Option ℤ) → waited now o ≡ true → (o ≡ none) ⊎ IsPast now o
waited_of now none h = inl refl
waited_of now (some at) h = inr (at, refl, ground arith)

pub due-IsDue : (now : ℤ) (job : Job) → due now job ≡ true → IsDue now job
unfolding due
due-IsDue now job h = elim (Bool-cases (same_state job.state queued)) [
  | inl p ↦ elim (Bool-cases (waited now job.lease_expires_at)) [
    | inl q ↦ inl (ground (arith, p), waited_of now job.lease_expires_at q)
    | inr q ↦ absurd (ground (arith, p, q, h))
  ]
  | inr p ↦
      inr (ground (arith, p, h), expired-IsPast now job.lease_expires_at (ground (arith, p, h)))
]

pub attempt_exhausted-IsLast : (fence : ℤ) → attempt_exhausted fence ≡ true → IsLast fence
unfolding attempt_exhausted attempt_ordinal
attempt_exhausted-IsLast (pos n) h = (n / 3 - 1, ground arith)
attempt_exhausted-IsLast (negsuc n) h = absurd (ground arith)

pub not-IsLast : (fence : ℤ) → attempt_exhausted fence ≡ false → ¬ IsLast fence
unfolding attempt_exhausted attempt_ordinal
not-IsLast (pos n) h (k, e) = ground arith
not-IsLast (negsuc n) h (k, e) = ground arith

pub succ_ℤ-IsNext : (a : ℤ) → IsNext a (succ_ℤ a)
succ_ℤ-IsNext (pos n) = ground arith
succ_ℤ-IsNext (negsuc zero) = ground arith
succ_ℤ-IsNext (negsuc (suc n)) = ground arith

-- What `Fail` makes of a job: it gives up after the last attempt of a cycle, else it retries.
abbrev pub IsOutcome : ℤ → ℤ → JobState → Option ℤ → Type 0
IsOutcome now fence state next =
    (IsLast fence × (attempt_exhausted fence ≡ true) × (state ≡ failed) × (next ≡ none))
    ⊎ ((at : ℤ) × IsRetry fence now at
        × (attempt_exhausted fence ≡ false)
        × (state ≡ queued)
        × (next ≡ some at))

first_delay : retry_delay 1 ≡ 5000
unfolding retry_delay
first_delay = refl

second_delay : retry_delay 2 ≡ 10000
unfolding retry_delay
second_delay = refl

add_millis-sum :
    (now at : ℤ) (d : ℕ)
    → add_millis now (pos d) ≡ some at
    → (t : ℕ) × (now ≡ pos t) × (at ≡ pos (t + d))
unfolding add_millis
add_millis-sum (pos t) at d h = (t, refl, ground arith)
add_millis-sum (negsuc n) at d h = cc

add_millis-IsRetry :
    (now fence at : ℤ) (k : ℕ)
    → (k ≡ 1) ⊎ (k ≡ 2)
    → ((n : ℕ) × (fence ≡ pos (3 * n + k)))
    → add_millis now (pos (retry_delay k)) ≡ some at
    → IsRetry fence now at
add_millis-IsRetry now fence at k (inl e) (n, f) h =
    let (t, p, q) = add_millis-sum now at (retry_delay k) h in
    (n, t, p, inl (ground arith, ground (arith, q, e, first_delay)))
add_millis-IsRetry now fence at k (inr e) (n, f) h =
    let (t, p, q) = add_millis-sum now at (retry_delay k) h in
    (n, t, p, inr (ground arith, ground (arith, q, e, second_delay)))

mod_cases : (n : ℕ) → (n % 3 ≡ 0) ⊎ (n % 3 ≡ 1) ⊎ (n % 3 ≡ 2)
mod_cases n = ground arith

ordinal_of :
    (fence : ℤ)
    → ((attempt_ordinal fence ≡ 0) × (attempt_exhausted fence ≡ false))
      ⊎ (((attempt_ordinal fence ≡ 1) ⊎ (attempt_ordinal fence ≡ 2))
          × (attempt_exhausted fence ≡ false)
          × ((n : ℕ) × (fence ≡ pos (3 * n + attempt_ordinal fence))))
      ⊎ ((attempt_ordinal fence ≡ 3) × (attempt_exhausted fence ≡ true))
unfolding attempt_ordinal attempt_exhausted
ordinal_of (negsuc n) = inl (ground arith)
ordinal_of (pos zero) = inl (ground arith)
ordinal_of (pos (suc n)) = elim (mod_cases n) [
  | inl e ↦ inr (inl (ground (arith, e), ground (arith, e), (n / 3, ground (arith, e))))
  | inr (inl e) ↦ inr (inl (ground (arith, e), ground (arith, e), (n / 3, ground (arith, e))))
  | inr (inr e) ↦ inr (inr (ground (arith, e)))
]

pub failure_outcome-IsOutcome :
    (now fence : ℤ) (state : JobState) (next : Option ℤ)
    → failure_outcome now fence ≡ ok (state, next)
    → IsOutcome now fence state next
unfolding failure_outcome
failure_outcome-IsOutcome now fence state next h = elim (ordinal_of fence) [
  | inl (o, x) ↦ absurd (ground (arith, o, h))
  | inr (inl (o, x, n)) ↦
      elim (Option-cases (add_millis now (pos (retry_delay (attempt_ordinal fence))))) [
        | inl p ↦ absurd (ground (arith, o, p, h))
        | inr (at, p) ↦ inr (
          at,
          add_millis-IsRetry now fence at (attempt_ordinal fence) o n p,
          x,
          ground (arith, o, p, h),
          ground (arith, o, p, h),
        )
      ]
  | inr (inr (o, x)) ↦
      inl (attempt_exhausted-IsLast fence x, x, ground (arith, o, h), ground (arith, o, h))
]
