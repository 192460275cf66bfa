-- ===== src/Render/Bounds.antt =====
-- The bounds of the fences of internal/service/public_render_job.go.
use porsche.Prelude.{
  ◌≡◌, sym, subst, ◌⊎◌, inl, inr, true, false, none, some, Option-cases, List, [], ◌∷◌, ◌++◌, arith,
  All,
}
use porsche.Prelude.Int.{ℤ, pos, negsuc, ◌≤ℤ◌, ◌<ℤ◌}
use porsche.Render.{
  queued, same_state, Job, Database, Service, max_requeue_fence, next_cycle_base, attempt_ordinal,
  attempt_exhausted,
}
use porsche.Render.Jobs.{due, succ_ℤ}
use porsche.Render.Transitions.{holds, failure_outcome}
use porsche.Render.History.{Op, step, run, new_job}
use porsche.Render.Lifecycle.{JobStep, JobSteps, stays, goes, Evolves}
use porsche.Render.Lifecycle
use porsche.Render.Holding.{step-Evolves}

unfoldable pub IsBase : ℤ → ℤ → Type 0
IsBase fence base =
    (fence ≤ℤ base)
    × (base ≤ℤ pos max_requeue_fence)
    × (attempt_ordinal (succ_ℤ base) ≡ 1)
    × ((base ≡ pos 0) ⊎ (attempt_exhausted base ≡ true))

pub next_cycle_base-IsBase :
    (fence base : ℤ) → next_cycle_base fence ≡ some base → IsBase fence base
unfolding next_cycle_base attempt_ordinal attempt_exhausted IsBase
next_cycle_base-IsBase (negsuc n) base h = cc
next_cycle_base-IsBase (pos n) base h = ground arith

undefined_base :
    (fence : ℤ) → next_cycle_base fence ≡ none → (fence <ℤ pos 0) ⊎ (pos max_requeue_fence <ℤ fence)
unfolding next_cycle_base attempt_ordinal
undefined_base (negsuc n) h = ground arith
undefined_base (pos n) h = ground arith

defined_base : (fence base : ℤ) → next_cycle_base fence ≡ some base → pos 0 ≤ℤ fence
unfolding next_cycle_base attempt_ordinal
defined_base (negsuc n) base h = cc
defined_base (pos n) base h = ground arith

-- A fence from 0 to the greatest that is queued again has a base: it is no smaller and within the
-- same limit, it is 0 or ends a cycle of three attempts, and the fence after it is a first attempt.
-- Any other fence has none.
pub next_cycle_base-bounds :
    (fence : ℤ)
    → ((base : ℤ) × (next_cycle_base fence ≡ some base)
        × (pos 0 ≤ℤ fence)
        × (fence ≤ℤ base)
        × (base ≤ℤ pos max_requeue_fence)
        × ((base ≡ pos 0) ⊎ (attempt_exhausted base ≡ true))
        × (attempt_ordinal (succ_ℤ base) ≡ 1))
      ⊎ ((next_cycle_base fence ≡ none) × ((fence <ℤ pos 0) ⊎ (pos max_requeue_fence <ℤ fence)))
unfolding IsBase
next_cycle_base-bounds fence = elim (Option-cases (next_cycle_base fence)) [
  | inl p ↦ inr (p, undefined_base fence p)
  | inr (base, p) ↦
      let (a, b, c, d) = next_cycle_base-IsBase fence base p in
      inl (base, p, defined_base fence base p, a, b, d, c)
]

-- The attempts of a row: at least 0, at most the last of the last cycle, and less if it is queued.
pub IsWithin : Job → Type 0
IsWithin job =
    (pos 0 ≤ℤ job.attempt_count)
    × (job.attempt_count ≤ℤ pos 2147483646)
    × ((same_state job.state queued ≡ false) ⊎ (job.attempt_count ≤ℤ pos 2147483645))

JobStep-IsWithin : (a b : Job) → JobStep a b → IsWithin a → IsWithin b
unfolding IsWithin IsBase due attempt_exhausted attempt_ordinal holds failure_outcome
JobStep-IsWithin a b (Lifecycle.requeues now base e p q) w =
    ground (arith, next_cycle_base-IsBase a.attempt_count base p, q)
JobStep-IsWithin a b (Lifecycle.drops now u q) w = ground (arith, q)
JobStep-IsWithin a b (Lifecycle.exhausts now u l x q) w = ground (arith, q)
JobStep-IsWithin a b (Lifecycle.takes owner expires now u x l q) w = ground (arith, u, x, l, q, w)
JobStep-IsWithin a b (Lifecycle.renews owner fence expires now t q) w = ground (arith, q)
JobStep-IsWithin a b (Lifecycle.completes owner fence now t q) w = ground (arith, q)
JobStep-IsWithin a b (Lifecycle.completes_again owner fence now base t p q) w =
    ground (arith, next_cycle_base-IsBase fence base p, q)
JobStep-IsWithin a b (Lifecycle.fails owner fence code state next now t p q) w =
    ground (arith, t, p, q, w)

JobSteps-IsWithin : (a b : Job) → JobSteps a b → IsWithin a → IsWithin b
JobSteps-IsWithin a b (stays _ e) w = subst IsWithin (sym e) w
JobSteps-IsWithin a b (goes m _ p q) w = JobStep-IsWithin m b q (JobSteps-IsWithin a m p w)

Evolves-IsWithin : (olds bs : List Job) → Evolves olds bs → All IsWithin olds → All IsWithin bs
unfolding Evolves
Evolves-IsWithin [] [] e w = tt
Evolves-IsWithin [] (b ∷ bs) e w = absurd e
Evolves-IsWithin (a ∷ more) [] e w = absurd e
Evolves-IsWithin (a ∷ more) (b ∷ bs) (p, e) (v, w) =
    (JobSteps-IsWithin a b p v, Evolves-IsWithin more bs e w)

new_job-IsWithin :
    (guid price_id content_id now : ℤ) (jobs : List Job)
    → All IsWithin jobs
    → All IsWithin (jobs ++ new_job guid price_id content_id now ∷ [])
unfolding IsWithin
new_job-IsWithin guid price_id content_id now [] w = (ground arith, tt)
new_job-IsWithin guid price_id content_id now (a ∷ more) (v, w) =
    (v, new_job-IsWithin guid price_id content_id now more w)

step-IsWithin :
    (s : Service) (op : Op) (d : Database) → All IsWithin d.jobs → All IsWithin (step s op d).jobs
step-IsWithin s op d w = elim (step-Evolves s op d) [
  | inl e ↦ Evolves-IsWithin d.jobs (step s op d).jobs e w
  | inr (guid, price_id, content_id, now, _, e) ↦
      rw e (new_job-IsWithin guid price_id content_id now d.jobs w)
]

-- Whatever operations follow one another, the attempts of every row stay between 0 and the last of
-- the last cycle, and below that for a row that is queued, if they did before.
pub run-IsWithin :
    (s : Service) (ops : List Op) (d : Database)
    → All IsWithin d.jobs
    → All IsWithin (run s ops d).jobs
unfolding run
run-IsWithin s [] d w = w
run-IsWithin s (op ∷ ops) d w = run-IsWithin s ops (step s op d) (step-IsWithin s op d w)
