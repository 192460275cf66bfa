-- ===== src/Render/Lifecycle.antt =====
-- The lifecycle of one job of internal/service/public_render_job.go, said of the row alone, and how
-- a table's rows go along it.
use porsche.Prelude.{
  ℕ, zero, suc, ◌≡◌, refl, ◌⊎◌, String, Bool, true, false, Option, some, List, [], ◌∷◌, ok, inl,
  inr, Bool-cases,
}
use porsche.Prelude.Int.{ℤ, pos, ltb_ℤ}
use porsche.Render.{
  Job, JobState, queued, leased, succeeded, failed, max_fence, next_cycle_base, attempt_exhausted,
}
use porsche.Render.Jobs.{requeued, obsolete, exhausted, taken, due, succ_ℤ}
use porsche.Render.Transitions.{
  holds, completed, completed_again, renewed, failed_with, failure_outcome,
}
use porsche.Prelude.Table.{nth, update}

-- One change of a row, the row before and after.
pub data JobStep (a b : Job) : Type 0 where
  -- An ended job is queued again, its attempts counted from the end of their cycle.
  requeues :
      (now base : ℤ)
      → (a.state ≡ succeeded) ⊎ (a.state ≡ failed)
      → next_cycle_base a.attempt_count ≡ some base
      → b ≡ requeued base now a
      → JobStep a b
  drops : (now : ℤ) → due now a ≡ true → b ≡ obsolete now a → JobStep a b
  exhausts :
      (now : ℤ)
      → due now a ≡ true
      → a.state ≡ leased
      → attempt_exhausted a.attempt_count ≡ true
      → b ≡ exhausted now a
      → JobStep a b
  takes :
      (owner : String) (expires now : ℤ)
      → due now a ≡ true
      → (a.state ≡ queued) ⊎ (attempt_exhausted a.attempt_count ≡ false)
      → ltb_ℤ a.attempt_count (pos max_fence) ≡ true
      → b ≡ taken owner expires (succ_ℤ a.attempt_count) now a
      → JobStep a b
  renews :
      (owner : String) (fence expires now : ℤ)
      → holds owner fence now a ≡ true
      → b ≡ renewed expires now a
      → JobStep a b
  completes :
      (owner : String) (fence now : ℤ)
      → holds owner fence now a ≡ true
      → b ≡ completed owner fence now a
      → JobStep a b
  completes_again :
      (owner : String) (fence now base : ℤ)
      → holds owner fence now a ≡ true
      → next_cycle_base fence ≡ some base
      → b ≡ completed_again owner fence now base a
      → JobStep a b
  fails :
      (owner : String) (fence : ℤ) (code : String) (state : JobState) (next : Option ℤ) (now : ℤ)
      → holds owner fence now a ≡ true
      → failure_outcome now fence ≡ ok (state, next)
      → b ≡ failed_with owner fence code state next now a
      → JobStep a b

-- Any number of changes of a row.
pub data JobSteps (a : Job) : Job → Type 0 where
  stays : (b : Job) → b ≡ a → JobSteps a b
  goes : (m b : Job) → JobSteps a m → JobStep m b → JobSteps a b

-- Each row of a table against the row of the same id later.
unfoldable pub Evolves : List Job → List Job → Type 0
Evolves [] [] = Unit
Evolves [] (b ∷ bs) = ⊥
Evolves (a ∷ more) [] = ⊥
Evolves (a ∷ more) (b ∷ bs) = JobSteps a b × Evolves more bs

pub Evolves-same : (jobs : List Job) → Evolves jobs jobs
unfolding Evolves
Evolves-same [] = tt
Evolves-same (a ∷ more) = (stays a refl, Evolves-same more)

pub Evolves-update :
    (i : ℕ) (test : Job → Bool) (change : Job → Job) (first jobs : List Job)
    → Evolves first jobs
    → ((job : Job) → nth i jobs ≡ some job → test job ≡ true → JobStep job (change job))
    → Evolves first (update i test change jobs)
unfolding Evolves update nth
Evolves-update i test change [] [] e h = tt
Evolves-update i test change [] (b ∷ bs) e h = absurd e
Evolves-update i test change (a ∷ more) [] e h = absurd e
Evolves-update zero test change (a ∷ more) (b ∷ bs) (p, e) h = elim (Bool-cases (test b)) [
  | inl q ↦ rw q (goes b (change b) p (h b refl q), e)
  | inr q ↦ rw q (p, e)
]
Evolves-update (suc i) test change (a ∷ more) (b ∷ bs) (p, e) h =
    (p, Evolves-update i test change more bs e h)
