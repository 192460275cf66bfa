-- ===== src/Render/Rows.antt =====
-- The rows of the table of internal/service/public_render_job.go over time, found by guid.
use porsche.Prelude.{
  ℕ, zero, suc, ◌≡◌, refl, subst, true, false, some, List, [], ◌∷◌, ◌++◌, arith, ◌||◌,
}
use porsche.Prelude.Int.{ℤ, pos, negsuc, ◌≤ℤ◌, ◌<ℤ◌, eq_ℤ}
use porsche.Render.{Job}
use porsche.Render.Jobs.{succ_ℤ}
use porsche.Render.Transitions.{holds}
use porsche.Render.History.{has_job}
use porsche.Prelude.Table.{nth}
use porsche.Render.Lifecycle.{JobStep, JobSteps, stays, goes, Evolves}
use porsche.Render.Lifecycle
use porsche.Render.Bounds.{next_cycle_base-IsBase, IsBase}

le-succ_ℤ : (n : ℤ) → n ≤ℤ succ_ℤ n
le-succ_ℤ (pos n) = ground arith
le-succ_ℤ (negsuc zero) = ground arith
le-succ_ℤ (negsuc (suc n)) = ground arith

pub lt-succ_ℤ : (m n : ℤ) → m ≤ℤ n → m <ℤ succ_ℤ n
lt-succ_ℤ m (pos n) h = ground arith
lt-succ_ℤ m (negsuc zero) h = ground arith
lt-succ_ℤ m (negsuc (suc n)) h = ground arith

-- The same job, with as many attempts or more.
unfoldable pub Follows : Job → Job → Type 0
Follows a b = (a.guid ≡ b.guid) × (a.attempt_count ≤ℤ b.attempt_count)

JobStep-Follows : (a b : Job) → JobStep a b → Follows a b
unfolding Follows IsBase holds
JobStep-Follows a b (Lifecycle.requeues now base e p q) =
    ground (arith, next_cycle_base-IsBase a.attempt_count base p, q)
JobStep-Follows a b (Lifecycle.drops now u q) = ground (arith, q)
JobStep-Follows a b (Lifecycle.exhausts now u l x q) = ground (arith, q)
JobStep-Follows a b (Lifecycle.takes owner expires now u x l q) =
    (ground (arith, q), ground (arith, q, le-succ_ℤ a.attempt_count))
JobStep-Follows a b (Lifecycle.renews owner fence expires now t q) = ground (arith, q)
JobStep-Follows a b (Lifecycle.completes owner fence now t q) = ground (arith, q)
JobStep-Follows a b (Lifecycle.completes_again owner fence now base t p q) =
    ground (arith, next_cycle_base-IsBase fence base p, t, q)
JobStep-Follows a b (Lifecycle.fails owner fence code state next now t p q) = ground (arith, q)

JobSteps-Follows : (a b : Job) → JobSteps a b → Follows a b
unfolding Follows
JobSteps-Follows a b (stays _ e) = ground (arith, e)
JobSteps-Follows a b (goes m _ p q) = ground (arith, JobSteps-Follows a m p, JobStep-Follows m b q)

-- A row of a table, later.
pub Evolves-nth :
    (i : ℕ) (olds news : List Job) (job : Job)
    → Evolves olds news
    → nth i olds ≡ some job
    → (later : Job) × (nth i news ≡ some later) × Follows job later
unfolding Evolves nth
Evolves-nth i [] news job e h = cc
Evolves-nth i (a ∷ more) [] job e h = absurd e
Evolves-nth zero (a ∷ more) (b ∷ bs) job (p, e) h =
    let q : a ≡ job = ground (arith, h) in
    (b, refl, subst (λ x. Follows x b) q (JobSteps-Follows a b p))
Evolves-nth (suc i) (a ∷ more) (b ∷ bs) job (p, e) h = Evolves-nth i more bs job e h

-- And before.
pub nth-Evolves :
    (i : ℕ) (olds news : List Job) (job : Job)
    → Evolves olds news
    → nth i news ≡ some job
    → (before : Job) × (nth i olds ≡ some before) × Follows before job
unfolding Evolves nth
nth-Evolves i [] [] job e h = cc
nth-Evolves i [] (b ∷ bs) job e h = absurd e
nth-Evolves i (a ∷ more) [] job e h = absurd e
nth-Evolves zero (a ∷ more) (b ∷ bs) job (p, e) h =
    let q : b ≡ job = ground (arith, h) in
    (a, refl, subst (λ x. Follows a x) q (JobSteps-Follows a b p))
nth-Evolves (suc i) (a ∷ more) (b ∷ bs) job (p, e) h = nth-Evolves i more bs job e h

-- No two rows have one guid.
unfoldable pub IsUnique : List Job → Type 0
IsUnique [] = Unit
IsUnique (job ∷ jobs) = (has_job jobs job.guid ≡ false) × IsUnique jobs

Evolves-has_job :
    (olds news : List Job) (guid : ℤ) → Evolves olds news → has_job olds guid ≡ has_job news guid
unfolding Evolves has_job Follows
Evolves-has_job [] [] guid e = refl
Evolves-has_job [] (b ∷ bs) guid e = absurd e
Evolves-has_job (a ∷ more) [] guid e = absurd e
Evolves-has_job (a ∷ more) (b ∷ bs) guid (p, e) =
    ground (arith, (JobSteps-Follows a b p).0, Evolves-has_job more bs guid e)

pub Evolves-IsUnique : (olds news : List Job) → Evolves olds news → IsUnique olds → IsUnique news
unfolding Evolves IsUnique Follows
Evolves-IsUnique [] [] e u = tt
Evolves-IsUnique [] (b ∷ bs) e u = absurd e
Evolves-IsUnique (a ∷ more) [] e u = absurd e
Evolves-IsUnique (a ∷ more) (b ∷ bs) (p, e) (v, u) = (
  ground (arith, (JobSteps-Follows a b p).0, Evolves-has_job more bs b.guid e, v),
  Evolves-IsUnique more bs e u,
)

has_job-append :
    (jobs : List Job) (job : Job) (guid : ℤ)
    → has_job (jobs ++ job ∷ []) guid ≡ (has_job jobs guid || eq_ℤ job.guid guid)
unfolding has_job
has_job-append [] job guid = ground arith
has_job-append (a ∷ more) job guid = ground (arith, has_job-append more job guid)

pub append-IsUnique :
    (jobs : List Job) (job : Job)
    → has_job jobs job.guid ≡ false
    → IsUnique jobs
    → IsUnique (jobs ++ job ∷ [])
unfolding IsUnique has_job
append-IsUnique [] job h u = (refl, tt)
append-IsUnique (a ∷ more) job h (v, u) = (
  ground (arith, has_job-append more job a.guid, v, h),
  append-IsUnique more job (ground (arith, h)) u,
)

nth-has_job :
    (i : ℕ) (jobs : List Job) (job : Job) → nth i jobs ≡ some job → has_job jobs job.guid ≡ true
unfolding nth has_job
nth-has_job i [] job h = cc
nth-has_job zero (a ∷ more) job h = ground (arith, h)
nth-has_job (suc i) (a ∷ more) job h = ground (arith, nth-has_job i more job h)

-- A guid leads to one row.
pub IsUnique-nth :
    (i j : ℕ) (jobs : List Job) (a b : Job)
    → IsUnique jobs
    → nth i jobs ≡ some a
    → nth j jobs ≡ some b
    → a.guid ≡ b.guid
    → a ≡ b
unfolding nth IsUnique
IsUnique-nth i j [] a b u p q e = cc
IsUnique-nth zero zero (x ∷ more) a b u p q e = cc
IsUnique-nth zero (suc j) (x ∷ more) a b (v, u) p q e =
    ground (arith, nth-has_job j more b q, p, e, v)
IsUnique-nth (suc i) zero (x ∷ more) a b (v, u) p q e =
    ground (arith, nth-has_job i more a p, q, e, v)
IsUnique-nth (suc i) (suc j) (x ∷ more) a b (v, u) p q e = IsUnique-nth i j more a b u p q e
