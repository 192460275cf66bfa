-- ===== src/Render/Fencing.antt =====
-- The fences of the leases of internal/service/public_render_job.go.
use porsche.Prelude.{
  ℕ, zero, suc, ◌≡◌, refl, sym, subst, inl, inr, true, none, some, Option-cases, Bool-cases,
  Result-cases, List, [], ◌∷◌, arith, ok, ◌==◌, ◌&&◌, ◌||◌, bind-ok, guard-ok,
}
use porsche.Prelude.Int.{ℤ, pos, ◌≤ℤ◌, ◌<ℤ◌, ltb_ℤ, leb_ℤ}
use porsche.Intent.Texts.{trim_space}
use porsche.Render.{
  same_state, leased, Job, Publication, Price, Release, Database, Service, attempt_exhausted,
  max_fence, load_generation, add_millis, of_row,
}
use porsche.Render.Jobs.{
  due, taken, same_attempt, succ_ℤ, Lease, LeaseInput, idle, again, granted, grant, scan_current,
  scan_once, scans, lease, queue_effective, max_scans,
}
use porsche.Render.History.{Op, step, run, new_job}
use porsche.Prelude.Table.{
  append-nth, find_row, find_row-nth, nth, rows_affected, update, update-nth,
}
use porsche.Render.Lifecycle.{Evolves}
use porsche.Render.Rows.{
  Follows, Evolves-nth, nth-Evolves, IsUnique, Evolves-IsUnique, append-IsUnique, IsUnique-nth,
  lt-succ_ℤ,
}
use porsche.Render.Steps.{
  queue_effective-Evolves, scan_once-Evolves, lease-Evolves, outcome, reached,
}
use porsche.Render.Holding.{step-Evolves}

-- The row that a lease was granted on, before and after: its fence is the attempt after the row's.
IsGrant : List Job → Lease → List Job → Type 0
IsGrant jobs l jobs' =
    (i : ℕ) × (job : Job) × (job' : Job) × (nth i jobs ≡ some job)
    × (nth i jobs' ≡ some job')
    × (l.job_guid ≡ job.guid)
    × (l.fence ≡ succ_ℤ job.attempt_count)
    × (job'.guid ≡ job.guid)
    × (job'.attempt_count ≡ l.fence)

same_attempt_self : (job : Job) → same_attempt job job ≡ true
same_attempt_self job = ground arith

grant-IsGrant :
    (s : Service) (input : LeaseInput) (d d' : Database) (now : ℤ) (i : ℕ) (job : Job)
    (price : Price) (content : Release) (expires : ℤ) (l : Lease)
    → nth i d.jobs ≡ some job
    → grant s input d now i job price content expires ≡ ok (granted l d')
    → IsGrant d.jobs l d'.jobs
unfolding IsGrant
grant-IsGrant s input d d' now i job price content expires l n h =
    elim (Bool-cases (rows_affected i (same_attempt job) d.jobs == 1)) [
      | inr c ↦ ground (arith, c, h)
      | inl c ↦
          let change =
            taken (s.owner_hmac (trim_space input.owner_token)) expires (succ_ℤ job.attempt_count)
              now in
          let r : d'.jobs ≡ update i (same_attempt job) change d.jobs = ground (arith, c, h) in
          (
            i,
            job,
            change job,
            n,
            rw r (update-nth i (same_attempt job) change d.jobs job n (same_attempt_self job)),
            ground (arith, c, h),
            ground (arith, c, h),
            refl,
            ground (arith, c, h),
          )
    ]

scan_current-IsGrant :
    (s : Service) (input : LeaseInput) (d d' : Database) (now : ℤ) (i : ℕ) (job : Job)
    (price : Price) (content : Release) (l : Lease)
    → nth i d.jobs ≡ some job
    → scan_current s input d now i job (some (price, content)) ≡ ok (granted l d')
    → IsGrant d.jobs l d'.jobs
scan_current-IsGrant s input d d' now i job price content l n h =
    elim (Bool-cases (same_state job.state leased && attempt_exhausted job.attempt_count)) [
      | inl c ↦ ground (arith, c, h)
      | inr c ↦
          elim (Bool-cases
            (ltb_ℤ job.attempt_count (pos 0) || leb_ℤ (pos max_fence) job.attempt_count)) [
              | inl g ↦ ground (arith, c, g, h)
              | inr g ↦ elim (Option-cases (add_millis now input.lease_millis)) [
                | inl a ↦ ground (arith, c, g, a, h)
                | inr (expires, a) ↦
                    grant-IsGrant s input d d' now i job price content expires l n
                      (ground (arith, c, g, a, h))
              ]
            ]
    ]

scan_once-IsGrant :
    (s : Service) (input : LeaseInput) (d d' : Database) (at : Publication) (now : ℤ) (l : Lease)
    → scan_once s input d at now ≡ ok (granted l d')
    → IsGrant d.jobs l d'.jobs
unfolding scan_once
scan_once-IsGrant s input d d' at now l h = elim (Option-cases (find_row (due now) d.jobs)) [
  | inl p ↦ ground (arith, p, h)
  | inr ((i, job), p) ↦
      let (n, u) = find_row-nth (due now) d.jobs i job p in
      elim (Result-cases (load_generation d at job.price_snapshot_id job.content_release_id)) [
        | inl (none, q) ↦ ground (arith, p, q, h)
        | inr (x, q) ↦ ground (arith, p, q, h)
        | inl (some (price, content), q) ↦
            scan_current-IsGrant s input d d' now i job price content l n (ground (arith, p, q, h))
      ]
]

scans-IsGrant :
    (s : Service) (input : LeaseInput) (first : List Job) (n : ℕ) (d : Database) (at : Publication)
    (now : ℤ) (l : Lease) (d' : Database)
    → Evolves first d.jobs
    → scans s n input d at now ≡ ok (some l, d')
    → (jobs : List Job) × Evolves first jobs × IsGrant jobs l d'.jobs
unfolding scans outcome reached
scans-IsGrant s input first zero d at now l d' e h = ground (arith, h)
scans-IsGrant s input first (suc n) d at now l d' e h =
    elim (Result-cases (scan_once s input d at now)) [
      | inr (x, p) ↦ ground (arith, p, h)
      | inl (idle, p) ↦ ground (arith, p, h)
      | inl (again m, p) ↦
          scans-IsGrant s input first n m at now l d'
            (scan_once-Evolves s input first d m at now e (rw p refl)) (ground (arith, p, h))
      | inl (granted g m, p) ↦
          (d.jobs, e, scan_once-IsGrant s input d d' at now l (ground (arith, p, h)))
    ]

lease-IsGrant :
    (s : Service) (now : ℤ) (input : LeaseInput) (d d' : Database) (l : Lease)
    → lease s now input d ≡ ok (some l, d')
    → (jobs : List Job) × Evolves d.jobs jobs × IsGrant jobs l d'.jobs
unfolding lease
lease-IsGrant s now input d d' l h =
    let (_, h₁) = guard-ok _ _ _ h in
    let (at, _, h₂) = bind-ok (of_row d.publication) _ h₁ in
    let (m, p, h₃) = bind-ok (queue_effective s d at now) _ h₂ in
    scans-IsGrant s input d.jobs max_scans m at now l d' (queue_effective-Evolves s d m at now p) h₃

-- A row of this guid has been attempted so often.
HasReached : List Job → ℕ → ℤ → ℤ → Type 0
HasReached jobs i guid fence =
    (job : Job) × (nth i jobs ≡ some job) × (job.guid ≡ guid) × (fence ≤ℤ job.attempt_count)

Evolves-HasReached :
    (olds news : List Job) (i : ℕ) (guid fence : ℤ)
    → Evolves olds news
    → HasReached olds i guid fence
    → HasReached news i guid fence
unfolding HasReached Follows
Evolves-HasReached olds news i guid fence e (job, n, g, f) =
    let (later, m, (g', f')) = Evolves-nth i olds news job e n in
    (later, m, ground (arith, g, g'), ground (arith, f, f'))

step-HasReached :
    (s : Service) (op : Op) (d : Database) (i : ℕ) (guid fence : ℤ)
    → HasReached d.jobs i guid fence
    → HasReached (step s op d).jobs i guid fence
unfolding HasReached
step-HasReached s op d i guid fence (job, n, g, f) = elim (step-Evolves s op d) [
  | inl e ↦ Evolves-HasReached d.jobs (step s op d).jobs i guid fence e (job, n, g, f)
  | inr (new, price_id, content_id, now, _, e) ↦
      rw e (job, append-nth i d.jobs (new_job new price_id content_id now) job n, g, f)
]

run-HasReached :
    (s : Service) (ops : List Op) (d : Database) (i : ℕ) (guid fence : ℤ)
    → HasReached d.jobs i guid fence
    → HasReached (run s ops d).jobs i guid fence
unfolding run
run-HasReached s [] d i guid fence h = h
run-HasReached s (op ∷ ops) d i guid fence h =
    run-HasReached s ops (step s op d) i guid fence (step-HasReached s op d i guid fence h)

step-IsUnique :
    (s : Service) (op : Op) (d : Database) → IsUnique d.jobs → IsUnique (step s op d).jobs
step-IsUnique s op d u = elim (step-Evolves s op d) [
  | inl e ↦ Evolves-IsUnique d.jobs (step s op d).jobs e u
  | inr (guid, price_id, content_id, now, h, e) ↦
      rw e (append-IsUnique d.jobs (new_job guid price_id content_id now) h u)
]

run-IsUnique :
    (s : Service) (ops : List Op) (d : Database) → IsUnique d.jobs → IsUnique (run s ops d).jobs
unfolding run
run-IsUnique s [] d u = u
run-IsUnique s (op ∷ ops) d u = run-IsUnique s ops (step s op d) (step-IsUnique s op d u)

-- Where no two jobs have one guid: after a lease of a job, whatever operations follow, by whomever,
-- another lease of that job has a greater fence.
pub fences_increase :
    (s : Service) (ops : List Op) (d d₁ d₂ : Database) (now now' : ℤ) (input input' : LeaseInput)
    (l l' : Lease)
    → IsUnique d.jobs
    → lease s now input d ≡ ok (some l, d₁)
    → lease s now' input' (run s ops d₁) ≡ ok (some l', d₂)
    → l'.job_guid ≡ l.job_guid
    → l.fence <ℤ l'.fence
unfolding IsGrant HasReached Follows
fences_increase s ops d d₁ d₂ now now' input input' l l' u h h' g =
    let (jobs, e, (i, job, job₁, n, n₁, a, b, c, f)) = lease-IsGrant s now input d d₁ l h in
    let (later, m, mg, mf) =
      run-HasReached s ops d₁ i l.job_guid l.fence
        (job₁, n₁, ground (arith, a, c), ground (arith, f)) in
    let (jobs', e', (i', job', _, n', _, a', b', _, _)) =
      lease-IsGrant s now' input' (run s ops d₁) d₂ l' h' in
    let (before, k, (kg, kf)) = nth-Evolves i' (run s ops d₁).jobs jobs' job' e' n' in
    let unique =
      run-IsUnique s ops d₁
        (Evolves-IsUnique d.jobs d₁.jobs (lease-Evolves s now input d d₁ (some l) h) u) in
    let same =
      IsUnique-nth i i' (run s ops d₁).jobs later before unique m k
        (ground (arith, mg, g, a', kg)) in
    let bound : l.fence ≤ℤ job'.attempt_count = ground (arith, mf, same, kf) in
    subst (λ z. l.fence <ℤ z) (sym b') (lt-succ_ℤ l.fence job'.attempt_count bound)
