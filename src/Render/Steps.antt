-- ===== src/Render/Steps.antt =====
-- Each operation of internal/service/public_render_job.go against the lifecycle of a row.
use porsche.Prelude.{
  ℕ, zero, suc, ◌≡◌, refl, subst, ◌⊎◌, inl, inr, true, false, Option, none, some, Option-cases,
  Bool-cases, Result-cases, List, ok, err, arith, ◌==◌, ◌&&◌, ◌||◌, bind-ok, guard-ok,
}
use porsche.Prelude.Int.{ℤ, pos, eq_ℤ, leb_ℤ, ltb_ℤ}
use porsche.Intent.Texts.{trim_space}
use porsche.Render.{
  queued, leased, succeeded, failed, same_state, Job, Publication, Price, Release, Database,
  Service, Checked, of_row, max_fence, attempt_exhausted, next_cycle_base, add_millis,
  load_generation, watermark_for, should_queue,
}
use porsche.Render.Jobs.{
  due, requeued, obsolete, exhausted, taken, is_open, in_state, for_rows, queue_job, queue_for,
  queue_effective, give_up, grant, scan_current, scan_once, scans, lease, LeaseInput, Lease, Scan,
  idle, again, granted, same_attempt, may_give_up, succ_ℤ, max_scans,
}
use porsche.Prelude.Table.{find_row, find_row-nth, nth, rows_affected, update}
use porsche.Render.Lifecycle.{
  requeues, drops, exhausts, takes, Evolves, Evolves-same, Evolves-update,
}

pub unchanged : (d d' : Database) → d ≡ d' → Evolves d.jobs d'.jobs
unchanged d d' r = subst (λ x. Evolves d.jobs x.jobs) r (Evolves-same d.jobs)

queue_job-Evolves :
    (d d' : Database) (now watermark : ℤ) (i : ℕ) (job : Job)
    → nth i d.jobs ≡ some job
    → should_queue job watermark ≡ true
    → queue_job d now (i, job) ≡ ok d'
    → Evolves d.jobs d'.jobs
unfolding should_queue
queue_job-Evolves d d' now watermark i job n q h =
    elim (Option-cases (next_cycle_base job.attempt_count)) [
      | inl p ↦ ground (arith, p)
      | inr (base, p) ↦
          let ended : (job.state ≡ succeeded) ⊎ (job.state ≡ failed) = ground (arith, q) in
          let r : d'.jobs ≡ update i (in_state job) (requeued base now) d.jobs =
            ground (arith, p, h) in
          rw r (
            Evolves-update i (in_state job) (requeued base now) d.jobs d.jobs (Evolves-same d.jobs)
              (λ row m t.
                let e : row ≡ job = cc (n, m) in requeues now base (rw e ended) (rw e p) refl))
    ]

queue_for-Evolves :
    (s : Service) (d d' : Database) (price_id content_id now : ℤ)
    → queue_for s d price_id content_id now ≡ ok d'
    → Evolves d.jobs d'.jobs
queue_for-Evolves s d d' price_id content_id now h =
    let (w, p, h₁) = bind-ok (watermark_for s d content_id now) _ h in
    elim (Bool-cases (eq_ℤ w (pos 0))) [
      | inl q ↦ unchanged d d' (ground (arith, q, h₁))
      | inr q ↦ elim (Option-cases (find_row (for_rows price_id content_id) d.jobs)) [
        | inl f ↦ ground (arith, q, f, h₁)
        | inr ((i, job), f) ↦ elim (Bool-cases (should_queue job w)) [
          | inl u ↦
              queue_job-Evolves d d' now w i job
                (find_row-nth (for_rows price_id content_id) d.jobs i job f).0 u
                (ground (arith, q, f, u, h₁))
          | inr u ↦ unchanged d d' (ground (arith, q, f, u, h₁))
        ]
      ]
    ]

pub queue_effective-Evolves :
    (s : Service) (d d' : Database) (at : Publication) (now : ℤ)
    → queue_effective s d at now ≡ ok d'
    → Evolves d.jobs d'.jobs
unfolding queue_effective
queue_effective-Evolves s d d' at now h = elim (Option-cases at.price_snapshot_id) [
  | inl p ↦ unchanged d d' (ground (arith, p, h))
  | inr (a, p) ↦ elim (Option-cases at.content_release_id) [
    | inl q ↦ unchanged d d' (ground (arith, p, q, h))
    | inr (b, q) ↦ queue_for-Evolves s d d' a b now (ground (arith, p, q, h))
  ]
]

-- A scan that goes on or grants a lease.
unfoldable pub reached : Scan → Option Database
reached idle = none
reached (again d) = some d
reached (granted l d) = some d

unfoldable pub outcome : Checked Scan → Option Database
outcome (err e) = none
outcome (ok x) = reached x

give_up-Evolves :
    (first : List Job) (d d' : Database) (now : ℤ) (i : ℕ) (job : Job) (content : Release)
    → Evolves first d.jobs
    → nth i d.jobs ≡ some job
    → due now job ≡ true
    → attempt_exhausted job.attempt_count ≡ true
    → job.state ≡ leased
    → outcome (give_up d now i job content) ≡ some d'
    → Evolves first d'.jobs
unfolding outcome reached
give_up-Evolves first d d' now i job content e n u x l h =
    let r : d'.jobs ≡ update i (may_give_up job now) (exhausted now) d.jobs = ground (arith, h) in
    rw r (
      Evolves-update i (may_give_up job now) (exhausted now) first d.jobs e
        (λ row m t. let q : row ≡ job = cc (n, m) in exhausts now (rw q u) (rw q l) (rw q x) refl))

grant-Evolves :
    (s : Service) (input : LeaseInput) (first : List Job) (d d' : Database) (now : ℤ) (i : ℕ)
    (job : Job) (price : Price) (content : Release) (expires : ℤ)
    → Evolves first d.jobs
    → nth i d.jobs ≡ some job
    → due now job ≡ true
    → (job.state ≡ queued) ⊎ (attempt_exhausted job.attempt_count ≡ false)
    → ltb_ℤ job.attempt_count (pos max_fence) ≡ true
    → outcome (grant s input d now i job price content expires) ≡ some d'
    → Evolves first d'.jobs
unfolding outcome reached
grant-Evolves s input first d d' now i job price content expires e n u x l h =
    elim (Bool-cases (rows_affected i (same_attempt job) d.jobs == 1)) [
      | inl c ↦
          let change =
            taken (s.owner_hmac (trim_space input.owner_token)) expires (succ_ℤ job.attempt_count)
              now in
          let r : d'.jobs ≡ update i (same_attempt job) change d.jobs = ground (arith, c, h) in
          rw r (
            Evolves-update i (same_attempt job) change first d.jobs e (λ row m t.
              let q : row ≡ job = cc (n, m) in
              takes (s.owner_hmac (trim_space input.owner_token)) expires now (rw q u) (rw q x)
                (rw q l) (rw q refl)))
      | inr c ↦ let r : d ≡ d' = ground (arith, c, h) in subst (λ x. Evolves first x.jobs) r e
    ]

may_take :
    (now : ℤ) (job : Job)
    → due now job ≡ true
    → (same_state job.state leased && attempt_exhausted job.attempt_count) ≡ false
    → (job.state ≡ queued) ⊎ (attempt_exhausted job.attempt_count ≡ false)
unfolding due
may_take now job u c = ground arith

below_fence :
    (n : ℤ) → (ltb_ℤ n (pos 0) || leb_ℤ (pos max_fence) n) ≡ false → ltb_ℤ n (pos max_fence) ≡ true
below_fence n g = ground arith

scan_current-Evolves :
    (s : Service) (input : LeaseInput) (first : List Job) (d d' : Database) (now : ℤ) (i : ℕ)
    (job : Job) (current : Option (Price × Release))
    → Evolves first d.jobs
    → nth i d.jobs ≡ some job
    → due now job ≡ true
    → outcome (scan_current s input d now i job current) ≡ some d'
    → Evolves first d'.jobs
unfolding outcome reached
scan_current-Evolves s input first d d' now i job none e n u h =
    let r : d'.jobs ≡ update i is_open (obsolete now) d.jobs = ground (arith, h) in
    rw r (
      Evolves-update i is_open (obsolete now) first d.jobs e
        (λ row m t. let q : row ≡ job = cc (n, m) in drops now (rw q u) refl))
scan_current-Evolves s input first d d' now i job (some (price, content)) e n u h =
    elim (Bool-cases (same_state job.state leased && attempt_exhausted job.attempt_count)) [
      | inl c ↦
          give_up-Evolves first d d' now i job content e n u (ground (arith, c)) (ground (arith, c))
            (ground (arith, c, h))
      | inr c ↦
          elim (Bool-cases
            (ltb_ℤ job.attempt_count (pos 0) || leb_ℤ (pos max_fence) job.attempt_count)) [
              | inl g ↦ ground (arith, c, g, h)
              | inr g ↦ elim (Option-cases (add_millis now input.lease_millis)) [
                | inl a ↦ ground (arith, c, g, a, h)
                | inr (expires, a) ↦
                    grant-Evolves s input first d d' now i job price content expires e n u
                      (may_take now job u c) (below_fence job.attempt_count g)
                      (ground (arith, c, g, a, h))
              ]
            ]
    ]

pub scan_once-Evolves :
    (s : Service) (input : LeaseInput) (first : List Job) (d d' : Database) (at : Publication)
    (now : ℤ)
    → Evolves first d.jobs
    → outcome (scan_once s input d at now) ≡ some d'
    → Evolves first d'.jobs
unfolding scan_once outcome reached
scan_once-Evolves s input first d d' at now e h = elim (Option-cases (find_row (due now) d.jobs)) [
  | inl p ↦ ground (arith, p, h)
  | inr ((i, job), p) ↦
      let (n, u) = find_row-nth (due now) d.jobs i job p in
      elim (Result-cases (load_generation d at job.price_snapshot_id job.content_release_id)) [
        | inl (current, q) ↦
            scan_current-Evolves s input first d d' now i job current e n u
              (ground (arith, p, q, h))
        | inr (x, q) ↦ ground (arith, p, q, h)
      ]
]

scans-Evolves :
    (s : Service) (input : LeaseInput) (first : List Job) (n : ℕ) (d : Database) (at : Publication)
    (now : ℤ) (l : Option Lease) (d' : Database)
    → Evolves first d.jobs
    → scans s n input d at now ≡ ok (l, d')
    → Evolves first d'.jobs
unfolding scans outcome reached
scans-Evolves s input first zero d at now l d' e h =
    let r : d ≡ d' = ground (arith, h) in subst (λ x. Evolves first x.jobs) r e
scans-Evolves s input first (suc n) d at now l d' e h =
    elim (Result-cases (scan_once s input d at now)) [
      | inr (x, p) ↦ ground (arith, p, h)
      | inl (idle, p) ↦
          let r : d ≡ d' = ground (arith, p, h) in subst (λ x. Evolves first x.jobs) r e
      | inl (again m, p) ↦
          scans-Evolves s input first n m at now l d'
            (scan_once-Evolves s input first d m at now e (rw p refl)) (ground (arith, p, h))
      | inl (granted g m, p) ↦
          let r : m ≡ d' = ground (arith, p, h) in
          subst (λ x. Evolves first x.jobs) r
            (scan_once-Evolves s input first d m at now e (rw p refl))
    ]

pub lease-Evolves :
    (s : Service) (now : ℤ) (input : LeaseInput) (d d' : Database) (l : Option Lease)
    → lease s now input d ≡ ok (l, d')
    → Evolves d.jobs d'.jobs
unfolding lease
lease-Evolves s now input d d' l h =
    let (_, h₁) = guard-ok _ _ _ h in
    let (at, _, h₂) = bind-ok (of_row d.publication) _ h₁ in
    let (m, p, h₃) = bind-ok (queue_effective s d at now) _ h₂ in
    scans-Evolves s input d.jobs max_scans m at now l d' (queue_effective-Evolves s d m at now p) h₃
