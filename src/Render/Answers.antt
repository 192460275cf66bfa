-- ===== src/Render/Answers.antt =====
-- What `Complete` of internal/service/public_render_job.go leaves where it succeeds, by its own updates
-- of the row.
use porsche.Prelude.{
  ℕ, zero, suc, ◌≡◌, sym, subst, ap, ◌⊎◌, inl, inr, String, Bool, true, false, none, some,
  Option-cases, Bool-cases, Result-cases, List, [], ◌∷◌, arith, ok, bind-ok,
}
use porsche.Prelude.Int.{ℤ, pos, eq_ℤ}
use porsche.Render.{
  Job, Publication, Database, Service, load_generation, next_cycle_base, watermark_for,
  crossed_boundary,
}
use porsche.Render.Transitions.{
  TransitionInput, terminal_replay, holds, has_guid, completed, completed_again, completion,
  complete_current, complete_found, complete,
}
use porsche.Prelude.Table.{find_row, find_row-nth, rows_affected, rows_affected-nth, update}

-- The row that a completion leaves, at this watermark.
unfoldable pub IsCompletion : ℤ → String → ℤ → ℤ → Job → Job → Type 0
IsCompletion watermark owner fence now job job' =
    ((crossed_boundary job.completed_at watermark ≡ false) × (job' ≡ completed owner fence now job))
    ⊎ ((base : ℤ) × (crossed_boundary job.completed_at watermark ≡ true)
        × (next_cycle_base fence ≡ some base)
        × (job' ≡ completed_again owner fence now base job))

completion-IsCompletion :
    (s : Service) (input : TransitionInput) (now : ℤ) (job : Job) (watermark : ℤ)
    (change : Job → Job)
    → completion s input now job watermark ≡ ok change
    → IsCompletion watermark (s.owner_hmac input.owner_token) input.fence now job (change job)
unfolding IsCompletion
completion-IsCompletion s input now job watermark change h =
    elim (Bool-cases (crossed_boundary job.completed_at watermark)) [
      | inl p ↦ elim (Option-cases (next_cycle_base input.fence)) [
        | inl q ↦ ground (arith, p, q, h)
        | inr (base, q) ↦
            let owner = s.owner_hmac input.owner_token in
            let r : completed_again owner input.fence now base ≡ change = ground (arith, p, q, h) in
            inr (base, p, q, ap (λ f. f job) (sym r))
      ]
      | inr p ↦
          let owner = s.owner_hmac input.owner_token in
          let r : completed owner input.fence now ≡ change = ground (arith, p, h) in
          inl (p, ap (λ f. f job) (sym r))
    ]

find_row-update :
    (test holding : Job → Bool) (change : Job → Job) (jobs : List Job) (i : ℕ) (job : Job)
    → find_row test jobs ≡ some (i, job)
    → holding job ≡ true
    → test (change job) ≡ true
    → find_row test (update i holding change jobs) ≡ some (i, change job)
unfolding find_row update
find_row-update test holding change [] i job h t k = cc
find_row-update test holding change (a ∷ more) zero job h t k =
    elim (Option-cases (find_row test more)) [
      | inl p ↦ ground (arith, p, h, t, k)
      | inr ((j, b), p) ↦ ground (arith, p, h, t, k)
    ]
find_row-update test holding change (a ∷ more) (suc i) job h t k =
    elim (Option-cases (find_row test more)) [
      | inl p ↦ ground (arith, p, h)
      | inr ((j, b), p) ↦ ground (arith, p, h, t, k, find_row-update test holding change more i job)
    ]

-- The row before and after, and why.
unfoldable pub Answered : Service → ℤ → TransitionInput → Database → Database → Type 0
Answered s now input d d' =
    (i : ℕ) × (job : Job) × (job' : Job) × (find_row (has_guid input.job_guid) d.jobs
      ≡ some (i, job))
    × (find_row (has_guid input.job_guid) d'.jobs ≡ some (i, job'))
    × (d'.publication ≡ d.publication)
    × (((d' ≡ d)
          × (terminal_replay job (s.owner_hmac input.owner_token) input.fence (pos 1) ≡ true))
        ⊎ ((holds (s.owner_hmac input.owner_token) input.fence now job ≡ true)
            × (watermark : ℤ) × (watermark_for s d job.content_release_id now ≡ ok watermark)
            × IsCompletion watermark (s.owner_hmac input.owner_token) input.fence now job job'))

complete_found-Answered :
    (s : Service) (now : ℤ) (input : TransitionInput) (d d' : Database) (at : Publication) (i : ℕ)
    (job : Job)
    → find_row (has_guid input.job_guid) d.jobs ≡ some (i, job)
    → complete_found s input d at now (i, job) ≡ ok d'
    → Answered s now input d d'
unfolding Answered IsCompletion
complete_found-Answered s now input d d' at i job f h =
    let owner = s.owner_hmac input.owner_token in
    elim (Bool-cases (terminal_replay job owner input.fence (pos 1))) [
      | inl p ↦
          let r : d' ≡ d = ground (arith, p, h) in
          (i, job, job, f, rw r f, ap (λ x. x.publication) r, inl (r, p))
      | inr p ↦
          elim (Result-cases (load_generation d at job.price_snapshot_id job.content_release_id)) [
            | inr (e, q) ↦ ground (arith, p, q, h)
            | inl (none, q) ↦ ground (arith, p, q, h)
            | inl (some current, q) ↦
                let h₄ : complete_current s input d now i job (some current) ≡ ok d' =
                  ground (arith, p, q, h) in
                let (w, known, h₅) = bind-ok (watermark_for s d job.content_release_id now) _ h₄ in
                let (change, c, h₆) = bind-ok (completion s input now job w) _ h₅ in
                let m : rows_affected i (holds owner input.fence now) d.jobs ≡ 1 =
                  ground (arith, h₆) in
                let (row, n, t) = rows_affected-nth i (holds owner input.fence now) d.jobs m in
                let e : row ≡ job =
                  cc (n, (find_row-nth (has_guid input.job_guid) d.jobs i job f).0) in
                let t' : holds owner input.fence now job ≡ true =
                  subst (λ x. holds owner input.fence now x ≡ true) e t in
                let made = completion-IsCompletion s input now job w change c in
                let r : d'.jobs ≡ update i (holds owner input.fence now) change d.jobs =
                  ground (arith, h₆) in
                let kept : eq_ℤ (change job).guid input.job_guid ≡ true =
                  ground (arith, made, (find_row-nth (has_guid input.job_guid) d.jobs i job f).1) in
                (
                  i,
                  job,
                  change job,
                  f,
                  rw r (
                      find_row-update (has_guid input.job_guid) (holds owner input.fence now) change
                        d.jobs i job f t' kept),
                  ground (arith, h₆),
                  inr (t', w, known, made),
                )
          ]
    ]

pub complete-Answered :
    (s : Service) (now : ℤ) (input : TransitionInput) (d d' : Database)
    → complete s now input d ≡ ok d'
    → Answered s now input d d'
unfolding complete
complete-Answered s now input d d' h = elim (Option-cases d.publication) [
  | inl a ↦ ground (arith, a, h)
  | inr (at, a) ↦ elim (Option-cases (find_row (has_guid input.job_guid) d.jobs)) [
    | inl f ↦ ground (arith, a, f, h)
    | inr ((i, job), f) ↦
        complete_found-Answered s now input d d' at i job f (ground (arith, a, f, h))
  ]
]
