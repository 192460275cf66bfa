-- ===== src/Render/Holding.antt =====
-- `Renew`, `Complete` and `Fail` of internal/service/public_render_job.go against the lifecycle of a
-- row, and the whole of the operations together.
use porsche.Prelude.{
  ℕ, ◌≡◌, refl, sym, subst, ◌⊎◌, inl, inr, String, true, false, Option, none, some, Option-cases,
  Bool-cases, Result-cases, [], ◌∷◌, ◌++◌, ok, arith, bind-ok, eq_iff,
}
use porsche.Prelude.Int.{ℤ, pos}
use porsche.Intent.Texts.{trim_space}
use porsche.Render.{
  Job, Publication, Database, Service, of_row, next_cycle_base, add_millis, load_generation,
  watermark_for, crossed_boundary, valid_owner, sanitize_failure,
}
use porsche.Render.Jobs.{lease}
use porsche.Render.Transitions.{
  TransitionInput, terminal_replay, holds, has_guid, completed, completed_again, renewed,
  failed_with, failure_outcome, completion, complete_current, complete_found, complete,
  transition_found, transition_current, same_failure, renew, fail,
}
use porsche.Render.History
use porsche.Render.History.{new_job, has_job, Op, publishes, enqueues, step}
use porsche.Prelude.Table.{find_row, find_row-nth, update}
use porsche.Render.Lifecycle.{
  JobStep, renews, completes, completes_again, fails, Evolves, Evolves-same, Evolves-update,
}
use porsche.Render.Steps.{unchanged, lease-Evolves}

-- What a holder may make of a job.
Allowed : String → ℤ → ℤ → (Job → Job) → Type 0
Allowed owner fence now change =
    (job : Job) → holds owner fence now job ≡ true → JobStep job (change job)

completion-Allowed :
    (s : Service) (input : TransitionInput) (now : ℤ) (job : Job) (watermark : ℤ)
    (change : Job → Job)
    → completion s input now job watermark ≡ ok change
    → Allowed (s.owner_hmac input.owner_token) input.fence now change
unfolding Allowed
completion-Allowed s input now job watermark change h row t =
    elim (Bool-cases (crossed_boundary job.completed_at watermark)) [
      | inl p ↦ elim (Option-cases (next_cycle_base input.fence)) [
        | inl q ↦ ground (arith, p, q, h)
        | inr (base, q) ↦
            let owner = s.owner_hmac input.owner_token in
            let r : completed_again owner input.fence now base ≡ change = ground (arith, p, q, h) in
            subst (λ f. JobStep row (f row)) r (completes_again owner input.fence now base t q refl)
      ]
      | inr p ↦
          let owner = s.owner_hmac input.owner_token in
          let r : completed owner input.fence now ≡ change = ground (arith, p, h) in
          subst (λ f. JobStep row (f row)) r (completes owner input.fence now t refl)
    ]

complete_found-Evolves :
    (s : Service) (now : ℤ) (input : TransitionInput) (d d' : Database) (at : Publication) (i : ℕ)
    (job : Job)
    → complete_found s input d at now (i, job) ≡ ok d'
    → Evolves d.jobs d'.jobs
unfolding Allowed
complete_found-Evolves s now input d d' at i job h =
    let owner = s.owner_hmac input.owner_token in
    elim (Bool-cases (terminal_replay job owner input.fence (pos 1))) [
      | inl p ↦ unchanged d d' (ground (arith, p, h))
      | inr p ↦
          elim (Result-cases (load_generation d at job.price_snapshot_id job.content_release_id)) [
            | inr (e, q) ↦ ground (arith, p, q, h)
            | inl (none, q) ↦ ground (arith, p, q, h)
            | inl (some current, q) ↦
                let h₄ : complete_current s input d now i job (some current) ≡ ok d' =
                  ground (arith, p, q, h) in
                let (w, _, h₅) = bind-ok (watermark_for s d job.content_release_id now) _ h₄ in
                let (change, c, h₆) = bind-ok (completion s input now job w) _ h₅ in
                let r : d'.jobs ≡ update i (holds owner input.fence now) change d.jobs =
                  ground (arith, h₆) in
                rw r (
                  Evolves-update i (holds owner input.fence now) change d.jobs d.jobs
                    (Evolves-same d.jobs)
                    (λ row _ t. completion-Allowed s input now job w change c row t))
          ]
    ]

complete-Evolves :
    (s : Service) (now : ℤ) (input : TransitionInput) (d d' : Database)
    → complete s now input d ≡ ok d'
    → Evolves d.jobs d'.jobs
unfolding complete Allowed
complete-Evolves s now input d d' h = elim (Option-cases d.publication) [
  | inl a ↦ ground (arith, a, h)
  | inr (at, a) ↦ elim (Option-cases (find_row (has_guid input.job_guid) d.jobs)) [
    | inl f ↦ ground (arith, a, f, h)
    | inr ((i, job), f) ↦ complete_found-Evolves s now input d d' at i job (ground (arith, a, f, h))
  ]
]

transition_current-Evolves :
    (s : Service) (now : ℤ) (input : TransitionInput) (change : Job → Job) (code : Option String)
    (d d' : Database)
    → Allowed (s.owner_hmac (trim_space input.owner_token)) input.fence now change
    → transition_current s input now change code d ≡ ok d'
    → Evolves d.jobs d'.jobs
unfolding transition_current Allowed
transition_current-Evolves s now input change code d d' a h =
    let owner = s.owner_hmac (trim_space input.owner_token) in
    let (at, _, h₂) = bind-ok (of_row d.publication) _ h in
    elim (Option-cases (find_row (has_guid input.job_guid) d.jobs)) [
      | inl f ↦ ground (arith, f, h₂)
      | inr ((i, job), f) ↦
          let n = (find_row-nth (has_guid input.job_guid) d.jobs i job f).0 in
          let h₃ : transition_found s input now change code d at (i, job) ≡ ok d' =
            ground (arith, f, h₂) in
          elim (Bool-cases
            (terminal_replay job (s.owner_hmac input.owner_token) input.fence (pos 2))) [
              | inl p ↦ unchanged d d' (elim (Bool-cases (same_failure code job.last_failure)) [
                | inl q ↦ ground (arith, p, q, h₃)
                | inr q ↦ ground (arith, p, q, h₃)
              ])
              | inr p ↦
                  elim (Result-cases
                    (load_generation d at job.price_snapshot_id job.content_release_id)) [
                      | inr (e, q) ↦ ground (arith, p, q, h₃)
                      | inl (none, q) ↦ ground (arith, p, q, h₃)
                      | inl (some (price, content), q) ↦
                          elim (Bool-cases (holds owner input.fence now job)) [
                            | inr t ↦ ground (arith, p, q, t, h₃)
                            | inl t ↦
                                let r : d'.jobs ≡ update i (λ row. true) change d.jobs =
                                  ground (arith, p, q, t, h₃) in
                                rw r (
                                  Evolves-update i (λ row. true) change d.jobs d.jobs
                                    (Evolves-same d.jobs)
                                    (λ row m _. let e : row ≡ job = cc (n, m) in a row (rw e t)))
                          ]
                    ]
            ]
    ]

renew-Evolves :
    (s : Service) (now : ℤ) (input : TransitionInput) (d d' : Database)
    → renew s now input d ≡ ok d'
    → Evolves d.jobs d'.jobs
unfolding renew Allowed
renew-Evolves s now input d d' h = elim (Option-cases (add_millis now input.lease_millis)) [
  | inl p ↦ ground (arith, p, h)
  | inr (expires, p) ↦
      transition_current-Evolves s now input (renewed expires now) none d d'
        (λ row t.
          renews (s.owner_hmac (trim_space input.owner_token)) input.fence expires now t refl)
        (ground (arith, p, h))
]

valid_owner-trimmed : (owner : String) → valid_owner owner ≡ true → trim_space owner ≡ owner
unfolding valid_owner
valid_owner-trimmed owner h = sym ((eq_iff owner (trim_space owner)).0 (ground (arith, h)))

fail-valid :
    (s : Service) (now : ℤ) (input : TransitionInput) (d d' : Database)
    → fail s now input d ≡ ok d'
    → valid_owner input.owner_token ≡ true
unfolding fail
fail-valid s now input d d' h = elim (Bool-cases (valid_owner input.owner_token)) [
  | inl p ↦ p
  | inr p ↦ ground (arith, p, h)
]

fail-Evolves :
    (s : Service) (now : ℤ) (input : TransitionInput) (d d' : Database)
    → fail s now input d ≡ ok d'
    → Evolves d.jobs d'.jobs
unfolding fail Allowed
fail-Evolves s now input d d' h = elim (Result-cases (failure_outcome now input.fence)) [
  | inr (e, p) ↦ ground (arith, p, h)
  | inl ((state, next), p) ↦
      let code = sanitize_failure input.failure in
      let trimmed = valid_owner-trimmed input.owner_token (fail-valid s now input d d' h) in
      transition_current-Evolves s now input
        (failed_with (s.owner_hmac input.owner_token) input.fence code state next now) (some code) d
        d'
        (λ row t.
          fails (s.owner_hmac input.owner_token) input.fence code state next now
            (subst (λ o. holds (s.owner_hmac o) input.fence now row ≡ true) trimmed t) p refl)
        (ground (arith, p, h))
]

-- Every row goes along the changes, or there is one new row.
pub step-Evolves :
    (s : Service) (op : Op) (d : Database)
    → Evolves d.jobs (step s op d).jobs
      ⊎ ((guid : ℤ) × (price_id : ℤ) × (content_id : ℤ) × (now : ℤ) × (has_job d.jobs guid ≡ false)
          × ((step s op d).jobs ≡ d.jobs ++ new_job guid price_id content_id now ∷ []))
unfolding step
step-Evolves s (publishes at prices releases) d = inl (Evolves-same d.jobs)
step-Evolves s (enqueues guid price_id content_id now) d = elim (Bool-cases (has_job d.jobs guid)) [
  | inl p ↦ inl (rw p (Evolves-same d.jobs))
  | inr p ↦ inr (guid, price_id, content_id, now, p, rw p refl)
]
step-Evolves s (History.leases now input) d = elim (Result-cases (lease s now input d)) [
  | inl ((l, d'), p) ↦ inl (rw p (lease-Evolves s now input d d' l p))
  | inr (e, p) ↦ inl (rw p (Evolves-same d.jobs))
]
step-Evolves s (History.renews now input) d = elim (Result-cases (renew s now input d)) [
  | inl (d', p) ↦ inl (rw p (renew-Evolves s now input d d' p))
  | inr (e, p) ↦ inl (rw p (Evolves-same d.jobs))
]
step-Evolves s (History.completes now input) d = elim (Result-cases (complete s now input d)) [
  | inl (d', p) ↦ inl (rw p (complete-Evolves s now input d d' p))
  | inr (e, p) ↦ inl (rw p (Evolves-same d.jobs))
]
step-Evolves s (History.fails now input) d = elim (Result-cases (fail s now input d)) [
  | inl (d', p) ↦ inl (rw p (fail-Evolves s now input d d' p))
  | inr (e, p) ↦ inl (rw p (Evolves-same d.jobs))
]
