-- ===== src/Render/Replay.antt =====
-- What `Complete` of internal/service/public_render_job.go answers, the first time and again.
use porsche.Prelude.{
  ℕ, ◌≡◌, refl, sym, subst, ◌⊎◌, inl, inr, String, true, none, some, Option-cases, Bool-cases,
  arith, ok, ◌&&◌, eq_refl,
}
use porsche.Prelude.Int.{ℤ, pos, ◌<ℤ◌}
use porsche.Render.Rules.{
  IsHeld, IsRecorded, IsCrossed, not-IsCrossed, crossed_boundary-IsCrossed, IsSameJob, IsCycleEnd,
  IsCompletedRow, holds-IsHeld, terminal_replay-IsRecorded, next_cycle_base-IsCycleEnd,
}
use porsche.Render.{
  queued, succeeded, Job, Publication, Database, Service, valid, valid_owner, watermark_for,
}
use porsche.Render.Transitions.{
  TransitionInput, terminal_replay, has_guid, completed, completed_again, complete,
  valid_transition,
}
use porsche.Prelude.Table.{find_row}
use porsche.Render.Answers.{IsCompletion, Answered, complete-Answered}

completed-IsCompletedRow :
    (owner : String) (fence now : ℤ) (job : Job)
    → job.attempt_count ≡ fence
    → IsCompletedRow owner fence succeeded fence (some now) (completed owner fence now job)
completed-IsCompletedRow owner fence now job h = record {
  stands = refl;
  counted = h;
  ended_at = refl;
  unowned = refl;
  unleased = refl;
  no_failure = refl;
  recorded = record { by_owner = refl; by_fence = refl; by_operation = refl; unmoved = refl };
}

completed_again-IsCompletedRow :
    (owner : String) (fence now base : ℤ) (job : Job)
    → IsCompletedRow owner fence queued base none (completed_again owner fence now base job)
completed_again-IsCompletedRow owner fence now base job = record {
  stands = refl;
  counted = refl;
  ended_at = refl;
  unowned = refl;
  unleased = refl;
  no_failure = refl;
  recorded = record { by_owner = refl; by_fence = refl; by_operation = refl; unmoved = refl };
}

-- What a completion makes of the row: it has succeeded, or it is queued again, with its attempts
-- counted from the end of the fence's cycle.
abbrev pub IsCompletedFrom : ℤ → String → ℤ → ℤ → Job → Job → Type 0
IsCompletedFrom watermark owner fence now job job' =
    IsSameJob job job'
    × (((¬ IsCrossed watermark job) × IsCompletedRow owner fence succeeded fence (some now) job')
        ⊎ ((base : ℤ) × IsCrossed watermark job
            × IsCycleEnd fence base
            × IsCompletedRow owner fence queued base none job'))

IsCompletion-IsCompletedFrom :
    (watermark : ℤ) (owner : String) (fence now : ℤ) (job job' : Job)
    → job.attempt_count ≡ fence
    → IsCompletion watermark owner fence now job job'
    → IsCompletedFrom watermark owner fence now job job'
unfolding IsCompletion
IsCompletion-IsCompletedFrom watermark owner fence now job job' a (inl (x, e)) =
    subst (IsCompletedFrom watermark owner fence now job) (sym e) (
      record { same_guid = refl; same_price = refl; same_content = refl },
      inl (not-IsCrossed watermark job x, completed-IsCompletedRow owner fence now job a),
    )
IsCompletion-IsCompletedFrom watermark owner fence now job job' a (inr (base, x, p, e)) =
    subst (IsCompletedFrom watermark owner fence now job) (sym e) (
      record { same_guid = refl; same_price = refl; same_content = refl },
      inr (
        base,
        crossed_boundary-IsCrossed watermark job x,
        next_cycle_base-IsCycleEnd fence base p,
        completed_again-IsCompletedRow owner fence now base job,
      ),
    )

-- What `Complete` has done where it succeeds.
pub IsCompleted : Service → ℤ → TransitionInput → Database → Database → Type 0
IsCompleted s now input d d' =
    (i : ℕ) × (job : Job) × (job' : Job) × (find_row (has_guid input.job_guid) d.jobs
      ≡ some (i, job))
    × (find_row (has_guid input.job_guid) d'.jobs ≡ some (i, job'))
    × (d'.publication ≡ d.publication)
    × (((d' ≡ d) × IsRecorded (s.owner_hmac input.owner_token) input.fence (pos 1) job)
        ⊎ (IsHeld (s.owner_hmac input.owner_token) input.fence now job
            × (watermark : ℤ) × (watermark_for s d job.content_release_id now ≡ ok watermark)
            × IsCompletedFrom watermark (s.owner_hmac input.owner_token) input.fence now job job'))

-- Where `Complete` succeeds, the record of the job of that guid says that it was completed by this
-- owner under this fence and has kept its state since, and nothing changes; or the job is leased to
-- this owner under this fence and its lease has not run out. Then it has succeeded now, but where an
-- announcement of its release took effect, by the watermark, after the attempt had begun, it is queued
-- again with the end of the fence's cycle as its count of attempts: in both cases without owner,
-- lease and failure, and with the record of the completion.
pub complete-IsCompleted :
    (s : Service) (now : ℤ) (input : TransitionInput) (d d' : Database)
    → complete s now input d ≡ ok d'
    → IsCompleted s now input d d'
unfolding Answered IsCompleted
complete-IsCompleted s now input d d' h =
    let owner = s.owner_hmac input.owner_token in
    let (i, job, job', f, f', k, c) = complete-Answered s now input d d' h in
    (
      i,
      job,
      job',
      f,
      f',
      k,
      elim c [
        | inl (e, p) ↦ inl (e, terminal_replay-IsRecorded owner input.fence (pos 1) job p)
        | inr (t, watermark, known, m) ↦
            let held = holds-IsHeld owner input.fence now job t in
            inr (
              held,
              watermark,
              known,
              IsCompletion-IsCompletedFrom watermark owner input.fence now job job' held.fenced m,
            )
      ],
    )

IsCompletion-replay :
    (watermark : ℤ) (owner : String) (fence now : ℤ) (job job' : Job)
    → IsCompletion watermark owner fence now job job'
    → terminal_replay job' owner fence (pos 1) ≡ true
unfolding IsCompletion terminal_replay
IsCompletion-replay watermark owner fence now job job' (inl (x, e)) =
    ground (arith, e, eq_refl owner)
IsCompletion-replay watermark owner fence now job job' (inr (base, x, p, e)) =
    ground (arith, e, eq_refl owner)

complete-valid :
    (s : Service) (now now' : ℤ) (input : TransitionInput) (d d' : Database)
    → complete s now input d ≡ ok d'
    → pos 0 <ℤ now'
    → (at : Publication) × (d.publication ≡ some at)
      × ((valid_transition s now' input && valid_owner input.owner_token) ≡ true)
unfolding complete valid
complete-valid s now now' input d d' h t = elim (Option-cases d.publication) [
  | inl a ↦ ground (arith, a, h)
  | inr (at, a) ↦
      elim (Bool-cases (valid_transition s now input && valid_owner input.owner_token)) [
        | inl p ↦ (at, a, ground (arith, p, t))
        | inr p ↦ ground (arith, p, h)
      ]
]

-- A `Complete` that has succeeded succeeds again, at any later or earlier time, and changes nothing.
pub complete_twice :
    (s : Service) (now now' : ℤ) (input : TransitionInput) (d d' : Database)
    → complete s now input d ≡ ok d'
    → pos 0 <ℤ now'
    → complete s now' input d' ≡ ok d'
unfolding complete Answered
complete_twice s now now' input d d' h t =
    let (i, job, job', f, f', k, c) = complete-Answered s now input d d' h in
    let (at, a, v) = complete-valid s now now' input d d' h t in
    let replay : terminal_replay job' (s.owner_hmac input.owner_token) input.fence (pos 1) ≡ true =
      elim c [
        | inl (e, p) ↦ ground (arith, e, f, f', p)
        | inr (_, watermark, _, m) ↦
            IsCompletion-replay watermark (s.owner_hmac input.owner_token) input.fence now job job'
              m
      ] in
    ground (arith, v, k, a, f', replay)
