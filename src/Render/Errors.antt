-- ===== src/Render/Errors.antt =====
-- The errors of `Fail` of internal/service/public_render_job.go.
use porsche.Prelude.Table.{find_row}
use porsche.Prelude.{ℕ, ◌≡◌, ◌≢◌, ◌⊎◌, String, true, false, Option, none, some, ok, err, ◌&&◌}
use porsche.Prelude.Int.{ℤ, pos}
use porsche.Intent.Texts.{trim_space}
use porsche.Render.{
  RenderError, render_invalid, lease_lost, unavailable, Job, JobState, Price, Publication, Release,
  Database, Service, load_generation, valid_owner, sanitize_failure,
}
use porsche.Render.Rules.{IsHeld, IsRecorded}
use porsche.Render.Transitions.{TransitionInput, has_guid, valid_transition, failure_outcome}

-- Why a failure of a job that is found, with this code, is refused with the error.
pub IsRefusedJob :
    Service → ℤ → TransitionInput → String → Database → RenderError → Publication → Job → Type 0
IsRefusedJob s now input code d e at job =
    (IsRecorded (s.owner_hmac input.owner_token) input.fence (pos 2) job
      × (job.last_failure ≢ some code)
      × (e ≡ lease_lost))
    ⊎ (¬ IsRecorded (s.owner_hmac input.owner_token) input.fence (pos 2) job
        × ((load_generation d at job.price_snapshot_id job.content_release_id ≡ err e)
            ⊎ ((load_generation d at job.price_snapshot_id job.content_release_id ≡ ok none)
                × (e ≡ lease_lost))
            ⊎ ((current : Price × Release) × (load_generation d at job.price_snapshot_id
                    job.content_release_id
                  ≡ ok (some current))
                × (¬ IsHeld (s.owner_hmac (trim_space input.owner_token)) input.fence now job)
                × (e ≡ lease_lost))))

-- Why the transaction of a failure with this code is refused with the error.
pub IsRefusal : Service → ℤ → TransitionInput → String → Database → RenderError → Type 0
IsRefusal s now input code d e =
    ((d.publication ≡ none) × (e ≡ unavailable))
    ⊎ ((at : Publication) × (d.publication ≡ some at)
        × (((find_row (has_guid input.job_guid) d.jobs ≡ none) × (e ≡ lease_lost))
            ⊎ ((i : ℕ) × (job : Job) × (find_row (has_guid input.job_guid) d.jobs ≡ some (i, job))
                × IsRefusedJob s now input code d e at job)))

-- Why `Fail` fails with the error.
pub IsFailure : Service → ℤ → TransitionInput → Database → RenderError → Type 0
IsFailure s now input d e =
    (((valid_transition s now input && valid_owner input.owner_token) ≡ false)
      × (e ≡ render_invalid))
    ⊎ (((valid_transition s now input && valid_owner input.owner_token) ≡ true)
        × (((failure_outcome now input.fence ≡ err render_invalid) × (e ≡ render_invalid))
            ⊎ ((outcome : JobState × Option ℤ) × (failure_outcome now input.fence ≡ ok outcome)
                × IsRefusal s now input (sanitize_failure input.failure) d e)))
