-- ===== src/Render/Status.antt =====
-- The site's health as internal/service/public_render_job.go grades it.
use porsche.Prelude.{◌+◌, ◌<◌, ◌≡◌, ◌⊎◌, ◌↔◌, true, arith}
use porsche.Prelude.Int.{ℤ, pos, ◌<ℤ◌, ◌≤ℤ◌, pos_part}
use porsche.Render.Health.{HealthInput, render_health, healthy, failing}

-- The site is healthy exactly where what is rendered is as new as what is published, or newer. It
-- has failed exactly where it is behind and the job has ended, or it was published more than five
-- minutes ago.
pub render_health-status :
    (now : ℤ) (input : HealthInput)
    → (((render_health now input).status ≡ healthy)
        ↔ (input.current_generation ≤ℤ input.rendered_generation))
      × (((render_health now input).status ≡ failing) ↔ (
          (input.rendered_generation <ℤ input.current_generation)
          × ((input.current_job_terminal ≡ true)
              ⊎ ((pos 0 <ℤ input.published_at)
                  × (pos_part input.published_at + 300000 < pos_part now)))))
unfolding render_health
render_health-status now input = ground arith
