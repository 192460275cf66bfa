-- ===== src/Render/Health.antt =====
-- internal/service/public_render_job.go: what the service reports of the site (`Lookup`, `Health`).
use porsche.Prelude.Table.{find_row}
use porsche.Prelude.{
  ◌-◌, String, Bool, false, ◌&&◌, ◌||◌, Option, none, some, List, [], ◌∷◌, str_eq, if◌then◌else◌,
  ok, err, ◌>>=◌, ◌>>◌, guard,
}
use porsche.Prelude.Int.{ℤ, pos, leb_ℤ, ltb_ℤ, eq_ℤ, pos_part}
use porsche.Intent.Texts.{trim_space}
use porsche.Render.{
  render_invalid, unavailable, succeeded, failed, same_state, Job, Publication, Price, Release,
  Database, Checked, sanitize_failure, of_row, load_generation,
}
use porsche.Render.Jobs.{for_rows}

-- The words "healthy", "degraded" and "failed".
pub data Status : Type 0 where
  healthy degraded failing : Status

-- `PublicRenderHealthInput` without `RenderedAt`, which nothing reads.
pub record HealthInput : Type 0 where
  pub current_generation : ℤ
  pub rendered_generation : ℤ
  pub published_at : ℤ
  pub pending_generation : ℤ
  pub current_job_terminal : Bool
  pub failure_code : String

pub record HealthStatus : Type 0 where
  pub status : Status
  pub lag_millis : ℤ
  pub current_generation : ℤ
  pub rendered_generation : ℤ
  pub pending_generation : ℤ
  pub failure_code : String

abbrev pub healthy_lag : ℤ
healthy_lag = pos 60000

abbrev pub failed_lag : ℤ
failed_lag = pos 300000

-- `now - then` of two times with `then < now`, both positive.
abbrev minus : ℤ → ℤ → ℤ
minus now at = pos (pos_part now - pos_part at)

abbrev pub lag_of : ℤ → HealthInput → ℤ
lag_of now input =
    if ltb_ℤ input.rendered_generation input.current_generation
      && ltb_ℤ (pos 0) input.published_at
      && ltb_ℤ input.published_at now
    then minus now input.published_at
    else pos 0

-- `sanitizeHealthFailure`.
unfoldable pub sanitize_health_failure : String → String
unfolding trim_space sanitize_failure
sanitize_health_failure code = if str_eq (trim_space code) "" then "" else sanitize_failure code

abbrev behind_status : ℤ → HealthInput → Status
behind_status now input =
    if ltb_ℤ input.rendered_generation input.current_generation
    then (if input.current_job_terminal || ltb_ℤ failed_lag (lag_of now input)
        then failing
        else degraded)
    else healthy

-- `PublicRenderHealth`.
unfoldable pub render_health : ℤ → HealthInput → HealthStatus
unfolding sanitize_health_failure
render_health now input = record {
  status =
      if leb_ℤ (lag_of now input) healthy_lag
        && eq_ℤ input.current_generation input.rendered_generation
      then healthy
      else behind_status now input;
  lag_millis = lag_of now input;
  current_generation = input.current_generation;
  rendered_generation = input.rendered_generation;
  pending_generation = input.pending_generation;
  failure_code = sanitize_health_failure input.failure_code;
}

-- `PublicRenderGeneration`.
pub record Generation : Type 0 where
  pub generation : ℤ
  pub price_version : ℤ
  pub content_version : ℤ
  pub price_hash : String
  pub content_hash : String

abbrev generation_of : Job → Option (Price × Release) → Checked (Option Generation)
generation_of job none = err unavailable
generation_of job (some (price, content)) = ok (
    some (record {
      generation = job.guid;
      price_version = price.version;
      content_version = content.version;
      price_hash = price.content_hash;
      content_hash = content.content_hash;
    }))

abbrev lookup_at : Database → Publication → ℤ → ℤ → Checked (Option Generation)
lookup_at d at price_id content_id = do
  found ← of_row (find_row (for_rows price_id content_id) d.jobs)
  current ← load_generation d at found.1.price_snapshot_id found.1.content_release_id
  generation_of found.1 current

-- `Lookup`.
unfoldable pub lookup_generation : Database → Checked (Option Generation)
unfolding find_row load_generation
lookup_generation d = do
  at ← of_row d.publication
  elim at.price_snapshot_id [
    | none ↦ ok none
    | some price_id ↦ elim at.content_release_id [
      | none ↦ ok none
      | some content_id ↦ lookup_at d at price_id content_id
    ]
  ]

abbrev later_job : Option Job → Job → Option Job
later_job none job = some job
later_job (some best) job = elim job.completed_at [
  | none ↦ some best
  | some at ↦ elim best.completed_at [
    | none ↦ some job
    | some best_at ↦ if ltb_ℤ best_at at then some job else some best
  ]
]

-- The succeeded job that was completed last: `Order("completed_at DESC").First`.
unfoldable pub last_succeeded : Option Job → List Job → Option Job
last_succeeded best [] = best
last_succeeded best (job ∷ jobs) =
    last_succeeded (if same_state job.state succeeded then later_job best job else best) jobs

abbrev rendered_by : Option Job → ℤ
rendered_by none = pos 0
rendered_by (some job) = elim job.completed_at [ none ↦ pos 0 | some at ↦ job.guid ]

abbrev published_by : Database → Option ℤ → ℤ
published_by d none = pos 0
published_by d (some content_id) = elim (d.releases content_id) [
  | none ↦ pos 0
  | some release ↦ release.published_at
]

abbrev text_or_empty : Option String → String
text_or_empty none = ""
text_or_empty (some t) = t

abbrev unpublished_input : Database → Publication → HealthInput
unpublished_input d at = record {
  current_generation = pos 0;
  rendered_generation = rendered_by (last_succeeded none d.jobs);
  published_at = published_by d at.content_release_id;
  pending_generation = pos 0;
  current_job_terminal = false;
  failure_code = "";
}

abbrev published_input : Database → Publication → Job → HealthInput
published_input d at job = record (unpublished_input d at) {
  current_generation = job.guid;
  pending_generation = if same_state job.state succeeded then pos 0 else job.guid;
  current_job_terminal = same_state job.state failed;
  failure_code = text_or_empty job.last_failure;
}

abbrev health_input : Database → Publication → Option ℤ → Option ℤ → Checked HealthInput
health_input d at (some price_id) (some content_id) = do
  found ← of_row (find_row (for_rows price_id content_id) d.jobs)
  ok (published_input d at found.1)
health_input d at _ _ = ok (unpublished_input d at)

-- `Health`.
unfoldable pub health : ℤ → Database → Checked HealthStatus
unfolding find_row last_succeeded render_health
health now d = do
  guard (ltb_ℤ (pos 0) now) render_invalid
  at ← of_row d.publication
  input ← health_input d at at.price_snapshot_id at.content_release_id
  ok (render_health now input)
