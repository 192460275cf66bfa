-- ===== src/Render.antt =====
-- internal/service/public_render_job.go: the jobs that render the public site, leased to workers.
-- This file has the rows of the tables that the service reads and the arithmetic of fences.
pub mod Jobs
pub mod Transitions
pub mod History
mod Rules
mod Lifecycle
mod Edges
mod Outcomes
mod Changes
mod Paths
mod Bounds
mod Rows
mod Fencing
mod Steps
mod Holding
mod Answers
mod Replay
pub mod Health
mod Status
mod Errors
mod Samples
use porsche.Prelude.{
  ℕ, ◌+◌, ◌-◌, ◌*◌, ◌/◌, ◌%◌, ◌^◌, String, Bool, true, false, not, ◌&&◌, ◌||◌, Option, none, some,
  List, [], ◌∷◌, str_eq, ltb, leb, ◌==◌, if◌then◌else◌, Result, ok, err, ◌>>=◌, ◌>>◌, guard,
}
use porsche.Prelude.Int.{ℤ, pos, negsuc, leb_ℤ, ltb_ℤ, eq_ℤ}
use porsche.Generation.Identity.{codes, utf8_length}
use porsche.Intent.Texts.{trim_space}

pub data RenderError : Type 0 where
  render_invalid lease_lost unavailable : RenderError

-- `models.PublicRenderJobState`.
pub data JobState : Type 0 where
  queued leased succeeded failed : JobState

abbrev pub same_state : JobState → JobState → Bool
same_state queued queued = true
same_state leased leased = true
same_state succeeded succeeded = true
same_state failed failed = true
same_state _ _ = false

-- `models.PublicRenderJob`, a row that is not deleted; its id is its place in the table.
pub record Job : Type 0 where
  pub guid : ℤ
  pub price_snapshot_id : ℤ
  pub content_release_id : ℤ
  pub state : JobState
  pub lease_owner_hmac : Option String
  pub lease_expires_at : Option ℤ
  pub attempt_count : ℤ
  pub last_failure : Option String
  pub completed_at : Option ℤ
  pub last_terminal_owner_hmac : Option String
  pub last_terminal_fence : Option ℤ
  pub last_terminal_operation : Option ℤ
  pub last_terminal_state : Option JobState
  pub updated_at : ℤ

-- `models.PublicPublicationState`, what the service reads of it.
pub record Publication : Type 0 where
  pub price_snapshot_id : Option ℤ
  pub content_release_id : Option ℤ

pub record Price : Type 0 where
  pub version : ℤ
  pub content_hash : String

-- A release's payload: without the structured schema, unreadable, or the times at which its
-- announcements take effect, where they have one.
pub data Payload : Type 0 where
  plain unreadable : Payload
  home : List (Option String) → Payload

pub record Release : Type 0 where
  pub version : ℤ
  pub content_hash : String
  pub payload : Payload
  pub published_at : ℤ

-- The calls of the alert service that a transaction makes.
pub data Alert : Type 0 where
  occurred : (release_version job_guid : ℤ) (error_code : String) (now : ℤ) → Alert
  resolved : (job_guid : ℤ) → Alert

pub record Database : Type 0 where
  pub publication : Option Publication
  pub prices : ℤ → Option Price
  pub releases : ℤ → Option Release
  pub jobs : List Job
  pub alerts : List Alert

-- The service: the digest of an owner's token under its key, the key's length, and `time.Parse` by
-- RFC 3339, in milliseconds, of a text without a fraction of a second.
pub record Service : Type 0 where
  pub owner_hmac : String → String
  pub key_length : ℕ
  pub parse_time : String → Option ℤ

abbrev pub Checked : Type 0 → Type 0
Checked A = Result RenderError A

abbrev pub max_attempts : ℕ
max_attempts = 3

abbrev pub max_fence : ℕ
max_fence = 2147483647

abbrev pub max_requeue_fence : ℕ
max_requeue_fence = (max_fence / max_attempts - 1) * max_attempts

abbrev pub max_int64 : ℕ
max_int64 = 9223372036854775807

-- `publicRenderAttemptOrdinal`.
unfoldable pub attempt_ordinal : ℤ → ℕ
attempt_ordinal (negsuc n) = 0
attempt_ordinal (pos n) = if n == 0 then 0 else (n - 1) % max_attempts + 1

-- `publicRenderAttemptExhausted`, and `publicRenderFailureKeepsInputMarker`.
unfoldable pub attempt_exhausted : ℤ → Bool
unfolding attempt_ordinal
attempt_exhausted fence = ltb_ℤ (pos 0) fence && attempt_ordinal fence == max_attempts

-- `publicRenderNextCycleBase`.
unfoldable pub next_cycle_base : ℤ → Option ℤ
unfolding attempt_ordinal
next_cycle_base (negsuc n) = none
next_cycle_base (pos n) =
    let delta = max_attempts - attempt_ordinal (pos n) in
    if ltb max_requeue_fence n
    then none
    else if n == 0
    then some (pos 0)
    else if ltb (max_fence - delta) n
    then none
    else some (pos (n + delta))

-- `publicRenderAddMillis`.
unfoldable pub add_millis : ℤ → ℤ → Option ℤ
add_millis (negsuc n) d = none
add_millis (pos n) (negsuc d) = none
add_millis (pos n) (pos d) =
    if n == 0 || ltb 0 d && ltb (max_int64 - d) n then none else some (pos (n + d))

-- `publicRenderRetryDelay`, in milliseconds.
unfoldable pub retry_delay : ℕ → ℕ
retry_delay attempt =
    if attempt == 0 || leb max_attempts attempt then 0 else 5 * 2 ^ (attempt - 1) * 1000

-- `sanitizePublicRenderFailure`.
unfoldable pub sanitize_failure : String → String
unfolding trim_space
sanitize_failure raw =
    let code = trim_space raw in
    if str_eq code "render_failed"
      || str_eq code "validation_failed"
      || str_eq code "obsolete_generation"
    then code
    else "render_failed"

unfoldable pub all_visible : List ℕ → Bool
all_visible [] = true
all_visible (c ∷ cs) = leb 0x21 c && leb c 0x7e && all_visible cs

-- `ValidPublicRenderOwnerToken`.
unfoldable pub valid_owner : String → Bool
unfolding trim_space all_visible
valid_owner owner =
    str_eq owner (trim_space owner)
    && leb 16 (utf8_length (codes owner))
    && leb (utf8_length (codes owner)) 256
    && all_visible (codes owner)

-- `validPublicRenderLeaseInput`.
unfoldable pub valid_lease_input : String → ℤ → Bool
unfolding valid_owner
valid_lease_input owner lease =
    valid_owner owner && leb_ℤ (pos 5000) lease && leb_ℤ lease (pos 300000)

abbrev hash_ok : String → Bool
hash_ok h = utf8_length (codes h) == 64

abbrev pub of_row {ℓ} : {A : Type ℓ} → Option A → Result RenderError A
of_row none = err unavailable
of_row (some a) = ok a

abbrev same_id : Option ℤ → ℤ → Bool
same_id none z = false
same_id (some y) z = eq_ℤ y z

-- `loadPublicRenderGenerationForState`: none when the publication points elsewhere.
unfoldable pub load_generation : Database → Publication → ℤ → ℤ → Checked (Option (Price × Release))
load_generation d at price_id content_id =
    if not (same_id at.price_snapshot_id price_id && same_id at.content_release_id content_id)
    then ok none
    else (do
      price ← of_row (d.prices price_id)
      content ← of_row (d.releases content_id)
      guard (hash_ok price.content_hash && hash_ok content.content_hash) unavailable
      ok (some (price, content)))

module _ (s : Service) where
  unfoldable pub valid : ℤ → Bool
  valid now = ltb_ℤ (pos 0) now && leb 16 s.key_length

  abbrev later : ℤ → ℤ → ℤ → ℤ
  later now millis watermark =
      if leb_ℤ millis now && ltb_ℤ watermark millis then millis else watermark

  -- The loop of `effectiveAnnouncementWatermark`.
  unfoldable pub watermark_after : ℤ → ℤ → List (Option String) → Checked ℤ
  watermark_after now watermark [] = ok watermark
  watermark_after now watermark (none ∷ rest) = watermark_after now watermark rest
  watermark_after now watermark (some text ∷ rest) = do
    millis ← of_row (s.parse_time text)
    watermark_after now (later now millis watermark) rest

  abbrev watermark_in : ℤ → Payload → Checked ℤ
  watermark_in now plain = ok (pos 0)
  watermark_in now unreadable = err unavailable
  watermark_in now (home times) =
      if not (ltb_ℤ (pos 0) now) then err unavailable else watermark_after now (pos 0) times

  -- `effectiveAnnouncementWatermarkForRelease`.
  unfoldable pub watermark_for : Database → ℤ → ℤ → Checked ℤ
  unfolding watermark_after
  watermark_for d content_id now = do
    content ← of_row (d.releases content_id)
    watermark_in now content.payload

abbrev before : Option ℤ → ℤ → Bool
before none watermark = true
before (some at) watermark = ltb_ℤ at watermark

abbrev ended_before : Job → ℤ → Bool
ended_before job watermark = elim job.completed_at [
  | none ↦ ltb_ℤ job.updated_at watermark
  | some at ↦ ltb_ℤ at watermark
]

abbrev should_queue_in : JobState → Job → ℤ → Bool
should_queue_in succeeded job watermark = before job.completed_at watermark
should_queue_in failed job watermark = ended_before job watermark
should_queue_in _ job watermark = false

-- `shouldQueueEffectiveAnnouncement`.
unfoldable pub should_queue : Job → ℤ → Bool
should_queue job watermark = ltb_ℤ (pos 0) watermark && should_queue_in job.state job watermark

-- `renderAttemptCrossedEffectiveBoundary`.
unfoldable pub crossed_boundary : Option ℤ → ℤ → Bool
crossed_boundary input_at watermark = ltb_ℤ (pos 0) watermark && before input_at watermark
