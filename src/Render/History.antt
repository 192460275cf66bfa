-- ===== src/Render/History.antt =====
-- internal/service/public_render_job.go: the operations on the table of jobs as steps, with what the
-- publishing services do to it (public_content.go, public_price_snapshot.go,
-- upstream_price_monitor.go): a job is created queued, and the publication's row is pointed at new
-- rows. A guid is unique by the column's index.
use porsche.Prelude.{
  Bool, false, ◌||◌, Option, none, some, List, [], ◌∷◌, ◌++◌, if◌then◌else◌, ok, err,
}
use porsche.Prelude.Int.{ℤ, pos, eq_ℤ}
use porsche.Render.{queued, Job, Publication, Price, Release, Database, Service, Checked}
use porsche.Render.Jobs.{LeaseInput, Lease, lease}
use porsche.Render.Transitions.{TransitionInput, renew, complete, fail}

-- The row that the publishing services create.
abbrev pub new_job : ℤ → ℤ → ℤ → ℤ → Job
new_job guid price_id content_id now = record {
  guid = guid;
  price_snapshot_id = price_id;
  content_release_id = content_id;
  state = queued;
  lease_owner_hmac = none;
  lease_expires_at = none;
  attempt_count = pos 0;
  last_failure = none;
  completed_at = none;
  last_terminal_owner_hmac = none;
  last_terminal_fence = none;
  last_terminal_operation = none;
  last_terminal_state = none;
  updated_at = now;
}

unfoldable pub has_job : List Job → ℤ → Bool
has_job [] guid = false
has_job (job ∷ jobs) guid = eq_ℤ job.guid guid || has_job jobs guid

pub data Op : Type 0 where
  publishes : Publication → (ℤ → Option Price) → (ℤ → Option Release) → Op
  enqueues : (guid price_id content_id now : ℤ) → Op
  leases : ℤ → LeaseInput → Op
  renews completes fails : ℤ → TransitionInput → Op

-- An error rolls the transaction back.
abbrev pub after : Database → Checked Database → Database
after d (err e) = d
after d (ok d') = d'

abbrev pub after_lease : Database → Checked (Option Lease × Database) → Database
after_lease d (err e) = d
after_lease d (ok (l, d')) = d'

module _ (s : Service) where
  unfoldable pub step : Op → Database → Database
  unfolding has_job lease renew complete fail
  step (publishes at prices releases) d = record d {
    publication = some at;
    prices = prices;
    releases = releases;
  }
  step (enqueues guid price_id content_id now) d =
      if has_job d.jobs guid
      then d
      else record d { jobs = d.jobs ++ new_job guid price_id content_id now ∷ [] }
  step (leases now input) d = after_lease d (lease s now input d)
  step (renews now input) d = after d (renew s now input d)
  step (completes now input) d = after d (complete s now input d)
  step (fails now input) d = after d (fail s now input d)

  unfoldable pub run : List Op → Database → Database
  unfolding step
  run [] d = d
  run (op ∷ ops) d = run ops (step op d)
