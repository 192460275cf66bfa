-- ===== src/Render/Samples.antt =====
-- The theorems on the render jobs at concrete values.
use porsche.Prelude.{
  ◌≡◌, refl, String, true, false, Option, none, some, List, [], ◌∷◌, ok, err, All, arith, ◌⊎◌, ◌↔◌,
  ◌+◌, ◌<◌, ◌++◌,
}
use porsche.Prelude.Int.{ℤ, pos, ◌<ℤ◌, ◌≤ℤ◌}
use porsche.Generation.Identity.{utf8_length, is_space}
use porsche.Render.{
  lease_lost, resolved, Job, Publication, Price, Release, home, Database, Service, next_cycle_base,
  attempt_ordinal, attempt_exhausted, max_requeue_fence, queued, leased,
}
use porsche.Render.Jobs.{LeaseInput, Lease, lease, succ_ℤ}
use porsche.Render.Transitions.{TransitionInput, complete, fail}
use porsche.Render.History.{Op, publishes, enqueues, leases, completes, step, run, has_job}
use porsche.Render.Bounds.{next_cycle_base-bounds, IsWithin, run-IsWithin}
use porsche.Render.Rows.{IsUnique}
use porsche.Render.Fencing.{fences_increase}
use porsche.Render.Replay.{IsCompleted, complete-IsCompleted, complete_twice}
use porsche.Render.Health.{HealthInput, render_health, healthy, failing}
use porsche.Render.Status.{render_health-status}

abbrev token : String
token = "worker-0000000001"

abbrev hash : String
hash = "0123456789abcdef0123456789abcdef0123456789abcdef0123456789abcdef"

-- A service whose digest is the text, and whose only time is "noon", 5000.
abbrev service : Service
service = record { owner_hmac = λ t. t; key_length = 32; parse_time = λ t. some (pos 5000) }

abbrev site : Publication
site = record { price_snapshot_id = some (pos 1); content_release_id = some (pos 2) }

abbrev price : Price
price = record { version = pos 7; content_hash = hash }

abbrev release : Release
release = record {
  version = pos 8;
  content_hash = hash;
  payload = home (some "noon" ∷ []);
  published_at = pos 900;
}

abbrev prices : ℤ → Option Price
prices z = some price

abbrev releases : ℤ → Option Release
releases z = some release

abbrev empty : Database
empty = record { publication = none; prices = prices; releases = releases; jobs = []; alerts = [] }

abbrev request : LeaseInput
request = record { owner_token = token; lease_millis = pos 60000 }

abbrev transition : ℤ → TransitionInput
transition fence = record {
  job_guid = pos 77;
  owner_token = token;
  fence = fence;
  lease_millis = pos 60000;
  failure = "validation_failed";
}

-- The site is published, a job is created, and a worker leases it before noon.
abbrev opening : List Op
opening = publishes site prices releases ∷ enqueues (pos 77) (pos 1) (pos 2) (pos 1000) ∷ []

abbrev opened : Database
opened = run service opening empty

abbrev leased_job : ℤ → ℤ → ℤ → Job
leased_job fence expires now = record {
  guid = pos 77;
  price_snapshot_id = pos 1;
  content_release_id = pos 2;
  state = leased;
  lease_owner_hmac = some token;
  lease_expires_at = some expires;
  attempt_count = fence;
  last_failure = none;
  completed_at = some now;
  last_terminal_owner_hmac = none;
  last_terminal_fence = none;
  last_terminal_operation = none;
  last_terminal_state = none;
  updated_at = now;
}

abbrev started : Database
started = record {
  publication = some site;
  prices = prices;
  releases = releases;
  jobs = leased_job (pos 1) (pos 62000) (pos 2000) ∷ [];
  alerts = [];
}

abbrev lease_of : ℤ → ℤ → Lease
lease_of fence expires = record {
  job_guid = pos 77;
  owner_token = token;
  fence = fence;
  price = price;
  content = release;
  lease_expires_at = expires;
}

opened-lease :
    lease service (pos 2000) request opened ≡ ok (some (lease_of (pos 1) (pos 62000)), started)
unfolding run step lease is_space utf8_length
opened-lease = refl

-- The attempt began before noon and ends after it, so the job is queued again.
abbrev crossing : List Op
crossing = completes (pos 9000) (transition (pos 1)) ∷ []

abbrev restarted : Database
restarted = record started {
  jobs = leased_job (pos 4) (pos 70000) (pos 10000) ∷ [];
  alerts = resolved (pos 77) ∷ [];
}

crossed-lease :
    lease service (pos 10000) request (run service crossing started)
    ≡ ok (some (lease_of (pos 4) (pos 70000)), restarted)
unfolding run step lease complete is_space utf8_length
crossed-lease = refl

opened-IsUnique : IsUnique opened.jobs
unfolding run step IsUnique has_job
opened-IsUnique = (refl, tt)

fences_increase_example : pos 1 <ℤ pos 4
fences_increase_example =
    fences_increase service crossing opened started restarted (pos 2000) (pos 10000) request request
      (lease_of (pos 1) (pos 62000)) (lease_of (pos 4) (pos 70000)) opened-IsUnique opened-lease
      crossed-lease refl

next_cycle_base-bounds_example :
    ((base : ℤ) × (next_cycle_base (pos 2) ≡ some base)
      × (pos 0 ≤ℤ pos 2)
      × (pos 2 ≤ℤ base)
      × (base ≤ℤ pos max_requeue_fence)
      × ((base ≡ pos 0) ⊎ (attempt_exhausted base ≡ true))
      × (attempt_ordinal (succ_ℤ base) ≡ 1))
    ⊎ ((next_cycle_base (pos 2) ≡ none) × ((pos 2 <ℤ pos 0) ⊎ (pos max_requeue_fence <ℤ pos 2)))
next_cycle_base-bounds_example = next_cycle_base-bounds (pos 2)

run-IsWithin_example :
    All IsWithin (run service (opening ++ leases (pos 2000) request ∷ crossing) empty).jobs
run-IsWithin_example =
    run-IsWithin service (opening ++ leases (pos 2000) request ∷ crossing) empty tt

abbrev requeued_job : Job
requeued_job = record (leased_job (pos 3) (pos 0) (pos 9000)) {
  state = queued;
  lease_owner_hmac = none;
  lease_expires_at = none;
  completed_at = none;
  last_terminal_owner_hmac = some token;
  last_terminal_fence = some (pos 1);
  last_terminal_operation = some (pos 1);
  last_terminal_state = some queued;
}

abbrev crossed : Database
crossed = record started { jobs = requeued_job ∷ []; alerts = resolved (pos 77) ∷ [] }

started-complete : complete service (pos 9000) (transition (pos 1)) started ≡ ok crossed
unfolding complete is_space utf8_length
started-complete = refl

complete-IsCompleted_example : IsCompleted service (pos 9000) (transition (pos 1)) started crossed
complete-IsCompleted_example =
    complete-IsCompleted service (pos 9000) (transition (pos 1)) started crossed started-complete

complete_twice_example : complete service (pos 9500) (transition (pos 1)) crossed ≡ ok crossed
complete_twice_example =
    complete_twice service (pos 9000) (pos 9500) (transition (pos 1)) started crossed
      started-complete (ground arith)

late_fail : fail service (pos 62000) (transition (pos 1)) started ≡ err lease_lost
unfolding fail is_space utf8_length
late_fail = refl

abbrev late_site : HealthInput
late_site = record {
  current_generation = pos 78;
  rendered_generation = pos 77;
  published_at = pos 1000;
  pending_generation = pos 78;
  current_job_terminal = false;
  failure_code = "";
}

render_health-status_example :
    (((render_health (pos 302000) late_site).status ≡ healthy) ↔ (pos 78 ≤ℤ pos 77))
    × (((render_health (pos 302000) late_site).status ≡ failing) ↔ (
        (pos 77 <ℤ pos 78) × ((false ≡ true) ⊎ ((pos 0 <ℤ pos 1000) × (1000 + 300000 < 302000)))))
render_health-status_example = render_health-status (pos 302000) late_site
