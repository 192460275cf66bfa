-- ===== src/Render/Jobs.antt =====
-- internal/service/public_render_job.go: the lease of a job (`Lease`), in its transaction. A
-- transaction locks the publication's row first, so transactions run one after the other; the
-- database's own errors are not modelled.
use porsche.Prelude.Table.{find_row, rows_affected, update}
use porsche.Prelude.{
  ℕ, zero, suc, String, Bool, true, false, not, ◌&&◌, ◌||◌, Option, none, some, ◌∷◌, ◌==◌,
  if◌then◌else◌, ok, err, ◌>>=◌, ◌>>◌, guard,
}
use porsche.Prelude.Int.{ℤ, pos, negsuc, leb_ℤ, ltb_ℤ, eq_ℤ}
use porsche.Intent.Texts.{trim_space}
use porsche.Render.{
  render_invalid, unavailable, queued, leased, failed, same_state, Job, Publication, Price, Release,
  occurred, Database, Service, Checked, max_fence, attempt_exhausted, next_cycle_base, add_millis,
  sanitize_failure, valid_lease_input, of_row, load_generation, valid, watermark_for, should_queue,
}

abbrev pub expired : ℤ → Option ℤ → Bool
expired now none = false
expired now (some at) = leb_ℤ at now

abbrev pub waited : ℤ → Option ℤ → Bool
waited now none = true
waited now (some at) = leb_ℤ at now

-- The condition of the query in `Lease`.
unfoldable pub due : ℤ → Job → Bool
due now job =
    same_state job.state queued && waited now job.lease_expires_at
    || same_state job.state leased && expired now job.lease_expires_at

-- The columns that every renewal of a job resets.
abbrev pub cleared : Job → Job
cleared job = record job {
  last_terminal_owner_hmac = none;
  last_terminal_fence = none;
  last_terminal_operation = none;
  last_terminal_state = none;
}

abbrev pub requeued : ℤ → ℤ → Job → Job
requeued base now job = record (cleared job) {
  state = queued;
  attempt_count = base;
  lease_owner_hmac = none;
  lease_expires_at = none;
  last_failure = none;
  completed_at = none;
  updated_at = now;
}

abbrev pub obsolete : ℤ → Job → Job
obsolete now job = record job {
  state = failed;
  last_failure = some "obsolete_generation";
  lease_owner_hmac = none;
  lease_expires_at = none;
  completed_at = none;
  updated_at = now;
}

abbrev pub exhausted : ℤ → Job → Job
exhausted now job = record (cleared job) {
  state = failed;
  lease_owner_hmac = none;
  lease_expires_at = none;
  last_failure = some "render_failed";
  updated_at = now;
}

abbrev pub taken : String → ℤ → ℤ → ℤ → Job → Job
taken owner expires attempt now job = record (cleared job) {
  state = leased;
  lease_owner_hmac = some owner;
  lease_expires_at = some expires;
  attempt_count = attempt;
  last_failure = none;
  completed_at = some now;
  updated_at = now;
}

-- `PublicRenderLeaseInput`, and `PublicRenderLease` without the copies of versions and hashes.
pub record LeaseInput : Type 0 where
  pub owner_token : String
  pub lease_millis : ℤ

pub record Lease : Type 0 where
  pub job_guid : ℤ
  pub owner_token : String
  pub fence : ℤ
  pub price : Price
  pub content : Release
  pub lease_expires_at : ℤ

-- How one scan of `Lease` goes on: no job, another scan, or a lease.
pub data Scan : Type 0 where
  idle : Scan
  again : Database → Scan
  granted : Lease → Database → Scan

-- `n + 1` on Go's int.
abbrev pub succ_ℤ : ℤ → ℤ
succ_ℤ (pos n) = pos (suc n)
succ_ℤ (negsuc zero) = pos 0
succ_ℤ (negsuc (suc n)) = negsuc n

abbrev pub in_state : Job → Job → Bool
in_state job row = same_state row.state job.state

abbrev pub is_open : Job → Bool
is_open row = same_state row.state queued || same_state row.state leased

abbrev pub same_attempt : Job → Job → Bool
same_attempt job row = eq_ℤ row.attempt_count job.attempt_count

abbrev pub may_give_up : Job → ℤ → Job → Bool
may_give_up job now row =
    same_state row.state leased && same_attempt job row && expired now row.lease_expires_at

abbrev pub give_up : Database → ℤ → ℕ → Job → Release → Checked Scan
give_up d now i job content = do
  guard (rows_affected i (may_give_up job now) d.jobs == 1) unavailable
  ok (
      again (record d {
        jobs = update i (may_give_up job now) (exhausted now) d.jobs;
        alerts =
            occurred content.version job.guid (sanitize_failure "render_failed") now ∷ d.alerts;
      }))

abbrev pub max_scans : ℕ
max_scans = 8

abbrev pub for_rows : ℤ → ℤ → Job → Bool
for_rows price_id content_id job =
    eq_ℤ job.price_snapshot_id price_id && eq_ℤ job.content_release_id content_id

abbrev pub queue_job : Database → ℤ → ℕ × Job → Checked Database
queue_job d now (i, job) = do
  base ← of_row (next_cycle_base job.attempt_count)
  guard (rows_affected i (in_state job) d.jobs == 1) unavailable
  ok (record d { jobs = update i (in_state job) (requeued base now) d.jobs })

module _ (s : Service) where
  abbrev pub queue_for : Database → ℤ → ℤ → ℤ → Checked Database
  queue_for d price_id content_id now = do
    watermark ← watermark_for s d content_id now
    if eq_ℤ watermark (pos 0) then ok d else (do
      found ← of_row (find_row (for_rows price_id content_id) d.jobs)
      if not (should_queue found.1 watermark) then ok d else queue_job d now found)

  -- `queueEffectiveAnnouncements`.
  unfoldable pub queue_effective : Database → Publication → ℤ → Checked Database
  unfolding next_cycle_base rows_affected update find_row should_queue watermark_for
  queue_effective d at now = elim at.price_snapshot_id [
    | none ↦ ok d
    | some price_id ↦ elim at.content_release_id [
      | none ↦ ok d
      | some content_id ↦ queue_for d price_id content_id now
    ]
  ]

  abbrev pub grant : LeaseInput → Database → ℤ → ℕ → Job → Price → Release → ℤ → Checked Scan
  grant input d now i job price content expires =
      let owner = trim_space input.owner_token in
      let attempt = succ_ℤ job.attempt_count in
      if not (rows_affected i (same_attempt job) d.jobs == 1)
      then ok (again d)
      else ok (
          granted
            (record {
              job_guid = job.guid;
              owner_token = owner;
              fence = attempt;
              price = price;
              content = content;
              lease_expires_at = expires;
            })
            (record d {
              jobs =
                  update i (same_attempt job) (taken (s.owner_hmac owner) expires attempt now)
                    d.jobs;
            }))

  abbrev pub scan_current :
      LeaseInput → Database → ℤ → ℕ → Job → Option (Price × Release) → Checked Scan
  scan_current input d now i job none =
      ok (again (record d { jobs = update i is_open (obsolete now) d.jobs }))
  scan_current input d now i job (some (price, content)) =
      if same_state job.state leased && attempt_exhausted job.attempt_count
      then give_up d now i job content
      else if ltb_ℤ job.attempt_count (pos 0) || leb_ℤ (pos max_fence) job.attempt_count
      then err unavailable
      else elim (add_millis now input.lease_millis) [
        | none ↦ err render_invalid
        | some expires ↦ grant input d now i job price content expires
      ]

  abbrev pub scan_found : LeaseInput → Database → Publication → ℤ → Option (ℕ × Job) → Checked Scan
  scan_found input d at now none = ok idle
  scan_found input d at now (some (i, job)) = do
    current ← load_generation d at job.price_snapshot_id job.content_release_id
    scan_current input d now i job current

  -- One turn of the loop of `Lease`.
  unfoldable pub scan_once : LeaseInput → Database → Publication → ℤ → Checked Scan
  unfolding find_row due load_generation rows_affected update
  scan_once input d at now = scan_found input d at now (find_row (due now) d.jobs)

  unfoldable pub scans :
      ℕ → LeaseInput → Database → Publication → ℤ → Checked (Option Lease × Database)
  unfolding scan_once
  scans zero input d at now = ok (none, d)
  scans (suc n) input d at now = elim (scan_once input d at now) [
    | err e ↦ err e
    | ok idle ↦ ok (none, d)
    | ok (again d') ↦ scans n input d' at now
    | ok (granted l d') ↦ ok (some l, d')
  ]

  -- `Lease`.
  unfoldable pub lease : ℤ → LeaseInput → Database → Checked (Option Lease × Database)
  unfolding valid valid_lease_input queue_effective scans
  lease now input d = do
    guard (valid s now && valid_lease_input input.owner_token input.lease_millis) render_invalid
    at ← of_row d.publication
    d' ← queue_effective d at now
    scans max_scans input d' at now
