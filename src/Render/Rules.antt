-- ===== src/Render/Rules.antt =====
-- What the columns of a row of internal/service/public_render_job.go say at each point of a job's
-- life, written out column by column, and the tests of the code against it.
use porsche.Prelude.{
  ◌⊎◌, inl, inr, false, ℕ, ◌*◌, ◌+◌, ◌/◌, ◌<◌, ◌≡◌, ◌↔◌, refl, String, true, Option, none, some,
  arith, eq_iff,
}
use porsche.Prelude.Int.{ℤ, pos, negsuc, pos_part, ◌≤ℤ◌, ◌<ℤ◌, eq_ℤ_iff}
use porsche.Render.{
  Job, JobState, leased, same_state, next_cycle_base, crossed_boundary, attempt_ordinal,
}
use porsche.Render.Transitions.{terminal_replay, holds, is_text, is_number, is_state, alive}

-- A lease of the job by this owner under this fence runs at this time.
pub record IsHeld (owner : String) (fence now : ℤ) (job : Job) : Type 0 where
  pub leases : job.state ≡ leased
  pub fenced : job.attempt_count ≡ fence
  pub owned : job.lease_owner_hmac ≡ some owner
  pub live : (at : ℤ) × (job.lease_expires_at ≡ some at) × (now <ℤ at)

-- The last lease that ended was this owner's under this fence, ended by this operation, and the job
-- is still in the state that it left.
pub record IsRecorded (owner : String) (fence operation : ℤ) (job : Job) : Type 0 where
  pub by_owner : job.last_terminal_owner_hmac ≡ some owner
  pub by_fence : job.last_terminal_fence ≡ some fence
  pub by_operation : job.last_terminal_operation ≡ some operation
  pub unmoved : job.last_terminal_state ≡ some job.state

-- The end of the cycle of three attempts that the fence is of.
abbrev pub IsCycleEnd : ℤ → ℤ → Type 0
IsCycleEnd fence base =
    (n : ℕ) × (base ≡ pos (3 * n)) × (fence ≤ℤ base) × (3 * n < 3 + pos_part fence)

-- An announcement took effect, at the watermark, after the job's attempt had begun.
abbrev pub IsCrossed : ℤ → Job → Type 0
IsCrossed watermark job =
    (pos 0 <ℤ watermark)
    × ((job.completed_at ≡ none) ⊎ ((at : ℤ) × (job.completed_at ≡ some at) × (at <ℤ watermark)))

-- The job and its generation.
pub record IsSameJob (a b : Job) : Type 0 where
  pub same_guid : b.guid ≡ a.guid
  pub same_price : b.price_snapshot_id ≡ a.price_snapshot_id
  pub same_content : b.content_release_id ≡ a.content_release_id

-- A lease has ended by success: in this state, with this many attempts counted.
pub record IsCompletedRow (owner : String) (fence : ℤ) (state : JobState) (attempts : ℤ)
    (at : Option ℤ) (job : Job) : Type 0 where
  pub stands : job.state ≡ state
  pub counted : job.attempt_count ≡ attempts
  pub ended_at : job.completed_at ≡ at
  pub unowned : job.lease_owner_hmac ≡ none
  pub unleased : job.lease_expires_at ≡ none
  pub no_failure : job.last_failure ≡ none
  pub recorded : IsRecorded owner fence (pos 1) job

is_text_iff : (o : Option String) (t : String) → (is_text o t ≡ true) ↔ (o ≡ some t)
is_text_iff none t = ground arith
is_text_iff (some s) t = ground (arith, eq_iff s t)

is_number_iff : (o : Option ℤ) (n : ℤ) → (is_number o n ≡ true) ↔ (o ≡ some n)
is_number_iff none n = ground arith
is_number_iff (some m) n = ground (arith, eq_ℤ_iff m n)

same_state_iff : (s t : JobState) → (same_state s t ≡ true) ↔ (s ≡ t)
same_state_iff s t = ground arith

is_state_iff : (o : Option JobState) (t : JobState) → (is_state o t ≡ true) ↔ (o ≡ some t)
is_state_iff none t = ground arith
is_state_iff (some s) t = ground (arith, same_state_iff s t)

alive_until : (o : Option ℤ) (now : ℤ) → alive o now ≡ true → (at : ℤ) × (o ≡ some at) × (now <ℤ at)
alive_until none now h = absurd (ground arith)
alive_until (some at) now h = (at, refl, ground arith)

pub holds-IsHeld :
    (owner : String) (fence now : ℤ) (job : Job)
    → holds owner fence now job ≡ true
    → IsHeld owner fence now job
unfolding holds
holds-IsHeld owner fence now job h = record {
  leases = ground (arith, same_state_iff job.state leased);
  fenced = ground (arith, eq_ℤ_iff job.attempt_count fence);
  owned = ground (arith, is_text_iff job.lease_owner_hmac owner);
  live = alive_until job.lease_expires_at now (ground arith);
}

pub IsHeld-holds :
    (owner : String) (fence now : ℤ) (job : Job)
    → IsHeld owner fence now job
    → holds owner fence now job ≡ true
unfolding holds
IsHeld-holds owner fence now job h =
    let (at, p, q) = h.live in
    ground (
      arith,
      h.leases,
      h.fenced,
      h.owned,
      p,
      q,
      eq_ℤ_iff job.attempt_count fence,
      is_text_iff job.lease_owner_hmac owner,
    )

pub terminal_replay-IsRecorded :
    (owner : String) (fence operation : ℤ) (job : Job)
    → terminal_replay job owner fence operation ≡ true
    → IsRecorded owner fence operation job
unfolding terminal_replay
terminal_replay-IsRecorded owner fence operation job h = record {
  by_owner = ground (arith, is_text_iff job.last_terminal_owner_hmac owner);
  by_fence = ground (arith, is_number_iff job.last_terminal_fence fence);
  by_operation = ground (arith, is_number_iff job.last_terminal_operation operation);
  unmoved = ground (arith, is_state_iff job.last_terminal_state job.state);
}

pub IsRecorded-terminal_replay :
    (owner : String) (fence operation : ℤ) (job : Job)
    → IsRecorded owner fence operation job
    → terminal_replay job owner fence operation ≡ true
unfolding terminal_replay
IsRecorded-terminal_replay owner fence operation job h = ground (
  arith,
  is_text_iff job.last_terminal_owner_hmac owner,
  is_number_iff job.last_terminal_fence fence,
  is_number_iff job.last_terminal_operation operation,
  is_state_iff job.last_terminal_state job.state,
  h.by_owner,
  h.by_fence,
  h.by_operation,
  h.unmoved,
)

pub next_cycle_base-IsCycleEnd :
    (fence base : ℤ) → next_cycle_base fence ≡ some base → IsCycleEnd fence base
unfolding next_cycle_base attempt_ordinal
next_cycle_base-IsCycleEnd (negsuc n) base h = cc
next_cycle_base-IsCycleEnd (pos n) base h = ((n + 2) / 3, ground arith, ground arith, ground arith)

-- The marker of an attempt against the watermark.
module _ (watermark : ℤ) where
  marker-crossed :
      (o : Option ℤ)
      → crossed_boundary o watermark ≡ true
      → (pos 0 <ℤ watermark) × ((o ≡ none) ⊎ ((at : ℤ) × (o ≡ some at) × (at <ℤ watermark)))
  unfolding crossed_boundary
  marker-crossed none h = (ground arith, inl refl)
  marker-crossed (some at) h = (ground arith, inr (at, refl, ground arith))

  pub crossed_boundary-IsCrossed :
      (job : Job) → crossed_boundary job.completed_at watermark ≡ true → IsCrossed watermark job
  crossed_boundary-IsCrossed job h = marker-crossed job.completed_at h

  pub not-IsCrossed :
      (job : Job) → crossed_boundary job.completed_at watermark ≡ false → ¬ IsCrossed watermark job
  unfolding crossed_boundary
  not-IsCrossed job h (p, inl e) = ground (arith, h, p, e)
  not-IsCrossed job h (p, inr (at, e, q)) = ground (arith, h, p, e, q)
