-- ===== src/Render/Changes.antt =====
-- The changes of a row of internal/service/public_render_job.go against the edges of the lifecycle.
use porsche.Prelude.{
  zero, suc, ◌≡◌, ◌⊎◌, inl, inr, refl, sym, subst, String, true, false, Option, none, some, arith,
}
use porsche.Prelude.Int.{ℤ, pos, negsuc, ◌≤ℤ◌, ltb_ℤ}
use porsche.Render.{Job, JobState, queued, leased, max_fence, attempt_exhausted}
use porsche.Render.Jobs.{succ_ℤ, requeued, obsolete, exhausted, taken}
use porsche.Render.Transitions.{completed, completed_again, renewed, failed_with}
use porsche.Render.Rules.{IsHeld, IsRecorded, IsSameJob, holds-IsHeld, next_cycle_base-IsCycleEnd}
use porsche.Render.Lifecycle
use porsche.Render.Lifecycle.{JobStep, JobSteps, stays, goes, Evolves}
use porsche.Render.Edges
use porsche.Render.Edges.{JobEdge, IsRow, IsCleared, KeepsRecord, IsLast, IsPast, IsDue}
use porsche.Render.Outcomes.{
  due-IsDue, attempt_exhausted-IsLast, not-IsLast, succ_ℤ-IsNext, failure_outcome-IsOutcome,
  IsOutcome,
}

lease-IsPast : (now : ℤ) (a : Job) → a.state ≡ leased → IsDue now a → IsPast now a.lease_expires_at
lease-IsPast now a l (inl (q, w)) = absurd (ground (arith, l, q))
lease-IsPast now a l (inr (q, w)) = w

next-bound : (n : ℤ) → ltb_ℤ n (pos max_fence) ≡ true → succ_ℤ n ≤ℤ pos 2147483647
next-bound (pos n) h = ground arith
next-bound (negsuc zero) h = ground arith
next-bound (negsuc (suc n)) h = ground arith

pub row :
    (b : Job)
    → IsRow b.state b.attempt_count b.lease_owner_hmac b.lease_expires_at b.last_failure
        b.completed_at b.updated_at b
row b = record {
  stands = refl;
  counted = refl;
  owned = refl;
  leased_until = refl;
  has_failed = refl;
  ended_at = refl;
  stamped = refl;
}

same_job :
    (a b : Job)
    → b.guid ≡ a.guid
    → b.price_snapshot_id ≡ a.price_snapshot_id
    → b.content_release_id ≡ a.content_release_id
    → IsSameJob a b
same_job a b p q r = record { same_guid = p; same_price = q; same_content = r }

same_record :
    (a b : Job)
    → b.last_terminal_owner_hmac ≡ a.last_terminal_owner_hmac
    → b.last_terminal_fence ≡ a.last_terminal_fence
    → b.last_terminal_operation ≡ a.last_terminal_operation
    → b.last_terminal_state ≡ a.last_terminal_state
    → KeepsRecord a b
same_record a b p q r t = record {
  same_owner = p;
  same_fence = q;
  same_operation = r;
  same_state = t;
}

pub blank :
    (b : Job)
    → b.last_terminal_owner_hmac ≡ none
    → b.last_terminal_fence ≡ none
    → b.last_terminal_operation ≡ none
    → b.last_terminal_state ≡ none
    → IsCleared b
blank b p q r t = record { no_owner = p; no_fence = q; no_operation = r; no_state = t }

recorded :
    (b : Job) (owner : String) (fence operation : ℤ)
    → b.last_terminal_owner_hmac ≡ some owner
    → b.last_terminal_fence ≡ some fence
    → b.last_terminal_operation ≡ some operation
    → b.last_terminal_state ≡ some b.state
    → IsRecorded owner fence operation b
recorded b owner fence operation p q r t = record {
  by_owner = p;
  by_fence = q;
  by_operation = r;
  unmoved = t;
}

renewed-edge :
    (a : Job) (owner : String) (fence expires now : ℤ)
    → IsHeld owner fence now a
    → JobEdge a (renewed expires now a)
renewed-edge a owner fence expires now h =
    Edges.renews owner fence expires now h (same_job a _ refl refl refl)
      (same_record a _ refl refl refl refl)
      (record {
        stands = h.leases;
        counted = h.fenced;
        owned = h.owned;
        leased_until = refl;
        has_failed = refl;
        ended_at = refl;
        stamped = refl;
      })

completed-edge :
    (a : Job) (owner : String) (fence now : ℤ)
    → IsHeld owner fence now a
    → JobEdge a (completed owner fence now a)
completed-edge a owner fence now h =
    Edges.completes owner fence now h (same_job a _ refl refl refl)
      (recorded (completed owner fence now a) owner fence (pos 1) refl refl refl refl)
      (record {
        stands = refl;
        counted = h.fenced;
        owned = refl;
        leased_until = refl;
        has_failed = refl;
        ended_at = refl;
        stamped = refl;
      })

failed-edge :
    (a : Job) (owner : String) (fence : ℤ) (code : String) (state : JobState) (next : Option ℤ)
    (now : ℤ)
    → IsHeld owner fence now a
    → IsOutcome now fence state next
    → JobEdge a (failed_with owner fence code state next now a)
failed-edge a owner fence code state next now h (inl (l, x, p, q)) =
    Edges.gives_up owner fence code now h l (same_job a _ refl refl refl)
      (recorded (failed_with owner fence code state next now a) owner fence (pos 2) refl refl refl
        refl)
      (record {
        stands = p;
        counted = h.fenced;
        owned = refl;
        leased_until = q;
        has_failed = refl;
        ended_at = rw x refl;
        stamped = refl;
      })
failed-edge a owner fence code state next now h (inr (at, r, x, p, q)) =
    Edges.retries owner fence code now at h r (same_job a _ refl refl refl)
      (recorded (failed_with owner fence code state next now a) owner fence (pos 2) refl refl refl
        refl)
      (record {
        stands = p;
        counted = h.fenced;
        owned = refl;
        leased_until = q;
        has_failed = refl;
        ended_at = rw x refl;
        stamped = refl;
      })

not-IsLast_or :
    (a : Job)
    → (a.state ≡ queued) ⊎ (attempt_exhausted a.attempt_count ≡ false)
    → (a.state ≡ queued) ⊎ (¬ IsLast a.attempt_count)
not-IsLast_or a (inl p) = inl p
not-IsLast_or a (inr p) = inr (not-IsLast a.attempt_count p)

pub JobStep-JobEdge : (a b : Job) → JobStep a b → JobEdge a b
JobStep-JobEdge a b (Lifecycle.requeues now base e p q) = subst (JobEdge a) (sym q) (
    Edges.requeues now base e (next_cycle_base-IsCycleEnd a.attempt_count base p)
      (same_job a _ refl refl refl) (blank (requeued base now a) refl refl refl refl)
      (row (requeued base now a)))
JobStep-JobEdge a b (Lifecycle.drops now u q) = subst (JobEdge a) (sym q) (
    Edges.drops now (due-IsDue now a u) (same_job a _ refl refl refl)
      (same_record a _ refl refl refl refl) (row (obsolete now a)))
JobStep-JobEdge a b (Lifecycle.exhausts now u l x q) = subst (JobEdge a) (sym q) (
    Edges.exhausts now l (lease-IsPast now a l (due-IsDue now a u))
      (attempt_exhausted-IsLast a.attempt_count x) (same_job a _ refl refl refl)
      (blank (exhausted now a) refl refl refl refl) (row (exhausted now a)))
JobStep-JobEdge a b (Lifecycle.takes owner expires now u x l q) =
    let attempt = succ_ℤ a.attempt_count in
    subst (JobEdge a) (sym q) (
      Edges.takes owner attempt expires now (due-IsDue now a u) (not-IsLast_or a x)
        (succ_ℤ-IsNext a.attempt_count) (next-bound a.attempt_count l) (same_job a _ refl refl refl)
        (blank (taken owner expires attempt now a) refl refl refl refl)
        (row (taken owner expires attempt now a)))
JobStep-JobEdge a b (Lifecycle.renews owner fence expires now t q) =
    subst (JobEdge a) (sym q)
      (renewed-edge a owner fence expires now (holds-IsHeld owner fence now a t))
JobStep-JobEdge a b (Lifecycle.completes owner fence now t q) =
    subst (JobEdge a) (sym q) (completed-edge a owner fence now (holds-IsHeld owner fence now a t))
JobStep-JobEdge a b (Lifecycle.completes_again owner fence now base t p q) =
    let b' = completed_again owner fence now base a in
    subst (JobEdge a) (sym q) (
      Edges.completes_again owner fence now base (holds-IsHeld owner fence now a t)
        (next_cycle_base-IsCycleEnd fence base p) (same_job a _ refl refl refl)
        (recorded b' owner fence (pos 1) refl refl refl refl) (row b'))
JobStep-JobEdge a b (Lifecycle.fails owner fence code state next now t p q) =
    subst (JobEdge a) (sym q) (
      failed-edge a owner fence code state next now (holds-IsHeld owner fence now a t)
        (failure_outcome-IsOutcome now fence state next p))
