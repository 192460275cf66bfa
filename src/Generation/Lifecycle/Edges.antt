-- ===== src/Generation/Lifecycle/Edges.antt =====
-- The edges of the lifecycle that each change follows, and what a change leaves alone.
use porsche.Prelude.{ℕ, ◌≤◌, ◌≡◌, ◌⊎◌, inl, inr, String, arith, Option-cases, ok, subst}
use porsche.Prelude.Dict
use porsche.Prelude.Dict.{Dict}
use porsche.Generation.Snapshot.{
  Snapshot, State, running, cancelling, cancelled, committing, completed, failed,
}
use porsche.Generation.Changes.{
  Change, record_delta, mark_model_done, mark_model_failed, request_cancel, mark_cancelled,
  begin_commit, complete, fail_stale_commit, fail, owned, settle,
}

infix 40 ◌⟶◌
pub data ◌⟶◌ : State → State → Type 0 where
  progress : running ⟶ running
  ask : running ⟶ cancelling
  commit : running ⟶ committing
  abort : running ⟶ failed
  stop : cancelling ⟶ cancelled
  finish : committing ⟶ completed
  abandon : committing ⟶ failed

pub ruleset edges = (progress, ask, commit, abort, stop, finish, abandon)

-- The record moves along an edge, keeps its identity, and its time does not go back.
pub record Moves (s t : Snapshot) : Type 0 where
  pub edge : s.state ⟶ t.state
  pub same_id : t.generation_id ≡ s.generation_id
  pub same_mode : t.mode ≡ s.mode
  pub same_models : t.models ≡ s.models
  pub same_created : t.created_at ≡ s.created_at
  pub later : s.updated_at ≤ t.updated_at

-- The same of a change, before the time is set.
pub record Turns (s t : Snapshot) : Type 0 where
  pub turn : s.state ⟶ t.state
  pub kept_id : t.generation_id ≡ s.generation_id
  pub kept_mode : t.mode ≡ s.mode
  pub kept_models : t.models ≡ s.models
  pub kept_created : t.created_at ≡ s.created_at
  pub kept_time : t.updated_at ≡ s.updated_at

edge_of :
    (a b : State)
    → ((a ≡ running) × (b ≡ running))
      ⊎ ((a ≡ running) × (b ≡ cancelling))
      ⊎ ((a ≡ running) × (b ≡ committing))
      ⊎ ((a ≡ running) × (b ≡ failed))
      ⊎ ((a ≡ cancelling) × (b ≡ cancelled))
      ⊎ ((a ≡ committing) × (b ≡ completed))
      ⊎ ((a ≡ committing) × (b ≡ failed))
    → a ⟶ b
edge_of a b h = grind (arith, edges)

settle_state : (now : ℕ) (t : Snapshot) → t.state ≡ (settle now t).state
unfolding settle
settle_state now t = ground arith

pub settle-Moves :
    (now : ℕ) (s t : Snapshot) → Turns s t → s.updated_at ≤ now → Moves s (settle now t)
unfolding settle
settle-Moves now s t h le = record {
  edge = subst (λ (b : State). s.state ⟶ b) (settle_state now t) h.turn;
  same_id = ground (arith, h.kept_id);
  same_mode = ground (arith, h.kept_mode);
  same_models = ground (arith, h.kept_models);
  same_created = ground (arith, h.kept_created);
  later = ground arith;
}

pub record_delta-Turns :
    (m : String) (q : ℕ) (s t : Snapshot) → record_delta m q s ≡ ok t → Turns s t
unfolding record_delta
record_delta-Turns m q s t h = elim (Option-cases (Dict.get s.model_states m)) [
  | inl p ↦ absurd (ground (arith, p))
  | inr (x, p) ↦ grind (arith, p, edges)
]

pub mark_model_done-Turns :
    (m : String) (q : ℕ) (s t : Snapshot) → mark_model_done m q s ≡ ok t → Turns s t
unfolding mark_model_done
mark_model_done-Turns m q s t h = elim (Option-cases (Dict.get s.model_states m)) [
  | inl p ↦ absurd (ground (arith, p))
  | inr (x, p) ↦ grind (arith, p, edges)
]

pub mark_model_failed-Turns :
    (m e : String) (s t : Snapshot) → mark_model_failed m e s ≡ ok t → Turns s t
unfolding mark_model_failed
mark_model_failed-Turns m e s t h = elim (Option-cases (Dict.get s.model_states m)) [
  | inl p ↦ absurd (ground (arith, p))
  | inr (x, p) ↦ grind (arith, p, edges)
]

pub request_cancel-Turns : (s t : Snapshot) → request_cancel s ≡ ok t → Turns s t
unfolding request_cancel
request_cancel-Turns s t h = grind (arith, edges)

pub mark_cancelled-Turns : (s t : Snapshot) → mark_cancelled s ≡ ok t → Turns s t
unfolding mark_cancelled
mark_cancelled-Turns s t h = grind (arith, edges)

pub begin_commit-Turns : (s t : Snapshot) → begin_commit s ≡ ok t → Turns s t
unfolding begin_commit
begin_commit-Turns s t h = grind (arith, edges)

pub complete-Turns : (g : Dict String) (s t : Snapshot) → complete g s ≡ ok t → Turns s t
unfolding complete
complete-Turns g s t h = grind (arith, edges)

pub fail_stale_commit-Turns :
    (e : String) (now : ℕ) (s t : Snapshot) → fail_stale_commit e now s ≡ ok t → Turns s t
unfolding fail_stale_commit
fail_stale_commit-Turns e now s t h = grind (arith, edges)

pub fail-Turns : (e : String) (s t : Snapshot) → fail e s ≡ ok t → Turns s t
unfolding fail
fail-Turns e s t h = grind (arith, edges)

pub owned-Turns :
    (d : String) (now : ℕ) (f : Change) (s t : Snapshot)
    → ((x : Snapshot) → f s ≡ ok x → Turns s x)
    → owned d now f s ≡ ok t
    → Turns s t
unfolding owned
owned-Turns d now f s t k h = k t (ground arith)
