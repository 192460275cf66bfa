-- ===== src/Generation/Lifecycle/Evolution.antt =====
-- The effects of an operation on the cell, and those of the operations that read before they write.
use porsche.Prelude.{
  ℕ, ◌+◌, ◌≤◌, ◌≡◌, refl, ◌⊎◌, inl, inr, String, Bool, true, false, not, ◌||◌, ◌&&◌, ◌==◌, none,
  some, arith, ltb, leb, str_eq, if◌then◌else◌, Option-cases, Bool-cases, ok, Result-cases,
}
use porsche.Prelude.Int.{ℤ}
use porsche.Generation.Identity.{valid_identity, safe_integer}
use porsche.Generation.Snapshot.{Snapshot, valid_snapshot, is_running, is_cancelling}
use porsche.Generation.Changes.{Change, settle, owned, running_lease_authorized, convergence_window}
use porsche.Generation.Codec.{Codec}
use porsche.Generation.Store.{Cell, encode, decode, cas, write, mutate, mutate_owned}
use porsche.Generation.Lifecycle.Births.{IsStarted, IsTombstone, IsFilled}
use porsche.Generation.Control.{
  renew_lease, fail_expired_running, converge_stale_cancelling, control_write, control,
  latest_running_activity, renewed, expired_from, converged_from,
}
use porsche.Generation.Lifecycle.{
  Call, delta, done_model, failed_model, asks_cancel, acknowledges, commits, completes, fails_stale,
  fails, change_of, operate, anyone, bearer, Caller, precheck,
}
use porsche.Generation.Lifecycle.Edges.{
  edges, Moves, Turns, settle-Moves, record_delta-Turns, mark_model_done-Turns,
  mark_model_failed-Turns, request_cancel-Turns, mark_cancelled-Turns, begin_commit-Turns,
  complete-Turns, fail_stale_commit-Turns, fail-Turns, owned-Turns,
}

change_of-Turns : (k : Call) (now : ℕ) (s t : Snapshot) → change_of k now s ≡ ok t → Turns s t
unfolding change_of
change_of-Turns (delta m q) now s t h = record_delta-Turns m q s t h
change_of-Turns (done_model m q) now s t h = mark_model_done-Turns m q s t h
change_of-Turns (failed_model m e) now s t h = mark_model_failed-Turns m e s t h
change_of-Turns asks_cancel now s t h = request_cancel-Turns s t h
change_of-Turns acknowledges now s t h = mark_cancelled-Turns s t h
change_of-Turns commits now s t h = begin_commit-Turns s t h
change_of-Turns (completes g) now s t h = complete-Turns g s t h
change_of-Turns (fails_stale e) now s t h = fail_stale_commit-Turns e now s t h
change_of-Turns (fails e) now s t h = fail-Turns e s t h

renewed-Moves :
    (d : String) (now : ℕ) (s : Snapshot)
    → (running_lease_authorized s d now && leb (latest_running_activity s) now) ≡ true
    → Moves s (renewed now s)
unfolding running_lease_authorized latest_running_activity renewed
renewed-Moves d now s h = grind (arith, edges)

expired-Moves :
    (now : ℕ) (s : Snapshot)
    → (is_running s.state && leb s.updated_at now && (s.lease_until == 0 || leb s.lease_until now))
      ≡ true
    → Moves s (expired_from now s)
unfolding expired_from
expired-Moves now s h = grind (arith, edges)

converged-Moves :
    (now : ℕ) (s : Snapshot)
    → (is_cancelling s.state && leb (s.updated_at + convergence_window) now) ≡ true
    → Moves s (converged_from now s)
unfolding converged_from
converged-Moves now s h = grind (arith, edges)

module _ (c : Codec) where
  open c use {Raw, same, same_iff, size, marshal, parse, parse-marshal}

  pub decode-encode : (s : Snapshot) (raw : Raw) → encode c s ≡ some raw → decode c raw ≡ some s
  unfolding encode decode
  decode-encode s raw h = ground (arith, parse-marshal s)

  -- One operation's effect on the cell.
  pub data Evolves (cell cell' : Cell c) : Type 0 where
    stays : cell' ≡ cell → Evolves cell cell'
    -- A record that is created runs with its models, or is a tombstone.
    born :
        (s : Snapshot) (raw : Raw) (now : ℕ)
        → cell ≡ none
        → cell' ≡ some raw
        → encode c s ≡ some raw
        → IsStarted s now ⊎ IsTombstone s now
        → Evolves cell cell'
    moves :
        (s t : Snapshot) (old new : Raw)
        → cell ≡ some old
        → cell' ≡ some new
        → decode c old ≡ some s
        → encode c t ≡ some new
        → Moves s t
        → Evolves cell cell'
    -- A claim after the fact fills a tombstone's place with its models, all of them cancelled.
    fills :
        (s t : Snapshot) (at : ℕ)
        → cell ≡ some (marshal s)
        → valid_snapshot s ≡ true
        → cell' ≡ some (marshal t)
        → IsTombstone s at
        → IsFilled t at
        → t.generation_id ≡ s.generation_id
        → Evolves cell cell'

  cas_cases :
      (read next : Raw) (cell : Cell c)
      → ((cas c read next cell).0 ≡ cell)
        ⊎ ((cell ≡ some read) × ((cas c read next cell).0 ≡ some next))
  unfolding cas
  cas_cases read next none = inl refl
  cas_cases read next (some old) = elim (Bool-cases (same old read)) [
    | inl e ↦ inr (ground (arith, same_iff old read), ground (arith, e))
    | inr e ↦ inl (ground (arith, e))
  ]

  -- A refusal leaves the cell; past it, its test has failed.
  pub unless-Evolves :
      {R : Type 0} (b : Bool) (cell : Cell c) (r : R) (x : Cell c × R)
      → (b ≡ false → Evolves cell x.0)
      → Evolves cell (if b then (cell, r) else x).0
  unless-Evolves true cell r x k = stays refl
  unless-Evolves false cell r x k = k refl

  cas-Evolves :
      (read raw : Raw) (s t : Snapshot) (cell : Cell c)
      → decode c read ≡ some s
      → encode c t ≡ some raw
      → Moves s t
      → Evolves cell (cas c read raw cell).0
  cas-Evolves read raw s t cell d p m = elim (cas_cases read raw cell) [
    | inl e ↦ stays e
    | inr (e, e') ↦ moves s t read raw e e' d p m
  ]

  write-Evolves :
      (read : Raw) (s t : Snapshot) (cell : Cell c)
      → decode c read ≡ some s
      → Moves s t
      → Evolves cell (write c read (encode c t) cell).0
  unfolding write
  write-Evolves read s t cell d m = elim (Option-cases (encode c t)) [
    | inl p ↦ rw p (stays refl)
    | inr (raw, p) ↦ rw p (cas-Evolves read raw s t cell d p m)
  ]

  control_write-Evolves :
      (id : String) (read : Raw) (s t : Snapshot) (cell : Cell c)
      → decode c read ≡ some s
      → Moves s t
      → Evolves cell (control_write c id read (encode c t) cell).0
  unfolding control_write
  control_write-Evolves id read s t cell d m = elim (Option-cases (encode c t)) [
    | inl p ↦ rw p (stays refl)
    | inr (raw, p) ↦ rw p (cas-Evolves read raw s t cell d p m)
  ]

  not_before : (now at : ℕ) → ltb now at ≡ false → at ≤ now
  not_before now at h = ground arith

  mutate-Evolves :
      (u : ℤ) (id : String) (now : ℕ) (f : Change) (read cell : Cell c)
      → ((s t : Snapshot) → f s ≡ ok t → Turns s t)
      → Evolves cell (mutate c u id now f read cell).0
  unfolding mutate
  mutate-Evolves u id now f none cell k =
      unless-Evolves (not (valid_identity u id) || not (safe_integer now)) cell _ _
        (λ _. stays refl)
  mutate-Evolves u id now f (some read) cell k =
      unless-Evolves (not (valid_identity u id) || not (safe_integer now)) cell _ _ (λ _.
        elim (Option-cases (decode c read)) [
          | inl p ↦ rw p (stays refl)
          | inr (s, p) ↦ rw p (
              unless-Evolves (not (str_eq s.generation_id id)) cell _ _ (λ _.
                unless-Evolves (ltb now s.updated_at) cell _ _ (λ late. elim (Result-cases (f s)) [
                  | inl (t, q) ↦ rw q (
                      write-Evolves read s (settle now t) cell p
                        (settle-Moves now s t (k s t q) (not_before now s.updated_at late)))
                  | inr (e, q) ↦ rw q (stays refl)
                ])))
        ])

  mutate_owned-Evolves :
      (u : ℤ) (id : String) (b : Bool) (d : String) (now : ℕ) (f : Change) (read cell : Cell c)
      → ((s t : Snapshot) → f s ≡ ok t → Turns s t)
      → Evolves cell (mutate_owned c u id b d now f read cell).0
  unfolding mutate_owned
  mutate_owned-Evolves u id b d now f read cell k = unless-Evolves (not b) cell _ _ (λ _.
      mutate-Evolves u id now (owned d now f) read cell
        (λ s t. owned-Turns d now f s t (λ x. k s x)))

  pub operate-Evolves :
      (u : ℤ) (id : String) (now : ℕ) (w : Caller) (k : Call) (read cell : Cell c)
      → Evolves cell (operate c u id now w k read cell).0
  unfolding operate
  operate-Evolves u id now anyone k read cell =
      unless-Evolves (not (precheck k now)) cell _ _
        (λ _. mutate-Evolves u id now (change_of k now) read cell (change_of-Turns k now))
  operate-Evolves u id now (bearer b d) k read cell =
      unless-Evolves (not (precheck k now)) cell _ _
        (λ _. mutate_owned-Evolves u id b d now (change_of k now) read cell (change_of-Turns k now))

  -- The three control operations: a guard on the record that was read, and the write.
  control-Evolves :
      (id : String) (test : Snapshot → Bool) (next : Snapshot → Snapshot) (read cell : Cell c)
      → ((s : Snapshot) → test s ≡ true → Moves s (next s))
      → Evolves cell (control c id test next read cell).0
  control-Evolves id test next none cell k = stays refl
  control-Evolves id test next (some read) cell k = elim (Option-cases (decode c read)) [
    | inl p ↦ rw p (stays refl)
    | inr (s, p) ↦ rw p (
        unless-Evolves (not (str_eq s.generation_id id)) cell _ _ (λ _.
          unless-Evolves (not (test s)) cell _ _
            (λ t. control_write-Evolves id read s (next s) cell p (k s (ground (arith, t))))))
  ]

  pub renew_lease-Evolves :
      (u : ℤ) (id : String) (b : Bool) (d : String) (now : ℕ) (read cell : Cell c)
      → Evolves cell (renew_lease c u id b d now read cell).0
  unfolding renew_lease
  renew_lease-Evolves u id b d now read cell =
      unless-Evolves _ cell _ _ (λ _. control-Evolves id _ _ read cell (renewed-Moves d now))

  pub fail_expired_running-Evolves :
      (u : ℤ) (id : String) (now : ℕ) (read cell : Cell c)
      → Evolves cell (fail_expired_running c u id now read cell).0
  unfolding fail_expired_running
  fail_expired_running-Evolves u id now read cell =
      unless-Evolves _ cell _ _ (λ _. control-Evolves id _ _ read cell (expired-Moves now))

  pub converge_stale_cancelling-Evolves :
      (u : ℤ) (id : String) (now : ℕ) (read cell : Cell c)
      → Evolves cell (converge_stale_cancelling c u id now read cell).0
  unfolding converge_stale_cancelling
  converge_stale_cancelling-Evolves u id now read cell =
      unless-Evolves _ cell _ _ (λ _. control-Evolves id _ _ read cell (converged-Moves now))
