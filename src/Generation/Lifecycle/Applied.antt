-- ===== src/Generation/Lifecycle/Applied.antt =====
-- The effects of `Claim`, of `CancelOrCreate`, and of any operation.
use porsche.Prelude.{
  ℕ, ◌-◌, ◌≡◌, refl, sym, inl, inr, String, Bool, true, false, not, ◌||◌, ◌==◌, Option, none, some,
  List, arith, ltb, Option-cases, Bool-cases, subst,
}
use porsche.Prelude.Int.{ℤ}
use porsche.Generation.Identity.{canonical_uuid, valid_identity, safe_integer, max_safe_integer}
use porsche.Generation.Snapshot.{
  Mode, Snapshot, valid_snapshot, valid_input, valid_tombstone, is_running,
}
use porsche.Generation.Changes.{invalid, lease_duration}
use porsche.Generation.Codec.{Codec}
use porsche.Generation.Store.{Cell, encode, decode}
use porsche.Generation.Claim.{
  ClaimReply, claim_refused, claim, claim_script, claim_stored, tombstone_time, claimed, enriched,
  tombstone,
}
use porsche.Generation.Control.{
  cancel_or_create, latest_running_activity, cancelling_from, cancel_script, expectation,
  CancelReply, cancel_refused, cancel_same, cancel_other, cancel_with, decode_cell, Expected,
  unread, settled_read, stuck, next_read,
}
use porsche.Generation.Lifecycle.{Op, operates, claims, renews, expires, converges, cancels, apply}
use porsche.Generation.Lifecycle.Evolution.{
  Evolves, stays, born, moves, fills, unless-Evolves, operate-Evolves, renew_lease-Evolves,
  fail_expired_running-Evolves, converge_stale_cancelling-Evolves,
}
use porsche.Generation.Lifecycle.Edges.{edges, Moves}
use porsche.Generation.Lifecycle.Births.{
  IsStarted, claimed-IsStarted, tombstone-IsTombstone, enriched-IsFilled,
}

cancelling-Moves :
    (now : ℕ) (s : Snapshot)
    → is_running s.state ≡ true
    → ltb now (latest_running_activity s) ≡ false
    → Moves s (cancelling_from now s)
unfolding cancelling_from latest_running_activity
cancelling-Moves now s r h = grind (arith, edges)

same_id :
    (id : String) (mode : Mode) (models : List String) (at : ℕ)
    → (enriched id mode models at).generation_id ≡ (tombstone id at).generation_id
unfolding enriched tombstone
same_id id mode models at = refl

identified :
    (u : ℤ) (id : String) (b d : Bool)
    → (not (valid_identity u id) || b || d) ≡ false
    → canonical_uuid id ≡ true
unfolding valid_identity
identified u id b d h = ground arith

module _ (c : Codec) where
  open c use {Raw, same, same_iff, marshal, parse}

  tombstone_time-marshal :
      (id : String) (raw : Raw) (at : ℕ)
      → canonical_uuid id ≡ true
      → tombstone_time c id raw ≡ some at
      → (raw ≡ marshal (tombstone id at)) × (valid_snapshot (tombstone id at) ≡ true)
  unfolding tombstone_time valid_snapshot valid_tombstone
  tombstone_time-marshal id raw at v h = elim (Option-cases (parse raw)) [
    | inl p ↦ absurd (ground (arith, p))
    | inr (t, p) ↦ ground (arith, p, same_iff raw (marshal (tombstone id t.created_at)))
  ]

  claim_script-Evolves :
      (id : String) (mode : Mode) (models : List String) (s : Snapshot) (now : ℕ) (fresh : Raw)
      (cell : Cell c)
      → canonical_uuid id ≡ true
      → encode c s ≡ some fresh
      → IsStarted s now
      → Evolves c cell
          (some (claim_script c id fresh (λ at. marshal (enriched id mode models at)) cell).0)
  unfolding claim_script
  claim_script-Evolves id mode models s now fresh none v e r = born s fresh now refl refl e (inl r)
  claim_script-Evolves id mode models s now fresh (some old) v e r =
      elim (Option-cases (tombstone_time c id old)) [
        | inl p ↦ rw p (stays refl)
        | inr (at, p) ↦ rw p (
            let (q, w) = tombstone_time-marshal id old at v p in
            fills (tombstone id at) (enriched id mode models at) at (ground (arith, q)) w refl
              (tombstone-IsTombstone id at) (enriched-IsFilled id mode models at)
              (same_id id mode models at))
      ]

  claim_stored-Evolves :
      (id : String) (mode : Mode) (models : List String) (s : Snapshot) (now : ℕ)
      (other : Option Raw) (cell : Cell c)
      → canonical_uuid id ≡ true
      → IsStarted s now
      → Evolves c cell
          (claim_stored c id (λ at. marshal (enriched id mode models at)) (encode c s) other cell).0
  claim_stored-Evolves id mode models s now none cell v r = elim (Option-cases (encode c s)) [
    | inl p ↦ rw p (stays refl)
    | inr (fresh, p) ↦ rw p (stays refl)
  ]
  claim_stored-Evolves id mode models s now (some x) cell v r = elim (Option-cases (encode c s)) [
    | inl p ↦ rw p (stays refl)
    | inr (fresh, p) ↦ rw p (claim_script-Evolves id mode models s now fresh cell v p r)
  ]

  claim-Evolves :
      (u : ℤ) (id : String) (mode : Mode) (models : List String) (now : ℕ) (d : String)
      (cell : Cell c)
      → Evolves c cell (claim c u id mode models now d cell).0
  unfolding claim
  claim-Evolves u id mode models now d cell =
      unless-Evolves c {R = ClaimReply}
        (not (valid_identity u id)
          || not (valid_input id mode models now)
          || ltb (max_safe_integer - lease_duration) now)
        cell (claim_refused invalid)
        (claim_stored c id (λ at. marshal (enriched id mode models at))
          (encode c (claimed id mode models now d)) (encode c (enriched id mode models now)) cell)
        (λ passed.
          claim_stored-Evolves id mode models (claimed id mode models now d) now
            (encode c (enriched id mode models now)) cell (identified u id _ _ passed)
            (claimed-IsStarted id mode models now d))

  -- What `CancelOrCreate` may write over a record that it read.
  CancelsFrom : ℕ → Raw → Expected (Option Raw) → Type 0
  CancelsFrom now old e =
      (next : Raw)
      → e ≡ next_read (some next)
      → (s : Snapshot) × (decode c old ≡ some s)
        × (encode c (cancelling_from now s) ≡ some next)
        × Moves s (cancelling_from now s)

  expectation-CancelsFrom :
      (id : String) (now : ℕ) (old : Raw)
      → CancelsFrom now old (expectation c id now (decode c old))
  unfolding expectation CancelsFrom
  expectation-CancelsFrom id now old next h = elim (Option-cases (decode c old)) [
    | inl p ↦ absurd (ground (arith, p))
    | inr (s, p) ↦
        (s, p, ground (arith, p), cancelling-Moves now s (ground (arith, p)) (ground (arith, p)))
  ]

  cancel_same-Evolves :
      (id : String) (now : ℕ) (old : Raw) (e : Expected (Option Raw))
      → CancelsFrom now old e
      → Evolves c (some old) (cancel_same c id old e).0
  unfolding CancelsFrom
  cancel_same-Evolves id now old unread k = stays refl
  cancel_same-Evolves id now old settled_read k = stays refl
  cancel_same-Evolves id now old stuck k = stays refl
  cancel_same-Evolves id now old (next_read none) k = stays refl
  cancel_same-Evolves id now old (next_read (some next)) k =
      let (s, d, e, m) = k next refl in moves s (cancelling_from now s) old next refl refl d e m

  cancel_other-Evolves : (id : String) (old : Raw) → Evolves c (some old) (cancel_other c id old).0
  cancel_other-Evolves id old = stays (ground arith)

  cancel_script-Evolves :
      (id : String) (now : ℕ) (fresh : Raw) (read cell : Cell c) (e : Expected (Option Raw))
      → encode c (tombstone id now) ≡ some fresh
      → ((r : Raw) → read ≡ some r → CancelsFrom now r e)
      → Evolves c cell (cancel_script c id fresh read e cell).0
  unfolding cancel_script
  cancel_script-Evolves id now fresh read none e p k =
      born (tombstone id now) fresh now refl refl p (inr (tombstone-IsTombstone id now))
  cancel_script-Evolves id now fresh none (some old) e p k = cancel_other-Evolves id old
  cancel_script-Evolves id now fresh (some r) (some old) e p k = elim (Bool-cases (same old r)) [
    | inl q ↦ rw q (
        cancel_same-Evolves id now old e
          (subst (λ (x : Raw). CancelsFrom now x e) (sym ((same_iff old r).0 q)) (k r refl)))
    | inr q ↦ rw q (cancel_other-Evolves id old)
  ]

  cancel_with-Evolves :
      (id : String) (now : ℕ) (read cell : Cell c) (e : Expected (Option Raw))
      → ((r : Raw) → read ≡ some r → CancelsFrom now r e)
      → Evolves c cell (cancel_with c id (encode c (tombstone id now)) read e cell).0
  cancel_with-Evolves id now read cell e k = elim (Option-cases (encode c (tombstone id now))) [
    | inl p ↦ rw p (stays refl)
    | inr (fresh, p) ↦ rw p (with_fresh fresh p e k)
  ]
    where
      with_fresh :
          (fresh : Raw)
          → encode c (tombstone id now) ≡ some fresh
          → (x : Expected (Option Raw)) → ((r : Raw) → read ≡ some r → CancelsFrom now r x)
          → Evolves c cell (cancel_with c id (some fresh) read x cell).0
      with_fresh fresh p unread h = cancel_script-Evolves id now fresh read cell unread p h
      with_fresh fresh p settled_read h =
          cancel_script-Evolves id now fresh read cell settled_read p h
      with_fresh fresh p stuck h = cancel_script-Evolves id now fresh read cell stuck p h
      with_fresh fresh p (next_read none) h = stays refl
      with_fresh fresh p (next_read (some x)) h =
          cancel_script-Evolves id now fresh read cell (next_read (some x)) p h

  cancel_or_create-Evolves :
      (u : ℤ) (id : String) (now : ℕ) (read cell : Cell c)
      → Evolves c cell (cancel_or_create c u id now read cell).0
  unfolding cancel_or_create
  cancel_or_create-Evolves u id now read cell =
      unless-Evolves c {R = CancelReply}
        (not (valid_identity u id) || not (safe_integer now) || now == 0) cell
        (cancel_refused invalid)
        (cancel_with c id (encode c (tombstone id now)) read
          (expectation c id now (decode_cell c read)) cell)
        (λ _.
          cancel_with-Evolves id now read cell (expectation c id now (decode_cell c read)) (λ r p.
            subst (λ (x : Cell c). CancelsFrom now r (expectation c id now (decode_cell c x)))
              (sym p) (expectation-CancelsFrom id now r)))

  -- Whatever the operation, its caller, its time and what its GET read: it leaves the stored record;
  -- where there is none, creates one that runs with every model from 0 under a lease of 30 seconds,
  -- or a tombstone, cancelled without mode, models or lease; moves it along one edge of the
  -- lifecycle with its identity kept and its time not set back; or fills a tombstone, with every
  -- model cancelled and its times kept.
  pub apply-Evolves :
      (u : ℤ) (id : String) (o : Op c) (read cell : Cell c)
      → Evolves c cell (apply c u id o read cell)
  unfolding apply
  apply-Evolves u id (operates now w k) read cell = operate-Evolves c u id now w k read cell
  apply-Evolves u id (claims mode models now d) read cell =
      claim-Evolves u id mode models now d cell
  apply-Evolves u id (renews b d now) read cell = renew_lease-Evolves c u id b d now read cell
  apply-Evolves u id (expires now) read cell = fail_expired_running-Evolves c u id now read cell
  apply-Evolves u id (converges now) read cell =
      converge_stale_cancelling-Evolves c u id now read cell
  apply-Evolves u id (cancels now) read cell = cancel_or_create-Evolves u id now read cell
