-- ===== src/Generation/Lifecycle/Finality.antt =====
-- The ends of a generation under executions of any operations.
use porsche.Prelude.{ℕ, ◌≡◌, refl, sym, ◌≢◌, String, true, some, List, [], ◌∷◌, arith, subst}
use porsche.Prelude.Int.{ℤ}
use porsche.Generation.Snapshot.{
  Snapshot, State, cancelled, completed, failed, no_mode, valid_snapshot,
}
use porsche.Generation.Codec.{Codec}
use porsche.Generation.Store.{Cell, decode}
use porsche.Generation.Lifecycle.Births.{IsTombstone}
use porsche.Generation.Lifecycle.{Op, apply, history}
use porsche.Generation.Lifecycle.Edges.{
  ◌⟶◌, progress, ask, commit, abort, stop, finish, abandon, Moves,
}
use porsche.Generation.Lifecycle.Evolution.{Evolves, stays, born, moves, fills}
use porsche.Generation.Lifecycle.Applied.{apply-Evolves}

-- Completed, failed, or cancelled with its models: all that a record can end as.
pub data IsFinal (s : Snapshot) : Type 0 where
  ended_completed : s.state ≡ completed → IsFinal s
  ended_failed : s.state ≡ failed → IsFinal s
  ended_cancelled : s.state ≡ cancelled → s.mode ≢ no_mode → IsFinal s

no_edge : (a b : State) → a ⟶ b → (a ≢ completed) × (a ≢ failed) × (a ≢ cancelled)
no_edge a b progress = ground arith
no_edge a b ask = ground arith
no_edge a b commit = ground arith
no_edge a b abort = ground arith
no_edge a b stop = ground arith
no_edge a b finish = ground arith
no_edge a b abandon = ground arith

Moves-IsFinal : (s t : Snapshot) → Moves s t → IsFinal s → ⊥
Moves-IsFinal s t m (ended_completed p) = (no_edge s.state t.state m.edge).0 p
Moves-IsFinal s t m (ended_failed p) = (no_edge s.state t.state m.edge).1 p
Moves-IsFinal s t m (ended_cancelled p q) = (no_edge s.state t.state m.edge).2 p

tombstone-IsFinal : (s : Snapshot) (at : ℕ) → IsTombstone s at → IsFinal s → ⊥
tombstone-IsFinal s at t (ended_completed p) = ground (arith, t.cancels)
tombstone-IsFinal s at t (ended_failed p) = ground (arith, t.cancels)
tombstone-IsFinal s at t (ended_cancelled p q) = q t.modeless

module _ (c : Codec) where
  open c use {Raw, marshal, parse, parse-marshal}

  decode-marshal :
      (t s : Snapshot) → valid_snapshot t ≡ true → decode c (marshal t) ≡ some s → t ≡ s
  unfolding decode
  decode-marshal t s v h = ground (arith, parse-marshal t v)

  Evolves-IsFinal :
      (raw : Raw) (s : Snapshot) (cell cell' : Cell c)
      → Evolves c cell cell'
      → cell ≡ some raw
      → decode c raw ≡ some s
      → IsFinal s
      → cell' ≡ some raw
  Evolves-IsFinal raw s cell cell' (stays p) e d f = ground (arith, p, e)
  Evolves-IsFinal raw s cell cell' (born t new now p q r k) e d f = absurd (ground (arith, p, e))
  Evolves-IsFinal raw s cell cell' (moves t t' old new p q r k m) e d f =
      absurd (Moves-IsFinal t t' m (subst IsFinal (same_snapshot old p r) f))
    where
      same_snapshot : (old : Raw) → cell ≡ some old → decode c old ≡ some t → s ≡ t
      same_snapshot old p r = ground (arith, p, e, d, r)
  Evolves-IsFinal raw s cell cell' (fills t t' at p v k h h' i) e d f =
      absurd (tombstone-IsFinal t at h (subst IsFinal (sym was_tombstone) f))
    where
      was_tombstone : t ≡ s
      was_tombstone = decode-marshal t s v (ground (arith, p, e, d))

  -- A record that is completed, failed, or cancelled with its models stays in the cell, unchanged to
  -- the byte, whatever operations follow, by whomever, and however old the records are that they
  -- have read.
  pub history-IsFinal :
      (u : ℤ) (id : String) (os : List (Op c × Cell c)) (raw : Raw) (s : Snapshot)
      → decode c raw ≡ some s
      → IsFinal s
      → history c u id os (some raw) ≡ some raw
  unfolding history
  history-IsFinal u id [] raw s d f = refl
  history-IsFinal u id ((o, read) ∷ os) raw s d f =
      rw
        (Evolves-IsFinal raw s (some raw) (apply c u id o read (some raw))
          (apply-Evolves c u id o read (some raw)) refl d f)
        (history-IsFinal u id os raw s d f)
