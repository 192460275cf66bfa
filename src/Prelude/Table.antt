-- ===== src/Prelude/Table.antt =====
-- Tables of a database as lists of rows in the order of their ids, which are their places.
use Prim.Native.Nat.{ℕ, zero, suc}
use mathlib.Core.Path.{◌≡◌, refl}
use mathlib.Core.Logic.{◌⊎◌, inl, inr}
use mathlib.Core.Bool.{Bool, true, false}
use mathlib.Core.Option.{Option, none, some}
use mathlib.Core.List.{List, [], ◌∷◌, ◌++◌}
use native.Mathlib.Omega.{arith}
use porsche.Prelude.Lists.{length}
use porsche.Prelude.Tests.{if◌then◌else◌, Option-cases, Bool-cases}

module _ {A : Type 0} where
  abbrev pub shift : Option (ℕ × A) → Option (ℕ × A)
  shift none = none
  shift (some (i, row)) = some (suc i, row)

  -- `First(&row)` in the order of ids: the row and its id.
  unfoldable pub find_row : (A → Bool) → List A → Option (ℕ × A)
  find_row test [] = none
  find_row test (row ∷ rows) =
      let rest = find_row test rows in if test row then some (0, row) else shift rest

  -- `Where("id=? AND ...").Updates(...)`: the table that it leaves.
  unfoldable pub update : ℕ → (A → Bool) → (A → A) → List A → List A
  update i test change [] = []
  update zero test change (row ∷ rows) = if test row then change row ∷ rows else row ∷ rows
  update (suc i) test change (row ∷ rows) = row ∷ update i test change rows

  -- `RowsAffected`.
  unfoldable pub rows_affected : ℕ → (A → Bool) → List A → ℕ
  rows_affected i test [] = 0
  rows_affected zero test (row ∷ rows) = if test row then 1 else 0
  rows_affected (suc i) test (row ∷ rows) = rows_affected i test rows

  unfoldable pub nth : ℕ → List A → Option A
  nth i [] = none
  nth zero (row ∷ rows) = some row
  nth (suc i) (row ∷ rows) = nth i rows

  pub find_row-nth :
      (test : A → Bool) (rows : List A) (i : ℕ) (row : A)
      → find_row test rows ≡ some (i, row)
      → (nth i rows ≡ some row) × (test row ≡ true)
  unfolding find_row nth
  find_row-nth test [] i row h = cc
  find_row-nth test (r ∷ rows) zero row h = elim (Option-cases (find_row test rows)) [
    | inl p ↦ ground (arith, p)
    | inr ((k, b), p) ↦ ground (arith, p)
  ]
  find_row-nth test (r ∷ rows) (suc i) row h = elim (Option-cases (find_row test rows)) [
    | inl p ↦ ground (arith, p)
    | inr ((k, b), p) ↦ ground (arith, p, find_row-nth test rows i row)
  ]

  pub update-nth :
      (i : ℕ) (test : A → Bool) (change : A → A) (rows : List A) (row : A)
      → nth i rows ≡ some row
      → test row ≡ true
      → nth i (update i test change rows) ≡ some (change row)
  unfolding nth update
  update-nth i test change [] row h t = cc
  update-nth zero test change (r ∷ rows) row h t = ground arith
  update-nth (suc i) test change (r ∷ rows) row h t = update-nth i test change rows row h t

  pub rows_affected-nth :
      (i : ℕ) (test : A → Bool) (rows : List A)
      → rows_affected i test rows ≡ 1
      → (row : A) × (nth i rows ≡ some row) × (test row ≡ true)
  unfolding nth rows_affected
  rows_affected-nth i test [] h = cc
  rows_affected-nth zero test (r ∷ rows) h = (r, refl, ground arith)
  rows_affected-nth (suc i) test (r ∷ rows) h = rows_affected-nth i test rows h

  pub append-nth :
      (i : ℕ) (rows : List A) (new row : A)
      → nth i rows ≡ some row
      → nth i (rows ++ new ∷ []) ≡ some row
  unfolding nth
  append-nth i [] new row h = cc
  append-nth zero (r ∷ rows) new row h = h
  append-nth (suc i) (r ∷ rows) new row h = append-nth i rows new row h

  -- A row after an update: as it was, or changed where it passes the test.
  pub update-row :
      (i j : ℕ) (test : A → Bool) (change : A → A) (rows : List A) (row : A)
      → nth i rows ≡ some row
      → (nth i (update j test change rows) ≡ some row)
        ⊎ ((nth i (update j test change rows) ≡ some (change row)) × (test row ≡ true))
  unfolding nth update
  update-row i j test change [] row h = cc
  update-row zero zero test change (r ∷ rows) row h = elim (Bool-cases (test r)) [
    | inl p ↦ inr (ground (arith, p, h), ground (arith, p, h))
    | inr p ↦ inl (ground (arith, p, h))
  ]
  update-row zero (suc j) test change (r ∷ rows) row h = inl h
  update-row (suc i) zero test change (r ∷ rows) row h = elim (Bool-cases (test r)) [
    | inl p ↦ inl (ground (arith, p, h))
    | inr p ↦ inl (ground (arith, p, h))
  ]
  update-row (suc i) (suc j) test change (r ∷ rows) row h = update-row i j test change rows row h

  -- Where no row is found, none passes the test.
  pub find_row-none :
      (test : A → Bool) (rows : List A) (i : ℕ) (row : A)
      → find_row test rows ≡ none
      → nth i rows ≡ some row
      → test row ≡ false
  unfolding find_row nth
  find_row-none test [] i row h n = cc
  find_row-none test (r ∷ rows) zero row h n = elim (Bool-cases (test r)) [
    | inl p ↦ ground (arith, p, h)
    | inr p ↦ ground (arith, p, n)
  ]
  find_row-none test (r ∷ rows) (suc i) row h n = elim (Option-cases (find_row test rows)) [
    | inl q ↦ find_row-none test rows i row q n
    | inr (b, q) ↦ elim (Bool-cases (test r)) [
      | inl p ↦ ground (arith, p, h)
      | inr p ↦ ground (arith, p, q, h)
    ]
  ]

  -- The place of a row that is appended.
  pub nth-append : (rows : List A) (new : A) → nth (length rows) (rows ++ new ∷ []) ≡ some new
  unfolding nth
  nth-append [] new = refl
  nth-append (r ∷ rows) new = nth-append rows new
