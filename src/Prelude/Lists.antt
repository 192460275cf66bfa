-- ===== src/Prelude/Lists.antt =====
-- Lists measured by native numbers, Boolean membership of texts, and predicates on all items.
use Prim.Native.Nat.{ℕ, suc, ◌+◌}
use Prim.Native.String.{String}
use mathlib.Core.Path.{◌≡◌, refl, subst}
use mathlib.Core.Logic.{◌⊎◌, inl, inr}
use mathlib.Core.Bool.{Bool, true, false, ◌||◌}
use porsche.Prelude.Tests.{Bool-cases, if◌then◌else◌}
use mathlib.Core.List.{List, [], ◌∷◌, ◌++◌}
use native.Mathlib.Omega.{arith}
use text.Mathlib.Text.{◌==◌ as str_eq}
use text.Mathlib.TextEquality.{eq_iff}

module _ {ℓ} {A : Type ℓ} where
  abbrev pub length : List A → ℕ
  length [] = 0
  length (x ∷ xs) = suc (length xs)

  pub length-append : (xs ys : List A) → length (xs ++ ys) ≡ length xs + length ys
  length-append [] ys = omega arith
  length-append (x ∷ xs) ys = omega (arith, length-append xs ys)

-- Every item satisfies P.
abbrev pub All {ℓ κ} : {A : Type ℓ} → (A → Type κ) → List A → Type κ
All P [] = Unit
All P (x ∷ xs) = P x × All P xs

-- The item stands in the list.
abbrev pub In : {A : Type 0} → A → List A → Type 0
In a [] = ⊥
In a (x ∷ xs) = (x ≡ a) ⊎ In a xs

pub In-All {κ} : {A : Type 0} (P : A → Type κ) (a : A) (xs : List A) → All P xs → In a xs → P a
In-All P a [] h m = absurd m
In-All P a (x ∷ xs) h (inl e) = subst P e h.0
In-All P a (x ∷ xs) h (inr m) = In-All P a xs h.1 m

-- A set of texts, as Go's `map[string]struct{}`, kept as the list of its members.
unfoldable pub contains : List String → String → Bool
contains [] a = false
contains (x ∷ xs) a = str_eq x a || contains xs a

pub contains→In : (xs : List String) (a : String) → contains xs a ≡ true → In a xs
unfolding contains
contains→In [] a h = cc
contains→In (x ∷ xs) a h = elim (Bool-cases (str_eq x a)) [
  | inl e ↦ inl ((eq_iff x a).0 e)
  | inr e ↦ inr (contains→In xs a (ground arith))
]

pub In→contains : (xs : List String) (a : String) → In a xs → contains xs a ≡ true
unfolding contains
In→contains [] a m = absurd m
In→contains (x ∷ xs) a (inl e) = rw ((eq_iff x a).1 e)
In→contains (x ∷ xs) a (inr m) = ground (arith, In→contains xs a m)

-- An item that a test may put in front.
pub In-if :
    {A : Type 0} (b : Bool) (a x : A) (xs : List A)
    → In a (if b then x ∷ xs else xs)
    → ((b ≡ true) × (x ≡ a)) ⊎ In a xs
In-if true a x xs (inl p) = inl (refl, p)
In-if true a x xs (inr m) = inr m
In-if false a x xs m = inr m

pub In-if_head :
    {A : Type 0} (b : Bool) (x : A) (xs : List A) → b ≡ true → In x (if b then x ∷ xs else xs)
In-if_head true x xs h = inl refl
In-if_head false x xs h = cc

pub In-if_tail :
    {A : Type 0} (b : Bool) (a x : A) (xs : List A) → In a xs → In a (if b then x ∷ xs else xs)
In-if_tail true a x xs m = inr m
In-if_tail false a x xs m = m
