-- ===== src/Intent/Binding.antt =====
-- The overrides behind their encoded items.
use porsche.Prelude.{
  ℕ, ◌≡◌, refl, sym, subst, String, true, Option, some, List, [], ◌∷◌, ok, All, arith, Bool-cases,
  inl, inr, Option-cases, Result-cases,
}
use porsche.Prelude.Int.{ℤ, pos, negsuc}
use porsche.Intent.{encode_intent}
use porsche.Intent.Words.{InWidth}
use porsche.Intent.Injective.{InRange, encode_intent-injective}
use porsche.Intent.Texts.{utf8-injective, lt_text}
use porsche.Intent.Forms.{
  Override, is_version, insert, sort, override_items, override_fields, is_effect, all_known,
  may_override,
}
use porsche.Intent.Encoders.{all_effects}

pub version_width : (z : ℤ) → is_version z ≡ true → InWidth 2147483648 z
version_width (pos n) h = ground arith
version_width (negsuc n) h = absurd (ground arith)

effect_width : (z : ℤ) → is_effect z ≡ true → InWidth 2147483648 z
effect_width (pos n) h = ground arith
effect_width (negsuc n) h = absurd (ground arith)

-- The effects are those that the checks let through.
abbrev pub HasEffect : Override → Type 0
HasEffect o = is_effect o.effect ≡ true

override_fields-InRange : (o : Override) → HasEffect o → All (λ f. InRange f.1) (override_fields o)
unfolding override_fields
override_fields-InRange o h = (tt, (effect_width o.effect h, tt))

override_fields-injective : (o q : Override) → override_fields o ≡ override_fields q → o ≡ q
unfolding override_fields
override_fields-injective o q h = ground (arith, utf8-injective o.capability q.capability)

-- One override's turn, taken apart.
override_items-step :
    (last : Option String) (o : Override) (os : List Override) (items : List (List ℕ))
    → override_items last (o ∷ os) ≡ ok items
    → (item : List ℕ) × (rest : List (List ℕ)) × (encode_intent (override_fields o) ≡ some item)
      × (override_items (some o.capability) os ≡ ok rest)
      × (items ≡ item ∷ rest)
unfolding override_items
override_items-step last o os items h = elim (Option-cases (encode_intent (override_fields o))) [
  | inl p ↦ absurd (ground (arith, p, h))
  | inr (item, p) ↦ elim (Result-cases (override_items (some o.capability) os)) [
    | inr (e, q) ↦ absurd (ground (arith, p, q, h))
    | inl (rest, q) ↦ (item, rest, p, q, ground (arith, p, q, h))
  ]
]

pub override_items-injective :
    (last last' : Option String) (os qs : List Override) (items : List (List ℕ))
    → All HasEffect os
    → All HasEffect qs
    → override_items last os ≡ ok items
    → override_items last' qs ≡ ok items
    → os ≡ qs
unfolding override_items
override_items-injective l l' [] [] items a b p q = refl
override_items-injective l l' [] (o ∷ qs) items a b p q =
    let (i, r, _, _, e) = override_items-step l' o qs items q in absurd (ground (arith, e))
override_items-injective l l' (o ∷ os) [] items a b p q =
    let (i, r, _, _, e) = override_items-step l o os items p in absurd (ground (arith, e))
override_items-injective l l' (o ∷ os) (u ∷ qs) items a b p q =
    let (i, r, c, d, e) = override_items-step l o os items p in
    let (i', r', c', d', e') = override_items-step l' u qs items q in
    let same : i ≡ i' = ground (arith, e, e') in
    let rest : r ≡ r' = ground (arith, e, e') in
    let head = override_fields-injective o u (
      encode_intent-injective (override_fields o) (override_fields u) i
        (override_fields-InRange o a.0) (override_fields-InRange u b.0) c
        (subst (λ (x : List ℕ). encode_intent (override_fields u) ≡ some x) (sym same) c')) in
    let tail =
      override_items-injective (some o.capability) (some u.capability) os qs r a.1 b.1 d (
        subst (λ (x : List (List ℕ)). override_items (some u.capability) qs ≡ ok x) (sym rest)
          d') in
    cc (head, tail)

-- Sorting keeps what holds of every item.
insert-All :
    (P : Override → Type 0) (a : Override) (os : List Override)
    → P a
    → All P os
    → All P (insert (λ o. o.capability) a os)
unfolding insert
insert-All P a [] p h = (p, tt)
insert-All P a (b ∷ os) p h = elim (Bool-cases (lt_text b.capability a.capability)) [
  | inl q ↦ rw q (h.0, insert-All P a os p h.1)
  | inr q ↦ rw q (p, (h.0, h.1))
]

pub sort-All :
    (P : Override → Type 0) (os : List Override) → All P os → All P (sort (λ o. o.capability) os)
unfolding sort
sort-All P [] h = tt
sort-All P (o ∷ os) h = insert-All P o (sort (λ o. o.capability) os) h.0 (sort-All P os h.1)

pub all_known-All : (os : List Override) → all_known os ≡ true → All HasEffect os
unfolding all_known may_override
all_known-All [] h = tt
all_known-All (o ∷ os) h = (ground (arith, h), all_known-All os (ground arith))

pub all_effects-All : (os : List Override) → all_effects os ≡ true → All HasEffect os
unfolding all_effects
all_effects-All [] h = tt
all_effects-All (o ∷ os) h = (ground arith, all_effects-All os (ground arith))
