-- ===== src/Intent/Injective.antt =====
-- The fields behind the bytes of an intent.
use porsche.Prelude.{ℕ, ◌<◌, ◌≡◌, refl, sym, ap, ◌∙◌, some, List, [], ◌∷◌, ◌++◌, arith, length, All}
use mathlib.Core.List.{append_assoc}
use porsche.Intent.{
  Value, null, text, bytes, int64, int32, array, type_of, put_u32, items, encode_intent,
}
use porsche.Intent.Words.{
  InWidth, put_u32-injective, put_u64-injective, word64-injective, word32-injective, word64_bound,
  word32_bound, split_append,
}
use porsche.Intent.Layout.{payload, IsSmall, IsSized, layout, layouts, write_fields-layouts}

-- The integers are of Go's types, the int of `fieldInt32` within 32 bits.
abbrev pub InRange : Value → Type 0
InRange (int64 z) = InWidth 9223372036854775808 z
InRange (int32 z) = InWidth 2147483648 z
InRange v = Unit

sized_payload : (v : Value) → IsSized v → length (payload v) < 4294967296
sized_payload null h = h
sized_payload (text s) h = h
sized_payload (bytes s) h = h
sized_payload (int64 z) h = h
sized_payload (int32 z) h = h
sized_payload (array vs) h = h.2

-- A list with its length before it, and a rest.
counted-injective :
    (xs ys a b : List ℕ)
    → IsSmall xs
    → IsSmall ys
    → put_u32 (length xs) ++ (xs ++ a) ≡ put_u32 (length ys) ++ (ys ++ b)
    → (xs ≡ ys) × (a ≡ b)
unfolding put_u32
counted-injective xs ys a b p q h =
    let (lengths, rest) =
      split_append (put_u32 (length xs)) (put_u32 (length ys)) (xs ++ a) (ys ++ b) refl h in
    split_append xs ys a b (put_u32-injective (length xs) (length ys) p q lengths) rest

items-injective :
    (vs ws : List (List ℕ))
    → All IsSmall vs
    → All IsSmall ws
    → length vs ≡ length ws
    → items vs ≡ items ws
    → vs ≡ ws
unfolding items
items-injective [] [] p q e h = refl
items-injective [] (w ∷ ws) p q e h = absurd (omega (arith, e))
items-injective (v ∷ vs) [] p q e h = absurd (omega (arith, e))
items-injective (v ∷ vs) (w ∷ ws) p q e h =
    let (same, rest) = counted-injective v w (items vs) (items ws) p.0 q.0 h in
    ground (arith, same, items-injective vs ws p.1 q.1 (omega (arith, e)) rest)

payload-injective :
    (v w : Value)
    → IsSized v
    → IsSized w
    → InRange v
    → InRange w
    → type_of v ≡ type_of w
    → payload v ≡ payload w
    → v ≡ w
unfolding payload type_of put_u32
payload-injective null null sv sw rv rw t h = refl
payload-injective (text s) (text r) sv sw rv rw t h = ap text h
payload-injective (bytes s) (bytes r) sv sw rv rw t h = ap bytes h
payload-injective (int64 y) (int64 z) sv sw rv rw t h =
    ap int64
      (word64-injective y z rv rw (put_u64-injective _ _ (word64_bound y) (word64_bound z) h))
payload-injective (int32 y) (int32 z) sv sw rv rw t h =
    ap int32
      (word32-injective y z rv rw (put_u32-injective _ _ (word32_bound y) (word32_bound z) h))
payload-injective (array vs) (array ws) sv sw rv rw t h =
    let (n, rest) =
      split_append (put_u32 (length vs)) (put_u32 (length ws)) (items vs) (items ws) refl h in
    ap array (items-injective vs ws sv.1 sw.1 (put_u32-injective _ _ sv.0 sw.0 n) rest)
payload-injective v w sv sw rv rw t h = absurd (ground arith)

layout-injective :
    (t u : ℕ) (v w : Value) (a b : List ℕ)
    → IsSized v
    → IsSized w
    → InRange v
    → InRange w
    → layout t v ++ a ≡ layout u w ++ b
    → (t ≡ u) × (v ≡ w) × (a ≡ b)
unfolding layout
layout-injective t u v w a b sv sw rv rw h =
    let h' : (t ≡ u)
        × (type_of v ≡ type_of w)
        × ((put_u32 (length (payload v)) ++ payload v) ++ a
            ≡ (put_u32 (length (payload w)) ++ payload w) ++ b) =
      ground arith in
    let (same, rest) =
      counted-injective (payload v) (payload w) a b (sized_payload v sv) (sized_payload w sw) (
        sym (append_assoc (put_u32 (length (payload v))) (payload v) a)
        ∙ h'.2
        ∙ append_assoc (put_u32 (length (payload w))) (payload w) b) in
    (h'.0, payload-injective v w sv sw rv rw h'.1 same, rest)

layouts-injective :
    (fs gs : List (ℕ × Value))
    → All (λ f. IsSized f.1) fs
    → All (λ f. IsSized f.1) gs
    → All (λ f. InRange f.1) fs
    → All (λ f. InRange f.1) gs
    → layouts fs ≡ layouts gs
    → fs ≡ gs
unfolding layouts layout
layouts-injective [] [] sf sg rf rg h = refl
layouts-injective [] ((u, w) ∷ gs) sf sg rf rg h = absurd (ground arith)
layouts-injective ((t, v) ∷ fs) [] sf sg rf rg h = absurd (ground arith)
layouts-injective ((t, v) ∷ fs) ((u, w) ∷ gs) sf sg rf rg h =
    let (p, q, r) = layout-injective t u v w (layouts fs) (layouts gs) sf.0 sg.0 rf.0 rg.0 h in
    ground (arith, p, q, layouts-injective fs gs sf.1 sg.1 rf.1 rg.1 r)

-- Two intents with integers of their widths that are encoded to the same bytes have the same fields,
-- with the same tags, in the same order.
pub encode_intent-injective :
    (fs gs : List (ℕ × Value)) (out : List ℕ)
    → All (λ f. InRange f.1) fs
    → All (λ f. InRange f.1) gs
    → encode_intent fs ≡ some out
    → encode_intent gs ≡ some out
    → fs ≡ gs
unfolding encode_intent
encode_intent-injective fs gs out rf rg p q =
    let (sf, e) = write_fields-layouts fs [] out p in
    let (sg, g) = write_fields-layouts gs [] out q in
    layouts-injective fs gs sf sg rf rg (sym e ∙ g)
