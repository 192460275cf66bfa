-- ===== src/Intent/Layout.antt =====
-- The bytes that each field adds to the writer, and the bounds that its checks ensure.
use porsche.Prelude.{
  ℕ, ◌+◌, ◌<◌, ◌≡◌, true, some, List, [], ◌∷◌, ◌++◌, arith, length, length-append, All,
  Option-cases, inl, inr,
}
use mathlib.Core.List.{append_assoc, append-nil}
use porsche.Intent.{
  Value, null, text, bytes, int64, int32, array, type_of, put_u32, put_u64, word, items,
  write_field, write_fields, field, field_header, fits_u32, field_array, payload_length,
  add_item_length, all_fit,
}
use porsche.Intent.Words.{length-put_u32}

unfoldable pub payload : Value → List ℕ
unfolding items put_u64 put_u32 word
payload null = []
payload (text s) = s
payload (bytes s) = s
payload (int64 z) = put_u64 (word 18446744073709551616 z)
payload (int32 z) = put_u32 (word 4294967296 z)
payload (array vs) = put_u32 (length vs) ++ items vs

abbrev pub IsSmall : {A : Type 0} → List A → Type 0
IsSmall xs = length xs < 4294967296

-- The bounds on a value.
abbrev pub IsSized : Value → Type 0
IsSized (array vs) = IsSmall vs × All IsSmall vs × IsSmall (payload (array vs))
IsSized v = IsSmall (payload v)

-- The bytes of a field.
unfoldable pub layout : ℕ → Value → List ℕ
unfolding payload put_u32
layout tag v = tag ∷ type_of v ∷ (put_u32 (length (payload v)) ++ payload v)

unfoldable pub layouts : List (ℕ × Value) → List ℕ
unfolding layout
layouts [] = []
layouts ((tag, v) ∷ fs) = layout tag v ++ layouts fs

field-layout :
    (tag typ : ℕ) (value buffer out : List ℕ)
    → field tag typ value buffer ≡ some out
    → IsSmall value × (out ≡ buffer ++ (tag ∷ typ ∷ (put_u32 (length value) ++ value)))
unfolding field field_header fits_u32
field-layout tag typ value buffer out h =
    (ground arith, ground (arith, append_assoc buffer (tag ∷ typ ∷ put_u32 (length value)) value))

payload_length-items :
    (vs : List (List ℕ)) (total n : ℕ)
    → payload_length total vs ≡ some n
    → n ≡ total + length (items vs)
unfolding payload_length items add_item_length
payload_length-items [] total n h = ground arith
payload_length-items (v ∷ vs) total n h = elim (Option-cases (add_item_length total (length v))) [
  | inl p ↦ absurd (ground (arith, p))
  | inr (next, p) ↦ ground (
    arith,
    p,
    payload_length-items vs next n,
    length-append (put_u32 (length v)) (v ++ items vs),
    length-append v (items vs),
    length-put_u32 (length v),
  )
]

all_fit-IsSmall : (vs : List (List ℕ)) → all_fit vs ≡ true → All IsSmall vs
unfolding all_fit fits_u32
all_fit-IsSmall [] h = tt
all_fit-IsSmall (v ∷ vs) h = (ground arith, all_fit-IsSmall vs (ground arith))

field_array-layout :
    (tag : ℕ) (vs : List (List ℕ)) (buffer out : List ℕ)
    → field_array tag vs buffer ≡ some out
    → IsSized (array vs) × (out ≡ buffer ++ layout tag (array vs))
unfolding field_array field_header fits_u32 payload layout type_of
field_array-layout tag vs buffer out h = elim (Option-cases (payload_length 4 vs)) [
  | inl p ↦ absurd (ground (arith, p))
  | inr (n, p) ↦
      let counted = payload_length-items vs 4 n p in
      let whole : length (put_u32 (length vs) ++ items vs) ≡ n = omega (
        arith,
        counted,
        length-append (put_u32 (length vs)) (items vs),
        length-put_u32 (length vs),
      ) in
      (
        (ground (arith, p), all_fit-IsSmall vs (ground (arith, p)), ground (arith, p, whole)),
        ground (
          arith,
          p,
          whole,
          append_assoc buffer (tag ∷ 5 ∷ put_u32 n) (put_u32 (length vs) ++ items vs),
        ),
      )
]

pub write_field-layout :
    (tag : ℕ) (v : Value) (buffer out : List ℕ)
    → write_field tag v buffer ≡ some out
    → IsSized v × (out ≡ buffer ++ layout tag v)
unfolding write_field layout payload type_of
write_field-layout tag null buffer out h = field-layout tag 0 [] buffer out h
write_field-layout tag (text s) buffer out h = field-layout tag 1 s buffer out (ground arith)
write_field-layout tag (bytes s) buffer out h = field-layout tag 2 s buffer out h
write_field-layout tag (int64 z) buffer out h =
    field-layout tag 3 (put_u64 (word 18446744073709551616 z)) buffer out h
write_field-layout tag (int32 z) buffer out h =
    field-layout tag 4 (put_u32 (word 4294967296 z)) buffer out h
write_field-layout tag (array vs) buffer out h = field_array-layout tag vs buffer out h

pub write_fields-layouts :
    (fs : List (ℕ × Value)) (buffer out : List ℕ)
    → write_fields fs buffer ≡ some out
    → All (λ f. IsSized f.1) fs × (out ≡ buffer ++ layouts fs)
unfolding write_fields layouts
write_fields-layouts [] buffer out h = (tt, ground (arith, append-nil buffer))
write_fields-layouts ((tag, v) ∷ fs) buffer out h = elim (Option-cases (write_field tag v buffer)) [
  | inl p ↦ absurd (ground (arith, p))
  | inr (next, p) ↦
      let (sized, q) = write_field-layout tag v buffer next p in
      let (all, r) = write_fields-layouts fs next out (ground (arith, p)) in
      ((sized, all), ground (arith, q, r, append_assoc buffer (layout tag v) (layouts fs)))
]
