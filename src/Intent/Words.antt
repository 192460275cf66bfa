-- ===== src/Intent/Words.antt =====
-- Numbers as bytes.
use porsche.Prelude.{ℕ, ◌/◌, ◌%◌, ◌<◌, ◌≡◌, refl, ap, List, [], ◌∷◌, ◌++◌, arith, length}
use porsche.Prelude.Int.{ℤ, pos, negsuc}
use porsche.Intent.{put_u32, put_u64, word}

-- A signed integer of the width.
abbrev pub InWidth : ℕ → ℤ → Type 0
InWidth half (pos n) = n < half
InWidth half (negsuc n) = n < half

digits : (a b : ℕ) → a % 256 ≡ b % 256 → a / 256 ≡ b / 256 → a ≡ b
digits a b p q = omega (arith, p, q)

top : (a : ℕ) → a < 4294967296 → a / 256 / 256 / 256 % 256 ≡ a / 256 / 256 / 256
top a h = omega (arith, h)

four :
    (a b c d x y z w : ℕ)
    → a ∷ b ∷ c ∷ d ∷ [] ≡ x ∷ y ∷ z ∷ w ∷ []
    → (a ≡ x) × (b ≡ y) × (c ≡ z) × (d ≡ w)
four a b c d x y z w h = ground arith

pub put_u32-injective : (a b : ℕ) → a < 4294967296 → b < 4294967296 → put_u32 a ≡ put_u32 b → a ≡ b
unfolding put_u32
put_u32-injective a b p q h =
    let (e3, e2, e1, e0) = four _ _ _ _ _ _ _ _ h in
    let high : a / 256 / 256 / 256 ≡ b / 256 / 256 / 256 = omega (arith, top a p, top b q, e3) in
    digits a b e0 (digits (a / 256) (b / 256) e1 (digits (a / 256 / 256) (b / 256 / 256) e2 high))

pub length-put_u32 : (n : ℕ) → length (put_u32 n) ≡ 4
unfolding put_u32
length-put_u32 n = refl

-- Two lists of one length before the rest.
pub split_append :
    {A : Type 0} (xs ys a b : List A)
    → length xs ≡ length ys
    → xs ++ a ≡ ys ++ b
    → (xs ≡ ys) × (a ≡ b)
split_append [] [] a b p h = (refl, h)
split_append [] (y ∷ ys) a b p h = absurd (omega (arith, p))
split_append (x ∷ xs) [] a b p h = absurd (omega (arith, p))
split_append (x ∷ xs) (y ∷ ys) a b p h =
    let (q, r) = split_append xs ys a b (omega (arith, p)) (ground arith) in (ground (arith, q), r)

pub length-put_u64 : (n : ℕ) → length (put_u64 n) ≡ 8
unfolding put_u64 put_u32
length-put_u64 n = refl

below : (n : ℕ) → n < 18446744073709551616 → n / 4294967296 < 4294967296
below n h = omega (arith, h)

rest_below : (n : ℕ) → n % 4294967296 < 4294967296
rest_below n = omega arith

halves : (a b : ℕ) → a / 4294967296 ≡ b / 4294967296 → a % 4294967296 ≡ b % 4294967296 → a ≡ b
halves a b p q = omega (arith, p, q)

pub put_u64-injective :
    (a b : ℕ) → a < 18446744073709551616 → b < 18446744073709551616 → put_u64 a ≡ put_u64 b → a ≡ b
unfolding put_u64
put_u64-injective a b p q h =
    let (high, low) =
      split_append (put_u32 (a / 4294967296)) (put_u32 (b / 4294967296)) _ _ refl h in
    halves a b (put_u32-injective _ _ (below a p) (below b q) high)
      (put_u32-injective _ _ (rest_below a) (rest_below b) low)

-- Two's complement is injective on the width.
pub word64-injective :
    (y z : ℤ)
    → InWidth 9223372036854775808 y
    → InWidth 9223372036854775808 z
    → word 18446744073709551616 y ≡ word 18446744073709551616 z
    → y ≡ z
unfolding word
word64-injective (pos a) (pos b) p q h = ap pos (omega (arith, p, q, h))
word64-injective (pos a) (negsuc b) p q h = absurd (omega (arith, p, q, h))
word64-injective (negsuc a) (pos b) p q h = absurd (omega (arith, p, q, h))
word64-injective (negsuc a) (negsuc b) p q h = ap negsuc (omega (arith, p, q, h))

pub word32-injective :
    (y z : ℤ)
    → InWidth 2147483648 y
    → InWidth 2147483648 z
    → word 4294967296 y ≡ word 4294967296 z
    → y ≡ z
unfolding word
word32-injective (pos a) (pos b) p q h = ap pos (omega (arith, p, q, h))
word32-injective (pos a) (negsuc b) p q h = absurd (omega (arith, p, q, h))
word32-injective (negsuc a) (pos b) p q h = absurd (omega (arith, p, q, h))
word32-injective (negsuc a) (negsuc b) p q h = ap negsuc (omega (arith, p, q, h))

pub word64_bound : (z : ℤ) → word 18446744073709551616 z < 18446744073709551616
unfolding word
word64_bound (pos a) = omega arith
word64_bound (negsuc a) = omega arith

pub word32_bound : (z : ℤ) → word 4294967296 z < 4294967296
unfolding word
word32_bound (pos a) = omega arith
word32_bound (negsuc a) = omega arith
