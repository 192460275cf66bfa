-- ===== src/Intent/Texts.antt =====
-- What the intents use of Go's texts: their bytes, their order, and `strings.TrimSpace`. A text of the
-- model is valid UTF-8 by its type.
use Prim.Native.Char.{Char, code, IsScalar}
use text.Mathlib.TextEquality.{Char-path}
use porsche.Prelude.{
  ℕ, ◌+◌, ◌/◌, ◌%◌, ◌<◌, ◌≡◌, refl, sym, String, Bool, true, false, ◌&&◌, ◌||◌, List, [], ◌∷◌, ◌++◌,
  ltb, ◌==◌, if◌then◌else◌, arith,
}
use porsche.Generation.Identity.{codes, is_space}

-- The bytes of a code point.
unfoldable pub rune_bytes : ℕ → List ℕ
rune_bytes n =
    if ltb n 0x80
    then n ∷ []
    else if ltb n 0x800
    then (0xc0 + n / 64) ∷ (0x80 + n % 64) ∷ []
    else if ltb n 0x10000
    then (0xe0 + n / 4096) ∷ (0x80 + n / 64 % 64) ∷ (0x80 + n % 64) ∷ []
    else (0xf0 + n / 262144) ∷ (0x80 + n / 4096 % 64) ∷ (0x80 + n / 64 % 64) ∷ (0x80 + n % 64) ∷ []

-- `[]byte(value)`.
unfoldable pub utf8 : String → List ℕ
unfolding rune_bytes
utf8 String.[] = []
utf8 (String.◌∷◌ c s) = rune_bytes (code c) ++ utf8 s

-- Go's `<` on texts, by code points, which is the order of the bytes.
unfoldable pub lt_codes : List ℕ → List ℕ → Bool
lt_codes xs [] = false
lt_codes [] (y ∷ ys) = true
lt_codes (x ∷ xs) (y ∷ ys) = ltb x y || x == y && lt_codes xs ys

unfoldable pub lt_text : String → String → Bool
unfolding lt_codes
lt_text s t = lt_codes (codes s) (codes t)

unfoldable pub trim_left : String → String
trim_left String.[] = String.[]
trim_left (String.◌∷◌ c s) = if is_space (code c) then trim_left s else String.◌∷◌ c s

abbrev pub keep_space : Char → String → String
keep_space c String.[] = if is_space (code c) then String.[] else String.◌∷◌ c String.[]
keep_space c (String.◌∷◌ d s) = String.◌∷◌ c (String.◌∷◌ d s)

unfoldable pub trim_right : String → String
trim_right String.[] = String.[]
trim_right (String.◌∷◌ c s) = keep_space c (trim_right s)

-- `strings.TrimSpace`.
unfoldable pub trim_space : String → String
unfolding trim_left trim_right
trim_space s = trim_right (trim_left s)

scalar_bound : (n : ℕ) → IsScalar n → n < 0x110000
scalar_bound n h = ground arith

code_bound : (c : Char) → code c < 0x110000
code_bound (Char.char n h) = scalar_bound n h

rune_bytes-injective :
    (n m : ℕ) (a b : List ℕ)
    → n < 0x110000
    → m < 0x110000
    → rune_bytes n ++ a ≡ rune_bytes m ++ b
    → (n ≡ m) × (a ≡ b)
unfolding rune_bytes
rune_bytes-injective n m a b p q h = ground arith

rune_bytes-append : (n : ℕ) (a : List ℕ) → rune_bytes n ++ a ≡ [] → ⊥
unfolding rune_bytes
rune_bytes-append n a h = ground arith

pub utf8-injective : (s t : String) → utf8 s ≡ utf8 t → s ≡ t
unfolding utf8
utf8-injective String.[] String.[] h = refl
utf8-injective String.[] (String.◌∷◌ d t) h = absurd (rune_bytes-append (code d) (utf8 t) (sym h))
utf8-injective (String.◌∷◌ c s) String.[] h = absurd (rune_bytes-append (code c) (utf8 s) h)
utf8-injective (String.◌∷◌ c s) (String.◌∷◌ d t) h =
    let (p, q) =
      rune_bytes-injective (code c) (code d) (utf8 s) (utf8 t) (code_bound c) (code_bound d) h in
    cc (Char-path c d p, utf8-injective s t q)
