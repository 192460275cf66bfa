-- ===== src/Generation/Identity.antt =====
-- internal/service/platform_sse_v2.go: the tests on identifiers and integers that the generation
-- code shares. A text is walked by code points: a byte of a character beyond ASCII fails the tests of
-- `canonical_uuid` just as the character does, so the two readings agree.
use Prim.Native.Char.{code}
use porsche.Prelude.{
  ◌+◌, ◌-◌, ◌*◌, ◌^◌, not, ltb, str_eq, if◌then◌else◌, Option, none, some, false, ℕ, suc, String,
  Bool, true, ◌&&◌, ◌||◌, List, [], ◌∷◌, leb, ◌==◌, length,
}
use porsche.Prelude.Int.{ℤ, pos, ltb_ℤ}

abbrev pub codes : String → List ℕ
codes String.[] = []
codes (String.◌∷◌ c s) = code c ∷ codes s

unfoldable pub is_lower_hex : ℕ → Bool
is_lower_hex c = leb b'0' c && leb c b'9' || leb b'a' c && leb c b'f'

unfoldable pub is_dash_position : ℕ → Bool
is_dash_position i = i == 8 || i == 13 || i == 18 || i == 23

-- The loop of `platformSSEV2CanonicalUUID`, from index i on.
unfoldable pub uuid_from : ℕ → List ℕ → Bool
unfolding is_lower_hex is_dash_position
uuid_from i [] = true
uuid_from i (c ∷ cs) =
    (if is_dash_position i then c == b'-' else is_lower_hex c) && uuid_from (suc i) cs

unfoldable pub canonical_uuid : String → Bool
unfolding uuid_from
canonical_uuid value = length (codes value) == 36 && uuid_from 0 (codes value)

-- `validatePlatformGenerationIdentity` returns nil.
unfoldable pub valid_identity : ℤ → String → Bool
unfolding canonical_uuid
valid_identity user_id generation_id = ltb_ℤ (pos 0) user_id && canonical_uuid generation_id

abbrev pub max_safe_integer : ℕ
max_safe_integer = 9007199254740991

-- `platformSSEV2SafeInteger` on a value that is not negative; the callers' integers are sequence
-- numbers and times, and a negative one is refused like one beyond the bound.
abbrev pub safe_integer : ℕ → Bool
safe_integer n = leb n max_safe_integer

-- unicode.IsSpace, which `strings.TrimSpace` trims by.
unfoldable pub is_space : ℕ → Bool
is_space c =
    leb 9 c && leb c 13
    || c == 32
    || c == 0x85
    || c == 0xa0
    || c == 0x1680
    || leb 0x2000 c && leb c 0x200a
    || c == 0x2028
    || c == 0x2029
    || c == 0x202f
    || c == 0x205f
    || c == 0x3000

unfoldable pub last_is_space : List ℕ → Bool
last_is_space [] = false
last_is_space (c ∷ []) = is_space c
last_is_space (c ∷ d ∷ cs) = last_is_space (d ∷ cs)

-- `value == strings.TrimSpace(value)`, for a value that is not empty.
unfoldable pub is_trimmed : List ℕ → Bool
unfolding is_space last_is_space
is_trimmed [] = true
is_trimmed (c ∷ cs) = not (is_space c) && not (last_is_space (c ∷ cs))

-- `len(value)`: the bytes of the UTF-8 encoding.
unfoldable pub utf8_length : List ℕ → ℕ
utf8_length [] = 0
utf8_length (c ∷ cs) =
    (if ltb c 0x80 then 1 else if ltb c 0x800 then 2 else if ltb c 0x10000 then 3 else 4)
    + utf8_length cs

-- `platformSSEV2Identifier`; a text of the model is valid UTF-8 by its type.
unfoldable pub identifier : String → Bool
unfolding is_trimmed utf8_length
identifier value =
    not (str_eq value "") && is_trimmed (codes value) && leb (utf8_length (codes value)) 255

-- `platformSSEV2ModelIdentifier`.
unfoldable pub model_identifier : String → Bool
unfolding identifier
model_identifier value = identifier value && leb (utf8_length (codes value)) 128

unfoldable pub decimal_value : ℕ → List ℕ → Option ℕ
decimal_value acc [] = some acc
decimal_value acc (c ∷ cs) =
    let rest = decimal_value (acc * 10 + (c - b'0')) cs in
    if leb b'0' c && leb c b'9' then rest else none

abbrev leads_with_zero : List ℕ → Bool
leads_with_zero [] = true
leads_with_zero (c ∷ _) = c == b'0'

abbrev below_int64 : Option ℕ → Bool
below_int64 none = false
below_int64 (some n) = ltb n (2 ^ 63)

-- `platformGenerationMessageGUID`: the canonical decimal of a positive int64.
unfoldable pub message_guid : String → Bool
unfolding decimal_value
message_guid value =
    not (leads_with_zero (codes value)) && below_int64 (decimal_value 0 (codes value))
