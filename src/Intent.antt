-- ===== src/Intent.antt =====
-- internal/actionsecurity/encode.go: the canonical bytes of an action's intent, over which its digest
-- is taken. A byte is a number below 256, and a Go string is the list of its bytes. An intent is the
-- list of the fields that its `write` function writes, with their tags.
pub mod Words
pub mod Layout
pub mod Injective
pub mod Texts
pub mod Forms
pub mod Encoders
pub mod Actions
pub mod Binding
pub mod Canonical
pub mod Alike
pub mod Ranges
pub mod Binds
pub mod Active
mod Samples
use porsche.Prelude.{
  ℕ, suc, ◌+◌, ◌-◌, ◌*◌, ◌/◌, ◌%◌, Bool, true, false, ◌||◌, Option, none, some, List, [], ◌∷◌, ◌++◌,
  ltb, if◌then◌else◌, length,
}
use porsche.Prelude.Int.{ℤ, pos, negsuc}

abbrev pub max_u32 : ℕ
max_u32 = 4294967295

abbrev pub max_u64 : ℕ
max_u64 = 18446744073709551615

-- What the field methods of the writer are given.
pub data Value : Type 0 where
  null : Value
  text bytes : List ℕ → Value
  int64 int32 : ℤ → Value
  array : List (List ℕ) → Value

-- The type bytes.
unfoldable pub type_of : Value → ℕ
type_of null = 0
type_of (text s) = 1
type_of (bytes s) = 2
type_of (int64 z) = 3
type_of (int32 z) = 4
type_of (array vs) = 5

-- `binary.BigEndian.PutUint32`.
unfoldable pub put_u32 : ℕ → List ℕ
put_u32 n = n / 256 / 256 / 256 % 256 ∷ n / 256 / 256 % 256 ∷ n / 256 % 256 ∷ n % 256 ∷ []

-- `binary.BigEndian.PutUint64`.
unfoldable pub put_u64 : ℕ → List ℕ
unfolding put_u32
put_u64 n = put_u32 (n / 4294967296) ++ put_u32 (n % 4294967296)

-- `uint64(value)`, and `uint32(value)` of an int.
unfoldable pub word : ℕ → ℤ → ℕ
word modulus (pos n) = n % modulus
word modulus (negsuc n) = modulus - 1 - n % modulus

-- `checkedU32Length` returns no error.
unfoldable pub fits_u32 : ℕ → Bool
fits_u32 n = if ltb max_u32 n then false else true

-- `addArrayItemLength`.
unfoldable pub add_item_length : ℕ → ℕ → Option ℕ
add_item_length total item =
    if ltb (max_u64 - 4) total || ltb (max_u64 - total - 4) item
    then none
    else if ltb max_u32 (total + (4 + item))
    then none
    else some (total + (4 + item))

-- `fieldHeader`.
unfoldable pub field_header : ℕ → ℕ → ℕ → List ℕ → Option (List ℕ)
unfolding fits_u32 put_u32
field_header tag typ n buffer =
    if fits_u32 n then some (buffer ++ (tag ∷ typ ∷ put_u32 n)) else none

abbrev pub append_to : Option (List ℕ) → List ℕ → Option (List ℕ)
append_to none value = none
append_to (some buffer) value = some (buffer ++ value)

-- `field`.
unfoldable pub field : ℕ → ℕ → List ℕ → List ℕ → Option (List ℕ)
unfolding field_header
field tag typ value buffer = append_to (field_header tag typ (length value) buffer) value

-- The loops of `fieldArray`: the length of the payload, and then the items with their lengths.
abbrev pub and_then : Option ℕ → (ℕ → Option ℕ) → Option ℕ
and_then none next = none
and_then (some n) next = next n

unfoldable pub payload_length : ℕ → List (List ℕ) → Option ℕ
unfolding add_item_length
payload_length total [] = some total
payload_length total (v ∷ vs) =
    and_then (add_item_length total (length v)) (λ next. payload_length next vs)

unfoldable pub items : List (List ℕ) → List ℕ
unfolding put_u32
items [] = []
items (v ∷ vs) = put_u32 (length v) ++ (v ++ items vs)

unfoldable pub all_fit : List (List ℕ) → Bool
unfolding fits_u32
all_fit [] = true
all_fit (v ∷ vs) = let rest = all_fit vs in if fits_u32 (length v) then rest else false

abbrev pub array_with : ℕ → List (List ℕ) → List ℕ → Option ℕ → Option (List ℕ)
array_with tag values buffer none = none
array_with tag values buffer (some n) =
    if all_fit values
    then append_to (field_header tag 5 n buffer) (put_u32 (length values) ++ items values)
    else none

-- `fieldArray`.
unfoldable pub field_array : ℕ → List (List ℕ) → List ℕ → Option (List ℕ)
unfolding payload_length all_fit
field_array tag values buffer =
    if fits_u32 (length values)
    then array_with tag values buffer (payload_length 4 values)
    else none

-- The field methods; the check of `fieldString` is that of `field`, made before the text is copied.
unfoldable pub write_field : ℕ → Value → List ℕ → Option (List ℕ)
unfolding field field_array put_u64 put_u32 word
write_field tag null buffer = field tag 0 [] buffer
write_field tag (text s) buffer = if fits_u32 (length s) then field tag 1 s buffer else none
write_field tag (bytes s) buffer = field tag 2 s buffer
write_field tag (int64 z) buffer = field tag 3 (put_u64 (word 18446744073709551616 z)) buffer
write_field tag (int32 z) buffer = field tag 4 (put_u32 (word 4294967296 z)) buffer
write_field tag (array vs) buffer = field_array tag vs buffer

abbrev pub fold_fields : (List ℕ → Option (List ℕ)) → Option (List ℕ) → Option (List ℕ)
fold_fields next none = none
fold_fields next (some buffer) = next buffer

unfoldable pub write_fields : List (ℕ × Value) → List ℕ → Option (List ℕ)
unfolding write_field
write_fields [] buffer = some buffer
write_fields ((tag, v) ∷ fs) buffer =
    fold_fields (λ next. write_fields fs next) (write_field tag v buffer)

-- `encodeIntent`.
unfoldable pub encode_intent : List (ℕ × Value) → Option (List ℕ)
unfolding write_fields
encode_intent fields = write_fields fields []
