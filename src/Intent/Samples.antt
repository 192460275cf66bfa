-- ===== src/Intent/Samples.antt =====
-- An intent with one field of each kind.
use porsche.Prelude.{ℕ, All, ◌≡◌, refl, some, List, [], ◌∷◌, arith}
use porsche.Prelude.Int.{pos, negsuc}
use porsche.Intent.{
  Value, null, text, int64, int32, array, encode_intent, write_fields, write_field, field,
  field_array, field_header, fits_u32, put_u32, put_u64, word, payload_length, add_item_length,
  items, all_fit,
}
use porsche.Intent.Injective.{InRange, encode_intent-injective}
use porsche.Prelude.{String}
use porsche.Intent.Forms.{Override, PermissionsChange, Intent, promote}
use porsche.Intent.Actions.{users_promote, resolve_active}
use porsche.Intent.Active.{IsActive, resolve_active-IsActive}

abbrev fields : List (ℕ × Value)
fields =
    (1, text (104 ∷ 105 ∷ []))
    ∷ (2, null)
    ∷ (3, int64 (negsuc 0))
    ∷ (4, int32 (pos 3))
    ∷ (5, array ((97 ∷ []) ∷ []))
    ∷ []

abbrev encoded : List ℕ
encoded =
    1 ∷ 1 ∷ 0 ∷ 0 ∷ 0 ∷ 2 ∷ 104 ∷ 105 ∷ 2 ∷ 0 ∷ 0 ∷ 0 ∷ 0 ∷ 0 ∷ 3 ∷ 3 ∷ 0 ∷ 0 ∷ 0 ∷ 8 ∷ 255 ∷ 255
    ∷ 255 ∷ 255 ∷ 255 ∷ 255 ∷ 255 ∷ 255 ∷ 4 ∷ 4 ∷ 0 ∷ 0 ∷ 0 ∷ 4 ∷ 0 ∷ 0 ∷ 0 ∷ 3 ∷ 5 ∷ 5 ∷ 0 ∷ 0 ∷ 0
    ∷ 9 ∷ 0 ∷ 0 ∷ 0 ∷ 1 ∷ 0 ∷ 0 ∷ 0 ∷ 1 ∷ 97 ∷ []

fields_encode : encode_intent fields ≡ some encoded
unfolding encode_intent write_fields write_field field field_array field_header fits_u32 put_u32
    put_u64 word payload_length add_item_length items all_fit
fields_encode = refl

fields-InRange : All (λ f. InRange f.1) fields
fields-InRange = (tt, (tt, (ground arith, (ground arith, (tt, tt)))))

encode_intent-injective_example : fields ≡ fields
encode_intent-injective_example =
    encode_intent-injective fields fields encoded fields-InRange fields-InRange fields_encode
      fields_encode

abbrev reads : Override
reads = record { capability = "users.read"; effect = pos 2 }

abbrev creates : Override
creates = record { capability = "users.create"; effect = pos 3 }

abbrev asked : List Override → String → PermissionsChange
asked os reason = record {
  target_guid = pos 9;
  expected_auth_version = pos 1;
  expected_permissions_version = pos 0;
  catalog_version = pos 1;
  overrides = os;
  reason = reason;
}

abbrev first : Intent
first = promote (asked (reads ∷ creates ∷ []) "ok")

abbrev second : Intent
second = promote (asked (creates ∷ reads ∷ []) "  ok ")

abbrev bound : List ℕ
bound =
    1 ∷ 3 ∷ 0 ∷ 0 ∷ 0 ∷ 8 ∷ 0 ∷ 0 ∷ 0 ∷ 0 ∷ 0 ∷ 0 ∷ 0 ∷ 9 ∷ 2 ∷ 4 ∷ 0 ∷ 0 ∷ 0 ∷ 4 ∷ 0 ∷ 0 ∷ 0 ∷ 1
    ∷ 3 ∷ 3 ∷ 0 ∷ 0 ∷ 0 ∷ 8 ∷ 0 ∷ 0 ∷ 0 ∷ 0 ∷ 0 ∷ 0 ∷ 0 ∷ 0 ∷ 4 ∷ 4 ∷ 0 ∷ 0 ∷ 0 ∷ 4 ∷ 0 ∷ 0 ∷ 0 ∷ 1
    ∷ 5 ∷ 5 ∷ 0 ∷ 0 ∷ 0 ∷ 66 ∷ 0 ∷ 0 ∷ 0 ∷ 2 ∷ 0 ∷ 0 ∷ 0 ∷ 28 ∷ 1 ∷ 1 ∷ 0 ∷ 0 ∷ 0 ∷ 12 ∷ 117 ∷ 115
    ∷ 101 ∷ 114 ∷ 115 ∷ 46 ∷ 99 ∷ 114 ∷ 101 ∷ 97 ∷ 116 ∷ 101 ∷ 2 ∷ 4 ∷ 0 ∷ 0 ∷ 0 ∷ 4 ∷ 0 ∷ 0 ∷ 0 ∷ 3
    ∷ 0 ∷ 0 ∷ 0 ∷ 26 ∷ 1 ∷ 1 ∷ 0 ∷ 0 ∷ 0 ∷ 10 ∷ 117 ∷ 115 ∷ 101 ∷ 114 ∷ 115 ∷ 46 ∷ 114 ∷ 101 ∷ 97
    ∷ 100 ∷ 2 ∷ 4 ∷ 0 ∷ 0 ∷ 0 ∷ 4 ∷ 0 ∷ 0 ∷ 0 ∷ 2 ∷ 6 ∷ 1 ∷ 0 ∷ 0 ∷ 0 ∷ 2 ∷ 111 ∷ 107 ∷ []

resolve_active-IsActive_example : IsActive users_promote (resolve_active users_promote)
resolve_active-IsActive_example = resolve_active-IsActive users_promote
