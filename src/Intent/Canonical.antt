-- ===== src/Intent/Canonical.antt =====
-- The normal forms of the intents that hold lists, and that equal fields come of equal ones.
use porsche.Prelude.{
  ℕ, ◌≡◌, refl, sym, subst, String, Bool, true, Option, none, some, List, [], ◌∷◌, map, ok, All,
  arith, inl, inr, Result-cases,
}
use porsche.Prelude.Int.{ℤ, pos, negsuc, leb_ℤ}
use porsche.Intent.Words.{InWidth}
use porsche.Intent.Injective.{InRange}
use porsche.Intent.Texts.{utf8, utf8-injective, trim_space}
use porsche.Intent.Forms.{
  Override, CreateAccount, PermissionsChange, Fields, is_natural, is_version, sort, override_items,
  encode_permission_overrides, normalize_reason, Intent, create_account, reset_password, promote,
  permissions_write, demote, delete_user, publish, rollback, model_delete, pricing_publish,
  pricing_restore, content_publish, content_restore, other_value,
}
use porsche.Intent.Encoders.{
  create_account_fields, account_models, account_fields, change_fields, permissions_change_fields,
  account_ok, nickname_value, group_value, all_effects,
}
use porsche.Intent.Binding.{
  version_width, override_items-injective, sort-All, all_known-All, all_effects-All, HasEffect,
}

-- The numbers are of Go's int64.
abbrev pub IsInt64 : ℤ → Type 0
IsInt64 z = InWidth 9223372036854775808 z

unfoldable pub sorted_overrides : List Override → List Override
unfolding sort
sorted_overrides os = sort (λ o. o.capability) os

abbrev pub GroupIsInt64 : Option ℤ → Type 0
GroupIsInt64 none = Unit
GroupIsInt64 (some g) = IsInt64 g

-- The 64-bit numbers of an intent are such.
abbrev pub IsTyped : Intent → Type 0
IsTyped (create_account i) = GroupIsInt64 i.group_guid
IsTyped (promote i) = IsInt64 i.target_guid × IsInt64 i.expected_permissions_version
IsTyped (permissions_write i) = IsInt64 i.target_guid × IsInt64 i.expected_permissions_version
IsTyped (demote i) = IsInt64 i.target_guid × IsInt64 i.expected_permissions_version
IsTyped (delete_user i) = IsInt64 i.target_guid
IsTyped (reset_password i) = IsInt64 i.target_guid
IsTyped (publish i) = IsInt64 i.version_guid × IsInt64 i.expected_version
IsTyped (rollback i) = IsInt64 i.version_guid × IsInt64 i.expected_version
IsTyped (model_delete i) = IsInt64 i.model_guid × IsInt64 i.expected_revision
IsTyped (pricing_publish r) = IsInt64 r
IsTyped (pricing_restore i) = IsInt64 i.release_guid × IsInt64 i.expected_revision
IsTyped (content_publish i) = IsInt64 i.release_guid × IsInt64 i.expected_revision
IsTyped (content_restore i) = IsInt64 i.release_guid × IsInt64 i.expected_revision
IsTyped other_value = Unit

encode_permission_overrides-ok :
    (os : List Override) (items : List (List ℕ))
    → encode_permission_overrides os ≡ ok items
    → All HasEffect (sorted_overrides os) × (override_items none (sorted_overrides os) ≡ ok items)
unfolding encode_permission_overrides sorted_overrides
encode_permission_overrides-ok os items h =
    (sort-All HasEffect os (all_known-All os (ground arith)), ground arith)

permissions_change_fields-ok :
    (test : ℤ → Bool) (i : PermissionsChange) (fs : Fields)
    → permissions_change_fields test i ≡ ok fs
    → (items : List (List ℕ)) × (encode_permission_overrides i.overrides ≡ ok items)
      × (fs ≡ change_fields i items (trim_space i.reason))
      × (is_version i.expected_auth_version ≡ true)
      × (is_version i.catalog_version ≡ true)
unfolding permissions_change_fields normalize_reason
permissions_change_fields-ok test i fs h =
    elim (Result-cases (encode_permission_overrides i.overrides)) [
      | inl (items, p) ↦
          (items, p, ground (arith, p, h), ground (arith, p, h), ground (arith, p, h))
      | inr (e, p) ↦ absurd (ground (arith, p, h))
    ]

pub permissions_change_fields-InRange :
    (test : ℤ → Bool) (i : PermissionsChange) (fs : Fields)
    → permissions_change_fields test i ≡ ok fs
    → IsInt64 i.target_guid
    → IsInt64 i.expected_permissions_version
    → All (λ f. InRange f.1) fs
unfolding change_fields
permissions_change_fields-InRange test i fs h p q =
    let (items, _, e, a, c) = permissions_change_fields-ok test i fs h in
    subst (λ (x : Fields). All (λ f. InRange f.1) x) (sym e)
      (
        p,
        (
          version_width i.expected_auth_version a,
          (q, (version_width i.catalog_version c, (tt, (tt, tt)))),
        ),
      )

pub permissions_change_fields-canonical :
    (test : ℤ → Bool) (i j : PermissionsChange) (fs : Fields)
    → permissions_change_fields test i ≡ ok fs
    → permissions_change_fields test j ≡ ok fs
    → record i { overrides = sorted_overrides i.overrides; reason = trim_space i.reason }
      ≡ record j { overrides = sorted_overrides j.overrides; reason = trim_space j.reason }
unfolding change_fields
permissions_change_fields-canonical test i j fs h k =
    let (items, p, e, _, _) = permissions_change_fields-ok test i fs h in
    let (items', p', e', _, _) = permissions_change_fields-ok test j fs k in
    let (a, b) = encode_permission_overrides-ok i.overrides items p in
    let (a', b') = encode_permission_overrides-ok j.overrides items' p' in
    let same : items ≡ items' = ground (arith, e, e') in
    let os =
      override_items-injective none none (sorted_overrides i.overrides)
        (sorted_overrides j.overrides) items a a' b
        (subst (λ (x : List (List ℕ)). override_items none (sorted_overrides j.overrides) ≡ ok x)
          (sym same) b') in
    ground (arith, e, e', os, utf8-injective (trim_space i.reason) (trim_space j.reason))

map-utf8-injective : (ms ns : List String) → map utf8 ms ≡ map utf8 ns → ms ≡ ns
map-utf8-injective [] [] h = refl
map-utf8-injective [] (n ∷ ns) h = absurd (ground arith)
map-utf8-injective (m ∷ ms) [] h = absurd (ground arith)
map-utf8-injective (m ∷ ms) (n ∷ ns) h =
    ground (arith, utf8-injective m n, map-utf8-injective ms ns)

nickname_value-injective : (a b : Option String) → nickname_value a ≡ nickname_value b → a ≡ b
nickname_value-injective none none h = refl
nickname_value-injective none (some b) h = absurd (ground arith)
nickname_value-injective (some a) none h = absurd (ground arith)
nickname_value-injective (some a) (some b) h = ground (arith, utf8-injective a b)

group_value-injective : (a b : Option ℤ) → group_value a ≡ group_value b → a ≡ b
group_value-injective none none h = refl
group_value-injective none (some b) h = absurd (ground arith)
group_value-injective (some a) none h = absurd (ground arith)
group_value-injective (some a) (some b) h = ground arith

group_value-InRange : (g : Option ℤ) → GroupIsInt64 g → InRange (group_value g)
group_value-InRange none h = tt
group_value-InRange (some g) h = h

nickname_value-InRange : (n : Option String) → InRange (nickname_value n)
nickname_value-InRange none = tt
nickname_value-InRange (some n) = tt

create_account_fields-ok :
    (role : String) (i : CreateAccount) (fs : Fields)
    → create_account_fields role i ≡ ok fs
    → (items : List (List ℕ)) × (override_items none (sorted_overrides i.overrides) ≡ ok items)
      × (fs ≡ account_fields i items)
      × (account_ok i role ≡ true)
      × (all_effects i.overrides ≡ true)
unfolding create_account_fields sorted_overrides
create_account_fields-ok role i fs h =
    elim (Result-cases (override_items none (sort (λ o. o.capability) i.overrides))) [
      | inl (items, p) ↦
          (items, p, ground (arith, p, h), ground (arith, p, h), ground (arith, p, h))
      | inr (e, p) ↦ absurd (ground (arith, p, h))
    ]

natural_width :
    (z : ℤ) → is_natural z ≡ true → leb_ℤ z (pos 2147483647) ≡ true → InWidth 2147483648 z
natural_width (pos n) h k = ground arith
natural_width (negsuc n) h k = absurd (ground arith)

plan_width : (z : ℤ) → leb_ℤ (pos 1) z ≡ true → leb_ℤ z (pos 3) ≡ true → InWidth 2147483648 z
plan_width (pos n) h k = ground arith
plan_width (negsuc n) h k = absurd (ground arith)

pub create_account_fields-InRange :
    (role : String) (i : CreateAccount) (fs : Fields)
    → create_account_fields role i ≡ ok fs
    → GroupIsInt64 i.group_guid
    → All (λ f. InRange f.1) fs
unfolding account_fields account_ok
create_account_fields-InRange role i fs h g =
    let (items, _, e, a, _) = create_account_fields-ok role i fs h in
    subst (λ (x : Fields). All (λ f. InRange f.1) x) (sym e)
      (
        tt,
        (
          nickname_value-InRange i.nickname,
          (
            tt,
            (
              tt,
              (
                group_value-InRange i.group_guid g,
                (
                  plan_width i.plan_type (ground arith) (ground arith),
                  (tt, (natural_width i.daily_call_limit (ground arith) (ground arith), (tt, tt))),
                ),
              ),
            ),
          ),
        ),
      )

pub create_account_fields-canonical :
    (role : String) (i j : CreateAccount) (fs : Fields)
    → create_account_fields role i ≡ ok fs
    → create_account_fields role j ≡ ok fs
    → record i { allowed_models = account_models i; overrides = sorted_overrides i.overrides }
      ≡ record j { allowed_models = account_models j; overrides = sorted_overrides j.overrides }
unfolding account_fields sorted_overrides
create_account_fields-canonical role i j fs h k =
    let (items, p, e, _, a) = create_account_fields-ok role i fs h in
    let (items', p', e', _, a') = create_account_fields-ok role j fs k in
    let same : items ≡ items' = ground (arith, e, e') in
    let os =
      override_items-injective none none (sorted_overrides i.overrides)
        (sorted_overrides j.overrides) items
        (sort-All HasEffect i.overrides (all_effects-All i.overrides a))
        (sort-All HasEffect j.overrides (all_effects-All j.overrides a')) p
        (subst (λ (x : List (List ℕ)). override_items none (sorted_overrides j.overrides) ≡ ok x)
          (sym same) p') in
    ground (
      arith,
      e,
      e',
      os,
      utf8-injective i.username j.username,
      utf8-injective i.role j.role,
      nickname_value-injective i.nickname j.nickname,
      group_value-injective i.group_guid j.group_guid,
      map-utf8-injective (account_models i) (account_models j),
    )
