-- ===== src/Intent/Encoders.antt =====
-- internal/actionsecurity/intent_users.go and intent_public.go: the encoders. Each is the checks of the
-- source and the list of the fields that it then writes; `write` is its call of `encodeIntent`.
use porsche.Prelude.{
  ℕ, ◌+◌, ◌-◌, String, Bool, true, not, ◌&&◌, ◌||◌, Option, none, some, List, [], ◌∷◌, map, str_eq,
  ltb, leb, length, ok, ◌>>=◌, ◌>>◌, guard,
}
use porsche.Prelude.Int.{ℤ, pos, leb_ℤ}
use porsche.Generation.Identity.{codes}
use porsche.Intent.{Value, null, text, bytes, int64, int32, array, encode_intent, max_u64}
use porsche.Intent.Texts.{utf8, trim_space}
use porsche.Intent.Forms.{
  invalid_intent, too_large, Override, CreateAccount, ResetPassword, PermissionsChange, Demote,
  DeleteUser, ContentChange, ModelDelete, Release, Fields, Checked, is_positive, is_natural,
  is_version, short, of_option, is_empty, total_length, sort, unique_after, override_items,
  is_effect, capability_length, encode_permission_overrides, normalize_reason,
}

-- `encodeIntent`.
abbrev pub write : Fields → Checked (List ℕ)
write fields = of_option (encode_intent fields)

abbrev nickname_ok : Option String → Bool
nickname_ok none = true
nickname_ok (some n) = not (str_eq n "")

abbrev nickname_length : Option String → ℕ
nickname_length none = 0
nickname_length (some n) = length (utf8 n)

abbrev pub nickname_value : Option String → Value
nickname_value none = null
nickname_value (some n) = text (utf8 n)

abbrev group_ok : Option ℤ → Bool
group_ok none = true
group_ok (some g) = is_positive g

abbrev pub group_value : Option ℤ → Value
group_value none = null
group_value (some g) = int64 g

unfoldable pub all_named : List String → Bool
all_named [] = true
all_named (m ∷ ms) = not (str_eq m "") && all_named ms

unfoldable pub all_effects : List Override → Bool
all_effects [] = true
all_effects (o ∷ os) = not (str_eq o.capability "") && is_effect o.effect && all_effects os

unfoldable pub all_short : List Override → Bool
all_short [] = true
all_short (o ∷ os) = not (ltb (max_u64 - 16) (capability_length o)) && all_short os

-- The first test of `encodeCreateAccountIntent`.
unfoldable pub account_ok : CreateAccount → String → Bool
account_ok i role =
    not (str_eq i.username "")
    && not (is_empty i.password)
    && str_eq i.role role
    && leb_ℤ (pos 1) i.plan_type
    && leb_ℤ i.plan_type (pos 3)
    && is_natural i.daily_call_limit
    && leb_ℤ i.daily_call_limit (pos 2147483647)
    && nickname_ok i.nickname
    && group_ok i.group_guid

unfoldable pub account_models : CreateAccount → List String
unfolding unique_after sort
account_models i = unique_after none (sort (λ m. m) i.allowed_models)

unfoldable pub account_fields : CreateAccount → List (List ℕ) → Fields
unfolding account_models utf8
account_fields i items =
    (1, text (utf8 i.username))
    ∷ (2, nickname_value i.nickname)
    ∷ (3, bytes i.password)
    ∷ (4, text (utf8 i.role))
    ∷ (5, group_value i.group_guid)
    ∷ (6, int32 i.plan_type)
    ∷ (7, array (map utf8 (account_models i)))
    ∷ (8, int32 i.daily_call_limit)
    ∷ (9, array items)
    ∷ []

-- `encodeCreateAccountIntent`.
unfoldable pub create_account_fields : String → CreateAccount → Checked Fields
unfolding account_ok all_named all_effects all_short override_items sort total_length
create_account_fields role i = do
  guard (account_ok i role) invalid_intent
  short (length (utf8 i.username))
  short (length i.password)
  short (nickname_length i.nickname)
  short (length i.allowed_models)
  models ← of_option (total_length 4 (map (λ m. length (utf8 m)) i.allowed_models))
  guard (all_named i.allowed_models) invalid_intent
  guard (all_short i.overrides) too_large
  short (length i.overrides)
  total ← of_option (total_length 4 (map (λ o. capability_length o + 16) i.overrides))
  guard (all_effects i.overrides) invalid_intent
  items ← override_items none (sort (λ o. o.capability) i.overrides)
  ok (account_fields i items)

-- `encodeResetPasswordIntent`.
unfoldable pub reset_password_fields : ResetPassword → Checked Fields
unfolding utf8
reset_password_fields i = do
  guard
      (is_positive i.target_guid
        && is_version i.expected_auth_version
        && not (is_empty i.new_password)
        && not (str_eq i.reason ""))
      invalid_intent
  short (length i.new_password)
  short (length (utf8 i.reason))
  ok (
      (1, int64 i.target_guid)
      ∷ (2, int32 i.expected_auth_version)
      ∷ (3, bytes i.new_password)
      ∷ (4, text (utf8 i.reason))
      ∷ [])

-- The fields that the promotion and the writing of permissions have in common.
unfoldable pub change_fields : PermissionsChange → List (List ℕ) → String → Fields
unfolding utf8
change_fields i items reason =
    (1, int64 i.target_guid)
    ∷ (2, int32 i.expected_auth_version)
    ∷ (3, int64 i.expected_permissions_version)
    ∷ (4, int32 i.catalog_version)
    ∷ (5, array items)
    ∷ (6, text (utf8 reason))
    ∷ []

-- `encodePromoteIntent`, where the version of the permissions may be 0, and
-- `encodePermissionsWriteIntent`, where it may not.
unfoldable pub permissions_change_fields : (ℤ → Bool) → PermissionsChange → Checked Fields
unfolding normalize_reason encode_permission_overrides change_fields
permissions_change_fields version_ok i = do
  reason ← normalize_reason i.reason
  guard
      (is_positive i.target_guid
        && is_version i.expected_auth_version
        && version_ok i.expected_permissions_version
        && is_version i.catalog_version)
      invalid_intent
  items ← encode_permission_overrides i.overrides
  ok (change_fields i items reason)

unfoldable pub promote_fields : PermissionsChange → Checked Fields
unfolding permissions_change_fields
promote_fields i = permissions_change_fields is_natural i

unfoldable pub permissions_write_fields : PermissionsChange → Checked Fields
unfolding permissions_change_fields
permissions_write_fields i = permissions_change_fields is_positive i

-- `encodeDemoteIntent`.
unfoldable pub demote_fields : Demote → Checked Fields
unfolding normalize_reason utf8
demote_fields i = do
  reason ← normalize_reason i.reason
  guard
      (is_positive i.target_guid
        && is_version i.expected_auth_version
        && is_positive i.expected_permissions_version
        && is_version i.catalog_version)
      invalid_intent
  ok (
      (1, int64 i.target_guid)
      ∷ (2, int32 i.expected_auth_version)
      ∷ (3, int64 i.expected_permissions_version)
      ∷ (4, int32 i.catalog_version)
      ∷ (5, text (utf8 reason))
      ∷ [])

-- `encodeDeleteUserIntent`.
unfoldable pub delete_user_fields : DeleteUser → Checked Fields
unfolding normalize_reason utf8
delete_user_fields i = do
  reason ← normalize_reason i.reason
  guard (is_positive i.target_guid && is_version i.expected_auth_version) invalid_intent
  short (length (utf8 reason))
  ok ((1, int64 i.target_guid) ∷ (2, int32 i.expected_auth_version) ∷ (3, text (utf8 reason)) ∷ [])

-- `encodePublishIntent` and `encodeRollbackIntent`.
unfoldable pub content_change_fields : ContentChange → Checked Fields
unfolding utf8
content_change_fields i = do
  guard
      (not (str_eq i.content_type "")
        && is_positive i.version_guid
        && is_positive i.expected_version
        && not (str_eq i.reason ""))
      invalid_intent
  short (length (utf8 i.content_type))
  short (length (utf8 i.reason))
  ok (
      (1, text (utf8 i.content_type))
      ∷ (2, int64 i.version_guid)
      ∷ (3, int64 i.expected_version)
      ∷ (4, text (utf8 i.reason))
      ∷ [])

unfoldable pub all_printable : (ℕ → Bool) → List ℕ → Bool
all_printable is_format [] = true
all_printable is_format (c ∷ cs) =
    not (ltb c 0x20 || leb 0x7f c && leb c 0x9f) && not (is_format c) && all_printable is_format cs

-- `ValidPublicModelDeleteReason`; `is_format` is the test of the class Cf of Unicode, whose table is
-- that of the Go release. Class Cc is fixed.
unfoldable pub valid_delete_reason : (ℕ → Bool) → String → Bool
unfolding all_printable trim_space
valid_delete_reason is_format value =
    not (str_eq value "")
    && str_eq value (trim_space value)
    && leb (length (codes value)) 128
    && all_printable is_format (codes value)

-- `encodePublicModelDeleteIntent`.
unfoldable pub model_delete_fields : (ℕ → Bool) → ModelDelete → Checked Fields
unfolding valid_delete_reason utf8
model_delete_fields is_format i = do
  guard
      (is_positive i.model_guid
        && is_positive i.expected_revision
        && valid_delete_reason is_format i.reason)
      invalid_intent
  ok ((1, int64 i.model_guid) ∷ (2, int64 i.expected_revision) ∷ (3, text (utf8 i.reason)) ∷ [])

-- `encodePublicPricingPublishIntent`.
unfoldable pub pricing_publish_fields : ℤ → Checked Fields
pricing_publish_fields revision = do
  guard (is_positive revision) invalid_intent
  ok ((1, int64 revision) ∷ [])

-- `encodePublicPricingRestoreIntent`, `encodePublicContentPublishIntent` and
-- `encodePublicContentRestoreIntent`.
unfoldable pub release_fields : Release → Checked Fields
release_fields i = do
  guard (is_positive i.release_guid && is_positive i.expected_revision) invalid_intent
  ok ((1, int64 i.release_guid) ∷ (2, int64 i.expected_revision) ∷ [])
