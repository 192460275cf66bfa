-- ===== src/Intent/Forms.antt =====
-- internal/actionsecurity/intent_users.go and intent_public.go: the intents, and the parts that their
-- encodings share. A text that is not valid UTF-8 is left out of the model: the code refuses it, but
-- for the reason of a password reset and the texts of the two superseded publication intents.
use porsche.Prelude.{
  ℕ, ◌+◌, String, Bool, true, false, not, ◌&&◌, ◌||◌, Option, none, some, List, [], ◌∷◌, map,
  str_eq, leb, if◌then◌else◌, length, Result, ok, err, ◌>>=◌, ◌>>◌, guard,
}
use porsche.Prelude.Int.{ℤ, pos, ltb_ℤ, leb_ℤ, eq_ℤ}
use porsche.Authz.Catalog.{Definition, lookup}
use porsche.Generation.Identity.{codes}
use porsche.Intent.{Value, text, int32, encode_intent, fits_u32, add_item_length, and_then}
use porsche.Intent.Texts.{utf8, lt_text, trim_space}

pub data IntentError : Type 0 where
  invalid_intent too_large wrong_type : IntentError

pub record Override : Type 0 where
  pub capability : String
  pub effect : ℤ

pub record CreateAccount : Type 0 where
  pub username : String
  pub nickname : Option String
  pub password : List ℕ
  pub role : String
  pub group_guid : Option ℤ
  pub plan_type : ℤ
  pub allowed_models : List String
  pub daily_call_limit : ℤ
  pub overrides : List Override

pub record ResetPassword : Type 0 where
  pub target_guid : ℤ
  pub expected_auth_version : ℤ
  pub new_password : List ℕ
  pub reason : String

-- `PromoteIntent` and `PermissionsWriteIntent`, which have the same fields.
pub record PermissionsChange : Type 0 where
  pub target_guid : ℤ
  pub expected_auth_version : ℤ
  pub expected_permissions_version : ℤ
  pub catalog_version : ℤ
  pub overrides : List Override
  pub reason : String

pub record Demote : Type 0 where
  pub target_guid : ℤ
  pub expected_auth_version : ℤ
  pub expected_permissions_version : ℤ
  pub catalog_version : ℤ
  pub reason : String

pub record DeleteUser : Type 0 where
  pub target_guid : ℤ
  pub expected_auth_version : ℤ
  pub reason : String

-- `PublishIntent` and `RollbackIntent`.
pub record ContentChange : Type 0 where
  pub content_type : String
  pub version_guid : ℤ
  pub expected_version : ℤ
  pub reason : String

pub record ModelDelete : Type 0 where
  pub model_guid : ℤ
  pub expected_revision : ℤ
  pub reason : String

-- `PublicPricingRestoreIntent`, `PublicContentPublishIntent` and `PublicContentRestoreIntent`.
pub record Release : Type 0 where
  pub release_guid : ℤ
  pub expected_revision : ℤ

-- What a descriptor's `Encode` is given: `any`.
pub data Intent : Type 0 where
  create_account : CreateAccount → Intent
  reset_password : ResetPassword → Intent
  promote permissions_write : PermissionsChange → Intent
  demote : Demote → Intent
  delete_user : DeleteUser → Intent
  publish rollback : ContentChange → Intent
  model_delete : ModelDelete → Intent
  pricing_publish : ℤ → Intent
  pricing_restore content_publish content_restore : Release → Intent
  other_value : Intent

abbrev pub Fields : Type 0
Fields = List (ℕ × Value)

abbrev pub Checked : Type 0 → Type 0
Checked A = Result IntentError A

abbrev pub is_positive : ℤ → Bool
is_positive z = ltb_ℤ (pos 0) z

abbrev pub is_natural : ℤ → Bool
is_natural z = leb_ℤ (pos 0) z

-- `value > 0 && value <= math.MaxInt32`.
abbrev pub is_version : ℤ → Bool
is_version z = is_positive z && leb_ℤ z (pos 2147483647)

-- `checkedU32Length`.
abbrev pub short : ℕ → Checked (Unit {0})
short n = guard (fits_u32 n) too_large

abbrev pub of_option {ℓ} : {A : Type ℓ} → Option A → Result IntentError A
of_option none = err too_large
of_option (some a) = ok a

abbrev pub is_empty {ℓ} : {A : Type ℓ} → List A → Bool
is_empty [] = true
is_empty (_ ∷ _) = false

-- The loop of `checkedStringArrayPayloadLength` and of `checkedArrayPayloadLength`.
unfoldable pub total_length : ℕ → List ℕ → Option ℕ
unfolding add_item_length
total_length total [] = some total
total_length total (n ∷ ns) = and_then (add_item_length total n) (λ next. total_length next ns)

module _ {ℓ} {A : Type ℓ} (key : A → String) where
  -- `sort.Strings`, and `sort.Slice` by a text: the sorted list.
  unfoldable pub insert : A → List A → List A
  insert a [] = a ∷ []
  insert a (b ∷ bs) =
      let later = b ∷ insert a bs in if lt_text (key b) (key a) then later else a ∷ b ∷ bs

  unfoldable pub sort : List A → List A
  unfolding insert
  sort [] = []
  sort (a ∷ rest) = insert a (sort rest)

abbrev pub same_as : Option String → String → Bool
same_as none t = false
same_as (some s) t = str_eq s t

-- The loop over `unique`: a text equal to the one before it is dropped.
unfoldable pub unique_after : Option String → List String → List String
unique_after last [] = []
unique_after last (m ∷ ms) =
    let kept = m ∷ unique_after (some m) ms in
    let dropped = unique_after last ms in if same_as last m then dropped else kept

unfoldable pub override_fields : Override → Fields
unfolding utf8
override_fields o = (1, text (utf8 o.capability)) ∷ (2, int32 o.effect) ∷ []

-- The loop that encodes the sorted overrides, which refuses a capability that stands twice.
unfoldable pub override_items : Option String → List Override → Checked (List (List ℕ))
unfolding override_fields
override_items last [] = ok []
override_items last (o ∷ os) = if same_as last o.capability then err invalid_intent else (do
  item ← of_option (encode_intent (override_fields o))
  rest ← override_items (some o.capability) os
  ok (item ∷ rest))

abbrev pub is_effect : ℤ → Bool
is_effect z = eq_ℤ z (pos 2) || eq_ℤ z (pos 3)

-- The test of an override against the catalog.
unfoldable pub may_override : Override → Option Definition → Bool
may_override o none = false
may_override o (some d) =
    not d.unavailable
    && is_effect o.effect
    && (not (eq_ℤ o.effect (pos 2)) || d.grantable && not d.root_only)

unfoldable pub all_known : List Override → Bool
unfolding may_override
all_known [] = true
all_known (o ∷ os) = may_override o (lookup o.capability) && all_known os

abbrev pub capability_length : Override → ℕ
capability_length o = length (utf8 o.capability)

unfoldable pub short_capabilities : List Override → Checked (Unit {0})
short_capabilities [] = ok tt
short_capabilities (o ∷ os) = do short (capability_length o); short_capabilities os

-- `encodePermissionOverrides`; its loop checks each length and then the sum, with the same error.
unfoldable pub encode_permission_overrides : List Override → Checked (List (List ℕ))
unfolding all_known sort override_items total_length short_capabilities
encode_permission_overrides source = do
  short (length source)
  short_capabilities source
  total ← of_option (total_length 4 (map (λ o. capability_length o + 16) source))
  guard (all_known source) invalid_intent
  override_items none (sort (λ o. o.capability) source)

-- `normalizeIntentReason`.
unfoldable pub normalize_reason : String → Checked String
unfolding trim_space
normalize_reason raw =
    let normalized = trim_space raw in
    let count = length (codes normalized) in
    if leb 1 count && leb count 200 then ok normalized else err invalid_intent
