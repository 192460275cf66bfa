-- ===== src/Intent/Ranges.antt =====
-- The integers of the fields of an intent of internal/actionsecurity are of their widths.
use porsche.Prelude.{ℕ, ◌≡◌, Bool, ok, All, arith}
use porsche.Prelude.Int.{ℤ}
use porsche.Intent.Injective.{InRange}
use porsche.Intent.Forms.{
  ResetPassword, Demote, DeleteUser, ContentChange, ModelDelete, Release, Fields, is_positive,
  is_natural, normalize_reason, Intent, create_account, reset_password, promote, permissions_write,
  demote, delete_user, publish, rollback, model_delete, pricing_publish, pricing_restore,
  content_publish, content_restore,
}
use porsche.Intent.Encoders.{
  reset_password_fields, promote_fields, permissions_write_fields, demote_fields,
  delete_user_fields, content_change_fields, model_delete_fields, pricing_publish_fields,
  release_fields,
}
use porsche.Intent.Binding.{version_width}
use porsche.Intent.Canonical.{
  IsInt64, IsTyped, permissions_change_fields-InRange, create_account_fields-InRange,
}
use porsche.Intent.Actions.{
  Action, users_create_admin, users_reset_password, users_promote, users_demote,
  users_permissions_write, users_delete, public_content_publish, public_content_rollback,
  users_create, public_model_delete, public_pricing_publish, public_pricing_restore,
  public_content_restore, fields_for,
}

delete_user_fields-InRange :
    (i : DeleteUser) (fs : Fields)
    → delete_user_fields i ≡ ok fs
    → IsInt64 i.target_guid
    → All (λ f. InRange f.1) fs
unfolding delete_user_fields normalize_reason
delete_user_fields-InRange i fs p w = ground (arith, version_width i.expected_auth_version)

demote_fields-InRange :
    (i : Demote) (fs : Fields)
    → demote_fields i ≡ ok fs
    → IsInt64 i.target_guid × IsInt64 i.expected_permissions_version
    → All (λ f. InRange f.1) fs
unfolding demote_fields normalize_reason
demote_fields-InRange i fs p w =
    ground (arith, version_width i.expected_auth_version, version_width i.catalog_version)

reset_password_fields-InRange :
    (i : ResetPassword) (fs : Fields)
    → reset_password_fields i ≡ ok fs
    → IsInt64 i.target_guid
    → All (λ f. InRange f.1) fs
unfolding reset_password_fields
reset_password_fields-InRange i fs p w = ground (arith, version_width i.expected_auth_version)

content_change_fields-InRange :
    (i : ContentChange) (fs : Fields)
    → content_change_fields i ≡ ok fs
    → IsInt64 i.version_guid × IsInt64 i.expected_version
    → All (λ f. InRange f.1) fs
unfolding content_change_fields
content_change_fields-InRange i fs p w = ground (arith)

release_fields-InRange :
    (i : Release) (fs : Fields)
    → release_fields i ≡ ok fs
    → IsInt64 i.release_guid × IsInt64 i.expected_revision
    → All (λ f. InRange f.1) fs
unfolding release_fields
release_fields-InRange i fs p w = ground (arith)

model_delete_fields-InRange :
    (t : ℕ → Bool) (i : ModelDelete) (fs : Fields)
    → model_delete_fields t i ≡ ok fs
    → IsInt64 i.model_guid × IsInt64 i.expected_revision
    → All (λ f. InRange f.1) fs
unfolding model_delete_fields
model_delete_fields-InRange t i fs p w = ground arith

pricing_publish_fields-InRange :
    (r : ℤ) (fs : Fields) → pricing_publish_fields r ≡ ok fs → IsInt64 r → All (λ f. InRange f.1) fs
unfolding pricing_publish_fields
pricing_publish_fields-InRange r fs p w = ground arith

pub fields_for-InRange :
    (t : ℕ → Bool) (a : Action) (x : Intent) (fs : Fields)
    → fields_for t a x ≡ ok fs
    → IsTyped x
    → All (λ f. InRange f.1) fs
unfolding fields_for promote_fields permissions_write_fields
fields_for-InRange t users_create_admin (create_account i) fs p w =
    create_account_fields-InRange "admin" i fs p w
fields_for-InRange t users_create (create_account i) fs p w =
    create_account_fields-InRange "user" i fs p w
fields_for-InRange t users_reset_password (reset_password i) fs p w =
    reset_password_fields-InRange i fs p w
fields_for-InRange t users_promote (promote i) fs p w =
    permissions_change_fields-InRange is_natural i fs p w.0 w.1
fields_for-InRange t users_demote (demote i) fs p w = demote_fields-InRange i fs p w
fields_for-InRange t users_permissions_write (permissions_write i) fs p w =
    permissions_change_fields-InRange is_positive i fs p w.0 w.1
fields_for-InRange t users_delete (delete_user i) fs p w = delete_user_fields-InRange i fs p w
fields_for-InRange t public_content_publish (content_publish i) fs p w =
    release_fields-InRange i fs p w
fields_for-InRange t public_content_publish (publish i) fs p w =
    content_change_fields-InRange i fs p w
fields_for-InRange t public_content_rollback (rollback i) fs p w =
    content_change_fields-InRange i fs p w
fields_for-InRange t public_model_delete (model_delete i) fs p w =
    model_delete_fields-InRange t i fs p w
fields_for-InRange t public_pricing_publish (pricing_publish i) fs p w =
    pricing_publish_fields-InRange i fs p w
fields_for-InRange t public_pricing_restore (pricing_restore i) fs p w =
    release_fields-InRange i fs p w
fields_for-InRange t public_content_restore (content_restore i) fs p w =
    release_fields-InRange i fs p w
fields_for-InRange t a x fs p w = absurd (ground arith)
