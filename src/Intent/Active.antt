-- ===== src/Intent/Active.antt =====
-- The active actions against the catalog of capabilities.
use porsche.Prelude.{
  ◌≡◌, ◌≢◌, arith, refl, ◌⊎◌, inl, inr, true, false, not, ◌||◌, Option, none, some,
}
use porsche.Authz.Catalog.{Definition, lookup}
use porsche.Intent.Actions.{
  Action, users_create_admin, users_reset_password, users_promote, users_demote,
  users_permissions_write, users_delete, public_content_publish, public_content_rollback,
  users_create, public_model_delete, public_pricing_publish, public_pricing_restore,
  public_content_restore, undefined, Descriptor, canonical_descriptor, resolve_active,
}

-- The capability is defined and available, and one that is reserved to root makes the action so.
pub record IsGoverned (d : Descriptor) : Type 0 where
  pub definition : Definition
  pub defined : lookup d.capability ≡ some definition
  pub available : definition.unavailable ≡ false
  pub reserved : (not definition.root_only || d.root_only) ≡ true

abbrev pub IsActive : Action → Option Descriptor → Type 0
IsActive a none = (a ≡ public_content_rollback) ⊎ (a ≡ undefined)
IsActive a (some d) =
    (canonical_descriptor a ≡ some (record d { active = false }))
    × (a ≢ public_content_rollback)
    × (a ≢ undefined)
    × (d.active ≡ true)
    × (d.action ≡ a)
    × IsGoverned d

-- An action that resolves, resolves to its canonical descriptor, made active, whose capability the
-- catalog defines as available, reserved to root only if the action is; and it does not resolve
-- exactly if it is the rollback of content or no action at all.
pub resolve_active-IsActive : (a : Action) → IsActive a (resolve_active a)
unfolding resolve_active canonical_descriptor lookup
resolve_active-IsActive users_create_admin = (
  refl,
  (λ p. ground arith),
  (λ p. ground arith),
  refl,
  refl,
  record { definition = _; defined = refl; available = refl; reserved = refl },
)
resolve_active-IsActive users_reset_password = (
  refl,
  (λ p. ground arith),
  (λ p. ground arith),
  refl,
  refl,
  record { definition = _; defined = refl; available = refl; reserved = refl },
)
resolve_active-IsActive users_promote = (
  refl,
  (λ p. ground arith),
  (λ p. ground arith),
  refl,
  refl,
  record { definition = _; defined = refl; available = refl; reserved = refl },
)
resolve_active-IsActive users_demote = (
  refl,
  (λ p. ground arith),
  (λ p. ground arith),
  refl,
  refl,
  record { definition = _; defined = refl; available = refl; reserved = refl },
)
resolve_active-IsActive users_permissions_write = (
  refl,
  (λ p. ground arith),
  (λ p. ground arith),
  refl,
  refl,
  record { definition = _; defined = refl; available = refl; reserved = refl },
)
resolve_active-IsActive users_delete = (
  refl,
  (λ p. ground arith),
  (λ p. ground arith),
  refl,
  refl,
  record { definition = _; defined = refl; available = refl; reserved = refl },
)
resolve_active-IsActive public_content_publish = (
  refl,
  (λ p. ground arith),
  (λ p. ground arith),
  refl,
  refl,
  record { definition = _; defined = refl; available = refl; reserved = refl },
)
resolve_active-IsActive users_create = (
  refl,
  (λ p. ground arith),
  (λ p. ground arith),
  refl,
  refl,
  record { definition = _; defined = refl; available = refl; reserved = refl },
)
resolve_active-IsActive public_model_delete = (
  refl,
  (λ p. ground arith),
  (λ p. ground arith),
  refl,
  refl,
  record { definition = _; defined = refl; available = refl; reserved = refl },
)
resolve_active-IsActive public_pricing_publish = (
  refl,
  (λ p. ground arith),
  (λ p. ground arith),
  refl,
  refl,
  record { definition = _; defined = refl; available = refl; reserved = refl },
)
resolve_active-IsActive public_pricing_restore = (
  refl,
  (λ p. ground arith),
  (λ p. ground arith),
  refl,
  refl,
  record { definition = _; defined = refl; available = refl; reserved = refl },
)
resolve_active-IsActive public_content_restore = (
  refl,
  (λ p. ground arith),
  (λ p. ground arith),
  refl,
  refl,
  record { definition = _; defined = refl; available = refl; reserved = refl },
)
resolve_active-IsActive public_content_rollback = inl refl
resolve_active-IsActive undefined = inr refl
