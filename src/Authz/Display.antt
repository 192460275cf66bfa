-- ===== src/Authz/Display.antt =====
-- internal/authz/admin_display.go: the capability table that is shown for an admin account.
pub mod Agreement
use porsche.Prelude.{
  String, Bool, true, false, not, ◌&&◌, ◌||◌, List, [], ◌∷◌, str_eq, if◌then◌else◌, Result, ok, err,
  ◌>>=◌,
}
use porsche.Prelude.Int.{pos, eq_ℤ}
use porsche.Prelude.Dict
use porsche.Prelude.Dict.{Dict}
use porsche.Authz.Catalog.{Definition, definitions}
use porsche.Authz.Evaluator.{
  Effect, inherit, allow, deny, Account, Override, AuthError, invalid_actor, valid_account,
  validate_overrides, effect_of, role_admin, status_active,
}

pub record AdminDisplayCapability : Type 0 where
  pub name : String
  pub baseline : Bool
  pub override : Effect
  pub policy_effective : Bool
  pub effective : Bool

-- `if effect == "" { effect = Inherit }`.
unfoldable pub shown_effect : Effect → Effect
shown_effect x = if str_eq x "" then inherit else x

unfoldable pub policy_of : Definition → Effect → Bool
policy_of d x =
    let policy =
      if str_eq x deny then false else if str_eq x allow then d.grantable else d.admin_default in
    if d.root_only || d.unavailable then false else policy

unfoldable pub display_capability : Account → Dict Effect → Definition → AdminDisplayCapability
unfolding shown_effect policy_of effect_of
display_capability target overrides d =
    let effect = shown_effect (effect_of (Dict.get overrides d.name)) in
    let policy = policy_of d effect in
    record {
      name = d.name;
      baseline = d.admin_default;
      override = effect;
      policy_effective = policy;
      effective = eq_ℤ target.status status_active && policy;
    }

unfoldable pub display_from : Account → Dict Effect → List Definition → List AdminDisplayCapability
unfolding display_capability
display_from target overrides [] = []
display_from target overrides (d ∷ ds) =
    display_capability target overrides d ∷ display_from target overrides ds

unfoldable pub project_admin_policy :
    Account → List Override → Result AuthError (List AdminDisplayCapability)
unfolding display_from
project_admin_policy target rules =
    if not (valid_account target)
      || not (eq_ℤ target.is_deleted (pos 0))
      || not (eq_ℤ target.role role_admin)
    then err invalid_actor
    else (do overrides ← validate_overrides rules; ok (display_from target overrides definitions))
