-- ===== src/Authz/Samples.antt =====
-- An admin with two overrides, a user and a root: the theorems of Authz at concrete accounts, and
-- decisions by evaluation.
use Prim.Native.Nat.{bit_and}
use porsche.Prelude.{ℕ, ◌≡◌, refl, ◌≢◌, ◌⊎◌, ◌↔◌, true, false, some, List, [], ◌∷◌, All, In, ok}
use porsche.Prelude.Int.{ℤ, pos}
use porsche.Prelude.Dict
use porsche.Prelude.Dict.{Dict}
use porsche.Authz.Catalog.{Definition, definitions, lookup, collection_scope}
use porsche.Authz.Evaluator.{
  Effect, Account, Override, Evaluator, allowed, denied, hidden, valid_account, manager, capability,
  user, create, collection, capability_names, new_evaluator, validate_override, validate_from,
  validate_overrides, in_scope, effect_of, role_user, role_admin, role_root, status_active,
}
use porsche.Authz.Construction.{
  IsRule, NoRepeat, override_for, validate_overrides_iff, get-validate_overrides, new_evaluator-ok,
}
use porsche.Authz.Privilege.{MayManage, user-MayManage}
use porsche.Authz.Scopes.{create_iff, collection_iff}
use porsche.Authz.Capability.{Grants, capability_root, capability_admin, capability_names_iff}
use porsche.Authz.Display.{AdminDisplayCapability, display_from, project_admin_policy}
use porsche.Authz.Display.Agreement.{Shows, project_admin_policy-capability}

abbrev account : ℕ → ℤ → Account
account n role = record {
  id = pos n;
  guid = pos (n);
  role = role;
  status = status_active;
  is_deleted = pos 0;
}

abbrev admin_rules : List Override
admin_rules =
    record { capability = "users.delete"; effect = "allow" }
    ∷ record { capability = "users.edit"; effect = "deny" }
    ∷ []

abbrev admin_overrides : Dict Effect
admin_overrides = ("users.delete", "allow") ∷ ("users.edit", "deny") ∷ []

abbrev admin : Evaluator
admin = record { actor = account 7 role_admin; overrides = admin_overrides }

abbrev root : Evaluator
root = record { actor = account 1 role_root; overrides = [] }

stored : validate_overrides admin_rules ≡ ok admin_overrides
unfolding validate_overrides validate_from Dict.put Dict.get validate_override lookup
stored = refl

built : new_evaluator (account 7 role_admin) admin_rules ≡ ok admin
unfolding new_evaluator valid_account validate_overrides validate_from Dict.put Dict.get
    validate_override lookup
built = refl

admin_manages : manager (some admin) ≡ true
unfolding manager valid_account
admin_manages = refl

root_manages : manager (some root) ≡ true
unfolding manager valid_account
root_manages = refl

-- An allow lets the admin delete a user; a deny takes the default away; a peer stays hidden.
decisions :
    (user (some admin) "users.delete" (account 9 role_user) ≡ allowed)
    × (user (some admin) "users.edit" (account 9 role_user) ≡ denied)
    × (user (some admin) "users.delete" (account 9 role_admin) ≡ hidden)
    × (user (some root) "users.demote" (account 9 role_admin) ≡ allowed)
    × (user (some root) "users.demote" (account 9 role_user) ≡ denied)
unfolding user manager valid_account lookup capability Dict.get
decisions = (refl, refl, refl, refl, refl)

user-MayManage_example : (user (some admin) "users.delete" (account 9 role_user) ≡ allowed) ↔ (
    ((d : Definition) × (lookup "users.delete" ≡ some d) × (in_scope d ≡ true))
    × MayManage admin "users.delete" (account 9 role_user))
user-MayManage_example = user-MayManage admin "users.delete" (account 9 role_user)

capability_root_example :
    (capability (some root) "groups.write" ≡ allowed)
    ↔ ((d : Definition) × (lookup "groups.write" ≡ some d) × (d.unavailable ≡ false))
capability_root_example = capability_root root "groups.write" root_manages refl

capability_admin_example : (capability (some admin) "users.edit" ≡ allowed) ↔ (
    (d : Definition) × (lookup "users.edit" ≡ some d)
    × (d.unavailable ≡ false)
    × (d.root_only ≡ false)
    × Grants d (effect_of (Dict.get admin_overrides "users.edit")))
capability_admin_example = capability_admin admin "users.edit" admin_manages refl

capability_names_iff_example :
    In "users.delete" (capability_names (some admin))
    ↔ (capability (some admin) "users.delete" ≡ allowed)
capability_names_iff_example = capability_names_iff (some admin) "users.delete"

validate_overrides_iff_example :
    ((m : Dict Effect) × (validate_overrides admin_rules ≡ ok m))
    ↔ (All IsRule admin_rules × NoRepeat admin_rules)
validate_overrides_iff_example = validate_overrides_iff admin_rules

get-validate_overrides_example :
    Dict.get admin_overrides "users.edit" ≡ override_for admin_rules "users.edit"
get-validate_overrides_example =
    get-validate_overrides admin_rules admin_overrides "users.edit" stored

new_evaluator-ok_example :
    (admin.actor ≡ account 7 role_admin)
    × (validate_overrides admin_rules ≡ ok admin_overrides)
    × (valid_account (account 7 role_admin) ≡ true)
    × ((account 7 role_admin).is_deleted ≡ pos 0)
    × ((account 7 role_admin).status ≡ status_active)
    × ((admin_rules ≡ []) ⊎ ((account 7 role_admin).role ≡ role_admin))
new_evaluator-ok_example = new_evaluator-ok (account 7 role_admin) admin_rules admin built

abbrev table : List AdminDisplayCapability
table = display_from (account 7 role_admin) admin_overrides definitions

shown : project_admin_policy (account 7 role_admin) admin_rules ≡ ok table
unfolding project_admin_policy valid_account
shown = rw stored refl

project_admin_policy-capability_example : All (Shows admin) table
project_admin_policy-capability_example =
    project_admin_policy-capability (account 7 role_admin) admin_rules admin table built shown

create_iff_example : (create (some root) role_admin ≡ allowed) ↔ (
    ((role_admin ≡ role_user) ⊎ ((role_admin ≡ role_admin) × (role_root ≡ role_root)))
    × (capability (some root) "users.create" ≡ allowed))
create_iff_example = create_iff root role_admin

collection_iff_example : (collection (some admin) "users.read" true ≡ allowed) ↔ (
    ((d : Definition) × (lookup "users.read" ≡ some d) × (bit_and d.scopes collection_scope ≢ 0))
    × (capability (some admin) "users.read" ≡ allowed)
    × (true ≡ true → capability (some admin) "users.deleted.read" ≡ allowed))
collection_iff_example = collection_iff (some admin) "users.read" true
