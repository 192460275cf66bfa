-- ===== src/Authz/Evaluator.antt =====
-- internal/authz/evaluator.go: accounts, override snapshots and the five decisions. A nil receiver
-- is `none`. The integer-backed enumerations of internal/models are ℤ, since a row may hold any
-- integer. A Go map is a `Dict`, and reading a missing key gives the empty text.
use Prim.Native.Nat.{bit_and}
use porsche.Prelude.{
  String, Bool, true, false, not, ◌&&◌, ◌||◌, Option, none, some, List, [], ◌∷◌, str_eq, ◌==◌,
  if◌then◌else◌, Result, ok, err, ◌>>=◌,
}
use porsche.Prelude.Int.{ℤ, pos, eq_ℤ, ltb_ℤ, leb_ℤ}
use porsche.Prelude.Dict
use porsche.Prelude.Dict.{Dict}
use porsche.Authz.Catalog.{
  Definition, definitions, lookup, user_scope, collection_scope, resource_scope,
}

-- internal/models: the values of UserRole and UserStatus.
abbrev pub role_user : ℤ
role_user = pos 1

abbrev pub role_admin : ℤ
role_admin = pos 10

abbrev pub role_root : ℤ
role_root = pos 100

abbrev pub status_active : ℤ
status_active = pos 1

abbrev pub status_disabled : ℤ
status_disabled = pos 2

-- `type Effect string`.
abbrev pub Effect : Type 0
Effect = String

abbrev pub inherit : Effect
inherit = "inherit"

abbrev pub allow : Effect
allow = "allow"

abbrev pub deny : Effect
deny = "deny"

pub data Decision : Type 0 where
  denied allowed hidden : Decision

pub record Account : Type 0 where
  pub id : ℤ
  pub guid : ℤ
  pub role : ℤ
  pub status : ℤ
  pub is_deleted : ℤ

pub record Override : Type 0 where
  pub capability : String
  pub effect : Effect

pub record Evaluator : Type 0 where
  pub actor : Account
  pub overrides : Dict Effect

pub data AuthError : Type 0 where
  invalid_actor invalid_overrides : AuthError

unfoldable pub known_role : ℤ → Bool
known_role r = eq_ℤ r role_user || eq_ℤ r role_admin || eq_ℤ r role_root

unfoldable pub valid_account : Account → Bool
unfolding known_role
valid_account a =
    ltb_ℤ (pos 0) a.id
    && ltb_ℤ (pos 0) a.guid
    && known_role a.role
    && (eq_ℤ a.status status_active || eq_ℤ a.status status_disabled)
    && (eq_ℤ a.is_deleted (pos 0) || eq_ℤ a.is_deleted (pos 1))

-- A missing name is refused like a definition that no override may touch.
unfoldable pub overridable : Option Definition → Bool
overridable none = false
overridable (some d) = d.grantable && not d.root_only && not d.unavailable

unfoldable pub known_effect : Effect → Bool
known_effect e = str_eq e inherit || str_eq e allow || str_eq e deny

unfoldable pub is_present : Option Effect → Bool
is_present none = false
is_present (some _) = true

-- One round of the loop of `validateOverrides`: its three checks, then the write.
unfoldable pub validate_override : Dict Effect → Override → Result AuthError (Dict Effect)
unfolding overridable known_effect is_present
validate_override copied rule =
    if not (overridable (lookup rule.capability))
    then err invalid_overrides
    else if not (known_effect rule.effect)
    then err invalid_overrides
    else if is_present (Dict.get copied rule.capability)
    then err invalid_overrides
    else ok (Dict.put copied rule.capability rule.effect)

unfoldable pub validate_from : Dict Effect → List Override → Result AuthError (Dict Effect)
validate_from copied [] = ok copied
validate_from copied (rule ∷ rules) = do
  copied' ← validate_override copied rule
  validate_from copied' rules

unfoldable pub validate_overrides : List Override → Result AuthError (Dict Effect)
validate_overrides rules = validate_from [] rules

abbrev is_empty : List Override → Bool
is_empty [] = true
is_empty (_ ∷ _) = false

unfoldable pub new_evaluator : Account → List Override → Result AuthError Evaluator
new_evaluator actor rules =
    if not (valid_account actor)
      || not (eq_ℤ actor.is_deleted (pos 0))
      || not (eq_ℤ actor.status status_active)
    then err invalid_actor
    else if not (is_empty rules) && not (eq_ℤ actor.role role_admin)
    then err invalid_overrides
    else (do copied ← validate_overrides rules; ok (record { actor = actor; overrides = copied }))

unfoldable pub manager : Option Evaluator → Bool
manager none = false
manager (some e) =
    valid_account e.actor
    && eq_ℤ e.actor.is_deleted (pos 0)
    && eq_ℤ e.actor.status status_active
    && (eq_ℤ e.actor.role role_admin || eq_ℤ e.actor.role role_root)

-- `e.overrides[name]`: the zero value of a missing key is the empty text.
unfoldable pub effect_of : Option Effect → Effect
effect_of none = ""
effect_of (some x) = x

-- The `switch` of `capability`, for an admin.
unfoldable pub admin_decision : Definition → Effect → Decision
admin_decision d x =
    if str_eq x deny
    then denied
    else if str_eq x allow
    then (if d.grantable then allowed else denied)
    else if str_eq x inherit || str_eq x ""
    then (if d.admin_default then allowed else denied)
    else denied

-- What `capability` does with the definition that it looked up.
unfoldable pub defined_capability : Evaluator → String → Option Definition → Decision
unfolding admin_decision effect_of
defined_capability e name none = denied
defined_capability e name (some d) =
    if d.unavailable
    then denied
    else if eq_ℤ e.actor.role role_root
    then allowed
    else if d.root_only
    then denied
    else admin_decision d (effect_of (Dict.get e.overrides name))

unfoldable pub capability : Option Evaluator → String → Decision
unfolding defined_capability
capability none name = denied
capability (some e) name =
    if not (manager (some e)) then denied else defined_capability e name (lookup name)

unfoldable pub is_allowed : Decision → Bool
is_allowed allowed = true
is_allowed denied = false
is_allowed hidden = false

-- The target is no account that the actor may see at all.
unfoldable pub out_of_reach : Account → Account → Bool
out_of_reach actor target =
    not (valid_account target)
    || eq_ℤ target.id actor.id
    || eq_ℤ target.guid actor.guid
    || eq_ℤ target.role role_root
    || leb_ℤ actor.role target.role

unfoldable pub reads_tombstone : String → Bool
reads_tombstone name =
    str_eq name "users.read" || str_eq name "users.deleted.read" || str_eq name "users.audit.read"

-- The two role checks at the end of `User`, then the capability.
unfoldable pub role_checked : Evaluator → String → Account → Decision
role_checked e name target =
    if str_eq name "users.promote" && not (eq_ℤ target.role role_user)
    then denied
    else if (str_eq name "users.demote" || str_eq name "users.permissions.write")
        && not (eq_ℤ target.role role_admin)
    then denied
    else capability (some e) name

-- The tombstone rules of `User`.
unfoldable pub tombstone_checked : Evaluator → String → Account → Decision
unfolding role_checked is_allowed reads_tombstone
tombstone_checked e name target =
    if not (eq_ℤ target.is_deleted (pos 0))
    then (if not (is_allowed (capability (some e) "users.deleted.read"))
        then hidden
        else if not (reads_tombstone name)
        then denied
        else role_checked e name target)
    else if str_eq name "users.deleted.read"
    then hidden
    else role_checked e name target

-- The scope check of `User`, `Collection` and `Resource`.
unfoldable pub in_scope : Definition → Bool
in_scope d = not (bit_and d.scopes user_scope == 0)

unfoldable pub user_defined : Evaluator → String → Account → Option Definition → Decision
unfolding in_scope out_of_reach tombstone_checked
user_defined e name target none = denied
user_defined e name target (some d) =
    if not (in_scope d) || d.unavailable
    then denied
    else if out_of_reach e.actor target
    then hidden
    else tombstone_checked e name target

unfoldable pub user : Option Evaluator → String → Account → Decision
unfolding user_defined
user none name target = denied
user (some e) name target =
    if not (manager (some e)) then denied else user_defined e name target (lookup name)

unfoldable pub create : Option Evaluator → ℤ → Decision
create none role = denied
create (some e) role =
    if not (manager (some e))
      || (not (eq_ℤ role role_user) && not (eq_ℤ role role_admin))
      || leb_ℤ e.actor.role role
    then denied
    else capability (some e) "users.create"

unfoldable pub collection : Option Evaluator → String → Bool → Decision
unfolding is_allowed
collection e name include_deleted = elim (lookup name) [
  | none ↦ denied
  | some d ↦
      if bit_and d.scopes collection_scope == 0
      then denied
      else if include_deleted && not (is_allowed (capability e "users.deleted.read"))
      then denied
      else capability e name
]

unfoldable pub resource : Option Evaluator → String → Decision
resource e name = elim (lookup name) [
  | none ↦ denied
  | some d ↦ if bit_and d.scopes resource_scope == 0 then denied else capability e name
]

unfoldable pub names_from : Option Evaluator → List Definition → List String
unfolding is_allowed
names_from e [] = []
names_from e (d ∷ ds) =
    let rest = names_from e ds in if is_allowed (capability e d.name) then d.name ∷ rest else rest

unfoldable pub capability_names : Option Evaluator → List String
unfolding names_from definitions
capability_names e = names_from e definitions
