-- ===== src/Operation/Access.antt =====
-- internal/service/action_operation.go: who may begin an operation. The session of the actor, the
-- verification of a ticket, and the decision of internal/authz on the action's descriptor.
use porsche.Prelude.{
  ℕ, String, Bool, true, false, not, ◌&&◌, ◌||◌, Option, none, some, List, [], ◌∷◌, str_eq, ◌==◌,
  if◌then◌else◌, Result, ok, err, ◌>>=◌, ◌>>◌, guard,
}
use porsche.Prelude.Int.{ℤ, pos, leb_ℤ, ltb_ℤ, eq_ℤ}
use porsche.Prelude.Table.{find_row}
use porsche.Generation.Identity.{codes, utf8_length}
use porsche.Authz.Evaluator
use porsche.Authz.Evaluator.{
  Account, Decision, denied, allowed, hidden, new_evaluator, role_admin, role_root, role_user,
  status_active,
}
use porsche.Intent.Forms.{
  Intent, reset_password, promote, demote, permissions_write, delete_user, publish, rollback,
}
use porsche.Intent.Actions.{
  Action, Descriptor, TargetKind, no_target, user_target, public_content_target, users_create,
  users_create_admin, number, canonical_descriptor,
}
use porsche.Operation.{
  OperationError, forbidden, unseen, unavailable, Checked, Verification, User, Session, Actor,
  is_positive, valid_claims, is_role_permission,
}

-- What a transaction reads beside the operations and the verifications; `rules` are an actor's
-- permission overrides, none where they cannot be read.
pub record Directory : Type 0 where
  pub users : List User
  pub sessions : List Session
  pub rules : ℤ → Option (List Evaluator.Override)

abbrev pub lookup_user : (User → Bool) → List User → Option User
lookup_user test [] = none
lookup_user test (u ∷ us) = let rest = lookup_user test us in if test u then some u else rest

abbrev has_text : Option String → Bool
has_text none = false
has_text (some t) = not (str_eq t "")

-- `validActionActor`.
unfoldable pub valid_actor : User → Bool
valid_actor u =
    is_positive u.id
    && is_positive u.guid
    && is_positive u.auth_version
    && eq_ℤ u.is_deleted (pos 0)
    && eq_ℤ u.status status_active
    && (eq_ℤ u.role role_admin || eq_ℤ u.role role_root)
    && has_text u.password_hash

abbrev is_none {ℓ} : {A : Type ℓ} → Option A → Bool
is_none none = true
is_none (some _) = false

-- The candidates of the query whose SID is the actor's.
unfoldable pub matches : List Session → ℤ → String → ℤ → List Session
matches [] user sid now = []
matches (s ∷ more) user sid now =
    let rest = matches more user sid now in
    if eq_ℤ s.user_id user
      && eq_ℤ s.is_deleted (pos 0)
      && is_none s.revoked_at
      && ltb_ℤ now s.expires_at
      && str_eq s.sid sid
    then s ∷ rest
    else rest

abbrev pub sole_session : Actor → List Session → Checked Session
sole_session a (s ∷ []) =
    if is_positive s.id && eq_ℤ s.session_version a.session_version then ok s else err forbidden
sole_session a _ = err forbidden

abbrev pub or_forbidden {ℓ} : {A : Type ℓ} → Option A → Result OperationError A
or_forbidden none = err forbidden
or_forbidden (some a) = ok a

-- `lockOperationActorSession`.
unfoldable pub lock_actor : Directory → Actor → ℤ → Checked (User × Session)
unfolding valid_claims valid_actor matches
lock_actor dir a now = do
  guard (valid_claims a && is_positive now) forbidden
  stored ← or_forbidden (lookup_user (λ u. eq_ℤ u.id a.user_id) dir.users)
  guard
      (valid_actor stored
        && eq_ℤ stored.guid a.user_guid
        && eq_ℤ stored.auth_version a.auth_version)
      forbidden
  session ← sole_session a (matches dir.sessions stored.id a.session_sid now)
  ok (stored, session)

-- `sameOptionalInt64`.
abbrev pub same_optional : Option ℤ → Option ℤ → Bool
same_optional none none = true
same_optional (some a) (some b) = eq_ℤ a b
same_optional _ _ = false

abbrev pub kind_number : TargetKind → ℕ
kind_number no_target = 1
kind_number user_target = 2
kind_number public_content_target = 3

-- `validOperationVerificationBinding`; a row that was found has a positive id.
unfoldable pub valid_binding : Verification → User → Session → Descriptor → String → Option ℤ → Bool
unfolding number
valid_binding v actor session d request target =
    eq_ℤ v.actor_user_id actor.id
    && eq_ℤ v.actor_auth_version actor.auth_version
    && eq_ℤ v.session_id session.id
    && v.action == number d.action
    && v.target_kind == kind_number d.target_kind
    && same_optional v.target_guid target
    && str_eq v.intent_hmac request

abbrev pub same_id : Option ℕ → ℕ → Bool
same_id none i = false
same_id (some j) i = j == i

-- `lockOperationBeginVerification`: the verification of the ticket, and its id; none for an action
-- without tickets.
unfoldable pub lock_begin_verification :
    List Verification
    → Descriptor
    → String
    → User
    → Session
    → String
    → Option ℤ
    → Option ℕ
    → Bool
    → Checked (Option (ℕ × Verification))
unfolding find_row valid_binding
lock_begin_verification vs d ticket actor session request target expected existing =
    if not d.requires_ticket
    then (if not (str_eq ticket "") || not (is_none expected) then err forbidden else ok none)
    else (do
      guard (utf8_length (codes ticket) == 64) forbidden
      found ← or_forbidden (find_row (λ v. str_eq v.ticket_hmac ticket) vs)
      guard
          (not (existing && not (same_id expected found.0))
            && valid_binding found.1 actor session d request target)
          forbidden
      ok (some found))

-- `actionAccount`.
abbrev pub account : User → Account
account u = record {
  id = u.id;
  guid = u.guid;
  role = u.role;
  status = u.status;
  is_deleted = u.is_deleted;
}

abbrev is_create : Action → Bool
is_create users_create = true
is_create _ = false

abbrev is_create_admin : Action → Bool
is_create_admin users_create_admin = true
is_create_admin _ = false

abbrev pub has_no_target : TargetKind → Bool
has_no_target no_target = true
has_no_target _ = false

-- `validRolePermissionDescriptor`, of a descriptor that the registry resolved.
unfoldable pub valid_role_permission : Descriptor → Bool
unfolding canonical_descriptor
valid_role_permission d = is_role_permission d.action && elim (canonical_descriptor d.action) [
  | none ↦ false
  | some e ↦
      str_eq d.name e.name
      && str_eq d.capability e.capability
      && d.active
      && d.root_only
      && e.root_only
      && d.requires_ticket
      && e.requires_ticket
      && kind_number d.target_kind == 2
      && kind_number e.target_kind == 2
]

abbrev user_decision : Evaluator.Evaluator → Descriptor → Account → Decision
user_decision e d target =
    if is_role_permission d.action
    then (if valid_role_permission d then Evaluator.user (some e) "users.read" target else denied)
    else Evaluator.user (some e) d.capability target

abbrev kind_decision : TargetKind → Evaluator.Evaluator → Descriptor → Account → Decision
kind_decision no_target e d target = Evaluator.resource (some e) d.capability
kind_decision user_target e d target = user_decision e d target
kind_decision public_content_target e d target = denied

-- `operationDescriptorAuthorizationDecision`.
unfoldable pub descriptor_decision : Evaluator.Evaluator → Descriptor → Account → Decision
unfolding valid_role_permission
descriptor_decision e d target =
    if is_create d.action
      || is_create_admin d.action
      || str_eq d.name "users.create"
      || str_eq d.name "users.create_admin"
      || str_eq d.capability "users.create"
    then (if is_create d.action
          && str_eq d.name "users.create"
          && str_eq d.capability "users.create"
          && has_no_target d.target_kind
          && not d.root_only
          && not d.requires_ticket
        then Evaluator.create (some e) role_user
        else if is_create_admin d.action
            && str_eq d.name "users.create_admin"
            && str_eq d.capability "users.create"
            && has_no_target d.target_kind
            && d.root_only
            && d.requires_ticket
        then Evaluator.create (some e) role_admin
        else denied)
    else kind_decision d.target_kind e d target

-- The account that `target` stays where no row is read.
abbrev no_account : Account
no_account = record { id = pos 0; guid = pos 0; role = pos 0; status = pos 0; is_deleted = pos 0 }

abbrev target_account : Directory → TargetKind → Option ℤ → Checked Account
target_account dir no_target none = ok no_account
target_account dir no_target (some _) = err unseen
target_account dir user_target none = err unseen
target_account dir user_target (some guid) =
    if not (is_positive guid)
    then err unseen
    else elim (lookup_user (λ u. eq_ℤ u.guid guid && eq_ℤ u.is_deleted (pos 0)) dir.users) [
      | none ↦ err unseen
      | some u ↦ ok (account u)
    ]
target_account dir public_content_target target = err unavailable

abbrev of_decision : Decision → Checked (Unit {0})
of_decision allowed = ok tt
of_decision hidden = err unseen
of_decision denied = err forbidden

-- `authorizeOperationDescriptor`.
unfoldable pub authorize_descriptor : Directory → User → Descriptor → Option ℤ → Checked (Unit {0})
unfolding descriptor_decision new_evaluator
authorize_descriptor dir actor d target =
    if d.root_only && not (eq_ℤ actor.role role_root) then err forbidden else (do
      target' ← target_account dir d.target_kind target
      elim (dir.rules actor.id) [
        | none ↦ err unavailable
        | some rules ↦ elim (new_evaluator (account actor) rules) [
          | err e ↦ err unavailable
          | ok e ↦ of_decision (descriptor_decision e d target')
        ]
      ])

abbrev positive_target : ℤ → Checked (Option ℤ)
positive_target guid = if leb_ℤ guid (pos 0) then err forbidden else ok (some guid)

abbrev targeted : Intent → Checked (Option ℤ)
targeted (reset_password i) = positive_target i.target_guid
targeted (promote i) = positive_target i.target_guid
targeted (demote i) = positive_target i.target_guid
targeted (permissions_write i) = positive_target i.target_guid
targeted (delete_user i) = positive_target i.target_guid
targeted (publish i) = positive_target i.version_guid
targeted (rollback i) = positive_target i.version_guid
targeted _ = err forbidden

-- `operationIntentTargetGUID`.
unfoldable pub intent_target : Descriptor → Intent → Checked (Option ℤ)
intent_target d intent = if has_no_target d.target_kind then ok none else targeted intent
