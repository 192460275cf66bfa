-- ===== src/Operation.antt =====
-- internal/service/action_operation.go: the operations of administrators, each begun once under an
-- idempotency key. This file has the rows of internal/models/admin_operation.go and models.go that
-- the service reads, and its tests on them; the integer-backed enumerations that only compare are ℤ.
pub mod Access
pub mod Begin
pub mod Requests
pub mod History
mod Touches
mod Once
mod Samples
use porsche.Prelude.{
  ℕ, ◌+◌, ◌-◌, ◌*◌, ◌/◌, suc, String, Bool, true, false, not, ◌&&◌, ◌||◌, Option, none, some, List,
  [], ◌∷◌, str_eq, ltb, leb, ◌==◌, if◌then◌else◌, Result, ok, err,
}
use porsche.Prelude.Int.{ℤ, pos, negsuc, leb_ℤ, ltb_ℤ, eq_ℤ, pos_part, neg_part}
use porsche.Generation.Identity.{codes, utf8_length}
use porsche.Intent.Actions.{
  Action, Descriptor, users_reset_password, users_promote, users_demote, users_permissions_write,
  number,
}

pub data OperationError : Type 0 where
  inactive forbidden unseen conflict cross_session gone unavailable : OperationError

abbrev pub Checked : Type 0 → Type 0
Checked A = Result OperationError A

-- `models.AdminOperationState`; `unknown` are the integers of no constant.
pub data OperationState : Type 0 where
  processing succeeded failed pending_recovery expired unknown : OperationState

abbrev pub same_state : OperationState → OperationState → Bool
same_state processing processing = true
same_state succeeded succeeded = true
same_state failed failed = true
same_state pending_recovery pending_recovery = true
same_state expired expired = true
same_state unknown unknown = true
same_state _ _ = false

-- `CanTransitionTo`.
unfoldable pub can_transition : OperationState → OperationState → Bool
can_transition processing next =
    same_state next succeeded || same_state next failed || same_state next pending_recovery
can_transition succeeded next = same_state next expired
can_transition failed next = same_state next expired
can_transition pending_recovery next = same_state next expired
can_transition _ next = false

-- `models.AdminOperation`; its id is its place in the table.
pub record Operation : Type 0 where
  pub guid : ℤ
  pub created_at : ℤ
  pub updated_at : ℤ
  pub updated_by : Option ℤ
  pub is_deleted : ℤ
  pub actor_user_id : ℤ
  pub actor_auth_version : ℤ
  pub session_id : ℤ
  pub action : ℕ
  pub idempotency_key_hmac : String
  pub request_hmac : String
  pub verification_id : Option ℕ
  pub state : OperationState
  pub public_ref : String
  pub lease_owner_hmac : Option String
  pub lease_expires_at : Option ℤ
  pub finished_at : Option ℤ
  pub query_expires_at : ℤ
  pub error_code : Option ℤ
  pub result_kind : Option ℤ
  pub result_guid : Option ℤ
  pub result_auth_version : Option ℤ
  pub result_permissions_version : Option ℤ
  pub result_role : Option ℤ
  pub result_http_status : Option ℤ

-- `models.AdminActionVerification`; its id is its place in the table.
pub record Verification : Type 0 where
  pub is_deleted : ℤ
  pub actor_user_id : ℤ
  pub actor_auth_version : ℤ
  pub session_id : ℤ
  pub action : ℕ
  pub target_kind : ℕ
  pub target_guid : Option ℤ
  pub intent_hmac : String
  pub ticket_hmac : String
  pub expires_at : ℤ
  pub consumed_at : Option ℤ

pub record User : Type 0 where
  pub id : ℤ
  pub guid : ℤ
  pub role : ℤ
  pub status : ℤ
  pub is_deleted : ℤ
  pub auth_version : ℤ
  pub password_hash : Option String

pub record Session : Type 0 where
  pub id : ℤ
  pub sid : String
  pub user_id : ℤ
  pub session_version : ℤ
  pub is_deleted : ℤ
  pub revoked_at : Option ℤ
  pub expires_at : ℤ

-- `ActionActor`: what a session's token claims.
pub record Actor : Type 0 where
  pub user_id : ℤ
  pub user_guid : ℤ
  pub auth_version : ℤ
  pub session_sid : String
  pub session_version : ℤ

abbrev pub lease_millis : ℕ
lease_millis = 30000

abbrev pub recovery_grace : ℕ
recovery_grace = 60000

abbrev pub query_retention : ℕ
query_retention = 2592000000

abbrev pub max_int64 : ℕ
max_int64 = 9223372036854775807

abbrev pub is_positive : ℤ → Bool
is_positive z = ltb_ℤ (pos 0) z

-- `value + n`.
abbrev pub plus : ℤ → ℕ → ℤ
plus (pos m) n = pos (m + n)
plus (negsuc m) n = if ltb m n then pos (n - suc m) else negsuc (m - n)

-- `validOperationActorClaims`.
unfoldable pub valid_claims : Actor → Bool
valid_claims a =
    is_positive a.user_id
    && is_positive a.user_guid
    && is_positive a.auth_version
    && utf8_length (codes a.session_sid) == 36
    && is_positive a.session_version

-- `validOperationNow`.
unfoldable pub valid_now : ℤ → Bool
valid_now now = is_positive now && leb_ℤ now (pos (max_int64 - query_retention))

-- `validOperationState`.
abbrev pub valid_state : OperationState → Bool
valid_state state = not (same_state state unknown)

-- `operationVerificationRelation`.
pub data Relation : Type 0 where
  invalid active expired_unconsumed consumed : Relation

abbrev pub same_relation : Relation → Relation → Bool
same_relation invalid invalid = true
same_relation active active = true
same_relation expired_unconsumed expired_unconsumed = true
same_relation consumed consumed = true
same_relation _ _ = false

-- `verificationRelationAt`.
unfoldable pub relation_at : Verification → ℤ → Relation
relation_at v now =
    if leb_ℤ v.expires_at (pos 0)
      || not (eq_ℤ v.is_deleted (pos 0)) && not (eq_ℤ v.is_deleted (pos 1))
    then invalid
    else elim v.consumed_at [
      | some at ↦
          if leb_ℤ at (pos 0) || ltb_ℤ now at || not (eq_ℤ v.is_deleted (pos 1))
          then invalid
          else consumed
      | none ↦
          if eq_ℤ v.is_deleted (pos 0) && ltb_ℤ now v.expires_at then active else expired_unconsumed
    ]

-- `validExistingBeginVerificationState`.
unfoldable pub valid_existing_begin : Verification → OperationState → ℤ → Bool
unfolding relation_at
valid_existing_begin v processing now = same_relation (relation_at v now) active
valid_existing_begin v pending_recovery now = same_relation (relation_at v now) active
valid_existing_begin v succeeded now = same_relation (relation_at v now) consumed
valid_existing_begin v failed now = same_relation (relation_at v now) consumed
valid_existing_begin v expired now = not (same_relation (relation_at v now) invalid)
valid_existing_begin v unknown now = false

-- The row is deleted exactly if its state is expired.
abbrev pub deletion_matches : Operation → Bool
deletion_matches o =
    if same_state o.state expired then eq_ℤ o.is_deleted (pos 1) else eq_ℤ o.is_deleted (pos 0)

abbrev state_relation : OperationState → Operation → Verification → ℤ → Bool
state_relation processing o v now =
    same_relation (relation_at v now) active || same_relation (relation_at v now) expired_unconsumed
state_relation pending_recovery o v now =
    same_relation (relation_at v now) active || same_relation (relation_at v now) expired_unconsumed
state_relation succeeded o v now = same_relation (relation_at v now) consumed
state_relation failed o v now = same_relation (relation_at v now) consumed
state_relation expired o v now =
    not (ltb_ℤ now o.query_expires_at)
    && (same_relation (relation_at v now) expired_unconsumed && eq_ℤ v.is_deleted (pos 0)
        || same_relation (relation_at v now) consumed)
state_relation unknown o v now = false

-- `validOperationVerificationState`.
unfoldable pub valid_verification_state : Operation → Verification → ℤ → Bool
unfolding relation_at
valid_verification_state o v now = deletion_matches o && state_relation o.state o v now

abbrev pub is_some {ℓ} : {A : Type ℓ} → Option A → Bool
is_some none = false
is_some (some _) = true

-- `validOperationStateWithOptionalVerification`.
unfoldable pub valid_state_with : Operation → Option Verification → ℤ → Bool
unfolding valid_verification_state
valid_state_with o (some v) now = is_some o.verification_id && valid_verification_state o v now
valid_state_with o none now =
    not (is_some o.verification_id)
    && deletion_matches o
    && (if same_state o.state expired then leb_ℤ o.query_expires_at now else valid_state o.state)

-- `isA08RolePermissionAction`.
abbrev pub is_role_permission : Action → Bool
is_role_permission users_promote = true
is_role_permission users_demote = true
is_role_permission users_permissions_write = true
is_role_permission _ = false

abbrev is_reset : Action → Bool
is_reset users_reset_password = true
is_reset _ = false

-- `OperationView`; the failure code is its number, and the status its state.
pub record View : Type 0 where
  pub public_ref : String
  pub scope : String
  pub status : OperationState
  pub finished_at : Option ℤ
  pub failure_code : Option ℤ
  pub retry_after_seconds : ℕ
  pub target_guid : Option ℤ
  pub result_auth_version : Option ℤ
  pub result_permissions_version : Option ℤ
  pub result_role : Option ℤ

abbrev shown : Bool → Option ℤ → Option ℤ
shown b v = if b then v else none

-- `left - right`, of a greater left.
abbrev distance : ℤ → ℤ → ℕ
distance left right = pos_part left + neg_part right - (pos_part right + neg_part left)

abbrev lease_seconds : Option ℤ → ℤ → ℕ
lease_seconds none now = 1
lease_seconds (some at) now = if ltb_ℤ now at then (distance at now + 999) / 1000 else 1

abbrev clamped : ℕ → ℕ
clamped seconds = let low = if ltb seconds 1 then 1 else seconds in if ltb 30 low then 30 else low

-- `operationView`.
unfoldable pub operation_view : Descriptor → Operation → ℤ → View
operation_view d o now =
    let done = same_state o.state succeeded in
    record {
      public_ref = o.public_ref;
      scope = d.name;
      status = o.state;
      finished_at = o.finished_at;
      failure_code = o.error_code;
      retry_after_seconds =
          if same_state o.state processing
          then clamped (lease_seconds o.lease_expires_at now)
          else 0;
      target_guid =
          shown (done && (is_reset d.action || is_role_permission d.action)) o.result_guid;
      result_auth_version =
          shown (done && (is_reset d.action || is_role_permission d.action)) o.result_auth_version;
      result_permissions_version =
          shown (done && is_role_permission d.action) o.result_permissions_version;
      result_role = shown (done && is_role_permission d.action) o.result_role;
    }
