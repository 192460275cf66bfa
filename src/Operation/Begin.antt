-- ===== src/Operation/Begin.antt =====
-- internal/service/action_operation.go: `Begin`, `Query`, `MarkPendingRecovery` and the expiry of an
-- operation, and the part of `Execute` (action_execute.go) that ends one. Each is a function of the
-- table of operations under the locks of its transaction. Cryptography (crypto.go) is a parameter:
-- the digests of a key, a ticket and an intent, where they parse. The rate limit and the revocation
-- in Redis are answers that the caller passes.
use porsche.Prelude.{
  ℕ, String, Bool, true, false, not, ◌&&◌, ◌||◌, Option, none, some, List, [], ◌∷◌, ◌++◌, length,
  str_eq, ◌==◌, if◌then◌else◌, ok, ◌>>=◌, ◌>>◌, guard,
}
use porsche.Prelude.Int.{ℤ, pos, leb_ℤ, ltb_ℤ, eq_ℤ}
use porsche.Prelude.Table.{update, rows_affected}
use porsche.Intent.Forms.{Intent}
use porsche.Intent.Actions.{Action, Descriptor, number}
use porsche.Operation.{
  forbidden, conflict, cross_session, unavailable, Checked, OperationState, processing,
  pending_recovery, expired, same_state, can_transition, Operation, Verification, User, Session,
  Actor, lease_millis, query_retention, plus, is_positive, valid_now, valid_state, active,
  same_relation, relation_at, valid_existing_begin, valid_state_with, View, operation_view,
}
use porsche.Operation.Access.{Directory, lock_begin_verification, authorize_descriptor, same_id}

-- The tables that the service writes.
pub record Store : Type 0 where
  pub operations : List Operation
  pub verifications : List Verification

-- `actionsecurity.Crypto`, with the parsing of header values, in hexadecimal; and the code points
-- that Unicode calls format characters.
pub record Crypto : Type 0 where
  pub idempotency_digest : List String → Option String
  pub ticket_digest : List String → Option String
  pub intent_digest : List ℕ → String
  pub is_format : ℕ → Bool

-- `OperationBegin`.
pub record Request : Type 0 where
  pub action : Action
  pub actor : Actor
  pub idempotency_key_values : List String
  pub ticket_values : List String
  pub intent : Intent

-- What a call draws and reads: the clock at its start and under its locks, the reference and the
-- digest of the lease that it draws, and the guid of a new row.
pub record Draw : Type 0 where
  pub now : ℤ
  pub final_now : ℤ
  pub public_ref : String
  pub lease_digest : String
  pub guid : ℤ

-- What a transaction answers: an operation that is ready for execution (`ReadyForExecution`), one
-- that exists, or that it has expired.
pub data Reply : Type 0 where
  ready existing : ℕ → View → Reply
  has_expired : Reply

abbrev pub has_key : ℤ → ℕ → String → Operation → Bool
has_key actor action key o =
    eq_ℤ o.actor_user_id actor && o.action == action && str_eq o.idempotency_key_hmac key

-- The change that `expireOperation` makes.
abbrev pub expired_row : Option ℤ → ℤ → Operation → Operation
expired_row by now o = record o {
  state = expired;
  is_deleted = pos 1;
  lease_owner_hmac = none;
  lease_expires_at = none;
  error_code = none;
  result_kind = none;
  result_guid = none;
  result_auth_version = none;
  result_permissions_version = none;
  result_role = none;
  result_http_status = none;
  updated_at = now;
  updated_by = by;
}

abbrev pub may_expire : Operation → ℤ → Operation → Bool
may_expire o now row =
    same_state row.state o.state
    && eq_ℤ row.is_deleted (pos 0)
    && eq_ℤ row.query_expires_at o.query_expires_at
    && leb_ℤ row.query_expires_at now

-- `expireOperation`.
unfoldable pub expire_operation : Store → ℕ → Operation → Option ℤ → ℤ → Checked Store
unfolding rows_affected update can_transition
expire_operation s i o by now = do
  guard (can_transition o.state expired) unavailable
  guard (rows_affected i (may_expire o now) s.operations == 1) unavailable
  ok (record s { operations = update i (may_expire o now) (expired_row by now) s.operations })

abbrev is_open : OperationState → Bool
is_open state = same_state state processing || same_state state pending_recovery

-- The end of `Begin` and of `Query` on an operation that exists.
abbrev pub answer_existing : Store → ℕ → Operation → ℤ → Descriptor → ℤ → Checked (Reply × Store)
answer_existing s i o actor_id d now =
    if same_state o.state expired
    then ok (has_expired, s)
    else if leb_ℤ o.query_expires_at now && can_transition o.state expired
    then (do
      s' ← expire_operation s i o (if is_positive actor_id then some actor_id else none) now
      ok (has_expired, s'))
    else ok (existing i (operation_view d o now), s)

abbrev pub verification_of : Option (ℕ × Verification) → Option Verification
verification_of none = none
verification_of (some (i, v)) = some v

abbrev valid_existing_with : Descriptor → Option Verification → OperationState → ℤ → Bool
valid_existing_with d none state now = not d.requires_ticket
valid_existing_with d (some v) state now = not d.requires_ticket || valid_existing_begin v state now

abbrev pub valid_reading : Draw → Bool
valid_reading draw = not (ltb_ℤ draw.final_now draw.now) && valid_now draw.final_now

abbrev pub check_open : Directory → User → Descriptor → Option ℤ → Operation → Checked (Unit {0})
check_open dir actor d target o =
    if is_open o.state then authorize_descriptor dir actor d target else ok tt

module _ (dir : Directory) (d : Descriptor) (actor : User) (session : Session) (draw : Draw) where
  -- The checks of `Begin` under its locks, where the key has an operation.
  unfoldable pub check_existing :
      Store → String → String → Option ℤ → Operation → Checked (Unit {0})
  unfolding lock_begin_verification authorize_descriptor valid_now valid_state_with
      valid_existing_begin
  check_existing s ticket request target o = do
    guard (eq_ℤ o.session_id session.id) cross_session
    guard (str_eq o.request_hmac request) conflict
    guard (eq_ℤ o.actor_auth_version actor.auth_version && valid_state o.state) forbidden
    v ←
        lock_begin_verification s.verifications d ticket actor session request target
          o.verification_id true
    check_open dir actor d target o
    guard (valid_reading draw) unavailable
    guard
        (ltb_ℤ draw.final_now session.expires_at
          && valid_state_with o (verification_of v) draw.final_now
          && valid_existing_with d (verification_of v) o.state draw.final_now)
        forbidden

  abbrev pub begin_existing :
      Store → String → String → Option ℤ → ℕ × Operation → Checked (Reply × Store)
  begin_existing s ticket request target (i, o) = do
    check_existing s ticket request target o
    answer_existing s i o actor.id d draw.final_now

  -- The row that `Begin` creates; its times are those under the locks.
  abbrev pub new_operation : String → String → Option ℕ → Operation
  new_operation key request verification = record {
    guid = draw.guid;
    created_at = draw.final_now;
    updated_at = draw.final_now;
    updated_by = some actor.id;
    is_deleted = pos 0;
    actor_user_id = actor.id;
    actor_auth_version = actor.auth_version;
    session_id = session.id;
    action = number d.action;
    idempotency_key_hmac = key;
    request_hmac = request;
    verification_id = verification;
    state = processing;
    public_ref = draw.public_ref;
    lease_owner_hmac = some draw.lease_digest;
    lease_expires_at = some (plus draw.final_now lease_millis);
    finished_at = none;
    query_expires_at = plus draw.final_now query_retention;
    error_code = none;
    result_kind = none;
    result_guid = none;
    result_auth_version = none;
    result_permissions_version = none;
    result_role = none;
    result_http_status = none;
  }

  -- The unique index on verification_id, which refuses a second operation on one ticket.
  unfoldable pub uses_verification : List Operation → Option ℕ → Bool
  uses_verification [] v = false
  uses_verification (o ∷ os) none = false
  uses_verification (o ∷ os) (some i) = same_id o.verification_id i || uses_verification os (some i)

  abbrev pub id_of : Option (ℕ × Verification) → Option ℕ
  id_of none = none
  id_of (some (i, v)) = some i

  abbrev active_at : Option (ℕ × Verification) → Bool
  active_at none = not d.requires_ticket
  active_at (some (i, v)) =
      not d.requires_ticket || same_relation (relation_at v draw.final_now) active

  -- The checks of `Begin` under its locks, where the key has no operation: the verification.
  unfoldable pub check_new : Store → String → String → Option ℤ → Checked (Option ℕ)
  unfolding lock_begin_verification authorize_descriptor valid_now relation_at uses_verification
  check_new s ticket request target = do
    guard (is_positive draw.guid) unavailable
    v ← lock_begin_verification s.verifications d ticket actor session request target none false
    authorize_descriptor dir actor d target
    guard (valid_reading draw) unavailable
    guard (ltb_ℤ draw.final_now session.expires_at && active_at v) forbidden
    guard (not (uses_verification s.operations (id_of v))) forbidden
    ok (id_of v)

  -- The row is created without the verification and then updated with it, in the one transaction.
  abbrev pub begin_new : Store → String → String → String → Option ℤ → Checked (Reply × Store)
  begin_new s key ticket request target = do
    v ← check_new s ticket request target
    ok (
      ready (length s.operations) (operation_view d (new_operation key request v) draw.final_now),
      record s { operations = s.operations ++ new_operation key request v ∷ [] },
    )
