-- ===== src/Operation/Requests.antt =====
-- internal/service/action_operation.go: the requests as a whole (`Begin`, `Query`), the recovery of
-- an abandoned operation (`MarkPendingRecovery`), and the end of one (`Execute` of
-- action_execute.go, without what its consumer writes elsewhere).
use porsche.Prelude.{
  ℕ, String, Bool, true, false, not, ◌&&◌, ◌||◌, Option, none, some, List, [], ◌∷◌, str_eq, ◌==◌,
  if◌then◌else◌, Result, ok, err, ◌>>=◌, ◌>>◌, guard,
}
use porsche.Prelude.Int.{ℤ, pos, leb_ℤ, ltb_ℤ, eq_ℤ}
use porsche.Prelude.Table.{find_row, update, rows_affected, nth}
use porsche.Intent.Forms.{Intent}
use porsche.Intent.Actions.{Action, Descriptor, number, resolve_active, encode_any}
use porsche.Operation.{
  OperationError, inactive, forbidden, unseen, conflict, gone, unavailable, Checked, processing,
  succeeded, failed, pending_recovery, expired, same_state, Operation, Verification, User, Session,
  Actor, recovery_grace, query_retention, max_int64, plus, valid_claims, valid_now, valid_state,
  valid_state_with, is_some, operation_view,
}
use porsche.Operation.Access.{
  Directory, lock_actor, authorize_descriptor, intent_target, valid_binding, has_no_target,
  or_forbidden,
}
use porsche.Operation.Begin.{
  Store, Crypto, Request, Draw, Reply, has_key, expire_operation, answer_existing, check_open,
  valid_reading, begin_existing, begin_new, check_existing, check_new,
}

abbrev pub valid_descriptor : Action → Option Descriptor → Checked Descriptor
valid_descriptor action none = err inactive
valid_descriptor action (some d) =
    if d.active
      && number d.action == number action
      && not (str_eq d.name "")
      && not (str_eq d.capability "")
    then ok d
    else err inactive

abbrev pub ticket_text : Descriptor → Option String → List String → Checked String
ticket_text d digest values =
    if d.requires_ticket
    then or_forbidden digest
    else elim values [ [] ↦ ok "" | _ ∷ _ ↦ err forbidden ]

abbrev pub encoded : Crypto → Action → Intent → Checked (List ℕ)
encoded c action intent = elim (encode_any c.is_format action intent) [
  | ok bytes ↦ ok bytes
  | err e ↦ err forbidden
]

-- An expired outcome commits the transaction and then answers with the error.
abbrev pub Answer : Type 0
Answer = Checked (Reply × Store)

-- What `Begin` has at hand when it looks for the operation.
pub record Prepared : Type 0 where
  pub descriptor : Descriptor
  pub actor : User
  pub session : Session
  pub key : String
  pub ticket : String
  pub request : String
  pub target : Option ℤ

unfoldable pub prepare : Crypto → Directory → Draw → Request → Checked Prepared
unfolding valid_claims resolve_active encode_any intent_target valid_now lock_actor
prepare c dir draw r = do
  guard (valid_claims r.actor) forbidden
  d ← valid_descriptor r.action (resolve_active r.action)
  key ← or_forbidden (c.idempotency_digest r.idempotency_key_values)
  ticket ← ticket_text d (c.ticket_digest r.ticket_values) r.ticket_values
  bytes ← encoded c r.action r.intent
  target ← intent_target d r.intent
  guard (valid_now draw.now) unavailable
  locked ← lock_actor dir r.actor draw.now
  ok (record {
    descriptor = d;
    actor = locked.0;
    session = locked.1;
    key = key;
    ticket = ticket;
    request = c.intent_digest bytes;
    target = target;
  })

abbrev pub begin_found : Directory → Draw → Store → Prepared → Option (ℕ × Operation) → Answer
begin_found dir draw s p (some found) =
    begin_existing dir p.descriptor p.actor p.session draw s p.ticket p.request p.target found
begin_found dir draw s p none =
    begin_new dir p.descriptor p.actor p.session draw s p.key p.ticket p.request p.target

abbrev pub has_prepared_key : Prepared → Operation → Bool
has_prepared_key p = has_key p.actor.id (number p.descriptor.action) p.key

-- `Begin`, where the limiter lets the call pass and the session is not revoked in Redis.
unfoldable pub begin : Crypto → Directory → Draw → Request → Store → Answer
unfolding prepare find_row check_existing check_new expire_operation operation_view
begin c dir draw r s = do
  p ← prepare c dir draw r
  begin_found dir draw s p (find_row (has_prepared_key p) s.operations)

-- An error that `Query` shows as a missing operation.
abbrev pub hide {ℓ} : {A : Type ℓ} → Result OperationError A → Result OperationError A
hide (ok a) = ok a
hide (err unavailable) = err unavailable
hide (err _) = err unseen

abbrev query_by_id :
    List Verification
    → Descriptor
    → User
    → Session
    → Operation
    → Option ℕ
    → Checked (Option Verification × Option ℤ)
query_by_id vs d actor session o none = err unseen
query_by_id vs d actor session o (some i) = elim (nth i vs) [
  | none ↦ err unseen
  | some v ↦
      if valid_binding v actor session d o.request_hmac v.target_guid
      then ok (some v, v.target_guid)
      else err unseen
]

-- `lockOperationQueryVerification`.
unfoldable pub lock_query_verification :
    List Verification
    → Descriptor
    → User
    → Session
    → Operation
    → Checked (Option Verification × Option ℤ)
unfolding nth valid_binding
lock_query_verification vs d actor session o =
    if not d.requires_ticket
    then (if is_some o.verification_id || not (has_no_target d.target_kind)
        then err unseen
        else ok (none, none))
    else query_by_id vs d actor session o o.verification_id

abbrev pub or_unseen {ℓ} : {A : Type ℓ} → Option A → Result OperationError A
or_unseen none = err unseen
or_unseen (some a) = ok a

-- The checks of `Query`: its descriptor, the actor's id, and the operation.
unfoldable pub check_query :
    Crypto
    → Directory
    → Draw
    → Action
    → Actor
    → List String
    → Store
    → Checked (Descriptor × ℤ × ℕ × Operation)
unfolding valid_claims resolve_active valid_now lock_actor find_row lock_query_verification
    authorize_descriptor valid_state_with
check_query c dir draw action actor keys s = do
  guard (valid_claims actor) unseen
  d ← hide (valid_descriptor action (resolve_active action))
  key ← or_unseen (c.idempotency_digest keys)
  guard (valid_now draw.now) unavailable
  locked ← hide (lock_actor dir actor draw.now)
  found ← or_unseen (find_row (has_key locked.0.id (number d.action) key) s.operations)
  guard (eq_ℤ found.1.session_id locked.1.id) unseen
  guard (eq_ℤ found.1.actor_auth_version locked.0.auth_version && valid_state found.1.state) unseen
  v ← hide (lock_query_verification s.verifications d locked.0 locked.1 found.1)
  hide (check_open dir locked.0 d v.1 found.1)
  guard (valid_reading draw) unavailable
  guard (ltb_ℤ draw.final_now locked.1.expires_at && valid_state_with found.1 v.0 draw.final_now)
      unseen
  ok (d, locked.0.id, found.0, found.1)

abbrev pub query_found : Draw → Store → Descriptor × ℤ × ℕ × Operation → Answer
query_found draw s (d, actor_id, i, o) = answer_existing s i o actor_id d draw.final_now

-- `Query`, where the session is not revoked in Redis.
unfoldable pub query : Crypto → Directory → Draw → Action → Actor → List String → Store → Answer
unfolding check_query expire_operation operation_view
query c dir draw action actor keys s = do
  found ← check_query c dir draw action actor keys s
  query_found draw s found

abbrev lease_is : ℤ → ℤ → Operation → Bool
lease_is at now row = elim row.lease_expires_at [
  | none ↦ false
  | some e ↦ eq_ℤ e at && ltb_ℤ (plus e recovery_grace) now
]

abbrev pub may_recover : ℤ → ℤ → Operation → Bool
may_recover at now row =
    same_state row.state processing && eq_ℤ row.is_deleted (pos 0) && lease_is at now row

abbrev pub recovered : ℤ → Operation → Operation
recovered now o = record o {
  state = pending_recovery;
  lease_owner_hmac = none;
  lease_expires_at = none;
  updated_at = now;
  updated_by = none;
}

abbrev pub recover_leased : Store → ℕ → ℤ → Option ℤ → Checked Store
recover_leased s i now none = err conflict
recover_leased s i now (some at) =
    if ltb_ℤ (pos max_int64) (plus at recovery_grace) || leb_ℤ now (plus at recovery_grace)
    then err conflict
    else (do
      guard (rows_affected i (may_recover at now) s.operations == 1) unavailable
      ok (record s { operations = update i (may_recover at now) (recovered now) s.operations }))

abbrev pub recover_row : Store → ℕ → Operation → Draw → Checked Store
recover_row s i o draw =
    if same_state o.state expired || eq_ℤ o.is_deleted (pos 1)
    then err gone
    else if not (valid_reading draw)
    then err unavailable
    else if same_state o.state pending_recovery
    then (if ltb_ℤ draw.final_now o.query_expires_at
        then err conflict
        else expire_operation s i o none draw.final_now)
    else if not (same_state o.state processing)
    then err conflict
    else recover_leased s i draw.final_now o.lease_expires_at

-- `MarkPendingRecovery`, of a row's id; an operation that it expires is answered with an error.
unfoldable pub mark_pending_recovery : Draw → ℕ → Store → Checked Store
unfolding valid_now nth expire_operation rows_affected update
mark_pending_recovery draw i s = do
  guard (valid_now draw.now) unavailable
  elim (nth i s.operations) [ none ↦ err unseen | some o ↦ recover_row s i o draw ]

-- What a consumer's execution comes to, as `Execute` stores it.
pub record Terminal : Type 0 where
  pub failure : Option ℤ
  pub result_kind : Option ℤ
  pub result_guid : Option ℤ
  pub result_auth_version : Option ℤ
  pub result_permissions_version : Option ℤ
  pub result_role : Option ℤ
  pub http_status : ℤ

abbrev is_text : Option String → String → Bool
is_text none t = false
is_text (some s) t = str_eq s t

-- The condition of the update that ends the operation.
abbrev same_verification : Option ℕ → Option ℕ → Bool
same_verification none none = true
same_verification (some i) (some j) = i == j
same_verification _ _ = false

abbrev pub may_end : String → Operation → Operation → Bool
may_end lease o row =
    same_state row.state processing
    && eq_ℤ row.is_deleted (pos 0)
    && is_text row.lease_owner_hmac lease
    && same_verification row.verification_id o.verification_id

abbrev pub ended : Terminal → ℤ → ℤ → Operation → Operation
ended t actor_id now o = record o {
  state = if is_some t.failure then failed else succeeded;
  finished_at = some now;
  query_expires_at = plus now query_retention;
  lease_owner_hmac = none;
  lease_expires_at = none;
  error_code = t.failure;
  result_kind = t.result_kind;
  result_guid = t.result_guid;
  result_auth_version = t.result_auth_version;
  result_permissions_version = t.result_permissions_version;
  result_role = t.result_role;
  result_http_status = some t.http_status;
  updated_at = now;
  updated_by = some actor_id;
}

abbrev pub consumed_at : ℤ → Verification → Verification
consumed_at now v = record v { consumed_at = some now; is_deleted = pos 1 }

abbrev pub may_consume : ℤ → Verification → Bool
may_consume now v =
    not (is_some v.consumed_at) && ltb_ℤ now v.expires_at && eq_ℤ v.is_deleted (pos 0)

abbrev pub consume : Store → Option ℕ → ℤ → Checked Store
consume s none now = ok s
consume s (some i) now = do
  guard (rows_affected i (may_consume now) s.verifications == 1) unavailable
  ok (record s { verifications = update i (may_consume now) (consumed_at now) s.verifications })

-- The writes of `Execute`, after its checks of the actor and the action: the verification is
-- consumed and the operation ends.
unfoldable pub finish : String → Terminal → ℤ → ℤ → ℕ → Operation → Store → Checked Store
unfolding rows_affected update
finish lease t actor_id now i o s = do
  s' ← consume s o.verification_id now
  guard (rows_affected i (may_end lease o) s'.operations == 1) unavailable
  ok (record s' { operations = update i (may_end lease o) (ended t actor_id now) s'.operations })
