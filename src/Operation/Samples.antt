-- ===== src/Operation/Samples.antt =====
-- The theorems on operations at concrete values.
use porsche.Prelude.{◌≡◌, ◌≢◌, refl, String, false, none, some, List, [], ◌∷◌, ok}
use porsche.Prelude.Int.{ℤ, pos}
use porsche.Generation.Identity.{is_space, utf8_length}
use porsche.Authz.Catalog.{lookup}
use porsche.Authz.Evaluator.{
  role_root, status_active, valid_account, validate_overrides, validate_from, create, manager,
  capability,
}
use porsche.Intent.{fits_u32, encode_intent}
use porsche.Intent.Encoders.{create_account_fields, account_fields}
use porsche.Intent.Forms.{create_account}
use porsche.Intent.Actions.{users_create}
use porsche.Operation.{Operation, processing, succeeded, User, View}
use porsche.Operation.Access.{Directory}
use porsche.Operation.Begin.{Store, Crypto, Request, Draw, ready}
use porsche.Operation.Requests.{begin, Terminal, finish}
use porsche.Operation.History.{Step, queries, finishes, run}
use porsche.Operation.Once.{ready_once, finish_once}

abbrev sid : String
sid = "00000000-0000-4000-8000-000000000001"

abbrev root : User
root = record {
  id = pos 5;
  guid = pos 50;
  role = role_root;
  status = status_active;
  is_deleted = pos 0;
  auth_version = pos 1;
  password_hash = some "hash";
}

abbrev directory : Directory
directory = record {
  users = root ∷ [];
  sessions =
      (record {
        id = pos 9;
        sid = sid;
        user_id = pos 5;
        session_version = pos 1;
        is_deleted = pos 0;
        revoked_at = none;
        expires_at = pos 900000;
      })
      ∷ [];
  rules = λ z. some [];
}

-- Every key has one digest, and every intent another.
abbrev crypto : Crypto
crypto = record {
  idempotency_digest = λ values. some "key";
  ticket_digest = λ values. none;
  intent_digest = λ bytes. "intent";
  is_format = λ c. false;
}

abbrev request : Request
request = record {
  action = users_create;
  actor = record {
    user_id = pos 5;
    user_guid = pos 50;
    auth_version = pos 1;
    session_sid = sid;
    session_version = pos 1;
  };
  idempotency_key_values = "key" ∷ [];
  ticket_values = [];
  intent = create_account (record {
    username = "ann";
    nickname = none;
    password = 1 ∷ 2 ∷ [];
    role = "user";
    group_guid = none;
    plan_type = pos 1;
    allowed_models = [];
    daily_call_limit = pos 10;
    overrides = [];
  });
}

abbrev draw_at : ℤ → Draw
draw_at now = record {
  now = now;
  final_now = now;
  public_ref = "ref";
  lease_digest = "lease";
  guid = pos 70;
}

abbrev nothing : Store
nothing = record { operations = []; verifications = [] }

abbrev begun_operation : Operation
begun_operation = record {
  guid = pos 70;
  created_at = pos 1000;
  updated_at = pos 1000;
  updated_by = some (pos 5);
  is_deleted = pos 0;
  actor_user_id = pos 5;
  actor_auth_version = pos 1;
  session_id = pos 9;
  action = 9;
  idempotency_key_hmac = "key";
  request_hmac = "intent";
  verification_id = none;
  state = processing;
  public_ref = "ref";
  lease_owner_hmac = some "lease";
  lease_expires_at = some (pos 31000);
  finished_at = none;
  query_expires_at = pos 2592001000;
  error_code = none;
  result_kind = none;
  result_guid = none;
  result_auth_version = none;
  result_permissions_version = none;
  result_role = none;
  result_http_status = none;
}

abbrev begun : Store
begun = record { operations = begun_operation ∷ []; verifications = [] }

abbrev view : View
view = record {
  public_ref = "ref";
  scope = "users.create";
  status = processing;
  finished_at = none;
  failure_code = none;
  retry_after_seconds = 30;
  target_guid = none;
  result_auth_version = none;
  result_permissions_version = none;
  result_role = none;
}

nothing-begin :
    begin crypto directory (draw_at (pos 1000)) request nothing ≡ ok (ready 0 view, begun)
unfolding begin is_space utf8_length create_account_fields fits_u32 encode_intent account_fields
    valid_account validate_overrides validate_from create manager capability lookup
nothing-begin = refl

abbrev success : Terminal
success = record {
  failure = none;
  result_kind = some (pos 2);
  result_guid = some (pos 500);
  result_auth_version = none;
  result_permissions_version = none;
  result_role = none;
  http_status = pos 201;
}

abbrev done : Store
done = record {
  operations =
      (record begun_operation {
        updated_at = pos 2000;
        state = succeeded;
        lease_owner_hmac = none;
        lease_expires_at = none;
        finished_at = some (pos 2000);
        query_expires_at = pos 2592002000;
        result_kind = some (pos 2);
        result_guid = some (pos 500);
        result_http_status = some (pos 201);
      })
      ∷ [];
  verifications = [];
}

abbrev ending : List Step
ending = finishes "lease" success (pos 5) (pos 2000) 0 begun_operation ∷ []

abbrev asking : List Step
asking = queries directory (draw_at (pos 3000)) users_create request.actor ("key" ∷ []) ∷ []

ready_once_example :
    begin crypto directory (draw_at (pos 9000)) request (run crypto ending begun)
    ≢ ok (ready 1 view, nothing)
ready_once_example =
    ready_once crypto directory directory (draw_at (pos 1000)) (draw_at (pos 9000)) request request
      ending nothing begun nothing 0 1 view view nothing-begin refl refl refl

begun-finish : finish "lease" success (pos 5) (pos 2000) 0 begun_operation begun ≡ ok done
unfolding finish
begun-finish = refl

finish_once_example :
    finish "lease" success (pos 5) (pos 4000) 0 begun_operation (run crypto asking done)
    ≢ ok nothing
finish_once_example =
    finish_once crypto "lease" "lease" success success (pos 5) (pos 5) (pos 2000) (pos 4000) 0
      begun_operation begun_operation asking begun done nothing begun-finish
