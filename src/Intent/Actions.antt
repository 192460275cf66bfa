-- ===== src/Intent/Actions.antt =====
-- internal/actionsecurity/types.go and registry.go: the actions, their descriptors, and which of them
-- are active.
use porsche.Prelude.{
  ℕ, String, Bool, true, false, Option, none, some, List, [], ◌∷◌, ◌==◌, if◌then◌else◌, err, ◌>>=◌,
}
use porsche.Intent.Forms.{
  wrong_type, Checked, Fields, Intent, create_account, reset_password, promote, permissions_write,
  demote, delete_user, publish, rollback, model_delete, pricing_publish, pricing_restore,
  content_publish, content_restore,
}
use porsche.Intent.Encoders.{
  write, create_account_fields, reset_password_fields, promote_fields, permissions_write_fields,
  demote_fields, delete_user_fields, content_change_fields, model_delete_fields,
  pricing_publish_fields, release_fields,
}

pub data Action : Type 0 where
  users_create_admin users_reset_password users_promote users_demote users_permissions_write :
      Action
  users_delete public_content_publish public_content_rollback users_create public_model_delete :
      Action
  public_pricing_publish public_pricing_restore public_content_restore undefined : Action

-- The number of an action; those of no constant are `undefined`.
unfoldable pub number : Action → ℕ
number users_create_admin = 1
number users_reset_password = 2
number users_promote = 3
number users_demote = 4
number users_permissions_write = 5
number users_delete = 6
number public_content_publish = 7
number public_content_rollback = 8
number users_create = 9
number public_model_delete = 10
number public_pricing_publish = 11
number public_pricing_restore = 12
number public_content_restore = 13
number undefined = 0

pub data TargetKind : Type 0 where
  no_target user_target public_content_target : TargetKind

-- A descriptor without its encoder, which `encode_any` gives by the action.
pub record Descriptor : Type 0 where
  pub action : Action
  pub name : String
  pub capability : String
  pub root_only : Bool
  pub requires_ticket : Bool
  pub active : Bool
  pub target_kind : TargetKind

abbrev row : Action → String → String → Bool → Bool → TargetKind → Descriptor
row a n c r t k = record {
  action = a;
  name = n;
  capability = c;
  root_only = r;
  requires_ticket = t;
  active = false;
  target_kind = k;
}

-- `canonicalActionDescriptors`.
unfoldable pub canonical_descriptors : List Descriptor
canonical_descriptors =
    row users_create_admin "users.create_admin" "users.create" true true no_target
    ∷ row users_reset_password "users.reset_password" "users.reset_password" false true user_target
    ∷ row users_promote "users.promote" "users.promote" true true user_target
    ∷ row users_demote "users.demote" "users.demote" true true user_target
    ∷ row users_permissions_write "users.permissions.write" "users.permissions.write" true true
        user_target
    ∷ row users_delete "users.delete" "users.delete" false true user_target
    ∷ row public_content_publish "public_content.publish" "public_content.publish" true true
        public_content_target
    ∷ row public_content_rollback "public_content.rollback" "public_content.rollback" false true
        public_content_target
    ∷ row users_create "users.create" "users.create" false false no_target
    ∷ row public_model_delete "public_models.delete" "public_content.edit" true true
        public_content_target
    ∷ row public_pricing_publish "public_pricing.publish" "public_content.publish" true true
        no_target
    ∷ row public_pricing_restore "public_pricing.restore" "public_content.rollback" true true
        public_content_target
    ∷ row public_content_restore "public_content.restore" "public_content.rollback" true true
        public_content_target
    ∷ []

abbrev pub same : Action → Action → Bool
same a b = number a == number b

-- `futureActionOrder`.
unfoldable pub future_order : List Action
future_order =
    users_create ∷ users_create_admin ∷ users_delete ∷ users_reset_password ∷ users_promote
    ∷ users_demote ∷ users_permissions_write ∷ []

-- `activeActionOrder`.
unfoldable pub active_order : List Action
active_order =
    users_create ∷ users_create_admin ∷ users_delete ∷ users_reset_password ∷ users_promote
    ∷ users_demote ∷ users_permissions_write ∷ public_model_delete ∷ public_pricing_publish
    ∷ public_pricing_restore ∷ public_content_publish ∷ public_content_restore ∷ []

unfoldable pub find_descriptor : List Descriptor → Action → Option Descriptor
unfolding number
find_descriptor [] a = none
find_descriptor (d ∷ ds) a = if same d.action a then some d else find_descriptor ds a

-- `canonicalActionDescriptor`.
unfoldable pub canonical_descriptor : Action → Option Descriptor
unfolding find_descriptor canonical_descriptors
canonical_descriptor a = find_descriptor canonical_descriptors a

-- `actionIn`.
unfoldable pub action_in : List Action → Action → Bool
unfolding number
action_in [] a = false
action_in (b ∷ bs) a = if same b a then true else action_in bs a

-- `projectActionDescriptors`.
unfoldable pub project_descriptors : List Action → List Action → List Descriptor
unfolding canonical_descriptor action_in
project_descriptors [] active = []
project_descriptors (a ∷ rest) active =
    let others = project_descriptors rest active in
    elim (canonical_descriptor a) [
      | none ↦ others
      | some d ↦ record d { active = action_in active a } ∷ others
    ]

-- `ActiveActionRegistry`.
unfoldable pub active_registry : List Descriptor
unfolding project_descriptors active_order
active_registry = project_descriptors active_order active_order

-- `FutureActionDescriptors`.
unfoldable pub future_descriptors : List Descriptor
unfolding project_descriptors active_order future_order
future_descriptors = project_descriptors future_order active_order

-- `ResolveActiveAction`.
unfoldable pub resolve_active : Action → Option Descriptor
unfolding active_registry find_descriptor
resolve_active a = find_descriptor active_registry a

-- The encoders of the descriptors: a value of another type is refused.
unfoldable pub fields_for : (ℕ → Bool) → Action → Intent → Checked Fields
fields_for f users_create_admin (create_account i) = create_account_fields "admin" i
fields_for f users_create (create_account i) = create_account_fields "user" i
fields_for f users_reset_password (reset_password i) = reset_password_fields i
fields_for f users_promote (promote i) = promote_fields i
fields_for f users_demote (demote i) = demote_fields i
fields_for f users_permissions_write (permissions_write i) = permissions_write_fields i
fields_for f users_delete (delete_user i) = delete_user_fields i
fields_for f public_content_publish (content_publish i) = release_fields i
fields_for f public_content_publish (publish i) = content_change_fields i
fields_for f public_content_rollback (rollback i) = content_change_fields i
fields_for f public_model_delete (model_delete i) = model_delete_fields f i
fields_for f public_pricing_publish (pricing_publish r) = pricing_publish_fields r
fields_for f public_pricing_restore (pricing_restore i) = release_fields i
fields_for f public_content_restore (content_restore i) = release_fields i
fields_for f _ _ = err wrong_type

-- `Descriptor.Encode`.
unfoldable pub encode_any : (ℕ → Bool) → Action → Intent → Checked (List ℕ)
unfolding fields_for
encode_any is_format a i = do fields ← fields_for is_format a i; write fields
