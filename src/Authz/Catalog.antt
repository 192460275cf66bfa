-- ===== src/Authz/Catalog.antt =====
-- internal/authz/catalog.go: the fixed capability catalog. The four scope flags are the bits of
-- `scope uint8`, and are tested by `&` as in the source.
use Prim.Native.Nat.{bit_or}
use porsche.Prelude.{
  ℕ, String, Bool, true, false, Option, none, some, List, [], ◌∷◌, str_eq, if◌then◌else◌,
}

abbrev pub user_scope : ℕ
user_scope = 1

abbrev pub create_scope : ℕ
create_scope = 2

abbrev pub collection_scope : ℕ
collection_scope = 4

abbrev pub resource_scope : ℕ
resource_scope = 8

pub record Definition : Type 0 where
  pub name : String
  pub admin_default : Bool
  pub grantable : Bool
  pub root_only : Bool
  pub unavailable : Bool
  pub scopes : ℕ

abbrev def_of : String → Bool → Bool → Bool → Bool → ℕ → Definition
def_of n a g r u s = record {
  name = n;
  admin_default = a;
  grantable = g;
  root_only = r;
  unavailable = u;
  scopes = s;
}

abbrev both : ℕ
both = bit_or user_scope collection_scope

-- The 24 rows, in the source's order.
unfoldable pub definitions : List Definition
definitions =
    def_of "users.read" true true false false both
    ∷ def_of "users.create" true true false false create_scope
    ∷ def_of "users.edit" true true false false user_scope
    ∷ def_of "users.enable" true true false false user_scope
    ∷ def_of "users.disable" true true false false user_scope
    ∷ def_of "users.reset_password" false true false false user_scope
    ∷ def_of "users.sessions.read" false true false false user_scope
    ∷ def_of "users.sessions.revoke" false true false false user_scope
    ∷ def_of "users.plan.change" false true false false user_scope
    ∷ def_of "users.group.change" false true false false user_scope
    ∷ def_of "users.quota.adjust" false false false true user_scope
    ∷ def_of "users.delete" false true false false user_scope
    ∷ def_of "users.deleted.read" false true false false both
    ∷ def_of "users.promote" false false true false user_scope
    ∷ def_of "users.demote" false false true false user_scope
    ∷ def_of "users.permissions.write" false false true false user_scope
    ∷ def_of "users.audit.read" true true false false both
    ∷ def_of "groups.read" true true false false resource_scope
    ∷ def_of "groups.write" false false true false resource_scope
    ∷ def_of "public_content.read" false true false false resource_scope
    ∷ def_of "public_content.edit" false true false false resource_scope
    ∷ def_of "public_content.preview" false true false false resource_scope
    ∷ def_of "public_content.publish" false true false false resource_scope
    ∷ def_of "public_content.rollback" false true false false resource_scope
    ∷ []

-- The loop of `lookup`: the first definition of that name.
unfoldable pub lookup_in : List Definition → String → Option Definition
lookup_in [] name = none
lookup_in (d ∷ ds) name = if str_eq d.name name then some d else lookup_in ds name

unfoldable pub lookup : String → Option Definition
unfolding lookup_in definitions
lookup name = lookup_in definitions name
