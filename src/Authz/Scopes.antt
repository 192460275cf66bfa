-- ===== src/Authz/Scopes.antt =====
-- `Create` and `Collection`: what a positive decision needs beside the capability.
use Prim.Native.Nat.{bit_and}
use porsche.Prelude.{
  String, ◌≡◌, ◌≢◌, ◌⊎◌, inl, inr, Bool, true, Option, some, arith, Option-cases, ◌↔◌,
}
use porsche.Prelude.Int.{ℤ, eq_ℤ_iff}
use porsche.Authz.Catalog.{Definition, lookup, collection_scope}
use porsche.Authz.Evaluator.{
  Evaluator, allowed, manager, capability, create, collection, role_user, role_admin, role_root,
  is_allowed,
}
use porsche.Authz.Privilege.{capability-allowed_needs}

role_of_manager :
    (e : Evaluator)
    → manager (some e) ≡ true
    → (e.actor.role ≡ role_admin) ⊎ (e.actor.role ≡ role_root)
unfolding manager
role_of_manager e m =
    ground (arith, eq_ℤ_iff e.actor.role role_admin, eq_ℤ_iff e.actor.role role_root)

-- Admins and root create users, root alone creates admins, nobody creates a root, and each of them
-- needs the capability users.create.
pub create_iff :
    (e : Evaluator) (role : ℤ)
    → (create (some e) role ≡ allowed) ↔ (
        ((role ≡ role_user) ⊎ ((role ≡ role_admin) × (e.actor.role ≡ role_root)))
        × (capability (some e) "users.create" ≡ allowed))
unfolding create
create_iff e role = (
  λ h. ground (arith, role_of_manager e, eq_ℤ_iff role role_user, eq_ℤ_iff role role_admin),
  λ h.
      let c = h.1 in
      let m = (capability-allowed_needs e "users.create" h.1).0 in
      ground (arith, m, role_of_manager e m, eq_ℤ_iff role role_user, eq_ℤ_iff role role_admin),
)

-- A collection is open exactly if its name is defined with the collection scope, its capability is
-- held, and tombstones are asked for only by who may read them.
pub collection_iff :
    (e : Option Evaluator) (name : String) (include_deleted : Bool)
    → (collection e name include_deleted ≡ allowed) ↔ (
        ((d : Definition) × (lookup name ≡ some d) × (bit_and d.scopes collection_scope ≢ 0))
        × (capability e name ≡ allowed)
        × (include_deleted ≡ true → capability e "users.deleted.read" ≡ allowed))
unfolding collection is_allowed
collection_iff e name x = (
  λ h. elim (Option-cases (lookup name)) [
    | inl p ↦ absurd (ground (arith, p))
    | inr (d, p) ↦ ((d, p, ground (arith, p)), ground (arith, p), λ q. ground (arith, p))
  ],
  λ h. ground (arith, h.0.1, h.0.2, h.1, h.2),
)
