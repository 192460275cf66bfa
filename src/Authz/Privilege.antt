-- ===== src/Authz/Privilege.antt =====
-- What a positive decision of the evaluator needs.
use porsche.Prelude.{
  String, ◌≡◌, ◌≢◌, inl, inr, true, false, none, some, arith, eq_iff, Option-cases, ◌↔◌,
}
use porsche.Prelude.Int.{pos, ◌<ℤ◌, ◌≤ℤ◌, eq_ℤ_iff}
use porsche.Authz.Catalog.{Definition, lookup}
use porsche.Authz.Evaluator.{
  Account, Evaluator, allowed, valid_account, manager, capability, user, role_user, role_admin,
  role_root, tombstone_checked, role_checked, user_defined, reads_tombstone, in_scope, out_of_reach,
  is_allowed,
}

-- The rules of `User`, as an independent statement of what the target and the actor must be.
pub record MayManage (e : Evaluator) (name : String) (t : Account) : Type 0 where
  pub is_manager : manager (some e) ≡ true
  pub is_target : valid_account t ≡ true
  pub not_self_id : t.id ≢ e.actor.id
  pub not_self_guid : t.guid ≢ e.actor.guid
  pub outranked : t.role <ℤ e.actor.role
  pub holds : capability (some e) name ≡ allowed
  pub tombstones :
      t.is_deleted ≢ pos 0
      → (capability (some e) "users.deleted.read" ≡ allowed) × (reads_tombstone name ≡ true)
  pub live : t.is_deleted ≡ pos 0 → name ≢ "users.deleted.read"
  pub promotes_users : name ≡ "users.promote" → t.role ≡ role_user
  pub demotes_admins : name ≡ "users.demote" → t.role ≡ role_admin
  pub permits_admins : name ≡ "users.permissions.write" → t.role ≡ role_admin

role_checked_allowed :
    (e : Evaluator) (name : String) (t : Account)
    → role_checked e name t ≡ allowed
    → (capability (some e) name ≡ allowed)
      × (name ≡ "users.promote" → t.role ≡ role_user)
      × (name ≡ "users.demote" → t.role ≡ role_admin)
      × (name ≡ "users.permissions.write" → t.role ≡ role_admin)
unfolding role_checked
role_checked_allowed e name t h = ground (
  arith,
  eq_iff name "users.promote",
  eq_iff name "users.demote",
  eq_iff name "users.permissions.write",
  eq_ℤ_iff t.role role_user,
  eq_ℤ_iff t.role role_admin,
)

role_checked_of :
    (e : Evaluator) (name : String) (t : Account)
    → capability (some e) name ≡ allowed
    → (name ≡ "users.promote" → t.role ≡ role_user)
    → (name ≡ "users.demote" → t.role ≡ role_admin)
    → (name ≡ "users.permissions.write" → t.role ≡ role_admin)
    → role_checked e name t ≡ allowed
unfolding role_checked
role_checked_of e name t c p q r = ground (
  arith,
  c,
  eq_iff name "users.promote",
  eq_iff name "users.demote",
  eq_iff name "users.permissions.write",
  eq_ℤ_iff t.role role_user,
  eq_ℤ_iff t.role role_admin,
)

tombstone_allowed :
    (e : Evaluator) (name : String) (t : Account)
    → tombstone_checked e name t ≡ allowed
    → (role_checked e name t ≡ allowed)
      × (t.is_deleted ≢ pos 0
          → (capability (some e) "users.deleted.read" ≡ allowed) × (reads_tombstone name ≡ true))
      × (t.is_deleted ≡ pos 0 → name ≢ "users.deleted.read")
unfolding tombstone_checked is_allowed
tombstone_allowed e name t h =
    ground (arith, eq_iff name "users.deleted.read", eq_ℤ_iff t.is_deleted (pos 0))

tombstone_of :
    (e : Evaluator) (name : String) (t : Account)
    → role_checked e name t ≡ allowed
    → (t.is_deleted ≢ pos 0
        → (capability (some e) "users.deleted.read" ≡ allowed) × (reads_tombstone name ≡ true))
    → (t.is_deleted ≡ pos 0 → name ≢ "users.deleted.read")
    → tombstone_checked e name t ≡ allowed
unfolding tombstone_checked is_allowed
tombstone_of e name t c dead live =
    ground (arith, eq_iff name "users.deleted.read", eq_ℤ_iff t.is_deleted (pos 0))

in_reach :
    (a t : Account)
    → out_of_reach a t ≡ false
    → (valid_account t ≡ true) × (t.id ≢ a.id) × (t.guid ≢ a.guid) × (t.role <ℤ a.role)
unfolding out_of_reach
in_reach a t h = ground (arith, eq_ℤ_iff t.id a.id, eq_ℤ_iff t.guid a.guid)

-- A managing actor's role is at most root's, so an outranked target is no root.
reach_of :
    (a t : Account)
    → valid_account t ≡ true
    → t.id ≢ a.id
    → t.guid ≢ a.guid
    → t.role <ℤ a.role
    → a.role ≤ℤ role_root
    → out_of_reach a t ≡ false
unfolding out_of_reach
reach_of a t v i g r m =
    ground (arith, v, eq_ℤ_iff t.id a.id, eq_ℤ_iff t.guid a.guid, eq_ℤ_iff t.role role_root)

manager_role : (e : Evaluator) → manager (some e) ≡ true → e.actor.role ≤ℤ role_root
unfolding manager
manager_role e h = ground (arith, eq_ℤ_iff e.actor.role role_root, eq_ℤ_iff e.actor.role role_admin)

-- Only a manager holds a capability, and of a defined, available one.
pub capability-allowed_needs :
    (e : Evaluator) (name : String)
    → capability (some e) name ≡ allowed
    → (manager (some e) ≡ true)
      × ((d : Definition) × (lookup name ≡ some d) × (d.unavailable ≡ false))
unfolding capability
capability-allowed_needs e name h = elim (Option-cases (lookup name)) [
  | inl p ↦ ground (arith, p)
  | inr (d, p) ↦ (ground (arith, p), (d, p, ground (arith, p)))
]

user_defined_of :
    (e : Evaluator) (name : String) (t : Account) (d : Definition)
    → in_scope d ≡ true
    → d.unavailable ≡ false
    → out_of_reach e.actor t ≡ false
    → tombstone_checked e name t ≡ allowed
    → user_defined e name t (some d) ≡ allowed
unfolding user_defined
user_defined_of e name t d s u r c = rw (s, u, r) c

user_inversion :
    (e : Evaluator) (name : String) (t : Account) (d : Definition)
    → lookup name ≡ some d
    → user (some e) name t ≡ allowed
    → (manager (some e) ≡ true)
      × (in_scope d ≡ true)
      × (out_of_reach e.actor t ≡ false)
      × (tombstone_checked e name t ≡ allowed)
unfolding user user_defined
user_inversion e name t d p h = ground (arith, p)

user_undefined :
    (e : Evaluator) (name : String) (t : Account)
    → lookup name ≡ none
    → user (some e) name t ≢ allowed
unfolding user user_defined
user_undefined e name t p h = ground (arith, p)

user_of :
    (e : Evaluator) (name : String) (t : Account) (d : Definition)
    → lookup name ≡ some d
    → manager (some e) ≡ true
    → user_defined e name t (some d) ≡ allowed
    → user (some e) name t ≡ allowed
unfolding user
user_of e name t d p m h = rw (m, p) h

user_allowed-MayManage :
    (e : Evaluator) (name : String) (t : Account) (d : Definition)
    → lookup name ≡ some d
    → user (some e) name t ≡ allowed
    → MayManage e name t
user_allowed-MayManage e name t d p h =
    let (m, s, r, c) = user_inversion e name t d p h in
    let (v, i, g, below) = in_reach e.actor t r in
    let (c', dead, live) = tombstone_allowed e name t c in
    let (holds, promotes, demotes, permits) = role_checked_allowed e name t c' in
    record {
      is_manager = m;
      is_target = v;
      not_self_id = i;
      not_self_guid = g;
      outranked = below;
      holds = holds;
      tombstones = dead;
      live = live;
      promotes_users = promotes;
      demotes_admins = demotes;
      permits_admins = permits;
    }

MayManage-user :
    (e : Evaluator) (name : String) (t : Account) (d : Definition)
    → lookup name ≡ some d
    → in_scope d ≡ true
    → MayManage e name t
    → user (some e) name t ≡ allowed
MayManage-user e name t d p s m = user_of e name t d p m.is_manager (
    user_defined_of e name t d s available
      (reach_of e.actor t m.is_target m.not_self_id m.not_self_guid m.outranked
        (manager_role e m.is_manager))
      (tombstone_of e name t
        (role_checked_of e name t m.holds m.promotes_users m.demotes_admins m.permits_admins)
        m.tombstones m.live))
  where
    available : d.unavailable ≡ false
    available =
        let (d', p', u) = (capability-allowed_needs e name m.holds).1 in ground (arith, p, p', u)

-- `User` allows exactly what the management rules permit, for a name that is defined with the user
-- scope.
pub user-MayManage :
    (e : Evaluator) (name : String) (t : Account)
    → (user (some e) name t ≡ allowed)
      ↔ (((d : Definition) × (lookup name ≡ some d) × (in_scope d ≡ true)) × MayManage e name t)
user-MayManage e name t = (
  λ h. elim (Option-cases (lookup name)) [
    | inl p ↦ absurd (user_undefined e name t p h)
    | inr (d, p) ↦
        ((d, p, (user_inversion e name t d p h).1), user_allowed-MayManage e name t d p h)
  ],
  λ k. MayManage-user e name t k.0.0 k.0.1 k.0.2 k.1,
)
