-- ===== src/Authz/Display/Agreement.antt =====
-- The displayed table against the evaluator that the same account and rules build.
use porsche.Prelude.{
  String, ◌||◌, ◌≡◌, refl, ◌⊎◌, inl, inr, Bool, true, false, some, List, [], ◌∷◌, arith, str_eq,
  eq_iff, if◌then◌else◌, All, ok, subst, Bool-cases,
}
use porsche.Prelude.Int.{pos, eq_ℤ_iff}
use porsche.Prelude.Dict
use porsche.Prelude.Dict.{Dict}
use porsche.Authz.Catalog.{Definition, definitions, lookup}
use porsche.Authz.Evaluator.{
  Account, Override, Evaluator, Effect, deny, allow, inherit, valid_account, manager, capability,
  allowed, denied, is_allowed, admin_decision, effect_of, validate_overrides, new_evaluator,
  role_admin, status_active, known_effect, defined_capability,
}
use porsche.Authz.Construction.{
  new_evaluator-ok, IsRule, override_for, get-validate_overrides, validate_overrides_iff,
}
use porsche.Authz.Capability.{rows_found, capability_step, root≢admin}
use porsche.Authz.Display.{
  AdminDisplayCapability, display_capability, display_from, project_admin_policy, policy_of,
  shown_effect,
}

-- Effects that a built evaluator stores, and the missing one.
abbrev IsStored : Effect → Type 0
IsStored x = (known_effect x ≡ true) ⊎ (x ≡ "")

override_for-IsStored :
    (rs : List Override) (k : String) → All IsRule rs → IsStored (effect_of (override_for rs k))
unfolding override_for effect_of
override_for-IsStored [] k h = inr refl
override_for-IsStored (r ∷ rs) k h = elim (Bool-cases (str_eq r.capability k)) [
  | inl e ↦ rw e (inl h.0.1)
  | inr e ↦ rw e (override_for-IsStored rs k h.1)
]

stored_cases : (x : Effect) → IsStored x → (x ≡ deny) ⊎ (x ≡ allow) ⊎ (x ≡ inherit) ⊎ (x ≡ "")
unfolding known_effect
stored_cases x h = ground (arith, eq_iff x deny, eq_iff x allow, eq_iff x inherit)

is_allowed-if : (b : Bool) → b ≡ is_allowed (if b then allowed else denied)
unfolding is_allowed
is_allowed-if true = refl
is_allowed-if false = refl

-- On a row that is not root's own and not unavailable the policy column is the admin's decision.
policy_of-decision :
    (d : Definition) (x : Effect)
    → IsStored x
    → d.root_only ≡ false
    → d.unavailable ≡ false
    → policy_of d (shown_effect x) ≡ is_allowed (admin_decision d x)
unfolding policy_of shown_effect admin_decision
policy_of-decision d x h o u = elim (stored_cases x h) [
  | inl e ↦ rw (e, o, u) (is_allowed-if false)
  | inr (inl e) ↦ rw (e, o, u) (is_allowed-if d.grantable)
  | inr (inr (inl e)) ↦ rw (e, o, u) (is_allowed-if d.admin_default)
  | inr (inr (inr e)) ↦ rw (e, o, u) (is_allowed-if d.admin_default)
]

policy_of-refused :
    (d : Definition) (x : Effect) → (d.root_only || d.unavailable) ≡ true → policy_of d x ≡ false
unfolding policy_of
policy_of-refused d x h = rw h

decision_of_row :
    (e : Evaluator) (d : Definition)
    → manager (some e) ≡ true
    → e.actor.role ≡ role_admin
    → lookup d.name ≡ some d
    → is_allowed (capability (some e) d.name) ≡ (
        if d.root_only || d.unavailable
        then false
        else is_allowed (admin_decision d (effect_of (Dict.get e.overrides d.name))))
unfolding defined_capability is_allowed
decision_of_row e d m r p = ground (arith, capability_step e d.name m, p, root≢admin e.actor.role r)

policy_of_row :
    (e : Evaluator) (d : Definition)
    → manager (some e) ≡ true
    → e.actor.role ≡ role_admin
    → lookup d.name ≡ some d
    → IsStored (effect_of (Dict.get e.overrides d.name))
    → policy_of d (shown_effect (effect_of (Dict.get e.overrides d.name)))
      ≡ is_allowed (capability (some e) d.name)
policy_of_row e d m r p s = ground (
  arith,
  decision_of_row e d m r p,
  policy_of-refused d (shown_effect (effect_of (Dict.get e.overrides d.name))),
  policy_of-decision d (effect_of (Dict.get e.overrides d.name)) s,
)

-- A row shows the decisions of the evaluator, before and after the account's status is asked.
abbrev pub Shows : Evaluator → AdminDisplayCapability → Type 0
Shows e c =
    (c.policy_effective ≡ is_allowed (capability (some e) c.name))
    × (c.effective ≡ is_allowed (capability (some e) c.name))

row_Shows :
    (e : Evaluator) (d : Definition)
    → manager (some e) ≡ true
    → e.actor.role ≡ role_admin
    → e.actor.status ≡ status_active
    → lookup d.name ≡ some d
    → IsStored (effect_of (Dict.get e.overrides d.name))
    → Shows e (display_capability e.actor e.overrides d)
unfolding display_capability
row_Shows e d m r a p s = (
  policy_of_row e d m r p s,
  rw ((eq_ℤ_iff e.actor.status status_active).1 a) (policy_of_row e d m r p s),
)

rows_Show :
    (e : Evaluator) (ds : List Definition)
    → manager (some e) ≡ true
    → e.actor.role ≡ role_admin
    → e.actor.status ≡ status_active
    → All (λ (d : Definition). lookup d.name ≡ some d) ds
    → ((k : String) → IsStored (effect_of (Dict.get e.overrides k)))
    → All (Shows e) (display_from e.actor e.overrides ds)
unfolding display_from
rows_Show e [] m r a p s = tt
rows_Show e (d ∷ ds) m r a p s = (row_Shows e d m r a p.0 (s d.name), rows_Show e ds m r a p.1 s)

all_IsStored :
    (rs : List Override) (m : Dict Effect)
    → validate_overrides rs ≡ ok m
    → (k : String) → IsStored (effect_of (Dict.get m k))
all_IsStored rs m h k =
    rw (get-validate_overrides rs m k h)
      (override_for-IsStored rs k ((validate_overrides_iff rs).0 (m, h)).0)

projected :
    (a : Account) (rs : List Override) (m : Dict Effect) (cs : List AdminDisplayCapability)
    → validate_overrides rs ≡ ok m
    → project_admin_policy a rs ≡ ok cs
    → (a.role ≡ role_admin) × (cs ≡ display_from a m definitions)
unfolding project_admin_policy
projected a rs m cs v h = ground (arith, v, eq_ℤ_iff a.role role_admin)

active_manager :
    (e : Evaluator)
    → valid_account e.actor ≡ true
    → e.actor.is_deleted ≡ pos 0
    → e.actor.status ≡ status_active
    → e.actor.role ≡ role_admin
    → manager (some e) ≡ true
unfolding manager
active_manager e v d s r = rw (v, d, s, r) refl

-- Where an account and its rules build an evaluator and are also shown as an admin's table, each
-- row of the table shows exactly whether that evaluator allows the row's capability.
pub project_admin_policy-capability :
    (a : Account) (rs : List Override) (e : Evaluator) (cs : List AdminDisplayCapability)
    → new_evaluator a rs ≡ ok e
    → project_admin_policy a rs ≡ ok cs
    → All (Shows e) cs
project_admin_policy-capability a rs e cs built shown =
    let (actor, stored, valid, deleted, active, _) = new_evaluator-ok a rs e built in
    let (role, table) = projected a rs e.overrides cs stored shown in
    let v : valid_account e.actor ≡ true = rw actor valid in
    let d : e.actor.is_deleted ≡ pos 0 = rw actor deleted in
    let t : e.actor.status ≡ status_active = rw actor active in
    let r : e.actor.role ≡ role_admin = rw actor role in
    rw table (
      subst (λ (b : Account). All (Shows e) (display_from b e.overrides definitions)) actor
        (rows_Show e definitions (active_manager e v d t r) r t rows_found
          (all_IsStored rs e.overrides stored)))
