-- ===== src/Authz/Capability.antt =====
-- The capability decision itself: root's, an admin's, the menu of names, and the display table.
use porsche.Prelude.{
  String, ◌≡◌, refl, ◌⊎◌, inl, inr, true, false, Option, none, some, List, [], ◌∷◌, arith, str_eq,
  eq_iff, Bool-cases, Option-cases, ◌↔◌, All, In, subst, sym, In-if, In-if_head, In-if_tail,
}
use porsche.Prelude.Int.{ℤ, eq_ℤ, eq_ℤ_iff}
use porsche.Prelude.Dict
use porsche.Prelude.Dict.{Dict}
use porsche.Authz.Catalog.{Definition, lookup, lookup_in, definitions}
use porsche.Authz.Evaluator.{
  Effect, deny, allow, inherit, Evaluator, Decision, allowed, manager, capability, role_admin,
  role_root, is_allowed, effect_of, admin_decision, defined_capability, names_from,
  capability_names,
}

-- What an override, or its absence, grants of a definition.
pub data Grants (d : Definition) (x : Effect) : Type 0 where
  by_override : x ≡ allow → d.grantable ≡ true → Grants d x
  by_default : (x ≡ inherit) ⊎ (x ≡ "") → d.admin_default ≡ true → Grants d x

admin_decision-Grants : (d : Definition) (x : Effect) → admin_decision d x ≡ allowed → Grants d x
unfolding admin_decision
admin_decision-Grants d x h =
    grind
      (arith, eq_iff x deny, eq_iff x allow, eq_iff x inherit, eq_iff x "", by_override, by_default)

Grants-admin_decision : (d : Definition) (x : Effect) → Grants d x → admin_decision d x ≡ allowed
unfolding admin_decision
Grants-admin_decision d x (by_override e g) = rw (e, g) refl
Grants-admin_decision d x (by_default (inl e) g) = rw (e, g) refl
Grants-admin_decision d x (by_default (inr e) g) = rw (e, g) refl

pub capability_step :
    (e : Evaluator) (name : String)
    → manager (some e) ≡ true
    → capability (some e) name ≡ defined_capability e name (lookup name)
unfolding capability
capability_step e name m = rw m

pub root≢admin : (r : ℤ) → r ≡ role_admin → eq_ℤ r role_root ≡ false
root≢admin r p = rw p

-- Root holds exactly the defined, available capabilities: no override and no default limits it.
pub capability_root :
    (e : Evaluator) (name : String)
    → manager (some e) ≡ true
    → e.actor.role ≡ role_root
    → (capability (some e) name ≡ allowed)
      ↔ ((d : Definition) × (lookup name ≡ some d) × (d.unavailable ≡ false))
unfolding defined_capability
capability_root e name m r = (
  λ h. elim (Option-cases (lookup name)) [
    | inl p ↦ ground (arith, capability_step e name m, p)
    | inr (d, p) ↦ (d, p, ground (arith, capability_step e name m, p))
  ],
  λ (d, p, u). rw (capability_step e name m, p, u, (eq_ℤ_iff e.actor.role role_root).1 r) refl,
)

-- An admin holds exactly the defined, available capabilities that are not root's own and that the
-- effective override grants.
pub capability_admin :
    (e : Evaluator) (name : String)
    → manager (some e) ≡ true
    → e.actor.role ≡ role_admin
    → (capability (some e) name ≡ allowed) ↔ (
        (d : Definition) × (lookup name ≡ some d)
        × (d.unavailable ≡ false)
        × (d.root_only ≡ false)
        × Grants d (effect_of (Dict.get e.overrides name)))
unfolding defined_capability
capability_admin e name m r = (
  λ h. elim (Option-cases (lookup name)) [
    | inl p ↦ absurd (ground (arith, capability_step e name m, p))
    | inr (d, p) ↦ (
      d,
      p,
      ground (arith, capability_step e name m, p),
      ground (arith, capability_step e name m, p, root≢admin e.actor.role r),
      admin_decision-Grants d _
          (ground (arith, capability_step e name m, p, root≢admin e.actor.role r)),
    )
  ],
  λ (d, p, u, o, g).
      rw (capability_step e name m, p, u, root≢admin e.actor.role r, o)
        (Grants-admin_decision d _ g),
)

lookup_in-name :
    (ds : List Definition) (name : String) (d : Definition)
    → lookup_in ds name ≡ some d
    → (d.name ≡ name) × In d ds
unfolding lookup_in
lookup_in-name [] name d h = cc
lookup_in-name (x ∷ ds) name d h = elim (Bool-cases (str_eq x.name name)) [
  | inl e ↦
      let same : x ≡ d = ground (arith, e) in
      (subst (λ (y : Definition). y.name ≡ name) same ((eq_iff x.name name).0 e), inl same)
  | inr e ↦ let rest = lookup_in-name ds name d (ground (arith, e)) in (rest.0, inr rest.1)
]

-- Every row of the catalog is found under its own name.
pub rows_found : All (λ (d : Definition). lookup d.name ≡ some d) definitions
unfolding lookup definitions
rows_found = (
  refl,
  (
    refl,
    (
      refl,
      (
        refl,
        (
          refl,
          (
            refl,
            (
              refl,
              (
                refl,
                (
                  refl,
                  (
                    refl,
                    (
                      refl,
                      (
                        refl,
                        (
                          refl,
                          (
                            refl,
                            (
                              refl,
                              (
                                refl,
                                (refl, (refl, (refl, (refl, (refl, (refl, (refl, (refl, tt)))))))),
                              ),
                            ),
                          ),
                        ),
                      ),
                    ),
                  ),
                ),
              ),
            ),
          ),
        ),
      ),
    ),
  ),
)

pub lookup-name :
    (name : String) (d : Definition) → lookup name ≡ some d → (d.name ≡ name) × In d definitions
unfolding lookup
lookup-name name d h = lookup_in-name definitions name d h

is_allowed→allowed : (c : Decision) → is_allowed c ≡ true → c ≡ allowed
unfolding is_allowed
is_allowed→allowed c h = ground arith

-- A name enters the menu of names exactly if its capability is allowed.
names_from_sound :
    (e : Option Evaluator) (ds : List Definition) (name : String)
    → In name (names_from e ds)
    → capability e name ≡ allowed
unfolding names_from is_allowed
names_from_sound e [] name h = absurd h
names_from_sound e (d ∷ ds) name h =
    elim (In-if (is_allowed (capability e d.name)) name d.name (names_from e ds) h) [
      | inl (a, p) ↦
          subst (λ (n : String). capability e n ≡ allowed) p
            (is_allowed→allowed (capability e d.name) a)
      | inr m ↦ names_from_sound e ds name m
    ]

names_from_complete :
    (e : Option Evaluator) (ds : List Definition) (d : Definition)
    → In d ds
    → capability e d.name ≡ allowed
    → In d.name (names_from e ds)
unfolding names_from is_allowed
names_from_complete e [] d m h = absurd m
names_from_complete e (x ∷ ds) d (inl p) h =
    subst (λ (y : Definition). In y.name (names_from e (x ∷ ds))) p
      (In-if_head (is_allowed (capability e x.name)) x.name (names_from e ds) (rw (p, h) refl))
names_from_complete e (x ∷ ds) d (inr m) h =
    In-if_tail (is_allowed (capability e x.name)) d.name x.name (names_from e ds)
      (names_from_complete e ds d m h)

capability_defined :
    (e : Option Evaluator) (name : String)
    → capability e name ≡ allowed
    → (d : Definition) × (lookup name ≡ some d)
unfolding capability defined_capability
capability_defined none name h = absurd (ground arith)
capability_defined (some e) name h = elim (Option-cases (lookup name)) [
  | inl p ↦ absurd (ground (arith, p))
  | inr (d, p) ↦ (d, p)
]

-- The menu of names is the set of the capabilities that the evaluator allows, for every name and
-- for a nil evaluator too.
pub capability_names_iff :
    (e : Option Evaluator) (name : String)
    → In name (capability_names e) ↔ (capability e name ≡ allowed)
unfolding capability_names
capability_names_iff e name = (
  names_from_sound e definitions name,
  λ h.
      let (d, p) = capability_defined e name h in
      let (same, row) = lookup-name name d p in
      subst (λ (n : String). In n (names_from e definitions)) same
        (names_from_complete e definitions d row
          (subst (λ (n : String). capability e n ≡ allowed) (sym same) h)),
)
