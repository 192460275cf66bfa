-- ===== src/Authz/Construction.antt =====
-- Building an evaluator: which accounts and override lists are accepted, and what is then stored.
use porsche.Prelude.{
  String, ◌≡◌, refl, ◌≢◌, ◌⊎◌, true, false, Option, none, some, List, [], ◌∷◌, arith, str_eq,
  eq_iff, if◌then◌else◌, All, ok, ◌↔◌, bind-ok, subst,
}
use porsche.Prelude.Int.{pos, eq_ℤ_iff}
use porsche.Prelude.Dict
use porsche.Prelude.Dict.{Dict, get-put}
use porsche.Authz.Catalog.{lookup}
use porsche.Authz.Evaluator.{
  Effect, Account, Override, Evaluator, valid_account, overridable, known_effect, is_present,
  validate_override, validate_from, validate_overrides, new_evaluator, role_admin, status_active,
}

-- A rule that may be stored: its capability may be overridden, and its effect is one of the three.
abbrev pub IsRule : Override → Type 0
IsRule r = (overridable (lookup r.capability) ≡ true) × (known_effect r.effect ≡ true)

-- No capability is named twice.
abbrev pub NoRepeat : List Override → Type 0
NoRepeat [] = Unit {0}
NoRepeat (r ∷ rs) = All (λ (s : Override). r.capability ≢ s.capability) rs × NoRepeat rs

-- The effect that a list of rules asks for.
unfoldable pub override_for : List Override → String → Option Effect
override_for [] k = none
override_for (r ∷ rs) k = if str_eq r.capability k then some r.effect else override_for rs k

abbrev Absent : Dict Effect → List Override → Type 0
Absent m = All (λ (r : Override). Dict.get m r.capability ≡ none)

is_present-none : (o : Option Effect) → is_present o ≡ false → o ≡ none
unfolding is_present
is_present-none o h = ground arith

validate_override-ok :
    (m m' : Dict Effect) (r : Override)
    → validate_override m r ≡ ok m'
    → IsRule r × (Dict.get m r.capability ≡ none) × (m' ≡ Dict.put m r.capability r.effect)
unfolding validate_override
validate_override-ok m m' r h = ground (arith, is_present-none (Dict.get m r.capability))

validate_override_of :
    (m : Dict Effect) (r : Override)
    → IsRule r
    → Dict.get m r.capability ≡ none
    → validate_override m r ≡ ok (Dict.put m r.capability r.effect)
unfolding validate_override
validate_override_of m r (a, b) c = rw (a, b, c) refl

Absent-put :
    (m : Dict Effect) (k : String) (v : Effect) (rs : List Override)
    → Absent (Dict.put m k v) rs
    → Absent m rs × All (λ (s : Override). k ≢ s.capability) rs
Absent-put m k v [] h = (tt, tt)
Absent-put m k v (r ∷ rs) h =
    let rest = Absent-put m k v rs h.1 in
    (
      (ground (arith, get-put m k r.capability v), rest.0),
      (ground (arith, get-put m k r.capability v, eq_iff k r.capability), rest.1),
    )

put-Absent :
    (m : Dict Effect) (k : String) (v : Effect) (rs : List Override)
    → Absent m rs
    → All (λ (s : Override). k ≢ s.capability) rs
    → Absent (Dict.put m k v) rs
put-Absent m k v [] h d = tt
put-Absent m k v (r ∷ rs) h d =
    (ground (arith, get-put m k r.capability v, eq_iff k r.capability), put-Absent m k v rs h.1 d.1)

validate_from-ok :
    (m m' : Dict Effect) (rs : List Override)
    → validate_from m rs ≡ ok m'
    → All IsRule rs × Absent m rs × NoRepeat rs
unfolding validate_from
validate_from-ok m m' [] h = (tt, tt, tt)
validate_from-ok m m' (r ∷ rs) h =
    let (m₁, step, rest) = bind-ok (validate_override m r) (λ c. validate_from c rs) h in
    let (rule, absent, put) = validate_override-ok m m₁ r step in
    let (rules, absents, distinct) = validate_from-ok m₁ m' rs rest in
    let (absents', ne) =
      Absent-put m r.capability r.effect rs
        (subst (λ (c : Dict Effect). Absent c rs) put absents) in
    ((rule, rules), (absent, absents'), (ne, distinct))

validate_from_of :
    (m : Dict Effect) (rs : List Override)
    → All IsRule rs
    → Absent m rs
    → NoRepeat rs
    → (m' : Dict Effect) × (validate_from m rs ≡ ok m')
unfolding validate_from
validate_from_of m [] a b c = (m, refl)
validate_from_of m (r ∷ rs) (rule, rules) (absent, absents) (ne, distinct) =
    let (m', e) =
      validate_from_of (Dict.put m r.capability r.effect) rs rules
        (put-Absent m r.capability r.effect rs absents ne) distinct in
    (m', rw (validate_override_of m r rule absent) e)

abbrev or_else : Option Effect → Option Effect → Option Effect
or_else none o = o
or_else (some x) o = some x

-- What is stored under a name: what the rules ask for it, or what was there.
override_for-absent :
    (k : String) (rs : List Override)
    → All (λ (s : Override). k ≢ s.capability) rs
    → override_for rs k ≡ none
unfolding override_for
override_for-absent k [] h = refl
override_for-absent k (r ∷ rs) h =
    ground (arith, eq_iff r.capability k, override_for-absent k rs h.1)

get-validate_from :
    (m m' : Dict Effect) (rs : List Override) (k : String)
    → validate_from m rs ≡ ok m'
    → NoRepeat rs
    → Dict.get m' k ≡ or_else (override_for rs k) (Dict.get m k)
unfolding validate_from override_for
get-validate_from m m' [] k h d = ground arith
get-validate_from m m' (r ∷ rs) k h d =
    let (m₁, step, rest) = bind-ok (validate_override m r) (λ c. validate_from c rs) h in
    let (rule, absent, put) = validate_override-ok m m₁ r step in
    ground (
      arith,
      get-validate_from m₁ m' rs k rest d.1,
      put,
      get-put m r.capability k r.effect,
      eq_iff r.capability k,
      override_for-absent r.capability rs d.0,
    )

get-empty : (k : String) → Dict.get {V = Effect} [] k ≡ none
unfolding Dict.get
get-empty k = refl

or_else-none : (o : Option Effect) → or_else o none ≡ o
or_else-none none = refl
or_else-none (some x) = refl

-- An override list is accepted exactly if each rule may be stored and no capability is named
-- twice.
pub validate_overrides_iff :
    (rs : List Override)
    → ((m : Dict Effect) × (validate_overrides rs ≡ ok m)) ↔ (All IsRule rs × NoRepeat rs)
unfolding validate_overrides
validate_overrides_iff rs = (
  λ (m, h). let (rules, absent, distinct) = validate_from-ok [] m rs h in (rules, distinct),
  λ (rules, distinct). validate_from_of [] rs rules (nothing rs) distinct,
)
  where
    nothing : (xs : List Override) → Absent [] xs
    nothing [] = tt
    nothing (x ∷ xs) = (get-empty x.capability, nothing xs)

-- An accepted list is stored as it was asked for: under each name the effect that the list gives it.
pub get-validate_overrides :
    (rs : List Override) (m : Dict Effect) (k : String)
    → validate_overrides rs ≡ ok m
    → Dict.get m k ≡ override_for rs k
unfolding validate_overrides
get-validate_overrides rs m k h = ground (
  arith,
  get-validate_from [] m rs k h (validate_from-ok [] m rs h).2,
  get-empty k,
  or_else-none (override_for rs k),
)

-- A built evaluator keeps its account and its rules, and its account is a live, active one.
pub new_evaluator-ok :
    (a : Account) (rs : List Override) (e : Evaluator)
    → new_evaluator a rs ≡ ok e
    → (e.actor ≡ a)
      × (validate_overrides rs ≡ ok e.overrides)
      × (valid_account a ≡ true)
      × (a.is_deleted ≡ pos 0)
      × (a.status ≡ status_active)
      × ((rs ≡ []) ⊎ (a.role ≡ role_admin))
unfolding new_evaluator
new_evaluator-ok a [] e h =
    ground (arith, eq_ℤ_iff a.is_deleted (pos 0), eq_ℤ_iff a.status status_active)
new_evaluator-ok a (r ∷ rs) e h = ground (
  arith,
  eq_ℤ_iff a.is_deleted (pos 0),
  eq_ℤ_iff a.status status_active,
  eq_ℤ_iff a.role role_admin,
)
