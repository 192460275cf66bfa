-- ===== src/Intent/Alike.antt =====
-- The intents that say the same, whatever the order of their lists and the space around a reason.
use porsche.Prelude.{
  ℕ, ◌≡◌, ◌↔◌, ◌⊎◌, refl, sym, ap, ◌∙◌, inl, inr, String, true, Option, none, some, List, [], ◌∷◌,
  ◌++◌, All, In, arith, Bool-cases, subst, eq_iff,
}
use Prim.Native.Char.{Char, code}
use porsche.Generation.Identity.{codes, is_space}
use porsche.Intent.Texts.{trim_left, trim_right, trim_space, keep_space, lt_text}
use porsche.Intent.Forms.{
  Override, CreateAccount, PermissionsChange, Demote, DeleteUser, insert, sort, unique_after,
  same_as, Intent, create_account, promote, permissions_write, demote, delete_user,
}
use porsche.Intent.Canonical.{sorted_overrides}
use porsche.Intent.Encoders.{account_models}

-- The same items, in whatever order and however often.
abbrev pub SameItems : {A : Type 0} → List A → List A → Type 0
SameItems {A} xs ys = (a : A) → In a xs ↔ In a ys

abbrev pub AllSpace : List ℕ → Type 0
AllSpace cs = All (λ (n : ℕ). is_space n ≡ true) cs

-- The code points of the text are the core with space around it.
pub record IsSpaced (core : List ℕ) (reason : String) : Type 0 where
  pub before : List ℕ
  pub after : List ℕ
  pub space_before : AllSpace before
  pub space_after : AllSpace after
  pub around : codes reason ≡ before ++ (core ++ after)

-- The same text but for the space around it.
abbrev pub SameText : String → String → Type 0
SameText a b = (core : List ℕ) × IsSpaced core a × IsSpaced core b

-- Two intents that say the same.
pub data IsAlike : Intent → Intent → Type 0 where
  equal : (x y : Intent) → x ≡ y → IsAlike x y
  accounts :
      (i j : CreateAccount)
      → record i { allowed_models = []; overrides = [] }
        ≡ record j { allowed_models = []; overrides = [] }
      → SameItems i.allowed_models j.allowed_models
      → SameItems i.overrides j.overrides
      → IsAlike (create_account i) (create_account j)
  promotions :
      (i j : PermissionsChange)
      → record i { overrides = []; reason = "" } ≡ record j { overrides = []; reason = "" }
      → SameItems i.overrides j.overrides
      → SameText i.reason j.reason
      → IsAlike (promote i) (promote j)
  writings :
      (i j : PermissionsChange)
      → record i { overrides = []; reason = "" } ≡ record j { overrides = []; reason = "" }
      → SameItems i.overrides j.overrides
      → SameText i.reason j.reason
      → IsAlike (permissions_write i) (permissions_write j)
  demotions :
      (i j : Demote)
      → record i { reason = "" } ≡ record j { reason = "" }
      → SameText i.reason j.reason
      → IsAlike (demote i) (demote j)
  deletions :
      (i j : DeleteUser)
      → record i { reason = "" } ≡ record j { reason = "" }
      → SameText i.reason j.reason
      → IsAlike (delete_user i) (delete_user j)

module _ {A : Type 0} (key : A → String) where
  In-insert : (x a : A) (bs : List A) → In x (insert key a bs) ↔ ((a ≡ x) ⊎ In x bs)
  unfolding insert
  In-insert x a [] = ground arith
  In-insert x a (b ∷ bs) = elim (Bool-cases (lt_text (key b) (key a))) [
    | inl p ↦ ground (arith, p, In-insert x a bs)
    | inr p ↦ ground (arith, p)
  ]

  In-sort : (x : A) (xs : List A) → In x (sort key xs) ↔ In x xs
  unfolding sort
  In-sort x [] = ground arith
  In-sort x (a ∷ xs) = ground (arith, In-insert x a (sort key xs), In-sort x xs)

  sort-SameItems : (xs ys : List A) → sort key xs ≡ sort key ys → SameItems xs ys
  sort-SameItems xs ys e a = (
    (λ m. (In-sort a ys).0 (subst (In a) e ((In-sort a xs).1 m))),
    (λ m. (In-sort a xs).0 (subst (In a) (sym e) ((In-sort a ys).1 m))),
  )

unique_after-In :
    (last : Option String) (x : String) (ms : List String) → In x (unique_after last ms) → In x ms
unfolding unique_after
unique_after-In last x [] h = h
unique_after-In last x (m ∷ ms) h = elim (Bool-cases (same_as last m)) [
  | inl p ↦ inr (unique_after-In last x ms (ground (arith, p, h)))
  | inr p ↦ ground (arith, p, h, unique_after-In (some m) x ms)
]

same_as-some : (last : Option String) (m : String) → same_as last m ≡ true → last ≡ some m
same_as-some none m h = absurd (ground arith)
same_as-some (some l) m h = ground (arith, eq_iff l m)

In-unique_after :
    (last : Option String) (x : String) (ms : List String)
    → In x ms
    → (last ≡ some x) ⊎ In x (unique_after last ms)
unfolding unique_after
In-unique_after last x [] h = absurd h
In-unique_after last x (m ∷ ms) h = elim (Bool-cases (same_as last m)) [
  | inl p ↦ ground (arith, p, h, same_as-some last m p, In-unique_after last x ms)
  | inr p ↦ ground (arith, p, h, In-unique_after (some m) x ms)
]

In-account_models :
    (x : String) (i : CreateAccount) → In x (account_models i) ↔ In x i.allowed_models
unfolding account_models
In-account_models x i =
    let ms = sort (λ (m : String). m) i.allowed_models in
    let (there, back) = In-sort (λ (m : String). m) x i.allowed_models in
    (
      (λ h. there (unique_after-In none x ms h)),
      (λ h. elim (In-unique_after none x ms (back h)) [
        | inl e ↦ absurd (ground (arith, e))
        | inr m ↦ m
      ]),
    )

pub account_models-SameItems :
    (i j : CreateAccount)
    → account_models i ≡ account_models j
    → SameItems i.allowed_models j.allowed_models
account_models-SameItems i j e a = (
  (λ m. (In-account_models a j).0 (subst (In a) e ((In-account_models a i).1 m))),
  (λ m. (In-account_models a i).0 (subst (In a) (sym e) ((In-account_models a j).1 m))),
)

pub sorted_overrides-SameItems :
    (xs ys : List Override) → sorted_overrides xs ≡ sorted_overrides ys → SameItems xs ys
unfolding sorted_overrides
sorted_overrides-SameItems xs ys e = sort-SameItems (λ o. o.capability) xs ys e

trim_left-codes :
    (s : String) → (before : List ℕ) × AllSpace before × (codes s ≡ before ++ codes (trim_left s))
unfolding trim_left
trim_left-codes String.[] = ([], tt, refl)
trim_left-codes (String.◌∷◌ c s) = elim (Bool-cases (is_space (code c))) [
  | inl p ↦
      let (before, h, e) = trim_left-codes s in (code c ∷ before, (p, h), ground (arith, p, e))
  | inr p ↦ ([], tt, ground (arith, p))
]

keep_space-codes :
    (c : Char) (t : String) (after : List ℕ)
    → AllSpace after
    → (rest : List ℕ) × AllSpace rest
      × (code c ∷ (codes t ++ after) ≡ codes (keep_space c t) ++ rest)
keep_space-codes c String.[] after h = elim (Bool-cases (is_space (code c))) [
  | inl p ↦ (code c ∷ after, (p, h), rw p refl)
  | inr p ↦ (after, h, rw p refl)
]
keep_space-codes c (String.◌∷◌ d t) after h = (after, h, refl)

trim_right-codes :
    (s : String) → (after : List ℕ) × AllSpace after × (codes s ≡ codes (trim_right s) ++ after)
unfolding trim_right
trim_right-codes String.[] = ([], tt, refl)
trim_right-codes (String.◌∷◌ c s) =
    let (after, h, e) = trim_right-codes s in
    let (rest, k, d) = keep_space-codes c (trim_right s) after h in (rest, k, ground (arith, e, d))

trim_space-IsSpaced : (s : String) → IsSpaced (codes (trim_space s)) s
unfolding trim_space
trim_space-IsSpaced s =
    let (before, h, e) = trim_left-codes s in
    let (after, k, d) = trim_right-codes (trim_left s) in
    record {
      before = before;
      after = after;
      space_before = h;
      space_after = k;
      around = e ∙ ap (λ x. before ++ x) d;
    }

pub trim_space-SameText : (a b : String) → trim_space a ≡ trim_space b → SameText a b
trim_space-SameText a b e = (
  codes (trim_space a),
  trim_space-IsSpaced a,
  subst (λ (t : String). IsSpaced (codes t) b) (sym e) (trim_space-IsSpaced b),
)
