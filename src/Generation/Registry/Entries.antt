-- ===== src/Generation/Registry/Entries.antt =====
-- The map of the registry, as a list of entries with distinct keys.
use porsche.Prelude.{
  ℕ, ◌+◌, String, ◌≡◌, ◌↔◌, Bool, true, false, ◌&&◌, Option, none, some, List, [], ◌∷◌, str_eq,
  eq_iff, ◌==◌, if◌then◌else◌, arith, All,
}
use porsche.Prelude.Int.{ℤ, eq_ℤ, eq_ℤ_iff}

pub record Key : Type 0 where
  pub user_id : ℤ
  pub generation_id : String

pub record Entry : Type 0 where
  pub key : Key
  pub token : String
  pub cancel : ℕ
  pub invoked : Bool

unfoldable pub keys_eq : Key → Key → Bool
keys_eq j k = eq_ℤ j.user_id k.user_id && str_eq j.generation_id k.generation_id

pub keys_eq_iff : (j k : Key) → (keys_eq j k ≡ true) ↔ (j ≡ k)
unfolding keys_eq
keys_eq_iff j k =
    ground (arith, eq_ℤ_iff j.user_id k.user_id, eq_iff j.generation_id k.generation_id)

unfoldable pub find : Key → List Entry → Option Entry
find k [] = none
find k (e ∷ es) = if keys_eq e.key k then some e else find k es

-- `r.entries[entry.key] = entry`.
unfoldable pub insert : Entry → List Entry → List Entry
insert x [] = x ∷ []
insert x (e ∷ es) = if keys_eq e.key x.key then x ∷ es else e ∷ insert x es

unfoldable pub remove : Key → List Entry → List Entry
remove k [] = []
remove k (e ∷ es) = if keys_eq e.key k then es else e ∷ remove k es

-- The loop of `CloseAndWait`: the marked entries, and the callbacks to call.
unfoldable pub invoke_all : List Entry → List Entry × List ℕ
invoke_all [] = ([], [])
invoke_all (e ∷ es) =
    let (marked, cancels) = invoke_all es in
    if e.invoked
    then (e ∷ marked, cancels)
    else (record e { invoked = true } ∷ marked, e.cancel ∷ cancels)

-- No entry has the key.
abbrev pub NoKey : Key → List Entry → Type 0
NoKey k es = All (λ (e : Entry). keys_eq e.key k ≡ false) es

abbrev pub Distinct : List Entry → Type 0
Distinct [] = Unit {0}
Distinct (e ∷ es) = NoKey e.key es × Distinct es

-- How often a callback stands in a list.
unfoldable pub count : ℕ → List ℕ → ℕ
count c [] = 0
count c (x ∷ xs) = (if x == c then 1 else 0) + count c xs

-- How many entries hold the callback and have not called it.
unfoldable pub pending : ℕ → List Entry → ℕ
pending c [] = 0
pending c (e ∷ es) = (if e.invoked then 0 else if e.cancel == c then 1 else 0) + pending c es
