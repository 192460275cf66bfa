-- ===== src/Generation/Registry/Shutdown.antt =====
-- What holds from `CloseAndWait` on.
use porsche.Prelude.{ℕ, ◌≡◌, true, Option, none, some, List, [], ◌∷◌, false, All}
use porsche.Generation.Registry.Entries.{Entry}
use porsche.Generation.Registry.{World, cancel}

abbrev pub AllInvoked : List Entry → Type 0
AllInvoked es = All (λ (e : Entry). e.invoked ≡ true) es

-- After the shutdown's section: closed, every callback called, and `calls` as given.
pub record IsShut (calls : List ℕ) (w : World) : Type 0 where
  pub shut : w.closed ≡ true
  pub invoked : AllInvoked w.entries
  pub settled : w.calls ≡ calls

-- The callbacks of exactly the entries that are not marked as called, in their order.
pub data AreOwed : List Entry → List ℕ → Type 0 where
  nothing : AreOwed [] []
  already_called :
      (e : Entry) (es : List Entry) (calls : List ℕ)
      → e.invoked ≡ true
      → AreOwed es calls
      → AreOwed (e ∷ es) calls
  still_owed :
      (e : Entry) (es : List Entry) (calls : List ℕ)
      → e.invoked ≡ false
      → AreOwed es calls
      → AreOwed (e ∷ es) (e.cancel ∷ calls)

-- A panic is not excluded here but by Safety.
abbrev Stays : List ℕ → Option World → Type 0
Stays calls none = Unit
Stays calls (some w) = IsShut calls w
