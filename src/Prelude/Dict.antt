-- ===== src/Prelude/Dict.antt =====
-- A Go map with text keys, as an association list in which a key stands at most once after `put`.
use Prim.Native.String.{String}
use mathlib.Core.Path.{◌≡◌, refl}
use mathlib.Core.Option.{Option, none, some}
use mathlib.Core.List.{List, [], ◌∷◌}
use native.Mathlib.Omega.{arith}
use text.Mathlib.Text.{◌==◌ as str_eq}
use text.Mathlib.TextEquality.{eq_iff}
use porsche.Prelude.Tests.{if◌then◌else◌}

abbrev pub Dict : Type 0 → Type 0
Dict V = List (String × V)

module _ {V : Type 0} where
  unfoldable pub get : Dict V → String → Option V
  get [] k = none
  get ((j, v) ∷ m) k = if str_eq j k then some v else get m k

  -- `m[k] = v`.
  unfoldable pub put : Dict V → String → V → Dict V
  put [] k v = (k, v) ∷ []
  put ((j, w) ∷ m) k v = if str_eq j k then (k, v) ∷ m else (j, w) ∷ put m k v

  -- `delete(m, k)`: every entry of the key goes.
  unfoldable pub delete : Dict V → String → Dict V
  delete [] k = []
  delete ((j, w) ∷ m) k = if str_eq j k then delete m k else (j, w) ∷ delete m k

  pub get-put :
      (m : Dict V) (k j : String) (v : V)
      → get (put m k v) j ≡ (if str_eq k j then some v else get m j)
  unfolding get put
  get-put [] k j v = refl
  get-put ((i, w) ∷ m) k j v = ground (arith, eq_iff k j, eq_iff i k, eq_iff i j, get-put m k j v)

  pub get-delete :
      (m : Dict V) (k j : String) → get (delete m k) j ≡ (if str_eq k j then none else get m j)
  unfolding get delete
  get-delete [] k j = ground arith
  get-delete ((i, w) ∷ m) k j = ground (arith, eq_iff k j, eq_iff i k, eq_iff i j, get-delete m k j)
