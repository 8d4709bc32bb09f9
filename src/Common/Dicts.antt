-- ===== src/Common/Dicts.antt =====
-- Dictionaries with texts as keys, in the order of insertion.
use mathlib.Core.Path.{◌≡◌, refl}
use mathlib.Core.Option.{Option, none, some}
use mathlib.Core.List.{List, [], ◌∷◌}
use Prim.Native.String.{String}
use text.Mathlib.Text.{◌==◌ as str_eq}
use text.Mathlib.TextEquality.{eq_iff}
use native.Mathlib.Omega.{arith}
use clartt_capital.Common.Tests.{if◌then◌else◌}

module _ {ℓ} {A : Type ℓ} where
  abbrev pub lookup : String → List (String × A) → Option A
  lookup k [] = none
  lookup k ((j, v) ∷ d) = if str_eq j k then some v else lookup k d

  abbrev pub put : String → A → List (String × A) → List (String × A)
  put k v [] = (k, v) ∷ []
  put k v ((j, u) ∷ d) = if str_eq j k then (j, v) ∷ d else (j, u) ∷ put k v d

  abbrev pub delete : String → List (String × A) → List (String × A)
  delete k [] = []
  delete k ((j, v) ∷ d) = if str_eq j k then delete k d else (j, v) ∷ delete k d

  abbrev pub keys : List (String × A) → List String
  keys [] = []
  keys ((k, _) ∷ d) = k ∷ keys d

  pub lookup-put :
      (k j : String) (v : A) (d : List (String × A))
      → lookup j (put k v d) ≡ (if str_eq k j then some v else lookup j d)
  lookup-put k j v [] = refl
  lookup-put k j v ((i, u) ∷ d) =
      ground (arith, eq_iff i k, eq_iff k j, eq_iff i j, lookup-put k j v d)

  pub lookup-delete :
      (k j : String) (d : List (String × A))
      → lookup j (delete k d) ≡ (if str_eq k j then none else lookup j d)
  lookup-delete k j [] = ground arith
  lookup-delete k j ((i, u) ∷ d) =
      ground (arith, eq_iff i k, eq_iff k j, eq_iff i j, lookup-delete k j d)

  pub delete_absent : (k : String) (d : List (String × A)) → lookup k d ≡ none → delete k d ≡ d
  delete_absent k [] h = refl
  delete_absent k ((i, u) ∷ d) h = ground (arith, delete_absent k d)
