-- ===== src/Prelude/Dict.antt =====
-- Maps with string keys as association lists: a write replaces, a delete removes every entry of
-- the key.
use Prim.Native.String.{String}
use mathlib.Core.Path.{◌≡◌, refl}
use mathlib.Core.Bool.{Bool}
use mathlib.Core.Option.{Option, none, some}
use mathlib.Core.List.{List, [], ◌∷◌}
use native.Mathlib.Omega.{arith}
use text.Mathlib.Text.{◌==◌}
use text.Mathlib.TextEquality.{eq_iff}
use basecheck_agent.Prelude.Tests.{if◌then◌else◌}

abbrev pub Dict {ℓ} : Type ℓ → Type ℓ
Dict A = List (String × A)

module _ {ℓ} {A : Type ℓ} where
  unfoldable pub lookup : String → Dict A → Option A
  lookup key [] = none
  lookup key ((name, value) ∷ dict) = if name == key then some value else lookup key dict

  unfoldable pub insert : String → A → Dict A → Dict A
  insert key value [] = (key, value) ∷ []
  insert key value ((name, old) ∷ dict) =
      if name == key then (key, value) ∷ dict else (name, old) ∷ insert key value dict

  unfoldable pub delete : String → Dict A → Dict A
  delete key [] = []
  delete key ((name, old) ∷ dict) =
      if name == key then delete key dict else (name, old) ∷ delete key dict

  -- `for key, value := range dict { if !keep(value) { delete(dict, key) } }`
  unfoldable pub retain : (A → Bool) → Dict A → Dict A
  retain p [] = []
  retain p ((name, old) ∷ dict) =
      let rest = retain p dict in if p old then (name, old) ∷ rest else delete name rest

  abbrev pub values : Dict A → List A
  values [] = []
  values ((key, value) ∷ dict) = value ∷ values dict

  pub lookup-insert :
      (key name : String) (value : A) (dict : Dict A)
      → lookup name (insert key value dict) ≡ (if key == name then some value else lookup name dict)
  unfolding lookup insert
  lookup-insert key name value [] = refl
  lookup-insert key name value ((first, old) ∷ dict) = ground (
    arith,
    eq_iff key name,
    eq_iff first key,
    eq_iff first name,
    lookup-insert key name value dict,
  )

  pub lookup-delete :
      (key name : String) (dict : Dict A)
      → lookup name (delete key dict) ≡ (if key == name then none else lookup name dict)
  unfolding lookup delete
  lookup-delete key name [] = ground arith
  lookup-delete key name ((first, old) ∷ dict) =
      ground
        (arith, eq_iff key name, eq_iff first key, eq_iff first name, lookup-delete key name dict)

  abbrev pub only_if : (A → Bool) → Option A → Option A
  only_if p none = none
  only_if p (some value) = if p value then some value else none

  pub lookup-retain :
      (p : A → Bool) (name : String) (dict : Dict A)
      → lookup name (retain p dict) ≡ only_if p (lookup name dict)
  unfolding lookup retain
  lookup-retain p name [] = refl
  lookup-retain p name ((first, old) ∷ dict) = ground (
    arith,
    eq_iff first name,
    lookup-retain p name dict,
    lookup-delete first name (retain p dict),
  )

  -- No key has two entries.
  abbrev pub IsDistinct : Dict A → Type ℓ
  IsDistinct [] = Unit
  IsDistinct ((key, value) ∷ dict) = (lookup key dict ≡ none) × IsDistinct dict
