-- ===== src/Text/Order.antt =====
-- The order of keys, each a list of texts that are compared one after the other, and the stable sort
-- by a key (`sort.Strings` and `sort.SliceStable` of Go). It sorts by insertion.
pub mod Laws
pub mod Sort
use basecheck_agent.Prelude.{Bool, true, false, List, [], ◌∷◌, if◌then◌else◌}
use basecheck_agent.Text.{Text, text_eq, text_ltb}

-- The first texts that differ decide.
unfoldable pub keys_ltb : List Text → List Text → Bool
keys_ltb s [] = false
keys_ltb [] (d ∷ t) = true
keys_ltb (c ∷ s) (d ∷ t) = let rest = keys_ltb s t in if text_eq c d then rest else text_ltb c d

module _ {ℓ} {A : Type ℓ} (key : A → List Text) where
  -- In front of the first item that is not less.
  unfoldable pub insert_by : A → List A → List A
  insert_by x [] = x ∷ []
  insert_by x (y ∷ ys) =
      let rest = insert_by x ys in if keys_ltb (key y) (key x) then y ∷ rest else x ∷ (y ∷ ys)

  unfoldable pub sort_by : List A → List A
  sort_by [] = []
  sort_by (x ∷ xs) = insert_by x (sort_by xs)
