-- ===== src/Config/Named.antt =====
-- The loops of Validate over a list of named items (pkg/config/config.go): each item needs a name
-- that no item before it has.
pub mod Laws
use basecheck_agent.Prelude.{ℕ, suc, Bool, Option, none, some, List, [], ◌∷◌, any, if◌then◌else◌}
use basecheck_agent.Text.{Text, text_eq}

-- What is wrong with an item.
pub data Fault {ℓ} (F : Type ℓ) : Type ℓ where
  missing_name : Fault F
  duplicate_name : Fault F
  detail : F → Fault F

module _ {ℓ κ} {A : Type ℓ} {F : Type κ} (name : A → Text) (is_nameless : A → Bool)
    (check : A → Option F) where
  -- The first item at fault, by its index; `seen` are the names before it.
  unfoldable pub validate_named : List Text → ℕ → List A → Option (ℕ × Fault F)
  validate_named seen i [] = none
  validate_named seen i (x ∷ xs) =
      let rest = validate_named (name x ∷ seen) (suc i) xs in
      if is_nameless x
      then some (i, missing_name)
      else if any (text_eq (name x)) seen
      then some (i, duplicate_name)
      else elim (check x) [ none ↦ rest | some f ↦ some (i, detail f) ]
