-- ===== src/Control.antt =====
-- pkg/controlset: controls, their procedures and the conditions on the rows of a query. A text is
-- a list of bytes, and it is ASCII. A row is in the order in which Go happens to walk the map.
pub mod Condition
pub mod Title
pub mod Procedure
pub mod Watermark
pub mod Compatibility
pub mod Access
pub mod Capture
pub mod Fetch
pub mod Canonical
pub mod Convert
mod Examples
use basecheck_agent.Prelude.{ℕ, Option, none, some, List, [], ◌∷◌, if◌then◌else◌}
use basecheck_agent.Text.{Text, text_eq, equal_fold, trim_space}

-- A value of a row: what `%v` prints of it, and its bytes if it is a `[]byte`.
pub record Value : Type 0 where
  pub printed : Text
  pub bytes : Option Text

abbrev pub Row : Type 0
Row = List (Text × Value)

unfoldable pub exact_column : Row → Text → Option Value
exact_column [] name = none
exact_column ((key, value) ∷ row) name =
    let rest = exact_column row name in if text_eq key name then some value else rest

unfoldable pub folded_column : Row → Text → Option Value
folded_column [] name = none
folded_column ((key, value) ∷ row) name =
    let rest = folded_column row name in if equal_fold key name then some value else rest

-- The exact name first, then one that differs in case.
unfoldable pub column : Row → Text → Option Value
column row name = elim (exact_column row name) [
  | some value ↦ some value
  | none ↦ folded_column row name
]

-- `formatDisplayValue`
unfoldable pub format_display_value : Value → Text
format_display_value v = elim v.bytes [
  | none ↦ trim_space v.printed
  | some bytes ↦ trim_space bytes
]
