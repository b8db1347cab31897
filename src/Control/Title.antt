-- ===== src/Control/Title.antt =====
-- The titles of findings (`buildFallbackTitle`, `interpolateTitle` of pkg/controlset/executor.go).
pub mod Laws
use basecheck_agent.Prelude.{
  ℕ, ◌+◌, Bool, true, false, ◌||◌, not, Option, none, some, List, [], ◌∷◌, ◌++◌, map, length, any,
  ltb, ◌==◌, if◌then◌else◌,
}
use basecheck_agent.Text.{
  Text, text, text_eq, text_ltb, is_empty, equal_fold, lower, join, replace_all, take,
}
use basecheck_agent.Control.{Row, Value, exact_column, format_display_value}

-- The loop replaces one placeholder after the other, in the order of the row.
unfoldable pub interpolate_title : Text → Row → Text
interpolate_title title [] = title
interpolate_title title ((key, value) ∷ row) =
    interpolate_title (replace_all title (b'{' ∷ (key ++ b'}' ∷ [])) (format_display_value value))
      row

unfoldable pub insert_key : Text → List Text → List Text
insert_key key [] = key ∷ []
insert_key key (k ∷ keys) =
    let rest = insert_key key keys in if text_ltb k key then k ∷ rest else key ∷ (k ∷ keys)

-- `sort.Strings`
unfoldable pub sort_keys : List Text → List Text
sort_keys [] = []
sort_keys (key ∷ keys) = insert_key key (sort_keys keys)

abbrev pub priority : List Text
priority =
    text "role_name"
    ∷ text "schema_name"
    ∷ text "table_name"
    ∷ text "object_name"
    ∷ text "function_name"
    ∷ text "attribute_name"
    ∷ text "current_value"
    ∷ text "expected_value"
    ∷ text "reason"
    ∷ text "fix"
    ∷ []

-- The details so far, and the keys that were seen.
pub record Details : Type 0 where
  pub details : List Text
  pub seen : List Text

-- `len(value) > 80` bytes are cut to 77 and three dots.
unfoldable pub shortened : Text → Text
shortened value = if ltb 80 (length value) then take 77 value ++ text "..." else value

-- A key that is missing prints as `<nil>`.
unfoldable pub display_of : Row → Text → Text
display_of row key = elim (exact_column row key) [
  | none ↦ text "<nil>"
  | some v ↦ format_display_value v
]

unfoldable pub append_key : Row → Details → Text → Details
append_key row d key =
    let value = display_of row key in
    if (length d.details == 4) || any (λ k. text_eq k key) d.seen
    then d
    else if is_empty value || text_eq value (text "<nil>")
    then d
    else record {
      details = d.details ++ (lower key ++ (b'=' ∷ shortened value)) ∷ [];
      seen = key ∷ d.seen;
    }

-- The first of the keys that is a given name, in any case.
unfoldable pub first_folded : List Text → Text → Option Text
first_folded [] name = none
first_folded (k ∷ keys) name =
    let rest = first_folded keys name in if equal_fold k name then some k else rest

unfoldable pub append_priority : Row → List Text → Details → List Text → Details
append_priority row keys d [] = d
append_priority row keys d (name ∷ names) =
    append_priority row keys
      (elim (first_folded keys name) [ none ↦ d | some k ↦ append_key row d k ]) names

unfoldable pub append_others : Row → Details → List Text → Details
append_others row d [] = d
append_others row d (key ∷ keys) =
    append_others row (if is_empty key then d else append_key row d key) keys

unfoldable pub details_of : Row → List Text
details_of row =
    let keys = sort_keys (map (λ entry. entry.0) row) in
    let first = append_priority row keys (record { details = []; seen = [] }) priority in
    (append_others row first keys).details

unfoldable pub build_fallback_title : Text → Row → Text
build_fallback_title current row = elim (details_of row) [
  | [] ↦ current
  | d ∷ ds ↦ current ++ (text ": " ++ join (d ∷ ds) (text ", "))
]
