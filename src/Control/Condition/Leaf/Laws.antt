-- ===== src/Control/Condition/Leaf/Laws.antt =====
-- The check of a condition without OR and AND against its evaluation (pkg/controlset/executor.go).
use basecheck_agent.Prelude.{
  ◌≡◌, Bool, Bool-cases, Option, Option-cases, none, some, true, false, Result, ok, err, arith, inl,
  inr,
}
use basecheck_agent.Text.{Text, text, contains, split, lower, trim_space, take}
use basecheck_agent.Control.{Row, column}
use basecheck_agent.Control.Condition.Leaf.{
  ConditionError, malformed, out_of_fuel, Floats, operators, find_operator, two_parts, spelling,
  contains_at, malformed_if, validate_in, validate_contains, validate_operator, validate_leaf,
  validate_row_count_condition_syntax, evaluate_in, evaluate_contains, evaluate_simple,
  evaluate_leaf, Operator,
}

-- A value, and no error.
abbrev pub IsOk : Result ConditionError Bool → Type 0
IsOk (ok b) = Unit
IsOk (err e) = ⊥

evaluate_in-IsOk : (row : Row) (c : Text) → validate_in c ≡ none → IsOk (evaluate_in row c)
unfolding validate_in evaluate_in
evaluate_in-IsOk row c = elim (Option-cases (two_parts (split c (text " IN ")))) [
  | inl e ↦ rw (e, validate_in) (λ h. absurd (cc))
  | inr ((name, list), e) ↦ λ _. elim (Option-cases (column row (trim_space name))) [
    | inl k ↦ rw (e, k, evaluate_in, IsOk) tt
    | inr (v, k) ↦ rw (e, k, evaluate_in, IsOk) tt
  ]
]

evaluate_contains-IsOk :
    (row : Row) (c : Text) → validate_contains c ≡ none → IsOk (evaluate_contains row c)
unfolding validate_contains evaluate_contains
evaluate_contains-IsOk row c = elim (Option-cases (contains_at c)) [
  | inl e ↦ rw (e, validate_contains) (λ h. absurd (cc))
  | inr (i, e) ↦ λ _. elim (Option-cases (column row (trim_space (take i (trim_space c))))) [
    | inl k ↦ rw (e, k, evaluate_contains, IsOk) tt
    | inr (v, k) ↦ rw (e, k, evaluate_contains, IsOk) tt
  ]
]

module _ {F : Type 0} (floats : Floats F) (row : Row) where
  evaluate_simple-IsOk :
      (op : Operator) (c name value : Text)
      → two_parts (split c (spelling op)) ≡ some (name, value)
      → IsOk (evaluate_simple floats row op c)
  unfolding evaluate_simple
  evaluate_simple-IsOk op c name value e = elim (Option-cases (column row (trim_space name))) [
    | inl k ↦ rw (e, k, evaluate_simple, IsOk) tt
    | inr (v, k) ↦ rw (e, k, evaluate_simple, IsOk) tt
  ]

  found_operator-IsOk :
      (op : Operator) (c : Text)
      → find_operator operators c ≡ some op
      → validate_operator c ≡ none
      → IsOk (evaluate_simple floats row op c)
  unfolding validate_operator
  found_operator-IsOk op c f = elim (Option-cases (two_parts (split c (spelling op)))) [
    | inl e ↦ rw (f, e, validate_operator) (λ h. absurd (cc))
    | inr ((name, value), e) ↦ λ _. evaluate_simple-IsOk op c name value e
  ]

  -- A leaf whose syntax is accepted evaluates to a value.
  pub evaluate_leaf-IsOk : (c : Text) → validate_leaf c ≡ none → IsOk (evaluate_leaf floats row c)
  unfolding validate_leaf evaluate_leaf validate_operator
  evaluate_leaf-IsOk c = elim (Bool-cases (contains c (text " IN "))) [
    | inl i ↦ rw (i, validate_leaf, evaluate_leaf) (evaluate_in-IsOk row c)
    | inr i ↦ elim (Bool-cases (contains (lower (trim_space c)) (text " contains "))) [
      | inl k ↦ rw (i, k, validate_leaf, evaluate_leaf) (evaluate_contains-IsOk row c)
      | inr k ↦ elim (Option-cases (find_operator operators c)) [
        | inl f ↦ rw (i, k, f, validate_leaf, evaluate_leaf, validate_operator) (λ h. absurd (cc))
        | inr (op, f) ↦ rw (i, k, f, validate_leaf, evaluate_leaf) (found_operator-IsOk op c f)
      ]
    ]
  ]

-- Not the error of the fuel.
abbrev pub IsFueled : Option ConditionError → Type 0
IsFueled none = Unit
IsFueled (some malformed) = Unit
IsFueled (some out_of_fuel) = ⊥

abbrev pub IsFueledResult : Result ConditionError Bool → Type 0
IsFueledResult (ok b) = Unit
IsFueledResult (err malformed) = Unit
IsFueledResult (err out_of_fuel) = ⊥

malformed_if-IsFueled : (b : Bool) → IsFueled (malformed_if b)
malformed_if-IsFueled true = tt
malformed_if-IsFueled false = tt

pub validate_leaf-IsFueled : (c : Text) → IsFueled (validate_leaf c)
unfolding validate_leaf validate_in validate_contains validate_operator
validate_leaf-IsFueled c = ground arith

pub validate_row_count_condition_syntax-IsFueled :
    (c : Text) → IsFueled (validate_row_count_condition_syntax c)
unfolding validate_row_count_condition_syntax
validate_row_count_condition_syntax-IsFueled c = ground arith

pub evaluate_leaf-IsFueledResult :
    {F : Type 0} (floats : Floats F) (row : Row) (c : Text)
    → IsFueledResult (evaluate_leaf floats row c)
unfolding evaluate_leaf evaluate_in evaluate_contains evaluate_simple
evaluate_leaf-IsFueledResult floats row c = ground arith
