-- ===== src/Control/Condition/Termination.antt =====
-- Conditions end (pkg/controlset/executor.go).
use basecheck_agent.Prelude.{
  ℕ, zero, suc, ◌≤◌, ◌<◌, ◌≡◌, Bool, Bool-cases, Option, Option-cases, true, false, Result,
  Result-cases, List, [], ◌∷◌, length, All, All-map, subst, arith, inl, inr,
}
use basecheck_agent.Text.{Text, text, contains, split, is_empty, is_space, trim_space}
use basecheck_agent.Text.Laws.{Within-le, trim-Within}
use basecheck_agent.Text.Split.{split-shorter}
use basecheck_agent.Control.{Row}
use basecheck_agent.Control.Condition.Leaf.{ConditionError, Floats}
use basecheck_agent.Control.Condition.Leaf.Laws.{
  IsFueled, IsFueledResult, validate_leaf-IsFueled, validate_row_count_condition_syntax-IsFueled,
  evaluate_leaf-IsFueledResult,
}
use basecheck_agent.Control.Condition.{
  is_keyword, validate_parts, validate_trimmed, validate_from, validate_condition_syntax,
  evaluate_any, evaluate_all, evaluate_trimmed, evaluate_from, evaluate_condition,
}

validate_parts-IsFueled :
    (check : Text → Option ConditionError) (parts : List Text)
    → All (λ p. IsFueled (check (trim_space p))) parts
    → IsFueled (validate_parts check parts)
unfolding validate_parts
validate_parts-IsFueled check [] h = tt
validate_parts-IsFueled check (part ∷ parts) (here, h) =
    let rest = validate_parts-IsFueled check parts h in
    elim (Option-cases (check (trim_space part))) [
      | inl c ↦ rw (c, validate_parts) rest
      | inr (e, c) ↦ rw (c, validate_parts) (subst IsFueled c here)
    ]

evaluate_any-IsFueledResult :
    (evaluate : Text → Result ConditionError Bool) (parts : List Text)
    → All (λ p. IsFueledResult (evaluate (trim_space p))) parts
    → IsFueledResult (evaluate_any evaluate parts)
unfolding evaluate_any
evaluate_any-IsFueledResult evaluate [] h = tt
evaluate_any-IsFueledResult evaluate (part ∷ parts) (here, h) =
    let rest = evaluate_any-IsFueledResult evaluate parts h in
    elim (Result-cases (evaluate (trim_space part))) [
      | inl (true, r) ↦ rw (r, evaluate_any) tt
      | inl (false, r) ↦ rw (r, evaluate_any) rest
      | inr (x, r) ↦ rw (r, evaluate_any) (subst IsFueledResult r here)
    ]

evaluate_all-IsFueledResult :
    (evaluate : Text → Result ConditionError Bool) (parts : List Text)
    → All (λ p. IsFueledResult (evaluate (trim_space p))) parts
    → IsFueledResult (evaluate_all evaluate parts)
unfolding evaluate_all
evaluate_all-IsFueledResult evaluate [] h = tt
evaluate_all-IsFueledResult evaluate (part ∷ parts) (here, h) =
    let rest = evaluate_all-IsFueledResult evaluate parts h in
    elim (Result-cases (evaluate (trim_space part))) [
      | inl (true, r) ↦ rw (r, evaluate_all) rest
      | inl (false, r) ↦ rw (r, evaluate_all) tt
      | inr (x, r) ↦ rw (r, evaluate_all) (subst IsFueledResult r here)
    ]

trim_space-le : (s : Text) → length (trim_space s) ≤ length s
trim_space-le s = Within-le (trim_space s) s (trim-Within is_space s)

-- Each part of a split, trimmed, is shorter than the text.
trimmed-shorter :
    (d : ℕ) (sep c : Text) (n : ℕ)
    → contains c (d ∷ sep) ≡ true
    → length c ≤ n
    → All (λ p. length (trim_space p) < n) (split c (d ∷ sep))
trimmed-shorter d sep c n h le =
    All-map (split c (d ∷ sep))
      (λ p lt. let short = trim_space-le p in omega (arith, short, lt, le))
      (split-shorter d sep c h)

validate_trimmed-IsFueled :
    (check : Text → Option ConditionError) (c : Text) (n : ℕ)
    → length c ≤ n
    → ((p : Text) → length p < n → IsFueled (check p))
    → IsFueled (validate_trimmed check c)
unfolding validate_trimmed
validate_trimmed-IsFueled check c n le h =
    let short = λ (p : Text). λ (lt : length (trim_space p) < n). h (trim_space p) lt in
    elim (Bool-cases (is_empty c)) [
      | inl e ↦ rw (e, validate_trimmed) tt
      | inr e ↦ elim (Bool-cases (is_keyword c)) [
        | inl k ↦ rw (e, k, validate_trimmed) tt
        | inr k ↦ elim (Bool-cases (contains c (text " OR "))) [
          | inl o ↦
              rw (e, k, o, validate_trimmed)
                (validate_parts-IsFueled check (split c (text " OR ")) (
                  All-map (split c (text " OR ")) short
                    (trimmed-shorter b' ' (text "OR ") c n o le)))
          | inr o ↦ elim (Bool-cases (contains c (text " AND "))) [
            | inl a ↦
                rw (e, k, o, a, validate_trimmed)
                  (validate_parts-IsFueled check (split c (text " AND ")) (
                    All-map (split c (text " AND ")) short
                      (trimmed-shorter b' ' (text "AND ") c n a le)))
            | inr a ↦ elim (Bool-cases (contains c (text "row_count"))) [
              | inl r ↦
                  rw (e, k, o, a, r, validate_trimmed)
                    (validate_row_count_condition_syntax-IsFueled c)
              | inr r ↦ rw (e, k, o, a, r, validate_trimmed) (validate_leaf-IsFueled c)
            ]
          ]
        ]
      ]
    ]

evaluate_trimmed-IsFueledResult :
    {F : Type 0} (floats : Floats F) (row : Row) (evaluate : Text → Result ConditionError Bool)
    (c : Text) (n : ℕ)
    → length c ≤ n
    → ((p : Text) → length p < n → IsFueledResult (evaluate p))
    → IsFueledResult (evaluate_trimmed floats row evaluate c)
unfolding evaluate_trimmed
evaluate_trimmed-IsFueledResult floats row evaluate c n le h =
    let short = λ (p : Text). λ (lt : length (trim_space p) < n). h (trim_space p) lt in
    elim (Bool-cases (is_keyword c)) [
      | inl k ↦ rw (k, evaluate_trimmed) tt
      | inr k ↦ elim (Bool-cases (contains c (text " OR "))) [
        | inl o ↦
            rw (k, o, evaluate_trimmed)
              (evaluate_any-IsFueledResult evaluate (split c (text " OR ")) (
                All-map (split c (text " OR ")) short (trimmed-shorter b' ' (text "OR ") c n o le)))
        | inr o ↦ elim (Bool-cases (contains c (text " AND "))) [
          | inl a ↦
              rw (k, o, a, evaluate_trimmed)
                (evaluate_all-IsFueledResult evaluate (split c (text " AND ")) (
                  All-map (split c (text " AND ")) short
                    (trimmed-shorter b' ' (text "AND ") c n a le)))
          | inr a ↦ rw (k, o, a, evaluate_trimmed) (evaluate_leaf-IsFueledResult floats row c)
        ]
      ]
    ]

validate_from-IsFueled : (n : ℕ) (c : Text) → length c < n → IsFueled (validate_from n c)
unfolding validate_from
validate_from-IsFueled zero c h = absurd (omega arith)
validate_from-IsFueled (suc n) c h =
    let le = trim_space-le c in
    validate_trimmed-IsFueled (validate_from n) (trim_space c) n (omega (arith, le, h))
      (λ p lt. validate_from-IsFueled n p lt)

evaluate_from-IsFueledResult :
    {F : Type 0} (floats : Floats F) (row : Row) (n : ℕ) (c : Text)
    → length c < n
    → IsFueledResult (evaluate_from floats row n c)
unfolding evaluate_from
evaluate_from-IsFueledResult floats row zero c h = absurd (omega arith)
evaluate_from-IsFueledResult floats row (suc n) c h =
    let le = trim_space-le c in
    evaluate_trimmed-IsFueledResult floats row (evaluate_from floats row n) (trim_space c) n
      (omega (arith, le, h)) (λ p lt. evaluate_from-IsFueledResult floats row n p lt)

-- The check of a condition and its evaluation end on every condition and every row: the recursion
-- over the parts of OR and AND never needs more rounds than the condition has bytes, and one.
pub conditions_end :
    {F : Type 0} (floats : Floats F) (row : Row) (c : Text)
    → IsFueled (validate_condition_syntax c) × IsFueledResult (evaluate_condition floats row c)
unfolding validate_condition_syntax evaluate_condition
conditions_end floats row c = (
  validate_from-IsFueled (suc (length c)) c (omega arith),
  evaluate_from-IsFueledResult floats row (suc (length c)) c (omega arith),
)
