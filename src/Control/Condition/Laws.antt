-- ===== src/Control/Condition/Laws.antt =====
-- What the check of a condition's syntax promises of its evaluation (pkg/controlset/executor.go).
use basecheck_agent.Prelude.{
  ℕ, zero, suc, ◌≡◌, Bool, Bool-cases, Option, Option-cases, none, true, false, Result,
  Result-cases, List, [], ◌∷◌, length, All, All-map, subst, arith, inl, inr,
}
use basecheck_agent.Text.{Text, text, contains, split, is_empty, is_space, trim_space}
use basecheck_agent.Text.Laws.{Within, Within-trans, trim-Within, contains-Within_mono}
use basecheck_agent.Text.Split.{split-Within}
use basecheck_agent.Control.{Row}
use basecheck_agent.Control.Condition.Leaf.{ConditionError, Floats}
use basecheck_agent.Control.Condition.Leaf.Laws.{IsOk, evaluate_leaf-IsOk}
use basecheck_agent.Control.Condition.{
  is_keyword, validate_parts, validate_trimmed, validate_from, validate_condition_syntax,
  evaluate_any, evaluate_all, evaluate_trimmed, evaluate_from, evaluate_condition,
}

-- A part that is valid evaluates.
abbrev Evaluates :
    (Text → Option ConditionError) → (Text → Result ConditionError Bool) → Text → Type 0
Evaluates check evaluate part = check (trim_space part) ≡ none → IsOk (evaluate (trim_space part))

evaluate_any-IsOk :
    (check : Text → Option ConditionError) (evaluate : Text → Result ConditionError Bool)
    (parts : List Text)
    → All (Evaluates check evaluate) parts
    → validate_parts check parts ≡ none
    → IsOk (evaluate_any evaluate parts)
unfolding validate_parts evaluate_any
evaluate_any-IsOk check evaluate [] h v = tt
evaluate_any-IsOk check evaluate (part ∷ parts) (sound, h) v =
    elim (Option-cases (check (trim_space part))) [
      | inr (e, c) ↦ absurd (ground (arith, c, v))
      | inl c ↦
          let rest = evaluate_any-IsOk check evaluate parts h (ground (arith, c, v)) in
          let here = sound c in
          elim (Result-cases (evaluate (trim_space part))) [
            | inr (x, r) ↦ absurd (subst IsOk r here)
            | inl (true, r) ↦ rw (r, evaluate_any) tt
            | inl (false, r) ↦ rw (r, evaluate_any) rest
          ]
    ]

evaluate_all-IsOk :
    (check : Text → Option ConditionError) (evaluate : Text → Result ConditionError Bool)
    (parts : List Text)
    → All (Evaluates check evaluate) parts
    → validate_parts check parts ≡ none
    → IsOk (evaluate_all evaluate parts)
unfolding validate_parts evaluate_all
evaluate_all-IsOk check evaluate [] h v = tt
evaluate_all-IsOk check evaluate (part ∷ parts) (sound, h) v =
    elim (Option-cases (check (trim_space part))) [
      | inr (e, c) ↦ absurd (ground (arith, c, v))
      | inl c ↦
          let rest = evaluate_all-IsOk check evaluate parts h (ground (arith, c, v)) in
          let here = sound c in
          elim (Result-cases (evaluate (trim_space part))) [
            | inr (x, r) ↦ absurd (subst IsOk r here)
            | inl (true, r) ↦ rw (r, evaluate_all) rest
            | inl (false, r) ↦ rw (r, evaluate_all) tt
          ]
    ]

-- A condition that is not about the number of rows.
abbrev pub IsOnColumns : Text → Type 0
IsOnColumns c = contains c (text "row_count") ≡ false

IsOnColumns-Within : (part c : Text) → Within part c → IsOnColumns c → IsOnColumns part
IsOnColumns-Within part c w h = elim (Bool-cases (contains part (text "row_count"))) [
  | inr n ↦ n
  | inl n ↦
      absurd
        (let found = contains-Within_mono part c (text "row_count") w n in ground (arith, found, h))
]

trimmed-Within : (part c : Text) → Within part (trim_space c) → Within (trim_space part) c
trimmed-Within part c h =
    Within-trans (trim_space part) part c (trim-Within is_space part)
      (Within-trans part (trim_space c) c h (trim-Within is_space c))

module _ {F : Type 0} (floats : Floats F) (row : Row) where
  trimmed-IsOk :
      (check : Text → Option ConditionError) (evaluate : Text → Result ConditionError Bool)
      (t : Text)
      → ((p : Text) → Within p t → Evaluates check evaluate p)
      → IsOnColumns t
      → validate_trimmed check t ≡ none
      → IsOk (evaluate_trimmed floats row evaluate t)
  unfolding validate_trimmed evaluate_trimmed
  trimmed-IsOk check evaluate t part columns = elim (Bool-cases (is_empty t)) [
    | inl e ↦ rw (e, validate_trimmed) (λ v. absurd (cc))
    | inr e ↦ elim (Bool-cases (is_keyword t)) [
      | inl k ↦ rw (k, evaluate_trimmed) (λ v. tt)
      | inr k ↦ elim (Bool-cases (contains t (text " OR "))) [
        | inl o ↦
            rw (e, k, o, validate_trimmed, evaluate_trimmed)
              (evaluate_any-IsOk check evaluate (split t (text " OR "))
                (All-map (split t (text " OR ")) part (split-Within b' ' (text "OR ") t)))
        | inr o ↦ elim (Bool-cases (contains t (text " AND "))) [
          | inl a ↦
              rw (e, k, o, a, validate_trimmed, evaluate_trimmed)
                (evaluate_all-IsOk check evaluate (split t (text " AND "))
                  (All-map (split t (text " AND ")) part (split-Within b' ' (text "AND ") t)))
          | inr a ↦
              rw (e, k, o, a, columns, validate_trimmed, evaluate_trimmed)
                (evaluate_leaf-IsOk floats row t)
        ]
      ]
    ]
  ]

  evaluate_from-IsOk :
      (n : ℕ) (c : Text)
      → IsOnColumns c
      → validate_from n c ≡ none
      → IsOk (evaluate_from floats row n c)
  unfolding validate_from evaluate_from
  evaluate_from-IsOk zero c h v = cc
  evaluate_from-IsOk (suc n) c h v =
      trimmed-IsOk (validate_from n) (evaluate_from floats row n) (trim_space c)
        (λ p w.
          evaluate_from-IsOk n (trim_space p)
            (IsOnColumns-Within (trim_space p) c (trimmed-Within p c w) h))
        (IsOnColumns-Within (trim_space c) c (trim-Within is_space c) h) v

  -- A condition that is not about the number of rows and whose syntax is accepted when the control
  -- set is loaded evaluates to a value on every row: there is no error and no endless recursion.
  pub evaluate_condition-IsOk :
      (c : Text)
      → IsOnColumns c
      → validate_condition_syntax c ≡ none
      → IsOk (evaluate_condition floats row c)
  unfolding validate_condition_syntax evaluate_condition
  evaluate_condition-IsOk c h v = evaluate_from-IsOk (suc (length c)) c h v
