-- ===== src/Control/Title/Laws.antt =====
-- The bounds of a fallback title (pkg/controlset/executor.go).
use basecheck_agent.Prelude.{
  ℕ, suc, map, ◌+◌, ◌≤◌, ◌≡◌, refl, Bool-cases, Option-cases, List, [], ◌∷◌, ◌++◌, length,
  length-append, All, All-append, arith, inl, inr, any, ◌||◌, ◌==◌,
}
use basecheck_agent.Text.{Text, text, text_eq, is_empty, take, lower}
use basecheck_agent.Control.{Row}
use basecheck_agent.Control.Title.{
  Details, shortened, display_of, append_key, first_folded, append_priority, append_others,
  details_of, priority, sort_keys,
}

take-le : (n : ℕ) (s : Text) → length (take n s) ≤ n
unfolding take
take-le ℕ.zero s = omega arith
take-le (suc n) [] = omega arith
take-le (suc n) (c ∷ s) = let rest = take-le n s in omega (arith, rest)

shortened-le : (s : Text) → length (shortened s) ≤ 80
unfolding shortened
shortened-le s =
    let cut = take-le 77 s in
    let total = length-append (take 77 s) (text "...") in ground (arith, cut, total)

-- `key=value` with a value of 80 bytes at most.
pub record IsDetail (row : Row) (d : Text) : Type 0 where
  pub key : Text
  pub value : Text
  pub form : d ≡ lower key ++ (b'=' ∷ value)
  pub short : length value ≤ 80

-- Four details at most.
abbrev pub IsBounded : Row → List Text → Type 0
IsBounded row ds = (length ds ≤ 4) × All (IsDetail row) ds

append_key-IsBounded :
    (row : Row) (d : Details) (key : Text)
    → IsBounded row d.details
    → IsBounded row (append_key row d key).details
unfolding append_key
append_key-IsBounded row d key (few, shape) =
    let value = display_of row key in
    let detail = lower key ++ (b'=' ∷ shortened value) in
    let total = length-append d.details (detail ∷ []) in
    let one : IsDetail row detail = record {
      key = key;
      value = shortened value;
      form = refl;
      short = shortened-le value;
    } in
    let longer = All-append (IsDetail row) d.details (detail ∷ []) shape (one, tt) in
    elim (Bool-cases ((length d.details == 4) || any (λ k. text_eq k key) d.seen)) [
      | inl full ↦ simp full (few, shape)
      | inr free ↦ elim (Bool-cases (is_empty value || text_eq value (text "<nil>"))) [
        | inl none_ ↦ simp (free, none_) (few, shape)
        | inr some_ ↦
            let fits : length d.details + 1 ≤ 4 = ground (arith, few, free) in
            simp (free, some_) (omega (arith, fits, total), longer)
      ]
    ]

append_priority-IsBounded :
    (row : Row) (keys : List Text) (d : Details) (names : List Text)
    → IsBounded row d.details
    → IsBounded row (append_priority row keys d names).details
unfolding append_priority
append_priority-IsBounded row keys d [] h = h
append_priority-IsBounded row keys d (name ∷ names) h =
    elim (Option-cases (first_folded keys name)) [
      | inl e ↦ rw (e, append_priority) (append_priority-IsBounded row keys d names h)
      | inr (k, e) ↦
          rw (e, append_priority)
            (append_priority-IsBounded row keys (append_key row d k) names
              (append_key-IsBounded row d k h))
    ]

append_others-IsBounded :
    (row : Row) (d : Details) (keys : List Text)
    → IsBounded row d.details
    → IsBounded row (append_others row d keys).details
unfolding append_others
append_others-IsBounded row d [] h = h
append_others-IsBounded row d (key ∷ keys) h = elim (Bool-cases (is_empty key)) [
  | inl e ↦ rw (e, append_others) (append_others-IsBounded row d keys h)
  | inr e ↦
      rw (e, append_others)
        (append_others-IsBounded row (append_key row d key) keys (append_key-IsBounded row d key h))
]

-- Whatever the row holds, a fallback title adds four details at most, each a key and a value of at
-- most 80 bytes.
pub details_of-IsBounded : (row : Row) → IsBounded row (details_of row)
unfolding details_of
details_of-IsBounded row =
    let keys = sort_keys (map (λ entry. entry.0) row) in
    let start : Details = record { details = []; seen = [] } in
    append_others-IsBounded row (append_priority row keys start priority) keys
      (append_priority-IsBounded row keys start priority (omega arith, tt))
