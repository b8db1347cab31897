-- ===== src/Guard/Words.antt =====
-- The patterns of pkg/database/query_guard.go on ASCII text: `(?i)\bWORD\b`, and the two of
-- several parts. A word is written in capitals.
pub mod Laws
use basecheck_agent.Prelude.{
  ℕ, ◌-◌, String, Bool, true, false, not, ◌&&◌, ◌||◌, Option, none, some, List, [], ◌∷◌, leb, ◌==◌,
  if◌then◌else◌,
}
use basecheck_agent.Text.{text, is_upper, is_lower, is_digit, is_space}

-- `[0-9A-Za-z_]`
abbrev pub is_word : ℕ → Bool
is_word c = is_digit c || (is_upper c || (is_lower c || c == b'_'))

-- `\s`, which has no vertical tab.
abbrev pub is_blank_byte : ℕ → Bool
is_blank_byte c = is_space c && not (c == 11)

abbrev pub to_upper : ℕ → ℕ
to_upper c = if is_lower c then c - 32 else c

abbrev pub starts_word : List ℕ → Bool
starts_word [] = false
starts_word (c ∷ cs) = is_word c

-- What follows a word at the start of a text, in any case.
unfoldable pub strip : List ℕ → List ℕ → Option (List ℕ)
strip [] cs = some cs
strip (w ∷ ws) [] = none
strip (w ∷ ws) (c ∷ cs) = let rest = strip ws cs in if to_upper c == w then rest else none

-- The word and its boundary behind it.
unfoldable pub matches_word : List ℕ → List ℕ → Bool
matches_word word cs = elim (strip word cs) [ none ↦ false | some rest ↦ not (starts_word rest) ]

-- Whether a pattern matches somewhere behind a boundary; `prev` says whether a word's byte precedes.
unfoldable pub contains_match : (List ℕ → Bool) → Bool → List ℕ → Bool
contains_match p prev [] = false
contains_match p prev (c ∷ cs) = (not prev && p (c ∷ cs)) || contains_match p (is_word c) cs

unfoldable pub contains_word : List ℕ → Bool → List ℕ → Bool
contains_word word prev cs = contains_match (matches_word word) prev cs

unfoldable pub any_word : List String → List ℕ → Bool
any_word [] cs = false
any_word (w ∷ ws) cs = contains_word (text w) false cs || any_word ws cs

unfoldable pub trim_left : List ℕ → List ℕ
trim_left [] = []
trim_left (c ∷ cs) = let rest = trim_left cs in if is_space c then rest else c ∷ cs

-- `EXECUTE\s+IMMEDIATE\b`
unfoldable pub immediate_after : Bool → List ℕ → Bool
immediate_after spaced [] = false
immediate_after spaced (c ∷ cs) =
    let rest = immediate_after true cs in
    if is_blank_byte c then rest else spaced && matches_word (text "IMMEDIATE") (c ∷ cs)

unfoldable pub execute_immediate : List ℕ → Bool
execute_immediate cs = elim (strip (text "EXECUTE") cs) [
  | none ↦ false
  | some rest ↦ immediate_after false rest
]

-- `[^;]*=`
unfoldable pub assigns : List ℕ → Bool
assigns [] = false
assigns (c ∷ cs) = let rest = assigns cs in if c == b';' then false else c == b'=' || rest

-- `PRAGMA\s+[^;]*=`
unfoldable pub write_pragma : List ℕ → Bool
write_pragma cs = elim (strip (text "PRAGMA") cs) [
  | none ↦ false
  | some rest ↦ elim rest [ [] ↦ false | c ∷ more ↦ is_blank_byte c && assigns more ]
]
