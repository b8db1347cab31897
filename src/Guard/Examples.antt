-- ===== src/Guard/Examples.antt =====
-- Examples for the guard.
use basecheck_agent.Prelude.{
  Bool, not, ◌||◌, ◌==◌, all, All, true, [], ◌∷◌, ◌++◌, map, ◌≢◌, arith, ℕ, ◌≡◌, refl, none, some,
  List,
}
use basecheck_agent.Guard.{
  postgres, forbidden_statement, admin_words, is_blank, statements, require_single_statement, leads,
  engine_forbids, validate_standard, validate_engine, validate_read_only_query,
}
use basecheck_agent.Guard.Sanitize.{sanitize_from, sanitize_sql}
use basecheck_agent.Guard.Words.{
  strip, matches_word, contains_match, contains_word, any_word, trim_left,
}
use basecheck_agent.Guard.Sanitize.Pieces.{Piece, plain, quoted, open_line, shown, IsText}
use basecheck_agent.Text.{text}
use basecheck_agent.Guard.Words.Laws.{NoneOccurs}
use basecheck_agent.Guard.Laws.{IsReadOnly, validate_read_only_query-IsReadOnly}

abbrev harmless : List ℕ
harmless = text "select a from t -- drop"

abbrev stacked : List ℕ
stacked = text "select 1; drop table t"

-- The quote inside the quoted identifier opens a literal for the guard, and not for the database.
abbrev hidden : List ℕ
hidden = text "SELECT 1 AS \"'\"; DROP TABLE users; --'"

harmless_passes : validate_read_only_query postgres harmless ≡ none
unfolding validate_read_only_query is_blank statements require_single_statement leads engine_forbids
    validate_standard validate_engine sanitize_from sanitize_sql strip matches_word contains_match
    contains_word any_word trim_left
harmless_passes = refl

stacked_refused : validate_read_only_query postgres stacked ≡ some forbidden_statement
unfolding validate_read_only_query is_blank statements require_single_statement leads engine_forbids
    validate_standard validate_engine sanitize_from sanitize_sql strip matches_word contains_match
    contains_word any_word trim_left
stacked_refused = refl

hidden_passes : validate_read_only_query postgres hidden ≡ none
unfolding validate_read_only_query is_blank statements require_single_statement leads engine_forbids
    validate_standard validate_engine sanitize_from sanitize_sql strip matches_word contains_match
    contains_word any_word trim_left
hidden_passes = refl

-- A query with a literal and a comment, piece by piece.
abbrev pieces : List Piece
pieces =
    map plain (text "select ")
    ++ (quoted (text "it's; drop") ∷ (map plain (text " from t ") ++ open_line (text " drop") ∷ []))

abbrev is_harmless : ℕ → Bool
is_harmless c = not (c == b'\'' || (c == b'-' || c == b'/'))

plain-IsText :
    (cs : List ℕ) (ps : List Piece)
    → all is_harmless cs ≡ true
    → IsText ps
    → IsText (map plain cs ++ ps)
plain-IsText [] ps h made = made
plain-IsText (c ∷ cs) ps h made = (
  (
    λ e. ground (arith, e, h),
    (λ e. absurd (ground (arith, e, h)), λ e. absurd (ground (arith, e, h))),
  ),
  plain-IsText cs ps (ground (arith, h)) made,
)

one_line : (cs : List ℕ) → all (λ c. not (c == b'\n')) cs ≡ true → All (λ c. c ≢ b'\n') cs
one_line [] h = tt
one_line (c ∷ cs) h = (λ e. ground (arith, e, h), one_line cs (ground (arith, h)))

pieces-IsText : IsText pieces
pieces-IsText =
    let comment = open_line (text " drop") ∷ [] in
    let ending : IsText (map plain (text " from t ") ++ comment) =
      plain-IsText (text " from t ") comment refl (one_line (text " drop") refl) in
    plain-IsText (text "select ")
      (quoted (text "it's; drop") ∷ (map plain (text " from t ") ++ comment)) refl (refl, ending)

validate_read_only_query-IsReadOnly_example :
    NoneOccurs admin_words (shown pieces) × IsReadOnly postgres (shown pieces)
unfolding validate_read_only_query is_blank statements require_single_statement leads engine_forbids
    validate_standard validate_engine sanitize_from sanitize_sql strip matches_word contains_match
    contains_word any_word trim_left
validate_read_only_query-IsReadOnly_example =
    validate_read_only_query-IsReadOnly postgres pieces pieces-IsText refl
