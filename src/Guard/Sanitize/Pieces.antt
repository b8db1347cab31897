-- ===== src/Guard/Sanitize/Pieces.antt =====
-- The texts that `sanitizeSQL` of pkg/database/query_guard.go reads, piece by piece: what it shows of a
-- text is told of the pieces that it is made of. A quoted identifier is no piece of its own.
use basecheck_agent.Prelude.{
  ℕ, ◌≡◌, ◌≢◌, refl, ap, ◌∙◌, List, [], ◌∷◌, ◌++◌, Bool-cases, false, ◌&&◌, inl, inr, arith, All,
  ◌==◌, if◌then◌else◌,
}
use basecheck_agent.Guard.Sanitize.{
  code, line_comment, block_comment, literal, at, next_is, sanitize_from, sanitize_sql,
}

-- A byte of code; a comment up to the end of its line; a comment in `/*` and `*/`; a string literal by
-- what it stands for; and the last three without their end, at the end of a text.
pub data Piece : Type 0 where
  plain : ℕ → Piece
  line : List ℕ → Piece
  block : List ℕ → Piece
  quoted : List ℕ → Piece
  open_line : List ℕ → Piece
  open_block : List ℕ → Piece
  open_quoted : List ℕ → Piece

-- A quote in a literal is doubled.
abbrev pub doubled : List ℕ → List ℕ
doubled [] = []
doubled (c ∷ cs) = if c == b'\'' then b'\'' ∷ (b'\'' ∷ doubled cs) else c ∷ doubled cs

-- The text of the pieces.
abbrev pub spell : List Piece → List ℕ
spell [] = []
spell (plain c ∷ ps) = c ∷ spell ps
spell (line body ∷ ps) = b'-' ∷ (b'-' ∷ (body ++ (b'\n' ∷ spell ps)))
spell (block body ∷ ps) = b'/' ∷ (b'*' ∷ (body ++ (b'*' ∷ (b'/' ∷ spell ps))))
spell (quoted body ∷ ps) = b'\'' ∷ (doubled body ++ (b'\'' ∷ spell ps))
spell (open_line body ∷ ps) = b'-' ∷ (b'-' ∷ body)
spell (open_block body ∷ ps) = b'/' ∷ (b'*' ∷ body)
spell (open_quoted body ∷ ps) = b'\'' ∷ doubled body

-- What is left of them: a byte of code as it is, a blank for a comment, and two for a literal.
abbrev pub shown : List Piece → List ℕ
shown [] = []
shown (plain c ∷ ps) = c ∷ shown ps
shown (line body ∷ ps) = b' ' ∷ shown ps
shown (block body ∷ ps) = b' ' ∷ shown ps
shown (quoted body ∷ ps) = b' ' ∷ (b' ' ∷ shown ps)
shown (open_line body ∷ ps) = []
shown (open_block body ∷ ps) = []
shown (open_quoted body ∷ ps) = b' ' ∷ []

-- No `*/`.
abbrev pub IsUnclosed : List ℕ → Type 0
IsUnclosed [] = Unit
IsUnclosed (c ∷ cs) = (c ≡ b'*' → next_is b'/' cs ≡ false) × IsUnclosed cs

-- Each piece ends where its text does: a byte of code is no quote and starts no comment, a comment does
-- not hold its own end, and no quote follows a literal.
abbrev pub IsText : List Piece → Type 0
IsText [] = Unit
IsText (plain c ∷ ps) =
    ((c ≢ b'\'')
      × ((c ≡ b'-' → next_is b'-' (spell ps) ≡ false)
          × (c ≡ b'/' → next_is b'*' (spell ps) ≡ false)))
    × IsText ps
IsText (line body ∷ ps) = All (λ c. c ≢ b'\n') body × IsText ps
IsText (block body ∷ ps) = IsUnclosed body × IsText ps
IsText (quoted body ∷ ps) = (next_is b'\'' (spell ps) ≡ false) × IsText ps
IsText (open_line body ∷ ps) = All (λ c. c ≢ b'\n') body
IsText (open_block body ∷ ps) = IsUnclosed body
IsText (open_quoted body ∷ ps) = Unit

line_body :
    (body post : List ℕ)
    → All (λ c. c ≢ b'\n') body
    → sanitize_from (at line_comment) (body ++ (b'\n' ∷ post)) ≡ b' ' ∷ sanitize_from (at code) post
unfolding sanitize_from
line_body [] post h = refl
line_body (c ∷ cs) post (here, h) =
    let other : (c == b'\n') ≡ false = ground (arith, here) in rw other (line_body cs post h)

open_line_body :
    (body : List ℕ) → All (λ c. c ≢ b'\n') body → sanitize_from (at line_comment) body ≡ []
unfolding sanitize_from
open_line_body [] h = refl
open_line_body (c ∷ cs) (here, h) =
    let other : (c == b'\n') ≡ false = ground (arith, here) in rw other (open_line_body cs h)

block_body :
    (body post : List ℕ)
    → IsUnclosed body
    → sanitize_from (at block_comment) (body ++ (b'*' ∷ (b'/' ∷ post)))
      ≡ b' ' ∷ sanitize_from (at code) post
unfolding sanitize_from
block_body [] post h = refl
block_body (c ∷ []) post (here, h) =
    let other : ((c == b'*') && false) ≡ false = ground arith in rw other (block_body [] post h)
block_body (c ∷ (d ∷ cs)) post (here, h) =
    let other : ((c == b'*') && (d == b'/')) ≡ false = ground (arith, here) in
    rw other (block_body (d ∷ cs) post h)

open_block_body : (body : List ℕ) → IsUnclosed body → sanitize_from (at block_comment) body ≡ []
unfolding sanitize_from
open_block_body [] h = refl
open_block_body (c ∷ cs) (here, h) =
    let other : ((c == b'*') && next_is b'/' cs) ≡ false = ground (arith, here) in
    rw other (open_block_body cs h)

literal_body :
    (body post : List ℕ)
    → next_is b'\'' post ≡ false
    → sanitize_from (at literal) (doubled body ++ (b'\'' ∷ post))
      ≡ b' ' ∷ sanitize_from (at code) post
unfolding sanitize_from
literal_body [] post n = rw n refl
literal_body (c ∷ cs) post n = elim (Bool-cases (c == b'\'')) [
  | inl quote ↦ rw quote (literal_body cs post n)
  | inr other ↦ rw (other, other) (literal_body cs post n)
]

open_literal_body : (body : List ℕ) → sanitize_from (at literal) (doubled body) ≡ []
unfolding sanitize_from
open_literal_body [] = refl
open_literal_body (c ∷ cs) = elim (Bool-cases (c == b'\'')) [
  | inl quote ↦ rw quote (open_literal_body cs)
  | inr other ↦ rw (other, other) (open_literal_body cs)
]

-- Of a text made of pieces, exactly what they show is left.
pub sanitize_sql-spell : (ps : List Piece) → IsText ps → sanitize_sql (spell ps) ≡ shown ps
unfolding sanitize_sql sanitize_from
sanitize_sql-spell [] h = refl
sanitize_sql-spell (plain c ∷ ps) ((quote, (dash, slash)), h) =
    let d : ((c == b'-') && next_is b'-' (spell ps)) ≡ false = ground (arith, dash) in
    let s : ((c == b'/') && next_is b'*' (spell ps)) ≡ false = ground (arith, slash) in
    let q : (c == b'\'') ≡ false = ground (arith, quote) in
    rw (d, s, q) (ap (λ cs. c ∷ cs) (sanitize_sql-spell ps h))
sanitize_sql-spell (line body ∷ ps) (inside, h) =
    line_body body (spell ps) inside ∙ ap (λ cs. b' ' ∷ cs) (sanitize_sql-spell ps h)
sanitize_sql-spell (block body ∷ ps) (inside, h) =
    block_body body (spell ps) inside ∙ ap (λ cs. b' ' ∷ cs) (sanitize_sql-spell ps h)
sanitize_sql-spell (quoted body ∷ ps) (behind, h) =
    ap (λ cs. b' ' ∷ cs)
      (literal_body body (spell ps) behind ∙ ap (λ cs. b' ' ∷ cs) (sanitize_sql-spell ps h))
sanitize_sql-spell (open_line body ∷ ps) h = open_line_body body h
sanitize_sql-spell (open_block body ∷ ps) h = open_block_body body h
sanitize_sql-spell (open_quoted body ∷ ps) h = ap (λ cs. b' ' ∷ cs) (open_literal_body body)
