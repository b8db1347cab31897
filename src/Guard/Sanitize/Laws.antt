-- ===== src/Guard/Sanitize/Laws.antt =====
-- What sanitised text looks like (pkg/database/query_guard.go).
use basecheck_agent.Prelude.{
  ℕ, ◌≡◌, ◌≢◌, refl, ap, List, [], ◌∷◌, ◌++◌, Bool-cases, false, ◌&&◌, inl, inr, arith, All, ◌==◌,
}
use basecheck_agent.Guard.Sanitize.{
  Scan, code, line_comment, block_comment, literal, at, over, next_is, sanitize_from, sanitize_sql,
}

-- No quote, and no start of a comment, at any place.
abbrev pub IsClean : List ℕ → Type 0
IsClean [] = Unit
IsClean (c ∷ cs) =
    ((c ≢ b'\'') × ((c ≡ b'-' → next_is b'-' cs ≡ false) × (c ≡ b'/' → next_is b'*' cs ≡ false)))
    × IsClean cs

-- Within a comment or a literal, what is written next is a space.
line_head :
    (b : ℕ) (sql : List ℕ) → b ≢ b' ' → next_is b (sanitize_from (at line_comment) sql) ≡ false
unfolding sanitize_from
line_head b [] n = refl
line_head b (ch ∷ rest) n = ground (arith, n, line_head b rest n)

block_head :
    (b : ℕ) (sql : List ℕ) → b ≢ b' ' → next_is b (sanitize_from (at block_comment) sql) ≡ false
unfolding sanitize_from
block_head b [] n = refl
block_head b (ch ∷ rest) n = ground (arith, n, block_head b rest n)

literal_head :
    (b : ℕ) (sql : List ℕ) → b ≢ b' ' → next_is b (sanitize_from (at literal) sql) ≡ false
unfolding sanitize_from
literal_head b [] n = refl
literal_head b (ch ∷ []) n = ground (arith, n)
literal_head b (ch ∷ d ∷ rest) n =
    ground (arith, n, literal_head b (d ∷ rest) n, literal_head b rest n)

code_head :
    (b : ℕ) (sql : List ℕ)
    → b ≢ b' '
    → next_is b sql ≡ false
    → next_is b (sanitize_from (at code) sql) ≡ false
unfolding sanitize_from
code_head b [] n h = refl
code_head b (ch ∷ []) n h = ground (arith, n, h)
code_head b (ch ∷ d ∷ rest) n h =
    ground (arith, n, h, line_head b rest n, block_head b rest n, literal_head b (d ∷ rest) n)

-- Sanitised text holds no quote and no start of a comment.

space-IsClean : (cs : List ℕ) → IsClean cs → IsClean (b' ' ∷ cs)
space-IsClean cs h = ((λ e. omega arith, (λ e. absurd (omega arith), λ e. absurd (omega arith))), h)

-- A byte that is no quote and starts no comment is written as it is.
plain-IsClean :
    (ch : ℕ) (rest : List ℕ)
    → ((ch == b'-') && next_is b'-' rest) ≡ false
    → ((ch == b'/') && next_is b'*' rest) ≡ false
    → (ch == b'\'') ≡ false
    → IsClean (sanitize_from (at code) rest)
    → IsClean (ch ∷ sanitize_from (at code) rest)
plain-IsClean ch rest dash slash quote h =
    let quiet_dash : ch ≡ b'-' → next_is b'-' rest ≡ false = λ e. ground (arith, e, dash) in
    let quiet_slash : ch ≡ b'/' → next_is b'*' rest ≡ false = λ e. ground (arith, e, slash) in
    (
      (
        ground (arith, quote),
        (
          λ e. code_head b'-' rest (λ x. omega arith) (quiet_dash e),
          λ e. code_head b'*' rest (λ x. omega arith) (quiet_slash e),
        ),
      ),
      h,
    )

-- Sanitised text holds no quote and no start of a comment, wherever the scan begins.
pub sanitize_from-IsClean : (scan : Scan) (sql : List ℕ) → IsClean (sanitize_from scan sql)
unfolding sanitize_from
sanitize_from-IsClean (at m) [] = tt
sanitize_from-IsClean (over m) [] = tt
sanitize_from-IsClean (over m) (ch ∷ rest) = sanitize_from-IsClean (at m) rest
sanitize_from-IsClean (at line_comment) (ch ∷ rest) = elim (Bool-cases (ch == b'\n')) [
  | inl h ↦
      rw h (space-IsClean (sanitize_from (at code) rest) (sanitize_from-IsClean (at code) rest))
  | inr h ↦ rw h (sanitize_from-IsClean (at line_comment) rest)
]
sanitize_from-IsClean (at block_comment) (ch ∷ rest) =
    elim (Bool-cases ((ch == b'*') && next_is b'/' rest)) [
      | inl h ↦
          rw h (
            space-IsClean (sanitize_from (over code) rest) (sanitize_from-IsClean (over code) rest))
      | inr h ↦ rw h (sanitize_from-IsClean (at block_comment) rest)
    ]
sanitize_from-IsClean (at literal) (ch ∷ rest) = elim (Bool-cases (ch == b'\'')) [
  | inl h ↦ elim (Bool-cases (next_is b'\'' rest)) [
    | inl g ↦ rw (h, g) (sanitize_from-IsClean (over literal) rest)
    | inr g ↦
        rw (h, g)
          (space-IsClean (sanitize_from (at code) rest) (sanitize_from-IsClean (at code) rest))
  ]
  | inr h ↦ rw h (sanitize_from-IsClean (at literal) rest)
]
sanitize_from-IsClean (at code) (ch ∷ rest) =
    elim (Bool-cases ((ch == b'-') && next_is b'-' rest)) [
      | inl d ↦ rw d (sanitize_from-IsClean (over line_comment) rest)
      | inr d ↦ elim (Bool-cases ((ch == b'/') && next_is b'*' rest)) [
        | inl s ↦ rw (d, s) (sanitize_from-IsClean (over block_comment) rest)
        | inr s ↦ elim (Bool-cases (ch == b'\'')) [
          | inl q ↦
              rw (d, s, q)
                (space-IsClean (sanitize_from (at literal) rest)
                  (sanitize_from-IsClean (at literal) rest))
          | inr q ↦
              rw (d, s, q) (plain-IsClean ch rest d s q (sanitize_from-IsClean (at code) rest))
        ]
      ]
    ]

-- Clean text is left as it is.
pub sanitize_from-clean : (sql : List ℕ) → IsClean sql → sanitize_from (at code) sql ≡ sql
unfolding sanitize_from
sanitize_from-clean [] h = refl
sanitize_from-clean (ch ∷ rest) ((quote, (dash, slash)), h) =
    let d : ((ch == b'-') && next_is b'-' rest) ≡ false = ground (arith, dash) in
    let s : ((ch == b'/') && next_is b'*' rest) ≡ false = ground (arith, slash) in
    let q : (ch == b'\'') ≡ false = ground (arith, quote) in
    rw (d, s, q) (ap (λ cs. ch ∷ cs) (sanitize_from-clean rest h))

-- A second sanitisation changes nothing.
pub sanitize_sql-sanitize_sql : (sql : List ℕ) → sanitize_sql (sanitize_sql sql) ≡ sanitize_sql sql
unfolding sanitize_sql
sanitize_sql-sanitize_sql sql =
    sanitize_from-clean (sanitize_from (at code) sql) (sanitize_from-IsClean (at code) sql)

literal_body :
    (body post : List ℕ)
    → All (λ c. c ≢ b'\'') body
    → next_is b'\'' post ≡ false
    → sanitize_from (at literal) (body ++ (b'\'' ∷ post)) ≡ b' ' ∷ sanitize_from (at code) post
unfolding sanitize_from
literal_body [] post h n = rw n refl
literal_body (c ∷ cs) post (here, h) n =
    let other : (c == b'\'') ≡ false = ground (arith, here) in rw other (literal_body cs post h n)

-- What a string literal holds does not show: a literal without quotes in it, before text that does
-- not go on with a quote, becomes two spaces.
pub literal_hidden :
    (body post : List ℕ)
    → All (λ c. c ≢ b'\'') body
    → next_is b'\'' post ≡ false
    → sanitize_sql (b'\'' ∷ (body ++ (b'\'' ∷ post))) ≡ b' ' ∷ b' ' ∷ sanitize_sql post
unfolding sanitize_sql sanitize_from
literal_hidden body post h n = ap (λ cs. b' ' ∷ cs) (literal_body body post h n)
