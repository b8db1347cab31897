-- ===== src/Guard/Sanitize.antt =====
-- `sanitizeSQL` of pkg/database/query_guard.go: comments and string literals give way to spaces.
pub mod Laws
pub mod Pieces
use basecheck_agent.Prelude.{
  ℕ, Bool, Option, none, some, List, [], ◌∷◌, if◌then◌else◌, ◌&&◌, false, ◌==◌,
}

-- Which of the three flags is set.
pub data Mode : Type 0 where
  code : Mode
  line_comment : Mode
  block_comment : Mode
  literal : Mode

-- The loop's position: at a byte, or behind `i += 2` with a byte to pass over.
pub data Scan : Type 0 where
  at : Mode → Scan
  over : Mode → Scan

-- `i+1 < len(sqlText) && sqlText[i+1] == b`
abbrev pub next_is : ℕ → List ℕ → Bool
next_is b [] = false
next_is b (c ∷ cs) = c == b

-- What a round of the loop writes, and where it goes on; the list is what follows the byte.
abbrev pub step : Mode → ℕ → List ℕ → Option ℕ × Scan
step line_comment ch rest = if ch == b'\n' then (some b' ', at code) else (none, at line_comment)
step block_comment ch rest =
    if (ch == b'*') && next_is b'/' rest then (some b' ', over code) else (none, at block_comment)
step literal ch rest =
    if ch == b'\''
    then if next_is b'\'' rest then (none, over literal) else (some b' ', at code)
    else (none, at literal)
step code ch rest =
    if (ch == b'-') && next_is b'-' rest
    then (none, over line_comment)
    else if (ch == b'/') && next_is b'*' rest
    then (none, over block_comment)
    else if ch == b'\''
    then (some b' ', at literal)
    else (some ch, at code)

abbrev pub write : Option ℕ → List ℕ → List ℕ
write none out = out
write (some b) out = b ∷ out

unfoldable pub sanitize_from : Scan → List ℕ → List ℕ
sanitize_from scan [] = []
sanitize_from (over m) (ch ∷ rest) = sanitize_from (at m) rest
sanitize_from (at m) (ch ∷ rest) = let r = step m ch rest in write r.0 (sanitize_from r.1 rest)

unfoldable pub sanitize_sql : List ℕ → List ℕ
sanitize_sql sql = sanitize_from (at code) sql
