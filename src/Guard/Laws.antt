-- ===== src/Guard/Laws.antt =====
-- What a query that passes the guard looks like (pkg/database/query_guard.go).
use basecheck_agent.Prelude.{subst, ℕ, ◌≡◌, none, true, false, List, [], ◌∷◌, arith}
use basecheck_agent.Guard.{
  Engine, oracle, postgres, supabase, sqlite, admin_words, dml_words, postgres_words, sqlite_words,
  standard_leading, sqlite_leading, require_single_statement, leads, validate_sqlite,
  engine_forbids, validate_standard, validate_engine, validate_read_only_query,
}
use basecheck_agent.Guard.Sanitize.{sanitize_sql}
use basecheck_agent.Guard.Words.{
  contains_match, contains_word, any_word, execute_immediate, write_pragma,
}
use basecheck_agent.Guard.Sanitize.Pieces.{Piece, spell, shown, IsText, sanitize_sql-spell}
use basecheck_agent.Guard.Statements.{
  IsSingle, IsLed, require_single_statement-IsSingle, leads-IsLed,
}
use basecheck_agent.Text.{text}
use basecheck_agent.Guard.Words.Laws.{NoneOccurs, any_word-NoneOccurs, contains_word-Occurs}

-- What each engine refuses beside the words that all refuse.
abbrev pub EngineAllows : Engine → List ℕ → Type 0
EngineAllows sqlite cs =
    NoneOccurs sqlite_words cs
    × ((contains_match write_pragma false cs ≡ false) × IsLed sqlite_leading cs)
EngineAllows oracle cs =
    NoneOccurs ("CALL" ∷ "INTO" ∷ []) cs
    × ((contains_match execute_immediate false cs ≡ false) × IsLed standard_leading cs)
EngineAllows postgres cs =
    NoneOccurs ("CALL" ∷ "INTO" ∷ []) cs
    × (NoneOccurs postgres_words cs × IsLed standard_leading cs)
EngineAllows supabase cs =
    NoneOccurs ("CALL" ∷ "INTO" ∷ []) cs
    × (NoneOccurs postgres_words cs × IsLed standard_leading cs)

-- One statement at most, no data modification, and nothing that the engine refuses.
abbrev pub IsReadOnly : Engine → List ℕ → Type 0
IsReadOnly engine cs = IsSingle cs × (NoneOccurs dml_words cs × EngineAllows engine cs)

call_into :
    (cs : List ℕ)
    → contains_word (text "CALL") false cs ≡ false
    → contains_word (text "INTO") false cs ≡ false
    → NoneOccurs ("CALL" ∷ "INTO" ∷ []) cs
call_into cs c i = (
  λ o. let found = contains_word-Occurs (text "CALL") cs o in ground (arith, found, c),
  (λ o. let found = contains_word-Occurs (text "INTO") cs o in ground (arith, found, i), tt),
)

-- The tests that a standard engine has passed.
record PassesStandard (engine : Engine) (cs : List ℕ) : Type 0 where
  pub single : require_single_statement cs ≡ none
  pub no_dml : any_word dml_words cs ≡ false
  pub no_call : contains_word (text "CALL") false cs ≡ false
  pub no_into : contains_word (text "INTO") false cs ≡ false
  pub allowed : engine_forbids engine cs ≡ false
  pub led : leads standard_leading cs ≡ true

standard_passes :
    (engine : Engine) (cs : List ℕ) → validate_standard engine cs ≡ none → PassesStandard engine cs
unfolding validate_standard
standard_passes engine cs h = record {
  single = ground (arith, h);
  no_dml = ground (arith, h);
  no_call = ground (arith, h);
  no_into = ground (arith, h);
  allowed = ground (arith, h);
  led = ground (arith, h);
}

record PassesSqlite (cs : List ℕ) : Type 0 where
  pub single : require_single_statement cs ≡ none
  pub no_dml : any_word dml_words cs ≡ false
  pub no_words : any_word sqlite_words cs ≡ false
  pub no_pragma : contains_match write_pragma false cs ≡ false
  pub led : leads sqlite_leading cs ≡ true

sqlite_passes : (cs : List ℕ) → validate_sqlite cs ≡ none → PassesSqlite cs
unfolding validate_sqlite
sqlite_passes cs h = record {
  single = ground (arith, h);
  no_dml = ground (arith, h);
  no_words = ground (arith, h);
  no_pragma = ground (arith, h);
  led = ground (arith, h);
}

engine-IsReadOnly :
    (engine : Engine) (cs : List ℕ) → validate_engine engine cs ≡ none → IsReadOnly engine cs
unfolding validate_engine engine_forbids
engine-IsReadOnly sqlite cs h =
    let p = sqlite_passes cs h in
    (
      require_single_statement-IsSingle cs p.single,
      (
        any_word-NoneOccurs dml_words cs p.no_dml,
        (
          any_word-NoneOccurs sqlite_words cs p.no_words,
          (p.no_pragma, leads-IsLed sqlite_leading cs p.led),
        ),
      ),
    )
engine-IsReadOnly oracle cs h =
    let p = standard_passes oracle cs h in
    (
      require_single_statement-IsSingle cs p.single,
      (
        any_word-NoneOccurs dml_words cs p.no_dml,
        (call_into cs p.no_call p.no_into, (p.allowed, leads-IsLed standard_leading cs p.led)),
      ),
    )
engine-IsReadOnly postgres cs h =
    let p = standard_passes postgres cs h in
    (
      require_single_statement-IsSingle cs p.single,
      (
        any_word-NoneOccurs dml_words cs p.no_dml,
        (
          call_into cs p.no_call p.no_into,
          (any_word-NoneOccurs postgres_words cs p.allowed, leads-IsLed standard_leading cs p.led),
        ),
      ),
    )
engine-IsReadOnly supabase cs h =
    let p = standard_passes supabase cs h in
    (
      require_single_statement-IsSingle cs p.single,
      (
        any_word-NoneOccurs dml_words cs p.no_dml,
        (
          call_into cs p.no_call p.no_into,
          (any_word-NoneOccurs postgres_words cs p.allowed, leads-IsLed standard_leading cs p.led),
        ),
      ),
    )

sanitized-IsReadOnly :
    (engine : Engine) (sql : List ℕ)
    → validate_read_only_query engine sql ≡ none
    → NoneOccurs admin_words (sanitize_sql sql) × IsReadOnly engine (sanitize_sql sql)
unfolding validate_read_only_query
sanitized-IsReadOnly engine sql h =
    let cs = sanitize_sql sql in
    let no_admin : any_word admin_words cs ≡ false = ground (arith, h) in
    let passed : validate_engine engine cs ≡ none = ground (arith, h) in
    (any_word-NoneOccurs admin_words cs no_admin, engine-IsReadOnly engine cs passed)

-- Of a query that is made of bytes of code, comments and string literals, and passes the guard, what
-- is left when its comments and literals give way to blanks is one statement, with nothing but spaces
-- and semicolons around it, and begins with a read-only verb; no administrative or data-modifying word
-- occurs in it in any case as a word of its own, and nothing that its engine refuses. The pieces are
-- those that the guard knows: a quoted identifier is read as bytes of code, so that a quote in it
-- begins a literal.
pub validate_read_only_query-IsReadOnly :
    (engine : Engine) (pieces : List Piece)
    → IsText pieces
    → validate_read_only_query engine (spell pieces) ≡ none
    → NoneOccurs admin_words (shown pieces) × IsReadOnly engine (shown pieces)
validate_read_only_query-IsReadOnly engine pieces made h =
    subst (λ cs. NoneOccurs admin_words cs × IsReadOnly engine cs) (sanitize_sql-spell pieces made)
      (sanitized-IsReadOnly engine (spell pieces) h)
