-- ===== src/Control/Watermark/Laws.antt =====
-- What a watermark cannot do to the SQL (pkg/controlset/executor.go).
use basecheck_agent.Prelude.{
  ℕ, ◌≡◌, refl, sym, ◌∙◌, ap, Bool, Bool-cases, true, false, not, ◌&&◌, ◌==◌, ℤ, [], ◌∷◌, ◌++◌,
  append_assoc, length, All, all, inl, inr, arith, if◌then◌else◌,
}
use basecheck_agent.Text.{Text, text, is_empty, lower, trim_space}
use basecheck_agent.Control.Watermark.Conditions.{
  Watermark, Datum, printed, to_sql_string, matches_shape, timestamp_shape,
  normalize_watermark_timestamp, is_hex, normalize_watermark_hash, to_sql_int,
  format_oracle_unified, format_oracle_traditional, format_mssql_trace, format_postgres_statements,
  format_supabase_auth,
}
use basecheck_agent.Control.Watermark.{
  Capture, oracle_unified, oracle_traditional, oracle_grants, mssql_trace, postgres_statements,
  supabase_auth, resumed, watermark_condition,
}

-- What stands outside of the literals of an SQL text, with their quotes.
unfoldable pub outside : Bool → Text → Text
outside literal [] = []
outside true (c ∷ s) = if c == b'\'' then c ∷ outside false s else outside true s
outside false (c ∷ s) = if c == b'\'' then c ∷ outside true s else c ∷ outside false s

abbrev NotQuote : ℕ → Type 0
NotQuote c = (c == b'\'') ≡ false

-- A text without quotes.
abbrev pub IsUnquoted : Text → Type 0
IsUnquoted s = All NotQuote s

outside_literal : (t s : Text) → IsUnquoted t → outside true (t ++ s) ≡ outside true s
unfolding outside
outside_literal [] s h = refl
outside_literal (c ∷ t) s (q, h) = rw (q, outside_literal t s h) refl

matches_shape-IsUnquoted :
    (shape s : Text) → IsUnquoted shape → matches_shape shape s ≡ true → IsUnquoted s
unfolding matches_shape
matches_shape-IsUnquoted [] [] h m = tt
matches_shape-IsUnquoted [] (c ∷ s) h m = absurd (cc)
matches_shape-IsUnquoted (p ∷ shape) [] h m = absurd (cc)
matches_shape-IsUnquoted (p ∷ shape) (c ∷ s) (q, h) m =
    (ground (arith, q, m), matches_shape-IsUnquoted shape s h (ground (arith, m)))

all-IsUnquoted : (s : Text) → all (λ c. not (c == b'\'')) s ≡ true → IsUnquoted s
all-IsUnquoted [] h = tt
all-IsUnquoted (c ∷ s) h = (ground (arith, h), all-IsUnquoted s (ground (arith, h)))

timestamp-IsUnquoted : (value : Datum) → IsUnquoted (normalize_watermark_timestamp value)
unfolding normalize_watermark_timestamp
timestamp-IsUnquoted value =
    elim (Bool-cases (matches_shape timestamp_shape (to_sql_string value))) [
      | inl y ↦
          rw (y, normalize_watermark_timestamp)
            (matches_shape-IsUnquoted timestamp_shape (to_sql_string value)
              (all-IsUnquoted timestamp_shape refl) y)
      | inr n ↦ rw (n, normalize_watermark_timestamp) tt
    ]

hex-IsUnquoted : (s : Text) → all is_hex s ≡ true → IsUnquoted (lower s)
hex-IsUnquoted [] h = tt
hex-IsUnquoted (c ∷ s) h = (ground (arith, h), hex-IsUnquoted s (ground (arith, h)))

hash-IsUnquoted : (value : Datum) → IsUnquoted (normalize_watermark_hash value)
unfolding normalize_watermark_hash
hash-IsUnquoted value =
    let s = trim_space (printed value) in
    elim (Bool-cases ((length s == 32) && all is_hex s)) [
      | inl y ↦ rw (y, normalize_watermark_hash) (hex-IsUnquoted s (ground (arith, y)))
      | inr n ↦ rw (n, normalize_watermark_hash) tt
    ]

-- A format whose argument stands within literals, which it closes before what follows.
abbrev IsConfined : (Text → Text) → Type 0
IsConfined format =
    (t rest : Text)
    → IsUnquoted t
    → outside false (format t ++ rest) ≡ outside false (format [] ++ rest)

module _ (t : Text) (h : IsUnquoted t) where
  abbrev within : (s : Text) → outside true (t ++ s) ≡ outside true s
  within s = outside_literal t s h

oracle_unified-IsConfined : (e s : ℤ) → IsConfined (λ t. format_oracle_unified t e s)
unfolding format_oracle_unified outside
oracle_unified-IsConfined e s t rest h = simp (append_assoc, within t h) refl

oracle_traditional-IsConfined : (i e s : ℤ) → IsConfined (λ t. format_oracle_traditional t i e s)
unfolding format_oracle_traditional outside
oracle_traditional-IsConfined i e s t rest h = simp (append_assoc, within t h) refl

mssql_trace-IsConfined : (c i o d : ℤ) → IsConfined (λ t. format_mssql_trace t c i o d)
unfolding format_mssql_trace outside
mssql_trace-IsConfined c i o d t rest h = simp (append_assoc, within t h) refl

postgres_statements-IsConfined : (q u d : ℤ) → IsConfined (λ t. format_postgres_statements t q u d)
unfolding format_postgres_statements outside
postgres_statements-IsConfined q u d t rest h = simp (append_assoc, within t h) refl

supabase_auth-IsConfined :
    (t hash rest : Text)
    → IsUnquoted t
    → IsUnquoted hash
    → outside false (format_supabase_auth t hash ++ rest)
      ≡ outside false (format_supabase_auth [] (if is_empty hash then [] else b'0' ∷ []) ++ rest)
unfolding format_supabase_auth outside
supabase_auth-IsConfined t [] rest h k = simp (append_assoc, within t h) refl
supabase_auth-IsConfined t (c ∷ hash) rest h (q, k) =
    simp (append_assoc, within t h, q, λ (r : Text). outside_literal hash r k) refl

-- Two timestamps make no difference outside of the literals.
confined_equal :
    (format : Text → Text) (window t u rest : Text)
    → IsConfined format
    → IsUnquoted t
    → IsUnquoted u
    → is_empty t ≡ is_empty u
    → outside false ((if is_empty t then window else format t) ++ rest)
      ≡ outside false ((if is_empty u then window else format u) ++ rest)
confined_equal format window [] [] rest c h k e = refl
confined_equal format window [] (d ∷ u) rest c h k e = absurd (cc)
confined_equal format window (d ∷ t) [] rest c h k e = absurd (cc)
confined_equal format window (d ∷ t) (f ∷ u) rest c h k e =
    c (d ∷ t) rest h ∙ sym (c (f ∷ u) rest k)

auth_equal :
    (window t u a b rest : Text)
    → IsUnquoted t × IsUnquoted a
    → IsUnquoted u × IsUnquoted b
    → is_empty t ≡ is_empty u
    → is_empty a ≡ is_empty b
    → outside false ((if is_empty t then window else format_supabase_auth t a) ++ rest)
      ≡ outside false ((if is_empty u then window else format_supabase_auth u b) ++ rest)
auth_equal window [] [] a b rest h k e f = refl
auth_equal window [] (d ∷ u) a b rest h k e f = absurd (cc)
auth_equal window (d ∷ t) [] a b rest h k e f = absurd (cc)
auth_equal window (d ∷ t) (g ∷ u) a b rest (h, ha) (k, kb) e f =
    let left = supabase_auth-IsConfined (d ∷ t) a rest h ha in
    let right = supabase_auth-IsConfined (g ∷ u) b rest k kb in
    left
    ∙ ap (λ x. outside false (format_supabase_auth [] (if x then [] else b'0' ∷ []) ++ rest)) f
    ∙ sym right

abbrev pub timestamp_of : Watermark → Text
timestamp_of w = normalize_watermark_timestamp (w (text "event_timestamp"))

abbrev pub hash_of : Watermark → Text
hash_of w = normalize_watermark_hash (w (text "event_hash"))

module _ (w v : Watermark) (rest : Text) where
  abbrev confined :
      (format : Text → Text) (window : Text)
      → IsConfined format
      → is_empty (timestamp_of w) ≡ is_empty (timestamp_of v)
      → outside false
          ((if is_empty (timestamp_of w) then window else format (timestamp_of w)) ++ rest)
        ≡ outside false
            ((if is_empty (timestamp_of v) then window else format (timestamp_of v)) ++ rest)
  confined format window c e =
      confined_equal format window (timestamp_of w) (timestamp_of v) rest c
        (timestamp-IsUnquoted (w (text "event_timestamp")))
        (timestamp-IsUnquoted (v (text "event_timestamp"))) e

  -- Two watermarks with the same integers, of which both have a timestamp or neither, and both have
  -- a hash or neither, make conditions that differ only within literals, whatever SQL follows: what
  -- the backend puts into a timestamp or a hash cannot end a literal or become a part of the query.
  pub watermark_condition-outside :
      (capture : Capture)
      → ((key : Text) → to_sql_int (w key) ≡ to_sql_int (v key))
      → is_empty (timestamp_of w) ≡ is_empty (timestamp_of v)
      → is_empty (hash_of w) ≡ is_empty (hash_of v)
      → outside false (watermark_condition w capture ++ rest)
        ≡ outside false (watermark_condition v capture ++ rest)
  unfolding watermark_condition resumed
  watermark_condition-outside oracle_unified h e k =
      rw (h (text "entry_id"), h (text "statement_id"))
        (confined (λ t. format_oracle_unified t _ _) _ (oracle_unified-IsConfined _ _) e)
  watermark_condition-outside oracle_grants h e k =
      rw (h (text "entry_id"), h (text "statement_id"))
        (confined (λ t. format_oracle_unified t _ _) _ (oracle_unified-IsConfined _ _) e)
  watermark_condition-outside oracle_traditional h e k =
      rw (h (text "sessionid"), h (text "entryid"), h (text "statementid"))
        (confined (λ t. format_oracle_traditional t _ _ _) _ (oracle_traditional-IsConfined _ _ _)
          e)
  watermark_condition-outside mssql_trace h e k =
      rw (h (text "event_class"), h (text "spid"), h (text "object_id"), h (text "database_id"))
        (confined (λ t. format_mssql_trace t _ _ _ _) _ (mssql_trace-IsConfined _ _ _ _) e)
  watermark_condition-outside postgres_statements h e k =
      rw (h (text "query_id"), h (text "user_id"), h (text "dbid"))
        (confined (λ t. format_postgres_statements t _ _ _) _ (postgres_statements-IsConfined _ _ _)
          e)
  watermark_condition-outside supabase_auth h e k =
      auth_equal _ (timestamp_of w) (timestamp_of v) (hash_of w) (hash_of v) rest
        (timestamp-IsUnquoted (w (text "event_timestamp")), hash-IsUnquoted (w (text "event_hash")))
        (timestamp-IsUnquoted (v (text "event_timestamp")), hash-IsUnquoted (v (text "event_hash")))
        e k
