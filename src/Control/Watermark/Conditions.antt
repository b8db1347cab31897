-- ===== src/Control/Watermark/Conditions.antt =====
-- The conditions that a watermark becomes (pkg/controlset/executor.go). A value is nil, a number,
-- with its conversion to 64 bits, or anything else, with what `%v` prints of it.
use basecheck_agent.Prelude.{
  ℕ, Bool, true, false, ◌&&◌, ◌||◌, ◌==◌, ℤ, negsuc, none, some, [], ◌∷◌, ◌++◌, length, all, leb,
  if◌then◌else◌,
}
use basecheck_agent.Text.{Text, text, is_empty, is_digit, lower, index_of, take, trim_space}
use basecheck_agent.Text.Numbers.{atoi, print_int}

pub data Datum : Type 0 where
  nil : Datum
  number : Text → ℤ → Datum
  other : Text → Datum

-- A map, nil where the key is missing.
abbrev pub Watermark : Type 0
Watermark = Text → Datum

abbrev pub printed : Datum → Text
printed nil = text "<nil>"
printed (number s i) = s
printed (other s) = s

-- `strings.TrimSuffix(s, "Z")`
unfoldable pub without_zone : Text → Text
without_zone [] = []
without_zone (c ∷ []) = if c == b'Z' then [] else c ∷ []
without_zone (c ∷ (d ∷ s)) = c ∷ without_zone (d ∷ s)

-- The part before a separator, or all of the text.
abbrev pub before : Text → Text → Text
before s sep = elim (index_of s sep) [ none ↦ s | some i ↦ take i s ]

unfoldable pub to_sql_string : Datum → Text
to_sql_string nil = []
to_sql_string (number s i) = before (before (without_zone (trim_space s)) (text ".")) (text "+")
to_sql_string (other s) = before (before (without_zone (trim_space s)) (text ".")) (text "+")

-- A pattern in which `d` stands for a digit and any other byte for itself.
unfoldable pub matches_shape : Text → Text → Bool
matches_shape [] [] = true
matches_shape [] (c ∷ s) = false
matches_shape (p ∷ shape) [] = false
matches_shape (p ∷ shape) (c ∷ s) =
    (if p == b'd' then is_digit c else c == p) && matches_shape shape s

-- `sqlWatermarkTimestampPattern`
abbrev pub timestamp_shape : Text
timestamp_shape = text "dddd-dd-ddTdd:dd:dd"

unfoldable pub normalize_watermark_timestamp : Datum → Text
normalize_watermark_timestamp value =
    let s = to_sql_string value in if matches_shape timestamp_shape s then s else []

abbrev pub is_hex : ℕ → Bool
is_hex c = is_digit c || (leb b'a' c && leb c b'f' || leb b'A' c && leb c b'F')

unfoldable pub normalize_watermark_hash : Datum → Text
normalize_watermark_hash value =
    let s = trim_space (printed value) in if (length s == 32) && all is_hex s then lower s else []

unfoldable pub to_sql_int : Datum → ℤ
to_sql_int nil = negsuc 0
to_sql_int (number s i) = i
to_sql_int (other s) = elim (atoi s) [ none ↦ negsuc 0 | some i ↦ i ]

-- The texts that `fmt.Sprintf` makes, over a timestamp and integers.
unfoldable pub format_oracle_unified : Text → ℤ → ℤ → Text
format_oracle_unified t entry statement =
    text "(\n    EVENT_TIMESTAMP > TO_TIMESTAMP('"
    ++ (t
        ++ (text "', 'YYYY-MM-DD\"T\"HH24:MI:SS')\n    OR (EVENT_TIMESTAMP = TO_TIMESTAMP('"
            ++ (t
                ++ (text "', 'YYYY-MM-DD\"T\"HH24:MI:SS') AND (\n        NVL(ENTRY_ID, -1) > "
                    ++ (print_int entry
                        ++ (text "\n        OR (NVL(ENTRY_ID, -1) = "
                            ++ (print_int entry
                                ++ (text " AND NVL(STATEMENT_ID, -1) > "
                                    ++ (print_int statement ++ text ")\n    ))\n)")))))))))

unfoldable pub format_oracle_traditional : Text → ℤ → ℤ → ℤ → Text
format_oracle_traditional t session entry statement =
    text "(\n    EXTENDED_TIMESTAMP > TO_TIMESTAMP('"
    ++ (t
        ++ (text "', 'YYYY-MM-DD\"T\"HH24:MI:SS')\n    OR (EXTENDED_TIMESTAMP = TO_TIMESTAMP('"
            ++ (t
                ++ (text "', 'YYYY-MM-DD\"T\"HH24:MI:SS') AND (\n        NVL(SESSIONID, -1) > "
                    ++ (print_int session
                        ++ (text "\n        OR (NVL(SESSIONID, -1) = "
                            ++ (print_int session
                                ++ (text " AND NVL(ENTRYID, -1) > "
                                    ++ (print_int entry
                                        ++ (text ")\n        OR (NVL(SESSIONID, -1) = "
                                            ++ (print_int session
                                                ++ (text " AND NVL(ENTRYID, -1) = "
                                                    ++ (print_int entry
                                                        ++ (text " AND NVL(STATEMENTID, -1) > "
                                                            ++ (print_int statement
                                                            ++ text ")\n    ))\n)")))))))))))))))

unfoldable pub format_mssql_trace : Text → ℤ → ℤ → ℤ → ℤ → Text
format_mssql_trace t class spid object database =
    text "(\n    te.StartTime > CAST('"
    ++ (t
        ++ (text "' AS DATETIME)\n    OR (te.StartTime = CAST('"
            ++ (t
                ++ (text "' AS DATETIME) AND (\n        ISNULL(te.EventClass, -1) > "
                    ++ (print_int class
                        ++ (text "\n        OR (ISNULL(te.EventClass, -1) = "
                            ++ (print_int class
                                ++ (text " AND ISNULL(te.SPID, -1) > "
                                    ++ (print_int spid
                                        ++ (text ")\n        OR (ISNULL(te.EventClass, -1) = "
                                            ++ (print_int class
                                                ++ (text " AND ISNULL(te.SPID, -1) = "
                                                    ++ (print_int spid
                                                        ++ (text " AND ISNULL(te.ObjectID, -1) > "
                                                            ++ (print_int object
                                                            ++ (text
                                                            ")\n        OR (ISNULL(te.EventClass, -1) = "
                                                            ++ (print_int class
                                                            ++ (text " AND ISNULL(te.SPID, -1) = "
                                                            ++ (print_int spid
                                                            ++ (text
                                                            " AND ISNULL(te.ObjectID, -1) = "
                                                            ++ (print_int object
                                                            ++ (text
                                                            " AND ISNULL(te.DatabaseID, -1) > "
                                                            ++ (print_int database
                                                            ++ text
                                                            ")\n    ))\n)")))))))))))))))))))))))

unfoldable pub format_postgres_statements : Text → ℤ → ℤ → ℤ → Text
format_postgres_statements t query user db =
    text "(\n    COALESCE(pss.last_exec_time, NOW()) > TIMESTAMP '"
    ++ (t
        ++ (text "'\n    OR (COALESCE(pss.last_exec_time, NOW()) = TIMESTAMP '"
            ++ (t
                ++ (text "' AND (\n        COALESCE(pss.queryid, -1) > "
                    ++ (print_int query
                        ++ (text "\n        OR (COALESCE(pss.queryid, -1) = "
                            ++ (print_int query
                                ++ (text " AND COALESCE(pss.userid, -1) > "
                                    ++ (print_int user
                                        ++ (text ")\n        OR (COALESCE(pss.queryid, -1) = "
                                            ++ (print_int query
                                                ++ (text " AND COALESCE(pss.userid, -1) = "
                                                    ++ (print_int user
                                                        ++ (text " AND COALESCE(pss.dbid, -1) > "
                                                            ++ (print_int db
                                                            ++ text ")\n    ))\n)")))))))))))))))

unfoldable pub format_supabase_auth : Text → Text → Text
format_supabase_auth t hash =
    if is_empty hash
    then text "created_at >= TIMESTAMP '" ++ (t ++ text "'")
    else text "(\n    created_at > TIMESTAMP '"
      ++ (t
          ++ (text "'\n    OR (created_at = TIMESTAMP '"
              ++ (t
                  ++ (text "' AND md5(COALESCE(payload::text, '')) > '"
                      ++ (hash ++ text "')\n)")))))
