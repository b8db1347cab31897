-- ===== src/Logs/Oracle/Laws.antt =====
-- How the alert log's lines become entries (pkg/logs/oracle/parser.go).
use basecheck_agent.Prelude.{
  map, pos, negsuc, to_ℕ, zero, suc, arith, false, if◌then◌else◌, ℤ, ◌≡◌, refl, sym, ap, ◌∙◌,
  Bool-cases, true, false, some, List, [], ◌∷◌, ◌++◌, append_assoc, append-nil, All, inl, inr,
}
use basecheck_agent.Text.{Text, is_empty, join, take, trim_left, trim_right}
use basecheck_agent.Logs.Oracle.Patterns.{matches_timestamp}
use basecheck_agent.Logs.Oracle.{
  Source, Event, Formats, is_timestamp_line, flush, parse_from, parse, build_event, is_cut,
  first_message_line, first_filled,
}

abbrev pub IsQuiet : Text → Type 0
IsQuiet line = is_timestamp_line line ≡ false

-- A timestamp, and lines that are none.
abbrev pub IsEntry : List Text → Type 0
IsEntry [] = ⊥
IsEntry (line ∷ lines) = (is_timestamp_line line ≡ true) × All IsQuiet lines

abbrev pub concat {ℓ} : {A : Type ℓ} → List (List A) → List A
concat [] = []
concat (xs ∷ xss) = xs ++ concat xss

excerpt_kept :
    (max : ℤ) (raw : Text)
    → is_empty raw ≡ false
    → is_empty (if is_cut max raw then take (to_ℕ max) raw else raw) ≡ false
unfolding take
excerpt_kept max [] h = absurd (cc)
excerpt_kept (pos zero) (c ∷ raw) h = refl
excerpt_kept (negsuc n) (c ∷ raw) h = refl
excerpt_kept (pos (suc n)) (c ∷ raw) h = elim (Bool-cases (is_cut (pos (suc n)) (c ∷ raw))) [
  | inl cut ↦ rw cut refl
  | inr whole ↦ rw whole refl
]

blank_cut : (max : ℤ) → is_cut max [] ≡ false
blank_cut (pos zero) = refl
blank_cut (pos (suc n)) = ground arith
blank_cut (negsuc n) = refl

flush_filled :
    (formats : Formats) (source : Source) (max : ℤ) (line : Text) (lines : List Text)
    → is_empty (join (line ∷ lines) (10 ∷ [])) ≡ false
    → flush formats source max (line ∷ lines) ≡ build_event formats source max (line ∷ lines) ∷ []
unfolding flush build_event
flush_filled formats source max line lines h =
    let kept = excerpt_kept max (join (line ∷ lines) (10 ∷ [])) h in ground (arith, kept)

module _ (formats : Formats) (source : Source) (max_excerpt_bytes : ℤ) where
  abbrev event_of : List Text → Event
  event_of lines = build_event formats source max_excerpt_bytes lines

  -- The event of lines that no timestamp leads: none if there is not a byte in them.
  abbrev pub leading : List Text → List Event
  leading lines = if is_empty (join lines (10 ∷ [])) then [] else event_of lines ∷ []

  -- Lines that belong to those gathered so far, and the entries behind them: all lines, each once
  -- and in order; and an event for each entry.
  pub record IsSegmented (gathered lines : List Text) (parsed : List Event) : Type 0 where
    pub more : List Text
    pub entries : List (List Text)
    pub quiet : All IsQuiet more
    pub timed : All IsEntry entries
    pub whole : more ++ concat entries ≡ lines
    pub events : parsed ≡ leading (gathered ++ more) ++ map event_of entries

  -- What `flush` makes of any lines.
  flush-leading : (lines : List Text) → flush formats source max_excerpt_bytes lines ≡ leading lines
  unfolding join build_event first_message_line first_filled flush is_timestamp_line
      matches_timestamp trim_right trim_left
  flush-leading [] = refl
  flush-leading ([] ∷ []) = rw (blank_cut max_excerpt_bytes) refl
  flush-leading ((c ∷ cs) ∷ []) = flush_filled formats source max_excerpt_bytes (c ∷ cs) [] refl
  flush-leading ([] ∷ (next ∷ more)) =
      flush_filled formats source max_excerpt_bytes [] (next ∷ more) refl
  flush-leading ((c ∷ cs) ∷ (next ∷ more)) =
      flush_filled formats source max_excerpt_bytes (c ∷ cs) (next ∷ more) refl

  -- A timestamp is not empty.
  flush-entry :
      (line : Text) (lines : List Text)
      → is_timestamp_line line ≡ true
      → flush formats source max_excerpt_bytes (line ∷ lines) ≡ event_of (line ∷ lines) ∷ []
  unfolding join is_timestamp_line matches_timestamp trim_right trim_left
  flush-entry [] lines h = absurd (cc)
  flush-entry (c ∷ cs) [] h = flush_filled formats source max_excerpt_bytes (c ∷ cs) [] refl
  flush-entry (c ∷ cs) (next ∷ more) h =
      flush_filled formats source max_excerpt_bytes (c ∷ cs) (next ∷ more) refl

  parse_from-IsSegmented :
      (gathered lines : List Text)
      → IsSegmented gathered lines (parse_from formats source max_excerpt_bytes gathered lines)
  unfolding parse_from
  parse_from-IsSegmented gathered [] = record {
    more = [];
    entries = [];
    quiet = tt;
    timed = tt;
    whole = refl;
    events = simp append-nil (flush-leading gathered);
  }
  parse_from-IsSegmented gathered (line ∷ lines) = elim (Bool-cases (is_timestamp_line line)) [
    | inl stamped ↦
        let r = parse_from-IsSegmented (line ∷ []) lines in
        let head = sym (flush-leading (line ∷ r.more)) ∙ flush-entry line r.more stamped in
        record {
          more = [];
          entries = (line ∷ r.more) ∷ r.entries;
          quiet = tt;
          timed = ((stamped, r.quiet), r.timed);
          whole = ap (λ ls. line ∷ ls) r.whole;
          events =
              rw (stamped, parse_from, append-nil gathered, flush-leading gathered)
                (ap (λ es. leading gathered ++ es)
                  (r.events ∙ ap (λ es. es ++ map event_of r.entries) head));
        }
    | inr plain ↦
        let r = parse_from-IsSegmented (gathered ++ line ∷ []) lines in
        record {
          more = line ∷ r.more;
          entries = r.entries;
          quiet = (plain, r.quiet);
          timed = r.timed;
          whole = ap (λ ls. line ∷ ls) r.whole;
          events =
              simp (plain, parse_from)
                (r.events
                  ∙ ap (λ g. leading g ++ map event_of r.entries)
                      (append_assoc gathered (line ∷ []) r.more));
        }
  ]

  -- A log that the scanner can read is parsed: its lines are those in front of the first timestamp,
  -- and then entries, each a timestamp and the lines up to the next one; no line is lost, and none is
  -- in two entries. The events are, in order, one for each entry, built of its lines, behind one for
  -- the lines in front of the first timestamp, if those hold a byte or more than one line.
  pub parse-IsSegmented :
      (lines : List Text)
      → (parsed : List Event) × (parse formats source max_excerpt_bytes true lines ≡ some parsed)
        × IsSegmented [] lines parsed
  unfolding parse
  parse-IsSegmented lines =
      (parse_from formats source max_excerpt_bytes [] lines, refl, parse_from-IsSegmented [] lines)
