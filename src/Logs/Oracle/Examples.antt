-- ===== src/Logs/Oracle/Examples.antt =====
-- Tests of the alert log's parser on concrete lines, and the theorem about it applied there.
use basecheck_agent.Prelude.{◌≡◌, refl, true, false, pos, Option, none, some, List, [], ◌∷◌, map}
use basecheck_agent.Text.{Text, text, trim_left, trim_right, drop_prefix, join}
use basecheck_agent.Logs.Oracle.Patterns.{
  matches_timestamp, first_code, squeeze, skip, code_at, digits_upto,
}
use basecheck_agent.Logs.Oracle.{
  Source, Event, Formats, is_timestamp_line, parse, parse_from, flush, build_event,
  first_message_line, first_filled, classify_category,
}
use basecheck_agent.Logs.Oracle.Laws.{IsSegmented, parse-IsSegmented}

abbrev formats : Formats
formats = record { parse_time = λ s. some 5; sha256 = λ s. s }

abbrev source : Source
source = record {
  database_name = text "erp";
  database_type = text "oracle";
  name = text "alert";
  type = text "oracle_alert_log";
  path = text "/alert.log";
  enabled = true;
  multiline_mode = [];
  timezone = [];
}

abbrev lines : List Text
lines =
    text "Starting"
    ∷ text "Mon Jan  5 10:00:00 2026"
    ∷ text "Errors in file"
    ∷ text "ORA-00600: x"
    ∷ text "Tue Jan 6 01:02:03 2026"
    ∷ text "done"
    ∷ []

timestamp_test :
    (matches_timestamp (text "Mon Jan  5 10:00:00 2026") ≡ true)
    × (matches_timestamp (text "Mon Jan  5 10:00:00 20267") ≡ false)
unfolding matches_timestamp skip
timestamp_test = (refl, refl)

first_code_test :
    (first_code (text "x ORA-123 TNS-12541: ") ≡ text "TNS-12541")
    × (squeeze false (text "a \t b") ≡ text "a b")
unfolding first_code squeeze code_at drop_prefix digits_upto
first_code_test = (refl, refl)

category_test : classify_category (text "ORA-16911") ≡ text "storage_capacity"
unfolding classify_category drop_prefix
category_test = refl

parse-IsSegmented_example :
    (parsed : List Event) × (parse formats source (pos 100) true lines ≡ some parsed)
    × IsSegmented formats source (pos 100) [] lines parsed
parse-IsSegmented_example = parse-IsSegmented formats source (pos 100) lines

abbrev codes : Option (List Event) → List Text
codes none = []
codes (some events) = map (λ (e : Event). e.code) events

-- Three entries, of which one has a code.
parse_test : codes (parse formats source (pos 100) true lines) ≡ [] ∷ text "ORA-00600" ∷ [] ∷ []
unfolding parse parse_from is_timestamp_line matches_timestamp trim_right trim_left skip flush
    build_event first_message_line first_filled first_code join code_at drop_prefix digits_upto
parse_test = refl
