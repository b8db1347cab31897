-- ===== src/Siem/Examples/Syslog.antt =====
-- Tests of the syslog destination on concrete events, and the theorems about it applied there.
use basecheck_agent.Prelude.{ℕ, zero, suc, ◌≡◌, refl, true, false, pos, none, some, [], ◌∷◌, ◌++◌}
use basecheck_agent.Text.{Text, text, text_eq, take, trim_left, trim_right, trim_space}
use basecheck_agent.Text.Numbers.{print_int, digits_before}
use basecheck_agent.Config.Siem.{syslog_facility}
use basecheck_agent.Config.Check.{is_siem_only}
use basecheck_agent.Config.Examples.{settings, settings_accepted, parse_url}
use basecheck_agent.Siem.Syslog.{
  SyslogConfig, SyslogDestination, Rendered, Write, write, format_message, format_all, facility_of,
  facility_named, new_syslog_destination, send_message, send_messages, write_fault, syslog_send,
  syslog_severity, priority,
}
use basecheck_agent.Siem.Destination.{Destination, destination_config, new_destination}
use basecheck_agent.Siem.Destination.Laws.{validate-new_destination}

abbrev config : SyslogConfig
config = record {
  host = text " log ";
  port = pos 0;
  protocol = text "UDP";
  facility = text "Local3";
  app_name = [];
  timeout_seconds = pos 0;
}

abbrev destination : SyslogDestination
destination = record {
  host = text "log";
  port = pos 514;
  protocol = text "udp";
  facility = 19;
  app_name = text "basecheck";
  hostname = text "h";
  timeout = pos 30;
}

new_destination_test : new_syslog_destination (text "h") config ≡ some destination
unfolding new_syslog_destination text_eq trim_left trim_right facility_of facility_named
new_destination_test = refl

abbrev first : Rendered
first = record { severity = text "High"; timestamp = text "t1"; payload = some (text "x") }

abbrev second : Rendered
second = record { severity = text "low"; timestamp = text "t2"; payload = some (text "y") }

format_message_test :
    format_message destination second ≡ some (text "<157>1 t2 h basecheck - - - y" ++ (10 ∷ []))
unfolding format_message print_int digits_before priority syslog_severity text_eq
format_message_test = refl

-- The second message breaks off behind four bytes.
abbrev writes : ℕ → Write
writes zero = write 30 none
writes (suc n) = write 4 none

syslog_send_test :
    (syslog_send destination none writes false (first ∷ second ∷ [])).wire
    ≡ text "<155>1 t1 h basecheck - - - x" ++ (10 ∷ text "<157")
unfolding syslog_send format_all format_message send_messages send_message write_fault print_int
    digits_before priority syslog_severity text_eq take
syslog_send_test = refl

only_siem : is_siem_only settings ≡ true
unfolding is_siem_only text_eq trim_left trim_right
only_siem = refl

known_facility : facility_of (syslog_facility settings.output.siem.syslog) ≡ some 19
unfolding facility_of facility_named syslog_facility text_eq trim_left trim_right
known_facility = refl

untouched : trim_space settings.output.siem.webhook.url ≡ settings.output.siem.webhook.url
unfolding trim_left trim_right
untouched = refl

validate-new_destination_example :
    (d : Destination) × (new_destination parse_url (text "h") (destination_config settings)
      ≡ some d)
validate-new_destination_example =
    validate-new_destination parse_url (text "h") settings 19 settings_accepted only_siem untouched
      known_facility
