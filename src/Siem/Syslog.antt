-- ===== src/Siem/Syslog.antt =====
-- The syslog destination of pkg/siem/syslog.go: its settings, its messages and their delivery. A
-- text is a list of bytes, and it is ASCII; a timeout is in seconds, and below 2^63 nanoseconds. The
-- lock around the connection is left out.
pub mod Laws
use basecheck_agent.Prelude.{
  ℕ, suc, ◌+◌, ◌*◌, Bool, true, false, not, ◌&&◌, ◌||◌, ◌==◌, ℤ, pos, is_neg, is_nonpos, Option,
  none, some, List, [], ◌∷◌, ◌++◌, length, min, if◌then◌else◌,
}
use basecheck_agent.Text.{Text, text, text_eq, is_empty, lower, upper, take, trim_space}
use basecheck_agent.Text.Numbers.{print_int}
use basecheck_agent.Config.Siem.{above_port, is_protocol}
use basecheck_agent.Config.Database.{is_zero}
use basecheck_agent.Siem.Fault.{Fault, wrapped, retryable_error, plain}

pub record SyslogConfig : Type 0 where
  pub host : Text
  pub port : ℤ
  pub protocol : Text
  pub facility : Text
  pub app_name : Text
  pub timeout_seconds : ℤ

pub record SyslogDestination : Type 0 where
  pub host : Text
  pub port : ℤ
  pub protocol : Text
  pub facility : ℕ
  pub app_name : Text
  pub hostname : Text
  pub timeout : ℤ

abbrev pub facilities : List (Text × ℕ)
facilities =
    (text "kern", 0)
    ∷ (text "user", 1)
    ∷ (text "mail", 2)
    ∷ (text "daemon", 3)
    ∷ (text "auth", 4)
    ∷ (text "syslog", 5)
    ∷ (text "lpr", 6)
    ∷ (text "news", 7)
    ∷ (text "uucp", 8)
    ∷ (text "cron", 9)
    ∷ (text "authpriv", 10)
    ∷ (text "ftp", 11)
    ∷ (text "local0", 16)
    ∷ (text "local1", 17)
    ∷ (text "local2", 18)
    ∷ (text "local3", 19)
    ∷ (text "local4", 20)
    ∷ (text "local5", 21)
    ∷ (text "local6", 22)
    ∷ (text "local7", 23)
    ∷ []

unfoldable pub facility_named : Text → List (Text × ℕ) → Option ℕ
facility_named name [] = none
facility_named name ((key, n) ∷ entries) =
    let rest = facility_named name entries in if text_eq name key then some n else rest

-- The facility of the settings, local0 if they name none; `none` is an unknown one.
unfoldable pub facility_of : Text → Option ℕ
facility_of facility =
    if is_empty (trim_space facility)
    then some 16
    else facility_named (lower (trim_space facility)) facilities

abbrev pub or_default : Text → Text → Text
or_default default s = if is_empty s then default else s

-- `NewSyslogDestination` on a machine of a name, empty if it is not known; `none` is an error.
unfoldable pub new_syslog_destination : Text → SyslogConfig → Option SyslogDestination
new_syslog_destination machine cfg =
    let protocol = or_default (text "tcp") (lower (trim_space cfg.protocol)) in
    if is_empty (trim_space cfg.host)
    then none
    else if is_neg cfg.port || above_port cfg.port
    then none
    else if not (is_protocol protocol)
    then none
    else elim (facility_of cfg.facility) [
      | none ↦ none
      | some facility ↦ some (record {
        host = trim_space cfg.host;
        port = if is_zero cfg.port then pos 514 else cfg.port;
        protocol = protocol;
        facility = facility;
        app_name = or_default (text "basecheck") (trim_space cfg.app_name);
        hostname = or_default (text "localhost") machine;
        timeout = if is_nonpos cfg.timeout_seconds then pos 30 else cfg.timeout_seconds;
      })
    ]

-- What a message takes of an event: its severity, its time in UTC with microseconds, and its JSON
-- or the error of encoding it.
pub record Rendered : Type 0 where
  pub severity : Text
  pub timestamp : Text
  pub payload : Option Text

unfoldable pub syslog_severity : Text → ℕ
syslog_severity severity =
    if text_eq (upper severity) (text "CRITICAL")
    then 2
    else if text_eq (upper severity) (text "HIGH")
    then 3
    else if text_eq (upper severity) (text "MEDIUM")
    then 4
    else if text_eq (upper severity) (text "LOW")
    then 5
    else 6

unfoldable pub priority : ℕ → Text → ℕ
priority facility severity = facility * 8 + syslog_severity severity

unfoldable pub format_message : SyslogDestination → Rendered → Option Text
format_message s event = elim event.payload [
  | none ↦ none
  | some payload ↦ some (
      b'<'
      ∷ (print_int (pos (priority s.facility event.severity))
          ++ (text ">1 "
              ++ (event.timestamp
                  ++ (b' '
                      ∷ (s.hostname
                          ++ (b' '
                              ∷ (s.app_name ++ (text " - - - " ++ (payload ++ (10 ∷ [])))))))))))
]

-- The messages of a batch; `none` if one of them cannot be formatted.
unfoldable pub format_all : SyslogDestination → List Rendered → Option (List Text)
format_all s [] = some []
format_all s (event ∷ events) = elim (format_message s event) [
  | none ↦ none
  | some message ↦ elim (format_all s events) [
    | none ↦ none
    | some messages ↦ some (message ∷ messages)
  ]
]

-- What happens to a message: the context was done before it, or the write took some bytes of it and
-- may have failed.
pub data Write : Type 0 where
  done : Fault → Write
  write : ℕ → Option Fault → Write

-- The end of a delivery: its error, what went over the connections, and whether one is open.
pub record Sent : Type 0 where
  pub fault : Option Fault
  pub wire : Text
  pub is_open : Bool

-- The error of `sendMessage`: that of the write, or that of a short one.
unfoldable pub write_fault : ℕ → ℕ → Option Fault → Option Fault
write_fault size n (some e) = some e
write_fault size n none = if not (n == size) then some (plain "short write") else none

abbrev pub before : Text → Sent → Sent
before bytes sent = record sent { wire = bytes ++ sent.wire }

-- The end of a delivery by what happens to a message, and the end of that of the messages behind it.
-- The bytes that a write took are on the wire, whatever becomes of it.
unfoldable pub send_message : Text → Write → Sent → Sent
send_message message (done e) rest = record {
  fault = some (wrapped "syslog send canceled" e);
  wire = [];
  is_open = true;
}
send_message message (write n failure) rest = elim (write_fault (length message) n failure) [
  | some e ↦ record {
    fault = some (retryable_error (wrapped "syslog send" e));
    wire = take n message;
    is_open = false;
  }
  | none ↦ before (take n message) rest
]

-- The loop over the messages on an open connection; `writes` says what happens to each.
unfoldable pub send_messages : (ℕ → Write) → ℕ → List Text → Sent
send_messages writes i [] = record { fault = none; wire = []; is_open = true }
send_messages writes i (message ∷ messages) =
    send_message message (writes i) (send_messages writes (suc i) messages)

-- `Send` with a connection open or not; `dial` is the error of a new one.
unfoldable pub syslog_send :
    SyslogDestination → Option Fault → (ℕ → Write) → Bool → List Rendered → Sent
syslog_send s dial writes is_open [] = record { fault = none; wire = []; is_open = is_open }
syslog_send s dial writes is_open (event ∷ events) = elim (format_all s (event ∷ events)) [
  | none ↦ record { fault = some (plain "format event"); wire = []; is_open = is_open }
  | some messages ↦
      let sent = send_messages writes 0 messages in
      if is_open then sent else elim dial [
        | none ↦ sent
        | some e ↦ record {
          fault = some (retryable_error (wrapped "syslog connect" e));
          wire = [];
          is_open = false;
        }
      ]
]

-- `Close`: whether a connection is open behind it.
unfoldable pub close : Bool → Bool
close is_open = false
