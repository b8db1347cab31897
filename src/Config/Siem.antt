-- ===== src/Config/Siem.antt =====
-- The settings of the SIEM output, their defaults and their validation (pkg/config/config.go).
use basecheck_agent.Prelude.{
  Bool, not, ◌&&◌, ◌||◌, false, ℤ, pos, negsuc, is_neg, ltb, Option, none, some, List, [], ◌∷◌,
  if◌then◌else◌,
}
use basecheck_agent.Text.{Text, text, text_eq, is_empty, lower, trim_space}
use basecheck_agent.Config.Database.{is_blank}
use basecheck_agent.Config.Validation.{positive_or}

pub record SiemWebhookConfig : Type 0 where
  pub url : Text
  pub headers : List (Text × Text)
  pub timeout_seconds : ℤ

pub record SiemSyslogConfig : Type 0 where
  pub host : Text
  pub port : ℤ
  pub protocol : Text
  pub facility : Text
  pub app_name : Text
  pub timeout_seconds : ℤ

pub record SiemQueueConfig : Type 0 where
  pub max_size : ℤ
  pub flush_interval_seconds : ℤ
  pub retry_max : ℤ
  pub retry_backoff_seconds : List ℤ
  pub path : Text

pub record SiemDeadLetterConfig : Type 0 where
  pub path : Text
  pub max_size_mb : ℤ

pub record SiemDeduplicationConfig : Type 0 where
  pub disabled : Bool
  pub window_hours : ℤ
  pub persist_path : Text

pub record SiemConfig : Type 0 where
  pub destination : Text
  pub webhook : SiemWebhookConfig
  pub syslog : SiemSyslogConfig
  pub queue : SiemQueueConfig
  pub dead_letter : SiemDeadLetterConfig
  pub deduplication : SiemDeduplicationConfig

-- A setting, or its default where it is empty.
abbrev pub text_or : Text → Text → Text
text_or default s = if is_empty s then default else s

unfoldable pub webhook_timeout_seconds : SiemWebhookConfig → ℤ
webhook_timeout_seconds w = positive_or 30 w.timeout_seconds

unfoldable pub syslog_port : SiemSyslogConfig → ℤ
syslog_port s = positive_or 514 s.port

unfoldable pub syslog_protocol : SiemSyslogConfig → Text
syslog_protocol s = text_or (text "tcp") s.protocol

unfoldable pub syslog_facility : SiemSyslogConfig → Text
syslog_facility s = text_or (text "local0") s.facility

unfoldable pub syslog_app_name : SiemSyslogConfig → Text
syslog_app_name s = text_or (text "basecheck") s.app_name

unfoldable pub syslog_timeout_seconds : SiemSyslogConfig → ℤ
syslog_timeout_seconds s = positive_or 30 s.timeout_seconds

unfoldable pub queue_max_size : SiemQueueConfig → ℤ
queue_max_size q = positive_or 1000 q.max_size

unfoldable pub queue_flush_interval_seconds : SiemQueueConfig → ℤ
queue_flush_interval_seconds q = positive_or 10 q.flush_interval_seconds

unfoldable pub queue_retry_max : SiemQueueConfig → ℤ
queue_retry_max q = positive_or 5 q.retry_max

unfoldable pub queue_retry_backoff_seconds : SiemQueueConfig → List ℤ
queue_retry_backoff_seconds q = elim q.retry_backoff_seconds [
  | [] ↦ pos 1 ∷ pos 5 ∷ pos 30 ∷ pos 120 ∷ pos 300 ∷ []
  | b ∷ bs ↦ b ∷ bs
]

unfoldable pub queue_path : SiemQueueConfig → Text
queue_path q = text_or (text ".cache/siem-queue.jsonl") q.path

unfoldable pub dead_letter_path : SiemDeadLetterConfig → Text
dead_letter_path d = text_or (text ".cache/siem-dead-letter.jsonl") d.path

unfoldable pub dead_letter_max_size_mb : SiemDeadLetterConfig → ℤ
dead_letter_max_size_mb d = positive_or 100 d.max_size_mb

unfoldable pub deduplication_is_enabled : SiemDeduplicationConfig → Bool
deduplication_is_enabled dd = not dd.disabled

unfoldable pub deduplication_window_hours : SiemDeduplicationConfig → ℤ
deduplication_window_hours dd = positive_or 24 dd.window_hours

unfoldable pub deduplication_persist_path : SiemDeduplicationConfig → Text
deduplication_persist_path dd = text_or (text ".cache/siem-dedup.json") dd.persist_path

-- What `url.Parse` gives of a URL.
pub record Url : Type 0 where
  pub scheme : Text
  pub host : Text

pub data SiemFault : Type 0 where
  missing_destination : SiemFault
  unknown_destination : SiemFault
  missing_webhook_url : SiemFault
  invalid_webhook_url : SiemFault
  bad_webhook_scheme : SiemFault
  missing_webhook_host : SiemFault
  insecure_webhook : SiemFault
  missing_syslog_host : SiemFault
  bad_syslog_port : SiemFault
  bad_syslog_protocol : SiemFault

abbrev pub above_port : ℤ → Bool
above_port (pos n) = ltb 65535 n
above_port (negsuc n) = false

abbrev pub is_protocol : Text → Bool
is_protocol s = text_eq s (text "tcp") || text_eq s (text "udp")

abbrev pub destination_of : SiemConfig → Text
destination_of s = lower (trim_space s.destination)

-- The checks of a parsed webhook URL.
unfoldable pub validate_url : Bool → Url → Option SiemFault
validate_url allow_http url =
    if not (text_eq url.scheme (text "http")) && not (text_eq url.scheme (text "https"))
    then some bad_webhook_scheme
    else if is_empty url.host
    then some missing_webhook_host
    else if not allow_http && text_eq url.scheme (text "http")
    then some insecure_webhook
    else none

unfoldable pub validate_syslog : SiemSyslogConfig → Option SiemFault
validate_syslog s =
    let protocol = lower (trim_space s.protocol) in
    if is_blank s.host
    then some missing_syslog_host
    else if is_neg s.port || above_port s.port
    then some bad_syslog_port
    else if not (is_empty protocol) && not (is_protocol protocol)
    then some bad_syslog_protocol
    else none

module _ (parse_url : Text → Option Url) where
  unfoldable pub validate_webhook : Bool → SiemWebhookConfig → Option SiemFault
  validate_webhook allow_http w =
      if is_blank w.url then some missing_webhook_url else elim (parse_url (trim_space w.url)) [
        | none ↦ some invalid_webhook_url
        | some url ↦ validate_url allow_http url
      ]

  -- `SIEMConfig.Validate`
  unfoldable pub validate_siem : Bool → SiemConfig → Option SiemFault
  validate_siem allow_http s =
      let dest = destination_of s in
      if is_empty dest
      then some missing_destination
      else if text_eq dest (text "webhook")
      then validate_webhook allow_http s.webhook
      else if text_eq dest (text "syslog")
      then validate_syslog s.syslog
      else some unknown_destination
