-- ===== src/Siem/Destination.antt =====
-- The destination that NewOutput opens from the settings (pkg/siem/output.go, pkg/siem/webhook.go).
pub mod Laws
use basecheck_agent.Prelude.{
  Bool, not, ◌&&◌, ℤ, pos, is_nonpos, Option, none, some, List, if◌then◌else◌,
}
use basecheck_agent.Text.{Text, text, text_eq, is_empty, lower, trim_space}
use basecheck_agent.Config.Siem.{
  SiemConfig, Url, destination_of, webhook_timeout_seconds, syslog_port, syslog_protocol,
  syslog_facility, syslog_app_name, syslog_timeout_seconds, validate_url,
}
use basecheck_agent.Config.Check.{Config}
use basecheck_agent.Siem.Syslog.{
  SyslogConfig, SyslogDestination, new_syslog_destination, or_default,
}

pub record WebhookConfig : Type 0 where
  pub url : Text
  pub headers : List (Text × Text)
  pub timeout_seconds : ℤ
  pub agent_version : Text
  pub allow_insecure : Bool

pub record WebhookDestination : Type 0 where
  pub url : Text
  pub headers : List (Text × Text)
  pub timeout : ℤ
  pub agent_version : Text

-- `NewWebhookDestination`; `none` is an error.
unfoldable pub new_webhook_destination :
    (Text → Option Url) → WebhookConfig → Option WebhookDestination
new_webhook_destination parse_url cfg =
    if is_empty cfg.url then none else elim (parse_url cfg.url) [
      | none ↦ none
      | some url ↦
          if not (text_eq url.scheme (text "http")) && not (text_eq url.scheme (text "https"))
          then none
          else if is_empty url.host
          then none
          else if not cfg.allow_insecure && text_eq url.scheme (text "http")
          then none
          else some (record {
            url = cfg.url;
            headers = cfg.headers;
            timeout = if is_nonpos cfg.timeout_seconds then pos 30 else cfg.timeout_seconds;
            agent_version = or_default (text "unknown") cfg.agent_version;
          })
    ]

pub data Destination : Type 0 where
  webhook : WebhookDestination → Destination
  syslog : SyslogDestination → Destination

-- The destination settings of `OutputConfig`.
pub record DestinationConfig : Type 0 where
  pub destination : Text
  pub webhook : WebhookConfig
  pub syslog : SyslogConfig

-- What `NewOutputFromConfig` passes on of them.
unfoldable pub destination_config : Config → DestinationConfig
destination_config cfg =
    let siem = cfg.output.siem in
    record {
      destination = siem.destination;
      webhook = record {
        url = siem.webhook.url;
        headers = siem.webhook.headers;
        timeout_seconds = webhook_timeout_seconds siem.webhook;
        agent_version = cfg.agent.version;
        allow_insecure = cfg.security.allow_http;
      };
      syslog = record {
        host = siem.syslog.host;
        port = syslog_port siem.syslog;
        protocol = syslog_protocol siem.syslog;
        facility = syslog_facility siem.syslog;
        app_name = syslog_app_name siem.syslog;
        timeout_seconds = syslog_timeout_seconds siem.syslog;
      };
    }

module _ (parse_url : Text → Option Url) (machine : Text) where
  -- The destination of `NewOutput`; `none` is an error.
  unfoldable pub new_destination : DestinationConfig → Option Destination
  new_destination cfg =
      let destination = lower (trim_space cfg.destination) in
      if text_eq destination (text "webhook")
      then elim (new_webhook_destination parse_url cfg.webhook) [
        | none ↦ none
        | some w ↦ some (webhook w)
      ]
      else if text_eq destination (text "syslog")
      then elim (new_syslog_destination machine cfg.syslog) [
        | none ↦ none
        | some s ↦ some (syslog s)
      ]
      else none
