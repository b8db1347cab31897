-- ===== src/Siem/Destination/Laws.antt =====
-- The settings that Validate accepts open a destination (pkg/config/config.go, pkg/siem/output.go).
use basecheck_agent.Prelude.{
  ℕ, zero, suc, ◌≡◌, refl, sym, ap, ◌∙◌, Bool, Bool-cases, Option-cases, true, false, not, ◌&&◌,
  ◌||◌, ℤ, pos, negsuc, is_neg, Option, none, some, [], ◌∷◌, inl, inr, arith,
}
use basecheck_agent.Text.{Text, text, text_eq, is_empty, lower, trim_space, trim_left, trim_right}
use basecheck_agent.Config.Siem.{
  SiemConfig, SiemSyslogConfig, SiemWebhookConfig, Url, text_or, above_port, is_protocol,
  destination_of, validate_url, validate_syslog, validate_webhook, validate_siem, syslog_port,
  syslog_protocol, syslog_facility,
}
use basecheck_agent.Config.Database.{is_blank}
use basecheck_agent.Config.Validation.{positive_or}
use basecheck_agent.Config.Check.{Config, is_siem_only, validate}
use basecheck_agent.Config.Laws.{validate_iff}
use basecheck_agent.Siem.Syslog.{
  SyslogConfig, SyslogDestination, facility_of, or_default, new_syslog_destination,
}
use basecheck_agent.Siem.Destination.{
  WebhookConfig, WebhookDestination, Destination, webhook, syslog, destination_config,
  new_webhook_destination, new_destination,
}

port_kept :
    (p : ℤ)
    → is_neg p || above_port p ≡ false
    → is_neg (positive_or 514 p) || above_port (positive_or 514 p) ≡ false
port_kept (pos zero) h = refl
port_kept (pos (suc n)) h = h
port_kept (negsuc n) h = absurd (cc)

or_tcp :
    (q : Text)
    → not (is_empty q) && not (is_protocol q) ≡ false
    → is_protocol (or_default (text "tcp") q) ≡ true
unfolding text_eq
or_tcp [] h = refl
or_tcp (c ∷ q) h = ground (arith, h)

protocol_kept :
    (p : Text)
    → (let q = lower (trim_space p) in not (is_empty q) && not (is_protocol q) ≡ false)
    → is_protocol (or_default (text "tcp") (lower (trim_space (text_or (text "tcp") p)))) ≡ true
unfolding text_eq trim_left trim_right
protocol_kept [] h = refl
protocol_kept (c ∷ p) h = or_tcp (lower (trim_space (c ∷ p))) h

-- What accepted syslog settings have passed.
syslog_passed :
    (s : SiemSyslogConfig)
    → validate_syslog s ≡ none
    → (let q = lower (trim_space s.protocol) in
        (is_blank s.host ≡ false)
        × ((is_neg s.port || above_port s.port ≡ false)
            × (not (is_empty q) && not (is_protocol q) ≡ false)))
unfolding validate_syslog
syslog_passed s h = ground (arith, h)

-- Syslog settings in order, with a facility that there is.
syslog_opens :
    (machine : Text) (s : SiemSyslogConfig) (cfg : SyslogConfig) (facility : ℕ)
    → cfg.host ≡ s.host
    → cfg.port ≡ syslog_port s
    → cfg.protocol ≡ syslog_protocol s
    → facility_of cfg.facility ≡ some facility
    → validate_syslog s ≡ none
    → (d : SyslogDestination) × (new_syslog_destination machine cfg ≡ some d)
unfolding new_syslog_destination syslog_port syslog_protocol
syslog_opens machine s cfg facility host port protocol known h =
    let (blank, (in_range, spoken)) = syslog_passed s h in
    let host_kept : is_empty (trim_space cfg.host) ≡ false = ap is_blank host ∙ blank in
    let range_kept : is_neg cfg.port || above_port cfg.port ≡ false =
      ap (λ p. is_neg p || above_port p) port ∙ port_kept s.port in_range in
    let spoken_kept : is_protocol (or_default (text "tcp") (lower (trim_space cfg.protocol)))
        ≡ true =
      ap (λ p. is_protocol (or_default (text "tcp") (lower (trim_space p)))) protocol
      ∙ protocol_kept s.protocol spoken in
    elim (Option-cases (new_syslog_destination machine cfg)) [
      | inr opened ↦ opened
      | inl e ↦ absurd (ground (arith, host_kept, range_kept, spoken_kept, known, e))
    ]

-- What an accepted URL has passed.
url_passed :
    (allow_http : Bool) (url : Url)
    → validate_url allow_http url ≡ none
    → (not (text_eq url.scheme (text "http")) && not (text_eq url.scheme (text "https")) ≡ false)
      × ((is_empty url.host ≡ false) × (not allow_http && text_eq url.scheme (text "http") ≡ false))
unfolding validate_url
url_passed allow_http url h = ground (arith, h)

webhook_passed :
    (parse_url : Text → Option Url) (allow_http : Bool) (w : SiemWebhookConfig)
    → validate_webhook parse_url allow_http w ≡ none
    → (is_blank w.url ≡ false)
      × ((url : Url) × (parse_url (trim_space w.url) ≡ some url)
          × (validate_url allow_http url ≡ none))
unfolding validate_webhook
webhook_passed parse_url allow_http w h = elim (Bool-cases (is_blank w.url)) [
  | inl y ↦ absurd (ground (arith, h, y))
  | inr b ↦ elim (Option-cases (parse_url (trim_space w.url))) [
    | inl n ↦ absurd (ground (arith, h, b, n))
    | inr (url, e) ↦ (b, (url, e, ground (arith, h, b, e)))
  ]
]

webhook_opens :
    (parse_url : Text → Option Url) (allow_http : Bool) (w : SiemWebhookConfig)
    (cfg : WebhookConfig)
    → cfg.url ≡ w.url
    → cfg.allow_insecure ≡ allow_http
    → trim_space w.url ≡ w.url
    → validate_webhook parse_url allow_http w ≡ none
    → (d : WebhookDestination) × (new_webhook_destination parse_url cfg ≡ some d)
unfolding new_webhook_destination
webhook_opens parse_url allow_http w cfg url insecure trimmed h =
    let (blank, (u, parsed, passed)) = webhook_passed parse_url allow_http w h in
    let (scheme, (host, secure)) = url_passed allow_http u passed in
    let nonempty : is_empty cfg.url ≡ false = ap is_empty (url ∙ sym trimmed) ∙ blank in
    let found : parse_url cfg.url ≡ some u = ap parse_url (url ∙ sym trimmed) ∙ parsed in
    let secure_kept : not cfg.allow_insecure && text_eq u.scheme (text "http") ≡ false =
      ap (λ b. not b && text_eq u.scheme (text "http")) insecure ∙ secure in
    elim (Option-cases (new_webhook_destination parse_url cfg)) [
      | inr opened ↦ opened
      | inl e ↦ absurd (ground (arith, nonempty, found, scheme, host, secure_kept, e))
    ]

siem_webhook :
    (parse_url : Text → Option Url) (allow_http : Bool) (s : SiemConfig)
    → text_eq (destination_of s) (text "webhook") ≡ true
    → validate_siem parse_url allow_http s ≡ none
    → validate_webhook parse_url allow_http s.webhook ≡ none
unfolding validate_siem
siem_webhook parse_url allow_http s w h = ground (arith, w, h)

siem_syslog :
    (parse_url : Text → Option Url) (allow_http : Bool) (s : SiemConfig)
    → text_eq (destination_of s) (text "webhook") ≡ false
    → validate_siem parse_url allow_http s ≡ none
    → (text_eq (destination_of s) (text "syslog") ≡ true) × (validate_syslog s.syslog ≡ none)
unfolding validate_siem
siem_syslog parse_url allow_http s n h = ground (arith, n, h)

-- A configuration that Validate accepts, for the SIEM alone, opens a destination, if its webhook URL
-- has no spaces around it and its syslog facility is one that there is. (Validate reads the URL
-- without the spaces and does not look at the facility.)
pub validate-new_destination :
    (parse_url : Text → Option Url) (machine : Text) (c : Config) (facility : ℕ)
    → validate parse_url c ≡ none
    → is_siem_only c ≡ true
    → trim_space c.output.siem.webhook.url ≡ c.output.siem.webhook.url
    → facility_of (syslog_facility c.output.siem.syslog) ≡ some facility
    → (d : Destination) × (new_destination parse_url machine (destination_config c) ≡ some d)
unfolding new_destination destination_config
validate-new_destination parse_url machine c facility accepted only trimmed known =
    let siem = c.output.siem in
    let ok = ((validate_iff parse_url c).0 accepted).1.1.1.1.1.1.1 only in
    let cfg = destination_config c in
    let dest = destination_of siem in
    elim (Bool-cases (text_eq dest (text "webhook"))) [
      | inl w ↦
          let h = siem_webhook parse_url c.security.allow_http siem w ok in
          let (d, e) =
            webhook_opens parse_url c.security.allow_http siem.webhook cfg.webhook refl refl trimmed
              h in
          (webhook d, ground (arith, w, e))
      | inr n ↦
          let (y, h) = siem_syslog parse_url c.security.allow_http siem n ok in
          let (d, e) =
            syslog_opens machine siem.syslog cfg.syslog facility refl refl refl known h in
          (syslog d, ground (arith, n, y, e))
    ]
