-- ===== src/Siem/Syslog/Laws.antt =====
-- What a delivery over syslog leaves behind (pkg/siem/syslog.go).
use basecheck_agent.Prelude.{
  ℕ, suc, zero, ◌≤◌, ◌≡◌, refl, ap, Bool-cases, Option-cases, true, false, Option, none, some, List,
  all, leb, subst, [], ◌∷◌, ◌++◌, if◌then◌else◌, ◌||◌, ℤ, pos, negsuc, is_neg, inl, inr, arith,
}
use basecheck_agent.Text.{Text, text, text_eq, take, trim_space, lower, is_empty}
use basecheck_agent.Config.Siem.{above_port, is_protocol}
use basecheck_agent.Config.Database.{is_zero}
use basecheck_agent.Config.Database.Laws.{IsPort}
use basecheck_agent.Siem.Fault.{Fault, is_retryable}
use basecheck_agent.Siem.Syslog.{
  SyslogConfig, SyslogDestination, Sent, facility_named, facility_of, facilities, or_default,
  new_syslog_destination, syslog_severity, priority,
}

abbrev pub concat : List Text → Text
concat [] = []
concat (m ∷ ms) = m ++ concat ms

-- The start of a text.
abbrev pub IsStart : Text → Text → Type 0
IsStart s t = (rest : Text) × (t ≡ s ++ rest)

pub take-IsStart : (n : ℕ) (s : Text) → IsStart (take n s) s
unfolding take
take-IsStart zero s = (s, refl)
take-IsStart (suc n) [] = ([], refl)
take-IsStart (suc n) (c ∷ s) = let (rest, e) = take-IsStart n s in (rest, ap (λ t. c ∷ t) e)

-- The start of the messages went out, all of them if there is no error; and the connection is closed
-- only behind an error that is tried again.
abbrev pub IsDelivery : List Text → Sent → Type 0
IsDelivery messages sent =
    IsStart sent.wire (concat messages)
    × ((sent.fault ≡ none → (sent.wire ≡ concat messages) × (sent.is_open ≡ true))
        × (sent.is_open ≡ false → (f : Fault) × (sent.fault ≡ some f) × (is_retryable f ≡ true)))

-- The facilities of RFC 5424.
facility_named-le :
    (name : Text) (entries : List (Text × ℕ)) (n : ℕ)
    → all (λ (e : Text × ℕ). leb e.1 23) entries ≡ true
    → facility_named name entries ≡ some n
    → n ≤ 23
unfolding facility_named
facility_named-le name [] n bounded h = absurd (cc)
facility_named-le name ((key, k) ∷ entries) n bounded h = elim (Bool-cases (text_eq name key)) [
  | inl y ↦ ground (arith, h, y, bounded)
  | inr w ↦ facility_named-le name entries n (ground (arith, bounded)) (ground (arith, h, w))
]

facility_of-le : (facility : Text) (n : ℕ) → facility_of facility ≡ some n → n ≤ 23
unfolding facility_of
facility_of-le facility n h = elim (Bool-cases (is_empty (trim_space facility))) [
  | inl y ↦ ground (arith, h, y)
  | inr w ↦ facility_named-le (lower (trim_space facility)) facilities n refl (ground (arith, h, w))
]

priority-le : (facility : ℕ) (severity : Text) → facility ≤ 23 → priority facility severity ≤ 191
unfolding priority syslog_severity
priority-le facility severity h = ground (arith, h)

opened-IsPort :
    (p : ℤ) → is_neg p || above_port p ≡ false → IsPort (if is_zero p then pos 514 else p)
opened-IsPort (pos zero) h = (514, refl, (omega arith, omega arith))
opened-IsPort (pos (suc n)) h = (suc n, ground arith, (omega arith, ground (arith, h)))
opened-IsPort (negsuc n) h = absurd (cc)

abbrev IsRfc : Option SyslogDestination → Type 0
IsRfc none = Unit
IsRfc (some d) =
    IsPort d.port
    × ((is_protocol d.protocol ≡ true) × ((severity : Text) → priority d.facility severity ≤ 191))

new_syslog_destination-IsRfc :
    (machine : Text) (cfg : SyslogConfig) → IsRfc (new_syslog_destination machine cfg)
unfolding new_syslog_destination
new_syslog_destination-IsRfc machine cfg =
    let protocol = or_default (text "tcp") (lower (trim_space cfg.protocol)) in
    elim (Bool-cases (is_empty (trim_space cfg.host))) [
      | inl y ↦ simp (y, new_syslog_destination) tt
      | inr host ↦ elim (Bool-cases (is_neg cfg.port || above_port cfg.port)) [
        | inl y ↦ simp (host, y, new_syslog_destination) tt
        | inr port ↦ elim (Bool-cases (is_protocol protocol)) [
          | inr n ↦ simp (host, port, n, new_syslog_destination) tt
          | inl spoken ↦ elim (Option-cases (facility_of cfg.facility)) [
            | inl n ↦ simp (host, port, spoken, n, new_syslog_destination) tt
            | inr (f, e) ↦
                simp (host, port, spoken, e, new_syslog_destination)
                  (
                    opened-IsPort cfg.port port,
                    (refl, λ severity. priority-le f severity (facility_of-le cfg.facility f e)),
                  )
          ]
        ]
      ]
    ]

-- A syslog destination that opens has a port of TCP, one of the two protocols, and, for every
-- severity, a priority that RFC 5424 allows.
pub new_syslog_destination-IsPort :
    (machine : Text) (cfg : SyslogConfig) (d : SyslogDestination) (severity : Text)
    → new_syslog_destination machine cfg ≡ some d
    → IsPort d.port × ((is_protocol d.protocol ≡ true) × (priority d.facility severity ≤ 191))
new_syslog_destination-IsPort machine cfg d severity h =
    let (port, (protocol, bound)) = subst IsRfc h (new_syslog_destination-IsRfc machine cfg) in
    (port, (protocol, bound severity))
