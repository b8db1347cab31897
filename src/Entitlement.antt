-- ===== src/Entitlement.antt =====
-- pkg/entitlement: the signed manifest that says which control packs an agent may run, with the
-- tiers of pkg/controlset/types.go. An instant is the number of nanoseconds since Go's zero time.
-- Functions of package strings are the fields of `Strings`.
pub mod Grants
pub mod Verify
pub mod Loader
pub mod Pack
mod Examples
use basecheck_agent.Prelude.{
  ℕ, ◌+◌, ◌-◌, String, Bool, true, false, not, ◌||◌, ℤ, pos, negsuc, is_neg, to_ℕ, Option, none,
  some, List, [], ◌∷◌, ltb, leb, ◌==◌, if◌then◌else◌, str_eq,
}

pub record Strings : Type 0 where
  pub to_lower : String → String
  pub trim_space : String → String
  pub equal_fold : String → String → Bool
  pub has_prefix : String → String → Bool
  pub trim_suffix : String → String → String

abbrev pub Time : Type 0
Time = ℕ

pub record Entitlement : Type 0 where
  pub organization_id : String
  pub agent_id : String
  pub license_id : String
  pub issued_at : Time
  pub not_after : Time
  pub tier : String
  pub packs : List String
  pub features : List String
  pub signature_b64 : String

-- The errors of the package, without the texts that wrap them.
pub data EntitlementError : Type 0 where
  missing_org_id : EntitlementError
  missing_agent_id : EntitlementError
  missing_issued_at : EntitlementError
  missing_not_after : EntitlementError
  invalid_date_range : EntitlementError
  missing_tier : EntitlementError
  unknown_tier : EntitlementError
  missing_signature : EntitlementError
  invalid_signature : EntitlementError
  no_public_key : EntitlementError
  invalid_public_key : EntitlementError
  agent_mismatch : EntitlementError
  expired : EntitlementError
  insufficient_tier : EntitlementError
  pack_not_allowed : EntitlementError
  feature_disabled : EntitlementError
  not_found : EntitlementError
  load_failed : EntitlementError
  parse_failed : EntitlementError
  insecure_http : EntitlementError
  signature_required : EntitlementError
  local_path_not_found : EntitlementError

abbrev pub tier_free : String
tier_free = "free"

abbrev pub tier_paid : String
tier_paid = "paid"

abbrev pub tier_enterprise : String
tier_enterprise = "enterprise"

-- 5 minutes
abbrev pub clock_skew_tolerance : ℕ
clock_skew_tolerance = 300_000_000_000

-- `t.After(e.NotAfter.Add(ClockSkewTolerance))`
abbrev pub is_expired_at : Entitlement → Time → Bool
is_expired_at e t = ltb (e.not_after + clock_skew_tolerance) t

-- `time.Until(e.NotAfter)`, or 0 once that has passed.
abbrev pub time_until_expiry : Entitlement → Time → ℕ
time_until_expiry e now = if ltb e.not_after now then 0 else e.not_after - now

module _ (s : Strings) where
  -- `strings.ToLower(strings.TrimSpace(x))`
  abbrev pub normalized : String → String
  normalized x = s.to_lower (s.trim_space x)

  -- The normalised tier, and whether it is a known one.
  unfoldable pub normalize_tier : String → String × Bool
  normalize_tier tier =
      let t = normalized tier in
      if str_eq t tier_free
      then (tier_free, true)
      else if str_eq t tier_paid
      then (tier_paid, true)
      else if str_eq t tier_enterprise
      then (tier_enterprise, true)
      else (t, false)

  unfoldable pub tier_level : String → ℤ
  unfolding normalize_tier
  tier_level tier =
      let (t, valid) = normalize_tier tier in
      if not valid
      then negsuc 0
      else if str_eq t tier_paid
      then pos 1
      else if str_eq t tier_enterprise
      then pos 2
      else pos 0

  -- An unknown tier on either side is refused.
  unfoldable pub allows_tier : Entitlement → String → Bool
  allows_tier e requested =
      let own = tier_level e.tier in
      let level = tier_level requested in
      if is_neg own || is_neg level then false else leb (to_ℕ level) (to_ℕ own)

  -- The loop over a list of names, against a normalised one.
  unfoldable pub is_listed : String → List String → Bool
  is_listed name [] = false
  is_listed name (x ∷ xs) = str_eq (normalized x) name || is_listed name xs

  unfoldable pub allows_pack : Entitlement → String → Bool
  allows_pack e pack_id = is_listed (normalized pack_id) e.packs

  unfoldable pub has_feature : Entitlement → String → Bool
  has_feature e feature = is_listed (normalized feature) e.features

  -- `Validate`; `none` is the nil error.
  unfoldable pub validate : Entitlement → Option EntitlementError
  validate e =
      if str_eq (s.trim_space e.organization_id) ""
      then some missing_org_id
      else if str_eq (s.trim_space e.agent_id) ""
      then some missing_agent_id
      else if e.issued_at == 0
      then some missing_issued_at
      else if e.not_after == 0
      then some missing_not_after
      else if ltb e.not_after e.issued_at
      then some invalid_date_range
      else if str_eq (s.trim_space e.tier) ""
      then some missing_tier
      else if is_neg (tier_level e.tier)
      then some unknown_tier
      else none

  unfoldable pub is_bound_to_agent : Entitlement → String → Bool
  is_bound_to_agent e agent_id = s.equal_fold (s.trim_space e.agent_id) (s.trim_space agent_id)

  unfoldable pub validate_for_agent : Entitlement → String → Option EntitlementError
  validate_for_agent e agent_id = elim (validate e) [
    | some x ↦ some x
    | none ↦ if not (is_bound_to_agent e agent_id) then some agent_mismatch else none
  ]

  -- `CheckAccess` at an instant.
  unfoldable pub check_access : Time → Entitlement → String → String → Option EntitlementError
  check_access now e pack_id pack_tier =
      if is_expired_at e now
      then some expired
      else if not (allows_tier e pack_tier)
      then some insufficient_tier
      else if not (allows_pack e pack_id)
      then some pack_not_allowed
      else none
