-- ===== src/Entitlement/Pack.antt =====
-- Whether an entitlement allows a control set to run (checkEntitlement of
-- pkg/controlset/fetcher.go, and the tiers of a set's metadata in pkg/controlset/types.go).
pub mod Laws
use basecheck_agent.Prelude.{String, Bool, ◌||◌, not, Option, none, some, if◌then◌else◌, str_eq}
use basecheck_agent.Entitlement.{
  Strings, Entitlement, Time, tier_free, tier_paid, tier_enterprise, normalize_tier, is_expired_at,
  allows_tier, allows_pack,
}

-- The fields of a control set's metadata that the check reads.
pub record Metadata : Type 0 where
  pub control_set_id : String
  pub tier : String

-- The errors without their texts.
pub data PackError : Type 0 where
  unknown_pack_tier : PackError
  entitlement_required : PackError
  entitlement_expired : PackError
  tier_not_entitled : PackError
  pack_not_entitled : PackError

module _ (s : Strings) where
  abbrev pub normalized_tier : Metadata → String
  normalized_tier m = (normalize_tier s m.tier).0

  unfoldable pub is_free : Metadata → Bool
  is_free m = str_eq (normalized_tier m) tier_free

  unfoldable pub needs_entitlement : Metadata → Bool
  needs_entitlement m =
      str_eq (normalized_tier m) tier_paid || str_eq (normalized_tier m) tier_enterprise

  abbrev pub is_valid_tier : Metadata → Bool
  is_valid_tier m = (normalize_tier s m.tier).1

  -- With `none` for an agent that has no entitlement; the second `none` is the nil error.
  unfoldable pub check_pack_entitlement : Time → Option Entitlement → Metadata → Option PackError
  check_pack_entitlement now entitlement m =
      if not (is_valid_tier m)
      then some unknown_pack_tier
      else if is_free m
      then none
      else elim entitlement [
        | none ↦ some entitlement_required
        | some e ↦
            if is_expired_at e now
            then some entitlement_expired
            else if not (allows_tier s e (normalized_tier m))
            then some tier_not_entitled
            else if not (allows_pack s e m.control_set_id)
            then some pack_not_entitled
            else none
      ]
