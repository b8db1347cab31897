-- ===== src/Control/Examples/Fetching.antt =====
-- A control set out of the cache while the backend is down.
use basecheck_agent.Prelude.{◌≡◌, refl, true, none, some, str_eq}
use basecheck_agent.Text.{Text, text, text_eq, drop, take}
use basecheck_agent.Entitlement.{Strings, normalize_tier}
use basecheck_agent.Entitlement.Pack.{is_free, check_pack_entitlement}
use basecheck_agent.Control.Fetch.{
  Sets, Fetcher, Origins, unavailable, system_type_of, admit_loaded, load_signed, fetch_from_http,
  fetch_from_source, fetch_control_set,
}
use basecheck_agent.Control.Fetch.Laws.{IsSigned, fetch_control_set-IsSigned}

abbrev plain : Strings
plain = record {
  to_lower = λ x. x;
  trim_space = λ x. x;
  equal_fold = λ x y. str_eq x y;
  has_prefix = λ x p. str_eq x p;
  trim_suffix = λ x p. x;
}

-- A set is its text, which is its own signature.
abbrev free_sets : Sets Text
free_sets = record {
  signature_b64 = λ set. set;
  verifies = λ set signature. text_eq set signature;
  metadata = λ set. record { control_set_id = "pg"; tier = "free" };
  enrich = λ set system. set;
}

abbrev strict : Fetcher
strict = record { source = "http"; require_signatures = true; entitlement = none }

abbrev cached_only : Origins Text
cached_only = record { local = none; cache = some (text "set"); answer = unavailable }

cached_fetched :
    fetch_control_set free_sets strict plain 0 cached_only (text "oracle-policy")
    ≡ some (text "set")
unfolding fetch_control_set fetch_from_source fetch_from_http load_signed admit_loaded
    check_pack_entitlement normalize_tier is_free text_eq
cached_fetched = refl

policy_system : system_type_of (text "oracle-policy") ≡ text "oracle"
unfolding system_type_of text_eq drop take
policy_system = refl

fetch_control_set-IsSigned_example :
    (set : Text) × IsSigned free_sets strict set
    × (check_pack_entitlement plain 0 none (record { control_set_id = "pg"; tier = "free" }) ≡ none)
    × (text "set" ≡ set)
fetch_control_set-IsSigned_example =
    fetch_control_set-IsSigned free_sets strict refl plain 0 cached_only (text "oracle-policy")
      (text "set") cached_fetched
