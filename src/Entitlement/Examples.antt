-- ===== src/Entitlement/Examples.antt =====
-- Examples for entitlements: toy string functions, a toy signature, one manifest.
use basecheck_agent.Entitlement.Pack.{Metadata, check_pack_entitlement}
use basecheck_agent.Entitlement.Pack.Laws.{IsGranted, check_pack_entitlement_iff}
use basecheck_agent.Prelude.{ℕ, true, false, ◌≡◌, ◌↔◌, ◌⊎◌, refl, none, some, [], ◌∷◌, ok, str_eq}
use basecheck_agent.Entitlement.{
  Strings, Entitlement, tier_free, normalized, pack_not_allowed, normalize_tier, tier_level,
  allows_tier, is_listed, allows_pack, validate, is_bound_to_agent, check_access,
}
use basecheck_agent.Entitlement.Grants.{IsKnownTier}
use basecheck_agent.Entitlement.Verify.{
  Crypto, canonical_payload, check_signature, decode_key, verify,
}
use basecheck_agent.Prelude.Dict.{lookup}
use basecheck_agent.Entitlement.Loader.{
  LoaderConfig, LoaderEnv, failed, response, decode, admit, check_entitlement, parse_and_verify,
  load_from_file, load_from_cache, read_response, load_from_server, cached, load_remote, load,
  refuses_http,
}
use basecheck_agent.Entitlement.Loader.Laws.{TrustedLoad, load-TrustedLoad}
use basecheck_agent.Entitlement.Loader.Cache.{CanSave}

abbrev strings : Strings
strings = record {
  to_lower = λ x. x;
  trim_space = λ x. x;
  equal_fold = λ x y. str_eq x y;
  has_prefix = λ x p. str_eq x p;
  trim_suffix = λ x p. x;
}

abbrev manifest : Entitlement
manifest = record {
  organization_id = "org";
  agent_id = "agent";
  license_id = "";
  issued_at = 10;
  not_after = 20;
  tier = "paid";
  packs = "pg" ∷ [];
  features = [];
  signature_b64 = "sig";
}

-- The toy crypto accepts every signature and encodes everything as one byte.
abbrev crypto : Crypto ℕ ℕ
crypto = record {
  decode_base64 = λ x. some (7 ∷ []);
  parse_public_key = λ bytes. some 1;
  rsa_key = λ key. some key;
  format = λ t. "";
  sort = λ xs. xs;
  encode = λ x. some (9 ∷ []);
  sha256 = λ bytes. bytes;
  verifies = λ key hash signature. true;
}

abbrev config : LoaderConfig
config = record {
  local_path = "";
  cache_path = "cache";
  server_url = "https";
  agent_token = "token";
  agent_id = "agent";
  public_key = "key";
  allow_insecure_transport = false;
  allow_insecure_signature = false;
}

-- The server has the manifest, encoded as one byte.
abbrev online : LoaderEnv
online = record {
  now = 15;
  read_fails = λ path. false;
  join = λ dir name. name;
  json = λ bytes. (manifest, true);
  yaml = λ bytes e. none;
  marshal = λ e. some (9 ∷ []);
  mkdir_fails = false;
  write_failure = none;
  request_fails = false;
  respond = λ url. response 200 (9 ∷ []);
}

abbrev offline : LoaderEnv
offline = record online { now = 16; respond = λ url. failed }

access_denied : check_access strings 15 manifest "oracle" "free" ≡ some pack_not_allowed
unfolding check_access allows_tier allows_pack is_listed tier_level normalize_tier
access_denied = refl

first_load : (load strings crypto config online []).0 ≡ ok (some manifest)
unfolding load load_remote cached load_from_cache load_from_file load_from_server read_response
    parse_and_verify decode check_entitlement admit validate is_bound_to_agent verify lookup
    refuses_http tier_level decode_key check_signature canonical_payload
first_load = refl

load-TrustedLoad_example :
    TrustedLoad strings crypto config (load strings crypto config online []).0
load-TrustedLoad_example = load-TrustedLoad strings crypto config online []

saves : CanSave strings crypto config online manifest (9 ∷ [])
saves = record { makes_directory = refl; encodes = refl; writes = refl }

abbrev paid_set : Metadata
paid_set = record { control_set_id = "pg"; tier = "paid" }

check_pack_entitlement_iff_example :
    (check_pack_entitlement strings 15 (some manifest) paid_set ≡ none) ↔ (
      IsKnownTier (normalized strings "paid")
      × ((normalized strings "paid" ≡ tier_free)
          ⊎ ((e : Entitlement) × (some manifest ≡ some e) × IsGranted strings 15 e paid_set)))
check_pack_entitlement_iff_example = check_pack_entitlement_iff strings 15 (some manifest) paid_set
