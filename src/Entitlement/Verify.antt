-- ===== src/Entitlement/Verify.antt =====
-- The signature of an entitlement (pkg/entitlement/verify.go). Base64, the parser of public keys,
-- the JSON encoder, the sort, SHA-256 and RSA are the fields of a `Crypto`.
pub mod Laws
use basecheck_agent.Prelude.{
  ℕ, String, Bool, true, false, not, Option, none, some, List, map, if◌then◌else◌, str_eq,
}
use basecheck_agent.Entitlement.{
  Strings, Entitlement, EntitlementError, Time, missing_signature, invalid_signature, no_public_key,
  invalid_public_key, normalized, validate,
}

-- What is signed.
pub record CanonicalEntitlement : Type 0 where
  pub organization_id : String
  pub agent_id : String
  pub license_id : String
  pub issued_at : String
  pub not_after : String
  pub tier : String
  pub packs : List String
  pub features : List String

pub record Crypto (Key RsaKey : Type 0) : Type 0 where
  pub decode_base64 : String → Option (List ℕ)
  pub parse_public_key : List ℕ → Option Key
  -- the type assertion to an RSA key
  pub rsa_key : Key → Option RsaKey
  -- `UTC().Format("2006-01-02T15:04:05Z")`
  pub format : Time → String
  -- `sort.Strings`
  pub sort : List String → List String
  -- the JSON encoder without HTML escapes, and `bytes.TrimSpace`
  pub encode : CanonicalEntitlement → Option (List ℕ)
  pub sha256 : List ℕ → List ℕ
  -- whether `rsa.VerifyPKCS1v15` gives no error, on a key, a hash and a signature
  pub verifies : RsaKey → List ℕ → List ℕ → Bool

module _ {Key RsaKey : Type 0} (s : Strings) (c : Crypto Key RsaKey) where
  unfoldable pub canonical : Entitlement → CanonicalEntitlement
  canonical e = record {
    organization_id = normalized s e.organization_id;
    agent_id = normalized s e.agent_id;
    license_id = normalized s e.license_id;
    issued_at = c.format e.issued_at;
    not_after = c.format e.not_after;
    tier = normalized s e.tier;
    packs = c.sort (map (normalized s) e.packs);
    features = c.sort (map (normalized s) e.features);
  }

  unfoldable pub canonical_payload : Entitlement → Option (List ℕ)
  canonical_payload e = c.encode (canonical e)

  -- The hash and the RSA check, with the key in hand.
  unfoldable pub check_signature : RsaKey → Entitlement → Option EntitlementError
  check_signature key e = elim (canonical_payload e) [
    | none ↦ some invalid_signature
    | some payload ↦ elim (c.decode_base64 e.signature_b64) [
      | none ↦ some invalid_signature
      | some signature ↦
          if c.verifies key (c.sha256 payload) signature then none else some invalid_signature
    ]
  ]

  unfoldable pub decode_key : String → Option RsaKey
  decode_key public_key = elim (c.decode_base64 (s.trim_space public_key)) [
    | none ↦ none
    | some bytes ↦ elim (c.parse_public_key bytes) [ none ↦ none | some key ↦ c.rsa_key key ]
  ]

  -- `Verify`; `none` is the nil error.
  unfoldable pub verify : String → Entitlement → Option EntitlementError
  verify public_key e =
      if str_eq (s.trim_space public_key) ""
      then some no_public_key
      else if str_eq (s.trim_space e.signature_b64) ""
      then some missing_signature
      else elim (decode_key public_key) [
        | none ↦ some invalid_public_key
        | some key ↦ check_signature key e
      ]

  unfoldable pub verify_and_validate : String → Entitlement → Option EntitlementError
  verify_and_validate public_key e = elim (validate s e) [
    | some x ↦ some x
    | none ↦ verify public_key e
  ]
