-- ===== src/Control/Canonical/Verify.antt =====
-- The payload of a control set, its signature and the check of it (pkg/controlset/fetcher.go and
-- pkg/controlset/signing.go). Base64, the parser of public keys, the JSON encoder, SHA-256 and RSA
-- are the fields of a `Crypto`.
pub mod Laws
use basecheck_agent.Prelude.{Bool, Option, none, some, if◌then◌else◌}
use basecheck_agent.Text.{Text, is_empty, trim_space}
use basecheck_agent.Control.Canonical.{ControlSet, CanonicalControlSet, canonical_control_set}

pub record Crypto (Key PrivateKey : Type 0) : Type 0 where
  -- the JSON encoder without HTML escapes
  pub encode : CanonicalControlSet → Option Text
  pub decode_base64 : Text → Option Text
  pub encode_base64 : Text → Text
  -- the parser of PKIX, with the type assertion to an RSA key
  pub parse_public_key : Text → Option Key
  pub marshal_public_key : Key → Option Text
  pub sha256 : Text → Text
  -- whether `rsa.VerifyPKCS1v15` gives no error, on a key, a hash and a signature
  pub verifies : Key → Text → Text → Bool
  pub sign : PrivateKey → Text → Option Text

pub data SignatureError : Type 0 where
  unmarshalable : SignatureError
  no_public_key : SignatureError
  invalid_public_key : SignatureError
  invalid_signature : SignatureError
  verification_failed : SignatureError

module _ {Key PrivateKey : Type 0} (c : Crypto Key PrivateKey) where
  -- `marshalCanonical` trims what the encoder wrote.
  unfoldable pub create_canonical_payload : ControlSet → Option Text
  create_canonical_payload set = elim (c.encode (canonical_control_set set)) [
    | none ↦ none
    | some bytes ↦ some (trim_space bytes)
  ]

  unfoldable pub decode_public_key : Text → Option Key
  decode_public_key public_key = elim (c.decode_base64 (trim_space public_key)) [
    | none ↦ none
    | some bytes ↦ c.parse_public_key bytes
  ]

  -- `verifySignature`; `none` is the nil error.
  unfoldable pub verify_signature : Text → Text → Text → Option SignatureError
  verify_signature public_key payload signature_b64 =
      if is_empty (trim_space public_key)
      then some no_public_key
      else elim (decode_public_key public_key) [
        | none ↦ some invalid_public_key
        | some key ↦ elim (c.decode_base64 signature_b64) [
          | none ↦ some invalid_signature
          | some signature ↦
              if c.verifies key (c.sha256 payload) signature then none else some verification_failed
        ]
      ]

  -- `verifyControlSetSignature` and `VerifySignedControlSet`.
  unfoldable pub verify_control_set_signature : Text → ControlSet → Option SignatureError
  verify_control_set_signature public_key set = elim (create_canonical_payload set) [
    | none ↦ some unmarshalable
    | some payload ↦ verify_signature public_key payload set.metadata.signature.signature_b64
  ]

  unfoldable pub sign_canonical_payload : Text → PrivateKey → Option Text
  sign_canonical_payload payload private_key = elim (c.sign private_key (c.sha256 payload)) [
    | none ↦ none
    | some signature ↦ some (c.encode_base64 signature)
  ]

  unfoldable pub encode_public_key_pkix : Key → Option Text
  encode_public_key_pkix key = elim (c.marshal_public_key key) [
    | none ↦ none
    | some der ↦ some (c.encode_base64 der)
  ]
