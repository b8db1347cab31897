-- ===== src/Control/Canonical/Verify/Laws.antt =====
-- Signatures of control sets: what keeps one valid, and that a signed set verifies
-- (pkg/controlset/fetcher.go, pkg/controlset/signing.go).
use basecheck_agent.Prelude.{
  ◌≡◌, refl, sym, ap, ◌∙◌, Option-cases, true, false, Option, none, some, inl, inr, arith,
}
use basecheck_agent.Text.{Text, is_empty, trim_space}
use basecheck_agent.Control.Canonical.{Metadata, Signature, ControlSet, canonical_control_set}
use basecheck_agent.Control.Canonical.Laws.{IsReordered, canonical_control_set-reordered}
use basecheck_agent.Control.Canonical.Verify.{
  Crypto, SignatureError, unmarshalable, create_canonical_payload, decode_public_key,
  verify_signature, verify_control_set_signature, sign_canonical_payload, encode_public_key_pkix,
}

-- A set with a signature in its metadata.
abbrev pub with_signature : ControlSet → Text → ControlSet
with_signature set signature_b64 = record set {
  metadata = record set.metadata {
    signature = record set.metadata.signature { signature_b64 = signature_b64 };
  };
}

module _ {Key PrivateKey : Type 0} (c : Crypto Key PrivateKey) where
  -- The verdict on a payload, if there is one.
  abbrev verdict : Option Text → Text → Text → Option SignatureError
  verdict payload signature_b64 public_key = elim payload [
    | none ↦ some unmarshalable
    | some bytes ↦ verify_signature c public_key bytes signature_b64
  ]

  verify_encoded :
      (public_key der payload bytes : Text) (key : Key)
      → trim_space public_key ≡ c.encode_base64 der
      → is_empty (c.encode_base64 der) ≡ false
      → c.decode_base64 (c.encode_base64 der) ≡ some der
      → c.parse_public_key der ≡ some key
      → c.decode_base64 (c.encode_base64 bytes) ≡ some bytes
      → c.verifies key (c.sha256 payload) bytes ≡ true
      → verify_signature c public_key payload (c.encode_base64 bytes) ≡ none
  unfolding verify_signature decode_public_key
  verify_encoded public_key der payload bytes key trimmed filled decoded parsed back verified =
      rw (trimmed, filled, decoded, parsed, back, verified) refl

  -- A control set keeps its signature when its controls, their procedures and evidence, its database
  -- versions and its privileges are put into another order, where the keys that they are sorted by
  -- tell them apart: the payload is the same byte for byte, and so is the verdict on it.
  pub verify_control_set_signature-reordered :
      (public_key : Text) (s t : ControlSet)
      → IsReordered s t
      → (create_canonical_payload c s ≡ create_canonical_payload c t)
        × (verify_control_set_signature c public_key s
            ≡ verify_control_set_signature c public_key t)
  unfolding create_canonical_payload verify_control_set_signature
  verify_control_set_signature-reordered public_key s t r =
      let same = canonical_control_set-reordered s t r in
      let payload : create_canonical_payload c s ≡ create_canonical_payload c t =
        ap (λ k. elim (c.encode k) [ none ↦ none | some bytes ↦ some (trim_space bytes) ]) same in
      let signature : s.metadata.signature ≡ t.metadata.signature =
        sym (ap (λ (m : Metadata). m.signature) r.metadata) in
      (
        payload,
        ap (λ p. verdict p s.metadata.signature.signature_b64 public_key) payload
            ∙ ap
                (λ (m : Signature).
                  verdict (create_canonical_payload c t) m.signature_b64 public_key)
                signature,
      )

  -- What signing relies on: the key reads back what it wrote, in Base64 and in PKIX, and RSA accepts
  -- its own signatures.
  pub record IsSigner (public : PrivateKey → Key) : Type 0 where
    pub decode_encode : (bytes : Text) → c.decode_base64 (c.encode_base64 bytes) ≡ some bytes
    pub unspaced : (bytes : Text) → trim_space (c.encode_base64 bytes) ≡ c.encode_base64 bytes
    pub parse_marshal :
        (key : Key) (der : Text)
        → c.marshal_public_key key ≡ some der
        → (c.parse_public_key der ≡ some key) × (is_empty (c.encode_base64 der) ≡ false)
    pub verifies_signed :
        (key : PrivateKey) (hash signature : Text)
        → c.sign key hash ≡ some signature
        → c.verifies (public key) hash signature ≡ true

  -- A control set that is signed with a private key verifies with the public key, each in its text
  -- form; the signature in the metadata is no part of what it signs.
  pub verify_control_set_signature-sign :
      (public : PrivateKey → Key) (key : PrivateKey) (set : ControlSet)
      (payload signature_b64 public_key : Text)
      → IsSigner public
      → create_canonical_payload c set ≡ some payload
      → sign_canonical_payload c payload key ≡ some signature_b64
      → encode_public_key_pkix c (public key) ≡ some public_key
      → verify_control_set_signature c public_key (with_signature set signature_b64) ≡ none
  unfolding create_canonical_payload verify_control_set_signature sign_canonical_payload
      encode_public_key_pkix canonical_control_set
  verify_control_set_signature-sign public key set payload signature_b64 public_key h p s k =
      elim (Option-cases (c.sign key (c.sha256 payload))) [
        | inl n ↦ absurd (ground (arith, s, n))
        | inr (bytes, signed) ↦ elim (Option-cases (c.marshal_public_key (public key))) [
          | inl n ↦ absurd (ground (arith, k, n))
          | inr (der, marshaled) ↦
              let (parsed, filled) = h.parse_marshal (public key) der marshaled in
              let e : c.encode_base64 bytes ≡ signature_b64 = ground (arith, s, signed) in
              let f : c.encode_base64 der ≡ public_key = ground (arith, k, marshaled) in
              let trimmed : trim_space public_key ≡ c.encode_base64 der =
                ap trim_space (sym f) ∙ h.unspaced der in
              ap (λ q. verdict q signature_b64 public_key) p
              ∙ ap (verify_signature c public_key payload) (sym e)
              ∙ verify_encoded public_key der payload bytes (public key) trimmed filled
                  (h.decode_encode der) parsed (h.decode_encode bytes)
                  (h.verifies_signed key (c.sha256 payload) bytes signed)
        ]
      ]
