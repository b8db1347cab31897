-- ===== src/Entitlement/Verify/Laws.antt =====
-- What a verified signature stands for (pkg/entitlement/verify.go).
use basecheck_agent.Prelude.{
  ℕ, String, Bool, true, false, ◌≡◌, ◌≢◌, refl, ap, sym, ◌∙◌, Option-cases, Bool-cases, none, some,
  List, [], ◌∷◌, map, arith, eq_iff, inl, inr, str_eq, ◌||◌,
}
use basecheck_agent.Entitlement.{
  Strings, Entitlement, normalized, tier_level, allows_tier, is_listed, allows_pack, has_feature,
  normalize_tier,
}
use basecheck_agent.Entitlement.Verify.{
  CanonicalEntitlement, Crypto, canonical, canonical_payload, check_signature, decode_key, verify,
}

-- Whether a name is in a list as it is.
abbrev pub contains : String → List String → Bool
contains name [] = false
contains name (x ∷ xs) = str_eq x name || contains name xs

module _ {Key RsaKey : Type 0} (s : Strings) (c : Crypto Key RsaKey) where
  -- A key was decoded, and it verifies the signature over the hash of the payload.
  abbrev pub IsSigned : String → Entitlement → Type 0
  IsSigned public_key e =
      (s.trim_space e.signature_b64 ≢ "")
      × ((key : RsaKey) × (payload : List ℕ) × (signature : List ℕ) × (decode_key s c public_key
            ≡ some key)
          × (canonical_payload s c e ≡ some payload)
          × (c.decode_base64 e.signature_b64 ≡ some signature)
          × (c.verifies key (c.sha256 payload) signature ≡ true))

  check_signature_sound :
      (key : RsaKey) (e : Entitlement)
      → check_signature s c key e ≡ none
      → (payload : List ℕ) × (signature : List ℕ) × (canonical_payload s c e ≡ some payload)
        × (c.decode_base64 e.signature_b64 ≡ some signature)
        × (c.verifies key (c.sha256 payload) signature ≡ true)
  unfolding check_signature
  check_signature_sound key e = elim (Option-cases (canonical_payload s c e)) [
    | inl h ↦ rw h (λ x. cc)
    | inr (payload, h) ↦ elim (Option-cases (c.decode_base64 e.signature_b64)) [
      | inl g ↦ rw (h, g) (λ x. cc)
      | inr (signature, g) ↦ elim (Bool-cases (c.verifies key (c.sha256 payload) signature)) [
        | inl v ↦ λ _. (payload, signature, h, g, v)
        | inr v ↦ rw (h, g, v, check_signature) (λ x. cc)
      ]
    ]
  ]

  -- A signature that verifies is one by the configured key over the canonical payload: there is no
  -- other way to the nil error.
  pub verify_sound :
      (public_key : String) (e : Entitlement)
      → verify s c public_key e ≡ none
      → IsSigned public_key e
  unfolding verify
  verify_sound public_key e = elim (Bool-cases (str_eq (s.trim_space public_key) "")) [
    | inl a ↦ rw a (λ x. cc)
    | inr a ↦ elim (Bool-cases (str_eq (s.trim_space e.signature_b64) "")) [
      | inl b ↦ rw (a, b) (λ x. cc)
      | inr b ↦ elim (Option-cases (decode_key s c public_key)) [
        | inl d ↦ rw (a, b, d) (λ x. cc)
        | inr (key, d) ↦
            rw (a, b, d)
              λ h.
                let (payload, signature, p, g, v) = check_signature_sound key e h in
                let signed : s.trim_space e.signature_b64 ≢ "" =
                  ground (arith, b, eq_iff (s.trim_space e.signature_b64) "") in
                (signed, (key, payload, signature, refl, p, g, v))
      ]
    ]
  ]

  is_listed_lem :
      (name : String) (xs : List String)
      → is_listed s name xs ≡ contains name (map (normalized s) xs)
  unfolding is_listed
  is_listed_lem name [] = refl
  is_listed_lem name (x ∷ xs) = ap (λ b. str_eq (normalized s x) name || b) (is_listed_lem name xs)

  tier_level-normalized :
      (t u : String) → normalized s t ≡ normalized s u → tier_level s t ≡ tier_level s u
  unfolding tier_level normalize_tier
  tier_level-normalized t u h = rw h refl

  module _
      (encode_injective : (x y : CanonicalEntitlement) (bytes : List ℕ)
        → c.encode x ≡ some bytes
        → c.encode y ≡ some bytes
        → x ≡ y)
      (sort_keeps : (name : String) (xs : List String)
        → contains name (c.sort xs) ≡ contains name xs) where
    listed_by_payload :
        (name : String) (xs ys : List String)
        → c.sort (map (normalized s) xs) ≡ c.sort (map (normalized s) ys)
        → is_listed s name xs ≡ is_listed s name ys
    listed_by_payload name xs ys h =
        is_listed_lem name xs
        ∙ sym (sort_keeps name (map (normalized s) xs))
        ∙ ap (contains name) h
        ∙ sort_keeps name (map (normalized s) ys)
        ∙ sym (is_listed_lem name ys)

    -- Under an injective encoding and a sort that keeps the members of a list: two entitlements with
    -- one signed payload grant the same tiers, packs and features.
    pub payload_grants :
        (e f : Entitlement) (name : String) (payload : List ℕ)
        → canonical_payload s c e ≡ some payload
        → canonical_payload s c f ≡ some payload
        → (allows_tier s e name ≡ allows_tier s f name)
          × ((allows_pack s e name ≡ allows_pack s f name)
              × (has_feature s e name ≡ has_feature s f name))
    unfolding canonical_payload canonical allows_tier allows_pack has_feature
    payload_grants e f name payload h g =
        let same = encode_injective (canonical s c e) (canonical s c f) payload h g in
        let tier = tier_level-normalized e.tier f.tier (ap (λ x. x.tier) same) in
        (
          rw tier refl,
          (
            listed_by_payload (normalized s name) e.packs f.packs (ap (λ x. x.packs) same),
            listed_by_payload (normalized s name) e.features f.features (ap (λ x. x.features) same),
          ),
        )
