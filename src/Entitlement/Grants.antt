-- ===== src/Entitlement/Grants.antt =====
-- What an entitlement grants (pkg/entitlement/types.go), against its documentation.
use basecheck_agent.Prelude.{
  ◌+◌, ◌≤◌, String, true, false, ℤ, pos, negsuc, is_neg, ◌≡◌, ◌≢◌, ◌↔◌, ◌⊎◌, inl, inr, refl, none,
  List, [], ◌∷◌, arith, eq_iff, str_eq, if◌then◌else◌, Bool-cases,
}
use basecheck_agent.Entitlement.{
  Strings, Entitlement, Time, tier_free, tier_paid, tier_enterprise, clock_skew_tolerance,
  normalized, normalize_tier, tier_level, allows_tier, is_listed, allows_pack, validate,
  check_access,
}

-- Of two normalised tiers: enterprise allows all, paid allows free and paid, free allows free.
abbrev pub Permits : String → String → Type 0
Permits own requested =
    ((own ≡ tier_enterprise)
      × ((requested ≡ tier_free) ⊎ ((requested ≡ tier_paid) ⊎ (requested ≡ tier_enterprise))))
    ⊎ (((own ≡ tier_paid) × ((requested ≡ tier_free) ⊎ (requested ≡ tier_paid)))
        ⊎ ((own ≡ tier_free) × (requested ≡ tier_free)))

abbrev pub IsKnownTier : String → Type 0
IsKnownTier t = (t ≡ tier_free) ⊎ ((t ≡ tier_paid) ⊎ (t ≡ tier_enterprise))

module _ (s : Strings) where
  -- Some name of the list is the given one, up to case and surrounding space.
  abbrev pub Lists : String → List String → Type 0
  Lists name [] = ⊥
  Lists name (x ∷ xs) = (normalized s x ≡ normalized s name) ⊎ Lists name xs

  is_listed_iff :
      (name : String) (xs : List String)
      → (is_listed s (normalized s name) xs ≡ true) ↔ Lists name xs
  unfolding is_listed
  is_listed_iff name [] = ground arith
  is_listed_iff name (x ∷ xs) =
      ground (arith, eq_iff (normalized s x) (normalized s name), is_listed_iff name xs)

  -- The level of a tier as one ladder.
  abbrev level_of : String → ℤ
  level_of t =
      if str_eq t tier_free
      then pos 0
      else if str_eq t tier_paid
      then pos 1
      else if str_eq t tier_enterprise
      then pos 2
      else negsuc 0

  tier_level_lem : (tier : String) → tier_level s tier ≡ level_of (normalized s tier)
  unfolding tier_level normalize_tier
  tier_level_lem tier =
      let t = normalized s tier in
      elim (Bool-cases (str_eq t "free")) [
        | inl h ↦ rw h refl
        | inr f ↦ elim (Bool-cases (str_eq t "paid")) [
          | inl h ↦ rw (f, h) refl
          | inr p ↦ elim (Bool-cases (str_eq t "enterprise")) [
            | inl h ↦ rw (f, p, h) refl
            | inr h ↦ rw (f, p, h) refl
          ]
        ]
      ]

  -- The tier of an entitlement allows a requested tier exactly when the hierarchy
  -- free < paid < enterprise does; an unknown tier on either side allows nothing.
  pub allows_tier_iff :
      (e : Entitlement) (requested : String)
      → (allows_tier s e requested ≡ true) ↔ Permits (normalized s e.tier) (normalized s requested)
  unfolding allows_tier
  allows_tier_iff e requested =
      let own = normalized s e.tier in
      let level = normalized s requested in
      rw (tier_level_lem e.tier, tier_level_lem requested)
        (ground (
          arith,
          eq_iff "free" "paid",
          eq_iff "free" "enterprise",
          eq_iff "paid" "enterprise",
          eq_iff own "free",
          eq_iff own "paid",
          eq_iff own "enterprise",
          eq_iff level "free",
          eq_iff level "paid",
          eq_iff level "enterprise",
        ))

  -- Access to a pack is granted exactly while the entitlement is not past its end by more than the
  -- tolerance of 5 minutes, its tier permits that of the pack, and it lists the pack.
  pub check_access_iff :
      (now : Time) (e : Entitlement) (pack_id pack_tier : String)
      → (check_access s now e pack_id pack_tier ≡ none) ↔ (
          (now ≤ e.not_after + clock_skew_tolerance)
          × (Permits (normalized s e.tier) (normalized s pack_tier) × Lists pack_id e.packs))
  unfolding check_access allows_pack
  check_access_iff now e pack_id pack_tier =
      let tier_known = allows_tier_iff e pack_tier in
      let pack_known = is_listed_iff pack_id e.packs in ground (arith, tier_known, pack_known)

  tier_level_known :
      (tier : String) → (is_neg (tier_level s tier) ≡ false) ↔ IsKnownTier (normalized s tier)
  tier_level_known tier =
      let t = normalized s tier in
      rw (tier_level_lem tier)
        (ground (arith, eq_iff t "free", eq_iff t "paid", eq_iff t "enterprise"))

  -- What the fields of a valid entitlement meet.
  abbrev pub IsComplete : Entitlement → Type 0
  IsComplete e =
      (s.trim_space e.organization_id ≢ "")
      × ((s.trim_space e.agent_id ≢ "")
          × ((e.issued_at ≢ 0)
              × ((e.not_after ≢ 0)
                  × ((e.issued_at ≤ e.not_after)
                      × ((s.trim_space e.tier ≢ "") × IsKnownTier (normalized s e.tier))))))

  -- Validation accepts exactly the entitlements with an organization, an agent, both dates in
  -- order, and a known tier.
  pub validate_iff : (e : Entitlement) → (validate s e ≡ none) ↔ IsComplete e
  unfolding validate
  validate_iff e =
      let known = tier_level_known e.tier in
      ground (
        arith,
        eq_iff (s.trim_space e.organization_id) "",
        eq_iff (s.trim_space e.agent_id) "",
        eq_iff (s.trim_space e.tier) "",
        known,
      )
