-- ===== src/Entitlement/Pack/Laws.antt =====
-- The control sets that an agent runs, against what its entitlement grants
-- (pkg/controlset/fetcher.go).
use basecheck_agent.Prelude.{
  ◌≡◌, ◌↔◌, ◌⊎◌, ◌+◌, ◌≤◌, refl, subst, Bool, Bool-cases, true, false, not, Option, none, some, inl,
  inr, arith, eq_iff, if◌then◌else◌,
}
use basecheck_agent.Entitlement.{
  Strings, Entitlement, Time, tier_free, clock_skew_tolerance, normalized, normalize_tier,
  is_expired_at, allows_tier, allows_pack, check_access, expired, insufficient_tier,
  pack_not_allowed,
}
use basecheck_agent.Entitlement.Grants.{Permits, Lists, IsKnownTier, check_access_iff}
use basecheck_agent.Entitlement.Pack.{
  Metadata, entitlement_expired, tier_not_entitled, pack_not_entitled, normalized_tier, is_free,
  is_valid_tier, check_pack_entitlement,
}

module _ (s : Strings) where
  -- What an entitlement has to grant for a pack.
  abbrev pub IsGranted : Time → Entitlement → Metadata → Type 0
  IsGranted now e m =
      (now ≤ e.not_after + clock_skew_tolerance)
      × (Permits (normalized s e.tier) (normalized s (normalized_tier s m))
          × Lists s m.control_set_id e.packs)

  tier_cases :
      (m : Metadata)
      → (normalized_tier s m ≡ normalized s m.tier)
        × ((is_valid_tier s m ≡ true) ↔ IsKnownTier (normalized s m.tier))
  unfolding normalize_tier
  tier_cases m =
      let t = normalized s m.tier in
      (
        ground (arith, eq_iff t "free", eq_iff t "paid", eq_iff t "enterprise"),
        ground (arith, eq_iff t "free", eq_iff t "paid", eq_iff t "enterprise"),
      )

  free_iff : (m : Metadata) → (is_free s m ≡ true) ↔ (normalized s m.tier ≡ tier_free)
  unfolding is_free
  free_iff m = let same = (tier_cases m).0 in rw same (eq_iff (normalized s m.tier) tier_free)

  checks_agree :
      (late tier_ok listed : Bool)
      → ((if late
            then some entitlement_expired
            else if not tier_ok
            then some tier_not_entitled
            else if not listed
            then some pack_not_entitled
            else none)
          ≡ none)
        ↔ ((if late
              then some expired
              else if not tier_ok
              then some insufficient_tier
              else if not listed
              then some pack_not_allowed
              else none)
            ≡ none)
  checks_agree late tier_ok listed = ground arith

  -- For a pack that is not free the checks are those of `CheckAccess`.
  paid_iff :
      (now : Time) (entitlement : Option Entitlement) (m : Metadata)
      → is_valid_tier s m ≡ true
      → is_free s m ≡ false
      → (check_pack_entitlement s now entitlement m ≡ none)
        ↔ ((e : Entitlement) × (entitlement ≡ some e) × IsGranted now e m)
  unfolding check_pack_entitlement check_access
  paid_iff now none m v f =
      rw (v, f, check_pack_entitlement) ((λ h. absurd (cc)), λ w. let k = w.1 in absurd (cc))
  paid_iff now (some e) m v f =
      let (sound, complete) = check_access_iff s now e m.control_set_id (normalized_tier s m) in
      let (there, back) =
        checks_agree (is_expired_at e now) (allows_tier s e (normalized_tier s m))
          (allows_pack s e m.control_set_id) in
      rw (v, f, check_pack_entitlement)
        (
          (λ h. (e, refl, sound (there h))),
          λ w.
              let k = w.1 in
              let same : w.0 ≡ e = cc in back (complete (subst (λ x. IsGranted now x m) same w.2)),
        )

  -- A control set runs exactly if its tier is known, and it is a free one or there is an
  -- entitlement, not past its end by more than 5 minutes, that allows the tier and lists the set.
  pub check_pack_entitlement_iff :
      (now : Time) (entitlement : Option Entitlement) (m : Metadata)
      → (check_pack_entitlement s now entitlement m ≡ none) ↔ (
          IsKnownTier (normalized s m.tier)
          × ((normalized s m.tier ≡ tier_free)
              ⊎ ((e : Entitlement) × (entitlement ≡ some e) × IsGranted now e m)))
  unfolding check_pack_entitlement
  check_pack_entitlement_iff now entitlement m =
      let known = (tier_cases m).1 in
      let free = free_iff m in
      elim (Bool-cases (is_valid_tier s m)) [
        | inr n ↦
            rw (n, check_pack_entitlement)
              ((λ h. absurd (cc)), λ w. let k = known.1 w.0 in absurd (ground (arith, k, n)))
        | inl v ↦ elim (Bool-cases (is_free s m)) [
          | inl f ↦
              rw (v, f, check_pack_entitlement) ((λ _. (known.0 v, inl (free.0 f))), λ _. refl)
          | inr f ↦
              let (sound, complete) = paid_iff now entitlement m v f in
              (
                λ h. (known.0 v, inr (sound h)),
                λ w. elim w.1 [
                  | inl y ↦ absurd (let k = free.1 y in ground (arith, k, f))
                  | inr g ↦ complete g
                ],
              )
        ]
      ]
