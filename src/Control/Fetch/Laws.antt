-- ===== src/Control/Fetch/Laws.antt =====
-- The control sets that are run are signed and granted (pkg/controlset/fetcher.go).
use basecheck_agent.Prelude.{
  ◌≡◌, subst, Bool-cases, true, str_eq, Option, Option-cases, none, some, inl, inr, arith,
}
use basecheck_agent.Text.{Text}
use basecheck_agent.Entitlement.{Strings, Time}
use basecheck_agent.Entitlement.Pack.{check_pack_entitlement}
use basecheck_agent.Control.Fetch.{
  Sets, Fetcher, Answer, insecure, unavailable, unreadable, received, Origins, system_type_of,
  admit_loaded, load_signed, admit_received, fetch_from_http, fetch_from_source, fetch_control_set,
}

module _ {A : Type 0} (sets : Sets A) (fetcher : Fetcher) where
  -- Some signature verifies for a set.
  abbrev pub IsSigned : A → Type 0
  IsSigned set = (signature : Text) × (sets.verifies set signature ≡ true)

  module _ (required : fetcher.require_signatures ≡ true) where
    loaded-IsSigned :
        (from : Option A) (set : A) → load_signed sets fetcher from ≡ some set → IsSigned set
    unfolding load_signed admit_loaded
    loaded-IsSigned none set h = absurd (cc)
    loaded-IsSigned (some other) set h =
        elim (Bool-cases (sets.verifies other (sets.signature_b64 other))) [
          | inl v ↦
              let same : other ≡ set = ground (arith, required, v, h) in
              (
                sets.signature_b64 other,
                subst (λ s. sets.verifies s (sets.signature_b64 other) ≡ true) same v,
              )
          | inr n ↦ absurd (ground (arith, required, n, h))
        ]

    received-IsSigned :
        (other : A) (signature : Option Text) (set : A)
        → admit_received sets fetcher other signature ≡ some set
        → IsSigned set
    unfolding admit_received
    received-IsSigned other none set h = absurd (ground (arith, required, h))
    received-IsSigned other (some signature) set h =
        elim (Bool-cases (sets.verifies other signature)) [
          | inl v ↦
              let same : other ≡ set = ground (arith, required, v, h) in
              (signature, subst (λ s. sets.verifies s signature ≡ true) same v)
          | inr n ↦ absurd (ground (arith, required, n, h))
        ]

    http-IsSigned :
        (answer : Answer A) (cache : Option A) (set : A)
        → fetch_from_http sets fetcher answer cache ≡ some set
        → IsSigned set
    unfolding fetch_from_http
    http-IsSigned insecure cache set h = absurd (cc)
    http-IsSigned unavailable cache set h = loaded-IsSigned cache set h
    http-IsSigned unreadable cache set h = absurd (cc)
    http-IsSigned (received other signature) cache set h = received-IsSigned other signature set h

    source-IsSigned :
        (origins : Origins A) (set : A)
        → fetch_from_source sets fetcher origins ≡ some set
        → IsSigned set
    unfolding fetch_from_source
    source-IsSigned origins set h = elim (Bool-cases (str_eq fetcher.source "local")) [
      | inl l ↦ loaded-IsSigned origins.local set (ground (arith, l, h))
      | inr n ↦ elim (Bool-cases (str_eq fetcher.source "http")) [
        | inl y ↦ http-IsSigned origins.answer origins.cache set (ground (arith, n, y, h))
        | inr o ↦ absurd (ground (arith, n, o, h))
      ]
    ]

    -- Where signatures are required, a control set that is fetched, from a file, the backend or the
    -- cache behind it, is one for which a signature verifies and which the entitlement allows, with
    -- the evidence queries of its system added.
    pub fetch_control_set-IsSigned :
        (strings : Strings) (now : Time) (origins : Origins A) (db_type : Text) (fetched : A)
        → fetch_control_set sets fetcher strings now origins db_type ≡ some fetched
        → (set : A) × IsSigned set
          × (check_pack_entitlement strings now fetcher.entitlement (sets.metadata set) ≡ none)
          × (fetched ≡ sets.enrich set (system_type_of db_type))
    unfolding fetch_control_set
    fetch_control_set-IsSigned strings now origins db_type fetched h =
        elim (Option-cases (fetch_from_source sets fetcher origins)) [
          | inl e ↦ absurd (ground (arith, e, h))
          | inr (set, e) ↦
              elim (Option-cases
                (check_pack_entitlement strings now fetcher.entitlement (sets.metadata set))) [
                  | inr (x, c) ↦ absurd (ground (arith, e, c, h))
                  | inl c ↦ (set, source-IsSigned origins set e, c, ground (arith, e, c, h))
                ]
        ]
