-- ===== src/Config/Named/Laws.antt =====
-- When a list of named items is accepted, and what a fault in it says (pkg/config/config.go).
use basecheck_agent.Prelude.{
  ℕ, suc, ◌≡◌, ◌↔◌, refl, sym, Bool, false, Bool-cases, Option, Option-cases, none, List, [], ◌∷◌,
  map, any, All, inl, inr, arith,
}
use basecheck_agent.Text.{Text, text_eq}
use basecheck_agent.Text.Laws.{text_eq_iff}
use basecheck_agent.Config.Named.{validate_named}

-- A name that is none of the others.
abbrev pub IsNew : Text → List Text → Type 0
IsNew n names = All (λ m. ¬ (n ≡ m)) names

abbrev pub IsDistinct : List Text → Type 0
IsDistinct [] = Unit
IsDistinct (n ∷ names) = IsNew n names × IsDistinct names

any-text_eq_iff : (n : Text) (names : List Text) → (any (text_eq n) names ≡ false) ↔ IsNew n names
any-text_eq_iff n [] = (λ e. tt, λ e. refl)
any-text_eq_iff n (m ∷ names) =
    let (same, back) = text_eq_iff n m in
    let (sound, complete) = any-text_eq_iff n names in
    elim (Bool-cases (text_eq n m)) [
      | inl y ↦ (λ e. absurd (ground (arith, e, y)), λ (differ, rest). absurd (differ (same y)))
      | inr w ↦ (
        λ e. (λ s. let t = back s in absurd (cc), sound (ground (arith, e, w))),
        λ (differ, rest). let r = complete rest in ground (arith, w, r),
      )
    ]

module _ {ℓ κ} {A : Type ℓ} {F : Type κ} (name : A → Text) (is_nameless : A → Bool)
    (check : A → Option F) where
  -- An item with a name and nothing else to complain about.
  abbrev pub IsSound : A → Type κ
  IsSound x = (is_nameless x ≡ false) × (check x ≡ none)

  AllNew_iff :
      (n : Text) (seen : List Text) (xs : List A)
      → All (λ x. IsNew (name x) (n ∷ seen)) xs
        ↔ (IsNew n (map name xs) × All (λ x. IsNew (name x) seen) xs)
  AllNew_iff n seen [] = (λ h. (tt, tt), λ h. tt)
  AllNew_iff n seen (x ∷ xs) =
      let (f, g) = AllNew_iff n seen xs in
      (
        λ ((differ, fresh), rest). let (a, b) = f rest in ((λ e. differ (sym e), a), (fresh, b)),
        λ ((differ, a), (fresh, b)). ((λ e. differ (sym e), fresh), g (a, b)),
      )

  -- A list is accepted exactly if its items are sound, with names that differ from each other and
  -- from those before.
  validate_named_iff :
      (seen : List Text) (i : ℕ) (xs : List A)
      → (validate_named name is_nameless check seen i xs ≡ none)
        ↔ (All IsSound xs × (IsDistinct (map name xs) × All (λ x. IsNew (name x) seen) xs))
  unfolding validate_named
  validate_named_iff seen i [] = (λ h. (tt, (tt, tt)), λ h. refl)
  validate_named_iff seen i (x ∷ xs) =
      let (sound, complete) = validate_named_iff (name x ∷ seen) (suc i) xs in
      let (split, join) = AllNew_iff (name x) seen xs in
      let (fresh, stale) = any-text_eq_iff (name x) seen in
      (
        λ h. elim (Bool-cases (is_nameless x)) [
          | inl y ↦ absurd (ground (arith, h, y))
          | inr w ↦ elim (Bool-cases (any (text_eq (name x)) seen)) [
            | inl y ↦ absurd (ground (arith, h, w, y))
            | inr v ↦ elim (Option-cases (check x)) [
              | inr (f, c) ↦ absurd (ground (arith, h, w, v, c))
              | inl c ↦
                  let (all, (distinct, new)) = sound (ground (arith, h, w, v, c)) in
                  let (here, there) = split new in
                  (((w, c), all), ((here, distinct), (fresh v, there)))
            ]
          ]
        ],
        λ (((w, c), all), ((here, distinct), (new, there))).
            let v = stale new in
            let r = complete (all, (distinct, join (here, there))) in rw (w, v, c) r,
      )

  everywhere-IsNew : (xs : List A) → All (λ x. IsNew (name x) []) xs
  everywhere-IsNew [] = tt
  everywhere-IsNew (x ∷ xs) = (tt, everywhere-IsNew xs)

  -- The same of a whole list.
  pub validate_list_iff :
      (xs : List A)
      → (validate_named name is_nameless check [] 0 xs ≡ none)
        ↔ (All IsSound xs × IsDistinct (map name xs))
  validate_list_iff xs =
      let (sound, complete) = validate_named_iff [] 0 xs in
      (
        λ h. let (all, (distinct, new)) = sound h in (all, distinct),
        λ (all, distinct). complete (all, (distinct, everywhere-IsNew xs)),
      )
