-- ===== src/Siem/Event/Fingerprint.antt =====
-- What a fingerprint depends on (pkg/siem/event.go).
use basecheck_agent.Prelude.{
  ℕ, String, ◌≡◌, ◌≢◌, ◌↔◌, refl, sym, ap, true, List, [], ◌∷◌, ◌++◌, map, All,
}
use basecheck_agent.Siem.Event.Identity.{
  zero_separated, has_structured_evidence, identity, compute_fingerprint,
}

-- No zero byte inside a field.
abbrev pub NoZero : List ℕ → Type 0
NoZero xs = All (λ b. b ≢ 0) xs

split_at_zero :
    (x y : List ℕ) (s t : List ℕ)
    → NoZero x
    → NoZero y
    → (x ++ 0 ∷ s) ≡ (y ++ 0 ∷ t)
    → (x ≡ y) × (s ≡ t)
split_at_zero [] [] s t p q e = (refl, cc)
split_at_zero [] (b ∷ y) s t p q e = absurd (q.0 (cc))
split_at_zero (a ∷ x) [] s t p q e = absurd (p.0 (cc))
split_at_zero (a ∷ x) (b ∷ y) s t p q e = let (h, k) = split_at_zero x y s t p.1 q.1 (cc) in (cc, k)

last_field : (x y s : List ℕ) → NoZero x → x ≡ (y ++ 0 ∷ s) → ⊥
last_field [] [] s p e = cc
last_field [] (b ∷ y) s p e = cc
last_field (a ∷ x) [] s p e = p.0 (cc)
last_field (a ∷ x) (b ∷ y) s p e = last_field x y s p.1 (cc)

-- Fields without a zero byte can be read back from what is hashed.
zero_separated_injective :
    (x y : List ℕ) (xs ys : List (List ℕ))
    → All NoZero (x ∷ xs)
    → All NoZero (y ∷ ys)
    → zero_separated (x ∷ xs) ≡ zero_separated (y ∷ ys)
    → (x ∷ xs) ≡ (y ∷ ys)
zero_separated_injective x y [] [] p q e = ap (λ a. a ∷ []) e
zero_separated_injective x y [] (y' ∷ ys) p q e = absurd (last_field x y _ p.0 e)
zero_separated_injective x y (x' ∷ xs) [] p q e = absurd (last_field y x _ q.0 (sym e))
zero_separated_injective x y (x' ∷ xs) (y' ∷ ys) p q e =
    let (h, k) =
      split_at_zero x y (zero_separated (x' ∷ xs)) (zero_separated (y' ∷ ys)) p.0 q.0 e in
    let rest = zero_separated_injective x' y' xs ys p.1 q.1 k in cc

map_injective :
    (f : String → List ℕ)
    → ((s t : String) → f s ≡ f t → s ≡ t)
    → (xs ys : List String) → map f xs ≡ map f ys
    → xs ≡ ys
map_injective f inj [] [] e = refl
map_injective f inj [] (y ∷ ys) e = cc
map_injective f inj (x ∷ xs) [] e = cc
map_injective f inj (x ∷ xs) (y ∷ ys) e =
    let h = inj x y (cc) in let k = map_injective f inj xs ys (cc) in cc

-- The eight fields that a fingerprint is computed from.
pub record Finding : Type 0 where
  pub control : String
  pub system : String
  pub schema : String
  pub object : String
  pub attribute : String
  pub role : String
  pub user : String
  pub title : String

module _ (normalize : String → String) (bytes : String → List ℕ) (digest : List ℕ → String) where
  abbrev pub identity_of : Finding → List String
  identity_of f =
      identity normalize f.control f.system f.schema f.object f.attribute f.role f.user f.title

  abbrev pub hashed : Finding → List ℕ
  hashed f = zero_separated (map bytes (identity_of f))

  abbrev pub fingerprint_of : Finding → String
  fingerprint_of f =
      compute_fingerprint normalize bytes digest f.control f.system f.schema f.object f.attribute
        f.role f.user f.title

  hashed_injective :
      (f g : Finding)
      → ((s t : String) → bytes s ≡ bytes t → s ≡ t)
      → All NoZero (map bytes (identity_of f))
      → All NoZero (map bytes (identity_of g))
      → hashed f ≡ hashed g
      → identity_of f ≡ identity_of g
  unfolding identity
  hashed_injective f g inj p q e = map_injective bytes inj (identity_of f) (identity_of g) (
      zero_separated_injective (bytes (normalize f.control)) (bytes (normalize g.control)) _ _ p q
        e)

  -- Two findings whose hashed bytes do not collide, and whose normalised fields hold no zero byte,
  -- have the same fingerprint exactly when their normalised identities are equal.
  pub fingerprint_iff :
      (f g : Finding)
      → ((s t : String) → bytes s ≡ bytes t → s ≡ t)
      → All NoZero (map bytes (identity_of f))
      → All NoZero (map bytes (identity_of g))
      → (digest (hashed f) ≡ digest (hashed g) → hashed f ≡ hashed g)
      → (fingerprint_of f ≡ fingerprint_of g) ↔ (identity_of f ≡ identity_of g)
  unfolding compute_fingerprint
  fingerprint_iff f g inj p q collision_free = (
    λ e. hashed_injective f g inj p q (collision_free e),
    λ e. ap (λ i. digest (zero_separated (map bytes i))) e,
  )

  -- Whatever the hash, the title does not matter as soon as one of the schema, object, attribute,
  -- role and user is not blank: a changed measured value in the title keeps the fingerprint.
  pub fingerprint_ignores_title :
      (f : Finding) (title : String)
      → has_structured_evidence normalize f.schema f.object f.attribute f.role f.user ≡ true
      → fingerprint_of (record f { title = title }) ≡ fingerprint_of f
  unfolding compute_fingerprint identity
  fingerprint_ignores_title f title h = rw h
