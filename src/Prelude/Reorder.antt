-- ===== src/Prelude/Reorder.antt =====
-- Lists in another order: what holds of every item, and what is made of the items.
use mathlib.Core.Path.{◌≡◌, refl, sym, ap, ◌∙◌, subst}
use mathlib.Core.Logic.{inl, inr}
use mathlib.Core.Bool.{Bool}
use mathlib.Core.List.{List, [], ◌∷◌, map, Permᴰ, Memᴰ}
use mathlib.Core.List.Permᴰ
use basecheck_agent.Prelude.Tests.{Bool-cases}
use basecheck_agent.Prelude.Lists.{keep, All}

pub All-Permᴰ {ℓ κ} :
    {A : Type ℓ} (P : A → Type κ) {l₁ l₂ : List A} → Permᴰ l₁ l₂ → All P l₁ → All P l₂
All-Permᴰ P Permᴰ.nil h = tt
All-Permᴰ P (Permᴰ.cons e d) (p, h) = (subst P e p, All-Permᴰ P d h)
All-Permᴰ P (Permᴰ.swap e1 e2) (p, (q, h)) = (subst P e2 q, (subst P e1 p, h))
All-Permᴰ P (Permᴰ.trans d1 d2) h = All-Permᴰ P d2 (All-Permᴰ P d1 h)

pub map-Permᴰ {ℓ κ} :
    {A : Type ℓ} {B : Type κ} (f : A → B) {l₁ l₂ : List A}
    → Permᴰ l₁ l₂
    → Permᴰ (map f l₁) (map f l₂)
map-Permᴰ f Permᴰ.nil = Permᴰ.nil
map-Permᴰ f (Permᴰ.cons e d) = Permᴰ.cons (ap f e) (map-Permᴰ f d)
map-Permᴰ f (Permᴰ.swap e1 e2) = Permᴰ.swap (ap f e1) (ap f e2)
map-Permᴰ f (Permᴰ.trans d1 d2) = Permᴰ.trans (map-Permᴰ f d1) (map-Permᴰ f d2)

keep-cons {ℓ} :
    {A : Type ℓ} (p : A → Bool) (a b : A) (l₁ l₂ : List A)
    → a ≡ b
    → Permᴰ (keep p l₁) (keep p l₂)
    → Permᴰ (keep p (a ∷ l₁)) (keep p (b ∷ l₂))
keep-cons p a b l₁ l₂ e d =
    subst (λ z. Permᴰ (keep p (a ∷ l₁)) (keep p (z ∷ l₂))) e
      (elim (Bool-cases (p a)) [
        | inl y ↦ simp (y, keep) (Permᴰ.cons refl d)
        | inr w ↦ simp (w, keep) d
      ])

keep-swap {ℓ} :
    {A : Type ℓ} (p : A → Bool) (a b : A) (l : List A)
    → Permᴰ (keep p (a ∷ b ∷ l)) (keep p (b ∷ a ∷ l))
keep-swap p a b l = elim (Bool-cases (p a)) [
  | inl y ↦ elim (Bool-cases (p b)) [
    | inl z ↦ simp (y, z, keep) (Permᴰ.swap refl refl)
    | inr w ↦ simp (y, w, keep) (Permᴰ.refl (a ∷ keep p l))
  ]
  | inr n ↦ elim (Bool-cases (p b)) [
    | inl z ↦ simp (n, z, keep) (Permᴰ.refl (b ∷ keep p l))
    | inr w ↦ simp (n, w, keep) (Permᴰ.refl (keep p l))
  ]
]

pub keep-Permᴰ {ℓ} :
    {A : Type ℓ} (p : A → Bool) {l₁ l₂ : List A} → Permᴰ l₁ l₂ → Permᴰ (keep p l₁) (keep p l₂)
keep-Permᴰ p Permᴰ.nil = Permᴰ.nil
keep-Permᴰ p (Permᴰ.cons {a = a} {b = b} {l₁ = l₁} {l₂ = l₂} e d) =
    keep-cons p a b l₁ l₂ e (keep-Permᴰ p d)
keep-Permᴰ p (Permᴰ.swap {a = a} {b = b} {a' = c} {b' = d} {l = l} e1 e2) =
    subst (λ z. Permᴰ (keep p (a ∷ b ∷ l)) (keep p (z ∷ d ∷ l))) e2
      (subst (λ z. Permᴰ (keep p (a ∷ b ∷ l)) (keep p (b ∷ z ∷ l))) e1 (keep-swap p a b l))
keep-Permᴰ p (Permᴰ.trans d1 d2) = Permᴰ.trans (keep-Permᴰ p d1) (keep-Permᴰ p d2)

pub Memᴰ-Permᴰ {ℓ} : {A : Type ℓ} {x : A} {l₁ l₂ : List A} → Permᴰ l₁ l₂ → Memᴰ x l₁ → Memᴰ x l₂
Memᴰ-Permᴰ Permᴰ.nil m = elim m [ ]
Memᴰ-Permᴰ (Permᴰ.cons e d) (Memᴰ.head h) = Memᴰ.head (h ∙ e)
Memᴰ-Permᴰ (Permᴰ.cons e d) (Memᴰ.tail m) = Memᴰ.tail (Memᴰ-Permᴰ d m)
Memᴰ-Permᴰ (Permᴰ.swap e1 e2) (Memᴰ.head h) = Memᴰ.tail (Memᴰ.head (h ∙ e1))
Memᴰ-Permᴰ (Permᴰ.swap e1 e2) (Memᴰ.tail (Memᴰ.head h)) = Memᴰ.head (h ∙ e2)
Memᴰ-Permᴰ (Permᴰ.swap e1 e2) (Memᴰ.tail (Memᴰ.tail m)) = Memᴰ.tail (Memᴰ.tail m)
Memᴰ-Permᴰ (Permᴰ.trans d1 d2) m = Memᴰ-Permᴰ d2 (Memᴰ-Permᴰ d1 m)

pub Memᴰ-map {ℓ κ} :
    {A : Type ℓ} {B : Type κ} (f : A → B) {x : A} {l : List A} → Memᴰ x l → Memᴰ (f x) (map f l)
Memᴰ-map f (Memᴰ.head e) = Memᴰ.head (ap f e)
Memᴰ-map f (Memᴰ.tail m) = Memᴰ.tail (Memᴰ-map f m)

-- An item of a mapped list comes from an item of the list.
pub map_inv {ℓ κ} :
    {A : Type ℓ} {B : Type κ} (f : A → B) (y : B) (l : List A)
    → Memᴰ y (map f l)
    → (x : A) × Memᴰ x l × (f x ≡ y)
map_inv f y [] m = elim m [ ]
map_inv f y (x ∷ l) (Memᴰ.head e) = (x, Memᴰ.head refl, sym e)
map_inv f y (x ∷ l) (Memᴰ.tail m) = let (z, n, e) = map_inv f y l m in (z, Memᴰ.tail n, e)
