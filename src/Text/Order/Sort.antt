-- ===== src/Text/Order/Sort.antt =====
-- The sort by a key does not look at the order of the items, where the key tells them apart.
use basecheck_agent.Prelude.{
  ◌≡◌, refl, sym, ap, ◌∙◌, subst, Bool-cases, true, List, [], ◌∷◌, map, inl, inr, arith, All,
}
use mathlib.Core.List.{Permᴰ}
use mathlib.Core.List.Permᴰ
use basecheck_agent.Prelude.Reorder.{All-Permᴰ}
use basecheck_agent.Text.{Text}
use basecheck_agent.Text.Order.{keys_ltb, insert_by, sort_by}
use basecheck_agent.Text.Order.Laws.{keys_ltb_asym, keys_ltb_total, keys_ltb_below}

module _ {ℓ} {A : Type ℓ} (key : A → List Text) where
  -- Two inserted items in either order, the one of the less key going first.
  insert_less :
      (x y : A) (l : List A)
      → keys_ltb (key x) (key y) ≡ true
      → insert_by key x (insert_by key y l) ≡ insert_by key y (insert_by key x l)
  unfolding insert_by
  insert_less x y [] h = let k = keys_ltb_asym (key x) (key y) h in ground (arith, h, k)
  insert_less x y (z ∷ l) h =
      let k = keys_ltb_asym (key x) (key y) h in
      elim (Bool-cases (keys_ltb (key z) (key x))) [
        | inl below ↦
            let above = keys_ltb_below (key z) (key x) (key y) below h in
            simp (below, above, insert_by, insert_less x y l h)
        | inr w ↦ elim (Bool-cases (keys_ltb (key z) (key y))) [
          | inl y1 ↦ simp (y1, w, insert_by, h)
          | inr n ↦ simp (n, w, insert_by, h, k)
        ]
      ]

  insert_insert :
      (x y : A) (l : List A)
      → (key x ≡ key y → x ≡ y)
      → insert_by key x (insert_by key y l) ≡ insert_by key y (insert_by key x l)
  insert_insert x y l same = elim (Bool-cases (keys_ltb (key x) (key y))) [
    | inl less ↦ insert_less x y l less
    | inr n ↦ elim (Bool-cases (keys_ltb (key y) (key x))) [
      | inl less ↦ sym (insert_less y x l less)
      | inr m ↦
          let e = same (keys_ltb_total (key x) (key y) n m) in
          ap (λ z. insert_by key z (insert_by key y l)) e
          ∙ ap (λ z. insert_by key y (insert_by key z l)) (sym e)
    ]
  ]

  -- The key tells the items apart.
  abbrev pub IsKeyed : List A → Type ℓ
  IsKeyed [] = Unit
  IsKeyed (x ∷ xs) = All (λ y. key x ≡ key y → x ≡ y) xs × IsKeyed xs

  IsKeyed-Permᴰ : {l₁ l₂ : List A} → Permᴰ l₁ l₂ → IsKeyed l₁ → IsKeyed l₂
  IsKeyed-Permᴰ Permᴰ.nil k = tt
  IsKeyed-Permᴰ (Permᴰ.cons {a = a} {b = b} {l₂ = l} e d) (h, k) = (
    subst (λ z. All (λ y. key z ≡ key y → z ≡ y) l) e (All-Permᴰ (λ y. key a ≡ key y → a ≡ y) d h),
    IsKeyed-Permᴰ d k,
  )
  IsKeyed-Permᴰ (Permᴰ.swap {a = a} {b = b} {a' = c} {b' = d} {l = l} e1 e2) ((ab, ha), (hb, k)) =
      let ba : key b ≡ key a → b ≡ a = λ q. sym (ab (sym q)) in
      let keyed : IsKeyed (b ∷ a ∷ l) = ((ba, hb), (ha, k)) in
      subst (λ z. IsKeyed (z ∷ d ∷ l)) e2 (subst (λ z. IsKeyed (b ∷ z ∷ l)) e1 keyed)
  IsKeyed-Permᴰ (Permᴰ.trans d1 d2) k = IsKeyed-Permᴰ d2 (IsKeyed-Permᴰ d1 k)

  -- Items in another order are sorted into the same list.
  pub sort_by-Permᴰ : {l₁ l₂ : List A} → Permᴰ l₁ l₂ → IsKeyed l₁ → sort_by key l₁ ≡ sort_by key l₂
  unfolding sort_by
  sort_by-Permᴰ Permᴰ.nil k = refl
  sort_by-Permᴰ (Permᴰ.cons {a = a} {b = b} {l₁ = l} e d) (h, k) =
      ap (λ z. insert_by key z (sort_by key l)) e ∙ ap (insert_by key b) (sort_by-Permᴰ d k)
  sort_by-Permᴰ (Permᴰ.swap {a = a} {b = b} {a' = c} {l = l} e1 e2) ((ab, ha), k) =
      let s = sort_by key l in
      insert_insert a b s ab
      ∙ ap (λ z. insert_by key z (insert_by key a s)) e2
      ∙ ap (λ z. insert_by key c (insert_by key z s)) e1
  sort_by-Permᴰ (Permᴰ.trans d1 d2) k = sort_by-Permᴰ d1 k ∙ sort_by-Permᴰ d2 (IsKeyed-Permᴰ d1 k)

  insert_by-Permᴰ : (x : A) (l : List A) → Permᴰ (x ∷ l) (insert_by key x l)
  unfolding insert_by
  insert_by-Permᴰ x [] = Permᴰ.refl (x ∷ [])
  insert_by-Permᴰ x (y ∷ l) = elim (Bool-cases (keys_ltb (key y) (key x))) [
    | inl less ↦
        simp (less, insert_by)
          (Permᴰ.trans (Permᴰ.swap refl refl) (Permᴰ.cons refl (insert_by-Permᴰ x l)))
    | inr n ↦ simp (n, insert_by) (Permᴰ.refl (x ∷ (y ∷ l)))
  ]

  -- The sort loses nothing and adds nothing.
  pub sort_by-perm : (l : List A) → Permᴰ l (sort_by key l)
  unfolding sort_by
  sort_by-perm [] = Permᴰ.nil
  sort_by-perm (x ∷ l) =
      Permᴰ.trans (Permᴰ.cons refl (sort_by-perm l)) (insert_by-Permᴰ x (sort_by key l))

-- Items are sorted alike before and after a function that keeps their keys.
insert_by-map {ℓ κ} :
    {A : Type ℓ} {B : Type κ} (key : A → List Text) (key' : B → List Text) (f : A → B)
    (same : (x : A) → key' (f x) ≡ key x) (x : A) (l : List A)
    → map f (insert_by key x l) ≡ insert_by key' (f x) (map f l)
unfolding insert_by
insert_by-map key key' f same x [] = refl
insert_by-map key key' f same x (y ∷ l) = elim (Bool-cases (keys_ltb (key y) (key x))) [
  | inl less ↦ simp (same x, same y, less, insert_by, insert_by-map key key' f same x l)
  | inr n ↦ simp (same x, same y, n, insert_by)
]

pub sort_by-map {ℓ κ} :
    {A : Type ℓ} {B : Type κ} (key : A → List Text) (key' : B → List Text) (f : A → B)
    (same : (x : A) → key' (f x) ≡ key x) (l : List A)
    → map f (sort_by key l) ≡ sort_by key' (map f l)
unfolding sort_by
sort_by-map key key' f same [] = refl
sort_by-map key key' f same (x ∷ l) =
    insert_by-map key key' f same x (sort_by key l)
    ∙ ap (insert_by key' (f x)) (sort_by-map key key' f same l)
