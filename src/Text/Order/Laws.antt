-- ===== src/Text/Order/Laws.antt =====
-- The order of texts and of keys is strict and total.
use basecheck_agent.Prelude.{
  ◌≡◌, refl, sym, ap, ◌∙◌, Bool-cases, true, false, List, [], ◌∷◌, inl, inr, arith,
}
use basecheck_agent.Text.{Text, text_eq, text_ltb}
use basecheck_agent.Text.Laws.{text_eq_iff}
use basecheck_agent.Text.Order.{keys_ltb}

text_ltb_asym : (s t : Text) → text_ltb s t ≡ true → text_ltb t s ≡ false
unfolding text_ltb
text_ltb_asym s [] h = absurd (cc)
text_ltb_asym [] (d ∷ t) h = refl
text_ltb_asym (c ∷ s) (d ∷ t) h = ground (arith, h, text_ltb_asym s t)

text_ltb_total : (s t : Text) → text_ltb s t ≡ false → text_ltb t s ≡ false → text_eq s t ≡ true
unfolding text_ltb text_eq
text_ltb_total [] [] h k = refl
text_ltb_total (c ∷ s) [] h k = absurd (cc)
text_ltb_total [] (d ∷ t) h k = absurd (cc)
text_ltb_total (c ∷ s) (d ∷ t) h k = ground (arith, h, k, text_ltb_total s t)

text_ltb_between : (s t u : Text) → text_ltb s u ≡ true → text_ltb s t ≡ false → text_ltb t u ≡ true
unfolding text_ltb
text_ltb_between s t [] h k = absurd (cc)
text_ltb_between [] [] (e ∷ u) h k = refl
text_ltb_between [] (d ∷ t) (e ∷ u) h k = absurd (cc)
text_ltb_between (c ∷ s) [] (e ∷ u) h k = refl
text_ltb_between (c ∷ s) (d ∷ t) (e ∷ u) h k = ground (arith, h, k, text_ltb_between s t u)

text_eq_refl : (s : Text) → text_eq s s ≡ true
text_eq_refl s = (text_eq_iff s s).1 refl

text_ltb_irrefl : (s : Text) → text_ltb s s ≡ false
text_ltb_irrefl s = elim (Bool-cases (text_ltb s s)) [ inl y ↦ text_ltb_asym s s y | inr w ↦ w ]

text_eq_sym : (s t : Text) → text_eq s t ≡ text_eq t s
unfolding text_eq
text_eq_sym [] [] = refl
text_eq_sym (c ∷ s) [] = refl
text_eq_sym [] (d ∷ t) = refl
text_eq_sym (c ∷ s) (d ∷ t) = ground (arith, text_eq_sym s t)

pub keys_ltb_asym : (s t : List Text) → keys_ltb s t ≡ true → keys_ltb t s ≡ false
unfolding keys_ltb
keys_ltb_asym s [] h = absurd (cc)
keys_ltb_asym [] (d ∷ t) h = refl
keys_ltb_asym (c ∷ s) (d ∷ t) h =
    ground (arith, h, text_eq_sym c d, text_ltb_asym c d, keys_ltb_asym s t)

pub keys_ltb_total : (s t : List Text) → keys_ltb s t ≡ false → keys_ltb t s ≡ false → s ≡ t
unfolding keys_ltb
keys_ltb_total [] [] h k = refl
keys_ltb_total (c ∷ s) [] h k = absurd (cc)
keys_ltb_total [] (d ∷ t) h k = absurd (cc)
keys_ltb_total (c ∷ s) (d ∷ t) h k = elim (Bool-cases (text_eq c d)) [
  | inl y ↦
      let swapped = sym (text_eq_sym c d) ∙ y in
      let e = keys_ltb_total s t (ground (arith, h, y)) (ground (arith, k, swapped)) in
      ap (λ a. a ∷ s) ((text_eq_iff c d).0 y) ∙ ap (λ b. d ∷ b) e
  | inr w ↦
      let swapped = sym (text_eq_sym c d) ∙ w in
      let e = text_ltb_total c d (ground (arith, h, w)) (ground (arith, k, swapped)) in
      absurd (ground (arith, e, w))
]

below_or : (s t : Text) → text_ltb s t ≡ false → text_eq s t ≡ false → text_ltb t s ≡ true
below_or s t low apart = elim (Bool-cases (text_ltb t s)) [
  | inl y ↦ y
  | inr w ↦ let e = text_ltb_total s t low w in absurd (cc)
]

apart_of : (s t u : Text) → text_ltb s u ≡ true → text_ltb s t ≡ false → text_eq t u ≡ false
apart_of s t u less low = elim (Bool-cases (text_eq t u)) [
  | inr w ↦ w
  | inl y ↦ let e = ap (text_ltb s) ((text_eq_iff t u).0 y) in absurd (cc)
]

pub keys_ltb_between :
    (s t u : List Text) → keys_ltb s u ≡ true → keys_ltb s t ≡ false → keys_ltb t u ≡ true
unfolding keys_ltb
keys_ltb_between s t [] h k = absurd (cc)
keys_ltb_between [] [] (e ∷ u) h k = refl
keys_ltb_between [] (d ∷ t) (e ∷ u) h k = absurd (cc)
keys_ltb_between (c ∷ s) [] (e ∷ u) h k = refl
keys_ltb_between (c ∷ s) (d ∷ t) (e ∷ u) h k = elim (Bool-cases (text_eq c d)) [
  | inl same ↦
      let p = (text_eq_iff c d).0 same in
      let eq : text_eq c e ≡ text_eq d e = ap (λ x. text_eq x e) p in
      let lt : text_ltb c e ≡ text_ltb d e = ap (λ x. text_ltb x e) p in
      ground (arith, h, k, same, eq, lt, keys_ltb_between s t u)
  | inr w ↦
      let low : text_ltb c d ≡ false = ground (arith, k, w) in
      elim (Bool-cases (text_eq c e)) [
        | inl same ↦
            let p = (text_eq_iff c e).0 same in
            let eq : text_eq d e ≡ false = ap (text_eq d) (sym p) ∙ (text_eq_sym d c ∙ w) in
            let lt : text_ltb d e ≡ text_ltb d c = ap (text_ltb d) (sym p) in
            let up : text_ltb d c ≡ true = below_or c d low w in ground (arith, eq, lt, up)
        | inr apart ↦
            let less : text_ltb c e ≡ true = ground (arith, h, apart) in
            let up = text_ltb_between c d e less low in
            let eq : text_eq d e ≡ false = apart_of c d e less low in ground (arith, eq, up)
      ]
]

-- What is less than a key is less than a greater one.
pub keys_ltb_below :
    (s t u : List Text) → keys_ltb s t ≡ true → keys_ltb t u ≡ true → keys_ltb s u ≡ true
keys_ltb_below s t u h k = elim (Bool-cases (keys_ltb s u)) [
  | inl y ↦ y
  | inr w ↦ let up = keys_ltb_between s u t h w in let down = keys_ltb_asym t u k in absurd (cc)
]
