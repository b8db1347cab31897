-- ===== src/Control/Compatibility/Order.antt =====
-- The order of versions (pkg/controlset/compatibility.go).
use basecheck_agent.Prelude.{
  ℕ, zero, suc, ◌+◌, ◌≤◌, ◌<◌, ◌≡◌, ◌↔◌, refl, sym, ap, ◌∙◌, subst, Bool-cases, true, false, not, ℤ,
  pos, negsuc, List, [], ◌∷◌, length, ltb, ◌==◌, inl, inr, arith,
}
use basecheck_agent.Text.{Text}
use basecheck_agent.Control.Compatibility.{
  less, greater, version_segment, int_eq, int_ltb, compare_from, version_parts, longer,
  compare_versions,
}

-- In the first segment in which they differ, the first version has the smaller number, where the
-- segments behind the last are zeros.
pub record IsOlder (a b : List Text) : Type 0 where
  pub at : ℕ
  pub agree : (j : ℕ) → j < at → version_segment a j ≡ version_segment b j
  pub smaller : int_ltb (version_segment a at) (version_segment b at) ≡ true

int_eq_sound : (x y : ℤ) → int_eq x y ≡ true → x ≡ y
int_eq_sound (pos a) (pos b) h = ap pos (ground (arith, h))
int_eq_sound (pos a) (negsuc b) h = absurd (cc)
int_eq_sound (negsuc a) (pos b) h = absurd (cc)
int_eq_sound (negsuc a) (negsuc b) h = ap negsuc (ground (arith, h))

int_ltb_irreflexive : (x : ℤ) → int_ltb x x ≡ false
int_ltb_irreflexive (pos a) = ground arith
int_ltb_irreflexive (negsuc a) = ground arith

int_ltb_distinct : (x y : ℤ) → int_ltb x y ≡ true → int_eq x y ≡ false
int_ltb_distinct (pos a) (pos b) h = ground (arith, h)
int_ltb_distinct (pos a) (negsuc b) h = refl
int_ltb_distinct (negsuc a) (pos b) h = refl
int_ltb_distinct (negsuc a) (negsuc b) h = ground (arith, h)

int_eq_refl : (x : ℤ) → int_eq x x ≡ true
int_eq_refl (pos a) = ground arith
int_eq_refl (negsuc a) = ground arith

int_total : (x y : ℤ) → int_eq x y ≡ false → int_ltb x y ≡ false → int_ltb y x ≡ true
int_total (pos a) (pos b) h k = ground (arith, h, k)
int_total (pos a) (negsuc b) h k = refl
int_total (negsuc a) (pos b) h k = absurd (cc)
int_total (negsuc a) (negsuc b) h k = ground (arith, h, k)

-- Segments behind the last are zeros.
segment_behind : (parts : List Text) (i : ℕ) → length parts ≤ i → version_segment parts i ≡ pos 0
unfolding version_segment
segment_behind [] i h = refl
segment_behind (p ∷ parts) zero h = absurd (omega (arith, h))
segment_behind (p ∷ parts) (suc i) h = segment_behind parts i (omega (arith, h))

int_eq_sym : (x y : ℤ) → int_eq x y ≡ int_eq y x
int_eq_sym (pos a) (pos b) = ground arith
int_eq_sym (pos a) (negsuc b) = refl
int_eq_sym (negsuc a) (pos b) = refl
int_eq_sym (negsuc a) (negsuc b) = ground arith

int_ltb_flip : (x y : ℤ) → int_eq x y ≡ false → int_ltb y x ≡ not (int_ltb x y)
int_ltb_flip (pos a) (pos b) h = ground (arith, h)
int_ltb_flip (pos a) (negsuc b) h = refl
int_ltb_flip (negsuc a) (pos b) h = refl
int_ltb_flip (negsuc a) (negsuc b) h = ground (arith, h)

longer_le : (a b : List Text) → (length a ≤ longer a b) × (length b ≤ longer a b)
longer_le a b = (ground arith, ground arith)

-- A difference lies before the end of the longer version.
difference_within :
    (a b : List Text) (i : ℕ)
    → int_ltb (version_segment a i) (version_segment b i) ≡ true
    → i < longer a b
difference_within a b i h = elim (Bool-cases (ltb i (longer a b))) [
  | inl y ↦ ground (arith, y)
  | inr n ↦
      let (p, q) = longer_le a b in
      let x = segment_behind a i (ground (arith, n, p)) in
      let y = segment_behind b i (ground (arith, n, q)) in
      let e : int_ltb (version_segment a i) (version_segment b i) ≡ false =
        rw (x, y) (int_ltb_irreflexive (pos 0)) in
      absurd (cc)
]

-- `IsOlder`, with the segments from `i` on.
record IsOlderFrom (i : ℕ) (a b : List Text) : Type 0 where
  at : ℕ
  from : i ≤ at
  agree : (j : ℕ) → i ≤ j → j < at → version_segment a j ≡ version_segment b j
  smaller : int_ltb (version_segment a at) (version_segment b at) ≡ true

first_difference : (n i : ℕ) (a b : List Text) → compare_from n i a b ≡ less → IsOlderFrom i a b
unfolding compare_from
first_difference zero i a b h = absurd (cc)
first_difference (suc n) i a b h =
    let x = version_segment a i in
    let y = version_segment b i in
    elim (Bool-cases (int_eq x y)) [
      | inl e ↦
          let later = first_difference n (suc i) a b (ground (arith, e, h)) in
          let first = later.from in
          record {
            at = later.at;
            from = omega (arith, first);
            agree = λ j le lt. elim (Bool-cases (j == i)) [
              | inl same_ ↦ let k : j ≡ i = ground (arith, same_) in rw k (int_eq_sound x y e)
              | inr n_ ↦ later.agree j (ground (arith, le, n_)) lt
            ];
            smaller = later.smaller;
          }
      | inr d ↦ elim (Bool-cases (int_ltb x y)) [
        | inl l ↦ record {
          at = i;
          from = omega arith;
          agree = λ j le lt. absurd (omega (arith, le, lt));
          smaller = l;
        }
        | inr g ↦ absurd (ground (arith, d, g, h))
      ]
    ]

older_less :
    (n i : ℕ) (a b : List Text) (w : IsOlderFrom i a b) → w.at < n + i → compare_from n i a b ≡ less
unfolding compare_from
older_less zero i a b w lt = let first = w.from in absurd (omega (arith, first, lt))
older_less (suc n) i a b w lt =
    let x = version_segment a i in
    let y = version_segment b i in
    let first = w.from in
    elim (Bool-cases (i == w.at)) [
      | inl here ↦
          let k : w.at ≡ i = ground (arith, here) in
          let l : int_ltb x y ≡ true =
            subst (λ m. int_ltb (version_segment a m) (version_segment b m) ≡ true) k w.smaller in
          rw (int_ltb_distinct x y l, l) refl
      | inr later ↦
          let lt_ : i < w.at = ground (arith, first, later) in
          let e : int_eq x y ≡ true = rw (w.agree i (omega arith) lt_) (int_eq_refl y) in
          rw e (
            older_less n (suc i) a b
              (record {
                at = w.at;
                from = omega (arith, lt_);
                agree = λ j le. w.agree j (omega (arith, le));
                smaller = w.smaller;
              })
              (omega (arith, lt)))
    ]

mirrored :
    (n i : ℕ) (a b : List Text) → (compare_from n i a b ≡ greater) ↔ (compare_from n i b a ≡ less)
unfolding compare_from
mirrored zero i a b = ((λ h. absurd (cc)), λ h. absurd (cc))
mirrored (suc n) i a b =
    let x = version_segment a i in
    let y = version_segment b i in
    let rest = mirrored n (suc i) a b in
    let s = int_eq_sym x y in
    elim (Bool-cases (int_eq x y)) [
      | inl e ↦ let e' : int_eq y x ≡ true = sym s ∙ e in rw (e, e', compare_from) rest
      | inr d ↦
          let d' : int_eq y x ≡ false = sym s ∙ d in
          let f = int_ltb_flip x y d in
          elim (Bool-cases (int_ltb x y)) [
            | inl l ↦ rw (d, d', f, l, compare_from) ((λ h. absurd (cc)), λ h. absurd (cc))
            | inr g ↦ rw (d, d', f, g, compare_from) ((λ _. refl), λ _. refl)
          ]
    ]

pub compare_versions_less_iff :
    (a b : Text) → (compare_versions a b ≡ less) ↔ IsOlder (version_parts a) (version_parts b)
unfolding compare_versions
compare_versions_less_iff a b = (
  λ h.
      let w =
        first_difference (longer (version_parts a) (version_parts b)) 0 (version_parts a)
          (version_parts b) h in
      record { at = w.at; agree = λ j. w.agree j (omega arith); smaller = w.smaller },
  λ w.
      let lt = difference_within (version_parts a) (version_parts b) w.at w.smaller in
      older_less (longer (version_parts a) (version_parts b)) 0 (version_parts a) (version_parts b)
        (record { at = w.at; from = omega arith; agree = λ j _. w.agree j; smaller = w.smaller })
        (omega (arith, lt)),
)

longer_comm : (a b : List Text) → longer a b ≡ longer b a
longer_comm a b = ground arith

pub compare_versions_flip :
    (a b : Text) → (compare_versions a b ≡ greater) ↔ (compare_versions b a ≡ less)
unfolding compare_versions
compare_versions_flip a b =
    rw (longer_comm (version_parts b) (version_parts a))
      (mirrored (longer (version_parts a) (version_parts b)) 0 (version_parts a) (version_parts b))
