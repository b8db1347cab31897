-- ===== src/Text/Laws.antt =====
-- What the functions on byte strings keep: parts are pieces of the whole, and shorter.
use basecheck_agent.Prelude.{
  ℕ, ◌≤◌, ◌≡◌, ◌↔◌, refl, sym, ap, ◌∙◌, ◌&&◌, Bool, Bool-cases, Option-cases, some, true, [], ◌∷◌,
  ◌++◌, append_assoc, append-nil, length, length-append, arith, inl, inr,
}
use basecheck_agent.Text.{
  Text, text_eq, drop_prefix, contains, trim_left, trim_right, trim, is_empty,
}

pub text_eq_iff : (s t : Text) → (text_eq s t ≡ true) ↔ (s ≡ t)
unfolding text_eq
text_eq_iff [] [] = (λ e. refl, λ e. refl)
text_eq_iff [] (d ∷ t) = (λ e. cc, λ e. cc)
text_eq_iff (c ∷ s) [] = (λ e. cc, λ e. cc)
text_eq_iff (c ∷ s) (d ∷ t) = ground (arith, text_eq_iff s t)

pub drop_prefix_lem : (p s : Text) → drop_prefix p (p ++ s) ≡ some s
unfolding drop_prefix
drop_prefix_lem [] s = refl
drop_prefix_lem (c ∷ p) s = ground (arith, drop_prefix_lem p s)

pub drop_prefix_inv : (p s rest : Text) → drop_prefix p s ≡ some rest → s ≡ p ++ rest
unfolding drop_prefix
drop_prefix_inv [] s rest h = cc
drop_prefix_inv (c ∷ p) [] rest h = cc
drop_prefix_inv (c ∷ p) (d ∷ s) rest h = ground (arith, h, drop_prefix_inv p s rest)

-- A piece of a text.
pub record Within (part : Text) (s : Text) : Type 0 where
  pub before : Text
  pub after : Text
  pub place : s ≡ before ++ (part ++ after)

pub Within-refl : (s : Text) → Within s s
Within-refl s = record { before = []; after = []; place = sym (append-nil s) }

pub Within-trans : (r s t : Text) → Within r s → Within s t → Within r t
Within-trans r s t h k = record {
  before = k.before ++ h.before;
  after = h.after ++ k.after;
  place = k.place ∙ ap (λ x. k.before ++ (x ++ k.after)) h.place ∙ simp append_assoc;
}

pub Within-cons : (c : ℕ) (r s : Text) → Within r s → Within r (c ∷ s)
Within-cons c r s h = record {
  before = c ∷ h.before;
  after = h.after;
  place = ap (λ x. c ∷ x) h.place;
}

contains_here : (sub s : Text) → contains (sub ++ s) sub ≡ true
unfolding contains
contains_here [] [] = refl
contains_here [] (c ∷ s) = rw (drop_prefix_lem [] (c ∷ s)) refl
contains_here (p ∷ sub) s = rw (drop_prefix_lem (p ∷ sub) s) refl

contains_behind : (before s sub : Text) → contains s sub ≡ true → contains (before ++ s) sub ≡ true
unfolding contains
contains_behind [] s sub h = h
contains_behind (c ∷ before) s sub h = ground (arith, contains_behind before s sub h)

Within-of_prefix : (sub s rest : Text) → drop_prefix sub s ≡ some rest → Within sub s
Within-of_prefix sub s rest h = record {
  before = [];
  after = rest;
  place = drop_prefix_inv sub s rest h;
}

contains-Within : (s sub : Text) → contains s sub ≡ true → Within sub s
unfolding contains
contains-Within [] [] h = Within-refl []
contains-Within [] (p ∷ sub) h = cc
contains-Within (c ∷ s) sub h = elim (Option-cases (drop_prefix sub (c ∷ s))) [
  | inr (rest, e) ↦ Within-of_prefix sub (c ∷ s) rest e
  | inl e ↦ Within-cons c sub s (contains-Within s sub (ground (arith, e, h)))
]

-- A text contains just its pieces.
pub contains_iff : (s sub : Text) → (contains s sub ≡ true) ↔ Within sub s
contains_iff s sub = (
  contains-Within s sub,
  λ h. rw h.place (contains_behind h.before (sub ++ h.after) sub (contains_here sub h.after)),
)

-- What a piece contains, the whole does.
pub contains-Within_mono :
    (part s sub : Text) → Within part s → contains part sub ≡ true → contains s sub ≡ true
contains-Within_mono part s sub h c =
    (contains_iff s sub).1 (Within-trans sub part s ((contains_iff part sub).0 c) h)

trim_left-Within : (p : ℕ → Bool) (s : Text) → Within (trim_left p s) s
unfolding trim_left
trim_left-Within p [] = Within-refl []
trim_left-Within p (c ∷ s) = elim (Bool-cases (p c)) [
  | inl h ↦ rw h (Within-cons c (trim_left p s) s (trim_left-Within p s))
  | inr h ↦ rw h (Within-refl (c ∷ s))
]

trim_right-prefix : (p : ℕ → Bool) (s : Text) → (after : Text) × (s ≡ trim_right p s ++ after)
unfolding trim_right
trim_right-prefix p [] = ([], refl)
trim_right-prefix p (c ∷ s) = elim (Bool-cases (p c && is_empty (trim_right p s))) [
  | inl h ↦ rw h (c ∷ s, refl)
  | inr h ↦ let (after, e) = trim_right-prefix p s in rw h (after, ap (λ x. c ∷ x) e)
]

pub trim-Within : (p : ℕ → Bool) (s : Text) → Within (trim p s) s
trim-Within p s =
    let (after, e) = trim_right-prefix p (trim_left p s) in
    Within-trans (trim p s) (trim_left p s) s (record { before = []; after = after; place = e })
      (trim_left-Within p s)

pub Within-le : (part s : Text) → Within part s → length part ≤ length s
Within-le part s h =
    rw h.place (omega (arith, length-append h.before (part ++ h.after), length-append part h.after))
