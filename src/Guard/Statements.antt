-- ===== src/Guard/Statements.antt =====
-- What the tests of pkg/database/query_guard.go on the statements of a text and on its first word mean.
use basecheck_agent.Prelude.{
  none, ℕ, suc, ◌≤◌, String, ◌≡◌, ◌⊎◌, refl, ap, ◌∙◌, Bool, Bool-cases, Option-cases, true, false,
  some, List, [], ◌∷◌, ◌++◌, map, all, ◌||◌, ◌&&◌, ◌==◌, if◌then◌else◌, arith, inl, inr, ==_iff,
  subst,
}
use basecheck_agent.Guard.{statements, require_single_statement, leads}
use basecheck_agent.Guard.Words.{to_upper, starts_word, strip, matches_word, trim_left}
use basecheck_agent.Text.{text, is_space}

-- A byte between statements.
abbrev pub is_idle : ℕ → Bool
is_idle c = is_space c || c == b';'

-- On one side of each semicolon there is nothing but spaces and semicolons.
abbrev pub IsSingle : List ℕ → Type 0
IsSingle cs =
    (before after : List ℕ)
    → cs ≡ before ++ (b';' ∷ after)
    → (all is_idle before ≡ true) ⊎ (all is_idle after ≡ true)

later_counted :
    (blank : Bool) (a b : List ℕ) → statements true b ≤ statements blank (a ++ (b';' ∷ b))
unfolding statements
later_counted blank [] b = ground arith
later_counted blank (c ∷ a) b =
    let fresh = later_counted true a b in
    let same = later_counted (if is_space c then blank else false) a b in
    ground (arith, fresh, same)

both_counted :
    (blank : Bool) (a b : List ℕ)
    → (blank && all is_idle a) ≡ false
    → suc (statements true b) ≤ statements blank (a ++ (b';' ∷ b))
unfolding statements
both_counted blank [] b h = ground (arith, h)
both_counted blank (c ∷ a) b h = elim (Bool-cases (c == b';')) [
  | inl stop ↦ elim (Bool-cases blank) [
    | inl idle ↦
        let rest = both_counted true a b (ground (arith, h, stop, idle)) in rw (stop, idle) rest
    | inr filled ↦ let rest = later_counted true a b in rw (stop, filled) (omega (arith, rest))
  ]
  | inr other ↦ elim (Bool-cases (is_space c)) [
    | inl space ↦ rw (other, space) (both_counted blank a b (ground (arith, h, other, space)))
    | inr black ↦ rw (other, black) (both_counted false a b refl)
  ]
]

none_idle :
    (blank : Bool) (b : List ℕ) → statements blank b ≡ 0 → (blank ≡ true) × (all is_idle b ≡ true)
unfolding statements
none_idle blank [] h = (ground (arith, h), refl)
none_idle blank (c ∷ cs) h = elim (Bool-cases (c == b';')) [
  | inl stop ↦ elim (Bool-cases blank) [
    | inr filled ↦ absurd (ground (arith, h, stop, filled))
    | inl idle ↦
        let (_, rest) = none_idle true cs (ground (arith, h, stop, idle)) in
        (idle, ground (arith, stop, rest))
  ]
  | inr other ↦ elim (Bool-cases (is_space c)) [
    | inr black ↦
        let (wrong, _) = none_idle false cs (ground (arith, h, other, black)) in absurd (cc)
    | inl space ↦
        let (idle, rest) = none_idle blank cs (ground (arith, h, other, space)) in
        (idle, ground (arith, space, rest))
  ]
]

pub require_single_statement-IsSingle :
    (cs : List ℕ) → require_single_statement cs ≡ none → IsSingle cs
unfolding require_single_statement
require_single_statement-IsSingle cs h a b split =
    let few : statements true (a ++ (b';' ∷ b)) ≤ 1 =
      subst (λ t. statements true t ≤ 1) split (ground (arith, h)) in
    elim (Bool-cases (all is_idle a)) [
      | inl idle ↦ inl idle
      | inr filled ↦
          let two = both_counted true a b filled in
          inr (none_idle true b (omega (arith, two, few))).1
    ]

-- Behind spaces, the text begins with a word, in any case, that ends there.
pub record IsLedBy (word cs : List ℕ) : Type 0 where
  pub spaces : List ℕ
  pub used : List ℕ
  pub after : List ℕ
  pub place : cs ≡ spaces ++ (used ++ after)
  pub blank : all is_space spaces ≡ true
  pub spelling : map to_upper used ≡ word
  pub ends : starts_word after ≡ false

-- One of the words leads the text.
abbrev pub IsLed : List String → List ℕ → Type 0
IsLed [] cs = ⊥
IsLed (w ∷ ws) cs = IsLedBy (text w) cs ⊎ IsLed ws cs

trim_left_split :
    (cs : List ℕ) → (spaces : List ℕ) × (cs ≡ spaces ++ trim_left cs) × (all is_space spaces ≡ true)
unfolding trim_left
trim_left_split [] = ([], refl, refl)
trim_left_split (c ∷ cs) = elim (Bool-cases (is_space c)) [
  | inr black ↦ ([], rw black refl, refl)
  | inl space ↦
      let (spaces, split, blank) = trim_left_split cs in
      (c ∷ spaces, rw space (ap (λ t. c ∷ t) split), ground (arith, space, blank))
]

strip_inv :
    (word cs after : List ℕ)
    → strip word cs ≡ some after
    → (used : List ℕ) × (cs ≡ used ++ after) × (map to_upper used ≡ word)
unfolding strip
strip_inv [] cs after h = ([], cc, refl)
strip_inv (w ∷ ws) [] after h = absurd (cc)
strip_inv (w ∷ ws) (c ∷ cs) after h = elim (Bool-cases (to_upper c == w)) [
  | inr other ↦ absurd (ground (arith, h, other))
  | inl same ↦
      let (used, split, spelling) = strip_inv ws cs after (ground (arith, h, same)) in
      let first = (==_iff (to_upper c) w).0 same in (c ∷ used, ap (λ t. c ∷ t) split, cc)
]

matches_word-IsLedBy :
    (word cs : List ℕ) → matches_word word (trim_left cs) ≡ true → IsLedBy word cs
unfolding matches_word
matches_word-IsLedBy word cs h = elim (Option-cases (strip word (trim_left cs))) [
  | inl fails ↦ absurd (ground (arith, h, fails))
  | inr (after, found) ↦
      let (spaces, split, blank) = trim_left_split cs in
      let (used, trimmed, spelling) = strip_inv word (trim_left cs) after found in
      record {
        spaces = spaces;
        used = used;
        after = after;
        place = split ∙ ap (λ t. spaces ++ t) trimmed;
        blank = blank;
        spelling = spelling;
        ends = ground (arith, h, found);
      }
]

pub leads-IsLed : (ws : List String) (cs : List ℕ) → leads ws cs ≡ true → IsLed ws cs
unfolding leads
leads-IsLed [] cs h = absurd (cc)
leads-IsLed (w ∷ ws) cs h = elim (Bool-cases (matches_word (text w) (trim_left cs))) [
  | inl found ↦ inl (matches_word-IsLedBy (text w) cs found)
  | inr other ↦ inr (leads-IsLed ws cs (ground (arith, h, other)))
]
