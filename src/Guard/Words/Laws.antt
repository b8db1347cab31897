-- ===== src/Guard/Words/Laws.antt =====
-- The patterns against a description of what they match (pkg/database/query_guard.go).
use basecheck_agent.Prelude.{
  ℕ, String, ◌≡◌, refl, sym, subst, Bool, Bool-cases, some, true, false, List, [], ◌∷◌, ◌++◌, map,
  arith, inl, inr, ==_iff,
}
use basecheck_agent.Guard.Words.{
  is_word, to_upper, starts_word, strip, matches_word, contains_match, contains_word, any_word,
}
use basecheck_agent.Text.{text}

-- Whether the text before a place ends in a byte of a word.
abbrev pub ends_word : Bool → List ℕ → Bool
ends_word prev [] = prev
ends_word prev (c ∷ cs) = ends_word (is_word c) cs

-- A word, in any case, with no byte of a word on either side.
pub record Occurs (word : List ℕ) (cs : List ℕ) : Type 0 where
  pub before : List ℕ
  pub first : ℕ
  pub others : List ℕ
  pub after : List ℕ
  pub place : cs ≡ before ++ ((first ∷ others) ++ after)
  pub spelling : map to_upper (first ∷ others) ≡ word
  pub starts : ends_word false before ≡ false
  pub ends : starts_word after ≡ false

strip_lem : (w post : List ℕ) → strip (map to_upper w) (w ++ post) ≡ some post
unfolding strip
strip_lem [] post = refl
strip_lem (c ∷ cs) post =
    let same = (==_iff (to_upper c) (to_upper c)).1 refl in rw (same, strip_lem cs post) refl

matches_word_lem :
    (w post : List ℕ) → starts_word post ≡ false → matches_word (map to_upper w) (w ++ post) ≡ true
unfolding matches_word
matches_word_lem w post h = rw (strip_lem w post, h, matches_word) refl

contains_match_lem :
    (p : List ℕ → Bool) (prev : Bool) (before : List ℕ) (c : ℕ) (cs : List ℕ)
    → p (c ∷ cs) ≡ true
    → ends_word prev before ≡ false
    → contains_match p prev (before ++ (c ∷ cs)) ≡ true
unfolding contains_match
contains_match_lem p prev [] c cs h e = rw (e, h) refl
contains_match_lem p prev (b ∷ bs) c cs h e =
    let rest = contains_match_lem p (is_word b) bs c cs h e in ground (arith, rest)

-- A word that occurs is found.
pub contains_word-Occurs : (word cs : List ℕ) → Occurs word cs → contains_word word false cs ≡ true
unfolding contains_word
contains_word-Occurs word cs o =
    let w = o.first ∷ o.others in
    let found =
      contains_match_lem (matches_word (map to_upper w)) false o.before o.first
        (o.others ++ o.after) (matches_word_lem w o.after o.ends) o.starts in
    let here =
      subst (λ k. contains_match (matches_word k) false (o.before ++ (w ++ o.after)) ≡ true)
        o.spelling found in
    subst (λ t. contains_match (matches_word word) false t ≡ true) (sym o.place) here

-- None of the words occurs.
abbrev pub NoneOccurs : List String → List ℕ → Type 0
NoneOccurs [] cs = Unit
NoneOccurs (w ∷ ws) cs = (Occurs (text w) cs → ⊥) × NoneOccurs ws cs

pub any_word-NoneOccurs :
    (ws : List String) (cs : List ℕ) → any_word ws cs ≡ false → NoneOccurs ws cs
unfolding any_word
any_word-NoneOccurs [] cs h = tt
any_word-NoneOccurs (w ∷ ws) cs h = elim (Bool-cases (contains_word (text w) false cs)) [
  | inl c ↦ absurd (ground (arith, c, h))
  | inr c ↦ (
    λ o. let found = contains_word-Occurs (text w) cs o in ground (arith, found, c),
    any_word-NoneOccurs ws cs (ground (arith, c, h)),
  )
]
