-- ===== src/Text/Split.antt =====
-- Splitting and joining: the parts of a split make up the text, and each is a piece of it.
use basecheck_agent.Prelude.{
  ℕ, zero, suc, ◌-◌, ◌≤◌, ◌<◌, ◌≡◌, ◌≢◌, refl, sym, subst, ap, ◌∙◌, Bool-cases, Option-cases, true,
  List, [], ◌∷◌, ◌++◌, append_assoc, append-nil, length, length-append, All, All-map, arith, inl,
  inr,
}
use basecheck_agent.Text.{
  Text, drop_prefix, has_prefix, contains, onto_first, split_from, split, join, drop,
}
use basecheck_agent.Text.Laws.{Within, Within-refl, Within-trans, Within-le, drop_prefix_inv}

onto_first-ne : (c : ℕ) (parts : List Text) → onto_first c parts ≢ []
onto_first-ne c [] e = cc
onto_first-ne c (p ∷ ps) e = cc

split_from-ne : (skip : ℕ) (sep s : Text) → split_from skip sep s ≢ []
unfolding split_from
split_from-ne skip sep [] = λ e. cc
split_from-ne (suc skip) sep (c ∷ s) = split_from-ne skip sep s
split_from-ne zero sep (c ∷ s) = elim (Bool-cases (has_prefix (c ∷ s) sep)) [
  | inl h ↦ rw h (λ e. cc)
  | inr h ↦ rw h (onto_first-ne c (split_from zero sep s))
]

join-onto_first :
    (c : ℕ) (parts : List Text) (sep : Text) → join (onto_first c parts) sep ≡ c ∷ join parts sep
unfolding join
join-onto_first c [] sep = refl
join-onto_first c (p ∷ []) sep = refl
join-onto_first c (p ∷ (q ∷ ps)) sep = refl

join_behind :
    (p : Text) (parts : List Text) (sep : Text)
    → parts ≢ []
    → join (p ∷ parts) sep ≡ p ++ (sep ++ join parts sep)
unfolding join
join_behind p [] sep n = absurd (n refl)
join_behind p (q ∷ ps) sep n = refl

drop-append : (s t : Text) → drop (length s) (s ++ t) ≡ t
unfolding drop
drop-append [] t = refl
drop-append (c ∷ s) t = drop-append s t

-- Behind a separator of one byte or more at the start of a text.
drop_separator :
    (d : ℕ) (sep s rest : Text) (c : ℕ) → c ∷ s ≡ (d ∷ sep) ++ rest → drop (length sep) s ≡ rest
drop_separator d sep s rest c h = let tail : s ≡ sep ++ rest = cc in rw tail (drop-append sep rest)

join-split_from :
    (skip d : ℕ) (sep s : Text)
    → skip ≤ length s
    → join (split_from skip (d ∷ sep) s) (d ∷ sep) ≡ drop skip s
unfolding split_from drop join
join-split_from zero d sep [] h = refl
join-split_from (suc skip) d sep [] h = absurd (omega arith)
join-split_from (suc skip) d sep (c ∷ s) h = join-split_from skip d sep s (omega arith)
join-split_from zero d sep (c ∷ s) h = elim (Option-cases (drop_prefix (d ∷ sep) (c ∷ s))) [
  | inl e ↦ rw e (
      join-onto_first c (split_from zero (d ∷ sep) s) (d ∷ sep)
      ∙ ap (λ x. c ∷ x) (join-split_from zero d sep s (omega arith)))
  | inr (rest, e) ↦
      let here = drop_prefix_inv (d ∷ sep) (c ∷ s) rest e in
      let pass : suc (length sep) - 1 ≡ length sep = omega arith in
      let tail : s ≡ sep ++ rest = cc in
      let fits : length sep ≤ length s = rw tail (omega (arith, length-append sep rest)) in
      rw (e, pass)
        (join_behind [] (split_from (length sep) (d ∷ sep) s) (d ∷ sep)
            (split_from-ne (length sep) (d ∷ sep) s)
          ∙ ap (λ x. (d ∷ sep) ++ x) (join-split_from (length sep) d sep s fits)
          ∙ ap (λ x. (d ∷ sep) ++ x) (drop_separator d sep s rest c here)
          ∙ sym here)
]

-- Joining the parts of a split gives the text back.
pub join-split : (d : ℕ) (sep s : Text) → join (split s (d ∷ sep)) (d ∷ sep) ≡ s
unfolding split drop
join-split d sep s = join-split_from zero d sep s (omega arith)

join-Within : (parts : List Text) (sep : Text) → All (λ p. Within p (join parts sep)) parts
unfolding join
join-Within [] sep = tt
join-Within (p ∷ []) sep = (Within-refl p, tt)
join-Within (p ∷ (q ∷ ps)) sep =
    let rest = join (q ∷ ps) sep in
    let behind : Within rest (p ++ (sep ++ rest)) = record {
      before = p ++ sep;
      after = [];
      place = simp (append_assoc, append-nil);
    } in
    (
      record { before = []; after = sep ++ rest; place = refl },
      All-map (q ∷ ps) (λ r h. Within-trans r rest (p ++ (sep ++ rest)) h behind)
          (join-Within (q ∷ ps) sep),
    )

-- Each part of a split is a piece of the text.
pub split-Within : (d : ℕ) (sep s : Text) → All (λ p. Within p s) (split s (d ∷ sep))
split-Within d sep s =
    subst (λ t. All (λ p. Within p t) (split s (d ∷ sep))) (join-split d sep s)
      (join-Within (split s (d ∷ sep)) (d ∷ sep))

-- Two parts or more.
abbrev IsSplit : List Text → Type 0
IsSplit parts = (p : Text) × (q : Text) × (ps : List Text) × (parts ≡ p ∷ (q ∷ ps))

IsSplit-behind : (parts : List Text) → parts ≢ [] → IsSplit ([] ∷ parts)
IsSplit-behind [] n = absurd (n refl)
IsSplit-behind (q ∷ ps) n = ([], q, ps, refl)

split_from-IsSplit :
    (sep s : Text) → sep ≢ [] → contains s sep ≡ true → IsSplit (split_from zero sep s)
unfolding contains split_from
split_from-IsSplit [] [] n h = absurd (n refl)
split_from-IsSplit (d ∷ sep) [] n h = cc
split_from-IsSplit sep (c ∷ s) n h = elim (Bool-cases (has_prefix (c ∷ s) sep)) [
  | inl e ↦
      rw e
        (IsSplit-behind (split_from (length sep - 1) sep s) (split_from-ne (length sep - 1) sep s))
  | inr e ↦
      let (p, q, ps, k) = split_from-IsSplit sep s n (ground (arith, e, h)) in
      rw (e, k) (c ∷ p, q, ps, refl)
]

shorter_parts :
    (p q : Text) (ps : List Text) (d : ℕ) (sep : Text)
    → All (λ r. length r < length (join (p ∷ (q ∷ ps)) (d ∷ sep))) (p ∷ (q ∷ ps))
unfolding join
shorter_parts p q ps d sep =
    let rest = join (q ∷ ps) (d ∷ sep) in
    let total = length-append p ((d ∷ sep) ++ rest) in
    let part = length-append sep rest in
    (
      omega (arith, total, part),
      All-map (q ∷ ps) (λ r h. let le = Within-le r rest h in omega (arith, total, part, le))
          (join-Within (q ∷ ps) (d ∷ sep)),
    )

-- At a separator that the text contains, each part is shorter than the text.
pub split-shorter :
    (d : ℕ) (sep s : Text)
    → contains s (d ∷ sep) ≡ true
    → All (λ p. length p < length s) (split s (d ∷ sep))
unfolding split
split-shorter d sep s h =
    let (p, q, ps, k) = split_from-IsSplit (d ∷ sep) s (λ e. cc) h in
    let whole : join (p ∷ (q ∷ ps)) (d ∷ sep) ≡ s =
      ap (λ parts. join parts (d ∷ sep)) (sym k) ∙ join-split d sep s in
    subst (λ parts. All (λ r. length r < length s) parts) (sym k)
      (subst (λ t. All (λ r. length r < length t) (p ∷ (q ∷ ps))) whole
        (shorter_parts p q ps d sep))
