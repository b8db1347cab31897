-- ===== src/Siem/Lock/Laws.antt =====
-- Who holds the lock, whatever the order of the steps (pkg/siem/filelock.go).
use basecheck_agent.Prelude.{
  ℕ, ◌-◌, ◌<◌, ◌≡◌, ◌⊎◌, refl, sym, ◌∙◌, subst, Bool-cases, ==_iff, ◌==◌, none, some, inl, inr,
}
use basecheck_agent.Siem.Lock.{
  stale_lock_after, Phase, idle, waiting, reclaiming, holding, World, at, move, Step, tick, start,
  create, see_stale, remove_stale, give_up, release, crash, IsCalm, Run, begin, then_step,
  IsCalmRun, IsFresh,
}

-- One process holds the lock at most, under a file of the instant at which it took it; and while a
-- process is about to remove a stale file, the file is there, nobody holds the lock and no other
-- process is about to remove it.
pub record IsExclusive (s : World) : Type 0 where
  pub alone : (p q t u : ℕ) → s.phase p ≡ holding t → s.phase q ≡ holding u → p ≡ q
  pub filed : (p t : ℕ) → s.phase p ≡ holding t → s.file ≡ some t
  pub unheld : (p d q u : ℕ) → s.phase p ≡ reclaiming d → ¬ (s.phase q ≡ holding u)
  pub there : (p d : ℕ) → s.phase p ≡ reclaiming d → ¬ (s.file ≡ none)
  pub single : (p q d e : ℕ) → s.phase p ≡ reclaiming d → s.phase q ≡ reclaiming e → p ≡ q

at_here : (phase : ℕ → Phase) (p : ℕ) (x : Phase) → at phase p x p ≡ x
at_here phase p x = let h = (==_iff p p).1 refl in rw h refl

pub at_other :
    (phase : ℕ → Phase) (p q : ℕ) (x y : Phase)
    → at phase p x q ≡ y
    → ¬ (x ≡ y)
    → (¬ (q ≡ p)) × (phase q ≡ y)
at_other phase p q x y h differ = elim (Bool-cases (q == p)) [
  | inl same ↦ absurd (differ (rw same at h))
  | inr w ↦ (λ e. let same = (==_iff q p).1 e in absurd (cc), rw w at h)
]

at_cases :
    (phase : ℕ → Phase) (p q : ℕ) (x y : Phase)
    → at phase p x q ≡ y
    → ((q ≡ p) × (x ≡ y)) ⊎ (phase q ≡ y)
at_cases phase p q x y h = elim (Bool-cases (q == p)) [
  | inl same ↦ inl ((==_iff q p).0 same, rw same at h)
  | inr w ↦ inr (rw w at h)
]

-- A process that moves on without the lock, and leaves the file as it is.
passive-IsExclusive :
    (s : World) (p : ℕ) (x : Phase)
    → IsExclusive s
    → ((t : ℕ) → ¬ (x ≡ holding t))
    → ((d : ℕ) → ¬ (x ≡ reclaiming d))
    → IsExclusive (move s p x)
passive-IsExclusive s p x inv no_lock no_reclaim =
    let held : (q t : ℕ) → at s.phase p x q ≡ holding t → s.phase q ≡ holding t =
      λ q t h. (at_other s.phase p q x (holding t) h (no_lock t)).1 in
    let freed : (q d : ℕ) → at s.phase p x q ≡ reclaiming d → s.phase q ≡ reclaiming d =
      λ q d h. (at_other s.phase p q x (reclaiming d) h (no_reclaim d)).1 in
    record {
      alone = λ q r t u h k. inv.alone q r t u (held q t h) (held r u k);
      filed = λ q t h. inv.filed q t (held q t h);
      unheld = λ q d r u h k. inv.unheld q d r u (freed q d h) (held r u k);
      there = λ q d h. inv.there q d (freed q d h);
      single = λ q r d e h k. inv.single q r d e (freed q d h) (freed r e k);
    }

-- A process that removes the file and goes without the lock, where no other has to do with it.
removed-IsExclusive :
    (s : World) (p : ℕ) (x : Phase)
    → ((t : ℕ) → ¬ (x ≡ holding t))
    → ((d : ℕ) → ¬ (x ≡ reclaiming d))
    → ((q t : ℕ) → ¬ (q ≡ p) → ¬ (s.phase q ≡ holding t))
    → ((q d : ℕ) → ¬ (q ≡ p) → ¬ (s.phase q ≡ reclaiming d))
    → IsExclusive (record (move s p x) { file = none })
removed-IsExclusive s p x no_lock no_reclaim unheld unreclaimed =
    let none_holds : (q t : ℕ) → ¬ (at s.phase p x q ≡ holding t) = λ q t h.
      let (other, k) = at_other s.phase p q x (holding t) h (no_lock t) in unheld q t other k in
    let none_reclaims : (q d : ℕ) → ¬ (at s.phase p x q ≡ reclaiming d) = λ q d h.
      let (other, k) = at_other s.phase p q x (reclaiming d) h (no_reclaim d) in
      unreclaimed q d other k in
    record {
      alone = λ q r t u h k. absurd (none_holds q t h);
      filed = λ q t h. absurd (none_holds q t h);
      unheld = λ q d r u h k. none_reclaims q d h;
      there = λ q d h k. none_reclaims q d h;
      single = λ q r d e h k. absurd (none_reclaims q d h);
    }

created-IsExclusive :
    (s : World) (p : ℕ)
    → IsExclusive s
    → s.file ≡ none
    → IsExclusive (record (move s p (holding s.now)) { file = some s.now })
created-IsExclusive s p inv empty =
    let unheld : (q t : ℕ) → ¬ (s.phase q ≡ holding t) =
      λ q t h. let f = inv.filed q t h in absurd (cc) in
    let mine : (q t : ℕ) → at s.phase p (holding s.now) q ≡ holding t → (q ≡ p) × (s.now ≡ t) =
      λ q t h. elim (at_cases s.phase p q (holding s.now) (holding t) h) [
        | inl (same, e) ↦ (same, cc)
        | inr k ↦ absurd (unheld q t k)
      ] in
    let none_reclaims : (q d : ℕ) → ¬ (at s.phase p (holding s.now) q ≡ reclaiming d) = λ q d h.
      let (other, k) = at_other s.phase p q (holding s.now) (reclaiming d) h (λ e. absurd (cc)) in
      inv.there q d k empty in
    record {
      alone = λ q r t u h k. (mine q t h).0 ∙ sym (mine r u k).0;
      filed = λ q t h. let e = (mine q t h).1 in cc;
      unheld = λ q d r u h k. none_reclaims q d h;
      there = λ q d h k. none_reclaims q d h;
      single = λ q r d e h k. absurd (none_reclaims q d h);
    }

seen-IsExclusive :
    (s : World) (p deadline t : ℕ)
    → IsExclusive s
    → s.file ≡ some t
    → stale_lock_after < s.now - t
    → ((q v : ℕ) → s.phase q ≡ holding v → ¬ (stale_lock_after < s.now - v))
    → ((q d : ℕ) → ¬ (s.phase q ≡ reclaiming d))
    → IsExclusive (move s p (reclaiming deadline))
seen-IsExclusive s p deadline t inv file old young unreclaimed =
    let unheld : (q v : ℕ) → ¬ (s.phase q ≡ holding v) = λ q v h.
      let f : t ≡ v = let g = inv.filed q v h in cc in
      young q v h (subst (λ i. stale_lock_after < s.now - i) f old) in
    let none_holds : (q v : ℕ) → ¬ (at s.phase p (reclaiming deadline) q ≡ holding v) = λ q v h.
      let (other, k) =
        at_other s.phase p q (reclaiming deadline) (holding v) h (λ e. absurd (cc)) in
      unheld q v k in
    let mine : (q d : ℕ) → at s.phase p (reclaiming deadline) q ≡ reclaiming d → q ≡ p = λ q d h.
      elim (at_cases s.phase p q (reclaiming deadline) (reclaiming d) h) [
        | inl (same, e) ↦ same
        | inr k ↦ absurd (unreclaimed q d k)
      ] in
    record {
      alone = λ q r v u h k. absurd (none_holds q v h);
      filed = λ q v h. absurd (none_holds q v h);
      unheld = λ q d r u h k. none_holds r u k;
      there = λ q d h k. absurd (cc);
      single = λ q r d e h k. mine q d h ∙ sym (mine r e k);
    }

step-IsExclusive : (s t : World) (step : Step s t) → IsExclusive s → IsCalm s t step → IsExclusive t
step-IsExclusive s t (tick n) inv calm = record {
  alone = inv.alone;
  filed = inv.filed;
  unheld = inv.unheld;
  there = inv.there;
  single = inv.single;
}
step-IsExclusive s t (start p h) inv calm =
    passive-IsExclusive s p _ inv (λ u e. absurd (cc)) (λ d e. absurd (cc))
step-IsExclusive s t (create p d h k) inv calm = created-IsExclusive s p inv k
step-IsExclusive s t (see_stale p d u h k old) inv (young, unreclaimed) =
    seen-IsExclusive s p d u inv k old young unreclaimed
step-IsExclusive s t (remove_stale p d h) inv calm =
    removed-IsExclusive s p (waiting d) (λ u e. absurd (cc)) (λ e f. absurd (cc))
      (λ q u other k. inv.unheld p d q u h k) (λ q e other k. other (inv.single q p e d k h))
step-IsExclusive s t (give_up p d h k) inv calm =
    passive-IsExclusive s p idle inv (λ u e. absurd (cc)) (λ d' e. absurd (cc))
step-IsExclusive s t (release p u h) inv calm =
    removed-IsExclusive s p idle (λ v e. absurd (cc)) (λ d e. absurd (cc))
      (λ q v other k. other (inv.alone q p v u k h)) (λ q d other k. inv.unheld q d p u k h)
step-IsExclusive s t (crash p u h) inv calm =
    passive-IsExclusive s p idle inv (λ v e. absurd (cc)) (λ d e. absurd (cc))

fresh-IsExclusive : (s : World) → IsFresh s → IsExclusive s
fresh-IsExclusive s fresh = record {
  alone = λ p q t u h k. let e = fresh p in absurd (cc);
  filed = λ p t h. let e = fresh p in absurd (cc);
  unheld = λ p d q u h k. let e = fresh p in absurd (cc);
  there = λ p d h k. let e = fresh p in absurd (cc);
  single = λ p q d e h k. let f = fresh p in absurd (cc);
}

-- However the steps of the processes interleave, and whichever of them crash, one process at most
-- holds the lock, under a file of the instant at which it took it, if a file is found stale only
-- while every lock that is held is younger than 30 minutes and no other process is about to remove
-- a stale file.
pub run-IsExclusive : (s t : World) (run : Run s t) → IsFresh s → IsCalmRun s t run → IsExclusive t
run-IsExclusive s t begin fresh calm = fresh-IsExclusive s fresh
run-IsExclusive s t (then_step {t = u} run step) fresh (calm, last) =
    step-IsExclusive u t step (run-IsExclusive s u run fresh calm) last
