-- ===== src/Siem/Examples/Locking.antt =====
-- Runs of processes that share the lock file, and the theorem about it applied to one of them.
use basecheck_agent.Prelude.{ℕ, ◌≡◌, refl, none, some, arith}
use basecheck_agent.Siem.Lock.{
  Phase, idle, waiting, reclaiming, holding, World, move, start, create, see_stale, remove_stale,
  Run, begin, then_step,
}
use basecheck_agent.Siem.Lock.Laws.{IsExclusive, at_other, run-IsExclusive}

-- The file of a process that crashed 31 minutes ago.
abbrev abandoned : World
abandoned = record { now = 1860000000001; file = some 1; phase = λ p. idle }

abbrev deadline : ℕ
deadline = 1870000000001

abbrev asked : World
asked = move abandoned 0 (waiting deadline)

abbrev seen : World
seen = move asked 0 (reclaiming deadline)

abbrev removed : World
removed = record (move seen 0 (waiting deadline)) { file = none }

abbrev taken : World
taken = record (move removed 0 (holding 1860000000001)) { file = some 1860000000001 }

-- One process takes the lock over.
abbrev takeover : Run abandoned taken
takeover =
    then_step
      (then_step
        (then_step (then_step begin (start 0 refl))
          (see_stale 0 deadline 1 refl refl (omega arith)))
        (remove_stale 0 deadline refl))
      (create 0 deadline refl refl)

-- Nobody is anywhere but outside or in the loop.
outside : (q : ℕ) (y : Phase) → asked.phase q ≡ y → ¬ (waiting deadline ≡ y) → idle ≡ y
outside q y h differ = (at_other abandoned.phase 0 q (waiting deadline) y h differ).1

run-IsExclusive_example : IsExclusive taken
run-IsExclusive_example =
    run-IsExclusive abandoned taken takeover (λ p. refl)
      (
        (
          (
            (tt, tt),
            (
              λ q v h. let e = outside q (holding v) h (λ e. absurd (cc)) in absurd (cc),
              λ q d h. let e = outside q (reclaiming d) h (λ e. absurd (cc)) in absurd (cc),
            ),
          ),
          tt,
        ),
        tt,
      )

-- Two processes see the stale file; the second removes the fresh one of the first.
abbrev both_saw : World
both_saw =
    move
      (move (move (move abandoned 0 (waiting deadline)) 1 (waiting deadline)) 0
        (reclaiming deadline))
      1 (reclaiming deadline)

abbrev first_has : World
first_has =
    record (move (record (move both_saw 0 (waiting deadline)) { file = none }) 0
      (holding 1860000000001)) { file = some 1860000000001 }

abbrev both_have : World
both_have =
    record (move (record (move first_has 1 (waiting deadline)) { file = none }) 1
      (holding 1860000000001)) { file = some 1860000000001 }

race : Run abandoned both_have
race =
    then_step
      (then_step
        (then_step
          (then_step
            (then_step
              (then_step (then_step (then_step begin (start 0 refl)) (start 1 refl))
                (see_stale 0 deadline 1 refl refl (omega arith)))
              (see_stale 1 deadline 1 refl refl (omega arith)))
            (remove_stale 0 deadline refl))
          (create 0 deadline refl refl))
        (remove_stale 1 deadline refl))
      (create 1 deadline refl refl)

race_test :
    (both_have.phase 0 ≡ holding 1860000000001) × (both_have.phase 1 ≡ holding 1860000000001)
race_test = (refl, refl)
