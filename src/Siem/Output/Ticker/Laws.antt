-- ===== src/Siem/Output/Ticker/Laws.antt =====
-- The final flush runs alone, and no failure of a periodic flush is lost (pkg/siem/output.go).
use basecheck_agent.Prelude.{
  ℕ, ◌+◌, ◌≤◌, ◌≡◌, ◌≢◌, refl, sym, ap, ◌∙◌, subst, Bool, true, false, ◌||◌, is_some, arith,
  if◌then◌else◌,
}
use basecheck_agent.Siem.Output.Ticker.{
  Flusher, selecting, flushing, exited, Caller, working, stopping, waiting, last_flush, closed,
  World, started, Step, tick, begin_flush, end_flush, exit, close_stop, stop_ticker, join,
  end_last_flush, Run, begin, then_step,
}

-- Whether a step is the end of a periodic flush with an error.
abbrev pub is_failure : {s t : World} → Step s t → Bool
is_failure (tick h) = false
is_failure (begin_flush h k) = false
is_failure (end_flush error h) = is_some error
is_failure (exit h k) = false
is_failure (close_stop h) = false
is_failure (stop_ticker h) = false
is_failure (join h k) = false
is_failure (end_last_flush h) = false

-- Whether a periodic flush of the run has failed.
abbrev pub has_failure : {s t : World} → Run s t → Bool
has_failure begin = false
has_failure (then_step run step) = has_failure run || is_failure step

-- The periodic flushes that a step begins once the ticker is stopped.
abbrev pub late_of : {s t : World} → Step s t → ℕ
late_of (tick h) = 0
late_of {s} (begin_flush h k) = if s.is_ticking then 0 else 1
late_of (end_flush error h) = 0
late_of (exit h k) = 0
late_of (close_stop h) = 0
late_of (stop_ticker h) = 0
late_of (join h k) = 0
late_of (end_last_flush h) = 0

abbrev pub late : {s t : World} → Run s t → ℕ
late begin = 0
late (then_step run step) = late run + late_of step

-- The goroutine has ended when the caller is past the wait for it.
abbrev pub IsJoined : Caller → Flusher → Type 0
IsJoined working f = Unit
IsJoined stopping f = Unit
IsJoined waiting f = Unit
IsJoined last_flush f = f ≡ exited
IsJoined closed f = f ≡ exited

-- Once the ticker is stopped, one flush may begin at most, and none has as long as a tick is left.
abbrev pub IsScarce : Bool → Bool → ℕ → Type 0
IsScarce true has_tick n = n ≡ 0
IsScarce false true n = n ≡ 0
IsScarce false false n = n ≤ 1

pub record IsOrderly (s : World) (failed : Bool) (late_flushes : ℕ) : Type 0 where
  -- the final flush, and whatever comes behind it, is without a periodic one
  pub joined : IsJoined s.caller s.flusher
  -- PeriodicFlushErrorOccurred says whether a periodic flush has failed
  pub told : s.periodic_flush_err ≡ failed
  pub scarce : IsScarce s.is_ticking s.has_tick late_flushes

or_false : (b : Bool) → b || false ≡ b
or_false true = refl
or_false false = refl

IsScarce-tick :
    (b : Bool) (has_tick : Bool) (n : ℕ) → b ≡ true → IsScarce b has_tick n → IsScarce b true n
IsScarce-tick true has_tick n e h = h
IsScarce-tick false has_tick n e h = absurd (cc)

IsScarce-begin :
    (b has_tick : Bool) (n : ℕ)
    → has_tick ≡ true
    → IsScarce b has_tick n
    → IsScarce b false (n + (if b then 0 else 1))
IsScarce-begin true has_tick n e h = omega (arith, h)
IsScarce-begin false true n e h = omega (arith, h)
IsScarce-begin false false n e h = absurd (cc)

IsScarce-stop : (b has_tick : Bool) (n : ℕ) → IsScarce b has_tick n → IsScarce false has_tick n
IsScarce-stop true true n h = h
IsScarce-stop true false n h = omega (arith, h)
IsScarce-stop false has_tick n h = h

-- A goroutine that has not ended is not joined, whatever it does next.
IsJoined-next : (c : Caller) (f g : Flusher) → f ≢ exited → IsJoined c f → IsJoined c g
IsJoined-next working f g n h = tt
IsJoined-next stopping f g n h = tt
IsJoined-next waiting f g n h = tt
IsJoined-next last_flush f g n h = absurd (n h)
IsJoined-next closed f g n h = absurd (n h)

-- A step that is no failure and begins no flush late.
quiet :
    {s t : World} (failed : Bool) (n : ℕ)
    → IsJoined t.caller t.flusher
    → t.periodic_flush_err ≡ s.periodic_flush_err
    → IsScarce t.is_ticking t.has_tick n
    → IsOrderly s failed n
    → IsOrderly t (failed || false) (n + 0)
quiet {t = t} failed n joined same scarce h = record {
  joined = joined;
  told = same ∙ h.told ∙ sym (or_false failed);
  scarce = subst (IsScarce t.is_ticking t.has_tick) (omega arith) scarce;
}

step-IsOrderly :
    {s t : World} (step : Step s t) (failed : Bool) (n : ℕ)
    → IsOrderly s failed n
    → IsOrderly t (failed || is_failure step) (n + late_of step)
step-IsOrderly {s} (tick ticking) failed n h =
    quiet {s = s} failed n h.joined refl (IsScarce-tick s.is_ticking s.has_tick n ticking h.scarce)
      h
step-IsOrderly {s} (begin_flush free has_tick) failed n h = record {
  joined = IsJoined-next s.caller s.flusher flushing (λ e. cc) h.joined;
  told = h.told ∙ sym (or_false failed);
  scarce = IsScarce-begin s.is_ticking s.has_tick n has_tick h.scarce;
}
step-IsOrderly {s} (end_flush error busy) failed n h = record {
  joined = IsJoined-next s.caller s.flusher selecting (λ e. cc) h.joined;
  told = ap (λ b. b || is_some error) h.told;
  scarce = subst (IsScarce s.is_ticking s.has_tick) (omega arith) h.scarce;
}
step-IsOrderly {s} (exit free stopped) failed n h =
    quiet {s = s} failed n (IsJoined-next s.caller s.flusher exited (λ e. cc) h.joined) refl
      h.scarce h
step-IsOrderly {s} (close_stop c) failed n h = quiet {s = s} failed n tt refl h.scarce h
step-IsOrderly {s} (stop_ticker c) failed n h =
    quiet {s = s} failed n tt refl (IsScarce-stop s.is_ticking s.has_tick n h.scarce) h
step-IsOrderly {s} (join c gone) failed n h = quiet {s = s} failed n gone refl h.scarce h
step-IsOrderly {s} (end_last_flush c) failed n h =
    quiet {s = s} failed n (subst (λ k. IsJoined k s.flusher) c h.joined) refl h.scarce h

-- Whatever the order of the steps: the final flush of Close begins when the background goroutine has
-- ended, and no periodic flush runs or begins from then on; PeriodicFlushErrorOccurred says whether a
-- periodic flush has failed; and at most one begins once the ticker is stopped.
pub run-IsOrderly : {s : World} (run : Run started s) → IsOrderly s (has_failure run) (late run)
run-IsOrderly begin = record { joined = tt; told = refl; scarce = refl }
run-IsOrderly (then_step run step) =
    step-IsOrderly step (has_failure run) (late run) (run-IsOrderly run)
