-- ===== src/Siem/Output/Ticker/Progress.antt =====
-- Close comes to its end (pkg/siem/output.go).
use basecheck_agent.Prelude.{◌≡◌, ◌≢◌, refl, sym, subst, Bool, true, none}
use basecheck_agent.Siem.Output.Ticker.{
  Flusher, selecting, flushing, exited, Caller, working, stopping, waiting, last_flush, closed,
  World, started, Step, tick, begin_flush, end_flush, exit, close_stop, stop_ticker, join,
  end_last_flush, Run, begin, then_step,
}

abbrev pub EndsFrom : World → Type 0
EndsFrom s = (t : World) × Run s t × (t.caller ≡ closed)

abbrev world : Flusher → Caller → Bool → Bool → Bool → World
world f c has_tick is_ticking err = record {
  flusher = f;
  caller = c;
  has_tick = has_tick;
  is_ticking = is_ticking;
  is_stopped = true;
  periodic_flush_err = err;
}

-- The wait of Close is over when the goroutine has ended, which it does behind its flush, if it is in
-- one.
joined : {s t : World} → Run s t → t.flusher ≡ exited → t.caller ≡ waiting → EndsFrom s
joined run gone waits = (_, then_step (then_step run (join waits gone)) (end_last_flush refl), refl)

exiting :
    {s t : World}
    → Run s t
    → t.flusher ≡ selecting
    → t.is_stopped ≡ true
    → t.caller ≡ waiting
    → EndsFrom s
exiting run free stopped waits = joined (then_step run (exit free stopped)) refl waits

flushed :
    {s t : World}
    → Run s t
    → t.flusher ≡ flushing
    → t.is_stopped ≡ true
    → t.caller ≡ waiting
    → EndsFrom s
flushed run busy stopped waits = exiting (then_step run (end_flush none busy)) refl stopped waits

ends :
    (f : Flusher) (c : Caller) (has_tick is_ticking err : Bool)
    → c ≢ working
    → EndsFrom (world f c has_tick is_ticking err)
ends f working has_tick is_ticking err h = absurd (h refl)
ends selecting stopping has_tick is_ticking err h =
    exiting (then_step begin (stop_ticker refl)) refl refl refl
ends flushing stopping has_tick is_ticking err h =
    flushed (then_step begin (stop_ticker refl)) refl refl refl
ends exited stopping has_tick is_ticking err h =
    joined (then_step begin (stop_ticker refl)) refl refl
ends selecting waiting has_tick is_ticking err h = exiting begin refl refl refl
ends flushing waiting has_tick is_ticking err h = flushed begin refl refl refl
ends exited waiting has_tick is_ticking err h = joined begin refl refl
ends f last_flush has_tick is_ticking err h = (_, then_step begin (end_last_flush refl), refl)
ends f closed has_tick is_ticking err h = (_, begin, refl)

step_stopped :
    {s t : World}
    → Step s t
    → (s.caller ≢ working → s.is_stopped ≡ true)
    → t.caller ≢ working
    → t.is_stopped ≡ true
step_stopped (tick e) h c = h c
step_stopped (begin_flush e k) h c = h c
step_stopped (end_flush error e) h c = h c
step_stopped (exit e k) h c = h c
step_stopped (close_stop e) h c = refl
step_stopped (stop_ticker e) h c = h (λ w. cc)
step_stopped (join e k) h c = h (λ w. cc)
step_stopped (end_last_flush e) h c = h (λ w. cc)

run_stopped : {s : World} → Run started s → s.caller ≢ working → s.is_stopped ≡ true
run_stopped begin c = absurd (c refl)
run_stopped (then_step run step) c = step_stopped step (run_stopped run) c

-- Close is never stuck: from every state that it can be in, whatever the ticker and the background
-- goroutine have done, there are steps to its end.
pub close_ends : {s : World} → Run started s → s.caller ≢ working → EndsFrom s
close_ends {s = s} run c =
    subst (λ b. EndsFrom (record s { is_stopped = b })) (sym (run_stopped run c))
      (ends s.flusher s.caller s.has_tick s.is_ticking s.periodic_flush_err c)
