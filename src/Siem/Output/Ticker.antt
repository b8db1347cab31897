-- ===== src/Siem/Output/Ticker.antt =====
-- The periodic flush of the SIEM output and its end (runPeriodicFlush and Close of
-- pkg/siem/output.go): the steps of the background goroutine and of the one that closes, in any
-- order. A tick that is not taken before the ticker stops may stay in its channel, as in older
-- versions of Go. What a flush does to the queue is the subject of Siem/Output.
pub mod Laws
pub mod Progress
use basecheck_agent.Prelude.{ℕ, suc, ◌≡◌, Bool, true, false, ◌||◌, Option, is_some}
use basecheck_agent.Siem.Queue.Flush.{FlushError}

-- The background goroutine: in its select, in a flush, or behind `close(o.flushDone)`.
pub data Flusher : Type 0 where
  selecting flushing exited : Flusher

-- The caller: before Close, and in Close behind `close(o.stopCh)`, behind `flushTicker.Stop()`,
-- behind `<-o.flushDone`, and behind the final flush.
pub data Caller : Type 0 where
  working stopping waiting last_flush closed : Caller

-- `has_tick` says whether a tick is in the channel.
pub record World : Type 0 where
  pub flusher : Flusher
  pub caller : Caller
  pub has_tick : Bool
  pub is_ticking : Bool
  pub is_stopped : Bool
  pub periodic_flush_err : Bool

-- What NewOutput starts.
abbrev pub started : World
started = record {
  flusher = selecting;
  caller = working;
  has_tick = false;
  is_ticking = true;
  is_stopped = false;
  periodic_flush_err = false;
}

pub data Step (s : World) : World → Type 0 where
  tick : s.is_ticking ≡ true → Step s (record s { has_tick = true })
  begin_flush :
      s.flusher ≡ selecting
      → s.has_tick ≡ true
      → Step s (record s { flusher = flushing; has_tick = false })
  end_flush :
      (error : Option FlushError)
      → s.flusher ≡ flushing
      → Step s (record s {
        flusher = selecting;
        periodic_flush_err = s.periodic_flush_err || is_some error;
      })
  exit : s.flusher ≡ selecting → s.is_stopped ≡ true → Step s (record s { flusher = exited })
  close_stop : s.caller ≡ working → Step s (record s { caller = stopping; is_stopped = true })
  stop_ticker : s.caller ≡ stopping → Step s (record s { caller = waiting; is_ticking = false })
  join : s.caller ≡ waiting → s.flusher ≡ exited → Step s (record s { caller = last_flush })
  end_last_flush : s.caller ≡ last_flush → Step s (record s { caller = closed })

pub data Run (s : World) : World → Type 0 where
  begin : Run s s
  then_step : {t u : World} → Run s t → (step : Step t u) → Run s u
