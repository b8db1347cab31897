-- ===== src/Siem/Lock.antt =====
-- The lock file that agent processes share (pkg/siem/filelock.go), as the steps of any number of
-- processes in any order. A process is a number; instants and spans are in nanoseconds. A step is one
-- call of the file system, or the end of a process that leaves its file behind. The lock file's
-- directory can be made, and a file that is there can be read and removed.
pub mod Laws
use basecheck_agent.Prelude.{ℕ, ◌+◌, ◌-◌, ◌<◌, ◌≡◌, ◌==◌, Option, none, some, if◌then◌else◌}

abbrev pub stale_lock_after : ℕ
stale_lock_after = 1800000000000

abbrev pub lock_acquire_timeout : ℕ
lock_acquire_timeout = 10000000000

-- Where a process is: outside, in the loop of acquireFileLock until a deadline, in it behind the
-- sight of a stale file, which it will remove, or with the lock that it took at an instant.
pub data Phase : Type 0 where
  idle : Phase
  waiting : ℕ → Phase
  reclaiming : ℕ → Phase
  holding : ℕ → Phase

-- The clock, the time of the lock file if it is there, and the processes.
pub record World : Type 0 where
  pub now : ℕ
  pub file : Option ℕ
  pub phase : ℕ → Phase

abbrev pub at : (ℕ → Phase) → ℕ → Phase → ℕ → Phase
at phase p x q = if q == p then x else phase q

abbrev pub move : World → ℕ → Phase → World
move s p x = record s { phase = at s.phase p x }

pub data Step (s : World) : World → Type 0 where
  tick : (n : ℕ) → Step s (record s { now = s.now + n })
  -- acquireFileLock is called
  start : (p : ℕ) → s.phase p ≡ idle → Step s (move s p (waiting (s.now + lock_acquire_timeout)))
  -- the exclusive creation of the file
  create :
      (p deadline : ℕ)
      → s.phase p ≡ waiting deadline
      → s.file ≡ none
      → Step s (record (move s p (holding s.now)) { file = some s.now })
  -- the file is there, and it is old
  see_stale :
      (p deadline t : ℕ)
      → s.phase p ≡ waiting deadline
      → s.file ≡ some t
      → stale_lock_after < s.now - t
      → Step s (move s p (reclaiming deadline))
  -- whatever file is there by now is removed
  remove_stale :
      (p deadline : ℕ)
      → s.phase p ≡ reclaiming deadline
      → Step s (record (move s p (waiting deadline)) { file = none })
  -- the deadline has passed
  give_up :
      (p deadline : ℕ) → s.phase p ≡ waiting deadline → deadline < s.now → Step s (move s p idle)
  release : (p t : ℕ) → s.phase p ≡ holding t → Step s (record (move s p idle) { file = none })
  -- the process ends without a release
  crash : (p t : ℕ) → s.phase p ≡ holding t → Step s (move s p idle)

-- A file is found stale only while every lock that is held is younger than a stale one, and while no
-- other process is about to remove a stale file.
abbrev pub IsCalm : (s t : World) → Step s t → Type 0
IsCalm s t (see_stale p deadline u in_loop there old) =
    ((q v : ℕ) → s.phase q ≡ holding v → ¬ (stale_lock_after < s.now - v))
    × ((q d : ℕ) → ¬ (s.phase q ≡ reclaiming d))
IsCalm s t (tick n) = Unit
IsCalm s t (start p h) = Unit
IsCalm s t (create p d h k) = Unit
IsCalm s t (remove_stale p d h) = Unit
IsCalm s t (give_up p d h k) = Unit
IsCalm s t (release p u h) = Unit
IsCalm s t (crash p u h) = Unit

pub data Run (s : World) : World → Type 0 where
  begin : Run s s
  then_step : {t u : World} → Run s t → (step : Step t u) → Run s u

abbrev pub IsCalmRun : (s t : World) → Run s t → Type 0
IsCalmRun s t begin = Unit
IsCalmRun s u (then_step {t = t} run step) = IsCalmRun s t run × IsCalm t u step

-- The start: no process has asked for the lock yet. A file may be there, of a process that crashed.
abbrev pub IsFresh : World → Type 0
IsFresh s = (p : ℕ) → s.phase p ≡ idle
