-- ===== src/Processor/Handshake.antt =====
-- Processor::start, Processor::stop and the end of Processor::run (recorder/src/main/cpp/processor.cpp): how
-- the two flags pass between the thread of the processor and the thread that calls. Accesses to the
-- flags are sequentially consistent. Profiler's lock lets one call of start or stop in at a time,
-- and its tests let start in only where the flag isRunning_ is down, and stop only where it is up.
pub mod Joined
mod Tests
use fk_prof.Prelude.{ℕ, suc, ◌+◌, ◌≡◌, Bool, true, false}

-- Where the calls are: in none, in start with isRunning_ stored, in start behind the test-and-set of
-- workerDone, or in the loop of stop.
pub data Caller : Type 0 where
  idle : Caller
  stored : Caller
  marked : Caller
  spinning : Caller

-- `worker_done` is the flag of this name, which is up while the worker is not done. Of the threads that
-- start has made, `looping` are in the loop of run, and `leaving` between the loop and the end of run.
pub record System : Type 0 where
  pub is_running : Bool
  pub worker_done : Bool
  pub looping : ℕ
  pub leaving : ℕ
  pub caller : Caller

pub data Step (s : System) : System → Type 0 where
  store_running :
      s.caller ≡ idle
      → s.is_running ≡ false
      → Step s (record s { is_running = true; caller = stored })
  mark : s.caller ≡ stored → Step s (record s { worker_done = true; caller = marked })
  thread_runs : s.caller ≡ marked → Step s (record s { looping = s.looping + 1; caller = idle })
  -- RunAgentThread fails, which is only logged.
  thread_refused : s.caller ≡ marked → Step s (record s { caller = idle })
  store_stopped :
      s.caller ≡ idle
      → s.is_running ≡ true
      → Step s (record s { is_running = false; caller = spinning })
  still_marked : s.caller ≡ spinning → s.worker_done ≡ true → Step s s
  returns :
      s.caller ≡ spinning
      → s.worker_done ≡ false
      → Step s (record s { worker_done = true; caller = idle })
  -- The worker finds isRunning_ down, or is refused another interval.
  told :
      (n : ℕ)
      → s.looping ≡ suc n
      → s.is_running ≡ false
      → Step s (record s { looping = n; leaving = s.leaving + 1 })
  refused : (n : ℕ) → s.looping ≡ suc n → Step s (record s { looping = n; leaving = s.leaving + 1 })
  -- The worker clears workerDone, its last access.
  ends : (n : ℕ) → s.leaving ≡ suc n → Step s (record s { worker_done = false; leaving = n })

-- A new processor; the constructor leaves workerDone as it happens to be.
abbrev pub built : Bool → System
built b = record { is_running = false; worker_done = b; looping = 0; leaving = 0; caller = idle }

pub data Reach (s : System) : System → Type 0 where
  here : Reach s s
  next : {t u : System} → Reach s t → Step t u → Reach s u
