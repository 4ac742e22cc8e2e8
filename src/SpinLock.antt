-- ===== src/SpinLock.antt =====
-- SimpleSpinLockGuard (recorder/src/main/cpp/profiler.h): the lock `ongoingConf` of the profiler, for any
-- number of threads. Accesses to the flag are sequentially consistent.
pub mod Exclusion
mod Tests
use fk_prof.Prelude.{ℕ, ◌≡◌, Bool, true, false, update}

-- Where a thread stands: in no guard of this lock, in the loop of the constructor, or between the
-- constructor and the destructor.
pub data Place : Type 0 where
  outside : Place
  spinning : Place
  inside : Place

pub record System : Type 0 where
  pub flag : Bool
  pub thread : ℕ → Place

-- `compare_exchange_weak` may also fail when the flag is false; then the thread goes on spinning. The
-- guard that does not block only reads the flag.
pub data Step (s : System) : System → Type 0 where
  enter : (i : ℕ) → s.thread i ≡ outside → Step s (record s { thread = update s.thread i spinning })
  win :
      (i : ℕ)
      → s.thread i ≡ spinning
      → s.flag ≡ false
      → Step s (record s { flag = true; thread = update s.thread i inside })
  fail : (i : ℕ) → s.thread i ≡ spinning → Step s s
  leave :
      (i : ℕ)
      → s.thread i ≡ inside
      → Step s (record s { flag = false; thread = update s.thread i outside })
  glance : (i : ℕ) → Step s s

abbrev pub start : System
start = record { flag = false; thread = λ _. outside }

pub data Reach : System → Type 0 where
  here : Reach start
  next : {s t : System} → Reach s → Step s t → Reach t
