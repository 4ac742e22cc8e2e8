-- ===== src/SignalHandler.antt =====
-- SignalHandler (recorder/src/main/cpp/signal_handler.h and .cpp): which interval the profiling timer
-- runs at. The bounds of the intervals are positive, as Profiler's setter leaves them.
pub mod Timing
mod Tests
use fk_prof.Prelude.{ℕ, ◌+◌, ◌-◌, ◌/◌, ◌%◌, Bool, true, false, if◌then◌else◌}
use fk_prof.Prelude.Int.{ℤ, pos, negsuc, eqb_ℤ}

-- `NUMBER_OF_INTERVALS`
abbrev pub number_of_intervals : ℕ
number_of_intervals = 1024

-- The array `timingIntervals` is a function from the index.
pub record SignalHandler : Type 0 where
  pub interval_index : ℕ
  pub timing_intervals : ℕ → ℕ
  pub current_interval : ℤ

-- `itimerval`, whose `it_value` and `it_interval` are the same here: what the system has been told.
pub record Timer : Type 0 where
  pub tv_sec : ℕ
  pub tv_usec : ℕ

-- The constructor; `rand i` is what the i-th call of `rand()` returns.
unfoldable pub init : (ℕ → ℕ) → ℕ → ℕ → SignalHandler
init rand sampling_interval_min sampling_interval_max =
    let range = sampling_interval_max - sampling_interval_min + 1 in
    record {
      interval_index = 0;
      timing_intervals = λ i. sampling_interval_min + rand i % range;
      current_interval = negsuc 0;
    }

-- `accepted` says whether `setitimer` succeeds, if it is called.
unfoldable pub set_interval :
    (accepted : Bool) → ℕ → SignalHandler → Timer → Bool × SignalHandler × Timer
set_interval accepted timing_interval h timer =
    if eqb_ℤ (pos timing_interval) h.current_interval
    then (true, h, timer)
    else if accepted
    then (
      true,
      record h { current_interval = pos timing_interval },
      record { tv_sec = timing_interval / 1000000; tv_usec = timing_interval % 1000000 },
    )
    else (false, h, timer)

unfoldable pub update_sigprof_interval :
    (accepted : Bool) → SignalHandler → Timer → Bool × SignalHandler × Timer
unfolding set_interval
update_sigprof_interval accepted h timer =
    let (res, h', timer') = set_interval accepted (h.timing_intervals h.interval_index) h timer in
    (res, record h' { interval_index = (h'.interval_index + 1) % number_of_intervals }, timer')

unfoldable pub stop_sigprof :
    (accepted : Bool) → SignalHandler → Timer → Bool × SignalHandler × Timer
unfolding set_interval
stop_sigprof accepted h timer = set_interval accepted 0 h timer
