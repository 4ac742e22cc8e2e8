-- ===== src/Processor/Tests.antt =====
-- A run of the thread with one trace, and one that comes too late, until the flag is cleared, and the theorems at it.
use fk_prof.Prelude.{
  ◌*◌, ◌≤◌, ◌≡◌, refl, true, false, some, List, [], ◌∷◌, ◌++◌, map, length, arith,
}
use fk_prof.Prelude.Int.{pos}
use fk_prof.Queue.{
  CallTrace, Item, init, advance, push, pop, write, set_info, set_committed, clean_slot,
  copy_frames, clear_frames,
}
use fk_prof.Queue.Refine.Represents.{Represents}
use fk_prof.SignalHandler.{SignalHandler, Timer, set_interval, stop_sigprof}
use fk_prof.SignalHandler.Timing.{period, Told, init-Told}
use fk_prof.Processor.{Moment, arrive, run, rest_of_round, leave}
use fk_prof.Processor.Steps.{trimmed}
use fk_prof.Processor.Run.{EachFit, late_ones, fresh, logged_in_order, ends_clean}

abbrev trace_2 : CallTrace
trace_2 = record {
  env_id = 5;
  num_frames = pos 1;
  frames = record { lineno = pos 10; method_id = 1 } ∷ [];
}

abbrev busy : Moment
busy = record {
  arrivals = (trace_2, some 7) ∷ [];
  is_running = true;
  accepted = true;
  can_stop = true;
  late = [];
}

abbrev last : Moment
last = record {
  arrivals = [];
  is_running = false;
  accepted = true;
  can_stop = true;
  late = (trace_2, some 8) ∷ [];
}

abbrev script : List Moment
script = busy ∷ last ∷ []

abbrev handler : SignalHandler
handler = fk_prof.SignalHandler.init (λ i. i) 12 40

abbrev off : Timer
off = record { tv_sec = 0; tv_usec = 0 }

script-Fit : EachFit 4 script
script-Fit = (((omega arith, tt), tt), refl, ((tt, (omega arith, tt)), refl, tt))

handler-Told : Told handler off
handler-Told = init-Told (λ i. i) 12 40 off (omega arith)

script_ends : (run script (fresh 4 handler off)).0 ≡ true
unfolding run arrive rest_of_round push pop init advance write set_info set_committed clean_slot
    copy_frames clear_frames
script_ends = refl

-- The late one stays in the queue.
late_test : ((run script (fresh 4 handler off)).1.missed ≡ (trace_2, some 8) ∷ [])
unfolding run arrive rest_of_round leave push pop init advance write set_info set_committed
    clean_slot copy_frames clear_frames
late_test = refl

logged_in_order_example :
    let (ended, p) = run script (fresh 4 handler off) in
    (items : List Item) × Represents p.buffer items
    × (p.logged ++ items ≡ map trimmed p.taken)
    × (201 * p.updates ≤ length p.logged)
logged_in_order_example = logged_in_order 4 script handler off script-Fit handler-Told

ends_clean_example :
    let (ended, p) = run script (fresh 4 handler off) in
    (p.logged ++ map trimmed p.missed ≡ map trimmed p.taken)
    × Represents p.buffer (map trimmed p.missed)
    × (length p.missed ≤ late_ones script)
    × (period p.timer ≡ 0)
ends_clean_example = ends_clean 4 script handler off script-Fit handler-Told script_ends
