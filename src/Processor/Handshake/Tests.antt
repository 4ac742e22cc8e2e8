-- ===== src/Processor/Handshake/Tests.antt =====
-- Runs of start and stop (recorder/src/main/cpp/processor.cpp), with and without a thread, and the theorems
-- at them.
use fk_prof.Prelude.{◌≡◌, ◌∙◌, refl, sym, ap, true, false}
use fk_prof.Processor.Handshake.{
  idle, spinning, System, store_running, mark, thread_runs, thread_refused, store_stopped, returns,
  told, ends, built, Reach, here, next,
}
use fk_prof.Processor.Handshake.Joined.{stop_joins, refused_stays}

-- Stop waits for a thread.
abbrev stopping : System
stopping = record {
  is_running = false;
  worker_done = true;
  looping = 1;
  leaving = 0;
  caller = spinning;
}

stopping-Reach : Reach (built false) stopping
stopping-Reach =
    next (next (next (next here (store_running refl refl)) (mark refl)) (thread_runs refl))
      (store_stopped refl refl)

abbrev stopped : System
stopped = record stopping { looping = 0; caller = idle }

stopped-Reach : Reach (built false) stopped
stopped-Reach =
    next (next (next stopping-Reach (told 0 refl refl)) (ends 0 refl)) (returns refl refl)

stop_joins_example : (stopped.looping ≡ 0) × (stopped.leaving ≡ 0)
stop_joins_example = stop_joins stopped-Reach refl refl

-- RunAgentThread has failed, and stop waits.
abbrev waiting_for_none : System
waiting_for_none = record stopping { looping = 0 }

waiting_for_none-Reach : Reach (built false) waiting_for_none
waiting_for_none-Reach =
    next (next (next (next here (store_running refl refl)) (mark refl)) (thread_refused refl))
      (store_stopped refl refl)

waiting_for_none_stays : {s : System} → Reach waiting_for_none s → waiting_for_none ≡ s
waiting_for_none_stays here = refl
waiting_for_none_stays (next r st) =
    let same = waiting_for_none_stays r in
    same
    ∙ refused_stays (ap (λ s. s.caller) (sym same)) (ap (λ s. s.looping) (sym same))
        (ap (λ s. s.leaving) (sym same)) (ap (λ s. s.worker_done) (sym same)) st
