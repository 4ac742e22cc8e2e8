-- ===== src/SpinLock/Tests.antt =====
-- Two threads at the lock, one of them inside, and the theorem at this state.
use fk_prof.Prelude.{refl, true, update}
use fk_prof.SpinLock.{outside, spinning, inside, System, enter, win, Reach, here, next}
use fk_prof.SpinLock.Exclusion.{Held, exclusion}

abbrev contended : System
contended = record {
  flag = true;
  thread = update (update (update (λ _. outside) 1 spinning) 2 spinning) 1 inside;
}

contended-Reach : Reach contended
contended-Reach = next (next (next here (enter 1 refl)) (enter 2 refl)) (win 1 refl refl)

exclusion_example : Held contended
exclusion_example = exclusion contended-Reach
