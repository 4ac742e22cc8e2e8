-- ===== src/Gc/Defs.antt =====
-- The fields and methods of `map::GC`. Each method holds the mutex, or is one read and one update of
-- an atomic (`ss_safepoint`), and is one step here.
use fk_prof.Prelude.{ℕ, ◌-◌, List, [], ◌∷◌, ◌++◌, ltb, ◌==◌, if◌then◌else◌}
use fk_prof.Prelude.Word.{u32_mod, inc32, dec32}
use mathlib.Core.List.{reverse}

-- Garbage is a list of table pointers, newest last. `deleted` is not a field of the program: it
-- lists the pointers that `delete` has been called on. Integers are 32-bit patterns.
pub record Gc : Type 0 where
  pub total_threads : ℕ
  pub global_epoch : ℕ
  pub remaining : ℕ
  pub recent_garbage : List ℕ
  pub old_garbage : List ℕ
  pub deleted : List ℕ

-- `kEpochInitial`, -1 as an `unsigned int`.
abbrev pub epoch_initial : ℕ
epoch_initial = u32_mod - 1

unfoldable pub init : Gc
init = record {
  total_threads = 0;
  global_epoch = 1;
  remaining = 0;
  recent_garbage = [];
  old_garbage = [];
  deleted = [];
}

-- The tables in `oldGarbage` are deleted from the back.
unfoldable pub new_epoch : Gc → Gc
new_epoch g = record g {
  deleted = g.deleted ++ reverse g.old_garbage;
  global_epoch = inc32 g.global_epoch;
  remaining = g.total_threads;
  old_garbage = g.recent_garbage;
  recent_garbage = [];
}

-- `if (rem == 0) newEpoch();` where `rem` is the value left in `remaining`.
unfoldable pub close_epoch : Gc → Gc
close_epoch g = if g.remaining == 0 then new_epoch g else g

-- The result is the thread's first local epoch, one behind.
unfoldable pub attach_thread : Gc → ℕ × Gc
attach_thread g = (
  dec32 g.global_epoch,
  record g { total_threads = inc32 g.total_threads; remaining = inc32 g.remaining },
)

-- The result is the new local epoch of the caller.
unfoldable pub detach_thread : ℕ → Gc → ℕ × Gc
unfolding close_epoch
detach_thread local_epoch g = (
  epoch_initial,
  close_epoch (
      if ltb local_epoch g.global_epoch
      then record g { total_threads = dec32 g.total_threads; remaining = dec32 g.remaining }
      else record g { total_threads = dec32 g.total_threads }),
)

unfoldable pub safepoint : ℕ → Gc → ℕ × Gc
unfolding close_epoch
safepoint local_epoch g =
    if ltb local_epoch g.global_epoch
    then (g.global_epoch, close_epoch (record g { remaining = dec32 g.remaining }))
    else (local_epoch, close_epoch g)

-- The reader in the signal handler: it never closes an epoch.
unfoldable pub ss_safepoint : ℕ → Gc → ℕ × Gc
ss_safepoint local_epoch g =
    if ltb local_epoch g.global_epoch
    then (g.global_epoch, record g { remaining = dec32 g.remaining })
    else (local_epoch, g)

unfoldable pub schedule_delete : ℕ → Gc → Gc
schedule_delete table g = record g { recent_garbage = g.recent_garbage ++ (table ∷ []) }

-- The destructor: all garbage is moved to `oldGarbage` and one epoch closed.
unfoldable pub destroy : Gc → Gc
unfolding new_epoch
destroy g =
    new_epoch (record g { old_garbage = g.old_garbage ++ g.recent_garbage; recent_garbage = [] })

-- `GCHelper::detach`: a thread that never attached, or has detached, is left alone.
unfoldable pub helper_detach : ℕ → Gc → ℕ × Gc
unfolding detach_thread
helper_detach local_epoch g =
    if local_epoch == epoch_initial then (local_epoch, g) else detach_thread local_epoch g
