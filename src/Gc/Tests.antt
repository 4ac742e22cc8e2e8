-- ===== src/Gc/Tests.antt =====
-- Runs of the collector, and the theorems at one of them: one thread attaches, gives up a table and
-- passes two safepoints, after the second of which the table is deleted.
use fk_prof.Prelude.{ℕ, ◌+◌, ◌≤◌, ◌≡◌, refl, List, [], ◌∷◌, ◌++◌, arith, length}
use fk_prof.Gc.{
  init, attach_thread, safepoint, schedule_delete, destroy, helper_detach, epoch_initial,
  close_epoch, new_epoch,
}
use fk_prof.Gc.Count.{behind, All}
use fk_prof.Gc.Grace.{System, Step, attach, pass, schedule, Reach, here, next}
use fk_prof.Gc.Grace.Safety.{PassedSince, grace, remaining_counts}

abbrev Waiting : Type 0
Waiting = (s : System) × Reach s

-- The table is given up at moment 1, and a first epoch has ended since.
waiting : Waiting
unfolding init attach_thread safepoint close_epoch new_epoch schedule_delete
waiting = (_, next (next (next here attach) schedule) (pass [] _ [] refl))

waiting_garbage : waiting.0.gc.old_garbage ≡ 1 ∷ []
unfolding waiting
waiting_garbage = refl

waiting_threads : waiting.0.threads ≡ record { local_epoch = 1; passed = 2 } ∷ []
unfolding waiting
waiting_threads = refl

waiting_room : waiting.0.clock ≡ 3
unfolding waiting
waiting_room = refl

abbrev Ended : Type 0
Ended = (t : System) × Step waiting.0 t

ended : Ended
unfolding waiting safepoint close_epoch new_epoch
ended = (_, pass [] _ [] waiting_threads)

ended_deleted : ended.0.gc.deleted ≡ 1 ∷ []
unfolding ended
ended_deleted = refl

grace_example :
    (ds : List ℕ) × (ended.0.gc.deleted ≡ waiting.0.gc.deleted ++ ds)
    × All (PassedSince ended.0.threads) ds
grace_example = grace waiting.1 ended.1 (omega (arith, waiting_room))

remaining_counts_example :
    (waiting.0.gc.remaining ≡ behind waiting.0.gc.global_epoch waiting.0.threads)
    × (waiting.0.gc.total_threads ≡ length waiting.0.threads)
    × All
        (λ t.
          (t.local_epoch ≤ waiting.0.gc.global_epoch)
          × (waiting.0.gc.global_epoch ≤ t.local_epoch + 1))
        waiting.0.threads
remaining_counts_example = remaining_counts waiting.1 (omega (arith, waiting_room))

-- A thread that never attached detaches without effect.
detach_twice : helper_detach epoch_initial init ≡ (epoch_initial, init)
unfolding helper_detach init
detach_twice = refl

destroy_all : (destroy (schedule_delete 7 init)).deleted ≡ 7 ∷ []
unfolding destroy schedule_delete init
destroy_all = refl
