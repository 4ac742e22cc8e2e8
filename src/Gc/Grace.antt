-- ===== src/Gc/Grace.antt =====
-- The grace period: attached threads, their calls in any order, and what is deleted when.
mod Inv
mod Steps
pub mod Safety
use fk_prof.Prelude.{ℕ, ◌+◌, ◌≡◌, List, [], ◌∷◌, ◌++◌, ◌==◌, if◌then◌else◌}
use fk_prof.Gc.{Gc, init, attach_thread, helper_detach, safepoint, ss_safepoint, schedule_delete}
use fk_prof.Gc.Count.{Thread}

-- The moments are counted by `clock`; `began` is the moment when the current epoch began. A table is
-- named by the moment at which it is handed to `scheduleDelete`.
pub record System : Type 0 where
  pub gc : Gc
  pub threads : List Thread
  pub clock : ℕ
  pub began : ℕ

abbrev pub after : System → Gc → List Thread → System
after s g ts = record {
  gc = g;
  threads = ts;
  clock = s.clock + 1;
  began = if g.global_epoch == s.gc.global_epoch then s.began else s.clock;
}

abbrev pub at_epoch : System → ℕ → Thread
at_epoch s e = record { local_epoch = e; passed = s.clock }

-- One call of one thread. Readers take `signal_pass`, from the signal handler of the thread.
pub data Step (s : System) : System → Type 0 where
  attach : Step s (after s (attach_thread s.gc).1 (at_epoch s (attach_thread s.gc).0 ∷ s.threads))
  pass :
      (front : List Thread) (t : Thread) (rest : List Thread)
      → s.threads ≡ front ++ (t ∷ rest)
      → Step s (
          after s
            (safepoint t.local_epoch s.gc).1
            (front ++ (at_epoch s (safepoint t.local_epoch s.gc).0 ∷ rest)))
  signal_pass :
      (front : List Thread) (t : Thread) (rest : List Thread)
      → s.threads ≡ front ++ (t ∷ rest)
      → Step s (
          after s
            (ss_safepoint t.local_epoch s.gc).1
            (front ++ (at_epoch s (ss_safepoint t.local_epoch s.gc).0 ∷ rest)))
  detach :
      (front : List Thread) (t : Thread) (rest : List Thread)
      → s.threads ≡ front ++ (t ∷ rest)
      → Step s (after s (helper_detach t.local_epoch s.gc).1 (front ++ rest))
  schedule : Step s (after s (schedule_delete s.clock s.gc) s.threads)

abbrev pub start : System
start = record { gc = init; threads = []; clock = 0; began = 0 }

pub data Reach : System → Type 0 where
  here : Reach start
  next : {s t : System} → Reach s → Step s t → Reach t
