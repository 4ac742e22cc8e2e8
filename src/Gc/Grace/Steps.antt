-- ===== src/Gc/Grace/Steps.antt =====
-- Every call of a thread keeps the invariant.
use fk_prof.Prelude.{
  ℕ, suc, ◌+◌, ◌^◌, ◌≤◌, ◌<◌, ◌≡◌, refl, true, false, List, [], ◌∷◌, ◌++◌, arith, length,
  length-append, ltb, ◌==◌, if◌then◌else◌, Bool-cases, ltb→lt, inl, inr,
}
use fk_prof.Prelude.Word.{dec32}
use fk_prof.Gc.{
  Gc, attach_thread, detach_thread, helper_detach, safepoint, ss_safepoint, schedule_delete,
  close_epoch, epoch_initial,
}
use fk_prof.Gc.Count.{
  Thread, lag, behind, behind-append, behind-le-length, Sound, All, All-append, All-split,
}
use fk_prof.Gc.Grace.{System, Step, attach, pass, signal_pass, detach, schedule, after, at_epoch}
use fk_prof.Gc.Grace.Inv.{Inv, Inv-later}

-- One thread among the attached ones is taken out, or put in.
module _ (g : ℕ) (b now : ℕ) (front : List Thread) (t : Thread) (rest : List Thread) where
  taken :
      All (Sound g b now) (front ++ (t ∷ rest))
      → All (Sound g b now) front × Sound g b now t × All (Sound g b now) rest
  taken h = let (l, r) = All-split (Sound g b now) front (t ∷ rest) h in (l, r.0, r.1)

  put :
      All (Sound g b now) front × Sound g b now t × All (Sound g b now) rest
      → All (Sound g b now) (front ++ (t ∷ rest))
  put h = All-append (Sound g b now) front (t ∷ rest) h.0 (h.1, h.2)

  counted :
      (behind g (front ++ (t ∷ rest)) ≡ behind g front + (lag g t + behind g rest))
      × (length (front ++ (t ∷ rest)) ≡ length front + suc (length rest))
  counted = (behind-append g front (t ∷ rest), length-append front (t ∷ rest))

module _ (g : Gc) (now began : ℕ) (front : List Thread) (t : Thread) (rest : List Thread)
    (inv : Inv g (front ++ (t ∷ rest)) now began) (room : now + 2 < 2 ^ 32) where
  sound3 :
      All (Sound g.global_epoch began now) front
      × Sound g.global_epoch began now t
      × All (Sound g.global_epoch began now) rest
  sound3 = taken g.global_epoch began now front t rest inv.sound

  abbrev current : ℕ → Thread
  current e = record { local_epoch = e; passed = now }

  old_count :
      (behind g.global_epoch (front ++ (t ∷ rest))
        ≡ behind g.global_epoch front + (lag g.global_epoch t + behind g.global_epoch rest))
      × (length (front ++ (t ∷ rest)) ≡ length front + suc (length rest))
  old_count = counted g.global_epoch began now front t rest

  new_count :
      (e : ℕ)
      → (behind g.global_epoch (front ++ (current e ∷ rest))
          ≡ behind g.global_epoch front
            + (lag g.global_epoch (current e) + behind g.global_epoch rest))
        × (length (front ++ (current e ∷ rest)) ≡ length front + suc (length rest))
  new_count e = counted g.global_epoch began now front (current e) rest

  few_behind : behind g.global_epoch (front ++ (t ∷ rest)) ≤ now
  few_behind = omega (arith, behind-le-length g.global_epoch (front ++ (t ∷ rest)), inv.few)

  -- The thread comes up to the current epoch.
  caught_up-Inv :
      t.local_epoch < g.global_epoch
      → Inv
          (record g { remaining = dec32 g.remaining })
          (front ++ (current g.global_epoch ∷ rest))
          now
          began
  caught_up-Inv lt = record {
    total = omega (arith, inv.total, old_count, new_count g.global_epoch);
    rem = ground (arith, inv.rem, few_behind, old_count, new_count g.global_epoch);
    sound =
        put g.global_epoch began now front _ rest (sound3.0, omega (arith, inv.begun), sound3.2);
    positive = inv.positive;
    epochs = inv.epochs;
    few = omega (arith, inv.few, old_count, new_count g.global_epoch);
    begun = inv.begun;
    old = inv.old;
    recent = inv.recent;
  }

  -- The thread was there already, and has passed once more.
  again-Inv :
      ltb t.local_epoch g.global_epoch ≡ false
      → Inv g (front ++ (current t.local_epoch ∷ rest)) now began
  again-Inv ge = record {
    total = omega (arith, inv.total, old_count, new_count t.local_epoch);
    rem = ground (arith, inv.rem, old_count, new_count t.local_epoch);
    sound =
        put g.global_epoch began now front _ rest
          (sound3.0, ground (arith, inv.begun, sound3.1), sound3.2);
    positive = inv.positive;
    epochs = inv.epochs;
    few = omega (arith, inv.few, old_count, new_count t.local_epoch);
    begun = inv.begun;
    old = inv.old;
    recent = inv.recent;
  }

  -- The thread is gone.
  abbrev left : Gc
  left =
      if ltb t.local_epoch g.global_epoch
      then record g { total_threads = dec32 g.total_threads; remaining = dec32 g.remaining }
      else record g { total_threads = dec32 g.total_threads }

  gone-Inv : Inv left (front ++ rest) now began
  gone-Inv = elim (Bool-cases (ltb t.local_epoch g.global_epoch)) [
    | inl lt ↦
        rw lt
          (gone (dec32 g.remaining) (ground (arith, inv.rem, few_behind, old_count, gone_count)))
    | inr ge ↦ rw ge (gone g.remaining (ground (arith, inv.rem, old_count, gone_count)))
  ]
    where
      gone_count :
          (behind g.global_epoch (front ++ rest)
            ≡ behind g.global_epoch front + behind g.global_epoch rest)
          × (length (front ++ rest) ≡ length front + length rest)
      gone_count = (behind-append g.global_epoch front rest, length-append front rest)

      gone :
          (r : ℕ)
          → r ≡ behind g.global_epoch (front ++ rest)
          → Inv
              (record g { total_threads = dec32 g.total_threads; remaining = r })
              (front ++ rest)
              now
              began
      gone r e = record {
        total = omega (arith, inv.total, inv.few, old_count, gone_count);
        rem = e;
        sound = All-append (Sound g.global_epoch began now) front rest sound3.0 sound3.2;
        positive = inv.positive;
        epochs = inv.epochs;
        few = omega (arith, inv.few, old_count, gone_count);
        begun = inv.begun;
        old = inv.old;
        recent = inv.recent;
      }

abbrev pub Held : System → Type 0
Held s = Inv s.gc s.threads s.clock s.began

-- What a call does: it ends in `close_epoch`, on a sound state, or it deletes nothing and starts no
-- epoch.
pub data Effect (s : System) (g : Gc) (ts : List Thread) : Type 0 where
  closing :
      (mid : Gc)
      → g ≡ close_epoch mid
      → Inv mid ts s.clock s.began
      → mid.deleted ≡ s.gc.deleted
      → mid.global_epoch ≡ s.gc.global_epoch
      → Effect s g ts
  still :
      Inv g ts (s.clock + 1) s.began
      → g.deleted ≡ s.gc.deleted
      → g.global_epoch ≡ s.gc.global_epoch
      → Effect s g ts

attach-Effect :
    (s : System)
    → Held s
    → s.clock + 2 < 2 ^ 32
    → Effect s (attach_thread s.gc).1 (at_epoch s (attach_thread s.gc).0 ∷ s.threads)
unfolding attach_thread
attach-Effect s inv room =
    let later = Inv-later inv in
    still
      (record {
        total = omega (arith, inv.total, inv.few);
        rem = ground (
          arith,
          inv.rem,
          inv.few,
          inv.epochs,
          inv.positive,
          behind-le-length s.gc.global_epoch s.threads,
        );
        sound = (omega (arith, inv.epochs, inv.positive, inv.begun), later.sound);
        positive = later.positive;
        epochs = later.epochs;
        few = omega (arith, inv.few);
        begun = later.begun;
        old = later.old;
        recent = later.recent;
      })
      refl refl

schedule-Effect : (s : System) → Held s → Effect s (schedule_delete s.clock s.gc) s.threads
unfolding schedule_delete
schedule-Effect s inv =
    let later = Inv-later inv in
    still
      (record {
        total = later.total;
        rem = later.rem;
        sound = later.sound;
        positive = later.positive;
        epochs = later.epochs;
        few = later.few;
        begun = later.begun;
        old = later.old;
        recent =
            All-append (λ d. d < s.clock + 1) s.gc.recent_garbage (s.clock ∷ []) later.recent
              (omega arith, tt);
      })
      refl refl

module _ (s : System) (front : List Thread) (t : Thread) (rest : List Thread)
    (e : s.threads ≡ front ++ (t ∷ rest)) (h : Held s) (room : s.clock + 2 < 2 ^ 32) where
  inv : Inv s.gc (front ++ (t ∷ rest)) s.clock s.began
  inv = rw (← e) h

  up :
      ltb t.local_epoch s.gc.global_epoch ≡ true
      → Inv
          (record s.gc { remaining = dec32 s.gc.remaining })
          (front ++ (at_epoch s s.gc.global_epoch ∷ rest))
          s.clock
          s.began
  up lt = caught_up-Inv s.gc s.clock s.began front t rest inv room (ltb→lt _ _ lt)

  same :
      ltb t.local_epoch s.gc.global_epoch ≡ false
      → Inv s.gc (front ++ (at_epoch s t.local_epoch ∷ rest)) s.clock s.began
  same ge = again-Inv s.gc s.clock s.began front t rest inv room ge

  pass-Effect :
      Effect s
        (safepoint t.local_epoch s.gc).1
        (front ++ (at_epoch s (safepoint t.local_epoch s.gc).0 ∷ rest))
  unfolding safepoint
  pass-Effect = elim (Bool-cases (ltb t.local_epoch s.gc.global_epoch)) [
    | inl lt ↦ rw lt (closing _ refl (up lt) refl refl)
    | inr ge ↦ rw ge (closing s.gc refl (same ge) refl refl)
  ]

  signal_pass-Effect :
      Effect s
        (ss_safepoint t.local_epoch s.gc).1
        (front ++ (at_epoch s (ss_safepoint t.local_epoch s.gc).0 ∷ rest))
  unfolding ss_safepoint
  signal_pass-Effect = elim (Bool-cases (ltb t.local_epoch s.gc.global_epoch)) [
    | inl lt ↦ rw lt (still (Inv-later (up lt)) refl refl)
    | inr ge ↦ rw ge (still (Inv-later (same ge)) refl refl)
  ]

  attached : (t.local_epoch == epoch_initial) ≡ false
  attached =
      let b = (taken s.gc.global_epoch s.began s.clock front t rest inv.sound).1 in
      ground (arith, b.0, inv.epochs)

  detach-Effect : Effect s (helper_detach t.local_epoch s.gc).1 (front ++ rest)
  unfolding helper_detach detach_thread
  detach-Effect = rw attached (
      closing _ refl (gone-Inv s.gc s.clock s.began front t rest inv room) (ground arith)
        (ground arith))

pub Step-Effect :
    {s t : System}
    → Step s t
    → Held s
    → s.clock + 2 < 2 ^ 32
    → (t ≡ after s t.gc t.threads) × Effect s t.gc t.threads
Step-Effect {s} attach h room = (refl, attach-Effect s h room)
Step-Effect {s} (pass front t rest e) h room = (refl, pass-Effect s front t rest e h room)
Step-Effect {s} (signal_pass front t rest e) h room =
    (refl, signal_pass-Effect s front t rest e h room)
Step-Effect {s} (detach front t rest e) h room = (refl, detach-Effect s front t rest e h room)
Step-Effect {s} schedule h room = (refl, schedule-Effect s h)
