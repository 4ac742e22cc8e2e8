-- ===== src/Gc/Grace/Inv.antt =====
-- The invariant of the epochs, and that closing an epoch keeps it.
use fk_prof.Prelude.{
  ℕ, suc, ◌+◌, ◌^◌, ◌≤◌, ◌<◌, ◌≡◌, ◌≢◌, refl, ◌∙◌, List, [], arith, length, ◌==◌, if◌then◌else◌,
  false, ==_iff, sym, ℕ_discrete,
}
use fk_prof.Prelude.Word.{inc32}
use fk_prof.Gc.{Gc, init, new_epoch, close_epoch}
use fk_prof.Gc.Count.{Thread, behind, Sound, All, All-map, at_current, behind-suc}

pub record Inv (g : Gc) (ts : List Thread) (now began : ℕ) : Type 0 where
  pub total : g.total_threads ≡ length ts
  pub rem : g.remaining ≡ behind g.global_epoch ts
  pub sound : All (Sound g.global_epoch began now) ts
  pub positive : 0 < g.global_epoch
  pub epochs : g.global_epoch ≤ now + 1
  pub few : length ts ≤ now
  pub begun : began ≤ now
  pub old : All (λ d. d < began) g.old_garbage
  pub recent : All (λ d. d < now) g.recent_garbage

pub init-Inv : Inv init [] 0 0
unfolding init
init-Inv = omega arith

pub Inv-later :
    {g : Gc} {ts : List Thread} {now began : ℕ} → Inv g ts now began → Inv g ts (now + 1) began
Inv-later {g} {ts} {now} {began} inv = record {
  total = inv.total;
  rem = inv.rem;
  sound =
      All-map (Sound g.global_epoch began now) (Sound g.global_epoch began (now + 1)) ts
        (λ t h. omega (arith, h)) inv.sound;
  positive = inv.positive;
  epochs = omega (arith, inv.epochs);
  few = omega (arith, inv.few);
  begun = omega (arith, inv.begun);
  old = inv.old;
  recent =
      All-map (λ d. d < now) (λ d. d < now + 1) g.recent_garbage (λ d h. omega arith) inv.recent;
}

-- The moment at which the epoch of the second collector began.
abbrev pub began_of : Gc → Gc → ℕ → ℕ → ℕ
began_of g g' now began = if g'.global_epoch == g.global_epoch then began else now

module _ (g : Gc) (ts : List Thread) (now began : ℕ) (inv : Inv g ts now began)
    (room : now + 2 < 2 ^ 32) where
  epoch_suc : inc32 g.global_epoch ≡ suc g.global_epoch
  epoch_suc = omega (arith, inv.epochs)

  new_epoch-Inv : g.remaining ≡ 0 → Inv (new_epoch g) ts (now + 1) now
  unfolding new_epoch
  new_epoch-Inv e = record {
    total = inv.total;
    rem = inv.total ∙ sym (rw epoch_suc (behind-suc g.global_epoch began now ts inv.sound));
    sound = rw epoch_suc (sound_next (sym inv.rem ∙ e));
    positive = omega (arith, epoch_suc);
    epochs = omega (arith, inv.epochs, epoch_suc);
    few = omega (arith, inv.few);
    begun = omega arith;
    old = inv.recent;
    recent = tt;
  }
    where
      sound_next : behind g.global_epoch ts ≡ 0 → All (Sound (suc g.global_epoch) now (now + 1)) ts
      sound_next none_behind =
          All-map (λ t. (t.local_epoch ≡ g.global_epoch) × (t.passed ≤ now))
            (Sound (suc g.global_epoch) now (now + 1)) ts (λ t h. ground arith)
            (at_current g.global_epoch began now ts none_behind inv.sound)

  -- What `close_epoch` leaves is sound at the next moment.
  pub close_epoch-Inv : Inv (close_epoch g) ts (now + 1) (began_of g (close_epoch g) now began)
  unfolding close_epoch new_epoch
  close_epoch-Inv = elim (ℕ_discrete g.remaining 0) [
    | yes e ↦ rw ((==_iff _ _).1 e, moved) (new_epoch-Inv e)
    | no ne ↦ rw (stays ne, (==_iff _ _).1 refl) (Inv-later inv)
  ]
    where
      moved : (inc32 g.global_epoch == g.global_epoch) ≡ false
      moved = ground (arith, epoch_suc)

      stays : g.remaining ≢ 0 → (g.remaining == 0) ≡ false
      stays ne = ground arith
