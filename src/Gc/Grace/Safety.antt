-- ===== src/Gc/Grace/Safety.antt =====
-- What the epochs promise to readers: no table is deleted under an attached thread that has not
-- passed a safepoint since the table was given up.
use fk_prof.Prelude.{
  ℕ, ◌+◌, ◌^◌, ◌≤◌, ◌<◌, ◌≡◌, refl, ◌∙◌, sym, ap, List, [], ◌∷◌, ◌++◌, arith, length, ==_iff,
  ℕ_discrete,
}
use mathlib.Core.Path.{subst}
use mathlib.Core.List.{reverse, reverse-cons, append-nil}
use fk_prof.Gc.{Gc, new_epoch, close_epoch}
use fk_prof.Gc.Count.{Thread, behind, All, All-append, All-map, caught_up}
use fk_prof.Gc.Grace.{System, Step, attach, after, Reach, here, next}
use fk_prof.Gc.Grace.Inv.{Inv, init-Inv, close_epoch-Inv}
use fk_prof.Gc.Grace.Steps.{Held, Effect, closing, still, Step-Effect}

All-reverse {ℓ} : {A : Type 0} (P : A → Type ℓ) (xs : List A) → All P xs → All P (reverse xs)
All-reverse P [] h = tt
All-reverse P (x ∷ xs) h =
    rw (reverse-cons x xs) (All-append P (reverse xs) (x ∷ []) (All-reverse P xs h.1) (h.0, tt))

-- Every thread of the list has passed a safepoint after moment d.
abbrev pub PassedSince : List Thread → ℕ → Type 0
PassedSince ts d = All (λ t. d < t.passed) ts

close_epoch-deleted :
    (g : Gc) (ts : List Thread) (now began : ℕ)
    → Inv g ts now began
    → (ds : List ℕ) × ((close_epoch g).deleted ≡ g.deleted ++ ds) × All (PassedSince ts) ds
unfolding close_epoch new_epoch
close_epoch-deleted g ts now began inv = elim (ℕ_discrete g.remaining 0) [
  | yes e ↦ (
    reverse g.old_garbage,
    rw ((==_iff _ _).1 e),
    All-reverse (PassedSince ts) g.old_garbage (late e),
  )
  | no ne ↦ ([], ground (arith, append-nil g.deleted), tt)
]
  where
    late : g.remaining ≡ 0 → All (PassedSince ts) g.old_garbage
    late e =
        All-map (λ d. d < began) (PassedSince ts) g.old_garbage
          (λ d lt.
            All-map (λ t. began ≤ t.passed) (λ t. d < t.passed) ts (λ t le. omega arith)
              (caught_up g.global_epoch began now ts (sym inv.rem ∙ e) inv.sound))
          inv.old

Effect-Held :
    (s : System) (g : Gc) (ts : List Thread)
    → Effect s g ts
    → s.clock + 2 < 2 ^ 32
    → Held (after s g ts)
Effect-Held s g ts (closing mid e inv same ep) room =
    rw (e, ← ep) (close_epoch-Inv mid ts s.clock s.began inv room)
Effect-Held s g ts (still inv same ep) room = rw ((==_iff _ _).1 ep) inv

Step-Held : {s t : System} → Step s t → Held s → s.clock + 2 < 2 ^ 32 → Held t
Step-Held {s} {t} st h room =
    let (e, eff) = Step-Effect st h room in
    subst Held (sym e) (Effect-Held s t.gc t.threads eff room)

clock-Step : {s t : System} → Step s t → t.clock ≡ s.clock + 1
clock-Step attach = refl
clock-Step st = refl

pub Reach-Held : {s : System} → Reach s → s.clock + 1 < 2 ^ 32 → Held s
Reach-Held here room = init-Inv
Reach-Held (next r st) room =
    Step-Held st (Reach-Held r (omega (arith, clock-Step st))) (omega (arith, clock-Step st))

-- In every state that fewer than 2 ^ 32 - 2 calls reach, `remaining` is the number of attached
-- threads whose local epoch is behind the global one, `totalThreads` is the number of attached
-- threads, and no thread is more than one epoch behind.
pub remaining_counts :
    {s : System}
    → Reach s
    → s.clock + 1 < 2 ^ 32
    → (s.gc.remaining ≡ behind s.gc.global_epoch s.threads)
      × (s.gc.total_threads ≡ length s.threads)
      × All
          (λ t. (t.local_epoch ≤ s.gc.global_epoch) × (s.gc.global_epoch ≤ t.local_epoch + 1))
          s.threads
remaining_counts {s} r room =
    let h = Reach-Held r room in (h.rem, h.total, All-map _ _ s.threads (λ t b. (b.0, b.1)) h.sound)

-- What a call deletes, in a run of fewer than 2 ^ 32 - 2 calls: every table that it deletes was
-- handed to `scheduleDelete` before the last safepoint, or the attachment, of every thread that is
-- attached after the call.
pub grace :
    {s t : System}
    → Reach s
    → Step s t
    → s.clock + 2 < 2 ^ 32
    → (ds : List ℕ) × (t.gc.deleted ≡ s.gc.deleted ++ ds) × All (PassedSince t.threads) ds
grace {s} {t} r st room = elim (Step-Effect st (Reach-Held r (omega arith)) room).1 [
  | closing mid e inv same ep ↦
      let (ds, d, h) = close_epoch-deleted mid t.threads s.clock s.began inv in
      (ds, ap (λ (g : Gc). g.deleted) e ∙ d ∙ ap (λ l. l ++ ds) same, h)
  | still inv same ep ↦ ([], same ∙ sym (append-nil s.gc.deleted), tt)
]
