-- ===== src/Processor/Run.antt =====
-- Whatever is pushed meanwhile, the thread of Processor::run (recorder/src/main/cpp/processor.cpp)
-- passes on what was pushed, in order.
use fk_prof.Prelude.{
  ℕ, ◌+◌, ◌*◌, ◌≤◌, ◌≡◌, refl, sym, ap, ◌∙◌, Bool, true, List, [], ◌∷◌, ◌++◌, map, length, arith,
}
use fk_prof.Queue.{Item, init}
use fk_prof.Queue.Limit.{init-max_frames}
use fk_prof.Queue.Fifo.{poll}
use fk_prof.Queue.Refine.Represents.{Represents, init-Represents}
use fk_prof.Queue.Refine.{pop_refines}
use fk_prof.SignalHandler.{SignalHandler, Timer}
use fk_prof.SignalHandler.Timing.{period, Told}
use fk_prof.Processor.{Moment, Processor, arrive, took, Outcome, broken, slept, leave, run}
use fk_prof.Processor.Steps.{
  trimmed, AllFit, Inv, took-Inv, count-Inv, emptied-Inv, Fine, rest_of_round-Fine, leave-Missed,
}

-- Every trace that arrives fits in a slot, and the system lets the timer be stopped.
abbrev pub EachFit : ℕ → List Moment → Type 0
EachFit n [] = Unit {0}
EachFit n (m ∷ ms) = (AllFit n m.arrivals × AllFit n m.late) × (m.can_stop ≡ true) × EachFit n ms

-- The most that may come too late.
abbrev pub late_ones : List Moment → ℕ
late_ones [] = 0
late_ones (m ∷ ms) = length m.late + late_ones ms

abbrev Reached : ℕ → List Moment → Bool × Processor → Type 0
Reached n ms (ended, p) =
    (items : List Item) × Inv n p items
    × (ended ≡ true
        → (items ≡ map trimmed p.missed) × (length p.missed ≤ late_ones ms) × (period p.timer ≡ 0))

later-Reached :
    (n : ℕ) (m : Moment) (ms : List Moment) (r : Bool × Processor)
    → Reached n ms r
    → Reached n (m ∷ ms) r
later-Reached n m ms r (items, inv, ended) =
    (items, inv, λ e. let (same, few, off) = ended e in (same, omega (arith, few), off))

ending-Reached :
    (n : ℕ) (m : Moment) (ms : List Moment) (o : Outcome)
    → m.can_stop ≡ true
    → AllFit n m.late
    → ((p : Processor) → Inv n p [] → Reached n ms (run ms p))
    → Fine n o
    → Reached n
        (m ∷ ms)
        (elim o [ slept p ↦ run ms p | broken p ↦ (true, leave m.can_stop m.late p) ])
ending-Reached n m ms (slept p) ok fits again h = later-Reached n m ms _ (again p h)
ending-Reached n m ms (broken p) ok fits again h =
    let k = leave-Missed n m.can_stop m.late p ok fits h in
    (_, k.left, λ e. (refl, omega (arith, k.few), k.off))

moment-Reached :
    (n : ℕ) (m : Moment) (ms : List Moment) (p : Processor) (items : List Item)
    → m.can_stop ≡ true
    → AllFit n m.late
    → ((p : Processor) (items : List Item) → Inv n p items → Reached n ms (run ms p))
    → Inv n (took (arrive m.arrivals p.buffer).0 (arrive m.arrivals p.buffer).1 p) items
    → Reached n (m ∷ ms) (run (m ∷ ms) p)
unfolding run poll
moment-Reached n m ms p [] ok fits again inv =
    rw ((pop_refines (arrive m.arrivals p.buffer).1 [] inv.holds).0, run)
      (ending-Reached n m ms _ ok fits (λ p'. again p' [])
        (rest_of_round-Fine n m _ (emptied-Inv n _ inv)))
moment-Reached n m ms p (x ∷ items) ok fits again inv =
    rw ((pop_refines (arrive m.arrivals p.buffer).1 (x ∷ items) inv.holds).0, run)
      (later-Reached n m ms _ (again _ items (count-Inv n _ x items inv)))

run-Reached :
    (n : ℕ) (ms : List Moment) (p : Processor) (items : List Item)
    → Inv n p items
    → EachFit n ms
    → Reached n ms (run ms p)
unfolding run
run-Reached n [] p items inv fits = (items, inv, λ e. absurd (cc))
run-Reached n (m ∷ ms) p items inv fits =
    moment-Reached n m ms p (items ++ map trimmed (arrive m.arrivals p.buffer).0) fits.1 fits.0.1
      (λ p' items' inv'. run-Reached n ms p' items' inv' fits.2)
      (took-Inv n m.arrivals p items inv fits.0.0)

-- A new queue and a new handler, nothing logged yet.
abbrev pub fresh : ℕ → SignalHandler → Timer → Processor
fresh n h t = record {
  buffer = init n;
  handler = h;
  timer = t;
  popped = 0;
  logged = [];
  taken = [];
  missed = [];
  updates = 0;
}

fresh-Inv : (n : ℕ) (h : SignalHandler) (t : Timer) → Told h t → Inv n (fresh n h t) []
fresh-Inv n h t told = record {
  holds = init-Represents n;
  limit = init-max_frames n;
  in_order = refl;
  paced = omega arith;
  told = told;
}

-- Whatever arrives, in every state of the thread: what has been logged is, in order, what `push` has
-- taken, but for the items that are still in the queue; and the interval of the timer changes at
-- most once for 201 logged traces. The conditions are that the traces fit in a slot, that the system
-- lets the timer be stopped, and that the timer is known.
pub logged_in_order :
    (n : ℕ) (ms : List Moment) (h : SignalHandler) (t : Timer)
    → EachFit n ms
    → Told h t
    → let (ended, p) = run ms (fresh n h t) in
      (items : List Item) × Represents p.buffer items
      × (p.logged ++ items ≡ map trimmed p.taken)
      × (201 * p.updates ≤ length p.logged)
logged_in_order n ms h t fits told =
    let (items, inv, ended) = run-Reached n ms (fresh n h t) [] (fresh-Inv n h t told) fits in
    (items, inv.holds, inv.in_order, omega (arith, inv.paced))

-- When the thread has ended, the timer is off, and all that `push` had taken has been logged, in
-- order, but for what it took after the last call of `pop`: exactly these traces are still in the
-- queue, and they are at most as many as came then, so none if none came. The conditions are that the
-- traces fit in a slot, that the system lets the timer be stopped, that the timer is known at first,
-- and that the thread has ended.
pub ends_clean :
    (n : ℕ) (ms : List Moment) (h : SignalHandler) (t : Timer)
    → EachFit n ms
    → Told h t
    → (run ms (fresh n h t)).0 ≡ true
    → let (ended, p) = run ms (fresh n h t) in
      (p.logged ++ map trimmed p.missed ≡ map trimmed p.taken)
      × Represents p.buffer (map trimmed p.missed)
      × (length p.missed ≤ late_ones ms)
      × (period p.timer ≡ 0)
ends_clean n ms h t fits told done =
    let (items, inv, ended) = run-Reached n ms (fresh n h t) [] (fresh-Inv n h t told) fits in
    let (same, few, off) = ended done in
    (
      ap (λ l. (run ms (fresh n h t)).1.logged ++ l) (sym same) ∙ inv.in_order,
      rw (sym same) inv.holds,
      few,
      off,
    )
