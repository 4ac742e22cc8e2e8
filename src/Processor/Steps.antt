-- ===== src/Processor/Steps.antt =====
-- What Processor::run (recorder/src/main/cpp/processor.cpp) keeps: pushes, pops, the end of a round and
-- what follows the loop, each by itself.
use fk_prof.Prelude.{
  ℕ, ◌+◌, ◌*◌, ◌≤◌, ◌<◌, ◌≡◌, sym, ap, ◌∙◌, Bool, true, false, Bool-cases, inl, inr, ◌⊎◌, Option,
  List, [], ◌∷◌, ◌++◌, map, length, length-append, arith, ◌==◌, ltb, ltb→lt,
}
use mathlib.Core.List.{append_assoc, append-nil, map-append}
use fk_prof.Queue.{CallTrace, CircularQueue, Item, size, push, pop}
use fk_prof.Queue.Limit.{push-max_frames, pop-max_frames}
use fk_prof.Queue.Fifo.{offer, poll}
use fk_prof.Queue.Refine.Represents.{trim, Fits, Represents}
use fk_prof.Queue.Refine.{push_refines, pop_refines}
use fk_prof.SignalHandler.{
  SignalHandler, Timer, set_interval, update_sigprof_interval, stop_sigprof,
}
use fk_prof.SignalHandler.Timing.{period, Told, set_interval-Told}
use fk_prof.Processor.{
  Moment, Processor, arrive, took, count, Outcome, broken, slept, rest_of_round, leave,
}

-- An item as the queue keeps it.
abbrev pub trimmed : Item → Item
trimmed (t, info) = (trim t, info)

abbrev pub AllFit : ℕ → List Item → Type 0
AllFit n [] = Unit {0}
AllFit n (x ∷ xs) = Fits n x.0 × AllFit n xs

push_cases :
    (t : CallTrace) (info : Option ℕ) (q : CircularQueue) (items : List Item)
    → Represents q items
    → Fits q.max_frames t
    → (((push t info q).0 ≡ true)
        × Represents (push t info q).1 (items ++ (trimmed (t, info) ∷ [])))
      ⊎ (((push t info q).0 ≡ false) × Represents (push t info q).1 items)
unfolding offer
push_cases t info q items r fits = elim (Bool-cases (length items == size)) [
  | inl full ↦ inr (rw full at (push_refines t info q items r fits))
  | inr room ↦ inl (rw room at (push_refines t info q items r fits))
]

arrive-Represents :
    (n : ℕ) (xs : List Item) (q : CircularQueue) (items : List Item)
    → Represents q items
    → q.max_frames ≡ n
    → AllFit n xs
    → Represents (arrive xs q).1 (items ++ map trimmed (arrive xs q).0)
      × ((arrive xs q).1.max_frames ≡ n)
unfolding arrive
arrive-Represents n [] q items r m fits = (rw (append-nil items) r, m)
arrive-Represents n ((t, info) ∷ xs) q items r m fits =
    elim (push_cases t info q items r (rw m fits.0)) [
      | inl (taken, r') ↦
          let (rest, m') =
            arrive-Represents n xs (push t info q).1 (items ++ (trimmed (t, info) ∷ [])) r'
              (push-max_frames t info q ∙ m) fits.1 in
          rw taken (rw (append_assoc items (trimmed (t, info) ∷ []) _) at rest, m')
      | inr (refused, r') ↦
          rw refused (
            arrive-Represents n xs (push t info q).1 items r' (push-max_frames t info q ∙ m) fits.1)
    ]

-- What holds between two moments, whatever has been pushed.
pub record Inv (n : ℕ) (p : Processor) (items : List Item) : Type 0 where
  pub holds : Represents p.buffer items
  pub limit : p.buffer.max_frames ≡ n
  pub in_order : p.logged ++ items ≡ map trimmed p.taken
  pub paced : 201 * p.updates + p.popped ≤ length p.logged
  pub told : Told p.handler p.timer

pub took-Inv :
    (n : ℕ) (xs : List Item) (p : Processor) (items : List Item)
    → Inv n p items
    → AllFit n xs
    → let (ys, q) = arrive xs p.buffer in Inv n (took ys q p) (items ++ map trimmed ys)
took-Inv n xs p items inv fits =
    let (r, m) = arrive-Represents n xs p.buffer items inv.holds inv.limit fits in
    record {
      holds = r;
      limit = m;
      in_order =
          sym (append_assoc p.logged items _)
          ∙ ap (λ l. l ++ map trimmed (arrive xs p.buffer).0) inv.in_order
          ∙ sym (map-append trimmed p.taken _);
      paced = inv.paced;
      told = inv.told;
    }

pub count-Inv :
    (n : ℕ) (p : Processor) (x : Item) (items : List Item)
    → Inv n p (x ∷ items)
    → Inv n (count x (pop p.buffer).1 p) items
unfolding poll
count-Inv n p x items inv = record {
  holds = (pop_refines p.buffer (x ∷ items) inv.holds).1;
  limit = pop-max_frames p.buffer ∙ inv.limit;
  in_order = append_assoc p.logged (x ∷ []) items ∙ inv.in_order;
  paced = omega (arith, inv.paced, length-append p.logged (x ∷ []));
  told = inv.told;
}

pub emptied-Inv :
    (n : ℕ) (p : Processor) → Inv n p [] → Inv n (record p { buffer = (pop p.buffer).1 }) []
unfolding poll
emptied-Inv n p inv = record {
  holds = (pop_refines p.buffer [] inv.holds).1;
  limit = pop-max_frames p.buffer ∙ inv.limit;
  in_order = inv.in_order;
  paced = inv.paced;
  told = inv.told;
}

abbrev pub Fine : ℕ → Outcome → Type 0
Fine n (slept p) = Inv n p []
Fine n (broken p) = Inv n p []

pub rest_of_round-Fine :
    (n : ℕ) (m : Moment) (p : Processor) → Inv n p [] → Fine n (rest_of_round m p)
unfolding rest_of_round update_sigprof_interval
rest_of_round-Fine n m p inv = elim (Bool-cases (ltb 200 p.popped)) [
  | inl many ↦ elim (Bool-cases (update_sigprof_interval m.accepted p.handler p.timer).0) [
    | inl done ↦ elim (Bool-cases m.is_running) [
      | inl on ↦ rw (many, done, on) (updated (ltb→lt 200 p.popped many))
      | inr off ↦ rw (many, done, off) (updated (ltb→lt 200 p.popped many))
    ]
    | inr denied ↦
        rw (many, denied)
          (record {
            holds = inv.holds;
            limit = inv.limit;
            in_order = inv.in_order;
            paced = inv.paced;
            told = told;
          })
  ]
  | inr few ↦ elim (Bool-cases m.is_running) [
    | inl on ↦ rw (few, on) inv
    | inr off ↦ rw (few, off) inv
  ]
]
  where
    told :
        Told
          (update_sigprof_interval m.accepted p.handler p.timer).1
          (update_sigprof_interval m.accepted p.handler p.timer).2
    told =
        (set_interval-Told m.accepted (p.handler.timing_intervals p.handler.interval_index)
          p.handler p.timer inv.told).0

    updated :
        200 < p.popped
        → Inv n
            (record p {
              handler = (update_sigprof_interval m.accepted p.handler p.timer).1;
              timer = (update_sigprof_interval m.accepted p.handler p.timer).2;
              popped = 0;
              updates = p.updates + 1;
            })
            []
    updated many = record {
      holds = inv.holds;
      limit = inv.limit;
      in_order = inv.in_order;
      paced = omega (arith, inv.paced);
      told = told;
    }

set_interval-accepted :
    (ok : Bool) (i : ℕ) (h : SignalHandler) (t : Timer)
    → ok ≡ true
    → (set_interval ok i h t).0 ≡ true
unfolding set_interval
set_interval-accepted ok i h t e = ground arith

-- A queue that push has filled after the last call of pop.
pub record Missed (n : ℕ) (late : List Item) (p : Processor) : Type 0 where
  pub left : Inv n p (map trimmed p.missed)
  pub few : length p.missed ≤ length late
  pub off : period p.timer ≡ 0

arrive-length : (xs : List Item) (q : CircularQueue) → length (arrive xs q).0 ≤ length xs
unfolding arrive
arrive-length [] q = omega arith
arrive-length ((t, info) ∷ xs) q = ground (arith, arrive-length xs (push t info q).1)

pub leave-Missed :
    (n : ℕ) (ok : Bool) (late : List Item) (p : Processor)
    → ok ≡ true
    → AllFit n late
    → Inv n p []
    → Missed n late (leave ok late p)
unfolding leave stop_sigprof
leave-Missed n ok late p e fits inv =
    let (told, answer, turn, table) = set_interval-Told ok 0 p.handler p.timer inv.told in
    let after = took-Inv n late p [] inv fits in
    record {
      left = record {
        holds = after.holds;
        limit = after.limit;
        in_order = after.in_order;
        paced = after.paced;
        told = told;
      };
      few = arrive-length late p.buffer;
      off = elim answer [
        | inl (r, z) ↦ z
        | inr (r, z) ↦ absurd (cc (r, set_interval-accepted ok 0 p.handler p.timer e))
      ];
    }
