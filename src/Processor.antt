-- ===== src/Processor.antt =====
-- Processor::run (recorder/src/main/cpp/processor.h and .cpp): the thread that empties the queue and
-- changes the interval of the timer.
pub mod Handshake
mod Steps
pub mod Run
mod Tests
use fk_prof.Prelude.{
  ℕ, zero, suc, ◌+◌, ◌*◌, Bool, true, false, Option, List, [], ◌∷◌, ◌++◌, ltb, if◌then◌else◌,
}
use fk_prof.Queue.{CallTrace, CircularQueue, Item, Popped, nothing, waiting, delivered, push, pop}
use fk_prof.SignalHandler.{SignalHandler, Timer, update_sigprof_interval, stop_sigprof}

-- What the rest of the program does before a call of `pop`, and what `run` reads if that call finds
-- nothing: the traces that the signal handler pushes, the flag `isRunning_`, and whether the system
-- accepts another interval, or the end of the timer. `late` are the traces that the signal handler
-- pushes after a call that finds nothing, if the loop is left behind it: up to `stopSigprof`, and
-- from signals that are on their way by then. If the loop is not left, they are arrivals of the next
-- moment.
pub record Moment : Type 0 where
  pub arrivals : List Item
  pub is_running : Bool
  pub accepted : Bool
  pub can_stop : Bool
  pub late : List Item

-- The objects that `run` works on and its local `popped`. `logged` is what the listener has been
-- given. Three fields are only counted here: the items that `push` has taken, those of them that came
-- after the last call of `pop`, and the updates.
pub record Processor : Type 0 where
  pub buffer : CircularQueue
  pub handler : SignalHandler
  pub timer : Timer
  pub popped : ℕ
  pub logged : List Item
  pub taken : List Item
  pub missed : List Item
  pub updates : ℕ

-- The signal handler's pushes, and which of them were taken.
unfoldable pub arrive : List Item → CircularQueue → List Item × CircularQueue
arrive [] q = ([], q)
arrive ((t, info) ∷ xs) q =
    let (done, q') = push t info q in
    let (ys, q'') = arrive xs q' in (if done then (t, info) ∷ ys else ys, q'')

abbrev pub took : List Item → CircularQueue → Processor → Processor
took xs q p = record p { buffer = q; taken = p.taken ++ xs }

-- `while (buffer_.pop()) ++popped;` when the call delivers.
abbrev pub count : Item → CircularQueue → Processor → Processor
count x q p = record p { buffer = q; popped = p.popped + 1; logged = p.logged ++ (x ∷ []) }

abbrev pub took_late : List Item → CircularQueue → Processor → Processor
took_late xs q p = record p { buffer = q; taken = p.taken ++ xs; missed = xs }

-- How a round behind the inner loop ends: with `break`, or with the sleep.
pub data Outcome : Type 0 where
  broken : Processor → Outcome
  slept : Processor → Outcome

-- `if (popped > 200) ...` and `if (!isRunning_) break;`
unfoldable pub rest_of_round : Moment → Processor → Outcome
rest_of_round m p =
    if ltb 200 p.popped
    then (let (ok, h, t) = update_sigprof_interval m.accepted p.handler p.timer in
        let p' = record p { handler = h; timer = t; popped = 0; updates = p.updates + 1 } in
        if ok
        then (if m.is_running then slept p' else broken p')
        else broken (record p { handler = h; timer = t }))
    else if m.is_running
    then slept p
    else broken p

-- Behind the loop, with what is pushed meanwhile.
unfoldable pub leave : (accepted : Bool) → (late : List Item) → Processor → Processor
unfolding arrive
leave accepted late p =
    let (ok, h, t) = stop_sigprof accepted p.handler p.timer in
    let (xs, q) = arrive late p.buffer in took_late xs q (record p { handler = h; timer = t })

-- One moment for each call of `pop` and each look at a slot that is not committed. The result says
-- whether the thread has ended.
unfoldable pub run : List Moment → Processor → Bool × Processor
unfolding rest_of_round leave
run [] p = (false, p)
run (m ∷ ms) p =
    let (xs, q) = arrive m.arrivals p.buffer in
    let (out, q') = pop q in
    elim out [
      | delivered x ↦ run ms (count x q' (took xs q p))
      | waiting ↦ run ms (took xs q p)
      | nothing ↦ elim (rest_of_round m (took xs q' p)) [
        | slept p' ↦ run ms p'
        | broken p' ↦ (true, leave m.can_stop m.late p')
      ]
    ]
