-- ===== src/Queue/Refine/Tests.antt =====
-- Runs of the queue, and the theorems at concrete inputs.
use fk_prof.Prelude.{◌≡◌, refl, true, some, [], ◌∷◌, arith}
use fk_prof.Prelude.Int.{pos}
use fk_prof.Queue.{
  CallFrame, CallTrace, CircularQueue, delivered, init, push, pop, advance, copy_frames,
  clear_frames,
}
use fk_prof.Queue.Fifo.{offer, poll}
use fk_prof.Queue.Refine.Represents.{trim, Fits, Represents, init-Represents}
use fk_prof.Queue.Refine.Push.{push_refines}
use fk_prof.Queue.Refine.Pop.{pop_refines}

abbrev frame_1 : CallFrame
frame_1 = record { lineno = pos 10; method_id = 1 }

abbrev trace_1 : CallTrace
trace_1 = record { env_id = 5; num_frames = pos 1; frames = frame_1 ∷ [] }

abbrev fresh : CircularQueue
fresh = init 4

abbrev after_push : CircularQueue
after_push = (push trace_1 (some 7) fresh).1

trace_1-Fits : Fits fresh.max_frames trace_1
unfolding init
trace_1-Fits = omega arith

pushed : (push trace_1 (some 7) fresh).0 ≡ true
unfolding push init advance
pushed = refl

popped : (pop after_push).0 ≡ delivered (trace_1, some 7)
unfolding push pop init advance copy_frames clear_frames
popped = refl

push_refines_example :
    let (done, after) = push trace_1 (some 7) fresh in
    let (accepted, items') = offer (trim trace_1, some 7) [] in
    (done ≡ accepted) × Represents after items'
push_refines_example = push_refines trace_1 (some 7) fresh [] (init-Represents 4) trace_1-Fits

after_push-Represents : Represents after_push ((trace_1, some 7) ∷ [])
unfolding offer
after_push-Represents = push_refines_example.1

pop_refines_example :
    let (out, after) = pop after_push in
    let (out', items') = poll ((trace_1, some 7) ∷ []) in (out ≡ out') × Represents after items'
pop_refines_example = pop_refines after_push ((trace_1, some 7) ∷ []) after_push-Represents
