-- ===== src/Queue/Concurrent/Tests.antt =====
-- The theorems on the concurrent queue at a run: producer 0 has claimed slot 0 and not committed it,
-- and the consumer waits for it.
use fk_prof.Prelude.{ℕ, ◌+◌, ◌≤◌, ◌<◌, ◌≡◌, ◌≢◌, refl, some, [], arith}
use fk_prof.Prelude.Int.{pos}
use fk_prof.Queue.{CallTrace, size, capacity, committed, init, advance, nothing, pop}
use fk_prof.Queue.Concurrent.{
  call, load, room, win, begin, some_there, polling, System, Step, produce, consume, Reach, here,
  next, Orderly,
}
use fk_prof.Queue.Concurrent.Safety.{filling, draining, fifo, exclusive, wait_has_owner}
use fk_prof.Queue.Concurrent.Safety.Overtaken.{overtaken}

abbrev bare_trace : CallTrace
bare_trace = record { env_id = 5; num_frames = pos 0; frames = [] }

abbrev Waiting : Type 0
Waiting = (s : System) × (r : Reach 4 s) × Orderly r

waiting : Waiting
unfolding init advance
waiting = (
  _,
  next
      (next
        (next
          (next (next (next here (produce 0 (call bare_trace (some 9)))) (produce 0 load))
            (produce 0 (room (omega arith))))
          (produce 0 (win refl)))
        (consume begin))
      (consume (some_there (omega arith))),
  ((((((tt, omega arith), tt), tt), omega arith), tt), tt),
)

waiting_at : waiting.0.consumer ≡ polling 0
unfolding waiting
waiting_at = refl

waiting_for : (waiting.0.mem.q.buffer 0).is_committed ≢ committed
unfolding waiting
waiting_for = omega arith

waiting_fills : filling (waiting.0.producer 0) ≡ some 0
unfolding waiting
waiting_fills = refl

fifo_example :
    ((k : ℕ) → k < waiting.0.mem.recorded → waiting.0.mem.seen k ≡ waiting.0.mem.sent k)
    × (waiting.0.mem.recorded ≤ waiting.0.mem.pushed)
    × (waiting.0.mem.pushed ≤ waiting.0.mem.popped + size)
fifo_example = fifo waiting.1 waiting.2

exclusive_example :
    (0 < capacity)
    × ((j : ℕ) → filling (waiting.0.producer j) ≡ some 0 → ◌≡◌ {A = ℕ} 0 j)
    × (draining waiting.0.consumer ≢ some 0)
exclusive_example = exclusive waiting.1 waiting.2 0 0 waiting_fills

wait_has_owner_example : (i : ℕ) × (filling (waiting.0.producer i) ≡ some 0)
wait_has_owner_example = wait_has_owner waiting.1 waiting.2 0 waiting_at waiting_for

overtaken_example :
    (s : System) × (t : System) × (r : Reach 4 s) × Orderly r
    × Step s t
    × (t.mem.q.output ≡ t.mem.q.input)
    × ((pop t.mem.q).0 ≡ nothing)
    × (t.mem.pushed ≡ t.mem.popped + capacity)
overtaken_example = overtaken 4
