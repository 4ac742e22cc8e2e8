-- ===== src/Queue/Refine/Pop.antt =====
-- `pop` on a queue that holds a list.
use fk_prof.Prelude.{ℕ, ◌<◌, ◌≡◌, ◌≢◌, refl, ap, ◌∙◌, List, ◌∷◌, [], arith, ℕ_discrete}
use fk_prof.Queue.{
  CircularQueue, Item, nothing, delivered, capacity, committed, uncommitted, rounds, advance,
  slot_item, pop, clear_frames,
}
use fk_prof.Queue.Frames.{length-clear_frames, clear_frames-all}
use fk_prof.Queue.Ring.{gap, Chain, Chain-map, advance-lt, outside-tail, outside_before}
use fk_prof.Queue.Fifo.{poll}
use fk_prof.Queue.Refine.Represents.{Held, Padded, Represents}

-- What a call that delivers leaves behind: slot `output` is free and zero, the others are as before.
record Freed (q q' : CircularQueue) : Type 0 where
  input_same : q'.input ≡ q.input
  output_next : q'.output ≡ advance q.output
  max_same : q'.max_frames ≡ q.max_frames
  others :
      (s : ℕ) → s ≢ q.output → (q'.buffer s ≡ q.buffer s) × (q'.frame_buffer s ≡ q.frame_buffer s)
  open_slot : (q'.buffer q.output).is_committed ≡ uncommitted
  cleared :
      q'.frame_buffer q.output
      ≡ clear_frames (rounds (q.buffer q.output).num_frames) (q.frame_buffer q.output)

pop-empty : (q : CircularQueue) → q.output ≡ q.input → pop q ≡ (nothing, q)
unfolding pop
pop-empty q e = ground arith

pop-delivered :
    (q : CircularQueue)
    → q.output ≢ q.input
    → (q.buffer q.output).is_committed ≡ committed
    → ((pop q).0 ≡ delivered (slot_item q q.output)) × Freed q (pop q).1
unfolding pop
pop-delivered q ne c = ground arith

module _ (q : CircularQueue) (x : Item) (items : List Item) (r : Represents q (x ∷ items)) where
  q' : CircularQueue
  q' = (pop q).1

  ne : q.output ≢ q.input
  ne = r.chain.0

  facts : Freed q q'
  unfolding q'
  facts = (pop-delivered q ne r.chain.1.0).1

  kept-Held : (s : ℕ) (y : Item) → s ≢ q.output → Held q s y → Held q' s y
  kept-Held s y h held = ground (arith, facts.others s h)

  chain' : Chain (Held q') q'.input q'.output items
  chain' =
      rw (facts.input_same, facts.output_next)
        (Chain-map (Held q) (Held q') q.input (advance q.output) items r.input_in
          (advance-lt q.output)
          (λ s y hs h le held.
            kept-Held s y (outside-tail q.input q.output s r.input_in r.output_in ne le) held)
          r.chain.2)

  Padded-others : (s : ℕ) → s ≢ q.output → Padded q' s
  Padded-others s h = ground (arith, facts, facts.others s h, r.padded s)

  Padded-output : Padded q' q.output
  Padded-output = ground (
    arith,
    facts,
    r.padded q.output,
    r.chain.1.0,
    length-clear_frames (rounds (q.buffer q.output).num_frames) (q.frame_buffer q.output),
    clear_frames-all (rounds (q.buffer q.output).num_frames) (q.frame_buffer q.output),
  )

  padded' : (s : ℕ) → Padded q' s
  padded' s = elim (ℕ_discrete s q.output) [ yes e ↦ rw e Padded-output | no h ↦ Padded-others s h ]

  free' :
      (s : ℕ)
      → s < capacity
      → ((s ≡ q'.input) → (q'.buffer s).is_committed ≡ uncommitted)
        × (gap q'.input q'.output < gap q'.input s → (q'.buffer s).is_committed ≡ uncommitted)
  free' s h = (
    λ e. ground (arith, facts, facts.others s, r.free s h, r.chain.0),
    λ lt. elim (ℕ_discrete s q.output) [
      | yes e ↦ rw e facts.open_slot
      | no away ↦ ground (
        arith,
        facts,
        facts.others s away,
        r.free s h,
        outside_before q.input q.output s r.input_in r.output_in h ne away,
      )
    ],
  )

  pop-Represents : Represents q' items
  pop-Represents = record {
    input_in = rw facts.input_same r.input_in;
    output_in = rw facts.output_next (advance-lt q.output);
    chain = chain';
    free = free';
    padded = padded';
  }

-- `pop` answers as the bounded FIFO does: on an empty queue it delivers nothing and changes
-- nothing, and else it delivers the oldest item, whole and first, and keeps the others. It never
-- waits on a slot that no call has committed.
pub pop_refines :
    (q : CircularQueue) (items : List Item)
    → Represents q items
    → let (out, after) = pop q in
      let (out', items') = poll items in (out ≡ out') × Represents after items'
unfolding poll q'
pop_refines q [] r = rw (pop-empty q r.chain) (refl, r)
pop_refines q (x ∷ items) r = (
  (pop-delivered q r.chain.0 r.chain.1.0).0 ∙ ap delivered r.chain.1.2,
  pop-Represents q x items r,
)
