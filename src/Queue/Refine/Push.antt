-- ===== src/Queue/Refine/Push.antt =====
-- `push` on a queue that holds a list.
use fk_prof.Prelude.{
  ℕ, ◌<◌, ◌≡◌, ◌≢◌, refl, ◌∙◌, true, false, Option, some, List, ◌∷◌, [], ◌++◌, arith, length,
  ℕ_discrete, ◌==◌, ==_iff,
}
use fk_prof.Queue.{
  CallTrace, CircularQueue, Item, capacity, size, committed, uncommitted, rounds, advance, push,
  copy_frames,
}
use fk_prof.Queue.Frames.{length-copy_frames, take-copy_frames, drop-copy_frames}
use fk_prof.Queue.Ring.{
  gap, Chain, Chain-map, Chain-append, length-Chain, advance-lt, next_outside, outside-advance,
  full_iff,
}
use fk_prof.Queue.Fifo.{offer}
use fk_prof.Queue.Refine.Represents.{trim, Fits, Held, Padded, Represents}

-- What a successful call leaves behind: slot `input` is filled, the others are as before.
record Pushed (t : CallTrace) (info : Option ℕ) (q q' : CircularQueue) : Type 0 where
  input_next : q'.input ≡ advance q.input
  output_same : q'.output ≡ q.output
  max_same : q'.max_frames ≡ q.max_frames
  others :
      (s : ℕ) → s ≢ q.input → (q'.buffer s ≡ q.buffer s) × (q'.frame_buffer s ≡ q.frame_buffer s)
  filled : q'.buffer q.input ≡ record {
    is_committed = committed;
    env_id = t.env_id;
    num_frames = t.num_frames;
    frames = some q.input;
    info = info;
  }
  copied :
      q'.frame_buffer q.input ≡ copy_frames (rounds t.num_frames) t.frames (q.frame_buffer q.input)

push-full :
    (t : CallTrace) (info : Option ℕ) (q : CircularQueue)
    → q.output ≡ advance q.input
    → push t info q ≡ (false, q)
unfolding push
push-full t info q e = ground arith

push-ok :
    (t : CallTrace) (info : Option ℕ) (q : CircularQueue)
    → q.output ≢ advance q.input
    → ((push t info q).0 ≡ true) × Pushed t info q (push t info q).1
unfolding push
push-ok t info q ne = ground arith

module _ (t : CallTrace) (info : Option ℕ) (q : CircularQueue) (items : List Item)
    (r : Represents q items) (fits : Fits q.max_frames t) (ne : q.output ≢ advance q.input) where
  q' : CircularQueue
  q' = (push t info q).1

  facts : Pushed t info q q'
  unfolding q'
  facts = (push-ok t info q ne).1

  filled-Held : Held q' q.input (trim t, info)
  filled-Held = ground (
    arith,
    facts,
    take-copy_frames (rounds t.num_frames) t.frames (q.frame_buffer q.input),
    (r.padded q.input).whole,
  )

  kept-Held : (s : ℕ) (x : Item) → s ≢ q.input → Held q s x → Held q' s x
  kept-Held s x h held = ground (arith, facts.others s h)

  chain' : Chain (Held q') q'.input q'.output (items ++ ((trim t, info) ∷ []))
  chain' =
      rw (facts.input_next, facts.output_same)
        (Chain-append (Held q') q.input q.output items (trim t, info) r.input_in r.output_in ne
          filled-Held
          (Chain-map (Held q) (Held q') q.input q.output items r.input_in r.output_in
            (λ s x hs h le held. kept-Held s x h held) r.chain))

  Padded-others : (s : ℕ) → s ≢ q.input → Padded q' s
  Padded-others s h = ground (arith, facts, facts.others s h, r.padded s)

  Padded-input : Padded q' q.input
  Padded-input = ground (
    arith,
    facts,
    r.padded q.input,
    (r.free q.input r.input_in).0 refl,
    length-copy_frames (rounds t.num_frames) t.frames (q.frame_buffer q.input),
    drop-copy_frames (rounds t.num_frames) q.max_frames t.frames,
  )

  padded' : (s : ℕ) → Padded q' s
  padded' s = elim (ℕ_discrete s q.input) [ yes e ↦ rw e (Padded-input) | no h ↦ Padded-others s h ]

  free' :
      (s : ℕ)
      → s < capacity
      → ((s ≡ q'.input) → (q'.buffer s).is_committed ≡ uncommitted)
        × (gap q'.input q'.output < gap q'.input s → (q'.buffer s).is_committed ≡ uncommitted)
  free' s h = (
    λ e. ground (
      arith,
      facts,
      facts.others s,
      r.free s h,
      next_outside q.input q.output r.input_in r.output_in ne,
    ),
    λ lt. ground (
      arith,
      facts,
      facts.others s,
      r.free s h,
      outside-advance q.input q.output s r.input_in r.output_in h ne,
    ),
  )

  push-Represents : Represents q' (items ++ ((trim t, info) ∷ []))
  push-Represents = record {
    input_in = rw facts.input_next (advance-lt q.input);
    output_in = rw facts.output_same r.output_in;
    chain = chain';
    free = free';
    padded = padded';
  }

-- `push` answers as the bounded FIFO does and leaves the queue holding what the FIFO holds: the
-- item behind the others if fewer than `size` are there, and else the queue as it was. The
-- condition is that the trace fits in a slot.
pub push_refines :
    (t : CallTrace) (info : Option ℕ) (q : CircularQueue) (items : List Item)
    → Represents q items
    → Fits q.max_frames t
    → let (done, after) = push t info q in
      let (accepted, items') = offer (trim t, info) items in
      (done ≡ accepted) × Represents after items'
unfolding offer q'
push_refines t info q items r fits = elim (ℕ_discrete q.output (advance q.input)) [
  | yes e ↦
      rw (push-full t info q e, (==_iff _ _).1 (len ∙ (full_iff _ _ r.input_in r.output_in).0 e))
        (refl, r)
  | no ne ↦ rw (not_full ne) ((push-ok t info q ne).0, push-Represents t info q items r fits ne)
]
  where
    len : length items ≡ gap q.input q.output
    len = length-Chain (Held q) q.input q.output items r.input_in r.output_in r.chain

    not_full : q.output ≢ advance q.input → (length items == size) ≡ false
    not_full ne = ground (arith, len, full_iff q.input q.output r.input_in r.output_in)
