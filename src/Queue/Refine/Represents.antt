-- ===== src/Queue/Refine/Represents.antt =====
-- When a queue holds a list of items.
use fk_prof.Prelude.{
  ℕ, ◌-◌, ◌≤◌, ◌<◌, ◌≡◌, refl, some, List, [], arith, length, take, drop, replicate,
  length-replicate,
}
use fk_prof.Queue.{
  CallTrace, CircularQueue, Item, capacity, committed, uncommitted, zero_frame, rounds, slot_item,
  init,
}
use fk_prof.Queue.Ring.{gap, Chain}

-- The trace as its frames are counted: what lies behind `num_frames` is no part of it.
abbrev pub trim : CallTrace → CallTrace
trim t = record t { frames = take (rounds t.num_frames) t.frames }

-- The trace fits in a slot, and its array has the frames that it counts.
pub record Fits (max_frames : ℕ) (t : CallTrace) : Type 0 where
  pub present : rounds t.num_frames ≤ length t.frames
  pub room : rounds t.num_frames ≤ max_frames

-- Slot s is committed, its pointer leads to its own frames, and the listener would see x there.
abbrev pub Held : CircularQueue → ℕ → Item → Type 0
Held q s x =
    ((q.buffer s).is_committed ≡ committed) × ((q.buffer s).frames ≡ some s) × (slot_item q s ≡ x)

-- The padding: a free slot is all zero, and so is a used one behind its frames.
pub record Padded (q : CircularQueue) (s : ℕ) : Type 0 where
  pub whole : length (q.frame_buffer s) ≡ q.max_frames
  pub clean :
      (q.buffer s).is_committed ≡ uncommitted → q.frame_buffer s ≡ replicate q.max_frames zero_frame
  pub behind :
      (q.buffer s).is_committed ≡ committed
      → drop (rounds (q.buffer s).num_frames) (q.frame_buffer s)
        ≡ replicate (q.max_frames - rounds (q.buffer s).num_frames) zero_frame

-- The slots from `output` to `input` hold the items in order; every other slot is free.
pub record Represents (q : CircularQueue) (items : List Item) : Type 0 where
  pub input_in : q.input < capacity
  pub output_in : q.output < capacity
  pub chain : Chain (Held q) q.input q.output items
  pub free :
      (s : ℕ)
      → s < capacity
      → ((s ≡ q.input) → (q.buffer s).is_committed ≡ uncommitted)
        × (gap q.input q.output < gap q.input s → (q.buffer s).is_committed ≡ uncommitted)
  pub padded : (s : ℕ) → Padded q s

-- A new queue holds nothing.
pub init-Represents : (max_frames : ℕ) → Represents (init max_frames) []
unfolding init
init-Represents m = record {
  input_in = omega arith;
  output_in = omega arith;
  chain = refl;
  free = λ s h. (λ _. refl, λ _. refl);
  padded = λ s. record {
    whole = length-replicate m zero_frame;
    clean = λ _. refl;
    behind = λ e. absurd (omega arith);
  };
}
