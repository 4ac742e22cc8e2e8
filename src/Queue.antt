-- ===== src/Queue.antt =====
-- CircularQueue (recorder/src/main/cpp/circular_queue.h and .cpp) and the traces that it carries
-- (stacktraces.h): each call run to its end with no other thread in between.
pub mod Fifo
pub mod Concurrent
mod Frames
mod Ring
pub mod Limit
pub mod Refine
use fk_prof.Prelude.{
  ℕ, zero, suc, ◌+◌, ◌%◌, Bool, true, false, Option, none, some, List, [], ◌∷◌, ◌==◌, if◌then◌else◌,
  update, take, replicate,
}
use fk_prof.Prelude.Int.{ℤ, pos, pos_part}

-- `JVMPI_CallFrame`. A `jmethodID` is a pointer, kept as a number.
pub record CallFrame : Type 0 where
  pub lineno : ℤ
  pub method_id : ℕ

-- `JVMPI_CallTrace`, with the array that `frames` points to.
pub record CallTrace : Type 0 where
  pub env_id : ℕ
  pub num_frames : ℤ
  pub frames : List CallFrame

abbrev pub size : ℕ
size = 1024

abbrev pub capacity : ℕ
capacity = size + 1

abbrev pub committed : ℕ
committed = 1

abbrev pub uncommitted : ℕ
uncommitted = 0

-- `TraceHolder`. `frames` is the pointer of its trace: none is null, and some s is
-- `frame_buffer_[s]`. `info` is the `ThreadBucket` pointer, null for none.
pub record TraceHolder : Type 0 where
  pub is_committed : ℕ
  pub env_id : ℕ
  pub num_frames : ℤ
  pub frames : Option ℕ
  pub info : Option ℕ

-- The two arrays have `capacity` cells; each cell of `frame_buffer` is an array of `max_frames`.
pub record CircularQueue : Type 0 where
  pub input : ℕ
  pub output : ℕ
  pub max_frames : ℕ
  pub buffer : ℕ → TraceHolder
  pub frame_buffer : ℕ → List CallFrame

-- What the listener's `record` is called with.
abbrev pub Item : Type 0
Item = CallTrace × Option ℕ

abbrev pub zero_frame : CallFrame
zero_frame = record { lineno = pos 0; method_id = 0 }

abbrev pub empty_holder : TraceHolder
empty_holder = record {
  is_committed = uncommitted;
  env_id = 0;
  num_frames = pos 0;
  frames = none;
  info = none;
}

-- The constructor: all memory is zero.
unfoldable pub init : ℕ → CircularQueue
init max_frame_size = record {
  input = 0;
  output = 0;
  max_frames = max_frame_size;
  buffer = λ _. empty_holder;
  frame_buffer = λ _. replicate max_frame_size zero_frame;
}

unfoldable pub advance : ℕ → ℕ
advance index = (index + 1) % capacity

-- How often `for (i = 0; i < n; ++i)` runs for a signed n.
abbrev pub rounds : ℤ → ℕ
rounds n = pos_part n

-- The loop of `write`: the first n frames of the source go over those of the slot's buffer. A round
-- past the end of either array, which the program must not reach, changes nothing.
unfoldable pub copy_frames : ℕ → List CallFrame → List CallFrame → List CallFrame
copy_frames zero src fb = fb
copy_frames (suc n) [] fb = fb
copy_frames (suc n) (f ∷ src) [] = []
copy_frames (suc n) (f ∷ src) (old ∷ fb) = f ∷ copy_frames n src fb

-- The loop of `pop` that zeroes the first n frames.
unfoldable pub clear_frames : ℕ → List CallFrame → List CallFrame
clear_frames zero fb = fb
clear_frames (suc n) [] = []
clear_frames (suc n) (f ∷ fb) = zero_frame ∷ clear_frames n fb

unfoldable pub write : CallTrace → ℕ → CircularQueue → CircularQueue
write trace slot q = record q {
  frame_buffer =
      update q.frame_buffer slot
        (copy_frames (rounds trace.num_frames) trace.frames (q.frame_buffer slot));
  buffer = update q.buffer slot (record (q.buffer slot) {
    frames = some slot;
    num_frames = trace.num_frames;
    env_id = trace.env_id;
  });
}

-- `buffer[slot].info = info`
unfoldable pub set_info : Option ℕ → ℕ → CircularQueue → CircularQueue
set_info info slot q = record q {
  buffer = update q.buffer slot (record (q.buffer slot) { info = info });
}

-- `buffer[slot].is_committed.store(c)`
unfoldable pub set_committed : ℕ → ℕ → CircularQueue → CircularQueue
set_committed c slot q = record q {
  buffer = update q.buffer slot (record (q.buffer slot) { is_committed = c });
}

-- With no other thread the compare-exchange on `input` succeeds in the first round.
unfoldable pub push : CallTrace → Option ℕ → CircularQueue → Bool × CircularQueue
unfolding write set_info set_committed
push item info q = if q.output == advance q.input then (false, q) else (
  true,
  set_committed committed q.input
      (set_info info q.input (write item q.input (record q { input = advance q.input }))),
)

-- The frames that a holder's pointer leads to.
abbrev pub deref : CircularQueue → Option ℕ → List CallFrame
deref q none = []
deref q (some s) = q.frame_buffer s

-- `buffer[slot].trace`, `buffer[slot].info` as the listener reads them: `num_frames` frames from
-- the pointer on.
abbrev pub slot_item : CircularQueue → ℕ → Item
slot_item q slot = (
  record {
    env_id = (q.buffer slot).env_id;
    num_frames = (q.buffer slot).num_frames;
    frames = take (rounds (q.buffer slot).num_frames) (deref q (q.buffer slot).frames);
  },
  (q.buffer slot).info,
)

-- After the listener has returned: the slot's frames and its info are cleared.
unfoldable pub clean_slot : ℕ → CircularQueue → CircularQueue
clean_slot slot q = record q {
  frame_buffer =
      update q.frame_buffer slot
        (clear_frames (rounds (q.buffer slot).num_frames) (q.frame_buffer slot));
  buffer = update q.buffer slot (record (q.buffer slot) { info = none });
}

-- `waiting` is the loop on an uncommitted slot, which no step of this thread ends.
pub data Popped : Type 0 where
  nothing : Popped
  waiting : Popped
  delivered : Item → Popped

unfoldable pub pop : CircularQueue → Popped × CircularQueue
unfolding clean_slot set_committed
pop q =
    if q.output == q.input
    then (nothing, q)
    else if (q.buffer q.output).is_committed == committed
    then (
      delivered (slot_item q q.output),
      record (set_committed uncommitted q.output (clean_slot q.output q)) {
        output = advance q.output;
      },
    )
    else (waiting, q)
