-- ===== src/Queue/Concurrent.antt =====
-- CircularQueue under many producers and one consumer (recorder/src/main/cpp/circular_queue.cpp):
-- `push` and `pop` cut at their accesses to shared memory, interleaved in any order. Every access is
-- taken as sequentially consistent.
mod Inv
mod Frame
mod Producing
mod Consuming
pub mod Safety
mod Tests
use fk_prof.Prelude.{ℕ, ◌+◌, ◌<◌, ◌≡◌, ◌≢◌, Option, none, [], update}
use fk_prof.Prelude.Int.{pos}
use fk_prof.Queue.{
  CallTrace, CircularQueue, Item, capacity, committed, uncommitted, advance, write, set_info,
  set_committed, clean_slot, slot_item, init,
}
use fk_prof.Queue.Refine.Represents.{trim, Fits}

-- Shared memory, and beside it a record of what has happened, which no step reads: the numbers of
-- claims, of listener calls and of finished pops, the item of each claim and of each listener call.
pub record Mem : Type 0 where
  pub q : CircularQueue
  pub pushed : ℕ
  pub recorded : ℕ
  pub popped : ℕ
  pub sent : ℕ → Item
  pub seen : ℕ → Item

-- Where a thread stands in `push(item, info)`, with its local `currentInput`. The ticket is the
-- number of claims at the moment when it read `input`; no step reads it.
pub data Producer : Type 0 where
  idle : Producer
  trying : (t : CallTrace) (info : Option ℕ) → Producer
  loaded : (t : CallTrace) (info : Option ℕ) (slot ticket : ℕ) → Producer
  checked : (t : CallTrace) (info : Option ℕ) (slot ticket : ℕ) → Producer
  claimed : (t : CallTrace) (info : Option ℕ) (slot ticket : ℕ) → Producer
  written : (t : CallTrace) (info : Option ℕ) (slot ticket : ℕ) → Producer
  informed : (t : CallTrace) (info : Option ℕ) (slot ticket : ℕ) → Producer

-- Where the consumer stands in `pop()`, with its local `current_output`.
pub data Consumer : Type 0 where
  resting : Consumer
  entered : (slot : ℕ) → Consumer
  polling : (slot : ℕ) → Consumer
  ready : (slot : ℕ) → Consumer
  listened : (slot : ℕ) → Consumer
  cleaned : (slot : ℕ) → Consumer
  released : (slot : ℕ) → Consumer

pub data Produce (m : Mem) : Producer → Mem → Producer → Type 0 where
  call : (t : CallTrace) (info : Option ℕ) → Produce m idle m (trying t info)
  load :
      {t : CallTrace} {info : Option ℕ}
      → Produce m (trying t info) m (loaded t info m.q.input m.pushed)
  full :
      {t : CallTrace} {info : Option ℕ} {slot ticket : ℕ}
      → m.q.output ≡ advance slot
      → Produce m (loaded t info slot ticket) m idle
  room :
      {t : CallTrace} {info : Option ℕ} {slot ticket : ℕ}
      → m.q.output ≢ advance slot
      → Produce m (loaded t info slot ticket) m (checked t info slot ticket)
  win :
      {t : CallTrace} {info : Option ℕ} {slot ticket : ℕ}
      → m.q.input ≡ slot
      → Produce m
          (checked t info slot ticket)
          (record m {
            q = record m.q { input = advance slot };
            pushed = m.pushed + 1;
            sent = update m.sent m.pushed (trim t, info);
          })
          (claimed t info slot ticket)
  lose :
      {t : CallTrace} {info : Option ℕ} {slot ticket : ℕ}
      → m.q.input ≢ slot
      → Produce m (checked t info slot ticket) m (trying t info)
  fill :
      {t : CallTrace} {info : Option ℕ} {slot ticket : ℕ}
      → Produce m
          (claimed t info slot ticket)
          (record m { q = write t slot m.q })
          (written t info slot ticket)
  inform :
      {t : CallTrace} {info : Option ℕ} {slot ticket : ℕ}
      → Produce m
          (written t info slot ticket)
          (record m { q = set_info info slot m.q })
          (informed t info slot ticket)
  commit :
      {t : CallTrace} {info : Option ℕ} {slot ticket : ℕ}
      → Produce m
          (informed t info slot ticket)
          (record m { q = set_committed committed slot m.q })
          idle

pub data Consume (m : Mem) : Consumer → Mem → Consumer → Type 0 where
  begin : Consume m resting m (entered m.q.output)
  empty : {slot : ℕ} → slot ≡ m.q.input → Consume m (entered slot) m resting
  some_there : {slot : ℕ} → slot ≢ m.q.input → Consume m (entered slot) m (polling slot)
  wait :
      {slot : ℕ}
      → (m.q.buffer slot).is_committed ≢ committed
      → Consume m (polling slot) m (polling slot)
  see :
      {slot : ℕ}
      → (m.q.buffer slot).is_committed ≡ committed
      → Consume m (polling slot) m (ready slot)
  listen :
      {slot : ℕ}
      → Consume m
          (ready slot)
          (record m {
            recorded = m.recorded + 1;
            seen = update m.seen m.recorded (slot_item m.q slot);
          })
          (listened slot)
  clean :
      {slot : ℕ} → Consume m (listened slot) (record m { q = clean_slot slot m.q }) (cleaned slot)
  release :
      {slot : ℕ}
      → Consume m
          (cleaned slot)
          (record m { q = set_committed uncommitted slot m.q })
          (released slot)
  finish :
      {slot : ℕ}
      → Consume m
          (released slot)
          (record m { q = record m.q { output = advance slot }; popped = m.popped + 1 })
          resting

-- Producers are numbered; there is one consumer.
pub record System : Type 0 where
  pub mem : Mem
  pub producer : ℕ → Producer
  pub consumer : Consumer

pub data Step (s : System) : System → Type 0 where
  produce :
      (i : ℕ) {m : Mem} {p : Producer}
      → Produce s.mem (s.producer i) m p
      → Step s (record s { mem = m; producer = update s.producer i p })
  consume :
      {m : Mem} {c : Consumer}
      → Consume s.mem s.consumer m c
      → Step s (record s { mem = m; consumer = c })

abbrev pub no_item : Item
no_item = (record { env_id = 0; num_frames = pos 0; frames = [] }, none)

-- A new queue, and no thread inside a call.
abbrev pub start : ℕ → System
start max_frames = record {
  mem = record {
    q = init max_frames;
    pushed = 0;
    recorded = 0;
    popped = 0;
    sent = λ _. no_item;
    seen = λ _. no_item;
  };
  producer = λ _. idle;
  consumer = resting;
}

pub data Reach (max_frames : ℕ) : System → Type 0 where
  here : Reach max_frames (start max_frames)
  next : {s t : System} → Reach max_frames s → Step s t → Reach max_frames t

-- What is asked of a step of a producer: it brings traces that fit in a slot, and between its read
-- of `input` and its compare-exchange there are fewer than `capacity` claims.
abbrev pub OrderlyMove : {m m' : Mem} {p p' : Producer} → Produce m p m' p' → Type 0
OrderlyMove {m} (call t info) = Fits m.q.max_frames t
OrderlyMove {m} (win {ticket} e) = m.pushed < ticket + capacity
OrderlyMove _ = Unit {0}

abbrev pub OrderlyStep : {s t : System} → Step s t → Type 0
OrderlyStep (produce i mv) = OrderlyMove mv
OrderlyStep (consume mv) = Unit {0}

abbrev pub Orderly : {max_frames : ℕ} {s : System} → Reach max_frames s → Type 0
Orderly here = Unit {0}
Orderly (next r st) = Orderly r × OrderlyStep st
