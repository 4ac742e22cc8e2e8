-- ===== src/Queue/Concurrent/Inv.antt =====
-- Which claim owns which slot at each moment, in terms of tickets: the claim with ticket k works in
-- slot k % capacity.
use fk_prof.Prelude.{
  ℕ, ◌+◌, ◌%◌, ◌≤◌, ◌<◌, ◌≡◌, ◌≢◌, ◌⊎◌, refl, Option, none, some, arith, length, take,
  length-replicate,
}
use fk_prof.Queue.{
  CallTrace, CircularQueue, size, capacity, committed, uncommitted, rounds, zero_frame, init,
  advance,
}
use fk_prof.Queue.Refine.Represents.{trim, Fits, Held}
use fk_prof.Queue.Concurrent.{
  Mem, Producer, idle, trying, loaded, checked, claimed, written, informed, Consumer, resting,
  entered, polling, ready, listened, cleaned, released, start,
}

abbrev pub slot_of : ℕ → ℕ
slot_of k = k % capacity

-- Tickets less than a turn apart work in different slots.
pub slot_of_injective :
    (a b : ℕ) → slot_of a ≡ slot_of b → a < b + capacity → b < a + capacity → a ≡ b
slot_of_injective a b e h k = omega arith

pub advance-slot_of : (k : ℕ) → advance (slot_of k) ≡ slot_of (k + 1)
unfolding advance
advance-slot_of k = omega arith

-- The claim that a producer is filling.
abbrev pub ticket : Producer → Option ℕ
ticket (claimed t info slot k) = some k
ticket (written t info slot k) = some k
ticket (informed t info slot k) = some k
ticket _ = none

-- A claim in progress: its slot is not committed and the consumer is not past it.
pub record Claim (m : Mem) (t : CallTrace) (info : Option ℕ) (slot k : ℕ) : Type 0 where
  pub at : slot ≡ slot_of k
  pub from : m.popped ≤ k
  pub below : k < m.pushed
  pub item : m.sent k ≡ (trim t, info)
  pub fits : Fits m.q.max_frames t
  pub hidden : (m.q.buffer slot).is_committed ≡ uncommitted

-- What `write` has done to a slot.
pub record Filled (q : CircularQueue) (t : CallTrace) (slot : ℕ) : Type 0 where
  pub env : (q.buffer slot).env_id ≡ t.env_id
  pub num : (q.buffer slot).num_frames ≡ t.num_frames
  pub pointer : (q.buffer slot).frames ≡ some slot
  pub copied :
      take (rounds t.num_frames) (q.frame_buffer slot) ≡ take (rounds t.num_frames) t.frames

-- What the locals of a producer say of shared memory.
abbrev pub IsFresh : Mem → Producer → Type 0
IsFresh m idle = Unit {0}
IsFresh m (trying t info) = Fits m.q.max_frames t
IsFresh m (loaded t info slot k) = Fits m.q.max_frames t × (slot ≡ slot_of k) × (k ≤ m.pushed)
IsFresh m (checked t info slot k) =
    Fits m.q.max_frames t
    × (slot ≡ slot_of k)
    × (k ≤ m.pushed)
    × (k ≡ m.pushed → k < m.popped + size)
IsFresh m (claimed t info slot k) = Claim m t info slot k
IsFresh m (written t info slot k) = Claim m t info slot k × Filled m.q t slot
IsFresh m (informed t info slot k) =
    Claim m t info slot k × Filled m.q t slot × ((m.q.buffer slot).info ≡ info)

-- No producer holds the ticket that the consumer is at.
abbrev pub Alone : Mem → (ℕ → Producer) → Type 0
Alone m producer = (i : ℕ) → ticket (producer i) ≢ some m.popped

-- The consumer works on the slot of the oldest claim, which no producer holds.
abbrev pub Late : Mem → (ℕ → Producer) → ℕ → ℕ → Type 0
Late m producer flag slot =
    (slot ≡ slot_of m.popped)
    × (m.popped < m.pushed)
    × ((m.q.buffer slot).is_committed ≡ flag)
    × Alone m producer

-- What the local of the consumer says of shared memory.
abbrev pub Reads : Mem → (ℕ → Producer) → Consumer → Type 0
Reads m producer resting = m.recorded ≡ m.popped
Reads m producer (entered slot) = (m.recorded ≡ m.popped) × (slot ≡ slot_of m.popped)
Reads m producer (polling slot) =
    (m.recorded ≡ m.popped) × (slot ≡ slot_of m.popped) × (m.popped < m.pushed)
Reads m producer (ready slot) = (m.recorded ≡ m.popped) × (Late m producer committed slot)
Reads m producer (listened slot) = (m.recorded ≡ m.popped + 1) × (Late m producer committed slot)
Reads m producer (cleaned slot) = (m.recorded ≡ m.popped + 1) × (Late m producer committed slot)
Reads m producer (released slot) = (m.recorded ≡ m.popped + 1) × (Late m producer uncommitted slot)

-- The claims that the listener has not had: each is committed, or some producer is filling it.
abbrev pub Covered : Mem → (ℕ → Producer) → ℕ → Type 0
Covered m producer k =
    ((m.q.buffer (slot_of k)).is_committed ≡ committed) ⊎ ((i : ℕ) × (ticket (producer i) ≡ some k))

pub record Inv (m : Mem) (producer : ℕ → Producer) (consumer : Consumer) : Type 0 where
  pub input_at : m.q.input ≡ slot_of m.pushed
  pub output_at : m.q.output ≡ slot_of m.popped
  pub order : m.popped ≤ m.pushed
  pub bound : m.pushed ≤ m.popped + size
  pub listened_to : (m.popped ≤ m.recorded) × (m.recorded ≤ m.pushed)
  pub fresh : (i : ℕ) → IsFresh m (producer i)
  pub unique : (i j k : ℕ) → ticket (producer i) ≡ some k → ticket (producer j) ≡ some k → i ≡ j
  pub good :
      (k : ℕ)
      → m.recorded ≤ k
      → k < m.pushed
      → (m.q.buffer (slot_of k)).is_committed ≡ committed
      → Held m.q (slot_of k) (m.sent k)
  pub covered : (k : ℕ) → m.recorded ≤ k → k < m.pushed → Covered m producer k
  pub vacant :
      (k : ℕ)
      → m.pushed ≤ k
      → k < m.popped + capacity
      → (m.q.buffer (slot_of k)).is_committed ≡ uncommitted
  pub reads : Reads m producer consumer
  pub history : (k : ℕ) → k < m.recorded → m.seen k ≡ m.sent k
  pub whole : (s : ℕ) → length (m.q.frame_buffer s) ≡ m.q.max_frames

pub start-Inv : (n : ℕ) → Inv (start n).mem (start n).producer (start n).consumer
unfolding init
start-Inv n = record {
  input_at = refl;
  output_at = refl;
  order = omega arith;
  bound = omega arith;
  listened_to = omega arith;
  fresh = λ i. tt;
  unique = λ i j k p q. cc;
  good = λ k a b. absurd (omega arith);
  covered = λ k a b. absurd (omega arith);
  vacant = λ k a b. refl;
  reads = refl;
  history = λ k h. absurd (omega arith);
  whole = λ s. length-replicate n zero_frame;
}
