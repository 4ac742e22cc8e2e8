-- ===== src/Queue/Concurrent/Consuming.antt =====
-- A step of the consumer keeps the invariant.
use fk_prof.Prelude.{ℕ, ◌+◌, ◌≤◌, ◌<◌, ◌≡◌, ◌≢◌, some, arith, inl, inr, length}
use fk_prof.Queue.{capacity, size, committed, uncommitted, rounds, clean_slot, set_committed}
use fk_prof.Queue.Frames.{length-clear_frames}
use fk_prof.Queue.Refine.Represents.{Held}
use fk_prof.Queue.Concurrent.{
  Mem, Producer, Consumer, listened, cleaned, Consume, begin, empty, some_there, wait, see, listen,
  clean, release, finish,
}
use fk_prof.Queue.Concurrent.Inv.{
  slot_of, slot_of_injective, advance-slot_of, ticket, IsFresh, Reads, Covered, Inv,
}
use fk_prof.Queue.Concurrent.Frame.{Keeps, IsFresh-kept}

-- The slot whose memory a move writes; none is `capacity`.
abbrev touched : Consumer → ℕ
touched (listened slot) = slot
touched (cleaned slot) = slot
touched _ = capacity

module _ {m : Mem} {producer : ℕ → Producer} {c : Consumer} (inv : Inv m producer c) where
  below : (j k : ℕ) → ticket (producer j) ≡ some k → (m.popped ≤ k) × (k < m.pushed)
  below j k e = ground (arith, inv.fresh j)

  Consume-Keeps : {c c' : Consumer} {m' : Mem} → Consume m c m' c' → Keeps m m' (touched c)
  unfolding clean_slot set_committed
  Consume-Keeps begin = ground arith
  Consume-Keeps mv = ground arith

  -- No producer is at the consumer's slot.
  Consume-away :
      {c c' : Consumer} {m' : Mem}
      → Consume m c m' c'
      → Reads m producer c
      → (j k : ℕ) → ticket (producer j) ≡ some k
      → (slot_of k ≢ touched c) × (m'.popped ≤ k)
  Consume-away clean r j k q = ground (arith, inv, below j k, r.1.3 j, slot_of_injective m.popped k)
  Consume-away release r j k q =
      ground (arith, inv, below j k, r.1.3 j, slot_of_injective m.popped k)
  Consume-away finish r j k q = ground (arith, below j k, r.1.3 j)
  Consume-away mv r j k q = ground (arith, below j k)

  Consume-fresh : {c' : Consumer} {m' : Mem} → Consume m c m' c' → (j : ℕ) → IsFresh m' (producer j)
  Consume-fresh mv j =
      IsFresh-kept (Consume-Keeps mv) (producer j) (Consume-away mv inv.reads j) (inv.fresh j)

  Consume-Reads :
      {c c' : Consumer} {m' : Mem} → Consume m c m' c' → Reads m producer c → Reads m' producer c'
  unfolding clean_slot set_committed
  Consume-Reads begin r = (r, inv.output_at)
  Consume-Reads (empty e) r = r.0
  Consume-Reads (some_there e) r = ground (arith, inv)
  Consume-Reads (wait e) r = r
  Consume-Reads (see e) r = (r.0, (r.1, r.2, e, λ j q. ground (arith, inv.fresh j)))
  Consume-Reads listen r = (ground arith, r.1)
  Consume-Reads clean r = (r.0, (r.1.0, r.1.1, ground arith, r.1.3))
  Consume-Reads release r = (r.0, (r.1.0, r.1.1, ground arith, r.1.3))
  Consume-Reads finish r = r.0

  Consume-good :
      {c c' : Consumer} {m' : Mem}
      → Consume m c m' c'
      → Reads m producer c
      → (k : ℕ) → m'.recorded ≤ k
      → k < m'.pushed
      → (m'.q.buffer (slot_of k)).is_committed ≡ committed
      → Held m'.q (slot_of k) (m'.sent k)
  unfolding clean_slot set_committed
  Consume-good clean r k a b f = ground (arith, inv, inv.good k, slot_of_injective m.popped k)
  Consume-good release r k a b f = ground (arith, inv, inv.good k, slot_of_injective m.popped k)
  Consume-good mv r k a b f = ground (arith, inv, inv.good k)

  Consume-Covered :
      {c c' : Consumer} {m' : Mem}
      → Consume m c m' c'
      → Reads m producer c
      → (k : ℕ) → m'.recorded ≤ k
      → k < m'.pushed
      → Covered m' producer k
  unfolding clean_slot set_committed
  Consume-Covered listen r k a b = inv.covered k (omega arith) b
  Consume-Covered clean r k a b = elim (inv.covered k a b) [
    | inl f ↦ inl (ground (arith, slot_of_injective m.popped k))
    | inr w ↦ inr w
  ]
  Consume-Covered release r k a b = elim (inv.covered k a b) [
    | inl f ↦ inl (ground (arith, inv, slot_of_injective m.popped k))
    | inr w ↦ inr w
  ]
  Consume-Covered mv r k a b = inv.covered k a b

  Consume-vacant :
      {c c' : Consumer} {m' : Mem}
      → Consume m c m' c'
      → Reads m producer c
      → (k : ℕ) → m'.pushed ≤ k
      → k < m'.popped + capacity
      → (m'.q.buffer (slot_of k)).is_committed ≡ uncommitted
  unfolding clean_slot set_committed
  Consume-vacant finish r k a b = ground (arith, inv.vacant k)
  Consume-vacant mv r k a b = ground (arith, inv.vacant k)

  Consume-history :
      {c c' : Consumer} {m' : Mem}
      → Consume m c m' c'
      → Reads m producer c
      → (k : ℕ) → k < m'.recorded
      → m'.seen k ≡ m'.sent k
  Consume-history listen r k lt = ground (arith, inv.history k, inv.good m.popped)
  Consume-history mv r k lt = inv.history k lt

  Consume-indices :
      {c c' : Consumer} {m' : Mem}
      → Consume m c m' c'
      → Reads m producer c
      → (m'.q.input ≡ slot_of m'.pushed)
        × (m'.q.output ≡ slot_of m'.popped)
        × (m'.popped ≤ m'.pushed)
        × (m'.pushed ≤ m'.popped + size)
        × ((m'.popped ≤ m'.recorded) × (m'.recorded ≤ m'.pushed))
  unfolding clean_slot set_committed
  Consume-indices finish r = ground (arith, inv, advance-slot_of m.popped)
  Consume-indices mv r = ground (arith, inv)

  Consume-whole :
      {c c' : Consumer} {m' : Mem}
      → Consume m c m' c'
      → (s : ℕ) → length (m'.q.frame_buffer s) ≡ m'.q.max_frames
  unfolding clean_slot set_committed
  Consume-whole (clean {slot}) s = ground (
    arith,
    inv.whole s,
    length-clear_frames (rounds (m.q.buffer slot).num_frames) (m.q.frame_buffer slot),
  )
  Consume-whole mv s = inv.whole s

  pub Consume-Inv : {c' : Consumer} {m' : Mem} → Consume m c m' c' → Inv m' producer c'
  Consume-Inv mv =
      let indices = Consume-indices mv inv.reads in
      record {
        input_at = indices.0;
        output_at = indices.1;
        order = indices.2;
        bound = indices.3;
        listened_to = indices.4;
        fresh = Consume-fresh mv;
        unique = inv.unique;
        good = Consume-good mv inv.reads;
        covered = Consume-Covered mv inv.reads;
        vacant = Consume-vacant mv inv.reads;
        reads = Consume-Reads mv inv.reads;
        history = Consume-history mv inv.reads;
        whole = Consume-whole mv;
      }
