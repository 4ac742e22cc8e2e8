-- ===== src/Queue/Concurrent/Producing.antt =====
-- A step of a producer keeps the invariant.
use fk_prof.Prelude.{
  ℕ, ◌+◌, ◌≤◌, ◌<◌, ◌≡◌, ◌≢◌, refl, some, arith, update, ℕ_discrete, update_self, update_ne, inl,
  inr, length,
}
use fk_prof.Queue.{
  capacity, size, committed, uncommitted, rounds, write, set_info, set_committed, advance,
}
use fk_prof.Queue.Frames.{length-copy_frames, take-copy_frames}
use fk_prof.Queue.Refine.Represents.{Held}
use fk_prof.Queue.Concurrent.{
  Mem, Producer, claimed, written, informed, Consumer, resting, entered, polling, ready, listened,
  cleaned, released, Produce, call, load, full, room, win, lose, fill, inform, commit, OrderlyMove,
}
use fk_prof.Queue.Concurrent.Inv.{
  slot_of, slot_of_injective, advance-slot_of, ticket, IsFresh, Alone, Late, Reads, Covered, Inv,
}
use fk_prof.Queue.Concurrent.Frame.{Keeps, IsFresh-kept}

-- The slot whose memory a move writes; none is `capacity`.
abbrev touched : Producer → ℕ
touched (claimed t info slot k) = slot
touched (written t info slot k) = slot
touched (informed t info slot k) = slot
touched _ = capacity

module _ {m : Mem} {producer : ℕ → Producer} {consumer : Consumer} (inv : Inv m producer consumer)
    (i : ℕ) where
  -- A ticket in use lies between the counters.
  below : (j k : ℕ) → ticket (producer j) ≡ some k → (m.popped ≤ k) × (k < m.pushed)
  below j k e = ground (arith, inv.fresh j)

  Produce-Keeps : {p p' : Producer} {m' : Mem} → Produce m p m' p' → Keeps m m' (touched p)
  unfolding write set_info set_committed
  Produce-Keeps (win e) = ground arith
  Produce-Keeps mv = ground arith

  -- The moving producer.
  Produce-own :
      {p p' : Producer} {m' : Mem} (mv : Produce m p m' p')
      → producer i ≡ p
      → OrderlyMove mv
      → IsFresh m p
      → IsFresh m' p'
  unfolding advance write set_info set_committed
  Produce-own (call t info) h o f = o
  Produce-own load h o f = (f, inv.input_at, omega arith)
  Produce-own (full e) h o f = tt
  Produce-own (room e) h o f = (f.0, f.1, f.2, λ e'. ground (arith, inv))
  Produce-own (win {slot} {ticket = k} e) h o f =
      ground (arith, inv, slot_of_injective m.pushed k, inv.vacant m.pushed)
  Produce-own (lose e) h o f = f.0
  Produce-own (fill {t} {slot}) h o f = ground (
    arith,
    inv.whole slot,
    take-copy_frames (rounds t.num_frames) t.frames (m.q.frame_buffer slot),
  )
  Produce-own inform h o f = ground arith
  Produce-own commit h o f = tt

  -- The claims stay apart.
  Produce-unique :
      {p p' : Producer} {m' : Mem} (mv : Produce m p m' p')
      → producer i ≡ p
      → OrderlyMove mv
      → (a b k : ℕ) → ticket (update producer i p' a) ≡ some k
      → ticket (update producer i p' b) ≡ some k
      → a ≡ b
  Produce-unique (win {slot} {ticket = tk} e) h o a b k qa qb = ground (
    arith,
    inv,
    below a k,
    below b k,
    inv.unique a b k,
    slot_of_injective m.pushed tk,
    inv.fresh i,
  )
  Produce-unique mv h o a b k qa qb =
      ground (arith, inv.unique a b k, inv.unique i b k, inv.unique a i k)

  Produce-away :
      {p p' : Producer} {m' : Mem}
      → Produce m p m' p'
      → producer i ≡ p
      → (j k : ℕ) → i ≢ j
      → ticket (producer j) ≡ some k
      → (slot_of k ≢ touched p) × (m'.popped ≤ k)
  Produce-away (win e) h j k ne q = ground (arith, below j k)
  Produce-away mv h j k ne q = ground (arith, inv, below j k, inv.fresh i, inv.unique i j k)

  Produce-fresh :
      {p p' : Producer} {m' : Mem} (mv : Produce m p m' p')
      → producer i ≡ p
      → OrderlyMove mv
      → (j : ℕ) → IsFresh m' (update producer i p' j)
  Produce-fresh {p} {p'} {m'} mv h o j = elim (ℕ_discrete i j) [
    | yes e ↦ rw (← e, update_self producer i p') (Produce-own mv h o (rw h at (inv.fresh i)))
    | no ne ↦ rw (update_ne producer i j p' ne) (
        IsFresh-kept (Produce-Keeps mv) (producer j) (λ k q. Produce-away mv h j k ne q)
          (inv.fresh j))
  ]

  Produce-good :
      {p p' : Producer} {m' : Mem} (mv : Produce m p m' p')
      → producer i ≡ p
      → IsFresh m p
      → OrderlyMove mv
      → (k : ℕ) → m'.recorded ≤ k
      → k < m'.pushed
      → (m'.q.buffer (slot_of k)).is_committed ≡ committed
      → Held m'.q (slot_of k) (m'.sent k)
  unfolding write set_info set_committed
  Produce-good (win e) h f o k a b c = ground (arith, inv.good k, inv.vacant k)
  Produce-good (commit {ticket = tk}) h f o k a b c =
      ground (arith, inv, inv.good k, slot_of_injective k tk)
  Produce-good mv h f o k a b c = ground (arith, inv.good k)

  Produce-Covered :
      {p p' : Producer} {m' : Mem} (mv : Produce m p m' p')
      → producer i ≡ p
      → IsFresh m p
      → OrderlyMove mv
      → (k : ℕ) → m'.recorded ≤ k
      → k < m'.pushed
      → Covered m' (update producer i p') k
  unfolding write set_info set_committed
  Produce-Covered (win {ticket = tk} e) h f o k a b = elim (ℕ_discrete k m.pushed) [
    | yes e' ↦ inr (i, ground (arith, inv, slot_of_injective m.pushed tk))
    | no ne ↦ elim (inv.covered k a (omega arith)) [
      | inl c ↦ inl c
      | inr (j, q) ↦ inr (j, ground arith)
    ]
  ]
  Produce-Covered (commit {slot}) h f o k a b = elim (inv.covered k a b) [
    | inl c ↦ inl (ground arith)
    | inr (j, q) ↦ elim (ℕ_discrete i j) [
      | yes e ↦ inl (ground arith)
      | no ne ↦ inr (j, ground arith)
    ]
  ]
  Produce-Covered mv h f o k a b = elim (inv.covered k a b) [
    | inl c ↦ inl (ground arith)
    | inr (j, q) ↦ inr (j, ground arith)
  ]

  Produce-vacant :
      {p p' : Producer} {m' : Mem} (mv : Produce m p m' p')
      → producer i ≡ p
      → IsFresh m p
      → (k : ℕ) → m'.pushed ≤ k
      → k < m'.popped + capacity
      → (m'.q.buffer (slot_of k)).is_committed ≡ uncommitted
  unfolding write set_info set_committed
  Produce-vacant (win e) h f k a b = inv.vacant k (omega arith) b
  Produce-vacant mv h f k a b = ground (arith, inv.vacant k)

  -- The consumer's slot is not the mover's.
  Produce-Alone :
      {p p' : Producer} {m' : Mem} (mv : Produce m p m' p')
      → producer i ≡ p
      → OrderlyMove mv
      → m.popped < m.pushed
      → Alone m producer
      → Alone m' (update producer i p')
  Produce-Alone (win {ticket = tk} e) h o lt al j q =
      ground (arith, inv, al j, slot_of_injective m.pushed tk, inv.fresh i)
  Produce-Alone mv h o lt al j q = ground (arith, al i, al j)

  Produce-flag :
      {p p' : Producer} {m' : Mem} (mv : Produce m p m' p')
      → producer i ≡ p
      → Alone m producer
      → (m'.popped ≡ m.popped)
        × (m'.recorded ≡ m.recorded)
        × (m.pushed ≤ m'.pushed)
        × ((m'.q.buffer (slot_of m.popped)).is_committed
            ≡ (m.q.buffer (slot_of m.popped)).is_committed)
  unfolding write set_info set_committed
  Produce-flag (win e) h al = ground arith
  Produce-flag mv h al = ground (arith, inv, inv.fresh i, al i, slot_of_injective m.popped)

  Produce-counts :
      {p p' : Producer} {m' : Mem} (mv : Produce m p m' p')
      → (m'.popped ≡ m.popped) × (m'.recorded ≡ m.recorded) × (m.pushed ≤ m'.pushed)
  Produce-counts (win e) = ground arith
  Produce-counts mv = ground arith

  -- While the consumer works on a slot. `Late` is what `Reads` says from `ready` on.
  Produce-Late :
      {p p' : Producer} {m' : Mem} (flag s : ℕ) (mv : Produce m p m' p')
      → producer i ≡ p
      → OrderlyMove mv
      → Late m producer flag s
      → Late m' (update producer i p') flag s
  Produce-Late flag s mv h o r =
      let f = Produce-flag mv h r.3 in
      (ground (arith, f), ground (arith, f), ground (arith, f), Produce-Alone mv h o r.1 r.3)

  Produce-Reads :
      {p p' : Producer} {m' : Mem} (mv : Produce m p m' p')
      → producer i ≡ p
      → OrderlyMove mv
      → (c : Consumer) → Reads m producer c
      → Reads m' (update producer i p') c
  Produce-Reads mv h o resting r = ground (arith, Produce-counts mv)
  Produce-Reads mv h o (entered s) r = ground (arith, Produce-counts mv)
  Produce-Reads mv h o (polling s) r = ground (arith, Produce-counts mv)
  Produce-Reads mv h o (ready s) r =
      (ground (arith, Produce-counts mv), Produce-Late committed s mv h o r.1)
  Produce-Reads mv h o (listened s) r =
      (ground (arith, Produce-counts mv), Produce-Late committed s mv h o r.1)
  Produce-Reads mv h o (cleaned s) r =
      (ground (arith, Produce-counts mv), Produce-Late committed s mv h o r.1)
  Produce-Reads mv h o (released s) r =
      (ground (arith, Produce-counts mv), Produce-Late uncommitted s mv h o r.1)

  Produce-indices :
      {p p' : Producer} {m' : Mem} (mv : Produce m p m' p')
      → producer i ≡ p
      → OrderlyMove mv
      → IsFresh m p
      → (m'.q.input ≡ slot_of m'.pushed)
        × (m'.q.output ≡ slot_of m'.popped)
        × (m'.popped ≤ m'.pushed)
        × (m'.pushed ≤ m'.popped + size)
        × ((m'.popped ≤ m'.recorded) × (m'.recorded ≤ m'.pushed))
  unfolding write set_info set_committed
  Produce-indices (win {ticket = tk} e) h o f =
      ground (arith, inv, slot_of_injective m.pushed tk, advance-slot_of tk)
  Produce-indices mv h o f = ground (arith, inv)

  Produce-history :
      {p p' : Producer} {m' : Mem} (mv : Produce m p m' p')
      → (k : ℕ) → k < m'.recorded
      → m'.seen k ≡ m'.sent k
  Produce-history (win e) k lt = ground (arith, inv, inv.history k)
  Produce-history mv k lt = inv.history k lt

  Produce-whole :
      {p p' : Producer} {m' : Mem} (mv : Produce m p m' p')
      → (s : ℕ) → length (m'.q.frame_buffer s) ≡ m'.q.max_frames
  unfolding write set_info set_committed
  Produce-whole (fill {t} {slot}) s = ground (
    arith,
    inv.whole s,
    length-copy_frames (rounds t.num_frames) t.frames (m.q.frame_buffer slot),
  )
  Produce-whole mv s = inv.whole s

  pub Produce-Inv :
      {p' : Producer} {m' : Mem} (mv : Produce m (producer i) m' p')
      → OrderlyMove mv
      → Inv m' (update producer i p') consumer
  Produce-Inv mv o =
      let indices = Produce-indices mv refl o (inv.fresh i) in
      record {
        input_at = indices.0;
        output_at = indices.1;
        order = indices.2;
        bound = indices.3;
        listened_to = indices.4;
        fresh = Produce-fresh mv refl o;
        unique = Produce-unique mv refl o;
        good = Produce-good mv refl (inv.fresh i) o;
        covered = Produce-Covered mv refl (inv.fresh i) o;
        vacant = Produce-vacant mv refl (inv.fresh i);
        reads = Produce-Reads mv refl o consumer inv.reads;
        history = Produce-history mv;
        whole = Produce-whole mv;
      }
