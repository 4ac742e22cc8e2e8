-- ===== src/Queue/Concurrent/Safety.antt =====
-- What holds in every state that the queue reaches under an orderly schedule.
pub mod Overtaken
use fk_prof.Prelude.{
  ℕ, ◌+◌, ◌≤◌, ◌<◌, ◌≡◌, ◌≢◌, refl, sym, ap, ◌∙◌, Option, none, some, arith, update, inl, inr,
}
use fk_prof.Queue.{size, capacity, committed}
use fk_prof.Queue.Concurrent.{
  Mem, Producer, idle, claimed, written, informed, Consumer, polling, ready, listened, cleaned,
  released, System, Step, produce, consume, Reach, here, next, Orderly, OrderlyStep,
}
use fk_prof.Queue.Concurrent.Inv.{
  slot_of, slot_of_injective, ticket, IsFresh, Alone, Reads, Inv, start-Inv,
}
use fk_prof.Queue.Concurrent.Producing.{Produce-Inv}
use fk_prof.Queue.Concurrent.Consuming.{Consume-Inv}

abbrev pub SystemInv : System → Type 0
SystemInv s = Inv s.mem s.producer s.consumer

Step-Inv : {s t : System} (st : Step s t) → OrderlyStep st → SystemInv s → SystemInv t
Step-Inv (produce i mv) o inv = Produce-Inv inv i mv o
Step-Inv (consume mv) o inv = Consume-Inv inv mv

pub Reach-Inv : {n : ℕ} {s : System} (r : Reach n s) → Orderly r → SystemInv s
Reach-Inv {n} here o = start-Inv n
Reach-Inv (next r st) o = Step-Inv st o.1 (Reach-Inv r o.0)

-- The slot that a producer fills after its compare-exchange, until it has committed it.
abbrev pub filling : Producer → Option ℕ
filling (claimed t info slot k) = some slot
filling (written t info slot k) = some slot
filling (informed t info slot k) = some slot
filling _ = none

-- The slot that the consumer reads or clears.
abbrev pub draining : Consumer → Option ℕ
draining (ready slot) = some slot
draining (listened slot) = some slot
draining (cleaned slot) = some slot
draining (released slot) = some slot
draining _ = none

-- A slot that a producer fills is the slot of its ticket, which lies between the counters.
abbrev Filling : Mem → Producer → ℕ → Type 0
Filling m p a = (k : ℕ) × (ticket p ≡ some k) × (a ≡ slot_of k) × (m.popped ≤ k) × (k < m.pushed)

filling-Filling :
    (m : Mem) (p : Producer) (a : ℕ) → IsFresh m p → filling p ≡ some a → Filling m p a
filling-Filling m (claimed t info slot k) a f e = (k, refl, ground arith, f.from, f.below)
filling-Filling m (written t info slot k) a f e =
    (k, refl, ground arith, ground arith, ground arith)
filling-Filling m (informed t info slot k) a f e =
    (k, refl, ground arith, ground arith, ground arith)
filling-Filling m (idle) a f e = absurd (cc)
filling-Filling m _ a f e = absurd (cc)

ticket-filling :
    (m : Mem) (p : Producer) (k : ℕ)
    → IsFresh m p
    → ticket p ≡ some k
    → filling p ≡ some (slot_of k)
ticket-filling m (claimed t info slot k) j f e = ground arith
ticket-filling m _ j f e = ground arith

draining-Draining :
    (m : Mem) (producer : ℕ → Producer) (c : Consumer) (a : ℕ)
    → Reads m producer c
    → draining c ≡ some a
    → (a ≡ slot_of m.popped) × Alone m producer
draining-Draining m producer (ready slot) a r e = (ground arith, r.1.3)
draining-Draining m producer (listened slot) a r e = (ground arith, r.1.3)
draining-Draining m producer (cleaned slot) a r e = (ground arith, r.1.3)
draining-Draining m producer (released slot) a r e = (ground arith, r.1.3)
draining-Draining m producer _ a r e = absurd (cc)

-- In every state that an orderly schedule reaches, whatever the interleaving: the k-th call of the
-- listener had the item of the k-th successful compare-exchange, with exactly its frames; there are
-- no more such calls than claims; and never are more than `size` claims unfinished.
pub fifo :
    {n : ℕ} {s : System} (r : Reach n s)
    → Orderly r
    → ((k : ℕ) → k < s.mem.recorded → s.mem.seen k ≡ s.mem.sent k)
      × (s.mem.recorded ≤ s.mem.pushed)
      × (s.mem.pushed ≤ s.mem.popped + size)
fifo r o = let inv = Reach-Inv r o in (inv.history, inv.listened_to.1, inv.bound)

-- In every state that an orderly schedule reaches, no two producers fill the same slot, and none
-- fills the slot that the consumer reads or clears; all these slots lie in the buffer.
pub exclusive :
    {n : ℕ} {s : System} (r : Reach n s)
    → Orderly r
    → (i a : ℕ) → filling (s.producer i) ≡ some a
    → (a < capacity)
      × ((j : ℕ) → filling (s.producer j) ≡ some a → i ≡ j)
      × (draining s.consumer ≢ some a)
exclusive {s} r o i a q = (
  ground (arith, at i a q),
  λ j q'. ground (
    arith,
    inv.bound,
    at i a q,
    at j a q',
    inv.unique i j (at i a q).0,
    slot_of_injective (at i a q).0 (at j a q').0,
  ),
  drained,
)
  where
    inv : SystemInv s
    inv = Reach-Inv r o

    at : (j b : ℕ) → filling (s.producer j) ≡ some b → Filling s.mem (s.producer j) b
    at j b e = filling-Filling s.mem (s.producer j) b (inv.fresh j) e

    drained : draining s.consumer ≢ some a
    drained d =
        let w = draining-Draining s.mem s.producer s.consumer a inv.reads d in
        let f = at i a q in
        w.1 i (
          f.1
          ∙ ap some (
              slot_of_injective f.0 s.mem.popped (omega (arith, f, w)) (omega (arith, inv.bound, f))
                (omega (arith, f))))

-- In every state that an orderly schedule reaches, if the consumer waits on a slot that is not
-- committed, then some producer is filling that very slot: no claimed slot is left behind.
pub wait_has_owner :
    {n : ℕ} {s : System} (r : Reach n s)
    → Orderly r
    → (slot : ℕ) → s.consumer ≡ polling slot
    → (s.mem.q.buffer slot).is_committed ≢ committed
    → (i : ℕ) × (filling (s.producer i) ≡ some slot)
wait_has_owner {s} r o slot c ne = elim (inv.covered s.mem.popped (omega (arith, rd)) rd.2) [
  | inl f ↦ absurd (ne (rw rd.1 f))
  | inr (i, q) ↦
      (i, ticket-filling s.mem (s.producer i) s.mem.popped (inv.fresh i) q ∙ ap some (sym rd.1))
]
  where
    inv : SystemInv s
    inv = Reach-Inv r o

    rd : Reads s.mem s.producer (polling slot)
    rd = rw c at inv.reads
