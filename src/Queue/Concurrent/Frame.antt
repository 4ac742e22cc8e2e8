-- ===== src/Queue/Concurrent/Frame.antt =====
-- A step touches one slot at most: what it leaves alone, and what follows for the other threads.
use fk_prof.Prelude.{ℕ, ◌≤◌, ◌<◌, ◌≡◌, ◌≢◌, refl, Option, some, arith}
use fk_prof.Queue.{capacity, committed}
use fk_prof.Queue.Refine.Represents.{Held}
use fk_prof.Queue.Concurrent.{
  Mem, Producer, idle, trying, loaded, checked, claimed, written, informed,
}
use fk_prof.Queue.Concurrent.Inv.{slot_of, ticket, IsFresh, Claim, Filled}

pub record Keeps (m m' : Mem) (slot : ℕ) : Type 0 where
  pub others :
      (s : ℕ)
      → s ≢ slot
      → (m'.q.buffer s ≡ m.q.buffer s) × (m'.q.frame_buffer s ≡ m.q.frame_buffer s)
  pub max_same : m'.q.max_frames ≡ m.q.max_frames
  pub pushed_le : m.pushed ≤ m'.pushed
  pub popped_le : m.popped ≤ m'.popped
  pub sent_same : (k : ℕ) → k < m.pushed → m'.sent k ≡ m.sent k

module _ {m m' : Mem} {slot : ℕ} (kept : Keeps m m' slot) where
  Claim-kept :
      (t : fk_prof.Queue.CallTrace) (info : Option ℕ) (s k : ℕ)
      → (slot_of k ≢ slot) × (m'.popped ≤ k)
      → Claim m t info s k
      → Claim m' t info s k
  Claim-kept t info s k away c = ground (arith, kept, kept.others s, kept.sent_same k, c)

  Filled-kept : (t : fk_prof.Queue.CallTrace) (s : ℕ) → s ≢ slot → Filled m.q t s → Filled m'.q t s
  Filled-kept t s away f = ground (arith, kept.others s)

  -- The locals of a producer stay true if its slot is not the one touched.
  pub IsFresh-kept :
      (p : Producer)
      → ((k : ℕ) → ticket p ≡ some k → (slot_of k ≢ slot) × (m'.popped ≤ k))
      → IsFresh m p
      → IsFresh m' p
  IsFresh-kept idle away f = tt
  IsFresh-kept (trying t info) away f = ground (arith, kept)
  IsFresh-kept (loaded t info s k) away f = ground (arith, kept)
  IsFresh-kept (checked t info s k) away f = ground (arith, kept)
  IsFresh-kept (claimed t info s k) away f = Claim-kept t info s k (away k refl) f
  IsFresh-kept (written t info s k) away f =
      (Claim-kept t info s k (away k refl) f.0, Filled-kept t s (ground (arith, away k)) f.1)
  IsFresh-kept (informed t info s k) away f = (
    Claim-kept t info s k (away k refl) f.0,
    Filled-kept t s (ground (arith, away k)) f.1,
    ground (arith, kept.others s, away k),
  )

  pub Held-kept : (s : ℕ) (x : fk_prof.Queue.Item) → s ≢ slot → Held m.q s x → Held m'.q s x
  Held-kept s x away h = ground (arith, kept.others s)
