-- ===== src/Handle/Tests.antt =====
-- The theorems on a sample, for an empty queue and for a full one.
use fk_prof.Prelude.{
  ℕ, zero, suc, ◌+◌, ◌≤◌, ◌<◌, ◌≡◌, refl, ◌∙◌, true, false, Bool-cases, inl, inr, none, some, List,
  [], ◌∷◌, ◌++◌, ◌==◌, ==_iff, if◌then◌else◌, length, length-append, arith,
}
use fk_prof.Prelude.Int.{ℤ, pos}
use fk_prof.Gc.{init}
use fk_prof.Queue.{CallFrame, CallTrace, CircularQueue, Item, size, push}
use fk_prof.Queue.Fifo.{offer}
use fk_prof.Queue.Limit.{init-max_frames, push-max_frames}
use fk_prof.Queue.Refine.{push_refines}
use fk_prof.Queue.Refine.Represents.{trim, Fits, Represents, init-Represents}
use fk_prof.ThreadMap.{ThreadMap}
use fk_prof.ThreadMap.Counts.{mapped, held, refs_of, Counted}
use fk_prof.Handle.{handle}
use fk_prof.Handle.Sample.{sampled, taken, sample_offers, full_queue_leaks}

-- One thread, whose bucket only the map refers to.
abbrev one_thread : ThreadMap
one_thread = record {
  entries = (10, 0) ∷ [];
  buckets = λ a. if a == 0 then some (record { tid = pos 3; refs = 1; local_epoch = 0 }) else none;
  next = 1;
  gc = init;
}

one_thread-Counted : Counted one_thread []
one_thread-Counted = record {
  counts = λ a. ground arith;
  alive = λ a. ground arith;
  unused = λ a h. ground arith;
}

abbrev asgct : ℕ → ℤ × List CallFrame
asgct env = (pos 1, record { lineno = pos 8; method_id = 7 } ∷ [])

trace-Fits : (n : ℕ) → n ≡ 4 → Fits n (sampled asgct 10)
trace-Fits n e = rw e (record { present = omega arith; room = omega arith })

abbrev Filled : ℕ → Type 0
Filled n =
    (q : CircularQueue) × (items : List Item) × Represents q items
    × (length items ≡ n)
    × (q.max_frames ≡ 4)

room-offer :
    (x : Item) (items : List Item) → length items < size → offer x items ≡ (true, items ++ (x ∷ []))
unfolding offer
room-offer x items h = elim (Bool-cases (length items == size)) [
  | inl full ↦ absurd (omega (arith, (==_iff (length items) size).0 full))
  | inr room ↦ rw room refl
]

fill : (n : ℕ) → n ≤ size → Filled n
fill zero h = (fk_prof.Queue.init 4, [], init-Represents 4, refl, init-max_frames 4)
fill (suc n) h =
    let (q, items, r, l, m) = fill n (omega arith) in
    let x : Item = (trim (sampled asgct 10), none) in
    let pushed = push_refines (sampled asgct 10) none q items r (trace-Fits q.max_frames m) in
    (
      (push (sampled asgct 10) none q).1,
      items ++ (x ∷ []),
      rw (room-offer x items (omega (arith, l))) at pushed.1,
      omega (arith, length-append items (x ∷ []), l),
      push-max_frames (sampled asgct 10) none q ∙ m,
    )

full : Filled size
full = fill size (omega arith)

sample_offers_example :
    let (accepted, items') = offer (trim (sampled asgct 10), some 0) [] in
    (q' : CircularQueue) × (m' : ThreadMap) × (handle
        (some 10)
        none
        99
        asgct
        (fk_prof.Queue.init 4)
        one_thread
      ≡ some (accepted, q', m'))
    × Represents q' items'
    × Counted m' (taken (some 0) [])
sample_offers_example =
    sample_offers 10 none 99 asgct (fk_prof.Queue.init 4) one_thread [] [] (init-Represents 4)
      one_thread-Counted (trace-Fits _ (init-max_frames 4))

full_queue_leaks_example :
    (q' : CircularQueue) × (m' : ThreadMap) × (handle (some 10) none 99 asgct full.0 one_thread
      ≡ some (false, q', m'))
    × Represents q' full.1
    × (refs_of (m'.buckets 0) ≡ suc (mapped 0 m'.entries + held 0 []))
full_queue_leaks_example =
    full_queue_leaks 10 0 none 99 asgct full.0 one_thread full.1 [] full.2 one_thread-Counted
      (trace-Fits full.0.max_frames full.4) full.3 refl
