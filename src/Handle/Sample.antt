-- ===== src/Handle/Sample.antt =====
-- What a sample does to the queue and to the references.
use fk_prof.Prelude.{
  ℕ, suc, ◌+◌, ◌≡◌, refl, ap, ◌∙◌, Bool, false, Option, none, some, List, ◌∷◌, length, arith,
}
use fk_prof.Prelude.Int.{ℤ}
use fk_prof.Queue.{CallFrame, CallTrace, CircularQueue, Item, size, push}
use fk_prof.Queue.Fifo.{offer}
use fk_prof.Queue.Refine.{push_refines}
use fk_prof.Queue.Refine.Represents.{trim, Fits, Represents}
use fk_prof.ThreadMap.{ThreadMap, map_get, get}
use fk_prof.ThreadMap.Counts.{mapped, held, refs_of, Counted, get-Counted}
use fk_prof.Handle.{handle}

abbrev pub sampled : (ℕ → ℤ × List CallFrame) → ℕ → CallTrace
sampled asgct env = record { env_id = env; num_frames = (asgct env).0; frames = (asgct env).1 }

-- The references that are out after a sample: one more if the thread is in the map.
abbrev pub taken : Option ℕ → List ℕ → List ℕ
taken info out = elim info [ none ↦ out | some a ↦ a ∷ out ]

handle-get :
    (env : ℕ) (gc : Option Bool) (g : ℕ) (asgct : ℕ → ℤ × List CallFrame) (q : CircularQueue)
    (m m' : ThreadMap) (info : Option ℕ)
    → get env m ≡ some (info, m')
    → handle (some env) gc g asgct q m
      ≡ some ((push (sampled asgct env) info q).0, (push (sampled asgct env) info q).1, m')
unfolding handle
handle-get env gc g asgct q m m' info e = rw (handle, e) refl

-- A sample of a thread with a JNI environment never reads a bucket that is gone. It takes one
-- reference to the thread's bucket, if the thread is in the map, and offers the trace with it to
-- the queue, which takes it if fewer than `size` items are there. The conditions are that the
-- queue holds the items, that the counts are right, and that the trace fits in a slot.
pub sample_offers :
    (env : ℕ) (gc : Option Bool) (g : ℕ) (asgct : ℕ → ℤ × List CallFrame) (q : CircularQueue)
    (m : ThreadMap) (items : List Item) (out : List ℕ)
    → Represents q items
    → Counted m out
    → Fits q.max_frames (sampled asgct env)
    → let (accepted, items') = offer (trim (sampled asgct env), map_get env m.entries) items in
      (q' : CircularQueue) × (m' : ThreadMap) × (handle (some env) gc g asgct q m
        ≡ some (accepted, q', m'))
      × Represents q' items'
      × Counted m' (taken (map_get env m.entries) out)
sample_offers env gc g asgct q m items out r k fits =
    let info = map_get env m.entries in
    let (m', e, k') = get-Counted env m out k in
    let (done, r') = push_refines (sampled asgct env) info q items r fits in
    (
      (push (sampled asgct env) info q).1,
      m',
      handle-get env gc g asgct q m m' info e
          ∙ ap (λ b. some (b, (push (sampled asgct env) info q).1, m')) done,
      r',
      k',
    )

full-offer : (x : Item) (items : List Item) → length items ≡ size → offer x items ≡ (false, items)
unfolding offer
full-offer x items full = rw full refl

-- When the queue is full and the thread is in the map, the sample is dropped but its reference is
-- not let go: the queue holds what it held, and the bucket counts one reference more than there are
-- places in the map and references that were out before. The conditions are besides that the
-- queue holds the items, that the counts are right, and that the trace fits in a slot.
pub full_queue_leaks :
    (env a : ℕ) (gc : Option Bool) (g : ℕ) (asgct : ℕ → ℤ × List CallFrame) (q : CircularQueue)
    (m : ThreadMap) (items : List Item) (out : List ℕ)
    → Represents q items
    → Counted m out
    → Fits q.max_frames (sampled asgct env)
    → length items ≡ size
    → map_get env m.entries ≡ some a
    → (q' : CircularQueue) × (m' : ThreadMap) × (handle (some env) gc g asgct q m
        ≡ some (false, q', m'))
      × Represents q' items
      × (refs_of (m'.buckets a) ≡ suc (mapped a m'.entries + held a out))
full_queue_leaks env a gc g asgct q m items out r k fits full there =
    let (q', m', e, r', k') = sample_offers env gc g asgct q m items out r k fits in
    let refused = full-offer (trim (sampled asgct env), map_get env m.entries) items full in
    let k'' : Counted m' (a ∷ out) = rw there at k' in
    (
      q',
      m',
      e ∙ ap (λ (o : Bool × List Item). some (o.0, q', m')) refused,
      rw refused at r',
      ground (arith, k''.counts a),
    )
