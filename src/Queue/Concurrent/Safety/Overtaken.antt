-- ===== src/Queue/Concurrent/Safety/Overtaken.antt =====
-- What happens to a producer that is overtaken by a whole turn of the ring between its read of
-- `input` and its compare-exchange.
use fk_prof.Prelude.{
  ℕ, zero, suc, ◌+◌, ◌≤◌, ◌<◌, ◌≡◌, ◌≢◌, refl, sym, ap, ◌∙◌, none, [], arith, inl, inr, update,
}
use fk_prof.Prelude.Int.{pos}
use mathlib.Core.Path.{subst}
use fk_prof.Queue.{CallTrace, size, capacity, init, advance, committed, nothing, pop}
use fk_prof.Queue.Concurrent.{
  Mem, Producer, idle, checked, Produce, call, load, room, win, fill, inform, commit, Consumer,
  resting, Consume, begin, some_there, see, listen, clean, release, finish, System, Step, produce,
  consume, Reach, here, next, Orderly, OrderlyMove, OrderlyStep,
}
use fk_prof.Queue.Concurrent.Inv.{slot_of, slot_of_injective, ticket}
use fk_prof.Queue.Concurrent.Safety.{SystemInv, Reach-Inv}

abbrev bare : CallTrace
bare = record { env_id = 0; num_frames = pos 0; frames = [] }

-- Producer 0 has read `input` as 0 and found room; no other thread is inside a call.
record At (n k p : ℕ) : Type 0 where
  s : System
  open s use *
  reach : Reach n s
  orderly : Orderly reach
  stale : s.producer 0 ≡ checked bare none 0 0
  free : s.producer 1 ≡ idle
  quiet : (j : ℕ) → ticket (s.producer j) ≡ none
  rest : s.consumer ≡ resting
  claims : s.mem.pushed ≡ k
  pops : s.mem.popped ≡ p

-- A step of a thread whose place is known by an equation.
Produce-At :
    {s : System} {m : Mem} {p p' : Producer} (i : ℕ)
    → s.producer i ≡ p
    → (mv : Produce s.mem p m p') → OrderlyMove mv
    → (st : Step s (record s { mem = m; producer = update s.producer i p' })) × OrderlyStep st
Produce-At {s} {m} {p' = p'} i e =
    subst
      (λ p.
        (mv : Produce s.mem p m p')
        → OrderlyMove mv
        → (st : Step s (record s { mem = m; producer = update s.producer i p' })) × OrderlyStep st)
      e (λ mv o. (produce i mv, o))

stale-Step :
    {s : System} {m : Mem} {p p' : Producer} (i : ℕ)
    → s.producer i ≡ p
    → Produce s.mem p m p'
    → Step s (record s { mem = m; producer = update s.producer i p' })
stale-Step {s} {m} {p' = p'} i e =
    subst
      (λ p. Produce s.mem p m p' → Step s (record s { mem = m; producer = update s.producer i p' }))
      e (λ mv. produce i mv)

Consume-At :
    {s : System} {m : Mem} {c c' : Consumer}
    → s.consumer ≡ c
    → (mv : Consume s.mem c m c')
    → (st : Step s (record s { mem = m; consumer = c' })) × OrderlyStep st
Consume-At {s} {m} {c' = c'} e =
    subst
      (λ c.
        (mv : Consume s.mem c m c')
        → (st : Step s (record s { mem = m; consumer = c' })) × OrderlyStep st)
      e (λ mv. (consume mv, tt))

not_full : (k p : ℕ) → p ≤ k → k < p + size → slot_of p ≢ advance (slot_of k)
unfolding advance
not_full k p le lt e = omega arith

-- Producer 1 pushes a trace from beginning to end.
push_one : {n k p : ℕ} → At n k p → k < p + size → At n (suc k) p
push_one {n} {k} {p} a lt =
    let first = Produce-At {s = a.s} 1 a.free (call bare none) (omega arith) in
    let r1 = next a.reach first.0 in
    let r2 = next r1 (produce 1 load) in
    let r3 = next r2 (produce 1 (room has_room)) in
    let r4 = next r3 (produce 1 (win refl)) in
    let r5 = next r4 (produce 1 fill) in
    let r6 = next r5 (produce 1 inform) in
    let r7 = next r6 (produce 1 commit) in
    record {
      s = _;
      reach = r7;
      orderly = ((((((((a.orderly, first.1), tt), tt), omega arith), tt), tt), tt));
      stale = a.stale;
      free = refl;
      quiet = λ j. ground (arith, a.quiet j);
      rest = a.rest;
      claims = omega (arith, a.claims);
      pops = a.pops;
    }
  where
    inv : SystemInv a.s
    inv = Reach-Inv a.reach a.orderly

    has_room : a.s.mem.q.output ≢ advance a.s.mem.q.input
    has_room e =
        not_full a.s.mem.pushed a.s.mem.popped (omega (arith, a.claims, a.pops, inv.order))
          (omega (arith, a.claims, a.pops)) (sym inv.output_at ∙ e ∙ ap advance inv.input_at)

-- The consumer pops one item, from beginning to end.
pop_one : {n k p : ℕ} → At n k p → p < k → At n k (suc p)
pop_one {n} {k} {p} a lt =
    let first = Consume-At {s = a.s} a.rest begin in
    let r1 = next a.reach first.0 in
    let r2 = next r1 (consume (some_there there)) in
    let r3 = next r2 (consume (see seen)) in
    let r4 = next r3 (consume listen) in
    let r5 = next r4 (consume clean) in
    let r6 = next r5 (consume release) in
    let r7 = next r6 (consume finish) in
    record {
      s = _;
      reach = r7;
      orderly = ((((((((a.orderly, first.1), tt), tt), tt), tt), tt), tt));
      stale = a.stale;
      free = a.free;
      quiet = a.quiet;
      rest = refl;
      claims = a.claims;
      pops = omega (arith, a.pops);
    }
  where
    inv : SystemInv a.s
    inv = Reach-Inv a.reach a.orderly

    reads : a.s.mem.recorded ≡ a.s.mem.popped
    reads = rw a.rest at inv.reads

    there : a.s.mem.q.output ≢ a.s.mem.q.input
    there e = omega (
      arith,
      inv,
      a.claims,
      a.pops,
      slot_of_injective a.s.mem.pushed a.s.mem.popped (sym inv.input_at ∙ sym e ∙ inv.output_at),
    )

    seen : (a.s.mem.q.buffer a.s.mem.q.output).is_committed ≡ committed
    seen =
        rw inv.output_at
          (elim (inv.covered a.s.mem.popped (omega (arith, reads))
            (omega (arith, a.claims, a.pops))) [
              | inl f ↦ f
              | inr (j, q) ↦ ground (arith, a.quiet j)
            ])

-- k pushes and no pop.
push_many : (n k : ℕ) → k ≤ size → At n k 0
unfolding init advance
push_many n zero h = record {
  s = _;
  reach =
      next (next (next here (produce 0 (call bare none))) (produce 0 load))
        (produce 0 (room (omega arith)));
  orderly = (((tt, omega arith), tt), tt);
  stale = refl;
  free = refl;
  quiet = λ j. ground arith;
  rest = refl;
  claims = refl;
  pops = refl;
}
push_many n (suc k) h = push_one (push_many n k (omega arith)) (omega arith)

-- The queue full again after one pop and one more push, with `input` where producer 0 has read it.
full_turn : (n : ℕ) → At n capacity 1
full_turn n = push_one (pop_one (push_many n size (omega arith)) (omega arith)) (omega arith)

-- For every frame limit there is a run, orderly but for its last step, in which a producer that
-- read `input` a whole turn of the ring ago wins its compare-exchange on a full queue. In the
-- state that the step leads to, `input` equals `output` and `pop` answers that the queue is empty, while
-- `capacity` claims have not been popped.
pub overtaken :
    (max_frames : ℕ)
    → (s : System) × (t : System) × (r : Reach max_frames s) × Orderly r
      × Step s t
      × (t.mem.q.output ≡ t.mem.q.input)
      × ((pop t.mem.q).0 ≡ nothing)
      × (t.mem.pushed ≡ t.mem.popped + capacity)
unfolding advance pop
overtaken n = (
  a.s,
  _,
  a.reach,
  a.orderly,
  stale-Step {s = a.s} 0 a.stale (win input_back),
  ends,
  ground (arith, ends),
  omega (arith, a.claims, a.pops),
)
  where
    a : At n capacity 1
    a = full_turn n

    inv : SystemInv a.s
    inv = Reach-Inv a.reach a.orderly

    input_back : a.s.mem.q.input ≡ 0
    input_back = omega (arith, inv.input_at, a.claims)

    ends : a.s.mem.q.output ≡ advance 0
    ends = omega (arith, inv.output_at, a.pops)
