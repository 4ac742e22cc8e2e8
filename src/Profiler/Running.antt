-- ===== src/Profiler/Running.antt =====
-- Whole lives of a profiler: its construction, any calls of its methods, and its end.
use fk_prof.Prelude.{
  ℕ, ◌≡◌, refl, ap, ◌∙◌, Bool, true, false, inl, Option, some, List, [], ◌∷◌, if◌then◌else◌,
}
use fk_prof.SignalHandler.{SignalHandler, Timer, update_sigprof_interval, stop_sigprof}
use fk_prof.LogWriter.{Text}
use fk_prof.Profiler.Pool.{Pool, modify}
use fk_prof.Profiler.Defs.{
  Action, bootstrap, ignored, ProcessorObject, Profiler, configure, start, stop, processor_interval,
}
use fk_prof.Profiler.Shape.{ptr, pool, Shape, state, modify-pool}
use fk_prof.Profiler.Linked.{Linked, Current, configure-Linked}
use fk_prof.Profiler.Calls.{update-intervals, stop-intervals, reads, start-steps, stop-steps}
use fk_prof.Profiler.Life.{Inv, Leaves, is_running-state}

module _ (allocate : List ℕ → ℕ) (rand : ℕ → ℕ) where
  -- The processor object of a linked profiler.
  abbrev worker : {v : Shape} {on : Bool} → Linked allocate rand v on → Bool → ProcessorObject
  worker {v} k on = record {
    log_writer = k.w;
    buffer = k.b;
    handler = k.h;
    interval = processor_interval allocate rand v.now.lo;
    is_running = on;
  }

  -- After the handler has been called and the flag has been set.
  abbrev switched :
      (v : Shape) {on : Bool}
      → Linked allocate rand v on
      → SignalHandler
      → Timer
      → Action
      → Bool
      → Shape
  switched v k o t a on = record v {
    handler = some (k.h, o);
    processor = some (k.r, worker k on);
    timer = t;
    action = a;
  }

  switched-Linked :
      (v : Shape) {on : Bool} (k : Linked allocate rand v on) (o : SignalHandler) (t : Timer)
      (a : Action) (on' : Bool)
      → o.timing_intervals ≡ k.object.timing_intervals
      → Linked allocate rand (switched v k o t a on') on'
  switched-Linked v k o t a on' e = record {
    s = k.s;
    f = k.f;
    w = k.w;
    b = k.b;
    h = k.h;
    r = k.r;
    name = k.name;
    object = o;
    path = k.path;
    file = k.file;
    writer = k.writer;
    buffer = k.buffer;
    handler = refl;
    intervals = e ∙ k.intervals;
    processor = refl;
  }

  -- What `start` and `stop` make of the two objects.
  handlers_switched :
      (v : Shape) {on : Bool} (k : Linked allocate rand v on) (o : SignalHandler)
      → modify k.h (λ _. o) (pool v.handler) ≡ (k.h, o) ∷ []
  handlers_switched v k o = rw k.handler (modify-pool k.h (λ _. o) k.object)

  processors_switched :
      (v : Shape) {on : Bool} (k : Linked allocate rand v on) (on' : Bool)
      → modify k.r (λ q. record q { is_running = on' }) (pool v.processor)
        ≡ (k.r, worker k on') ∷ []
  processors_switched v {on} k on' =
      rw k.processor (modify-pool k.r (λ q. record q { is_running = on' }) (worker k on))

  abbrev with_objects :
      Shape
      → Option ℕ
      → Option ℕ
      → Pool SignalHandler
      → Pool ProcessorObject
      → Timer
      → Action
      → Profiler
  with_objects v hp pp hs ps t a = record (state v) {
    handler = hp;
    processor = pp;
    timer = t;
    action = a;
    memory = record (state v).memory { handlers = hs; processors = ps };
  }

  switched-state :
      (v : Shape) {on : Bool} (k : Linked allocate rand v on) (o : SignalHandler) (t : Timer)
      (a : Action) (on' : Bool)
      → with_objects v
          (ptr v.handler)
          (ptr v.processor)
          (modify k.h (λ _. o) (pool v.handler))
          (modify k.r (λ q. record q { is_running = on' }) (pool v.processor))
          t
          a
        ≡ state (switched v k o t a on')
  switched-state v k o t a on' = λ i.
      with_objects v (ap ptr k.handler i) (ap ptr k.processor i) (handlers_switched v k o i)
        (processors_switched v k on' i) t a

  pub stop_kept :
      (ok : Bool) (v : Shape) (on : Bool)
      → Inv allocate rand v on
      → Leaves allocate rand (stop ok (state v))
  unfolding stop
  stop_kept ok v false inv =
      (v, false, rw (is_running-state allocate rand v false inv.linked) refl, inv)
  stop_kept ok v true inv =
      let k = inv.linked in
      let (res, o, t) = stop_sigprof ok k.object v.timer in
      (
        switched v k o t ignored false,
        false,
        stop-steps ok (state v) k.h k.r k.object (worker k true)
              (is_running-state allocate rand v true k) (ap ptr k.handler) (ap ptr k.processor)
              (reads v.handler k.h k.object k.handler)
              (reads v.processor k.r (worker k true) k.processor)
            ∙ ap some (switched-state v k o t ignored false),
        record {
          linked = switched-Linked v k o t ignored false (stop-intervals ok k.object v.timer);
          apart = inv.apart;
          clamped = inv.clamped;
          settled = λ e.
              let c = inv.settled e in
              record { wish = c.wish; lo = c.lo; hi = c.hi; frames = c.frames; reload = c.reload };
          running = λ e. absurd (cc);
        },
      )

  pub start_kept :
      (g : Text) (ok : Bool) (v : Shape) (on : Bool)
      → Inv allocate rand v on
      → (res : Bool) × (v' : Shape) × (start allocate rand g ok (state v) ≡ some (res, state v'))
        × Inv allocate rand v' true
  unfolding start
  start_kept g ok v true inv =
      (true, v, rw (is_running-state allocate rand v true inv.linked) refl, inv)
  start_kept g ok v false inv = go (settle v.reload refl)
    where
      -- `if (reloadConfig) configure();`
      Settled : Type 0
      Settled =
          (v₁ : Shape) × ((if v.reload then configure allocate rand g (state v) else some (state v))
            ≡ some (state v₁))
          × Linked allocate rand v₁ false
          × Current allocate rand v₁
          × (v₁.later ≡ v.later)

      chosen : Bool → Option Profiler
      chosen b = if b then configure allocate rand g (state v) else some (state v)

      settle : (b : Bool) → v.reload ≡ b → Settled
      settle true e =
          let (v₁, c, k, now, l, t) =
            configure-Linked allocate rand g v inv.apart (inl inv.linked) in
          (v₁, ap chosen e ∙ c, k, now, l)
      settle false e = (v, ap chosen e, inv.linked, inv.settled e, refl)

      go :
          Settled
          → (res : Bool) × (v' : Shape) × (start allocate rand g ok (state v)
              ≡ some (res, state v'))
            × Inv allocate rand v' true
      go (v₁, c, k, now, l) =
          let (res, o, t) = update_sigprof_interval ok k.object v₁.timer in
          (
            res,
            switched v₁ k o t bootstrap true,
            start-steps allocate rand g ok (state v) (state v₁) k.h k.r k.object (worker k false)
                  (is_running-state allocate rand v false inv.linked) c (ap ptr k.handler)
                  (ap ptr k.processor) (reads v₁.handler k.h k.object k.handler)
                  (reads v₁.processor k.r (worker k false) k.processor)
                ∙ ap (λ q. some (res, q)) (switched-state v₁ k o t bootstrap true),
            record {
              linked =
                  switched-Linked v₁ k o t bootstrap true (update-intervals ok k.object v₁.timer);
              apart = rw (now.wish, k.path) tt;
              clamped = rw l inv.clamped;
              settled = λ e. record {
                wish = now.wish;
                lo = now.lo;
                hi = now.hi;
                frames = now.frames;
                reload = now.reload;
              };
              running = λ e. now.reload;
            },
          )
