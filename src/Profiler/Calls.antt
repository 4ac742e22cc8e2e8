-- ===== src/Profiler/Calls.antt =====
-- How the methods compute, one step for each thing that they read.
use fk_prof.Prelude.{
  ℕ, ◌≡◌, ◌≢◌, refl, Bool, true, false, Option, some, List, [], ◌∷◌, if◌then◌else◌, arith,
}
use fk_prof.SignalHandler.{
  SignalHandler, Timer, set_interval, update_sigprof_interval, stop_sigprof,
}
use fk_prof.LogWriter.{Text, contains}
use fk_prof.Profiler.Pool.{Pool, read, modify}
use fk_prof.Profiler.Defs.{
  bootstrap, ignored, ProcessorObject, Profiler, running_flag, is_running, configure, start, stop,
}
use fk_prof.Profiler.Shape.{Cell, pool, read-pool}

pub update-intervals :
    (ok : Bool) (h : SignalHandler) (t : Timer)
    → (update_sigprof_interval ok h t).1.timing_intervals ≡ h.timing_intervals
unfolding update_sigprof_interval set_interval
update-intervals ok h t = ground arith

pub stop-intervals :
    (ok : Bool) (h : SignalHandler) (t : Timer)
    → (stop_sigprof ok h t).1.timing_intervals ≡ h.timing_intervals
unfolding stop_sigprof set_interval
stop-intervals ok h t = ground arith

pub apart_from : (a s : ℕ) → contains (s ∷ []) a ≡ false → a ≢ s
unfolding contains
apart_from a s h e = ground arith

pub reads : {A : Type 0} (c : Cell A) (a : ℕ) (x : A) → c ≡ some (a, x) → read a (pool c) ≡ some x
reads c a x e = rw e (read-pool a x)

pub flag-read :
    (pointer : Option ℕ) (objects : Pool ProcessorObject) (r : ℕ) (o : ProcessorObject)
    → pointer ≡ some r
    → read r objects ≡ some o
    → running_flag pointer objects ≡ some o.is_running
unfolding running_flag
flag-read pointer objects r o e₁ e₂ = rw (e₁, running_flag, e₂) refl

pub is_running-read :
    (p : Profiler) (r : ℕ) (o : ProcessorObject)
    → p.processor ≡ some r
    → read r p.memory.processors ≡ some o
    → is_running p ≡ some o.is_running
unfolding is_running
is_running-read p r o = flag-read p.processor p.memory.processors r o

pub start-steps :
    (allocate : List ℕ → ℕ) (rand : ℕ → ℕ) (g : Text) (ok : Bool) (p p₁ : Profiler) (h r : ℕ)
    (o : SignalHandler) (q : ProcessorObject)
    → is_running p ≡ some false
    → (if p.reload_config then configure allocate rand g p else some p) ≡ some p₁
    → p₁.handler ≡ some h
    → p₁.processor ≡ some r
    → read h p₁.memory.handlers ≡ some o
    → read r p₁.memory.processors ≡ some q
    → start allocate rand g ok p
      ≡ some (
        (update_sigprof_interval ok o p₁.timer).0,
        record p₁ {
          action = bootstrap;
          timer = (update_sigprof_interval ok o p₁.timer).2;
          memory = record p₁.memory {
            handlers = modify h (λ _. (update_sigprof_interval ok o p₁.timer).1) p₁.memory.handlers;
            processors = modify r (λ q. record q { is_running = true }) p₁.memory.processors;
          };
        },
      )
unfolding start
start-steps allocate rand g ok p p₁ h r o q e c eh er oh or = rw (e, c, eh, er, oh, or) refl

pub stop-steps :
    (ok : Bool) (p : Profiler) (h r : ℕ) (o : SignalHandler) (q : ProcessorObject)
    → is_running p ≡ some true
    → p.handler ≡ some h
    → p.processor ≡ some r
    → read h p.memory.handlers ≡ some o
    → read r p.memory.processors ≡ some q
    → stop ok p
      ≡ some (record p {
        action = ignored;
        timer = (stop_sigprof ok o p.timer).2;
        memory = record p.memory {
          handlers = modify h (λ _. (stop_sigprof ok o p.timer).1) p.memory.handlers;
          processors = modify r (λ q. record q { is_running = false }) p.memory.processors;
        };
      })
unfolding stop
stop-steps ok p h r o q e eh er oh or = rw (e, eh, er, oh, or) refl
