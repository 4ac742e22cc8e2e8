-- ===== src/Processor/Handshake/Joined.antt =====
-- What stop (recorder/src/main/cpp/processor.cpp) waits for.
use fk_prof.Prelude.{ℕ, ◌+◌, ◌≤◌, ◌<◌, ◌≡◌, refl, true, false, Bool, arith}
use fk_prof.Processor.Handshake.{
  idle, stored, marked, spinning, System, Step, store_running, mark, thread_runs, thread_refused,
  store_stopped, still_marked, returns, told, refused, ends, built, Reach, here, next,
}

abbrev pub threads : System → ℕ
threads s = s.looping + s.leaving

record Inv (s : System) : Type 0 where
  pub few : threads s ≤ 1
  pub up : 0 < threads s → s.worker_done ≡ true
  pub none_idle : s.caller ≡ idle → s.is_running ≡ false → threads s ≡ 0
  pub none_stored : s.caller ≡ stored → threads s ≡ 0
  pub none_marked : s.caller ≡ marked → threads s ≡ 0
  pub stored_runs : s.caller ≡ stored → s.is_running ≡ true
  pub marked_runs : s.caller ≡ marked → s.is_running ≡ true
  pub marked_up : s.caller ≡ marked → s.worker_done ≡ true
  pub spinning_stopped : s.caller ≡ spinning → s.is_running ≡ false

built-Inv : (b : Bool) → Inv (built b)
built-Inv b = ground arith

Step-Inv : {s t : System} → Step s t → Inv s → Inv t
Step-Inv (store_running c f) h = ground (arith, h)
Step-Inv (mark c) h = ground (arith, h)
Step-Inv (thread_runs c) h = ground (arith, h)
Step-Inv (thread_refused c) h = ground (arith, h)
Step-Inv (store_stopped c f) h = ground (arith, h)
Step-Inv (still_marked c f) h = h
Step-Inv (returns c f) h = ground (arith, h)
Step-Inv (told n l f) h = ground (arith, h)
Step-Inv (refused n l) h = ground (arith, h)
Step-Inv (ends n l) h = ground (arith, h)

Reach-Inv : {b : Bool} {s : System} → Reach (built b) s → Inv s
Reach-Inv {b} here = built-Inv b
Reach-Inv (next r st) = Step-Inv st (Reach-Inv r)

-- In every state that any interleaving reaches, where no call is on and the flag isRunning_ is down, so
-- after each stop that has returned, no thread of the processor is left between the start of run
-- and its last access: what it uses may be deleted.
pub stop_joins :
    {b : Bool} {s : System}
    → Reach (built b) s
    → s.caller ≡ idle
    → s.is_running ≡ false
    → (s.looping ≡ 0) × (s.leaving ≡ 0)
stop_joins r c f = let none = (Reach-Inv r).none_idle c f in (omega arith, omega arith)

-- Stop has returned, and no thread is left.
abbrev pub Joins : System → Type 0
Joins s = (t : System) × Reach s t × (t.caller ≡ idle) × (t.looping ≡ 0) × (t.leaving ≡ 0)

-- In that case no step changes the state: stop never returns.
pub refused_stays :
    {s t : System}
    → s.caller ≡ spinning
    → s.looping ≡ 0
    → s.leaving ≡ 0
    → s.worker_done ≡ true
    → Step s t
    → s ≡ t
refused_stays c l v u (store_running c' f) = absurd (ground arith)
refused_stays c l v u (mark c') = absurd (ground arith)
refused_stays c l v u (thread_runs c') = absurd (ground arith)
refused_stays c l v u (thread_refused c') = absurd (ground arith)
refused_stays c l v u (store_stopped c' f) = absurd (ground arith)
refused_stays c l v u (still_marked c' f) = refl
refused_stays c l v u (returns c' f) = absurd (ground arith)
refused_stays c l v u (told n e f) = absurd (omega arith)
refused_stays c l v u (refused n e) = absurd (omega arith)
refused_stays c l v u (ends n e) = absurd (omega arith)
