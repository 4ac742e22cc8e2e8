-- ===== src/Agent/Events.antt =====
-- What the agent (recorder/src/main/cpp/agent.cpp) does over its life in a JVM.
use fk_prof.Prelude.{
  ℕ, Bool, true, false, ◌&&◌, Option, some, List, [], ◌∷◌, if◌then◌else◌, ◌≡◌, refl, ap, ◌∙◌, inl,
  inr, Bool-cases,
}
use fk_prof.Agent.{Text, ConfigurationOptions, new_options, parse_arguments}
use fk_prof.Profiler.Pool.{◌>>=◌}
use fk_prof.Profiler.Defs.{stop}
use fk_prof.Profiler.Shape.{Shape, state}
use fk_prof.Profiler.Life.{Inv, is_running-state}
use fk_prof.Profiler.Running.{stop_kept}
use fk_prof.Profiler.History.{construct_kept, destroy-remains, remains}
use fk_prof.ThreadMap.{ThreadMap}
use fk_prof.Agent.Lifecycle.{
  Agent, env_safe, Event, vm_init, vm_death, class_load, class_prepare, compiled_method_load,
  thread_start, thread_end, native_method_bind, enabled, callback, deliver, on_vm_init, on_vm_death,
  on_load, on_unload, given, load_with, bare_agent,
}

-- The agent with a profiler in a well-formed state, whose main thread has not been seen.
abbrev pub agent_with : ConfigurationOptions → Bool → Shape → ThreadMap → Agent
agent_with c running v m = record {
  configuration = some c;
  prof = some (state v);
  controller = some running;
  main_started = false;
  threads = m;
}

module _ (allocate : List ℕ → ℕ) (rand : ℕ → ℕ) (c : ConfigurationOptions) (m : ThreadMap) where
  -- Such an agent is what is left.
  abbrev pub StaysWith : Option Agent → Type 0
  StaysWith o =
      (running : Bool) × (v : Shape) × (on : Bool) × (o ≡ some (agent_with c running v m))
      × Inv allocate rand v on

  init_stays :
      (listed has_env running : Bool) (v : Shape) (on : Bool)
      → Inv allocate rand v on
      → StaysWith (on_vm_init env_safe listed has_env (agent_with c running v m))
  unfolding on_vm_init
  init_stays listed has_env running v on inv =
      elim (Bool-cases (listed && (given c.host && given c.port))) [
        | inl e ↦ (if has_env then true else running, v, on, rw e refl, inv)
        | inr e ↦ (running, v, on, rw e refl, inv)
      ]

  death_stays :
      (ok running : Bool) (v : Shape) (on : Bool)
      → Inv allocate rand v on
      → StaysWith (on_vm_death ok (agent_with c running v m))
  unfolding on_vm_death
  death_stays ok running v on inv =
      let a = agent_with c running v m in
      let unless_idle = λ (b : Bool).
        (if b then stop ok (state v) >>= (λ p'. some (record a { prof = some p' })) else some a) in
      let asked = ap (λ o. o >>= unless_idle) (is_running-state allocate rand v on inv.linked) in
      elim (Bool-cases on) [
        | inr e ↦ (running, v, on, asked ∙ ap unless_idle e, inv)
        | inl e ↦
            let (v', on', q, inv') = stop_kept allocate rand ok v on inv in
            (
              running,
              v',
              on',
              asked
                  ∙ ap unless_idle e
                  ∙ ap (λ o. o >>= (λ p'. some (record a { prof = some p' }))) q,
              inv',
            )
      ]

  event_stays :
      (x : Event) (running : Bool) (v : Shape) (on : Bool)
      → Inv allocate rand v on
      → StaysWith (
          if enabled env_safe x
          then callback allocate rand env_safe x (agent_with c running v m)
          else some (agent_with c running v m))
  event_stays (vm_init listed has_env) running v on inv = init_stays listed has_env running v on inv
  event_stays (vm_death ok) running v on inv = death_stays ok running v on inv
  event_stays class_load running v on inv = (running, v, on, refl, inv)
  event_stays class_prepare running v on inv = (running, v, on, refl, inv)
  event_stays compiled_method_load running v on inv = (running, v, on, refl, inv)
  event_stays (thread_start name env tid g ok) running v on inv = (running, v, on, refl, inv)
  event_stays (thread_end env) running v on inv = (running, v, on, refl, inv)
  event_stays native_method_bind running v on inv = (running, v, on, refl, inv)

  deliver_stays :
      (es : List Event) (running : Bool) (v : Shape) (on : Bool)
      → Inv allocate rand v on
      → StaysWith (deliver allocate rand env_safe es (agent_with c running v m))
  unfolding deliver
  deliver_stays [] running v on inv = (running, v, on, refl, inv)
  deliver_stays (x ∷ es) running v on inv =
      let (running₁, v₁, on₁, e, inv₁) = event_stays x running v on inv in
      let (running₂, v₂, on₂, e', inv₂) = deliver_stays es running₁ v₁ on₁ inv₁ in
      (running₂, v₂, on₂, ap (λ o. o >>= deliver allocate rand env_safe es) e ∙ e', inv₂)

  -- Where GETENV_NEW_THREAD_ASYNC_UNSAFE is not defined, as on Linux: if the options are parsed and
  -- JVMTI answers well, Agent_OnLoad returns 0 and an agent, and after any events no memory that is gone has been
  -- used and Agent_OnUnload leaves of the profiler only its path. But no event of a thread is
  -- delivered: whatever the options and the events, the main thread is not noticed and the map of the
  -- threads is as it was, without a bucket for any of them.
  pub unnoticed_threads :
      (options : Option Text) (generated : Text) (es : List Event)
      → parse_arguments options new_options ≡ some c
      → (a : Agent) × (running : Bool) × (v : Shape) × (on_load allocate rand true true true options
            generated m
          ≡ some (0, a))
        × (deliver allocate rand env_safe es a ≡ some (agent_with c running v m))
        × (on_unload (agent_with c running v m) ≡ some (some (remains v)))
  unfolding on_load load_with on_unload
  unnoticed_threads options generated es parsed =
      let (v₁, on₁, e₁, inv₁) =
        construct_kept allocate rand c.log_file_path c.sampling_interval_min c.sampling_interval_max
          c.max_frames_to_capture generated in
      let (running, v, on, e, inv) = deliver_stays es false v₁ on₁ inv₁ in
      (
        agent_with c false v₁ m,
        running,
        v,
        ap (λ o. o >>= load_with allocate rand true true true generated m) parsed
            ∙ ap
                (λ o. o >>= (λ p.
                  some (0, record (bare_agent c m) { prof = some p; controller = some false })))
                e₁,
        e,
        ap (λ o. o >>= (λ x. some (some x))) (destroy-remains allocate rand v on inv),
      )
