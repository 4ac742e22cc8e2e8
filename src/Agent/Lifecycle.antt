-- ===== src/Agent/Lifecycle.antt =====
-- The agent in the JVM (recorder/src/main/cpp/agent.cpp): Agent_OnLoad, the callbacks of JVMTI's events and
-- Agent_OnUnload. What JVMTI and JNI answer is an argument. A result of none is a use of memory that is
-- not there.
use fk_prof.Prelude.{
  ℕ, Bool, true, false, not, ◌&&◌, Option, none, some, List, [], ◌∷◌, if◌then◌else◌,
}
use fk_prof.Prelude.Int.{ℤ}
use fk_prof.Agent.{Text, codes, ConfigurationOptions, new_options, parse_arguments}
use fk_prof.Profiler.Pool.{◌>>=◌}
use fk_prof.Profiler.Defs.{Profiler, Memory, is_running, start, stop, construct, destroy}
use fk_prof.ThreadMap.{ThreadMap, put, remove}
use fk_prof.Controller.{same_text}

-- CONFIGURATION, prof, controller (whether it is running) and threadMap, none for a null pointer, and
-- main_started.
pub record Agent : Type 0 where
  pub configuration : Option ConfigurationOptions
  pub prof : Option Profiler
  pub controller : Option Bool
  pub main_started : Bool
  pub threads : ThreadMap

-- Whether `GETENV_NEW_THREAD_ASYNC_UNSAFE` is defined: on Apple's systems and on FreeBSD.
pub data Platform : Type 0 where
  env_unsafe : Platform
  env_safe : Platform

-- An event, with what its callback gets to know: whether the loaded classes are listed and a JNI
-- environment is there; a new thread's name, if GetThreadInfo gives it.
pub data Event : Type 0 where
  vm_init : (classes_listed has_env : Bool) → Event
  vm_death : (accepted : Bool) → Event
  class_load : Event
  class_prepare : Event
  compiled_method_load : Event
  thread_start :
      (name : Option Text) (env : ℕ) (tid : ℤ) (generated : Text) (accepted : Bool) → Event
  thread_end : (env : ℕ) → Event
  native_method_bind : Event

-- The events that RegisterJvmti enables: JVMTI delivers no others.
abbrev pub enabled : Platform → Event → Bool
enabled env_unsafe e = true
enabled env_safe (thread_start name env tid generated accepted) = false
enabled env_safe (thread_end env) = false
enabled env_safe native_method_bind = false
enabled env_safe (vm_init classes_listed has_env) = true
enabled env_safe (vm_death accepted) = true
enabled env_safe class_load = true
enabled env_safe class_prepare = true
enabled env_safe compiled_method_load = true

abbrev pub given : Option Text → Bool
given none = false
given (some s) = true

-- Controller::start sets the flag once it has an environment.
abbrev pub start_controller : Bool → Agent → Option Agent
start_controller has_env a = elim a.controller [
  | none ↦ none
  | some running ↦ some (record a { controller = some (if has_env then true else running) })
]

unfoldable pub on_vm_init : Platform → (classes_listed has_env : Bool) → Agent → Option Agent
on_vm_init env_unsafe classes_listed has_env a = some a
on_vm_init env_safe classes_listed has_env a = elim a.configuration [
  | none ↦ none
  | some c ↦
      if classes_listed && (given c.host && given c.port)
      then start_controller has_env a
      else some a
]

unfoldable pub on_vm_death : (accepted : Bool) → Agent → Option Agent
unfolding is_running stop
on_vm_death accepted a = elim a.prof [
  | none ↦ none
  | some p ↦ is_running p >>= (λ running.
      if running then stop accepted p >>= (λ p'. some (record a { prof = some p' })) else some a)
]

-- The agent with its options only.
abbrev pub bare_agent : ConfigurationOptions → ThreadMap → Agent
bare_agent c m = record {
  configuration = some c;
  prof = none;
  controller = none;
  main_started = false;
  threads = m;
}

module _ (allocate : List ℕ → ℕ) (rand : ℕ → ℕ) where
  -- The first thread of the name `main` starts the profiler, if the options say so.
  unfoldable pub main_begins : Text → (generated : Text) → (accepted : Bool) → Agent → Option Agent
  unfolding start
  main_begins name generated accepted a =
      if not a.main_started && same_text name (codes "main")
      then (elim a.configuration [
        | none ↦ none
        | some c ↦
            if c.start
            then (elim a.prof [
              | none ↦ none
              | some p ↦
                  start allocate rand generated accepted p
                  >>= (λ r. some (record a { main_started = true; prof = some r.1 }))
            ])
            else some (record a { main_started = true })
      ])
      else some a

  unfoldable pub on_thread_start :
      Option Text
      → (env : ℕ) → (tid : ℤ) → (generated : Text) → (accepted : Bool) → Agent
      → Option Agent
  unfolding main_begins put
  on_thread_start none env tid generated accepted a = some a
  on_thread_start (some name) env tid generated accepted a =
      main_begins name generated accepted a
      >>= (λ a'. put env tid a'.threads >>= (λ m. some (record a' { threads = m })))

  unfoldable pub on_thread_end : (env : ℕ) → Agent → Option Agent
  unfolding remove
  on_thread_end env a = remove env a.threads >>= (λ m. some (record a { threads = m }))

  abbrev pub callback : Platform → Event → Agent → Option Agent
  callback platform (vm_init classes_listed has_env) a =
      on_vm_init platform classes_listed has_env a
  callback platform (vm_death accepted) a = on_vm_death accepted a
  callback platform (thread_start name env tid generated accepted) a =
      on_thread_start name env tid generated accepted a
  callback platform (thread_end env) a = on_thread_end env a
  callback platform class_load a = some a
  callback platform class_prepare a = some a
  callback platform compiled_method_load a = some a
  callback platform native_method_bind a = some a

  -- What happens in the JVM; callbacks are there for the enabled events.
  unfoldable pub deliver : Platform → List Event → Agent → Option Agent
  deliver platform [] a = some a
  deliver platform (e ∷ rest) a =
      (if enabled platform e then callback platform e a else some a) >>= deliver platform rest

  -- After the options are parsed: the return value and the agent, for whether GetEnv, PrepareJvmti and
  -- RegisterJvmti succeed.
  unfoldable pub load_with :
      (has_jvmti prepared registered : Bool)
      → Text
      → ThreadMap
      → ConfigurationOptions
      → Option (ℕ × Agent)
  unfolding construct
  load_with has_jvmti prepared registered generated m c =
      if not has_jvmti
      then some (1, bare_agent c m)
      else if not prepared
      then some (0, bare_agent c m)
      else if not registered
      then some (1, bare_agent c m)
      else construct allocate rand c.log_file_path c.sampling_interval_min c.sampling_interval_max
          c.max_frames_to_capture generated
        >>= (λ p. some (0, record (bare_agent c m) { prof = some p; controller = some false }))

  unfoldable pub on_load :
      (has_jvmti prepared registered : Bool) → Option Text → Text → ThreadMap → Option (ℕ × Agent)
  unfolding load_with
  on_load has_jvmti prepared registered options generated m =
      parse_arguments options new_options >>= load_with has_jvmti prepared registered generated m

-- `controller->isRunning()` is asked first; the profiler's destructor leaves what is left of its memory.
unfoldable pub on_unload : Agent → Option (Option Memory)
unfolding destroy
on_unload a = elim a.controller [
  | none ↦ none
  | some running ↦ elim a.prof [ none ↦ some none | some p ↦ destroy p >>= (λ m. some (some m)) ]
]
