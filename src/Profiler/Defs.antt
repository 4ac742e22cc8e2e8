-- ===== src/Profiler/Defs.antt =====
-- Profiler's constructor, `start`, `stop` and destructor. `start` and `stop` hold the lock
-- `ongoingConf` from their first line to their last, and are one step each.
use fk_prof.Prelude.{ℕ, Bool, true, false, not, Option, none, some, List, if◌then◌else◌}
use fk_prof.Prelude.Int.{ℤ}
use fk_prof.SignalHandler.{update_sigprof_interval, stop_sigprof}
use fk_prof.LogWriter.{Text}
use fk_prof.Profiler.Pool.{◌>>=◌, same, delete_any, read, modify}
pub use fk_prof.Profiler.Rebuild.{
  Options, BufferObject, ProcessorObject, Memory, Action, Profiler, default_sampling_interval,
  default_max_frames_to_capture, max_frames_limit, blank, unset, bootstrap, ignored,
  interval_or_default, lesser, greater, put_bounds, frames_or_default, put_frames, put_path,
  processor_interval,
}
unfoldable pub use fk_prof.Profiler.Rebuild.{
  running_flag, is_running, unless_running, set_sampling_interval, set_max_frames_to_capture,
  copy_path, set_file_path, settle_path, open_log, replace_log, replace_buffer, replace_processor,
  configure,
}

-- `allocate` is the address that `new` or `malloc` returns, given those that are in use; `rand` is
-- what the calls of `rand()` return.
module _ (allocate : List ℕ → ℕ) (rand : ℕ → ℕ) where
  unfoldable pub start : Text → (accepted : Bool) → Profiler → Option (Bool × Profiler)
  unfolding is_running configure
  start generated accepted p = do
    running ← is_running p
    if running then some (true, p) else do
      p₁ ← if p.reload_config then configure allocate rand generated p else some p
      h ← p₁.handler
      r ← p₁.processor
      handler_object ← read h p₁.memory.handlers
      processor_object ← read r p₁.memory.processors
      let told = update_sigprof_interval accepted handler_object p₁.timer
      some (
        told.0,
        record p₁ {
          action = bootstrap;
          timer = told.2;
          memory = record p₁.memory {
            handlers = modify h (λ o. told.1) p₁.memory.handlers;
            processors = modify r (λ o. record o { is_running = true }) p₁.memory.processors;
          };
        },
      )

  -- The constructor, on the options that were parsed: the path, the bounds and the frame limit.
  unfoldable pub construct : Option Text → ℤ → ℤ → ℤ → Text → Option Profiler
  unfolding copy_path set_sampling_interval set_max_frames_to_capture configure
  construct path interval_min interval_max frames generated = do
    p₁ ← set_sampling_interval interval_min interval_max (copy_path allocate rand path blank)
    p₂ ← set_max_frames_to_capture frames p₁
    configure allocate rand generated p₂

-- `accepted` says whether the system lets the timer be stopped.
unfoldable pub stop : (accepted : Bool) → Profiler → Option Profiler
unfolding is_running
stop accepted p = do
  running ← is_running p
  if not running then some p else do
    h ← p.handler
    r ← p.processor
    handler_object ← read h p.memory.handlers
    processor_object ← read r p.memory.processors
    let told = stop_sigprof accepted handler_object p.timer
    some (record p {
      action = ignored;
      timer = told.2;
      memory = record p.memory {
        handlers = modify h (λ o. told.1) p.memory.handlers;
        processors = modify r (λ o. record o { is_running = false }) p.memory.processors;
      };
    })

-- The destructor, and that of `configuration_`; what is left of the memory.
unfoldable pub destroy : Profiler → Option Memory
destroy p = do
  let path =
      if same p.live.log_file_path p.configuration.log_file_path
      then none
      else p.configuration.log_file_path
  processors ← delete_any p.processor p.memory.processors
  handlers ← delete_any p.handler p.memory.handlers
  buffers ← delete_any p.buffer p.memory.buffers
  writers ← delete_any p.writer p.memory.writers
  files ← delete_any p.log_file p.memory.files
  strings ← delete_any path p.memory.strings
  some (record {
    strings = strings;
    files = files;
    writers = writers;
    buffers = buffers;
    handlers = handlers;
    processors = processors;
  })
