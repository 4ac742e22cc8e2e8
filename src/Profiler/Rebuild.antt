-- ===== src/Profiler/Rebuild.antt =====
-- Profiler's `configure`, block by block.
use fk_prof.Prelude.{
  ℕ, ◌*◌, ◌/◌, false, not, ◌||◌, Option, none, some, List, ◌∷◌, ltb, ◌==◌, if◌then◌else◌,
}
use fk_prof.Queue.{size}
use fk_prof.SignalHandler.{init}
use fk_prof.LogWriter.{Text}
use fk_prof.Profiler.Pool.{◌>>=◌, is_null, same, delete_any, read, addresses}
pub use fk_prof.Profiler.Setters.{
  Options, BufferObject, ProcessorObject, Memory, Action, Profiler, default_sampling_interval,
  default_max_frames_to_capture, max_frames_limit, blank, unset, bootstrap, ignored,
  interval_or_default, lesser, greater, put_bounds, frames_or_default, put_frames, put_path,
}
unfoldable pub use fk_prof.Profiler.Setters.{
  running_flag, is_running, unless_running, set_sampling_interval, set_max_frames_to_capture,
  copy_path, set_file_path,
}

-- `allocate` is the address that `new` or `malloc` returns, given those that are in use; `rand` is
-- what the calls of `rand()` return.
module _ (allocate : List ℕ → ℕ) (rand : ℕ → ℕ) where
  -- The path of the next log file, made from the process and the time if none is set.
  unfoldable pub settle_path : Text → Profiler → Option (Text × Profiler)
  settle_path generated p = elim p.live.log_file_path [
    | none ↦
        let a = allocate (addresses p.memory.strings) in
        some (
          generated,
          record p {
            configuration = record p.configuration { log_file_path = some a };
            live = record p.live { log_file_path = some a };
            memory = record p.memory { strings = (a, generated) ∷ p.memory.strings };
          },
        )
    | some s ↦ read s p.memory.strings >>= (λ name.
        some (name, record p { configuration = record p.configuration { log_file_path = some s } }))
  ]

  unfoldable pub open_log : Text → Profiler → Profiler
  open_log name p =
      let f = allocate (addresses p.memory.files) in
      let w = allocate (addresses p.memory.writers) in
      record p {
        log_file = some f;
        writer = some w;
        memory = record p.memory {
          files = (f, name) ∷ p.memory.files;
          writers = (w, f) ∷ p.memory.writers;
        };
      }

  -- The three blocks of `configure`.
  unfoldable pub replace_log : Text → Profiler → Option Profiler
  unfolding settle_path open_log
  replace_log generated p = do
    files ← delete_any p.log_file p.memory.files
    writers ← delete_any p.writer p.memory.writers
    strings ← delete_any p.configuration.log_file_path p.memory.strings
    settled ← settle_path generated (record p {
      configuration = record p.configuration { log_file_path = none };
      memory = record p.memory { files = files; writers = writers; strings = strings };
    })
    some (open_log settled.0 settled.1)

  unfoldable pub replace_buffer : Profiler → Option Profiler
  replace_buffer p = do
    buffers ← delete_any p.buffer p.memory.buffers
    w ← p.writer
    let b = allocate (addresses buffers)
    some (record p {
      configuration = record p.configuration {
        max_frames_to_capture = p.live.max_frames_to_capture;
      };
      buffer = some b;
      memory = record p.memory {
        buffers = (b, record { listener = w; max_frames = p.live.max_frames_to_capture }) ∷ buffers;
      };
    })

  abbrev pub processor_interval : ℕ → ℕ
  processor_interval lo = let i = size * lo / 1000 / 2 in if ltb 0 i then i else 1

  unfoldable pub replace_processor : Profiler → Option Profiler
  replace_processor p = do
    processors ← delete_any p.processor p.memory.processors
    handlers ← delete_any p.handler p.memory.handlers
    w ← p.writer
    b ← p.buffer
    let lo = p.live.sampling_interval_min
    let hi = p.live.sampling_interval_max
    let h = allocate (addresses handlers)
    let r = allocate (addresses processors)
    some (record p {
      configuration = record p.configuration {
        sampling_interval_min = lo;
        sampling_interval_max = hi;
      };
      handler = some h;
      processor = some r;
      memory = record p.memory {
        handlers = (h, init rand lo hi) ∷ handlers;
        processors =
            (
              r,
              record {
                log_writer = w;
                buffer = b;
                handler = h;
                interval = processor_interval lo;
                is_running = false;
              },
            )
            ∷ processors;
      };
    })

  unfoldable pub configure : Text → Profiler → Option Profiler
  unfolding replace_log replace_buffer replace_processor
  configure generated p = do
    let update₁ =
        is_null p.processor || not (same p.configuration.log_file_path p.live.log_file_path)
    p₁ ← if update₁ then replace_log generated p else some p
    let update₂ =
        update₁ || not (p₁.configuration.max_frames_to_capture == p₁.live.max_frames_to_capture)
    p₂ ← if update₂ then replace_buffer p₁ else some p₁
    let update₃ =
        update₂
        || (not (p₂.configuration.sampling_interval_min == p₂.live.sampling_interval_min)
            || not (p₂.configuration.sampling_interval_max == p₂.live.sampling_interval_max))
    p₃ ← if update₃ then replace_processor p₂ else some p₂
    some (record p₃ { reload_config = false })
