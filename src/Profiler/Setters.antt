-- ===== src/Profiler/Setters.antt =====
-- Profiler's setters. Each holds the lock `ongoingConf` from its first line to its last, and is one
-- step here.
use fk_prof.Prelude.{
  ℕ, Bool, true, false, not, ◌&&◌, Option, none, some, List, ◌∷◌, ltb, if◌then◌else◌,
}
use fk_prof.Prelude.Int.{ℤ, pos, ltb_ℤ, pos_part}
use fk_prof.LogWriter.{Text}
use fk_prof.Profiler.Pool.{◌>>=◌, Pool, is_null, same, delete_any, read, addresses}
pub use fk_prof.Profiler.Types.{
  Options, BufferObject, ProcessorObject, Memory, Action, Profiler, default_sampling_interval,
  default_max_frames_to_capture, max_frames_limit, blank, unset, bootstrap, ignored,
}

-- `processor && processor->isRunning()`; none if the pointer leads to nothing that lives.
unfoldable pub running_flag : Option ℕ → Pool ProcessorObject → Option Bool
running_flag none objects = some false
running_flag (some r) objects = elim (read r objects) [ none ↦ none | some o ↦ some o.is_running ]

-- `__is_running()`
unfoldable pub is_running : Profiler → Option Bool
unfolding running_flag
is_running p = running_flag p.processor p.memory.processors

-- A setter's body, unless the profiler is running.
unfoldable pub unless_running : (Profiler → Option Profiler) → Profiler → Option Profiler
unfolding is_running
unless_running body p = elim (is_running p) [
  | none ↦ none
  | some running ↦ elim running [ true ↦ some p | false ↦ body p ]
]

abbrev pub interval_or_default : ℤ → ℕ
interval_or_default i = if ltb_ℤ (pos 0) i then pos_part i else default_sampling_interval

abbrev pub lesser : ℕ → ℕ → ℕ
lesser a b = if ltb b a then b else a

abbrev pub greater : ℕ → ℕ → ℕ
greater a b = if ltb a b then b else a

abbrev pub put_bounds : ℤ → ℤ → Profiler → Option Profiler
put_bounds interval_min interval_max p =
    let lo = interval_or_default interval_min in
    let hi = interval_or_default interval_max in
    some (record p {
      live = record p.live {
        sampling_interval_min = lesser lo hi;
        sampling_interval_max = greater lo hi;
      };
      reload_config = true;
    })

unfoldable pub set_sampling_interval : ℤ → ℤ → Profiler → Option Profiler
unfolding unless_running
set_sampling_interval interval_min interval_max =
    unless_running (put_bounds interval_min interval_max)

abbrev pub frames_or_default : ℤ → ℕ
frames_or_default frames =
    if ltb_ℤ (pos 0) frames && ltb_ℤ frames (pos max_frames_limit)
    then pos_part frames
    else default_max_frames_to_capture

abbrev pub put_frames : ℤ → Profiler → Option Profiler
put_frames frames p = some (record p {
  live = record p.live { max_frames_to_capture = frames_or_default frames };
  reload_config = true;
})

unfoldable pub set_max_frames_to_capture : ℤ → Profiler → Option Profiler
unfolding unless_running
set_max_frames_to_capture frames = unless_running (put_frames frames)

-- `allocate` is the address that `new` or `malloc` returns, given those that are in use; `rand` is
-- what the calls of `rand()` return.
module _ (allocate : List ℕ → ℕ) (rand : ℕ → ℕ) where
  -- The string is copied, unless it is null.
  unfoldable pub copy_path : Option Text → Profiler → Profiler
  copy_path none p = record p {
    live = record p.live { log_file_path = none };
    reload_config = true;
  }
  copy_path (some value) p =
      let a = allocate (addresses p.memory.strings) in
      record p {
        live = record p.live { log_file_path = some a };
        memory = record p.memory { strings = (a, value) ∷ p.memory.strings };
        reload_config = true;
      }

  abbrev pub put_path : Option Text → Profiler → Option Profiler
  put_path new_file_path p =
      (if not (is_null p.live.log_file_path)
          && not (same p.live.log_file_path p.configuration.log_file_path)
        then delete_any p.live.log_file_path p.memory.strings
        else some p.memory.strings)
      >>= (λ strings.
          some
            (copy_path new_file_path (record p { memory = record p.memory { strings = strings } })))

  unfoldable pub set_file_path : Option Text → Profiler → Option Profiler
  unfolding unless_running copy_path
  set_file_path new_file_path = unless_running (put_path new_file_path)
