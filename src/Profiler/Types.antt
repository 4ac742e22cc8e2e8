-- ===== src/Profiler/Types.antt =====
-- The fields of Profiler, and the heap.
use fk_prof.Prelude.{ℕ, Bool, false, Option, none, []}
use fk_prof.SignalHandler.{SignalHandler, Timer}
use fk_prof.LogWriter.{Text}
use fk_prof.Profiler.Pool.{Pool}

-- The fields of `ConfigurationOptions` that Profiler uses. The path is a pointer. The numbers are
-- those that the setters have let through.
pub record Options : Type 0 where
  pub log_file_path : Option ℕ
  pub sampling_interval_min : ℕ
  pub sampling_interval_max : ℕ
  pub max_frames_to_capture : ℕ

pub record BufferObject : Type 0 where
  pub listener : ℕ
  pub max_frames : ℕ

pub record ProcessorObject : Type 0 where
  pub log_writer : ℕ
  pub buffer : ℕ
  pub handler : ℕ
  pub interval : ℕ
  pub is_running : Bool

-- What lives on the heap, class by class: a file is its name, a log writer its file.
pub record Memory : Type 0 where
  pub strings : Pool Text
  pub files : Pool Text
  pub writers : Pool ℕ
  pub buffers : Pool BufferObject
  pub handlers : Pool SignalHandler
  pub processors : Pool ProcessorObject

-- What SIGPROF does: nothing that this class has set, `bootstrapHandle`, or nothing at all.
pub data Action : Type 0 where
  unset : Action
  bootstrap : Action
  ignored : Action

pub record Profiler : Type 0 where
  pub configuration : Options
  pub live : Options
  pub log_file : Option ℕ
  pub writer : Option ℕ
  pub buffer : Option ℕ
  pub processor : Option ℕ
  pub handler : Option ℕ
  pub reload_config : Bool
  pub memory : Memory
  pub timer : Timer
  pub action : Action

abbrev pub default_sampling_interval : ℕ
default_sampling_interval = 1

abbrev pub default_max_frames_to_capture : ℕ
default_max_frames_to_capture = 128

abbrev pub max_frames_limit : ℕ
max_frames_limit = 2048

-- The fields before the constructor's body; `reloadConfig` has no value until a setter runs.
abbrev pub blank : Profiler
blank = record {
  configuration = record {
    log_file_path = none;
    sampling_interval_min = default_sampling_interval;
    sampling_interval_max = default_sampling_interval;
    max_frames_to_capture = default_max_frames_to_capture;
  };
  live = record {
    log_file_path = none;
    sampling_interval_min = default_sampling_interval;
    sampling_interval_max = default_sampling_interval;
    max_frames_to_capture = default_max_frames_to_capture;
  };
  log_file = none;
  writer = none;
  buffer = none;
  processor = none;
  handler = none;
  reload_config = false;
  memory = record {
    strings = [];
    files = [];
    writers = [];
    buffers = [];
    handlers = [];
    processors = [];
  };
  timer = record { tv_sec = 0; tv_usec = 0 };
  action = unset;
}
