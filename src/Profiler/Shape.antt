-- ===== src/Profiler/Shape.antt =====
-- The states of the profiler, by what they own: each pointer is null, with nothing of its class
-- alive, or points to the one object of its class that is alive.
use fk_prof.Prelude.{ℕ, ◌≡◌, ◌≢◌, refl, Bool, true, false, Option, none, some, [], ◌∷◌, ◌==◌, arith}
use fk_prof.SignalHandler.{SignalHandler, Timer}
use fk_prof.LogWriter.{Text}
use fk_prof.Profiler.Pool.{Pool, delete_any, read, modify}
use fk_prof.Profiler.Defs.{Options, BufferObject, ProcessorObject, Action, Profiler}

abbrev pub Cell : Type 0 → Type 0
Cell A = Option (ℕ × A)

abbrev pub ptr : {A : Type 0} → Cell A → Option ℕ
ptr none = none
ptr (some (a, x)) = some a

abbrev pub pool : {A : Type 0} → Cell A → Pool A
pool none = []
pool (some (a, x)) = (a, x) ∷ []

-- The path that the next configuration takes: that of this one, none, or a string of its own.
pub data Wish : Type 0 where
  shared : Wish
  unset : Wish
  own : (address : ℕ) (path : Text) → Wish

pub record Numbers : Type 0 where
  pub lo : ℕ
  pub hi : ℕ
  pub frames : ℕ

pub record Shape : Type 0 where
  pub path : Cell Text
  pub wish : Wish
  pub now : Numbers
  pub later : Numbers
  pub file : Cell Text
  pub writer : Cell ℕ
  pub buffer : Cell BufferObject
  pub handler : Cell SignalHandler
  pub processor : Cell ProcessorObject
  pub reload : Bool
  pub timer : Timer
  pub action : Action

abbrev pub wish_ptr : Cell Text → Wish → Option ℕ
wish_ptr path shared = ptr path
wish_ptr path unset = none
wish_ptr path (own a t) = some a

abbrev pub strings_of : Cell Text → Wish → Pool Text
strings_of path (own a t) = (a, t) ∷ pool path
strings_of path shared = pool path
strings_of path unset = pool path

abbrev pub options : Option ℕ → Numbers → Options
options path n = record {
  log_file_path = path;
  sampling_interval_min = n.lo;
  sampling_interval_max = n.hi;
  max_frames_to_capture = n.frames;
}

abbrev pub state : Shape → Profiler
state v = record {
  configuration = options (ptr v.path) v.now;
  live = options (wish_ptr v.path v.wish) v.later;
  log_file = ptr v.file;
  writer = ptr v.writer;
  buffer = ptr v.buffer;
  processor = ptr v.processor;
  handler = ptr v.handler;
  reload_config = v.reload;
  memory = record {
    strings = strings_of v.path v.wish;
    files = pool v.file;
    writers = pool v.writer;
    buffers = pool v.buffer;
    handlers = pool v.handler;
    processors = pool v.processor;
  };
  timer = v.timer;
  action = v.action;
}

-- The two strings are two.
abbrev pub Apart : Cell Text → Wish → Type 0
Apart (some (s, t)) (own a t') = a ≢ s
Apart _ _ = Unit {0}

pub ==_refl : (a : ℕ) → (a == a) ≡ true
==_refl a = ground arith

pub ==_ne : (a b : ℕ) → a ≢ b → (a == b) ≡ false
==_ne a b h = ground arith

pub delete_any-pool : {A : Type 0} (c : Cell A) → delete_any (ptr c) (pool c) ≡ some []
delete_any-pool none = refl
delete_any-pool (some (a, x)) = rw (==_refl a) refl

pub delete_any-strings :
    (path : Cell Text) (a : ℕ) (t : Text)
    → Apart path (own a t)
    → delete_any (ptr path) ((a, t) ∷ pool path) ≡ some ((a, t) ∷ [])
delete_any-strings none a t h = refl
delete_any-strings (some (s, u)) a t h = rw (==_ne a s h, ==_refl s) refl

pub read-pool : {A : Type 0} (a : ℕ) (x : A) → read a ((a, x) ∷ []) ≡ some x
unfolding read
read-pool a x = rw (==_refl a) refl

pub modify-pool :
    {A : Type 0} (a : ℕ) (f : A → A) (x : A) → modify a f ((a, x) ∷ []) ≡ (a, f x) ∷ []
unfolding modify
modify-pool a f x = rw (==_refl a) refl
