-- ===== src/LogWriter/Defs.antt =====
-- LogWriter's fields and methods. Integers go to the file as bit patterns, most significant byte
-- first.
use fk_prof.Prelude.{
  ℕ, zero, suc, ◌/◌, ◌%◌, Bool, false, Option, none, some, List, [], ◌∷◌, ◌++◌, ◌||◌, ◌==◌,
  if◌then◌else◌, length,
}
use mathlib.Core.List.{reverse}
use fk_prof.Prelude.Int.{ℤ, pos, negsuc, ltb_ℤ, leb_ℤ}
use fk_prof.Prelude.Word.{int_bits}
use fk_prof.Queue.{CallFrame, CallTrace, rounds}
use fk_prof.LineTable.{LineEntry, bci2line}

-- C strings without their end.
abbrev pub Text : Type 0
Text = List ℕ

pub record LogWriter : Type 0 where
  pub output : List ℕ
  pub known_methods : List ℕ

-- The bytes of an n-byte value, least significant first.
abbrev pub bytes : ℕ → ℕ → List ℕ
bytes zero x = []
bytes (suc n) x = x % 256 ∷ bytes n (x / 256)

-- The bytes as they lie in memory.
abbrev pub memory : Bool → ℕ → ℕ → List ℕ
memory little_endian n x = if little_endian then bytes n x else reverse (bytes n x)

-- `writeValue`: from the last byte to the first on a little-endian machine, else as they lie.
unfoldable pub write_value : Bool → ℕ → ℕ → List ℕ
write_value little_endian n x =
    if little_endian then reverse (memory little_endian n x) else memory little_endian n x

abbrev pub trace_start : ℕ
trace_start = 1

abbrev pub frame_bci_only : ℕ
frame_bci_only = 2

abbrev pub new_method : ℕ
new_method = 3

abbrev pub frame_full : ℕ
frame_full = 21

-- `jint` is 4 bytes, `HashType` and `method_id` are 8.
abbrev pub jint_size : ℕ
jint_size = 4

abbrev pub id_size : ℕ
id_size = 8

-- The arguments of the calls that write: what the file is a sequence of.
pub record MethodInfo : Type 0 where
  pub file_name : Text
  pub class_name : Text
  pub method_name : Text

abbrev pub put : LogWriter → List ℕ → LogWriter
put w bs = record w { output = w.output ++ bs }

-- `ERR_NO_LINE_INFO`
abbrev pub no_line_info : ℤ
no_line_info = negsuc 99

-- Membership in `knownMethods`.
unfoldable pub contains : List ℕ → ℕ → Bool
contains [] m = false
contains (k ∷ ks) m = k == m || contains ks m

-- `jvmti_` is asked for line tables, none being an error; `frame_lookup` is `frameLookup_`, which
-- calls `recordNewMethod` with what it finds, or not at all.
module _ (little_endian : Bool) (line_table : ℕ → Option (List LineEntry))
    (frame_lookup : CallFrame → Option MethodInfo) where
  unfoldable pub write_with_size : Text → List ℕ
  unfolding write_value
  write_with_size value =
      write_value little_endian jint_size (int_bits 32 (pos (length value))) ++ value

  unfoldable pub record_trace_start : ℤ → ℕ → LogWriter → LogWriter
  record_trace_start num_frames thread_id w = put w (
      trace_start
      ∷ (write_value little_endian jint_size (int_bits 32 num_frames)
          ++ write_value little_endian id_size thread_id))

  unfoldable pub record_frame_full : ℤ → ℤ → ℕ → LogWriter → LogWriter
  record_frame_full bci line_number method_id w = put w (
      frame_full
      ∷ (write_value little_endian jint_size (int_bits 32 bci)
          ++ (write_value little_endian jint_size (int_bits 32 line_number)
              ++ write_value little_endian id_size method_id)))

  unfoldable pub record_frame_bci : ℤ → ℕ → LogWriter → LogWriter
  record_frame_bci bci method_id w = put w (
      frame_bci_only
      ∷ (write_value little_endian jint_size (int_bits 32 bci)
          ++ write_value little_endian id_size method_id))

  unfoldable pub record_new_method : ℕ → MethodInfo → LogWriter → LogWriter
  record_new_method method_id info w = put w (
      new_method
      ∷ (write_value little_endian id_size method_id
          ++ (write_with_size info.file_name
              ++ (write_with_size info.class_name ++ write_with_size info.method_name))))

  -- `none` is a read outside the line table.
  unfoldable pub get_line_no : ℤ → ℕ → Option ℤ
  get_line_no bci method_id = if leb_ℤ bci (pos 0) then some bci else elim (line_table method_id) [
    | none ↦ some no_line_info
    | some table ↦ bci2line bci table
  ]

  unfoldable pub inspect_method : ℕ → CallFrame → LogWriter → LogWriter
  unfolding contains
  inspect_method method_id frame w =
      if contains w.known_methods method_id then w else elim (frame_lookup frame) [
        | none ↦ record w { known_methods = method_id ∷ w.known_methods }
        | some info ↦
            record_new_method method_id info
              (record w { known_methods = method_id ∷ w.known_methods })
      ]

  -- One round of the loop of `record`.
  unfoldable pub record_one : CallFrame → LogWriter → Option LogWriter
  record_one frame w =
      if ltb_ℤ (pos 0) frame.lineno
      then elim (get_line_no frame.lineno frame.method_id) [
        | none ↦ none
        | some lineno ↦ some (
            inspect_method frame.method_id frame
              (record_frame_full frame.lineno lineno frame.method_id w))
      ]
      else some
          (inspect_method frame.method_id frame (record_frame_bci frame.lineno frame.method_id w))

  -- The rounds that are left, and the frames from the next on; `none` is a read behind the frames.
  unfoldable pub record_frames : ℕ → List CallFrame → LogWriter → Option LogWriter
  record_frames zero frames w = some w
  record_frames (suc n) [] w = none
  record_frames (suc n) (f ∷ fs) w = elim (record_one f w) [
    | none ↦ none
    | some w' ↦ record_frames n fs w'
  ]

  -- `info` is the bucket's pointer and its tid. The pointer that is returned is released.
  unfoldable pub record_trace :
      CallTrace → Option (ℕ × ℤ) → LogWriter → Option (LogWriter × Option ℕ)
  record_trace trace info w =
      let thread_id : ℕ = elim info [ none ↦ trace.env_id | some (p, tid) ↦ int_bits 64 tid ] in
      elim (record_frames (rounds trace.num_frames) trace.frames
        (record_trace_start trace.num_frames thread_id w)) [
          | none ↦ none
          | some w' ↦ some (w', elim info [ none ↦ none | some (p, tid) ↦ some p ])
        ]
