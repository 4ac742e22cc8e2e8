-- ===== src/LogWriter/Format.antt =====
-- The log file as a sequence of events, and what `record` appends to it.
use fk_prof.Prelude.{
  ℕ, zero, suc, ◌/◌, ◌%◌, ◌≤◌, ◌≡◌, refl, sym, ap, ◌∙◌, Bool, true, false, Bool-cases, Option,
  Option-cases, none, some, List, [], ◌∷◌, ◌++◌, ◌==◌, if◌then◌else◌, length, arith, inl, inr, take,
}
use mathlib.Core.List.{reverse, reverse-cons, append_assoc, append-nil}
use fk_prof.Prelude.Int.{ℤ, pos, ltb_ℤ, leb_ℤ}
use fk_prof.Prelude.Word.{int_bits}
use fk_prof.Queue.{CallFrame, CallTrace, rounds}
use fk_prof.LineTable.{LineEntry, before_all, no_entries}
use fk_prof.LineTable.Sorted.{IsSorted, last_line}
use fk_prof.LineTable.Correct.{bci2line_finds}
use fk_prof.LogWriter.Defs.{
  Text, LogWriter, MethodInfo, bytes, write_value, trace_start, frame_bci_only, new_method,
  frame_full, jint_size, id_size, put, no_line_info, contains, write_with_size, record_trace_start,
  record_frame_full, record_frame_bci, record_new_method, get_line_no, inspect_method, record_one,
  record_frames, record_trace,
}

-- Identifiers are 64-bit patterns.
pub data Event : Type 0 where
  start : (num_frames : ℤ) (thread_id : ℕ) → Event
  at_bci : (bci : ℤ) (method_id : ℕ) → Event
  at_line : (bci line : ℤ) (method_id : ℕ) → Event
  method : (method_id : ℕ) (info : MethodInfo) → Event

-- n bytes, most significant first, whatever the machine.
abbrev pub big_endian : ℕ → ℕ → List ℕ
big_endian zero x = []
big_endian (suc n) x = big_endian n (x / 256) ++ (x % 256 ∷ [])

abbrev pub encode_int : ℤ → List ℕ
encode_int z = big_endian jint_size (int_bits 32 z)

abbrev pub encode_text : Text → List ℕ
encode_text t = encode_int (pos (length t)) ++ t

abbrev pub encode : Event → List ℕ
encode (start n thread) = trace_start ∷ (encode_int n ++ big_endian id_size thread)
encode (at_bci bci m) = frame_bci_only ∷ (encode_int bci ++ big_endian id_size m)
encode (at_line bci line m) =
    frame_full ∷ (encode_int bci ++ (encode_int line ++ big_endian id_size m))
encode (method m info) =
    new_method
    ∷ (big_endian id_size m
        ++ (encode_text info.file_name
            ++ (encode_text info.class_name ++ encode_text info.method_name)))

abbrev pub encode_all : List Event → List ℕ
encode_all [] = []
encode_all (e ∷ es) = encode e ++ encode_all es

pub encode_all-append :
    (xs ys : List Event) → encode_all (xs ++ ys) ≡ encode_all xs ++ encode_all ys
encode_all-append [] ys = refl
encode_all-append (x ∷ xs) ys =
    ap (λ r. encode x ++ r) (encode_all-append xs ys)
    ∙ sym (append_assoc (encode x) (encode_all xs) (encode_all ys))

reverse-bytes : (n x : ℕ) → reverse (bytes n x) ≡ big_endian n x
reverse-bytes zero x = refl
reverse-bytes (suc n) x =
    reverse-cons (x % 256) (bytes n (x / 256))
    ∙ ap (λ r. r ++ (x % 256 ∷ [])) (reverse-bytes n (x / 256))

-- `writeValue` writes the most significant byte first on both kinds of machine.
pub write_value_big :
    (little_endian : Bool) (n x : ℕ) → write_value little_endian n x ≡ big_endian n x
unfolding write_value
write_value_big true n x = reverse-bytes n x
write_value_big false n x = reverse-bytes n x

module _ (little_endian : Bool) (line_table : ℕ → Option (List LineEntry))
    (frame_lookup : CallFrame → Option MethodInfo) where
  -- The line of a frame: what `bci2line` promises, -100 if JVMTI has no table.
  abbrev pub line_of : ℤ → ℕ → ℤ
  line_of bci m = elim (line_table m) [
    | none ↦ no_line_info
    | some t ↦ if length t == 0 then no_entries else last_line bci t before_all
  ]

  abbrev pub place : CallFrame → Event
  place f =
      if ltb_ℤ (pos 0) f.lineno
      then at_line f.lineno (line_of f.lineno f.method_id) f.method_id
      else at_bci f.lineno f.method_id

  -- A method is announced behind the first frame that it occurs in.
  abbrev pub announce : List ℕ → CallFrame → List Event
  announce known f =
      if contains known f.method_id
      then []
      else elim (frame_lookup f) [ none ↦ [] | some info ↦ method f.method_id info ∷ [] ]

  abbrev pub learn : List ℕ → CallFrame → List ℕ
  learn known f = if contains known f.method_id then known else f.method_id ∷ known

  abbrev pub frame_events : List ℕ → List CallFrame → List Event
  frame_events known [] = []
  frame_events known (f ∷ fs) = place f ∷ (announce known f ++ frame_events (learn known f) fs)

  abbrev pub learn_all : List ℕ → List CallFrame → List ℕ
  learn_all known [] = known
  learn_all known (f ∷ fs) = learn_all (learn known f) fs

  -- The events of a whole trace.
  abbrev pub trace_events : List ℕ → CallTrace → Option (ℕ × ℤ) → List Event
  trace_events known t info =
      start t.num_frames (elim info [ none ↦ t.env_id | some (p, tid) ↦ int_bits 64 tid ])
      ∷ frame_events known (take (rounds t.num_frames) t.frames)

  abbrev pub Appends : LogWriter → List Event → List ℕ → LogWriter → Type 0
  Appends w es known w' = (w'.output ≡ w.output ++ encode_all es) × (w'.known_methods ≡ known)

  start_appends :
      (n : ℤ) (thread : ℕ) (w : LogWriter)
      → record_trace_start little_endian line_table frame_lookup n thread w
        ≡ put w (encode (start n thread))
  unfolding record_trace_start
  start_appends n thread w = simp write_value_big

  full_appends :
      (bci line : ℤ) (m : ℕ) (w : LogWriter)
      → record_frame_full little_endian line_table frame_lookup bci line m w
        ≡ put w (encode (at_line bci line m))
  unfolding record_frame_full
  full_appends bci line m w = simp write_value_big

  bci_appends :
      (bci : ℤ) (m : ℕ) (w : LogWriter)
      → record_frame_bci little_endian line_table frame_lookup bci m w
        ≡ put w (encode (at_bci bci m))
  unfolding record_frame_bci
  bci_appends bci m w = simp write_value_big

  method_appends :
      (m : ℕ) (info : MethodInfo) (w : LogWriter)
      → record_new_method little_endian line_table frame_lookup m info w
        ≡ put w (encode (method m info))
  unfolding record_new_method write_with_size
  method_appends m info w = simp write_value_big

  inspect_Appends :
      (f : CallFrame) (w : LogWriter)
      → Appends w
          (announce w.known_methods f)
          (learn w.known_methods f)
          (inspect_method little_endian line_table frame_lookup f.method_id f w)
  unfolding inspect_method
  inspect_Appends f w = elim (Bool-cases (contains w.known_methods f.method_id)) [
    | inl old ↦ rw old (sym (append-nil w.output), refl)
    | inr new ↦ elim (Option-cases (frame_lookup f)) [
      | inl e ↦ rw (new, e) (sym (append-nil w.output), refl)
      | inr (info, e) ↦
          rw (new, e, method_appends)
            (ap (λ r. w.output ++ r) (sym (append-nil (encode (method f.method_id info)))), refl)
    ]
  ]

  -- JVMTI's line tables are in strictly ascending order.
  module _ (sorted : (m : ℕ) (t : List LineEntry) → line_table m ≡ some t → IsSorted t) where
    get_line_no-line_of :
        (bci : ℤ) (m : ℕ)
        → ltb_ℤ (pos 0) bci ≡ true
        → get_line_no little_endian line_table frame_lookup bci m ≡ some (line_of bci m)
    unfolding get_line_no
    get_line_no-line_of bci m h = elim (Option-cases (line_table m)) [
      | inl e ↦ rw (positive, e, line_of)
      | inr (t, e) ↦ rw (positive, e, line_of) (bci2line_finds bci t (sorted m t e))
    ]
      where
        positive : leb_ℤ bci (pos 0) ≡ false
        positive = ground arith

    record_one-Appends :
        (f : CallFrame) (w : LogWriter)
        → (w' : LogWriter) × (record_one little_endian line_table frame_lookup f w ≡ some w')
          × Appends w (place f ∷ announce w.known_methods f) (learn w.known_methods f) w'
    unfolding record_one
    record_one-Appends f w = elim (Bool-cases (ltb_ℤ (pos 0) f.lineno)) [
      | inl line ↦
          rw (line, get_line_no-line_of f.lineno f.method_id line, full_appends)
            (_, refl, inspected (at_line f.lineno (line_of f.lineno f.method_id) f.method_id))
      | inr native ↦ rw (native, bci_appends) (_, refl, inspected (at_bci f.lineno f.method_id))
    ]
      where
        inspected :
            (e : Event)
            → Appends w (e ∷ announce w.known_methods f) (learn w.known_methods f) (
                inspect_method little_endian line_table frame_lookup f.method_id f
                  (put w (encode e)))
        inspected e =
            let (o, k) = inspect_Appends f (put w (encode e)) in
            (o ∙ append_assoc w.output (encode e) (encode_all (announce w.known_methods f)), k)

    frames_step :
        (n : ℕ) (f : CallFrame) (fs : List CallFrame) (w w₁ w₂ : LogWriter)
        → record_one little_endian line_table frame_lookup f w ≡ some w₁
        → record_frames little_endian line_table frame_lookup n fs w₁ ≡ some w₂
        → record_frames little_endian line_table frame_lookup (suc n) (f ∷ fs) w ≡ some w₂
    unfolding record_frames
    frames_step n f fs w w₁ w₂ e₁ e₂ = rw (e₁, record_frames) e₂

    record_frames-Appends :
        (n : ℕ) (fs : List CallFrame) (w : LogWriter)
        → n ≤ length fs
        → (w' : LogWriter) × (record_frames little_endian line_table frame_lookup n fs w ≡ some w')
          × Appends w
              (frame_events w.known_methods (take n fs))
              (learn_all w.known_methods (take n fs))
              w'
    unfolding record_frames
    record_frames-Appends zero fs w h = (w, refl, (sym (append-nil w.output), refl))
    record_frames-Appends (suc n) [] w h = elim h [ ]
    record_frames-Appends (suc n) (f ∷ fs) w h =
        let (w₁, e₁, a₁) = record_one-Appends f w in
        let (w₂, e₂, a₂) = record_frames-Appends n fs w₁ (omega arith) in
        (
          w₂,
          frames_step n f fs w w₁ w₂ e₁ e₂,
          (
            a₂.0
                ∙ ap (λ r. r ++ encode_all (frame_events w₁.known_methods (take n fs))) a₁.0
                ∙ append_assoc w.output _ _
                ∙ ap (λ r. w.output ++ r)
                    (sym (encode_all-append (place f ∷ announce w.known_methods f) _))
                ∙ ap
                    (λ k.
                      w.output
                      ++ encode_all
                          ((place f ∷ announce w.known_methods f) ++ frame_events k (take n fs)))
                    a₁.1,
            a₂.1 ∙ ap (λ k. learn_all k (take n fs)) a₁.1,
          ),
        )

    trace_step :
        (t : CallTrace) (info : Option (ℕ × ℤ)) (w w' : LogWriter)
        → record_frames little_endian line_table frame_lookup (rounds t.num_frames) t.frames (
            record_trace_start little_endian line_table frame_lookup t.num_frames
              (elim info [ none ↦ t.env_id | some (p, tid) ↦ int_bits 64 tid ])
              w)
          ≡ some w'
        → record_trace little_endian line_table frame_lookup t info w
          ≡ some (w', elim info [ none ↦ none | some (p, tid) ↦ some p ])
    unfolding record_trace
    trace_step t info w w' e = rw (e, record_trace)

    -- `record` never fails on a trace that has the frames it counts. It appends the bytes of the
    -- trace's start and then, for each frame, of its place and of its method if that is new; the
    -- methods are remembered; and the bucket that came with the trace is released. The conditions
    -- are that JVMTI's line tables are in ascending order and that the frames are there.
    pub record-Appends :
        (t : CallTrace) (info : Option (ℕ × ℤ)) (w : LogWriter)
        → rounds t.num_frames ≤ length t.frames
        → (w' : LogWriter) × (record_trace little_endian line_table frame_lookup t info w
            ≡ some (w', elim info [ none ↦ none | some (p, tid) ↦ some p ]))
          × Appends w
              (trace_events w.known_methods t info)
              (learn_all w.known_methods (take (rounds t.num_frames) t.frames))
              w'
    record-Appends t info w h =
        let (w', e, a) =
          record_frames-Appends (rounds t.num_frames) t.frames (put w (encode first)) h in
        (
          w',
          trace_step t info w w' (
              ap
                (record_frames little_endian line_table frame_lookup (rounds t.num_frames) t.frames)
                (start_appends t.num_frames _ w)
              ∙ e),
          (a.0 ∙ append_assoc w.output (encode first) _, a.1),
        )
      where
        first : Event
        first = start t.num_frames (elim info [ none ↦ t.env_id | some (p, tid) ↦ int_bits 64 tid ])
