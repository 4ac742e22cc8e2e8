-- ===== src/LogWriter/Announce.antt =====
-- Whole runs of `record` over one file.
use fk_prof.Prelude.{
  ℕ, suc, ◌+◌, ◌≤◌, ◌≡◌, refl, sym, ap, ◌∙◌, Bool, false, Bool-cases, Option, Option-cases, none,
  some, List, [], ◌∷◌, ◌++◌, ◌||◌, ◌==◌, ==_iff, if◌then◌else◌, length, arith, inl, inr, take,
}
use mathlib.Core.List.{append_assoc, append-nil}
use fk_prof.Prelude.Int.{ℤ}
use fk_prof.Queue.{CallFrame, CallTrace, rounds}
use fk_prof.LineTable.{LineEntry}
use fk_prof.LineTable.Sorted.{IsSorted}
use fk_prof.LogWriter.Defs.{LogWriter, MethodInfo, contains, record_trace}
use fk_prof.LogWriter.Format.{
  Event, start, at_bci, at_line, method, encode_all, encode_all-append, place, announce, learn,
  learn_all, frame_events, trace_events, record-Appends,
}
use fk_prof.LogWriter.Decode.{decode, AllInRange, decode-encode_all}

-- How many events announce method m.
abbrev pub announced : ℕ → List Event → ℕ
announced m [] = 0
announced m (method k info ∷ es) = (if k == m then 1 else 0) + announced m es
announced m (start n t ∷ es) = announced m es
announced m (at_bci b k ∷ es) = announced m es
announced m (at_line b l k ∷ es) = announced m es

announced-append :
    (m : ℕ) (xs ys : List Event) → announced m (xs ++ ys) ≡ announced m xs + announced m ys
announced-append m [] ys = omega arith
announced-append m (method k info ∷ xs) ys = omega (arith, announced-append m xs ys)
announced-append m (start n t ∷ xs) ys = announced-append m xs ys
announced-append m (at_bci b k ∷ xs) ys = announced-append m xs ys
announced-append m (at_line b l k ∷ xs) ys = announced-append m xs ys

abbrev Logged : Type 0
Logged = CallTrace × Option (ℕ × ℤ)

abbrev pub fresh : LogWriter
fresh = record { output = []; known_methods = [] }

-- Every trace has the frames that it counts.
abbrev pub AllPresent : List Logged → Type 0
AllPresent [] = Unit {0}
AllPresent ((t, info) ∷ ts) = (rounds t.num_frames ≤ length t.frames) × AllPresent ts

fresh_quota :
    (m k : ℕ) (known : List ℕ)
    → contains known k ≡ false
    → (if k == m then 1 else 0) + (if k == m || contains known m then 0 else 1)
      ≤ (if contains known m then 0 else 1)
fresh_quota m k known h = elim (Bool-cases (k == m)) [
  | inl same ↦ rw (same, sym (ap (contains known) ((==_iff k m).0 same)), h) (omega arith)
  | inr other ↦ rw other (omega arith)
]

module _ (little_endian : Bool) (line_table : ℕ → Option (List LineEntry))
    (frame_lookup : CallFrame → Option MethodInfo) where
  pub record_all : List Logged → LogWriter → Option LogWriter
  record_all [] w = some w
  record_all ((t, info) ∷ ts) w =
      elim (record_trace little_endian line_table frame_lookup t info w) [
        | none ↦ none
        | some (w', released) ↦ record_all ts w'
      ]

  abbrev quota : List ℕ → ℕ → ℕ
  quota known m = if contains known m then 0 else 1

  announced-place :
      (m : ℕ) (f : CallFrame) (es : List Event)
      → announced m (place little_endian line_table frame_lookup f ∷ es) ≡ announced m es
  announced-place m f es = ground arith

  announced-announce :
      (m : ℕ) (known : List ℕ) (f : CallFrame)
      → announced m (announce little_endian line_table frame_lookup known f)
          + quota (learn little_endian line_table frame_lookup known f) m
        ≤ quota known m
  unfolding contains
  announced-announce m known f = elim (Bool-cases (contains known f.method_id)) [
    | inl old ↦ rw old (omega arith)
    | inr new ↦ elim (Option-cases (frame_lookup f)) [
      | inl e ↦ rw (new, e) (omega (arith, fresh_quota m f.method_id known new))
      | inr (info, e) ↦ rw (new, e) (omega (arith, fresh_quota m f.method_id known new))
    ]
  ]

  announced-frame_events :
      (m : ℕ) (known : List ℕ) (fs : List CallFrame)
      → announced m (frame_events little_endian line_table frame_lookup known fs)
          + quota (learn_all little_endian line_table frame_lookup known fs) m
        ≤ quota known m
  announced-frame_events m known [] = omega arith
  announced-frame_events m known (f ∷ fs) = omega (
    arith,
    announced-place m f (
        announce little_endian line_table frame_lookup known f
        ++ frame_events little_endian line_table frame_lookup
            (learn little_endian line_table frame_lookup known f) fs),
    announced-append m (announce little_endian line_table frame_lookup known f) (
        frame_events little_endian line_table frame_lookup
          (learn little_endian line_table frame_lookup known f) fs),
    announced-announce m known f,
    announced-frame_events m (learn little_endian line_table frame_lookup known f) fs,
  )

  abbrev pub all_events : List ℕ → List Logged → List Event
  all_events known [] = []
  all_events known ((t, info) ∷ ts) =
      trace_events little_endian line_table frame_lookup known t info
      ++ all_events
          (learn_all little_endian line_table frame_lookup known
            (take (rounds t.num_frames) t.frames))
          ts

  announced-all_events :
      (m : ℕ) (known : List ℕ) (ts : List Logged)
      → announced m (all_events known ts) ≤ quota known m
  announced-all_events m known [] = omega arith
  announced-all_events m known ((t, info) ∷ ts) =
      let now = take (rounds t.num_frames) t.frames in
      let later = learn_all little_endian line_table frame_lookup known now in
      omega (
        arith,
        announced-append m (trace_events little_endian line_table frame_lookup known t info)
            (all_events later ts),
        announced-frame_events m known now,
        announced-all_events m later ts,
      )

  module _ (sorted : (m : ℕ) (t : List LineEntry) → line_table m ≡ some t → IsSorted t) where
    record_all_step :
        (t : CallTrace) (info : Option (ℕ × ℤ)) (ts : List Logged) (w w' : LogWriter) (r : Option ℕ)
        → record_trace little_endian line_table frame_lookup t info w ≡ some (w', r)
        → record_all ((t, info) ∷ ts) w ≡ record_all ts w'
    unfolding record_all
    record_all_step t info ts w w' r e = rw (e, record_all) refl

    record_all-Appends :
        (ts : List Logged) (w : LogWriter)
        → AllPresent ts
        → (w' : LogWriter) × (record_all ts w ≡ some w')
          × (w'.output ≡ w.output ++ encode_all (all_events w.known_methods ts))
    unfolding record_all
    record_all-Appends [] w h = (w, refl, sym (append-nil w.output))
    record_all-Appends ((t, info) ∷ ts) w (h, hs) =
        let (w₁, e₁, (o₁, k₁)) =
          record-Appends little_endian line_table frame_lookup sorted t info w h in
        let (w₂, e₂, o₂) = record_all-Appends ts w₁ hs in
        (
          w₂,
          record_all_step t info ts w w₁ _ e₁ ∙ e₂,
          o₂
              ∙ ap (λ r. r ++ encode_all (all_events w₁.known_methods ts)) o₁
              ∙ append_assoc w.output _ _
              ∙ ap (λ r. w.output ++ r)
                  (sym (
                    encode_all-append
                      (trace_events little_endian line_table frame_lookup w.known_methods t info)
                      (all_events w₁.known_methods ts)))
              ∙ ap
                  (λ k.
                    w.output
                    ++ encode_all (
                        trace_events little_endian line_table frame_lookup w.known_methods t info
                        ++ all_events k ts))
                  k₁,
        )

    -- A new log writer records any list of traces that have the frames they count. When the
    -- numbers are in the ranges of their C types, the file is read back as the traces' events, and
    -- no method is announced twice in it. JVMTI's line tables are in ascending order.
    pub whole_log :
        (ts : List Logged)
        → AllPresent ts
        → AllInRange (all_events [] ts)
        → (w : LogWriter) × (record_all ts fresh ≡ some w)
          × (decode (suc (length w.output)) w.output ≡ some (all_events [] ts))
          × ((m : ℕ) → announced m (all_events [] ts) ≤ 1)
    unfolding contains
    whole_log ts present ranges =
        let (w, e, o) = record_all-Appends ts fresh present in
        (
          w,
          e,
          ap (λ b. decode (suc (length b)) b) o
              ∙ decode-encode_all (all_events [] ts) _ ranges (omega arith),
          λ m. announced-all_events m [] ts,
        )
