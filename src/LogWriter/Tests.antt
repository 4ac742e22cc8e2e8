-- ===== src/LogWriter/Tests.antt =====
-- Runs of the log writer, and its theorems at a trace of two frames.
use fk_prof.Prelude.{
  ℕ, suc, ◌≤◌, ◌≡◌, refl, sym, Bool, true, false, Option, none, some, List, [], ◌∷◌, ◌==◌,
  if◌then◌else◌, length, arith, take,
}
use mathlib.Core.Option.{some-injective}
use fk_prof.Prelude.Int.{pos, negsuc}
use fk_prof.Queue.{CallFrame, CallTrace}
use fk_prof.LineTable.{LineEntry}
use fk_prof.LineTable.Sorted.{IsSorted}
use fk_prof.LogWriter.Defs.{LogWriter, MethodInfo, contains, write_value, record_trace}
use fk_prof.LogWriter.Format.{
  start, at_bci, at_line, method, big_endian, write_value_big, learn_all, Appends, trace_events,
  record-Appends,
}
use fk_prof.LogWriter.Decode.{decode}
use fk_prof.LogWriter.Announce.{announced, fresh, record_all, all_events, whole_log}

abbrev lines : List LineEntry
lines =
    record { start_location = pos 0; line_number = pos 20 }
    ∷ record { start_location = pos 6; line_number = pos 21 }
    ∷ []

abbrev line_table : ℕ → Option (List LineEntry)
line_table m = if m == 7 then some lines else none

abbrev run : MethodInfo
run = record { file_name = 65 ∷ []; class_name = 66 ∷ 67 ∷ []; method_name = 114 ∷ [] }

abbrev frame_lookup : CallFrame → Option MethodInfo
frame_lookup f = if f.method_id == 7 then some run else none

abbrev trace : CallTrace
trace = record {
  env_id = 1000;
  num_frames = pos 2;
  frames =
      record { lineno = pos 8; method_id = 7 } ∷ record { lineno = negsuc 2; method_id = 7 } ∷ [];
}

table-IsSorted : (m : ℕ) (t : List LineEntry) → line_table m ≡ some t → IsSorted t
table-IsSorted m t e = go (m == 7) e
  where
    go : (b : Bool) → (if b then some lines else none) ≡ some t → IsSorted t
    go true e = rw (sym (some-injective lines t e)) (omega arith)
    go false e = cc

write_value_big_example : write_value true 4 258 ≡ big_endian 4 258
write_value_big_example = write_value_big true 4 258

record-Appends_example :
    (w' : LogWriter) × (record_trace true line_table frame_lookup trace (some (5, pos 12)) fresh
      ≡ some (w', some 5))
    × Appends true line_table frame_lookup fresh
        (trace_events true line_table frame_lookup [] trace (some (5, pos 12)))
        (learn_all true line_table frame_lookup [] (take 2 trace.frames))
        w'
record-Appends_example =
    record-Appends true line_table frame_lookup table-IsSorted trace (some (5, pos 12)) fresh
      (omega arith)

events :
    trace_events true line_table frame_lookup [] trace (some (5, pos 12))
    ≡ start (pos 2) 12 ∷ at_line (pos 8) (pos 21) 7 ∷ method 7 run ∷ at_bci (negsuc 2) 7 ∷ []
unfolding contains
events = refl

whole_log_example :
    (w : LogWriter) × (record_all true line_table frame_lookup
        ((trace, some (5, pos 12)) ∷ [])
        fresh
      ≡ some w)
    × (decode (suc (length w.output)) w.output
        ≡ some (all_events true line_table frame_lookup [] ((trace, some (5, pos 12)) ∷ [])))
    × ((m : ℕ)
        → announced m (all_events true line_table frame_lookup [] ((trace, some (5, pos 12)) ∷ []))
          ≤ 1)
unfolding contains
whole_log_example =
    whole_log true line_table frame_lookup table-IsSorted ((trace, some (5, pos 12)) ∷ [])
      (omega arith) (omega arith)
