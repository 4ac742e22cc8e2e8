-- ===== src/LineTable/Tests.antt =====
-- Runs of `bci2line`, and its theorem at a table.
use fk_prof.Prelude.{◌≡◌, refl, some, List, [], ◌∷◌, arith, ◌==◌, if◌then◌else◌, length}
use fk_prof.Prelude.Int.{ℤ, pos}
use fk_prof.LineTable.{LineEntry, bci2line, no_entries, before_all}
use fk_prof.LineTable.Sorted.{IsSorted, last_line}
use fk_prof.LineTable.Correct.{bci2line_finds, bci2line_total}

abbrev table : List LineEntry
table =
    record { start_location = pos 2; line_number = pos 10 }
    ∷ record { start_location = pos 5; line_number = pos 11 }
    ∷ record { start_location = pos 9; line_number = pos 12 }
    ∷ []

table-IsSorted : IsSorted table
table-IsSorted = omega arith

between : bci2line (pos 7) table ≡ some (pos 11)
unfolding bci2line
between = refl

before : bci2line (pos 1) table ≡ some before_all
unfolding bci2line
before = refl

bci2line_finds_example :
    bci2line (pos 7) table
    ≡ some (if length table == 0 then no_entries else last_line (pos 7) table before_all)
bci2line_finds_example = bci2line_finds (pos 7) table table-IsSorted

bci2line_total_example : (line : ℤ) × (bci2line (pos 7) table ≡ some line)
bci2line_total_example = bci2line_total (pos 7) table
