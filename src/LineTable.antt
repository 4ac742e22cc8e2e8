-- ===== src/LineTable.antt =====
-- `bci2line` (recorder/src/main/cpp/log_writer.cpp): the source line of a bytecode index, from the
-- line table that JVMTI returns.
pub mod Sorted
pub mod Correct
mod Tests
use fk_prof.Prelude.{
  ℕ, zero, suc, ◌+◌, ◌/◌, Option, none, some, List, [], ◌∷◌, ◌==◌, if◌then◌else◌, length, get_elem?,
  drop,
}
use fk_prof.Prelude.Int.{ℤ, negsuc, ltb_ℤ, eqb_ℤ}

-- `jvmtiLineNumberEntry`
pub record LineEntry : Type 0 where
  pub start_location : ℤ
  pub line_number : ℤ

-- What the first loop ends with: the line of an exact match, an index to start from, or a read
-- outside the table; `unfinished` where it has not ended when the fuel is used up.
pub data Narrowed : Type 0 where
  gotcha : ℤ → Narrowed
  start_at : ℕ → Narrowed
  fault : Narrowed
  unfinished : Narrowed

-- The first loop, `while (half > 0)`. `half` falls in each round, so fuel `half` is enough.
-- The copy to a `jint` narrows a location to 32 bits, which changes none below 65536, the bound of a
-- method's code: it is the identity here.
unfoldable pub narrow : ℕ → ℤ → List LineEntry → ℕ → ℕ → Narrowed
narrow zero bci table half start_index = if half == 0 then start_at start_index else unfinished
narrow (suc fuel) bci table half start_index =
    let right = narrow fuel bci table (half / 2) (start_index + half) in
    let left = narrow fuel bci table (half / 2) start_index in
    if half == 0 then start_at start_index else elim (get_elem? table (start_index + half)) [
      | none ↦ fault
      | some entry ↦
          if ltb_ℤ entry.start_location bci
          then right
          else if eqb_ℤ bci entry.start_location
          then gotcha entry.line_number
          else left
    ]

-- The second loop, over the entries from `start_index` on.
unfoldable pub scan : ℤ → List LineEntry → ℤ → ℤ
scan bci [] line_number = line_number
scan bci (entry ∷ rest) line_number =
    let next = scan bci rest entry.line_number in
    if ltb_ℤ bci entry.start_location
    then line_number
    else if eqb_ℤ bci entry.start_location
    then entry.line_number
    else next

-- -102, where no entry starts at or before the index, and -101, where there is no entry.
abbrev pub before_all : ℤ
before_all = negsuc 101

abbrev pub no_entries : ℤ
no_entries = negsuc 100

-- `none` is a read outside the table, or a loop that does not end.
unfoldable pub bci2line : ℤ → List LineEntry → Option ℤ
unfolding narrow scan
bci2line bci table =
    if length table == 0
    then some no_entries
    else elim (narrow (length table / 2) bci table (length table / 2) 0) [
      | gotcha line ↦ some line
      | start_at start_index ↦ some (scan bci (drop start_index table) before_all)
      | fault ↦ none
      | unfinished ↦ none
    ]
