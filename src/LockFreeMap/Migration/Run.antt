-- ===== src/LockFreeMap/Migration/Run.antt =====
-- Migration::run (recorder/src/main/cpp/concurrent_map.h): the chunks of all sources, and what
-- follows them.
use fk_prof.Prelude.{
  ℕ, zero, suc, ◌+◌, ◌-◌, ◌*◌, ◌%◌, Bool, true, false, Option, none, some, ◌==◌, ltb, if◌then◌else◌,
  List, [], ◌∷◌, ◌++◌, map,
}
use fk_prof.Prelude.Word.{u32_mod}
use fk_prof.LockFreeMap.Defs.{HashTable, new_table, get_migration_size, migration_chunk_size}
use fk_prof.LockFreeMap.Migration.{migrate_range}

pub record Source : Type 0 where
  pub table : HashTable
  pub index : ℕ

-- `overflowed` is what a run says by its outcome. `completed` is the lowest bit of `state`, whose other bits count the threads inside run.
-- `units_remaining` is not counted below 0: it starts as the number of chunks.
pub record Migration : Type 0 where
  pub dest : HashTable
  pub sources : List Source
  pub completed : Bool
  pub units_remaining : ℕ

-- Why the loop over one source stops: all its chunks are taken, the last unit of all is done, or
-- the destination overflowed.
pub data Stop : Type 0 where
  exhausted : Stop
  all_done : Stop
  out_of_room : Stop

pub record Progress : Type 0 where
  pub stop : Stop
  pub source : Source
  pub into : HashTable
  pub units : ℕ

-- After a chunk: an overflow, the last unit, or the next chunk.
abbrev pub after_chunk :
    ℕ
    → ℕ
    → Option (Bool × HashTable × HashTable)
    → (Source → HashTable → ℕ → Option Progress)
    → Option Progress
after_chunk index units none k = none
after_chunk index units (some (true, from, dest)) k = some (record {
  stop = out_of_room;
  source = record { table = from; index = index };
  into = dest;
  units = units;
})
after_chunk index units (some (false, from, dest)) k =
    let rest = k (record { table = from; index = index }) dest (units - 1) in
    if units == 1
    then some (record {
      stop = all_done;
      source = record { table = from; index = index };
      into = dest;
      units = 0;
    })
    else rest

-- The loop over the chunks of one source; none if the fuel runs out.
unfoldable pub run_source : ℕ → Source → HashTable → ℕ → Option Progress
run_source zero s dest units = none
run_source (suc n) s dest units =
    let rest =
      after_chunk (s.index + migration_chunk_size) units (migrate_range s.index s.table dest)
        (run_source n) in
    if ltb s.table.size_mask s.index
    then some (record {
      stop = exhausted;
      source = record s { index = s.index + migration_chunk_size };
      into = dest;
      units = units;
    })
    else rest

pub record Passed : Type 0 where
  pub outcome : Stop
  pub sources : List Source
  pub into : HashTable
  pub units : ℕ

abbrev pub and_source : Source → Option Passed → Option Passed
and_source s none = none
and_source s (some q) = some (record q { sources = s ∷ q.sources })

-- What is done with the sources left.
abbrev pub after_source :
    Option Progress → List Source → (HashTable → ℕ → Option Passed) → Option Passed
after_source none rest k = none
after_source (some p) rest k = elim p.stop [
  | exhausted ↦ and_source p.source (k p.into p.units)
  | all_done ↦
      some
        (record { outcome = all_done; sources = p.source ∷ rest; into = p.into; units = p.units })
  | out_of_room ↦
      some (record {
        outcome = out_of_room;
        sources = p.source ∷ rest;
        into = p.into;
        units = p.units;
      })
]

-- A source has a chunk for each unit of its size, and one more look says that there is none.
unfoldable pub run_sources : List Source → HashTable → ℕ → Option Passed
run_sources [] dest units =
    some (record { outcome = exhausted; sources = []; into = dest; units = units })
run_sources (s ∷ rest) dest units =
    after_source (run_source (get_migration_size s.table + 2) s dest units) rest (run_sources rest)

unfoldable pub sum_sizes : List Source → ℕ
sum_sizes [] = 0
sum_sizes (s ∷ rest) = get_migration_size s.table + sum_sizes rest

abbrev pub rewind : Source → Source
rewind s = record s { index = 0 }

-- The job that follows an overflow: all sources again, the destination as one more, and a
-- destination of twice the size.
unfoldable pub restart : List Source → HashTable → Migration
restart sources dest = record {
  dest = new_table ((dest.size_mask + 1) * 2 % u32_mod);
  sources = map rewind sources ++ (record { table = dest; index = 0 } ∷ []);
  completed = false;
  units_remaining = sum_sizes sources + get_migration_size dest;
}

-- The result of a run: the job was completed before, the destination is the new root, or another
-- job takes its place.
pub data Ran : Type 0 where
  was_completed : Ran
  finishes : HashTable → Ran
  restarts : Migration → Ran

abbrev pub conclude : Option Passed → Option Ran
conclude none = none
conclude (some p) = elim p.outcome [
  | out_of_room ↦ some (restarts (restart p.sources p.into))
  | all_done ↦ some (finishes p.into)
  | exhausted ↦ some (finishes p.into)
]

unfoldable pub run : Migration → Option Ran
run m =
    let passed = conclude (run_sources m.sources m.dest m.units_remaining) in
    if m.completed then some was_completed else passed
