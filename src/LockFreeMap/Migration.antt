-- ===== src/LockFreeMap/Migration.antt =====
-- Migration (recorder/src/main/cpp/concurrent_map.h): the entries of the source tables go to the
-- destination, chunk by chunk. One thread runs the job.
pub mod Run
mod Moves
mod Cells
mod Chunks
pub mod Sources
pub mod Restart
use Prim.Native.Nat.{min, max}
use fk_prof.Prelude.{
  ℕ, zero, suc, ◌+◌, ◌-◌, ◌*◌, ◌/◌, Bool, true, false, Option, none, some, ◌==◌, ltb, if◌then◌else◌,
  update, List, [], ◌∷◌, ◌++◌,
}
use fk_prof.LockFreeMap.Defs.{
  set_value, HashTable, hash_empty, val_empty, val_move, InsertOutcome, insert_ok, insert_overflow,
  insert_help_migration, insert_or_update, new_table, get_migration_size, migration_chunk_size,
}

-- What an insertion into the destination means for the cell, whose value v has been replaced by
-- the mark already: after an overflow it is put back.
abbrev pub moved :
    ℕ → ℕ → HashTable → Option (InsertOutcome × HashTable) → Option (Bool × HashTable × HashTable)
moved i v from none = none
moved i v from (some (insert_overflow, dest)) = some (true, set_value i v from, dest)
moved i v from (some (insert_ok old, dest)) = some (false, from, dest)
moved i v from (some (insert_help_migration, dest)) = some (false, from, dest)

-- One cell of migrateRange: whether the destination overflowed, and both tables. An unused cell
-- with a value is read again for as long as it is one: none.
unfoldable pub migrate_cell : HashTable → HashTable → ℕ → Option (Bool × HashTable × HashTable)
migrate_cell from dest i =
    let marked = set_value i val_move from in
    let inserted =
      moved i (from.value i) marked (insert_or_update dest (from.hash i) (from.value i)) in
    if from.value i == val_empty
    then some (false, marked, dest)
    else if from.value i == val_move
    then some (false, from, dest)
    else if from.hash i == hash_empty
    then none
    else inserted

abbrev pub and_then :
    Option (Bool × HashTable × HashTable)
    → (HashTable → HashTable → Option (Bool × HashTable × HashTable))
    → Option (Bool × HashTable × HashTable)
and_then none k = none
and_then (some (true, from, dest)) k = some (true, from, dest)
and_then (some (false, from, dest)) k = k from dest

-- n cells from index i on.
unfoldable pub migrate_cells : ℕ → ℕ → HashTable → HashTable → Option (Bool × HashTable × HashTable)
migrate_cells zero i from dest = some (false, from, dest)
migrate_cells (suc n) i from dest =
    and_then (migrate_cell from dest i) (λ from' dest'. migrate_cells n (suc i) from' dest')

unfoldable pub migrate_range : ℕ → HashTable → HashTable → Option (Bool × HashTable × HashTable)
migrate_range start from dest =
    migrate_cells (min (start + migration_chunk_size) (from.size_mask + 1) - start) start from dest
