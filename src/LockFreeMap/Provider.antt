-- ===== src/LockFreeMap/Provider.antt =====
-- ConcurrentMapProvider (recorder/src/main/cpp/concurrent_map.h): put in rounds of an insertion or a
-- run of the migration, get, remove, and the counts. One thread calls; between two of its calls no
-- migration is on.
pub mod Rounds
pub mod Calls
pub mod Client
mod Tests
use Prim.Native.Nat.{min, max}
use fk_prof.Prelude.{
  ℕ, zero, suc, ◌+◌, ◌*◌, ◌/◌, ◌%◌, Bool, true, false, Option, none, some, ◌==◌, ltb, if◌then◌else◌,
  List, [], ◌∷◌,
}
use mathlib.Core.Option
use fk_prof.Prelude.Word.{u32_mod}
use fk_prof.LockFreeMap.Defs.{
  HashTable, hash_empty, val_empty, val_move, size_min, max_sample_size, nearest_pow2, new_table,
  get_migration_size, set_value, find, InsertOutcome, insert_ok, insert_overflow,
  insert_help_migration, insert_or_update,
}
use fk_prof.LockFreeMap.Migration.Run.{
  Source, Migration, Ran, was_completed, finishes, restarts, run,
}

-- `current`, and the job of its coordinator. While a migration is on, `current` is the table of its
-- first source.
pub data MapState : Type 0 where
  root : HashTable → MapState
  migrating : Migration → MapState

-- The constructor's map.
unfoldable pub new_map : ℕ → MapState
new_map initial_size = root (new_table initial_size)

abbrev count_one : Option ℕ → Option ℕ
count_one none = none
count_one (some k) = some (suc k)

-- The cells in use among n from index i on; none if one has been marked.
unfoldable pub sample : ℕ → ℕ → HashTable → Option ℕ
sample zero i t = some 0
sample (suc n) i t =
    let rest = sample n (suc i) t in
    if t.value i == val_move then none else if t.value i == val_empty then rest else count_one rest

-- A table's size is a power of two, so the float is exact.
unfoldable pub target_size : HashTable → Bool → Option ℕ
target_size t true = some ((t.size_mask + 1) * 2 % u32_mod)
target_size t false =
    let sample_max = min max_sample_size (t.size_mask + 1) in
    Option.map
      (λ estimated. max size_min (nearest_pow2 (2 * ((t.size_mask + 1) * estimated / sample_max))))
      (sample sample_max 0 t)

-- The job that the table's coordinator gets.
unfoldable pub start_job : HashTable → ℕ → Migration
start_job t target = record {
  dest = new_table target;
  sources = record { table = t; index = 0 } ∷ [];
  completed = false;
  units_remaining = get_migration_size t;
}

-- none: another thread has started it.
unfoldable pub migration_start : HashTable → Bool → Option Migration
migration_start t double_size = Option.map (start_job t) (target_size t double_size)

-- A round of put: it returns the old value, or goes on, with the size doubled at the next overflow.
pub data Round : Type 0 where
  returns : ℕ → MapState → Round
  continues : Bool → MapState → Round

-- To participate where there is no job is to wait for another thread: none.
abbrev pub after_insert : Bool → Option (InsertOutcome × HashTable) → Option Round
after_insert double_size none = none
after_insert double_size (some (insert_ok old, t)) = some (returns old (root t))
after_insert double_size (some (insert_help_migration, t)) = none
after_insert double_size (some (insert_overflow, t)) =
    Option.map (λ m. continues true (migrating m)) (migration_start t double_size)

-- A finished job makes its destination the root; a job that is there again, completed, leaves
-- the thread waiting for the next one.
abbrev pub after_run : Option Ran → Option Round
after_run none = none
after_run (some was_completed) = none
after_run (some (finishes dest)) = some (continues true (root dest))
after_run (some (restarts m)) = some (continues true (migrating m))

unfoldable pub put_round : Bool → MapState → ℕ → ℕ → Option Round
put_round double_size (root t) h v = after_insert double_size (insert_or_update t h v)
put_round double_size (migrating m) h v = after_run (run m)

abbrev pub or_again : Option Round → (Bool → MapState → Option Round) → Option Round
or_again none k = none
or_again (some (returns old m)) k = some (returns old m)
or_again (some (continues d m)) k = k d m

-- At most n rounds of put.
unfoldable pub put_rounds : ℕ → Bool → MapState → ℕ → ℕ → Option Round
put_rounds zero double_size m h v = some (continues double_size m)
put_rounds (suc n) double_size m h v =
    or_again (put_round double_size m h v) (λ d m'. put_rounds n d m' h v)

-- On the root; none where the call meets the mark, and goes on only after another thread.
abbrev pub value_found : (ℕ → ℕ) → Option (Option ℕ) → Option ℕ
value_found vs none = none
value_found vs (some none) = some val_empty
value_found vs (some (some c)) = if vs c == val_move then none else some (vs c)

unfoldable pub get : HashTable → ℕ → Option ℕ
get t h = value_found t.value (find t h)

abbrev pub remove_found : HashTable → Option (Option ℕ) → Option (ℕ × HashTable)
remove_found t none = none
remove_found t (some none) = some (val_empty, t)
remove_found t (some (some c)) =
    if t.value c == val_move then none else some (t.value c, set_value c val_empty t)

unfoldable pub remove : HashTable → ℕ → Option (ℕ × HashTable)
remove t h = remove_found t (find t h)

unfoldable pub capacity : HashTable → ℕ
capacity t = t.size_mask + 1

-- Among the first n cells, those with a live value, and those with a hash.
unfoldable pub used_among : ℕ → HashTable → ℕ
used_among zero t = 0
used_among (suc n) t =
    if t.value n == val_empty
    then used_among n t
    else if t.value n == val_move
    then used_among n t
    else suc (used_among n t)

unfoldable pub unsafe_used : HashTable → ℕ
unsafe_used t = used_among (t.size_mask + 1) t

unfoldable pub dirty_among : ℕ → HashTable → ℕ
dirty_among zero t = 0
dirty_among (suc n) t = if t.hash n == hash_empty then dirty_among n t else suc (dirty_among n t)

unfoldable pub unsafe_dirty : HashTable → ℕ
unsafe_dirty t = dirty_among (t.size_mask + 1) t
