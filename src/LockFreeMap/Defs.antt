-- ===== src/LockFreeMap/Defs.antt =====
-- HashTable and LockFreeMapPrimitives (recorder/src/main/cpp/concurrent_map.h): the cells, the search
-- for a hash, and the insertion. A call runs without interruption, so each of its
-- compare-and-swaps meets the value it has just read.
use Prim.Native.Nat.{bit_and, bit_or, max}
use fk_prof.Prelude.{
  ℕ, zero, suc, ◌+◌, ◌-◌, ◌*◌, ◌/◌, ◌^◌, ◌%◌, Option, none, some, ltb, ◌==◌, if◌then◌else◌, update,
}
use fk_prof.Prelude.Word.{u32_mod, inc32, dec32}

abbrev pub neighbourhood : ℕ
neighbourhood = 16

abbrev pub max_jumps_allowed : ℕ
max_jumps_allowed = 8

abbrev pub migration_chunk_size : ℕ
migration_chunk_size = 32

abbrev pub size_min : ℕ
size_min = 32

abbrev pub max_sample_size : ℕ
max_sample_size = 256

-- A hash is the bit pattern of an int64_t, a value is an address, a delta an unsigned int.
-- -1 has all bits set.
abbrev pub hash_empty : ℕ
hash_empty = 2 ^ 64 - 1

abbrev pub val_empty : ℕ
val_empty = 0

abbrev pub val_move : ℕ
val_move = 2 ^ 64 - 1

abbrev pub delta_empty : ℕ
delta_empty = 0

abbrev pub delta_extend : ℕ
delta_extend = 2 ^ 32 - 1

-- `x |= x >> k`. Where the sign of x is set, both kinds of shift lead to all ones.
abbrev pub smear : ℕ → ℕ → ℕ
smear k x = bit_or x (x / 2 ^ k)

unfoldable pub nearest_pow2 : ℕ → ℕ
nearest_pow2 x = inc32 (smear 16 (smear 8 (smear 4 (smear 2 (smear 1 (dec32 x))))))

-- `array[i].hash`, `array[i].value` and `array[i].deltaNext` are `hash i`, `value i` and
-- `delta_next i`. No call reads or writes past `size_mask`. `free_buckets` is an atomic int; a
-- call that finds it at 0 puts back what it takes.
pub record HashTable : Type 0 where
  pub size_mask : ℕ
  pub hash : ℕ → ℕ
  pub value : ℕ → ℕ
  pub delta_next : ℕ → ℕ
  pub free_buckets : ℕ

-- The size is an int in nearestPow2, and std::max of a negative int is kSizeMin.
unfoldable pub allocated_size : ℕ → ℕ
allocated_size initial_size =
    let x = nearest_pow2 (initial_size % u32_mod) in
    if ltb x (2 ^ 31) then max x size_min else size_min

-- `(int)(0.75 * allocatedSize)` is exact in a double.
unfoldable pub new_table : ℕ → HashTable
new_table initial_size = record {
  size_mask = allocated_size initial_size - 1;
  hash = λ i. hash_empty;
  value = λ i. val_empty;
  delta_next = λ i. delta_empty;
  free_buckets = 3 * allocated_size initial_size / 4;
}

unfoldable pub get_migration_size : HashTable → ℕ
get_migration_size t = (t.size_mask + 1) / migration_chunk_size

-- `tHash & sizeMask` and `(i + delta) & sizeMask`.
unfoldable pub home : ℕ → ℕ → ℕ
home mask h = bit_and h mask

unfoldable pub step : ℕ → ℕ → ℕ → ℕ
step mask i delta = bit_and ((i + delta) % u32_mod) mask

-- The loop of find from cell i; the result is none if the fuel runs out.
unfoldable pub find_loop : ℕ → (ℕ → ℕ) → (ℕ → ℕ) → ℕ → ℕ → ℕ → Option (Option ℕ)
find_loop mask hs ds zero h i = none
find_loop mask hs ds (suc n) h i =
    let rest = find_loop mask hs ds n h (step mask i (ds i)) in
    if hs i == hash_empty
    then some none
    else if hs i == h
    then some (some i)
    else if ds i == delta_empty
    then some none
    else if ds i == delta_extend
    then some none
    else rest

-- The fuel is a step for each cell and one more.
unfoldable pub find : HashTable → ℕ → Option (Option ℕ)
find t h = find_loop t.size_mask t.hash t.delta_next (suc (suc t.size_mask)) h (home t.size_mask h)

-- How the loop over the chain ends: after too many jumps, at a cell that has the hash, at the
-- last cell of the chain, or in the loop that waits until another call has extended the cell.
pub data Walk : Type 0 where
  jumps_out : Walk
  found : ℕ → Walk
  tail : ℕ → Walk
  waits : Walk

unfoldable pub walk : ℕ → (ℕ → ℕ) → (ℕ → ℕ) → ℕ → ℕ → ℕ → ℕ → Walk
walk mask hs ds zero h i delta = jumps_out
walk mask hs ds (suc n) h i delta =
    let j = step mask i delta in
    let rest = walk mask hs ds n h j (ds j) in
    if hs j == h
    then found j
    else if ds j == delta_empty
    then tail j
    else if ds j == delta_extend
    then waits
    else rest

-- INSERT_OK comes with the old value.
pub data InsertOutcome : Type 0 where
  insert_ok : ℕ → InsertOutcome
  insert_overflow : InsertOutcome
  insert_help_migration : InsertOutcome

abbrev pub set_value : ℕ → ℕ → HashTable → HashTable
set_value c v t = record t { value = update t.value c v }

unfoldable pub store_value : ℕ → ℕ → HashTable → InsertOutcome × HashTable
store_value c v t =
    if t.value c == val_move
    then (insert_help_migration, t)
    else (insert_ok (t.value c), set_value c v t)

unfoldable pub set_delta : ℕ → ℕ → HashTable → HashTable
set_delta i d t = record t { delta_next = update t.delta_next i d }

-- Cell c, at distance d of the end of the chain, takes the hash.
unfoldable pub claim : ℕ → ℕ → ℕ → ℕ → HashTable → HashTable
claim prev c d h t = record t {
  hash = update t.hash c h;
  delta_next = update t.delta_next prev d;
  free_buckets = t.free_buckets - 1;
}

-- The linear search from distance d, over n more cells.
unfoldable pub search_cell : ℕ → ℕ → ℕ → ℕ → ℕ → HashTable → InsertOutcome × HashTable
search_cell zero d prev h v t = (insert_overflow, set_delta prev delta_empty t)
search_cell (suc n) d prev h v t =
    let c = step t.size_mask prev d in
    let rest = search_cell n (suc d) prev h v t in
    if t.hash c == hash_empty
    then if t.free_buckets == 0
      then (insert_overflow, set_delta prev delta_empty t)
      else store_value c v (claim prev c d h t)
    else if t.hash c == h
    then store_value c v t
    else rest

-- What follows the walk; none: the call waits for another one.
abbrev pub after_walk : HashTable → ℕ → ℕ → Walk → Option (InsertOutcome × HashTable)
after_walk t h v jumps_out = some (insert_overflow, t)
after_walk t h v (found c) = some (store_value c v t)
after_walk t h v (tail prev) =
    some (search_cell neighbourhood 0 prev h v (set_delta prev delta_extend t))
after_walk t h v waits = none

-- The first test is `jumps++ > kMaxJumpsAllowed`, so one cell more is visited.
unfoldable pub insert_or_update : HashTable → ℕ → ℕ → Option (InsertOutcome × HashTable)
insert_or_update t h v =
    after_walk t h v
      (walk t.size_mask t.hash t.delta_next (suc max_jumps_allowed) h (home t.size_mask h) 0)
