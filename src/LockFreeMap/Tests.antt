-- ===== src/LockFreeMap/Tests.antt =====
-- Tests and witnesses for the table (recorder/src/main/cpp/concurrent_map.h).
use fk_prof.Prelude.{ℕ, ◌≡◌, ◌≢◌, refl, some, none, arith}
use fk_prof.LockFreeMap.Defs.{
  HashTable, delta_extend, home, step, new_table, insert_or_update, nearest_pow2, set_value,
  find_loop, find, search_cell, set_delta, walk, claim, store_value, insert_ok, allocated_size,
}
use mathlib.Core.Option
use fk_prof.LockFreeMap.Valid.{lookup}
use fk_prof.LockFreeMap.Store.{Stores}
use fk_prof.LockFreeMap.Claim.{link, link-Stores}
use fk_prof.LockFreeMap.Insert.{Inserts, insert_or_update-Inserts, link-Extends}
use fk_prof.LockFreeMap.New.{new_table-IsValid}
use fk_prof.LockFreeMap.Pow2.{nearest_pow2_lem}
use fk_prof.LockFreeMap.Chance.{late-waits}

nearest_pow2_test : nearest_pow2 33 ≡ 64
unfolding nearest_pow2
nearest_pow2_test = refl

nearest_pow2_example : nearest_pow2 300 ≡ 512
nearest_pow2_example = nearest_pow2_lem 8 300 (omega arith) (omega arith) (omega arith)

-- A table with the value 7 for the hash 5.
abbrev pub one_entry : HashTable
one_entry = set_value 5 7 (link 5 5 0 5 (new_table 32))

new_size : (new_table 32).size_mask ≡ 31
unfolding new_table allocated_size nearest_pow2
new_size = refl

pub one_entry-Stores : Stores (new_table 32) 5 7 0 one_entry
unfolding new_table allocated_size nearest_pow2 home step find_loop
one_entry-Stores =
    link-Stores (new_table-IsValid 32) 5 5 0 5 1 1
      (link-Extends (new_table 32) 5 0 5 (λ q. omega arith) refl refl refl (omega arith)
        (λ ne. absurd (ne refl)))
      (λ q. omega arith) refl refl 7 (λ q. omega arith)

insert_or_update_example : Inserts one_entry 37 9 (insert_or_update one_entry 37 9)
insert_or_update_example = insert_or_update-Inserts one_entry-Stores.valid 37 9 (λ q. omega arith)

-- Two hashes with the same home, and the table that an insertion gives for the second.
insert_or_update_test :
    Option.map (λ r. lookup r.1 37) (insert_or_update one_entry 37 9) ≡ some (some 9)
unfolding insert_or_update walk search_cell set_delta claim store_value home step lookup find
    find_loop new_table allocated_size nearest_pow2
insert_or_update_test = refl

late-waits_example :
    (t' : HashTable) × (search_cell 16 0
        (home 31 5)
        5
        8
        (set_delta (home 31 5) delta_extend one_entry)
      ≡ (insert_ok (one_entry.value (home 31 5)), t'))
    × ((k w : ℕ) → home 31 k ≡ home 31 5 → k ≢ 5 → insert_or_update t' k w ≡ none)
unfolding home new_table allocated_size nearest_pow2
late-waits_example =
    late-waits one_entry 5 8 (λ q. omega arith) (omega arith) refl (λ q. omega arith)
