-- ===== src/LockFreeMap/New.antt =====
-- A new table (recorder/src/main/cpp/concurrent_map.h, HashTable's constructor).
use fk_prof.Prelude.{ℕ, zero, suc, ◌-◌, ◌*◌, ◌^◌, ◌≤◌, ◌≡◌, refl, arith, some}
use fk_prof.LockFreeMap.Defs.{
  HashTable, new_table, allocated_size, get_migration_size, hash_empty, home,
}
use fk_prof.LockFreeMap.Pow2.{allocated_size_lem, pow_mono, pow_pos}
use fk_prof.LockFreeMap.Chain.{find_loop-empty}
use fk_prof.LockFreeMap.Valid.{IsValid, lookup, lookup-absent, used_below}
use fk_prof.LockFreeMap.Live.{live, live-some, IsUnmarked}

-- The size is a positive number of chunks.
pub record IsChunked (t : HashTable) : Type 0 where
  pub chunks : suc t.size_mask ≡ 32 * get_migration_size t
  pub some_chunk : 1 ≤ get_migration_size t

size_bounds : (n : ℕ) → (32 ≤ allocated_size n) × (allocated_size n ≤ 2 ^ 30)
size_bounds n =
    let (j, le, e) = allocated_size_lem n in
    (omega (arith, pow_pos j), omega (arith, pow_mono 25 j le))

used_below-empty : (n : ℕ) → used_below n (λ i. hash_empty) ≡ 0
unfolding used_below
used_below-empty zero = refl
used_below-empty (suc n) = used_below-empty n

-- A new table is valid and has no entry.
pub new_table-IsValid : (n : ℕ) → IsValid (new_table n)
unfolding new_table
new_table-IsValid n =
    let (lo, hi) = size_bounds n in
    record {
      rank = λ i. 0;
      linked = record {
        empty_end = λ i e. refl;
        extended = λ i e. omega arith;
        next_used = λ i ne. absurd (ne refl);
        next_rank = λ i ne. absurd (ne refl);
        reached = λ i ne. absurd (ne refl);
      };
      ranked = λ i. omega arith;
      mask_fits = omega arith;
      filled = omega (arith, used_below-empty (suc (allocated_size n - 1)));
      unused = λ i e ne. refl;
    }

pub new_table-IsChunked : (n : ℕ) → IsChunked (new_table n)
unfolding new_table get_migration_size
new_table-IsChunked n =
    let (j, le, e) = allocated_size_lem n in
    record { chunks = omega (arith, pow_pos j); some_chunk = omega (arith, pow_pos j) }

pub new_table-IsUnmarked : (n : ℕ) → IsUnmarked (new_table n)
unfolding new_table
new_table-IsUnmarked n i e = omega arith

pub lookup-new_table : (n h : ℕ) → lookup (new_table n) h ≡ some 0
unfolding new_table
lookup-new_table n h = lookup-absent (new_table-IsValid n) 1 h (
    find_loop-empty (allocated_size n - 1) (λ i. hash_empty) (λ i. 0) 0 h
      (home (allocated_size n - 1) h) refl)

pub live-new_table : (n h : ℕ) → live (new_table n) h ≡ 0
live-new_table n h = live-some (new_table n) h 0 (lookup-new_table n h) (λ q. omega arith)

pub same_IsChunked : (d d' : HashTable) → d'.size_mask ≡ d.size_mask → IsChunked d → IsChunked d'
unfolding get_migration_size
same_IsChunked d d' e c = record {
  chunks = omega (arith, e, c.chunks);
  some_chunk = omega (arith, e, c.some_chunk);
}
