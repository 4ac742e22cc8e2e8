-- ===== src/LockFreeMap/Valid.antt =====
-- A table between two calls (recorder/src/main/cpp/concurrent_map.h), and what find gives on it.
use fk_prof.Prelude.{
  ℕ, zero, suc, ◌+◌, ◌*◌, ◌/◌, ◌≤◌, ◌<◌, ◌≡◌, ◌≢◌, Option, none, some, ◌==◌, if◌then◌else◌, arith,
  ◌∙◌, sym, ap,
}
use fk_prof.Prelude.Word.{u32_mod}
use fk_prof.LockFreeMap.Defs.{HashTable, hash_empty, val_move, find_loop, find, home}
use fk_prof.LockFreeMap.Mask.{home-le}
use fk_prof.LockFreeMap.Chain.{
  Linked, find_loop-more, find_loop-total, find_loop-inside, find_loop-hash,
}

-- The number of used cells among the first n.
unfoldable pub used_below : ℕ → (ℕ → ℕ) → ℕ
used_below zero hs = 0
used_below (suc n) hs = if hs n == hash_empty then used_below n hs else suc (used_below n hs)

-- The chains are linked, a used cell is paid for by a free bucket, and an unused cell has no value but
-- the mark of a migration.
pub record IsValid (t : HashTable) : Type 0 where
  pub rank : ℕ → ℕ
  pub linked : Linked t.size_mask t.hash t.delta_next rank
  pub ranked : (i : ℕ) → rank i + t.free_buckets ≤ suc t.size_mask
  pub mask_fits : t.size_mask < u32_mod
  pub filled : used_below (suc t.size_mask) t.hash + t.free_buckets ≡ 3 * suc t.size_mask / 4
  pub unused : (i : ℕ) → t.hash i ≡ hash_empty → t.value i ≢ val_move → t.value i ≡ 0

abbrev pub value_at : (ℕ → ℕ) → Option (Option ℕ) → Option ℕ
value_at vs none = none
value_at vs (some none) = some 0
value_at vs (some (some c)) = some (vs c)

-- The value that a hash has: the address in the cell that find gives, or else null.
unfoldable pub lookup : HashTable → ℕ → Option ℕ
lookup t h = value_at t.value (find t h)

module _ (m : ℕ) (hs ds : ℕ → ℕ) where
  -- Two searches that end agree.
  pub find_loop_unique :
      (n k h i : ℕ) (r s : Option ℕ)
      → find_loop m hs ds n h i ≡ some r
      → find_loop m hs ds k h i ≡ some s
      → r ≡ s
  find_loop_unique n k h i r s p q =
      let p' = find_loop-more m hs ds n (n + k) h i r (omega arith) p in
      let q' = find_loop-more m hs ds k (n + k) h i s (omega arith) q in
      let e = sym p' ∙ q' in ground arith

-- The cell that find gives has the hash.
pub find-hash :
    (t : HashTable) (h c : ℕ) → find t h ≡ some (some c) → t.hash c ≡ h × (t.hash c ≢ hash_empty)
unfolding find
find-hash t h c e = find_loop-hash t.size_mask t.hash t.delta_next _ h (home t.size_mask h) c e

-- find gives a cell of the table.
pub find-inside : (t : HashTable) (h c : ℕ) → find t h ≡ some (some c) → c ≤ t.size_mask
unfolding find
find-inside t h c e =
    find_loop-inside t.size_mask t.hash t.delta_next _ h (home t.size_mask h) c
      (home-le t.size_mask h) e

module _ {t : HashTable} (valid : IsValid t) where
  pub find-total_at : (h : ℕ) → (r : Option ℕ) × (find t h ≡ some r)
  unfolding find
  find-total_at h =
      find_loop-total t.size_mask t.hash t.delta_next valid.rank valid.linked
        (suc (suc t.size_mask)) h (home t.size_mask h)
        (omega (arith, valid.ranked (home t.size_mask h)))

  -- The fuel of find is enough.
  pub find-any :
      (n h : ℕ) (r : Option ℕ)
      → find_loop t.size_mask t.hash t.delta_next n h (home t.size_mask h) ≡ some r
      → find t h ≡ some r
  unfolding find
  find-any n h r q =
      let (s, e) = find-total_at h in
      e ∙ ap some (find_loop_unique t.size_mask t.hash t.delta_next _ n h _ s r e q)

  pub lookup-found :
      (n h c : ℕ)
      → find_loop t.size_mask t.hash t.delta_next n h (home t.size_mask h) ≡ some (some c)
      → lookup t h ≡ some (t.value c)
  unfolding lookup
  lookup-found n h c q = ap (value_at t.value) (find-any n h (some c) q)

  pub lookup-absent :
      (n h : ℕ)
      → find_loop t.size_mask t.hash t.delta_next n h (home t.size_mask h) ≡ some none
      → lookup t h ≡ some 0
  unfolding lookup
  lookup-absent n h q = ap (value_at t.value) (find-any n h none q)
