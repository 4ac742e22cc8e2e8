-- ===== src/LockFreeMap/Search.antt =====
-- The linear search of insertOrUpdate (recorder/src/main/cpp/concurrent_map.h).
use fk_prof.Prelude.{
  ℕ, zero, suc, ◌+◌, ◌≤◌, ◌<◌, ◌≡◌, ◌≢◌, ◌==◌, arith, Bool-cases, inl, inr, false, ◌∙◌, ap, refl,
  ℕ_discrete,
}
use mathlib.Core.Path.{subst}
use fk_prof.LockFreeMap.Defs.{
  hash_empty, HashTable, step, InsertOutcome, insert_overflow, insert_ok, set_value, val_move,
  store_value, set_delta, claim, search_cell,
}

-- How the search ends for a table, the end p of the chain, and a hash that no cell has.
pub data Searches (t : HashTable) (p h v : ℕ) (r : InsertOutcome × HashTable) : Type 0 where
  no_room : r ≡ (insert_overflow, set_delta p 0 t) → Searches t p h v r
  takes :
      (d : ℕ)
      → d < 16
      → t.hash (step t.size_mask p d) ≡ hash_empty
      → (d ≢ 0 → t.hash p ≢ hash_empty)
      → t.free_buckets ≢ 0
      → r ≡ store_value (step t.size_mask p d) v (claim p (step t.size_mask p d) d h t)
      → Searches t p h v r

not_empty : {x : ℕ} → (x == hash_empty) ≡ false → x ≢ hash_empty
not_empty e q = ground arith

pub search_cell-Searches :
    (t : HashTable) (p h v n d : ℕ)
    → step t.size_mask p 0 ≡ p
    → ((i : ℕ) → t.hash i ≢ h)
    → n + d ≤ 16
    → (d ≢ 0 → t.hash p ≢ hash_empty)
    → Searches t p h v (search_cell n d p h v t)
unfolding search_cell
search_cell-Searches t p h v zero d self absent le seen = no_room refl
search_cell-Searches t p h v (suc n) d self absent le seen =
    elim (Bool-cases (t.hash (step t.size_mask p d) == hash_empty)) [
      | inl e ↦ elim (Bool-cases (t.free_buckets == 0)) [
        | inl f ↦ no_room (rw (e, f))
        | inr f ↦ takes d (omega arith) (ground arith) seen (λ q. ground arith) (rw (e, f))
      ]
      | inr e ↦ elim (Bool-cases (t.hash (step t.size_mask p d) == h)) [
        | inl f ↦ absurd (absent (step t.size_mask p d) (ground arith))
        | inr f ↦
            let used : t.hash p ≢ hash_empty = elim (ℕ_discrete d 0) [
              | yes z ↦ λ q. not_empty e (ap t.hash (ap (step t.size_mask p) z ∙ self) ∙ q)
              | no z ↦ seen z
            ] in
            subst (Searches t p h v) (rw (e, f))
              (search_cell-Searches t p h v n (suc d) self absent (omega arith) (λ _. used))
      ]
    ]

-- Where the first cell has the hash already, nothing is done to the end of the chain.
pub search_cell-meets :
    (t : HashTable) (p h v n d c : ℕ)
    → step t.size_mask p d ≡ c
    → h ≢ hash_empty
    → t.hash c ≡ h
    → t.value c ≢ val_move
    → search_cell (suc n) d p h v t ≡ (insert_ok (t.value c), set_value c v t)
unfolding search_cell store_value
search_cell-meets t p h v n d c here key there no_mark =
    ground (arith, here, ap t.hash here ∙ there, ap t.value here)
