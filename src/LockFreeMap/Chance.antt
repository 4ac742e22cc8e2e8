-- ===== src/LockFreeMap/Chance.antt =====
-- Two insertions of one hash (recorder/src/main/cpp/concurrent_map.h, insertOrUpdate): the second one has
-- seen the home of the hash unused, and marks it as the end of the chain after the first one is done.
use fk_prof.Prelude.{ℕ, suc, ◌<◌, ◌≡◌, ◌≢◌, sym, ap, ◌∙◌, arith, none, update, update_self}
use fk_prof.Prelude.Word.{u32_mod}
use fk_prof.LockFreeMap.Defs.{
  HashTable, hash_empty, val_move, delta_extend, home, step, walk, waits, after_walk, search_cell,
  set_delta, set_value, insert_ok, insert_or_update,
}
use fk_prof.LockFreeMap.Search.{search_cell-meets}
use fk_prof.LockFreeMap.Mask.{step-home}

-- A walk that comes to a marked end waits.
walk-extended :
    (m : ℕ) (hs ds : ℕ → ℕ) (n k i delta j : ℕ)
    → step m i delta ≡ j
    → hs j ≢ k
    → ds j ≡ delta_extend
    → walk m hs ds (suc n) k i delta ≡ waits
unfolding walk
walk-extended m hs ds n k i delta j here ne e =
    let other : hs (step m i delta) ≢ k = λ q. ne (sym (ap hs here) ∙ q) in
    let last : ds (step m i delta) ≡ delta_extend = ap ds here ∙ e in ground arith

-- Take a table of less than 2 ^ 32 cells and a hash h other than MapHashEmpty. If the home of h has h by
-- the time it is marked as the end of a chain, and its value is not MapValMove, then the insertion gives the old value and
-- returns, but leaves the mark on the cell: from then on every insertion of another hash with the
-- same home is one that waits.
pub late-waits :
    (t : HashTable) (h v : ℕ)
    → h ≢ hash_empty
    → t.size_mask < u32_mod
    → t.hash (home t.size_mask h) ≡ h
    → t.value (home t.size_mask h) ≢ val_move
    → (t' : HashTable) × (search_cell 16 0
          (home t.size_mask h)
          h
          v
          (set_delta (home t.size_mask h) delta_extend t)
        ≡ (insert_ok (t.value (home t.size_mask h)), t'))
      × ((k w : ℕ)
          → home t.size_mask k ≡ home t.size_mask h
          → k ≢ h
          → insert_or_update t' k w ≡ none)
unfolding set_delta insert_or_update
late-waits t h v key fits there no_mark =
    let p = home t.size_mask h in
    (
      set_value p v (set_delta p delta_extend t),
      search_cell-meets (set_delta p delta_extend t) p h v 15 0 p (step-home t.size_mask h fits) key
          there no_mark,
      λ k w same ne. ap (after_walk (set_value p v (set_delta p delta_extend t)) k w) (
          walk-extended t.size_mask t.hash (update t.delta_next p delta_extend) 8 k
            (home t.size_mask k) 0 p
            (ap (λ i. step t.size_mask i 0) same ∙ step-home t.size_mask h fits)
            (λ q. ne (sym q ∙ there)) (update_self t.delta_next p delta_extend)),
    )
