-- ===== src/LockFreeMap/Insert.antt =====
-- insertOrUpdate (recorder/src/main/cpp/concurrent_map.h) on a valid table.
use fk_prof.Prelude.{
  ℕ, ◌<◌, ◌≡◌, ◌≢◌, Option, none, some, ◌==◌, arith, ◌∙◌, sym, ap, update, Bool-cases, inl, inr,
  update_self, update_ne, refl, ℕ_discrete,
}
use mathlib.Core.Path.{subst, fun_ext}
use fk_prof.LockFreeMap.Defs.{
  HashTable, set_value, hash_empty, val_move, find_loop, home, set_delta, delta_extend, step,
  InsertOutcome, insert_ok, insert_overflow, insert_help_migration, store_value, Walk, jumps_out,
  found, tail, waits, walk, after_walk, insert_or_update, search_cell,
}
use fk_prof.LockFreeMap.Mask.{step-home}
use fk_prof.LockFreeMap.Chain.{Extends}
use fk_prof.LockFreeMap.Walk.{walk-not_waits, walk-found, walk-tail, walk-Extends}
use fk_prof.LockFreeMap.Search.{no_room, takes, search_cell-Searches}
use fk_prof.LockFreeMap.Valid.{IsValid, lookup, lookup-found, find_loop_unique}
use fk_prof.LockFreeMap.Store.{Stores, set_value-Stores}
use fk_prof.LockFreeMap.Claim.{link, claim-link, link-Stores, link-IsValid, link-others}

-- How an insertion ends. An overflow leaves the table as it was.
pub data Inserts (t : HashTable) (h v : ℕ) (o : Option (InsertOutcome × HashTable)) : Type 0 where
  overflows : o ≡ some (insert_overflow, t) → Inserts t h v o
  helps :
      (t' : HashTable)
      → IsValid t'
      → ((k : ℕ) → k ≢ h → lookup t' k ≡ lookup t k)
      → lookup t' h ≡ some val_move
      → t'.value ≡ t.value
      → o ≡ some (insert_help_migration, t')
      → Inserts t h v o
  stores :
      (old : ℕ) (t' : HashTable)
      → Stores t h v old t'
      → o ≡ some (insert_ok old, t')
      → Inserts t h v o

none≢some : {i : ℕ} → none ≢ some i
none≢some q = ground arith

-- The mark on the end of the chain is taken back.
unmark :
    (t : HashTable) (p : ℕ) → t.delta_next p ≡ 0 → set_delta p 0 (set_delta p delta_extend t) ≡ t
unfolding set_delta
unmark t p z = ap (λ ds. record t { delta_next = ds }) (fun_ext (back (t.delta_next) z))
  where
    back : (ds : ℕ → ℕ) → ds p ≡ 0 → (j : ℕ) → update (update ds p delta_extend) p 0 j ≡ ds j
    back ds q j = elim (ℕ_discrete p j) [
      | yes r ↦ ground (arith, ap ds r)
      | no r ↦ update_ne (update ds p delta_extend) p j 0 r ∙ update_ne ds p j delta_extend r
    ]

-- The claimed cell extends the chain.
pub link-Extends :
    (t : HashTable) (p d h : ℕ)
    → h ≢ hash_empty
    → t.delta_next p ≡ 0
    → step t.size_mask p 0 ≡ p
    → t.hash (step t.size_mask p d) ≡ hash_empty
    → d < 16
    → (d ≢ 0 → t.hash p ≢ hash_empty)
    → Extends t.size_mask t.hash t.delta_next
        (update t.hash (step t.size_mask p d) h)
        (update (update t.delta_next p delta_extend) p d)
        p
        (step t.size_mask p d)
        d
        h
link-Extends t p d h key z self fresh lt used = record {
  fresh = fresh;
  at_end = z;
  next = refl;
  near = λ q. omega arith;
  itself = λ q. ap (step t.size_mask p) q ∙ self;
  used = used;
  key = key;
  hash_new = update_self t.hash (step t.size_mask p d) h;
  hash_old = λ j q. update_ne t.hash (step t.size_mask p d) j h q;
  delta_new = update_self (update t.delta_next p delta_extend) p d;
  delta_old = λ j q.
      update_ne (update t.delta_next p delta_extend) p j d q
      ∙ update_ne t.delta_next p j delta_extend q;
}

module _ {t : HashTable} (valid : IsValid t) (h v : ℕ) (key : h ≢ hash_empty) where
  into_found :
      (n c : ℕ)
      → find_loop t.size_mask t.hash t.delta_next n h (home t.size_mask h) ≡ some (some c)
      → Inserts t h v (some (store_value c v t))
  unfolding store_value
  into_found n c q = elim (Bool-cases (t.value c == val_move)) [
    | inl e ↦
        helps t valid (λ k ne. refl) (lookup-found valid n h c q ∙ ap some (ground arith)) refl
          (rw e)
    | inr e ↦ stores (t.value c) (set_value c v t) (set_value-Stores valid n c v h q) (rw e)
  ]

  -- No cell has a hash that find does not find.
  nowhere :
      (n : ℕ)
      → find_loop t.size_mask t.hash t.delta_next n h (home t.size_mask h) ≡ some none
      → (i : ℕ) → t.hash i ≢ h
  nowhere n q i e =
      let (k, r) = valid.linked.reached i (λ w. key (sym e ∙ w)) in
      let r' =
        subst
          (λ a. find_loop t.size_mask t.hash t.delta_next k a (home t.size_mask a) ≡ some (some i))
          e r in
      absurd
        (none≢some (find_loop_unique t.size_mask t.hash t.delta_next n k h _ none (some i) q r'))

  into_new :
      (p d n a : ℕ)
      → t.delta_next p ≡ 0
      → step t.size_mask p 0 ≡ p
      → t.hash (step t.size_mask p d) ≡ hash_empty
      → d < 16
      → (d ≢ 0 → t.hash p ≢ hash_empty)
      → t.free_buckets ≢ 0
      → find_loop t.size_mask
          (update t.hash (step t.size_mask p d) h)
          (update (update t.delta_next p delta_extend) p d)
          n
          h
          (home t.size_mask h)
        ≡ some (some (step t.size_mask p d))
      → find_loop t.size_mask t.hash t.delta_next a h (home t.size_mask h) ≡ some none
      → Inserts t h v
          (some (store_value (step t.size_mask p d) v (link p (step t.size_mask p d) d h t)))
  unfolding store_value
  into_new p d n a z self fresh lt used room reach absent =
      let c = step t.size_mask p d in
      let e = link-Extends t p d h key z self fresh lt used in
      let u = link-IsValid valid p c d h n a e room reach absent in
      elim (Bool-cases (t.value c == val_move)) [
        | inl f ↦
            helps (link p c d h t) u (link-others valid p c d h n a e room reach absent)
              (lookup-found u n h c reach ∙ ap some (ground arith)) refl (rw f)
        | inr f ↦
            let zero_before = valid.unused c fresh (λ q. ground arith) in
            stores 0 (set_value c v (link p c d h t))
              (link-Stores valid p c d h n a e room reach absent v (λ q. ground arith))
              (rw (f, zero_before))
      ]

  into_tail :
      (p : ℕ)
      → walk t.size_mask t.hash t.delta_next 9 h (home t.size_mask h) 0 ≡ tail p
      → Inserts t h v (some (search_cell 16 0 p h v (set_delta p delta_extend t)))
  unfolding set_delta
  into_tail p w =
      let (q, other, z, self) =
        walk-tail valid.linked 9 h (home t.size_mask h) 0 p valid.mask_fits w in
      let at_home = step-home t.size_mask h valid.mask_fits in
      let absent =
        subst (λ i. find_loop t.size_mask t.hash t.delta_next 9 h i ≡ some none) at_home q in
      elim (search_cell-Searches (set_delta p delta_extend t) p h v 16 0 self (nowhere 9 absent)
        (omega arith) (λ r. absurd (r refl))) [
          | no_room e ↦ overflows (ap some (e ∙ ap (λ u. (insert_overflow, u)) (unmark t p z)))
          | takes d lt fresh used room e ↦
              let x = link-Extends t p d h key z self fresh lt used in
              let (n, reach_step) = walk-Extends valid.linked x other 9 (home t.size_mask h) 0 w in
              let c = step t.size_mask p d in
              let reach =
                subst
                  (λ i.
                    find_loop t.size_mask (update t.hash c h)
                      (update (update t.delta_next p delta_extend) p d) n h i
                    ≡ some (some c))
                  at_home reach_step in
              subst (Inserts t h v)
                (ap some (
                  ap (store_value (step t.size_mask p d) v)
                    (sym (claim-link p (step t.size_mask p d) d h t))
                  ∙ sym e))
                (into_new p d n 9 z self fresh lt used room reach absent)
        ]

  by_walk :
      (w : Walk)
      → walk t.size_mask t.hash t.delta_next 9 h (home t.size_mask h) 0 ≡ w
      → Inserts t h v (after_walk t h v w)
  by_walk jumps_out e = overflows refl
  by_walk waits e = absurd (walk-not_waits valid.linked 9 h (home t.size_mask h) 0 e)
  by_walk (tail p) e = into_tail p e
  by_walk (found c) e =
      let (n, q) = walk-found valid.linked 9 h (home t.size_mask h) 0 c key e in
      into_found n c (
        subst (λ i. find_loop t.size_mask t.hash t.delta_next n h i ≡ some (some c))
          (step-home t.size_mask h valid.mask_fits) q)

  -- On a valid table, and for a hash other than MapHashEmpty, an insertion never waits, and ends in one of three ways: it overflows and
  -- leaves the table as it was; or it meets the mark of a migration on its cell, and every other hash
  -- keeps its value; or it gives the value that its hash had, its hash has the new value, every
  -- other hash keeps its value, and the table is valid again.
  pub insert_or_update-Inserts : Inserts t h v (insert_or_update t h v)
  unfolding insert_or_update
  insert_or_update-Inserts = by_walk _ refl
