-- ===== src/LockFreeMap/Provider/Calls.antt =====
-- get, remove and the counts, in one state of the provider (recorder/src/main/cpp/concurrent_map.h).
use fk_prof.Prelude.{
  ℕ, zero, suc, ◌+◌, ◌*◌, ◌/◌, ◌≤◌, ◌≡◌, ◌≢◌, refl, sym, ap, ◌∙◌, arith, Option, some, none, update,
  update_self, update_ne, ℕ_discrete,
}
use fk_prof.LockFreeMap.Defs.{HashTable, hash_empty, val_move, find, set_value}
use fk_prof.LockFreeMap.Valid.{IsValid, lookup, value_at, find-total_at, used_below}
use fk_prof.LockFreeMap.Store.{set_value-Stores}
use fk_prof.LockFreeMap.Provider.{
  get, value_found, remove, remove_found, capacity, used_among, unsafe_used, dirty_among,
  unsafe_dirty,
}
use fk_prof.LockFreeMap.Provider.Rounds.{HoldsRoot, Stores-HoldsRoot}

value_found-at :
    (vs : ℕ → ℕ)
    → ((i : ℕ) → vs i ≢ val_move)
    → (r : Option ℕ) → value_found vs (some r) ≡ value_at vs (some r)
value_found-at vs un none = refl
value_found-at vs un (some c) = ground (arith, un c)

some_inj : {a b : ℕ} → some a ≡ some b → a ≡ b
some_inj e = ground arith

module _ {f : ℕ → ℕ} {t : HashTable} (k : HoldsRoot f t) (h : ℕ) (key : h ≢ hash_empty) where
  -- get returns the value that the map has for the hash.
  pub get-value : get t h ≡ some (f h)
  unfolding get lookup
  get-value =
      let (r, e) = find-total_at k.valid h in
      let looked : value_at t.value (find t h) ≡ some (f h) = k.lookups h key in
      ap (value_found t.value) e
      ∙ value_found-at t.value k.unmarked r
      ∙ sym (ap (value_at t.value) e)
      ∙ looked

  removed_none : f h ≡ 0 → HoldsRoot (update f h 0) t
  removed_none z = record {
    valid = k.valid;
    chunked = k.chunked;
    unmarked = k.unmarked;
    lookups = λ a ne. k.lookups a ne ∙ ap some (same a);
  }
    where
      same : (a : ℕ) → f a ≡ update f h 0 a
      same a = elim (ℕ_discrete h a) [
        | yes q ↦ ap f (sym q) ∙ z ∙ sym (update_self f h 0) ∙ ap (update f h 0) q
        | no q ↦ sym (update_ne f h a 0 q)
      ]

  removed_by :
      (r : Option ℕ)
      → find t h ≡ some r
      → (t' : HashTable) × (remove_found t (some r) ≡ some (f h, t')) × HoldsRoot (update f h 0) t'
  unfolding lookup find
  removed_by none e =
      let z : f h ≡ 0 = some_inj (sym (k.lookups h key) ∙ ap (value_at t.value) e) in
      (t, ap (λ x. some (x, t)) (sym z), removed_none z)
  removed_by (some c) e =
      let s = set_value-Stores k.valid _ c 0 h e in
      let old = some_inj (sym s.before ∙ k.lookups h key) in
      (
        set_value c 0 t,
        unmarked_if c (k.unmarked c) ∙ ap (λ x. some (x, set_value c 0 t)) old,
        Stores-HoldsRoot k s (λ q. omega arith),
      )
    where
      unmarked_if :
          (c : ℕ)
          → t.value c ≢ val_move
          → remove_found t (some (some c)) ≡ some (t.value c, set_value c 0 t)
      unmarked_if c ne = ground arith

  -- At rest and for a hash other than MapHashEmpty, remove returns the value that the map has for the
  -- hash; afterwards the table is valid and represents the map with null for this hash.
  pub remove-value : (t' : HashTable) × (remove t h ≡ some (f h, t')) × HoldsRoot (update f h 0) t'
  unfolding remove
  remove-value =
      let (r, e) = find-total_at k.valid h in
      let (t', q, k') = removed_by r e in (t', ap (remove_found t) e ∙ q, k')

dirty-used : (n : ℕ) (t : HashTable) → dirty_among n t ≡ used_below n t.hash
unfolding dirty_among used_below
dirty-used zero t = refl
dirty-used (suc n) t = rw (dirty-used n t) refl

used-dirty : (n : ℕ) (t : HashTable) → IsValid t → used_among n t ≤ dirty_among n t
unfolding used_among dirty_among
used-dirty zero t v = omega arith
used-dirty (suc n) t v = ground (arith, used-dirty n t v, v.unused n)

-- In a valid table the cells with a value are at most those with a hash, and these and the free buckets
-- are three quarters of the capacity.
pub unsafe_used-bound :
    (t : HashTable)
    → IsValid t
    → (unsafe_used t ≤ unsafe_dirty t) × (unsafe_dirty t + t.free_buckets ≡ 3 * capacity t / 4)
unfolding unsafe_used unsafe_dirty capacity
unsafe_used-bound t v = (
  used-dirty (t.size_mask + 1) t v,
  omega (
    arith,
    dirty-used (t.size_mask + 1) t,
    ap (λ n. used_below n t.hash) {x = t.size_mask + 1} {y = suc t.size_mask} (omega arith),
    v.filled,
  ),
)
