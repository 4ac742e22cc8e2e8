-- ===== src/LockFreeMap/Store.antt =====
-- The writes of insertOrUpdate (recorder/src/main/cpp/concurrent_map.h): a value into a used cell,
-- and a hash into an unused one.
use fk_prof.Prelude.{
  ℕ, ◌≡◌, ◌≢◌, Option, none, some, ◌∙◌, sym, ap, update, update_self, update_ne, refl,
}
use fk_prof.LockFreeMap.Defs.{HashTable, set_value, hash_empty, find_loop, find, home}
use fk_prof.LockFreeMap.Chain.{find_loop-hash}
use fk_prof.LockFreeMap.Valid.{IsValid, lookup, value_at, find-hash, find-total_at, lookup-found}

-- What a store promises: the old value of the hash, its new one, and that the others keep theirs.
pub record Stores (t : HashTable) (h v old : ℕ) (t' : HashTable) : Type 0 where
  pub valid : IsValid t'
  pub before : lookup t h ≡ some old
  pub after : lookup t' h ≡ some v
  pub others : (k : ℕ) → k ≢ h → lookup t' k ≡ lookup t k
  pub same_mask : t'.size_mask ≡ t.size_mask
  pub written : (c : ℕ) × (t'.value ≡ update t.value c v)

-- A set_value into a cell is seen by its hash alone.
module _ {t : HashTable} (valid : IsValid t) (c v k : ℕ) (ne : k ≢ t.hash c) where
  same_value :
      (r : Option ℕ)
      → find t k ≡ some r
      → value_at (update t.value c v) (some r) ≡ value_at t.value (some r)
  same_value none e = refl
  same_value (some j) e =
      ap some (update_ne t.value c j v (λ q. ne (sym (find-hash t k j e).0 ∙ ap t.hash (sym q))))

  pub lookup-set_value : lookup (set_value c v t) k ≡ lookup t k
  unfolding lookup find
  lookup-set_value =
      let (r, e) = find-total_at valid k in
      ap (value_at (update t.value c v)) e ∙ same_value r e ∙ sym (ap (value_at t.value) e)

module _ {t : HashTable} (valid : IsValid t) (c v : ℕ) (used : t.hash c ≢ hash_empty) where
  set_value-IsValid : IsValid (set_value c v t)
  set_value-IsValid = record {
    rank = valid.rank;
    linked = valid.linked;
    ranked = valid.ranked;
    mask_fits = valid.mask_fits;
    filled = valid.filled;
    unused = λ i e ne.
        let other : c ≢ i = λ q. used (ap t.hash q ∙ e) in
        let same = update_ne t.value c i v other in same ∙ valid.unused i e (λ q. ne (same ∙ q));
  }

module _ {t : HashTable} (valid : IsValid t) (n c v h : ℕ)
    (found : find_loop t.size_mask t.hash t.delta_next n h (home t.size_mask h)
      ≡ some (some c)) where
  hash_found : t.hash c ≡ h × (t.hash c ≢ hash_empty)
  hash_found = find_loop-hash t.size_mask t.hash t.delta_next n h (home t.size_mask h) c found

  pub set_value-Stores : Stores t h v (t.value c) (set_value c v t)
  set_value-Stores = record {
    valid = set_value-IsValid valid c v hash_found.1;
    before = lookup-found valid n h c found;
    after =
        lookup-found (set_value-IsValid valid c v hash_found.1) n h c found
        ∙ ap some (update_self t.value c v);
    others = λ k ne. lookup-set_value valid c v k (λ q. ne (q ∙ hash_found.0));
    same_mask = refl;
    written = (c, refl);
  }
