-- ===== src/LockFreeMap/Claim.antt =====
-- A hash goes into an unused cell (recorder/src/main/cpp/concurrent_map.h, insertOrUpdate).
use fk_prof.Prelude.{
  ℕ, zero, suc, ◌+◌, ◌-◌, ◌≤◌, ◌<◌, ◌≡◌, ◌≢◌, Option, none, some, arith, ◌∙◌, sym, ap, update,
  update_self, update_ne, refl, ℕ_discrete,
}
use fk_prof.LockFreeMap.Defs.{
  HashTable, set_value, hash_empty, val_move, find_loop, find, home, claim, set_delta, delta_extend,
}
use fk_prof.LockFreeMap.Mask.{step-le}
use fk_prof.LockFreeMap.Chain.{Extends, find_loop-kept, find_loop-absent}
use fk_prof.LockFreeMap.Linked.{Extends-Linked, rank_under}
use fk_prof.LockFreeMap.Valid.{
  IsValid, lookup, find-total_at, lookup-found, lookup-absent, used_below,
}
use fk_prof.LockFreeMap.Store.{Stores, set_value-Stores}

-- A cell is claimed: its hash and the link to it, on the table whose chain end is marked.
abbrev pub link : ℕ → ℕ → ℕ → ℕ → HashTable → HashTable
link p c d h t = record t {
  hash = update t.hash c h;
  delta_next = update (update t.delta_next p delta_extend) p d;
  free_buckets = t.free_buckets - 1;
}

pub claim-link :
    (p c d h : ℕ) (t : HashTable) → claim p c d h (set_delta p delta_extend t) ≡ link p c d h t
unfolding claim set_delta
claim-link p c d h t = refl

used_below-out : (n c h : ℕ) (hs : ℕ → ℕ) → n ≤ c → used_below n (update hs c h) ≡ used_below n hs
unfolding used_below
used_below-out zero c h hs le = refl
used_below-out (suc n) c h hs le =
    ground (arith, used_below-out n c h hs (omega arith), update_ne hs c n h (λ q. omega arith))

used_below-new :
    (n c h : ℕ) (hs : ℕ → ℕ)
    → c < n
    → hs c ≡ hash_empty
    → h ≢ hash_empty
    → used_below n (update hs c h) ≡ suc (used_below n hs)
unfolding used_below
used_below-new zero c h hs lt e ne = absurd (omega arith)
used_below-new (suc n) c h hs lt e ne = elim (ℕ_discrete c n) [
  | yes q ↦ ground (
    arith,
    used_below-out n c h hs (omega arith),
    ap (update hs c h) (sym q) ∙ update_self hs c h,
    ap hs (sym q) ∙ e,
  )
  | no q ↦ ground (arith, used_below-new n c h hs (omega arith) e ne, update_ne hs c n h q)
]

module _ {t : HashTable} (valid : IsValid t) (p c d h n a : ℕ)
    (e : Extends t.size_mask t.hash t.delta_next
      (update t.hash c h)
      (update (update t.delta_next p delta_extend) p d)
      p
      c
      d
      h)
    (room : t.free_buckets ≢ 0)
    (reach : find_loop t.size_mask
        (update t.hash c h)
        (update (update t.delta_next p delta_extend) p d)
        n
        h
        (home t.size_mask h)
      ≡ some (some c))
    (absent : find_loop t.size_mask t.hash t.delta_next a h (home t.size_mask h) ≡ some none) where
  link_inside : c ≤ t.size_mask
  link_inside = omega (arith, step-le t.size_mask p d, e.next)

  link_ranked : (i : ℕ) → rank_under c valid.rank i + (t.free_buckets - 1) ≤ suc t.size_mask
  link_ranked i = ground (arith, valid.ranked i, room)

  pub link-IsValid : IsValid (link p c d h t)
  link-IsValid = record {
    rank = rank_under c valid.rank;
    linked = Extends-Linked e valid.rank valid.linked (n, reach);
    ranked = link_ranked;
    mask_fits = valid.mask_fits;
    filled = omega (
      arith,
      valid.filled,
      used_below-new (suc t.size_mask) c h t.hash (omega (arith, link_inside)) e.fresh e.key,
    );
    unused = λ i q ne.
        valid.unused i
          (sym (
              update_ne t.hash c i h
                (λ w. e.key (sym (update_self t.hash c h) ∙ ap (update t.hash c h) w ∙ q)))
            ∙ q)
          ne;
  }

  pub link-others : (k : ℕ) → k ≢ h → lookup (link p c d h t) k ≡ lookup t k
  unfolding find
  link-others k ne = same_as (find-total_at valid k)
    where
      same_as : (r : Option ℕ) × (find t k ≡ some r) → lookup (link p c d h t) k ≡ lookup t k
      same_as (none, q) =
          lookup-absent link-IsValid _ k
            (find_loop-absent e valid.rank valid.linked _ k (home t.size_mask k) ne q)
          ∙ sym (lookup-absent valid _ k q)
      same_as (some j, q) =
          lookup-found link-IsValid _ k j (find_loop-kept e _ k (home t.size_mask k) j q)
          ∙ sym (lookup-found valid _ k j q)

  -- A new hash has no old value, and others keep theirs.
  pub link-Stores : (v : ℕ) → t.value c ≢ val_move → Stores t h v 0 (set_value c v (link p c d h t))
  link-Stores v ne =
      let s = set_value-Stores link-IsValid n c v h reach in
      record {
        valid = s.valid;
        before = lookup-absent valid a h absent;
        after = s.after;
        others = λ k nk. s.others k nk ∙ link-others k nk;
        same_mask = refl;
        written = (c, refl);
      }
