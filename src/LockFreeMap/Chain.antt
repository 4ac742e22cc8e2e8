-- ===== src/LockFreeMap/Chain.antt =====
-- The chains of a table (recorder/src/main/cpp/concurrent_map.h): what holds of them between calls,
-- and what find sees of them.
use fk_prof.Prelude.{
  ℕ, zero, suc, ◌≤◌, ◌<◌, ◌≡◌, ◌≢◌, Option, none, some, ◌==◌, arith, Bool-cases, inl, inr, ◌⊎◌, ◌∙◌,
  sym, ap, ℕ_discrete,
}
use mathlib.Core.Path.{subst}
use fk_prof.LockFreeMap.Mask.{step-le}
use fk_prof.LockFreeMap.Defs.{hash_empty, delta_extend, home, step, find_loop}

-- `rank` goes down along a chain. Every used cell is found from the home of its hash.
pub record Linked (m : ℕ) (hs ds rank : ℕ → ℕ) : Type 0 where
  pub empty_end : (i : ℕ) → hs i ≡ hash_empty → ds i ≡ 0
  pub extended : (i : ℕ) → ds i ≢ delta_extend
  pub next_used : (i : ℕ) → ds i ≢ 0 → hs (step m i (ds i)) ≢ hash_empty
  pub next_rank : (i : ℕ) → ds i ≢ 0 → rank (step m i (ds i)) < rank i
  pub reached :
      (i : ℕ)
      → hs i ≢ hash_empty
      → (n : ℕ) × (find_loop m hs ds n (hs i) (home m (hs i)) ≡ some (some i))

-- What find_loop says at one cell.
module _ (m : ℕ) (hs ds : ℕ → ℕ) (n h i : ℕ) where
  pub find_loop-empty : hs i ≡ hash_empty → find_loop m hs ds (suc n) h i ≡ some none
  unfolding find_loop
  find_loop-empty e = ground arith

  pub find_loop-hit : h ≢ hash_empty → hs i ≡ h → find_loop m hs ds (suc n) h i ≡ some (some i)
  unfolding find_loop
  find_loop-hit ne e = ground arith

  pub find_loop-last : hs i ≢ h → ds i ≡ 0 → find_loop m hs ds (suc n) h i ≡ some none
  unfolding find_loop
  find_loop-last ne e = ground arith

  pub find_loop-next :
      hs i ≢ hash_empty
      → hs i ≢ h
      → ds i ≢ 0
      → ds i ≢ delta_extend
      → find_loop m hs ds (suc n) h i ≡ find_loop m hs ds n h (step m i (ds i))
  unfolding find_loop
  find_loop-next ne nh nd nx = ground arith

-- The four ways a cell is met.
data Meets (m : ℕ) (hs ds : ℕ → ℕ) (h i : ℕ) : Type 0 where
  meets_empty : hs i ≡ hash_empty → Meets m hs ds h i
  meets_hit : hs i ≢ hash_empty → hs i ≡ h → Meets m hs ds h i
  meets_last : hs i ≢ hash_empty → hs i ≢ h → (ds i ≡ 0) ⊎ (ds i ≡ delta_extend) → Meets m hs ds h i
  meets_next : hs i ≢ hash_empty → hs i ≢ h → ds i ≢ 0 → ds i ≢ delta_extend → Meets m hs ds h i

meets : (m : ℕ) (hs ds : ℕ → ℕ) (h i : ℕ) → Meets m hs ds h i
meets m hs ds h i = elim (Bool-cases (hs i == hash_empty)) [
  | inl e ↦ meets_empty (ground arith)
  | inr e ↦ elim (Bool-cases (hs i == h)) [
    | inl e' ↦ meets_hit (λ q. ground arith) (ground arith)
    | inr e' ↦ elim (Bool-cases (ds i == 0)) [
      | inl f ↦ meets_last (λ q. ground arith) (λ q. ground arith) (inl (ground arith))
      | inr f ↦ elim (Bool-cases (ds i == delta_extend)) [
        | inl g ↦ meets_last (λ q. ground arith) (λ q. ground arith) (inr (ground arith))
        | inr g ↦
            meets_next (λ q. ground arith) (λ q. ground arith) (λ q. ground arith)
              (λ q. ground arith)
      ]
    ]
  ]
]

module _ (m : ℕ) (hs ds : ℕ → ℕ) where
  -- More fuel changes nothing.
  pub find_loop-more :
      (n k h i : ℕ) (r : Option ℕ)
      → n ≤ k
      → find_loop m hs ds n h i ≡ some r
      → find_loop m hs ds k h i ≡ some r
  unfolding find_loop
  find_loop-more zero k h i r le e = ground arith
  find_loop-more (suc n) zero h i r le e = absurd (omega arith)
  find_loop-more (suc n) (suc k) h i r le e =
      ground (arith, find_loop-more n k h (step m i (ds i)) r (omega arith))

  -- The cell found has the hash.
  pub find_loop-hash :
      (n h i c : ℕ) → find_loop m hs ds n h i ≡ some (some c) → hs c ≡ h × (hs c ≢ hash_empty)
  unfolding find_loop
  find_loop-hash zero h i c e = ground arith
  find_loop-hash (suc n) h i c e = ground (arith, find_loop-hash n h (step m i (ds i)) c)

  -- The cell found is one of the table.
  pub find_loop-inside : (n h i c : ℕ) → i ≤ m → find_loop m hs ds n h i ≡ some (some c) → c ≤ m
  unfolding find_loop
  find_loop-inside zero h i c le e = absurd (ground arith)
  find_loop-inside (suc n) h i c le e =
      ground (arith, find_loop-inside n h (step m i (ds i)) c (step-le m i (ds i)))

  pub find_loop-total :
      (rank : ℕ → ℕ)
      → Linked m hs ds rank
      → (n h i : ℕ) → rank i < n
      → (r : Option ℕ) × (find_loop m hs ds n h i ≡ some r)
  find_loop-total rank l zero h i lt = absurd (omega arith)
  find_loop-total rank l (suc n) h i lt = elim (meets m hs ds h i) [
    | meets_empty e ↦ (none, find_loop-empty m hs ds n h i e)
    | meets_hit ne e ↦ (some i, find_loop-hit m hs ds n h i (λ q. ne (e ∙ q)) e)
    | meets_last ne nh (inl e) ↦ (none, find_loop-last m hs ds n h i nh e)
    | meets_last ne nh (inr e) ↦ absurd (l.extended i e)
    | meets_next ne nh nd nx ↦
        let (r, e) =
          find_loop-total rank l n h (step m i (ds i)) (omega (arith, l.next_rank i nd)) in
        (r, find_loop-next m hs ds n h i ne nh nd nx ∙ e)
  ]

-- The table after a cell has been claimed: `c` has the hash k now, and follows `p`, at distance d.
pub record Extends (m : ℕ) (hs ds hs' ds' : ℕ → ℕ) (p c d k : ℕ) : Type 0 where
  pub fresh : hs c ≡ hash_empty
  pub at_end : ds p ≡ 0
  pub next : step m p d ≡ c
  pub near : d ≢ delta_extend
  pub itself : d ≡ 0 → c ≡ p
  pub used : d ≢ 0 → hs p ≢ hash_empty
  pub key : k ≢ hash_empty
  pub hash_new : hs' c ≡ k
  pub hash_old : (j : ℕ) → c ≢ j → hs' j ≡ hs j
  pub delta_new : ds' p ≡ d
  pub delta_old : (j : ℕ) → p ≢ j → ds' j ≡ ds j

module _ {m : ℕ} {hs ds hs' ds' : ℕ → ℕ} {p c d k : ℕ} (e : Extends m hs ds hs' ds' p c d k) where
  pub hash_kept : (j : ℕ) → hs j ≢ hash_empty → hs' j ≡ hs j
  hash_kept j h = e.hash_old j (λ q. h (ap hs (sym q) ∙ e.fresh))

  pub delta_kept : (j : ℕ) → ds j ≢ 0 → ds' j ≡ ds j
  delta_kept j h = e.delta_old j (λ q. h (ap ds (sym q) ∙ e.at_end))

  -- What was found is found.
  pub find_loop-kept :
      (n h i j : ℕ)
      → find_loop m hs ds n h i ≡ some (some j)
      → find_loop m hs' ds' n h i ≡ some (some j)
  unfolding find_loop
  find_loop-kept zero h i j q = ground arith
  find_loop-kept (suc n) h i j q = elim (meets m hs ds h i) [
    | meets_empty e₁ ↦ ground arith
    | meets_hit ne e₁ ↦ ground (arith, hash_kept i ne)
    | meets_last ne nh e₁ ↦ ground arith
    | meets_next ne nh nd nx ↦
        ground (arith, hash_kept i ne, delta_kept i nd, find_loop-kept n h (step m i (ds i)) j)
  ]

  -- The new cell ends its chain.
  pub new_last : ds c ≡ 0 → ds' c ≡ 0
  new_last z = elim (ℕ_discrete p c) [
    | yes q ↦ elim (ℕ_discrete d 0) [
      | yes r ↦ ap ds' (sym q) ∙ e.delta_new ∙ r
      | no r ↦ absurd (e.used r (ap hs q ∙ e.fresh))
    ]
    | no q ↦ e.delta_old c q ∙ z
  ]

  at_new : ds c ≡ 0 → (n h : ℕ) → h ≢ k → find_loop m hs' ds' (suc n) h c ≡ some none
  at_new z n h ne = find_loop-last m hs' ds' n h c (λ q. ne (sym q ∙ e.hash_new)) (new_last z)

  -- Through the old end of the chain, only the new cell is reached.
  at_tail :
      ds c ≡ 0
      → (n h : ℕ) → hs p ≢ hash_empty
      → hs p ≢ h
      → h ≢ k
      → find_loop m hs' ds' (suc (suc n)) h p ≡ some none
  at_tail z n h ne nh nk = elim (ℕ_discrete d 0) [
    | yes r ↦
        find_loop-last m hs' ds' (suc n) h p (λ w. nh (sym (hash_kept p ne) ∙ w)) (e.delta_new ∙ r)
    | no r ↦
        find_loop-next m hs' ds' (suc n) h p (λ w. ne (sym (hash_kept p ne) ∙ w))
          (λ w. nh (sym (hash_kept p ne) ∙ w)) (λ w. r (sym e.delta_new ∙ w))
          (λ w. e.near (sym e.delta_new ∙ w))
        ∙ subst (λ j. find_loop m hs' ds' (suc n) h j ≡ some none)
            (sym (ap (step m p) e.delta_new ∙ e.next)) (at_new z n h nk)
  ]

  -- What was not found is not found, unless it is the new hash.
  pub find_loop-absent :
      (rank : ℕ → ℕ)
      → Linked m hs ds rank
      → (n h i : ℕ) → h ≢ k
      → find_loop m hs ds n h i ≡ some none
      → find_loop m hs' ds' (suc n) h i ≡ some none
  unfolding find_loop
  find_loop-absent rank l zero h i ne q = ground arith
  find_loop-absent rank l (suc n) h i ne q = elim (meets m hs ds h i) [
    | meets_empty e₁ ↦ elim (ℕ_discrete c i) [
      | yes r ↦
          subst (λ j. find_loop m hs' ds' (suc (suc n)) h j ≡ some none) r
            (at_new (l.empty_end c e.fresh) (suc n) h ne)
      | no r ↦ find_loop-empty m hs' ds' (suc n) h i (e.hash_old i r ∙ e₁)
    ]
    | meets_hit nq e₁ ↦ absurd (ground arith)
    | meets_last nq nh (inr e₁) ↦ absurd (l.extended i e₁)
    | meets_last nq nh (inl e₁) ↦ elim (ℕ_discrete p i) [
      | no r ↦
          find_loop-last m hs' ds' (suc n) h i (λ w. nh (sym (hash_kept i nq) ∙ w))
            (e.delta_old i r ∙ e₁)
      | yes r ↦
          subst (λ j. find_loop m hs' ds' (suc (suc n)) h j ≡ some none) r
            (at_tail (l.empty_end c e.fresh) n h (λ w. nq (sym (ap hs r) ∙ w))
              (λ w. nh (sym (ap hs r) ∙ w)) ne)
    ]
    | meets_next nq nh nd nx ↦
        find_loop-next m hs' ds' (suc n) h i (λ w. nq (sym (hash_kept i nq) ∙ w))
          (λ w. nh (sym (hash_kept i nq) ∙ w)) (λ w. nd (sym (delta_kept i nd) ∙ w))
          (λ w. nx (sym (delta_kept i nd) ∙ w))
        ∙ subst (λ j. find_loop m hs' ds' (suc n) h (step m i j) ≡ some none)
            (sym (delta_kept i nd))
            (find_loop-absent rank l n h (step m i (ds i)) ne
              (sym (find_loop-next m hs ds n h i nq nh nd nx) ∙ q))
  ]
