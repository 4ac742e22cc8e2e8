-- ===== src/LockFreeMap/Walk.antt =====
-- The loop of insertOrUpdate over a chain (recorder/src/main/cpp/concurrent_map.h), against find.
use fk_prof.Prelude.{
  ℕ, zero, suc, ◌<◌, ◌≡◌, ◌≢◌, none, some, ◌==◌, arith, Bool-cases, inl, inr, ◌∙◌, sym, ap,
  ℕ_discrete,
}
use mathlib.Core.Path.{subst}
use fk_prof.Prelude.Word.{u32_mod}
use fk_prof.LockFreeMap.Defs.{
  hash_empty, delta_extend, step, find_loop, Walk, found, tail, waits, walk,
}
use fk_prof.LockFreeMap.Mask.{step-step}
use fk_prof.LockFreeMap.Chain.{
  Linked, Extends, hash_kept, delta_kept, find_loop-hit, find_loop-next, find_loop-last,
}

-- How the walk goes on at a cell.
data Visits (m : ℕ) (hs ds : ℕ → ℕ) (n h j : ℕ) (w : Walk) : Type 0 where
  visits_found : hs j ≡ h → w ≡ found j → Visits m hs ds n h j w
  visits_tail : hs j ≢ h → ds j ≡ 0 → w ≡ tail j → Visits m hs ds n h j w
  visits_waits : ds j ≡ delta_extend → Visits m hs ds n h j w
  visits_next :
      hs j ≢ h
      → ds j ≢ 0
      → ds j ≢ delta_extend
      → w ≡ walk m hs ds n h j (ds j)
      → Visits m hs ds n h j w

visits :
    (m : ℕ) (hs ds : ℕ → ℕ) (n h i delta : ℕ)
    → Visits m hs ds n h (step m i delta) (walk m hs ds (suc n) h i delta)
unfolding walk
visits m hs ds n h i delta = elim (Bool-cases (hs (step m i delta) == h)) [
  | inl e ↦ visits_found (ground arith) (rw e)
  | inr e ↦ elim (Bool-cases (ds (step m i delta) == 0)) [
    | inl f ↦ visits_tail (λ q. ground arith) (ground arith) (rw (e, f))
    | inr f ↦ elim (Bool-cases (ds (step m i delta) == delta_extend)) [
      | inl g ↦ visits_waits (ground arith)
      | inr g ↦
          visits_next (λ q. ground arith) (λ q. ground arith) (λ q. ground arith) (rw (e, f, g))
    ]
  ]
]

found_inj : {a b : ℕ} → found a ≡ found b → a ≡ b
found_inj q = ground arith

tail_inj : {a b : ℕ} → tail a ≡ tail b → a ≡ b
tail_inj q = ground arith

found-tail : {a b : ℕ} → found a ≢ tail b
found-tail q = ground arith

found-waits : {a : ℕ} → found a ≢ waits
found-waits q = ground arith

tail-waits : {a : ℕ} → tail a ≢ waits
tail-waits q = ground arith

-- At the old end of the chain.
end_reaches :
    {m : ℕ} {hs ds hs' ds' : ℕ → ℕ} {p c d h : ℕ}
    → Extends m hs ds hs' ds' p c d h
    → hs p ≢ h
    → find_loop m hs' ds' 2 h p ≡ some (some c)
end_reaches {m = m} {hs = hs} {hs' = hs'} {ds' = ds'} {p = p} {c = c} {d = d} {h = h} e np =
    elim (ℕ_discrete d 0) [
      | yes z ↦
          subst (λ j. find_loop m hs' ds' 2 h j ≡ some (some c)) (e.itself z)
            (find_loop-hit m hs' ds' 1 h c e.key e.hash_new)
      | no z ↦
          let used = e.used z in
          find_loop-next m hs' ds' 1 h p (λ w. used (sym (hash_kept e p used) ∙ w))
            (λ w. np (sym (hash_kept e p used) ∙ w)) (λ w. z (sym e.delta_new ∙ w))
            (λ w. e.near (sym e.delta_new ∙ w))
          ∙ subst (λ j. find_loop m hs' ds' 1 h j ≡ some (some c))
              (sym (ap (step m p) e.delta_new ∙ e.next))
              (find_loop-hit m hs' ds' 0 h c e.key e.hash_new)
    ]

module _ {m : ℕ} {hs ds rank : ℕ → ℕ} (l : Linked m hs ds rank) where
  used_inside : (j : ℕ) → ds j ≢ 0 → hs j ≢ hash_empty
  used_inside j nd q = nd (l.empty_end j q)

  -- With all chains linked no call waits.
  pub walk-not_waits : (n h i delta : ℕ) → walk m hs ds n h i delta ≢ waits
  unfolding walk
  walk-not_waits zero h i delta e = ground arith
  walk-not_waits (suc n) h i delta e = elim (visits m hs ds n h i delta) [
    | visits_found f w ↦ found-waits (sym w ∙ e)
    | visits_tail f z w ↦ tail-waits (sym w ∙ e)
    | visits_waits x ↦ l.extended _ x
    | visits_next f z x w ↦ walk-not_waits n h _ _ (sym w ∙ e)
  ]

  -- The cell that the walk finds is the one that find finds.
  pub walk-found :
      (n h i delta c : ℕ)
      → h ≢ hash_empty
      → walk m hs ds n h i delta ≡ found c
      → (k : ℕ) × (find_loop m hs ds k h (step m i delta) ≡ some (some c))
  unfolding walk
  walk-found zero h i delta c ne e = absurd (ground arith)
  walk-found (suc n) h i delta c ne e = elim (visits m hs ds n h i delta) [
    | visits_found f w ↦
        (1, find_loop-hit m hs ds 0 h _ ne f ∙ ap (λ j. some (some j)) (found_inj (sym w ∙ e)))
    | visits_tail f z w ↦ absurd (found-tail (sym e ∙ w))
    | visits_waits x ↦ absurd (l.extended _ x)
    | visits_next f z x w ↦
        let (k, q) = walk-found n h _ _ c ne (sym w ∙ e) in
        (suc k, find_loop-next m hs ds k h _ (used_inside _ z) f z x ∙ q)
  ]

  -- A walk that comes to the end of the chain has met no cell with the hash.
  pub walk-tail :
      (n h i delta p : ℕ)
      → m < u32_mod
      → walk m hs ds n h i delta ≡ tail p
      → (find_loop m hs ds n h (step m i delta) ≡ some none)
        × (hs p ≢ h)
        × (ds p ≡ 0)
        × (step m p 0 ≡ p)
  unfolding walk
  walk-tail zero h i delta p lt e = absurd (ground arith)
  walk-tail (suc n) h i delta p lt e = elim (visits m hs ds n h i delta) [
    | visits_found f w ↦ absurd (found-tail (sym w ∙ e))
    | visits_tail f z w ↦
        let q = tail_inj (sym w ∙ e) in
        (
          find_loop-last m hs ds n h _ f z,
          (λ v. f (ap hs q ∙ v)),
          ap ds (sym q) ∙ z,
          subst (λ j. step m j 0 ≡ j) q (step-step m i delta lt),
        )
    | visits_waits x ↦ absurd (l.extended _ x)
    | visits_next f z x w ↦
        let (q, q₁, q₂, q₃) = walk-tail n h _ _ p lt (sym w ∙ e) in
        (find_loop-next m hs ds n h _ (used_inside _ z) f z x ∙ q, q₁, q₂, q₃)
  ]

  -- Once its end is extended, the same chain leads to the new cell.
  pub walk-Extends :
      {hs' ds' : ℕ → ℕ} {p c d h : ℕ}
      → Extends m hs ds hs' ds' p c d h
      → hs p ≢ h
      → (n i delta : ℕ) → walk m hs ds n h i delta ≡ tail p
      → (k : ℕ) × (find_loop m hs' ds' k h (step m i delta) ≡ some (some c))
  unfolding walk
  walk-Extends x np zero i delta e = absurd (ground arith)
  walk-Extends {hs' = hs'} {ds' = ds'} {p = p} {c = c} {d = d} {h = h} x np (suc n) i delta e =
      elim (visits m hs ds n h i delta) [
        | visits_found f w ↦ absurd (found-tail (sym w ∙ e))
        | visits_waits y ↦ absurd (l.extended _ y)
        | visits_tail f z w ↦
            subst (λ j. (k : ℕ) × (find_loop m hs' ds' k h j ≡ some (some c)))
              (sym (tail_inj (sym w ∙ e))) (2, end_reaches x np)
        | visits_next f z y w ↦
            let (k, q) = walk-Extends x np n _ _ (sym w ∙ e) in
            let j = step m i delta in
            let used = used_inside j z in
            (
              suc k,
              find_loop-next m hs' ds' k h j (λ v. used (sym (hash_kept x j used) ∙ v))
                    (λ v. f (sym (hash_kept x j used) ∙ v)) (λ v. z (sym (delta_kept x j z) ∙ v))
                    (λ v. y (sym (delta_kept x j z) ∙ v))
                  ∙ ap (λ a. find_loop m hs' ds' k h (step m j a)) (delta_kept x j z)
                  ∙ q,
            )
      ]
