-- ===== src/LockFreeMap/Linked.antt =====
-- The chains of a table stay linked (recorder/src/main/cpp/concurrent_map.h, insertOrUpdate).
use fk_prof.Prelude.{
  ℕ, suc, ◌<◌, ◌≡◌, ◌≢◌, some, ◌==◌, if◌then◌else◌, arith, ◌∙◌, sym, ap, ℕ_discrete,
}
use mathlib.Core.Path.{subst}
use fk_prof.LockFreeMap.Defs.{hash_empty, delta_extend, home, step, find_loop}
use fk_prof.LockFreeMap.Chain.{Linked, Extends, new_last, find_loop-kept}

-- The ranks once cell c is the end of a chain.
abbrev pub rank_under : ℕ → (ℕ → ℕ) → ℕ → ℕ
rank_under c rank j = if c == j then 0 else suc (rank j)

module _ {m : ℕ} {hs ds hs' ds' : ℕ → ℕ} {p c d k : ℕ} (e : Extends m hs ds hs' ds' p c d k)
    (rank : ℕ → ℕ) (l : Linked m hs ds rank) where
  empty_old : (i : ℕ) → hs' i ≡ hash_empty → hs i ≡ hash_empty
  empty_old i q = elim (ℕ_discrete c i) [
    | yes r ↦ absurd (e.key (sym e.hash_new ∙ ap hs' r ∙ q))
    | no r ↦ sym (e.hash_old i r) ∙ q
  ]

  used_new : (i : ℕ) → hs i ≢ hash_empty → hs' i ≢ hash_empty
  used_new i h q = h (empty_old i q)

  links_empty : (i : ℕ) → hs' i ≡ hash_empty → ds' i ≡ 0
  links_empty i q = elim (ℕ_discrete p i) [
    | no r ↦ e.delta_old i r ∙ l.empty_end i (empty_old i q)
    | yes r ↦ elim (ℕ_discrete d 0) [
      | yes z ↦ ap ds' (sym r) ∙ e.delta_new ∙ z
      | no z ↦ absurd (e.used z (ap hs r ∙ empty_old i q))
    ]
  ]

  links_extended : (i : ℕ) → ds' i ≢ delta_extend
  links_extended i q = elim (ℕ_discrete p i) [
    | no r ↦ l.extended i (sym (e.delta_old i r) ∙ q)
    | yes r ↦ e.near (sym e.delta_new ∙ ap ds' r ∙ q)
  ]

  links_used : (i : ℕ) → ds' i ≢ 0 → hs' (step m i (ds' i)) ≢ hash_empty
  links_used i nz = elim (ℕ_discrete p i) [
    | no r ↦
        subst (λ j. hs' (step m i j) ≢ hash_empty) (sym (e.delta_old i r))
          (used_new (step m i (ds i)) (l.next_used i (λ w. nz (e.delta_old i r ∙ w))))
    | yes r ↦
        subst (λ j. hs' (step m j (ds' j)) ≢ hash_empty) r
          (subst (λ j. hs' j ≢ hash_empty) (sym (ap (step m p) e.delta_new ∙ e.next))
            (λ w. e.key (sym e.hash_new ∙ w)))
  ]

  rank_other : (i : ℕ) → c ≢ i → rank_under c rank i ≡ suc (rank i)
  rank_other i h = ground arith

  rank_self : rank_under c rank c ≡ 0
  rank_self = ground arith

  links_rank : (i : ℕ) → ds' i ≢ 0 → rank_under c rank (step m i (ds' i)) < rank_under c rank i
  links_rank i nz = elim (ℕ_discrete p i) [
    | no r ↦
        let nd : ds i ≢ 0 = λ w. nz (e.delta_old i r ∙ w) in
        let same : step m i (ds' i) ≡ step m i (ds i) = ap (step m i) (e.delta_old i r) in
        omega (
          arith,
          ap (rank_under c rank) same,
          rank_other (step m i (ds i)) (λ w. l.next_used i nd (ap hs (sym w) ∙ e.fresh)),
          rank_other i (λ w. nz (ap ds' (sym w) ∙ new_last e (l.empty_end c e.fresh))),
          l.next_rank i nd,
        )
    | yes r ↦
        let to_new : step m i (ds' i) ≡ c =
          ap (λ j. step m j (ds' j)) (sym r) ∙ ap (step m p) e.delta_new ∙ e.next in
        omega (
          arith,
          ap (rank_under c rank) to_new,
          rank_self,
          rank_other i (λ w. nz (ap ds' (sym w) ∙ new_last e (l.empty_end c e.fresh))),
        )
  ]

  -- The chains stay linked, once the new cell is reached from the home of its hash.
  pub Extends-Linked :
      (n : ℕ) × (find_loop m hs' ds' n k (home m k) ≡ some (some c))
      → Linked m hs' ds' (rank_under c rank)
  Extends-Linked (n, q) = record {
    empty_end = links_empty;
    extended = links_extended;
    next_used = links_used;
    next_rank = links_rank;
    reached = λ i ne. elim (ℕ_discrete c i) [
      | yes r ↦ (
        n,
        subst (λ j. find_loop m hs' ds' n (hs' j) (home m (hs' j)) ≡ some (some j)) r
            (subst (λ j. find_loop m hs' ds' n j (home m j) ≡ some (some c)) (sym e.hash_new) q),
      )
      | no r ↦
          let (n₁, q₁) = l.reached i (λ w. ne (e.hash_old i r ∙ w)) in
          (
            n₁,
            subst (λ j. find_loop m hs' ds' n₁ j (home m j) ≡ some (some i)) (sym (e.hash_old i r))
                (find_loop-kept e n₁ (hs i) (home m (hs i)) i q₁),
          )
    ];
  }
