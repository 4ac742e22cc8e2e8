-- ===== src/ThreadMap/Counts.antt =====
-- The reference counts count the references.
use fk_prof.Prelude.{
  ℕ, suc, ◌+◌, ◌-◌, ◌≤◌, ◌≡◌, ◌≢◌, refl, ap, ◌∙◌, Bool, true, Bool-cases, Option-cases, inl, inr,
  Option, none, some, List, [], ◌∷◌, ltb, ◌==◌, if◌then◌else◌, update, arith,
}
use fk_prof.Prelude.Int.{ℤ}
use fk_prof.Gc.{Gc, attach_thread, safepoint, ss_safepoint, helper_detach}
use fk_prof.ThreadMap.{
  ThreadBucket, ThreadMap, map_get, map_remove, set_bucket, release, release_any, put, get, remove,
}

-- How often a bucket stands in the map, and how many references to it are out.
abbrev pub mapped : ℕ → List (ℕ × ℕ) → ℕ
mapped a [] = 0
mapped a ((e, b) ∷ rest) = (if b == a then 1 else 0) + mapped a rest

abbrev pub held : ℕ → List ℕ → ℕ
held a [] = 0
held a (b ∷ rest) = (if b == a then 1 else 0) + held a rest

abbrev pub refs_of : Option ThreadBucket → ℕ
refs_of none = 0
refs_of (some b) = b.refs

abbrev pub not_zero : Option ThreadBucket → Bool
not_zero none = true
not_zero (some b) = ltb 0 b.refs

-- Each bucket counts its places in the map and the references that are out; those alive have one
-- at least; and nothing refers to an unused address.
pub record Counted (m : ThreadMap) (out : List ℕ) : Type 0 where
  pub counts : (a : ℕ) → refs_of (m.buckets a) ≡ mapped a m.entries + held a out
  pub alive : (a : ℕ) → not_zero (m.buckets a) ≡ true
  pub unused : (a : ℕ) → m.next ≤ a → m.buckets a ≡ none

mapped-remove :
    (env a x : ℕ) (l : List (ℕ × ℕ))
    → map_get env l ≡ some x
    → mapped a l ≡ (if x == a then 1 else 0) + mapped a (map_remove env l)
mapped-remove env a x [] g = cc
mapped-remove env a x ((e, b) ∷ rest) g = ground (arith, mapped-remove env a x rest)

remove-none : (env : ℕ) (l : List (ℕ × ℕ)) → map_get env l ≡ none → map_remove env l ≡ l
remove-none env [] g = refl
remove-none env ((e, b) ∷ rest) g = ground (arith, remove-none env rest)

pub release-Counted :
    (a : ℕ) (m : ThreadMap) (out : List ℕ)
    → ((x : ℕ)
        → refs_of (m.buckets x) ≡ (if a == x then 1 else 0) + (mapped x m.entries + held x out))
    → ((x : ℕ) → not_zero (m.buckets x) ≡ true)
    → ((x : ℕ) → m.next ≤ x → m.buckets x ≡ none)
    → (m' : ThreadMap) × (release a m ≡ some m')
      × Counted m' out
      × (m'.entries ≡ m.entries)
      × (m'.next ≡ m.next)
      × ((x : ℕ) → a ≢ x → m'.buckets x ≡ m.buckets x)
unfolding release
release-Counted a m out c al un = elim (Option-cases (m.buckets a)) [
  | inl e ↦ absurd (ground (arith, c a, e))
  | inr (b, e) ↦ elim (Bool-cases (b.refs == 1)) [
    | inl last ↦ (
      set_bucket a none m,
      rw (release, e, last) refl,
      record {
        counts = λ x. ground (arith, c x, c a, e);
        alive = λ x. ground (arith, c x, c a, al x, al a, e);
        unused = λ x h. ground (arith, un x, c a, un a, e);
      },
      refl,
      refl,
      λ x ne. ground arith,
    )
    | inr more ↦ (
      set_bucket a (some (record b { refs = b.refs - 1 })) m,
      rw (release, e, more) refl,
      record {
        counts = λ x. ground (arith, c x, c a, e);
        alive = λ x. ground (arith, c x, c a, al x, al a, e);
        unused = λ x h. ground (arith, un x, c a, un a, e);
      },
      refl,
      refl,
      λ x ne. ground arith,
    )
  ]
]

-- A bucket's epoch and the collector do not count.
epoch-Counted :
    (a epoch : ℕ) (b : ThreadBucket) (g : Gc) (m : ThreadMap) (out : List ℕ)
    → m.buckets a ≡ some b
    → Counted m out
    → Counted (set_bucket a (some (record b { local_epoch = epoch })) (record m { gc = g })) out
epoch-Counted a epoch b g m out e k = record {
  counts = λ x. ground (arith, k.counts x, k.counts a, e);
  alive = λ x. ground (arith, k.alive x, k.alive a, e);
  unused = λ x h. ground (arith, k.unused x, k.unused a, e);
}

pub get-Counted :
    (env : ℕ) (m : ThreadMap) (out : List ℕ)
    → Counted m out
    → (m' : ThreadMap) × (get env m ≡ some (map_get env m.entries, m'))
      × Counted m' (elim (map_get env m.entries) [ none ↦ out | some a ↦ a ∷ out ])
unfolding get
get-Counted env m out k = elim (Option-cases (map_get env m.entries)) [
  | inl e ↦ (m, rw (get, e) refl, rw e k)
  | inr (a, e) ↦ elim (Option-cases (m.buckets a)) [
    | inl dead ↦ absurd (ground (arith, k.counts a, mapped-remove env a a m.entries, e, dead))
    | inr (b, e') ↦ (
      set_bucket a
          (some (record b { refs = b.refs + 1; local_epoch = (ss_safepoint b.local_epoch m.gc).0 }))
          (record m { gc = (ss_safepoint b.local_epoch m.gc).1 }),
      rw (get, e, e', positive a b e') refl,
      rw e (record {
        counts = λ x. ground (arith, k.counts x, k.counts a, e');
        alive = λ x. ground (arith, k.alive x, k.alive a, e');
        unused = λ x h. ground (arith, k.unused x, k.unused a, e');
      }),
    )
  ]
]
  where
    positive : (a : ℕ) (b : ThreadBucket) → m.buckets a ≡ some b → ltb 0 b.refs ≡ true
    positive a b e = ground (arith, k.alive a, e)

pub remove-Counted :
    (env : ℕ) (m : ThreadMap) (out : List ℕ)
    → Counted m out
    → (m' : ThreadMap) × (remove env m ≡ some m') × Counted m' out
unfolding remove
remove-Counted env m out k = elim (Option-cases (map_get env m.entries)) [
  | inl e ↦ (m, rw (remove, e) refl, k)
  | inr (a, e) ↦ elim (Option-cases (m.buckets a)) [
    | inl dead ↦ absurd (ground (arith, k.counts a, mapped-remove env a a m.entries, e, dead))
    | inr (b, e') ↦
        let m₁ =
          set_bucket a (some (record b { local_epoch = (helper_detach b.local_epoch m.gc).0 }))
            (record m {
              entries = map_remove env m.entries;
              gc = (helper_detach b.local_epoch m.gc).1;
            }) in
        let (m₂, r, k₂, entries, next, others) =
          release-Counted a m₁ out
            (λ x. ground (arith, k.counts x, k.counts a, e', mapped-remove env x a m.entries e))
            (λ x. ground (arith, k.alive x, k.alive a, e'))
            (λ x h. ground (arith, k.unused x, k.unused a, e')) in
        (m₂, rw (remove, e, e') r, k₂)
  ]
]

fresh_bucket : (tid : ℤ) (m : ThreadMap) → ThreadBucket
fresh_bucket tid m = record { tid = tid; refs = 1; local_epoch = (attach_thread m.gc).0 }

inserted : (env : ℕ) (tid : ℤ) (m : ThreadMap) → ThreadMap
inserted env tid m = record m {
  entries = (env, m.next) ∷ map_remove env m.entries;
  buckets = update m.buckets m.next (some (fresh_bucket tid m));
  next = suc m.next;
  gc = (attach_thread m.gc).1;
}

-- The old bucket of a put is released, and the new one is there.
replaced :
    (env : ℕ) (tid : ℤ) (m : ThreadMap) (out : List ℕ)
    → Counted m out
    → (m₂ : ThreadMap) × (release_any (map_get env m.entries) (inserted env tid m) ≡ some m₂)
      × Counted m₂ out
      × (m₂.buckets m.next ≡ some (fresh_bucket tid m))
unfolding inserted fresh_bucket
replaced env tid m out k = elim (Option-cases (map_get env m.entries)) [
  | inl e ↦ (
    inserted env tid m,
    rw e refl,
    record {
      counts = λ x.
          ground
            (arith, k.counts x, k.counts m.next, new, ap (mapped x) (remove-none env m.entries e));
      alive = λ x. ground (arith, k.alive x);
      unused = λ x h. ground (arith, k.unused x);
    },
    ground arith,
  )
  | inr (a, e) ↦
      let (m₂, r, k₂, same, next, others) =
        release-Counted a (inserted env tid m) out
          (λ x. ground (arith, k.counts x, k.counts m.next, new, mapped-remove env x a m.entries e))
          (λ x. ground (arith, k.alive x)) (λ x h. ground (arith, k.unused x)) in
      (m₂, rw e r, k₂, others m.next (old a e) ∙ ground arith)
]
  where
    new : m.buckets m.next ≡ none
    new = k.unused m.next (omega arith)

    old : (a : ℕ) → map_get env m.entries ≡ some a → a ≢ m.next
    old a e = ground (arith, k.counts m.next, new, mapped-remove env m.next a m.entries e)

put-steps :
    (env : ℕ) (tid : ℤ) (m m₂ : ThreadMap) (b : ThreadBucket)
    → release_any (map_get env m.entries) (inserted env tid m) ≡ some m₂
    → m₂.buckets m.next ≡ some b
    → put env tid m
      ≡ some (
          set_bucket m.next
            (some (record b { local_epoch = (safepoint b.local_epoch m₂.gc).0 }))
            (record m₂ { gc = (safepoint b.local_epoch m₂.gc).1 }))
unfolding put inserted fresh_bucket
put-steps env tid m m₂ b r e = rw (put, r, e) refl

pub put-Counted :
    (env : ℕ) (tid : ℤ) (m : ThreadMap) (out : List ℕ)
    → Counted m out
    → (m' : ThreadMap) × (put env tid m ≡ some m') × Counted m' out
put-Counted env tid m out k =
    let (m₂, r, k₂, there) = replaced env tid m out k in
    let b = fresh_bucket tid m in
    (
      _,
      put-steps env tid m m₂ b r there,
      epoch-Counted m.next (safepoint b.local_epoch m₂.gc).0 b (safepoint b.local_epoch m₂.gc).1 m₂
          out there k₂,
    )
