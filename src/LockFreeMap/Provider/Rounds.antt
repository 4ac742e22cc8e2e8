-- ===== src/LockFreeMap/Provider/Rounds.antt =====
-- put of the provider (recorder/src/main/cpp/concurrent_map.h), against a map from hashes to values.
use Prim.Native.Nat.{min, max}
use fk_prof.Prelude.{
  ℕ, zero, suc, ◌+◌, ◌*◌, ◌/◌, ◌≡◌, ◌≢◌, refl, sym, ap, ◌∙◌, arith, Option, some, Bool, true, false,
  Bool-cases, inl, inr, ◌==◌, update, update_self, update_ne, ℕ_discrete,
}
use mathlib.Core.Option
use mathlib.Core.Path.{subst}
use fk_prof.LockFreeMap.Defs.{HashTable, hash_empty, val_move, nearest_pow2}
use fk_prof.LockFreeMap.Valid.{IsValid, lookup}
use fk_prof.LockFreeMap.New.{
  IsChunked, same_IsChunked, new_table-IsValid, new_table-IsChunked, new_table-IsUnmarked,
  live-new_table, lookup-new_table,
}
use fk_prof.LockFreeMap.Live.{
  live, present, IsUnmarked, live-some, lookup-live, lookup-not_move, stored-IsUnmarked,
}
use fk_prof.LockFreeMap.Store.{Stores}
use fk_prof.LockFreeMap.Insert.{overflows, helps, stores, insert_or_update-Inserts}
use fk_prof.LockFreeMap.Migration.Sources.{
  no_sources, one_more, none_rewound, one_rewound, sum_live, sum_present,
}
use fk_prof.LockFreeMap.Migration.Run.{Migration, sum_sizes}
use fk_prof.LockFreeMap.Migration.Restart.{Holds, run_finishes, run_restarts, run-Runs}
use fk_prof.LockFreeMap.Provider.{
  MapState, root, migrating, new_map, sample, target_size, start_job, migration_start, Round,
  returns, continues, after_insert, after_run, put_round, put_rounds, or_again,
}

-- The root table has the map f, and no migration has begun.
pub record HoldsRoot (f : ℕ → ℕ) (t : HashTable) : Type 0 where
  pub valid : IsValid t
  pub chunked : IsChunked t
  pub unmarked : IsUnmarked t
  pub lookups : (h : ℕ) → h ≢ hash_empty → lookup t h ≡ some (f h)

pub data Represents (f : ℕ → ℕ) : MapState → Type 0 where
  at_root : {t : HashTable} → HoldsRoot f t → Represents f (root t)
  on_the_way : {m : Migration} → Holds f m → Represents f (migrating m)

-- A new map is empty.
pub new_map-Represents : (n : ℕ) → Represents (λ h. 0) (new_map n)
unfolding new_map
new_map-Represents n = at_root (record {
  valid = new_table-IsValid n;
  chunked = new_table-IsChunked n;
  unmarked = new_table-IsUnmarked n;
  lookups = λ h ne. lookup-new_table n h;
})

module _ {f : ℕ → ℕ} {t : HashTable} (k : HoldsRoot f t) where
  never_move : (h : ℕ) → h ≢ hash_empty → f h ≢ val_move
  never_move h ne q = lookup-not_move k.valid k.unmarked h (k.lookups h ne ∙ ap some q)

  pub live-root : (h : ℕ) → h ≢ hash_empty → live t h ≡ f h
  live-root h ne = live-some t h (f h) (k.lookups h ne) (never_move h ne)

  pub start_job-Holds : (target : ℕ) → Holds f (start_job t target)
  unfolding start_job sum_live sum_present sum_sizes
  start_job-Holds target = record {
    ready = refl;
    sound = one_more k.valid k.chunked no_sources;
    rewound = one_rewound refl none_rewound;
    units = omega arith;
    some_units = k.chunked.some_chunk;
    dest_valid = new_table-IsValid target;
    dest_chunked = new_table-IsChunked target;
    unmarked = new_table-IsUnmarked target;
    values = λ h ne. omega (arith, live-root h ne, live-new_table target h);
    places = λ h ne. ground (arith, ap present (live-new_table target h));
  }

-- No cell of the sample is marked.
sample-some : (n i : ℕ) (t : HashTable) → IsUnmarked t → (e : ℕ) × (sample n i t ≡ some e)
unfolding sample
sample-some zero i t un = (0, refl)
sample-some (suc n) i t un =
    let (e, q) = sample-some n (suc i) t un in
    elim (Bool-cases (t.value i == val_move)) [
      | inl m ↦ absurd (un i (ground arith))
      | inr m ↦ elim (Bool-cases (t.value i == 0)) [
        | inl z ↦ (e, rw (m, z, q))
        | inr z ↦ (suc e, rw (m, z, q))
      ]
    ]

target_size-some :
    (t : HashTable) (double : Bool) → IsUnmarked t → (n : ℕ) × (target_size t double ≡ some n)
unfolding target_size
target_size-some t true un = (_, refl)
target_size-some t false un =
    let (e, q) = sample-some (min 256 (t.size_mask + 1)) 0 t un in
    (
      _,
      ap
          (Option.map (λ estimated.
            max 32
              (nearest_pow2 (2 * ((t.size_mask + 1) * estimated / min 256 (t.size_mask + 1))))))
          q,
    )

some_inj : {a b : ℕ} → some a ≡ some b → a ≡ b
some_inj e = ground arith

-- What a round gives: put returns the old value and the map, at rest, has the new one; or it goes on, and the
-- map is as it was.
pub data Rounds (f : ℕ → ℕ) (h v : ℕ) (o : Option Round) : Type 0 where
  has_put :
      (t : HashTable)
      → HoldsRoot (update f h v) t
      → o ≡ some (returns (f h) (root t))
      → Rounds f h v o
  goes_on : (d : Bool) (m : MapState) → Represents f m → o ≡ some (continues d m) → Rounds f h v o

-- A store is one in the map that the root has.
pub Stores-HoldsRoot :
    {f : ℕ → ℕ} {t t' : HashTable} {h v old : ℕ}
    → HoldsRoot f t
    → Stores t h v old t'
    → v ≢ val_move
    → HoldsRoot (update f h v) t'
Stores-HoldsRoot {f = f} {t = t} {t' = t'} {h = h} {v = v} k s no_mark = record {
  valid = s.valid;
  chunked = same_IsChunked t t' s.same_mask k.chunked;
  unmarked = stored-IsUnmarked s no_mark k.unmarked;
  lookups = λ a ne. elim (ℕ_discrete h a) [
    | yes q ↦
        subst (λ x. lookup t' x ≡ some (update f h v x)) q
          (s.after ∙ ap some (sym (update_self f h v)))
    | no q ↦ s.others a (λ w. q (sym w)) ∙ k.lookups a ne ∙ ap some (sym (update_ne f h a v q))
  ];
}

module _ {f : ℕ → ℕ} (h v : ℕ) (key : h ≢ hash_empty) (no_mark : v ≢ val_move) where
  put_root :
      {t : HashTable} (double : Bool) → HoldsRoot f t → Rounds f h v (put_round double (root t) h v)
  unfolding put_round migration_start
  put_root {t = t} double k = elim (insert_or_update-Inserts k.valid h v key) [
    | helps t' valid o l q e ↦
        absurd (lookup-not_move valid (λ i w. k.unmarked i (ap (λ g. g i) (sym q) ∙ w)) h l)
    | overflows e ↦
        let (target, q) = target_size-some t double k.unmarked in
        goes_on true (migrating (start_job t target)) (on_the_way (start_job-Holds k target)) (
          ap (after_insert double) e
          ∙ ap (λ o. Option.map (λ m. continues true (migrating m)) (Option.map (start_job t) o)) q)
    | stores old t' s e ↦ has_put t' (Stores-HoldsRoot k s no_mark) (
        ap (after_insert double) e
        ∙ ap (λ x. some (returns x (root t'))) (some_inj (sym s.before ∙ k.lookups h key)))
  ]

  -- A round of put never waits for another thread: it returns the old value of its hash, and the map
  -- has the new one; or the map is as it was, with a migration begun, begun again or finished.
  pub put_round-Rounds :
      (double : Bool) (m : MapState) → Represents f m → Rounds f h v (put_round double m h v)
  unfolding put_round
  put_round-Rounds double (root t) (at_root k) = put_root double k
  put_round-Rounds double (migrating m) (on_the_way k) = elim (run-Runs f m k) [
    | run_finishes d dv dc un values e ↦
        goes_on true (root d)
          (at_root (record {
            valid = dv;
            chunked = dc;
            unmarked = un;
            lookups = λ a ne. lookup-live dv un a ∙ ap some (values a ne);
          }))
          (ap after_run e)
    | run_restarts m' k' e ↦ goes_on true (migrating m') (on_the_way k') (ap after_run e)
  ]

  -- Let the state of the map represent a function f from hashes to values, at rest or in a migration. For
  -- a hash other than MapHashEmpty and a value other than MapValMove, up to n rounds of put never wait
  -- for another thread: either put returns the old value, f of the hash, and the map is at rest and
  -- represents f with the new value; or all n rounds are used by migrations, and the state still represents f.
  pub put_rounds-Rounds :
      (n : ℕ) (double : Bool) (m : MapState)
      → Represents f m
      → Rounds f h v (put_rounds n double m h v)
  unfolding put_rounds
  put_rounds-Rounds zero double m k = goes_on double m k refl
  put_rounds-Rounds (suc n) double m k = elim (put_round-Rounds double m k) [
    | has_put m' k' e ↦ has_put m' k' (ap (λ o. or_again o (λ d m. put_rounds n d m h v)) e)
    | goes_on d m' k' e ↦
        subst (Rounds f h v) (sym (ap (λ o. or_again o (λ d m. put_rounds n d m h v)) e))
          (put_rounds-Rounds n d m' k')
  ]
