-- ===== src/LockFreeMap/Migration/Sources.antt =====
-- Migration::run over all sources (recorder/src/main/cpp/concurrent_map.h).
use fk_prof.Prelude.{
  ℕ, ◌+◌, ◌*◌, ◌≤◌, ◌≡◌, ◌≢◌, refl, sym, ap, ◌∙◌, arith, Option, some, List, [], ◌∷◌,
}
use mathlib.Core.Path.{subst}
use fk_prof.LockFreeMap.Defs.{HashTable, get_migration_size, hash_empty}
use fk_prof.LockFreeMap.Valid.{IsValid}
use fk_prof.LockFreeMap.New.{IsChunked}
use fk_prof.LockFreeMap.Live.{live, present, IsUnmarked, live-marked}
use fk_prof.LockFreeMap.Migration.Moves.{Moves}
use fk_prof.LockFreeMap.Migration.Chunks.{
  SourceRuns, source_through, source_last, source_overflows, run_source-SourceRuns, Moves-IsChunked,
}
use fk_prof.LockFreeMap.Migration.Run.{
  Source, Passed, all_done, out_of_room, run_sources, run_source, sum_sizes, after_source,
  and_source,
}

pub data AllSound : List Source → Type 0 where
  no_sources : AllSound []
  one_more :
      {s : Source} {rest : List Source}
      → IsValid s.table
      → IsChunked s.table
      → AllSound rest
      → AllSound (s ∷ rest)

-- No chunk of any source has been taken.
pub data AllRewound : List Source → Type 0 where
  none_rewound : AllRewound []
  one_rewound :
      {s : Source} {rest : List Source} → s.index ≡ 0 → AllRewound rest → AllRewound (s ∷ rest)

unfoldable pub sum_live : List Source → ℕ → ℕ
sum_live [] h = 0
sum_live (s ∷ rest) h = live s.table h + sum_live rest h

unfoldable pub sum_present : List Source → ℕ → ℕ
sum_present [] h = 0
sum_present (s ∷ rest) h = present (live s.table h) + sum_present rest h

-- What a run keeps: a hash that is live in one of the tables at most stays so, with its value.
pub record SourcesMove (ss : List Source) (dest : HashTable) (ss' : List Source) (dest' : HashTable)
    : Type 0 where
  pub sound : AllSound ss'
  pub dest_valid : IsValid dest'
  pub unmarked : IsUnmarked dest'
  pub dest_mask : dest'.size_mask ≡ dest.size_mask
  pub values :
      (h : ℕ)
      → h ≢ hash_empty
      → sum_present ss h + present (live dest h) ≤ 1
      → sum_live ss' h + live dest' h ≡ sum_live ss h + live dest h
  pub places :
      (h : ℕ)
      → h ≢ hash_empty
      → sum_present ss h + present (live dest h) ≤ 1
      → sum_present ss' h + present (live dest' h) ≡ sum_present ss h + present (live dest h)

-- How a run over the sources ends: all is moved, or there is no room in the destination.
pub data SourcesRun (ss : List Source) (dest : HashTable) (o : Option Passed) : Type 0 where
  run_done :
      (ss' : List Source) (dest' : HashTable)
      → SourcesMove ss dest ss' dest'
      → ((h : ℕ) → h ≢ hash_empty → sum_live ss' h ≡ 0)
      → o ≡ some (record { outcome = all_done; sources = ss'; into = dest'; units = 0 })
      → SourcesRun ss dest o
  run_overflows :
      (ss' : List Source) (dest' : HashTable) (u : ℕ)
      → SourcesMove ss dest ss' dest'
      → o ≡ some (record { outcome = out_of_room; sources = ss'; into = dest'; units = u })
      → SourcesRun ss dest o

no_units : {rest : List Source} → AllSound rest → 0 ≡ sum_sizes rest → rest ≡ []
unfolding sum_sizes
no_units no_sources e = refl
no_units (one_more v c a) e = absurd (omega (arith, c.some_chunk))

-- The first source has moved and the others have not been touched.
module _ {s : Source} {rest : List Source} {dest t' dest' : HashTable} {x : ℕ}
    (c : IsChunked s.table) (m : Moves s.table dest t' dest') where
  first_moved :
      AllSound rest → SourcesMove (s ∷ rest) dest (record { table = t'; index = x } ∷ rest) dest'
  unfolding sum_live sum_present
  first_moved a = record {
    sound = one_more m.from_valid (Moves-IsChunked m c) a;
    dest_valid = m.dest_valid;
    unmarked = m.unmarked;
    dest_mask = m.dest_mask;
    values = λ h ne le. omega (arith, m.values h ne (omega arith));
    places = λ h ne le. omega (arith, m.places h ne (omega arith));
  }

  then_moved :
      {rest' : List Source} {dest'' : HashTable}
      → SourcesMove rest dest' rest' dest''
      → SourcesMove (s ∷ rest) dest (record { table = t'; index = x } ∷ rest') dest''
  unfolding sum_live sum_present
  then_moved n = record {
    sound = one_more m.from_valid (Moves-IsChunked m c) n.sound;
    dest_valid = n.dest_valid;
    unmarked = n.unmarked;
    dest_mask = n.dest_mask ∙ m.dest_mask;
    values = λ h ne le. omega (
      arith,
      m.values h ne (omega arith),
      m.places h ne (omega arith),
      n.values h ne (omega (arith, m.places h ne (omega arith))),
    );
    places = λ h ne le. omega (
      arith,
      m.places h ne (omega arith),
      n.places h ne (omega (arith, m.places h ne (omega arith))),
    );
  }

all_zero : {rest : List Source} → rest ≡ [] → (h : ℕ) → sum_live rest h ≡ 0
unfolding sum_live
all_zero e h = ap (λ r. sum_live r h) e

at_start : (s : Source) → s.index ≡ 0 → record { table = s.table; index = 32 * 0 } ≡ s
at_start s e = ap (λ x. record { table = s.table; index = x }) (sym e)

-- With all chunks ahead and a unit for each of them, a run always ends; what is live is kept, and if
-- the destination has not overflowed nothing is live in a source.
pub run_sources-SourcesRun :
    (ss : List Source) (dest : HashTable) (units : ℕ)
    → AllSound ss
    → AllRewound ss
    → IsValid dest
    → IsUnmarked dest
    → units ≡ sum_sizes ss
    → 1 ≤ units
    → SourcesRun ss dest (run_sources ss dest units)
unfolding run_sources sum_sizes sum_live
run_sources-SourcesRun [] dest units sound start dv un e le = absurd (omega arith)
run_sources-SourcesRun (s ∷ rest) dest units (one_more tv c sound) (one_rewound z start) dv un e
      le =
    elim (subst
      (λ o.
        SourceRuns s.table dest (sum_sizes rest)
          (run_source (get_migration_size s.table + 2) o dest units))
      (at_start s z)
      (run_source-SourceRuns (get_migration_size s.table + 2) 0 (sum_sizes rest) units s.table dest
        tv c dv un (λ j lt. absurd (omega arith)) (omega arith) (omega arith) (omega arith) le)) [
          | source_overflows t' d' x u m r ↦
              run_overflows (record { table = t'; index = x } ∷ rest) d' u (first_moved c m sound)
                (rw r)
          | source_last t' d' x m all w r ↦
              run_done (record { table = t'; index = x } ∷ rest) d' (first_moved c m sound)
                (λ h ne.
                  omega
                    (arith, live-marked m.from_valid all h, all_zero (no_units sound (sym w)) h))
                (rw r)
          | source_through t' d' x m all some_units r ↦
              elim (run_sources-SourcesRun rest d' (sum_sizes rest) sound start m.dest_valid
                m.unmarked refl some_units) [
                  | run_overflows ss' d'' u n q ↦
                      run_overflows (record { table = t'; index = x } ∷ ss') d'' u
                        (then_moved c m n)
                        (ap (λ o. after_source o rest (run_sources rest)) r
                          ∙ ap (and_source (record { table = t'; index = x })) q)
                  | run_done ss' d'' n none_live q ↦
                      run_done (record { table = t'; index = x } ∷ ss') d'' (then_moved c m n)
                        (λ h ne. omega (arith, live-marked m.from_valid all h, none_live h ne))
                        (ap (λ o. after_source o rest (run_sources rest)) r
                          ∙ ap (and_source (record { table = t'; index = x })) q)
                ]
        ]
