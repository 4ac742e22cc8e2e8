-- ===== src/LockFreeMap/Migration/Restart.antt =====
-- A run of the migration (recorder/src/main/cpp/concurrent_map.h) as a whole: what the map holds
-- before and after it.
use fk_prof.Prelude.{
  ℕ, ◌+◌, ◌*◌, ◌%◌, ◌≤◌, ◌≡◌, ◌≢◌, refl, sym, ap, ◌∙◌, arith, Option, some, List, [], ◌∷◌, ◌++◌,
  map, false,
}
use fk_prof.Prelude.Word.{u32_mod}
use fk_prof.LockFreeMap.Defs.{HashTable, get_migration_size, hash_empty}
use fk_prof.LockFreeMap.Valid.{IsValid}
use fk_prof.LockFreeMap.New.{
  IsChunked, same_IsChunked, new_table-IsValid, new_table-IsChunked, new_table-IsUnmarked,
  live-new_table,
}
use fk_prof.LockFreeMap.Live.{live, present, IsUnmarked}
use fk_prof.LockFreeMap.Migration.Sources.{
  AllSound, no_sources, one_more, AllRewound, none_rewound, one_rewound, sum_live, sum_present,
  run_done, run_overflows, run_sources-SourcesRun,
}
use fk_prof.LockFreeMap.Migration.Run.{
  Source, Migration, Ran, finishes, restarts, run, sum_sizes, restart, rewind,
}

-- A migration that has not begun holds the map f: a hash with a value is live in one table, with that
-- value, and any other hash in none.
pub record Holds (f : ℕ → ℕ) (m : Migration) : Type 0 where
  pub ready : m.completed ≡ false
  pub sound : AllSound m.sources
  pub rewound : AllRewound m.sources
  pub units : m.units_remaining ≡ sum_sizes m.sources
  pub some_units : 1 ≤ m.units_remaining
  pub dest_valid : IsValid m.dest
  pub dest_chunked : IsChunked m.dest
  pub unmarked : IsUnmarked m.dest
  pub values : (h : ℕ) → h ≢ hash_empty → sum_live m.sources h + live m.dest h ≡ f h
  pub places : (h : ℕ) → h ≢ hash_empty → sum_present m.sources h + present (live m.dest h) ≤ 1

-- The sources of the next job.
module _ (d : HashTable) (dv : IsValid d) (dc : IsChunked d) where
  next_sources : List Source → List Source
  next_sources ss = map rewind ss ++ (record { table = d; index = 0 } ∷ [])

  next_sound : {ss : List Source} → AllSound ss → AllSound (next_sources ss)
  unfolding next_sources
  next_sound no_sources = one_more dv dc no_sources
  next_sound (one_more v c a) = one_more v c (next_sound a)

  next_rewound : (ss : List Source) → AllRewound (next_sources ss)
  unfolding next_sources
  next_rewound [] = one_rewound refl none_rewound
  next_rewound (s ∷ ss) = one_rewound refl (next_rewound ss)

  next_sizes :
      (ss : List Source) → sum_sizes (next_sources ss) ≡ sum_sizes ss + get_migration_size d
  unfolding next_sources sum_sizes
  next_sizes [] = omega arith
  next_sizes (s ∷ ss) = omega (arith, next_sizes ss)

  next_live : (ss : List Source) (h : ℕ) → sum_live (next_sources ss) h ≡ sum_live ss h + live d h
  unfolding next_sources sum_live
  next_live [] h = omega arith
  next_live (s ∷ ss) h = omega (arith, next_live ss h)

  next_present :
      (ss : List Source) (h : ℕ)
      → sum_present (next_sources ss) h ≡ sum_present ss h + present (live d h)
  unfolding next_sources sum_present
  next_present [] h = omega arith
  next_present (s ∷ ss) h = omega (arith, next_present ss h)

-- How a run ends, for a map f that the migration holds: the destination has all of it, or the next
-- job holds it.
pub data Runs (f : ℕ → ℕ) (o : Option Ran) : Type 0 where
  run_finishes :
      (d : HashTable)
      → IsValid d
      → IsChunked d
      → IsUnmarked d
      → ((h : ℕ) → h ≢ hash_empty → live d h ≡ f h)
      → o ≡ some (finishes d)
      → Runs f o
  run_restarts : (m : Migration) → Holds f m → o ≡ some (restarts m) → Runs f o

restart-Holds :
    (f : ℕ → ℕ) (ss : List Source) (d : HashTable)
    → IsValid d
    → IsChunked d
    → AllSound ss
    → ((h : ℕ) → h ≢ hash_empty → sum_live ss h + live d h ≡ f h)
    → ((h : ℕ) → h ≢ hash_empty → sum_present ss h + present (live d h) ≤ 1)
    → Holds f (restart ss d)
unfolding restart next_sources
restart-Holds f ss d dv dc sound values places =
    let n = (d.size_mask + 1) * 2 % u32_mod in
    record {
      ready = refl;
      sound = next_sound d dv dc sound;
      rewound = next_rewound d dv dc ss;
      units = sym (next_sizes d dv dc ss);
      some_units = omega (arith, dc.some_chunk);
      dest_valid = new_table-IsValid n;
      dest_chunked = new_table-IsChunked n;
      unmarked = new_table-IsUnmarked n;
      values = λ h ne. omega (arith, next_live d dv dc ss h, live-new_table n h, values h ne);
      places = λ h ne.
          omega (arith, next_present d dv dc ss h, ap present (live-new_table n h), places h ne);
    }

-- A run by one thread of a migration that holds a map always ends: either the destination is valid, unmarked and has
-- the value of every hash, or the destination overflowed and the next job holds the same map.
pub run-Runs : (f : ℕ → ℕ) (m : Migration) → Holds f m → Runs f (run m)
unfolding run
run-Runs f m k =
    elim (run_sources-SourcesRun m.sources m.dest m.units_remaining k.sound k.rewound k.dest_valid
      k.unmarked k.units k.some_units) [
        | run_done ss d n none_live e ↦
            run_finishes d n.dest_valid (same_IsChunked m.dest d n.dest_mask k.dest_chunked)
              n.unmarked
              (λ h ne. omega (arith, none_live h ne, n.values h ne (k.places h ne), k.values h ne))
              (rw (k.ready, e))
        | run_overflows ss d u n e ↦
            let c = same_IsChunked m.dest d n.dest_mask k.dest_chunked in
            run_restarts (restart ss d)
              (restart-Holds f ss d n.dest_valid c n.sound
                (λ h ne. n.values h ne (k.places h ne) ∙ k.values h ne)
                (λ h ne. omega (arith, n.places h ne (k.places h ne), k.places h ne)))
              (rw (k.ready, e))
      ]
