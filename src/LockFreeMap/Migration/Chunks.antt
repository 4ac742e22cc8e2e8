-- ===== src/LockFreeMap/Migration/Chunks.antt =====
-- The loop of Migration::run over the chunks of one source (recorder/src/main/cpp/concurrent_map.h).
use Prim.Native.Nat.{min}
use fk_prof.Prelude.{
  ℕ, zero, suc, ◌+◌, ◌-◌, ◌*◌, ◌≤◌, ◌<◌, ◌≡◌, ◌≢◌, ap, ◌∙◌, arith, Option, some, Bool-cases, inl,
  inr, ltb, ◌==◌, dec_lt,
}
use mathlib.Core.Path.{subst}
use fk_prof.LockFreeMap.Defs.{HashTable, get_migration_size}
use fk_prof.LockFreeMap.Valid.{IsValid}
use fk_prof.LockFreeMap.New.{IsChunked}
use fk_prof.LockFreeMap.Live.{IsUnmarked, MarkedBelow}
use fk_prof.LockFreeMap.Migration.{migrate_range}
use fk_prof.LockFreeMap.Migration.Moves.{Moves, Moves-none, Moves-trans}
use fk_prof.LockFreeMap.Migration.Cells.{all_moved, overflowed, migrate_cells-CellsMove}
use fk_prof.LockFreeMap.Migration.Run.{Progress, exhausted, all_done, out_of_room, run_source}

-- How the loop over a source ends, with w units left for the other sources.
pub data SourceRuns (t dest : HashTable) (w : ℕ) (o : Option Progress) : Type 0 where
  source_through :
      (t' dest' : HashTable) (x : ℕ)
      → Moves t dest t' dest'
      → MarkedBelow (suc t'.size_mask) t'
      → 1 ≤ w
      → o
        ≡ some (record {
          stop = exhausted;
          source = record { table = t'; index = x };
          into = dest';
          units = w;
        })
      → SourceRuns t dest w o
  source_last :
      (t' dest' : HashTable) (x : ℕ)
      → Moves t dest t' dest'
      → MarkedBelow (suc t'.size_mask) t'
      → w ≡ 0
      → o
        ≡ some (record {
          stop = all_done;
          source = record { table = t'; index = x };
          into = dest';
          units = 0;
        })
      → SourceRuns t dest w o
  source_overflows :
      (t' dest' : HashTable) (x u : ℕ)
      → Moves t dest t' dest'
      → o
        ≡ some (record {
          stop = out_of_room;
          source = record { table = t'; index = x };
          into = dest';
          units = u;
        })
      → SourceRuns t dest w o

SourceRuns-trans :
    {t dest t₁ dest₁ : HashTable} {w : ℕ} {o : Option Progress}
    → Moves t dest t₁ dest₁
    → SourceRuns t₁ dest₁ w o
    → SourceRuns t dest w o
SourceRuns-trans m (source_through t' d' x m' all le e) =
    source_through t' d' x (Moves-trans m m') all le e
SourceRuns-trans m (source_last t' d' x m' all z e) = source_last t' d' x (Moves-trans m m') all z e
SourceRuns-trans m (source_overflows t' d' x u m' e) =
    source_overflows t' d' x u (Moves-trans m m') e

pub Moves-IsChunked : {f d f' d' : HashTable} → Moves f d f' d' → IsChunked f → IsChunked f'
unfolding get_migration_size
Moves-IsChunked m c = record {
  chunks = omega (arith, m.from_mask, c.chunks);
  some_chunk = omega (arith, m.from_mask, c.some_chunk);
}

same_chunks :
    {f d f' d' : HashTable} → Moves f d f' d' → get_migration_size f' ≡ get_migration_size f
unfolding get_migration_size
same_chunks m = omega (arith, m.from_mask)

range_all :
    (t : HashTable) (i : ℕ)
    → IsChunked t
    → i < get_migration_size t
    → 32 * i + (min (32 * i + 32) (t.size_mask + 1) - 32 * i) ≡ 32 * suc i
range_all t i c lt = omega (arith, c.chunks)

-- From chunk i on, with enough fuel, and a unit for each chunk left here and w for the others.
pub run_source-SourceRuns :
    (n i w units : ℕ) (t dest : HashTable)
    → IsValid t
    → IsChunked t
    → IsValid dest
    → IsUnmarked dest
    → MarkedBelow (32 * i) t
    → i ≤ get_migration_size t
    → get_migration_size t - i < n
    → units ≡ get_migration_size t - i + w
    → 1 ≤ units
    → SourceRuns t dest w (run_source n (record { table = t; index = 32 * i }) dest units)
unfolding run_source migrate_range
run_source-SourceRuns zero i w units t dest tv c dv un below le fuel e some_units =
    absurd (omega arith)
run_source-SourceRuns (suc n) i w units t dest tv c dv un below le fuel e some_units =
    elim (Bool-cases (ltb t.size_mask (32 * i))) [
      | inl past ↦
          let through : units ≡ w = ground (arith, c.chunks) in
          source_through t dest (32 * i + 32) (Moves-none tv dv un)
            (λ j lt. below j (ground (arith, c.chunks))) (omega arith) (rw (past, through))
      | inr inside ↦
          let lt : i < get_migration_size t = ground (arith, c.chunks) in
          let range = range_all t i c lt in
          elim (migrate_cells-CellsMove (min (32 * i + 32) (t.size_mask + 1) - 32 * i) (32 * i) t
            dest tv dv un) [
              | overflowed f d m r ↦ source_overflows f d (32 * i + 32) units m (rw (inside, r))
              | all_moved f d m marks r ↦
                  let upto : MarkedBelow (32 * suc i) f = λ j lj. elim (dec_lt j (32 * i)) [
                    | yes l ↦ m.marks j (below j l)
                    | no l ↦ marks j (omega arith) (omega (arith, range))
                  ] in
                  elim (Bool-cases (units == 1)) [
                    | inl one ↦
                        let one_unit : units ≡ 1 = ground arith in
                        source_last f d (32 * i + 32) m
                          (λ j lj. upto j (omega (arith, m.from_mask, c.chunks))) (omega arith)
                          (rw (inside, r, one))
                    | inr more ↦
                        let others : units ≢ 1 = λ q. ground arith in
                        let chunks = same_chunks m in
                        let next : 32 * suc i ≡ 32 * i + 32 = omega arith in
                        SourceRuns-trans m (
                          subst (SourceRuns f d w)
                            (ap (λ x. run_source n (record { table = f; index = x }) d (units - 1))
                                next
                              ∙ rw (inside, r, more))
                            (run_source-SourceRuns n (suc i) w (units - 1) f d m.from_valid
                              (Moves-IsChunked m c) m.dest_valid m.unmarked upto (omega arith)
                              (omega arith) (omega arith) (omega arith)))
                  ]
            ]
    ]
