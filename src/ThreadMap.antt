-- ===== src/ThreadMap.antt =====
-- ThreadBucket and ThreadMapBase (recorder/src/main/cpp/thread_map.h): who holds a bucket, and when it is
-- deleted. Each call is one step; the map's provider is taken as a map from the environment to
-- the bucket, which answers with the value that was there.
pub mod Counts
pub mod History
pub mod Hasher
mod HasherTests
mod Tests
use fk_prof.Prelude.{
  ℕ, suc, ◌+◌, ◌-◌, Bool, true, false, Option, none, some, List, [], ◌∷◌, ltb, ◌==◌, if◌then◌else◌,
  update,
}
use fk_prof.Prelude.Int.{ℤ}
use fk_prof.Gc.{Gc, attach_thread, safepoint, ss_safepoint, helper_detach}

-- `refs` is an atomic int that no step takes below 0.
pub record ThreadBucket : Type 0 where
  pub tid : ℤ
  pub refs : ℕ
  pub local_epoch : ℕ

-- `buckets` has what is alive at an address. Addresses from `next` on are unused.
pub record ThreadMap : Type 0 where
  pub entries : List (ℕ × ℕ)
  pub buckets : ℕ → Option ThreadBucket
  pub next : ℕ
  pub gc : Gc

abbrev pub map_get : ℕ → List (ℕ × ℕ) → Option ℕ
map_get env [] = none
map_get env ((e, a) ∷ rest) = if e == env then some a else map_get env rest

abbrev pub map_remove : ℕ → List (ℕ × ℕ) → List (ℕ × ℕ)
map_remove env [] = []
map_remove env ((e, a) ∷ rest) = if e == env then rest else (e, a) ∷ map_remove env rest

abbrev pub set_bucket : ℕ → Option ThreadBucket → ThreadMap → ThreadMap
set_bucket a b m = record m { buckets = update m.buckets a b }

-- `tb->release()`; none if no bucket is alive there.
unfoldable pub release : ℕ → ThreadMap → Option ThreadMap
release a m = elim (m.buckets a) [
  | none ↦ none
  | some b ↦
      if b.refs == 1
      then some (set_bucket a none m)
      else some (set_bucket a (some (record b { refs = b.refs - 1 })) m)
]

-- `if (old != nullptr) old->release();`
abbrev pub release_any : Option ℕ → ThreadMap → Option ThreadMap
release_any none m = some m
release_any (some a) m = release a m

-- The new bucket is attached to the collector, put into the map, and takes its safepoint last.
unfoldable pub put : ℕ → ℤ → ThreadMap → Option ThreadMap
unfolding release
put env tid m =
    let (epoch, gc) = attach_thread m.gc in
    let bucket : ThreadBucket = record { tid = tid; refs = 1; local_epoch = epoch } in
    let m₁ = record m {
      entries = (env, m.next) ∷ map_remove env m.entries;
      buckets = update m.buckets m.next (some bucket);
      next = suc m.next;
      gc = gc;
    } in
    elim (release_any (map_get env m.entries) m₁) [
      | none ↦ none
      | some m₂ ↦ elim (m₂.buckets m.next) [
        | none ↦ none
        | some b ↦
            let (epoch', gc') = safepoint b.local_epoch m₂.gc in
            some (
              set_bucket m.next (some (record b { local_epoch = epoch' })) (record m₂ { gc = gc' }))
      ]
    ]

-- `acq_bucket` and the safepoint in the signal handler.
unfoldable pub get : ℕ → ThreadMap → Option (Option ℕ × ThreadMap)
get env m = elim (map_get env m.entries) [
  | none ↦ some (none, m)
  | some a ↦ elim (m.buckets a) [
    | none ↦ none
    | some b ↦
        if ltb 0 b.refs
        then (let (epoch, gc) = ss_safepoint b.local_epoch m.gc in
            some (
              some a,
              set_bucket a (some (record b { refs = b.refs + 1; local_epoch = epoch }))
                  (record m { gc = gc }),
            ))
        else some (none, m)
  ]
]

unfoldable pub remove : ℕ → ThreadMap → Option ThreadMap
unfolding release
remove env m = elim (map_get env m.entries) [
  | none ↦ some m
  | some a ↦ elim (m.buckets a) [
    | none ↦ none
    | some b ↦
        let (epoch, gc) = helper_detach b.local_epoch m.gc in
        release a (
          set_bucket a (some (record b { local_epoch = epoch }))
            (record m { entries = map_remove env m.entries; gc = gc }))
  ]
]
