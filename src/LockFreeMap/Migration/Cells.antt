-- ===== src/LockFreeMap/Migration/Cells.antt =====
-- A cell and a chunk of migrateRange (recorder/src/main/cpp/concurrent_map.h) on valid tables.
use fk_prof.Prelude.{
  ℕ, zero, suc, ◌+◌, ◌≤◌, ◌<◌, ◌≡◌, ◌≢◌, Bool, true, false, Option, some, ◌==◌, arith, ◌∙◌, sym, ap,
  refl, update, update_self, update_ne, ℕ_discrete, Bool-cases, inl, inr,
}
use mathlib.Core.Path.{subst, fun_ext}
use fk_prof.LockFreeMap.Defs.{HashTable, set_value, hash_empty, val_move, insert_or_update}
use fk_prof.LockFreeMap.Valid.{IsValid}
use fk_prof.LockFreeMap.Store.{Stores}
use fk_prof.LockFreeMap.Insert.{overflows, helps, stores, insert_or_update-Inserts}
use fk_prof.LockFreeMap.Live.{
  live, present, lookup-not_move, IsUnmarked, mark-IsValid, live-mark_other, live-mark, live-used,
  live-stored, live-not_stored, stored-IsUnmarked,
}
use fk_prof.LockFreeMap.Migration.Moves.{Moves, Moves-none, Moves-trans}
use fk_prof.LockFreeMap.Migration.{moved, migrate_cell, migrate_cells}

mark_keeps :
    (from : HashTable) (i j : ℕ)
    → from.value j ≡ val_move
    → update from.value i val_move j ≡ val_move
mark_keeps from i j e = ground arith

-- A cell without a value is marked.
mark_null :
    {from dest : HashTable} (i : ℕ)
    → IsValid from
    → IsValid dest
    → IsUnmarked dest
    → from.value i ≡ 0
    → Moves from dest (set_value i val_move from) dest
mark_null {from = from} {dest = dest} i fv dv un z =
    let same : (h : ℕ) → h ≢ hash_empty → live (set_value i val_move from) h ≡ live from h = λ h ne.
      elim (ℕ_discrete h (from.hash i)) [
        | no q ↦ live-mark_other fv i h q
        | yes q ↦
            let used : from.hash i ≢ hash_empty = λ w. ne (q ∙ w) in
            ap (live (set_value i val_move from)) q
            ∙ live-mark fv i used
            ∙ sym (ap (live from) q ∙ live-used fv i used (λ w. omega arith) ∙ z)
      ] in
    record {
      from_valid = mark-IsValid fv i;
      dest_valid = dv;
      unmarked = un;
      from_mask = refl;
      dest_mask = refl;
      values = λ h ne le. ap (λ x. x + live dest h) (same h ne);
      places = λ h ne le. ap (λ x. present x + present (live dest h)) (same h ne);
      marks = λ j e. mark_keeps from i j e;
    }

-- The only one of two that is not 0 goes from the one to the other.
change_places :
    {a a' b' v : ℕ} (b : ℕ)
    → a' ≡ 0
    → b' ≡ v
    → a ≡ v
    → v ≢ 0
    → present a + present b ≤ 1
    → (a' + b' ≡ a + b) × (present a' + present b' ≡ present a + present b)
change_places b p q r nz le = ground (arith, p, q, r, nz, le)

restore_value : (t : HashTable) (i : ℕ) → set_value i (t.value i) (set_value i val_move t) ≡ t
restore_value t i = ap (λ vs. record t { value = vs }) (fun_ext (back t.value))
  where
    back : (vs : ℕ → ℕ) (j : ℕ) → update (update vs i val_move) i (vs i) j ≡ vs j
    back vs j = elim (ℕ_discrete i j) [
      | yes q ↦
          sym (ap (update (update vs i val_move) i (vs i)) q)
          ∙ update_self (update vs i val_move) i (vs i)
          ∙ ap vs q
      | no q ↦ update_ne (update vs i val_move) i j (vs i) q ∙ update_ne vs i j val_move q
    ]

-- A live value is in the destination before its cell is marked.
move_live :
    {from dest dest' : HashTable} (i old : ℕ)
    → IsValid from
    → IsUnmarked dest
    → from.hash i ≢ hash_empty
    → from.value i ≢ 0
    → from.value i ≢ val_move
    → Stores dest (from.hash i) (from.value i) old dest'
    → Moves from dest (set_value i val_move from) dest'
move_live {from = from} {dest = dest} {dest' = dest'} i old fv un used nz nm s =
    let there = live-used fv i used nm in
    let here = live-mark fv i used in
    let now = live-stored s nm in
    let both : (h : ℕ)
        → present (live from h) + present (live dest h) ≤ 1
        → (live (set_value i val_move from) h + live dest' h ≡ live from h + live dest h)
          × (present (live (set_value i val_move from) h) + present (live dest' h)
              ≡ present (live from h) + present (live dest h)) =
      λ h le. elim (ℕ_discrete h (from.hash i)) [
        | no q ↦
            let a = live-mark_other fv i h q in
            let b = live-not_stored s nm h q in (rw (a, b), rw (a, b))
        | yes q ↦
            change_places (live dest h) (ap (live (set_value i val_move from)) q ∙ here)
              (ap (live dest') q ∙ now) (ap (live from) q ∙ there) nz le
      ] in
    record {
      from_valid = mark-IsValid fv i;
      dest_valid = s.valid;
      unmarked = stored-IsUnmarked s nm un;
      from_mask = refl;
      dest_mask = s.same_mask;
      values = λ h ne le. (both h le).0;
      places = λ h ne le. (both h le).1;
      marks = λ j e. mark_keeps from i j e;
    }

-- How one cell goes: it is marked and what is live is kept, or the destination overflows and
-- nothing has changed.
data CellMoves (from dest : HashTable) (i : ℕ) (o : Option (Bool × HashTable × HashTable))
    : Type 0 where
  goes_on :
      (from' dest' : HashTable)
      → Moves from dest from' dest'
      → from'.value i ≡ val_move
      → o ≡ some (false, from', dest')
      → CellMoves from dest i o
  stops : o ≡ some (true, from, dest) → CellMoves from dest i o

module _ {from dest : HashTable} (i : ℕ) (fv : IsValid from) (dv : IsValid dest)
    (un : IsUnmarked dest) where
  moved-CellMoves :
      from.hash i ≢ hash_empty
      → from.value i ≢ 0
      → from.value i ≢ val_move
      → CellMoves from dest i (
          moved i
            (from.value i)
            (set_value i val_move from)
            (insert_or_update dest (from.hash i) (from.value i)))
  moved-CellMoves used nz nm =
      elim (insert_or_update-Inserts dv (from.hash i) (from.value i) used) [
        | overflows e ↦ stops (
            ap (moved i (from.value i) (set_value i val_move from)) e
            ∙ ap (λ t. some (true, t, dest)) (restore_value from i))
        | helps d' valid o l q e ↦
            absurd (lookup-not_move valid (λ j w. un j (ap (λ f. f j) (sym q) ∙ w)) (from.hash i) l)
        | stores old d' s e ↦
            goes_on (set_value i val_move from) d' (move_live i old fv un used nz nm s)
              (update_self from.value i val_move) (rw e)
      ]

  migrate_cell-CellMoves : CellMoves from dest i (migrate_cell from dest i)
  unfolding migrate_cell
  migrate_cell-CellMoves = elim (Bool-cases (from.value i == 0)) [
    | inl z ↦
        goes_on (set_value i val_move from) dest (mark_null i fv dv un (ground arith))
          (update_self from.value i val_move) (rw z)
    | inr z ↦ elim (Bool-cases (from.value i == val_move)) [
      | inl m ↦ goes_on from dest (Moves-none fv dv un) (ground arith) (rw (z, m))
      | inr m ↦ elim (Bool-cases (from.hash i == hash_empty)) [
        | inl e ↦ absurd (ground (arith, fv.unused i (ground arith) (λ q. ground arith)))
        | inr e ↦
            subst (CellMoves from dest i) (rw (z, m, e))
              (moved-CellMoves (λ q. ground arith) (λ q. ground arith) (λ q. ground arith))
      ]
    ]
  ]

-- How n cells go from index i on.
pub data CellsMove (n i : ℕ) (from dest : HashTable) (o : Option (Bool × HashTable × HashTable))
    : Type 0 where
  all_moved :
      (from' dest' : HashTable)
      → Moves from dest from' dest'
      → ((j : ℕ) → i ≤ j → j < i + n → from'.value j ≡ val_move)
      → o ≡ some (false, from', dest')
      → CellsMove n i from dest o
  overflowed :
      (from' dest' : HashTable)
      → Moves from dest from' dest'
      → o ≡ some (true, from', dest')
      → CellsMove n i from dest o

pub migrate_cells-CellsMove :
    (n i : ℕ) (from dest : HashTable)
    → IsValid from
    → IsValid dest
    → IsUnmarked dest
    → CellsMove n i from dest (migrate_cells n i from dest)
unfolding migrate_cells
migrate_cells-CellsMove zero i from dest fv dv un =
    all_moved from dest (Moves-none fv dv un) (λ j le lt. absurd (omega arith)) refl
migrate_cells-CellsMove (suc n) i from dest fv dv un = elim (migrate_cell-CellMoves i fv dv un) [
  | stops e ↦ overflowed from dest (Moves-none fv dv un) (rw e)
  | goes_on f d m here e ↦
      elim (migrate_cells-CellsMove n (suc i) f d m.from_valid m.dest_valid m.unmarked) [
        | overflowed f' d' m' e' ↦ overflowed f' d' (Moves-trans m m') (rw e e')
        | all_moved f' d' m' rest e' ↦
            all_moved f' d' (Moves-trans m m')
              (λ j le lt. elim (ℕ_discrete i j) [
                | yes q ↦ subst (λ x. f'.value x ≡ val_move) q (m'.marks i here)
                | no q ↦ rest j (omega arith) (omega arith)
              ])
              (rw e e')
      ]
]
