-- ===== src/LineTable/Correct.antt =====
-- `bci2line` reads inside the table, ends, and finds the last line at or before the index.
use fk_prof.Prelude.{
  ℕ, zero, suc, ◌+◌, ◌*◌, ◌/◌, ◌≤◌, ◌<◌, ◌≡◌, ◌≢◌, ◌⊎◌, refl, sym, ap, ◌∙◌, true, false, Bool-cases,
  none, some, List, [], ◌∷◌, arith, ◌==◌, ==_iff, inl, inr, if◌then◌else◌, length, get_elem?, drop,
  ℕ_discrete,
}
use fk_prof.Prelude.Int.{ℤ, ltb_ℤ, eqb_ℤ}
use fk_prof.LineTable.{
  LineEntry, Narrowed, gotcha, start_at, fault, unfinished, narrow, scan, bci2line, before_all,
  no_entries,
}
use fk_prof.LineTable.Sorted.{
  IsSorted, last_line, scan-last_line, last_line_match, last_line-drop, IsSorted-drop,
}

get_elem?-in :
    (es : List LineEntry) (i : ℕ) → i < length es → (e : LineEntry) × (get_elem? es i ≡ some e)
get_elem?-in [] i h = elim h [ ]
get_elem?-in (e ∷ es) zero h = (e, refl)
get_elem?-in (e ∷ es) (suc i) h = get_elem?-in es i (omega arith)

-- What the first loop may end with: an exact match, or a start at 0 or at an entry before the index.
abbrev Good : ℤ → List LineEntry → Narrowed → Type 0
Good bci table (gotcha line) =
    (k : ℕ) × (e : LineEntry) × (get_elem? table k ≡ some e)
    × (eqb_ℤ bci e.start_location ≡ true)
    × (line ≡ e.line_number)
Good bci table (start_at s) =
    (s ≡ 0) ⊎ ((e : LineEntry) × (get_elem? table s ≡ some e) × (ltb_ℤ e.start_location bci ≡ true))
Good bci table fault = ⊥
Good bci table unfinished = ⊥

narrow-Good :
    (fuel : ℕ) (bci : ℤ) (table : List LineEntry) (half start_index : ℕ)
    → half ≤ fuel
    → start_index + half * 2 ≤ length table
    → Good bci table (start_at start_index)
    → Good bci table (narrow fuel bci table half start_index)
unfolding narrow
narrow-Good zero bci table half s h b g = rw ((==_iff half 0).1 (omega arith)) g
narrow-Good (suc fuel) bci table half s h b g = elim (ℕ_discrete half 0) [
  | yes e ↦ rw ((==_iff half 0).1 e) g
  | no ne ↦
      let (entry, at) = get_elem?-in table (s + half) (omega arith) in
      rw (nonzero ne, at)
        (elim (Bool-cases (ltb_ℤ entry.start_location bci)) [
          | inl lt ↦ rw lt (
              narrow-Good fuel bci table (half / 2) (s + half) (omega arith) (omega arith)
                (inr (entry, at, lt)))
          | inr ge ↦ rw ge (elim (Bool-cases (eqb_ℤ bci entry.start_location)) [
            | inl eq ↦ rw eq (s + half, entry, at, eq, refl)
            | inr ne' ↦
                rw ne' (narrow-Good fuel bci table (half / 2) s (omega arith) (omega arith) g)
          ])
        ])
]
  where
    nonzero : half ≢ 0 → (half == 0) ≡ false
    nonzero ne = ground arith

narrowed :
    (bci : ℤ) (table : List LineEntry) (n : Narrowed)
    → IsSorted table
    → Good bci table n
    → elim n [
      | gotcha line ↦ some line
      | start_at start_index ↦ some (scan bci (drop start_index table) before_all)
      | fault ↦ none
      | unfinished ↦ none
    ]
      ≡ some (last_line bci table before_all)
narrowed bci table (gotcha line) s (k, e, at, eq, l) =
    ap some (l ∙ sym (last_line_match bci table k e before_all s at eq))
narrowed bci table (start_at i) s (inl z) = rw z (ap some (scan-last_line bci table before_all s))
narrowed bci table (start_at i) s (inr (e, at, lt)) = ap some (
    scan-last_line bci (drop i table) before_all (IsSorted-drop i table s)
    ∙ last_line-drop bci table i e before_all before_all at lt)
narrowed bci table fault s g = absurd g
narrowed bci table unfinished s g = absurd g

-- On a table in strictly ascending order `bci2line` never reads outside the table and returns the
-- line of the last entry that starts at or before the index, -102 if there is none; on an empty
-- table it returns -101.
pub bci2line_finds :
    (bci : ℤ) (table : List LineEntry)
    → IsSorted table
    → bci2line bci table
      ≡ some (if length table == 0 then no_entries else last_line bci table before_all)
unfolding bci2line
bci2line_finds bci [] s = refl
bci2line_finds bci (e ∷ es) s = rw nonempty (
    narrowed bci (e ∷ es) (narrow half bci (e ∷ es) half 0) s
      (narrow-Good half bci (e ∷ es) half 0 (omega arith) (omega arith) (inl refl)))
  where
    half : ℕ
    half = length (e ∷ es) / 2

    nonempty : (length (e ∷ es) == 0) ≡ false
    nonempty = ground arith

-- On any table, in order or not, both loops of `bci2line` end, the first within as many rounds as
-- half the length of the table, with a line, and without a read outside the table.
pub bci2line_total :
    (bci : ℤ) (table : List LineEntry) → (line : ℤ) × (bci2line bci table ≡ some line)
unfolding bci2line
bci2line_total bci [] = (no_entries, refl)
bci2line_total bci (e ∷ es) = rw nonempty (ends _ reached)
  where
    half : ℕ
    half = length (e ∷ es) / 2

    nonempty : (length (e ∷ es) == 0) ≡ false
    nonempty = ground arith

    reached : Good bci (e ∷ es) (narrow half bci (e ∷ es) half 0)
    reached = narrow-Good half bci (e ∷ es) half 0 (omega arith) (omega arith) (inl refl)

    ends :
        (n : Narrowed)
        → Good bci (e ∷ es) n
        → (line : ℤ) × (elim n [
          | gotcha l ↦ some l
          | start_at start_index ↦ some (scan bci (drop start_index (e ∷ es)) before_all)
          | fault ↦ none
          | unfinished ↦ none
        ]
            ≡ some line)
    ends (gotcha l) g = (l, refl)
    ends (start_at i) g = (_, refl)
    ends fault g = absurd g
    ends unfinished g = absurd g
