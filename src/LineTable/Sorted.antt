-- ===== src/LineTable/Sorted.antt =====
-- Line tables in strictly ascending order, and what the last entry at or before an index is.
use fk_prof.Prelude.{
  ℕ, zero, suc, ◌≡◌, refl, some, true, List, [], ◌∷◌, arith, if◌then◌else◌, get_elem?, drop,
}
use fk_prof.Prelude.Int.{ℤ, ltb_ℤ, leb_ℤ, eqb_ℤ, ◌<ℤ◌, ◌≤ℤ◌}
use fk_prof.LineTable.{LineEntry, scan}

abbrev pub Above : ℤ → List LineEntry → Type 0
Above loc [] = Unit {0}
Above loc (e ∷ es) = (loc <ℤ e.start_location) × Above loc es

abbrev pub IsSorted : List LineEntry → Type 0
IsSorted [] = Unit {0}
IsSorted (e ∷ es) = Above e.start_location es × IsSorted es

-- The reference: the line of the last entry that starts at or before the index, by looking at
-- every entry; d if there is none.
abbrev pub last_line : ℤ → List LineEntry → ℤ → ℤ
last_line bci [] d = d
last_line bci (e ∷ es) d =
    last_line bci es (if leb_ℤ e.start_location bci then e.line_number else d)

pub last_line-Above :
    (bci : ℤ) (es : List LineEntry) (d : ℤ) → Above bci es → last_line bci es d ≡ d
last_line-Above bci [] d h = refl
last_line-Above bci (e ∷ es) d h = ground (arith, last_line-Above bci es d h.1)

pub Above-weaken : (a b : ℤ) (es : List LineEntry) → a ≤ℤ b → Above b es → Above a es
Above-weaken a b [] le h = tt
Above-weaken a b (e ∷ es) le h = (omega (arith, h.0), Above-weaken a b es le h.1)

-- The second loop may stop early on a sorted table.
pub scan-last_line :
    (bci : ℤ) (es : List LineEntry) (d : ℤ) → IsSorted es → scan bci es d ≡ last_line bci es d
unfolding scan
scan-last_line bci [] d h = refl
scan-last_line bci (e ∷ es) d h = ground (
  arith,
  scan-last_line bci es e.line_number h.1,
  last_line-Above bci es e.line_number,
  last_line-Above bci es d,
  Above-weaken bci e.start_location es,
)

-- An exact match is the last entry at or before the index.
pub last_line_match :
    (bci : ℤ) (es : List LineEntry) (k : ℕ) (e : LineEntry) (d : ℤ)
    → IsSorted es
    → get_elem? es k ≡ some e
    → eqb_ℤ bci e.start_location ≡ true
    → last_line bci es d ≡ e.line_number
last_line_match bci [] k e d s g q = cc
last_line_match bci (x ∷ es) zero e d s g q =
    ground (arith, last_line-Above bci es x.line_number, Above-weaken bci x.start_location es)
last_line_match bci (x ∷ es) (suc k) e d s g q = last_line_match bci es k e _ s.1 g q

-- Starting at an entry that lies before the index loses nothing.
pub last_line-drop :
    (bci : ℤ) (es : List LineEntry) (k : ℕ) (e : LineEntry) (d d' : ℤ)
    → get_elem? es k ≡ some e
    → ltb_ℤ e.start_location bci ≡ true
    → last_line bci (drop k es) d' ≡ last_line bci es d
last_line-drop bci [] k e d d' g q = cc
last_line-drop bci (x ∷ es) zero e d d' g q = ground arith
last_line-drop bci (x ∷ es) (suc k) e d d' g q = last_line-drop bci es k e _ d' g q

pub IsSorted-drop : (k : ℕ) (es : List LineEntry) → IsSorted es → IsSorted (drop k es)
IsSorted-drop zero es h = h
IsSorted-drop (suc k) [] h = tt
IsSorted-drop (suc k) (e ∷ es) h = IsSorted-drop k es h.1
