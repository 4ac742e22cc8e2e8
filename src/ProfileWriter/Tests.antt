-- ===== src/ProfileWriter/Tests.antt =====
-- The theorem on the profile writer, at a header and two messages.
use fk_prof.Prelude.{
  ℕ, ◌+◌, ◌/◌, ◌%◌, ◌^◌, ◌<◌, ◌≤◌, ◌≡◌, some, List, [], ◌∷◌, ◌++◌, ltb, if◌then◌else◌, length,
  arith,
}
use fk_prof.ProfileWriter.{ProfileWriter, fresh, write_header, destroy}
use fk_prof.ProfileWriter.Contents.{append_all, header_bytes, all_bytes, file_contents}

-- Seven bits in each byte, the lowest first.
abbrev varint : ℕ → List ℕ
varint x =
    if ltb x 128
    then x ∷ []
    else (x % 128 + 128)
      ∷ (x / 128 % 128 + 128)
      ∷ (x / 128 / 128 % 128 + 128)
      ∷ (x / 128 / 128 / 128 % 128 + 128)
      ∷ (x / 128 / 128 / 128 / 128)
      ∷ []

varint_short : (x : ℕ) → x < 2 ^ 32 → length (varint x) ≤ 5
varint_short x h = ground arith

-- A sum of bytes for the checksum.
abbrev sum : ℕ → List ℕ → ℕ
sum a [] = a % 65521
sum a (b ∷ bs) = sum ((a + b) % 65521) bs

sum_small : (a : ℕ) (bs : List ℕ) → sum a bs < 2 ^ 32
sum_small a [] = omega arith
sum_small a (b ∷ bs) = sum_small ((a + b) % 65521) bs

file_contents_example :
    (w : ProfileWriter) × (w' : ProfileWriter) × (write_header varint sum 1 1
        (7 ∷ 8 ∷ [])
        (fresh varint sum 1 1)
      ≡ some w)
    × (append_all varint sum 1 1 ((9 ∷ []) ∷ (10 ∷ 11 ∷ []) ∷ []) w ≡ some w')
    × (destroy w'
        ≡ header_bytes varint sum 1 1 (7 ∷ 8 ∷ [])
          ++ all_bytes varint sum 1 1 ((9 ∷ []) ∷ (10 ∷ 11 ∷ []) ∷ []))
file_contents_example =
    file_contents varint sum 1 1 varint_short sum_small (7 ∷ 8 ∷ [])
      ((9 ∷ []) ∷ (10 ∷ 11 ∷ []) ∷ []) (omega arith) (omega arith) (omega arith)
