-- ===== src/Controller/Input.antt =====
-- The words and numbers of a command, as an istringstream gives them (recorder/src/main/cpp/controller.cpp).
use fk_prof.Prelude.{ℕ, ◌-◌, ◌^◌, Bool, true, false, [], ◌∷◌, ◌==◌, ltb, if◌then◌else◌}
use fk_prof.Prelude.Int.{ℤ, pos, negsuc}
use fk_prof.Agent.{Text, is_space, is_digit, atoi_digits, negate}

-- What is left of the text, and whether a read has failed.
pub record Stream : Type 0 where
  pub rest : Text
  pub failed : Bool

-- `input >> std::ws`
unfoldable pub skip_ws : Text → Text
unfolding is_space
skip_ws [] = []
skip_ws (c ∷ s) = let rest = skip_ws s in if is_space c then rest else c ∷ s

unfoldable pub word : Text → Text
unfolding is_space
word [] = []
word (c ∷ s) = let rest = word s in if is_space c then [] else c ∷ rest

unfoldable pub after_word : Text → Text
unfolding is_space
after_word [] = []
after_word (c ∷ s) = let rest = after_word s in if is_space c then c ∷ s else rest

-- A read of a string leaves an empty string as it is when there is no word left.
abbrev word_of : Text → Text × Stream
word_of [] = ([], record { rest = []; failed = true })
word_of (c ∷ s) = (word (c ∷ s), record { rest = after_word (c ∷ s); failed = false })

unfoldable pub read_word : Stream → Text × Stream
unfolding skip_ws word after_word
read_word i = if i.failed then ([], i) else word_of (skip_ws i.rest)

unfoldable pub after_digits : Text → Text
unfolding is_digit
after_digits [] = []
after_digits (c ∷ s) = let rest = after_digits s in if is_digit c then rest else c ∷ s

-- An int out of range is the nearest one in range.
unfoldable pub nearest_int : ℤ → ℤ
nearest_int (pos n) = if ltb n (2 ^ 31) then pos n else pos (2 ^ 31 - 1)
nearest_int (negsuc n) = if ltb n (2 ^ 31) then negsuc n else negsuc (2 ^ 31 - 1)

abbrev digits_of : (ℕ → ℤ) → Text → ℤ × Stream
digits_of sign [] = (pos 0, record { rest = []; failed = true })
digits_of sign (c ∷ s) =
    if is_digit c
    then (
      nearest_int (sign (atoi_digits 0 (c ∷ s))),
      record { rest = after_digits (c ∷ s); failed = false },
    )
    else (pos 0, record { rest = c ∷ s; failed = true })

abbrev pub number_of : ℤ → Text → ℤ × Stream
number_of before [] = (before, record { rest = []; failed = true })
number_of before (c ∷ s) =
    let minus = digits_of negate s in
    let plus = digits_of (λ n. pos n) s in
    let none_written = digits_of (λ n. pos n) (c ∷ s) in
    if c == 45 then minus else if c == 43 then plus else none_written

-- A read of an int: at the end of the text, or after a failed read, the variable keeps what was in
-- it; where no number stands it is 0.
unfoldable pub read_int : ℤ → Stream → ℤ × Stream
unfolding skip_ws is_digit after_digits nearest_int atoi_digits
read_int before i = if i.failed then (before, i) else number_of before (skip_ws i.rest)
