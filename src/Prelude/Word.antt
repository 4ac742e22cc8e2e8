-- ===== src/Prelude/Word.antt =====
-- Machine words: an `int` or `unsigned` of 32 bits is its bit pattern, a number below 2 ^ 32.
use fk_prof.Prelude.{ℕ, ◌+◌, ◌-◌, ◌%◌, ◌^◌, ◌<◌, ◌≡◌, arith, ltb, if◌then◌else◌}
use fk_prof.Prelude.Int.{ℤ, pos, negsuc}

abbrev pub u32_mod : ℕ
u32_mod = 2 ^ 32

-- `x + 1` and `x - 1` on such a word.
abbrev pub inc32 : ℕ → ℕ
inc32 x = (x + 1) % u32_mod

abbrev pub dec32 : ℕ → ℕ
dec32 x = (x + u32_mod - 1) % u32_mod

-- The bit pattern of a signed integer of w bits, and the integer of a pattern.
abbrev pub int_bits : ℕ → ℤ → ℕ
int_bits w (pos n) = n % 2 ^ w
int_bits w (negsuc n) = 2 ^ w - 1 - n % 2 ^ w

abbrev pub bits_int : ℕ → ℕ → ℤ
bits_int w x = if ltb x (2 ^ (w - 1)) then pos x else negsuc (2 ^ w - 1 - x)

-- The integer is one of w bits.
abbrev pub FitsInt : ℕ → ℤ → Type 0
FitsInt w (pos n) = n < 2 ^ (w - 1)
FitsInt w (negsuc n) = n < 2 ^ (w - 1)

pub bits_int-int_bits : (z : ℤ) → FitsInt 32 z → bits_int 32 (int_bits 32 z) ≡ z
bits_int-int_bits (pos n) h = ground arith
bits_int-int_bits (negsuc n) h = ground arith

pub int_bits-lt : (z : ℤ) → int_bits 32 z < 2 ^ 32
int_bits-lt (pos n) = omega arith
int_bits-lt (negsuc n) = omega arith
