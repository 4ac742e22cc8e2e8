-- ===== src/LockFreeMap/Mask.antt =====
-- Bit masks: `x & m` is at most m, and masking twice is masking once.
use Prim.Native.Nat.{bit_and, bit_and-bitwise}
use fk_prof.LockFreeMap.Digits.{bit_and_halves}
use fk_prof.Prelude.{ℕ, zero, suc, ◌+◌, ◌/◌, ◌%◌, ◌≤◌, ◌<◌, ◌≡◌, ap, ◌∙◌, arith}
use fk_prof.Prelude.Word.{u32_mod}
use fk_prof.LockFreeMap.Defs.{step, home}

bit_and-le_fuel : (n a m : ℕ) → a ≤ n → bit_and a m ≤ m
bit_and-le_fuel n zero m h = omega (arith, bit_and-bitwise 0 m)
bit_and-le_fuel zero (suc a) m h = absurd (omega arith)
bit_and-le_fuel (suc n) (suc a) m h =
    omega (arith, bit_and_halves (suc a) m, bit_and-le_fuel n (suc a / 2) (m / 2) (omega arith))

bit_and-le : (a m : ℕ) → bit_and a m ≤ m
bit_and-le a m = bit_and-le_fuel a a m (omega arith)

bit_and-twice_fuel : (n a m : ℕ) → a ≤ n → bit_and (bit_and a m) m ≡ bit_and a m
bit_and-twice_fuel n zero m h = rw (bit_and-bitwise 0 m, bit_and-bitwise 0 m)
bit_and-twice_fuel zero (suc a) m h = absurd (omega arith)
bit_and-twice_fuel (suc n) (suc a) m h =
    let half : bit_and (suc a) m / 2 ≡ bit_and (suc a / 2) (m / 2) =
      omega (arith, bit_and_halves (suc a) m) in
    omega (
      arith,
      bit_and_halves (bit_and (suc a) m) m,
      bit_and_halves (suc a) m,
      ap (λ y. bit_and y (m / 2)) half,
      bit_and-twice_fuel n (suc a / 2) (m / 2) (omega arith),
    )

bit_and-twice : (a m : ℕ) → bit_and (bit_and a m) m ≡ bit_and a m
bit_and-twice a m = bit_and-twice_fuel a a m (omega arith)

pub home-le : (m h : ℕ) → home m h ≤ m
unfolding home
home-le m h = bit_and-le h m

pub step-le : (m i d : ℕ) → step m i d ≤ m
unfolding step
step-le m i d = bit_and-le _ m

-- A cell of the table is at distance 0 of itself.
pub step-home : (m h : ℕ) → m < u32_mod → step m (home m h) 0 ≡ home m h
unfolding home step
step-home m h lt = ap (λ y. bit_and y m) (omega (arith, bit_and-le h m)) ∙ bit_and-twice h m

pub step-step : (m i d : ℕ) → m < u32_mod → step m (step m i d) 0 ≡ step m i d
unfolding step
step-step m i d lt =
    ap (λ y. bit_and y m) (omega (arith, bit_and-le ((i + d) % u32_mod) m)) ∙ bit_and-twice _ m
