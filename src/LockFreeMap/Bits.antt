-- ===== src/LockFreeMap/Bits.antt =====
-- The bits of a number, of its halves and of `|`, for nearestPow2 (recorder/src/main/cpp/concurrent_map.h).
use Prim.Native.Nat.{bit_or}
use fk_prof.LockFreeMap.Digits.{bit_or_halves}
use fk_prof.Prelude.{ℕ, zero, suc, ◌+◌, ◌/◌, ◌%◌, ◌^◌, ◌≤◌, ◌<◌, ◌≡◌, sym, ap, ◌∙◌, arith}

-- Bit i of x, and x without its k lowest bits.
abbrev pub bit : ℕ → ℕ → ℕ
bit zero x = x % 2
bit (suc i) x = bit i (x / 2)

abbrev pub halves : ℕ → ℕ → ℕ
halves zero x = x
halves (suc k) x = halves k (x / 2)

pub bit-halves : (k i x : ℕ) → bit i (halves k x) ≡ bit (k + i) x
bit-halves zero i x = ap (λ j. bit j x) {x = i} {y = 0 + i} (omega arith)
bit-halves (suc k) i x =
    bit-halves k i (x / 2) ∙ sym (ap (λ j. bit j x) {x = suc k + i} {y = suc (k + i)} (omega arith))

bit_or-half : (a b : ℕ) → bit_or a b / 2 ≡ bit_or (a / 2) (b / 2)
bit_or-half a b = omega (arith, bit_or_halves a b)

pub bit-bit_or_left : (i a b : ℕ) → bit i a ≡ 1 → bit i (bit_or a b) ≡ 1
bit-bit_or_left zero a b e = omega (arith, bit_or_halves a b)
bit-bit_or_left (suc i) a b e = ap (bit i) (bit_or-half a b) ∙ bit-bit_or_left i (a / 2) (b / 2) e

pub bit-bit_or_right : (i a b : ℕ) → bit i b ≡ 1 → bit i (bit_or a b) ≡ 1
bit-bit_or_right zero a b e = omega (arith, bit_or_halves a b)
bit-bit_or_right (suc i) a b e = ap (bit i) (bit_or-half a b) ∙ bit-bit_or_right i (a / 2) (b / 2) e

pub bit_or-lt : (n a b : ℕ) → a < 2 ^ n → b < 2 ^ n → bit_or a b < 2 ^ n
bit_or-lt zero zero zero p q = omega arith
bit_or-lt zero (suc a) b p q = absurd (omega arith)
bit_or-lt zero zero (suc b) p q = absurd (omega arith)
bit_or-lt (suc n) a b p q =
    omega (arith, bit_or_halves a b, bit_or-lt n (a / 2) (b / 2) (omega arith) (omega arith))

pub bit_top : (k y : ℕ) → 2 ^ k ≤ y → y < 2 ^ suc k → bit k y ≡ 1
bit_top zero y p q = omega arith
bit_top (suc k) y p q = bit_top k (y / 2) (omega arith) (omega arith)

pub all_ones : (k z : ℕ) → ((i : ℕ) → i ≤ k → bit i z ≡ 1) → z < 2 ^ suc k → z + 1 ≡ 2 ^ suc k
all_ones zero z h lt = omega (arith, h 0 (omega arith))
all_ones (suc k) z h lt =
    omega
      (arith, h 0 (omega arith), all_ones k (z / 2) (λ i le. h (suc i) (omega arith)) (omega arith))
