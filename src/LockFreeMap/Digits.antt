-- ===== src/LockFreeMap/Digits.antt =====
-- Binary operations digit by digit, for the masks and shifts of recorder/src/main/cpp/concurrent_map.h.
use Prim.Native.Nat.{
  digits, bitwise, min, max, bit_and, bit_or, bit_and-bitwise, bit_or-bitwise, bit_xor,
  bit_xor-bitwise, differ,
}
use fk_prof.Prelude.{ℕ, zero, suc, ◌+◌, ◌*◌, ◌/◌, ◌%◌, ◌≤◌, ◌≡◌, refl, sym, ap, ◌∙◌, arith, dec_lt}

module _ (last : ℕ → ℕ) (on_digits : ℕ → ℕ → ℕ) where
  -- One count more than there are digits, and any more.
  spare_count :
      (n x y : ℕ) → x ≤ n → digits last on_digits (suc n) x y ≡ digits last on_digits n x y
  spare_count zero zero y le = refl
  spare_count zero (suc x) y le = absurd (omega arith)
  spare_count (suc n) zero y le = refl
  spare_count (suc n) (suc x) y le =
      ap (λ r. r * 2 + on_digits (suc x % 2) (y % 2))
        (spare_count n (suc x / 2) (y / 2) (omega arith))

  settled : (n x y : ℕ) → x ≤ n → digits last on_digits n x y ≡ bitwise last on_digits x y
  settled zero x y le = ap (λ k. digits last on_digits k x y) {x = 0} {y = x} (omega arith)
  settled (suc n) x y le = elim (dec_lt n x) [
    | yes l ↦ ap (λ k. digits last on_digits k x y) {x = suc n} {y = x} (omega arith)
    | no l ↦ spare_count n x y (omega arith) ∙ settled n x y (omega arith)
  ]

  -- The lowest digit and the others.
  bitwise-suc :
      (x y : ℕ)
      → bitwise last on_digits (suc x) y
        ≡ bitwise last on_digits (suc x / 2) (y / 2) * 2 + on_digits (suc x % 2) (y % 2)
  bitwise-suc x y =
      ap (λ r. r * 2 + on_digits (suc x % 2) (y % 2)) (settled x (suc x / 2) (y / 2) (omega arith))

pub bit_and_halves : (x y : ℕ) → bit_and x y ≡ bit_and (x / 2) (y / 2) * 2 + min (x % 2) (y % 2)
bit_and_halves zero y = omega (arith, bit_and-bitwise 0 y, bit_and-bitwise 0 (y / 2))
bit_and_halves (suc x) y =
    bit_and-bitwise (suc x) y
    ∙ bitwise-suc (λ d. 0) min x y
    ∙ sym (ap (λ r. r * 2 + min (suc x % 2) (y % 2)) (bit_and-bitwise (suc x / 2) (y / 2)))

pub bit_or_halves : (x y : ℕ) → bit_or x y ≡ bit_or (x / 2) (y / 2) * 2 + max (x % 2) (y % 2)
bit_or_halves zero y = omega (arith, bit_or-bitwise 0 y, bit_or-bitwise 0 (y / 2))
bit_or_halves (suc x) y =
    bit_or-bitwise (suc x) y
    ∙ bitwise-suc (λ d. d) max x y
    ∙ sym (ap (λ r. r * 2 + max (suc x % 2) (y % 2)) (bit_or-bitwise (suc x / 2) (y / 2)))

pub bit_xor_halves : (x y : ℕ) → bit_xor x y ≡ bit_xor (x / 2) (y / 2) * 2 + differ (x % 2) (y % 2)
bit_xor_halves zero y = omega (arith, bit_xor-bitwise 0 y, bit_xor-bitwise 0 (y / 2))
bit_xor_halves (suc x) y =
    bit_xor-bitwise (suc x) y
    ∙ bitwise-suc (λ d. d) differ x y
    ∙ sym (ap (λ r. r * 2 + differ (suc x % 2) (y % 2)) (bit_xor-bitwise (suc x / 2) (y / 2)))
