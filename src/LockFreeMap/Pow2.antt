-- ===== src/LockFreeMap/Pow2.antt =====
-- nearestPow2 (recorder/src/main/cpp/concurrent_map.h): the power of two that the smeared number is
-- next to, and the size of a table.
use Prim.Native.Nat.{max, bit_or}
use fk_prof.Prelude.{
  ℕ, zero, suc, ◌+◌, ◌-◌, ◌*◌, ◌/◌, ◌%◌, ◌^◌, ◌≤◌, ◌<◌, ◌≡◌, refl, sym, ap, ◌∙◌, arith, dec_lt, ltb,
  if◌then◌else◌, ℕ_discrete,
}
use mathlib.Core.Path.{subst}
use fk_prof.Prelude.Word.{u32_mod, inc32, dec32}
use fk_prof.LockFreeMap.Defs.{smear, nearest_pow2, allocated_size, size_min}
use fk_prof.LockFreeMap.Bits.{
  bit, halves, bit-halves, bit-bit_or_left, bit-bit_or_right, bit_or-lt, bit_top, all_ones,
}

-- `z` has a one wherever y has one, or has one up to m - 1 places higher.
abbrev Covers : ℕ → ℕ → ℕ → Type 0
Covers m y z = (i j : ℕ) → j < m → bit (i + j) y ≡ 1 → bit i z ≡ 1

Covers-self : (y : ℕ) → Covers 1 y y
Covers-self y i j lt e = ap (λ a. bit a y) {x = i} {y = i + j} (omega arith) ∙ e

Covers-double : (m y z : ℕ) → Covers m y z → Covers (m + m) y (bit_or z (halves m z))
Covers-double m y z c i j lt e = elim (dec_lt j m) [
  | yes l ↦ bit-bit_or_left i z (halves m z) (c i j l e)
  | no l ↦ bit-bit_or_right i z (halves m z) (
      bit-halves m i z
      ∙ c (m + i) (j - m) (omega arith)
          (ap (λ a. bit a y) {x = m + i + (j - m)} {y = i + j} (omega arith) ∙ e))
]

halves-lt : (m n z : ℕ) → z < 2 ^ n → halves m z < 2 ^ n
halves-lt zero n z lt = lt
halves-lt (suc m) n z lt = halves-lt m n (z / 2) (omega arith)

halves_2 : (z : ℕ) → halves 2 z ≡ z / 2 ^ 2
halves_2 z = omega arith

halves_4 : (z : ℕ) → halves 4 z ≡ z / 2 ^ 4
halves_4 z = omega arith

halves_8 : (z : ℕ) → halves 8 z ≡ z / 2 ^ 8
halves_8 z = omega arith

halves_16 : (z : ℕ) → halves 16 z ≡ z / 2 ^ 16
halves_16 z = omega arith

smear-Covers : (m y z : ℕ) → halves m z ≡ z / 2 ^ m → Covers m y z → Covers (m + m) y (smear m z)
smear-Covers m y z e c = subst (λ a. Covers (m + m) y (bit_or z a)) e (Covers-double m y z c)

smear-lt : (m n z : ℕ) → halves m z ≡ z / 2 ^ m → z < 2 ^ n → smear m z < 2 ^ n
smear-lt m n z e lt = bit_or-lt n z (z / 2 ^ m) lt (subst (λ a. a < 2 ^ n) e (halves-lt m n z lt))

abbrev smeared : ℕ → ℕ
smeared y = smear 16 (smear 8 (smear 4 (smear 2 (smear 1 y))))

smeared-Covers : (y : ℕ) → Covers 32 y (smeared y)
smeared-Covers y = smear-Covers 16 y _ (halves_16 _) (
    smear-Covers 8 y _ (halves_8 _) (
      smear-Covers 4 y _ (halves_4 _)
        (smear-Covers 2 y _ (halves_2 _) (smear-Covers 1 y y (omega arith) (Covers-self y)))))

smeared-lt : (n y : ℕ) → y < 2 ^ n → smeared y < 2 ^ n
smeared-lt n y lt = smear-lt 16 n _ (halves_16 _) (
    smear-lt 8 n _ (halves_8 _)
      (smear-lt 4 n _ (halves_4 _) (smear-lt 2 n _ (halves_2 _) (smear-lt 1 n y (omega arith) lt))))

inc_ones : (z n : ℕ) → z + 1 ≡ n → inc32 z ≡ n % 2 ^ 32
inc_ones z n e = omega arith

pub pow_pos : (n : ℕ) → 1 ≤ 2 ^ n
pow_pos zero = omega arith
pow_pos (suc n) = omega (arith, pow_pos n)

pub pow_mono : (n k : ℕ) → k ≤ n → 2 ^ k ≤ 2 ^ n
pow_mono n zero le = pow_pos n
pow_mono zero (suc k) le = absurd (omega arith)
pow_mono (suc n) (suc k) le = omega (arith, pow_mono n k (omega arith))

-- The power that a size above 1 is under.
pub under_pow : (n x : ℕ) → 1 < x → x ≤ 2 ^ n → (k : ℕ) × (k < n) × (2 ^ k < x) × (x ≤ 2 ^ suc k)
under_pow zero x lt le = absurd (omega arith)
under_pow (suc n) x lt le = elim (dec_lt (2 ^ n) x) [
  | yes l ↦ (n, omega arith, l, le)
  | no l ↦ let (k, a, b, c) = under_pow n x lt (omega arith) in (k, omega arith, b, c)
]

near_pow2 :
    (k x : ℕ)
    → k < 32
    → 2 ^ k < x
    → x ≤ 2 ^ suc k
    → x < 2 ^ 32
    → nearest_pow2 x ≡ 2 ^ suc k % 2 ^ 32
unfolding nearest_pow2
near_pow2 k x lt p q fits =
    let bound = pow_mono 32 (suc k) (omega arith) in
    let less : dec32 x ≡ x - 1 = omega arith in
    let top = bit_top k (x - 1) (omega arith) (omega arith) in
    let ones =
      all_ones k (smeared (x - 1))
        (λ i le.
          smeared-Covers (x - 1) i (k - i) (omega arith)
            (ap (λ a. bit a (x - 1)) {x = i + (k - i)} {y = k} (omega arith) ∙ top))
        (smeared-lt (suc k) (x - 1) (omega arith)) in
    ap (λ y. inc32 (smeared y)) less ∙ inc_ones (smeared (x - 1)) (2 ^ suc k) ones

-- For a size above 2 ^ k, up to 2 ^ (k + 1) and up to 2 ^ 30, nearestPow2 gives 2 ^ (k + 1): the least
-- power of two that is not below the size.
pub nearest_pow2_lem : (k x : ℕ) → k < 30 → 2 ^ k < x → x ≤ 2 ^ suc k → nearest_pow2 x ≡ 2 ^ suc k
nearest_pow2_lem k x lt p q = omega (
  arith,
  pow_mono 30 (suc k) (omega arith),
  near_pow2 k x (omega arith) p q (omega (arith, pow_mono 30 (suc k) (omega arith))),
)

pow_32 : (k : ℕ) → 2 ^ suc (suc (suc (suc (suc k)))) ≡ 32 * 2 ^ k
pow_32 k = omega arith

-- What the constructor of the table makes of a power.
abbrev clamp : ℕ → ℕ
clamp x = if ltb x (2 ^ 31) then max x size_min else size_min

Allocated : ℕ → Type 0
Allocated a = (j : ℕ) × (j ≤ 25) × (a ≡ 32 * 2 ^ j)

clamp_small : (x : ℕ) → x ≤ 32 → Allocated (clamp x)
unfolding Allocated
clamp_small x le = (0, omega arith, ground arith)

clamp_power : (k : ℕ) → k < 32 → Allocated (clamp (2 ^ suc k % 2 ^ 32))
unfolding Allocated
clamp_power k lt = elim (dec_lt k 5) [
  | yes l ↦ clamp_small _ (omega (arith, pow_mono 5 (suc k) (omega arith)))
  | no l ↦ elim (dec_lt k 30) [
    | yes m ↦
        let same : 2 ^ suc k ≡ 32 * 2 ^ (k - 4) =
          ap (λ j. 2 ^ j) {x = suc k} {y = suc (suc (suc (suc (suc (k - 4)))))} (omega arith)
          ∙ pow_32 (k - 4) in
        (
          k - 4,
          omega arith,
          ground (arith, same, pow_mono 30 (suc k) (omega arith), pow_mono (suc k) 5 (omega arith)),
        )
    | no m ↦ elim (ℕ_discrete k 30) [
      | yes q ↦ subst (λ j. Allocated (clamp (2 ^ suc j % 2 ^ 32))) (sym q) (0, omega arith, refl)
      | no q ↦
          subst (λ j. Allocated (clamp (2 ^ suc j % 2 ^ 32))) {x = 31} {y = k} (omega arith)
            (0, omega arith, refl)
    ]
  ]
]

small_sizes : (x : ℕ) → x ≤ 1 → nearest_pow2 x ≤ 1
unfolding nearest_pow2
small_sizes zero le = omega arith
small_sizes (suc zero) le = omega arith
small_sizes (suc (suc x)) le = absurd (omega arith)

-- Whatever size is asked for, a table has 32 * 2 ^ j cells, for a j of at most 25.
pub allocated_size_lem : (n : ℕ) → (j : ℕ) × (j ≤ 25) × (allocated_size n ≡ 32 * 2 ^ j)
unfolding allocated_size Allocated
allocated_size_lem n = elim (dec_lt 1 (n % u32_mod)) [
  | no l ↦ clamp_small _ (omega (arith, small_sizes (n % u32_mod) (omega arith)))
  | yes l ↦
      let (k, a, b, c) = under_pow 32 (n % u32_mod) l (omega arith) in
      subst (λ x. Allocated (clamp x)) (sym (near_pow2 k (n % u32_mod) a b c (omega arith)))
        (clamp_power k a)
]
