-- ===== src/ThreadMap/Hasher.antt =====
-- PointerHasher (recorder/src/main/cpp/thread_map.h). The words are bit patterns of 64 bits.
use Prim.Native.Nat.{bit_xor, differ}
use fk_prof.Prelude.{
  ℕ, zero, suc, ◌+◌, ◌-◌, ◌*◌, ◌/◌, ◌%◌, ◌^◌, ◌<◌, ◌≡◌, refl, ap, ◌∙◌, ltb, if◌then◌else◌, arith,
}
use fk_prof.LockFreeMap.Digits.{bit_xor_halves}

abbrev u64_mod : ℕ
u64_mod = 2 ^ 64

-- `v >> k` on an int64_t keeps the sign: the complement of a negative number is shifted.
unfoldable pub shift_right : ℕ → ℕ → ℕ
shift_right k v = if ltb v (2 ^ 63) then v / 2 ^ k else u64_mod - 1 - (u64_mod - 1 - v) / 2 ^ k

unfoldable pub shift_left : ℕ → ℕ → ℕ
shift_left k v = v * 2 ^ k % u64_mod

-- The first three lines; `sizeof` is unsigned, and so is the division.
unfoldable pub multiply : ℕ → ℕ → ℕ
multiply size p = (p / size * 3935559000370003845 + 2691343689449507681) % u64_mod

unfoldable pub mix : ℕ → ℕ
unfolding shift_right shift_left
mix v = let v₁ = bit_xor v (shift_right 21 v) in bit_xor v₁ (shift_left 37 v₁)

unfoldable pub scramble : ℕ → ℕ
unfolding shift_right shift_left
scramble v₁ =
    let v₂ = v₁ * 4768777513237032717 % u64_mod in
    let v₃ = bit_xor v₂ (shift_left 20 v₂) in
    let v₄ = bit_xor v₃ (shift_right 41 v₃) in bit_xor v₄ (shift_left 5 v₄)

unfoldable pub finish : ℕ → ℕ
unfolding shift_right scramble
finish v = scramble (bit_xor v (shift_right 4 v))

-- The hash of a pointer to objects of that size.
unfoldable pub hash : ℕ → ℕ → ℕ
unfolding multiply mix finish
hash size p = finish (mix (multiply size p))

differ-flip : (a b : ℕ) → a < 2 → b < 2 → differ (1 - a) (1 - b) ≡ differ a b
differ-flip zero zero p q = refl
differ-flip zero (suc zero) p q = refl
differ-flip (suc zero) zero p q = refl
differ-flip (suc zero) (suc zero) p q = refl
differ-flip (suc (suc a)) b p q = absurd (omega arith)
differ-flip a (suc (suc b)) p q = absurd (omega arith)

-- Two complements differ where the numbers do.
bit_xor_flip :
    (w x y : ℕ) → x < 2 ^ w → y < 2 ^ w → bit_xor (2 ^ w - 1 - x) (2 ^ w - 1 - y) ≡ bit_xor x y
bit_xor_flip zero zero zero p q = refl
bit_xor_flip zero (suc x) y p q = absurd (omega arith)
bit_xor_flip zero zero (suc y) p q = absurd (omega arith)
bit_xor_flip (suc w) x y p q =
    let half_x : (2 ^ suc w - 1 - x) / 2 ≡ 2 ^ w - 1 - x / 2 = omega arith in
    let half_y : (2 ^ suc w - 1 - y) / 2 ≡ 2 ^ w - 1 - y / 2 = omega arith in
    let last_x : (2 ^ suc w - 1 - x) % 2 ≡ 1 - x % 2 = omega arith in
    let last_y : (2 ^ suc w - 1 - y) % 2 ≡ 1 - y % 2 = omega arith in
    omega (
      arith,
      bit_xor_halves (2 ^ suc w - 1 - x) (2 ^ suc w - 1 - y),
      bit_xor_halves x y,
      ap (λ a. bit_xor a ((2 ^ suc w - 1 - y) / 2)) half_x
          ∙ ap (bit_xor (2 ^ w - 1 - x / 2)) half_y,
      ap (λ a. differ a ((2 ^ suc w - 1 - y) % 2)) last_x ∙ ap (differ (1 - x % 2)) last_y,
      bit_xor_flip w (x / 2) (y / 2) (omega arith) (omega arith),
      differ-flip (x % 2) (y % 2) (omega arith) (omega arith),
    )

shift_right-flip :
    (v : ℕ) → v < 2 ^ 64 → shift_right 4 (2 ^ 64 - 1 - v) ≡ 2 ^ 64 - 1 - shift_right 4 v
unfolding shift_right
shift_right-flip v lt = ground arith

shift_right-lt : (v : ℕ) → v < 2 ^ 64 → (shift_right 4 v < 2 ^ 64) × (shift_right 21 v < 2 ^ 64)
unfolding shift_right
shift_right-lt v lt = (ground arith, ground arith)

differ-lt : (a b : ℕ) → a < 2 → b < 2 → differ a b < 2
differ-lt zero b p q = q
differ-lt (suc zero) zero p q = p
differ-lt (suc zero) (suc zero) p q = omega arith
differ-lt (suc zero) (suc (suc b)) p q = absurd (omega arith)
differ-lt (suc (suc a)) b p q = absurd (omega arith)

bit_xor-lt : (w x y : ℕ) → x < 2 ^ w → y < 2 ^ w → bit_xor x y < 2 ^ w
bit_xor-lt zero zero zero p q = omega arith
bit_xor-lt zero (suc x) y p q = absurd (omega arith)
bit_xor-lt zero zero (suc y) p q = absurd (omega arith)
bit_xor-lt (suc w) x y p q = omega (
  arith,
  bit_xor_halves x y,
  bit_xor-lt w (x / 2) (y / 2) (omega arith) (omega arith),
  differ-lt (x % 2) (y % 2) (omega arith) (omega arith),
)

mix-lt : (v : ℕ) → v < 2 ^ 64 → mix v < 2 ^ 64
unfolding mix shift_left
mix-lt v lt =
    bit_xor-lt 64 _ _ (bit_xor-lt 64 v (shift_right 21 v) lt (shift_right-lt v lt).1) (omega arith)

multiply-lt : (size p : ℕ) → multiply size p < 2 ^ 64
unfolding multiply
multiply-lt size p = omega arith

finish-flip : (v : ℕ) → v < 2 ^ 64 → finish (2 ^ 64 - 1 - v) ≡ finish v
unfolding finish
finish-flip v lt = ap scramble (
    ap (bit_xor (2 ^ 64 - 1 - v)) (shift_right-flip v lt)
    ∙ bit_xor_flip 64 v (shift_right 4 v) lt (shift_right-lt v lt).0)

-- Two pointers whose words are complements of each other before the second shift to the right have the
-- same hash: that shift copies the sign, and the exclusive or takes it out of every bit.
pub hash_collides :
    (size p q : ℕ)
    → mix (multiply size q) ≡ 2 ^ 64 - 1 - mix (multiply size p)
    → hash size q ≡ hash size p
unfolding hash
hash_collides size p q e =
    ap finish e
    ∙ finish-flip (mix (multiply size p)) (mix-lt (multiply size p) (multiply-lt size p))
