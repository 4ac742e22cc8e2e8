-- ===== src/Agent/Decimal.antt =====
-- Numbers in decimal, as atoi of recorder/src/main/cpp/agent.cpp reads them.
use fk_prof.Prelude.{
  ℕ, zero, suc, ◌+◌, ◌*◌, ◌/◌, ◌%◌, ◌<◌, ◌≤◌, ◌≡◌, ◌∷◌, ltb, if◌then◌else◌, arith, dec_lt, refl,
  ◌∙◌, ap, sym,
}
use fk_prof.Prelude.Int.{ℤ, pos, negsuc}
use fk_prof.Agent.{Text, strchr, is_digit, is_space, atoi, atoi_digits, atoi_signed, negate}

-- The digits of n, at most `fuel` of them, before what follows.
abbrev pub decimal : ℕ → ℕ → Text → Text
decimal zero n rest = rest
decimal (suc fuel) n rest =
    if ltb n 10 then (48 + n) ∷ rest else decimal fuel (n / 10) ((48 + n % 10) ∷ rest)

abbrev pub print_int : ℤ → Text → Text
print_int (pos n) rest = decimal (suc n) n rest
print_int (negsuc n) rest = 45 ∷ decimal (suc (suc n)) (suc n) rest

-- What follows a number does not start with a digit.
abbrev pub NoDigit : Text → Type 0
NoDigit rest = (n : ℕ) → atoi_digits n rest ≡ n

atoi_digits-cons :
    (n d : ℕ) (rest : Text)
    → d < 10
    → atoi_digits n ((48 + d) ∷ rest) ≡ atoi_digits (n * 10 + d) rest
unfolding atoi_digits is_digit
atoi_digits-cons n d rest lt = ground arith

decimal-small : (fuel n : ℕ) (rest : Text) → n < 10 → decimal (suc fuel) n rest ≡ (48 + n) ∷ rest
decimal-small fuel n rest lt = ground arith

decimal-large :
    (fuel n : ℕ) (rest : Text)
    → 10 ≤ n
    → decimal (suc fuel) n rest ≡ decimal fuel (n / 10) ((48 + n % 10) ∷ rest)
decimal-large fuel n rest le = ground arith

pub atoi_digits-decimal :
    (fuel n : ℕ) (rest : Text) → n < fuel → atoi_digits 0 (decimal fuel n rest) ≡ atoi_digits n rest
atoi_digits-decimal zero n rest lt = absurd (omega arith)
atoi_digits-decimal (suc fuel) n rest lt = elim (dec_lt n 10) [
  | yes l ↦
      ap (atoi_digits 0) (decimal-small fuel n rest l)
      ∙ atoi_digits-cons 0 n rest l
      ∙ ap (λ k. atoi_digits k rest) {x = 0 * 10 + n} {y = n} (omega arith)
  | no l ↦
      ap (atoi_digits 0) (decimal-large fuel n rest (omega arith))
      ∙ atoi_digits-decimal fuel (n / 10) ((48 + n % 10) ∷ rest) (omega arith)
      ∙ atoi_digits-cons (n / 10) (n % 10) rest (omega arith)
      ∙ ap (λ k. atoi_digits k rest) {x = n / 10 * 10 + n % 10} {y = n} (omega arith)
]

strchr-decimal :
    (c fuel n : ℕ) (rest : Text) → c < 48 → strchr c (decimal fuel n rest) ≡ strchr c rest
unfolding strchr
strchr-decimal c zero n rest lt = refl
strchr-decimal c (suc fuel) n rest lt =
    ground (arith, strchr-decimal c fuel (n / 10) ((48 + n % 10) ∷ rest) lt)

-- A number starts with a digit.
pub decimal-head :
    (fuel n : ℕ) (rest : Text)
    → n < fuel
    → (d : ℕ) × (more : Text) × (d < 10) × (decimal fuel n rest ≡ (48 + d) ∷ more)
decimal-head zero n rest lt = absurd (omega arith)
decimal-head (suc fuel) n rest lt = elim (dec_lt n 10) [
  | yes l ↦ (n, rest, l, decimal-small fuel n rest l)
  | no l ↦
      let (d, more, lt', e) = decimal-head fuel (n / 10) ((48 + n % 10) ∷ rest) (omega arith) in
      (d, more, lt', decimal-large fuel n rest (omega arith) ∙ e)
]

atoi-digit :
    (d : ℕ) (more : Text) → d < 10 → atoi ((48 + d) ∷ more) ≡ pos (atoi_digits 0 ((48 + d) ∷ more))
unfolding atoi atoi_signed is_space
atoi-digit d more lt = ground arith

atoi-decimal :
    (fuel n : ℕ) (rest : Text) → n < fuel → NoDigit rest → atoi (decimal fuel n rest) ≡ pos n
atoi-decimal fuel n rest lt h =
    let (d, more, l, e) = decimal-head fuel n rest lt in
    ap atoi e
    ∙ atoi-digit d more l
    ∙ ap (λ s. pos (atoi_digits 0 s)) (sym e)
    ∙ ap pos (atoi_digits-decimal fuel n rest lt ∙ h n)

-- atoi reads back what is printed.
pub atoi-print_int : (z : ℤ) (rest : Text) → NoDigit rest → atoi (print_int z rest) ≡ z
unfolding atoi atoi_signed is_space
atoi-print_int (pos n) rest h = atoi-decimal (suc n) n rest (omega arith) h
atoi-print_int (negsuc n) rest h =
    ap negate (atoi_digits-decimal (suc (suc n)) (suc n) rest (omega arith) ∙ h (suc n))

pub strchr-print_int :
    (c : ℕ) (z : ℤ) (rest : Text) → c < 45 → strchr c (print_int z rest) ≡ strchr c rest
unfolding strchr
strchr-print_int c (pos n) rest lt = strchr-decimal c (suc n) n rest (omega arith)
strchr-print_int c (negsuc n) rest lt =
    ground (arith, strchr-decimal c (suc (suc n)) (suc n) rest (omega arith))
