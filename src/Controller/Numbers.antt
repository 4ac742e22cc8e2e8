-- ===== src/Controller/Numbers.antt =====
-- A printed number, as the istringstream of a command reads it (recorder/src/main/cpp/controller.cpp).
use fk_prof.Prelude.{
  ℕ, zero, suc, ◌+◌, ◌/◌, ◌%◌, ◌^◌, ◌<◌, ◌≡◌, false, ◌∷◌, arith, refl, ap, sym, ◌∙◌,
}
use fk_prof.Prelude.Int.{ℤ, pos}
use fk_prof.Agent.{Text, is_space, is_digit, atoi_digits}
use fk_prof.Agent.Decimal.{decimal, decimal-head, atoi_digits-decimal, NoDigit}
use fk_prof.Controller.Input.{skip_ws, after_digits, nearest_int, number_of, read_int}

after_digits-decimal :
    (fuel n : ℕ) (rest : Text) → after_digits (decimal fuel n rest) ≡ after_digits rest
unfolding after_digits is_digit
after_digits-decimal zero n rest = refl
after_digits-decimal (suc fuel) n rest =
    ground (arith, after_digits-decimal fuel (n / 10) ((48 + n % 10) ∷ rest))

skip_ws-digit : (d : ℕ) (s : Text) → d < 10 → skip_ws ((48 + d) ∷ s) ≡ (48 + d) ∷ s
unfolding skip_ws is_space
skip_ws-digit d s lt = ground arith

number_of-digit :
    (before : ℤ) (d : ℕ) (s : Text)
    → d < 10
    → number_of before ((48 + d) ∷ s) ≡ (
      nearest_int (pos (atoi_digits 0 ((48 + d) ∷ s))),
      record { rest = after_digits ((48 + d) ∷ s); failed = false },
    )
unfolding is_digit
number_of-digit before d s lt = ground arith

nearest_int-small : (n : ℕ) → n < 2 ^ 31 → nearest_int (pos n) ≡ pos n
unfolding nearest_int
nearest_int-small n lt = ground arith

-- After a space, what follows is read as the number.
pub read_int-decimal :
    (before : ℤ) (n : ℕ) (rest : Text)
    → n < 2 ^ 31
    → NoDigit rest
    → after_digits rest ≡ rest
    → read_int before (record { rest = 32 ∷ decimal (suc n) n rest; failed = false })
      ≡ (pos n, record { rest = rest; failed = false })
unfolding read_int skip_ws is_space
read_int-decimal before n rest lt h e =
    let (d, more, l, q) = decimal-head (suc n) n rest (omega arith) in
    ap (λ s. number_of before (skip_ws s)) q
    ∙ ap (number_of before) (skip_ws-digit d more l)
    ∙ number_of-digit before d more l
    ∙ ap
        (λ s.
          (nearest_int (pos (atoi_digits 0 s)), record { rest = after_digits s; failed = false }))
        (sym q)
    ∙ ap
        (λ k. (
          nearest_int (pos k),
          record { rest = after_digits (decimal (suc n) n rest); failed = false },
        ))
        (atoi_digits-decimal (suc n) n rest (omega arith) ∙ h n)
    ∙ ap (λ z. (z, record { rest = after_digits (decimal (suc n) n rest); failed = false }))
        (nearest_int-small n lt)
    ∙ ap (λ s. (pos n, record { rest = s; failed = false }))
        (after_digits-decimal (suc n) n rest ∙ e)
