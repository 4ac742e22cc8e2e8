-- ===== src/Controller/Replies.antt =====
-- What the controller (recorder/src/main/cpp/controller.cpp) replies after a setting.
use fk_prof.Prelude.{
  ℕ, zero, suc, ◌<◌, ◌≤◌, ◌≡◌, Bool, true, false, Option, some, List, [], ◌∷◌, ◌++◌, length, take,
  length-append, arith, refl, ◌^◌, ap, ◌∙◌, if◌then◌else◌,
}
use fk_prof.Prelude.Int.{ℤ, pos}
use fk_prof.Agent.{Text, codes, atoi_digits, is_digit, is_space, starts_with}
use fk_prof.Controller.Input.{read_word, read_int, skip_ws, word, after_word, after_digits}
use fk_prof.Controller.Numbers.{read_int-decimal}
use fk_prof.Agent.Decimal.{print_int, NoDigit}
use fk_prof.Profiler.Pool.{◌>>=◌}
use fk_prof.Profiler.Defs.{
  Profiler, is_running, set_file_path, set_sampling_interval, set_max_frames_to_capture,
  unless_running, frames_or_default, put_frames, put_bounds, put_path, lesser, greater,
  interval_or_default,
}
use fk_prof.Controller.{
  obey, same_text, get_sampling_interval_min, get_sampling_interval_max, get_file_path, status_word,
  status_reply, report_status, get_profiler_param, set_profiler_param,
}

take_all : (n : ℕ) (s : Text) → length s ≤ n → take n s ≡ s
take_all zero [] le = refl
take_all zero (x ∷ s) le = absurd (omega arith)
take_all (suc n) [] le = refl
take_all (suc n) (x ∷ s) le = ap (λ r. x ∷ r) (take_all n s (omega arith))

whole :
    (on : Bool) (path : Text)
    → status_reply on path ≡ status_word on ++ (codes "," ++ (path ++ (10 ∷ [])))
unfolding status_reply
whole true path = take_all _ _ (omega (arith, length-append path (10 ∷ [])))
whole false path = take_all _ _ (omega (arith, length-append path (10 ∷ [])))

-- The buffer of reportStatus is large enough: for any path the reply is whether sampling is running,
-- a comma, the path that the getter gives, and a newline, with nothing cut off.
pub report_status_lem :
    (p : Profiler) (on : Bool) (path : Text)
    → is_running p ≡ some on
    → get_file_path p ≡ some path
    → report_status p ≡ some (status_word on ++ (codes "," ++ (path ++ (10 ∷ []))))
unfolding report_status
report_status_lem p on path r g =
    ap (λ o. o >>= (λ b. get_file_path p >>= (λ s. some (status_reply b s)))) r
    ∙ ap (λ o. o >>= (λ s. some (status_reply on s))) g
    ∙ ap some (whole on path)

unless_running-off :
    (body : Profiler → Option Profiler) (p : Profiler)
    → is_running p ≡ some false
    → unless_running body p ≡ body p
unfolding unless_running
unless_running-off body p e = rw (e, unless_running) refl

unless_running-on :
    (body : Profiler → Option Profiler) (p : Profiler)
    → is_running p ≡ some true
    → unless_running body p ≡ some p
unfolding unless_running
unless_running-on body p e = rw (e, unless_running) refl

end-NoDigit : NoDigit []
unfolding atoi_digits
end-NoDigit n = refl

space-NoDigit : (s : Text) → NoDigit (32 ∷ s)
unfolding atoi_digits is_digit
space-NoDigit s n = refl

module _ (allocate : List ℕ → ℕ) (rand : ℕ → ℕ) (a b : ℤ) (p : Profiler) where
  numeric_frames :
      (n : ℕ)
      → n < 2 ^ 31
      → set_profiler_param allocate rand a b (codes "maxFrames " ++ print_int (pos n) []) p
        ≡ set_max_frames_to_capture (pos n) p
  unfolding set_profiler_param obey read_word skip_ws word after_word is_space after_digits
  numeric_frames n lt =
      ap (λ r. set_max_frames_to_capture r.0 p) (read_int-decimal a n [] lt end-NoDigit refl)

  numeric_bounds :
      (n k : ℕ)
      → n < 2 ^ 31
      → k < 2 ^ 31
      → set_profiler_param allocate rand a b
          (codes "interval " ++ print_int (pos n) (32 ∷ print_int (pos k) []))
          p
        ≡ set_sampling_interval (pos n) (pos k) p
  unfolding set_profiler_param obey read_word skip_ws word after_word is_space after_digits is_digit
  numeric_bounds n k lt lt' =
      ap (λ r. set_sampling_interval r.0 (read_int b r.1).0 p)
        (read_int-decimal a n (32 ∷ print_int (pos k) []) lt (space-NoDigit (print_int (pos k) []))
          refl)
      ∙ ap (λ r. set_sampling_interval (pos n) r.0 p) (read_int-decimal b k [] lt' end-NoDigit refl)

  -- On a profiler that is not running, the frame limit that `set maxFrames` sets, between 1 and 2047, is
  -- what `get maxFrames` replies; and of two intervals from 1 to 2 ^ 31 - 1, in order, that `set interval`
  -- sets, `get interval` replies both.
  pub set-get :
      (n lo hi : ℕ)
      → is_running p ≡ some false
      → 1 ≤ n
      → n < 2048
      → 1 ≤ lo
      → lo ≤ hi
      → hi < 2 ^ 31
      → ((p' : Profiler) × (set_profiler_param allocate rand a b
              (codes "maxFrames " ++ print_int (pos n) [])
              p
            ≡ some p')
          × (get_profiler_param (codes "maxFrames") p' ≡ some (some (print_int (pos n) (10 ∷ [])))))
        × ((p' : Profiler) × (set_profiler_param allocate rand a b
                (codes "interval " ++ print_int (pos lo) (32 ∷ print_int (pos hi) []))
                p
              ≡ some p')
            × (get_profiler_param (codes "interval") p'
                ≡ some (some (print_int (pos lo) (32 ∷ print_int (pos hi) (10 ∷ []))))))
  unfolding get_profiler_param set_max_frames_to_capture set_sampling_interval starts_with
  set-get n lo hi off n₁ n₂ l₁ l₂ l₃ =
      let frames : frames_or_default (pos n) ≡ n = ground arith in
      let low : lesser (interval_or_default (pos lo)) (interval_or_default (pos hi)) ≡ lo =
        ground arith in
      let high : greater (interval_or_default (pos lo)) (interval_or_default (pos hi)) ≡ hi =
        ground arith in
      (
        (
          _,
          numeric_frames n (omega arith) ∙ unless_running-off (put_frames (pos n)) p off,
          ap (λ k. some (some (print_int (pos k) (10 ∷ [])))) frames,
        ),
        (
          _,
          numeric_bounds lo hi (omega arith) l₃
              ∙ unless_running-off (put_bounds (pos lo) (pos hi)) p off,
          ap
                (λ k. some (
                  some (
                    print_int (pos k) (
                      32
                      ∷ print_int
                          (pos
                            (greater (interval_or_default (pos lo)) (interval_or_default (pos hi))))
                          (10 ∷ [])))))
                low
              ∙ ap (λ k. some (some (print_int (pos lo) (32 ∷ print_int (pos k) (10 ∷ []))))) high,
        ),
      )

  if_same :
      (t : Bool) (x y : Option Profiler) → x ≡ some p → y ≡ some p → (if t then x else y) ≡ some p
  if_same true x y e e' = e
  if_same false x y e e' = e'

  obey-running :
      (command s : Text) (n k : ℤ)
      → is_running p ≡ some true
      → obey allocate rand command s n k p ≡ some p
  unfolding obey set_file_path set_max_frames_to_capture set_sampling_interval
  obey-running command s n k on =
      let refused = λ (body : Profiler → Option Profiler). unless_running-on body p on in
      let lo = get_sampling_interval_min p in
      let hi = get_sampling_interval_max p in
      let e₅ = if_same (same_text command (codes "interval")) _ _ (refused (put_bounds n k)) refl in
      let e₄ = if_same (same_text command (codes "maxFrames")) _ _ (refused (put_frames n)) e₅ in
      let e₃ =
        if_same (same_text command (codes "intervalMax")) _ _ (refused (put_bounds lo n)) e₄ in
      let e₂ =
        if_same (same_text command (codes "intervalMin")) _ _ (refused (put_bounds n hi)) e₃ in
      if_same (same_text command (codes "logPath")) _ _ (refused (put_path allocate rand (some s)))
        e₂

  -- While the profiler is running no `set` changes it, whatever the text of the command.
  pub set_profiler_param-running :
      (desc : Text)
      → is_running p ≡ some true
      → set_profiler_param allocate rand a b desc p ≡ some p
  unfolding set_profiler_param
  set_profiler_param-running desc on =
      let (command, input) = read_word (record { rest = desc; failed = false }) in
      let (numeric₁, input₁) = read_int a input in
      obey-running command (read_word input).0 numeric₁ (read_int b input₁).0 on
