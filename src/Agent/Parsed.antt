-- ===== src/Agent/Parsed.antt =====
-- What parseArguments (recorder/src/main/cpp/agent.cpp) makes of options.
use fk_prof.Prelude.{
  ℕ, zero, suc, ◌-◌, ◌<◌, ◌≡◌, Option, none, some, List, [], ◌∷◌, ◌++◌, length, take, arith, refl,
  ap, ◌∙◌, length-append, not,
}
use fk_prof.Prelude.Int.{ℤ, pos, eqb_ℤ}
use fk_prof.Agent.{
  Text, strchr, starts_with, atoi, is_digit, atoi_digits, ConfigurationOptions, safe_copy_string,
  assign, one_key, go_on, with_string, parse_keys, parse_arguments,
}
use fk_prof.Agent.Decimal.{print_int, NoDigit, atoi-print_int, strchr-print_int}
use fk_prof.Agent.Print.{
  Setting, interval_min, interval_max, interval, log_path, start_at, at_host, at_port, max_frames,
  IsPlain, plain_interval_min, plain_interval_max, plain_interval, plain_log_path, plain_start,
  plain_host, plain_port, plain_max_frames, AllPlain, one_plain, print_setting, ending, print_from,
  print_settings, apply_setting, apply_settings,
}

-- The comma after a setting.
abbrev comma : Option Text → Option Text
comma none = none
comma (some more) = some (44 ∷ more)

strchr-ending : (o : Option Text) → strchr 44 (ending o) ≡ comma o
unfolding strchr
strchr-ending none = refl
strchr-ending (some more) = refl

ending-NoDigit : (o : Option Text) → NoDigit (ending o)
unfolding atoi_digits is_digit
ending-NoDigit none n = refl
ending-NoDigit (some more) n = refl

strchr-append : (c : ℕ) (s rest : Text) → strchr c s ≡ none → strchr c (s ++ rest) ≡ strchr c rest
unfolding strchr
strchr-append c [] rest e = refl
strchr-append c (x ∷ s) rest e = ground (arith, strchr-append c s rest)

take-length : (s rest : Text) → take (length s) (s ++ rest) ≡ s
take-length [] rest = refl
take-length (x ∷ s) rest = ap (λ r. x ∷ r) (take-length s rest)

append-nil : (s : Text) → s ++ [] ≡ s
append-nil [] = refl
append-nil (x ∷ s) = ap (λ r. x ∷ r) (append-nil s)

safe_copy_string-append :
    (s : Text) (o : Option Text) → safe_copy_string (s ++ ending o) (comma o) ≡ some s
unfolding safe_copy_string
safe_copy_string-append s none = ap some (append-nil s)
safe_copy_string-append s (some more) =
    let all = length-append s (44 ∷ more) in
    let size : length (s ++ 44 ∷ more) - suc (length more) ≡ length s = omega (arith, all) in
    ground (arith, all, ap (λ n. take n (s ++ 44 ∷ more)) size ∙ take-length s (44 ∷ more))

-- The next comma, and the number before it.
int_comma : (z : ℤ) (o : Option Text) → strchr 44 (print_int z (ending o)) ≡ comma o
int_comma z o = strchr-print_int 44 z (ending o) (omega arith) ∙ strchr-ending o

int_value : (z : ℤ) (o : Option Text) → atoi (print_int z (ending o)) ≡ z
int_value z o = atoi-print_int z (ending o) (ending-NoDigit o)

text_comma : (s : Text) (o : Option Text) → strchr 44 s ≡ none → strchr 44 (s ++ ending o) ≡ comma o
text_comma s o e = strchr-append 44 s (ending o) e ∙ strchr-ending o

one_setting :
    (x : Setting) (o : Option Text) (c : ConfigurationOptions)
    → IsPlain x
    → (strchr 44 (print_setting x (ending o)) ≡ comma o)
      × (one_key (print_setting x (ending o)) (strchr 61 (print_setting x (ending o))) (comma o) c
          ≡ some (apply_setting x c))
unfolding strchr assign starts_with
one_setting (interval_min z) o c (plain_interval_min r) =
    (int_comma z o, ap (λ k. some (record c { sampling_interval_min = k })) (int_value z o))
one_setting (interval_max z) o c (plain_interval_max r) =
    (int_comma z o, ap (λ k. some (record c { sampling_interval_max = k })) (int_value z o))
one_setting (interval z) o c (plain_interval r) = (
  int_comma z o,
  ap (λ k. some (record c { sampling_interval_min = k; sampling_interval_max = k }))
      (int_value z o),
)
one_setting (log_path s) o c (plain_log_path e) = (
  text_comma s o e,
  ap (with_string (λ k. record c { log_file_path = k })) (safe_copy_string-append s o),
)
one_setting (start_at z) o c (plain_start r) =
    (int_comma z o, ap (λ k. some (record c { start = not (eqb_ℤ k (pos 0)) })) (int_value z o))
one_setting (at_host s) o c (plain_host e) =
    (text_comma s o e, ap (with_string (λ k. record c { host = k })) (safe_copy_string-append s o))
one_setting (at_port s) o c (plain_port e) =
    (text_comma s o e, ap (with_string (λ k. record c { port = k })) (safe_copy_string-append s o))
one_setting (max_frames z) o c (plain_max_frames r) =
    (int_comma z o, ap (λ k. some (record c { max_frames_to_capture = k })) (int_value z o))

pub shorter : (c : ℕ) (s r : Text) (x : ℕ) → strchr c s ≡ some (x ∷ r) → length r < length s
unfolding strchr
shorter c [] r x e = absurd (ground arith)
shorter c (y ∷ s) r x e = ground (arith, shorter c s r x)

abbrev step_of : Option ConfigurationOptions → Option Text → ℕ → Option ConfigurationOptions
step_of done next n = go_on done next (parse_keys n)

-- A round of the loop on a printed setting.
one_round :
    (n : ℕ) (x : Setting) (o : Option Text) (c : ConfigurationOptions)
    → IsPlain x
    → parse_keys (suc n) (print_setting x (ending o)) c
      ≡ step_of (some (apply_setting x c)) (comma o) n
unfolding parse_keys
one_round n x o c p =
    let (next, done) = one_setting x o c p in
    ap
      (λ q.
        step_of (one_key (print_setting x (ending o)) (strchr 61 (print_setting x (ending o))) q c)
          q n)
      next
    ∙ ap (λ d. step_of d (comma o) n) done

parse_keys-print :
    (n : ℕ) (x : Setting) (rest : List Setting) (c : ConfigurationOptions)
    → IsPlain x
    → AllPlain rest
    → length (print_from x rest) < n
    → parse_keys n (print_from x rest) c ≡ some (apply_settings (x ∷ rest) c)
parse_keys-print zero x rest c p a lt = absurd (omega arith)
parse_keys-print (suc n) x [] c p a lt = one_round n x none c p
parse_keys-print (suc n) x (y ∷ rest) c p (one_plain q a) lt =
    let next = (one_setting x (some (print_from y rest)) c p).0 in
    one_round n x (some (print_from y rest)) c p
    ∙ parse_keys-print n y rest (apply_setting x c) q a
        (omega (arith, shorter 44 (print_from x (y ∷ rest)) (print_from y rest) 44 next))

-- Options that are settings with commas between them, whose texts have no comma and whose numbers are
-- within an int, are parsed to what the settings say, from the first to the last; the options without
-- any setting change nothing.
pub parse_arguments-print :
    (ss : List Setting) (c : ConfigurationOptions)
    → AllPlain ss
    → parse_arguments (some (print_settings ss)) c ≡ some (apply_settings ss c)
unfolding parse_arguments parse_keys strchr
parse_arguments-print [] c a = refl
parse_arguments-print (x ∷ rest) c (one_plain p a) =
    parse_keys-print (suc (length (print_from x rest))) x rest c p a (omega arith)
