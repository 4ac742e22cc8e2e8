-- ===== src/Agent.antt =====
-- parseArguments and safe_copy_string (recorder/src/main/cpp/agent.cpp), and ConfigurationOptions
-- (globals.h). A C string is the list of its bytes; a pointer into the options is what is left of them
-- from there on.
pub mod Decimal
pub mod Print
mod Parsed
mod Missing
mod Tests
pub mod Lifecycle
mod Events
use Prim.Native.Char.{code}
use Prim.Native.String.{String}
use fk_prof.Prelude.{
  ℕ, zero, suc, ◌+◌, ◌-◌, ◌*◌, Bool, true, false, not, ◌&&◌, ◌||◌, Option, none, some, List, [],
  ◌∷◌, ltb, leb, ◌==◌, if◌then◌else◌, length, take,
}
use fk_prof.Prelude.Int.{ℤ, pos, negsuc, eqb_ℤ}

abbrev pub Text : Type 0
Text = List ℕ

-- The bytes of a text in ASCII.
abbrev pub codes : String → Text
codes String.[] = []
codes (String.◌∷◌ c s) = code c ∷ codes s

-- strchr: from the first such byte on, or none.
unfoldable pub strchr : ℕ → Text → Option Text
strchr c [] = none
strchr c (x ∷ s) = let rest = strchr c s in if x == c then some (x ∷ s) else rest

-- `strstr(key, name) == key`.
unfoldable pub starts_with : Text → Text → Bool
starts_with [] s = true
starts_with (c ∷ name) [] = false
starts_with (c ∷ name) (x ∷ s) = (x == c) && starts_with name s

-- atoi, for numbers within an int: C leaves others undefined.
unfoldable pub is_digit : ℕ → Bool
is_digit c = leb 48 c && leb c 57

unfoldable pub atoi_digits : ℕ → Text → ℕ
unfolding is_digit
atoi_digits n [] = n
atoi_digits n (c ∷ s) =
    let rest = atoi_digits (n * 10 + (c - 48)) s in if is_digit c then rest else n

abbrev pub negate : ℕ → ℤ
negate zero = pos 0
negate (suc n) = negsuc n

unfoldable pub atoi_signed : Text → ℤ
atoi_signed [] = pos 0
atoi_signed (c ∷ s) =
    if c == 45
    then negate (atoi_digits 0 s)
    else if c == 43
    then pos (atoi_digits 0 s)
    else pos (atoi_digits 0 (c ∷ s))

unfoldable pub is_space : ℕ → Bool
is_space c = (c == 32) || (leb 9 c && leb c 13)

unfoldable pub atoi : Text → ℤ
atoi [] = pos 0
atoi (c ∷ s) = let rest = atoi s in if is_space c then rest else atoi_signed (c ∷ s)

abbrev pub default_sampling_interval : ℤ
default_sampling_interval = pos 1

abbrev pub default_max_frames_to_capture : ℤ
default_max_frames_to_capture = pos 128

-- A path is NULL or a string of its own.
pub record ConfigurationOptions : Type 0 where
  pub sampling_interval_min : ℤ
  pub sampling_interval_max : ℤ
  pub log_file_path : Option Text
  pub host : Option Text
  pub port : Option Text
  pub start : Bool
  pub max_frames_to_capture : ℤ

unfoldable pub new_options : ConfigurationOptions
new_options = record {
  sampling_interval_min = default_sampling_interval;
  sampling_interval_max = default_sampling_interval;
  log_file_path = none;
  host = none;
  port = none;
  start = true;
  max_frames_to_capture = default_max_frames_to_capture;
}

-- `next - value` is an unsigned size. If `next` stands before `value` it is near 2 ^ 64, and no
-- memory of that size can be had: none.
unfoldable pub safe_copy_string : Text → Option Text → Option Text
safe_copy_string value none = some value
safe_copy_string value (some next) =
    if ltb (length value) (length next)
    then none
    else some (take (length value - length next) value)

abbrev pub with_string :
    (Option Text → ConfigurationOptions) → Option Text → Option ConfigurationOptions
with_string put none = none
with_string put (some s) = some (put (some s))

-- What is done with a key, the value after the first `=`, and the next comma.
unfoldable pub assign :
    Text → Text → Option Text → ConfigurationOptions → Option ConfigurationOptions
unfolding starts_with
assign key value next c =
    if starts_with (codes "intervalMin") key
    then some (record c { sampling_interval_min = atoi value })
    else if starts_with (codes "intervalMax") key
    then some (record c { sampling_interval_max = atoi value })
    else if starts_with (codes "interval") key
    then some (record c { sampling_interval_min = atoi value; sampling_interval_max = atoi value })
    else if starts_with (codes "logPath") key
    then with_string (λ s. record c { log_file_path = s }) (safe_copy_string value next)
    else if starts_with (codes "start") key
    then some (record c { start = not (eqb_ℤ (atoi value) (pos 0)) })
    else if starts_with (codes "host") key
    then with_string (λ s. record c { host = s }) (safe_copy_string value next)
    else if starts_with (codes "port") key
    then with_string (λ s. record c { port = s }) (safe_copy_string value next)
    else if starts_with (codes "maxFrames") key
    then some (record c { max_frames_to_capture = atoi value })
    else some c

-- One key: without a `=` there is a warning only.
abbrev pub one_key :
    Text → Option Text → Option Text → ConfigurationOptions → Option ConfigurationOptions
one_key key none next c = some c
one_key key (some []) next c = some c
one_key key (some (eq ∷ value)) next c = assign key value next c

abbrev pub go_on :
    Option ConfigurationOptions
    → Option Text
    → (Text → ConfigurationOptions → Option ConfigurationOptions)
    → Option ConfigurationOptions
go_on none next k = none
go_on (some c) none k = some c
go_on (some c) (some []) k = some c
go_on (some c) (some (comma ∷ key)) k = k key c

-- The loop over the keys. Each key is shorter than the one before, so the length of the options and
-- one more is enough fuel; without fuel the loop just ends.
unfoldable pub parse_keys : ℕ → Text → ConfigurationOptions → Option ConfigurationOptions
unfolding strchr
parse_keys zero key c = some c
parse_keys (suc n) key c =
    go_on (one_key key (strchr 61 key) (strchr 44 key) c) (strchr 44 key) (parse_keys n)

-- NULL options are not looked at.
unfoldable pub parse_arguments : Option Text → ConfigurationOptions → Option ConfigurationOptions
parse_arguments none c = some c
parse_arguments (some options) c = parse_keys (suc (length options)) options c
