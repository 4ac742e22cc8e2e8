-- ===== src/Agent/Print.antt =====
-- Options as they are meant to be written (recorder/src/main/cpp/agent.cpp): a list of settings.
use fk_prof.Prelude.{Option, none, some, List, [], ◌∷◌, ◌++◌, ◌≡◌, not}
use fk_prof.Prelude.Int.{ℤ, pos, negsuc, eqb_ℤ, ◌≤ℤ◌}
use fk_prof.Agent.{Text, codes, strchr, ConfigurationOptions}
use fk_prof.Agent.Decimal.{print_int}

pub data Setting : Type 0 where
  interval_min : ℤ → Setting
  interval_max : ℤ → Setting
  interval : ℤ → Setting
  log_path : Text → Setting
  start_at : ℤ → Setting
  at_host : Text → Setting
  at_port : Text → Setting
  max_frames : ℤ → Setting

-- An int holds it.
abbrev pub InInt : ℤ → Type 0
InInt z = (negsuc 2147483647 ≤ℤ z) × (z ≤ℤ pos 2147483647)

-- A text stands for itself if it has no comma, and a number if an int holds it.
pub data IsPlain : Setting → Type 0 where
  plain_interval_min : {z : ℤ} → InInt z → IsPlain (interval_min z)
  plain_interval_max : {z : ℤ} → InInt z → IsPlain (interval_max z)
  plain_interval : {z : ℤ} → InInt z → IsPlain (interval z)
  plain_log_path : {s : Text} → strchr 44 s ≡ none → IsPlain (log_path s)
  plain_start : {z : ℤ} → InInt z → IsPlain (start_at z)
  plain_host : {s : Text} → strchr 44 s ≡ none → IsPlain (at_host s)
  plain_port : {s : Text} → strchr 44 s ≡ none → IsPlain (at_port s)
  plain_max_frames : {z : ℤ} → InInt z → IsPlain (max_frames z)

pub data AllPlain : List Setting → Type 0 where
  no_settings : AllPlain []
  one_plain : {x : Setting} {rest : List Setting} → IsPlain x → AllPlain rest → AllPlain (x ∷ rest)

-- A setting and what follows it.
abbrev pub print_setting : Setting → Text → Text
print_setting (interval_min z) rest = codes "intervalMin=" ++ print_int z rest
print_setting (interval_max z) rest = codes "intervalMax=" ++ print_int z rest
print_setting (interval z) rest = codes "interval=" ++ print_int z rest
print_setting (log_path s) rest = codes "logPath=" ++ (s ++ rest)
print_setting (start_at z) rest = codes "start=" ++ print_int z rest
print_setting (at_host s) rest = codes "host=" ++ (s ++ rest)
print_setting (at_port s) rest = codes "port=" ++ (s ++ rest)
print_setting (max_frames z) rest = codes "maxFrames=" ++ print_int z rest

-- The end of the options, or a comma and the next key.
abbrev pub ending : Option Text → Text
ending none = []
ending (some more) = 44 ∷ more

abbrev pub print_from : Setting → List Setting → Text
print_from x [] = print_setting x (ending none)
print_from x (y ∷ rest) = print_setting x (ending (some (print_from y rest)))

-- The settings with commas between them.
abbrev pub print_settings : List Setting → Text
print_settings [] = []
print_settings (x ∷ rest) = print_from x rest

-- What a setting is meant to do, and a list of them, from the first to the last.
abbrev pub apply_setting : Setting → ConfigurationOptions → ConfigurationOptions
apply_setting (interval_min z) c = record c { sampling_interval_min = z }
apply_setting (interval_max z) c = record c { sampling_interval_max = z }
apply_setting (interval z) c = record c { sampling_interval_min = z; sampling_interval_max = z }
apply_setting (log_path s) c = record c { log_file_path = some s }
apply_setting (start_at z) c = record c { start = not (eqb_ℤ z (pos 0)) }
apply_setting (at_host s) c = record c { host = some s }
apply_setting (at_port s) c = record c { port = some s }
apply_setting (max_frames z) c = record c { max_frames_to_capture = z }

abbrev pub apply_settings : List Setting → ConfigurationOptions → ConfigurationOptions
apply_settings [] c = c
apply_settings (x ∷ rest) c = apply_settings rest (apply_setting x c)
