-- ===== src/Agent/Tests.antt =====
-- Tests and witnesses for the options (recorder/src/main/cpp/agent.cpp).
use fk_prof.Prelude.{
  ℕ, suc, ◌≡◌, refl, List, [], ◌∷◌, length, Bool, true, false, none, some, not, arith,
}
use fk_prof.Prelude.Int.{pos, negsuc, eqb_ℤ}
use fk_prof.Agent.{
  codes, strchr, starts_with, atoi, atoi_signed, is_space, is_digit, atoi_digits, safe_copy_string,
  assign, parse_keys, parse_arguments, new_options,
}
use fk_prof.Agent.Print.{
  interval, log_path, start_at, at_port, plain_interval, plain_port, no_settings, one_plain,
  print_settings, apply_settings,
}
use fk_prof.Agent.Parsed.{parse_arguments-print}
use fk_prof.Agent.Missing.{missing_value}
use fk_prof.Agent.Lifecycle.{
  Agent, Event, vm_init, thread_start, env_safe, on_load, on_unload, deliver,
}
use fk_prof.Agent.Events.{agent_with, unnoticed_threads}
use fk_prof.Profiler.Shape.{Shape}
use fk_prof.Profiler.History.{remains}
use fk_prof.ThreadMap.{ThreadMap}
use fk_prof.Gc.{init}

printed :
    print_settings (interval (pos 17) ∷ log_path (codes "a.log") ∷ start_at (pos 0) ∷ [])
    ≡ codes "interval=17,logPath=a.log,start=0"
printed = refl

parsed :
    parse_arguments (some (codes "interval=17,port=42,intervalMax= -3x,what,start=0")) new_options
    ≡ some (record new_options {
      sampling_interval_min = pos 17;
      sampling_interval_max = negsuc 2;
      port = some (codes "42");
      start = false;
    })
unfolding parse_arguments parse_keys strchr starts_with assign atoi atoi_signed is_space is_digit
    atoi_digits safe_copy_string new_options
parsed = refl

parse_arguments-print_example :
    parse_arguments
      (some (print_settings (interval (pos 17) ∷ at_port (codes "42") ∷ [])))
      new_options
    ≡ some (apply_settings (interval (pos 17) ∷ at_port (codes "42") ∷ []) new_options)
unfolding strchr
parse_arguments-print_example =
    parse_arguments-print (interval (pos 17) ∷ at_port (codes "42") ∷ []) new_options
      (one_plain (plain_interval (omega arith)) (one_plain (plain_port refl) no_settings))

missing_value_example :
    (parse_arguments (some (codes "host,start=0")) new_options ≡ none)
    × (parse_arguments (some (codes "port,start=0")) new_options ≡ none)
    × (parse_arguments (some (codes "logPath,start=0")) new_options ≡ none)
    × (parse_arguments (some (codes "maxFrames,start=0")) new_options
        ≡ parse_arguments
            (some (codes "start=0"))
            (record new_options { max_frames_to_capture = atoi (codes "0") }))
    × (parse_arguments (some (codes "intervalMin,start=0")) new_options
        ≡ parse_arguments
            (some (codes "start=0"))
            (record new_options { sampling_interval_min = atoi (codes "0") }))
    × (parse_arguments (some (codes "intervalMax,start=0")) new_options
        ≡ parse_arguments
            (some (codes "start=0"))
            (record new_options { sampling_interval_max = atoi (codes "0") }))
    × (parse_arguments (some (codes "interval,start=0")) new_options
        ≡ parse_arguments (some (codes "start=0")) (record new_options {
          sampling_interval_min = atoi (codes "0");
          sampling_interval_max = atoi (codes "0");
        }))
    × (parse_arguments (some (codes "start,start=0")) new_options
        ≡ parse_arguments
            (some (codes "start=0"))
            (record new_options { start = not (eqb_ℤ (atoi (codes "0")) (pos 0)) }))
unfolding strchr atoi atoi_signed atoi_digits is_space is_digit
missing_value_example = missing_value (codes "start=0") (codes "0") new_options refl (omega arith)

abbrev address_after : List ℕ → ℕ
address_after used = suc (length used)

abbrev dice : ℕ → ℕ
dice n = n

abbrev no_threads : ThreadMap
no_threads = record { entries = []; buckets = λ a. none; next = 1; gc = init }

-- The main thread starts, while sampling is asked for.
abbrev main_starts : List Event
main_starts = vm_init true true ∷ thread_start (some (codes "main")) 3 (pos 1) (codes "x") true ∷ []

unnoticed_threads_example :
    (a : Agent) × (running : Bool) × (v : Shape) × (on_load address_after dice true true true
        (some (codes "start=1"))
        (codes "x")
        no_threads
      ≡ some (0, a))
    × (deliver address_after dice env_safe main_starts a
        ≡ some (agent_with new_options running v no_threads))
    × (on_unload (agent_with new_options running v no_threads) ≡ some (some (remains v)))
unfolding parse_arguments parse_keys strchr starts_with assign atoi atoi_signed is_space is_digit
    atoi_digits new_options
unnoticed_threads_example =
    unnoticed_threads address_after dice new_options no_threads (some (codes "start=1")) (codes "x")
      main_starts refl
