-- ===== src/Controller.antt =====
-- Controller (recorder/src/main/cpp/controller.h and .cpp): the commands of a client, over the profiler.
pub mod Input
mod Numbers
mod Replies
mod Ends
mod Tests
use fk_prof.Prelude.{
  ℕ, zero, suc, ◌+◌, ◌-◌, Bool, true, false, Option, none, some, List, [], ◌∷◌, ◌++◌, ◌==◌,
  if◌then◌else◌, length, take, drop,
}
use fk_prof.Prelude.Int.{ℤ, pos}
use fk_prof.Agent.{Text, codes, starts_with}
use fk_prof.Agent.Decimal.{print_int}
use fk_prof.Profiler.Pool.{◌>>=◌, read}
use fk_prof.Profiler.Defs.{
  Profiler, is_running, start, stop, set_file_path, set_sampling_interval,
  set_max_frames_to_capture,
}
use fk_prof.Controller.Input.{read_word, read_int}

abbrev pub max_data_size : ℕ
max_data_size = 100

-- Profiler's getters. A path that is null is an empty string.
unfoldable pub get_file_path : Profiler → Option Text
get_file_path p = elim p.live.log_file_path [ none ↦ some [] | some a ↦ read a p.memory.strings ]

abbrev pub get_sampling_interval_min : Profiler → ℤ
get_sampling_interval_min p = pos p.live.sampling_interval_min

abbrev pub get_sampling_interval_max : Profiler → ℤ
get_sampling_interval_max p = pos p.live.sampling_interval_max

abbrev pub get_max_frames_to_capture : Profiler → ℤ
get_max_frames_to_capture p = pos p.live.max_frames_to_capture

-- snprintf writes no more than `size - 1` bytes and a NUL.
abbrev pub snprintf : ℕ → Text → Text
snprintf size text = take (size - 1) text

abbrev pub status_word : Bool → Text
status_word sampling_is_running = if sampling_is_running then codes "started" else codes "stopped"

-- The buffer has 10 bytes more than the path.
unfoldable pub status_reply : Bool → Text → Text
status_reply sampling_is_running log_file_path =
    snprintf (length log_file_path + 10)
      (status_word sampling_is_running ++ (codes "," ++ (log_file_path ++ (10 ∷ []))))

unfoldable pub report_status : Profiler → Option Text
report_status p = is_running p >>= (λ sampling_is_running.
    get_file_path p >>= (λ log_file_path. some (status_reply sampling_is_running log_file_path)))

-- none inside: nothing is sent for an unknown parameter.
unfoldable pub get_profiler_param : Text → Profiler → Option (Option Text)
unfolding starts_with get_file_path
get_profiler_param param p =
    if starts_with (codes "intervalMin") param
    then some (some (print_int (get_sampling_interval_min p) (10 ∷ [])))
    else if starts_with (codes "intervalMax") param
    then some (some (print_int (get_sampling_interval_max p) (10 ∷ [])))
    else if starts_with (codes "interval") param
    then some (
        some (
          print_int (get_sampling_interval_min p)
            (32 ∷ print_int (get_sampling_interval_max p) (10 ∷ []))))
    else if starts_with (codes "maxFrames") param
    then some (some (print_int (get_max_frames_to_capture p) (10 ∷ [])))
    else if starts_with (codes "logPath") param
    then get_file_path p >>= (λ path. some (some (path ++ (10 ∷ []))))
    else some none

abbrev pub same_text : Text → Text → Bool
same_text [] [] = true
same_text [] (y ∷ t) = false
same_text (x ∷ s) [] = false
same_text (x ∷ s) (y ∷ t) = if x == y then same_text s t else false

-- How the agent's environment answers: whether there is a JNI environment, the name of a new log file,
-- and whether the system accepts the timer.
pub record Around : Type 0 where
  pub has_env : Bool
  pub generated : Text
  pub accepted : Bool

-- The bytes up to the first NUL.
unfoldable pub c_string : Text → Text
c_string [] = []
c_string (c ∷ s) = let rest = c_string s in if c == 0 then [] else c ∷ rest

abbrev silent : Option Profiler → Option (Option Text × Profiler)
silent p = p >>= (λ p'. some (none, p'))

abbrev replying : Option (Option Text) → Profiler → Option (Option Text × Profiler)
replying reply p = reply >>= (λ r. some (r, p))

-- What happens to the thread of the controller: another thread calls stop, accept or recv fails, or a
-- client's bytes come. `stopped` says whether another thread calls stop after accept has returned and
-- before the flag is tested again; a stop while accept or recv fails is one before it.
pub data Moment : Type 0 where
  stop_called : Moment
  accept_fails : Moment
  recv_fails : Moment
  connection : Around → (numeric_arg1 numeric_arg2 : ℤ) → Text → (stopped : Bool) → Moment

-- How run is left: before the socket is there, with the listener open, with the listener closed, or
-- not yet.
pub data Left : Type 0 where
  without_listener : Left
  listener_open : Left
  listener_closed : Left
  still_waiting : Left

pub record Session : Type 0 where
  pub left : Left
  pub sent : List Text
  pub profiler : Profiler

abbrev pub closed : Profiler → Session
closed p = record { left = listener_closed; sent = []; profiler = p }

abbrev pub also_sent : Option Text → Option Session → Option Session
also_sent none s = s
also_sent (some t) s = s >>= (λ x. some (record x { sent = t ∷ x.sent }))

module _ (allocate : List ℕ → ℕ) (rand : ℕ → ℕ) where
  -- What a command does, given its word, the word after it and the numbers after it.
  unfoldable pub obey : Text → Text → ℤ → ℤ → Profiler → Option Profiler
  unfolding set_file_path set_sampling_interval set_max_frames_to_capture
  obey command string_arg numeric₁ numeric₂ p =
      if same_text command (codes "logPath")
      then set_file_path allocate rand (some string_arg) p
      else if same_text command (codes "intervalMin")
      then set_sampling_interval numeric₁ (get_sampling_interval_max p) p
      else if same_text command (codes "intervalMax")
      then set_sampling_interval (get_sampling_interval_min p) numeric₁ p
      else if same_text command (codes "maxFrames")
      then set_max_frames_to_capture numeric₁ p
      else if same_text command (codes "interval")
      then set_sampling_interval numeric₁ numeric₂ p
      else some p

  -- `numericArg1` and `numericArg2` are not initialised: what is in them is an argument. Reading a
  -- string and reading numbers are alternatives, of which `obey` takes the one that it uses.
  unfoldable pub set_profiler_param :
      (numeric_arg1 numeric_arg2 : ℤ) → Text → Profiler → Option Profiler
  unfolding read_word read_int obey
  set_profiler_param numeric_arg1 numeric_arg2 param_desc p =
      let (command, input) = read_word (record { rest = param_desc; failed = false }) in
      let (numeric₁, input₁) = read_int numeric_arg1 input in
      obey command (read_word input).0 numeric₁ (read_int numeric_arg2 input₁).0 p

  unfoldable pub start_sampling : Around → Profiler → Option Profiler
  unfolding start
  start_sampling w p =
      if w.has_env then start allocate rand w.generated w.accepted p >>= (λ r. some r.1) else some p

  -- One connection, for the bytes that have come: what is sent, and the profiler.
  unfoldable pub serve :
      Around → (numeric_arg1 numeric_arg2 : ℤ) → Text → Profiler → Option (Option Text × Profiler)
  unfolding start_sampling c_string report_status get_profiler_param set_profiler_param stop
      starts_with
  serve w numeric_arg1 numeric_arg2 received p =
      let buf = c_string (take (max_data_size - 1) received) in
      if starts_with (codes "start") buf
      then silent (start_sampling w p)
      else if starts_with (codes "stop") buf
      then silent (stop w.accepted p)
      else if starts_with (codes "status") buf
      then replying (report_status p >>= (λ r. some (some r))) p
      else if starts_with (codes "get ") buf
      then replying (get_profiler_param (drop 4 buf) p) p
      else if starts_with (codes "set ") buf
      then silent (set_profiler_param numeric_arg1 numeric_arg2 (drop 4 buf) p)
      else some (none, p)

  -- The loop from accept on. The flag is tested after each connection and each failure of accept.
  unfoldable pub accept_loop : Bool → List Moment → Profiler → Option Session
  unfolding serve
  accept_loop running [] p = some (record { left = still_waiting; sent = []; profiler = p })
  accept_loop running (stop_called ∷ rest) p = accept_loop false rest p
  accept_loop true (accept_fails ∷ rest) p = accept_loop true rest p
  accept_loop true (recv_fails ∷ rest) p = accept_loop true rest p
  accept_loop true (connection w numeric_arg1 numeric_arg2 received stopped ∷ rest) p =
      serve w numeric_arg1 numeric_arg2 received p >>= (λ r.
        let on = accept_loop true rest r.1 in
        also_sent r.0 (if stopped then some (closed r.1) else on))
  accept_loop false (accept_fails ∷ rest) p = some (closed p)
  accept_loop false (recv_fails ∷ rest) p = some (closed p)
  accept_loop false (connection w numeric_arg1 numeric_arg2 received stopped ∷ rest) p =
      serve w numeric_arg1 numeric_arg2 received p >>= (λ r. also_sent r.0 (some (closed r.1)))

  -- Whether getaddrinfo, socket, bind and listen succeed, and whether the controller is running by then.
  unfoldable pub run :
      (found opened bound listening running : Bool) → List Moment → Profiler → Option Session
  unfolding accept_loop
  run false opened bound listening running ms p =
      some (record { left = without_listener; sent = []; profiler = p })
  run true false bound listening running ms p =
      some (record { left = without_listener; sent = []; profiler = p })
  run true true false listening running ms p = some (closed p)
  run true true true false running ms p =
      some (record { left = listener_open; sent = []; profiler = p })
  run true true true true false ms p = some (closed p)
  run true true true true true ms p = accept_loop true ms p
