-- ===== src/Controller/Tests.antt =====
-- Tests and witnesses for the controller (recorder/src/main/cpp/controller.cpp).
use fk_prof.Prelude.{ℕ, ◌≡◌, true, false, some, List, [], ◌∷◌, ◌++◌, refl, arith}
use fk_prof.Prelude.Int.{pos}
use fk_prof.Agent.{codes, starts_with, is_space}
use fk_prof.Agent.Decimal.{print_int}
use fk_prof.Profiler.Pool.{read}
use fk_prof.Profiler.Defs.{Profiler, blank, is_running, running_flag, set_sampling_interval}
use fk_prof.Controller.Input.{read_word, read_int, skip_ws, word, after_word}
use fk_prof.Controller.{
  get_file_path, report_status, status_word, get_profiler_param, set_profiler_param, obey, Moment,
  stop_called, accept_fails, connection, accept_loop, serve, c_string, listener_closed,
  still_waiting, Session, status_reply, Around,
}
use fk_prof.Controller.Replies.{report_status_lem, set-get, set_profiler_param-running}
use fk_prof.Controller.Ends.{last_served, accept_loop-last}

abbrev next_address : List ℕ → ℕ
next_address used = 7

abbrev dice : ℕ → ℕ
dice n = n

-- A profiler with a path, whose processor runs.
abbrev busy : Profiler
busy = record blank {
  processor = some 1;
  live = record blank.live { log_file_path = some 5 };
  memory = record blank.memory {
    strings = (5, codes "a.hpl") ∷ [];
    processors =
        (1, record { log_writer = 2; buffer = 3; handler = 4; interval = 1; is_running = true })
        ∷ [];
  };
}

abbrev around : Around
around = record { has_env = true; generated = codes "x"; accepted = true }

report_status_example :
    report_status busy ≡ some (status_word true ++ (codes "," ++ (codes "a.hpl" ++ (10 ∷ []))))
unfolding is_running running_flag get_file_path read
report_status_example = report_status_lem busy true (codes "a.hpl") refl refl

set-get_example :
    ((p' : Profiler) × (set_profiler_param next_address dice
          (pos 0)
          (pos 0)
          (codes "maxFrames " ++ print_int (pos 64) [])
          blank
        ≡ some p')
      × (get_profiler_param (codes "maxFrames") p' ≡ some (some (print_int (pos 64) (10 ∷ [])))))
    × ((p' : Profiler) × (set_profiler_param next_address dice
            (pos 0)
            (pos 0)
            (codes "interval " ++ print_int (pos 3) (32 ∷ print_int (pos 12) []))
            blank
          ≡ some p')
        × (get_profiler_param (codes "interval") p'
            ≡ some (some (print_int (pos 3) (32 ∷ print_int (pos 12) (10 ∷ []))))))
unfolding is_running running_flag
set-get_example =
    set-get next_address dice (pos 0) (pos 0) blank 64 3 12 refl (omega arith) (omega arith)
      (omega arith) (omega arith) (omega arith)

set_profiler_param-running_example :
    set_profiler_param next_address dice (pos 0) (pos 0) (codes "interval 5 6") busy ≡ some busy
unfolding is_running running_flag read
set_profiler_param-running_example =
    set_profiler_param-running next_address dice (pos 0) (pos 0) busy (codes "interval 5 6") refl

-- A client's `status` after a failure of accept; stop; and one command more.
abbrev status_asked : Moment
status_asked = connection around (pos 0) (pos 0) (codes "status") false

abbrev waiting : Session
waiting = record { left = still_waiting; sent = []; profiler = busy }

accept_loop-last_example :
    (accept_loop next_address dice true
        (accept_fails ∷ [] ++ stop_called ∷ status_asked ∷ status_asked ∷ [])
        busy
      ≡ last_served next_address dice around (pos 0) (pos 0) (codes "status") waiting)
    × (accept_loop next_address dice true
          (accept_fails ∷ []
            ++ connection around (pos 0) (pos 0) (codes "status") true ∷ status_asked ∷ [])
          busy
        ≡ last_served next_address dice around (pos 0) (pos 0) (codes "status") waiting)
unfolding accept_loop
accept_loop-last_example =
    accept_loop-last next_address dice true false (accept_fails ∷ []) (status_asked ∷ []) around
      (pos 0) (pos 0) (codes "status") busy waiting refl refl

session_test :
    accept_loop next_address dice true (stop_called ∷ status_asked ∷ status_asked ∷ []) busy
    ≡ some (record { left = listener_closed; sent = codes "started,a.hpl\n" ∷ []; profiler = busy })
unfolding accept_loop serve c_string starts_with report_status is_running running_flag get_file_path
    read status_reply
session_test = refl

-- Without numbers after it, `set interval` sets what the variables happen to hold.
interval_test :
    set_profiler_param next_address dice (pos 21) (pos 34) (codes "interval") blank
    ≡ set_sampling_interval (pos 21) (pos 34) blank
unfolding set_profiler_param obey read_word read_int skip_ws word after_word is_space
interval_test = refl
