-- ===== src/SignalHandler/Tests.antt =====
-- Runs of the signal handler, and its theorem at one of them.
use fk_prof.Prelude.{ℕ, ◌+◌, ◌*◌, ◌≤◌, ◌≡◌, ◌⊎◌, refl, Bool, true, false, List, [], ◌∷◌, arith}
use fk_prof.SignalHandler.{Timer, init, set_interval, update_sigprof_interval, stop_sigprof}
use fk_prof.SignalHandler.Timing.{
  period, Call, update, stop, answer, run, updates, wanted, timer_follows,
}

abbrev rand : ℕ → ℕ
rand i = i * 7 + 1000003

abbrev off : Timer
off = record { tv_sec = 0; tv_usec = 0 }

abbrev calls : List Call
calls = update true ∷ stop true ∷ update false ∷ []

third_interval :
    period
      (answer
        (update true)
        (run calls (init rand 12 40) off).0
        (run calls (init rand 12 40) off).1).2
    ≡ wanted rand 12 40 2 (update true)
unfolding answer run init set_interval update_sigprof_interval stop_sigprof
third_interval = refl

timer_follows_example :
    let (h', t') = run calls (init rand 12 40) off in
    let (res, h'', t'') = answer (update true) h' t' in
    (((res ≡ true) × (period t'' ≡ wanted rand 12 40 (updates calls 0) (update true)))
      ⊎ ((res ≡ false) × (t'' ≡ t')))
    × ((u : ℕ) (ok : Bool)
        → (12 ≤ wanted rand 12 40 u (update ok)) × (wanted rand 12 40 u (update ok) ≤ 40))
timer_follows_example = timer_follows rand 12 40 calls (update true) off (omega arith) (omega arith)
