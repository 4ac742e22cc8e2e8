-- ===== src/SignalHandler/Timing.antt =====
-- What the timer of the system runs at, after any calls of the handler.
use fk_prof.Prelude.{
  ℕ, suc, ◌+◌, ◌-◌, ◌*◌, ◌%◌, ◌≤◌, ◌<◌, ◌≡◌, refl, ap, ◌∙◌, Bool, true, false, Bool-cases, ◌⊎◌, inl,
  inr, arith, List, [], ◌∷◌,
}
use fk_prof.Prelude.Int.{pos, eqb_ℤ}
use fk_prof.SignalHandler.{
  SignalHandler, Timer, number_of_intervals, init, set_interval, update_sigprof_interval,
  stop_sigprof,
}

-- The microseconds between two ticks.
abbrev pub period : Timer → ℕ
period t = t.tv_sec * 1000000 + t.tv_usec

-- `current_interval` is what the system has been told, unless that is -1 for nothing, and the
-- timer is in the form that the system demands.
abbrev pub Told : SignalHandler → Timer → Type 0
Told h t =
    (t.tv_usec < 1000000) × ((i : ℕ) → eqb_ℤ (pos i) h.current_interval ≡ true → period t ≡ i)

pub data Call : Type 0 where
  update : (accepted : Bool) → Call
  stop : (accepted : Bool) → Call

unfoldable pub answer : Call → SignalHandler → Timer → Bool × SignalHandler × Timer
unfolding update_sigprof_interval stop_sigprof
answer (update ok) h t = update_sigprof_interval ok h t
answer (stop ok) h t = stop_sigprof ok h t

unfoldable pub run : List Call → SignalHandler → Timer → SignalHandler × Timer
run [] h t = (h, t)
run (c ∷ cs) h t = let (res, h', t') = answer c h t in run cs h' t'

-- The number of updates, u of them before.
unfoldable pub updates : List Call → ℕ → ℕ
updates [] u = u
updates (update ok ∷ cs) u = updates cs (suc u)
updates (stop ok ∷ cs) u = updates cs u

-- The interval that a call asks for after u updates: 0 to stop, else the random number of that turn.
abbrev pub wanted : (ℕ → ℕ) → ℕ → ℕ → ℕ → Call → ℕ
wanted rand lo hi u (update ok) = lo + rand (u % number_of_intervals) % (hi - lo + 1)
wanted rand lo hi u (stop ok) = 0

record Inv (rand : ℕ → ℕ) (lo hi u : ℕ) (h : SignalHandler) (t : Timer) : Type 0 where
  told : Told h t
  turn : h.interval_index ≡ u % number_of_intervals
  table : (i : ℕ) → h.timing_intervals i ≡ lo + rand i % (hi - lo + 1)

pub set_interval-Told :
    (ok : Bool) (i : ℕ) (h : SignalHandler) (t : Timer)
    → Told h t
    → let (res, h', t') = set_interval ok i h t in
      Told h' t'
      × (((res ≡ true) × (period t' ≡ i)) ⊎ ((res ≡ false) × (t' ≡ t)))
      × (h'.interval_index ≡ h.interval_index)
      × (h'.timing_intervals ≡ h.timing_intervals)
unfolding set_interval
set_interval-Told ok i h t told = elim (Bool-cases (eqb_ℤ (pos i) h.current_interval)) [
  | inl same ↦ rw same (told, inl (refl, told.1 i same), refl, refl)
  | inr other ↦ elim (Bool-cases ok) [
    | inl granted ↦
        rw (other, granted)
          ((omega arith, λ j e. ground arith), inl (refl, omega arith), refl, refl)
    | inr denied ↦ rw (other, denied) (told, inr (refl, refl), refl, refl)
  ]
]

aimed :
    {b : Bool} {t t' : Timer} {i j : ℕ}
    → ((b ≡ true) × (period t' ≡ i)) ⊎ ((b ≡ false) × (t' ≡ t))
    → i ≡ j
    → ((b ≡ true) × (period t' ≡ j)) ⊎ ((b ≡ false) × (t' ≡ t))
aimed (inl (r, e)) at = inl (r, e ∙ at)
aimed (inr s) at = inr s

answer-Inv :
    (rand : ℕ → ℕ) (lo hi u : ℕ) (c : Call) (h : SignalHandler) (t : Timer)
    → Inv rand lo hi u h t
    → let (res, h', t') = answer c h t in
      Inv rand lo hi (updates (c ∷ []) u) h' t'
      × (((res ≡ true) × (period t' ≡ wanted rand lo hi u c)) ⊎ ((res ≡ false) × (t' ≡ t)))
unfolding answer update_sigprof_interval stop_sigprof updates
answer-Inv rand lo hi u (update ok) h t inv =
    let s = set_interval-Told ok (h.timing_intervals h.interval_index) h t inv.told in
    let at = inv.table h.interval_index ∙ ap (λ i. lo + rand i % (hi - lo + 1)) inv.turn in
    (
      record {
        told = s.0;
        turn = omega (arith, s.2, inv.turn);
        table = λ i. ap (λ f. f i) s.3 ∙ inv.table i;
      },
      aimed s.1 at,
    )
answer-Inv rand lo hi u (stop ok) h t inv =
    let s = set_interval-Told ok 0 h t inv.told in
    (
      record { told = s.0; turn = s.2 ∙ inv.turn; table = λ i. ap (λ f. f i) s.3 ∙ inv.table i },
      s.1,
    )

run-Inv :
    (rand : ℕ → ℕ) (lo hi u : ℕ) (cs : List Call) (h : SignalHandler) (t : Timer)
    → Inv rand lo hi u h t
    → Inv rand lo hi (updates cs u) (run cs h t).0 (run cs h t).1
unfolding run updates
run-Inv rand lo hi u [] h t inv = inv
run-Inv rand lo hi u (update ok ∷ cs) h t inv =
    run-Inv rand lo hi (suc u) cs _ _ (answer-Inv rand lo hi u (update ok) h t inv).0
run-Inv rand lo hi u (stop ok ∷ cs) h t inv =
    run-Inv rand lo hi u cs _ _ (answer-Inv rand lo hi u (stop ok) h t inv).0

init-Inv :
    (rand : ℕ → ℕ) (lo hi : ℕ) (t : Timer)
    → t.tv_usec < 1000000
    → Inv rand lo hi 0 (init rand lo hi) t
unfolding init
init-Inv rand lo hi t small = record {
  told = (small, λ i e. ground arith);
  turn = refl;
  table = λ i. refl;
}

pub init-Told :
    (rand : ℕ → ℕ) (lo hi : ℕ) (t : Timer) → t.tv_usec < 1000000 → Told (init rand lo hi) t
init-Told rand lo hi t small = (init-Inv rand lo hi t small).told

-- After any calls of a new handler, whatever the system answered: the next call, if it succeeds,
-- leaves the timer at 0 for a stop and, for an update, at the random interval of its turn, the
-- updates counted modulo 1024; if it fails, it leaves the timer as it was. The interval of an update
-- lies between the two bounds. The conditions are that the bounds are in order and that the timer
-- was first in the form that the system demands.
pub timer_follows :
    (rand : ℕ → ℕ) (lo hi : ℕ) (cs : List Call) (c : Call) (t : Timer)
    → t.tv_usec < 1000000
    → lo ≤ hi
    → let (h', t') = run cs (init rand lo hi) t in
      let (res, h'', t'') = answer c h' t' in
      (((res ≡ true) × (period t'' ≡ wanted rand lo hi (updates cs 0) c))
        ⊎ ((res ≡ false) × (t'' ≡ t')))
      × ((u : ℕ) (ok : Bool)
          → (lo ≤ wanted rand lo hi u (update ok)) × (wanted rand lo hi u (update ok) ≤ hi))
timer_follows rand lo hi cs c t small order =
    let start = init-Inv rand lo hi t small in
    let (inv, r) = answer-Inv rand lo hi (updates cs 0) c _ _ (run-Inv rand lo hi 0 cs _ t start) in
    (r, λ u ok. omega arith)
