-- ===== src/SpinLock/Exclusion.antt =====
-- One thread at most is inside, and the flag says whether one is.
use fk_prof.Prelude.{ℕ, ◌≡◌, ◌≢◌, refl, true, false, inl, inr, ◌⊎◌, arith}
use fk_prof.SpinLock.{inside, System, Step, enter, win, fail, leave, glance, Reach, here, next}

-- The flag is down and no thread is inside, or it is up and one is.
abbrev pub Held : System → Type 0
Held s =
    ((s.flag ≡ false) × ((j : ℕ) → s.thread j ≢ inside))
    ⊎ ((i : ℕ) × (s.flag ≡ true) × (s.thread i ≡ inside) × ((j : ℕ) → s.thread j ≡ inside → i ≡ j))

Step-Held : {s t : System} → Step s t → Held s → Held t
Step-Held {s} (enter i e) (inl (f, none_in)) = inl (f, λ j q. ground (arith, none_in j))
Step-Held {s} (enter i e) (inr (k, f, h, only)) =
    inr (k, f, ground (arith, h, e), λ j q. ground (arith, only j))
Step-Held {s} (win i e f) (inl (f', none_in)) =
    inr (i, refl, ground arith, λ j q. ground (arith, none_in j))
Step-Held {s} (win i e f) (inr (k, f', h, only)) = absurd (cc)
Step-Held {s} (fail i e) h = h
Step-Held {s} (leave i e) (inl (f, none_in)) = absurd (none_in i e)
Step-Held {s} (leave i e) (inr (k, f, h, only)) =
    inl (refl, λ j q. ground (arith, only j, only i e))
Step-Held {s} (glance i) h = h

-- In every state that any interleaving reaches, the flag is down and no thread is inside the critical
-- section, or the flag is up and exactly one thread is inside.
pub exclusion : {s : System} → Reach s → Held s
exclusion here = inl (refl, λ j e. absurd (cc))
exclusion (next r st) = Step-Held st (exclusion r)
