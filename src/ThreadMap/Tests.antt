-- ===== src/ThreadMap/Tests.antt =====
-- Two threads, a sample, and a trace that outlives its thread: the theorem at these calls.
use fk_prof.Prelude.{ℕ, ◌+◌, ◌≡◌, ◌↔◌, none, some, List, [], ◌∷◌}
use fk_prof.Prelude.Int.{pos}
use fk_prof.Gc.{init}
use fk_prof.ThreadMap.{ThreadMap}
use fk_prof.ThreadMap.Counts.{refs_of, mapped, held}
use fk_prof.ThreadMap.History.{Call, register, sample, unregister, let_go, run, empty, counted}

abbrev calls : List Call
calls =
    register 10 (pos 3)
    ∷ register 11 (pos 4)
    ∷ sample 10
    ∷ unregister 10
    ∷ register 11 (pos 5)
    ∷ let_go 0
    ∷ []

counted_example :
    (m : ThreadMap) × (out : List ℕ) × (run calls (empty init, []) ≡ some (m, out))
    × ((a : ℕ) → refs_of (m.buckets a) ≡ mapped a m.entries + held a out)
    × ((a : ℕ) → (m.buckets a ≡ none) ↔ (mapped a m.entries + held a out ≡ 0))
counted_example = counted init calls
