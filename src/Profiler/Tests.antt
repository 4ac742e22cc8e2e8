-- ===== src/Profiler/Tests.antt =====
-- A profiler that is started, stopped, set anew and started again, and the theorem at it.
use fk_prof.Prelude.{
  ℕ, suc, ◌+◌, ◌≤◌, ◌≡◌, refl, Bool, true, false, ◌⊎◌, none, some, List, [], ◌∷◌, arith,
}
use fk_prof.Prelude.Int.{pos, negsuc}
use fk_prof.LogWriter.{contains}
use fk_prof.Profiler.Pool.{◌>>=◌}
use fk_prof.Profiler.Defs.{construct, destroy}
use fk_prof.Profiler.Shape.{Shape, state}
use fk_prof.Profiler.Linked.{Linked, Current}
use fk_prof.Profiler.Life.{Clamped}
use fk_prof.Profiler.History.{
  Call, put_path, put_interval, put_frames, begin, halt, run, remains, lives_well,
}

-- An allocator: an address above all that are in use.
abbrev above : List ℕ → ℕ
above [] = 1
above (a ∷ rest) = suc (a + above rest)

above-contains : (used : List ℕ) (x : ℕ) → above used ≤ x → contains used x ≡ false
unfolding contains
above-contains [] x h = refl
above-contains (a ∷ rest) x h = ground (arith, above-contains rest x)

abbrev calls : List Call
calls =
    begin (103 ∷ []) true
    ∷ put_frames (pos 5000)
    ∷ halt true
    ∷ put_frames (pos 64)
    ∷ put_path (some (97 ∷ []))
    ∷ put_path (some (98 ∷ []))
    ∷ put_interval (pos 12) (negsuc 3)
    ∷ begin (104 ∷ []) true
    ∷ []

lives_well_example :
    (v : Shape) × (on : Bool) × ((construct above (λ i. i) none (pos 10) (pos 20) (pos 0) (103 ∷ [])
        >>= run above (λ i. i) calls)
      ≡ some (state v))
    × Linked above (λ i. i) v on
    × Clamped v.later
    × ((on ≡ false) ⊎ Current above (λ i. i) v)
    × (destroy (state v) ≡ some (remains v))
lives_well_example =
    lives_well above (λ i. i) (λ used. above-contains used (above used) (omega arith)) none (pos 10)
      (pos 20) (pos 0) (103 ∷ []) calls
