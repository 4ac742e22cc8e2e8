-- ===== src/ThreadMap/History.antt =====
-- Any calls on the thread map, one after another, and the references that are out.
use fk_prof.Prelude.{
  ℕ, ◌↔◌, ◌+◌, ◌<◌, ◌≡◌, refl, Bool-cases, inl, inr, Option, none, some, List, [], ◌∷◌, ltb, ◌==◌,
  if◌then◌else◌, arith,
}
use fk_prof.Prelude.Int.{ℤ}
use fk_prof.Gc.{Gc}
use fk_prof.ThreadMap.{ThreadMap, release, put, get, remove}
use fk_prof.ThreadMap.Counts.{
  mapped, held, refs_of, Counted, release-Counted, get-Counted, remove-Counted, put-Counted,
}

-- One reference to a fewer.
abbrev pub without : ℕ → List ℕ → List ℕ
without a [] = []
without a (b ∷ rest) = if b == a then rest else b ∷ without a rest

held-without :
    (a x : ℕ) (out : List ℕ)
    → 0 < held a out
    → held x out ≡ (if a == x then 1 else 0) + held x (without a out)
held-without a x [] h = absurd (omega arith)
held-without a x (b ∷ rest) h = ground (arith, held-without a x rest)

-- The last is the log writer's call, for a reference that it has been given.
pub data Call : Type 0 where
  register : (env : ℕ) (tid : ℤ) → Call
  sample : (env : ℕ) → Call
  unregister : (env : ℕ) → Call
  let_go : (a : ℕ) → Call

abbrev pub System : Type 0
System = ThreadMap × List ℕ

pub answer : Call → System → Option System
answer (register env tid) (m, out) = elim (put env tid m) [ none ↦ none | some m' ↦ some (m', out) ]
answer (sample env) (m, out) = elim (get env m) [
  | none ↦ none
  | some (r, m') ↦ some (m', elim r [ none ↦ out | some a ↦ a ∷ out ])
]
answer (unregister env) (m, out) = elim (remove env m) [ none ↦ none | some m' ↦ some (m', out) ]
answer (let_go a) (m, out) =
    if ltb 0 (held a out)
    then elim (release a m) [ none ↦ none | some m' ↦ some (m', without a out) ]
    else some (m, out)

pub run : List Call → System → Option System
run [] s = some s
run (c ∷ cs) s = elim (answer c s) [ none ↦ none | some s' ↦ run cs s' ]

abbrev Kept : Option System → Type 0
Kept o = (m : ThreadMap) × (out : List ℕ) × (o ≡ some (m, out)) × Counted m out

answer-Kept : (c : Call) (m : ThreadMap) (out : List ℕ) → Counted m out → Kept (answer c (m, out))
unfolding answer
answer-Kept (register env tid) m out k =
    let (m', e, k') = put-Counted env tid m out k in (m', out, rw (answer, e) refl, k')
answer-Kept (sample env) m out k =
    let (m', e, k') = get-Counted env m out k in (m', _, rw (answer, e) refl, k')
answer-Kept (unregister env) m out k =
    let (m', e, k') = remove-Counted env m out k in (m', out, rw (answer, e) refl, k')
answer-Kept (let_go a) m out k = elim (Bool-cases (ltb 0 (held a out))) [
  | inl has ↦
      let (m', e, k', entries, next, others) =
        release-Counted a m (without a out) (λ x. ground (arith, k.counts x, held-without a x out))
          k.alive k.unused in
      (m', without a out, rw (answer, has, e) refl, k')
  | inr not_out ↦ (m, out, rw (answer, not_out) refl, k)
]

run-Kept : (cs : List Call) (m : ThreadMap) (out : List ℕ) → Counted m out → Kept (run cs (m, out))
unfolding run
run-Kept [] m out k = (m, out, refl, k)
run-Kept (c ∷ cs) m out k =
    let (m₁, out₁, e, k₁) = answer-Kept c m out k in rw (run, e) (run-Kept cs m₁ out₁ k₁)

-- An empty map.
abbrev pub empty : Gc → ThreadMap
empty g = record { entries = []; buckets = λ _. none; next = 0; gc = g }

-- Whatever calls are made on a new map, in any order, no call reads or releases a bucket that is
-- gone; and then the count of every bucket is the number of its places in the map and of the references
-- that have been given out and not let go; a bucket is alive just when that is not 0.
pub counted :
    (g : Gc) (cs : List Call)
    → (m : ThreadMap) × (out : List ℕ) × (run cs (empty g, []) ≡ some (m, out))
      × ((a : ℕ) → refs_of (m.buckets a) ≡ mapped a m.entries + held a out)
      × ((a : ℕ) → (m.buckets a ≡ none) ↔ (mapped a m.entries + held a out ≡ 0))
counted g cs =
    let (m, out, e, k) =
      run-Kept cs (empty g) []
        (record { counts = λ a. refl; alive = λ a. refl; unused = λ a h. refl }) in
    (m, out, e, k.counts, λ a. ground (arith, k.counts a, k.alive a))
