-- ===== src/Profiler/Pool.antt =====
-- The objects of one class, by address: what `new` and `delete` do to them.
use fk_prof.Prelude.{ℕ, Bool, true, false, Option, none, some, List, [], ◌∷◌, ◌==◌, if◌then◌else◌}

infixl 5 ◌>>=◌
abbrev pub ◌>>=◌ {ℓ} : {A B : Type ℓ} → Option A → (A → Option B) → Option B
m >>= f = elim m [ none ↦ none | some a ↦ f a ]

abbrev pub is_null : Option ℕ → Bool
is_null none = true
is_null (some p) = false

-- `==` on pointers.
abbrev pub same : Option ℕ → Option ℕ → Bool
same none none = true
same none (some b) = false
same (some a) none = false
same (some a) (some b) = a == b

abbrev pub Pool : Type 0 → Type 0
Pool A = List (ℕ × A)

-- `delete p`; none if nothing lives at p.
abbrev pub delete : {A : Type 0} → ℕ → Pool A → Option (Pool A)
delete p [] = none
delete p ((a, x) ∷ rest) =
    if a == p then some rest else elim (delete p rest) [ none ↦ none | some r ↦ some ((a, x) ∷ r) ]

-- `if (p) delete p;`
abbrev pub delete_any : {A : Type 0} → Option ℕ → Pool A → Option (Pool A)
delete_any none pool = some pool
delete_any (some p) pool = delete p pool

-- `*p`; none if nothing lives at p.
unfoldable pub read : {A : Type 0} → ℕ → Pool A → Option A
read p [] = none
read p ((a, x) ∷ rest) = if a == p then some x else read p rest

-- `*p = f(*p)`
unfoldable pub modify : {A : Type 0} → ℕ → (A → A) → Pool A → Pool A
modify p f [] = []
modify p f ((a, x) ∷ rest) = if a == p then (a, f x) ∷ rest else (a, x) ∷ modify p f rest

abbrev pub addresses : {A : Type 0} → Pool A → List ℕ
addresses [] = []
addresses ((a, x) ∷ rest) = a ∷ addresses rest
