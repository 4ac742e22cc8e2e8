-- ===== src/Gc/Count.antt =====
-- Counting the attached threads that have not reached the current epoch.
use fk_prof.Prelude.{
  ℕ, suc, ◌+◌, ◌≤◌, ◌≡◌, refl, List, [], ◌∷◌, ◌++◌, arith, length, ltb, if◌then◌else◌,
}

-- An attached thread: its local epoch, and the moment when it attached or last passed a safepoint,
-- which no method reads.
pub record Thread : Type 0 where
  pub local_epoch : ℕ
  pub passed : ℕ

abbrev pub lag : ℕ → Thread → ℕ
lag global t = if ltb t.local_epoch global then 1 else 0

abbrev pub behind : ℕ → List Thread → ℕ
behind global [] = 0
behind global (t ∷ ts) = lag global t + behind global ts

-- Every thread is at the current epoch or one behind it, and those that are at it have passed a
-- safepoint since it began.
abbrev pub Sound : ℕ → ℕ → ℕ → Thread → Type 0
Sound global began now t =
    (t.local_epoch ≤ global)
    × (global ≤ t.local_epoch + 1)
    × (t.passed ≤ now)
    × (t.local_epoch ≡ global → began ≤ t.passed)

abbrev pub All {ℓ} : {A : Type 0} → (A → Type ℓ) → List A → Type ℓ
All P [] = Unit
All P (x ∷ xs) = P x × All P xs

pub All-map {ℓ κ} :
    {A : Type 0} (P : A → Type ℓ) (Q : A → Type κ) (xs : List A)
    → ((x : A) → P x → Q x)
    → All P xs
    → All Q xs
All-map P Q [] f h = tt
All-map P Q (x ∷ xs) f h = (f x h.0, All-map P Q xs f h.1)

pub All-append {ℓ} :
    {A : Type 0} (P : A → Type ℓ) (xs ys : List A) → All P xs → All P ys → All P (xs ++ ys)
All-append P [] ys h k = k
All-append P (x ∷ xs) ys h k = (h.0, All-append P xs ys h.1 k)

pub All-split {ℓ} :
    {A : Type 0} (P : A → Type ℓ) (xs ys : List A) → All P (xs ++ ys) → All P xs × All P ys
All-split P [] ys h = (tt, h)
All-split P (x ∷ xs) ys h = let (l, r) = All-split P xs ys h.1 in ((h.0, l), r)

pub behind-append : (g : ℕ) (xs ys : List Thread) → behind g (xs ++ ys) ≡ behind g xs + behind g ys
behind-append g [] ys = omega arith
behind-append g (t ∷ xs) ys = omega (arith, behind-append g xs ys)

pub behind-le-length : (g : ℕ) (ts : List Thread) → behind g ts ≤ length ts
behind-le-length g [] = omega arith
behind-le-length g (t ∷ ts) = ground (arith, behind-le-length g ts)

-- Nobody is behind: every thread is at the current epoch.
pub caught_up :
    (g b now : ℕ) (ts : List Thread)
    → behind g ts ≡ 0
    → All (Sound g b now) ts
    → All (λ t. b ≤ t.passed) ts
caught_up g b now [] e h = tt
caught_up g b now (t ∷ ts) e h = (ground (arith, h.0), caught_up g b now ts (ground arith) h.1)

pub at_current :
    (g b now : ℕ) (ts : List Thread)
    → behind g ts ≡ 0
    → All (Sound g b now) ts
    → All (λ t. (t.local_epoch ≡ g) × (t.passed ≤ now)) ts
at_current g b now [] e h = tt
at_current g b now (t ∷ ts) e h = (ground (arith, h.0), at_current g b now ts (ground arith) h.1)

-- Once the epoch has moved on, everybody is behind.
pub behind-suc :
    (g b now : ℕ) (ts : List Thread) → All (Sound g b now) ts → behind (suc g) ts ≡ length ts
behind-suc g b now [] h = refl
behind-suc g b now (t ∷ ts) h = ground (arith, behind-suc g b now ts h.1)
