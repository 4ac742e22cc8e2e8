-- ===== src/Queue/Ring.antt =====
-- Walking the ring of slots from one index to another by `advance`.
use fk_prof.Prelude.{
  ℕ, suc, ◌+◌, ◌-◌, ◌%◌, ◌≤◌, ◌<◌, ◌≡◌, ◌≢◌, ◌↔◌, ap, List, [], ◌∷◌, ◌++◌, arith, length,
}
use fk_prof.Queue.{capacity, size, advance, Item}

-- How many steps lead from slot s to slot `stop`.
abbrev pub gap : ℕ → ℕ → ℕ
gap stop s = (stop + capacity - s) % capacity

pub advance-lt : (s : ℕ) → advance s < capacity
unfolding advance
advance-lt s = omega arith

pub advance-ne : (s : ℕ) → s < capacity → advance s ≢ s
unfolding advance
advance-ne s h = omega arith

pub advance_injective : (s t : ℕ) → s < capacity → t < capacity → s ≢ t → advance s ≢ advance t
unfolding advance
advance_injective s t hs ht ne = omega arith

pub gap-advance :
    (stop s : ℕ)
    → stop < capacity
    → s < capacity
    → s ≢ stop
    → gap stop s ≡ suc (gap stop (advance s))
unfolding advance
gap-advance stop s h k ne = omega arith

-- The slots from o up to `stop` hold the items of the list in order, in the sense of P.
abbrev pub Chain : (ℕ → Item → Type 0) → ℕ → ℕ → List Item → Type 0
Chain P stop o [] = o ≡ stop
Chain P stop o (x ∷ xs) = (o ≢ stop) × P o x × Chain P stop (advance o) xs

pub length-Chain :
    (P : ℕ → Item → Type 0) (stop o : ℕ) (xs : List Item)
    → stop < capacity
    → o < capacity
    → Chain P stop o xs
    → length xs ≡ gap stop o
length-Chain P stop o [] hs ho c = omega arith
length-Chain P stop o (x ∷ xs) hs ho c =
    omega (
      arith,
      length-Chain P stop (advance o) xs hs (advance-lt o) c.2,
      gap-advance stop o hs ho c.0,
    )

-- Another reading of the slots serves as well if it agrees on those up to the start.
pub Chain-map :
    (P Q : ℕ → Item → Type 0) (stop o : ℕ) (xs : List Item)
    → stop < capacity
    → o < capacity
    → ((s : ℕ) (x : Item) → s < capacity → s ≢ stop → gap stop s ≤ gap stop o → P s x → Q s x)
    → Chain P stop o xs
    → Chain Q stop o xs
Chain-map P Q stop o [] hs ho f c = c
Chain-map P Q stop o (x ∷ xs) hs ho f c = (
  c.0,
  f o x ho c.0 (omega arith) c.1,
  Chain-map P Q stop (advance o) xs hs (advance-lt o)
      (λ s y hsl ne le p. f s y hsl ne (omega (arith, gap-advance stop o hs ho c.0)) p) c.2,
)

-- One more slot at the end, unless the ring would close.
pub Chain-append :
    (P : ℕ → Item → Type 0) (stop o : ℕ) (xs : List Item) (x : Item)
    → stop < capacity
    → o < capacity
    → o ≢ advance stop
    → P stop x
    → Chain P stop o xs
    → Chain P (advance stop) o (xs ++ (x ∷ []))
Chain-append P stop o [] x hs ho ne p c = (ne, rw c p, ap advance c)
Chain-append P stop o (y ∷ xs) x hs ho ne p c = (
  ne,
  c.1,
  Chain-append P stop (advance o) xs x hs (advance-lt o) (advance_injective o stop ho hs c.0) p c.2,
)

-- The slot after `stop` lies outside the window that ends at `stop`, unless the ring is full.
pub next_outside :
    (stop o : ℕ)
    → stop < capacity
    → o < capacity
    → o ≢ advance stop
    → (gap stop o < gap stop (advance stop)) × (advance stop ≢ stop)
unfolding advance
next_outside stop o h k ne = omega arith

-- What lies outside the window that ends one slot later lies outside this one.
pub outside-advance :
    (stop o s : ℕ)
    → stop < capacity
    → o < capacity
    → s < capacity
    → o ≢ advance stop
    → gap (advance stop) o < gap (advance stop) s
    → (s ≢ stop) × (gap stop o < gap stop s)
unfolding advance
outside-advance stop o s h k l ne lt = omega arith

-- The ring is full exactly when the window has `size` slots.
pub full_iff :
    (stop o : ℕ) → stop < capacity → o < capacity → (o ≡ advance stop) ↔ (gap stop o ≡ size)
unfolding advance
full_iff stop o h k = (λ e. omega arith, λ e. omega arith)

-- A slot of the window behind its first is not the first.
pub outside-tail :
    (stop o s : ℕ)
    → stop < capacity
    → o < capacity
    → o ≢ stop
    → gap stop s ≤ gap stop (advance o)
    → s ≢ o
outside-tail stop o s h k ne le = omega (arith, gap-advance stop o h k ne)

-- What lies outside the window without its first slot lies outside the window, or is that slot.
pub outside_before :
    (stop o s : ℕ)
    → stop < capacity
    → o < capacity
    → s < capacity
    → o ≢ stop
    → s ≢ o
    → gap stop (advance o) < gap stop s
    → gap stop o < gap stop s
outside_before stop o s h k l ne away lt = omega (arith, gap-advance stop o h k ne)
