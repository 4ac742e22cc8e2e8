-- ===== src/LockFreeMap/Provider/Client.antt =====
-- Whole sequences of calls of the provider (recorder/src/main/cpp/concurrent_map.h), from a new map on.
use fk_prof.Prelude.{
  ℕ, ◌+◌, ◌*◌, ◌/◌, ◌≤◌, ◌≡◌, ◌≢◌, ◌⊎◌, refl, ap, ◌∙◌, Option, none, some, List, [], ◌∷◌, false,
  inl, inr, update,
}
use fk_prof.LockFreeMap.Defs.{HashTable, hash_empty, val_empty, val_move, new_table}
use fk_prof.LockFreeMap.New.{
  new_table-IsValid, new_table-IsChunked, new_table-IsUnmarked, lookup-new_table,
}
use fk_prof.LockFreeMap.Provider.{
  root, migrating, Round, returns, continues, put_rounds, get, remove, capacity, unsafe_used,
  unsafe_dirty,
}
use fk_prof.LockFreeMap.Provider.Rounds.{HoldsRoot, at_root, has_put, goes_on, put_rounds-Rounds}
use fk_prof.LockFreeMap.Provider.Calls.{get-value, remove-value, unsafe_used-bound}

pub data Call : Type 0 where
  puts : (h v : ℕ) → Call
  gets : (h : ℕ) → Call
  removes : (h : ℕ) → Call

-- The answers to all calls, and the table then; a put whose rounds are used up by migrations; or a
-- call that waits for another thread.
pub data Served : Type 0 where
  answered : List ℕ → HashTable → Served
  out_of_rounds : Served
  waits : Served

abbrev first : ℕ → Served → Served
first x (answered xs t) = answered (x ∷ xs) t
first x out_of_rounds = out_of_rounds
first x waits = waits

abbrev after_put : Option Round → (HashTable → Served) → Served
after_put none k = waits
after_put (some (returns old (root t))) k = first old (k t)
after_put (some (returns old (migrating m))) k = waits
after_put (some (continues d m)) k = out_of_rounds

abbrev after_get : Option ℕ → Served → Served
after_get none s = waits
after_get (some x) s = first x s

abbrev after_remove : Option (ℕ × HashTable) → (HashTable → Served) → Served
after_remove none k = waits
after_remove (some (x, t)) k = first x (k t)

-- The calls one after the other, with at most n rounds for each put.
unfoldable pub serve_all : ℕ → List Call → HashTable → Served
serve_all n [] t = answered [] t
serve_all n (puts h v ∷ cs) t = after_put (put_rounds n false (root t) h v) (serve_all n cs)
serve_all n (gets h ∷ cs) t = after_get (get t h) (serve_all n cs t)
serve_all n (removes h ∷ cs) t = after_remove (remove t h) (serve_all n cs)

-- What a map from hashes to values answers.
abbrev pub expected : List Call → (ℕ → ℕ) → List ℕ
expected [] f = []
expected (puts h v ∷ cs) f = f h ∷ expected cs (update f h v)
expected (gets h ∷ cs) f = f h ∷ expected cs f
expected (removes h ∷ cs) f = f h ∷ expected cs (update f h val_empty)

-- No call has the hash MapHashEmpty, and no put the value MapValMove.
abbrev pub AllLegal : List Call → Type 0
AllLegal [] = Unit {0}
AllLegal (puts h v ∷ cs) = (h ≢ hash_empty) × (v ≢ val_move) × AllLegal cs
AllLegal (gets h ∷ cs) = (h ≢ hash_empty) × AllLegal cs
AllLegal (removes h ∷ cs) = (h ≢ hash_empty) × AllLegal cs

data Serves (xs : List ℕ) (s : Served) : Type 0 where
  serves : (g : ℕ → ℕ) (t : HashTable) → HoldsRoot g t → s ≡ answered xs t → Serves xs s
  uses_up : s ≡ out_of_rounds → Serves xs s

first-Serves :
    (x : ℕ) (xs : List ℕ) (s s' : Served) → s' ≡ first x s → Serves xs s → Serves (x ∷ xs) s'
first-Serves x xs s s' e (serves g t k q) = serves g t k (e ∙ ap (first x) q)
first-Serves x xs s s' e (uses_up q) = uses_up (e ∙ ap (first x) q)

serve_all-Serves :
    (n : ℕ) (cs : List Call) (f : ℕ → ℕ) (t : HashTable)
    → HoldsRoot f t
    → AllLegal cs
    → Serves (expected cs f) (serve_all n cs t)
unfolding serve_all
serve_all-Serves n [] f t k legal = serves f t k refl
serve_all-Serves n (puts h v ∷ cs) f t k legal =
    elim (put_rounds-Rounds h v legal.0 legal.1 n false (root t) (at_root k)) [
      | has_put t' k' e ↦
          first-Serves (f h) _ (serve_all n cs t') _ (ap (λ o. after_put o (serve_all n cs)) e)
            (serve_all-Serves n cs (update f h v) t' k' legal.2)
      | goes_on d m k' e ↦ uses_up (ap (λ o. after_put o (serve_all n cs)) e)
    ]
serve_all-Serves n (gets h ∷ cs) f t k legal =
    first-Serves (f h) _ (serve_all n cs t) _
      (ap (λ o. after_get o (serve_all n cs t)) (get-value k h legal.0))
      (serve_all-Serves n cs f t k legal.1)
serve_all-Serves n (removes h ∷ cs) f t k legal =
    let (t', e, k') = remove-value k h legal.0 in
    first-Serves (f h) _ (serve_all n cs t') _ (ap (λ o. after_remove o (serve_all n cs)) e)
      (serve_all-Serves n cs (update f h val_empty) t' k' legal.1)

new_Serves :
    (initial_size n : ℕ) (cs : List Call)
    → AllLegal cs
    → Serves (expected cs (λ h. val_empty)) (serve_all n cs (new_table initial_size))
new_Serves initial_size n cs legal =
    serve_all-Serves n cs (λ h. val_empty) (new_table initial_size)
      (record {
        valid = new_table-IsValid initial_size;
        chunked = new_table-IsChunked initial_size;
        unmarked = new_table-IsUnmarked initial_size;
        lookups = λ h ne. lookup-new_table initial_size h;
      })
      legal

-- Any sequence of put, get and remove on a new map of any size, one call after the other, without the
-- hash MapHashEmpty and the value MapValMove, is answered as a map from hashes to values answers it:
-- each call with the value that was last put for its hash and not removed since, or with null. It
-- never waits for another thread; only a put may end it whose n rounds are all used by migrations.
pub serve_all-expected :
    (initial_size n : ℕ) (cs : List Call)
    → AllLegal cs
    → ((t : HashTable) × (serve_all n cs (new_table initial_size)
          ≡ answered (expected cs (λ h. val_empty)) t))
      ⊎ (serve_all n cs (new_table initial_size) ≡ out_of_rounds)
serve_all-expected initial_size n cs legal = elim (new_Serves initial_size n cs legal) [
  | serves g t k e ↦ inl (t, e)
  | uses_up e ↦ inr e
]

-- After any such sequence of calls that is answered, the cells with a value are at most those with a
-- hash, and these are, with the free buckets, three quarters of the capacity.
pub serve_all-bound :
    (initial_size n : ℕ) (cs : List Call)
    → AllLegal cs
    → ((xs : List ℕ) × (t : HashTable) × (serve_all n cs (new_table initial_size) ≡ answered xs t)
        × (unsafe_used t ≤ unsafe_dirty t)
        × (unsafe_dirty t + t.free_buckets ≡ 3 * capacity t / 4))
      ⊎ (serve_all n cs (new_table initial_size) ≡ out_of_rounds)
serve_all-bound initial_size n cs legal = elim (new_Serves initial_size n cs legal) [
  | serves g t k e ↦ let (used, dirty) = unsafe_used-bound t k.valid in inl (_, t, e, used, dirty)
  | uses_up e ↦ inr e
]
