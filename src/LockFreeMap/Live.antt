-- ===== src/LockFreeMap/Live.antt =====
-- The live value of a hash in a table (recorder/src/main/cpp/concurrent_map.h): neither null nor the
-- mark of a migration.
use fk_prof.Prelude.{
  ℕ, suc, ◌<◌, ◌≡◌, ◌≢◌, Option, none, some, ◌==◌, if◌then◌else◌, arith, ◌∙◌, sym, ap, refl, update,
  update_self, update_ne, ℕ_discrete,
}
use mathlib.Core.Path.{subst}
use fk_prof.LockFreeMap.Defs.{HashTable, set_value, hash_empty, val_move, find}
use fk_prof.LockFreeMap.Valid.{IsValid, lookup, lookup-found, value_at, find-total_at, find-inside}
use fk_prof.LockFreeMap.Store.{Stores, lookup-set_value}

abbrev pub live_value : Option ℕ → ℕ
live_value none = 0
live_value (some v) = if v == val_move then 0 else v

unfoldable pub live : HashTable → ℕ → ℕ
live t h = live_value (lookup t h)

abbrev pub present : ℕ → ℕ
present v = if v == 0 then 0 else 1

-- No cell is marked.
abbrev pub IsUnmarked : HashTable → Type 0
IsUnmarked t = (i : ℕ) → t.value i ≢ val_move

pub live-some : (t : HashTable) (h v : ℕ) → lookup t h ≡ some v → v ≢ val_move → live t h ≡ v
unfolding live
live-some t h v e ne = ap live_value e ∙ ground arith

module _ {t : HashTable} (valid : IsValid t) (i : ℕ) where
  mark_used : t.hash i ≢ hash_empty → lookup t (t.hash i) ≡ some (t.value i)
  mark_used used = let (n, q) = valid.linked.reached i used in lookup-found valid n (t.hash i) i q

  pub mark-IsValid : IsValid (set_value i val_move t)
  mark-IsValid = record {
    rank = valid.rank;
    linked = valid.linked;
    ranked = valid.ranked;
    mask_fits = valid.mask_fits;
    filled = valid.filled;
    unused = λ j e ne. elim (ℕ_discrete i j) [
      | yes q ↦
          absurd (ne (ap (update t.value i val_move) (sym q) ∙ update_self t.value i val_move))
      | no q ↦
          let same = update_ne t.value i j val_move q in
          same ∙ valid.unused j e (λ w. ne (same ∙ w))
    ];
  }

  pub live-mark_other : (h : ℕ) → h ≢ t.hash i → live (set_value i val_move t) h ≡ live t h
  unfolding live
  live-mark_other h ne = ap live_value (lookup-set_value valid i val_move h ne)

  pub live-mark : t.hash i ≢ hash_empty → live (set_value i val_move t) (t.hash i) ≡ 0
  unfolding live
  live-mark used =
      let (n, q) = valid.linked.reached i used in
      ap live_value
        (lookup-found mark-IsValid n (t.hash i) i q ∙ ap some (update_self t.value i val_move))

  pub live-used : t.hash i ≢ hash_empty → t.value i ≢ val_move → live t (t.hash i) ≡ t.value i
  live-used used ne = live-some t (t.hash i) (t.value i) (mark_used used) ne

-- An insertion of a value that is not the mark, seen by what is live.
module _ {t t' : HashTable} {h v old : ℕ} (s : Stores t h v old t') (ne : v ≢ val_move) where
  pub live-stored : live t' h ≡ v
  live-stored = live-some t' h v s.after ne

  pub live-not_stored : (k : ℕ) → k ≢ h → live t' k ≡ live t k
  unfolding live
  live-not_stored k nk = ap live_value (s.others k nk)

  pub stored-IsUnmarked : IsUnmarked t → IsUnmarked t'
  stored-IsUnmarked un i e =
      let (c, q) = s.written in
      let e' : update t.value c v i ≡ val_move = ap (λ f. f i) (sym q) ∙ e in ground (arith, un i)

value_at-not_move :
    (vs : ℕ → ℕ)
    → ((i : ℕ) → vs i ≢ val_move)
    → (r : Option ℕ) → value_at vs (some r) ≢ some val_move
value_at-not_move vs un none q = ground arith
value_at-not_move vs un (some c) q = un c (ground arith)

pub lookup-not_move :
    {t : HashTable} → IsValid t → IsUnmarked t → (h : ℕ) → lookup t h ≢ some val_move
unfolding lookup
lookup-not_move {t = t} valid un h q =
    let (r, e) = find-total_at valid h in
    value_at-not_move t.value un r (sym (ap (value_at t.value) e) ∙ q)

-- The first n cells are marked.
abbrev pub MarkedBelow : ℕ → HashTable → Type 0
MarkedBelow n t = (j : ℕ) → j < n → t.value j ≡ val_move

value_at-marked :
    (t : HashTable)
    → MarkedBelow (suc t.size_mask) t
    → (h : ℕ) (r : Option ℕ) → find t h ≡ some r
    → live_value (value_at t.value (some r)) ≡ 0
value_at-marked t all h none e = refl
value_at-marked t all h (some c) e = ground (arith, all c (omega (arith, find-inside t h c e)))

-- In a table whose cells are all marked nothing is live.
pub live-marked :
    {t : HashTable} → IsValid t → MarkedBelow (suc t.size_mask) t → (h : ℕ) → live t h ≡ 0
unfolding live lookup
live-marked {t = t} valid all h =
    let (r, e) = find-total_at valid h in
    ap (λ o. live_value (value_at t.value o)) e ∙ value_at-marked t all h r e

value_at-live :
    (vs : ℕ → ℕ)
    → ((i : ℕ) → vs i ≢ val_move)
    → (r : Option ℕ) → value_at vs (some r) ≡ some (live_value (value_at vs (some r)))
value_at-live vs un none = refl
value_at-live vs un (some c) = ap some (not_marked (vs c) (un c))
  where
    not_marked : (v : ℕ) → v ≢ val_move → v ≡ (if v == val_move then 0 else v)
    not_marked v ne = ground arith

-- Where no cell is marked, a live value is the one looked up.
pub lookup-live :
    {t : HashTable} → IsValid t → IsUnmarked t → (h : ℕ) → lookup t h ≡ some (live t h)
unfolding live lookup
lookup-live {t = t} valid un h =
    let (r, e) = find-total_at valid h in
    subst (λ o. value_at t.value o ≡ some (live_value (value_at t.value o))) (sym e)
      (value_at-live t.value un r)
