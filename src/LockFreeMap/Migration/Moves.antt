-- ===== src/LockFreeMap/Migration/Moves.antt =====
-- What a part of a migration (recorder/src/main/cpp/concurrent_map.h) keeps of the live values.
use fk_prof.Prelude.{ℕ, ◌+◌, ◌≤◌, ◌≡◌, ◌≢◌, arith, ◌∙◌, refl}
use fk_prof.LockFreeMap.Defs.{HashTable, hash_empty, val_move}
use fk_prof.LockFreeMap.Valid.{IsValid}
use fk_prof.LockFreeMap.Live.{live, present, IsUnmarked}

-- What a part of a migration keeps: a hash that is live in one of the two tables at most stays so,
-- with its value.
pub record Moves (from dest from' dest' : HashTable) : Type 0 where
  pub from_valid : IsValid from'
  pub dest_valid : IsValid dest'
  pub unmarked : IsUnmarked dest'
  pub from_mask : from'.size_mask ≡ from.size_mask
  pub dest_mask : dest'.size_mask ≡ dest.size_mask
  pub values :
      (h : ℕ)
      → h ≢ hash_empty
      → present (live from h) + present (live dest h) ≤ 1
      → live from' h + live dest' h ≡ live from h + live dest h
  pub places :
      (h : ℕ)
      → h ≢ hash_empty
      → present (live from h) + present (live dest h) ≤ 1
      → present (live from' h) + present (live dest' h)
        ≡ present (live from h) + present (live dest h)
  pub marks : (j : ℕ) → from.value j ≡ val_move → from'.value j ≡ val_move

module _ {from dest : HashTable} (fv : IsValid from) (dv : IsValid dest)
    (un : IsUnmarked dest) where
  pub Moves-none : Moves from dest from dest
  Moves-none = record {
    from_valid = fv;
    dest_valid = dv;
    unmarked = un;
    from_mask = refl;
    dest_mask = refl;
    values = λ h ne le. refl;
    places = λ h ne le. refl;
    marks = λ j e. e;
  }

pub Moves-trans :
    {f d f₁ d₁ f₂ d₂ : HashTable} → Moves f d f₁ d₁ → Moves f₁ d₁ f₂ d₂ → Moves f d f₂ d₂
Moves-trans a b = record {
  from_valid = b.from_valid;
  dest_valid = b.dest_valid;
  unmarked = b.unmarked;
  from_mask = b.from_mask ∙ a.from_mask;
  dest_mask = b.dest_mask ∙ a.dest_mask;
  values = λ h ne le. b.values h ne (omega (arith, a.places h ne le)) ∙ a.values h ne le;
  places = λ h ne le. b.places h ne (omega (arith, a.places h ne le)) ∙ a.places h ne le;
  marks = λ j e. b.marks j (a.marks j e);
}
