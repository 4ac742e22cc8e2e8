-- ===== src/Agent/Missing.antt =====
-- A key without a value (recorder/src/main/cpp/agent.cpp, parseArguments): strchr finds the `=` of a
-- later pair.
use fk_prof.Prelude.{
  ℕ, zero, suc, ◌<◌, ◌≡◌, Option, none, some, [], ◌∷◌, ◌++◌, length, arith, refl, ap, ◌∙◌, not,
}
use fk_prof.Agent.{
  Text, codes, strchr, starts_with, atoi, ConfigurationOptions, safe_copy_string, assign, one_key,
  go_on, parse_keys, parse_arguments,
}
use fk_prof.Prelude.Int.{pos, eqb_ℤ}
use fk_prof.Agent.Print.{InInt}
use fk_prof.Agent.Parsed.{shorter}

go_on_same :
    (d : Option ConfigurationOptions) (next : Option Text)
    (f g : Text → ConfigurationOptions → Option ConfigurationOptions)
    → ((x : ℕ) (r : Text) (c : ConfigurationOptions) → next ≡ some (x ∷ r) → f r c ≡ g r c)
    → go_on d next f ≡ go_on d next g
go_on_same none next f g h = refl
go_on_same (some c) none f g h = refl
go_on_same (some c) (some []) f g h = refl
go_on_same (some c) (some (x ∷ r)) f g h = h x r c refl

-- Once there is fuel for each byte, more of it changes nothing.
parse_keys_fuel :
    (n k : ℕ) (key : Text) (c : ConfigurationOptions)
    → length key < n
    → length key < k
    → parse_keys n key c ≡ parse_keys k key c
unfolding parse_keys
parse_keys_fuel zero k key c p q = absurd (omega arith)
parse_keys_fuel (suc n) zero key c p q = absurd (omega arith)
parse_keys_fuel (suc n) (suc k) key c p q =
    go_on_same (one_key key (strchr 61 key) (strchr 44 key) c) (strchr 44 key) (parse_keys n)
      (parse_keys k)
      (λ x r c' e.
        let less = shorter 44 key r x e in parse_keys_fuel n k r c' (omega arith) (omega arith))

short_value : (v more : Text) → length v < length more → safe_copy_string v (some more) ≡ none
unfolding safe_copy_string
short_value v more lt = ground arith

module _ (rest v : Text) (c : ConfigurationOptions) (later : strchr 61 rest ≡ some (61 ∷ v)) where
  -- A key that is set by a number takes v; the loop goes on after the key.
  number_key :
      (key : Text) (c' : ConfigurationOptions)
      → strchr 44 (key ++ 44 ∷ rest) ≡ some (44 ∷ rest)
      → strchr 61 (key ++ 44 ∷ rest) ≡ some (61 ∷ v)
      → one_key (key ++ 44 ∷ rest) (some (61 ∷ v)) (some (44 ∷ rest)) c ≡ some c'
      → length rest < length (key ++ 44 ∷ rest)
      → parse_arguments (some (key ++ 44 ∷ rest)) c ≡ parse_arguments (some rest) c'
  unfolding parse_arguments parse_keys
  number_key key c' next value done less =
      ap
        (λ q.
          go_on (one_key (key ++ 44 ∷ rest) (strchr 61 (key ++ 44 ∷ rest)) q c) q
            (parse_keys (length (key ++ 44 ∷ rest))))
        next
      ∙ ap
          (λ q.
            go_on (one_key (key ++ 44 ∷ rest) q (some (44 ∷ rest)) c) (some (44 ∷ rest))
              (parse_keys (length (key ++ 44 ∷ rest))))
          value
      ∙ ap (λ d. go_on d (some (44 ∷ rest)) (parse_keys (length (key ++ 44 ∷ rest)))) done
      ∙ parse_keys_fuel (length (key ++ 44 ∷ rest)) (suc (length rest)) rest c' less (omega arith)

  -- Where a key has no value but a later pair has the value v, which as a number is within an int: a key
  -- for a string makes a copy of negative size, which no memory can hold; and each key for a number
  -- takes v, before the loop goes on after the key.
  pub missing_value :
      InInt (atoi v)
      → (parse_arguments (some (codes "host" ++ 44 ∷ rest)) c ≡ none)
        × (parse_arguments (some (codes "port" ++ 44 ∷ rest)) c ≡ none)
        × (parse_arguments (some (codes "logPath" ++ 44 ∷ rest)) c ≡ none)
        × (parse_arguments (some (codes "maxFrames" ++ 44 ∷ rest)) c
            ≡ parse_arguments (some rest) (record c { max_frames_to_capture = atoi v }))
        × (parse_arguments (some (codes "intervalMin" ++ 44 ∷ rest)) c
            ≡ parse_arguments (some rest) (record c { sampling_interval_min = atoi v }))
        × (parse_arguments (some (codes "intervalMax" ++ 44 ∷ rest)) c
            ≡ parse_arguments (some rest) (record c { sampling_interval_max = atoi v }))
        × (parse_arguments (some (codes "interval" ++ 44 ∷ rest)) c
            ≡ parse_arguments
                (some rest)
                (record c { sampling_interval_min = atoi v; sampling_interval_max = atoi v }))
        × (parse_arguments (some (codes "start" ++ 44 ∷ rest)) c
            ≡ parse_arguments (some rest) (record c { start = not (eqb_ℤ (atoi v) (pos 0)) }))
  unfolding parse_arguments parse_keys strchr assign starts_with
  missing_value fits =
      let less = shorter 61 rest v 61 later in
      let no_copy : safe_copy_string v (some (44 ∷ rest)) ≡ none =
        short_value v (44 ∷ rest) (omega arith) in
      (
        rw (later, no_copy),
        rw (later, no_copy),
        rw (later, no_copy),
        number_key (codes "maxFrames") _ refl later refl (omega arith),
        number_key (codes "intervalMin") _ refl later refl (omega arith),
        number_key (codes "intervalMax") _ refl later refl (omega arith),
        number_key (codes "interval") _ refl later refl (omega arith),
        number_key (codes "start") _ refl later refl (omega arith),
      )
