-- ===== src/LogWriter/Decode.antt =====
-- Reading the log file back.
use fk_prof.Prelude.{
  ℕ, zero, suc, ◌+◌, ◌*◌, ◌/◌, ◌%◌, ◌^◌, ◌<◌, ◌≡◌, refl, ap, ◌∙◌, Option, none, some, List, [], ◌∷◌,
  ◌++◌, ◌==◌, if◌then◌else◌, length, length-append, arith,
}
use mathlib.Core.List.{append_assoc}
use fk_prof.Prelude.Int.{ℤ, pos, negsuc}
use fk_prof.Prelude.Word.{int_bits, bits_int, FitsInt, bits_int-int_bits, int_bits-lt}
use fk_prof.LogWriter.Defs.{
  Text, trace_start, frame_bci_only, new_method, frame_full, jint_size, id_size,
}
use fk_prof.LogWriter.Format.{
  Event, start, at_bci, at_line, method, big_endian, encode_int, encode_text, encode, encode_all,
}

-- A reader takes bytes off the front; `none` is the end of the file.
abbrev Reader : Type 0 → Type 0
Reader A = List ℕ → Option (A × List ℕ)

infixl 5 ◌>>=◌
abbrev ◌>>=◌ : {A B : Type 0} → Reader A → (A → Reader B) → Reader B
◌>>=◌ m f bs = elim (m bs) [ none ↦ none | some (a, rest) ↦ f a rest ]

abbrev pure : {A : Type 0} → A → Reader A
pure a bs = some (a, bs)

read_bytes : ℕ → ℕ → Reader ℕ
read_bytes zero acc bs = some (acc, bs)
read_bytes (suc n) acc [] = none
read_bytes (suc n) acc (b ∷ bs) = read_bytes n (acc * 256 + b) bs

read_int : Reader ℤ
read_int = do x ← read_bytes jint_size 0; pure (bits_int 32 x)

read_id : Reader ℕ
read_id = read_bytes id_size 0

read_chars : ℕ → Reader Text
read_chars zero bs = some ([], bs)
read_chars (suc n) [] = none
read_chars (suc n) (b ∷ bs) = elim (read_chars n bs) [
  | none ↦ none
  | some (t, rest) ↦ some (b ∷ t, rest)
]

length_of : ℤ → ℕ
length_of (pos n) = n
length_of (negsuc n) = 0

read_text : Reader Text
read_text = do n ← read_int; read_chars (length_of n)

read_event : Reader Event
read_event [] = none
read_event (tag ∷ bs) =
    if tag == trace_start
    then (do n ← read_int; thread ← read_id; pure (start n thread)) bs
    else if tag == frame_bci_only
    then (do bci ← read_int; m ← read_id; pure (at_bci bci m)) bs
    else if tag == frame_full
    then (do bci ← read_int; line ← read_int; m ← read_id; pure (at_line bci line m)) bs
    else if tag == new_method
    then (do
      m ← read_id
      file ← read_text
      class ← read_text
      name ← read_text
      pure (method m (record { file_name = file; class_name = class; method_name = name })))
        bs
    else none

-- Fuel: an event has a byte at least.
pub decode : ℕ → List ℕ → Option (List Event)
decode zero bs = none
decode (suc fuel) [] = some []
decode (suc fuel) (b ∷ bs) = elim (read_event (b ∷ bs)) [
  | none ↦ none
  | some (e, rest) ↦ elim (decode fuel rest) [ none ↦ none | some es ↦ some (e ∷ es) ]
]

-- The numbers of an event are in the ranges of their C types.
abbrev pub InRange : Event → Type 0
InRange (start n thread) = FitsInt 32 n × (thread < 2 ^ 64)
InRange (at_bci bci m) = FitsInt 32 bci × (m < 2 ^ 64)
InRange (at_line bci line m) = FitsInt 32 bci × FitsInt 32 line × (m < 2 ^ 64)
InRange (method m info) =
    (m < 2 ^ 64)
    × (length info.file_name < 2 ^ 31)
    × (length info.class_name < 2 ^ 31)
    × (length info.method_name < 2 ^ 31)

word_4 :
    (x : ℕ)
    → x < 2 ^ 32
    → (((0 + x / 256 / 256 / 256 % 256) * 256 + x / 256 / 256 % 256) * 256 + x / 256 % 256) * 256
        + x % 256
      ≡ x
word_4 x h = omega arith

word_8 :
    (x : ℕ)
    → x < 2 ^ 64
    → (((((((0 + x / 256 / 256 / 256 / 256 / 256 / 256 / 256 % 256) * 256
                                + x / 256 / 256 / 256 / 256 / 256 / 256 % 256)
                              * 256
                            + x / 256 / 256 / 256 / 256 / 256 % 256)
                          * 256
                        + x / 256 / 256 / 256 / 256 % 256)
                      * 256
                    + x / 256 / 256 / 256 % 256)
                  * 256
                + x / 256 / 256 % 256)
              * 256
            + x / 256 % 256)
          * 256
        + x % 256
      ≡ x
word_8 x h = omega arith

read_int-encode :
    (z : ℤ) (rest : List ℕ) → FitsInt 32 z → read_int (encode_int z ++ rest) ≡ some (z, rest)
unfolding read_int read_bytes
read_int-encode z rest h =
    ap (λ x. some (bits_int 32 x, rest)) (word_4 (int_bits 32 z) (int_bits-lt z))
    ∙ ap (λ y. some (y, rest)) (bits_int-int_bits z h)

read_id-encode :
    (m : ℕ) (rest : List ℕ) → m < 2 ^ 64 → read_id (big_endian id_size m ++ rest) ≡ some (m, rest)
unfolding read_id read_bytes
read_id-encode m rest h = ap (λ x. some (x, rest)) (word_8 m h)

read_chars-append : (t : Text) (rest : List ℕ) → read_chars (length t) (t ++ rest) ≡ some (t, rest)
unfolding read_chars
read_chars-append [] rest = refl
read_chars-append (b ∷ t) rest = rw (read_chars-append t rest)

bind_step :
    {A B : Type 0} (m : Reader A) (f : A → Reader B) (bs : List ℕ) {a : A} {rest : List ℕ}
    → m bs ≡ some (a, rest)
    → (m >>= f) bs ≡ f a rest
bind_step m f bs e = rw (e, ◌>>=◌)

read_text-encode :
    (t : Text) (rest : List ℕ)
    → length t < 2 ^ 31
    → read_text (encode_text t ++ rest) ≡ some (t, rest)
unfolding read_text length_of
read_text-encode t rest h =
    bind_step read_int (λ n. read_chars (length_of n)) (encode_text t ++ rest)
      (ap read_int (append_assoc (encode_int (pos (length t))) t rest)
        ∙ read_int-encode (pos (length t)) (t ++ rest) h)
    ∙ read_chars-append t rest

read_event-encode :
    (e : Event) (rest : List ℕ) → InRange e → read_event (encode e ++ rest) ≡ some (e, rest)
unfolding read_event
read_event-encode (start n thread) rest h =
    bind_step read_int _ _ (read_int-encode n (big_endian id_size thread ++ rest) h.0)
    ∙ bind_step read_id _ _ (read_id-encode thread rest h.1)
read_event-encode (at_bci bci m) rest h =
    bind_step read_int _ _ (read_int-encode bci (big_endian id_size m ++ rest) h.0)
    ∙ bind_step read_id _ _ (read_id-encode m rest h.1)
read_event-encode (at_line bci line m) rest h =
    bind_step read_int _ _
      (read_int-encode bci (encode_int line ++ (big_endian id_size m ++ rest)) h.0)
    ∙ bind_step read_int _ _ (read_int-encode line (big_endian id_size m ++ rest) h.1)
    ∙ bind_step read_id _ _ (read_id-encode m rest h.2)
read_event-encode (method m info) rest h =
    bind_step read_id _ _ (read_id-encode m (texts ++ rest) h.0)
    ∙ bind_step read_text _ _ (ap read_text three ∙ read_text-encode info.file_name _ h.1)
    ∙ bind_step read_text _ _ (read_text-encode info.class_name _ h.2)
    ∙ bind_step read_text _ _ (read_text-encode info.method_name rest h.3)
  where
    texts : List ℕ
    texts =
        encode_text info.file_name ++ (encode_text info.class_name ++ encode_text info.method_name)

    three :
        texts ++ rest
        ≡ encode_text info.file_name
          ++ (encode_text info.class_name ++ (encode_text info.method_name ++ rest))
    three =
        append_assoc (encode_text info.file_name) _ rest
        ∙ ap (λ r. encode_text info.file_name ++ r)
            (append_assoc (encode_text info.class_name) (encode_text info.method_name) rest)

length-encode : (e : Event) → 0 < length (encode e)
length-encode (start n thread) = omega arith
length-encode (at_bci bci m) = omega arith
length-encode (at_line bci line m) = omega arith
length-encode (method m info) = omega arith

abbrev pub AllInRange : List Event → Type 0
AllInRange [] = Unit {0}
AllInRange (e ∷ es) = InRange e × AllInRange es

decode_step :
    (fuel : ℕ) (bs : List ℕ) (e : Event) (rest : List ℕ) (es : List Event)
    → 0 < length bs
    → read_event bs ≡ some (e, rest)
    → decode fuel rest ≡ some es
    → decode (suc fuel) bs ≡ some (e ∷ es)
unfolding decode
decode_step fuel [] e rest es h p q = elim h [ ]
decode_step fuel (b ∷ bs) e rest es h p q = rw (p, q, decode)

-- The reader gives back any list of events, with one unit of fuel for each byte and one more.
pub decode-encode_all :
    (es : List Event) (fuel : ℕ)
    → AllInRange es
    → length (encode_all es) < fuel
    → decode fuel (encode_all es) ≡ some es
unfolding decode
decode-encode_all [] zero r h = elim h [ ]
decode-encode_all [] (suc fuel) r h = refl
decode-encode_all (e ∷ es) zero r h = elim h [ ]
decode-encode_all (e ∷ es) (suc fuel) r h =
    decode_step fuel (encode e ++ encode_all es) e (encode_all es) es
      (omega (arith, length-append (encode e) (encode_all es), length-encode e))
      (read_event-encode e (encode_all es) r.0)
      (decode-encode_all es fuel r.1
        (omega (arith, length-append (encode e) (encode_all es), length-encode e)))
