-- ===== src/ProfileWriter/Contents.antt =====
-- The buffer never overflows, and the file does not show where it was flushed.
use fk_prof.Prelude.{
  ℕ, ◌+◌, ◌%◌, ◌^◌, ◌≤◌, ◌<◌, ◌≡◌, refl, sym, ap, ◌∙◌, true, Bool-cases, inl, inr, Option, none,
  some, List, [], ◌∷◌, ◌++◌, ltb, length, length-append, drop, arith,
}
use mathlib.Core.List.{append_assoc, append-nil}
use fk_prof.Prelude.Word.{u32_mod}
use fk_prof.ProfileWriter.{
  ProfileWriter, min_free_buff, buff_sz, ensure_freebuff, put, fresh, write_unchecked,
  write_unchecked_obj, write_checksum, write_header, append_wse, destroy,
}

-- All bytes so far, those in the buffer included.
abbrev pub bytes : ProfileWriter → List ℕ
bytes w = w.written ++ w.buffered

record Sound (w : ProfileWriter) : Type 0 where
  fits : length w.buffered ≤ w.data_capacity
  small : w.data_capacity < 2 ^ 31

record Room (n : ℕ) (w w' : ProfileWriter) : Type 0 where
  sound : Sound w'
  room : length w'.buffered + n ≤ w'.data_capacity
  same : bytes w' ≡ bytes w
  adler : w'.adler ≡ w.adler

ensure_freebuff-Room :
    (n : ℕ) (w : ProfileWriter) → n < 2 ^ 30 → Sound w → Room n w (ensure_freebuff n w)
unfolding ensure_freebuff
ensure_freebuff-Room n w h s =
    elim (Bool-cases (ltb w.data_capacity ((length w.buffered + n) % u32_mod))) [
      | inl over ↦ elim (Bool-cases (ltb w.data_capacity n)) [
        | inl grow ↦
            rw (over, grow)
              (record {
                sound = record { fits = omega arith; small = omega arith };
                room = omega arith;
                same = append-nil (w.written ++ w.buffered);
                adler = refl;
              })
        | inr keep ↦
            rw (over, keep)
              (record {
                sound = record { fits = omega arith; small = s.small };
                room = ground arith;
                same = append-nil (w.written ++ w.buffered);
                adler = refl;
              })
      ]
      | inr under ↦
          rw under (record {
            sound = s;
            room = ground (arith, s.fits, s.small);
            same = refl;
            adler = refl;
          })
    ]

ensure_freebuff-empty :
    (n : ℕ) (w : ProfileWriter) → w.buffered ≡ [] → (ensure_freebuff n w).buffered ≡ []
unfolding ensure_freebuff
ensure_freebuff-empty n w e =
    elim (Bool-cases (ltb w.data_capacity ((length w.buffered + n) % u32_mod))) [
      | inl over ↦ rw over refl
      | inr under ↦ rw under e
    ]

put-some :
    (bs : List ℕ) (w : ProfileWriter)
    → length w.buffered + length bs ≤ w.data_capacity
    → put bs w ≡ some (record w { buffered = w.buffered ++ bs })
unfolding put
put-some bs w h = ground arith

bind-some :
    {A B : Type 0} (o : Option A) (f : A → Option B) {a : A}
    → o ≡ some a
    → elim o as (λ _. Option B) [ none ↦ none | some x ↦ f x ] ≡ f a
bind-some o f e = rw e refl

drop-append : (xs ys : List ℕ) → drop (length xs) (xs ++ ys) ≡ ys
drop-append [] ys = refl
drop-append (x ∷ xs) ys = drop-append xs ys

module _ (varint : ℕ → List ℕ) (adler32 : ℕ → List ℕ → ℕ) (adler_start version : ℕ) where
  abbrev pub framed : List ℕ → List ℕ
  framed m = varint (length m) ++ m

  -- A message as it stands in the file: its size, itself, and the checksum of both.
  abbrev pub event_bytes : List ℕ → List ℕ
  event_bytes e = framed e ++ varint (adler32 adler_start (framed e))

  -- The header: the version, and its checksum is over the version too.
  abbrev pub header_bytes : List ℕ → List ℕ
  header_bytes h =
      (varint version ++ framed h) ++ varint (adler32 adler_start (varint version ++ framed h))

  -- The calls of `append_wse` for a list of messages.
  pub append_all : List (List ℕ) → ProfileWriter → Option ProfileWriter
  append_all [] w = some w
  append_all (e ∷ es) w = elim (append_wse varint adler32 adler_start version e w) [
    | none ↦ none
    | some w' ↦ append_all es w'
  ]

  abbrev pub all_bytes : List (List ℕ) → List ℕ
  all_bytes [] = []
  all_bytes (e ∷ es) = event_bytes e ++ all_bytes es

  abbrev pub AllSmall : List (List ℕ) → Type 0
  AllSmall [] = Unit {0}
  AllSmall (e ∷ es) = (length e + min_free_buff < 2 ^ 30) × AllSmall es

  module _ (varint_short : (x : ℕ) → x < 2 ^ 32 → length (varint x) ≤ 5)
      (adler32_small : (a : ℕ) (bs : List ℕ) → adler32 a bs < 2 ^ 32) where
    write_unchecked_obj-some :
        (m : List ℕ) (w : ProfileWriter)
        → length w.buffered + (length m + 5) ≤ w.data_capacity
        → length m < 2 ^ 30
        → write_unchecked_obj varint adler32 adler_start version m w
          ≡ some (record w { buffered = w.buffered ++ framed m })
    unfolding write_unchecked_obj write_unchecked
    write_unchecked_obj-some m w room small =
        bind-some (put (varint (length m)) w) (put m)
          (put-some (varint (length m)) w (omega (arith, varint_short (length m) (omega arith))))
        ∙ put-some m (record w { buffered = w.buffered ++ varint (length m) })
            (omega (
              arith,
              varint_short (length m) (omega arith),
              length-append w.buffered (varint (length m)),
            ))
        ∙ ap (λ b. some (record w { buffered = b })) (append_assoc w.buffered (varint (length m)) m)

    write_checksum-some :
        (bs : List ℕ) (w : ProfileWriter)
        → length w.buffered + 5 ≤ w.data_capacity
        → write_checksum varint adler32 adler_start version bs w
          ≡ some (record w {
            buffered = w.buffered ++ varint (adler32 w.adler bs);
            adler = adler32 w.adler bs;
          })
    unfolding write_checksum write_unchecked
    write_checksum-some bs w room =
        put-some (varint (adler32 w.adler bs)) (record w { adler = adler32 w.adler bs })
          (omega (arith, varint_short (adler32 w.adler bs) (adler32_small w.adler bs)))

    length-framed : (m : List ℕ) → length m < 2 ^ 30 → length (framed m) ≤ length m + 5
    length-framed m h =
        omega (arith, length-append (varint (length m)) m, varint_short (length m) (omega arith))

    append_wse-bytes :
        (e : List ℕ) (w : ProfileWriter)
        → length e + min_free_buff < 2 ^ 30
        → Sound w
        → (w' : ProfileWriter) × (append_wse varint adler32 adler_start version e w ≡ some w')
          × Sound w'
          × (bytes w' ≡ bytes w ++ event_bytes e)
    unfolding append_wse
    append_wse-bytes e w h s =
        let w₁ = ensure_freebuff ((length e + min_free_buff) % u32_mod) w in
        let r = ensure_freebuff-Room ((length e + min_free_buff) % u32_mod) w (omega arith) s in
        let w₂ = record w₁ { buffered = w₁.buffered ++ framed e; adler = adler_start } in
        let fill = length-append w₁.buffered (framed e) in
        let sum = adler32 adler_start (framed e) in
        (
          record w₂ { buffered = w₂.buffered ++ varint sum; adler = sum },
          bind-some (write_unchecked_obj varint adler32 adler_start version e w₁)
                (λ w'.
                  write_checksum varint adler32 adler_start version
                    (drop (length w₁.buffered) w'.buffered) (record w' { adler = adler_start }))
                (write_unchecked_obj-some e w₁ (omega (arith, r.room)) (omega arith))
              ∙ ap (λ b. write_checksum varint adler32 adler_start version b w₂)
                  (drop-append w₁.buffered (framed e))
              ∙ write_checksum-some (framed e) w₂
                  (omega (arith, r.room, fill, length-framed e (omega arith))),
          record {
            fits = omega (
              arith,
              r.room,
              fill,
              length-framed e (omega arith),
              length-append w₂.buffered (varint sum),
              varint_short sum (adler32_small adler_start (framed e)),
            );
            small = r.sound.small;
          },
          ap (λ b. w₁.written ++ b) (append_assoc w₁.buffered (framed e) (varint sum))
              ∙ sym (append_assoc w₁.written w₁.buffered (event_bytes e))
              ∙ ap (λ b. b ++ event_bytes e) r.same,
        )

    header_bytes-written :
        (h : List ℕ)
        → version < 2 ^ 32
        → length h + min_free_buff < 2 ^ 30
        → (w : ProfileWriter) × (write_header varint adler32 adler_start version h
              (fresh varint adler32 adler_start version)
            ≡ some w)
          × Sound w
          × (bytes w ≡ header_bytes h)
    unfolding write_header write_unchecked fresh
    header_bytes-written h vs hs =
        let w₀ : ProfileWriter = record {
          written = [];
          buffered = [];
          data_capacity = buff_sz;
          header_written = true;
          adler = adler_start;
        } in
        let n = (length h + min_free_buff) % u32_mod in
        let w₁ = ensure_freebuff n w₀ in
        let r =
          ensure_freebuff-Room n w₀ (omega arith)
            (record { fits = omega arith; small = omega arith }) in
        let empty = ensure_freebuff-empty n w₀ refl in
        let v = varint version in
        let w₂ = record w₁ { buffered = w₁.buffered ++ v } in
        let w₃ = record w₁ { buffered = (w₁.buffered ++ v) ++ framed h } in
        let sum = adler32 w₁.adler w₃.buffered in
        let fill₁ = length-append w₁.buffered v in
        let fill₂ = length-append w₂.buffered (framed h) in
        let v_short = varint_short version vs in
        let body : w₃.buffered ≡ v ++ framed h = ap (λ b. (b ++ v) ++ framed h) empty in
        (
          record w₃ { buffered = w₃.buffered ++ varint sum; adler = sum },
          bind-some (put v w₁)
                (λ w. elim (write_unchecked_obj varint adler32 adler_start version h w) [
                  | none ↦ none
                  | some w' ↦ write_checksum varint adler32 adler_start version w'.buffered w'
                ])
                (put-some v w₁ (omega (arith, r.room, v_short)))
              ∙ bind-some (write_unchecked_obj varint adler32 adler_start version h w₂)
                  (λ w'. write_checksum varint adler32 adler_start version w'.buffered w')
                  (write_unchecked_obj-some h w₂ (omega (arith, r.room, v_short, fill₁))
                    (omega arith))
              ∙ write_checksum-some w₃.buffered w₃
                  (omega (arith, r.room, v_short, fill₁, fill₂, length-framed h (omega arith))),
          record {
            fits = omega (
              arith,
              r.room,
              v_short,
              fill₁,
              fill₂,
              length-framed h (omega arith),
              length-append w₃.buffered (varint sum),
              varint_short sum (adler32_small w₁.adler w₃.buffered),
            );
            small = r.sound.small;
          },
          ap (λ b. b ++ (w₃.buffered ++ varint sum))
                (sym (append-nil w₁.written) ∙ ap (λ b. w₁.written ++ b) (sym empty) ∙ r.same)
              ∙ ap (λ b. b ++ varint (adler32 w₁.adler b)) body
              ∙ ap (λ a. (v ++ framed h) ++ varint (adler32 a (v ++ framed h))) r.adler,
        )

    append_all-bytes :
        (es : List (List ℕ)) (w : ProfileWriter)
        → AllSmall es
        → Sound w
        → (w' : ProfileWriter) × (append_all es w ≡ some w')
          × Sound w'
          × (bytes w' ≡ bytes w ++ all_bytes es)
    unfolding append_all
    append_all-bytes [] w small s = (w, refl, s, sym (append-nil (bytes w)))
    append_all-bytes (e ∷ es) w small s =
        let (w₁, e₁, s₁, b₁) = append_wse-bytes e w small.0 s in
        let (w₂, e₂, s₂, b₂) = append_all-bytes es w₁ small.1 s₁ in
        (
          w₂,
          bind-some (append_wse varint adler32 adler_start version e w) (append_all es) e₁ ∙ e₂,
          s₂,
          b₂
              ∙ ap (λ b. b ++ all_bytes es) b₁
              ∙ append_assoc (bytes w) (event_bytes e) (all_bytes es),
        )

    -- A new writer takes a header and any messages, with no write behind the end of its buffer, and
    -- when it is destroyed its file holds the header and the messages in order, each with its size
    -- and checksum: where the buffer was flushed does not show. The conditions are that the version
    -- is a 32-bit number and that a message and its reserve stay below 2 ^ 30 bytes; that
    -- protobuf's encoding of a 32-bit number has at most five bytes; and that zlib's checksum is a 32-bit
    -- number.
    pub file_contents :
        (h : List ℕ) (es : List (List ℕ))
        → version < 2 ^ 32
        → length h + min_free_buff < 2 ^ 30
        → AllSmall es
        → (w : ProfileWriter) × (w' : ProfileWriter) × (write_header varint adler32 adler_start
              version h
              (fresh varint adler32 adler_start version)
            ≡ some w)
          × (append_all es w ≡ some w')
          × (destroy w' ≡ header_bytes h ++ all_bytes es)
    unfolding destroy
    file_contents h es vs hs small =
        let (w, e, s, b) = header_bytes-written h vs hs in
        let (w', e', s', b') = append_all-bytes es w small s in
        (w, w', e, e', b' ∙ ap (λ x. x ++ all_bytes es) b)
