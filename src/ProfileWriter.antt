-- ===== src/ProfileWriter.antt =====
-- ProfileWriter (recorder/src/main/cpp/profile_writer.h) and Checksum (checksum.h and .cpp): the file of
-- protobuf messages, written through a buffer.
pub mod Contents
mod Tests
use fk_prof.Prelude.{
  ℕ, ◌+◌, ◌*◌, ◌%◌, ◌^◌, Bool, true, false, Option, none, some, List, [], ◌++◌, ltb, leb,
  if◌then◌else◌, length, drop,
}
use fk_prof.Prelude.Word.{u32_mod}

-- `buffered` is the part of `data` that is in use, the bytes up to `data_offset`. `written` is what the writer
-- `_w` has been given, `adler` the state of `chksum`.
pub record ProfileWriter : Type 0 where
  pub written : List ℕ
  pub buffered : List ℕ
  pub data_capacity : ℕ
  pub header_written : Bool
  pub adler : ℕ

abbrev pub min_free_buff : ℕ
min_free_buff = 64

abbrev pub buff_sz : ℕ
buff_sz = 65535

abbrev pub flush : ProfileWriter → ProfileWriter
flush w = record w { written = w.written ++ w.buffered }

unfoldable pub ensure_freebuff : ℕ → ProfileWriter → ProfileWriter
ensure_freebuff min_required w =
    if ltb w.data_capacity ((length w.buffered + min_required) % u32_mod)
    then record (flush w) {
      buffered = [];
      data_capacity =
          if ltb w.data_capacity min_required then min_required * 2 % u32_mod else w.data_capacity;
    }
    else w

-- Bytes go behind the others; none is a write behind the end of the buffer.
unfoldable pub put : List ℕ → ProfileWriter → Option ProfileWriter
put bs w =
    if leb (length w.buffered + length bs) w.data_capacity
    then some (record w { buffered = w.buffered ++ bs })
    else none

-- `varint` is protobuf's encoding of a 32-bit number, `adler32` is zlib's function of this name, and
-- `adler_start` its value at no bytes. A message is the bytes that it serializes to.
module _ (varint : ℕ → List ℕ) (adler32 : ℕ → List ℕ → ℕ) (adler_start version : ℕ) where
  unfoldable pub fresh : ProfileWriter
  fresh = record {
    written = [];
    buffered = [];
    data_capacity = buff_sz;
    header_written = false;
    adler = adler_start;
  }

  unfoldable pub write_unchecked : ℕ → ProfileWriter → Option ProfileWriter
  unfolding put
  write_unchecked value w = put (varint value) w

  unfoldable pub write_unchecked_obj : List ℕ → ProfileWriter → Option ProfileWriter
  unfolding write_unchecked put
  write_unchecked_obj message w = elim (write_unchecked (length message) w) [
    | none ↦ none
    | some w' ↦ put message w'
  ]

  -- `chksum.chksum(bytes)` and the `write_unchecked` behind it.
  unfoldable pub write_checksum : List ℕ → ProfileWriter → Option ProfileWriter
  unfolding write_unchecked
  write_checksum bytes w =
      write_unchecked (adler32 w.adler bytes) (record w { adler = adler32 w.adler bytes })

  -- The assertion that no header has been written ends the program.
  unfoldable pub write_header : List ℕ → ProfileWriter → Option ProfileWriter
  unfolding ensure_freebuff write_unchecked write_unchecked_obj write_checksum
  write_header rh w =
      if w.header_written
      then none
      else elim (write_unchecked version (
          ensure_freebuff ((length rh + min_free_buff) % u32_mod)
            (record w { header_written = true }))) [
              | none ↦ none
              | some w₁ ↦ elim (write_unchecked_obj rh w₁) [
                | none ↦ none
                | some w₂ ↦ write_checksum w₂.buffered w₂
              ]
            ]

  unfoldable pub append_wse : List ℕ → ProfileWriter → Option ProfileWriter
  unfolding ensure_freebuff write_unchecked_obj write_checksum
  append_wse e w =
      let w₁ = ensure_freebuff ((length e + min_free_buff) % u32_mod) w in
      elim (write_unchecked_obj e w₁) [
        | none ↦ none
        | some w₂ ↦
            write_checksum (drop (length w₁.buffered) w₂.buffered)
              (record w₂ { adler = adler_start })
      ]

-- The destructor's flush, and what has been written then.
unfoldable pub destroy : ProfileWriter → List ℕ
destroy w = (flush w).written
