-- ===== src/Binc/Encode.antt =====
-- `codec_binc_encode` and its helpers. `*err` is never written by the encoder, so whether it was
-- already set at the call is the argument `failed`. The low half of a descriptor that is passed on
-- is 0, so `|=` into it is a sum.
use cc_common.Base.{
  ℕ, zero, suc, ◌+◌, ◌-◌, ◌*◌, ◌%◌, ◌^◌, u8, u16, u32, Bool, true, false, leb, ltb, ◌==◌, ◌&&◌,
  if◌then◌else◌, List, [], ◌∷◌, ◌++◌, drop, Option, ok, fault, no_fuel, ◌>>=◌,
}
use cc_common.BigEndian.{write_uint16, write_uint32}
use cc_common.Slice.Writer.{Writer, ◌and_then◌, put_1, put_word, put, put_some, unless}
use cc_common.Value.{
  Value, unset, nil, bool, pos_int, neg_int, float32, float64, str, bytes, arr, map, ext, Items,
  no_items, item, Fields, no_fields, field, count_items, count_fields, max_uint8, max_uint16,
  max_uint32,
}
use cc_common.Binc.{
  binc_special, binc_pos_int, binc_neg_int, binc_string, binc_byte_array, binc_array, binc_map,
  binc_small_int, binc_custom_ext, special_nil, special_false, special_true, special_zero_float,
  special_zero,
}

-- The two loops of `codec_binc_prune_sign_ext`, on the bytes from `v[n]` to the end.
unfoldable pub leading_zeros : List ℕ → ℕ
leading_zeros (x ∷ y ∷ rest) =
    let more = leading_zeros (y ∷ rest) in if x == 0 && ltb y 128 then suc more else 0
leading_zeros _ = 0

unfoldable pub leading_ones : List ℕ → ℕ
leading_ones (x ∷ y ∷ rest) =
    let more = leading_ones (y ∷ rest) in if x == 255 && leb 128 y then suc more else 0
leading_ones _ = 0

-- `codec_binc_prune_sign_ext`: how many bytes a sign extension leaves out.
unfoldable pub prune_sign_ext : Bool → List ℕ → ℕ
prune_sign_ext pos v = if pos then leading_zeros v else leading_ones v

-- The array `x` of `codec_binc_encode_uint_prune`: at both widths the low 32 bits are written, into
-- the first four bytes.
unfoldable pub prune_word : ℕ → ℕ → List ℕ
prune_word v lim =
    if lim == 4 then write_uint32 (u32 v) else write_uint32 (u32 v) ++ 0 ∷ 0 ∷ 0 ∷ 0 ∷ []

-- A descriptor from its halves.
abbrev pub desc_of : ℕ → ℕ → ℕ
desc_of kind low = kind * 16 + low

-- How often the loop of an array or of a map passes over the 256 entries that its `uint8_t` index
-- reaches: forever, if the length is above 255.
unfoldable pub passes : ℕ → Writer → Writer
passes zero m s = no_fuel
passes (suc f) m s = m s >>= passes f m

-- `image mem len` are the bytes of a `slice_bytes` in memory, from its pointer field to the end of
-- the value it is in. `fuel` bounds the passes of a loop.
module _ (realloc : List ℕ → ℕ → Option (List ℕ)) (image : List ℕ → ℕ → List ℕ) (fuel : ℕ) where
  -- `codec_binc_encode_uint_prune`.
  unfoldable pub encode_uint_prune : ℕ → ℕ → Bool → ℕ → Writer
  encode_uint_prune v bd pos lim =
      let x = prune_word v lim in
      let i = prune_sign_ext pos x in
      put_1 realloc (bd + (lim - 1 - i)) and_then put realloc (drop i x) (lim - i)

  -- `codec_binc_encode_uint`: with two bytes, `bd` is changed and not appended.
  unfoldable pub encode_uint : ℕ → Bool → ℕ → Writer
  encode_uint bd pos v =
      if v == 0
      then put_1 realloc (desc_of binc_special special_zero)
      else if pos && leb v 16
      then put_1 realloc (desc_of binc_small_int (v - 1))
      else if leb v max_uint8
      then put_1 realloc bd and_then put_1 realloc (u8 v)
      else if leb v max_uint16
      then put_word realloc (write_uint16 (u16 v))
      else if leb v max_uint32
      then encode_uint_prune v bd pos 4
      else encode_uint_prune v bd pos 8

  -- `codec_binc_encode_len`.
  unfoldable pub encode_len : ℕ → ℕ → Writer
  encode_len bd len =
      if ltb len 12 then put_1 realloc (bd + (len + 4)) else encode_uint bd false len

  -- The cases of floats. One that is not 0.0 or -0.0 is pruned by `(&v->v.vFloat64)[i]`, first with
  -- `i == 7`: a read at byte 64 of a value of 40 bytes.
  unfoldable pub encode_float : ℕ → Writer
  encode_float w s =
      if w % 2 ^ 63 == 0 then put_1 realloc (desc_of binc_special special_zero_float) s else fault

  -- The entries of a container, by a loop with a `uint8_t` index.
  unfoldable pub looped : ℕ → Writer → Writer
  looped len m = if leb len 255 then m else passes fuel m

  -- `codec_binc_encode`. Its loops take the number of entries that are left up to index 255; that
  -- `*err` is still NULL in a loop is known from the check before it.
  unfoldable mutual
    unfolding encode_float looped

    pub encode : Bool → Value → Writer
    encode failed unset = ok
    encode failed (nil b) = put_1 realloc (desc_of binc_special special_nil)
    encode failed (bool b) =
        put_1 realloc (desc_of binc_special (if b then special_true else special_false))
    encode failed (pos_int n) = encode_uint (desc_of binc_pos_int 0) true n
    encode failed (neg_int n) = encode_uint (desc_of binc_neg_int 0) false n
    encode failed (float32 w) = encode_float w
    encode failed (float64 w) = encode_float w
    encode failed (str mem len) =
        encode_len (desc_of binc_string 0) len and_then unless failed (put_some realloc mem len)
    encode failed (bytes mem len) =
        encode_len (desc_of binc_byte_array 0) len and_then unless failed (put_some realloc mem len)
    encode failed (arr xs) =
        encode_len (desc_of binc_array 0) (count_items xs)
        and_then unless failed (looped (count_items xs) (encode_items 256 xs))
    encode failed (map fs) =
        encode_len (desc_of binc_map 0) (count_fields fs)
        and_then unless failed (looped (count_fields fs) (encode_fields 256 fs))
    encode failed (ext tag mem len) =
        encode_len (desc_of binc_custom_ext 0) len
        and_then unless failed
            (put realloc (tag ∷ []) 1 and_then put_some realloc (image mem len) len)

    pub encode_items : ℕ → Items → Writer
    encode_items n no_items = ok
    encode_items zero (item x xs) = ok
    encode_items (suc n) (item x xs) = encode false x and_then encode_items n xs

    pub encode_fields : ℕ → Fields → Writer
    encode_fields n no_fields = ok
    encode_fields zero (field k v fs) = ok
    encode_fields (suc n) (field k v fs) =
        encode false k and_then encode false v and_then encode_fields n fs
