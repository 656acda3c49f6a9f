-- ===== src/Simple/Encode.antt =====
-- `codec_simple_encode` and its helper. `*err` is never written by the encoder, so whether it was
-- already set at the call is the argument `failed`.
pub mod Wire
pub mod Refines
use cc_common.Base.{ℕ, ◌+◌, ◌^◌, u8, u16, u32, Bool, true, false, leb, ltb, ◌==◌, if◌then◌else◌}
use cc_common.Base.{List, [], ◌∷◌, Option, Outcome, ok, ◌>>=◌}
use cc_common.BigEndian.{write_uint16, write_uint32, write_uint64}
use cc_common.Slice.Writer.{Writer, ◌and_then◌, put_1, put_word, put, put_some, unless}
use cc_common.Value.{
  Value, unset, nil, bool, pos_int, neg_int, float32, float64, str, bytes, arr, map, ext, Items,
  no_items, item, Fields, no_fields, field, count_items, count_fields, host_bytes, max_uint8,
  max_uint16, max_uint32,
}
use cc_common.Simple.{
  desc_nil, desc_false, desc_true, desc_float32, desc_float64, desc_pos_int, desc_neg_int,
  desc_string, desc_bytes, desc_array, desc_map, desc_custom_ext,
}

module _ (realloc : List ℕ → ℕ → Option (List ℕ)) where
  -- `codec_simple_append_len`.
  pub append_len : ℕ → ℕ → Writer
  append_len bd length =
      if length == 0
      then put_1 realloc bd
      else if leb length max_uint8
      then put_1 realloc (u8 (bd + 1)) and_then put_1 realloc (u8 length)
      else if leb length max_uint16
      then put_1 realloc (u8 (bd + 2)) and_then put_word realloc (write_uint16 (u16 length))
      else if leb length max_uint32
      then put_1 realloc (u8 (bd + 3)) and_then put_word realloc (write_uint32 (u32 length))
      else put_1 realloc (u8 (bd + 4)) and_then put_word realloc (write_uint64 length)

  -- The cases CODEC_VALUE_POS_INT and CODEC_VALUE_NEG_INT, with the first descriptor of each.
  pub encode_int : ℕ → ℕ → Writer
  encode_int desc n =
      if leb n max_uint8
      then put_1 realloc desc and_then put_1 realloc (u8 n)
      else if leb n max_uint16
      then put_1 realloc (desc + 1) and_then put_word realloc (write_uint16 (u16 n))
      else if leb n max_uint32
      then put_1 realloc (desc + 2) and_then put_word realloc (write_uint32 (u32 n))
      else put_1 realloc (desc + 3) and_then put_word realloc (write_uint64 n)

  -- `codec_simple_encode`, and the loops of its cases CODEC_VALUE_ARRAY and CODEC_VALUE_MAP.
  unfoldable mutual
    unfolding append_len encode_int

    pub encode : Bool → Value → Writer
    encode failed unset = ok
    encode failed (nil b) = put_1 realloc desc_nil
    encode failed (bool b) = put_1 realloc (if b then desc_true else desc_false)
    encode failed (pos_int n) = encode_int desc_pos_int n
    encode failed (neg_int n) = encode_int desc_neg_int n
    encode failed (float32 w) = put_1 realloc desc_float32 and_then put realloc (host_bytes w) 4
    encode failed (float64 w) = put_1 realloc desc_float64 and_then put realloc (host_bytes w) 8
    encode failed (str mem len) = append_len desc_string len and_then put_some realloc mem len
    encode failed (bytes mem len) = append_len desc_bytes len and_then put_some realloc mem len
    encode failed (arr xs) = append_len desc_array (count_items xs) and_then encode_items failed xs
    encode failed (map fs) = append_len desc_map (count_fields fs) and_then encode_fields failed fs
    encode failed (ext tag mem len) =
        append_len desc_custom_ext len
        and_then put realloc (tag ∷ []) 1
        and_then put_some realloc mem len

    pub encode_items : Bool → Items → Writer
    encode_items failed no_items = ok
    encode_items failed (item x xs) =
        encode failed x and_then unless failed (encode_items failed xs)

    pub encode_fields : Bool → Fields → Writer
    encode_fields failed no_fields = ok
    encode_fields failed (field k v fs) =
        encode failed k
        and_then unless failed (encode failed v and_then unless failed (encode_fields failed fs))
