-- ===== src/Binc/Decode.antt =====
-- `codec_binc_decode` and its helpers. The caller's value and the entries from `calloc` are all zero
-- at the call, and `*err` is NULL. What an erring call leaves in its value is not modelled. The
-- index `int i` of a loop is a number; depth and rounds are bounded by fuel.
use cc_common.Base.{
  ℕ, zero, suc, ◌+◌, ◌-◌, ◌*◌, ◌/◌, ◌%◌, u64, Bool, true, false, ltb, leb, ◌==◌, if◌then◌else◌,
  List, [], ◌∷◌, ◌++◌, length, drop, take, none, some, Outcome, ok, fault, no_fuel, ◌>>=◌,
}
use cc_common.BigEndian.{read_uint64}
use cc_common.Float.{double_of_float}
use cc_common.Value.{
  Value, unset, nil, bool, pos_int, neg_int, float64, str, bytes, arr, map, ext, Items, Fields,
}
use cc_common.Value.Cursor.{Cursor, wide_int, wide_float, bad_float, timestamp, is_set, load, chk}
use cc_common.Simple.Decode.{Step, touch, item_round, field_round}
use cc_common.Binc.{
  binc_special, binc_pos_int, binc_neg_int, binc_float, binc_string, binc_byte_array, binc_array,
  binc_map, binc_timestamp, binc_small_int, binc_symbol, binc_custom_ext, special_nil,
  special_false, special_true, special_nan, special_pos_inf, special_neg_inf, special_zero_float,
  special_zero, special_neg_one,
}

-- CODEC_uvnan, CODEC_uvinf and CODEC_uvneginf.
abbrev pub uv_nan : ℕ
uv_nan = 0x7ff8_0000_0000_0001

abbrev pub uv_inf : ℕ
uv_inf = 0x7ff0_0000_0000_0000

abbrev pub uv_neg_inf : ℕ
uv_neg_inf = 0xfff0_0000_0000_0000

-- `n` zero bytes.
abbrev pub zeros : ℕ → List ℕ
zeros zero = []
zeros (suc n) = 0 ∷ zeros n

-- A word of the host's memory as a number, the low byte first.
unfoldable pub from_host : List ℕ → ℕ
from_host [] = 0
from_host (x ∷ xs) = x + 256 * from_host xs

-- The cases of the switch on the high half of the descriptor.
pub data BincKind : Type 0 where
  as_special as_small_int as_pos_int as_neg_int as_float as_string as_bytes : BincKind
  as_timestamp as_ext as_array as_map as_other : BincKind

unfoldable pub binc_kind : ℕ → BincKind
binc_kind vd =
    if vd == binc_special
    then as_special
    else if vd == binc_small_int
    then as_small_int
    else if vd == binc_pos_int
    then as_pos_int
    else if vd == binc_neg_int
    then as_neg_int
    else if vd == binc_float
    then as_float
    else if vd == binc_symbol
    then as_string
    else if vd == binc_string
    then as_string
    else if vd == binc_byte_array
    then as_bytes
    else if vd == binc_timestamp
    then as_timestamp
    else if vd == binc_custom_ext
    then as_ext
    else if vd == binc_array
    then as_array
    else if vd == binc_map
    then as_map
    else as_other

-- The inner switch. In the cases without a match nothing is written.
unfoldable pub special : Bool → ℕ → Outcome Value
special out vs =
    if vs == special_nil
    then touch out >>= (λ _. ok (nil true))
    else if vs == special_false
    then touch out >>= (λ _. ok (bool false))
    else if vs == special_true
    then touch out >>= (λ _. ok (bool true))
    else if vs == special_nan
    then touch out >>= (λ _. ok (float64 uv_nan))
    else if vs == special_pos_inf
    then touch out >>= (λ _. ok (float64 uv_inf))
    else if vs == special_neg_inf
    then touch out >>= (λ _. ok (float64 uv_neg_inf))
    else if vs == special_zero_float
    then touch out >>= (λ _. ok (float64 0))
    else if vs == special_zero
    then touch out >>= (λ _. ok (pos_int 0))
    else if vs == special_neg_one
    then touch out >>= (λ _. ok (neg_int 1))
    else ok unset

module _ (calloc : ℕ → ℕ → Bool) (b : List ℕ) where
  -- `memcpy` of `n` bytes from `b->b.bytes.v[pos]`, which no check guards.
  unfoldable pub copy_from : ℕ → ℕ → Outcome (List ℕ)
  copy_from pos n = if leb (pos + n) (length b) then ok (take n (drop pos b)) else fault

  -- `codec_binc_decode_uint64`.
  unfoldable pub decode_uint64 : ℕ → Cursor → Step ℕ
  decode_uint64 vs s = if ltb 7 vs then ok (0, record s { err = some wide_int }) else (do
    copied ← copy_from s.pos (8 - (7 - vs))
    n ← read_uint64 (zeros (7 - vs) ++ copied)
    ok (n, record s { pos = u64 (s.pos + (8 - (7 - vs))) }))

  -- `codec_binc_decode_len`.
  unfoldable pub decode_len : ℕ → Cursor → Step ℕ
  decode_len vs s = if leb vs 3 then decode_uint64 vs s else ok (vs - 4, s)

  -- `codec_binc_decode_float_pre`: the eight bytes of `b->x`.
  unfoldable pub float_pre : ℕ → ℕ → Cursor → Step (List ℕ)
  float_pre vs def_len s =
      if ltb vs 8
      then (do
        copied ← copy_from s.pos def_len
        ok (copied ++ zeros (8 - def_len), record s { pos = u64 (s.pos + def_len) }))
      else (do
        l ← load b s.pos
        let start = u64 (s.pos + 1)
        if ltb 8 l then ok (zeros 8, record s { pos = start; err = some wide_float }) else (do
          copied ← copy_from start l
          ok (copied ++ zeros (8 - l), record s { pos = u64 (start + l) })))

  -- `codec_binc_decode_float`.
  unfoldable pub decode_float : ℕ → Cursor → Step ℕ
  decode_float vs s =
      if vs % 8 == 1
      then (do
        (x, s1) ← float_pre vs 4 s
        if is_set s1.err then ok (0, s1) else ok (double_of_float (from_host (take 4 x)), s1))
      else if vs % 8 == 2
      then (do
        (x, s1) ← float_pre vs 8 s
        if is_set s1.err then ok (0, s1) else ok (from_host x, s1))
      else ok (0, record s { err = some bad_float })

  -- The cases of integers: `*err` is not looked at.
  unfoldable pub read_int : (ℕ → Value) → Bool → ℕ → Cursor → Step Value
  read_int make out vs s = do _ ← touch out; (n, s1) ← decode_uint64 vs s; ok (make n, s1)

  -- The cases of strings and of bytes: the result points into the input or behind it.
  unfoldable pub read_blob : (List ℕ → ℕ → Value) → Bool → ℕ → Cursor → Step Value
  read_blob make out vs s = do
    _ ← touch out
    (len, s1) ← decode_len vs s
    if is_set s1.err
        then ok (unset, s1)
        else ok (make (drop s1.pos b) len, record s1 { pos = u64 (s1.pos + len) })

  -- CODEC_BINC_DESC_CUSTOMEXT.
  unfoldable pub read_ext : Bool → ℕ → Cursor → Step Value
  read_ext out vs s = do
    _ ← touch out
    (len, s1) ← decode_len vs s
    if is_set s1.err then ok (unset, s1) else (do
      tag ← load b s1.pos
      let start = u64 (s1.pos + 1)
      ok (ext tag (drop start b) len, record s1 { pos = u64 (start + len) }))

  -- CODEC_BINC_DESC_ARRAY and CODEC_BINC_DESC_MAP, with the loop over the entries of the new block.
  unfoldable pub read_array : (Bool → ℕ → Cursor → Step Items) → Bool → ℕ → Cursor → Step Value
  read_array items out vs s = do
    _ ← touch out
    (len, s1) ← decode_len vs s
    if is_set s1.err
        then ok (unset, s1)
        else (do (xs, s2) ← items (calloc len 40) len s1; ok (arr xs, s2))

  unfoldable pub read_map : (Bool → ℕ → Cursor → Step Fields) → Bool → ℕ → Cursor → Step Value
  read_map fields out vs s = do
    _ ← touch out
    (len, s1) ← decode_len vs s
    if is_set s1.err
        then ok (unset, s1)
        else (do (fs, s2) ← fields (calloc len 80) len s1; ok (map fs, s2))

  -- The switch of `codec_binc_decode_r`.
  unfoldable pub dispatch :
      (Bool → ℕ → Cursor → Step Items)
      → (Bool → ℕ → Cursor → Step Fields)
      → Bool
      → ℕ
      → Cursor
      → BincKind
      → Step Value
  dispatch items fields out vs s as_special = do v ← special out vs; ok (v, s)
  dispatch items fields out vs s as_small_int = do _ ← touch out; ok (pos_int (vs + 1), s)
  dispatch items fields out vs s as_pos_int = read_int pos_int out vs s
  dispatch items fields out vs s as_neg_int = read_int neg_int out vs s
  dispatch items fields out vs s as_float = do
    _ ← touch out
    (w, s1) ← decode_float vs s
    ok (float64 w, s1)
  dispatch items fields out vs s as_string = read_blob str out vs s
  dispatch items fields out vs s as_bytes = read_blob bytes out vs s
  dispatch items fields out vs s as_timestamp = ok (unset, record s { err = some timestamp })
  dispatch items fields out vs s as_ext = read_ext out vs s
  dispatch items fields out vs s as_array = read_array items out vs s
  dispatch items fields out vs s as_map = read_map fields out vs s
  dispatch items fields out vs s as_other = ok (unset, s)

  -- `codec_binc_decode_r`, given the loops of its containers.
  unfoldable pub visit :
      (Bool → ℕ → Cursor → Step Items)
      → (Bool → ℕ → Cursor → Step Fields)
      → Bool
      → Cursor
      → Step Value
  visit items fields out s =
      let (s1, bad) = chk b 1 s in
      if bad then ok (unset, s1) else (do
        bd ← load b s1.pos
        dispatch items fields out (bd % 16) (record s1 { pos = u64 (s1.pos + 1) })
            (binc_kind (bd / 16)))

  unfoldable mutual
    unfolding visit item_round field_round

    pub decode_r : ℕ → Bool → Cursor → Step Value
    decode_r zero out s = no_fuel
    decode_r (suc f) out s = visit (decode_items f) (decode_fields f) out s

    pub decode_items : ℕ → Bool → ℕ → Cursor → Step Items
    decode_items zero out left s = no_fuel
    decode_items (suc f) out left s =
        item_round calloc b (decode_r f out) (decode_items f out) left s

    pub decode_fields : ℕ → Bool → ℕ → Cursor → Step Fields
    decode_fields zero out left s = no_fuel
    decode_fields (suc f) out left s =
        field_round calloc b (decode_r f out) (decode_fields f out) left s

  -- `codec_binc_decode`: the value, and the final position with `*err`.
  unfoldable pub decode : ℕ → Step Value
  unfolding decode_r
  decode fuel = decode_r fuel true (record { pos = 0; err = none })
