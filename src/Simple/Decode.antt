-- ===== src/Simple/Decode.antt =====
-- `codec_simple_decode` and its helpers. The caller's value and the entries from `calloc` are all
-- zero at the call, and `*err` is NULL. What an erring call leaves in its value is not modelled.
-- The index `int i` of a loop is a number; depth and rounds are bounded by fuel.
pub mod Seen
pub mod Reads
pub mod Parts
pub mod Cost
pub mod RoundTrip
use cc_common.Base.{ℕ, zero, suc, ◌+◌, ◌-◌, ◌%◌, ◌^◌, u64, Bool, true, false, ltb, leb, ◌==◌, ◌&&◌}
use cc_common.Base.{if◌then◌else◌, List, drop, none, some}
use cc_common.Base.{Outcome, ok, abort, fault, no_fuel, ◌>>=◌}
use cc_common.BigEndian.{read_uint32, read_uint64}
use cc_common.Float.{double_of_uint, float_of_uint}
use cc_common.Value.{
  Value, unset, nil, bool, pos_int, neg_int, float32, float64, str, bytes, arr, map, ext, Items,
  no_items, item, Fields, no_fields, field,
}
use cc_common.Value.Cursor.{
  Cursor, bad_length, bad_descriptor, is_set, sign_extend, load, chk, chk2,
}
use cc_common.Simple.{
  desc_nil, desc_false, desc_true, desc_float32, desc_float64, desc_pos_int, desc_neg_int,
  desc_string, desc_bytes, desc_array, desc_map, desc_custom_ext,
}

-- A step of the decoder: a result and the cursor behind it.
abbrev pub Step : Type 0 → Type 0
Step A = Outcome (A × Cursor)

-- The cases of the switch on the descriptor.
pub data Kind : Type 0 where
  is_nil is_false is_true is_pos_int is_neg_int is_float32 is_float64 : Kind
  is_str is_bytes is_array is_map is_ext is_other : Kind

-- `bd` is one of the `n` descriptors from `desc` on.
abbrev pub among : ℕ → ℕ → ℕ → Bool
among desc n bd = leb desc bd && ltb bd (desc + n)

unfoldable pub kind : ℕ → Kind
kind bd =
    if bd == desc_nil
    then is_nil
    else if bd == desc_false
    then is_false
    else if bd == desc_true
    then is_true
    else if among desc_pos_int 4 bd
    then is_pos_int
    else if among desc_neg_int 4 bd
    then is_neg_int
    else if bd == desc_float32
    then is_float32
    else if bd == desc_float64
    then is_float64
    else if among desc_string 5 bd
    then is_str
    else if among desc_bytes 5 bd
    then is_bytes
    else if among desc_array 5 bd
    then is_array
    else if among desc_map 5 bd
    then is_map
    else if among desc_custom_ext 5 bd
    then is_ext
    else is_other

-- (uint64_t)-1, which a failed read returns.
abbrev pub minus_one : ℕ
minus_one = 2 ^ 64 - 1

-- An access through the pointer to the result, which is valid or NULL.
abbrev pub touch : Bool → Outcome (Unit {0})
touch out = if out then ok tt else fault

-- The widths that `bd % 4` selects.
unfoldable pub int_width : ℕ → ℕ
int_width r = if r == 0 then 1 else if r == 1 then 2 else if r == 2 then 4 else 8

-- `calloc` belongs to the C library: whether a block of so many entries of that size is granted.
module _ (calloc : ℕ → ℕ → Bool) (b : List ℕ) where
  -- The switch of `codec_simple_readn`: one `char` is read at every width.
  unfoldable pub read_char : ℕ → ℕ → Outcome ℕ
  read_char n pos =
      if n == 0
      then ok 0
      else if n == 1
      then load b pos
      else if n == 2
      then (do c ← load b pos; ok (sign_extend 16 c))
      else if n == 4
      then (do c ← load b pos; ok (sign_extend 32 c))
      else if n == 8
      then (do c ← load b pos; ok (sign_extend 64 c))
      else abort

  -- `codec_simple_readn`.
  unfoldable pub readn : ℕ → Cursor → Step ℕ
  readn n s =
      let (s', bad) = chk b n s in
      if bad
      then ok (minus_one, s')
      else (do v ← read_char n s'.pos; ok (v, record s' { pos = u64 (s'.pos + n) }))

  -- `codec_simple_decode_len`, where `sizeof(size_t)` is 8.
  unfoldable pub decode_len : ℕ → Cursor → Step ℕ
  decode_len bd s =
      if bd % 8 == 0
      then ok (0, s)
      else if bd % 8 == 1
      then readn 1 s
      else if bd % 8 == 2
      then readn 2 s
      else if bd % 8 == 3
      then readn 4 s
      else if bd % 8 == 4
      then readn 8 s
      else ok (minus_one, record s { err = some bad_length })

  -- The cases of positive and of negative integers.
  unfoldable pub read_int : (ℕ → Value) → Bool → ℕ → Cursor → Step Value
  read_int make out bd s = do
    (n, s1) ← readn (int_width (bd % 4)) s
    if is_set s1.err then ok (unset, s1) else (do _ ← touch out; ok (make n, s1))

  -- CODEC_SIMPLE_DESC_FLOAT32 and 64. `v->v.vFloat32 = *(&tmp32)` converts the number.
  unfoldable pub read_float32 : Bool → Cursor → Step Value
  read_float32 out s = do
    _ ← touch out
    let (s1, bad) = chk b 4 s
    if bad then ok (unset, s1) else (do
      n ← read_uint32 (drop s1.pos b)
      ok (float32 (float_of_uint n), record s1 { pos = u64 (s1.pos + 4) }))

  unfoldable pub read_float64 : Bool → Cursor → Step Value
  read_float64 out s = do
    _ ← touch out
    let (s1, bad) = chk b 8 s
    if bad then ok (unset, s1) else (do
      n ← read_uint64 (drop s1.pos b)
      ok (float64 (double_of_uint n), record s1 { pos = u64 (s1.pos + 8) }))

  -- The cases of strings and of bytes: the result points into the input.
  unfoldable pub read_blob : (List ℕ → ℕ → Value) → Bool → ℕ → Cursor → Step Value
  read_blob make out bd s = do
    _ ← touch out
    (len, s1) ← decode_len bd s
    if is_set s1.err
        then ok (unset, s1)
        else (let (s2, bad) = chk b len s1 in
            if bad
            then ok (unset, s2)
            else ok (make (drop s2.pos b) len, record s2 { pos = u64 (s2.pos + len) }))

  -- CODEC_SIMPLE_DESC_CUSTOMEXT: an error of `decode_len` is not looked at.
  unfoldable pub read_ext : Bool → ℕ → Cursor → Step Value
  read_ext out bd s = do
    _ ← touch out
    (len, s1) ← decode_len bd s
    let (s2, bad) = chk b (u64 (1 + len)) s1
    if bad then ok (unset, s2) else (do
      tag ← load b s2.pos
      let start = u64 (s2.pos + 1)
      ok (ext tag (drop start b) len, record s2 { pos = u64 (start + len) }))

  -- CODEC_SIMPLE_DESC_ARRAY, with the loop over the entries of the new block.
  unfoldable pub read_array : (Bool → ℕ → Cursor → Step Items) → Bool → ℕ → Cursor → Step Value
  read_array items out bd s = do
    _ ← touch out
    (len, s1) ← decode_len bd s
    if is_set s1.err
        then ok (unset, s1)
        else (do (xs, s2) ← items (calloc len 40) len s1; ok (arr xs, s2))

  -- CODEC_SIMPLE_DESC_MAP: an error of `decode_len` is not looked at.
  unfoldable pub read_map : (Bool → ℕ → Cursor → Step Fields) → Bool → ℕ → Cursor → Step Value
  read_map fields out bd s = do
    _ ← touch out
    (len, s1) ← decode_len bd s
    (fs, s2) ← fields (calloc len 80) len s1
    ok (map fs, s2)

  -- The switch of `codec_simple_decode_r`.
  unfoldable pub dispatch :
      (Bool → ℕ → Cursor → Step Items)
      → (Bool → ℕ → Cursor → Step Fields)
      → Bool
      → ℕ
      → Cursor
      → Kind
      → Step Value
  dispatch items fields out bd s is_nil = do _ ← touch out; ok (nil true, s)
  dispatch items fields out bd s is_false = do _ ← touch out; ok (bool false, s)
  dispatch items fields out bd s is_true = do _ ← touch out; ok (bool true, s)
  dispatch items fields out bd s is_pos_int = read_int pos_int out bd s
  dispatch items fields out bd s is_neg_int = read_int neg_int out bd s
  dispatch items fields out bd s is_float32 = read_float32 out s
  dispatch items fields out bd s is_float64 = read_float64 out s
  dispatch items fields out bd s is_str = read_blob str out bd s
  dispatch items fields out bd s is_bytes = read_blob bytes out bd s
  dispatch items fields out bd s is_array = read_array items out bd s
  dispatch items fields out bd s is_map = read_map fields out bd s
  dispatch items fields out bd s is_ext = read_ext out bd s
  dispatch items fields out bd s is_other = ok (unset, record s { err = some bad_descriptor })

  -- `codec_simple_decode_r`, given the loops of its containers.
  unfoldable pub visit :
      (Bool → ℕ → Cursor → Step Items)
      → (Bool → ℕ → Cursor → Step Fields)
      → Bool
      → Cursor
      → Step Value
  visit items fields out s =
      let (s1, ended) = chk2 b s in
      if ended
      then ok (unset, s1)
      else (let (s2, bad) = chk b 1 s1 in
          if bad then ok (unset, s2) else (do
            bd ← load b s2.pos
            dispatch items fields out bd (record s2 { pos = u64 (s2.pos + 1) }) (kind bd)))

  -- One round of the loop over an array, then the rounds that are left.
  unfoldable pub item_round :
      (Cursor → Step Value) → (ℕ → Cursor → Step Items) → ℕ → Cursor → Step Items
  item_round one rest left s = if left == 0 then ok (no_items, s) else (do
    (x, s1) ← one s
    if is_set s1.err
        then ok (no_items, s1)
        else (do (xs, s2) ← rest (left - 1) s1; ok (item x xs, s2)))

  -- One round of the loop over a map: the key, then the value.
  unfoldable pub field_round :
      (Cursor → Step Value) → (ℕ → Cursor → Step Fields) → ℕ → Cursor → Step Fields
  field_round one rest left s = if left == 0 then ok (no_fields, s) else (do
    (k, s1) ← one s
    if is_set s1.err then ok (no_fields, s1) else (do
      (v, s2) ← one s1
      if is_set s2.err
          then ok (no_fields, s2)
          else (do (fs, s3) ← rest (left - 1) s2; ok (field k v fs, s3))))

  -- `out` says whether the pointer to the result, or to the entries, is valid.
  unfoldable mutual
    unfolding visit item_round field_round

    pub decode_r : ℕ → Bool → Cursor → Step Value
    decode_r zero out s = no_fuel
    decode_r (suc f) out s = visit (decode_items f) (decode_fields f) out s

    pub decode_items : ℕ → Bool → ℕ → Cursor → Step Items
    decode_items zero out left s = no_fuel
    decode_items (suc f) out left s = item_round (decode_r f out) (decode_items f out) left s

    pub decode_fields : ℕ → Bool → ℕ → Cursor → Step Fields
    decode_fields zero out left s = no_fuel
    decode_fields (suc f) out left s = field_round (decode_r f out) (decode_fields f out) left s

  -- `codec_simple_decode`: the value, and the final position with `*err`.
  unfoldable pub decode : ℕ → Step Value
  unfolding decode_r
  decode fuel = decode_r fuel true (record { pos = 0; err = none })
