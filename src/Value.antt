-- ===== src/Value.antt =====
-- ugorji/codec/codec.h: the tagged union of all values, and the state of a decoder.
--
-- A pointer to bytes is the list of the bytes from it to the end of its block, so `str mem len` is a
-- string whose `bytes.v` points to `mem` and whose `bytes.len` is `len`. The pointer of an array or
-- a map leads to exactly `len` entries, the list. A float is its bits: those of `vFloat64`, and for
-- a `float32` the first eight bytes of the union, of which `vFloat32` is the low half. The host is
-- little-endian with 64-bit pointers, as x86-64.
pub mod Cursor
pub mod Print
pub mod Free
use cc_common.Base.{ℕ, suc, ◌/◌, ◌^◌, ◌≤◌, ◌<◌, Bool, List, [], ◌∷◌, length, u8}

-- CODEC_MaxUint8, CODEC_MaxUint16 and CODEC_MaxUint32.
abbrev pub max_uint8 : ℕ
max_uint8 = 0xff

abbrev pub max_uint16 : ℕ
max_uint16 = 0xffff

abbrev pub max_uint32 : ℕ
max_uint32 = 0xffff_ffff

-- `codec_value_type` with `codec_value_discrim`; `unset` is memory that nothing was written to,
-- whose type field is 0.
mutual
  pub data Value : Type 0 where
    unset : Value
    nil : Bool → Value
    bool : Bool → Value
    pos_int : ℕ → Value
    neg_int : ℕ → Value
    float32 : ℕ → Value
    float64 : ℕ → Value
    str : (mem : List ℕ) (len : ℕ) → Value
    bytes : (mem : List ℕ) (len : ℕ) → Value
    arr : Items → Value
    map : Fields → Value
    ext : (tag : ℕ) (mem : List ℕ) (len : ℕ) → Value

  -- `codec_value_list`.
  pub data Items : Type 0 where
    no_items : Items
    item : Value → Items → Items

  -- `codec_value_map`, of `codec_value_kv`.
  pub data Fields : Type 0 where
    no_fields : Fields
    field : Value → Value → Fields → Fields

-- The `len` of a `codec_value_list` and of a `codec_value_map`.
abbrev pub count_items : Items → ℕ
count_items no_items = 0
count_items (item x xs) = suc (count_items xs)

abbrev pub count_fields : Fields → ℕ
count_fields no_fields = 0
count_fields (field k v fs) = suc (count_fields fs)

-- The bytes of a 64-bit word in the host's memory.
unfoldable pub host_bytes : ℕ → List ℕ
host_bytes w =
    u8 w
    ∷ u8 (w / 2 ^ 8)
    ∷ u8 (w / 2 ^ 16)
    ∷ u8 (w / 2 ^ 24)
    ∷ u8 (w / 2 ^ 32)
    ∷ u8 (w / 2 ^ 40)
    ∷ u8 (w / 2 ^ 48)
    ∷ u8 (w / 2 ^ 56)
    ∷ []

-- Bytes that a pointer and a length stand for are there.
abbrev pub IsBlob : List ℕ → ℕ → Type 0
IsBlob mem len = (len ≤ length mem) × (len < 2 ^ 64)

-- A value that a C program can hold: numbers fit their types, lengths their memory.
abbrev mutual
  pub IsWell : Value → Type 0
  IsWell unset = Unit
  IsWell (nil b) = Unit
  IsWell (bool b) = Unit
  IsWell (pos_int n) = n < 2 ^ 64
  IsWell (neg_int n) = n < 2 ^ 64
  IsWell (float32 w) = w < 2 ^ 64
  IsWell (float64 w) = w < 2 ^ 64
  IsWell (str mem len) = IsBlob mem len
  IsWell (bytes mem len) = IsBlob mem len
  IsWell (arr xs) = (count_items xs < 2 ^ 64) × AreWell xs
  IsWell (map fs) = (count_fields fs < 2 ^ 64) × AreWellFields fs
  IsWell (ext tag mem len) = (tag < 2 ^ 8) × IsBlob mem len

  pub AreWell : Items → Type 0
  AreWell no_items = Unit
  AreWell (item x xs) = IsWell x × AreWell xs

  pub AreWellFields : Fields → Type 0
  AreWellFields no_fields = Unit
  AreWellFields (field k v fs) = IsWell k × IsWell v × AreWellFields fs
