-- ===== src/Binc/Wire.antt =====
-- The part of the "binc" format in which the encoder and the decoder agree, as a specification: the
-- bytes of a value whose numbers and lengths have one byte, or three or four.
use cc_common.BigEndian.{write_uint32}
use cc_common.Base.{
  ◌⊎◌, ◌/◌, ◌^◌, u8, ℕ, ◌+◌, ◌≤◌, ◌<◌, ◌≡◌, true, ltb, leb, ◌==◌, if◌then◌else◌, List, [], ◌∷◌,
  ◌++◌, length, take,
}
use cc_common.Value.{
  Value, unset, nil, bool, pos_int, neg_int, float32, float64, str, bytes, arr, map, ext, Items,
  no_items, item, Fields, no_fields, field, count_items, count_fields,
}

-- Numbers of one byte, and of three or four, as far as the latter begin with a zero bit or with one
-- that no sign extension leaves out.
abbrev pub IsNumber : ℕ → Type 0
IsNumber n = (n < 2 ^ 8) ⊎ ((2 ^ 16 ≤ n) × (n < 2 ^ 32))

abbrev pub IsLength : ℕ → Type 0
IsLength n = (n < 2 ^ 8) ⊎ ((2 ^ 16 ≤ n) × (n < 0xff80_0000))

-- A number in four bytes, and one in three.
unfoldable pub four_wire : ℕ → ℕ → List ℕ
four_wire bd n = (bd + 3) ∷ write_uint32 n

unfoldable pub three_wire : ℕ → ℕ → List ℕ
three_wire bd n = (bd + 2) ∷ u8 (n / 2 ^ 16) ∷ u8 (n / 2 ^ 8) ∷ u8 n ∷ []

-- One byte or four, behind the descriptor.
unfoldable pub wide_wire : ℕ → ℕ → List ℕ
wide_wire bd n = if leb n 255 then bd ∷ n ∷ [] else four_wire bd n

-- A negative number: 0 has a descriptor of its own.
unfoldable pub neg_wire : ℕ → List ℕ
neg_wire n = if n == 0 then 7 ∷ [] else wide_wire 32 n

-- A positive number: one up to 16 is in its descriptor.
unfoldable pub pos_wire : ℕ → List ℕ
pos_wire n =
    if n == 0
    then 7 ∷ []
    else if leb n 16
    then (143 + n) ∷ []
    else if leb n 255
    then 16 ∷ n ∷ []
    else if ltb n 0x80_0000
    then three_wire 16 n
    else four_wire 16 n

-- A length: one below 12 is in its descriptor.
unfoldable pub short_wire : ℕ → ℕ → List ℕ
short_wire bd len = if ltb len 12 then (bd + (len + 4)) ∷ [] else wide_wire bd len

unfoldable mutual
  pub kept_wire : Value → List ℕ
  kept_wire unset = []
  kept_wire (nil b) = 0 ∷ []
  kept_wire (bool b) = (if b then 2 else 1) ∷ []
  kept_wire (pos_int n) = pos_wire n
  kept_wire (neg_int n) = neg_wire n
  kept_wire (float32 w) = []
  kept_wire (float64 w) = 6 ∷ []
  kept_wire (str mem len) = short_wire 64 len ++ take len mem
  kept_wire (bytes mem len) = short_wire 80 len ++ take len mem
  kept_wire (arr xs) = short_wire 96 (count_items xs) ++ kept_wire_items xs
  kept_wire (map fs) = short_wire 112 (count_fields fs) ++ kept_wire_fields fs
  kept_wire (ext tag mem len) = []

  pub kept_wire_items : Items → List ℕ
  kept_wire_items no_items = []
  kept_wire_items (item x xs) = kept_wire x ++ kept_wire_items xs

  pub kept_wire_fields : Fields → List ℕ
  kept_wire_fields no_fields = []
  kept_wire_fields (field k v fs) = kept_wire k ++ (kept_wire v ++ kept_wire_fields fs)

-- Numbers and lengths have a width that is kept, counts are below 256; a negative number is not 0, a
-- float is 0.0, `vNil` is true, and there is no extension.
abbrev mutual
  pub IsKept : Value → Type 0
  IsKept unset = ⊥
  IsKept (nil b) = b ≡ true
  IsKept (bool b) = Unit
  IsKept (pos_int n) = IsNumber n
  IsKept (neg_int n) = (0 < n) × IsLength n
  IsKept (float32 w) = ⊥
  IsKept (float64 w) = w ≡ 0
  IsKept (str mem len) = (len ≤ length mem) × IsLength len
  IsKept (bytes mem len) = (len ≤ length mem) × IsLength len
  IsKept (arr xs) = (count_items xs < 256) × AreKept xs
  IsKept (map fs) = (count_fields fs < 256) × AreKeptFields fs
  IsKept (ext tag mem len) = ⊥

  pub AreKept : Items → Type 0
  AreKept no_items = Unit
  AreKept (item x xs) = IsKept x × AreKept xs

  pub AreKeptFields : Fields → Type 0
  AreKeptFields no_fields = Unit
  AreKeptFields (field k v fs) = IsKept k × IsKept v × AreKeptFields fs
