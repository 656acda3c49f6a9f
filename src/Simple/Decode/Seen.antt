-- ===== src/Simple/Decode/Seen.antt =====
-- What the decoder makes of an encoded value, as a specification. A number of more than one byte
-- comes back as its first byte, sign extended; a float as the number that its bytes, in the
-- encoding host's order, spell as an integer. A string is cut to its length.
use cc_common.Base.{ℕ, ◌/◌, ◌^◌, ◌≤◌, ◌<◌, true, ltb, if◌then◌else◌, length, take}
use cc_common.BigEndian.Laws.{digits_value}
use cc_common.Float.{double_of_uint, float_of_uint}
use cc_common.Value.{
  Value, unset, nil, bool, pos_int, neg_int, float32, float64, str, bytes, arr, map, ext, Items,
  no_items, item, Fields, no_fields, field, count_items, count_fields, host_bytes,
}
use cc_common.Value.Cursor.{sign_extend}

unfoldable pub seen_int : ℕ → ℕ
seen_int n =
    if ltb n (2 ^ 8)
    then n
    else if ltb n (2 ^ 16)
    then sign_extend 16 (n / 2 ^ 8)
    else if ltb n (2 ^ 32)
    then sign_extend 32 (n / 2 ^ 24)
    else sign_extend 64 (n / 2 ^ 56)

unfoldable mutual
  pub seen : Value → Value
  seen unset = unset
  seen (nil b) = nil true
  seen (bool b) = bool b
  seen (pos_int n) = pos_int (seen_int n)
  seen (neg_int n) = neg_int (seen_int n)
  seen (float32 w) = float32 (float_of_uint (digits_value 0 (take 4 (host_bytes w))))
  seen (float64 w) = float64 (double_of_uint (digits_value 0 (host_bytes w)))
  seen (str mem len) = str (take len mem) len
  seen (bytes mem len) = bytes (take len mem) len
  seen (arr xs) = arr (seen_items xs)
  seen (map fs) = map (seen_fields fs)
  seen (ext tag mem len) = ext tag (take len mem) len

  pub seen_items : Items → Items
  seen_items no_items = no_items
  seen_items (item x xs) = item (seen x) (seen_items xs)

  pub seen_fields : Fields → Fields
  seen_fields no_fields = no_fields
  seen_fields (field k v fs) = field (seen k) (seen v) (seen_fields fs)

-- Each string, bytes or extension cut to its length: what lies behind it in memory is forgotten.
unfoldable mutual
  pub trim : Value → Value
  trim unset = unset
  trim (nil b) = nil b
  trim (bool b) = bool b
  trim (pos_int n) = pos_int n
  trim (neg_int n) = neg_int n
  trim (float32 w) = float32 w
  trim (float64 w) = float64 w
  trim (str mem len) = str (take len mem) len
  trim (bytes mem len) = bytes (take len mem) len
  trim (arr xs) = arr (trim_items xs)
  trim (map fs) = map (trim_fields fs)
  trim (ext tag mem len) = ext tag (take len mem) len

  pub trim_items : Items → Items
  trim_items no_items = no_items
  trim_items (item x xs) = item (trim x) (trim_items xs)

  pub trim_fields : Fields → Fields
  trim_fields no_fields = no_fields
  trim_fields (field k v fs) = field (trim k) (trim v) (trim_fields fs)

-- A written value whose strings and containers are shorter than 256; numbers and floats are any.
abbrev mutual
  pub IsShort : Value → Type 0
  IsShort unset = ⊥
  IsShort (nil b) = Unit
  IsShort (bool b) = Unit
  IsShort (pos_int n) = n < 2 ^ 64
  IsShort (neg_int n) = n < 2 ^ 64
  IsShort (float32 w) = w < 2 ^ 64
  IsShort (float64 w) = w < 2 ^ 64
  IsShort (str mem len) = (len ≤ length mem) × (len < 2 ^ 8)
  IsShort (bytes mem len) = (len ≤ length mem) × (len < 2 ^ 8)
  IsShort (arr xs) = (count_items xs < 2 ^ 8) × AreShort xs
  IsShort (map fs) = (count_fields fs < 2 ^ 8) × AreShortFields fs
  IsShort (ext tag mem len) = (tag < 2 ^ 8) × (len ≤ length mem) × (len < 2 ^ 8)

  pub AreShort : Items → Type 0
  AreShort no_items = Unit
  AreShort (item x xs) = IsShort x × AreShort xs

  pub AreShortFields : Fields → Type 0
  AreShortFields no_fields = Unit
  AreShortFields (field k v fs) = IsShort k × IsShort v × AreShortFields fs
