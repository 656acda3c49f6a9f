-- ===== src/Value/Print.antt =====
-- `codec_value_print_r` and `codec_value_print` of ugorji/codec/codec.c.
--
-- What `snprintf` makes of "%f" is a parameter: the text of a double by its bits, and that of a double
-- that is converted to `float` first. The indices `int i` and `int x` are numbers without bound.
pub mod Texts
pub mod Laws
pub mod Bytes
use cc_common.Base.{
  ℕ, zero, suc, ◌+◌, ◌-◌, ◌*◌, ◌/◌, ◌%◌, ◌^◌, u64, Bool, true, false, ltb, if◌then◌else◌, List, [],
  ◌∷◌, ◌++◌, length, take, Option, Outcome, ok, fault, ◌>>=◌,
}
use cc_common.Slice.{Slice, store, expand, append}
use cc_common.Value.{
  Value, unset, nil, bool, pos_int, neg_int, float32, float64, str, bytes, arr, map, ext, Items,
  no_items, item, Fields, no_fields, field,
}

abbrev pub digit : ℕ → ℕ
digit d = if ltb d 10 then 48 + d else 87 + d

-- The digits of a number, at most as many as the first argument.
unfoldable pub digits : ℕ → ℕ → ℕ → List ℕ
digits zero base n = []
digits (suc f) base n =
    let rest = digits f base (n / base) in
    if ltb n base then digit n ∷ [] else rest ++ digit (n % base) ∷ []

-- "%lu" and "%d" of numbers that are not negative, and "%x" of an `unsigned`.
abbrev pub decimal : ℕ → List ℕ
decimal n = digits 20 10 n

abbrev pub hex : ℕ → List ℕ
hex n = digits 8 16 n

-- "%hhd" of a byte, and "%0x" of a `char`, which is sign extended.
abbrev pub signed_text : ℕ → List ℕ
signed_text b = if ltb b 128 then decimal b else 45 ∷ decimal (256 - b)

abbrev pub extended_text : ℕ → List ℕ
extended_text b = if ltb b 128 then hex b else hex (2 ^ 32 - 256 + b)

-- "%d" of a `bool`.
abbrev pub bool_text : Bool → List ℕ
bool_text b = if b then 49 ∷ [] else 48 ∷ []

-- "%d:" of the type.
abbrev pub type_text : ℕ → List ℕ
type_text ty = decimal ty ++ 58 ∷ []

-- `b->bytes.len += snprintf(&b->bytes.v[b->bytes.len], size, …)`: of the text as much is written as
-- fits with a closing 0, but all of it is counted.
unfoldable pub snprintf : ℕ → List ℕ → Slice → Outcome Slice
snprintf size text s = do
  mem ← store s.mem s.len (take (size - 1) text ++ 0 ∷ [])
  ok (record s { mem = mem; len = u64 (s.len + length text) })

-- The loop over the bytes of a `slice_bytes`, each of which is printed into 3 bytes.
unfoldable pub print_each : (ℕ → List ℕ) → ℕ → List ℕ → Slice → Outcome Slice
print_each text zero mem s = ok s
print_each text (suc n) [] s = fault
print_each text (suc n) (b ∷ mem) s = snprintf 3 (text b) s >>= print_each text n mem

module _ (realloc : List ℕ → ℕ → Option (List ℕ)) (text_f text_f32 : ℕ → List ℕ) where
  -- `slice_bytes_expand` and `snprintf` with the same size.
  unfoldable pub put : ℕ → List ℕ → Slice → Outcome Slice
  put size text s = expand realloc s size >>= snprintf size text

  -- The case of CODEC_VALUE_BYTES.
  unfoldable pub print_bytes : List ℕ → ℕ → Slice → Outcome Slice
  print_bytes mem len s = do
    s1 ← expand realloc s (u64 (len * 2 + 8))
    s2 ← snprintf 3 (48 ∷ 120 ∷ []) s1
    print_each signed_text len mem s2

  -- The case of CODEC_VALUE_CUSTOMEXT.
  unfoldable pub print_ext : ℕ → List ℕ → ℕ → Slice → Outcome Slice
  print_ext tag mem len s = do
    s1 ← put 3 (40 ∷ 32 ∷ []) s
    s2 ← put 12 (48 ∷ 120 ∷ hex tag ++ 44 ∷ 32 ∷ 48 ∷ 120 ∷ []) s1
    s3 ← expand realloc s2 (u64 (len * 2 + 8))
    s4 ← print_each extended_text len mem s3
    put 3 (32 ∷ 41 ∷ []) s4

  -- The text between two entries.
  unfoldable pub comma : Bool → Slice → Outcome Slice
  comma true s = ok s
  comma false s = put 3 (44 ∷ 32 ∷ []) s

  -- `codec_value_print_r`.
  unfoldable mutual
    pub print_r : Value → Slice → Outcome Slice
    print_r unset s = put 4 (type_text 0) s
    print_r (nil b) s = put 4 (type_text 1) s >>= put 16 (bool_text b)
    print_r (bool b) s = put 4 (type_text 2) s >>= put 16 (bool_text b)
    print_r (pos_int n) s = put 4 (type_text 3) s >>= put 16 (decimal n)
    print_r (neg_int n) s = put 4 (type_text 4) s >>= put 16 (45 ∷ decimal n)
    print_r (float32 w) s = put 4 (type_text 5) s >>= put 16 (text_f32 w)
    print_r (float64 w) s = put 4 (type_text 6) s >>= put 16 (text_f w)
    print_r (str mem len) s = put 4 (type_text 7) s >>= (λ s1. append realloc s1 mem len)
    print_r (bytes mem len) s = put 4 (type_text 8) s >>= print_bytes mem len
    print_r (arr xs) s =
        ((put 4 (type_text 9) s >>= put 3 (91 ∷ 32 ∷ [])) >>= print_items true xs)
        >>= put 3 (32 ∷ 93 ∷ [])
    print_r (map fs) s =
        ((put 4 (type_text 10) s >>= put 3 (123 ∷ 32 ∷ [])) >>= print_fields true fs)
        >>= put 3 (32 ∷ 125 ∷ [])
    print_r (ext tag mem len) s = put 4 (type_text 11) s >>= print_ext tag mem len

    -- The loops over an array and a map, with whether `i` is 0.
    pub print_items : Bool → Items → Slice → Outcome Slice
    print_items first no_items s = ok s
    print_items first (item x xs) s = (comma first s >>= print_r x) >>= print_items false xs

    pub print_fields : Bool → Fields → Slice → Outcome Slice
    print_fields first no_fields s = ok s
    print_fields first (field k v fs) s =
        (((comma first s >>= print_r k) >>= put 4 (32 ∷ 61 ∷ 32 ∷ [])) >>= print_r v)
        >>= print_fields false fs

  -- `codec_value_print`.
  unfoldable pub print : Value → Slice → Outcome Slice
  print v s = do
    s1 ← print_r v s
    s2 ← append realloc s1 (0 ∷ []) 1
    ok (record s2 { len = u64 (s2.len + (2 ^ 64 - 1)) })
