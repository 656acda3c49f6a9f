-- ===== src/Simple/Encode/Refines.antt =====
-- The encoder appends the bytes of the specification.
use cc_common.Base.{ℕ, ◌+◌, ◌^◌, ◌<◌, ◌≡◌, refl, arith, ◌==◌}
use cc_common.Base.{true, false, u8, u16, u32}
use cc_common.Base.{List, [], ◌∷◌, ◌++◌, take, Option, le→leb, gt→leb}
use cc_common.BigEndian.{write_uint16, write_uint32, write_uint64}
use cc_common.Slice.Expand.{IsRealloc}
use cc_common.Slice.Append.{
  Appends, append-Appends, append_1-Appends, skip-Appends, >>=-Appends, Appends-eq,
}
use cc_common.Value.{
  Value, unset, nil, bool, pos_int, neg_int, float32, float64, str, bytes, arr, map, ext, Items,
  no_items, item, Fields, no_fields, field, count_items, count_fields, host_bytes, max_uint32,
  IsBlob, IsWell, AreWell, AreWellFields,
}
use native.Mathlib.Decide.{dec_lt}
use cc_common.Slice.Writer.{
  ◌and_then◌, put_1, put_some, word-Appends, byte-Appends, put_some-Appends,
}
use cc_common.Simple.Encode.{append_len, encode_int, encode, encode_items, encode_fields}
use cc_common.Simple.Encode.Wire.{
  digits_of, size_class, IntForm, one, two, four, eight, IntForm-cases, int_wire, len_wire, wire,
  wire_items, wire_fields,
}

digits_of-two : (n : ℕ) → digits_of 2 n ≡ write_uint16 (u16 n)
unfolding digits_of write_uint16
digits_of-two n = ground arith

digits_of-four : (n : ℕ) → digits_of 4 n ≡ write_uint32 (u32 n)
unfolding digits_of write_uint32
digits_of-four n = ground arith

digits_of-eight : (n : ℕ) → n < 2 ^ 64 → digits_of 8 n ≡ write_uint64 n
unfolding digits_of write_uint64
digits_of-eight n h = ground arith

int_wire_form : (desc n : ℕ) → IntForm n → List ℕ
int_wire_form desc n (one _) = desc ∷ u8 n ∷ []
int_wire_form desc n (two _ _) = (desc + 1) ∷ write_uint16 (u16 n)
int_wire_form desc n (four _ _) = (desc + 2) ∷ write_uint32 (u32 n)
int_wire_form desc n (eight _ _) = (desc + 3) ∷ write_uint64 n

int_wire_lem : (desc n : ℕ) (f : IntForm n) → int_wire desc n ≡ int_wire_form desc n f
unfolding int_wire size_class int_wire_form
int_wire_lem desc n (one a) = unfold digits_of in ground arith
int_wire_lem desc n (two a b) = ground (arith, digits_of-two n)
int_wire_lem desc n (four a b) = ground (arith, digits_of-four n)
int_wire_lem desc n (eight a b) = ground (arith, digits_of-eight n b)

len_wire_pos : (bd n : ℕ) → 0 < n → len_wire bd n ≡ int_wire (bd + 1) n
unfolding len_wire
len_wire_pos bd n pos = let e : (n == 0) ≡ false = ground arith in rw e

module _ {realloc : List ℕ → ℕ → Option (List ℕ)} {limit : ℕ}
    (alloc : IsRealloc realloc limit) where
  form-Appends :
      (desc n : ℕ) (f : IntForm n)
      → Appends alloc (encode_int realloc desc n) (int_wire_form desc n f)
  unfolding encode_int int_wire_form
  form-Appends desc n (one a) =
      Appends-eq alloc (rw (le→leb n 255 (omega arith))) refl (byte-Appends alloc desc (u8 n))
  form-Appends desc n (two a b) =
      Appends-eq alloc (rw (gt→leb n 255 (omega arith), le→leb n 65535 (omega arith))) refl
        (word-Appends alloc (desc + 1) (write_uint16 (u16 n)))
  form-Appends desc n (four a b) =
      Appends-eq alloc
        (rw (
          gt→leb n 255 (omega arith),
          gt→leb n 65535 (omega arith),
          le→leb n max_uint32 (omega arith),
        ))
        refl (word-Appends alloc (desc + 2) (write_uint32 (u32 n)))
  form-Appends desc n (eight a b) =
      Appends-eq alloc
        (rw (
          gt→leb n 255 (omega arith),
          gt→leb n 65535 (omega arith),
          gt→leb n max_uint32 (omega arith),
        ))
        refl (word-Appends alloc (desc + 3) (write_uint64 n))

  encode_int-Appends :
      (desc n : ℕ) → n < 2 ^ 64 → Appends alloc (encode_int realloc desc n) (int_wire desc n)
  encode_int-Appends desc n h =
      let f = IntForm-cases n h in
      Appends-eq alloc refl (int_wire_lem desc n f) (form-Appends desc n f)

  -- A length that is not 0 is written as a number is, from the next descriptor on.
  append_len-eq :
      (bd n : ℕ) → bd + 4 < 256 → 0 < n → append_len realloc bd n ≡ encode_int realloc (bd + 1) n
  unfolding append_len encode_int
  append_len-eq bd n small pos =
      let e1 : u8 (bd + 1) ≡ bd + 1 = omega arith in
      let e2 : u8 (bd + 2) ≡ bd + 1 + 1 = omega arith in
      let e3 : u8 (bd + 3) ≡ bd + 1 + 2 = omega arith in
      let e4 : u8 (bd + 4) ≡ bd + 1 + 3 = omega arith in
      let e0 : (n == 0) ≡ false = ground arith in rw (e0, e1, e2, e3, e4)

  append_len-Appends :
      (bd n : ℕ)
      → bd + 4 < 256
      → n < 2 ^ 64
      → Appends alloc (append_len realloc bd n) (len_wire bd n)
  append_len-Appends bd n small h = elim (dec_lt 0 n) [
    | yes pos ↦
        Appends-eq alloc (append_len-eq bd n small pos) (len_wire_pos bd n pos)
          (encode_int-Appends (bd + 1) n h)
    | no empty ↦
        let e : n ≡ 0 = omega arith in
        Appends-eq alloc {m' = put_1 realloc bd} {ys' = bd ∷ []} (unfold append_len in rw e)
          (unfold len_wire in rw e) (append_1-Appends alloc bd)
  ]

  blob-Appends :
      (bd : ℕ) (mem : List ℕ) (len : ℕ)
      → bd + 4 < 256
      → IsBlob mem len
      → Appends alloc
          (append_len realloc bd len and_then put_some realloc mem len)
          (len_wire bd len ++ take len mem)
  blob-Appends bd mem len small h =
      >>=-Appends alloc _ _ (len_wire bd len) (take len mem) (append_len-Appends bd len small h.1)
        (put_some-Appends alloc mem len h.0)

  mutual
    unfolding encode wire host_bytes

    pub encode-Appends : (v : Value) → IsWell v → Appends alloc (encode realloc false v) (wire v)
    encode-Appends unset h = skip-Appends alloc
    encode-Appends (nil b) h = append_1-Appends alloc 1
    encode-Appends (bool true) h = append_1-Appends alloc 3
    encode-Appends (bool false) h = append_1-Appends alloc 2
    encode-Appends (pos_int n) h = encode_int-Appends 8 n h
    encode-Appends (neg_int n) h = encode_int-Appends 12 n h
    encode-Appends (float32 w) h =
        >>=-Appends alloc _ _ (4 ∷ []) (take 4 (host_bytes w)) (append_1-Appends alloc 4)
          (append-Appends alloc (host_bytes w) 4 (omega arith))
    encode-Appends (float64 w) h =
        >>=-Appends alloc _ _ (5 ∷ []) (take 8 (host_bytes w)) (append_1-Appends alloc 5)
          (append-Appends alloc (host_bytes w) 8 (omega arith))
    encode-Appends (str mem len) h = blob-Appends 216 mem len (omega arith) h
    encode-Appends (bytes mem len) h = blob-Appends 224 mem len (omega arith) h
    encode-Appends (arr xs) h =
        >>=-Appends alloc _ _ (len_wire 232 (count_items xs)) (wire_items xs)
          (append_len-Appends 232 (count_items xs) (omega arith) h.0) (encode_items-Appends xs h.1)
    encode-Appends (map fs) h =
        >>=-Appends alloc _ _ (len_wire 240 (count_fields fs)) (wire_fields fs)
          (append_len-Appends 240 (count_fields fs) (omega arith) h.0)
          (encode_fields-Appends fs h.1)
    encode-Appends (ext tag mem len) h =
        >>=-Appends alloc _ _ (len_wire 248 len) (tag ∷ take len mem)
          (append_len-Appends 248 len (omega arith) h.1.1)
          (>>=-Appends alloc _ _ (tag ∷ []) (take len mem)
            (append-Appends alloc (tag ∷ []) 1 (omega arith))
            (put_some-Appends alloc mem len h.1.0))

    encode_items-Appends :
        (xs : Items) → AreWell xs → Appends alloc (encode_items realloc false xs) (wire_items xs)
    encode_items-Appends no_items h = skip-Appends alloc
    encode_items-Appends (item x xs) h =
        >>=-Appends alloc _ _ (wire x) (wire_items xs) (encode-Appends x h.0)
          (encode_items-Appends xs h.1)

    encode_fields-Appends :
        (fs : Fields)
        → AreWellFields fs
        → Appends alloc (encode_fields realloc false fs) (wire_fields fs)
    encode_fields-Appends no_fields h = skip-Appends alloc
    encode_fields-Appends (field k v fs) h =
        >>=-Appends alloc _ _ (wire k) (wire v ++ wire_fields fs) (encode-Appends k h.0) (
          >>=-Appends alloc _ _ (wire v) (wire_fields fs) (encode-Appends v h.1)
            (encode_fields-Appends fs h.2))
