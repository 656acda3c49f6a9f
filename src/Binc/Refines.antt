-- ===== src/Binc/Refines.antt =====
-- The "binc" encoder on values of the common part, and the numbers that it loses.
use cc_common.Base.{
  inl, ℕ, zero, suc, ap, ◌+◌, ◌/◌, ◌%◌, ◌^◌, ◌≤◌, ◌<◌, ◌≡◌, refl, arith, Bool, true, false, ◌==◌,
  List, [], ◌∷◌, ◌++◌, length, take, Option, le→leb, gt→leb, u8, u16, ok,
}
use cc_common.BigEndian.{write_uint16}
use cc_common.Slice.{Slice}
use cc_common.Slice.Expand.{IsRealloc, Holds, Fits}
use cc_common.Slice.Append.{
  Appends, append_1-Appends, append_word-Appends, skip-Appends, >>=-Appends, Appends-eq,
}
use cc_common.Slice.Writer.{Writer, put_word, put_some, ◌and_then◌, put_some-Appends}
use cc_common.Value.{
  Value, unset, nil, bool, pos_int, neg_int, float32, float64, str, bytes, arr, map, ext, Items,
  no_items, item, Fields, no_fields, field, count_items, count_fields, max_uint32,
}
use cc_common.Binc.Encode.{
  encode, encode_items, encode_fields, encode_uint, encode_uint_prune, encode_len, encode_float,
  looped, prune_word,
}
use cc_common.Binc.Wire.{
  IsLength, short_wire, kept_wire, kept_wire_items, kept_wire_fields, IsKept, AreKept,
  AreKeptFields,
}
use cc_common.Binc.Numbers.{not_small, neg-Appends, pos-Appends, len-Appends}

module _ {realloc : List ℕ → ℕ → Option (List ℕ)} {limit : ℕ} (alloc : IsRealloc realloc limit)
    (image : List ℕ → ℕ → List ℕ) (fuel : ℕ) where
  blob-Appends :
      (bd : ℕ) (mem : List ℕ) (len : ℕ)
      → (len ≤ length mem) × IsLength len
      → Appends alloc
          (encode_len realloc image fuel bd len and_then put_some realloc mem len)
          (short_wire bd len ++ take len mem)
  blob-Appends bd mem len h =
      >>=-Appends alloc _ _ (short_wire bd len) (take len mem)
        (len-Appends alloc image fuel bd len h.1) (put_some-Appends alloc mem len h.0)

  entries-Appends :
      (bd len : ℕ) (m : Writer) (ys : List ℕ)
      → len < 256
      → Appends alloc m ys
      → Appends alloc
          (encode_len realloc image fuel bd len and_then looped realloc image fuel len m)
          (short_wire bd len ++ ys)
  unfolding looped
  entries-Appends bd len m ys h each =
      >>=-Appends alloc _ _ (short_wire bd len) ys (len-Appends alloc image fuel bd len (inl h))
        (Appends-eq alloc (rw (le→leb len 255 (omega arith))) refl each)

  zero-Appends : Appends alloc (encode_float realloc image fuel 0) (6 ∷ [])
  unfolding encode_float
  zero-Appends = append_1-Appends alloc 6

  mutual
    unfolding encode kept_wire

    pub encode-Appends :
        (v : Value) → IsKept v → Appends alloc (encode realloc image fuel false v) (kept_wire v)
    encode-Appends unset h = absurd h
    encode-Appends (nil b) h = append_1-Appends alloc 0
    encode-Appends (bool true) h = append_1-Appends alloc 2
    encode-Appends (bool false) h = append_1-Appends alloc 1
    encode-Appends (pos_int n) h = pos-Appends alloc image fuel n h
    encode-Appends (neg_int n) h = neg-Appends alloc image fuel n h.1
    encode-Appends (float32 w) h = absurd h
    encode-Appends (float64 w) h =
        Appends-eq alloc (ap (encode_float realloc image fuel) h) refl zero-Appends
    encode-Appends (str mem len) h = blob-Appends 64 mem len h
    encode-Appends (bytes mem len) h = blob-Appends 80 mem len h
    encode-Appends (arr xs) h =
        entries-Appends 96 (count_items xs) _ (kept_wire_items xs) h.0
          (items-Appends 256 xs (omega arith) h.1)
    encode-Appends (map fs) h =
        entries-Appends 112 (count_fields fs) _ (kept_wire_fields fs) h.0
          (fields-Appends 256 fs (omega arith) h.1)
    encode-Appends (ext tag mem len) h = absurd h

    items-Appends :
        (n : ℕ) (xs : Items)
        → count_items xs ≤ n
        → AreKept xs
        → Appends alloc (encode_items realloc image fuel n xs) (kept_wire_items xs)
    items-Appends zero no_items c h = skip-Appends alloc
    items-Appends (suc n) no_items c h = skip-Appends alloc
    items-Appends zero (item x xs) c h = absurd (omega arith)
    items-Appends (suc n) (item x xs) c h =
        >>=-Appends alloc _ _ (kept_wire x) (kept_wire_items xs) (encode-Appends x h.0)
          (items-Appends n xs (omega arith) h.1)

    fields-Appends :
        (n : ℕ) (fs : Fields)
        → count_fields fs ≤ n
        → AreKeptFields fs
        → Appends alloc (encode_fields realloc image fuel n fs) (kept_wire_fields fs)
    fields-Appends zero no_fields c h = skip-Appends alloc
    fields-Appends (suc n) no_fields c h = skip-Appends alloc
    fields-Appends zero (field k v fs) c h = absurd (omega arith)
    fields-Appends (suc n) (field k v fs) c h =
        >>=-Appends alloc _ _ (kept_wire k) (kept_wire v ++ kept_wire_fields fs)
          (encode-Appends k h.0)
          (>>=-Appends alloc _ _ (kept_wire v) (kept_wire_fields fs) (encode-Appends v h.1)
            (fields-Appends n fs (omega arith) h.2))

-- A number of two bytes is written as these two bytes, whatever its descriptor.
encode_uint-two :
    (realloc : List ℕ → ℕ → Option (List ℕ)) (image : List ℕ → ℕ → List ℕ) (fuel bd n : ℕ)
    (pos : Bool)
    → 256 ≤ n
    → n < 2 ^ 16
    → encode_uint realloc image fuel bd pos n ≡ put_word realloc (n / 256 ∷ n % 256 ∷ [])
unfolding encode_uint write_uint16
encode_uint-two realloc image fuel bd n pos lo hi =
    let e : (n == 0) ≡ false = ground arith in
    let high : u8 (u16 n / 2 ^ 8) ≡ n / 256 = omega arith in
    let low : u8 (u16 n) ≡ n % 256 = omega arith in
    rw (
      e,
      not_small n pos (omega arith),
      gt→leb n 255 (omega arith),
      le→leb n 65535 (omega arith),
      high,
      low,
    )

-- A number of two bytes is written without its descriptor: where memory is granted, the slice behind
-- the call holds what it held and then these two bytes only, the higher one first, and it is the same
-- slice for the positive number as for the negative one.
pub encode-two_bytes :
    (realloc : List ℕ → ℕ → Option (List ℕ)) (limit : ℕ) (image : List ℕ → ℕ → List ℕ) (fuel : ℕ)
    (failed : Bool) (n : ℕ) (s : Slice) (xs : List ℕ)
    → IsRealloc realloc limit
    → Holds s xs
    → Fits limit (length xs + 2 + 1)
    → 256 ≤ n
    → n < 2 ^ 16
    → (s' : Slice) × (encode realloc image fuel failed (pos_int n) s ≡ ok s')
      × (encode realloc image fuel failed (neg_int n) s ≡ ok s')
      × Holds s' (xs ++ n / 256 ∷ n % 256 ∷ [])
unfolding encode
encode-two_bytes realloc limit image fuel failed n s xs alloc h fits lo hi =
    let (s', written, held) = append_word-Appends alloc (n / 256 ∷ n % 256 ∷ []) s xs h fits in
    (
      s',
      rw (encode_uint-two realloc image fuel 16 n true lo hi) written,
      rw (encode_uint-two realloc image fuel 32 n false lo hi) written,
      held,
    )

pub encode_uint-eight :
    (realloc : List ℕ → ℕ → Option (List ℕ)) (image : List ℕ → ℕ → List ℕ) (fuel bd n : ℕ)
    (pos : Bool)
    → 2 ^ 32 ≤ n
    → encode_uint realloc image fuel bd pos n ≡ encode_uint_prune realloc image fuel n bd pos 8
unfolding encode_uint
encode_uint-eight realloc image fuel bd n pos lo =
    let e : (n == 0) ≡ false = ground arith in
    rw (
      e,
      not_small n pos (omega arith),
      gt→leb n 255 (omega arith),
      gt→leb n 65535 (omega arith),
      gt→leb n max_uint32 (omega arith),
    )

-- Of a number of more than 32 bits only the low 32 bits are written: two such numbers that agree in
-- these leave the same bytes.
pub encode-high_lost :
    (realloc : List ℕ → ℕ → Option (List ℕ)) (image : List ℕ → ℕ → List ℕ) (fuel : ℕ)
    (failed : Bool) (n m : ℕ) (s : Slice)
    → 2 ^ 32 ≤ n
    → 2 ^ 32 ≤ m
    → n % 2 ^ 32 ≡ m % 2 ^ 32
    → encode realloc image fuel failed (pos_int n) s
      ≡ encode realloc image fuel failed (pos_int m) s
unfolding encode encode_uint_prune prune_word
encode-high_lost realloc image fuel failed n m s hn hm same = rw (
  encode_uint-eight realloc image fuel 16 n true hn,
  encode_uint-eight realloc image fuel 16 m true hm,
  same,
)
