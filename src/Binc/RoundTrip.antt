-- ===== src/Binc/RoundTrip.antt =====
-- The "binc" codec as a whole: what was encoded, decoded, where the widths of numbers and lengths are
-- those that are kept; and what the decoder accepts beyond its input.
use cc_common.Base.{
  ℕ, suc, ◌+◌, ◌-◌, ◌*◌, ◌/◌, ◌%◌, ◌^◌, ◌≤◌, ◌<◌, ◌≡◌, refl, sym, ap, ◌∙◌, arith, u64, Bool, true,
  false, leb, List, [], ◌∷◌, ◌++◌, length, take, ok, none, Option, append-nil, length-append,
}
use native.Mathlib.Nat.{zero-add}
use cc_common.Slice.{Slice, zero_slice, contents}
use cc_common.Slice.Expand.{IsRealloc, Fits, Holds-zero, Holds-contents}
use cc_common.Value.{
  Value, unset, nil, bool, pos_int, neg_int, float32, float64, str, bytes, arr, map, ext, Items,
  no_items, item, Fields, no_fields, field, count_items, count_fields,
}
use cc_common.Simple.Decode.Reads.{at}
use cc_common.Simple.Decode.Seen.{trim}
use cc_common.Simple.Decode.Cost.{cost, cost_items, cost_fields, GrantsShort}
use cc_common.Binc.Encode.{encode}
use cc_common.Binc.Decode.{as_string, binc_kind, decode_len, read_blob, dispatch, decode, decode_r}
use cc_common.Binc.Wire.{
  wide_wire, four_wire, three_wire, neg_wire, pos_wire, short_wire, kept_wire, kept_wire_items,
  kept_wire_fields, IsKept, AreKept, AreKeptFields,
}
use cc_common.Binc.Refines.{encode-Appends}
use cc_common.Binc.Reads.{entered}
use cc_common.Binc.DecodeWire.{decode-wire}

pos_wire-pos : (n : ℕ) → 1 ≤ length (pos_wire n)
unfolding pos_wire three_wire four_wire
pos_wire-pos n = ground arith

wide_wire-pos : (bd n : ℕ) → 1 ≤ length (wide_wire bd n)
unfolding wide_wire four_wire
wide_wire-pos bd n = ground arith

neg_wire-pos : (n : ℕ) → 1 ≤ length (neg_wire n)
unfolding neg_wire
neg_wire-pos n = ground (arith, wide_wire-pos 32 n)

short_wire-pos : (bd n : ℕ) → 1 ≤ length (short_wire bd n)
unfolding short_wire
short_wire-pos bd n = ground (arith, wide_wire-pos bd n)

-- Three units of fuel for each byte are enough.
mutual
  unfolding cost kept_wire

  cost-lt-wire : (v : Value) → IsKept v → cost v < 3 * length (kept_wire v)
  cost-lt-wire unset h = absurd h
  cost-lt-wire (nil b) h = omega arith
  cost-lt-wire (bool b) h = omega arith
  cost-lt-wire (pos_int n) h = omega (arith, pos_wire-pos n)
  cost-lt-wire (neg_int n) h = omega (arith, neg_wire-pos n)
  cost-lt-wire (float32 w) h = absurd h
  cost-lt-wire (float64 w) h = omega arith
  cost-lt-wire (str mem len) h =
      omega (arith, short_wire-pos 64 len, length-append (short_wire 64 len) (take len mem))
  cost-lt-wire (bytes mem len) h =
      omega (arith, short_wire-pos 80 len, length-append (short_wire 80 len) (take len mem))
  cost-lt-wire (arr xs) h = omega (
    arith,
    short_wire-pos 96 (count_items xs),
    length-append (short_wire 96 (count_items xs)) (kept_wire_items xs),
    cost_items-le xs h.1,
  )
  cost-lt-wire (map fs) h = omega (
    arith,
    short_wire-pos 112 (count_fields fs),
    length-append (short_wire 112 (count_fields fs)) (kept_wire_fields fs),
    cost_fields-le fs h.1,
  )
  cost-lt-wire (ext tag mem len) h = absurd h

  cost_items-le : (xs : Items) → AreKept xs → cost_items xs ≤ 3 * length (kept_wire_items xs) + 1
  cost_items-le no_items h = omega arith
  cost_items-le (item x xs) h = omega (
    arith,
    length-append (kept_wire x) (kept_wire_items xs),
    cost-lt-wire x h.0,
    cost_items-le xs h.1,
  )

  cost_fields-le :
      (fs : Fields) → AreKeptFields fs → cost_fields fs ≤ 3 * length (kept_wire_fields fs) + 1
  cost_fields-le no_fields h = omega arith
  cost_fields-le (field k v fs) h = omega (
    arith,
    length-append (kept_wire k) (kept_wire v ++ kept_wire_fields fs),
    length-append (kept_wire v) (kept_wire_fields fs),
    cost-lt-wire k h.0,
    cost-lt-wire v h.1,
    cost_fields-le fs h.2,
  )

decode-wire_all :
    (calloc : ℕ → ℕ → Bool) (v : Value)
    → GrantsShort calloc
    → IsKept v
    → length (kept_wire v) < 2 ^ 63
    → (w : Value) × (decode calloc (kept_wire v) (3 * length (kept_wire v))
        ≡ ok (w, record { pos = length (kept_wire v); err = none }))
      × (trim w ≡ trim v)
unfolding decode
decode-wire_all calloc v grants h small =
    let fuel : ℕ = 3 * length (kept_wire v) - 1 in
    let enough : suc fuel ≡ 3 * length (kept_wire v) = omega (arith, cost-lt-wire v h) in
    let (w, run, same) =
      decode-wire calloc grants (kept_wire v) small v fuel 0 [] h (omega (arith, cost-lt-wire v h))
        (sym (append-nil (kept_wire v))) in
    (
      w,
      ap (λ f. decode_r calloc (kept_wire v) f true (at 0)) (sym enough)
          ∙ run
          ∙ ap (λ q. ok (w, at q)) (zero-add (length (kept_wire v))),
      same,
    )

-- A value whose numbers and lengths are below 2 ^ 8 or, from 2 ^ 16 on, below 2 ^ 32 for a positive
-- number and below 0xff800000 for a negative number or a length, whose counts are below 2 ^ 8, with
-- no negative number 0, no float but 0.0, no extension and `vNil` true: encoding it into an empty
-- slice succeeds, and decoding what the slice then holds gives it back, up to the bytes in memory
-- behind its strings, with no error and at the last byte, if memory is granted and `*err` was NULL.
pub binc_decode-encode :
    (realloc : List ℕ → ℕ → Option (List ℕ)) (limit : ℕ) (calloc : ℕ → ℕ → Bool)
    (image : List ℕ → ℕ → List ℕ) (fuel : ℕ) (v : Value)
    → IsRealloc realloc limit
    → GrantsShort calloc
    → IsKept v
    → Fits limit (length (kept_wire v) + 1)
    → length (kept_wire v) < 2 ^ 63
    → (s : Slice) × (w : Value) × (encode realloc image fuel false v zero_slice ≡ ok s)
      × (decode calloc (contents s) (3 * length (contents s))
          ≡ ok (w, record { pos = length (contents s); err = none }))
      × (trim w ≡ trim v)
binc_decode-encode realloc limit calloc image fuel v alloc grants h fits small =
    let (s, run, held) =
      encode-Appends alloc image fuel v h zero_slice [] Holds-zero (omega (arith, fits)) in
    let (w, back, same) = decode-wire_all calloc v grants h small in
    (s, w, run, rw (Holds-contents held) back, same)

-- A string of `len` bytes, fewer than 12, is accepted behind its descriptor however few bytes
-- follow: the decoder ends with no error at position `1 + len`, which may be behind the input.
pub decode-string_cut :
    (calloc : ℕ → ℕ → Bool) (len f : ℕ) (rest : List ℕ)
    → len < 12
    → length rest < 2 ^ 62
    → decode calloc ((68 + len) ∷ rest) (suc f)
      ≡ ok (str rest len, record { pos = 1 + len; err = none })
unfolding decode binc_kind dispatch read_blob decode_len
decode-string_cut calloc len f rest h small =
    let high : (68 + len) / 16 ≡ 4 = omega arith in
    let low : (68 + len) % 16 ≡ len + 4 = omega arith in
    let inline : leb (len + 4) 3 ≡ false = ground arith in
    let back : len + 4 - 4 ≡ len = omega arith in
    let moved : u64 (1 + len) ≡ 1 + len = omega arith in
    entered calloc ((68 + len) ∷ rest) (omega arith) f 0 as_string refl (rw high)
    ∙ rw (low, inline, back, moved)
