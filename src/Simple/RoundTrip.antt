-- ===== src/Simple/RoundTrip.antt =====
-- `codec_simple_encode` into an empty slice, and `codec_simple_decode` of what the slice holds.
use cc_common.Base.{ℕ, zero, suc, ◌+◌, ◌-◌, ◌*◌, ◌^◌, ◌≤◌, ◌<◌, ◌≡◌, refl, sym, ap, ◌∙◌, arith}
use cc_common.Base.{Bool, true, false, List, [], ◌∷◌, ◌++◌, length, take, length-append, append-nil}
use cc_common.Base.{Option, none, ok, lt→ltb}
use cc_common.Slice.{Slice, zero_slice, contents}
use cc_common.Slice.Expand.{IsRealloc, Holds, Holds-zero, Holds-contents, Fits}
use cc_common.Value.{
  Value, unset, nil, bool, pos_int, neg_int, float32, float64, str, bytes, arr, map, ext, Items,
  no_items, item, Fields, no_fields, field, count_items, count_fields, IsWell, AreWell,
  AreWellFields,
}
use cc_common.Simple.Encode.{encode}
use cc_common.Simple.Encode.Wire.{int_wire, len_wire, wire, wire_items, wire_fields}
use cc_common.Simple.Encode.Refines.{encode-Appends}
use cc_common.Simple.Decode.{decode, decode_r}
use cc_common.Simple.Decode.Reads.{at}
use native.Mathlib.Nat.{zero-add}
use cc_common.Simple.Decode.Seen.{
  seen, seen_items, seen_fields, seen_int, trim, trim_items, trim_fields, IsShort, AreShort,
  AreShortFields,
}
use cc_common.Simple.Decode.Cost.{GrantsShort, cost, cost_items, cost_fields}
use cc_common.Simple.Decode.RoundTrip.{decode-wire}

-- The encoder writes the bytes of the format: from a slice that holds `xs`, it ends normally with
-- one that holds `xs` and `wire v`, if `*err` was NULL and memory is granted.
pub encode-wire :
    (realloc : List ℕ → ℕ → Option (List ℕ)) (limit : ℕ) (v : Value) (s : Slice) (xs : List ℕ)
    → IsRealloc realloc limit
    → IsWell v
    → Holds s xs
    → Fits limit (length xs + length (wire v) + 1)
    → (s' : Slice) × (encode realloc false v s ≡ ok s') × Holds s' (xs ++ wire v)
encode-wire realloc limit v s xs alloc h holds fits = encode-Appends alloc v h s xs holds fits

length-int_wire-pos : (desc n : ℕ) → 1 ≤ length (int_wire desc n)
unfolding int_wire
length-int_wire-pos desc n = omega arith

length-len_wire-pos : (desc n : ℕ) → 1 ≤ length (len_wire desc n)
unfolding len_wire
length-len_wire-pos desc zero = omega arith
length-len_wire-pos desc (suc n) = ground (arith, length-int_wire-pos (desc + 1) (suc n))

-- A short value can be held.
mutual
  pub IsShort-IsWell : (v : Value) → IsShort v → IsWell v
  IsShort-IsWell unset h = absurd h
  IsShort-IsWell (nil b) h = tt
  IsShort-IsWell (bool b) h = tt
  IsShort-IsWell (pos_int n) h = h
  IsShort-IsWell (neg_int n) h = h
  IsShort-IsWell (float32 w) h = h
  IsShort-IsWell (float64 w) h = h
  IsShort-IsWell (str mem len) h = omega arith
  IsShort-IsWell (bytes mem len) h = omega arith
  IsShort-IsWell (arr xs) h = (omega arith, AreShort-AreWell xs h.1)
  IsShort-IsWell (map fs) h = (omega arith, AreShortFields-AreWellFields fs h.1)
  IsShort-IsWell (ext tag mem len) h = omega arith

  AreShort-AreWell : (xs : Items) → AreShort xs → AreWell xs
  AreShort-AreWell no_items h = tt
  AreShort-AreWell (item x xs) h = (IsShort-IsWell x h.0, AreShort-AreWell xs h.1)

  AreShortFields-AreWellFields : (fs : Fields) → AreShortFields fs → AreWellFields fs
  AreShortFields-AreWellFields no_fields h = tt
  AreShortFields-AreWellFields (field k v fs) h =
      (IsShort-IsWell k h.0, IsShort-IsWell v h.1, AreShortFields-AreWellFields fs h.2)

-- Three units of fuel for each byte are enough.
mutual
  unfolding cost wire

  cost-lt-wire : (v : Value) → IsShort v → cost v < 3 * length (wire v)
  cost-lt-wire unset h = absurd h
  cost-lt-wire (nil b) h = omega arith
  cost-lt-wire (bool b) h = omega arith
  cost-lt-wire (pos_int n) h = omega (arith, length-int_wire-pos 8 n)
  cost-lt-wire (neg_int n) h = omega (arith, length-int_wire-pos 12 n)
  cost-lt-wire (float32 w) h = omega arith
  cost-lt-wire (float64 w) h = omega arith
  cost-lt-wire (str mem len) h =
      omega (arith, length-len_wire-pos 216 len, length-append (len_wire 216 len) (take len mem))
  cost-lt-wire (bytes mem len) h =
      omega (arith, length-len_wire-pos 224 len, length-append (len_wire 224 len) (take len mem))
  cost-lt-wire (arr xs) h = omega (
    arith,
    length-len_wire-pos 232 (count_items xs),
    length-append (len_wire 232 (count_items xs)) (wire_items xs),
    cost_items-le xs h.1,
  )
  cost-lt-wire (map fs) h = omega (
    arith,
    length-len_wire-pos 240 (count_fields fs),
    length-append (len_wire 240 (count_fields fs)) (wire_fields fs),
    cost_fields-le fs h.1,
  )
  cost-lt-wire (ext tag mem len) h =
      omega (arith, length-append (len_wire 248 len) (tag ∷ take len mem))

  cost_items-le : (xs : Items) → AreShort xs → cost_items xs ≤ 3 * length (wire_items xs) + 1
  cost_items-le no_items h = omega arith
  cost_items-le (item x xs) h =
      omega
        (arith, length-append (wire x) (wire_items xs), cost-lt-wire x h.0, cost_items-le xs h.1)

  cost_fields-le :
      (fs : Fields) → AreShortFields fs → cost_fields fs ≤ 3 * length (wire_fields fs) + 1
  cost_fields-le no_fields h = omega arith
  cost_fields-le (field k v fs) h = omega (
    arith,
    length-append (wire k) (wire v ++ wire_fields fs),
    length-append (wire v) (wire_fields fs),
    cost-lt-wire k h.0,
    cost-lt-wire v h.1,
    cost_fields-le fs h.2,
  )

-- The decoder reads the bytes of a short value, alone in the input, to their end with no error, and
-- gives the value as `seen` says; three units of fuel a byte are enough.
decode-wire_all :
    (calloc : ℕ → ℕ → Bool) (v : Value)
    → GrantsShort calloc
    → IsShort v
    → length (wire v) < 2 ^ 63
    → (w : Value) × (decode calloc (wire v) (3 * length (wire v))
        ≡ ok (w, record { pos = length (wire v); err = none }))
      × (trim w ≡ seen v)
unfolding decode
decode-wire_all calloc v grants h small =
    let fuel : ℕ = 3 * length (wire v) - 1 in
    let enough : suc fuel ≡ 3 * length (wire v) = omega (arith, cost-lt-wire v h) in
    let (w, run, same) =
      decode-wire calloc grants (wire v) small v fuel 0 [] h (omega (arith, cost-lt-wire v h))
        (sym (append-nil (wire v))) in
    (
      w,
      ap (λ f. decode_r calloc (wire v) f true (at 0)) (sym enough)
          ∙ run
          ∙ ap (λ q. ok (w, at q)) (zero-add (length (wire v))),
      same,
    )

-- Encoding a short value into an empty slice succeeds, and decoding what the slice then holds
-- succeeds at its last byte with the value as `seen` says, if memory is granted and `*err` was NULL.
pub decode-encode :
    (realloc : List ℕ → ℕ → Option (List ℕ)) (limit : ℕ) (calloc : ℕ → ℕ → Bool) (v : Value)
    → IsRealloc realloc limit
    → GrantsShort calloc
    → IsShort v
    → Fits limit (length (wire v) + 1)
    → length (wire v) < 2 ^ 63
    → (s : Slice) × (w : Value) × (encode realloc false v zero_slice ≡ ok s)
      × (decode calloc (contents s) (3 * length (contents s))
          ≡ ok (w, record { pos = length (contents s); err = none }))
      × (trim w ≡ seen v)
decode-encode realloc limit calloc v alloc grants h fits small =
    let (s, run, held) =
      encode-wire realloc limit v zero_slice [] alloc (IsShort-IsWell v h) Holds-zero
        (omega (arith, fits)) in
    let (w, back, same) = decode-wire_all calloc v grants h small in
    (s, w, run, rw (Holds-contents held) back, same)

-- A value with no float and no number of more than one byte.
abbrev mutual
  pub IsPlain : Value → Type 0
  IsPlain unset = Unit
  IsPlain (nil b) = b ≡ true
  IsPlain (bool b) = Unit
  IsPlain (pos_int n) = n < 2 ^ 8
  IsPlain (neg_int n) = n < 2 ^ 8
  IsPlain (float32 w) = ⊥
  IsPlain (float64 w) = ⊥
  IsPlain (str mem len) = Unit
  IsPlain (bytes mem len) = Unit
  IsPlain (arr xs) = ArePlain xs
  IsPlain (map fs) = ArePlainFields fs
  IsPlain (ext tag mem len) = Unit

  pub ArePlain : Items → Type 0
  ArePlain no_items = Unit
  ArePlain (item x xs) = IsPlain x × ArePlain xs

  pub ArePlainFields : Fields → Type 0
  ArePlainFields no_fields = Unit
  ArePlainFields (field k v fs) = IsPlain k × IsPlain v × ArePlainFields fs

seen_int_plain : (n : ℕ) → n < 2 ^ 8 → seen_int n ≡ n
unfolding seen_int
seen_int_plain n h = rw (lt→ltb n (2 ^ 8) h)

mutual
  unfolding seen trim

  seen_plain : (v : Value) → IsPlain v → seen v ≡ trim v
  seen_plain unset h = refl
  seen_plain (nil b) h = ap nil (sym h)
  seen_plain (bool b) h = refl
  seen_plain (pos_int n) h = ap pos_int (seen_int_plain n h)
  seen_plain (neg_int n) h = ap neg_int (seen_int_plain n h)
  seen_plain (float32 w) h = absurd h
  seen_plain (float64 w) h = absurd h
  seen_plain (str mem len) h = refl
  seen_plain (bytes mem len) h = refl
  seen_plain (arr xs) h = ap arr (seen_items_plain xs h)
  seen_plain (map fs) h = ap map (seen_fields_plain fs h)
  seen_plain (ext tag mem len) h = refl

  seen_items_plain : (xs : Items) → ArePlain xs → seen_items xs ≡ trim_items xs
  seen_items_plain no_items h = refl
  seen_items_plain (item x xs) h = cc (seen_plain x h.0, seen_items_plain xs h.1)

  seen_fields_plain : (fs : Fields) → ArePlainFields fs → seen_fields fs ≡ trim_fields fs
  seen_fields_plain no_fields h = refl
  seen_fields_plain (field k v fs) h =
      cc (seen_plain k h.0, seen_plain v h.1, seen_fields_plain fs h.2)

-- A short value whose numbers are below 256, with no float and with `vNil` true, comes back as it
-- was, up to the bytes in memory behind its strings.
pub decode-encode_plain :
    (realloc : List ℕ → ℕ → Option (List ℕ)) (limit : ℕ) (calloc : ℕ → ℕ → Bool) (v : Value)
    → IsRealloc realloc limit
    → GrantsShort calloc
    → IsShort v
    → IsPlain v
    → Fits limit (length (wire v) + 1)
    → length (wire v) < 2 ^ 63
    → (s : Slice) × (w : Value) × (encode realloc false v zero_slice ≡ ok s)
      × (decode calloc (contents s) (3 * length (contents s))
          ≡ ok (w, record { pos = length (contents s); err = none }))
      × (trim w ≡ trim v)
decode-encode_plain realloc limit calloc v alloc grants h plain fits small =
    let (s, w, run, back, same) = decode-encode realloc limit calloc v alloc grants h fits small in
    (s, w, run, back, same ∙ seen_plain v plain)
