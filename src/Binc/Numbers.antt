-- ===== src/Binc/Numbers.antt =====
-- The numbers and lengths that the "binc" encoder writes with a width that is kept.
use cc_common.BigEndian.{write_uint32}
use cc_common.Base.{
  inl, inr, ◌/◌, u32, drop, if◌then◌else◌, ℕ, zero, suc, ◌+◌, ◌-◌, ◌^◌, ◌≤◌, ◌<◌, ◌≡◌, refl, arith,
  u8, Bool, true, false, ltb, leb, ◌==◌, ◌&&◌, List, [], ◌∷◌, length, take, Option, le→leb, gt→leb,
  lt→ltb, ge→ltb,
}
use native.Mathlib.Decide.{dec_lt, dec_le}
use cc_common.Slice.Expand.{IsRealloc}
use cc_common.Slice.Append.{Appends, append_1-Appends, append-Appends, >>=-Appends, Appends-eq}
use cc_common.Slice.Writer.{put_1, byte-Appends}
use cc_common.Value.{max_uint32}
use cc_common.Binc.Encode.{
  encode_uint, encode_uint_prune, encode_len, prune_word, prune_sign_ext, leading_zeros,
  leading_ones,
}
use cc_common.Binc.Wire.{
  IsNumber, IsLength, four_wire, three_wire, wide_wire, neg_wire, pos_wire, short_wire,
}

-- How much of a number the sign extension leaves out.
pruned_one : (n : ℕ) → 2 ^ 16 ≤ n → n < 0x80_0000 → prune_sign_ext true (write_uint32 n) ≡ 1
unfolding prune_sign_ext leading_zeros write_uint32
pruned_one n lo hi =
    let first : u8 (n / 2 ^ 24) ≡ 0 = omega arith in
    let third : 0 < u8 (n / 2 ^ 16) = omega arith in
    let third_low : u8 (n / 2 ^ 16) < 128 = omega arith in
    let stop : (u8 (n / 2 ^ 16) == 0) ≡ false = ground (arith, third) in
    rw (first, lt→ltb (u8 (n / 2 ^ 16)) 128 third_low, stop)

pruned_pos : (n : ℕ) → 0x80_0000 ≤ n → n < 2 ^ 32 → prune_sign_ext true (write_uint32 n) ≡ 0
unfolding prune_sign_ext leading_zeros write_uint32
pruned_pos n lo hi =
    let stop : (u8 (n / 2 ^ 24) == 0 && ltb (u8 (n / 2 ^ 16)) 128) ≡ false = ground arith in rw stop

pruned_neg : (n : ℕ) → n < 0xff80_0000 → prune_sign_ext false (write_uint32 n) ≡ 0
unfolding prune_sign_ext leading_ones write_uint32
pruned_neg n hi =
    let stop : (u8 (n / 2 ^ 24) == 255 && leb 128 (u8 (n / 2 ^ 16))) ≡ false = ground arith in
    rw stop

pub not_small : (n : ℕ) (pos : Bool) → 16 < n → (pos && leb n 16) ≡ false
not_small n true h = gt→leb n 16 h
not_small n false h = refl

module _ {realloc : List ℕ → ℕ → Option (List ℕ)} {limit : ℕ} (alloc : IsRealloc realloc limit)
    (image : List ℕ → ℕ → List ℕ) (fuel : ℕ) where
  special-Appends :
      (bd : ℕ) (pos : Bool) → Appends alloc (encode_uint realloc image fuel bd pos 0) (7 ∷ [])
  unfolding encode_uint
  special-Appends bd pos = append_1-Appends alloc 7

  two-Appends :
      (bd n : ℕ) (pos : Bool)
      → (pos && leb n 16) ≡ false
      → 0 < n
      → n < 256
      → Appends alloc (encode_uint realloc image fuel bd pos n) (bd ∷ n ∷ [])
  unfolding encode_uint
  two-Appends bd n pos wide lo hi =
      let e : (n == 0) ≡ false = ground arith in
      let same : u8 n ≡ n = omega arith in
      Appends-eq alloc {ys' = bd ∷ n ∷ []} (rw (e, wide, le→leb n 255 (omega arith), same)) refl
        (byte-Appends alloc bd n)

  -- A number of more than two bytes, of which `i` are pruned.
  pruned-Appends :
      (bd n i : ℕ) (pos : Bool)
      → 2 ^ 16 ≤ n
      → n < 2 ^ 32
      → prune_sign_ext pos (write_uint32 n) ≡ i
      → 4 - i ≤ length (drop i (write_uint32 n))
      → Appends alloc
          (encode_uint realloc image fuel bd pos n)
          ((bd + (3 - i)) ∷ take (4 - i) (drop i (write_uint32 n)))
  unfolding encode_uint encode_uint_prune prune_word
  pruned-Appends bd n i pos lo hi pruned enough =
      let e : (n == 0) ≡ false = ground arith in
      let low : u32 n ≡ n = omega arith in
      let three : 4 - 1 - i ≡ 3 - i = omega arith in
      Appends-eq alloc
        (rw (
          e,
          not_small n pos (omega arith),
          gt→leb n 255 (omega arith),
          gt→leb n 65535 (omega arith),
          le→leb n max_uint32 (omega arith),
          low,
          pruned,
          three,
        ))
        refl
        (>>=-Appends alloc _ _ ((bd + (3 - i)) ∷ []) (take (4 - i) (drop i (write_uint32 n)))
          (append_1-Appends alloc (bd + (3 - i)))
          (append-Appends alloc (drop i (write_uint32 n)) (4 - i) enough))

  four-Appends :
      (bd n : ℕ) (pos : Bool)
      → 2 ^ 16 ≤ n
      → n < 2 ^ 32
      → prune_sign_ext pos (write_uint32 n) ≡ 0
      → Appends alloc (encode_uint realloc image fuel bd pos n) (four_wire bd n)
  unfolding four_wire write_uint32
  four-Appends bd n pos lo hi pruned =
      pruned-Appends bd n 0 pos lo hi (unfold write_uint32 in pruned) (omega arith)

  three-Appends :
      (n : ℕ)
      → 2 ^ 16 ≤ n
      → n < 0x80_0000
      → Appends alloc (encode_uint realloc image fuel 16 true n) (three_wire 16 n)
  unfolding three_wire write_uint32
  three-Appends n lo hi =
      pruned-Appends 16 n 1 true lo (omega arith) (pruned_one n lo hi) (omega arith)

  wide-Appends :
      (bd n : ℕ)
      → 0 < n
      → IsLength n
      → Appends alloc (encode_uint realloc image fuel bd false n) (wide_wire bd n)
  unfolding wide_wire
  wide-Appends bd n pos (inl h) =
      Appends-eq alloc refl (rw (le→leb n 255 (omega arith))) (two-Appends bd n false refl pos h)
  wide-Appends bd n pos (inr h) =
      Appends-eq alloc refl (rw (gt→leb n 255 (omega (arith, h.0))))
        (four-Appends bd n false h.0 (omega (arith, h.1)) (pruned_neg n h.1))

  pub neg-Appends :
      (n : ℕ) → IsLength n → Appends alloc (encode_uint realloc image fuel 32 false n) (neg_wire n)
  unfolding neg_wire
  neg-Appends zero h = special-Appends 32 false
  neg-Appends (suc n) h =
      let e : (suc n == 0) ≡ false = ground arith in
      Appends-eq alloc refl (rw e) (wide-Appends 32 (suc n) (omega arith) h)

  high-Appends :
      (n : ℕ)
      → 2 ^ 16 ≤ n
      → n < 2 ^ 32
      → Appends alloc
          (encode_uint realloc image fuel 16 true n)
          (if ltb n 0x80_0000 then three_wire 16 n else four_wire 16 n)
  high-Appends n lo hi = elim (dec_lt n 0x80_0000) [
    | yes few ↦ Appends-eq alloc refl (rw (lt→ltb n 0x80_0000 few)) (three-Appends n lo few)
    | no many ↦
        Appends-eq alloc refl (rw (ge→ltb n 0x80_0000 (omega arith)))
          (four-Appends 16 n true lo hi (pruned_pos n (omega arith) hi))
  ]

  pub pos-Appends :
      (n : ℕ) → IsNumber n → Appends alloc (encode_uint realloc image fuel 16 true n) (pos_wire n)
  unfolding pos_wire
  pos-Appends zero h = special-Appends 16 true
  pos-Appends (suc n) (inl h) =
      let e : (suc n == 0) ≡ false = ground arith in
      elim (dec_le (suc n) 16) [
        | yes low ↦
            let sum : 143 + suc n ≡ 144 + (suc n - 1) = omega arith in
            Appends-eq alloc {m' = put_1 realloc (144 + (suc n - 1))}
              {ys' = (144 + (suc n - 1)) ∷ []} (unfold encode_uint in rw (e, le→leb (suc n) 16 low))
              (rw (e, le→leb (suc n) 16 low, sum)) (append_1-Appends alloc (144 + (suc n - 1)))
        | no high ↦
            let wide : leb (suc n) 16 ≡ false = gt→leb (suc n) 16 (omega arith) in
            Appends-eq alloc refl (rw (e, wide, le→leb (suc n) 255 (omega arith)))
              (two-Appends 16 (suc n) true wide (omega arith) h)
      ]
  pos-Appends (suc n) (inr h) =
      let e : (suc n == 0) ≡ false = ground arith in
      Appends-eq alloc refl
        (rw (e, gt→leb (suc n) 16 (omega (arith, h.0)), gt→leb (suc n) 255 (omega (arith, h.0))))
        (high-Appends (suc n) h.0 h.1)

  pub len-Appends :
      (bd len : ℕ)
      → IsLength len
      → Appends alloc (encode_len realloc image fuel bd len) (short_wire bd len)
  unfolding encode_len short_wire
  len-Appends bd len h = elim (dec_lt len 12) [
    | yes low ↦
        Appends-eq alloc (rw (lt→ltb len 12 low)) (rw (lt→ltb len 12 low))
          (append_1-Appends alloc (bd + (len + 4)))
    | no high ↦
        let wide : ltb len 12 ≡ false = ge→ltb len 12 (omega arith) in
        Appends-eq alloc (rw wide) (rw wide) (wide-Appends bd len (omega arith) h)
  ]
