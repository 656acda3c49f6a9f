-- ===== src/Binc/Wide.antt =====
-- Positive numbers of more than 32 bits in the "binc" codec.
use cc_common.BigEndian.{write_uint32, read_uint64}
use cc_common.BigEndian.Laws.{read_uint64_digits}
use cc_common.Base.{
  ℕ, suc, ◌+◌, ◌-◌, ◌*◌, ◌/◌, ◌%◌, ◌^◌, ◌≤◌, ◌<◌, ◌≡◌, refl, sym, ap, ◌∙◌, arith, u8, u32, Bool,
  true, false, ltb, ◌==◌, ◌&&◌, List, [], ◌∷◌, ◌++◌, length, drop, take, Option, none, ok,
  Bool-cases, inl, inr, length-drop, append-nil, take-append,
}
use cc_common.Slice.{Slice, zero_slice, contents}
use cc_common.Slice.Expand.{IsRealloc, Fits, Holds-zero, Holds-contents}
use cc_common.Slice.Append.{Appends, append_1-Appends, append-Appends, >>=-Appends, Appends-eq}
use cc_common.Value.{pos_int}
use cc_common.Binc.Encode.{encode, encode_uint_prune, prune_word, prune_sign_ext, leading_zeros}
use cc_common.Binc.Decode.{zeros, binc_kind, as_pos_int, read_int, dispatch, decode}
use cc_common.Binc.Refines.{encode_uint-eight}
use cc_common.Binc.Reads.{entered, bytes_read}

-- What is left out are zeros, and never the last byte.
leading_zeros-le : (x : ℕ) (xs : List ℕ) → leading_zeros (x ∷ xs) ≤ length xs
unfolding leading_zeros
leading_zeros-le x [] = omega arith
leading_zeros-le x (y ∷ ys) = ground (arith, leading_zeros-le y ys)

zeros-leading :
    (x : ℕ) (xs : List ℕ)
    → zeros (leading_zeros (x ∷ xs)) ++ drop (leading_zeros (x ∷ xs)) (x ∷ xs) ≡ x ∷ xs
unfolding leading_zeros
zeros-leading x [] = refl
zeros-leading x (y ∷ ys) = elim (Bool-cases (x == 0 && ltb y 128)) [
  | inl out ↦
      let zero_x : x ≡ 0 = ground arith in
      rw out
        (ap (λ zs. 0 ∷ zs) (zeros-leading y ys) ∙ ap {B = List ℕ} (λ z. z ∷ y ∷ ys) (sym zero_x))
  | inr kept ↦ rw kept refl
]

-- The low 32 bits, in front of four zeros.
abbrev shifted : ℕ → List ℕ
shifted n = write_uint32 (u32 n) ++ 0 ∷ 0 ∷ 0 ∷ 0 ∷ []

-- How many of these eight bytes are left out, and what is left.
abbrev pruned : ℕ → ℕ
pruned n = leading_zeros (shifted n)

abbrev eight_wire : ℕ → List ℕ
eight_wire n = (16 + (7 - pruned n)) ∷ drop (pruned n) (shifted n)

length-shifted : (n : ℕ) → length (shifted n) ≡ 8
unfolding write_uint32
length-shifted n = omega arith

pruned-le : (n : ℕ) → pruned n ≤ 7
unfolding write_uint32
pruned-le n = leading_zeros-le _ _

length-left : (n : ℕ) → length (drop (pruned n) (shifted n)) ≡ 8 - pruned n
length-left n = omega (arith, length-drop (pruned n) (shifted n), length-shifted n)

read_shifted :
    (n : ℕ)
    → read_uint64 (zeros (pruned n) ++ drop (pruned n) (shifted n)) ≡ ok (n % 2 ^ 32 * 2 ^ 32)
unfolding write_uint32
read_shifted n =
    ap read_uint64 (zeros-leading _ _)
    ∙ read_uint64_digits (u8 (u32 n / 2 ^ 24)) (u8 (u32 n / 2 ^ 16)) (u8 (u32 n / 2 ^ 8))
        (u8 (u32 n)) 0 0 0 0 [] (omega arith) (omega arith)
    ∙ ap ok (omega arith)

take-all : (ys : List ℕ) → take (length ys) ys ≡ ys
take-all ys = ap (λ zs. take (length ys) zs) (sym (append-nil ys)) ∙ take-append ys []

eight-Appends :
    {realloc : List ℕ → ℕ → Option (List ℕ)} {limit : ℕ} (alloc : IsRealloc realloc limit)
    (image : List ℕ → ℕ → List ℕ) (fuel n : ℕ)
    → 2 ^ 32 ≤ n
    → Appends alloc (encode realloc image fuel false (pos_int n)) (eight_wire n)
unfolding encode encode_uint_prune prune_word prune_sign_ext
eight-Appends {realloc} {limit} alloc image fuel n lo =
    let size = length-left n in
    let whole : drop (pruned n) (shifted n) ≡ take (8 - pruned n) (drop (pruned n) (shifted n)) =
      sym (ap (λ m. take m (drop (pruned n) (shifted n))) (sym size) ∙ take-all _) in
    Appends-eq alloc (encode_uint-eight realloc image fuel 16 n true lo)
      (ap (λ ys. (16 + (7 - pruned n)) ∷ ys) whole)
      (>>=-Appends alloc _ _ ((16 + (7 - pruned n)) ∷ [])
        (take (8 - pruned n) (drop (pruned n) (shifted n)))
        (append_1-Appends alloc (16 + (7 - pruned n)))
        (append-Appends alloc (drop (pruned n) (shifted n)) (8 - pruned n) (omega arith)))

-- The decoder on these bytes.
decode-eight :
    (calloc : ℕ → ℕ → Bool) (f n : ℕ)
    → decode calloc (eight_wire n) (suc f)
      ≡ ok (pos_int (n % 2 ^ 32 * 2 ^ 32), record { pos = length (eight_wire n); err = none })
unfolding decode binc_kind dispatch read_int
decode-eight calloc f n =
    let i_le = pruned-le n in
    let size = length-left n in
    let low = 7 - pruned n in
    let high : (16 + low) / 16 ≡ 1 = omega arith in
    let low_eq : (16 + low) % 16 ≡ low = omega arith in
    let back : 7 - low ≡ pruned n = omega arith in
    let small : length (eight_wire n) < 2 ^ 63 = omega arith in
    let end : 1 + (low + 1) ≡ length (eight_wire n) = omega arith in
    let read =
      bytes_read calloc (eight_wire n) small low (n % 2 ^ 32 * 2 ^ 32) 1
        (drop (pruned n) (shifted n)) [] (sym (append-nil _)) (omega arith) (omega arith)
        (ap (λ m. read_uint64 (zeros m ++ drop (pruned n) (shifted n))) back ∙ read_shifted n) in
    entered calloc (eight_wire n) small f 0 as_pos_int refl (rw high) ∙ rw (low_eq, read, end)

-- A positive number of 33 to 64 bits, encoded with the "binc" codec into an empty slice and decoded
-- from what the slice then holds, comes back as its low 32 bits in the place of the high ones, with no
-- error and at the last byte, whatever its leading zeros, if memory is granted and `*err` was NULL.
pub decode-encode_wide :
    (realloc : List ℕ → ℕ → Option (List ℕ)) (limit : ℕ) (calloc : ℕ → ℕ → Bool)
    (image : List ℕ → ℕ → List ℕ) (fuel f n : ℕ)
    → IsRealloc realloc limit
    → Fits limit 10
    → 2 ^ 32 ≤ n
    → n < 2 ^ 64
    → (s : Slice) × (encode realloc image fuel false (pos_int n) zero_slice ≡ ok s)
      × (decode calloc (contents s) (suc f)
          ≡ ok (pos_int (n % 2 ^ 32 * 2 ^ 32), record { pos = length (contents s); err = none }))
decode-encode_wide realloc limit calloc image fuel f n alloc fits lo hi =
    let size = length-left n in
    let (s, run, held) =
      eight-Appends alloc image fuel n lo zero_slice [] Holds-zero (omega arith) in
    (s, run, rw (Holds-contents held) (decode-eight calloc f n))
