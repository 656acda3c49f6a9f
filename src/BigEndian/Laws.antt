-- ===== src/BigEndian/Laws.antt =====
-- Reading gives back what was written, and writing what was read.
use Prim.Native.Nat.{bit_or, max, digits, bit_or-bitwise}
use native.Mathlib.Nat.{pow-suc, le_refl}
use cc_common.BigEndian.{
  write_uint16, write_uint32, write_uint64, read_uint16, read_uint32, read_uint64, low_half,
  or_high_half,
}
use cc_common.Base.{ℕ, zero, suc, ◌+◌, ◌*◌, ◌/◌, ◌%◌, ◌^◌, ◌≤◌, ◌<◌, ◌≡◌, ap, ◌∙◌, arith}
use cc_common.Base.{List, [], ◌∷◌, ◌++◌, ok, u8, u32, u64}

-- The digit recursion that `bit_or` stands for, on a low part and a shifted high part.
digits_fields :
    (k n lo hi : ℕ) → lo < 2 ^ k → lo ≤ n → digits (λ y. y) max n lo (hi * 2 ^ k) ≡ lo + hi * 2 ^ k
digits_fields k zero zero hi fits deep = omega arith
digits_fields k zero (suc lo) hi fits deep = absurd (omega arith)
digits_fields k (suc n) zero hi fits deep = omega arith
digits_fields zero (suc n) (suc lo) hi fits deep = absurd (omega arith)
digits_fields (suc k) (suc n) (suc lo) hi fits deep =
    let shifted : hi * 2 ^ suc k ≡ 2 * (hi * 2 ^ k) =
      omega (arith, ap (λ (t : ℕ). hi * t) (pow-suc 2 k)) in
    let half : hi * 2 ^ suc k / 2 ≡ hi * 2 ^ k = omega (arith, shifted) in
    rw half (
      omega (
        arith,
        shifted,
        pow-suc 2 k,
        digits_fields k n (suc lo / 2) hi (omega (arith, pow-suc 2 k)) (omega arith),
      ))

-- `lo | hi << k` is a sum when `lo` has at most `k` bits.
pub bit_or_fields : (k lo hi : ℕ) → lo < 2 ^ k → bit_or lo (hi * 2 ^ k) ≡ lo + hi * 2 ^ k
bit_or_fields k lo hi fits =
    bit_or-bitwise lo (hi * 2 ^ k) ∙ digits_fields k lo lo hi fits (le_refl _)

abbrev pub IsByte : ℕ → Type 0
IsByte x = x < 2 ^ 8

-- The value of bytes as big-endian digits behind those of `acc`.
abbrev pub digits_value : ℕ → List ℕ → ℕ
digits_value acc [] = acc
digits_value acc (x ∷ xs) = digits_value (acc * 256 + x) xs

module _ (b0 b1 : ℕ) (h0 : IsByte b0) (h1 : IsByte b1) where
  read_uint16_value :
      (rest : List ℕ) → read_uint16 (b0 ∷ b1 ∷ rest) ≡ ok (digits_value 0 (b0 ∷ b1 ∷ []))
  unfolding read_uint16
  read_uint16_value rest = ground (arith, bit_or_fields 8 b1 b0 h1)

  module _ (b2 b3 : ℕ) (h2 : IsByte b2) (h3 : IsByte b3) where
    four_value :
        bit_or (bit_or (bit_or b3 (b2 * 2 ^ 8)) (b1 * 2 ^ 16)) (b0 * 2 ^ 24)
        ≡ digits_value 0 (b0 ∷ b1 ∷ b2 ∷ b3 ∷ [])
    four_value =
        rw
          (
            bit_or_fields 8 b3 b2 h3,
            bit_or_fields 16 (b3 + b2 * 2 ^ 8) b1 (omega arith),
            bit_or_fields 24 (b3 + b2 * 2 ^ 8 + b1 * 2 ^ 16) b0 (omega arith),
          )
          (omega arith)

    pub read_uint32_value :
        (rest : List ℕ)
        → read_uint32 (b0 ∷ b1 ∷ b2 ∷ b3 ∷ rest) ≡ ok (digits_value 0 (b0 ∷ b1 ∷ b2 ∷ b3 ∷ []))
    unfolding read_uint32
    read_uint32_value rest =
        let e2 : u32 (b2 * 2 ^ 8) ≡ b2 * 2 ^ 8 = omega arith in
        let e1 : u32 (b1 * 2 ^ 16) ≡ b1 * 2 ^ 16 = omega arith in
        let e0 : u32 (b0 * 2 ^ 24) ≡ b0 * 2 ^ 24 = omega arith in rw (e2, e1, e0) (ap ok four_value)

    low_half_value : low_half b0 b1 b2 b3 ≡ digits_value 0 (b0 ∷ b1 ∷ b2 ∷ b3 ∷ [])
    unfolding low_half
    low_half_value =
        let e2 : u64 (b2 * 2 ^ 8) ≡ b2 * 2 ^ 8 = omega arith in
        let e1 : u64 (b1 * 2 ^ 16) ≡ b1 * 2 ^ 16 = omega arith in
        let e0 : u64 (b0 * 2 ^ 24) ≡ b0 * 2 ^ 24 = omega arith in rw (e2, e1, e0) four_value

    or_high_half_value :
        (low : ℕ)
        → low < 2 ^ 32
        → or_high_half low b0 b1 b2 b3 ≡ low + digits_value 0 (b0 ∷ b1 ∷ b2 ∷ b3 ∷ []) * 2 ^ 32
    unfolding or_high_half
    or_high_half_value low fits =
        let e3 : u64 (b3 * 2 ^ 32) ≡ b3 * 2 ^ 32 = omega arith in
        let e2 : u64 (b2 * 2 ^ 40) ≡ b2 * 2 ^ 40 = omega arith in
        let e1 : u64 (b1 * 2 ^ 48) ≡ b1 * 2 ^ 48 = omega arith in
        let e0 : u64 (b0 * 2 ^ 56) ≡ b0 * 2 ^ 56 = omega arith in
        rw
          (
            e3,
            e2,
            e1,
            e0,
            bit_or_fields 32 low b3 fits,
            bit_or_fields 40 (low + b3 * 2 ^ 32) b2 (omega arith),
            bit_or_fields 48 (low + b3 * 2 ^ 32 + b2 * 2 ^ 40) b1 (omega arith),
            bit_or_fields 56 (low + b3 * 2 ^ 32 + b2 * 2 ^ 40 + b1 * 2 ^ 48) b0 (omega arith),
          )
          (omega arith)

-- A word of 16 bits that is written and read is the same word, whatever bytes follow it.
pub read-write_uint16 :
    (v : ℕ) (rest : List ℕ) → v < 2 ^ 16 → read_uint16 (write_uint16 v ++ rest) ≡ ok v
unfolding write_uint16
read-write_uint16 v rest h =
    read_uint16_value (u8 (v / 2 ^ 8)) (u8 v) (omega arith) (omega arith) rest ∙ ap ok (omega arith)

-- A word of 32 bits that is written and read is the same word, whatever bytes follow it.
pub read-write_uint32 :
    (v : ℕ) (rest : List ℕ) → v < 2 ^ 32 → read_uint32 (write_uint32 v ++ rest) ≡ ok v
unfolding write_uint32
read-write_uint32 v rest h =
    read_uint32_value (u8 (v / 2 ^ 24)) (u8 (v / 2 ^ 16)) (omega arith) (omega arith)
      (u8 (v / 2 ^ 8)) (u8 v) (omega arith) (omega arith) rest
    ∙ ap ok (omega arith)

read_uint64_value :
    (h l : ℕ) (b0 b1 b2 b3 b4 b5 b6 b7 : ℕ) (rest : List ℕ)
    → low_half b4 b5 b6 b7 ≡ l
    → or_high_half l b0 b1 b2 b3 ≡ l + h * 2 ^ 32
    → read_uint64 (b0 ∷ b1 ∷ b2 ∷ b3 ∷ b4 ∷ b5 ∷ b6 ∷ b7 ∷ rest) ≡ ok (l + h * 2 ^ 32)
unfolding read_uint64
read_uint64_value h l b0 b1 b2 b3 b4 b5 b6 b7 rest el eh = rw (el, eh)

-- Eight bytes are read as the number of which they are the digits to base 256, the highest first,
-- whatever bytes follow them.
pub read_uint64_digits :
    (b0 b1 b2 b3 b4 b5 b6 b7 : ℕ) (rest : List ℕ)
    → IsByte b0 × IsByte b1 × IsByte b2 × IsByte b3
    → IsByte b4 × IsByte b5 × IsByte b6 × IsByte b7
    → read_uint64 (b0 ∷ b1 ∷ b2 ∷ b3 ∷ b4 ∷ b5 ∷ b6 ∷ b7 ∷ rest)
      ≡ ok (digits_value 0 (b0 ∷ b1 ∷ b2 ∷ b3 ∷ b4 ∷ b5 ∷ b6 ∷ b7 ∷ []))
read_uint64_digits b0 b1 b2 b3 b4 b5 b6 b7 rest h l =
    read_uint64_value (digits_value 0 (b0 ∷ b1 ∷ b2 ∷ b3 ∷ []))
      (digits_value 0 (b4 ∷ b5 ∷ b6 ∷ b7 ∷ [])) b0 b1 b2 b3 b4 b5 b6 b7 rest
      (low_half_value b4 b5 l.0 l.1 b6 b7 l.2 l.3)
      (or_high_half_value b0 b1 h.0 h.1 b2 b3 h.2 h.3 (digits_value 0 (b4 ∷ b5 ∷ b6 ∷ b7 ∷ []))
        (omega arith))
    ∙ ap ok (omega arith)

-- The bytes of a word of 32 bits, as digits.
quarters : (v : ℕ) → v < 2 ^ 32 → digits_value 0 (write_uint32 v) ≡ v
unfolding write_uint32
quarters v h = omega arith

write_uint64_halves :
    (v : ℕ) → write_uint64 v ≡ write_uint32 (v / 2 ^ 32) ++ write_uint32 (v % 2 ^ 32)
unfolding write_uint64 write_uint32
write_uint64_halves v = ground arith

-- A word of 64 bits that is written and read is the same word, whatever bytes follow it.
pub read-write_uint64 :
    (v : ℕ) (rest : List ℕ) → v < 2 ^ 64 → read_uint64 (write_uint64 v ++ rest) ≡ ok v
unfolding write_uint32
read-write_uint64 v rest h =
    let hi : ℕ = v / 2 ^ 32 in
    let lo : ℕ = v % 2 ^ 32 in
    rw (write_uint64_halves v) (
      read_uint64_value hi lo _ _ _ _ _ _ _ _ rest
        (low_half_value _ _ (omega arith) (omega arith) _ _ (omega arith) (omega arith)
          ∙ quarters lo (omega arith))
        (or_high_half_value _ _ (omega arith) (omega arith) _ _ (omega arith) (omega arith) lo
            (omega arith)
          ∙ ap (λ (t : ℕ). lo + t * 2 ^ 32) (quarters hi (omega arith)))
      ∙ ap ok (omega arith))
