-- ===== src/BigEndian.antt =====
-- ugorji/util/bigendian.c: words to and from bytes, the high byte first. A destination or a
-- source pointer is the list of the bytes from it on.
pub mod Laws
use Prim.Native.Nat.{bit_or}
use cc_common.Base.{ℕ, ◌*◌, ◌/◌, ◌^◌, u8, u16, u32, u64, List, [], ◌∷◌, Outcome, ok, fault}

-- `util_big_endian_write_uint16`, 32 and 64: the bytes that are stored from `b[0]` on.
unfoldable pub write_uint16 : ℕ → List ℕ
write_uint16 v = u8 (v / 2 ^ 8) ∷ u8 v ∷ []

unfoldable pub write_uint32 : ℕ → List ℕ
write_uint32 v = u8 (v / 2 ^ 24) ∷ u8 (v / 2 ^ 16) ∷ u8 (v / 2 ^ 8) ∷ u8 v ∷ []

unfoldable pub write_uint64 : ℕ → List ℕ
write_uint64 v =
    u8 (v / 2 ^ 56)
    ∷ u8 (v / 2 ^ 48)
    ∷ u8 (v / 2 ^ 40)
    ∷ u8 (v / 2 ^ 32)
    ∷ u8 (v / 2 ^ 24)
    ∷ u8 (v / 2 ^ 16)
    ∷ u8 (v / 2 ^ 8)
    ∷ u8 v
    ∷ []

-- `util_big_endian_read_uint16`, 32 and 64, on the bytes at the source pointer. A shift happens in
-- the type that the cast before it names, so bits above the word are cut off.
unfoldable pub read_uint16 : List ℕ → Outcome ℕ
read_uint16 (b0 ∷ b1 ∷ _) = ok (bit_or b1 (u16 (b0 * 2 ^ 8)))
read_uint16 _ = fault

unfoldable pub read_uint32 : List ℕ → Outcome ℕ
read_uint32 (b0 ∷ b1 ∷ b2 ∷ b3 ∷ _) =
    ok (bit_or (bit_or (bit_or b3 (u32 (b2 * 2 ^ 8))) (u32 (b1 * 2 ^ 16))) (u32 (b0 * 2 ^ 24)))
read_uint32 _ = fault

-- The four low bytes of a 64-bit word, then the four high ones.
low_half : ℕ → ℕ → ℕ → ℕ → ℕ
low_half b4 b5 b6 b7 =
    bit_or (bit_or (bit_or b7 (u64 (b6 * 2 ^ 8))) (u64 (b5 * 2 ^ 16))) (u64 (b4 * 2 ^ 24))

or_high_half : ℕ → ℕ → ℕ → ℕ → ℕ → ℕ
or_high_half low b0 b1 b2 b3 =
    bit_or
      (bit_or (bit_or (bit_or low (u64 (b3 * 2 ^ 32))) (u64 (b2 * 2 ^ 40))) (u64 (b1 * 2 ^ 48)))
      (u64 (b0 * 2 ^ 56))

unfoldable pub read_uint64 : List ℕ → Outcome ℕ
unfolding low_half or_high_half
read_uint64 (b0 ∷ b1 ∷ b2 ∷ b3 ∷ b4 ∷ b5 ∷ b6 ∷ b7 ∷ _) =
    ok (or_high_half (low_half b4 b5 b6 b7) b0 b1 b2 b3)
read_uint64 _ = fault
