-- ===== src/Value/Cursor.antt =====
-- ugorji/codec/codec.h and codec.c: the state of a decoder over its input, and the two bounds checks.
-- The input block `b` is exactly `b->b.bytes.len` bytes long.
use cc_common.Base.{ℕ, ◌+◌, ◌-◌, ◌^◌, u64, Bool, true, false, ltb, leb, if◌then◌else◌}
use cc_common.Base.{List, length, get_elem?, Option, none, some, Outcome, checked}

-- The messages that the decoder allocates.
pub data Error : Type 0 where
  past_bound at_end bad_length bad_descriptor wide_int wide_float bad_float timestamp : Error

-- `codec_decode_state` without its input, and `*err`. The scratch bytes `x` are not kept.
pub record Cursor : Type 0 where
  pub pos : ℕ
  pub err : Option Error

abbrev pub is_set : Option Error → Bool
is_set none = false
is_set (some e) = true

-- A `char`, which is signed on x86-64, widened to an unsigned type of `w` bits.
abbrev pub sign_extend : ℕ → ℕ → ℕ
sign_extend w c = if ltb c 128 then c else 2 ^ w - 256 + c

module _ (b : List ℕ) where
  -- `b->b.bytes.v[i]`.
  abbrev pub load : ℕ → Outcome ℕ
  load i = checked (get_elem? b i)

  -- `codec_decode_state_chk`: the sum is a `size_t`.
  unfoldable pub chk : ℕ → Cursor → Cursor × Bool
  chk len s =
      if ltb (length b) (u64 (len + s.pos))
      then (record s { err = some past_bound }, true)
      else (s, false)

  -- `codec_decode_state_chk2`.
  unfoldable pub chk2 : Cursor → Cursor × Bool
  chk2 s = if leb (length b) s.pos then (record s { err = some at_end }, true) else (s, false)
