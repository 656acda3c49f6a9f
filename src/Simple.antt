-- ===== src/Simple.antt =====
-- ugorji/codec/simplecodec.h and simplecodec.c: the descriptors of the "simple" format.
pub mod Encode
pub mod Decode
pub mod RoundTrip
pub mod Bounds
pub mod Hostile
use cc_common.Base.{ℕ}

-- `codec_simple_desc_type`.
abbrev pub desc_nil : ℕ
desc_nil = 1

abbrev pub desc_false : ℕ
desc_false = 2

abbrev pub desc_true : ℕ
desc_true = 3

abbrev pub desc_float32 : ℕ
desc_float32 = 4

abbrev pub desc_float64 : ℕ
desc_float64 = 5

abbrev pub desc_pos_int : ℕ
desc_pos_int = 8

abbrev pub desc_neg_int : ℕ
desc_neg_int = 12

abbrev pub desc_string : ℕ
desc_string = 216

abbrev pub desc_bytes : ℕ
desc_bytes = 224

abbrev pub desc_array : ℕ
desc_array = 232

abbrev pub desc_map : ℕ
desc_map = 240

abbrev pub desc_custom_ext : ℕ
desc_custom_ext = 248
