-- ===== src/Binc.antt =====
-- ugorji/codec/binc.h and binc.c: the "binc" codec. A descriptor has a kind in its high half and a
-- value or a width in its low half.
pub mod Encode
pub mod Decode
pub mod Wire
pub mod Numbers
pub mod Refines
pub mod Reads
pub mod DecodeWire
pub mod Wide
pub mod RoundTrip
use cc_common.Base.{ℕ}

-- `codec_binc_desc_type`.
abbrev pub binc_special : ℕ
binc_special = 0

abbrev pub binc_pos_int : ℕ
binc_pos_int = 1

abbrev pub binc_neg_int : ℕ
binc_neg_int = 2

abbrev pub binc_float : ℕ
binc_float = 3

abbrev pub binc_string : ℕ
binc_string = 4

abbrev pub binc_byte_array : ℕ
binc_byte_array = 5

abbrev pub binc_array : ℕ
binc_array = 6

abbrev pub binc_map : ℕ
binc_map = 7

abbrev pub binc_timestamp : ℕ
binc_timestamp = 8

abbrev pub binc_small_int : ℕ
binc_small_int = 9

abbrev pub binc_symbol : ℕ
binc_symbol = 11

abbrev pub binc_custom_ext : ℕ
binc_custom_ext = 15

-- `codec_binc_special_desc_type`.
abbrev pub special_nil : ℕ
special_nil = 0

abbrev pub special_false : ℕ
special_false = 1

abbrev pub special_true : ℕ
special_true = 2

abbrev pub special_nan : ℕ
special_nan = 3

abbrev pub special_pos_inf : ℕ
special_pos_inf = 4

abbrev pub special_neg_inf : ℕ
special_neg_inf = 5

abbrev pub special_zero_float : ℕ
special_zero_float = 6

abbrev pub special_zero : ℕ
special_zero = 7

abbrev pub special_neg_one : ℕ
special_neg_one = 8
