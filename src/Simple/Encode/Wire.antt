-- ===== src/Simple/Encode/Wire.antt =====
-- The "simple" format as a specification: the bytes that stand for a value. Numbers take 1, 2, 4 or
-- 8 bytes, big-endian, the fewest that hold them; the descriptor says how many.
use cc_common.Base.{
  ℕ, zero, suc, ◌+◌, ◌/◌, ◌%◌, ◌^◌, ◌≤◌, ◌<◌, ◌≡◌, refl, ap, arith, ltb, ◌==◌, if◌then◌else◌,
}
use cc_common.Base.{List, [], ◌∷◌, ◌++◌, length, take}
use native.Mathlib.Decide.{dec_lt}
use cc_common.Value.{
  Value, unset, nil, bool, pos_int, neg_int, float32, float64, str, bytes, arr, map, ext, Items,
  no_items, item, Fields, no_fields, field, count_items, count_fields, host_bytes,
}

-- The `k` low base-256 digits of `n`, the highest first.
unfoldable pub digits_of : ℕ → ℕ → List ℕ
digits_of zero n = []
digits_of (suc k) n = n / 256 ^ k % 256 ∷ digits_of k n

-- The width class of a number: it takes `2 ^ size_class n` bytes.
unfoldable pub size_class : ℕ → ℕ
size_class n =
    if ltb n (256 ^ 1) then 0 else if ltb n (256 ^ 2) then 1 else if ltb n (256 ^ 4) then 2 else 3

-- The four ranges of a 64-bit number.
pub data IntForm (n : ℕ) : Type 0 where
  one : n < 256 → IntForm n
  two : 256 ≤ n → n < 65536 → IntForm n
  four : 65536 ≤ n → n < 2 ^ 32 → IntForm n
  eight : 2 ^ 32 ≤ n → n < 2 ^ 64 → IntForm n

pub IntForm-cases : (n : ℕ) → n < 2 ^ 64 → IntForm n
IntForm-cases n h = elim (dec_lt n 256) [
  | yes a ↦ one a
  | no a ↦ elim (dec_lt n 65536) [
    | yes b ↦ two (omega arith) b
    | no b ↦ elim (dec_lt n (2 ^ 32)) [
      | yes c ↦ four (omega arith) c
      | no c ↦ eight (omega arith) h
    ]
  ]
]

-- The width class of each range.
abbrev pub class_of : {n : ℕ} → IntForm n → ℕ
class_of (one _) = 0
class_of (two _ _) = 1
class_of (four _ _) = 2
class_of (eight _ _) = 3

pub size_class-class_of : (n : ℕ) (f : IntForm n) → size_class n ≡ class_of f
unfolding size_class
size_class-class_of n (one a) = ground arith
size_class-class_of n (two a b) = ground arith
size_class-class_of n (four a b) = ground arith
size_class-class_of n (eight a b) = ground arith

pub length-digits_of : (k n : ℕ) → length (digits_of k n) ≡ k
unfolding digits_of
length-digits_of zero n = refl
length-digits_of (suc k) n = ap suc (length-digits_of k n)

-- A descriptor moved by the width class, then the number.
unfoldable pub int_wire : ℕ → ℕ → List ℕ
int_wire desc n = (desc + size_class n) ∷ digits_of (2 ^ size_class n) n

-- A length: 0 is the descriptor alone.
unfoldable pub len_wire : ℕ → ℕ → List ℕ
unfolding int_wire
len_wire desc n = if n == 0 then desc ∷ [] else int_wire (desc + 1) n

unfoldable mutual
  pub wire : Value → List ℕ
  wire unset = []
  wire (nil b) = 1 ∷ []
  wire (bool b) = (if b then 3 else 2) ∷ []
  wire (pos_int n) = int_wire 8 n
  wire (neg_int n) = int_wire 12 n
  wire (float32 w) = 4 ∷ take 4 (host_bytes w)
  wire (float64 w) = 5 ∷ host_bytes w
  wire (str mem len) = len_wire 216 len ++ take len mem
  wire (bytes mem len) = len_wire 224 len ++ take len mem
  wire (arr xs) = len_wire 232 (count_items xs) ++ wire_items xs
  wire (map fs) = len_wire 240 (count_fields fs) ++ wire_fields fs
  wire (ext tag mem len) = len_wire 248 len ++ tag ∷ take len mem

  pub wire_items : Items → List ℕ
  wire_items no_items = []
  wire_items (item x xs) = wire x ++ wire_items xs

  pub wire_fields : Fields → List ℕ
  wire_fields no_fields = []
  wire_fields (field k v fs) = wire k ++ (wire v ++ wire_fields fs)
