-- ===== src/Float.antt =====
-- The conversions of C from an unsigned integer to `double` and to `float`, on bit patterns: IEEE
-- 754, round to nearest, ties to even. `p` is the number of fraction bits.
use cc_common.Base.{ℕ, zero, suc, ◌+◌, ◌-◌, ◌*◌, ◌/◌, ◌%◌, ◌^◌, ◌≡◌, refl, ltb, leb, ◌==◌}
use cc_common.Base.{if◌then◌else◌, ◌&&◌, ◌||◌}

-- The position of the highest bit.
log2_fuel : ℕ → ℕ → ℕ
log2_fuel zero n = 0
log2_fuel (suc f) n = let rest = suc (log2_fuel f (n / 2)) in if ltb n 2 then 0 else rest

-- `q` and the part `r` out of `2 * half` behind it, rounded.
rounded : ℕ → ℕ → ℕ → ℕ
rounded q r half = if ltb half r || (r == half && q % 2 == 1) then q + 1 else q

scaled : ℕ → ℕ → ℕ → ℕ
unfolding rounded
scaled p e n =
    if leb e p
    then n * 2 ^ (p - e)
    else rounded (n / 2 ^ (e - p)) (n % 2 ^ (e - p)) (2 ^ (e - p) / 2)

-- The exponent field is added to the mantissa with its leading bit, which stands for one exponent;
-- a mantissa that rounds up to the next power of two carries into the exponent.
of_uint : ℕ → ℕ → ℕ → ℕ
unfolding log2_fuel scaled
of_uint p bias n =
    let e = log2_fuel 64 n in if n == 0 then 0 else (e + bias - 1) * 2 ^ p + scaled p e n

-- `(double)n` of a uint64_t.
unfoldable pub double_of_uint : ℕ → ℕ
unfolding of_uint
double_of_uint n = of_uint 52 1023 n

-- `(float)n` of a uint32_t.
unfoldable pub float_of_uint : ℕ → ℕ
unfolding of_uint
float_of_uint n = of_uint 23 127 n

double_of_one : double_of_uint 1 ≡ 0x3ff0_0000_0000_0000
unfolding double_of_uint
double_of_one = refl

double_of_max : double_of_uint 0xffff_ffff_ffff_ffff ≡ 0x43f0_0000_0000_0000
unfolding double_of_uint
double_of_max = refl

float_of_tie : float_of_uint 16777219 ≡ 0x4b80_0002
unfolding float_of_uint
float_of_tie = refl

-- `(double)x` of a float: the fraction widens, a subnormal becomes normal, a NaN becomes quiet.
widened : ℕ → ℕ → ℕ
widened e f =
    if e == 0
    then (if f == 0
        then 0
        else (let l = log2_fuel 24 f in (l + 874) * 2 ^ 52 + (f - 2 ^ l) * 2 ^ (52 - l)))
    else if e == 255
    then (if f == 0 then 2047 * 2 ^ 52 else 2047 * 2 ^ 52 + 2 ^ 51 + f % 2 ^ 22 * 2 ^ 29)
    else (e + 896) * 2 ^ 52 + f * 2 ^ 29

unfoldable pub double_of_float : ℕ → ℕ
unfolding widened log2_fuel
double_of_float w = w / 2 ^ 31 * 2 ^ 63 + widened (w / 2 ^ 23 % 256) (w % 2 ^ 23)

double_of_float_one_half : double_of_float 0x3f00_0000 ≡ 0x3fe0_0000_0000_0000
unfolding double_of_float
double_of_float_one_half = refl

double_of_float_least : double_of_float 1 ≡ 0x36a0_0000_0000_0000
unfolding double_of_float
double_of_float_least = refl
