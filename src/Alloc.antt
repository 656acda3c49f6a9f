-- ===== src/Alloc.antt =====
-- Allocators at which the hypotheses about the C library hold: blocks below a limit are granted,
-- and new bytes are 0.
use cc_common.Base.{ℕ, zero, suc, ◌-◌, ◌*◌, ◌^◌, ◌≡◌, refl, ap, arith, leb, ltb, le→leb, lt→ltb}
use cc_common.Base.{
  Bool, if◌then◌else◌, List, [], ◌∷◌, ◌++◌, length, length-append, Option, some, none,
}
use cc_common.Slice.Expand.{IsRealloc}
use cc_common.Simple.Decode.Cost.{GrantsShort}

zeros : ℕ → List ℕ
zeros zero = []
zeros (suc n) = 0 ∷ zeros n

length-zeros : (n : ℕ) → length (zeros n) ≡ n
unfolding zeros
length-zeros zero = refl
length-zeros (suc n) = ap suc (length-zeros n)

unfoldable pub zeroing_realloc : List ℕ → ℕ → Option (List ℕ)
unfolding zeros
zeroing_realloc mem n = if leb n (2 ^ 32) then some (mem ++ zeros (n - length mem)) else none

pub zeroing_realloc-IsRealloc : IsRealloc zeroing_realloc (2 ^ 32)
zeroing_realloc-IsRealloc = record {
  grants = λ mem n fits small. (
    zeros (n - length mem),
    unfold zeroing_realloc in rw (le→leb n (2 ^ 32) small),
    omega (arith, length-append mem (zeros (n - length mem)), length-zeros (n - length mem)),
  );
}

unfoldable pub bounded_calloc : ℕ → ℕ → Bool
bounded_calloc n size = ltb (n * size) (2 ^ 32)

pub bounded_calloc-GrantsShort : GrantsShort bounded_calloc
unfolding bounded_calloc
bounded_calloc-GrantsShort n h =
    (lt→ltb (n * 40) (2 ^ 32) (omega arith), lt→ltb (n * 80) (2 ^ 32) (omega arith))
