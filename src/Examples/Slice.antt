-- ===== src/Examples/Slice.antt =====
-- Concrete slices: appending, and the laws at an input.
use cc_common.Base.{ℕ, ◌≡◌, refl, arith, List, [], ◌∷◌, ◌++◌, take, ok}
use cc_common.Alloc.{zeroing_realloc, zeroing_realloc-IsRealloc}
use cc_common.Slice.{Slice, zero_slice, new_cap, expand, append}
use cc_common.Slice.Expand.{Holds, Holds-zero, Expanded, expand-Expanded}
use cc_common.Slice.Append.{append_lem, IsClosed}

abbrev some_bytes : List ℕ
some_bytes = 7 ∷ 8 ∷ 9 ∷ []

new_cap_steps : (new_cap 64 65 ≡ 128) × (new_cap 640 641 ≡ 832)
unfolding new_cap
new_cap_steps = (refl, refl)

expand-Expanded_example :
    (s' : Slice) × (expand zeroing_realloc zero_slice 3 ≡ ok s') × Expanded zero_slice [] 3 s'
expand-Expanded_example =
    expand-Expanded zeroing_realloc-IsRealloc zero_slice [] 3 Holds-zero (omega arith)

append_lem_example :
    (s' : Slice) × (append zeroing_realloc zero_slice some_bytes 2 ≡ ok s')
    × Holds s' ([] ++ take 2 some_bytes)
    × IsClosed s'
append_lem_example =
    append_lem zeroing_realloc-IsRealloc zero_slice [] some_bytes 2 Holds-zero (omega arith)
      (omega arith)
