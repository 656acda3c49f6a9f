-- ===== src/Slice.antt =====
-- ugorji/util/slice.h and slice.c: a growing buffer of bytes. The block behind the pointer is
-- `mem`, the bytes of the allocation; NULL is the empty block. `size_t` has 64 bits.
pub mod Expand
pub mod Append
pub mod Writer
use cc_common.Base.{ℕ, ◌+◌, ◌-◌, ◌/◌, ◌%◌, u64, Bool, ltb, leb, ◌==◌, if◌then◌else◌}
use cc_common.Base.{List, [], ◌∷◌, ◌++◌, length, take, drop, Option, none, some}
use cc_common.Base.{Outcome, ok, abort, fault, ◌>>=◌}

pub record Slice : Type 0 where
  pub mem : List ℕ
  pub len : ℕ
  pub cap : ℕ

-- `slice_bytes_zero`.
abbrev pub zero_slice : Slice
zero_slice = record { mem = []; len = 0; cap = 0 }

-- The bytes that the slice holds.
abbrev pub contents : Slice → List ℕ
contents s = take s.len s.mem

-- A copy of `xs` into a block from offset `off` on: `memmove`, or stores one by one.
unfoldable pub store : List ℕ → ℕ → List ℕ → Outcome (List ℕ)
store mem off xs =
    if leb (off + length xs) (length mem)
    then ok (take off mem ++ (xs ++ drop (off + length xs) mem))
    else fault

-- The capacity that is asked for when `newlen` bytes do not fit: at least a quarter more than
-- before, in whole cache lines of 64 bytes.
unfoldable pub new_cap : ℕ → ℕ → ℕ
new_cap cap newlen =
    let cap25 = u64 (cap + cap / 4) in
    let wanted = if ltb newlen cap25 then cap25 else newlen in
    let rem64 = wanted % 64 in if rem64 == 0 then wanted else u64 (wanted + (64 - rem64))

-- `realloc` belongs to the C library: from the old block and the new size, the new block.
module _ (realloc : List ℕ → ℕ → Option (List ℕ)) where
  -- The `assert` behind `realloc`.
  unfoldable pub regrown : Slice → ℕ → Option (List ℕ) → Outcome Slice
  regrown s newlen none = abort
  regrown s newlen (some mem) = ok (record s { mem = mem; cap = newlen })

  -- `slice_bytes_expand`.
  unfoldable pub expand : Slice → ℕ → Outcome Slice
  expand s len =
      let newlen = u64 (s.len + len) in
      let asked = new_cap s.cap newlen in
      if leb newlen s.cap then ok s else regrown s asked (realloc s.mem asked)

  -- The copy, the new length and the closing 0 byte.
  pub copy_in : Slice → List ℕ → ℕ → Outcome Slice
  copy_in s src len =
      if leb len (length src)
      then (do
        mem ← store s.mem s.len (take len src)
        closed ← store mem (u64 (s.len + len)) (0 ∷ [])
        ok (record s { mem = closed; len = u64 (s.len + len) }))
      else fault

  -- `slice_bytes_append`: `src` is the memory that `b` points to.
  unfoldable pub append : Slice → List ℕ → ℕ → Outcome Slice
  append s src len = do grown ← expand s (u64 (len + 1)); copy_in grown src len

  -- `slice_bytes_append_1`.
  unfoldable pub append_1 : Slice → ℕ → Outcome Slice
  append_1 s bd = append s (bd ∷ []) 1

  -- The encoders' way to append a word: `expand`, a big-endian store at the end, `len += n`.
  unfoldable pub append_word : Slice → List ℕ → Outcome Slice
  append_word s word = do
    grown ← expand s (length word)
    mem ← store grown.mem grown.len word
    ok (record grown { mem = mem; len = u64 (grown.len + length word) })
