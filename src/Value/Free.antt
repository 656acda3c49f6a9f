-- ===== src/Value/Free.antt =====
-- `codec_value_free` and `codec_value_free_ptr` of ugorji/codec/codec.c, and `slice_bytes_free` of
-- ugorji/util/slice.c.
--
-- A value in memory is kept by its pointers. A pointer is NULL, or leads into a block of the C library,
-- so many bytes behind its start; a heap tells which blocks are allocated. To free what is not the
-- start of an allocated block, and to read from a block that is not allocated, is a fault.
pub mod Blocks
pub mod Laws
pub mod Only
pub mod Twice
use cc_common.Base.{
  ℕ, zero, suc, Bool, true, false, ◌&&◌, ◌==◌, if◌then◌else◌, List, [], ◌∷◌, ◌++◌, Outcome, ok,
  fault, ◌>>=◌,
}

pub data Pointer : Type 0 where
  null : Pointer
  at : (block offset : ℕ) → Pointer

abbrev pub Heap : Type 0
Heap = ℕ → Bool

-- `codec_value`, by its pointers: a scalar has none, a string, bytes and an extension have one, an array
-- and a map have one to their entries.
mutual
  pub data Stored : Type 0 where
    scalar : Stored
    blob : (bytes : Pointer) → Stored
    ext : (bytes : Pointer) → Stored
    arr : (entries : Pointer) → StoredItems → Stored
    map : (entries : Pointer) → StoredFields → Stored

  pub data StoredItems : Type 0 where
    no_items : StoredItems
    item : Stored → StoredItems → StoredItems

  pub data StoredFields : Type 0 where
    no_fields : StoredFields
    field : (k v : Stored) → StoredFields → StoredFields

abbrev pub release : ℕ → Heap → Heap
release b h c = if c == b then false else h c

-- `free` of the C library, of a pointer that is not NULL.
abbrev pub free_block : (block offset : ℕ) → Heap → Outcome Heap
free_block b offset h = if offset == 0 && h b then ok (release b h) else fault

-- `codec_value_free_ptr`. The pointer that it sets to NULL is the caller's variable `ptr`, which is not
-- read again.
unfoldable pub free_ptr : Pointer → Heap → Outcome Heap
free_ptr null h = ok h
free_ptr (at b offset) h = free_block b offset h

-- `slice_bytes_free`.
unfoldable pub slice_free : Pointer → Heap → Outcome Heap
slice_free null h = ok h
slice_free (at b offset) h = free_block b offset h

-- Whether an entry can be read behind the pointer.
abbrev pub can_read : Pointer → Heap → Bool
can_read null h = false
can_read (at b offset) h = h b

-- `codec_value_free`. The index `int i` of its loops is a number.
unfoldable mutual
  pub free : Stored → Heap → Outcome Heap
  free scalar h = ok h
  free (blob p) h = free_ptr p h
  free (ext p) h = free_ptr p h
  free (arr p xs) h = free_items p xs h >>= free_ptr p
  free (map p fs) h = free_fields p fs h >>= free_ptr p

  -- Its two loops.
  pub free_items : Pointer → StoredItems → Heap → Outcome Heap
  free_items p no_items h = ok h
  free_items p (item x xs) h =
      let entry = free x h in if can_read p h then entry >>= free_items p xs else fault

  pub free_fields : Pointer → StoredFields → Heap → Outcome Heap
  free_fields p no_fields h = ok h
  free_fields p (field k v fs) h =
      let entry = free k h in
      if can_read p h
      then entry >>= (λ h1.
        let second = free v h1 in if can_read p h1 then second >>= free_fields p fs else fault)
      else fault
