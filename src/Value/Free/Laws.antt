-- ===== src/Value/Free/Laws.antt =====
-- `codec_value_free` frees each block of a value once, where each pointer of the value is NULL or the
-- start of a block, and the blocks are allocated and distinct.
use cc_common.Base.{
  ℕ, ◌≡◌, refl, ap, ◌∙◌, arith, Bool, true, false, not, ◌&&◌, List, [], ◌∷◌, ◌++◌, append_assoc,
  All, has, ok,
}
use cc_common.Value.Free.{
  Pointer, null, at, Heap, Stored, scalar, blob, ext, arr, map, StoredItems, no_items, item,
  StoredFields, no_fields, field, release, free_ptr, slice_free, can_read, free, free_items,
  free_fields,
}
use cc_common.Value.Free.Blocks.{
  own, blocks, blocks_items, blocks_fields, IsStart, Leads, some_items, some_fields, IsProper,
  AreProper, AreProperFields, CanRelease, release_all, release_none, release_all-append,
  CanRelease-split, CanRelease-last, release_all_lem,
}

free_ptr-run :
    (p : Pointer) (h : Heap)
    → IsStart p
    → CanRelease (own p) h
    → free_ptr p h ≡ ok (release_all (own p) h)
unfolding free_ptr CanRelease release_all
free_ptr-run null h s c = refl
free_ptr-run (at b offset) h s c = rw (s, c.0)

-- An entry can be read as long as the block of the entries is to be freed after it.
can_read-entry :
    (p : Pointer) (xs : List ℕ) (h : Heap)
    → Leads true p
    → CanRelease (xs ++ own p) h
    → can_read p h ≡ true
can_read-entry null xs h l c = cc
can_read-entry (at b offset) xs h l c = CanRelease-last xs b h c

Leads-next : (b : Bool) (p : Pointer) → Leads true p → Leads b p
Leads-next b null l = cc
Leads-next b (at a offset) l = tt

-- What is freed after `xs` and `ys`.
split_next :
    (xs ys zs : List ℕ) (h : Heap)
    → CanRelease ((xs ++ ys) ++ zs) h
    → CanRelease xs h × CanRelease (ys ++ zs) (release_all xs h)
split_next xs ys zs h c = CanRelease-split xs (ys ++ zs) h (rw⁻¹ (append_assoc xs ys zs) c)

-- Each part of a value is freed as its list of blocks is.
mutual
  unfolding free free_items free_fields blocks blocks_items blocks_fields IsProper

  free-run :
      (v : Stored) (h : Heap)
      → IsProper v
      → CanRelease (blocks v) h
      → free v h ≡ ok (release_all (blocks v) h)
  free-run scalar h s c = release_none h
  free-run (blob p) h s c = free_ptr-run p h s c
  free-run (ext p) h s c = free_ptr-run p h s c
  free-run (arr p xs) h s c =
      let (c1, c2) = CanRelease-split (blocks_items xs) (own p) h c in
      rw (free_items-run p xs h s.1 s.2 c, release_all-append (blocks_items xs) (own p) h)
        (free_ptr-run p (release_all (blocks_items xs) h) s.0 c2)
  free-run (map p fs) h s c =
      let (c1, c2) = CanRelease-split (blocks_fields fs) (own p) h c in
      rw (free_fields-run p fs h s.1 s.2 c, release_all-append (blocks_fields fs) (own p) h)
        (free_ptr-run p (release_all (blocks_fields fs) h) s.0 c2)

  free_items-run :
      (p : Pointer) (xs : StoredItems) (h : Heap)
      → Leads (some_items xs) p
      → AreProper xs
      → CanRelease (blocks_items xs ++ own p) h
      → free_items p xs h ≡ ok (release_all (blocks_items xs) h)
  free_items-run p no_items h l s c = release_none h
  free_items-run p (item x xs) h l s c =
      let c' = split_next (blocks x) (blocks_items xs) (own p) h c in
      rw
        (
          can_read-entry p (blocks x ++ blocks_items xs) h l c,
          free-run x h s.0 c'.0,
          release_all-append (blocks x) (blocks_items xs) h,
        )
        (free_items-run p xs (release_all (blocks x) h) (Leads-next (some_items xs) p l) s.1 c'.1)

  free_fields-run :
      (p : Pointer) (fs : StoredFields) (h : Heap)
      → Leads (some_fields fs) p
      → AreProperFields fs
      → CanRelease (blocks_fields fs ++ own p) h
      → free_fields p fs h ≡ ok (release_all (blocks_fields fs) h)
  free_fields-run p no_fields h l s c = release_none h
  free_fields-run p (field k v fs) h l s c =
      let c1 = split_next (blocks k) (blocks v ++ blocks_fields fs) (own p) h c in
      let h1 : Heap = release_all (blocks k) h in
      let c2 = split_next (blocks v) (blocks_fields fs) (own p) h1 c1.1 in
      rw
        (
          can_read-entry p (blocks k ++ (blocks v ++ blocks_fields fs)) h l c,
          free-run k h s.0 c1.0,
          can_read-entry p (blocks v ++ blocks_fields fs) h1 l c1.1,
          free-run v h1 s.1 c2.0,
          release_all-append (blocks k) (blocks v ++ blocks_fields fs) h,
          release_all-append (blocks v) (blocks_fields fs) h1,
        )
        (free_fields-run p fs (release_all (blocks v) h1) (Leads-next (some_fields fs) p l) s.2
          c2.1)

-- No block is twice in the list.
abbrev pub AreDistinct : List ℕ → Type 0
AreDistinct [] = Unit
AreDistinct (b ∷ bs) = (has b bs ≡ false) × AreDistinct bs

abbrev pub AreLive : Heap → List ℕ → Type 0
AreLive h = All (λ b. h b ≡ true)

AreLive-release :
    (b : ℕ) (bs : List ℕ) (h : Heap) → has b bs ≡ false → AreLive h bs → AreLive (release b h) bs
AreLive-release b [] h d l = tt
AreLive-release b (x ∷ xs) h d l = (ground (arith, l.0), AreLive-release b xs h (ground arith) l.1)

AreLive-CanRelease : (bs : List ℕ) (h : Heap) → AreDistinct bs → AreLive h bs → CanRelease bs h
unfolding CanRelease
AreLive-CanRelease [] h d l = tt
AreLive-CanRelease (b ∷ bs) h d l =
    (l.0, AreLive-CanRelease bs (release b h) d.1 (AreLive-release b bs h d.0 l.1))

-- Where each pointer of a value is NULL or the start of a block, an array or a map with entries has a
-- block of them, and the blocks of the value are distinct and allocated, `codec_value_free` ends
-- without a fault, and after it these blocks are free and the others as before.
pub free_lem :
    (v : Stored) (h : Heap)
    → IsProper v
    → AreDistinct (blocks v)
    → AreLive h (blocks v)
    → free v h ≡ ok (λ c. not (has c (blocks v)) && h c)
free_lem v h s d l =
    free-run v h s (AreLive-CanRelease (blocks v) h d l) ∙ ap ok (release_all_lem (blocks v) h)

-- The bytes of a slice are freed as those of a value are.
slice_free_lem : (p : Pointer) (h : Heap) → slice_free p h ≡ free (blob p) h
unfolding slice_free free free_ptr
slice_free_lem null h = refl
slice_free_lem (at b offset) h = refl
