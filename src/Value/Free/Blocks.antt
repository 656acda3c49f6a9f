-- ===== src/Value/Free/Blocks.antt =====
-- The blocks of a value in memory, which pointers of it may be given to `free`, and what it is to free
-- a list of blocks.
use cc_common.Base.{ℕ, ◌≡◌, refl, arith, Bool, true, false, not, ◌&&◌, List, [], ◌∷◌, ◌++◌, has, ok}
use mathlib.Core.Path.{fun_ext}
use cc_common.Value.Free.{
  Pointer, null, at, Heap, Stored, scalar, blob, ext, arr, map, StoredItems, no_items, item,
  StoredFields, no_fields, field, release,
}

-- The block of a pointer, and the blocks of a value in the order in which they are freed.
abbrev pub own : Pointer → List ℕ
own null = []
own (at b offset) = b ∷ []

unfoldable mutual
  pub blocks : Stored → List ℕ
  blocks scalar = []
  blocks (blob p) = own p
  blocks (ext p) = own p
  blocks (arr p xs) = blocks_items xs ++ own p
  blocks (map p fs) = blocks_fields fs ++ own p

  pub blocks_items : StoredItems → List ℕ
  blocks_items no_items = []
  blocks_items (item x xs) = blocks x ++ blocks_items xs

  pub blocks_fields : StoredFields → List ℕ
  blocks_fields no_fields = []
  blocks_fields (field k v fs) = blocks k ++ (blocks v ++ blocks_fields fs)

-- NULL, or the start of a block.
abbrev pub IsStart : Pointer → Type 0
IsStart null = Unit
IsStart (at b offset) = offset ≡ 0

-- Not NULL, where there are entries behind it.
abbrev pub Leads : Bool → Pointer → Type 0
Leads some null = some ≡ false
Leads some (at b offset) = Unit

abbrev pub some_items : StoredItems → Bool
some_items no_items = false
some_items (item x xs) = true

abbrev pub some_fields : StoredFields → Bool
some_fields no_fields = false
some_fields (field k v fs) = true

-- The pointers of a value that may be given to `free`.
unfoldable mutual
  pub IsProper : Stored → Type 0
  IsProper scalar = Unit
  IsProper (blob p) = IsStart p
  IsProper (ext p) = IsStart p
  IsProper (arr p xs) = IsStart p × Leads (some_items xs) p × AreProper xs
  IsProper (map p fs) = IsStart p × Leads (some_fields fs) p × AreProperFields fs

  pub AreProper : StoredItems → Type 0
  AreProper no_items = Unit
  AreProper (item x xs) = IsProper x × AreProper xs

  pub AreProperFields : StoredFields → Type 0
  AreProperFields no_fields = Unit
  AreProperFields (field k v fs) = IsProper k × IsProper v × AreProperFields fs

-- To free one block after the other: each is still allocated when its turn comes.
unfoldable pub CanRelease : List ℕ → Heap → Type 0
CanRelease [] h = Unit
CanRelease (b ∷ bs) h = (h b ≡ true) × CanRelease bs (release b h)

unfoldable pub release_all : List ℕ → Heap → Heap
release_all [] h = h
release_all (b ∷ bs) h = release_all bs (release b h)

pub release_none : (h : Heap) → ok h ≡ ok (release_all [] h)
unfolding release_all
release_none h = refl

pub release_all-append :
    (xs ys : List ℕ) (h : Heap) → release_all (xs ++ ys) h ≡ release_all ys (release_all xs h)
unfolding release_all
release_all-append [] ys h = refl
release_all-append (x ∷ xs) ys h = release_all-append xs ys (release x h)

pub CanRelease-split :
    (xs ys : List ℕ) (h : Heap)
    → CanRelease (xs ++ ys) h
    → CanRelease xs h × CanRelease ys (release_all xs h)
unfolding CanRelease release_all
CanRelease-split [] ys h c = (tt, c)
CanRelease-split (x ∷ xs) ys h c =
    let rest = CanRelease-split xs ys (release x h) c.1 in ((c.0, rest.0), rest.1)

pub CanRelease-join :
    (xs ys : List ℕ) (h : Heap)
    → CanRelease xs h
    → CanRelease ys (release_all xs h)
    → CanRelease (xs ++ ys) h
unfolding CanRelease release_all
CanRelease-join [] ys h c d = d
CanRelease-join (x ∷ xs) ys h c d = (c.0, CanRelease-join xs ys (release x h) c.1 d)

pub release_le : (a c : ℕ) (h : Heap) → release a h c ≡ true → h c ≡ true
release_le a c h e = ground arith

pub release_all_le : (xs : List ℕ) (c : ℕ) (h : Heap) → release_all xs h c ≡ true → h c ≡ true
unfolding release_all
release_all_le [] c h e = e
release_all_le (x ∷ xs) c h e = release_le x c h (release_all_le xs c (release x h) e)

-- The last block to be freed is allocated all the time.
pub CanRelease-last : (xs : List ℕ) (b : ℕ) (h : Heap) → CanRelease (xs ++ b ∷ []) h → h b ≡ true
unfolding CanRelease
CanRelease-last xs b h c = release_all_le xs b h (CanRelease-split xs (b ∷ []) h c).1.0

pub release_all_lem : (bs : List ℕ) (h : Heap) → release_all bs h ≡ (λ c. not (has c bs) && h c)
unfolding release_all
release_all_lem bs h = fun_ext (each bs h)
  where
    each : (bs : List ℕ) (h : Heap) (c : ℕ) → release_all bs h c ≡ (not (has c bs) && h c)
    each [] h c = refl
    each (b ∷ bs) h c = ground (arith, each bs (release b h) c)
