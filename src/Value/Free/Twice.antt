-- ===== src/Value/Free/Twice.antt =====
-- `codec_value_free` is given a copy of the value, so that the pointers of the caller's value stay, and
-- a second call on it faults.
use cc_common.Base.{
  ℕ, ◌≡◌, ◌≢◌, refl, sym, ap, ◌∙◌, arith, Bool, true, false, not, ◌&&◌, ◌==◌, if◌then◌else◌, List,
  [], ◌∷◌, has, ◌⊎◌, inl, inr, Outcome, ok, fault, ◌>>=◌, ok_inj,
}
use mathlib.Core.Path.{subst}
use cc_common.Value.Free.{
  Pointer, null, at, Heap, Stored, scalar, blob, ext, arr, map, StoredItems, no_items, item,
  StoredFields, no_fields, field, release, free_ptr, can_read, free, free_items, free_fields,
}
use cc_common.Value.Free.Blocks.{blocks}
use cc_common.Value.Free.Laws.{AreLive, free_lem}
use cc_common.Value.Free.Only.{second, free-IsProper}

-- A run ends, with a heap or in a fault.
abbrev Ends : Outcome Heap → Type 0
Ends m = ((h : Heap) × (m ≡ ok h)) ⊎ (m ≡ fault)

bind-Ends :
    (m : Outcome Heap) (f : Heap → Outcome Heap)
    → Ends m
    → ((h : Heap) → Ends (f h))
    → Ends (m >>= f)
bind-Ends m f (inl r) next = subst (λ k. Ends (k >>= f)) (sym r.1) (next r.0)
bind-Ends m f (inr bad) next = inr (ap (λ k. k >>= f) bad)

guarded-Ends : (b : Bool) (m : Outcome Heap) → Ends m → Ends (if b then m else fault)
guarded-Ends true m e = e
guarded-Ends false m e = inr refl

free_ptr-Ends : (p : Pointer) (h : Heap) → Ends (free_ptr p h)
unfolding free_ptr
free_ptr-Ends null h = inl (h, refl)
free_ptr-Ends (at b offset) h =
    guarded-Ends (offset == 0 && h b) (ok (release b h)) (inl (release b h, refl))

mutual
  unfolding free free_items free_fields

  free-Ends : (v : Stored) (h : Heap) → Ends (free v h)
  free-Ends scalar h = inl (h, refl)
  free-Ends (blob p) h = free_ptr-Ends p h
  free-Ends (ext p) h = free_ptr-Ends p h
  free-Ends (arr p xs) h =
      bind-Ends (free_items p xs h) (free_ptr p) (free_items-Ends p xs h) (free_ptr-Ends p)
  free-Ends (map p fs) h =
      bind-Ends (free_fields p fs h) (free_ptr p) (free_fields-Ends p fs h) (free_ptr-Ends p)

  free_items-Ends : (p : Pointer) (xs : StoredItems) (h : Heap) → Ends (free_items p xs h)
  free_items-Ends p no_items h = inl (h, refl)
  free_items-Ends p (item x xs) h =
      guarded-Ends (can_read p h) (free x h >>= free_items p xs)
        (bind-Ends (free x h) (free_items p xs) (free-Ends x h) (free_items-Ends p xs))

  free_fields-Ends : (p : Pointer) (fs : StoredFields) (h : Heap) → Ends (free_fields p fs h)
  free_fields-Ends p no_fields h = inl (h, refl)
  free_fields-Ends p (field k v fs) h = guarded-Ends (can_read p h) (free k h >>= second p v fs) (
      bind-Ends (free k h) (second p v fs) (free-Ends k h) (λ h1.
        guarded-Ends (can_read p h1) (free v h1 >>= free_fields p fs)
          (bind-Ends (free v h1) (free_fields p fs) (free-Ends v h1) (free_fields-Ends p fs))))

-- The first block of a value that was freed is not allocated.
freed_first :
    (bs : List ℕ) (h h1 : Heap) → h1 ≡ (λ c. not (has c bs) && h c) → AreLive h1 bs → bs ≡ []
freed_first [] h h1 freed l = refl
freed_first (b ∷ bs) h h1 freed l =
    let first : h1 b ≡ (not (has b (b ∷ bs)) && h b) = ap (λ (g : Heap). g b) freed in
    absurd (ground (arith, first, l.0))

-- If a value has a block and `codec_value_free` of it ended, a second call on the same value, whose
-- pointers the first left as they were, faults.
pub free-free : (v : Stored) (h h1 : Heap) → blocks v ≢ [] → free v h ≡ ok h1 → free v h1 ≡ fault
free-free v h h1 some e = elim (free-Ends v h1) [
  | inr bad ↦ bad
  | inl again ↦
      let (proper, distinct, live) = free-IsProper v h h1 e in
      let freed : h1 ≡ (λ c. not (has c (blocks v)) && h c) =
        ok_inj (sym e ∙ free_lem v h proper distinct live) in
      absurd (some (freed_first (blocks v) h h1 freed (free-IsProper v h1 again.0 again.1).2))
]
