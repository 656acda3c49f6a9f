-- ===== src/Value/Free/Only.antt =====
-- `codec_value_free` ends only on a value whose pointers may be given to `free`.
use cc_common.Base.{
  ℕ, ◌≡◌, refl, sym, ap, ◌∙◌, arith, Bool, true, false, ◌&&◌, ◌==◌, if◌then◌else◌, List, [], ◌∷◌,
  ◌++◌, has, Bool-cases, inl, inr, Outcome, ok, fault, ◌>>=◌, bind_ok,
}
use cc_common.Value.Free.{
  Pointer, null, at, Heap, Stored, scalar, blob, ext, arr, map, StoredItems, no_items, item,
  StoredFields, no_fields, field, release, free_ptr, can_read, free, free_items, free_fields,
}
use cc_common.Value.Free.Blocks.{
  own, blocks, blocks_items, blocks_fields, IsStart, Leads, some_items, some_fields, IsProper,
  AreProper, AreProperFields, CanRelease, release_all, release_all-append, release_le,
  CanRelease-join,
}
use cc_common.Value.Free.Laws.{AreDistinct, AreLive}

-- What a run from `h` to `h'` has freed.
pub record Released (bs : List ℕ) (h h' : Heap) : Type 0 where
  pub could : CanRelease bs h
  pub heap_eq : release_all bs h ≡ h'

Released-none : (h h' : Heap) → ok h ≡ ok h' → Released [] h h'
unfolding CanRelease release_all
Released-none h h' e = record { could = tt; heap_eq = cc }

Released-join :
    (xs ys : List ℕ) (h h1 h' : Heap)
    → Released xs h h1
    → Released ys h1 h'
    → Released (xs ++ ys) h h'
Released-join xs ys h h1 h' r s = record {
  could = CanRelease-join xs ys h r.could (rw r.heap_eq s.could);
  heap_eq = release_all-append xs ys h ∙ ap (release_all ys) r.heap_eq ∙ s.heap_eq;
}

free_ptr-only :
    (p : Pointer) (h h' : Heap) → free_ptr p h ≡ ok h' → IsStart p × Released (own p) h h'
unfolding free_ptr
free_ptr-only null h h' e = (tt, Released-none h h' e)
free_ptr-only (at b offset) h h' e = elim (Bool-cases (offset == 0 && h b)) [
  | inl good ↦ (
    ground arith,
    unfold CanRelease release_all in
        record {
          could = (ground arith, tt);
          heap_eq = (let ran : ok (release b h) ≡ ok h' = sym (rw good) ∙ e in cc);
        },
  )
  | inr bad ↦ absurd (let ran : fault ≡ ok h' = sym (rw bad) ∙ e in cc)
]

can_read-Leads : (b : Bool) (p : Pointer) (h : Heap) → can_read p h ≡ true → Leads b p
can_read-Leads b null h e = cc
can_read-Leads b (at a offset) h e = tt

Leads-none : (p : Pointer) → Leads false p
Leads-none null = refl
Leads-none (at b offset) = tt

-- A test that ends in a fault where it fails has not failed.
guarded :
    (b : Bool) (m : Outcome Heap) (h' : Heap)
    → (if b then m else fault) ≡ ok h'
    → (b ≡ true) × (m ≡ ok h')
guarded true m h' e = (refl, e)
guarded false m h' e = cc

-- The rest of a round of the loop over a map, after the key is freed.
abbrev pub second : Pointer → Stored → StoredFields → Heap → Outcome Heap
second p v fs h1 =
    let freed = free v h1 in if can_read p h1 then freed >>= free_fields p fs else fault

mutual
  unfolding free free_items free_fields blocks blocks_items blocks_fields IsProper

  free-only : (v : Stored) (h h' : Heap) → free v h ≡ ok h' → IsProper v × Released (blocks v) h h'
  free-only scalar h h' e = (tt, Released-none h h' e)
  free-only (blob p) h h' e = free_ptr-only p h h' e
  free-only (ext p) h h' e = free_ptr-only p h h' e
  free-only (arr p xs) h h' e =
      let (h1, ran, last) = bind_ok (free_items p xs h) (free_ptr p) h' e in
      let (leads, proper, before) = free_items-only p xs h h1 ran in
      let (start, after) = free_ptr-only p h1 h' last in
      ((start, leads, proper), Released-join (blocks_items xs) (own p) h h1 h' before after)
  free-only (map p fs) h h' e =
      let (h1, ran, last) = bind_ok (free_fields p fs h) (free_ptr p) h' e in
      let (leads, proper, before) = free_fields-only p fs h h1 ran in
      let (start, after) = free_ptr-only p h1 h' last in
      ((start, leads, proper), Released-join (blocks_fields fs) (own p) h h1 h' before after)

  free_items-only :
      (p : Pointer) (xs : StoredItems) (h h' : Heap)
      → free_items p xs h ≡ ok h'
      → Leads (some_items xs) p × AreProper xs × Released (blocks_items xs) h h'
  free_items-only p no_items h h' e = (Leads-none p, tt, Released-none h h' e)
  free_items-only p (item x xs) h h' e =
      let (read, run) = guarded (can_read p h) (free x h >>= free_items p xs) h' e in
      let (h1, first, rest) = bind_ok (free x h) (free_items p xs) h' run in
      let (proper, before) = free-only x h h1 first in
      let (leads, propers, after) = free_items-only p xs h1 h' rest in
      (
        can_read-Leads true p h read,
        (proper, propers),
        Released-join (blocks x) (blocks_items xs) h h1 h' before after,
      )

  free_fields-only :
      (p : Pointer) (fs : StoredFields) (h h' : Heap)
      → free_fields p fs h ≡ ok h'
      → Leads (some_fields fs) p × AreProperFields fs × Released (blocks_fields fs) h h'
  free_fields-only p no_fields h h' e = (Leads-none p, tt, Released-none h h' e)
  free_fields-only p (field k v fs) h h' e =
      let (read, run) = guarded (can_read p h) (free k h >>= second p v fs) h' e in
      let (h1, first, later) = bind_ok (free k h) (second p v fs) h' run in
      let (proper_k, freed_k) = free-only k h h1 first in
      let (read1, run1) = guarded (can_read p h1) (free v h1 >>= free_fields p fs) h' later in
      let (h2, ran, rest) = bind_ok (free v h1) (free_fields p fs) h' run1 in
      let (proper_v, freed_v) = free-only v h1 h2 ran in
      let (leads, propers, after) = free_fields-only p fs h2 h' rest in
      (
        can_read-Leads true p h read,
        (proper_k, proper_v, propers),
        Released-join (blocks k) (blocks v ++ blocks_fields fs) h h1 h' freed_k
            (Released-join (blocks v) (blocks_fields fs) h1 h2 h' freed_v after),
      )

AreLive-absent : (b : ℕ) (bs : List ℕ) (h : Heap) → AreLive (release b h) bs → has b bs ≡ false
AreLive-absent b [] h l = refl
AreLive-absent b (x ∷ xs) h l = ground (arith, l.0, AreLive-absent b xs h l.1)

AreLive-grow : (b : ℕ) (bs : List ℕ) (h : Heap) → AreLive (release b h) bs → AreLive h bs
AreLive-grow b [] h l = tt
AreLive-grow b (x ∷ xs) h l = (release_le b x h l.0, AreLive-grow b xs h l.1)

CanRelease-AreLive : (bs : List ℕ) (h : Heap) → CanRelease bs h → AreDistinct bs × AreLive h bs
unfolding CanRelease
CanRelease-AreLive [] h c = (tt, tt)
CanRelease-AreLive (b ∷ bs) h c =
    let (distinct, live) = CanRelease-AreLive bs (release b h) c.1 in
    ((AreLive-absent b bs h live, distinct), (c.0, AreLive-grow b bs h live))

-- Where `codec_value_free` ends without a fault, each pointer of the value is NULL or the start of a
-- block, an array or a map with entries has a block of them, and the blocks of the value are distinct
-- and were allocated.
pub free-IsProper :
    (v : Stored) (h h' : Heap)
    → free v h ≡ ok h'
    → IsProper v × AreDistinct (blocks v) × AreLive h (blocks v)
free-IsProper v h h' e =
    let (proper, freed) = free-only v h h' e in
    let (distinct, live) = CanRelease-AreLive (blocks v) h freed.could in (proper, distinct, live)
