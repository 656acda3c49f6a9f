-- ===== src/Simple/Decode/Parts.antt =====
-- How the decoder goes through the encoding of each kind of value.
use cc_common.Base.{ℕ, suc, ◌+◌, ◌/◌, ◌%◌, ◌^◌, ◌≤◌, ◌<◌, ◌≡◌, refl, sym, ap, ◌∙◌, arith, u64}
use cc_common.Base.{Bool, true, List, [], ◌∷◌, ◌++◌, length, drop, take, append_assoc, u8}
use cc_common.BigEndian.{read_uint32, read_uint64}
use cc_common.BigEndian.Laws.{digits_value, read_uint32_value, read_uint64_digits}
use cc_common.Float.{float_of_uint, double_of_uint}
use cc_common.Base.{length-append, length-drop, length-take, take-append, ok, ◌⊎◌, inl, inr}
use cc_common.Value.{Value, float32, float64, host_bytes}
use cc_common.Value.Cursor.{Cursor}
use cc_common.Simple.Encode.Wire.{digits_of, length-digits_of, size_class, int_wire, len_wire}
use cc_common.Simple.Decode.{
  Kind, is_pos_int, is_neg_int, kind, decode_r, decode_items, decode_fields, dispatch, read_int,
  read_blob, read_float32, read_float64,
}
use cc_common.Simple.Decode.Seen.{seen_int}
use cc_common.Simple.Decode.Reads.{
  at, within, behind, chk_passes, visit-dispatch, read_int-digits, Header, Header-len_wire,
}

pub size_class-le : (n : ℕ) → size_class n ≤ 3
unfolding size_class
size_class-le n = ground arith

pub kind_pos_int : (k : ℕ) → k ≤ 3 → kind (8 + k) ≡ is_pos_int
unfolding kind
kind_pos_int k h = ground arith

pub kind_neg_int : (k : ℕ) → k ≤ 3 → kind (12 + k) ≡ is_neg_int
unfolding kind
kind_neg_int k h = ground arith

pub length-host_bytes : (w : ℕ) → (length (host_bytes w) ≡ 8) × (length (take 4 (host_bytes w)) ≡ 4)
unfolding host_bytes
length-host_bytes w = (refl, refl)

read_host32 :
    (w : ℕ) (rest : List ℕ)
    → read_uint32 (take 4 (host_bytes w) ++ rest) ≡ ok (digits_value 0 (take 4 (host_bytes w)))
unfolding host_bytes
read_host32 w rest =
    read_uint32_value (u8 w) (u8 (w / 2 ^ 8)) (omega arith) (omega arith) (u8 (w / 2 ^ 16))
      (u8 (w / 2 ^ 24)) (omega arith) (omega arith) rest

read_host64 :
    (w : ℕ) (rest : List ℕ)
    → read_uint64 (host_bytes w ++ rest) ≡ ok (digits_value 0 (host_bytes w))
unfolding host_bytes
read_host64 w rest =
    read_uint64_digits (u8 w) (u8 (w / 2 ^ 8)) (u8 (w / 2 ^ 16)) (u8 (w / 2 ^ 24)) (u8 (w / 2 ^ 32))
      (u8 (w / 2 ^ 40)) (u8 (w / 2 ^ 48)) (u8 (w / 2 ^ 56)) rest (omega arith) (omega arith)

pub take_front :
    (len : ℕ) (mem rest : List ℕ)
    → len ≤ length mem
    → take len (take len mem ++ rest) ≡ take len mem
take_front len mem rest enough =
    ap (λ k. take k (take len mem ++ rest)) (sym (length-take len mem enough))
    ∙ take-append (take len mem) rest

-- The descriptors of a blob or a container with a short length.
pub kind_near :
    (bd desc : ℕ) (k : Kind)
    → kind desc ≡ k
    → kind (desc + 1) ≡ k
    → (bd ≡ desc) ⊎ (bd ≡ desc + 1)
    → kind bd ≡ k
kind_near bd desc k h h' (inl e) = ap kind e ∙ h
kind_near bd desc k h h' (inr e) = ap kind e ∙ h'

module _ (calloc : ℕ → ℕ → Bool) (b : List ℕ) (small : length b < 2 ^ 63) where
  pub entered :
      (f p : ℕ) {bd : ℕ} {ys : List ℕ} (k : Kind)
      → drop p b ≡ bd ∷ ys
      → kind bd ≡ k
      → decode_r calloc b (suc f) true (at p)
        ≡ dispatch calloc b
            (decode_items calloc b f)
            (decode_fields calloc b f)
            true
            bd
            (at (p + 1))
            k
  unfolding decode_r
  entered f p k e h = visit-dispatch calloc b small _ _ p e ∙ rw h

  pub int_done :
      (make : ℕ → Value) (desc n p : ℕ) (rest : List ℕ)
      → desc % 4 ≡ 0
      → n < 2 ^ 64
      → drop p b ≡ int_wire desc n ++ rest
      → read_int calloc b make true (desc + size_class n) (at (p + 1))
        ≡ ok (make (seen_int n), at (p + length (int_wire desc n)))
  int_done make desc n p rest h lt e =
      let next : drop (p + 1) b ≡ digits_of (2 ^ size_class n) n ++ rest =
        unfold int_wire in behind b p ((desc + size_class n) ∷ []) e in
      let end : p + 1 + 2 ^ size_class n ≡ p + length (int_wire desc n) =
        unfold int_wire in omega (arith, length-digits_of (2 ^ size_class n) n) in
      read_int-digits calloc b small make desc n (p + 1) rest h lt next
      ∙ ap (λ q. ok (make (seen_int n), at q)) end

  pub total :
      (p : ℕ) (xs ys : List ℕ)
      → drop p b ≡ xs ++ ys
      → 0 < length xs
      → p + length xs + length ys ≡ length b
  total p xs ys e pos = omega (arith, length-drop p b, ap (length {A = ℕ}) e, length-append xs ys)

  pub float32_done :
      (w p : ℕ) (rest : List ℕ)
      → drop p b ≡ 4 ∷ (take 4 (host_bytes w) ++ rest)
      → read_float32 calloc b true (at (p + 1))
        ≡ ok (float32 (float_of_uint (digits_value 0 (take 4 (host_bytes w)))), at (p + 5))
  unfolding read_float32
  float32_done w p rest e =
      let here = within b p e in
      let next : drop (p + 1) b ≡ take 4 (host_bytes w) ++ rest = behind b p (4 ∷ []) e in
      let passes =
        chk_passes calloc b small 4 (p + 1)
          (omega (arith, here, length-append (take 4 (host_bytes w)) rest, length-host_bytes w)) in
      let moved : u64 (p + 1 + 4) ≡ p + 5 = omega (arith, here) in
      rw (passes, next, read_host32 w rest, moved)

  pub float64_done :
      (w p : ℕ) (rest : List ℕ)
      → drop p b ≡ 5 ∷ (host_bytes w ++ rest)
      → read_float64 calloc b true (at (p + 1))
        ≡ ok (float64 (double_of_uint (digits_value 0 (host_bytes w))), at (p + 9))
  unfolding read_float64
  float64_done w p rest e =
      let here = within b p e in
      let next : drop (p + 1) b ≡ host_bytes w ++ rest = behind b p (5 ∷ []) e in
      let passes =
        chk_passes calloc b small 8 (p + 1)
          (omega (arith, here, length-append (host_bytes w) rest, length-host_bytes w)) in
      let moved : u64 (p + 1 + 8) ≡ p + 9 = omega (arith, here) in
      rw (passes, next, read_host64 w rest, moved)

  -- What a descriptor with a short length leads to: the bytes behind it, in the input.
  blob_done :
      (make : List ℕ → ℕ → Value) (desc len p : ℕ) (mem rest : List ℕ)
      → len ≤ length mem
      → drop p b ≡ len_wire desc len ++ (take len mem ++ rest)
      → (hd : Header calloc b small desc len p (take len mem ++ rest))
      → let q = p + length (len_wire desc len) in
        (read_blob calloc b make true hd.bd (at (p + 1)) ≡ ok (make (drop q b) len, at (q + len)))
        × (take len (drop q b) ≡ take len mem)
  blob_done make desc len p mem rest enough e hd = (
    unfold read_blob in
        rw (hd.read, chk_passes calloc b small len (p + length (len_wire desc len)) inside, moved),
    rw hd.rest_eq (take_front len mem rest enough),
  )
    where
      size : length (take len mem) ≡ len
      size = length-take len mem enough

      inside : p + length (len_wire desc len) + len ≤ length b
      inside = omega (
        arith,
        total p (hd.bd ∷ []) hd.after hd.at_bd (omega arith),
        ap (length {A = ℕ}) (sym e ∙ hd.at_bd),
        length-append (len_wire desc len) (take len mem ++ rest),
        length-append (take len mem) rest,
        size,
      )

      moved : u64 (p + length (len_wire desc len) + len) ≡ p + length (len_wire desc len) + len
      moved = omega (arith, inside)

  pub blob_Decodes :
      (make : List ℕ → ℕ → Value) (desc len f p : ℕ) (mem rest : List ℕ) (k : Kind)
      → desc % 8 ≡ 0
      → kind desc ≡ k
      → kind (desc + 1) ≡ k
      → ((bd : ℕ) (s : Cursor)
          → dispatch calloc b (decode_items calloc b f) (decode_fields calloc b f) true bd s k
            ≡ read_blob calloc b make true bd s)
      → (len ≤ length mem) × (len < 2 ^ 8)
      → drop p b ≡ (len_wire desc len ++ take len mem) ++ rest
      → let q = p + length (len_wire desc len) in
        (decode_r calloc b (suc f) true (at p)
          ≡ ok (make (drop q b) len, at (p + length (len_wire desc len ++ take len mem))))
        × (take len (drop q b) ≡ take len mem)
  blob_Decodes make desc len f p mem rest k h8 k0 k1 case h e =
      let e' : drop p b ≡ len_wire desc len ++ (take len mem ++ rest) =
        e ∙ append_assoc (len_wire desc len) (take len mem) rest in
      let hd = Header-len_wire calloc b small desc len p (take len mem ++ rest) h8 h.1 e' in
      let (run, same) = blob_done make desc len p mem rest h.0 e' hd in
      let end : p + length (len_wire desc len) + len
          ≡ p + length (len_wire desc len ++ take len mem) =
        omega (arith, length-append (len_wire desc len) (take len mem), length-take len mem h.0) in
      (
        entered f p k hd.at_bd (kind_near hd.bd desc k k0 k1 hd.near)
            ∙ case hd.bd (at (p + 1))
            ∙ run
            ∙ ap (λ x. ok (make (drop (p + length (len_wire desc len)) b) len, at x)) end,
        same,
      )
