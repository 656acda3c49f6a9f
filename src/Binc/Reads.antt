-- ===== src/Binc/Reads.antt =====
-- What the "binc" decoder's reads return where the bytes at the cursor are known.
use cc_common.Base.{
  refl, u8, take, gt→leb, ◌==◌, inl, inr, take-append, length-append, length-drop, ltb, ℕ, suc, ◌+◌,
  ◌-◌, ◌/◌, ◌%◌, ◌^◌, ◌≤◌, ◌<◌, ◌≡◌, sym, ap, ◌∙◌, arith, u64, Bool, true, false, leb, List, [],
  ◌∷◌, ◌++◌, length, drop, ok, le→leb, lt→ltb, ge→ltb, get_elem?-drop,
}
use native.Mathlib.Decide.{dec_lt}
use cc_common.BigEndian.{read_uint64, write_uint32}
use cc_common.BigEndian.Laws.{read_uint64_digits}
use cc_common.Simple.Decode.Reads.{at, within, behind, chk_passes}
use cc_common.Binc.Decode.{
  BincKind, binc_kind, zeros, copy_from, decode_uint64, decode_len, dispatch, visit, decode_r,
  decode_items, decode_fields,
}
use cc_common.Binc.Wire.{IsNumber, IsLength, four_wire, three_wire, wide_wire, pos_wire, short_wire}
use native.Mathlib.Nat.{add-zero}

-- The bytes of a number, behind as many zeros as make eight.
read_one : (n : ℕ) → n < 2 ^ 8 → read_uint64 (zeros 7 ++ n ∷ []) ≡ ok n
read_one n h =
    read_uint64_digits 0 0 0 0 0 0 0 n [] (omega arith) (omega arith) ∙ ap ok (omega arith)

abbrev three_bytes : ℕ → List ℕ
three_bytes n = u8 (n / 2 ^ 16) ∷ u8 (n / 2 ^ 8) ∷ u8 n ∷ []

read_three : (n : ℕ) → n < 2 ^ 24 → read_uint64 (zeros 5 ++ three_bytes n) ≡ ok n
read_three n h =
    read_uint64_digits 0 0 0 0 0 (u8 (n / 2 ^ 16)) (u8 (n / 2 ^ 8)) (u8 n) [] (omega arith)
      (omega arith)
    ∙ ap ok (omega arith)

read_four : (n : ℕ) → n < 2 ^ 32 → read_uint64 (zeros 4 ++ write_uint32 n) ≡ ok n
unfolding write_uint32
read_four n h =
    read_uint64_digits 0 0 0 0 (u8 (n / 2 ^ 24)) (u8 (n / 2 ^ 16)) (u8 (n / 2 ^ 8)) (u8 n) []
      (omega arith) (omega arith)
    ∙ ap ok (omega arith)

not_zero : (n : ℕ) → 16 < n → (n == 0) ≡ false
not_zero n h = ground arith

few_bytes : (low : ℕ) → low ≤ 7 → ltb 7 low ≡ false
few_bytes low h = ge→ltb 7 low (omega arith)

module _ (calloc : ℕ → ℕ → Bool) (b : List ℕ) (small : length b < 2 ^ 63) where
  -- The descriptor at the cursor selects the case.
  pub entered :
      (f p : ℕ) {bd : ℕ} {ys : List ℕ} (k : BincKind)
      → drop p b ≡ bd ∷ ys
      → binc_kind (bd / 16) ≡ k
      → decode_r calloc b (suc f) true (at p)
        ≡ dispatch calloc b
            (decode_items calloc b f)
            (decode_fields calloc b f)
            true
            (bd % 16)
            (at (p + 1))
            k
  unfolding decode_r visit
  entered f p k e h =
      let here = within b p e in
      let moved : u64 (p + 1) ≡ p + 1 = omega (arith, here) in
      rw (chk_passes calloc b small 1 p (omega (arith, here)), get_elem?-drop p b e, moved, h)

  pub bytes_read :
      (low n p : ℕ) (cs ys : List ℕ)
      → drop p b ≡ cs ++ ys
      → length cs ≡ low + 1
      → low ≤ 7
      → read_uint64 (zeros (7 - low) ++ cs) ≡ ok n
      → decode_uint64 calloc b low (at p) ≡ ok (n, at (p + (low + 1)))
  unfolding decode_uint64 copy_from
  bytes_read low n p cs ys e size few read =
      let left : length b - p ≡ length cs + length ys =
        sym (length-drop p b) ∙ ap (length {A = ℕ}) e ∙ length-append cs ys in
      let fits : p + (low + 1) ≤ length b = omega (arith, left, size) in
      let many : 8 - (7 - low) ≡ low + 1 = omega arith in
      let first : take (low + 1) (cs ++ ys) ≡ cs =
        ap (λ m. take m (cs ++ ys)) (sym size) ∙ take-append cs ys in
      let moved : u64 (p + (low + 1)) ≡ p + (low + 1) = omega (arith, fits) in
      rw (few_bytes low few, many, le→leb (p + (low + 1)) (length b) fits, e, first, read, moved)

  -- A number behind its descriptor `bd + low`.
  pub record NumberRead (bd n p : ℕ) (wire rest : List ℕ) : Type 0 where
    pub low : ℕ
    pub low-le : low ≤ 3
    pub ys : List ℕ
    pub at_desc : drop p b ≡ (bd + low) ∷ ys
    pub read : decode_uint64 calloc b low (at (p + 1)) ≡ ok (n, at (p + length wire))
    pub fits : p + length wire ≤ length b
    pub rest_eq : drop (p + length wire) b ≡ rest

  number_read :
      (bd low n p : ℕ) (cs rest : List ℕ)
      → length cs ≡ low + 1
      → low ≤ 3
      → read_uint64 (zeros (7 - low) ++ cs) ≡ ok n
      → drop p b ≡ ((bd + low) ∷ cs) ++ rest
      → NumberRead bd n p ((bd + low) ∷ cs) rest
  number_read bd low n p cs rest size few read e =
      let next : drop (p + 1) b ≡ cs ++ rest = behind b p ((bd + low) ∷ []) e in
      let left : length b - p ≡ suc (length (cs ++ rest)) =
        sym (length-drop p b) ∙ ap (length {A = ℕ}) e in
      let end : p + 1 + (low + 1) ≡ p + suc (length cs) = omega (arith, size) in
      record {
        low = low;
        low-le = few;
        ys = cs ++ rest;
        at_desc = e;
        read =
            bytes_read low n (p + 1) cs rest next size (omega (arith, few)) read
            ∙ ap (λ q. ok (n, at q)) end;
        fits = omega (arith, left, length-append cs rest);
        rest_eq = behind b p ((bd + low) ∷ cs) e;
      }

  pub wide_read :
      (bd n p : ℕ) (rest : List ℕ)
      → IsLength n
      → drop p b ≡ wide_wire bd n ++ rest
      → NumberRead bd n p (wide_wire bd n) rest
  unfolding wide_wire four_wire write_uint32
  wide_read bd n p rest (inl h) e =
      let form : wide_wire bd n ≡ (bd + 0) ∷ n ∷ [] =
        rw (le→leb n 255 (omega arith), add-zero bd) in
      rw form (
        number_read bd 0 n p (n ∷ []) rest refl (omega arith) (read_one n h)
          (e ∙ ap (λ xs. xs ++ rest) form))
  wide_read bd n p rest (inr h) e =
      let form : wide_wire bd n ≡ (bd + 3) ∷ write_uint32 n =
        rw (gt→leb n 255 (omega (arith, h.0))) in
      rw form (
        number_read bd 3 n p (write_uint32 n) rest refl (omega arith)
          (read_four n (omega (arith, h.1))) (e ∙ ap (λ xs. xs ++ rest) form))

  -- A positive number that is not in its descriptor.
  pub pos_read :
      (n p : ℕ) (rest : List ℕ)
      → 16 < n
      → IsNumber n
      → drop p b ≡ pos_wire n ++ rest
      → NumberRead 16 n p (pos_wire n) rest
  unfolding pos_wire three_wire four_wire write_uint32
  pos_read n p rest pos (inl h) e =
      let form : pos_wire n ≡ 16 ∷ n ∷ [] =
        rw (not_zero n pos, gt→leb n 16 pos, le→leb n 255 (omega arith)) in
      rw form (
        number_read 16 0 n p (n ∷ []) rest refl (omega arith) (read_one n h)
          (e ∙ ap (λ xs. xs ++ rest) form))
  pos_read n p rest pos (inr h) e =
      let high : leb n 255 ≡ false = gt→leb n 255 (omega (arith, h.0)) in
      elim (dec_lt n 0x80_0000) [
        | yes few ↦
            let form : pos_wire n ≡ 18 ∷ three_bytes n =
              rw (not_zero n pos, gt→leb n 16 pos, high, lt→ltb n 0x80_0000 few) in
            rw form (
              number_read 16 2 n p (three_bytes n) rest refl (omega arith)
                (read_three n (omega arith)) (e ∙ ap (λ xs. xs ++ rest) form))
        | no many ↦
            let form : pos_wire n ≡ 19 ∷ write_uint32 n =
              rw (not_zero n pos, gt→leb n 16 pos, high, ge→ltb n 0x80_0000 (omega arith)) in
            rw form (
              number_read 16 3 n p (write_uint32 n) rest refl (omega arith) (read_four n h.1)
                (e ∙ ap (λ xs. xs ++ rest) form))
      ]

  -- A length, behind its descriptor `bd + low`.
  pub record ShortRead (bd len p : ℕ) (rest : List ℕ) : Type 0 where
    pub low : ℕ
    pub low-lt : low < 16
    pub ys : List ℕ
    pub at_desc : drop p b ≡ (bd + low) ∷ ys
    pub read : decode_len calloc b low (at (p + 1)) ≡ ok (len, at (p + length (short_wire bd len)))
    pub fits : p + length (short_wire bd len) ≤ length b
    pub rest_eq : drop (p + length (short_wire bd len)) b ≡ rest

  pub short_read :
      (bd len p : ℕ) (rest : List ℕ)
      → IsLength len
      → drop p b ≡ short_wire bd len ++ rest
      → ShortRead bd len p rest
  unfolding short_wire decode_len
  short_read bd len p rest h e = elim (dec_lt len 12) [
    | yes few ↦
        let form : short_wire bd len ≡ (bd + (len + 4)) ∷ [] = rw (lt→ltb len 12 few) in
        let e' : drop p b ≡ (bd + (len + 4)) ∷ rest = e ∙ ap (λ xs. xs ++ rest) form in
        let plain : leb (len + 4) 3 ≡ false = ground arith in
        let back : len + 4 - 4 ≡ len = omega arith in
        record {
          low = len + 4;
          low-lt = omega arith;
          ys = rest;
          at_desc = e';
          read = rw (form, plain, back);
          fits = rw form (omega (arith, within b p e'));
          rest_eq = rw form (behind b p ((bd + (len + 4)) ∷ []) e');
        }
    | no many ↦
        let form : short_wire bd len ≡ wide_wire bd len = rw (ge→ltb len 12 (omega arith)) in
        let r = wide_read bd len p rest h (e ∙ ap (λ xs. xs ++ rest) form) in
        record {
          low = r.low;
          low-lt = omega (arith, r.low-le);
          ys = r.ys;
          at_desc = r.at_desc;
          read = rw (form, le→leb r.low 3 r.low-le) r.read;
          fits = rw form r.fits;
          rest_eq = rw form r.rest_eq;
        }
  ]
