-- ===== src/Simple/Decode/Reads.antt =====
-- What the decoder's reads return where the bytes at the cursor are known.
use native.Mathlib.Nat.{add-zero}
use cc_common.Base.{
  ℕ, zero, suc, ◌+◌, ◌*◌, ◌/◌, ◌%◌, ◌^◌, ◌≤◌, ◌<◌, ◌≡◌, refl, sym, ap, ◌∙◌, arith, u64,
}
use cc_common.Base.{Bool, true, false, ◌==◌, List, [], ◌∷◌, ◌++◌, length, drop}
use cc_common.Base.{
  length-drop, drop-drop, get_elem?-drop, drop-append, none, ok, gt→leb, ge→ltb, lt→ltb, ltb, ◌⊎◌,
  inl, inr,
}
use cc_common.Value.{Value, Items, Fields}
use cc_common.Value.Cursor.{Cursor, chk, chk2, sign_extend}
use cc_common.Simple.Encode.Wire.{
  digits_of, size_class, IntForm, one, two, four, eight, class_of, IntForm-cases,
  size_class-class_of, int_wire, len_wire,
}
use cc_common.Simple.Decode.Seen.{seen_int}
use cc_common.Simple.Decode.{
  Step, kind, read_char, readn, decode_len, read_int, int_width, visit, dispatch,
}

-- A cursor with no error.
abbrev pub at : ℕ → Cursor
at p = record { pos = p; err = none }

-- The bytes from `p` on are known.
pub within :
    (b : List ℕ) (p : ℕ) {y : ℕ} {ys : List ℕ} → drop p b ≡ y ∷ ys → p + suc (length ys) ≡ length b
within b p e = omega (arith, length-drop p b, ap (length {A = ℕ}) e)

pub behind :
    (b : List ℕ) (p : ℕ) (xs : List ℕ) {ys : List ℕ}
    → drop p b ≡ xs ++ ys
    → drop (p + length xs) b ≡ ys
behind b p xs {ys} e = sym (drop-drop (length xs) p b) ∙ ap (drop (length xs)) e ∙ skip
  where
    skip : drop (length xs) (xs ++ ys) ≡ ys
    skip = ap (λ k. drop k (xs ++ ys)) (sym (add-zero (length xs))) ∙ drop-append 0 xs ys

int_width-class :
    (desc n : ℕ) (f : IntForm n)
    → desc % 4 ≡ 0
    → int_width ((desc + size_class n) % 4) ≡ 2 ^ class_of f
unfolding int_width
int_width-class desc n (one a) h =
    let e : (desc + size_class n) % 4 ≡ 0 = omega (arith, size_class-class_of n (one a)) in rw e
int_width-class desc n (two a c) h =
    let e : (desc + size_class n) % 4 ≡ 1 = omega (arith, size_class-class_of n (two a c)) in rw e
int_width-class desc n (four a c) h =
    let e : (desc + size_class n) % 4 ≡ 2 = omega (arith, size_class-class_of n (four a c)) in rw e
int_width-class desc n (eight a c) h =
    let e : (desc + size_class n) % 4 ≡ 3 = omega (arith, size_class-class_of n (eight a c)) in rw e

len_wire_short :
    (desc len : ℕ) → suc len < 2 ^ 8 → len_wire desc (suc len) ≡ (desc + 1) ∷ suc len ∷ []
unfolding len_wire int_wire digits_of
len_wire_short desc len lt =
    let e : size_class (suc len) ≡ 0 = size_class-class_of (suc len) (one lt) in
    let digit : suc len / 1 % 256 ≡ suc len = omega arith in
    let sum : desc + 1 + 0 ≡ desc + 1 = omega arith in
    let more : (suc len == 0) ≡ false = ground arith in rw (e, digit, sum, more)

module _ (calloc : ℕ → ℕ → Bool) (b : List ℕ) (small : length b < 2 ^ 63) where
  pub chk_passes : (n p : ℕ) → p + n ≤ length b → chk b n (at p) ≡ (at p, false)
  unfolding chk
  chk_passes n p h =
      let e : ltb (length b) (u64 (n + p)) ≡ false =
        ge→ltb (length b) (u64 (n + p)) (omega arith) in
      rw e

  pub chk2_passes : (p : ℕ) → p < length b → chk2 b (at p) ≡ (at p, false)
  unfolding chk2
  chk2_passes p h = rw (gt→leb (length b) p h)

  -- The descriptor at the cursor selects the case.
  pub visit-dispatch :
      (items : Bool → ℕ → Cursor → Step Items) (fields : Bool → ℕ → Cursor → Step Fields) (p : ℕ)
      {bd : ℕ} {ys : List ℕ}
      → drop p b ≡ bd ∷ ys
      → visit calloc b items fields true (at p)
        ≡ dispatch calloc b items fields true bd (at (p + 1)) (kind bd)
  unfolding visit
  visit-dispatch items fields p {bd} e =
      let here = within b p e in
      let moved : u64 (p + 1) ≡ p + 1 = omega (arith, here) in
      rw (
        chk2_passes p (omega (arith, here)),
        chk_passes 1 p (omega (arith, here)),
        get_elem?-drop p b e,
        moved,
      )

  -- A read of `n` bytes gives the first of them, sign extended from two bytes on.
  pub readn_one :
      (p : ℕ) {c : ℕ} {ys : List ℕ}
      → drop p b ≡ c ∷ ys
      → readn calloc b 1 (at p) ≡ ok (c, at (p + 1))
  unfolding readn read_char
  readn_one p e =
      let here = within b p e in
      let moved : u64 (p + 1) ≡ p + 1 = omega (arith, here) in
      rw (chk_passes 1 p (omega (arith, here)), get_elem?-drop p b e, moved)

  -- The widths of more than one byte.
  pub data Wide : ℕ → Type 0 where
    wide2 : Wide 2
    wide4 : Wide 4
    wide8 : Wide 8

  pub readn-Wide :
      (n p : ℕ) {c : ℕ} {ys : List ℕ}
      → Wide n
      → drop p b ≡ c ∷ ys
      → n ≤ suc (length ys)
      → readn calloc b n (at p) ≡ ok (sign_extend (n * 8) c, at (p + n))
  unfolding readn read_char
  readn-Wide n p wide2 e h =
      let here = within b p e in
      let moved : u64 (p + 2) ≡ p + 2 = omega (arith, here) in
      rw (chk_passes 2 p (omega (arith, here)), get_elem?-drop p b e, moved)
  readn-Wide n p wide4 e h =
      let here = within b p e in
      let moved : u64 (p + 4) ≡ p + 4 = omega (arith, here) in
      rw (chk_passes 4 p (omega (arith, here)), get_elem?-drop p b e, moved)
  readn-Wide n p wide8 e h =
      let here = within b p e in
      let moved : u64 (p + 8) ≡ p + 8 = omega (arith, here) in
      rw (chk_passes 8 p (omega (arith, here)), get_elem?-drop p b e, moved)

  -- The bytes of a number give what `seen_int` says.
  pub readn-digits :
      (n p : ℕ) (f : IntForm n) (ys : List ℕ)
      → drop p b ≡ digits_of (2 ^ class_of f) n ++ ys
      → readn calloc b (2 ^ class_of f) (at p) ≡ ok (seen_int n, at (p + 2 ^ class_of f))
  unfolding digits_of
  readn-digits n p (one h) ys e =
      let digit : n / 256 ^ 0 % 256 ≡ n = omega arith in
      let plain : seen_int n ≡ n = unfold seen_int in rw (lt→ltb n (2 ^ 8) h) in
      rw plain (readn_one p {ys = ys} (rw digit at e))
  readn-digits n p (two l h) ys e =
      readn-Wide 2 p wide2 e (omega arith) ∙ ap (λ c. ok (c, at (p + 2))) value
    where
      first : n / 256 ^ 1 % 256 ≡ n / 2 ^ 8
      first = omega arith

      value : sign_extend 16 (n / 256 ^ 1 % 256) ≡ seen_int n
      value = unfold seen_int in rw (first, ge→ltb n (2 ^ 8) l, lt→ltb n (2 ^ 16) h)
  readn-digits n p (four l h) ys e =
      readn-Wide 4 p wide4 e (omega arith) ∙ ap (λ c. ok (c, at (p + 4))) value
    where
      first : n / 256 ^ 3 % 256 ≡ n / 2 ^ 24
      first = omega arith

      value : sign_extend 32 (n / 256 ^ 3 % 256) ≡ seen_int n
      value =
          unfold seen_int in
          rw (first, ge→ltb n (2 ^ 8) (omega arith), ge→ltb n (2 ^ 16) l, lt→ltb n (2 ^ 32) h)
  readn-digits n p (eight l h) ys e =
      readn-Wide 8 p wide8 e (omega arith) ∙ ap (λ c. ok (c, at (p + 8))) value
    where
      first : n / 256 ^ 7 % 256 ≡ n / 2 ^ 56
      first = omega arith

      value : sign_extend 64 (n / 256 ^ 7 % 256) ≡ seen_int n
      value =
          unfold seen_int in
          rw (
            first,
            ge→ltb n (2 ^ 8) (omega arith),
            ge→ltb n (2 ^ 16) (omega arith),
            ge→ltb n (2 ^ 32) l,
          )

  -- A descriptor of a number, and the digits behind it.
  pub read_int-digits :
      (make : ℕ → Value) (desc n p : ℕ) (ys : List ℕ)
      → desc % 4 ≡ 0
      → n < 2 ^ 64
      → drop p b ≡ digits_of (2 ^ size_class n) n ++ ys
      → read_int calloc b make true (desc + size_class n) (at p)
        ≡ ok (make (seen_int n), at (p + 2 ^ size_class n))
  unfolding read_int
  read_int-digits make desc n p ys h small' e =
      let f = IntForm-cases n small' in
      rw (
        int_width-class desc n f h,
        readn-digits n p f ys (rw (size_class-class_of n f) at e),
        size_class-class_of n f,
      )

  -- A descriptor with a length of one byte, or none: the descriptor, and what follows it.
  pub record Header (desc len p : ℕ) (rest : List ℕ) : Type 0 where
    pub bd : ℕ
    pub after : List ℕ
    pub at_bd : drop p b ≡ bd ∷ after
    pub near : (bd ≡ desc) ⊎ (bd ≡ desc + 1)
    pub read : decode_len calloc b bd (at (p + 1)) ≡ ok (len, at (p + length (len_wire desc len)))
    pub rest_eq : drop (p + length (len_wire desc len)) b ≡ rest

  pub Header-len_wire :
      (desc len p : ℕ) (rest : List ℕ)
      → desc % 8 ≡ 0
      → len < 2 ^ 8
      → drop p b ≡ len_wire desc len ++ rest
      → Header desc len p rest
  Header-len_wire desc zero p rest h lt e = record {
    bd = desc;
    after = rest;
    at_bd = e ∙ unfold len_wire in refl;
    near = inl refl;
    read = unfold decode_len len_wire in rw h;
    rest_eq = behind b p (len_wire desc 0) e;
  }
  Header-len_wire desc (suc len) p rest h lt e =
      let form : len_wire desc (suc len) ≡ (desc + 1) ∷ suc len ∷ [] = len_wire_short desc len lt in
      let there : drop p b ≡ (desc + 1) ∷ suc len ∷ rest = rw form at e in
      let tag : (desc + 1) % 8 ≡ 1 = omega arith in
      let next : drop (p + 1) b ≡ suc len ∷ rest = behind b p ((desc + 1) ∷ []) there in
      let sum : p + 1 + 1 ≡ p + 2 = omega arith in
      record {
        bd = desc + 1;
        after = suc len ∷ rest;
        at_bd = there;
        near = inr refl;
        read = unfold decode_len in rw (tag, form, readn_one (p + 1) next, sum);
        rest_eq = behind b p (len_wire desc (suc len)) e;
      }
