-- ===== src/Value/Print/Bytes.antt =====
-- Printing bytes: the room that is made is two characters for each, but "%hhd" may take four.
use cc_common.Base.{
  ℕ, zero, suc, ◌+◌, ◌-◌, ◌*◌, ◌/◌, ◌%◌, ◌^◌, ◌≤◌, ◌<◌, ◌≡◌, refl, sym, ap, ◌∙◌, arith, u64, Bool,
  true, false, leb, if◌then◌else◌, List, [], ◌∷◌, ◌++◌, length, take, drop, Option, some, none,
  no_fuel, Outcome, ok, fault, abort, ◌>>=◌, ◌⊎◌, length-append, length-take, length-drop, All,
  Bool-cases, inl, inr, leb→le,
}
use cc_common.Slice.{Slice, zero_slice, store, new_cap, expand, regrown}
use cc_common.Slice.Expand.{IsRealloc, Holds-zero, Fits, expand-Expanded}
use cc_common.Value.{bytes}
use cc_common.Value.Print.{
  digits, digit, signed_text, type_text, snprintf, print_each, put, print_bytes, print_r,
}
use cc_common.Value.Print.Texts.{snprintf-Holds, type_short}

digits_three : (f m : ℕ) → 100 ≤ m → m < 1000 → length (digits (suc (suc (suc f))) 10 m) ≡ 3
unfolding digits
digits_three f m lo hi = ground (
  arith,
  length-append (digits (suc (suc f)) 10 (m / 10)) (digit (m % 10) ∷ []),
  length-append (digits (suc f) 10 (m / 10 / 10)) (digit (m / 10 % 10) ∷ []),
)

-- Bytes that "%hhd" prints with a sign and three digits.
abbrev pub IsFour : ℕ → Type 0
IsFour b = (128 ≤ b) × (b ≤ 156)

length-signed_text : (b : ℕ) → IsFour b → length (signed_text b) ≡ 4
length-signed_text b h = ground (arith, digits_three 17 (256 - b))

-- The block after a store in its bounds.
stored_size :
    (off : ℕ) (mem xs : List ℕ)
    → off + length xs ≤ length mem
    → length (take off mem ++ (xs ++ drop (off + length xs) mem)) ≡ length mem
stored_size off mem xs fits = omega (
  arith,
  length-append (take off mem) (xs ++ drop (off + length xs) mem),
  length-append xs (drop (off + length xs) mem),
  length-take off mem (omega arith),
  length-drop (off + length xs) mem,
)

-- A text of four characters is cut to two, and counted whole.
snprintf_four :
    (ys : List ℕ) (s : Slice)
    → length ys ≡ 4
    → s.len + 4 < 2 ^ 64
    → (snprintf 3 ys s ≡ fault)
      ⊎ ((s.len + 3 ≤ length s.mem)
          × (s' : Slice) × (snprintf 3 ys s ≡ ok s')
          × (s'.len ≡ s.len + 4)
          × (length s'.mem ≡ length s.mem))
unfolding snprintf store
snprintf_four ys s four small =
    let cut : length (take 2 ys ++ 0 ∷ []) ≡ 3 =
      omega (arith, length-append (take 2 ys) (0 ∷ []), length-take 2 ys (omega arith)) in
    elim (Bool-cases (leb (s.len + length (take 2 ys ++ 0 ∷ [])) (length s.mem))) [
      | inl fits ↦
          let room = leb→le _ _ fits in
          inr (
            omega (arith, cut, room),
            record s {
              mem =
                  take s.len s.mem
                  ++ ((take 2 ys ++ 0 ∷ []) ++ drop (s.len + length (take 2 ys ++ 0 ∷ [])) s.mem);
              len = u64 (s.len + length ys);
            },
            rw fits,
            omega (arith, four, small),
            stored_size s.len s.mem (take 2 ys ++ 0 ∷ []) room,
          )
      | inr past ↦ inl (rw past)
    ]

print_each-past :
    (n : ℕ) (mem : List ℕ) (s : Slice)
    → n ≤ length mem
    → All IsFour mem
    → 0 < n
    → s.len + 4 * n < 2 ^ 64
    → length s.mem < s.len + 4 * n - 1
    → print_each signed_text n mem s ≡ fault
unfolding print_each
print_each-past zero mem s enough four pos small over = absurd (omega arith)
print_each-past (suc n) [] s enough four pos small over = absurd (omega arith)
print_each-past (suc n) (b ∷ mem) s enough four pos small over =
    elim (snprintf_four (signed_text b) s (length-signed_text b four.0) (omega arith)) [
      | inl past ↦ rw past
      | inr (room, s', printed, moved, same_size) ↦ rw printed (
          print_each-past n mem s' (omega arith) four.1 (omega (arith, room, over))
            (omega (arith, moved)) (omega (arith, moved, same_size)))
    ]

module _ (realloc : List ℕ → ℕ → Option (List ℕ)) where
  regrown_cap :
      (s s' : Slice) (newlen : ℕ) (mem : Option (List ℕ))
      → regrown realloc s newlen mem ≡ ok s'
      → s'.cap ≡ newlen
  unfolding regrown
  regrown_cap s s' newlen none e = cc
  regrown_cap s s' newlen (some mem) e = sym (ap cap_of e)
    where
      cap_of : Outcome Slice → ℕ
      cap_of (ok x) = x.cap
      cap_of m = newlen

  expand_cap :
      (s s' : Slice) (n : ℕ)
      → expand realloc s n ≡ ok s'
      → (s'.cap ≡ s.cap) ⊎ (s'.cap ≡ new_cap s.cap (u64 (s.len + n)))
  unfolding expand
  expand_cap s s' n e =
      go (leb (u64 (s.len + n)) s.cap) (regrown_cap s s' asked (realloc s.mem asked)) e
    where
      asked : ℕ
      asked = new_cap s.cap (u64 (s.len + n))

      go :
          (b : Bool)
          → (regrown realloc s asked (realloc s.mem asked) ≡ ok s' → s'.cap ≡ asked)
          → (if b then ok s else regrown realloc s asked (realloc s.mem asked)) ≡ ok s'
          → (s'.cap ≡ s.cap) ⊎ (s'.cap ≡ asked)
      go true grown e = inl (cap_eq e)
        where
          cap_eq : ok s ≡ ok s' → s'.cap ≡ s.cap
          cap_eq h = cc
      go false grown e = inr (grown e)

snprintf_cap : (size : ℕ) (ys : List ℕ) (s s' : Slice) → snprintf size ys s ≡ ok s' → s'.cap ≡ s.cap
unfolding snprintf
snprintf_cap size ys s s' e = go (store s.mem s.len (take (size - 1) ys ++ 0 ∷ [])) e
  where
    go :
        (m : Outcome (List ℕ))
        → (m >>= (λ mem. ok (record s { mem = mem; len = u64 (s.len + length ys) }))) ≡ ok s'
        → s'.cap ≡ s.cap
    go (ok mem) e = cc
    go abort e = cc
    go fault e = cc
    go no_fuel e = cc

new_cap_le :
    (cap newlen : ℕ)
    → cap + cap / 4 + newlen + 64 < 2 ^ 64
    → cap + cap / 4 ≤ newlen
    → new_cap cap newlen < newlen + 64
unfolding new_cap
new_cap_le cap newlen small more = ground arith

module _ {realloc : List ℕ → ℕ → Option (List ℕ)} {limit : ℕ} (alloc : IsRealloc realloc limit)
    (text_f text_f32 : ℕ → List ℕ) where
  type_eight : length (type_text 8) ≡ 2
  unfolding digits
  type_eight = refl

  first_cap : new_cap 0 (u64 (0 + 4)) ≡ 64
  unfolding new_cap
  first_cap = refl

  -- Printing bytes into an empty slice: if there are 64 or more and "%hhd" takes four characters for
  -- each, some are written behind the block, even with enough memory.
  pub print_r-past :
      (mem : List ℕ) (n : ℕ)
      → 64 ≤ n
      → n ≤ length mem
      → All IsFour mem
      → Fits limit (4 * n)
      → print_r realloc text_f text_f32 (bytes mem n) zero_slice ≡ fault
  unfolding print_r print_bytes put
  print_r-past mem n many enough four fits =
      let (s1, e1, x1) = expand-Expanded alloc zero_slice [] 4 Holds-zero (omega arith) in
      let (s2, e2, h2) =
        snprintf-Holds 4 (type_text 8) s1 [] x1.held (type_short 8 (omega arith)) x1.room
          (omega arith) in
      let (s3, e3, x3) =
        expand-Expanded alloc s2 (type_text 8) (n * 2 + 8) h2
          (omega (arith, type_short 8 (omega arith))) in
      let (s4, e4, h4) =
        snprintf-Holds 3 (48 ∷ 120 ∷ []) s3 (type_text 8) x3.held (omega arith)
          (omega (arith, x3.room)) (omega (arith, type_short 8 (omega arith))) in
      let wrap : u64 (n * 2 + 8) ≡ n * 2 + 8 = omega arith in
      let len2 : s2.len ≡ 2 = h2.len_eq ∙ type_eight in
      let len4 : s4.len ≡ 4 =
        omega (arith, h4.len_eq, length-append (type_text 8) (48 ∷ 120 ∷ []), type_eight) in
      let cap2 : s2.cap ≤ 64 = ground (
        arith,
        expand_cap realloc zero_slice s1 4 e1,
        snprintf_cap 4 (type_text 8) s1 s2 e2,
        first_cap,
      ) in
      let newlen : u64 (s2.len + (n * 2 + 8)) ≡ n * 2 + 10 = omega (arith, len2) in
      let cap3 : s3.cap < n * 2 + 74 = ground (
        arith,
        expand_cap realloc s2 s3 (n * 2 + 8) e3,
        newlen,
        new_cap_le s2.cap (n * 2 + 10) (omega (arith, cap2)) (omega (arith, cap2)),
        cap2,
      ) in
      let cap4 : s4.cap ≡ s3.cap = snprintf_cap 3 (48 ∷ 120 ∷ []) s3 s4 e4 in
      rw (e1, e2, wrap, e3, e4)
        (print_each-past n mem s4 enough four (omega arith) (omega (arith, len4))
          (omega (arith, len4, cap4, cap3, h4.cap_eq)))
