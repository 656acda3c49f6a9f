-- ===== src/Simple/Hostile.antt =====
-- Inputs on which `codec_simple_decode` does not return: a length is sign extended from one byte, so
-- the sum in a bounds check wraps, and the error of a length that is cut off is not always looked at.
use cc_common.Base.{ℕ, zero, suc, ◌-◌, ◌^◌, ◌≤◌, ◌<◌, ◌≡◌, refl, ◌∙◌, arith, ge→ltb, ◌⊎◌, inl, inr}
use cc_common.Base.{Bool, true, false, List, [], ◌∷◌, length, drop, ok, fault, no_fuel}
use cc_common.Value.{str}
use cc_common.Value.Cursor.{chk, chk2}
use cc_common.Simple.Decode.{
  decode, decode_r, decode_items, decode_fields, kind, is_array, is_str, dispatch, read_array,
  read_blob, decode_len, readn, read_char, read_map, read_ext,
}
use cc_common.Simple.Decode.Reads.{at, readn_one, readn-Wide, wide8}
use cc_common.Simple.Decode.Parts.{entered}

-- An array of two entries, the first a string whose 8-byte length begins with 0xf5.
abbrev pub looping : List ℕ → List ℕ
looping tail = 233 ∷ 2 ∷ 220 ∷ 0xf5 ∷ tail

module _ (calloc : ℕ → ℕ → Bool) (tail : List ℕ) (long : 7 ≤ length tail)
    (small : length tail < 2 ^ 62) (granted : calloc 2 40 ≡ true) where
  abbrev input : List ℕ
  input = looping tail

  fits : length input < 2 ^ 63
  fits = omega arith

  -- The string moves the position back to the start of the array.
  string_back :
      (f : ℕ)
      → decode_r calloc input (suc f) true (at 2) ≡ ok (str (drop 11 input) (2 ^ 64 - 11), at 0)
  string_back f = entered calloc input fits f 2 is_str refl (unfold kind in refl) ∙ run
    where
      inside : chk input (2 ^ 64 - 11) (at 11) ≡ (at 11, false)
      inside = unfold chk in rw (ge→ltb (length input) 0 (omega arith))

      head : decode_len calloc input 220 (at 3) ≡ ok (2 ^ 64 - 11, at 11)
      head =
          unfold decode_len in readn-Wide calloc input fits 8 3 {ys = tail} wide8 refl (omega arith)

      run :
          dispatch calloc input
            (decode_items calloc input f)
            (decode_fields calloc input f)
            true
            220
            (at 3)
            is_str
          ≡ ok (str (drop 11 input) (2 ^ 64 - 11), at 0)
      run = unfold dispatch read_blob in rw (head, inside)

  array_next :
      (f : ℕ)
      → decode_items calloc input f true 2 (at 2) ≡ no_fuel
      → decode_r calloc input (suc f) true (at 0) ≡ no_fuel
  array_next f h =
      entered calloc input fits f 0 is_array refl (unfold kind in refl)
      ∙ unfold dispatch read_array decode_len in
        rw (readn_one calloc input fits 1 {ys = 220 ∷ 0xf5 ∷ tail} refl, granted, h)

  no_end : (f : ℕ) → decode_r calloc input f true (at 0) ≡ no_fuel
  unfolding decode_r
  no_end zero = refl
  no_end (suc zero) = array_next 0 refl
  no_end (suc (suc zero)) = array_next 1 refl
  no_end (suc (suc (suc f))) =
      let back = string_back f in array_next (suc (suc f)) (rw (back, no_end f))

-- On an array of two entries whose first is a string with an 8-byte length that begins with 0xf5,
-- the decoder calls itself at position 0 again: no depth of recursion is enough, whatever bytes
-- follow, if `calloc` grants the two entries.
pub decode-looping :
    (calloc : ℕ → ℕ → Bool) (tail : List ℕ) (fuel : ℕ)
    → 7 ≤ length tail
    → length tail < 2 ^ 62
    → calloc 2 40 ≡ true
    → decode calloc (looping tail) fuel ≡ no_fuel
unfolding decode
decode-looping calloc tail fuel long small granted = no_end calloc tail long small granted fuel

map_cut_at :
    (calloc : ℕ → ℕ → Bool) (x fuel : ℕ)
    → (x ≡ 1) ⊎ (x ≡ 2) ⊎ (x ≡ 3)
    → calloc (2 ^ 64 - 1) 80 ≡ false
    → decode calloc (242 ∷ x ∷ []) (suc (suc (suc fuel))) ≡ fault
unfolding decode chk chk2 kind dispatch read_map decode_len readn read_char
map_cut_at calloc x fuel (inl e) refused = rw (e, refused)
map_cut_at calloc x fuel (inr (inl e)) refused = rw (e, refused)
map_cut_at calloc x fuel (inr (inr e)) refused = rw (e, refused)

-- A map whose 2-byte length is cut off after a byte that is a descriptor of nil or of a boolean: the
-- decoder writes through the NULL that `calloc` returns for 2^64 - 1 entries.
pub decode-map_cut :
    (calloc : ℕ → ℕ → Bool) (x fuel : ℕ)
    → 1 ≤ x
    → x ≤ 3
    → calloc (2 ^ 64 - 1) 80 ≡ false
    → decode calloc (242 ∷ x ∷ []) (suc (suc (suc fuel))) ≡ fault
decode-map_cut calloc x fuel h h' refused = map_cut_at calloc x fuel (ground arith) refused

ext_cut_at :
    (calloc : ℕ → ℕ → Bool) (bd fuel : ℕ)
    → (bd ≡ 249) ⊎ (bd ≡ 250) ⊎ (bd ≡ 251) ⊎ (bd ≡ 252)
    → decode calloc (bd ∷ []) (suc fuel) ≡ fault
unfolding decode chk chk2 kind dispatch read_ext decode_len readn read_char
ext_cut_at calloc bd fuel (inl e) = rw e
ext_cut_at calloc bd fuel (inr (inl e)) = rw e
ext_cut_at calloc bd fuel (inr (inr (inl e))) = rw e
ext_cut_at calloc bd fuel (inr (inr (inr e))) = rw e

-- An extension whose length is cut off right behind the descriptor: the tag is read behind the input.
pub decode-ext_cut :
    (calloc : ℕ → ℕ → Bool) (bd fuel : ℕ)
    → 249 ≤ bd
    → bd ≤ 252
    → decode calloc (bd ∷ []) (suc fuel) ≡ fault
decode-ext_cut calloc bd fuel h h' = ext_cut_at calloc bd fuel (ground arith)
