-- ===== src/Value/Print/Texts.antt =====
-- The texts of values that are printed whole, and `snprintf` of such a text.
use cc_common.Base.{
  ℕ, zero, suc, ◌+◌, ◌-◌, ◌/◌, ◌%◌, ◌^◌, ◌≤◌, ◌<◌, ◌≡◌, refl, sym, ap, arith, u64, Bool, true,
  false, List, [], ◌∷◌, ◌++◌, length, take, ok, append_assoc, length-append,
}
use mathlib.Core.Path.{subst}
use cc_common.Slice.{Slice}
use cc_common.Slice.Expand.{Holds}
use cc_common.Slice.Append.{store-Holds, shorten}
use cc_common.Value.{
  Value, unset, nil, bool, pos_int, neg_int, float32, float64, str, bytes, arr, map, ext, Items,
  no_items, item, Fields, no_fields, field,
}
use cc_common.Value.Print.{digits, digit, decimal, bool_text, type_text, snprintf}

module _ (text_f text_f32 : ℕ → List ℕ) where
  abbrev pub comma_text : Bool → List ℕ
  comma_text true = []
  comma_text false = 44 ∷ 32 ∷ []

  -- The text of a value without bytes and extensions.
  abbrev mutual
    pub text : Value → List ℕ
    text unset = type_text 0
    text (nil b) = type_text 1 ++ bool_text b
    text (bool b) = type_text 2 ++ bool_text b
    text (pos_int n) = type_text 3 ++ decimal n
    text (neg_int n) = type_text 4 ++ (45 ∷ decimal n)
    text (float32 w) = type_text 5 ++ text_f32 w
    text (float64 w) = type_text 6 ++ text_f w
    text (str mem len) = type_text 7 ++ take len mem
    text (bytes mem len) = []
    text (arr xs) = ((type_text 9 ++ 91 ∷ 32 ∷ []) ++ text_items true xs) ++ 32 ∷ 93 ∷ []
    text (map fs) = ((type_text 10 ++ 123 ∷ 32 ∷ []) ++ text_fields true fs) ++ 32 ∷ 125 ∷ []
    text (ext tag mem len) = []

    pub text_items : Bool → Items → List ℕ
    text_items first no_items = []
    text_items first (item x xs) = (comma_text first ++ text x) ++ text_items false xs

    pub text_fields : Bool → Fields → List ℕ
    text_fields first no_fields = []
    text_fields first (field k v fs) =
        (((comma_text first ++ text k) ++ 32 ∷ 61 ∷ 32 ∷ []) ++ text v) ++ text_fields false fs

  -- No bytes and no extension, strings that are there, and numbers whose text is short.
  abbrev mutual
    pub IsShortText : Value → Type 0
    IsShortText unset = Unit
    IsShortText (nil b) = Unit
    IsShortText (bool b) = Unit
    IsShortText (pos_int n) = n < 10 ^ 15
    IsShortText (neg_int n) = n < 10 ^ 14
    IsShortText (float32 w) = length (text_f32 w) < 16
    IsShortText (float64 w) = length (text_f w) < 16
    IsShortText (str mem len) = len ≤ length mem
    IsShortText (bytes mem len) = ⊥
    IsShortText (arr xs) = AreShortText xs
    IsShortText (map fs) = AreShortTextFields fs
    IsShortText (ext tag mem len) = ⊥

    pub AreShortText : Items → Type 0
    AreShortText no_items = Unit
    AreShortText (item x xs) = IsShortText x × AreShortText xs

    pub AreShortTextFields : Fields → Type 0
    AreShortTextFields no_fields = Unit
    AreShortTextFields (field k v fs) = IsShortText k × IsShortText v × AreShortTextFields fs

-- A number below a power of the base has as many digits at most.
pub length-digits : (f k n : ℕ) → n < 10 ^ suc k → length (digits f 10 n) ≤ suc k
unfolding digits
length-digits zero k n lt = omega arith
length-digits (suc f) zero n lt = ground arith
length-digits (suc f) (suc k) n lt =
    let fewer : n / 10 < 10 ^ suc k = omega arith in
    ground (
      arith,
      length-digits f k (n / 10) fewer,
      length-append (digits f 10 (n / 10)) (digit (n % 10) ∷ []),
    )

pub take_more : (n : ℕ) (xs : List ℕ) → length xs ≤ n → take n xs ≡ xs
take_more zero [] h = refl
take_more (suc n) [] h = refl
take_more zero (x ∷ xs) h = absurd (omega arith)
take_more (suc n) (x ∷ xs) h = ap (◌∷◌ x) (take_more n xs (omega arith))

-- A text that fits is written with a closing 0, which the length leaves out.
pub snprintf-Holds :
    (size : ℕ) (ys : List ℕ) (s : Slice) (xs : List ℕ)
    → Holds s xs
    → length ys < size
    → length xs + size ≤ s.cap
    → length xs + size < 2 ^ 64
    → (s' : Slice) × (snprintf size ys s ≡ ok s') × Holds s' (xs ++ ys)
unfolding snprintf
snprintf-Holds size ys s xs h short room small =
    let whole : take (size - 1) ys ≡ ys = take_more (size - 1) ys (omega arith) in
    let size_eq : length (ys ++ 0 ∷ []) ≡ length ys + 1 = length-append ys (0 ∷ []) in
    let (mem, stored, held) =
      store-Holds s xs (ys ++ 0 ∷ []) (u64 (s.len + length (ys ++ 0 ∷ []))) h
        (omega (arith, size_eq)) (omega (arith, size_eq)) refl in
    let (held', closed) =
      shorten (record s { mem = mem; len = u64 (s.len + length (ys ++ 0 ∷ [])) }) (xs ++ ys)
        (u64 (s.len + length ys))
        (subst (Holds (record s { mem = mem; len = u64 (s.len + length (ys ++ 0 ∷ [])) }))
          (sym (append_assoc xs ys (0 ∷ []))) held)
        (omega (arith, h.len_eq, length-append xs ys)) in
    (record s { mem = mem; len = u64 (s.len + length ys) }, rw (whole, stored), held')

pub type_short : (ty : ℕ) → ty < 100 → length (type_text ty) < 4
type_short ty lt = omega (arith, length-digits 20 1 ty lt, length-append (decimal ty) (58 ∷ []))
