-- ===== src/Value/Print/Laws.antt =====
-- The text of a value, and that `codec_value_print` appends it.
use cc_common.Base.{
  ℕ, ◌+◌, ◌-◌, ◌^◌, ◌≤◌, ◌<◌, ◌≡◌, refl, arith, u64, Bool, true, false, List, [], ◌∷◌, ◌++◌, length,
  take, Option, Outcome, ok, ◌>>=◌, append_assoc, append-nil, length-append, length-take,
}
use cc_common.Slice.{Slice, append}
use cc_common.Slice.Expand.{IsRealloc, Holds, Fits, expand-Expanded}
use cc_common.Slice.Append.{append_lem, shorten, IsClosed}
use cc_common.Value.{
  Value, unset, nil, bool, pos_int, neg_int, float32, float64, str, bytes, arr, map, ext, Items,
  no_items, item, Fields, no_fields, field,
}
use cc_common.Value.Print.{
  decimal, bool_text, type_text, put, comma, print_r, print_items, print_fields, print,
}
use cc_common.Value.Print.Texts.{
  length-digits, snprintf-Holds, type_short, comma_text, text, text_items, text_fields, IsShortText,
  AreShortText, AreShortTextFields,
}

module _ {realloc : List ℕ → ℕ → Option (List ℕ)} {limit : ℕ} (alloc : IsRealloc realloc limit)
    (text_f text_f32 : ℕ → List ℕ) where
  -- Wherever a slice holds `xs` and there is memory for a number more, the operation ends normally with
  -- one that holds `xs` and then `ys`.
  abbrev pub Prints : (Slice → Outcome Slice) → List ℕ → Type 0
  Prints m ys =
      (s : Slice) (xs : List ℕ)
      → Holds s xs
      → Fits limit (length xs + length ys + 16)
      → (s' : Slice) × (m s ≡ ok s') × Holds s' (xs ++ ys)

  put-Prints :
      (size : ℕ) (ys : List ℕ)
      → length ys < size
      → size ≤ 16
      → Prints (put realloc text_f text_f32 size ys) ys
  unfolding put
  put-Prints size ys short le s xs h fits =
      let (grown, e, ex) = expand-Expanded alloc s xs size h (omega arith) in
      let (s', printed, held) =
        snprintf-Holds size ys grown xs ex.held short ex.room (omega arith) in
      (s', rw (e, printed), held)

  skip-Prints : Prints ok []
  skip-Prints s xs h fits = (s, refl, rw append-nil h)

  >>=-Prints :
      (m k : Slice → Outcome Slice) (ys zs : List ℕ)
      → Prints m ys
      → Prints k zs
      → Prints (λ s. m s >>= k) (ys ++ zs)
  >>=-Prints m k ys zs first second s xs h fits =
      let size : length (ys ++ zs) ≡ length ys + length zs = length-append ys zs in
      let size' : length (xs ++ ys) ≡ length xs + length ys = length-append xs ys in
      let (s1, e1, h1) = first s xs h (omega (arith, size)) in
      let (s2, e2, h2) = second s1 (xs ++ ys) h1 (omega (arith, size, size')) in
      (s2, rw (e1, e2), rw (← append_assoc xs ys zs) h2)

  append-Prints :
      (mem : List ℕ) (len : ℕ)
      → len ≤ length mem
      → Prints (λ s. append realloc s mem len) (take len mem)
  append-Prints mem len enough s xs h fits =
      let size : length (take len mem) ≡ len = length-take len mem enough in
      let (s', e, held, closed) = append_lem alloc s xs mem len h enough (omega (arith, size)) in
      (s', e, held)

  -- The number behind its type.
  typed-Prints :
      (ty : ℕ) (ys : List ℕ)
      → length (type_text ty) < 4
      → length ys < 16
      → Prints
          (λ s.
            put realloc text_f text_f32 4 (type_text ty) s >>= put realloc text_f text_f32 16 ys)
          (type_text ty ++ ys)
  typed-Prints ty ys short short' =
      >>=-Prints (put realloc text_f text_f32 4 (type_text ty)) (put realloc text_f text_f32 16 ys)
        (type_text ty) ys (put-Prints 4 (type_text ty) short (omega arith))
        (put-Prints 16 ys short' (omega arith))

  comma-Prints :
      (first : Bool)
      → Prints (comma realloc text_f text_f32 first) (comma_text text_f text_f32 first)
  unfolding comma
  comma-Prints true = skip-Prints
  comma-Prints false = put-Prints 3 (44 ∷ 32 ∷ []) (omega arith) (omega arith)

  abbrev putting : ℕ → List ℕ → Slice → Outcome Slice
  putting = put realloc text_f text_f32

  abbrev printing : Value → Slice → Outcome Slice
  printing = print_r realloc text_f text_f32

  abbrev words : Value → List ℕ
  words = text text_f text_f32

  bool_short : (b : Bool) → length (bool_text b) < 16
  bool_short b = ground arith

  -- What an array and a map have around their entries.
  framed-Prints :
      (ty left right : ℕ) (m : Slice → Outcome Slice) (ys : List ℕ)
      → length (type_text ty) < 4
      → Prints m ys
      → Prints
          (λ s.
            ((putting 4 (type_text ty) s >>= putting 3 (left ∷ 32 ∷ [])) >>= m)
            >>= putting 3 (32 ∷ right ∷ []))
          (((type_text ty ++ left ∷ 32 ∷ []) ++ ys) ++ 32 ∷ right ∷ [])
  framed-Prints ty left right m ys short inside =
      >>=-Prints (λ s. (putting 4 (type_text ty) s >>= putting 3 (left ∷ 32 ∷ [])) >>= m)
        (putting 3 (32 ∷ right ∷ [])) ((type_text ty ++ left ∷ 32 ∷ []) ++ ys) (32 ∷ right ∷ [])
        (>>=-Prints (λ s. putting 4 (type_text ty) s >>= putting 3 (left ∷ 32 ∷ [])) m
          (type_text ty ++ left ∷ 32 ∷ []) ys
          (>>=-Prints (putting 4 (type_text ty)) (putting 3 (left ∷ 32 ∷ [])) (type_text ty)
            (left ∷ 32 ∷ []) (put-Prints 4 (type_text ty) short (omega arith))
            (put-Prints 3 (left ∷ 32 ∷ []) (omega arith) (omega arith)))
          inside)
        (put-Prints 3 (32 ∷ right ∷ []) (omega arith) (omega arith))

  mutual
    unfolding print_r print_items print_fields

    pub print_r-Prints : (v : Value) → IsShortText text_f text_f32 v → Prints (printing v) (words v)
    print_r-Prints unset short =
        put-Prints 4 (type_text 0) (type_short 0 (omega arith)) (omega arith)
    print_r-Prints (nil b) short =
        typed-Prints 1 (bool_text b) (type_short 1 (omega arith)) (bool_short b)
    print_r-Prints (bool b) short =
        typed-Prints 2 (bool_text b) (type_short 2 (omega arith)) (bool_short b)
    print_r-Prints (pos_int n) short =
        typed-Prints 3 (decimal n) (type_short 3 (omega arith))
          (omega (arith, length-digits 20 14 n short))
    print_r-Prints (neg_int n) short =
        typed-Prints 4 (45 ∷ decimal n) (type_short 4 (omega arith))
          (omega (arith, length-digits 20 13 n short))
    print_r-Prints (float32 w) short =
        typed-Prints 5 (text_f32 w) (type_short 5 (omega arith)) short
    print_r-Prints (float64 w) short = typed-Prints 6 (text_f w) (type_short 6 (omega arith)) short
    print_r-Prints (str mem len) short =
        >>=-Prints (putting 4 (type_text 7)) (λ s. append realloc s mem len) (type_text 7)
          (take len mem) (put-Prints 4 (type_text 7) (type_short 7 (omega arith)) (omega arith))
          (append-Prints mem len short)
    print_r-Prints (bytes mem len) short = absurd short
    print_r-Prints (arr xs) short =
        framed-Prints 9 91 93 (print_items realloc text_f text_f32 true xs)
          (text_items text_f text_f32 true xs) (type_short 9 (omega arith))
          (print_items-Prints true xs short)
    print_r-Prints (map fs) short =
        framed-Prints 10 123 125 (print_fields realloc text_f text_f32 true fs)
          (text_fields text_f text_f32 true fs) (type_short 10 (omega arith))
          (print_fields-Prints true fs short)
    print_r-Prints (ext tag mem len) short = absurd short

    print_items-Prints :
        (first : Bool) (xs : Items)
        → AreShortText text_f text_f32 xs
        → Prints
            (print_items realloc text_f text_f32 first xs)
            (text_items text_f text_f32 first xs)
    print_items-Prints first no_items short = skip-Prints
    print_items-Prints first (item x xs) short =
        >>=-Prints (λ s. comma realloc text_f text_f32 first s >>= printing x)
          (print_items realloc text_f text_f32 false xs)
          (comma_text text_f text_f32 first ++ words x) (text_items text_f text_f32 false xs)
          (>>=-Prints (comma realloc text_f text_f32 first) (printing x)
            (comma_text text_f text_f32 first) (words x) (comma-Prints first)
            (print_r-Prints x short.0))
          (print_items-Prints false xs short.1)

    print_fields-Prints :
        (first : Bool) (fs : Fields)
        → AreShortTextFields text_f text_f32 fs
        → Prints
            (print_fields realloc text_f text_f32 first fs)
            (text_fields text_f text_f32 first fs)
    print_fields-Prints first no_fields short = skip-Prints
    print_fields-Prints first (field k v fs) short =
        >>=-Prints
          (λ s.
            ((comma realloc text_f text_f32 first s >>= printing k)
              >>= putting 4 (32 ∷ 61 ∷ 32 ∷ []))
            >>= printing v)
          (print_fields realloc text_f text_f32 false fs)
          (((comma_text text_f text_f32 first ++ words k) ++ 32 ∷ 61 ∷ 32 ∷ []) ++ words v)
          (text_fields text_f text_f32 false fs)
          (>>=-Prints
            (λ s.
              (comma realloc text_f text_f32 first s >>= printing k)
              >>= putting 4 (32 ∷ 61 ∷ 32 ∷ []))
            (printing v) ((comma_text text_f text_f32 first ++ words k) ++ 32 ∷ 61 ∷ 32 ∷ [])
            (words v)
            (>>=-Prints (λ s. comma realloc text_f text_f32 first s >>= printing k)
              (putting 4 (32 ∷ 61 ∷ 32 ∷ [])) (comma_text text_f text_f32 first ++ words k)
              (32 ∷ 61 ∷ 32 ∷ [])
              (>>=-Prints (comma realloc text_f text_f32 first) (printing k)
                (comma_text text_f text_f32 first) (words k) (comma-Prints first)
                (print_r-Prints k short.0))
              (put-Prints 4 (32 ∷ 61 ∷ 32 ∷ []) (omega arith) (omega arith)))
            (print_r-Prints v short.1))
          (print_fields-Prints false fs short.2)

  -- A value without bytes and extensions, whose strings are there, whose numbers have at most 15
  -- characters with their sign, and whose floats have at most 15: with enough memory, printing it to a
  -- slice ends normally, and appends its text, with a closing 0 behind it that the length leaves out.
  pub print_lem :
      (v : Value) (s : Slice) (xs : List ℕ)
      → IsShortText text_f text_f32 v
      → Holds s xs
      → Fits limit (length xs + length (words v) + 16)
      → (s' : Slice) × (print realloc text_f text_f32 v s ≡ ok s')
        × Holds s' (xs ++ words v)
        × IsClosed s'
  unfolding print
  print_lem v s xs short h fits =
      let (s1, printed, h1) = print_r-Prints v short s xs h fits in
      let total : length (xs ++ words v) ≡ length xs + length (words v) =
        length-append xs (words v) in
      let (s2, closed, h2, is_closed) =
        append_lem alloc s1 (xs ++ words v) (0 ∷ []) 1 h1 (omega arith) (omega (arith, total)) in
      let total2 : length ((xs ++ words v) ++ 0 ∷ []) ≡ length (xs ++ words v) + 1 =
        length-append (xs ++ words v) (0 ∷ []) in
      let less : u64 (s2.len + (2 ^ 64 - 1)) ≡ length (xs ++ words v) =
        omega (arith, h2.len_eq, total, total2) in
      let (h3, is_closed') = shorten s2 (xs ++ words v) (u64 (s2.len + (2 ^ 64 - 1))) h2 less in
      (record s2 { len = u64 (s2.len + (2 ^ 64 - 1)) }, rw (printed, closed), h3, is_closed')
