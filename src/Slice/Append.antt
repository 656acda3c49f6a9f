-- ===== src/Slice/Append.antt =====
-- The appending operations add exactly their bytes, and so do sequences of them.
use cc_common.Slice.{Slice, store, append, append_1, append_word, copy_in}
use cc_common.Slice.Expand.{IsRealloc, Holds, Fits, expand-Expanded}
use cc_common.Base.{ℕ, ◌+◌, ◌≤◌, ◌<◌, ◌^◌, ◌≡◌, refl, sym, ap, ◌∙◌, arith, u64}
use cc_common.Base.{List, [], ◌∷◌, ◌++◌, append_assoc, append-nil, Option, Outcome, ok, ◌>>=◌}
use cc_common.Base.{length, length-append, length-take, length-drop, take, drop, take-append}
use mathlib.Core.Path.{subst₂}
use cc_common.Base.{drop-append, get_elem?, get_elem?-append, some, le→leb}

-- A copy to the end of the front part keeps that part.
pub store_end :
    (xs spare ys : List ℕ) (off : ℕ)
    → off ≡ length xs
    → length ys ≤ length spare
    → store (xs ++ spare) off ys ≡ ok ((xs ++ ys) ++ drop (length ys) spare)
unfolding store
store_end xs spare ys off e fits =
    let room : off + length ys ≤ length (xs ++ spare) = omega (arith, length-append xs spare) in
    rw (le→leb _ _ room, e, take-append xs spare, drop-append (length ys) xs spare)
      (ap ok (sym (append_assoc xs ys (drop (length ys) spare))))

-- The slice after its end was overwritten with `ys` and moved behind them.
module _ {s : Slice} {xs : List ℕ} (h : Holds s xs) (ys : List ℕ)
    (room : length xs + length ys ≤ s.cap) (small : length xs + length ys < 2 ^ 64) where
  spare_room : length ys ≤ length h.spare
  spare_room = omega (arith, length-append xs h.spare, ap (length {A = ℕ}) h.mem_eq, h.cap_eq)

  stored : List ℕ
  stored = (xs ++ ys) ++ drop (length ys) h.spare

  store_lem : store s.mem s.len ys ≡ ok stored
  unfolding stored
  store_lem = rw h.mem_eq (store_end xs h.spare ys s.len h.len_eq spare_room)

  new_len : u64 (s.len + length ys) ≡ length (xs ++ ys)
  new_len = omega (arith, length-append xs ys, h.len_eq)

  length-stored : length stored ≡ s.cap
  unfolding stored
  length-stored = omega (
    arith,
    length-append (xs ++ ys) (drop (length ys) h.spare),
    length-append xs ys,
    length-drop (length ys) h.spare,
    spare_room,
    length-append xs h.spare,
    ap (length {A = ℕ}) h.mem_eq,
    h.cap_eq,
  )

  stored-Holds : Holds (record s { mem = stored; len = u64 (s.len + length ys) }) (xs ++ ys)
  unfolding stored
  stored-Holds = record {
    spare = drop (length ys) h.spare;
    mem_eq = refl;
    len_eq = new_len;
    cap_eq = sym length-stored;
  }

-- A store at the end of the contents stays in the block, and the slice can then hold it.
pub store-Holds :
    (s : Slice) (xs ys : List ℕ) (len : ℕ)
    → Holds s xs
    → length xs + length ys ≤ s.cap
    → length xs + length ys < 2 ^ 64
    → len ≡ u64 (s.len + length ys)
    → (mem : List ℕ) × (store s.mem s.len ys ≡ ok mem)
      × Holds (record s { mem = mem; len = len }) (xs ++ ys)
store-Holds s xs ys len h room small e =
    (stored h ys room small, store_lem h ys room small, rw e (stored-Holds h ys room small))

-- A C string can be read from the slice: a 0 byte stands behind its contents.
abbrev pub IsClosed : Slice → Type 0
IsClosed s = get_elem? s.mem s.len ≡ some 0

-- A slice that holds a byte more than its length says holds the rest, with that byte behind it.
pub shorten :
    (s : Slice) (xs : List ℕ) (len : ℕ)
    → Holds s (xs ++ 0 ∷ [])
    → len ≡ length xs
    → Holds (record s { len = len }) xs × IsClosed (record s { len = len })
shorten s xs len h e =
    let split : s.mem ≡ xs ++ 0 ∷ h.spare = h.mem_eq ∙ append_assoc xs (0 ∷ []) h.spare in
    (
      record { spare = 0 ∷ h.spare; mem_eq = split; len_eq = e; cap_eq = h.cap_eq },
      rw (split, e) (get_elem?-append xs 0 h.spare),
    )

module _ {realloc : List ℕ → ℕ → Option (List ℕ)} {limit : ℕ}
    (alloc : IsRealloc realloc limit) where
  copy_in-Holds :
      (s : Slice) (xs src : List ℕ) (n : ℕ)
      → Holds s xs
      → n ≤ length src
      → length xs + n + 1 ≤ s.cap
      → length xs + n + 1 < 2 ^ 64
      → (s' : Slice) × (copy_in realloc s src n ≡ ok s') × Holds s' (xs ++ take n src) × IsClosed s'
  unfolding copy_in
  copy_in-Holds s xs src n h enough room small =
      let ys : List ℕ = take n src in
      let size : length ys ≡ n = length-take n src enough in
      let total : length (xs ++ ys) ≡ length xs + n = omega (arith, length-append xs ys, size) in
      let len : ℕ = u64 (s.len + n) in
      let len_eq : len ≡ length (xs ++ ys) = omega (arith, h.len_eq, total) in
      let (mem, copied, mid) =
        store-Holds s xs ys len h (omega (arith, size)) (omega (arith, size)) (rw size) in
      let (closed, ended, end) =
        store-Holds (record s { mem = mem; len = len }) (xs ++ ys) (0 ∷ []) (u64 (len + 1)) mid
          (omega (arith, total)) (omega (arith, total)) refl in
      let (held, is_closed) =
        shorten (record s { mem = closed; len = u64 (len + 1) }) (xs ++ ys) len end len_eq in
      (
        record s { mem = closed; len = len },
        rw (le→leb n (length src) enough, copied, ended),
        held,
        is_closed,
      )

  -- With enough memory, appending `n` bytes from `src` ends normally: the slice then holds what it
  -- held and those bytes, with a closing 0 behind them.
  pub append_lem :
      (s : Slice) (xs src : List ℕ) (n : ℕ)
      → Holds s xs
      → n ≤ length src
      → Fits limit (length xs + n + 1)
      → (s' : Slice) × (append realloc s src n ≡ ok s') × Holds s' (xs ++ take n src) × IsClosed s'
  unfolding append
  append_lem s xs src n h enough fits =
      let (grown, e, ex) = expand-Expanded alloc s xs (n + 1) h (omega arith) in
      let (s', copied, held, is_closed) =
        copy_in-Holds grown xs src n ex.held enough (omega (arith, ex.room)) (omega arith) in
      let no_wrap : u64 (n + 1) ≡ n + 1 = omega arith in
      (s', rw (no_wrap, e, copied), held, is_closed)

  -- Wherever a slice holds `xs` and there is memory, the operation ends normally with a slice that
  -- holds `xs` and then `ys`.
  abbrev pub Appends : (Slice → Outcome Slice) → List ℕ → Type 0
  Appends m ys =
      (s : Slice) (xs : List ℕ)
      → Holds s xs
      → Fits limit (length xs + length ys + 1)
      → (s' : Slice) × (m s ≡ ok s') × Holds s' (xs ++ ys)

  pub append-Appends :
      (src : List ℕ) (n : ℕ) → n ≤ length src → Appends (λ s. append realloc s src n) (take n src)
  append-Appends src n enough s xs h fits =
      let size : length (take n src) ≡ n = length-take n src enough in
      let (s', e, held, _) = append_lem s xs src n h enough (omega (arith, size)) in (s', e, held)

  pub append_1-Appends : (bd : ℕ) → Appends (λ s. append_1 realloc s bd) (bd ∷ [])
  unfolding append_1
  append_1-Appends bd = append-Appends (bd ∷ []) 1 (omega arith)

  pub append_word-Appends : (word : List ℕ) → Appends (λ s. append_word realloc s word) word
  unfolding append_word
  append_word-Appends word s xs h fits =
      let (grown, e, ex) = expand-Expanded alloc s xs (length word) h (omega arith) in
      let (mem, stored, held) =
        store-Holds grown xs word (u64 (grown.len + length word)) ex.held (omega (arith, ex.room))
          (omega arith) refl in
      (record grown { mem = mem; len = u64 (grown.len + length word) }, rw (e, stored), held)

  pub skip-Appends : Appends ok []
  skip-Appends s xs h fits = (s, refl, rw append-nil h)

  -- One operation after another.
  pub >>=-Appends :
      (m k : Slice → Outcome Slice) (ys zs : List ℕ)
      → Appends m ys
      → Appends k zs
      → Appends (λ s. m s >>= k) (ys ++ zs)
  >>=-Appends m k ys zs first second s xs h fits =
      let size : length (ys ++ zs) ≡ length ys + length zs = length-append ys zs in
      let size' : length (xs ++ ys) ≡ length xs + length ys = length-append xs ys in
      let (s1, e1, h1) = first s xs h (omega (arith, size)) in
      let (s2, e2, h2) = second s1 (xs ++ ys) h1 (omega (arith, size, size')) in
      (s2, rw (e1, e2), rw (← append_assoc xs ys zs) h2)

  -- The operation and its bytes may be given another form.
  pub Appends-eq :
      {m m' : Slice → Outcome Slice} {ys ys' : List ℕ}
      → m ≡ m'
      → ys ≡ ys'
      → Appends m' ys'
      → Appends m ys
  Appends-eq p q a = subst₂ (λ m ys. Appends m ys) (sym p) (sym q) a
