-- ===== src/Simple/Bounds.antt =====
-- The decoder's position, whatever the input.
use cc_common.Base.{ℕ, zero, suc, ◌+◌, ◌-◌, ◌%◌, ◌^◌, ◌≤◌, ◌<◌, ◌≡◌, arith, u64}
use cc_common.Base.{
  Bool, true, false, ltb, leb, ◌==◌, Bool-cases, ◌⊎◌, if◌then◌else◌, inl, inr, List, length, drop,
  none, some,
}
use cc_common.Base.{Outcome, ok, abort, fault, no_fuel, ◌>>=◌}
use cc_common.BigEndian.{read_uint32, read_uint64}
use cc_common.Value.{Value, Items, Fields, pos_int, neg_int, str, bytes}
use cc_common.Value.Cursor.{Cursor, past_bound, chk, chk2, is_set, load}
use cc_common.Simple.Decode.{
  Step, Kind, is_nil, is_false, is_true, is_pos_int, is_neg_int, is_float32, is_float64, is_str,
  is_bytes, is_array, is_map, is_ext, is_other, kind, readn, decode_len, read_int, read_float32,
  read_float64, read_blob, read_ext, read_array, read_map, dispatch, visit, decode_r, decode_items,
  decode_fields, decode, touch, int_width, read_char,
}

module _ (calloc : ℕ → ℕ → Bool) (b : List ℕ) (small : length b < 2 ^ 64) where
  -- If the step returns, the position is within the input or at its end.
  data Inside {A : Type 0} : Step A → Type 0 where
    returns : {a : A} {s : Cursor} → s.pos ≤ length b → Inside (ok (a, s))
    aborts : Inside abort
    faults : Inside fault
    stops : Inside no_fuel

  if-Inside :
      {A : Type 0} (c : Bool) {x y : Step A} → Inside x → Inside y → Inside (if c then x else y)
  if-Inside true h k = h
  if-Inside false h k = k

  >>=-Inside :
      {A B : Type 0} {m : Step A} (k : A × Cursor → Step B)
      → Inside m
      → ((a : A) (s : Cursor) → s.pos ≤ length b → Inside (k (a, s)))
      → Inside (m >>= k)
  >>=-Inside k (returns {a} {s} h) f = f a s h
  >>=-Inside k aborts f = aborts
  >>=-Inside k faults f = faults
  >>=-Inside k stops f = stops

  value-Inside :
      {A B : Type 0} (m : Outcome A) {k : A → Step B} → ((a : A) → Inside (k a)) → Inside (m >>= k)
  value-Inside (ok a) f = f a
  value-Inside abort f = aborts
  value-Inside fault f = faults
  value-Inside no_fuel f = stops

  -- A check fails with the position as it was, or nothing changes and `n` bytes are there.
  chk-cases :
      (n : ℕ) (s : Cursor)
      → ((chk b n s ≡ (record s { err = some past_bound }, true)))
        ⊎ ((chk b n s ≡ (s, false)) × (u64 (n + s.pos) ≤ length b))
  unfolding chk
  chk-cases n s = elim (Bool-cases (ltb (length b) (u64 (n + s.pos)))) [
    | inl bad ↦ inl (rw bad)
    | inr good ↦ inr (rw good, ground arith)
  ]

  readn-Inside : (n : ℕ) (s : Cursor) → s.pos ≤ length b → Inside (readn calloc b n s)
  unfolding readn
  readn-Inside n s h = elim (chk-cases n s) [
    | inl bad ↦ rw bad (returns h)
    | inr (e, p) ↦
        let moved : u64 (s.pos + n) ≤ length b = omega (arith, p) in
        rw e (value-Inside (read_char calloc b n s.pos) (λ v. returns moved))
  ]

  decode_len-Inside : (bd : ℕ) (s : Cursor) → s.pos ≤ length b → Inside (decode_len calloc b bd s)
  unfolding decode_len
  decode_len-Inside bd s h = if-Inside _ (returns h) (
      if-Inside _ (readn-Inside 1 s h) (
        if-Inside _ (readn-Inside 2 s h)
          (if-Inside _ (readn-Inside 4 s h) (if-Inside _ (readn-Inside 8 s h) (returns h)))))

  read_int-Inside :
      (make : ℕ → Value) (out : Bool) (bd : ℕ) (s : Cursor)
      → s.pos ≤ length b
      → Inside (read_int calloc b make out bd s)
  unfolding read_int
  read_int-Inside make out bd s h =
      >>=-Inside _ (readn-Inside (int_width (bd % 4)) s h)
        (λ n t p. if-Inside (is_set t.err) (returns p) (value-Inside (touch out) (λ _. returns p)))

  read_float32-Inside :
      (out : Bool) (s : Cursor) → s.pos ≤ length b → Inside (read_float32 calloc b out s)
  unfolding read_float32
  read_float32-Inside out s h = value-Inside (touch out) (λ _. elim (chk-cases 4 s) [
    | inl bad ↦ rw bad (returns h)
    | inr (e, p) ↦
        let moved : u64 (s.pos + 4) ≤ length b = omega (arith, p) in
        rw e (value-Inside (read_uint32 (drop s.pos b)) (λ v. returns moved))
  ])

  read_float64-Inside :
      (out : Bool) (s : Cursor) → s.pos ≤ length b → Inside (read_float64 calloc b out s)
  unfolding read_float64
  read_float64-Inside out s h = value-Inside (touch out) (λ _. elim (chk-cases 8 s) [
    | inl bad ↦ rw bad (returns h)
    | inr (e, p) ↦
        let moved : u64 (s.pos + 8) ≤ length b = omega (arith, p) in
        rw e (value-Inside (read_uint64 (drop s.pos b)) (λ v. returns moved))
  ])

  read_blob-Inside :
      (make : List ℕ → ℕ → Value) (out : Bool) (bd : ℕ) (s : Cursor)
      → s.pos ≤ length b
      → Inside (read_blob calloc b make out bd s)
  unfolding read_blob
  read_blob-Inside make out bd s h = value-Inside (touch out) (λ _.
      >>=-Inside _ (decode_len-Inside bd s h) (λ len t p.
        if-Inside (is_set t.err) (returns p) (elim (chk-cases len t) [
          | inl bad ↦ rw bad (returns p)
          | inr (e, q) ↦
              let moved : u64 (t.pos + len) ≤ length b = omega (arith, q) in rw e (returns moved)
        ])))

  read_ext-Inside :
      (out : Bool) (bd : ℕ) (s : Cursor) → s.pos ≤ length b → Inside (read_ext calloc b out bd s)
  unfolding read_ext
  read_ext-Inside out bd s h = value-Inside (touch out) (λ _.
      >>=-Inside _ (decode_len-Inside bd s h) (λ len t p. elim (chk-cases (u64 (1 + len)) t) [
        | inl bad ↦ rw bad (returns p)
        | inr (e, q) ↦
            let moved : u64 (u64 (t.pos + 1) + len) ≤ length b = omega (arith, q) in
            rw e (value-Inside (load b t.pos) (λ tag. returns moved))
      ]))

  module _ (items : Bool → ℕ → Cursor → Step Items) (fields : Bool → ℕ → Cursor → Step Fields)
      (items_in : (out : Bool) (n : ℕ) (s : Cursor) → s.pos ≤ length b → Inside (items out n s))
      (fields_in : (out : Bool) (n : ℕ) (s : Cursor)
        → s.pos ≤ length b
        → Inside (fields out n s)) where
    dispatch-Inside :
        (out : Bool) (bd : ℕ) (s : Cursor) (k : Kind)
        → s.pos ≤ length b
        → Inside (dispatch calloc b items fields out bd s k)
    unfolding dispatch
    dispatch-Inside out bd s is_nil h = value-Inside (touch out) (λ _. returns h)
    dispatch-Inside out bd s is_false h = value-Inside (touch out) (λ _. returns h)
    dispatch-Inside out bd s is_true h = value-Inside (touch out) (λ _. returns h)
    dispatch-Inside out bd s is_pos_int h = read_int-Inside pos_int out bd s h
    dispatch-Inside out bd s is_neg_int h = read_int-Inside neg_int out bd s h
    dispatch-Inside out bd s is_float32 h = read_float32-Inside out s h
    dispatch-Inside out bd s is_float64 h = read_float64-Inside out s h
    dispatch-Inside out bd s is_str h = read_blob-Inside str out bd s h
    dispatch-Inside out bd s is_bytes h = read_blob-Inside bytes out bd s h
    dispatch-Inside out bd s is_array h =
        unfold read_array in
        value-Inside (touch out) (λ _. >>=-Inside _ (decode_len-Inside bd s h) (λ len t p.
          if-Inside (is_set t.err) (returns p)
            (>>=-Inside _ (items_in (calloc len 40) len t p) (λ xs u q. returns q))))
    dispatch-Inside out bd s is_map h =
        unfold read_map in
        value-Inside (touch out) (λ _.
          >>=-Inside _ (decode_len-Inside bd s h)
            (λ len t p. >>=-Inside _ (fields_in (calloc len 80) len t p) (λ fs u q. returns q)))
    dispatch-Inside out bd s is_ext h = read_ext-Inside out bd s h
    dispatch-Inside out bd s is_other h = returns h

    visit-Inside :
        (out : Bool) (s : Cursor) → s.pos ≤ length b → Inside (visit calloc b items fields out s)
    unfolding visit chk2
    visit-Inside out s h = elim (Bool-cases (leb (length b) s.pos)) [
      | inl ended ↦ rw ended (returns h)
      | inr more ↦ rw more (elim (chk-cases 1 s) [
        | inl bad ↦ rw bad (returns h)
        | inr (e, p) ↦
            let moved : u64 (s.pos + 1) ≤ length b = omega (arith, p) in
            rw e (
              value-Inside (load b s.pos)
                (λ bd. dispatch-Inside out bd (record s { pos = u64 (s.pos + 1) }) (kind bd) moved))
      ])
    ]

  mutual
    unfolding decode_r

    decode_r-Inside :
        (f : ℕ) (out : Bool) (s : Cursor) → s.pos ≤ length b → Inside (decode_r calloc b f out s)
    decode_r-Inside zero out s h = stops
    decode_r-Inside (suc f) out s h =
        visit-Inside _ _ (decode_items-Inside f) (decode_fields-Inside f) out s h

    decode_items-Inside :
        (f : ℕ) (out : Bool) (n : ℕ) (s : Cursor)
        → s.pos ≤ length b
        → Inside (decode_items calloc b f out n s)
    decode_items-Inside zero out n s h = stops
    decode_items-Inside (suc f) out n s h = if-Inside (n == 0) (returns h) (
        >>=-Inside _ (decode_r-Inside f out s h) (λ x t p.
          if-Inside (is_set t.err) (returns p)
            (>>=-Inside _ (decode_items-Inside f out (n - 1) t p) (λ xs u q. returns q))))

    decode_fields-Inside :
        (f : ℕ) (out : Bool) (n : ℕ) (s : Cursor)
        → s.pos ≤ length b
        → Inside (decode_fields calloc b f out n s)
    decode_fields-Inside zero out n s h = stops
    decode_fields-Inside (suc f) out n s h = if-Inside (n == 0) (returns h) (
        >>=-Inside _ (decode_r-Inside f out s h) (λ k t p. if-Inside (is_set t.err) (returns p) (
          >>=-Inside _ (decode_r-Inside f out t p) (λ v u q.
            if-Inside (is_set u.err) (returns q)
              (>>=-Inside _ (decode_fields-Inside f out (n - 1) u q) (λ fs w r. returns r))))))

  Inside-pos : {A : Type 0} {a : A} {s : Cursor} → Inside (ok (a, s)) → s.pos ≤ length b
  Inside-pos (returns h) = h

-- Whatever the input, a call that returns, with an error or without, leaves the position within the
-- input or at its end.
pub decode-pos-le :
    (calloc : ℕ → ℕ → Bool) (b : List ℕ) (fuel : ℕ) (w : Value) (c : Cursor)
    → length b < 2 ^ 64
    → decode calloc b fuel ≡ ok (w, c)
    → c.pos ≤ length b
unfolding decode
decode-pos-le calloc b fuel w c small h =
    let start : 0 ≤ length b = omega arith in
    Inside-pos calloc b small
      (rw h at (decode_r-Inside calloc b small fuel true (record { pos = 0; err = none }) start))
