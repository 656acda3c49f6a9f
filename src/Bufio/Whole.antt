-- ===== src/Bufio/Whole.antt =====
-- Where the input makes progress, `BufReader::readfull` copies as many bytes as it is asked for.
use cc_common.Base.{
  take_pos, ok_inj, ℕ, zero, suc, ◌+◌, ◌-◌, ◌≤◌, ◌<◌, ◌≡◌, refl, sym, ap, ◌∙◌, arith, Bool, true,
  false, ltb, ◌==◌, if◌then◌else◌, ◌&&◌, ◌>>=◌, List, [], ◌∷◌, ◌++◌, take, drop, length, ok, abort,
  fault, no_fuel, ◌⊎◌, inl, inr, All, length-append, take-append, drop-append, Bool-cases, Outcome,
}
use mathlib.Core.Path.{subst}
use cc_common.Slice.{store}
use cc_common.Bufio.{Reply, erred, ready, Source, Returned, failed, count, least}
use cc_common.Bufio.Writer.{bufsize}
use cc_common.Bufio.Reader.{
  BufReader, e_intr, receive, fill_loop, hand_out, readn, round_end, readfull_loop, readfull,
}
use cc_common.Bufio.Fill.{Buffered, calm_count, fill-Filled, fill_on}
use cc_common.Bufio.Receipt.{readn-Handed, readn_cases}
use cc_common.Bufio.Complete.{readfull-Complete}

-- A reply that makes progress, or after which `fill` tries again.
abbrev pub IsGood : Bool → Reply → Type 0
IsGood again (erred e) = (e ≡ e_intr) × (again ≡ true)
IsGood again (ready j) = 0 < j

-- What `read` leaves of a reader that is open and not at the end.
pub record Going (again : Bool) (s : BufReader) (k : Source) : Type 0 where
  pub opened : s.is_open ≡ true
  pub going : s.eof ≡ false
  pub good : All (IsGood again) k.replies

receive-Going :
    (again : Bool) (j : ℕ) (s s' : BufReader) (k k' : Source)
    → Going again s k
    → s.w ≡ 0
    → 0 < j
    → 0 < length k.coming
    → receive j s k ≡ ok (s', k')
    → Going again s' k' × (0 < s'.w)
unfolding receive
receive-Going again j s s' k k' g w0 pos more e =
    stored (store s.buf s.w chunk) (sym (rw some_left) ∙ e)
  where
    chunk : List ℕ
    chunk = take (least j (bufsize - s.w)) k.coming

    some_bytes : 0 < length chunk
    some_bytes =
        let least_pos : 0 < least j (bufsize - s.w) = ground (arith, w0) in
        take_pos (least j (bufsize - s.w)) k.coming least_pos more

    some_left : (length chunk == 0) ≡ false
    some_left = ground (arith, some_bytes)

    left_by : List ℕ → Outcome (BufReader × Source)
    left_by buf = ok (
      record s { errno = k.errno; w = s.w + length chunk; buf = buf },
      record k { coming = drop (least j (bufsize - s.w)) k.coming },
    )

    stored : (m : Outcome (List ℕ)) → (m >>= left_by) ≡ ok (s', k') → Going again s' k' × (0 < s'.w)
    stored (ok buf) e =
        subst (λ p. Going again p.0 p.1 × (0 < p.0.w)) (ok_inj e)
          (record { opened = g.opened; going = g.going; good = g.good }, omega (arith, some_bytes))
    stored abort e = cc
    stored fault e = cc
    stored no_fuel e = cc

fill_loop-Going :
    (again : Bool) (replies : List Reply) (s s' : BufReader) (k k' : Source)
    → All (IsGood again) replies
    → s.is_open ≡ true
    → s.eof ≡ false
    → s.w ≡ 0
    → 0 < length k.coming
    → fill_loop again replies s k ≡ ok (s', k')
    → Going again s' k' × (0 < s'.w)
unfolding fill_loop
fill_loop-Going again [] s s' k k' good opened going w0 more e = cc
fill_loop-Going again (ready j ∷ rest) s s' k k' good opened going w0 more e =
    receive-Going again j s s' (record k { replies = rest }) k'
      (record { opened = opened; going = going; good = good.1 }) w0 good.0 more e
fill_loop-Going again (erred i ∷ rest) s s' k k' good opened going w0 more e =
    let retry : (i == e_intr && again) ≡ true = ground (arith, good.0.0, good.0.1) in
    fill_loop-Going again rest (record s { errno = i }) s' (record k { replies = rest; errno = i })
      k' good.1 opened going w0 more (sym (rw retry) ∙ e)

hand_out-Going :
    (again : Bool) (n : ℕ) (s s' : BufReader) (k k' : Source) (ret : Returned) (ys : List ℕ)
    → Going again s k
    → s.r < s.w
    → 0 < n
    → hand_out n s k ≡ ok (ret, ys, s', k')
    → Going again s' k' × ((i : ℕ) × (ret ≡ count (suc i)))
unfolding hand_out
hand_out-Going again n s s' k k' ret ys g lt pos e =
    let m : ℕ = if ltb (s.w - s.r) n then s.w - s.r else n in
    let some_bytes : (s.w == 0) ≡ false = ground arith in
    let m_pos : 0 < m = ground arith in
    let left : Returned × List ℕ × BufReader × Source =
      (count m, take m (drop s.r s.buf), record s { r = s.r + m }, k) in
    let this : hand_out n s k ≡ ok left = rw some_bytes in
    subst (λ p. Going again p.2 p.3 × ((i : ℕ) × (p.0 ≡ count (suc i)))) (ok_inj (sym this ∙ e))
      (
        record { opened = g.opened; going = g.going; good = g.good },
        (m - 1, ap count (omega arith)),
      )

-- What was buffered or is to come, as far as a call of `readn` goes.
readn-Going :
    (again : Bool) (n : ℕ) (s s' : BufReader) (k k' : Source) (ret : Returned) (ys xs : List ℕ)
    → Going again s k
    → Buffered s xs
    → 0 < length (xs ++ k.coming)
    → 0 < calm_count k.replies
    → 0 < n
    → readn n again s k ≡ ok (ret, ys, s', k')
    → Going again s' k' × ((i : ℕ) × (ret ≡ count (suc i)))
readn-Going again n s s' k k' ret ys xs g h more calm pos e = elim (Bool-cases (s.r == s.w)) [
  | inr some_left ↦
      let lt : s.r < s.w = ground (arith, h.r_eq, h.w_eq, some_left) in
      hand_out-Going again n s s' k k' ret ys g lt pos
        (sym (readn_cases n again s k false g.going some_left) ∙ e)
  | inl all_read ↦
      let s0 : BufReader = record s { r = 0; w = 0 } in
      let f = fill-Filled again s0 k refl refl h.size calm in
      let looped = sym (fill_on again s0 k g.opened g.going) ∙ f.run_eq in
      let coming : 0 < length k.coming =
        ground (arith, h.r_eq, h.w_eq, all_read, more, length-append xs k.coming) in
      let (g', filled) =
        fill_loop-Going again k.replies s0 f.reader k f.source g.good g.opened g.going refl coming
          looped in
      let at_front : f.reader.r ≡ 0 = f.held.r_eq ∙ ap (length {A = ℕ}) f.front_eq in
      hand_out-Going again n f.reader s' f.source k' ret ys g' (omega (arith, at_front, filled)) pos
        (ap (λ z. z >>= (λ p. hand_out n p.0 p.1)) (sym f.run_eq)
          ∙ sym (readn_cases n again s k true g.going all_read)
          ∙ e)
]

count_size :
    (ret : Returned) (ys : List ℕ) (i : ℕ)
    → ((ret ≡ failed) × (ys ≡ [])) ⊎ (ret ≡ count (length ys))
    → ret ≡ count (suc i)
    → length ys ≡ suc i
count_size ret ys i (inl (bad, empty)) e = cc
count_size ret ys i (inr good) e = ground (arith, good, e)

-- `readfull` that ends has copied all that it was asked for.
readfull_loop-length :
    (f : ℕ) (again : Bool) (out : List ℕ) (left attempts : ℕ) (s s' : BufReader) (k k' : Source)
    (xs zs : List ℕ)
    → Going again s k
    → Buffered s xs
    → left ≤ length (xs ++ k.coming)
    → left < calm_count k.replies
    → readfull_loop f again out left attempts s k ≡ ok (zs, s', k')
    → length zs ≡ length out + left
unfolding readfull_loop
readfull_loop-length zero again out left attempts s s' k k' xs zs g h enough calm e = cc
readfull_loop-length (suc f) again out left attempts s s' k k' xs zs g h enough calm e =
    elim (Bool-cases (left == 0)) [
      | inl done ↦
          let at_end : ok (out, s, k) ≡ ok (zs, s', k') = sym (rw done) ∙ e in
          ground (arith, done, ap (λ p. length p.0) (ok_inj at_end))
      | inr missing ↦
          let r = readn-Handed left again s k xs h (omega arith) in
          let pos : 0 < left = ground (arith, missing) in
          let (g', (i, ret_eq)) =
            readn-Going again left s r.reader k r.source r.ret r.ys xs g h (omega arith)
              (omega arith) pos r.run_eq in
          let size : length r.ys ≡ suc i = count_size r.ret r.ys i r.counted ret_eq in
          let moved : readfull_loop (suc f) again out left attempts s k
              ≡ readfull_loop f again (out ++ r.ys) (left - suc i) attempts r.reader r.source =
            unfold round_end in rw (missing, r.run_eq, ret_eq) in
          let kept = ap (length {A = ℕ}) r.kept in
          let more =
            readfull_loop-length f again (out ++ r.ys) (left - suc i) attempts r.reader s' r.source
              k' r.xs zs g' r.held
              (omega (arith, kept, length-append r.ys (r.xs ++ r.source.coming), size, enough))
              (omega (arith, r.spent, size, r.at_most)) (sym moved ∙ e) in
          omega (arith, more, length-append out r.ys, size, r.at_most)
    ]

-- If the reader is open and not at the end, the bytes that are asked for are buffered or to come, every
-- reply makes progress, or is EINTR where that is retried, and there are enough of them, `readfull`
-- copies the next `n` bytes, all of them and in order, and the others stay.
pub readfull-Whole :
    (n : ℕ) (again : Bool) (attempts : ℕ) (s : BufReader) (k : Source) (xs : List ℕ)
    → Going again s k
    → Buffered s xs
    → n ≤ length (xs ++ k.coming)
    → n + attempts < calm_count k.replies
    → (s' : BufReader) × (k' : Source) × (xs' : List ℕ) × (readfull n again attempts s k
        ≡ ok (take n (xs ++ k.coming), s', k'))
      × Buffered s' xs'
      × (xs' ++ k'.coming ≡ drop n (xs ++ k.coming))
readfull-Whole n again attempts s k xs g h enough calm =
    let c = readfull-Complete n again attempts s k xs h calm in
    let size : length c.ys ≡ n = omega (
      arith,
      readfull_loop-length (n + attempts + 1) again [] n attempts s c.reader k c.source xs c.ys g h
          enough (omega arith) (unfold readfull in c.run_eq),
    ) in
    let first : take n (xs ++ k.coming) ≡ c.ys =
      ap (take n) (sym c.kept)
      ∙ ap (λ m. take m (c.ys ++ (c.xs ++ c.source.coming))) (sym size)
      ∙ take-append c.ys (c.xs ++ c.source.coming) in
    let rest : drop n (xs ++ k.coming) ≡ c.xs ++ c.source.coming =
      ap (drop n) (sym c.kept)
      ∙ ap (λ m. drop m (c.ys ++ (c.xs ++ c.source.coming))) (omega (arith, size))
      ∙ drop-append 0 c.ys (c.xs ++ c.source.coming) in
    (
      c.reader,
      c.source,
      c.xs,
      c.run_eq ∙ ap (λ zs. ok (zs, c.reader, c.source)) (sym first),
      c.held,
      sym rest,
    )
