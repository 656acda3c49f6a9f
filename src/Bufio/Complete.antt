-- ===== src/Bufio/Complete.antt =====
-- `BufReader::readfull` ends, and loses and repeats no byte.
use cc_common.Base.{
  ℕ, zero, suc, ◌+◌, ◌-◌, ◌≤◌, ◌<◌, ◌≡◌, refl, sym, ap, ◌∙◌, arith, Bool, true, false, ltb, ◌==◌,
  if◌then◌else◌, ◌&&◌, List, [], ◌∷◌, ◌++◌, length, ok, ◌⊎◌, inl, inr, append_assoc, append-nil,
  length-append, Bool-cases,
}
use mathlib.Core.Path.{ap₂, subst, subst₂}
use cc_common.Bufio.{Source, Returned, failed, count}
use cc_common.Bufio.Reader.{BufReader, e_again, Full, held_up, round_end, readfull_loop, readfull}
use cc_common.Bufio.Fill.{Buffered, calm_count}
use cc_common.Bufio.Receipt.{readn-Handed}

-- A run of `readfull` that ends: behind `out` it copied at most `n` bytes, the next ones.
pub record Complete (run : Full) (out : List ℕ) (n : ℕ) (all : List ℕ) : Type 0 where
  pub ys : List ℕ
  pub reader : BufReader
  pub source : Source
  pub xs : List ℕ
  pub run_eq : run ≡ ok (out ++ ys, reader, source)
  pub at_most : length ys ≤ n
  pub held : Buffered reader xs
  pub kept : ys ++ (xs ++ source.coming) ≡ all

stopped :
    (run : Full) (out : List ℕ) (n : ℕ) (s : BufReader) (k : Source) (xs : List ℕ)
    → run ≡ ok (out, s, k)
    → Buffered s xs
    → Complete run out n (xs ++ k.coming)
stopped run out n s k xs e h = record {
  ys = [];
  reader = s;
  source = k;
  xs = xs;
  run_eq = e ∙ ap (λ zs. ok (zs, s, k)) (sym (append-nil out));
  at_most = omega arith;
  held = h;
  kept = refl;
}

held_up_again :
    (next : ℕ → BufReader → Source → Full) (attempts : ℕ) (out : List ℕ) (s : BufReader)
    (k : Source)
    → s.eof ≡ false
    → (ltb 0 attempts && s.errno == e_again) ≡ true
    → held_up next attempts out s k ≡ next (attempts - 1) (record s { errno = 0 }) k
held_up_again next attempts out s k going once_more =
    unfold held_up in
    ap₂
      (λ o d.
        if o
        then ok (out, s, k)
        else if d
        then next (attempts - 1) (record s { errno = 0 }) k
        else ok (out, s, k))
      going once_more

-- A round without a byte: the loop ends, or goes on with an attempt less.
held_up-Complete :
    (next : ℕ → BufReader → Source → Full) (attempts n : ℕ) (out : List ℕ) (s : BufReader)
    (k : Source) (xs : List ℕ)
    → Buffered s xs
    → ((s' : BufReader)
        → Buffered s' xs
        → 0 < attempts
        → Complete (next (attempts - 1) s' k) out n (xs ++ k.coming))
    → Complete (held_up next attempts out s k) out n (xs ++ k.coming)
held_up-Complete next attempts n out s k xs h go_on = elim (Bool-cases s.eof) [
  | inl ended ↦ stopped (held_up next attempts out s k) out n s k xs (unfold held_up in rw ended) h
  | inr going ↦ elim (Bool-cases (ltb 0 attempts && s.errno == e_again)) [
    | inr over ↦
        stopped (held_up next attempts out s k) out n s k xs (unfold held_up in rw (going, over)) h
    | inl once_more ↦
        let s' : BufReader = record s { errno = 0 } in
        let again_held : Buffered s' xs = record {
          front = h.front;
          spare = h.spare;
          buf_eq = h.buf_eq;
          r_eq = h.r_eq;
          w_eq = h.w_eq;
          size = h.size;
        } in
        let some_left : 0 < attempts = ground (arith, once_more) in
        subst (λ z. Complete z out n (xs ++ k.coming))
          (sym (held_up_again next attempts out s k going once_more))
          (go_on s' again_held some_left)
  ]
]

-- What a round does with what `readn` returned.
data RoundForm (next : List ℕ → ℕ → ℕ → BufReader → Source → Full) (left attempts : ℕ)
    (out ys : List ℕ) (ret : Returned) (s : BufReader) (k : Source) : Type 0 where
  nothing :
      ys ≡ []
      → round_end next left attempts out ret ys s k ≡ held_up (next out left) attempts out s k
      → RoundForm next left attempts out ys ret s k
  something :
      0 < length ys
      → round_end next left attempts out ret ys s k
        ≡ next (out ++ ys) (left - length ys) attempts s k
      → RoundForm next left attempts out ys ret s k

RoundForm-cases :
    (next : List ℕ → ℕ → ℕ → BufReader → Source → Full) (left attempts : ℕ) (out ys : List ℕ)
    (ret : Returned) (s : BufReader) (k : Source)
    → ((ret ≡ failed) × (ys ≡ [])) ⊎ (ret ≡ count (length ys))
    → RoundForm next left attempts out ys ret s k
unfolding round_end
RoundForm-cases next left attempts out ys ret s k (inl (bad, none_here)) =
    nothing none_here (rw bad)
RoundForm-cases next left attempts out [] ret s k (inr good) = nothing refl (rw good)
RoundForm-cases next left attempts out (y ∷ ys) ret s k (inr good) =
    something (omega arith) (rw good)

-- The bytes of one round, then those of the rounds behind it.
behind_round :
    (run : Full) (out ys : List ℕ) (left : ℕ) (rest all : List ℕ)
    → length ys ≤ left
    → ys ++ rest ≡ all
    → Complete run (out ++ ys) (left - length ys) rest
    → Complete run out left all
behind_round run out ys left rest all le e c = record {
  ys = ys ++ c.ys;
  reader = c.reader;
  source = c.source;
  xs = c.xs;
  run_eq = c.run_eq ∙ ap (λ zs. ok (zs, c.reader, c.source)) (append_assoc out ys c.ys);
  at_most = omega (arith, length-append ys c.ys, c.at_most);
  held = c.held;
  kept = append_assoc ys c.ys (c.xs ++ c.source.coming) ∙ ap (λ zs. ys ++ zs) c.kept ∙ e;
}

readfull_loop-Complete :
    (f : ℕ) (again : Bool) (out : List ℕ) (left attempts : ℕ) (s : BufReader) (k : Source)
    (xs : List ℕ)
    → Buffered s xs
    → left + attempts < f
    → left + attempts < calm_count k.replies
    → Complete (readfull_loop f again out left attempts s k) out left (xs ++ k.coming)
readfull_loop-Complete zero again out left attempts s k xs h fuel budget = absurd (omega arith)
readfull_loop-Complete (suc f) again out left attempts s k xs h fuel budget =
    elim (Bool-cases (left == 0)) [
      | inl done ↦
          stopped (readfull_loop (suc f) again out left attempts s k) out left s k xs
            (unfold readfull_loop in rw done) h
      | inr missing ↦
          let next : List ℕ → ℕ → ℕ → BufReader → Source → Full = readfull_loop f again in
          let some_left : 0 < left = ground (arith, missing) in
          let r = readn-Handed left again s k xs h (omega arith) in
          let run_eq : readfull_loop (suc f) again out left attempts s k
              ≡ round_end next left attempts out r.ret r.ys r.reader r.source =
            unfold readfull_loop in rw (missing, r.run_eq) in
          subst (λ z. Complete z out left (xs ++ k.coming)) (sym run_eq)
            (elim (RoundForm-cases next left attempts out r.ys r.ret r.reader r.source r.counted) [
              | nothing none_here e ↦
                  subst₂ (λ z all. Complete z out left all) (sym e)
                    (ap (λ zs. zs ++ (r.xs ++ r.source.coming)) (sym none_here) ∙ r.kept)
                    (held_up-Complete (next out left) attempts left out r.reader r.source r.xs
                      r.held
                      (λ s' h' more.
                        readfull_loop-Complete f again out left (attempts - 1) s' r.source r.xs h'
                          (omega arith) (omega (arith, r.spent))))
              | something pos e ↦
                  subst (λ z. Complete z out left (xs ++ k.coming)) (sym e)
                    (behind_round _ out r.ys left (r.xs ++ r.source.coming) _ r.at_most r.kept (
                      readfull_loop-Complete f again (out ++ r.ys) (left - length r.ys) attempts
                        r.reader r.source r.xs r.held (omega (arith, r.at_most))
                        (omega (arith, r.at_most, r.spent))))
            ])
    ]

-- With a reply that is not EINTR for each byte and for each attempt, and one more, `readfull` ends,
-- and no byte is lost or repeated: it copied at most `n` bytes, and these, the bytes that are
-- buffered and those to come are the bytes that were buffered and to come.
pub readfull-Complete :
    (n : ℕ) (again : Bool) (attempts : ℕ) (s : BufReader) (k : Source) (xs : List ℕ)
    → Buffered s xs
    → n + attempts < calm_count k.replies
    → Complete (readfull n again attempts s k) [] n (xs ++ k.coming)
unfolding readfull
readfull-Complete n again attempts s k xs h budget =
    readfull_loop-Complete (n + attempts + 1) again [] n attempts s k xs h (omega arith) budget
