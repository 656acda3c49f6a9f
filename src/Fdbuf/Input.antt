-- ===== src/Fdbuf/Input.antt =====
-- The bytes of the input are handed out in order, and the last of them stay in the get area.
use cc_common.Base.{
  ℕ, zero, suc, ◌+◌, ◌-◌, ◌≤◌, ◌<◌, ◌≡◌, refl, sym, ap, ◌∙◌, arith, true, false, leb, ◌==◌, List,
  [], ◌∷◌, ◌++◌, length, take, drop, some, none, Option, ok, append_assoc, append-nil,
  length-append, length-drop, take-drop-append, Outcome,
}
use mathlib.Core.Path.{subst}
use cc_common.Bufio.{Reply, erred, ready, Source, least}
use cc_common.Fdbuf.{Fdbuf, bufsize, back_size, pback, kept_back, front, refill, underflow}
use cc_common.Fdbuf.Stream.{passed, sbumpc, with_got, get_all}

-- The get area lies in `inbuf_`.
abbrev pub InBlock : Fdbuf → Type 0
InBlock s = length s.back + length s.ahead ≤ bufsize + back_size

abbrev pub EndsWith : List ℕ → List ℕ → Type 0
EndsWith xs ys = (pre : List ℕ) × (xs ≡ pre ++ ys)

-- A call of `refill`, where the get area is empty.
pub record Refilled (s : Fdbuf) (k : Source) (n : ℕ) : Type 0 where
  pub buf : Fdbuf
  pub source : Source
  pub run_eq : refill k.replies s k ≡ ok (buf, source)
  pub back_eq : buf.back ≡ kept_back s
  pub in_order : buf.ahead ++ source.coming ≡ k.coming
  pub at_most : length buf.ahead ≤ bufsize
  pub spent : n ≤ length source.replies

length-take-le : (n : ℕ) (xs : List ℕ) → length (take n xs) ≤ n
length-take-le zero xs = omega arith
length-take-le (suc n) [] = omega arith
length-take-le (suc n) (x ∷ xs) = omega (arith, length-take-le n xs)

refill-Refilled :
    (replies : List Reply) (s : Fdbuf) (k : Source) (n : ℕ)
    → k.replies ≡ replies
    → n < length replies
    → Refilled s k n
unfolding refill
refill-Refilled [] s k n e more = absurd (omega arith)
refill-Refilled (erred i ∷ rest) s k n e more = record {
  buf = record s { back = kept_back s; ahead = [] };
  source = record k { replies = rest; errno = i };
  run_eq = rw e;
  back_eq = refl;
  in_order = refl;
  at_most = omega arith;
  spent = omega arith;
}
refill-Refilled (ready j ∷ rest) s k n e more = record {
  buf = record s { back = kept_back s; ahead = take (least j bufsize) k.coming };
  source = record k { coming = drop (least j bufsize) k.coming; replies = rest };
  run_eq = rw e;
  back_eq = refl;
  in_order = take-drop-append (least j bufsize) k.coming;
  at_most = ground (arith, length-take-le (least j bufsize) k.coming);
  spent = omega arith;
}

-- What is kept before `gptr()`.
length-kept_back : (s : Fdbuf) → length (kept_back s) ≡ pback s
length-kept_back s = ground (arith, length-drop (length s.back - pback s) s.back)

-- Where a reader stands that passed `seen`: the bytes before `gptr()` are the last of these, all or at
-- least `back_size`.
pub record Reading (seen : List ℕ) (s : Fdbuf) : Type 0 where
  pub in_block : InBlock s
  pub back_end : EndsWith seen s.back
  pub back_enough : least (length seen) back_size ≤ length s.back

-- One that ends normally with `got` handed out, where `seen` was passed before it: what it hands out,
-- what is ahead and what is to come are `all`, in order.
pub record Fed (run : Outcome (List ℕ × Fdbuf × Source)) (seen all : List ℕ) (n : ℕ) : Type 0 where
  pub got : List ℕ
  pub buf : Fdbuf
  pub source : Source
  pub run_eq : run ≡ ok (got, buf, source)
  pub in_order : got ++ (buf.ahead ++ source.coming) ≡ all
  pub reading : Reading (seen ++ got) buf
  pub spent : n ≤ length source.replies

-- A call of `underflow`.
record Underflowed (s : Fdbuf) (k : Source) (seen : List ℕ) (n : ℕ) : Type 0 where
  buf : Fdbuf
  source : Source
  run_eq : underflow s k ≡ ok (front buf.ahead, buf, source)
  in_order : buf.ahead ++ source.coming ≡ s.ahead ++ k.coming
  reading : Reading seen buf
  spent : n ≤ length source.replies

kept_back-EndsWith :
    (seen : List ℕ) (s : Fdbuf) → EndsWith seen s.back → EndsWith seen (kept_back s)
kept_back-EndsWith seen s (pre, e) =
    let m : ℕ = length s.back - pback s in
    (
      pre ++ take m s.back,
      e
          ∙ ap (λ ys. pre ++ ys) (sym (take-drop-append m s.back))
          ∙ sym (append_assoc pre (take m s.back) (drop m s.back)),
    )

underflow_empty :
    (s : Fdbuf) (k : Source) (seen : List ℕ) (n : ℕ)
    → s.ahead ≡ []
    → Reading seen s
    → n < length k.replies
    → Underflowed s k seen n
unfolding underflow
underflow_empty s k seen n e r more =
    let f = refill-Refilled k.replies s k n refl more in
    let size : length f.buf.back ≡ pback s = ap (length {A = ℕ}) f.back_eq ∙ length-kept_back s in
    let empty : (length s.ahead == 0) ≡ true = ap (λ (ys : List ℕ). length ys == 0) e in
    let room : leb (pback s + bufsize) (bufsize + back_size) ≡ true = ground arith in
    record {
      buf = f.buf;
      source = f.source;
      run_eq = rw (empty, room, f.run_eq);
      in_order = f.in_order ∙ sym (ap (λ ys. ys ++ k.coming) e);
      reading = record {
        in_block = ground (arith, size, f.at_most);
        back_end = rw f.back_eq (kept_back-EndsWith seen s r.back_end);
        back_enough = ground (arith, size, r.back_enough);
      };
      spent = f.spent;
    }

underflow-Underflowed :
    (ahead : List ℕ) (s : Fdbuf) (k : Source) (seen : List ℕ) (n : ℕ)
    → s.ahead ≡ ahead
    → Reading seen s
    → n < length k.replies
    → Underflowed s k seen n
unfolding underflow
underflow-Underflowed [] s k seen n e r more = underflow_empty s k seen n e r more
underflow-Underflowed (c ∷ cs) s k seen n e r more =
    let some_left : (length s.ahead == 0) ≡ false =
      ap (λ (ys : List ℕ). length ys == 0) e ∙ ground arith in
    record {
      buf = s;
      source = k;
      run_eq = rw some_left;
      in_order = refl;
      reading = r;
      spent = omega arith;
    }

-- A call that hands out one character or none.
record Passed (run : Outcome (Option ℕ × Fdbuf × Source)) (seen all : List ℕ) (n : ℕ) : Type 0 where
  char : Option ℕ
  buf : Fdbuf
  source : Source
  run_eq : run ≡ ok (char, buf, source)
  in_order : with_got char [] ++ (buf.ahead ++ source.coming) ≡ all
  reading : Reading (seen ++ with_got char []) buf
  spent : n ≤ length source.replies

passed-Passed :
    (ahead : List ℕ) (s : Fdbuf) (k : Source) (seen : List ℕ) (n : ℕ)
    → s.ahead ≡ ahead
    → Reading seen s
    → n ≤ length k.replies
    → Passed (ok (passed ahead s k)) seen (s.ahead ++ k.coming) n
unfolding passed
passed-Passed [] s k seen n e r more = record {
  char = none;
  buf = s;
  source = k;
  run_eq = refl;
  in_order = refl;
  reading = subst (λ ys. Reading ys s) (sym (append-nil seen)) r;
  spent = more;
}
passed-Passed (c ∷ cs) s k seen n e r more =
    let (pre, split) = r.back_end in
    let size : length s.ahead ≡ suc (length cs) = ap (length {A = ℕ}) e in
    let longer : length (s.back ++ c ∷ []) ≡ length s.back + 1 = length-append s.back (c ∷ []) in
    record {
      char = some c;
      buf = record s { back = s.back ++ c ∷ []; ahead = cs };
      source = k;
      run_eq = refl;
      in_order = ap (λ ys. ys ++ k.coming) (sym e);
      reading = record {
        in_block = omega (arith, longer, r.in_block, size);
        back_end = (pre, ap (λ ys. ys ++ c ∷ []) split ∙ append_assoc pre s.back (c ∷ []));
        back_enough = ground (arith, longer, length-append seen (c ∷ []), r.back_enough);
      };
      spent = more;
    }

sbumpc-Passed :
    (s : Fdbuf) (k : Source) (seen : List ℕ) (n : ℕ)
    → Reading seen s
    → n < length k.replies
    → Passed (sbumpc s k) seen (s.ahead ++ k.coming) n
unfolding sbumpc
sbumpc-Passed s k seen n r more =
    let u = underflow-Underflowed s.ahead s k seen n refl r more in
    let p = passed-Passed u.buf.ahead u.buf u.source seen n refl u.reading u.spent in
    record {
      char = p.char;
      buf = p.buf;
      source = p.source;
      run_eq = rw u.run_eq p.run_eq;
      in_order = p.in_order ∙ u.in_order;
      reading = p.reading;
      spent = p.spent;
    }

with_got-append : (c : Option ℕ) (xs : List ℕ) → with_got c xs ≡ with_got c [] ++ xs
with_got-append none xs = refl
with_got-append (some c) xs = refl

-- If the get area lies in its block, with the last bytes that were passed before `gptr()`, all or at
-- least 12, and there is a reply for each of `n` calls of `sbumpc`, the calls end normally, whatever
-- the replies: the bytes they hand out, those ahead and those to come are what was ahead and to come,
-- in order. The get area still lies in its block, with the last bytes that were passed before
-- `gptr()`, all or at least 12.
pub get_all-Fed :
    (n : ℕ) (s : Fdbuf) (k : Source) (seen : List ℕ)
    → Reading seen s
    → n ≤ length k.replies
    → Fed (get_all n s k) seen (s.ahead ++ k.coming) (length k.replies - n)
unfolding get_all
get_all-Fed zero s k seen r more = record {
  got = [];
  buf = s;
  source = k;
  run_eq = refl;
  in_order = refl;
  reading = subst (λ ys. Reading ys s) (sym (append-nil seen)) r;
  spent = omega arith;
}
get_all-Fed (suc n) s k seen r more =
    let p = sbumpc-Passed s k seen (length k.replies - 1) r (omega arith) in
    let one : List ℕ = with_got p.char [] in
    let f = get_all-Fed n p.buf p.source (seen ++ one) p.reading (omega (arith, p.spent)) in
    let joined = with_got-append p.char f.got in
    record {
      got = with_got p.char f.got;
      buf = f.buf;
      source = f.source;
      run_eq = rw (p.run_eq, f.run_eq);
      in_order =
          ap (λ ys. ys ++ (f.buf.ahead ++ f.source.coming)) joined
          ∙ append_assoc one f.got (f.buf.ahead ++ f.source.coming)
          ∙ ap (λ ys. one ++ ys) f.in_order
          ∙ p.in_order;
      reading =
          subst (λ ys. Reading ys f.buf)
            (append_assoc seen one f.got ∙ ap (λ ys. seen ++ ys) (sym joined)) f.reading;
      spent = omega (arith, p.spent, f.spent);
    }
