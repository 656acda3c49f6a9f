-- ===== src/Bufio/Delivery.antt =====
-- `BufWriter::writen` loses and repeats no byte: what was sent and what is buffered are, in order, the
-- bytes that it took.
use cc_common.Base.{
  ℕ, ◌+◌, ◌-◌, ◌^◌, leb, gt→leb, fault, ◌≤◌, ◌<◌, ◌≡◌, refl, sym, ap, ◌∙◌, arith, ◌>>=◌, true,
  false, ltb, if◌then◌else◌, List, [], ◌∷◌, ◌++◌, take, drop, length, ok, inl, inr, lt→ltb, ge→ltb,
  append_assoc, append-nil, length-append, length-take, length-drop,
}
use native.Mathlib.Decide.{dec_le, dec_lt}
use mathlib.Core.Path.{subst}
use cc_common.Slice.Append.{store_end}
use cc_common.Bufio.{Answer, refused, accepted, Sink, Returned, failed, count, least}
use cc_common.Bufio.Writer.{
  BufWriter, bufsize, Wrote, flush, write_through, keep, after_flush, writen,
}
use cc_common.Bufio.Flush.{Pending, AreLive, Flushed, least-le, flush-Flushed}

-- How many bytes a return value says were taken.
abbrev pub taken : Returned → ℕ
taken failed = 0
taken (count n) = n

-- A call of `writen` that ends: it took the first bytes of `b`, as many as it returns, and what is
-- sent and buffered are the bytes before the call and these.
pub record Written (run : Wrote) (n : ℕ) (b before : List ℕ) : Type 0 where
  pub ret : Returned
  pub writer : BufWriter
  pub sink : Sink
  pub left : List ℕ
  pub run_eq : run ≡ ok (ret, writer, sink)
  pub at_most : taken ret ≤ n
  pub held : Pending writer left
  pub kept : sink.sent ++ left ≡ before ++ take (taken ret) b

pub keep-Written :
    (b : List ℕ) (n : ℕ) (s : BufWriter) (k : Sink) (xs : List ℕ)
    → Pending s xs
    → n ≤ length b
    → n + length xs ≤ bufsize
    → Written (keep b n s k) n b (k.sent ++ xs)
unfolding keep
keep-Written b n s k xs h enough room =
    let size : length (take n b) ≡ n = length-take n b enough in
    let whole : length (xs ++ h.spare) ≡ bufsize = ap (length {A = ℕ}) (sym h.buf_eq) ∙ h.size in
    let fits : length (take n b) ≤ length h.spare =
      omega (arith, size, whole, length-append xs h.spare) in
    record {
      ret = count n;
      writer = record s { n = s.n + n; buf = (xs ++ take n b) ++ drop (length (take n b)) h.spare };
      sink = k;
      left = xs ++ take n b;
      run_eq = rw (h.buf_eq, store_end xs h.spare (take n b) s.n h.n_eq fits);
      at_most = omega arith;
      held = record {
        spare = drop (length (take n b)) h.spare;
        buf_eq = refl;
        n_eq = omega (arith, h.n_eq, size, length-append xs (take n b));
        size = omega (
          arith,
          length-append (xs ++ take n b) (drop (length (take n b)) h.spare),
          length-append xs (take n b),
          length-drop (length (take n b)) h.spare,
          fits,
          whole,
          length-append xs h.spare,
        );
      };
      kept = sym (append_assoc k.sent xs (take n b));
    }

through-Written :
    (b : List ℕ) (n : ℕ) (s : BufWriter) (k : Sink) (answers : List Answer)
    → Pending s []
    → 0 < length answers
    → Written (write_through b n s k answers) n b k.sent
unfolding write_through
through-Written b n s k [] h some_left = absurd (omega arith)
through-Written b n s k (refused ∷ rest) h some_left = record {
  ret = failed;
  writer = s;
  sink = record k { answers = rest };
  left = [];
  run_eq = refl;
  at_most = omega arith;
  held = h;
  kept = refl;
}
through-Written b n s k (accepted j ∷ rest) h some_left = record {
  ret = count (least j n);
  writer = s;
  sink = record k { sent = k.sent ++ take (least j n) b; answers = rest };
  left = [];
  run_eq = refl;
  at_most = least-le j n;
  held = h;
  kept = append-nil (k.sent ++ take (least j n) b);
}

pub writen_open :
    (b : List ℕ) (n : ℕ) (s : BufWriter) (k : Sink)
    → s.is_open ≡ true
    → n + s.n < 2 ^ 31
    → writen b n s k ≡ (
        if ltb bufsize (n + s.n)
        then flush s k >>= (λ r. after_flush b n r.0 r.1 r.2)
        else keep b n s k)
unfolding writen
writen_open b n s k fd small =
    let sum_fits : leb (2 ^ 31) (n + s.n) ≡ false = gt→leb (2 ^ 31) (n + s.n) small in
    ap
      (λ o.
        if o
        then (if leb (2 ^ 31) (n + s.n)
            then fault
            else if ltb bufsize (n + s.n)
            then flush s k >>= (λ r. after_flush b n r.0 r.1 r.2)
            else keep b n s k)
        else ok (count 0, s, k))
      fd
    ∙ rw sum_fits

-- The end of a call after its flush.
after-Written :
    (b : List ℕ) (n : ℕ) (s : BufWriter) (run : Wrote) (all : List ℕ) (budget : ℕ)
    → n ≤ length b
    → 0 < budget
    → Flushed run s all budget
    → Written (run >>= (λ r. after_flush b n r.0 r.1 r.2)) n b all
after-Written b n s run all budget enough pos f = elim f.emptied [
  | inl bad ↦ record {
    ret = failed;
    writer = f.writer;
    sink = f.sink;
    left = f.left;
    run_eq = unfold after_flush in rw (f.run_eq, bad);
    at_most = omega arith;
    held = f.held;
    kept = f.kept ∙ sym (append-nil all);
  }
  | inr good ↦
      let empty : Pending f.writer [] = subst (Pending f.writer) good.1 f.held in
      let sent_all : f.sink.sent ≡ all =
        sym (append-nil f.sink.sent) ∙ ap (λ ys. f.sink.sent ++ ys) (sym good.1) ∙ f.kept in
      subst (λ ys. Written (run >>= (λ r. after_flush b n r.0 r.1 r.2)) n b ys) sent_all
        (elim (dec_lt bufsize n) [
          | yes large ↦
              let w =
                through-Written b n f.writer f.sink f.sink.answers empty (omega (arith, f.spent)) in
              record {
                ret = w.ret;
                writer = w.writer;
                sink = w.sink;
                left = w.left;
                run_eq =
                    unfold after_flush in rw (f.run_eq, good.0, lt→ltb bufsize n large) w.run_eq;
                at_most = w.at_most;
                held = w.held;
                kept = w.kept;
              }
          | no fitting ↦
              let w = keep-Written b n f.writer f.sink [] empty enough (omega arith) in
              record {
                ret = w.ret;
                writer = w.writer;
                sink = w.sink;
                left = w.left;
                run_eq =
                    unfold after_flush in
                    rw (f.run_eq, good.0, ge→ltb bufsize n (omega arith)) w.run_eq;
                at_most = w.at_most;
                held = w.held;
                kept = w.kept ∙ ap (λ ys. ys ++ take (taken w.ret) b) (append-nil f.sink.sent);
              }
        ])
]

-- On an open descriptor with one answer more than bytes are buffered, where each answer is an error
-- or makes progress, and `n` and the number of buffered bytes have a sum below 2 ^ 31, `writen` of
-- `n` bytes ends: it took the first bytes of `b`, as many as it
-- returns, none if it failed, and what is sent and buffered is what was before, and these.
pub writen-Written :
    (b : List ℕ) (n : ℕ) (s : BufWriter) (k : Sink) (xs : List ℕ)
    → s.is_open ≡ true
    → Pending s xs
    → n ≤ length b
    → n + length xs < 2 ^ 31
    → AreLive k.answers (length xs)
    → length xs < length k.answers
    → Written (writen b n s k) n b (k.sent ++ xs)
writen-Written b n s k xs fd h enough small live more = elim (dec_le (n + length xs) bufsize) [
  | yes fits ↦
      let w = keep-Written b n s k xs h enough fits in
      let fitting : ltb bufsize (n + s.n) ≡ false =
        ge→ltb bufsize (n + s.n) (omega (arith, h.n_eq)) in
      record {
        ret = w.ret;
        writer = w.writer;
        sink = w.sink;
        left = w.left;
        run_eq = writen_open b n s k fd (omega (arith, h.n_eq)) ∙ rw fitting w.run_eq;
        at_most = w.at_most;
        held = w.held;
        kept = w.kept;
      }
  | no over ↦
      let w =
        after-Written b n s (flush s k) (k.sent ++ xs) (length k.answers - length xs) enough
          (omega arith) (flush-Flushed s k xs fd h live) in
      let large : ltb bufsize (n + s.n) ≡ true = lt→ltb bufsize (n + s.n) (omega (arith, h.n_eq)) in
      record {
        ret = w.ret;
        writer = w.writer;
        sink = w.sink;
        left = w.left;
        run_eq = writen_open b n s k fd (omega (arith, h.n_eq)) ∙ rw large w.run_eq;
        at_most = w.at_most;
        held = w.held;
        kept = w.kept;
      }
]
