-- ===== src/Bufio/Relay.antt =====
-- A writer at one end and a reader at the other: what is written and flushed is what is read.
use cc_common.Base.{
  ok_inj, ℕ, ◌+◌, ◌-◌, ◌^◌, ◌≤◌, ◌<◌, ◌≡◌, refl, sym, ap, ◌∙◌, arith, Bool, true, false, ltb, ◌==◌,
  if◌then◌else◌, ◌>>=◌, List, [], ◌∷◌, ◌++◌, take, drop, length, ok, abort, fault, no_fuel, ◌⊎◌,
  inl, inr, All, append_assoc, append-nil, length-append, Bool-cases, Outcome, lt→ltb, ge→ltb,
}
use native.Mathlib.Decide.{dec_le}
use mathlib.Core.Path.{subst}
use cc_common.Slice.{store}
use cc_common.Bufio.{
  Answer, refused, accepted, IsTaking, Sink, Reply, Source, Returned, failed, count, least,
}
use cc_common.Bufio.Writer.{BufWriter, bufsize, Wrote, flush_loop, flush, keep, after_flush, writen}
use cc_common.Bufio.Flush.{Pending, flush-Flushed, flush_open, take_all, IsLive}
use cc_common.Bufio.Delivery.{keep-Written, writen_open, taken}
use cc_common.Bufio.Reader.{BufReader, readfull}
use cc_common.Bufio.Fill.{Buffered, calm_count}
use cc_common.Bufio.Whole.{IsGood, Going, readfull-Whole}

-- A program that writes some messages, each whole, and flushes; it stops where that fails.
unfoldable pub went_on : (BufWriter → Sink → Wrote) → ℕ → Returned → BufWriter → Sink → Wrote
went_on next n failed s k = ok (failed, s, k)
went_on next n (count i) s k = if i == n then next s k else ok (failed, s, k)

unfoldable pub write_all : List (List ℕ) → BufWriter → Sink → Wrote
write_all [] s k = flush s k
write_all (b ∷ bs) s k =
    writen b (length b) s k >>= (λ r. went_on (write_all bs) (length b) r.0 r.1 r.2)

abbrev pub joined : List (List ℕ) → List ℕ
joined [] = []
joined (b ∷ bs) = b ++ joined bs

-- An answer that takes something is one that makes progress.
All-IsLive : (answers : List Answer) → All IsTaking answers → All IsLive answers
All-IsLive [] h = tt
All-IsLive (refused ∷ rest) h = absurd h.0
All-IsLive (accepted k ∷ rest) h = (h.0, All-IsLive rest h.1)

flush_loop-count :
    (answers : List Answer) (s s' : BufWriter) (w n : ℕ) (sent : List ℕ) (k' : Sink)
    (ret : Returned)
    → All IsTaking answers
    → flush_loop answers s w n sent ≡ ok (ret, s', k')
    → (ret ≡ count 0) × All IsTaking k'.answers
unfolding flush_loop
flush_loop-count [] s s' w n sent k' ret h e = elim (Bool-cases (n == 0)) [
  | inl done ↦
      let left : Returned × BufWriter × Sink =
        (count 0, record s { n = 0 }, record { sent = sent; answers = [] }) in
      let at_end : ok left ≡ ok (ret, s', k') = sym (rw done) ∙ e in
      subst (λ p. (p.0 ≡ count 0) × All IsTaking p.2.answers) (ok_inj at_end) (refl, tt)
  | inr more ↦ let stuck : ◌≡◌ {A = Wrote} no_fuel (ok (ret, s', k')) = sym (rw more) ∙ e in cc
]
flush_loop-count (refused ∷ rest) s s' w n sent k' ret h e = absurd h.0
flush_loop-count (accepted j ∷ rest) s s' w n sent k' ret h e = elim (Bool-cases (n == 0)) [
  | inl done ↦
      let left : Returned × BufWriter × Sink =
        (count 0, record s { n = 0 }, record { sent = sent; answers = accepted j ∷ rest }) in
      let at_end : ok left ≡ ok (ret, s', k') = sym (rw done) ∙ e in
      subst (λ p. (p.0 ≡ count 0) × All IsTaking p.2.answers) (ok_inj at_end) (refl, h)
  | inr more ↦
      flush_loop-count rest s s' (w + least j n) (n - least j n)
        (sent ++ take (least j n) (drop w s.buf)) k' ret h.1 (sym (rw more) ∙ e)
]

-- What `keep` leaves, if it ends.
keep_left :
    (b : List ℕ) (n : ℕ) (s s' : BufWriter) (k k' : Sink) (ret : Returned)
    → keep b n s k ≡ ok (ret, s', k')
    → (ret ≡ count n) × (k' ≡ k) × (s'.n ≡ s.n + n) × (s'.is_open ≡ s.is_open)
unfolding keep
keep_left b n s s' k k' ret e = stored (store s.buf s.n (take n b)) e
  where
    left_by : List ℕ → Wrote
    left_by buf = ok (count n, record s { n = s.n + n; buf = buf }, k)

    stored :
        (m : Outcome (List ℕ))
        → (m >>= left_by) ≡ ok (ret, s', k')
        → (ret ≡ count n) × (k' ≡ k) × (s'.n ≡ s.n + n) × (s'.is_open ≡ s.is_open)
    stored (ok buf) e =
        subst (λ p. (p.0 ≡ count n) × (p.2 ≡ k) × (p.1.n ≡ s.n + n) × (p.1.is_open ≡ s.is_open))
          (ok_inj e) (refl, refl, refl, refl)
    stored abort e = cc
    stored fault e = cc
    stored no_fuel e = cc

-- Where a writer stands that took all bytes that it was given: `all` is sent or buffered, and there are
-- answers for what is buffered and `more` bytes.
pub record Writing (s : BufWriter) (k : Sink) (all : List ℕ) (more : ℕ) : Type 0 where
  pub left : List ℕ
  pub opened : s.is_open ≡ true
  pub held : Pending s left
  pub kept : k.sent ++ left ≡ all
  pub taking : All IsTaking k.answers
  pub enough : length left + more ≤ length k.answers

keep-Writing :
    (b : List ℕ) (s : BufWriter) (k : Sink) (all : List ℕ) (more : ℕ)
    → (w : Writing s k all (length b + more)) → length b + length w.left ≤ bufsize
    → (s' : BufWriter) × (k' : Sink) × (keep b (length b) s k ≡ ok (count (length b), s', k'))
      × Writing s' k' (all ++ b) more
keep-Writing b s k all more w room =
    let z = keep-Written b (length b) s k w.left w.held (omega arith) room in
    let (ret, sink, n, fd) = keep_left b (length b) s z.writer k z.sink z.ret z.run_eq in
    let size : length z.left ≡ length w.left + length b =
      omega (arith, z.held.n_eq, n, w.held.n_eq) in
    let whole : take (taken z.ret) b ≡ b = ap (λ r. take (taken r) b) ret ∙ take_all b in
    (
      z.writer,
      z.sink,
      z.run_eq ∙ ap (λ r. ok (r, z.writer, z.sink)) ret,
      record {
        left = z.left;
        opened = fd ∙ w.opened;
        held = z.held;
        kept = z.kept ∙ ap (λ ys. (k.sent ++ w.left) ++ ys) whole ∙ ap (λ ys. ys ++ b) w.kept;
        taking = subst (λ x. All IsTaking x.answers) (sym sink) w.taking;
        enough = omega (arith, size, w.enough, ap (λ (x : Sink). length x.answers) sink);
      },
    )

flush-Writing :
    (s : BufWriter) (k : Sink) (all : List ℕ) (more : ℕ)
    → Writing s k all more
    → (s' : BufWriter) × (k' : Sink) × (flush s k ≡ ok (count 0, s', k'))
      × Pending s' []
      × Writing s' k' all more
      × (k'.sent ≡ all)
flush-Writing s k all more w =
    let f =
      flush-Flushed s k w.left w.opened w.held
        (All-IsLive k.answers w.taking, omega (arith, w.enough)) in
    let looped = sym (flush_open s k w.opened) ∙ f.run_eq in
    let (done, taking) =
      flush_loop-count k.answers s f.writer 0 s.n k.sent f.sink f.ret w.taking looped in
    let empty : f.left ≡ [] = was_emptied f.ret f.left f.emptied done in
    let held : Pending f.writer [] = subst (Pending f.writer) empty f.held in
    let sent : f.sink.sent ++ [] ≡ all =
      ap (λ ys. f.sink.sent ++ ys) (sym empty) ∙ f.kept ∙ w.kept in
    (
      f.writer,
      f.sink,
      f.run_eq ∙ ap (λ r. ok (r, f.writer, f.sink)) done,
      held,
      record {
        left = [];
        opened = f.same_fd ∙ w.opened;
        held = held;
        kept = sent;
        taking = taking;
        enough = omega (arith, f.spent, w.enough);
      },
      sym (append-nil f.sink.sent) ∙ sent,
    )
  where
    was_emptied :
        (ret : Returned) (left : List ℕ)
        → (ret ≡ failed) ⊎ ((ret ≡ count 0) × (left ≡ []))
        → ret ≡ count 0
        → left ≡ []
    was_emptied ret left (inl bad) done = cc
    was_emptied ret left (inr good) done = good.1

Pending-le : (s : BufWriter) (xs : List ℕ) → Pending s xs → s.n ≤ bufsize
Pending-le s xs h =
    omega (arith, h.n_eq, h.size, ap (length {A = ℕ}) h.buf_eq, length-append xs h.spare)

writen-Writing :
    (b : List ℕ) (s : BufWriter) (k : Sink) (all : List ℕ) (more : ℕ)
    → length b ≤ bufsize
    → Writing s k all (length b + more)
    → (s' : BufWriter) × (k' : Sink) × (writen b (length b) s k ≡ ok (count (length b), s', k'))
      × Writing s' k' (all ++ b) more
writen-Writing b s k all more small w =
    let room = Pending-le s w.left w.held in
    let sum_fits : length b + s.n < 2 ^ 31 = omega (arith, small, room) in
    elim (dec_le (length b + length w.left) bufsize) [
      | yes fits ↦
          let (s', k', kept, w') = keep-Writing b s k all more w fits in
          let no_flush : ltb bufsize (length b + s.n) ≡ false =
            ge→ltb bufsize (length b + s.n) (omega (arith, w.held.n_eq)) in
          (s', k', writen_open b (length b) s k w.opened sum_fits ∙ rw no_flush kept, w')
      | no over ↦
          let flushing : ltb bufsize (length b + s.n) ≡ true =
            lt→ltb bufsize (length b + s.n) (omega (arith, w.held.n_eq)) in
          let not_through : ltb bufsize (length b) ≡ false = ge→ltb bufsize (length b) small in
          let (s1, k1, flushed, held, w1, sent) = flush-Writing s k all (length b + more) w in
          let empty : length w1.left ≡ 0 = omega (arith, w1.held.n_eq, held.n_eq) in
          let (s', k', kept, w') = keep-Writing b s1 k1 all more w1 (omega (arith, empty)) in
          (
            s',
            k',
            writen_open b (length b) s k w.opened sum_fits
                ∙ (unfold after_flush in rw (flushing, flushed, not_through) kept),
            w',
          )
    ]

write_all-Writing :
    (bs : List (List ℕ)) (s : BufWriter) (k : Sink) (all : List ℕ)
    → All (λ b. length b ≤ bufsize) bs
    → Writing s k all (length (joined bs))
    → (s' : BufWriter) × (k' : Sink) × (write_all bs s k ≡ ok (count 0, s', k'))
      × (k'.sent ≡ all ++ joined bs)
unfolding write_all went_on
write_all-Writing [] s k all small w =
    let (s', k', flushed, held, w', sent) = flush-Writing s k all 0 w in
    (s', k', flushed, sent ∙ sym (append-nil all))
write_all-Writing (b ∷ bs) s k all small w =
    let size : length (b ++ joined bs) ≡ length b + length (joined bs) =
      length-append b (joined bs) in
    let w0 : Writing s k all (length b + length (joined bs)) = subst (Writing s k all) size w in
    let (s1, k1, written, w1) = writen-Writing b s k all (length (joined bs)) small.0 w0 in
    let (s', k', rest, sent) = write_all-Writing bs s1 k1 (all ++ b) small.1 w1 in
    let same : (length b == length b) ≡ true = ground arith in
    (s', k', rw (written, same) rest, sent ∙ append_assoc all b (joined bs))

-- What one end writes, in messages of a buffer's size at most, and flushes, the other end reads, whole
-- and in order: the writer and the reader are open and empty, every `write` takes something, every
-- `read` brings something, or is EINTR where that is retried, and there are enough of them.
pub readfull-write_all :
    (bs : List (List ℕ)) (s : BufWriter) (answers : List Answer) (again : Bool) (attempts : ℕ)
    (r : BufReader) (replies : List Reply)
    → All (λ b. length b ≤ bufsize) bs
    → s.is_open ≡ true
    → Pending s []
    → All IsTaking answers
    → length (joined bs) ≤ length answers
    → r.is_open ≡ true
    → r.eof ≡ false
    → Buffered r []
    → All (IsGood again) replies
    → length (joined bs) + attempts < calm_count replies
    → (s' : BufWriter) × (k' : Sink) × (r' : BufReader) × (src : Source) × (write_all bs s
          (record { sent = []; answers = answers })
        ≡ ok (count 0, s', k'))
      × (readfull
            (length (joined bs))
            again
            attempts
            r
            (record { coming = k'.sent; replies = replies; errno = 0 })
          ≡ ok (joined bs, r', src))
readfull-write_all bs s answers again attempts r replies small fd held taking enough fd' going held'
      good calm =
    let k : Sink = record { sent = []; answers = answers } in
    let w : Writing s k [] (length (joined bs)) = record {
      left = [];
      opened = fd;
      held = held;
      kept = refl;
      taking = taking;
      enough = omega arith;
    } in
    let (s', k', written, sent) = write_all-Writing bs s k [] small w in
    let src : Source = record { coming = k'.sent; replies = replies; errno = 0 } in
    let g : Going again r src = record { opened = fd'; going = going; good = good } in
    let there : length k'.sent ≡ length (joined bs) = ap (length {A = ℕ}) sent in
    let (r', src', left, read, held'', rest) =
      readfull-Whole (length (joined bs)) again attempts r src [] g held' (omega (arith, there))
        calm in
    (
      s',
      k',
      r',
      src',
      written,
      read
          ∙ ap (λ ys. ok (take (length (joined bs)) ys, r', src')) sent
          ∙ ap (λ ys. ok (ys, r', src')) (take_all (joined bs)),
    )
