-- ===== src/Bufio/Flush.antt =====
-- `BufWriter::flush` loses and repeats no byte: what was sent and what is buffered are, in order, what was
-- buffered.
use cc_common.Base.{
  ℕ, suc, ◌+◌, ◌-◌, ◌≤◌, ◌<◌, ◌≡◌, refl, sym, ap, ◌∙◌, arith, true, false, ◌==◌, if◌then◌else◌,
  List, [], ◌∷◌, ◌++◌, take, drop, length, ok, ◌⊎◌, inl, inr, All, append_assoc, append-nil,
  length-append, length-take, length-drop, drop-append, take-append, take-append-le,
  take-drop-append,
}
use native.Mathlib.Nat.{add-zero}
use cc_common.Slice.Append.{store_end}
use cc_common.Bufio.{Answer, refused, accepted, Sink, Returned, failed, count, least}
use cc_common.Bufio.Writer.{BufWriter, bufsize, Wrote, moved_down, flush_loop, flush}

-- The buffer starts with the bytes `xs`, and they are all that is kept.
pub record Pending (s : BufWriter) (xs : List ℕ) : Type 0 where
  pub spare : List ℕ
  pub buf_eq : s.buf ≡ xs ++ spare
  pub n_eq : s.n ≡ length xs
  pub size : length s.buf ≡ bufsize

-- An answer that makes progress.
abbrev pub IsLive : Answer → Type 0
IsLive refused = Unit
IsLive (accepted k) = 0 < k

-- There are answers for a `write` of each byte, and each makes progress.
abbrev pub AreLive : List Answer → ℕ → Type 0
AreLive answers n = All IsLive answers × (n ≤ length answers)

-- A call that ends normally: `all` is what was sent and what is buffered, in order, and a failed
-- call is the only one that keeps bytes in the buffer. At least `budget` answers are left.
pub record Flushed (run : Wrote) (s : BufWriter) (all : List ℕ) (budget : ℕ) : Type 0 where
  pub ret : Returned
  pub writer : BufWriter
  pub sink : Sink
  pub left : List ℕ
  pub run_eq : run ≡ ok (ret, writer, sink)
  pub held : Pending writer left
  pub kept : sink.sent ++ left ≡ all
  pub emptied : (ret ≡ failed) ⊎ ((ret ≡ count 0) × (left ≡ []))
  pub same_fd : writer.is_open ≡ s.is_open
  pub spent : budget ≤ length sink.answers

pub least-le : (k n : ℕ) → least k n ≤ n
least-le k n = ground arith

least-pos : (k n : ℕ) → 0 < k → 0 < n → 0 < least k n
least-pos k n hk hn = ground arith

-- Where the loop stands: `gone` is sent, `xs` is left, and they are the bytes of the buffer.
pub record Midway (s : BufWriter) (gone xs : List ℕ) : Type 0 where
  pub spare : List ℕ
  pub buf_eq : s.buf ≡ gone ++ (xs ++ spare)
  pub n_eq : s.n ≡ length gone + length xs
  pub size : length s.buf ≡ bufsize

from_here :
    (s : BufWriter) (gone xs : List ℕ) (m : Midway s gone xs)
    → drop (length gone) s.buf ≡ xs ++ m.spare
from_here s gone xs m =
    ap (drop (length gone)) m.buf_eq
    ∙ ap (λ k. drop k (gone ++ (xs ++ m.spare))) (sym (add-zero (length gone)))
    ∙ drop-append 0 gone (xs ++ m.spare)

take_here :
    (s : BufWriter) (gone xs : List ℕ) (i : ℕ)
    → Midway s gone xs
    → i ≤ length xs
    → take i (drop (length gone) s.buf) ≡ take i xs
take_here s gone xs i m h = rw (from_here s gone xs m) (take-append-le i xs m.spare h)

pub take_all : (xs : List ℕ) → take (length xs) xs ≡ xs
take_all xs = ap (take (length xs)) (sym (append-nil xs)) ∙ take-append xs []

moved_down_lem :
    (s : BufWriter) (gone xs : List ℕ)
    → Midway s gone xs
    → (buf : List ℕ) × (moved_down s.buf (length gone) (length xs) ≡ ok buf)
      × Pending (record s { n = s.n - length gone; buf = buf }) xs
unfolding moved_down
moved_down_lem s [] xs m = (
  s.buf,
  refl,
  record { spare = m.spare; buf_eq = m.buf_eq; n_eq = omega (arith, m.n_eq); size = m.size },
)
moved_down_lem s (g ∷ gone) xs m =
    let here : take (length xs) (drop (suc (length gone)) s.buf) ≡ xs =
      take_here s (g ∷ gone) xs (length xs) m (omega arith) ∙ take_all xs in
    let room : length xs ≤ length s.buf = omega (
      arith,
      ap (length {A = ℕ}) m.buf_eq,
      length-append (g ∷ gone) (xs ++ m.spare),
      length-append xs m.spare,
    ) in
    let more : (suc (length gone) == 0) ≡ false = ground arith in
    (
      xs ++ drop (length xs) s.buf,
      rw (more, here) (store_end [] s.buf xs 0 refl room),
      record {
        spare = drop (length xs) s.buf;
        buf_eq = refl;
        n_eq = omega (arith, m.n_eq);
        size = omega (
          arith,
          length-append xs (drop (length xs) s.buf),
          length-drop (length xs) s.buf,
          room,
          m.size,
        );
      },
    )

-- After a `write` of the next `i` bytes.
onward :
    (s : BufWriter) (gone xs : List ℕ) (i : ℕ)
    → Midway s gone xs
    → i ≤ length xs
    → Midway s (gone ++ take i xs) (drop i xs)
onward s gone xs i m h = record {
  spare = m.spare;
  buf_eq =
      m.buf_eq
      ∙ ap (λ ys. gone ++ (ys ++ m.spare)) (sym (take-drop-append i xs))
      ∙ ap (λ ys. gone ++ ys) (append_assoc (take i xs) (drop i xs) m.spare)
      ∙ sym (append_assoc gone (take i xs) (drop i xs ++ m.spare));
  n_eq =
      omega (arith, m.n_eq, length-append gone (take i xs), length-take i xs h, length-drop i xs);
  size = m.size;
}

flushed_all :
    (answers : List Answer) (s : BufWriter) (gone sent : List ℕ)
    → Midway s gone []
    → flush_loop answers s (length gone) 0 sent
      ≡ ok (count 0, record s { n = 0 }, record { sent = sent; answers = answers })
unfolding flush_loop
flushed_all [] s gone sent m = refl
flushed_all (refused ∷ rest) s gone sent m = refl
flushed_all (accepted k ∷ rest) s gone sent m = refl

flush_end :
    (answers : List Answer) (s : BufWriter) (gone sent : List ℕ)
    → Midway s gone []
    → Flushed (flush_loop answers s (length gone) 0 sent) s (sent ++ []) (length answers - 0)
flush_end answers s gone sent m = record {
  ret = count 0;
  writer = record s { n = 0 };
  sink = record { sent = sent; answers = answers };
  left = [];
  run_eq = flushed_all answers s gone sent m;
  held = record { spare = s.buf; buf_eq = refl; n_eq = refl; size = m.size };
  kept = refl;
  emptied = inr (refl, refl);
  same_fd = refl;
  spent = omega arith;
}

flush_loop_lem :
    (answers : List Answer) (s : BufWriter) (gone xs sent : List ℕ)
    → Midway s gone xs
    → AreLive answers (length xs)
    → Flushed
        (flush_loop answers s (length gone) (length xs) sent)
        s
        (sent ++ xs)
        (length answers - length xs)
unfolding flush_loop
flush_loop_lem answers s gone [] sent m live = flush_end answers s gone sent m
flush_loop_lem [] s gone (x ∷ xs) sent m live = absurd (omega arith)
flush_loop_lem (refused ∷ rest) s gone (x ∷ xs) sent m live =
    let (buf, moved, held) = moved_down_lem s gone (x ∷ xs) m in
    let more : (suc (length xs) == 0) ≡ false = ground arith in
    record {
      ret = failed;
      writer = record s { n = s.n - length gone; buf = buf };
      sink = record { sent = sent; answers = rest };
      left = x ∷ xs;
      run_eq = rw (more, moved);
      held = held;
      kept = refl;
      emptied = inl refl;
      same_fd = refl;
      spent = omega arith;
    }
flush_loop_lem (accepted k ∷ rest) s gone (x ∷ xs) sent m live =
    let ys : List ℕ = x ∷ xs in
    let i : ℕ = least k (length ys) in
    let le : i ≤ length ys = least-le k (length ys) in
    let pos : 0 < i = least-pos k (length ys) live.0.0 (omega arith) in
    let more : (suc (length xs) == 0) ≡ false = ground arith in
    let left : length (drop i ys) ≡ length ys - i = length-drop i ys in
    let past : length (gone ++ take i ys) ≡ length gone + i =
      omega (arith, length-append gone (take i ys), length-take i ys le) in
    let next =
      flush_loop_lem rest s (gone ++ take i ys) (drop i ys) (sent ++ take i ys)
        (onward s gone ys i m le) (live.0.1, omega (arith, live.1, left, pos)) in
    record {
      ret = next.ret;
      writer = next.writer;
      sink = next.sink;
      left = next.left;
      run_eq = rw (more, take_here s gone ys i m le, ← past, ← left) next.run_eq;
      held = next.held;
      kept =
          next.kept
          ∙ append_assoc sent (take i ys) (drop i ys)
          ∙ ap (λ zs. sent ++ zs) (take-drop-append i ys);
      emptied = next.emptied;
      same_fd = next.same_fd;
      spent = omega (arith, next.spent, left, pos);
    }

start : (s : BufWriter) (xs : List ℕ) → Pending s xs → Midway s [] xs
start s xs h = record {
  spare = h.spare;
  buf_eq = h.buf_eq;
  n_eq = omega (arith, h.n_eq);
  size = h.size;
}

-- On an open descriptor.
pub flush_open :
    (s : BufWriter) (k : Sink) → s.is_open ≡ true → flush s k ≡ flush_loop k.answers s 0 s.n k.sent
unfolding flush
flush_open s k fd =
    ap (λ o. if o then flush_loop k.answers s 0 s.n k.sent else ok (failed, s, k)) fd

-- On an open descriptor with an answer for each buffered byte, where each answer is an error or makes
-- progress, `flush` ends, and no byte is lost or repeated: what was sent is followed by what is still
-- buffered. If it succeeds, the buffer is empty; each byte costs an answer at most.
pub flush-Flushed :
    (s : BufWriter) (k : Sink) (xs : List ℕ)
    → s.is_open ≡ true
    → Pending s xs
    → AreLive k.answers (length xs)
    → Flushed (flush s k) s (k.sent ++ xs) (length k.answers - length xs)
flush-Flushed s k xs fd h live =
    let done = flush_loop_lem k.answers s [] xs k.sent (start s xs h) live in
    record {
      ret = done.ret;
      writer = done.writer;
      sink = done.sink;
      left = done.left;
      run_eq = flush_open s k fd ∙ ap (λ n. flush_loop k.answers s 0 n k.sent) h.n_eq ∙ done.run_eq;
      held = done.held;
      kept = done.kept;
      emptied = done.emptied;
      same_fd = done.same_fd;
      spent = done.spent;
    }
