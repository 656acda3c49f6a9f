-- ===== src/Fdbuf/Output.antt =====
-- The bytes put are sent in order, unless a `write` fails when the put area is full.
use cc_common.Base.{
  Bool, ℕ, ◌-◌, ◌≤◌, ◌<◌, ◌≡◌, refl, sym, ap, ◌∙◌, arith, ltb, ◌==◌, List, [], ◌∷◌, ◌++◌, length,
  take, drop, some, none, ok, fault, ◌>>=◌, All, append_assoc, append-nil, length-append,
  length-drop, take-drop-append, Outcome, Bool-cases, inl, inr, lt→ltb, abort, no_fuel,
  if◌then◌else◌,
}
use mathlib.Core.Path.{subst}
use cc_common.Bufio.{IsTaking, Answer, refused, accepted, Sink, least}
use cc_common.Fdbuf.{Fdbuf, bufsize, after_write, sync_with, sync, put_char, overflow}
use cc_common.Fdbuf.Stream.{sputc, Use, put, flushed, put_bytes, use_one, use_all}

-- A call that ends normally: `all` is what was sent and what is buffered, in order; the put area is
-- within its bounds, and the answers left make progress.
pub record Kept (P : Answer → Type 0) (run : Outcome (Fdbuf × Sink)) (fd : Bool) (all : List ℕ)
    (budget : ℕ) : Type 0 where
  pub buf : Fdbuf
  pub sink : Sink
  pub run_eq : run ≡ ok (buf, sink)
  pub fd_eq : buf.is_open ≡ fd
  pub kept : sink.sent ++ buf.out ≡ all
  pub bound : length buf.out < bufsize
  pub live : All P sink.answers
  pub spent : budget ≤ length sink.answers

-- A call without what it returns.
abbrev state_of {ℓ} : {A : Type ℓ} → Outcome (A × Fdbuf × Sink) → Outcome (Fdbuf × Sink)
state_of m = m >>= (λ r. ok (r.1, r.2))

-- What it returns plays no role for the state.
state_of-map {ℓ κ} :
    {A : Type ℓ} {B : Type κ} (f : A × Fdbuf × Sink → B) (m : Outcome (A × Fdbuf × Sink))
    → state_of (m >>= (λ r. ok (f r, r.1, r.2))) ≡ state_of m
state_of-map f (ok r) = refl
state_of-map f abort = refl
state_of-map f fault = refl
state_of-map f no_fuel = refl

put_bytes-cons : (u : Use) (us : List Use) → put_bytes (u ∷ us) ≡ put_bytes (u ∷ []) ++ put_bytes us
put_bytes-cons (put c) us = refl
put_bytes-cons flushed us = refl

-- `overflow` leaves what `sync` leaves.
overflow-sync :
    (c : ℕ) (s : Fdbuf) (k : Sink)
    → length s.out < bufsize
    → state_of (overflow (some c) s k) ≡ state_of (sync (record s { out = s.out ++ c ∷ [] }) k)
unfolding overflow put_char
overflow-sync c s k lt =
    rw (lt→ltb (length s.out) bufsize lt) (
      state_of-map (λ r. if r.0 then none else some c)
        (sync (record s { out = s.out ++ c ∷ [] }) k))

module _ {P : Answer → Type 0} (taking : (a : Answer) → P a → IsTaking a) where
  -- After an answer that makes progress.
  after_write-Kept :
      (a : Answer) (rest : List Answer) (s : Fdbuf) (k : Sink)
      → 0 < length s.out
      → length s.out ≤ bufsize
      → P a
      → All P rest
      → Kept P
          (ok (after_write a s (record k { answers = rest })))
          s.is_open
          (k.sent ++ s.out)
          (length rest)
  unfolding after_write
  after_write-Kept refused rest s k pos le h all = absurd (taking refused h)
  after_write-Kept (accepted j) rest s k pos le h all =
      let more_than_none : 0 < j = taking (accepted j) h in
      let done : ℕ = least j (length s.out) in
      let some_done : 0 < done = ground arith in
      record {
        buf = record s { out = drop done s.out };
        sink = record { sent = k.sent ++ take done s.out; answers = rest };
        run_eq = refl;
        fd_eq = refl;
        kept =
            append_assoc k.sent (take done s.out) (drop done s.out)
            ∙ ap (λ ys. k.sent ++ ys) (take-drop-append done s.out);
        bound = omega (arith, length-drop done s.out);
        live = all;
        spent = omega arith;
      }

  sync_with-Kept :
      (answers : List Answer) (s : Fdbuf) (k : Sink) (n : ℕ)
      → 0 < length s.out
      → length s.out ≤ bufsize
      → All P answers
      → n < length answers
      → Kept P (state_of (sync_with answers s k)) s.is_open (k.sent ++ s.out) n
  unfolding sync_with
  sync_with-Kept [] s k n pos le all more = absurd (omega arith)
  sync_with-Kept (a ∷ rest) s k n pos le all more =
      let w = after_write-Kept a rest s k pos le all.0 all.1 in
      record {
        buf = w.buf;
        sink = w.sink;
        run_eq = w.run_eq;
        fd_eq = w.fd_eq;
        kept = w.kept;
        bound = w.bound;
        live = w.live;
        spent = omega (arith, w.spent);
      }

  sync-Kept :
      (s : Fdbuf) (k : Sink) (n : ℕ)
      → length s.out ≤ bufsize
      → All P k.answers
      → n < length k.answers
      → Kept P (state_of (sync s k)) s.is_open (k.sent ++ s.out) n
  unfolding sync
  sync-Kept s k n le all more = elim (Bool-cases (length s.out == 0)) [
    | inl none_left ↦ record {
      buf = s;
      sink = k;
      run_eq = rw none_left;
      fd_eq = refl;
      kept = refl;
      bound = ground arith;
      live = all;
      spent = omega arith;
    }
    | inr some_left ↦
        let w = sync_with-Kept k.answers s k n (ground arith) le all more in
        record {
          buf = w.buf;
          sink = w.sink;
          run_eq = rw some_left w.run_eq;
          fd_eq = w.fd_eq;
          kept = w.kept;
          bound = w.bound;
          live = w.live;
          spent = w.spent;
        }
  ]

  use_one-Kept :
      (u : Use) (s : Fdbuf) (k : Sink) (n : ℕ)
      → length s.out < bufsize
      → All P k.answers
      → n < length k.answers
      → Kept P (use_one u s k) s.is_open ((k.sent ++ s.out) ++ put_bytes (u ∷ [])) n
  unfolding use_one sputc
  use_one-Kept flushed s k n lt all more =
      subst (λ ys. Kept P (state_of (sync s k)) s.is_open ys n) (sym (append-nil (k.sent ++ s.out)))
        (sync-Kept s k n (omega arith) all more)
  use_one-Kept (put c) s k n lt all more = elim (Bool-cases (ltb (length s.out) (bufsize - 1))) [
    | inl room ↦ record {
      buf = record s { out = s.out ++ c ∷ [] };
      sink = k;
      run_eq = rw room;
      fd_eq = refl;
      kept = sym (append_assoc k.sent s.out (c ∷ []));
      bound = ground (arith, length-append s.out (c ∷ []));
      live = all;
      spent = omega arith;
    }
    | inr full ↦
        let longer : length (s.out ++ c ∷ []) ≤ bufsize =
          omega (arith, length-append s.out (c ∷ [])) in
        let w = sync-Kept (record s { out = s.out ++ c ∷ [] }) k n longer all more in
        record {
          buf = w.buf;
          sink = w.sink;
          run_eq = rw full (overflow-sync c s k lt ∙ w.run_eq);
          fd_eq = w.fd_eq;
          kept = w.kept ∙ sym (append_assoc k.sent s.out (c ∷ []));
          bound = w.bound;
          live = w.live;
          spent = w.spent;
        }
  ]

  -- The calls of a program, for answers of which at least that is known.
  pub use_all-Keeps :
      (us : List Use) (s : Fdbuf) (k : Sink)
      → length s.out < bufsize
      → All P k.answers
      → length us ≤ length k.answers
      → Kept P
          (use_all us s k)
          s.is_open
          ((k.sent ++ s.out) ++ put_bytes us)
          (length k.answers - length us)
  unfolding use_all
  use_all-Keeps [] s k lt all more = record {
    buf = s;
    sink = k;
    run_eq = refl;
    fd_eq = refl;
    kept = sym (append-nil (k.sent ++ s.out));
    bound = lt;
    live = all;
    spent = omega arith;
  }
  use_all-Keeps (u ∷ us) s k lt all more =
      let w = use_one-Kept u s k (length k.answers - 1) lt all (omega (arith, more)) in
      let v = use_all-Keeps us w.buf w.sink w.bound w.live (omega (arith, more, w.spent)) in
      record {
        buf = v.buf;
        sink = v.sink;
        run_eq = rw w.run_eq v.run_eq;
        fd_eq = v.fd_eq ∙ w.fd_eq;
        kept =
            v.kept
            ∙ ap (λ ys. ys ++ put_bytes us) w.kept
            ∙ append_assoc (k.sent ++ s.out) (put_bytes (u ∷ [])) (put_bytes us)
            ∙ ap (λ ys. (k.sent ++ s.out) ++ ys) (sym (put_bytes-cons u us));
        bound = v.bound;
        live = v.live;
        spent = omega (arith, more, v.spent, w.spent);
      }

-- If every `write` takes something, and there is an answer for each call of `sputc` and `sync`, the
-- calls end normally, whatever they return: what is sent, and then what is buffered, are the bytes
-- that were there and those that were put, in order, and the put area stays within its bounds.
pub use_all-Kept :
    (us : List Use) (s : Fdbuf) (k : Sink)
    → length s.out < bufsize
    → All IsTaking k.answers
    → length us ≤ length k.answers
    → Kept IsTaking
        (use_all us s k)
        s.is_open
        ((k.sent ++ s.out) ++ put_bytes us)
        (length k.answers - length us)
use_all-Kept = use_all-Keeps (λ a h. h)
