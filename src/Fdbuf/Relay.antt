-- ===== src/Fdbuf/Relay.antt =====
-- A stream buffer at each of two ends: what is put into the one and sent until it is closed is what the
-- other hands out.
use cc_common.Base.{
  take_pos, ℕ, zero, suc, ◌+◌, ◌-◌, ◌≤◌, ◌<◌, ◌≡◌, refl, sym, ap, ◌∙◌, arith, Bool, true, false,
  leb, ◌==◌, if◌then◌else◌, List, [], ◌∷◌, ◌++◌, length, take, drop, some, Option, ok, append-nil,
  length-append, take-drop-append, take-append, Outcome, ◌>>=◌, All, Bool-cases, inl, inr, ok_inj,
  bind_ok, fault,
}
use mathlib.Core.Path.{subst, ap₂}
use cc_common.Bufio.{Reply, erred, ready, Source, least, Answer, refused, accepted, Sink, IsTaking}
use cc_common.Fdbuf.{
  Fdbuf, bufsize, back_size, pback, front, refill, underflow, sync, sync_with, synced, after_write,
  close, new_fdbuf, open_fd,
}
use cc_common.Fdbuf.Stream.{passed, sbumpc, with_got, get_all, use_all, Use, put_bytes}
use cc_common.Fdbuf.Input.{Reading, get_all-Fed}
use cc_common.Fdbuf.Output.{use_all-Keeps}

-- A `read` that brings something.
abbrev pub IsBringing : Reply → Type 0
IsBringing (erred e) = ⊥
IsBringing (ready j) = 0 < j

-- What a call leaves of the input: something is ahead, and the rest is as it was.
abbrev Advanced : ℕ → Fdbuf → Source → Type 0
Advanced n s k =
    (0 < length s.ahead) × All IsBringing k.replies × (length (s.ahead ++ k.coming) ≡ n)

refill-Advanced :
    (replies : List Reply) (s s' : Fdbuf) (k k' : Source)
    → All IsBringing replies
    → 0 < length k.coming
    → refill replies s k ≡ ok (s', k')
    → Advanced (length k.coming) s' k'
unfolding refill
refill-Advanced [] s s' k k' all more e = cc
refill-Advanced (erred i ∷ rest) s s' k k' all more e = absurd all.0
refill-Advanced (ready j ∷ rest) s s' k k' all more e =
    let n : ℕ = least j bufsize in
    let some_bytes : 0 < n = ground (arith, all.0) in
    subst (λ p. Advanced (length k.coming) p.0 p.1) (ok_inj e)
      (
        take_pos n k.coming some_bytes more,
        all.1,
        ap (length {A = ℕ}) (take-drop-append n k.coming),
      )

underflow_cases :
    (s : Fdbuf) (k : Source) (empty room : Bool)
    → (length s.ahead == 0) ≡ empty
    → leb (pback s + bufsize) (bufsize + back_size) ≡ room
    → underflow s k ≡ (
        if empty
        then (if room
            then refill k.replies s k >>= (λ r. ok (front r.0.ahead, r.0, r.1))
            else fault)
        else ok (front s.ahead, s, k))
unfolding underflow
underflow_cases s k empty room e f = rw (e, f)

underflow-Advanced :
    (s s' : Fdbuf) (k k' : Source) (c : Option ℕ) (empty room : Bool)
    → (length s.ahead == 0) ≡ empty
    → leb (pback s + bufsize) (bufsize + back_size) ≡ room
    → All IsBringing k.replies
    → 0 < length (s.ahead ++ k.coming)
    → underflow s k ≡ ok (c, s', k')
    → Advanced (length (s.ahead ++ k.coming)) s' k'
underflow-Advanced s s' k k' c false room none_left fits all more e =
    let some_ahead : 0 < length s.ahead = ground (arith, none_left) in
    subst (λ p. Advanced (length (s.ahead ++ k.coming)) p.1 p.2)
      (ok_inj (sym (underflow_cases s k false room none_left fits) ∙ e)) (some_ahead, all, refl)
underflow-Advanced s s' k k' c true false none_left fits all more e =
    absurd (let bad = sym (underflow_cases s k true false none_left fits) ∙ e in cc)
underflow-Advanced s s' k k' c true true none_left fits all more e =
    let (r, run, left) =
      bind_ok (refill k.replies s k) _ (c, s', k')
        (sym (underflow_cases s k true true none_left fits) ∙ e) in
    let size = length-append s.ahead k.coming in
    let none : length s.ahead ≡ 0 = ground (arith, none_left) in
    let same : length k.coming ≡ length (s.ahead ++ k.coming) = omega (arith, size, none) in
    subst (λ p. Advanced (length (s.ahead ++ k.coming)) p.1 p.2) (ok_inj left)
      (subst (λ n. Advanced n r.0 r.1) same
        (refill-Advanced k.replies s r.0 k r.1 all (omega (arith, same, more)) run))

-- A call that hands out one byte of those ahead and to come.
record One (n : ℕ) (r : Option ℕ × Fdbuf × Source) : Type 0 where
  char : ℕ
  char_eq : r.0 ≡ some char
  bringing : All IsBringing r.2.replies
  left_eq : suc (length (r.1.ahead ++ r.2.coming)) ≡ n

passed-One :
    (ahead : List ℕ) (s : Fdbuf) (k : Source)
    → s.ahead ≡ ahead
    → Advanced (length (s.ahead ++ k.coming)) s k
    → One (length (s.ahead ++ k.coming)) (passed ahead s k)
unfolding passed
passed-One [] s k e h = absurd (omega (arith, h.0, ap (length {A = ℕ}) e))
passed-One (c ∷ cs) s k e h = record {
  char = c;
  char_eq = refl;
  bringing = h.1;
  left_eq = ap (λ ys. length (ys ++ k.coming)) (sym e);
}

-- As many calls of `sbumpc` as there are bytes hand out one each.
get_all-length :
    (n : ℕ) (s s' : Fdbuf) (k k' : Source) (got : List ℕ)
    → All IsBringing k.replies
    → n ≤ length (s.ahead ++ k.coming)
    → get_all n s k ≡ ok (got, s', k')
    → length got ≡ n
unfolding get_all sbumpc passed
get_all-length zero s s' k k' got all more e = ap (λ p. length p.0) (sym (ok_inj e))
get_all-length (suc n) s s' k k' got all more e =
    let (r, first, later) = bind_ok (sbumpc s k) _ (got, s', k') e in
    let (u, under, step) = bind_ok (underflow s k) _ r first in
    let a =
      underflow-Advanced s u.1 k u.2 u.0 (length s.ahead == 0)
        (leb (pback s + bufsize) (bufsize + back_size)) refl refl all (omega (arith, more)) under in
    let one =
      subst (λ q. One (length (u.1.ahead ++ u.2.coming)) q) (ok_inj step)
        (passed-One u.1.ahead u.1 u.2 refl (a.0, a.1, refl)) in
    let (q, rest, done) = bind_ok (get_all n r.1 r.2) _ (got, s', k') later in
    let left : suc (length (r.1.ahead ++ r.2.coming)) ≡ length (s.ahead ++ k.coming) =
      one.left_eq ∙ a.2 in
    let others =
      get_all-length n r.1 q.1 r.2 q.2 q.0 one.bringing (omega (arith, left, more)) rest in
    ap (λ p. length p.0) (sym (ok_inj done))
    ∙ ap (λ c. length (with_got c q.0)) one.char_eq
    ∙ ap suc others

-- A `write` that takes all that it is given.
abbrev pub TakesAll : Answer → Type 0
TakesAll refused = ⊥
TakesAll (accepted j) = bufsize ≤ j

TakesAll-IsTaking : (a : Answer) → TakesAll a → IsTaking a
TakesAll-IsTaking refused h = h
TakesAll-IsTaking (accepted j) h = omega (arith, h)

abbrev opened : Fdbuf
opened = record { is_open = true; back = []; ahead = []; out = []; closes = 0 }

take_all : (xs : List ℕ) → take (length xs) xs ≡ xs
take_all xs = ap (take (length xs)) (sym (append-nil xs)) ∙ take-append xs []

opened-Reading : Reading [] opened
opened-Reading = record { in_block = omega arith; back_end = ([], refl); back_enough = omega arith }

least_whole : (j n : ℕ) → bufsize ≤ j → n < bufsize → least j n ≡ n
least_whole j n h k = ground arith

no_bytes : (xs : List ℕ) → (length xs == 0) ≡ true → xs ≡ []
no_bytes [] e = refl
no_bytes (x ∷ xs) e = absurd (ground (arith, e))

sync_with-sent :
    (answers : List Answer) (s : Fdbuf) (k : Sink)
    → length s.out < bufsize
    → All TakesAll answers
    → 0 < length answers
    → (full : Bool) × (s' : Fdbuf) × (k' : Sink) × (sync_with answers s k ≡ ok (full, s', k'))
      × (k'.sent ≡ k.sent ++ s.out)
unfolding sync_with after_write
sync_with-sent [] s k lt all answer = absurd (omega arith)
sync_with-sent (refused ∷ rest) s k lt all answer = absurd all.0
sync_with-sent (accepted j ∷ rest) s k lt all answer =
    let done : ℕ = least j (length s.out) in
    let all_done : done ≡ length s.out = least_whole j (length s.out) all.0 lt in
    (
      length (drop done s.out) == bufsize - 1,
      record s { out = drop done s.out },
      record { sent = k.sent ++ take done s.out; answers = rest },
      refl,
      ap (λ ys. k.sent ++ ys) (ap (λ n. take n s.out) all_done ∙ take_all s.out),
    )

abbrev closing : Bool × Fdbuf × Sink → Outcome (Fdbuf × Sink)
closing r = ok (record r.1 { closes = r.1.closes + 1 }, r.2)

close-sync :
    (s : Fdbuf) (k : Sink) (r : Bool × Fdbuf × Sink)
    → s.is_open ≡ true
    → sync s k ≡ ok r
    → close s k ≡ closing r
unfolding close
close-sync s k r fd e =
    ap (λ b. if b then sync s k >>= closing else ok (s, k)) fd ∙ ap (λ m. m >>= closing) e

sync_some :
    (s : Fdbuf) (k : Sink) → (length s.out == 0) ≡ false → sync s k ≡ sync_with k.answers s k
unfolding sync
sync_some s k e = rw e

sync_none : (s : Fdbuf) (k : Sink) → (length s.out == 0) ≡ true → sync s k ≡ ok (synced (s, k))
unfolding sync
sync_none s k e = rw e

-- `close` sends what is buffered, if it is taken whole.
close-sent :
    (s : Fdbuf) (k : Sink)
    → s.is_open ≡ true
    → length s.out < bufsize
    → All TakesAll k.answers
    → 0 < length k.answers
    → (s' : Fdbuf) × (k' : Sink) × (close s k ≡ ok (s', k')) × (k'.sent ≡ k.sent ++ s.out)
close-sent s k fd lt all answer = elim (Bool-cases (length s.out == 0)) [
  | inl none_left ↦ (
    record s { closes = s.closes + 1 },
    k,
    close-sync s k (synced (s, k)) fd (sync_none s k none_left),
    sym (ap (λ ys. k.sent ++ ys) (no_bytes s.out none_left) ∙ append-nil k.sent),
  )
  | inr some_left ↦
      let (b, s1, k1, run, sent) = sync_with-sent k.answers s k lt all answer in
      (
        record s1 { closes = s1.closes + 1 },
        k1,
        close-sync s k (b, s1, k1) fd (sync_some s k some_left ∙ run),
        sent,
      )
]

-- A program that opens a buffer on a descriptor, puts bytes and flushes at will, and closes.
abbrev pub write_out : List Use → Sink → Outcome (Fdbuf × Sink)
write_out us k = new_fdbuf true k >>= (λ r. use_all us r.0 r.1) >>= (λ r. close r.0 r.1)

-- One that opens a buffer and gets as many bytes.
abbrev pub read_in : ℕ → Source → Outcome (List ℕ × Fdbuf × Source)
read_in n k = new_fdbuf true (record { sent = []; answers = [] }) >>= (λ r. get_all n r.0 k)

new_fdbuf-opened : (k : Sink) → new_fdbuf true k ≡ ok (opened, k)
unfolding new_fdbuf open_fd close
new_fdbuf-opened k = refl

-- Where one end puts bytes into a stream buffer and closes it, and every `write` takes all that it is
-- given, the other end, if every `read` brings something, gets these bytes, all of them and in order,
-- with one call of `sbumpc` for each.
pub get_all-use_all :
    (us : List Use) (answers : List Answer) (replies : List Reply)
    → All TakesAll answers
    → length us < length answers
    → All IsBringing replies
    → length (put_bytes us) ≤ length replies
    → (s : Fdbuf) × (k : Sink) × (t : Fdbuf) × (src : Source) × (write_out us
          (record { sent = []; answers = answers })
        ≡ ok (s, k))
      × (read_in (length (put_bytes us)) (record { coming = k.sent; replies = replies; errno = 0 })
          ≡ ok (put_bytes us, t, src))
get_all-use_all us answers replies taking enough bringing many =
    let k0 : Sink = record { sent = []; answers = answers } in
    let w = use_all-Keeps TakesAll-IsTaking us opened k0 (omega arith) taking (omega arith) in
    let (s, k, shut, sent) =
      close-sent w.buf w.sink w.fd_eq w.bound w.live (omega (arith, w.spent, enough)) in
    let whole : k.sent ≡ put_bytes us = sent ∙ w.kept in
    let src0 : Source = record { coming = k.sent; replies = replies; errno = 0 } in
    let n : ℕ = length (put_bytes us) in
    let f = get_all-Fed n opened src0 [] opened-Reading many in
    let same : length k.sent ≡ n = ap (length {A = ℕ}) whole in
    let size : length f.got ≡ n =
      get_all-length n opened f.buf src0 f.source f.got bringing (omega (arith, same)) f.run_eq in
    let got : f.got ≡ put_bytes us =
      sym (take-append f.got (f.buf.ahead ++ f.source.coming))
      ∙ ap₂ take size (f.in_order ∙ whole)
      ∙ take_all (put_bytes us) in
    (
      s,
      k,
      f.buf,
      f.source,
      rw (new_fdbuf-opened k0, w.run_eq) shut,
      rw (new_fdbuf-opened (record { sent = []; answers = [] }))
          (f.run_eq ∙ ap (λ ys. ok (ys, f.buf, f.source)) got),
    )
