-- ===== src/Fdbuf/Overflow.antt =====
-- What `overflow` and `sync` return when the put area is full, as it is when `overflow` is called.
use cc_common.Base.{
  ℕ, ◌-◌, ◌<◌, ◌≡◌, arith, true, false, ltb, ◌==◌, List, [], ◌∷◌, ◌++◌, length, take, drop, some,
  none, ok, fault, if◌then◌else◌, length-append, length-drop, sym, ap, ◌∙◌, append_assoc,
  take-drop-append,
}
use cc_common.Bufio.{Answer, refused, accepted, Sink, least}
use cc_common.Fdbuf.{Fdbuf, bufsize, after_write, is_full, sync_with, sync, put_char, overflow}
use cc_common.Fdbuf.Stream.{sputc}

-- `sputc` into a full put area makes it one longer, and hands it to `write`.
sputc_full :
    (c : ℕ) (s : Fdbuf) (k : Sink) (a : Answer) (rest : List Answer)
    → length s.out ≡ bufsize - 1
    → k.answers ≡ a ∷ rest
    → sputc c s k ≡ (
        let r = after_write a (record s { out = s.out ++ c ∷ [] }) (record k { answers = rest }) in
        ok (if is_full r.0 then none else some c, r.0, r.1))
unfolding sputc overflow put_char sync sync_with
sputc_full c s k a rest full e =
    let at_end : ltb (length s.out) (bufsize - 1) ≡ false = ground (arith, full) in
    let inside : ltb (length s.out) bufsize ≡ true = ground (arith, full) in
    let some_left : (length (s.out ++ c ∷ []) == 0) ≡ false =
      ground (arith, length-append s.out (c ∷ [])) in
    rw (at_end, inside, some_left, e)

-- `sputc` behind the put area.
sputc_behind : (d : ℕ) (s : Fdbuf) (k : Sink) → length s.out ≡ bufsize → sputc d s k ≡ fault
unfolding sputc overflow put_char
sputc_behind d s k e = rw e

-- If the put area is full and `write` fails twice, the first `sputc` says that all is well, and leaves
-- `pptr()` at the end of `outbuf_`; the second writes behind it.
pub sputc-past_end :
    (c d : ℕ) (s : Fdbuf) (k : Sink) (rest : List Answer)
    → length s.out ≡ bufsize - 1
    → k.answers ≡ refused ∷ rest
    → (s1 : Fdbuf) × (k1 : Sink) × (sputc c s k ≡ ok (some c, s1, k1)) × (sputc d s1 k1 ≡ fault)
unfolding after_write
sputc-past_end c d s k rest full e =
    let longer : length (s.out ++ c ∷ []) ≡ bufsize =
      omega (arith, full, length-append s.out (c ∷ [])) in
    let not_full : (length (s.out ++ c ∷ []) == bufsize - 1) ≡ false = ground (arith, longer) in
    (
      record s { out = s.out ++ c ∷ [] },
      record k { answers = rest },
      sputc_full c s k refused rest full e ∙ rw not_full,
      sputc_behind d (record s { out = s.out ++ c ∷ [] }) (record k { answers = rest }) longer,
    )

-- If the put area is full and `write` takes something, `sputc` says that it failed if that is one byte,
-- and that it did not otherwise; in both cases it has kept its character, sent or to be sent.
pub sputc-kept_eof :
    (c j : ℕ) (s : Fdbuf) (k : Sink) (rest : List Answer)
    → length s.out ≡ bufsize - 1
    → k.answers ≡ accepted j ∷ rest
    → 0 < j
    → (s1 : Fdbuf) × (k1 : Sink) × (sputc c s k ≡ ok (if j == 1 then none else some c, s1, k1))
      × (k1.sent ++ s1.out ≡ (k.sent ++ s.out) ++ c ∷ [])
unfolding after_write
sputc-kept_eof c j s k rest full e pos =
    let ys : List ℕ = s.out ++ c ∷ [] in
    let longer : length ys ≡ bufsize = omega (arith, full, length-append s.out (c ∷ [])) in
    let done : ℕ = least j (length ys) in
    let left : length (drop done ys) ≡ bufsize - done =
      omega (arith, length-drop done ys, longer) in
    let same_test : (length (drop done ys) == bufsize - 1) ≡ (j == 1) =
      ground (arith, left, longer) in
    (
      record s { out = drop done ys },
      record { sent = k.sent ++ take done ys; answers = rest },
      sputc_full c s k (accepted j) rest full e
          ∙ ap
              (λ b. ok (
                if b then none else some c,
                record s { out = drop done ys },
                record { sent = k.sent ++ take done ys; answers = rest },
              ))
              same_test,
      append_assoc k.sent (take done ys) (drop done ys)
          ∙ ap (λ zs. k.sent ++ zs) (take-drop-append done ys)
          ∙ sym (append_assoc k.sent s.out (c ∷ [])),
    )
