-- ===== src/Bufio/Writer.antt =====
-- `BufWriter` of ugorji/util/bufio.h, with `flush` and `writen` of bufio.cc. A descriptor is known by
-- whether it is not negative. A count of type `int` is below 2^31.
use cc_common.Base.{
  ℕ, zero, suc, ◌+◌, ◌-◌, ◌^◌, Bool, false, ltb, leb, fault, ◌==◌, if◌then◌else◌, List, [], ◌∷◌,
  ◌++◌, take, drop, Outcome, ok, no_fuel, ◌>>=◌,
}
use cc_common.Slice.{store}
use cc_common.Bufio.{Answer, refused, accepted, Sink, Returned, failed, count, least}

abbrev pub bufsize : ℕ
bufsize = 4096

-- `fd_ >= 0`, `n_` and `buf_`.
pub record BufWriter : Type 0 where
  pub is_open : Bool
  pub n : ℕ
  pub buf : List ℕ

-- A call's return value and the state it leaves.
abbrev pub Wrote : Type 0
Wrote = Outcome (Returned × BufWriter × Sink)

-- `BufWriter()`, and `reset`, which leaves the bytes of the buffer as they are.
abbrev pub zero_bytes : ℕ → List ℕ
zero_bytes zero = []
zero_bytes (suc n) = 0 ∷ zero_bytes n

unfoldable pub fresh : BufWriter
fresh = record { is_open = false; n = 0; buf = zero_bytes bufsize }

unfoldable pub reset : Bool → BufWriter → BufWriter
reset is_open s = record s { is_open = is_open; n = 0 }

-- `memmove` of the `n` bytes from `buf_[w]` on to the front, unless they are there.
unfoldable pub moved_down : List ℕ → ℕ → ℕ → Outcome (List ℕ)
moved_down buf w n = if w == 0 then ok buf else store buf 0 (take n (drop w buf))

-- The loop of `flush`: `w` bytes are sent and `n` are left. An error is returned as it comes.
unfoldable pub flush_loop : List Answer → BufWriter → ℕ → ℕ → List ℕ → Wrote
flush_loop [] s w n sent =
    if n == 0
    then ok (count 0, record s { n = 0 }, record { sent = sent; answers = [] })
    else no_fuel
flush_loop (refused ∷ rest) s w n sent =
    if n == 0
    then ok (count 0, record s { n = 0 }, record { sent = sent; answers = refused ∷ rest })
    else (do
      buf ← moved_down s.buf w n
      ok (failed, record s { n = s.n - w; buf = buf }, record { sent = sent; answers = rest }))
flush_loop (accepted k ∷ rest) s w n sent =
    let i = least k n in
    let next = flush_loop rest s (w + i) (n - i) (sent ++ take i (drop w s.buf)) in
    if n == 0
    then ok (count 0, record s { n = 0 }, record { sent = sent; answers = accepted k ∷ rest })
    else next

-- `BufWriter::flush`.
unfoldable pub flush : BufWriter → Sink → Wrote
flush s k = if s.is_open then flush_loop k.answers s 0 s.n k.sent else ok (failed, s, k)

-- The `write` of more than a buffer, after the flush: what it takes is returned.
unfoldable pub write_through : List ℕ → ℕ → BufWriter → Sink → List Answer → Wrote
write_through b n s k [] = no_fuel
write_through b n s k (refused ∷ rest) = ok (failed, s, record k { answers = rest })
write_through b n s k (accepted j ∷ rest) =
    ok (count (least j n), s, record k { sent = k.sent ++ take (least j n) b; answers = rest })

-- The `memcpy` behind the bytes of the buffer.
unfoldable pub keep : List ℕ → ℕ → BufWriter → Sink → Wrote
keep b n s k = do
  buf ← store s.buf s.n (take n b)
  ok (count n, record s { n = s.n + n; buf = buf }, k)

-- What `writen` does after its flush.
unfoldable pub after_flush : List ℕ → ℕ → Returned → BufWriter → Sink → Wrote
after_flush b n failed s k = ok (failed, s, k)
after_flush b n (count i) s k =
    if ltb bufsize n then write_through b n s k k.answers else keep b n s k

-- `BufWriter::writen`, of `n` bytes from `b` on, which has at least as many. The sum `n + n_` is an
-- `int`, whose overflow C++ leaves undefined.
unfoldable pub writen : List ℕ → ℕ → BufWriter → Sink → Wrote
writen b n s k =
    if s.is_open
    then (if leb (2 ^ 31) (n + s.n)
        then fault
        else if ltb bufsize (n + s.n)
        then flush s k >>= (λ r. after_flush b n r.0 r.1 r.2)
        else keep b n s k)
    else ok (count 0, s, k)
