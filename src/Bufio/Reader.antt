-- ===== src/Bufio/Reader.antt =====
-- `BufReader` of ugorji/util/bufio.h, with `fill`, `readn` and `readfull` of bufio.cc. A descriptor is
-- known by whether it is not negative; lengths that are asked for are at least 0. The sleep between
-- two attempts and the log line are left out.
use cc_common.Base.{
  ℕ, zero, suc, ◌+◌, ◌-◌, Bool, true, false, ltb, ◌==◌, if◌then◌else◌, ◌&&◌, List, [], ◌∷◌, ◌++◌,
  take, drop, length, Outcome, ok, no_fuel, ◌>>=◌,
}
use cc_common.Slice.{store}
use cc_common.Bufio.{Reply, erred, ready, Source, Returned, failed, count, least}
use cc_common.Bufio.Writer.{bufsize}

-- EINTR, and EAGAIN, which is EWOULDBLOCK too.
abbrev pub e_intr : ℕ
e_intr = 4

abbrev pub e_again : ℕ
e_again = 11

pub record BufReader : Type 0 where
  pub is_open : Bool
  pub r : ℕ
  pub w : ℕ
  pub errno : ℕ
  pub eof : Bool
  pub buf : List ℕ

-- `BufReader::reset`.
unfoldable pub reset_reader : Bool → BufReader → BufReader
reset_reader is_open s = record s { is_open = is_open; errno = 0; r = 0; w = 0; eof = false }

-- One `read` that succeeds, of what fits behind `w_`.
unfoldable pub receive : ℕ → BufReader → Source → Outcome (BufReader × Source)
receive j s k =
    let n = least j (bufsize - s.w) in
    let chunk = take n k.coming in
    if length chunk == 0 then ok (record s { errno = k.errno; eof = true }, k) else (do
      buf ← store s.buf s.w chunk
      ok (
        record s { errno = k.errno; w = s.w + length chunk; buf = buf },
        record k { coming = drop n k.coming },
      ))

-- The loop of `fill`.
unfoldable pub fill_loop : Bool → List Reply → BufReader → Source → Outcome (BufReader × Source)
fill_loop again [] s k = no_fuel
fill_loop again (ready j ∷ rest) s k = receive j s (record k { replies = rest })
fill_loop again (erred e ∷ rest) s k =
    let s' = record s { errno = e } in
    let k' = record k { replies = rest; errno = e } in
    let retried = fill_loop again rest s' k' in
    if e == e_intr && again then retried else ok (s', k')

-- `BufReader::fill`.
unfoldable pub fill : Bool → BufReader → Source → Outcome (BufReader × Source)
fill again s k =
    if s.is_open then (if s.eof then ok (s, k) else fill_loop again k.replies s k) else ok (s, k)

-- A call's return value, the bytes that it points to, and the state it leaves.
abbrev pub Got : Type 0
Got = Outcome (Returned × List ℕ × BufReader × Source)

-- The end of `readn`, behind `fill`.
unfoldable pub hand_out : ℕ → BufReader → Source → Got
hand_out n s k =
    if s.w == 0
    then (if s.errno == 0 then ok (count 0, [], s, k) else ok (failed, [], s, k))
    else (let m = if ltb (s.w - s.r) n then s.w - s.r else n in
        ok (count m, take m (drop s.r s.buf), record s { r = s.r + m }, k))

-- `BufReader::readn`.
unfoldable pub readn : ℕ → Bool → BufReader → Source → Got
readn n again s k =
    if s.eof
    then ok (count 0, [], s, k)
    else if s.r == s.w
    then fill again (record s { r = 0; w = 0 }) k >>= (λ p. hand_out n p.0 p.1)
    else hand_out n s k

-- The bytes copied by `readfull`, and the state it leaves.
abbrev pub Full : Type 0
Full = Outcome (List ℕ × BufReader × Source)

-- What the loop of `readfull` does with a return value that is not positive: it ends, or tries again
-- as long as attempts are left.
unfoldable pub held_up : (ℕ → BufReader → Source → Full) → ℕ → List ℕ → BufReader → Source → Full
held_up next attempts out s k =
    if s.eof
    then ok (out, s, k)
    else if ltb 0 attempts && s.errno == e_again
    then next (attempts - 1) (record s { errno = 0 }) k
    else ok (out, s, k)

-- One round of the loop: `out` is copied, and `left` bytes are missing.
unfoldable pub round_end :
    (List ℕ → ℕ → ℕ → BufReader → Source → Full)
    → ℕ
    → ℕ
    → List ℕ
    → Returned
    → List ℕ
    → BufReader
    → Source
    → Full
round_end next left attempts out failed ys s k = held_up (next out left) attempts out s k
round_end next left attempts out (count zero) ys s k = held_up (next out left) attempts out s k
round_end next left attempts out (count (suc i)) ys s k =
    next (out ++ ys) (left - suc i) attempts s k

-- The loop of `readfull`; its return value is the number of bytes copied.
unfoldable pub readfull_loop : ℕ → Bool → List ℕ → ℕ → ℕ → BufReader → Source → Full
readfull_loop zero again out left attempts s k = no_fuel
readfull_loop (suc f) again out left attempts s k =
    if left == 0
    then ok (out, s, k)
    else readn left again s k
      >>= (λ p. round_end (readfull_loop f again) left attempts out p.0 p.1 p.2 p.3)

-- `BufReader::readfull`, with fuel for each byte and each attempt.
unfoldable pub readfull : ℕ → Bool → ℕ → BufReader → Source → Full
readfull n again attempts s k = readfull_loop (n + attempts + 1) again [] n attempts s k
