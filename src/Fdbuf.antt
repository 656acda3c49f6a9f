-- ===== src/Fdbuf.antt =====
-- ugorji/util/fdbuf.h and fdbuf.cc: a `std::streambuf` on a file descriptor.
--
-- The get area is the bytes before and behind `gptr()`, and starts where `inbuf_` does; the put area is
-- the bytes before `pptr()`, and starts where `outbuf_` does. What lies behind `egptr()` and `pptr()` is
-- not kept, as nothing reads it. A character is a byte, and `eof()` is `none`.
pub mod Stream
pub mod Output
pub mod Overflow
pub mod Input
pub mod Relay
use cc_common.Base.{
  ℕ, ◌+◌, ◌-◌, Bool, true, false, ltb, leb, ◌==◌, if◌then◌else◌, List, [], ◌∷◌, ◌++◌, length, take,
  drop, Option, none, some, Outcome, ok, fault, no_fuel, ◌>>=◌,
}
use cc_common.Bufio.{Answer, refused, accepted, Sink, Reply, erred, ready, Source, least}

-- `outbuf_` has `bufsize` bytes, of which the put area leaves one out; `inbuf_` has 16 - sizeof(int)
-- more.
abbrev pub bufsize : ℕ
bufsize = 1024

abbrev pub back_size : ℕ
back_size = 16 - 4

-- `fd_ >= 0`, and how often `::close` was called on a descriptor.
pub record Fdbuf : Type 0 where
  pub is_open : Bool
  pub back : List ℕ  -- from `eback()` to `gptr()`
  pub ahead : List ℕ  -- from there to `egptr()`
  pub out : List ℕ  -- from `pbase()` to `pptr()`
  pub closes : ℕ

-- What is left to send when `write` has answered, and what was sent.
unfoldable pub after_write : Answer → Fdbuf → Sink → Fdbuf × Sink
after_write refused s k = (s, k)
after_write (accepted j) s k =
    let done = least j (length s.out) in
    (record s { out = drop done s.out }, record k { sent = k.sent ++ take done s.out })

-- `pptr() == epptr()`.
abbrev pub is_full : Fdbuf → Bool
is_full s = length s.out == bufsize - 1

-- What `sync` returns, where true is -1, and the state it leaves.
abbrev pub synced : Fdbuf × Sink → Bool × Fdbuf × Sink
synced r = (is_full r.0, r.0, r.1)

unfoldable pub sync_with : List Answer → Fdbuf → Sink → Outcome (Bool × Fdbuf × Sink)
sync_with [] s k = no_fuel
sync_with (a ∷ rest) s k = ok (synced (after_write a s (record k { answers = rest })))

-- `fdbuf::sync`.
unfoldable pub sync : Fdbuf → Sink → Outcome (Bool × Fdbuf × Sink)
sync s k = if length s.out == 0 then ok (synced (s, k)) else sync_with k.answers s k

-- The character at `pptr()`, which may be behind the block.
unfoldable pub put_char : Option ℕ → Fdbuf → Outcome Fdbuf
put_char none s = ok s
put_char (some c) s =
    if ltb (length s.out) bufsize then ok (record s { out = s.out ++ c ∷ [] }) else fault

-- `traits_type::not_eof`.
abbrev pub not_eof : Option ℕ → Option ℕ
not_eof none = some 0
not_eof (some c) = some c

-- `fdbuf::overflow`.
unfoldable pub overflow : Option ℕ → Fdbuf → Sink → Outcome (Option ℕ × Fdbuf × Sink)
overflow c s k = do s1 ← put_char c s; r ← sync s1 k; ok (if r.0 then none else not_eof c, r.1, r.2)

-- How many bytes before `gptr()` `underflow` keeps, and these.
abbrev pub pback : Fdbuf → ℕ
pback s = least (length s.back) back_size

abbrev pub kept_back : Fdbuf → List ℕ
kept_back s = drop (length s.back - pback s) s.back

-- `*gptr()`, if there is one.
abbrev pub front : List ℕ → Option ℕ
front [] = none
front (c ∷ cs) = some c

-- The `read` behind the bytes that are kept, of at most `bufsize` bytes.
unfoldable pub refill : List Reply → Fdbuf → Source → Outcome (Fdbuf × Source)
refill [] s k = no_fuel
refill (erred e ∷ rest) s k =
    ok (record s { back = kept_back s; ahead = [] }, record k { replies = rest; errno = e })
refill (ready j ∷ rest) s k =
    let n = least j bufsize in
    ok (
      record s { back = kept_back s; ahead = take n k.coming },
      record k { coming = drop n k.coming; replies = rest },
    )

-- `fdbuf::underflow`.
unfoldable pub underflow : Fdbuf → Source → Outcome (Option ℕ × Fdbuf × Source)
underflow s k =
    if length s.ahead == 0
    then (if leb (pback s + bufsize) (bufsize + back_size)
        then refill k.replies s k >>= (λ r. ok (front r.0.ahead, r.0, r.1))
        else fault)
    else ok (front s.ahead, s, k)

-- `fdbuf::close`.
unfoldable pub close : Fdbuf → Sink → Outcome (Fdbuf × Sink)
close s k =
    if s.is_open
    then sync s k >>= (λ r. ok (record r.1 { closes = r.1.closes + 1 }, r.2))
    else ok (s, k)

-- `fdbuf::open` of a descriptor that is negative or not.
unfoldable pub open_fd : Bool → Fdbuf → Sink → Outcome (Fdbuf × Sink)
open_fd fd s k =
    close s k >>= (λ r. ok (record r.0 { is_open = fd; back = []; ahead = []; out = [] }, r.1))

-- `fdbuf::fdbuf`.
unfoldable pub new_fdbuf : Bool → Sink → Outcome (Fdbuf × Sink)
new_fdbuf fd k =
    open_fd fd (record { is_open = false; back = []; ahead = []; out = []; closes = 0 }) k
