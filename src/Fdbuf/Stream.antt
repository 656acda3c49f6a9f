-- ===== src/Fdbuf/Stream.antt =====
-- What `std::streambuf` makes of `overflow`, `sync` and `underflow` of ugorji/util/fdbuf.cc.
use cc_common.Base.{
  ℕ, zero, suc, ◌-◌, ltb, if◌then◌else◌, List, [], ◌∷◌, ◌++◌, length, Option, none, some, Outcome,
  ok, ◌>>=◌,
}
use cc_common.Bufio.{Sink, Source}
use cc_common.Fdbuf.{Fdbuf, bufsize, sync, overflow, underflow}

-- `sputc`: into the put area if there is room before `epptr()`.
unfoldable pub sputc : ℕ → Fdbuf → Sink → Outcome (Option ℕ × Fdbuf × Sink)
sputc c s k =
    if ltb (length s.out) (bufsize - 1)
    then ok (some c, record s { out = s.out ++ c ∷ [] }, k)
    else overflow (some c) s k

-- The next character of the get area, which is passed.
unfoldable pub passed : List ℕ → Fdbuf → Source → Option ℕ × Fdbuf × Source
passed [] s k = (none, s, k)
passed (c ∷ cs) s k = (some c, record s { back = s.back ++ c ∷ []; ahead = cs }, k)

-- `sbumpc`, with `uflow`: where the get area is empty, `underflow` fills it.
unfoldable pub sbumpc : Fdbuf → Source → Outcome (Option ℕ × Fdbuf × Source)
sbumpc s k = underflow s k >>= (λ r. ok (passed r.1.ahead r.1 r.2))

-- What a program does with the output, whatever the calls return.
pub data Use : Type 0 where
  put : (c : ℕ) → Use
  flushed : Use

abbrev pub put_bytes : List Use → List ℕ
put_bytes [] = []
put_bytes (put c ∷ us) = c ∷ put_bytes us
put_bytes (flushed ∷ us) = put_bytes us

unfoldable pub use_one : Use → Fdbuf → Sink → Outcome (Fdbuf × Sink)
use_one (put c) s k = sputc c s k >>= (λ r. ok (r.1, r.2))
use_one flushed s k = sync s k >>= (λ r. ok (r.1, r.2))

unfoldable pub use_all : List Use → Fdbuf → Sink → Outcome (Fdbuf × Sink)
use_all [] s k = ok (s, k)
use_all (u ∷ us) s k = use_one u s k >>= (λ r. use_all us r.0 r.1)

-- `n` calls of `sbumpc`, and the characters they return.
abbrev pub with_got : Option ℕ → List ℕ → List ℕ
with_got none got = got
with_got (some c) got = c ∷ got

unfoldable pub get_all : ℕ → Fdbuf → Source → Outcome (List ℕ × Fdbuf × Source)
get_all zero s k = ok ([], s, k)
get_all (suc n) s k =
    sbumpc s k >>= (λ r. get_all n r.1 r.2 >>= (λ q. ok (with_got r.0 q.0, q.1, q.2)))
