-- ===== src/Examples/Fdbuf.antt =====
-- The stream buffer at concrete bytes.
use cc_common.Base.{true, ◌≡◌, refl, arith, List, [], ◌∷◌, ◌++◌, some, ok, fault}
use cc_common.Bufio.{IsTaking, Answer, refused, accepted, Sink, erred, ready, Source}
use cc_common.Bufio.Writer.{zero_bytes}
use cc_common.Fdbuf.{Fdbuf}
use cc_common.Fdbuf.Stream.{sputc, Use, put, flushed, use_all, get_all, put_bytes}
use cc_common.Fdbuf.Output.{Kept, use_all-Kept}
use cc_common.Fdbuf.Overflow.{sputc-past_end}
use cc_common.Fdbuf.Relay.{write_out, read_in, get_all-use_all}
use cc_common.Fdbuf.Input.{Fed, Reading, get_all-Fed}

abbrev almost : Fdbuf
almost = record { is_open = true; back = []; ahead = []; out = zero_bytes 1022; closes = 0 }

abbrev full : Fdbuf
full = record { is_open = true; back = []; ahead = []; out = zero_bytes 1023; closes = 0 }

abbrev slow : Sink
slow = record { sent = []; answers = accepted 1 ∷ accepted 700 ∷ accepted 9 ∷ accepted 9 ∷ [] }

abbrev uses : List Use
uses = put 65 ∷ put 66 ∷ flushed ∷ put 67 ∷ []

use_all-Kept_example :
    Kept IsTaking (use_all uses almost slow) true ((slow.sent ++ almost.out) ++ put_bytes uses) 0
use_all-Kept_example = use_all-Kept uses almost slow (omega arith) (ground arith) (omega arith)

abbrev broken : Sink
broken = record { sent = []; answers = refused ∷ refused ∷ [] }

sputc-past_end_example :
    (s1 : Fdbuf) × (k1 : Sink) × (sputc 65 full broken ≡ ok (some 65, s1, k1))
    × (sputc 66 s1 k1 ≡ fault)
sputc-past_end_example = sputc-past_end 65 66 full broken (refused ∷ []) refl refl

abbrev empty : Fdbuf
empty = record { is_open = true; back = []; ahead = []; out = []; closes = 0 }

abbrev line : Source
line = record {
  coming = 72 ∷ 105 ∷ 33 ∷ [];
  replies = ready 2 ∷ erred 11 ∷ ready 5 ∷ [];
  errno = 0;
}

empty-Reading : Reading [] empty
empty-Reading = record { in_block = omega arith; back_end = ([], refl); back_enough = omega arith }

get_all-Fed_example : Fed (get_all 3 empty line) [] (72 ∷ 105 ∷ 33 ∷ []) 0
get_all-Fed_example = get_all-Fed 3 empty line [] empty-Reading (omega arith)

abbrev wide_answers : List Answer
wide_answers = accepted 2000 ∷ accepted 1024 ∷ accepted 4096 ∷ accepted 1024 ∷ accepted 1024 ∷ []

get_all-use_all_example :
    (s : Fdbuf) × (k : Sink) × (t : Fdbuf) × (src : Source) × (write_out uses
        (record { sent = []; answers = wide_answers })
      ≡ ok (s, k))
    × (read_in 3 (record { coming = k.sent; replies = ready 1 ∷ ready 9 ∷ ready 5 ∷ []; errno = 0 })
        ≡ ok (65 ∷ 66 ∷ 67 ∷ [], t, src))
get_all-use_all_example =
    get_all-use_all uses wide_answers (ready 1 ∷ ready 9 ∷ ready 5 ∷ [])
      (omega arith, (omega arith, (omega arith, (omega arith, (omega arith, tt))))) (omega arith)
      (omega arith, (omega arith, (omega arith, tt))) (omega arith)
