-- ===== src/Examples/Bufio.antt =====
-- The buffered writer and reader at concrete states.
use cc_common.Base.{ℕ, List, ◌++◌, ◌≡◌, refl, arith, true, false, [], ◌∷◌, ok}
use cc_common.Bufio.{Answer, Reply, count, Sink, refused, accepted, Source, ready, erred, failed}
use cc_common.Bufio.Writer.{BufWriter, zero_bytes, writen, flush, flush_loop, moved_down}
use cc_common.Bufio.Flush.{Pending}
use cc_common.Bufio.Delivery.{Written, writen-Written}
use cc_common.Bufio.Reader.{BufReader, readfull}
use cc_common.Bufio.Fill.{Buffered}
use cc_common.Bufio.Complete.{Complete, readfull-Complete}
use cc_common.Bufio.Whole.{readfull-Whole}
use cc_common.Bufio.Relay.{write_all, readfull-write_all}
use cc_common.Slice.{store}

-- Two bytes are buffered.
abbrev two_buffered : BufWriter
two_buffered = record { is_open = true; n = 2; buf = 7 ∷ 8 ∷ zero_bytes 4094 }

-- The kernel takes one byte, then is full.
abbrev slow_sink : Sink
slow_sink = record { sent = 5 ∷ []; answers = accepted 1 ∷ refused ∷ accepted 9 ∷ [] }

two_buffered-Pending : Pending two_buffered (7 ∷ 8 ∷ [])
two_buffered-Pending = record { spare = zero_bytes 4094; buf_eq = refl; n_eq = refl; size = refl }

flush_slow :
    flush two_buffered slow_sink
    ≡ ok (
      failed,
      record { is_open = true; n = 1; buf = 8 ∷ 8 ∷ zero_bytes 4094 },
      record { sent = 5 ∷ 7 ∷ []; answers = accepted 9 ∷ [] },
    )
unfolding flush flush_loop moved_down store
flush_slow = refl

writen-Written_example :
    Written (writen (1 ∷ 2 ∷ []) 2 two_buffered slow_sink) 2 (1 ∷ 2 ∷ []) (5 ∷ 7 ∷ 8 ∷ [])
writen-Written_example =
    writen-Written (1 ∷ 2 ∷ []) 2 two_buffered slow_sink (7 ∷ 8 ∷ []) refl two_buffered-Pending
      (omega arith) (omega arith) ((omega arith, (tt, (omega arith, tt))), omega arith)
      (omega arith)

-- One byte is buffered, three are to come, in two packets with a pause.
abbrev one_buffered : BufReader
one_buffered = record {
  is_open = true;
  r = 1;
  w = 2;
  errno = 0;
  eof = false;
  buf = 9 ∷ 4 ∷ zero_bytes 4094;
}

abbrev packets : Source
packets = record {
  coming = 1 ∷ 2 ∷ 3 ∷ [];
  replies =
      ready 2 ∷ erred 11 ∷ erred 4 ∷ ready 5 ∷ ready 5 ∷ ready 5 ∷ ready 5 ∷ ready 5 ∷ ready 5 ∷ [];
  errno = 0;
}

one_buffered-Buffered : Buffered one_buffered (4 ∷ [])
one_buffered-Buffered = record {
  front = 9 ∷ [];
  spare = zero_bytes 4094;
  buf_eq = refl;
  r_eq = refl;
  w_eq = refl;
  size = refl;
}

readfull-Complete_example :
    Complete (readfull 4 true 2 one_buffered packets) [] 4 (4 ∷ 1 ∷ 2 ∷ 3 ∷ [])
readfull-Complete_example =
    readfull-Complete 4 true 2 one_buffered packets (4 ∷ []) one_buffered-Buffered (omega arith)

-- Both ends of a relay, empty.
abbrev idle_writer : BufWriter
idle_writer = record { is_open = true; n = 0; buf = zero_bytes 4096 }

abbrev idle_reader : BufReader
idle_reader = record { is_open = true; r = 0; w = 0; errno = 0; eof = false; buf = zero_bytes 4096 }

abbrev chunks : List Reply
chunks = ready 2 ∷ erred 4 ∷ ready 1 ∷ ready 5 ∷ ready 5 ∷ ready 5 ∷ ready 5 ∷ []

idle_writer-Pending : Pending idle_writer []
idle_writer-Pending = record { spare = zero_bytes 4096; buf_eq = refl; n_eq = refl; size = refl }

idle_reader-Buffered : Buffered idle_reader []
idle_reader-Buffered = record {
  front = [];
  spare = zero_bytes 4096;
  buf_eq = refl;
  r_eq = refl;
  w_eq = refl;
  size = refl;
}

abbrev three_taken : List Answer
three_taken = accepted 2 ∷ accepted 1 ∷ accepted 9 ∷ []

abbrev messages : List (List ℕ)
messages = (1 ∷ 2 ∷ []) ∷ (3 ∷ []) ∷ []

readfull-write_all_example :
    (s' : BufWriter) × (k' : Sink) × (r' : BufReader) × (src : Source) × (write_all messages
        idle_writer
        (record { sent = []; answers = three_taken })
      ≡ ok (count 0, s', k'))
    × (readfull 3 true 1 idle_reader (record { coming = k'.sent; replies = chunks; errno = 0 })
        ≡ ok (1 ∷ 2 ∷ 3 ∷ [], r', src))
readfull-write_all_example =
    readfull-write_all messages idle_writer three_taken true 1 idle_reader chunks (ground arith)
      refl idle_writer-Pending (ground arith) (omega arith) refl refl idle_reader-Buffered
      (ground arith) (omega arith)

readfull-Whole_example :
    (s' : BufReader) × (k' : Source) × (xs' : List ℕ) × (readfull 3 true 1 one_buffered
        (record { coming = 1 ∷ 2 ∷ 3 ∷ []; replies = chunks; errno = 0 })
      ≡ ok (4 ∷ 1 ∷ 2 ∷ [], s', k'))
    × Buffered s' xs'
    × (xs' ++ k'.coming ≡ 3 ∷ [])
readfull-Whole_example =
    readfull-Whole 3 true 1 one_buffered
      (record { coming = 1 ∷ 2 ∷ 3 ∷ []; replies = chunks; errno = 0 }) (4 ∷ [])
      (record { opened = refl; going = refl; good = ground arith }) one_buffered-Buffered
      (omega arith) (omega arith)
