-- ===== src/Lib.antt =====
-- Verification of cc-common: byte buffers, big-endian words, the "simple" and "binc" codecs, buffered
-- input and output, sets of locks, a log, and a server on `epoll`.
--
-- How the program's parts stand together. `ugorji/util/slice.c` keeps a growing byte buffer, and
-- `ugorji/util/bigendian.c` turns words into bytes and back. `ugorji/codec/codec.h` declares the
-- tagged union of all values; `ugorji/codec/codec.c` has the bounds checks of a decoder, and prints
-- and frees a value; `ugorji/codec/simplecodec.c` and `ugorji/codec/binc.c` encode a value into a buffer and
-- decode it. `ugorji/util/bufio.cc` buffers reads and writes on a file descriptor, and
-- `ugorji/util/fdbuf.cc` is a `std::streambuf` on one. `ugorji/util/lockset.cc` gives a thread the
-- locks of several keys at once, and `ugorji/util/logging.cc` writes log lines.
-- `ugorji/conn/conn_epoll.cc` has the manager of a number of servers, each a thread that accepts
-- clients and hands their events to a handler.
--
-- What models what.
-- Base: Boolean tests, lists over the native numbers, casts (Base/Words), and how a C function
--   ends (Base/Results): with a value, by `abort`, or by a fault, an access outside its block.
-- BigEndian: `util_big_endian_write_*` and `util_big_endian_read_*` of ugorji/util/bigendian.c. A
--   pointer is the list of the bytes from it on. BigEndian/Laws has the proofs.
-- Slice: `slice_bytes` and its functions, of ugorji/util/slice.h and slice.c. Slice/Expand and
--   Slice/Append have the proofs: what a slice holds (`Holds`) and operations that add bytes to it
--   (`Appends`). Slice/Writer: the ways in which the encoders append.
-- Value: `codec_value` of ugorji/codec/codec.h; Value/Cursor: `codec_decode_state`, and
--   `codec_decode_state_chk` and `_chk2` of ugorji/codec/codec.c. Value/Print: `codec_value_print`
--   and `codec_value_print_r` of that file, with the proofs in Value/Print/Texts, Laws and Bytes.
--   What "%f" prints is a parameter. Value/Free: `codec_value_free` of that file, and
--   `slice_bytes_free`, on a value that is kept by its pointers into a heap of blocks; the proofs
--   are in Value/Free/Blocks, Laws, Only and Twice.
-- Float: the conversions of C from an unsigned integer to `float` and `double`, and between
--   these.
-- Simple: the descriptors of ugorji/codec/simplecodec.h. Simple/Encode: `codec_simple_append_len`
--   and `codec_simple_encode`; Simple/Encode/Wire: the format, as a function from values to bytes.
--   Simple/Decode: `codec_simple_readn`, `codec_simple_decode_len`, `codec_simple_decode_r` and
--   `codec_simple_decode`; Simple/Decode/Seen: what the decoder makes of an encoded value. The
--   proofs are in Simple/Encode/Refines, Simple/Decode/Reads, Parts, Cost and RoundTrip,
--   Simple/RoundTrip, Simple/Bounds and Simple/Hostile.
-- Binc: the descriptors of ugorji/codec/binc.h. Binc/Encode: `codec_binc_encode` and its helpers;
--   Binc/Decode: `codec_binc_decode` and its helpers; Binc/Wire: the part of the format in which
--   the two agree. The proofs are in Binc/Numbers, Binc/Refines, Binc/Reads, Binc/DecodeWire,
--   Binc/RoundTrip and Binc/Wide.
-- Bufio: what `read` and `write` answer. Bufio/Writer and Bufio/Reader: `BufWriter` and
--   `BufReader` of ugorji/util/bufio.h and bufio.cc. The proofs are in Bufio/Flush, Delivery, Fill,
--   Receipt, Complete and Whole, and for a writer and a reader at two ends in Bufio/Relay.
-- Fdbuf: `fdbuf` of ugorji/util/fdbuf.h and fdbuf.cc; Fdbuf/Stream: what the standard library
--   makes of it. The proofs are in Fdbuf/Output, Overflow and Input, and for a buffer at each of
--   two ends in Fdbuf/Relay.
-- Lockset: `LockSet` and `lockFor` of ugorji/util/lockset.h and lockset.cc. Lockset/Keys: the
--   order of keys and their sort, which Lockset/Sorting characterises, so that it stands for any
--   algorithm of `std::sort`; Lockset/Locks: facts on lists of locks; Lockset/Thread: `locksFor` and
--   `unlock` as steps of threads in any interleaving. The proofs are in Lockset/Safe, Moves and Invariant (the invariant), Progress,
--   Drain, Count, Exclusion, Covers, Contract and Again.
-- Logging: `Log::LevelToString` and what one call of `Log::Logv` writes, of ugorji/util/logging.h
--   and logging.cc, also where a write fails, of which some part is then in the file;
--   Logging/Threads: the calls of several threads as steps. The proof is in
--   Logging/Whole.
-- Conn: what the system and the handler answer, and the trace of calls. Conn/Server: `Server` of
--   ugorji/conn/conn.h and conn_epoll.cc; Conn/Manager: `Manager::run`, `wait`, `close` and
--   `serverDone` as steps; Conn/Listen: `errnoChk` and `listenport`; Conn/Texts: the texts of
--   errors, `closeFd`, and the listening descriptor of a manager. The proofs are in Conn/Books,
--   Keeps, Ends and Closing (the clients of a server) and Conn/Waiting.
-- Alloc and Examples: allocators that meet the hypotheses, runs, and theorems at concrete inputs.
--
-- What is assumed. `realloc` and `calloc` are parameters. `IsRealloc` states what is documented of
-- `realloc`, and that it grants blocks up to a limit; `GrantsShort` says that `calloc` grants the
-- entries of a container of up to 255. The host is x86-64: little-endian, `char` signed, `size_t`
-- of 64 bits. What an extension's `slice_bytes` is in memory is the parameter `image`. The small
-- blocks of error messages are granted. At the call of a decoder the value is all zero and `*err`
-- is NULL; what an erring call leaves in the value is not modelled. The answers of `read` and
-- `write` are a script, as long as the theorems ask for. The index `int i` of a loop of the
-- decoders and of the "simple" encoder is a number without bound. What `epoll`, `accept4`, `close`,
-- the handler and `Manager::closing` answer are functions of the trace of the calls so far; a `Lock`
-- that is no one's is taken at once by one thread that waits, in no fixed order. Memory is
-- sequentially consistent. Each thread has one `LockSetLock`, for one call of `locksFor` at a time
-- or, where a theorem says so, for several; a thread that holds one and calls `locksFor` with
-- another is not modelled. An overflow of the sum of `int`s in `BufWriter::writen` is a fault. The threads of servers are alike, and are counted.
--
-- Fuel. `decode` bounds the depth of recursion and the rounds of loops; three units for each byte
-- of an encoded value are enough. The "binc" encoder has fuel for the loop over a container of
-- more than 255 entries, which does not end; for shorter ones none is used. `readfull` has fuel
-- for each byte and each attempt. Where the fuel or a script runs out the outcome is `no_fuel`. The
-- loop of a server has fuel for each wait until the manager closes and one more, that of
-- `acceptClients` for each answer until no client is left and one more.
--
-- Not modelled: the unused `codec_binc_prune_leading` (ugorji/codec/binc.c); the time and the
-- formatting in log lines, and the log lines of ugorji/conn; the members of `Manager` that only
-- return a field; and conn_mock.cc, which does not build.
mod Base
pub mod BigEndian
pub mod Slice
pub mod Value
mod Float
pub mod Simple
pub mod Binc
pub mod Bufio
pub mod Fdbuf
pub mod Lockset
pub mod Logging
pub mod Conn
mod Alloc
mod Examples
