-- ===== src/Bufio.antt =====
-- ugorji/util/bufio.h and bufio.cc: buffered output to a file descriptor, and input.
pub mod Writer
pub mod Flush
pub mod Delivery
pub mod Reader
pub mod Fill
pub mod Receipt
pub mod Complete
pub mod Whole
pub mod Relay
use cc_common.Base.{ℕ, ◌<◌, List, leb, if◌then◌else◌}

-- What the system answers to one `write`: an error, or that it takes so many bytes, if as many are
-- offered.
pub data Answer : Type 0 where
  refused : Answer
  accepted : ℕ → Answer

-- An answer that takes something.
abbrev pub IsTaking : Answer → Type 0
IsTaking refused = ⊥
IsTaking (accepted j) = 0 < j

-- The file behind the descriptor: the bytes it was sent, and the answers to come.
pub record Sink : Type 0 where
  pub sent : List ℕ
  pub answers : List Answer

-- What the system answers to one `read`: an error with its `errno`, or that so many bytes may be
-- taken, if as many are there; none is the end of the input.
pub data Reply : Type 0 where
  erred : ℕ → Reply
  ready : ℕ → Reply

-- The file behind the descriptor: the bytes to come, the replies to come, and `errno`, which a call
-- that succeeds leaves as it is.
pub record Source : Type 0 where
  pub coming : List ℕ
  pub replies : List Reply
  pub errno : ℕ

-- An `int` that is returned: the negative one of a failed call, or a count.
pub data Returned : Type 0 where
  failed : Returned
  count : ℕ → Returned

abbrev pub least : ℕ → ℕ → ℕ
least k n = if leb k n then k else n
