-- ===== src/Examples.antt =====
-- Runs of the models at concrete inputs, and each theorem at an input that meets its hypotheses.
pub mod BigEndian
pub mod Slice
pub mod Print
pub mod Simple
pub mod Binc
pub mod Bufio
pub mod Free
pub mod Fdbuf
pub mod Lockset
pub mod Logging
pub mod Conn
