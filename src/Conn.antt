-- ===== src/Conn.antt =====
-- ugorji/conn/conn.h and conn_epoll.cc: a server that waits on `epoll` for its clients.
--
-- The system and the application's `Handler` are parameters: each of their answers is a function of
-- the trace, the calls made so far, the newest first. Of an error text only whether it is empty is
-- kept; log lines are left out.
pub mod Server
pub mod Books
pub mod Keeps
pub mod Ends
pub mod Closing
pub mod Manager
pub mod Waiting
pub mod Listen
pub mod Texts
use cc_common.Base.{ℕ, Bool, List}

-- The calls that the trace keeps, with what came of them.
pub data Event : Type 0 where
  added : (fd : ℕ) → Event  -- `epoll_ctl` with EPOLL_CTL_ADD
  not_added : (fd : ℕ) → Event
  deleted : (fd : ℕ) → Event  -- with EPOLL_CTL_DEL, whether it fails or not
  unregistered : (fd : ℕ) → Event  -- `Handler::unregisterFd`
  closed : (fd : ℕ) → Event  -- `close`, whether it fails or not
  handled : (fd : ℕ) → Event  -- `Handler::handleFd`
  waited : Event  -- `epoll_wait`
  accept_tried : Event  -- `accept4`

-- What `accept4` answers: a descriptor, or an error: EINTR, EAGAIN, any other.
pub data Accepted : Type 0 where
  client : (fd : ℕ) → Accepted
  accept_interrupted would_block accept_error : Accepted

-- `epoll_event`, with the bits that are looked at.
pub record Ready : Type 0 where
  pub fd : ℕ
  pub err : Bool
  pub hup : Bool
  pub rd_hup : Bool
  pub read : Bool
  pub write : Bool

-- What `epoll_wait` answers: events, of which there are none after a timeout, or an error: EINTR, any
-- other.
pub data Waited : Type 0 where
  events : List Ready → Waited
  wait_interrupted wait_error : Waited

pub record Environment : Type 0 where
  pub listen_fd : ℕ
  pub create_fails : Bool
  pub add_fails : List Event → ℕ → Bool
  pub delete_fails : List Event → ℕ → Bool
  pub close_fails : List Event → ℕ → Bool
  pub handle_fails : List Event → ℕ → Bool
  pub unregister_fails : List Event → ℕ → Bool
  pub accept : List Event → Accepted
  pub wait : List Event → Waited
  pub closing : List Event → Bool  -- `Manager::closing`
