-- ===== src/Conn/Listen.antt =====
-- `errnoChk` and `listenport` of ugorji/conn/conn_epoll.cc.
use cc_common.Base.{ℕ, ◌≡◌, arith, Bool, true, false, ◌&&◌, if◌then◌else◌, Option, none, some}

-- What `errnoChk` does: nothing, set `err` and return true, or throw.
pub data Checked : Type 0 where
  passed noted thrown : Checked

-- `errnoChk` of a result that is negative or not.
unfoldable pub errno_chk : Bool → Bool → Checked
errno_chk good halt = if good then passed else if halt then thrown else noted

-- What `listenport` does: it returns the socket, or -1, or throws.
pub data Opened : Type 0 where
  listening : (fd : ℕ) → Opened
  minus_one threw : Opened

-- The answers of the system: the socket, and whether each later call succeeds.
pub record Calls : Type 0 where
  pub socket : Option ℕ
  pub setsockopt : Bool
  pub bind : Bool
  pub get_flags : Bool
  pub set_flags : Bool
  pub listen : Bool

-- `if(errnoChk(…, err, "ERROR: …")) return -1`, then the rest. The text is the argument `halt`, a
-- `bool`, and a pointer that is not NULL counts as true.
unfoldable pub chk_then : Bool → Opened → Opened
unfolding errno_chk
chk_then good rest = elim (errno_chk good true) [
  | passed ↦ rest
  | noted ↦ minus_one
  | thrown ↦ threw
]

unfoldable pub opened_with : Calls → Option ℕ → Opened
opened_with c none = chk_then false minus_one
opened_with c (some fd) = chk_then c.setsockopt (
    chk_then c.bind
      (chk_then c.get_flags (chk_then c.set_flags (chk_then c.listen (listening fd)))))

-- `listenport`.
unfoldable pub listenport : Calls → Opened
listenport c = opened_with c c.socket

abbrev pub all_succeed : Calls → Bool
all_succeed c = c.setsockopt && c.bind && c.get_flags && c.set_flags && c.listen

-- The socket if there is one and all goes well, an exception otherwise.
abbrev pub listening_or_threw : Option ℕ → Bool → Opened
listening_or_threw none good = threw
listening_or_threw (some fd) good = if good then listening fd else threw

-- `listenport` returns the socket if every call succeeds; if one fails it throws, and never sets its
-- `err` and returns -1.
pub listenport_lem : (c : Calls) → listenport c ≡ listening_or_threw c.socket (all_succeed c)
unfolding listenport opened_with chk_then errno_chk
listenport_lem c = ground arith
