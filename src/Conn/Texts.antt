-- ===== src/Conn/Texts.antt =====
-- The error texts of ugorji/conn/conn_epoll.cc, `closeFd`, and what a `Manager` of ugorji/conn/conn.h
-- does with its listening descriptor.
--
-- What `strerror_r` says of an error number is a parameter.
use cc_common.Base.{
  ◌/◌, ◌%◌, lt→ltb, ge→ltb, ℕ, suc, ◌≤◌, ◌<◌, ◌≡◌, ap, arith, Bool, true, false, ◌==◌,
  if◌then◌else◌, List, [], ◌∷◌, ◌++◌, length, take, length-append, Option, none, some,
}
use cc_common.Value.Print.{decimal, hex, digits, digit}
use cc_common.Value.Print.Texts.{take_more}
use native.Mathlib.Decide.{dec_lt}
use cc_common.Conn.Listen.{Calls, Opened, listening, minus_one, threw, listenport}

-- "(" and ") ".
unfoldable pub errno_str : (ℕ → List ℕ) → ℕ → List ℕ → List ℕ → List ℕ
errno_str strerror errno prefix suffix =
    prefix ++ (40 ∷ (decimal errno ++ (41 ∷ 32 ∷ (strerror errno ++ suffix))))

-- The bytes of a `std::string` that `c_str()` shows to "%s".
unfoldable pub c_text : List ℕ → List ℕ
c_text [] = []
c_text (x ∷ xs) = let rest = c_text xs in if x == 0 then [] else x ∷ rest

-- "Invalid tag for ", ": Expect 0x" and ", Got: 0x".
abbrev pub invalid_tag : List ℕ
invalid_tag =
    73 ∷ 110 ∷ 118 ∷ 97 ∷ 108 ∷ 105 ∷ 100 ∷ 32 ∷ 116 ∷ 97 ∷ 103 ∷ 32 ∷ 102 ∷ 111 ∷ 114 ∷ 32 ∷ []

abbrev pub expect_0x : List ℕ
expect_0x = 58 ∷ 32 ∷ 69 ∷ 120 ∷ 112 ∷ 101 ∷ 99 ∷ 116 ∷ 32 ∷ 48 ∷ 120 ∷ []

abbrev pub got_0x : List ℕ
got_0x = 44 ∷ 32 ∷ 71 ∷ 111 ∷ 116 ∷ 58 ∷ 32 ∷ 48 ∷ 120 ∷ []

unfoldable pub tag_text : List ℕ → ℕ → ℕ → List ℕ
tag_text cat expecting received =
    invalid_tag ++ (c_text cat ++ (expect_0x ++ (hex expecting ++ (got_0x ++ hex received))))

-- `streamErrText`: as much of the text as `snprintf` writes into 64 bytes.
unfoldable pub stream_err_text : List ℕ → ℕ → ℕ → List ℕ
stream_err_text cat expecting received = take 63 (tag_text cat expecting received)

-- A descriptor, or -1, in decimal.
abbrev pub fd_text : Option ℕ → List ℕ
fd_text none = 45 ∷ 49 ∷ []
fd_text (some fd) = decimal fd

-- "ERROR: shutdown ", " fd " and ": ".
abbrev pub shutdown_text : List ℕ → Option ℕ → List ℕ
shutdown_text cat fd =
    69
    ∷ 82
    ∷ 82
    ∷ 79
    ∷ 82
    ∷ 58
    ∷ 32
    ∷ 115
    ∷ 104
    ∷ 117
    ∷ 116
    ∷ 100
    ∷ 111
    ∷ 119
    ∷ 110
    ∷ 32
    ∷ (cat ++ (32 ∷ 102 ∷ 100 ∷ 32 ∷ (fd_text fd ++ 58 ∷ 32 ∷ [])))

-- What `closeFd` asks of the system.
pub data Asked : Type 0 where
  shut_down : (fd : Option ℕ) → Asked
  closed : (fd : Option ℕ) → Asked

-- `closeFd`: what it asks, its `err`, which it sets where that fails, and whether it logs that. `errno`
-- is the error number of a call that fails.
unfoldable pub close_fd :
    (ℕ → List ℕ)
    → (Asked → Option ℕ)
    → Option ℕ
    → List ℕ
    → List ℕ
    → Bool
    → Bool
    → Asked × List ℕ × Bool
close_fd strerror errno fd err cat use_shutdown log_it =
    let call = if use_shutdown then shut_down fd else closed fd in
    elim (errno call) [
      | none ↦ (call, err, false)
      | some e ↦ (call, errno_str strerror e (shutdown_text cat fd) [], log_it)
    ]

-- `listenfd_` of a `Manager`, where `none` is -1, and what was asked of the system to close it.
pub record Listener : Type 0 where
  pub listen_fd : Option ℕ
  pub asked : List Asked

-- `Manager::Manager`.
abbrev pub new_listener : Listener
new_listener = record { listen_fd = none; asked = [] }

-- `Manager::open`, and whether it throws.
unfoldable pub set_opened : Opened → Listener → Bool × Listener
set_opened (listening fd) m = (false, record m { listen_fd = some fd })
set_opened minus_one m = (false, record m { listen_fd = none })
set_opened threw m = (true, m)

unfoldable pub open_listener : Calls → Listener → Bool × Listener
open_listener c m = set_opened (listenport c) m

-- `Manager::~Manager`.
unfoldable pub end_listener : (ℕ → List ℕ) → (Asked → Option ℕ) → Listener → Listener
end_listener strerror errno m =
    let r = close_fd strerror errno m.listen_fd [] [] false true in
    record m { asked = r.0 ∷ m.asked }

length-hex_digit : (f n : ℕ) → n < 16 → length (digits (suc f) 16 n) ≡ 1
unfolding digits
length-hex_digit f n h = rw (lt→ltb n 16 h)

length-hex : (f n : ℕ) → n < 256 → length (digits (suc (suc f)) 16 n) ≤ 2
length-hex f n h = elim (dec_lt n 16) [
  | yes low ↦ omega (arith, length-hex_digit (suc f) n low)
  | no high ↦
      let two : digits (suc (suc f)) 16 n ≡ digits (suc f) 16 (n / 16) ++ digit (n % 16) ∷ [] =
        unfold digits in rw (ge→ltb n 16 (omega arith)) in
      omega (
        arith,
        ap (length {A = ℕ}) two,
        length-append (digits (suc f) 16 (n / 16)) (digit (n % 16) ∷ []),
        length-hex_digit f (n / 16) (omega arith),
      )
]

-- `streamErrText` gives the whole text where the category has up to 23 bytes before a zero byte.
pub stream_err_text-whole :
    (cat : List ℕ) (expecting received : ℕ)
    → length (c_text cat) ≤ 23
    → expecting < 256
    → received < 256
    → stream_err_text cat expecting received ≡ tag_text cat expecting received
unfolding stream_err_text tag_text
stream_err_text-whole cat expecting received few h k =
    let last : List ℕ = hex expecting ++ (got_0x ++ hex received) in
    let last_size : length last ≤ 13 = omega (
      arith,
      length-append (hex expecting) (got_0x ++ hex received),
      length-hex 6 expecting h,
      length-hex 6 received k,
    ) in
    let size : length (tag_text cat expecting received) ≤ 63 =
      omega (arith, few, length-append (c_text cat) (expect_0x ++ last), last_size) in
    take_more 63 (tag_text cat expecting received) size
