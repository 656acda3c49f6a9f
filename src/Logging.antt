-- ===== src/Logging.antt =====
-- ugorji/util/logging.h and logging.cc: log lines by level, written by several threads.
--
-- The time and the thread's number in the head of a line are left out, and so is what `vdprintf` makes
-- of the format. A `dprintf` that fails writes nothing. `levelstr` points into a string that is gone
-- when it is read: what is found there is the parameter `stale`.
pub mod Threads
pub mod Whole
use cc_common.Base.{
  ℕ, zero, suc, ◌+◌, ◌-◌, Bool, true, false, not, ◌&&◌, ◌||◌, ltb, ◌==◌, if◌then◌else◌, List, [],
  ◌∷◌, ◌++◌, length, take, Option, some, none,
}
use cc_common.Value.Print.{decimal}

-- `Log::Level`, and any other number.
pub data Level : Type 0 where
  all trace debug info warning error severe off : Level
  other : (n : ℕ) → Level

abbrev pub rank : Level → ℕ
rank all = 0
rank trace = 1
rank debug = 2
rank info = 3
rank warning = 4
rank error = 5
rank severe = 6
rank off = 7
rank (other n) = n

-- The names, as ASCII.
abbrev pub name : Level → List ℕ
name all = 65 ∷ 76 ∷ 76 ∷ []
name trace = 84 ∷ 82 ∷ 65 ∷ 67 ∷ 69 ∷ []
name debug = 68 ∷ 69 ∷ 66 ∷ 85 ∷ 71 ∷ []
name info = 73 ∷ 78 ∷ 70 ∷ 79 ∷ []
name warning = 87 ∷ 65 ∷ 82 ∷ 78 ∷ 73 ∷ 78 ∷ 71 ∷ []
name error = 69 ∷ 82 ∷ 82 ∷ 79 ∷ 82 ∷ []
name severe = 83 ∷ 69 ∷ 86 ∷ 69 ∷ 82 ∷ 69 ∷ []
name off = 79 ∷ 70 ∷ 70 ∷ []
name (other n) = decimal n

-- `Log::LevelToString`.
unfoldable pub level_to_string : Level → Bool → List ℕ
level_to_string (other n) short_form =
    if short_form
    then decimal n
    else decimal n ++ 58 ∷ 76 ∷ 111 ∷ 103 ∷ 95 ∷ 76 ∷ 101 ∷ 118 ∷ 101 ∷ 108 ∷ 58 ∷ []
level_to_string l short_form = if short_form then take 1 (name l) else name l

-- The colour of a level.
abbrev pub color : Level → List ℕ
color trace = 51 ∷ 50 ∷ []
color debug = 51 ∷ 50 ∷ []
color info = 51 ∷ 52 ∷ []
color warning = 51 ∷ 51 ∷ []
color error = 51 ∷ 49 ∷ []
color severe = 51 ∷ 49 ∷ []
color l = []

-- `file.find_last_of("/\\")`, and what is behind it: the whole if there is none.
abbrev pub is_separator : ℕ → Bool
is_separator c = c == 47 || c == 92

abbrev pub has_separator : List ℕ → Bool
has_separator [] = false
has_separator (c ∷ cs) = is_separator c || has_separator cs

unfoldable pub base_name : List ℕ → List ℕ
base_name [] = []
base_name (c ∷ cs) =
    let rest = base_name cs in
    if has_separator cs then rest else if is_separator c then cs else c ∷ cs

-- `fd_` as far as `isatty` tells, `minLevel_` and `ansi_colors_`.
pub record Settings : Type 0 where
  pub is_tty : Bool
  pub min_level : Level
  pub ansi_colors : Bool

-- The arguments of `Logv`, and whether its calls of `dprintf`, `vdprintf` and `write` write all that
-- they are given.
pub record Request : Type 0 where
  pub level : Level
  pub file : List ℕ
  pub line : ℕ
  pub format : List ℕ
  pub head_goes : Bool
  pub body_goes : Bool
  pub feed_goes : Bool

-- What is written: the head of a line, with its colour, its format, and a line feed; and what a call
-- that fails has written of one of these, a part of it or nothing.
pub data Piece : Type 0 where
  head : (color : Option (List ℕ)) (level : List ℕ) (seq : ℕ) (file : List ℕ) (line : ℕ) → Piece
  body : (format : List ℕ) → Piece
  line_feed : Piece
  cut : (whole : Piece) → Piece

-- The two early returns, one of which `Logf` has too.
unfoldable pub is_dropped : Settings → Request → Bool
is_dropped c r = ltb (rank r.level) (rank c.min_level) || length r.format == 0

-- `format[slen-1] != '\n'`.
unfoldable pub ends_line : List ℕ → Bool
ends_line [] = false
ends_line (c ∷ []) = c == 10
ends_line (c ∷ d ∷ cs) = ends_line (d ∷ cs)

-- The `write` of the line feed, whose result is not looked at.
unfoldable pub fed : Request → List Piece
unfolding ends_line
fed r = if ends_line r.format then [] else (if r.feed_goes then line_feed else cut line_feed) ∷ []

module _ (stale : List ℕ → List ℕ) where
  -- The colour is written even if it is empty: what is tested is the address of its first character.
  unfoldable pub head_of : Settings → Request → ℕ → Piece
  unfolding level_to_string base_name
  head_of c r seq =
      head (if c.ansi_colors && c.is_tty then some (color r.level) else none)
        (stale (level_to_string r.level true)) seq (base_name r.file) r.line

  -- What a call of `Logv` writes under its lock, and returns.
  unfoldable pub logged : Settings → Request → ℕ → List Piece × Bool
  unfolding head_of fed
  logged c r seq =
      if not r.head_goes
      then (cut (head_of c r seq) ∷ [], false)
      else if not r.body_goes
      then (head_of c r seq ∷ cut (body r.format) ∷ [], false)
      else (head_of c r seq ∷ body r.format ∷ fed r, true)
