-- ===== src/Logging/Whole.antt =====
-- What threads write does not mix: the file is sent what each call writes in one piece.
use cc_common.Base.{
  ℕ, ◌+◌, ◌<◌, ◌≤◌, ◌≡◌, Bool, true, false, ◌==◌, List, [], ◌∷◌, ◌++◌, Option, none, some, All,
  if◌then◌else◌,
}
use cc_common.Logging.{Settings, Request, Piece, is_dropped, logged}
use cc_common.Logging.Threads.{Pc, outside, numbered, writing, Log}

-- A call that has its number.
abbrev pub Ticket : Type 0
Ticket = Request × ℕ

module _ (stale : List ℕ → List ℕ) (c : Settings) where
  -- What some calls write, in their order.
  abbrev pub lines : List Ticket → List Piece
  lines [] = []
  lines (t ∷ ts) = lines ts ++ (logged stale c t.0 t.1).0

  -- A call that is not dropped, with a number below `seq_`.
  abbrev pub IsIssued : ℕ → Ticket → Type 0
  IsIssued seq t = (is_dropped c t.0 ≡ false) × (t.1 < seq)

  -- How many of the calls have the number.
  abbrev pub uses : ℕ → List Ticket → ℕ
  uses q [] = 0
  uses q (t ∷ ts) = if t.1 == q then uses q ts + 1 else uses q ts

  -- Each call is issued, and no number is used twice.
  abbrev pub AreIssued : ℕ → List Ticket → Type 0
  AreIssued seq ts = All (IsIssued seq) ts × ((q : ℕ) → uses q ts ≤ 1)

  abbrev number_of : Pc → Option Ticket
  number_of outside = none
  number_of (numbered r q) = some (r, q)
  number_of (writing r q left) = some (r, q)

  -- The numbers of the threads and of the calls that are done.
  record Numbers (pc : ℕ → Pc) (seq : ℕ) (ts : List Ticket) : Type 0 where
    issued : (i : ℕ) (t : Ticket) → number_of (pc i) ≡ some t → IsIssued seq t
    unused : (i : ℕ) (t : Ticket) → number_of (pc i) ≡ some t → uses t.1 ts ≡ 0
    apart :
        (i j : ℕ) (t u : Ticket)
        → number_of (pc i) ≡ some t
        → number_of (pc j) ≡ some u
        → t.1 ≡ u.1
        → i ≡ j
    done : AreIssued seq ts

  -- Under the lock a part of the call's lines is written.
  data Shape (s : Log) (ts : List Ticket) : Type 0 where
    free : s.mu ≡ none → s.sent ≡ lines ts → Shape s ts
    held :
        (i q : ℕ) (r : Request) (gone left : List Piece)
        → s.mu ≡ some i
        → s.pc i ≡ writing r q left
        → gone ++ left ≡ (logged stale c r q).0
        → s.sent ≡ lines ts ++ gone
        → Shape s ts

  abbrev is_writing : Pc → Bool
  is_writing (writing r q left) = true
  is_writing p = false

  record Inv (s : Log) (ts : List Ticket) : Type 0 where
    numbers : Numbers s.pc s.seq ts
    owner : (i : ℕ) → is_writing (s.pc i) ≡ true → s.mu ≡ some i
    shape : Shape s ts
