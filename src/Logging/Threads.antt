-- ===== src/Logging/Threads.antt =====
-- `n` threads that call `Logv`, a step at a time: `seq_++` comes before the lock, and each piece is a
-- `write` of its own.
use cc_common.Base.{ℕ, ◌+◌, ◌<◌, ◌≡◌, true, false, List, [], ◌∷◌, ◌++◌, Option, none, some}
use cc_common.Lockset.{update}
use cc_common.Logging.{Settings, Request, Piece, is_dropped, logged}

-- Where a thread stands: outside, behind `seq_++`, or under the lock with pieces to write.
pub data Pc : Type 0 where
  outside : Pc
  numbered : (r : Request) (seq : ℕ) → Pc
  writing : (r : Request) (seq : ℕ) (left : List Piece) → Pc

-- `seq_`, the owner of `mu_`, and what the file was sent.
pub record Log : Type 0 where
  pub seq : ℕ
  pub mu : Option ℕ
  pub sent : List Piece
  pub pc : ℕ → Pc

module _ (stale : List ℕ → List ℕ) (c : Settings) (n : ℕ) where
  pub data Step (s : Log) : Log → Type 0 where
    drop_it : {i : ℕ} (r : Request) → i < n → s.pc i ≡ outside → is_dropped c r ≡ true → Step s s
    number_it :
        {i : ℕ} (r : Request)
        → i < n
        → s.pc i ≡ outside
        → is_dropped c r ≡ false
        → Step s (record s { seq = s.seq + 1; pc = update s.pc i (numbered r s.seq) })
    lock :
        {i q : ℕ} {r : Request}
        → i < n
        → s.pc i ≡ numbered r q
        → s.mu ≡ none
        → Step s (record s { mu = some i; pc = update s.pc i (writing r q (logged stale c r q).0) })
    write :
        {i q : ℕ} {r : Request} {p : Piece} {ps : List Piece}
        → i < n
        → s.pc i ≡ writing r q (p ∷ ps)
        → Step s (record s { sent = s.sent ++ p ∷ []; pc = update s.pc i (writing r q ps) })
    unlock :
        {i q : ℕ} {r : Request}
        → i < n
        → s.pc i ≡ writing r q []
        → Step s (record s { mu = none; pc = update s.pc i outside })

  abbrev pub at_start : Log
  at_start = record { seq = 0; mu = none; sent = []; pc = λ i. outside }

  pub data Reach : Log → Type 0 where
    started : Reach at_start
    later : {s t : Log} → Reach s → Step s t → Reach t
