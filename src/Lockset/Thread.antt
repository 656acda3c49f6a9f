-- ===== src/Lockset/Thread.antt =====
-- One thread with a `LockSetLock`, an access to shared memory at a time.
use cc_common.Base.{ℕ, ◌-◌, ◌<◌, ◌≡◌, Bool, true, false, ◌||◌, List, [], ◌∷◌, ◌++◌, none, some}
use cc_common.Lockset.{Memory, update, lock_for, no_locks}
use cc_common.Lockset.Keys.{Key, same, sort}

-- Where the thread stands. The locks that it has taken and those that it will take are `locks_`, in
-- order; `locks_` is empty in `idle`.
pub data Pc : Type 0 where
  idle : Pc
  asking : (taken : List ℕ) (keys : List Key) → Pc  -- `locksFor` before `mu_.lock()`
  picking : (taken fresh : List ℕ) (last : Key) (keys : List Key) → Pc  -- its first loop
  locking : (taken wanted : List ℕ) → Pc  -- its second loop
  holding : (taken : List ℕ) → Pc  -- after `locksFor`
  unlocking : (left : List ℕ) → Pc  -- the loop of `unlock`
  dropped : (p : ℕ) (left : List ℕ) → Pc  -- before `l->count_--`

-- `keys[i] == "" || keys[i] == last`.
abbrev pub passed_over : Key → Key → Bool
passed_over k last = same k [] || same k last

-- A call of `locksFor`, with the sort of its keys. A second call on the same `LockSetLock` is a call
-- with `again`.
pub data Call (again : Bool) : Pc → Pc → Type 0 where
  first : (ks : List Key) → Call again idle (asking [] (sort ks))
  second :
      {taken : List ℕ} (ks : List Key)
      → again ≡ true
      → Call again (holding taken) (asking taken (sort ks))

-- The steps of thread `i` within `locksFor` and `unlock`, and the start of `unlock`.
pub data Work (i : ℕ) (s : Memory) : Pc → Memory → Pc → Type 0 where
  enter :
      {h : List ℕ} {ks : List Key}
      → s.mu ≡ none
      → Work i s (asking h ks) (record s { mu = some i }) (picking h [] [] ks)
  pass :
      {h new : List ℕ} {k last : Key} {ks : List Key}
      → passed_over k last ≡ true
      → Work i s (picking h new last (k ∷ ks)) s (picking h new last ks)
  pick :
      {h new : List ℕ} {k last : Key} {ks : List Key}
      → passed_over k last ≡ false
      → Work i s
          (picking h new last (k ∷ ks))
          (lock_for k s).1
          (picking h (new ++ (lock_for k s).0 ∷ []) k ks)
  leave :
      {h new : List ℕ} {last : Key}
      → Work i s (picking h new last []) (record s { mu = none }) (locking h new)
  lock :
      {h w : List ℕ} {p : ℕ}
      → s.owner p ≡ none
      → Work i s
          (locking h (p ∷ w))
          (record s { owner = update s.owner p (some i) })
          (locking (h ++ p ∷ []) w)
  ready : {h : List ℕ} → Work i s (locking h []) s (holding h)
  begin : {h : List ℕ} → Work i s (holding h) s (unlocking h)
  unlock :
      {p : ℕ} {left : List ℕ}
      → Work i s
          (unlocking (p ∷ left))
          (record s { owner = update s.owner p none })
          (dropped p left)
  uncount :
      {p : ℕ} {left : List ℕ}
      → Work i s
          (dropped p left)
          (record s { count = update s.count p (s.count p - 1) })
          (unlocking left)
  clear : Work i s (unlocking []) s idle

-- `n` threads with one `LockSetLock` each, interleaved in any order. A thread from `n` on never moves.
pub record System : Type 0 where
  pub mem : Memory
  pub pc : ℕ → Pc

-- A step within a call.
pub data WorkStep (n : ℕ) (s : System) : System → Type 0 where
  work :
      (i : ℕ) {m : Memory} {p : Pc}
      → i < n
      → Work i s.mem (s.pc i) m p
      → WorkStep n s (record { mem = m; pc = update s.pc i p })

pub data Step (again : Bool) (n : ℕ) (s : System) : System → Type 0 where
  works : {t : System} → WorkStep n s t → Step again n s t
  calls :
      (i : ℕ) {p : Pc}
      → i < n
      → Call again (s.pc i) p
      → Step again n s (record s { pc = update s.pc i p })

abbrev pub start : System
start = record { mem = no_locks; pc = λ i. idle }

pub data Reach (again : Bool) (n : ℕ) : System → Type 0 where
  started : Reach again n start
  later : {s t : System} → Reach again n s → Step again n s t → Reach again n t
