-- ===== src/Lockset/Count.antt =====
-- `count_` of a lock: how often it is in the `locks_` of the threads and not counted down by `unlock`.
use cc_common.Base.{
  ℕ, zero, suc, ◌+◌, ◌≤◌, ◌≡◌, refl, sym, ap, arith, Bool, ◌==◌, List, [], ◌∷◌, ◌++◌, length,
  if◌then◌else◌, inl, inr,
}
use cc_common.Lockset.{Memory, lock_for}
use cc_common.Lockset.Keys.{Key}
use cc_common.Lockset.Locks.{lock_for-Picked}
use cc_common.Lockset.Thread.{
  Pc, idle, asking, picking, locking, holding, unlocking, dropped, Call, first, second, Work, enter,
  pass, pick, leave, lock, ready, begin, unlock, uncount, clear, System, work, Step, works, calls,
  Reach, started, later,
}
use cc_common.Lockset.Drain.{total, total-update, total-le}

abbrev pub occurs : ℕ → List ℕ → ℕ
occurs p [] = 0
occurs p (x ∷ xs) = if p == x then occurs p xs + 1 else occurs p xs

occurs-append : (p : ℕ) (xs ys : List ℕ) → occurs p (xs ++ ys) ≡ occurs p xs + occurs p ys
occurs-append p [] ys = omega arith
occurs-append p (x ∷ xs) ys = ground (arith, occurs-append p xs ys)

-- How often the lock is in the thread's `locks_`, without those that the loop of `unlock` has counted
-- down: they stay in `locks_` up to its `clear()`.
abbrev pub in_locks : ℕ → Pc → ℕ
in_locks p idle = 0
in_locks p (asking h ks) = occurs p h
in_locks p (picking h new last ks) = occurs p h + occurs p new
in_locks p (locking h w) = occurs p h + occurs p w
in_locks p (holding h) = occurs p h
in_locks p (unlocking l) = occurs p l
in_locks p (dropped q l) = occurs p (q ∷ l)

-- Locks that are not made yet have count 0.
NoneBeyond : Memory → Type 0
NoneBeyond s = (p : ℕ) → length s.m ≤ p → s.count p ≡ 0

Call-in_locks : (again : Bool) (q p : Pc) → Call again q p → (x : ℕ) → in_locks x p ≡ in_locks x q
Call-in_locks again q p (first ks) x = refl
Call-in_locks again q p (second ks e) x = refl

-- A step changes the counts as it changes the thread's locks.
Work-count :
    (i : ℕ) (s t : Memory) (q p : Pc)
    → Work i s q t p
    → NoneBeyond s
    → (x : ℕ) → in_locks x q ≤ s.count x
    → t.count x + in_locks x q ≡ s.count x + in_locks x p
unfolding NoneBeyond
Work-count i s t q p (enter e) none x le = omega arith
Work-count i s t q p (pass e) none x le = omega arith
Work-count i s t q p (pick {h} {new} {k} {last} {ks} e) none x le =
    let pk = lock_for-Picked k s in
    ground (
      arith,
      pk.count_eq (none (length s.m) (omega arith)) x,
      occurs-append x new ((lock_for k s).0 ∷ []),
    )
Work-count i s t q p leave none x le = omega arith
Work-count i s t q p (lock {h} {w} {p = y} e) none x le = ground (arith, occurs-append x h (y ∷ []))
Work-count i s t q p ready none x le = omega arith
Work-count i s t q p begin none x le = omega arith
Work-count i s t q p unlock none x le = omega arith
Work-count i s t q p uncount none x le = ground arith
Work-count i s t q p clear none x le = omega arith

Work-NoneBeyond : (i : ℕ) (s t : Memory) (q p : Pc) → Work i s q t p → NoneBeyond s → NoneBeyond t
unfolding NoneBeyond
Work-NoneBeyond i s t q p (enter e) none x far = none x far
Work-NoneBeyond i s t q p (pass e) none x far = none x far
Work-NoneBeyond i s t q p (pick {h} {new} {k} e) none x far =
    let pk = lock_for-Picked k s in
    elim pk.grown [
      | inl same ↦ ground (
        arith,
        ap (length {A = Key}) same,
        pk.known,
        pk.count_eq (none (length s.m) (omega arith)) x,
        none x,
      )
      | inr more ↦ ground (
        arith,
        ap (length {A = Key}) more,
        pk.known,
        pk.count_eq (none (length s.m) (omega arith)) x,
        none x,
      )
    ]
Work-NoneBeyond i s t q p leave none x far = none x far
Work-NoneBeyond i s t q p (lock e) none x far = none x far
Work-NoneBeyond i s t q p ready none x far = none x far
Work-NoneBeyond i s t q p begin none x far = none x far
Work-NoneBeyond i s t q p unlock none x far = none x far
Work-NoneBeyond i s t q p uncount none x far = ground (arith, none x far)
Work-NoneBeyond i s t q p clear none x far = none x far

Counted : ℕ → System → Type 0
Counted n s = NoneBeyond s.mem × ((x : ℕ) → s.mem.count x ≡ total n (in_locks x) s.pc)

Step-Counted : (again : Bool) (n : ℕ) (s t : System) → Step again n s t → Counted n s → Counted n t
unfolding Counted
Step-Counted again n s t (works (work i {m} {p} lt mv)) c = (
  Work-NoneBeyond i s.mem m (s.pc i) p mv c.0,
  λ x.
      let le : in_locks x (s.pc i) ≤ s.mem.count x =
        omega (arith, total-le n i (in_locks x) s.pc lt, c.1 x) in
      omega (
        arith,
        total-update n i (in_locks x) s.pc p lt,
        Work-count i s.mem m (s.pc i) p mv c.0 x le,
        c.1 x,
        le,
      ),
)
Step-Counted again n s t (calls i {p} lt call) c = (
  c.0,
  λ x. omega (
    arith,
    total-update n i (in_locks x) s.pc p lt,
    Call-in_locks again (s.pc i) p call x,
    c.1 x,
  ),
)

total-idle : (n : ℕ) (x : ℕ) → total n (in_locks x) (λ i. idle) ≡ 0
unfolding total
total-idle zero x = refl
total-idle (suc n) x = omega (arith, total-idle n x)

Reach-Counted : (again : Bool) (n : ℕ) (s : System) → Reach again n s → Counted n s
unfolding Counted NoneBeyond
Reach-Counted again n s started = (λ p far. refl, λ x. sym (total-idle n x))
Reach-Counted again n t (later {s} r st) = Step-Counted again n s t st (Reach-Counted again n s r)

-- In every state that threads with one `LockSetLock` each reach, also where it is used for several
-- calls, the count of a lock is how often the lock is in the `locks_` of the threads, less those that
-- an `unlock` under way has already counted down, which are in `locks_` up to its end.
pub count_lem :
    {again : Bool} {n : ℕ} {s : System}
    → Reach again n s
    → (p : ℕ) → s.mem.count p ≡ total n (in_locks p) s.pc
unfolding Counted
count_lem {again} {n} {s} r p = (Reach-Counted again n s r).1 p
