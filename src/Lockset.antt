-- ===== src/Lockset.antt =====
-- ugorji/util/lockset.h and lockset.cc: locks by key, and the threads that take several at once.
--
-- `LockSet` only ever adds locks, so a pointer to a `Lock` is the number of locks made before it, and
-- `m_` is the list of its keys, the newest first.
pub mod Keys
pub mod Sorting
pub mod Locks
pub mod Thread
pub mod Safe
pub mod Moves
pub mod Invariant
pub mod Progress
pub mod Exclusion
pub mod Drain
pub mod Count
pub mod Again
pub mod Covers
pub mod Contract
use cc_common.Base.{
  ℕ, suc, ◌+◌, ◌-◌, Bool, ◌==◌, if◌then◌else◌, List, [], ◌∷◌, length, Option, none, some,
}
use cc_common.Lockset.Keys.{Key, same}

-- The memory that threads share: `LockSet::m_`, and of each `Lock` the owner of `mu_` and `count_`;
-- last the owner of `LockSet::mu_`.
pub record Memory : Type 0 where
  pub m : List Key
  pub owner : ℕ → Option ℕ
  pub count : ℕ → ℕ
  pub mu : Option ℕ

abbrev pub update {ℓ} : {A : Type ℓ} → (ℕ → A) → ℕ → A → ℕ → A
update f i v j = if j == i then v else f j

-- `m_.find`.
unfoldable pub find : Key → List Key → Option ℕ
find k [] = none
find k (x ∷ xs) = let rest = find k xs in if same k x then some (length xs) else rest

-- The lock of a key, by a pointer, made if there is none; then `lk->count_++`.
abbrev pub counted : ℕ → Memory → ℕ × Memory
counted p s = (p, record s { count = update s.count p (s.count p + 1) })

-- A new lock is free, with count 0.
abbrev pub made : Key → Memory → ℕ × Memory
made k s =
    let p : ℕ = length s.m in
    counted p (record s { m = k ∷ s.m; owner = update s.owner p none; count = update s.count p 0 })

abbrev pub found : Key → Memory → Option ℕ → ℕ × Memory
found k s none = made k s
found k s (some p) = counted p s

-- `LockSet::lockFor`.
unfoldable pub lock_for : Key → Memory → ℕ × Memory
lock_for k s = found k s (find k s.m)

abbrev pub no_locks : Memory
no_locks = record { m = []; owner = λ p. none; count = λ p. 0; mu = none }
