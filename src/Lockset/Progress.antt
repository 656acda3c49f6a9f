-- ===== src/Lockset/Progress.antt =====
-- Which threads can move: one that waits for a lock, its owner, the owner of what that waits for, and
-- so on.
use cc_common.Base.{
  has, ℕ, zero, suc, ◌+◌, ◌≤◌, ◌<◌, ◌≡◌, ◌≢◌, refl, arith, true, false, ◌==◌, if◌then◌else◌, List,
  [], ◌∷◌, ◌++◌, length, Option, none, some, Bool-cases, inl, inr, ◌⊎◌,
}
use mathlib.Core.Path.{subst}
use native.Mathlib.Decide.{dec_lt}
use cc_common.Lockset.{Memory}
use cc_common.Lockset.Keys.{Key, before, before_trans, before_irrefl}
use cc_common.Lockset.Locks.{key_of, Known, Ascends-split}
use cc_common.Lockset.Thread.{
  Pc, idle, asking, picking, locking, holding, unlocking, dropped, passed_over, Work, enter, pass,
  pick, leave, lock, ready, begin, unlock, uncount, clear, System, WorkStep, work, Reach,
}
use cc_common.Lockset.Safe.{taken, in_mu, IsGood, Inv}
use cc_common.Lockset.Invariant.{Reach-Inv}

-- How many keys are behind `k`.
above : List Key → Key → ℕ
above [] k = 0
above (x ∷ xs) k = if before k x then above xs k + 1 else above xs k

above-le : (m : List Key) (k l : Key) → before k l ≡ true → above m l ≤ above m k
unfolding above
above-le [] k l h = omega arith
above-le (x ∷ xs) k l h = ground (arith, above-le xs k l h, before_trans k l x h)

above-lt :
    (m : List Key) (k : Key) (p : ℕ)
    → p < length m
    → before k (key_of m p) ≡ true
    → above m (key_of m p) < above m k
unfolding above key_of
above-lt [] k p lt h = absurd (omega arith)
above-lt (x ∷ xs) k p lt h = elim (Bool-cases (p == length xs)) [
  | inl last ↦
      let b : before k x ≡ true = ground (arith, h, last) in
      rw (last, before_irrefl x, b) (omega (arith, above-le xs k x b))
  | inr older ↦
      let b : before k (key_of xs p) ≡ true = ground (arith, h, older) in
      ground (arith, above-lt xs k p, before_trans k (key_of xs p) x)
]

Known-middle : (m : List Key) (h w : List ℕ) (y : ℕ) → Known m (h ++ y ∷ w) → y < length m
Known-middle m [] w y k = k.0
Known-middle m (x ∷ h) w y k = Known-middle m h w y k.1

-- Where a thread stands: it can move, or it waits for a mutex that another has.
data Stands (i : ℕ) (s : Memory) (q : Pc) : Type 0 where
  out : q ≡ idle → Stands i s q
  can : (t : Memory) (p : Pc) → Work i s q t p → Stands i s q
  at_mu : (j : ℕ) → s.mu ≡ some j → Stands i s q
  at_lock : (h w : List ℕ) (x j : ℕ) → q ≡ locking h (x ∷ w) → s.owner x ≡ some j → Stands i s q

pub Option-cases : (r : Option ℕ) → (r ≡ none) ⊎ ((j : ℕ) × (r ≡ some j))
Option-cases none = inl refl
Option-cases (some j) = inr (j, refl)

stands : (i : ℕ) (s : Memory) (q : Pc) → Stands i s q
stands i s idle = out refl
stands i s (asking h ks) = elim (Option-cases s.mu) [
  | inl free ↦ can _ _ (enter free)
  | inr (j, e) ↦ at_mu j e
]
stands i s (picking h new last []) = can _ _ leave
stands i s (picking h new last (k ∷ ks)) = elim (Bool-cases (passed_over k last)) [
  | inl e ↦ can _ _ (pass e)
  | inr e ↦ can _ _ (pick e)
]
stands i s (locking h []) = can _ _ ready
stands i s (locking h (x ∷ w)) = elim (Option-cases (s.owner x)) [
  | inl free ↦ can _ _ (lock free)
  | inr (j, e) ↦ at_lock h w x j refl e
]
stands i s (holding h) = can _ _ begin
stands i s (unlocking []) = can _ _ clear
stands i s (unlocking (p ∷ left)) = can _ _ unlock
stands i s (dropped p left) = can _ _ uncount

picking_moves :
    (i : ℕ) (s : Memory) (q : Pc) → in_mu q ≡ true → (t : Memory) × (p : Pc) × Work i s q t p
picking_moves i s idle e = cc
picking_moves i s (asking h ks) e = cc
picking_moves i s (picking h new last []) e = (_, _, leave)
picking_moves i s (picking h new last (k ∷ ks)) e = elim (Bool-cases (passed_over k last)) [
  | inl over ↦ (_, _, pass over)
  | inr fresh ↦ (_, _, pick fresh)
]
picking_moves i s (locking h w) e = cc
picking_moves i s (holding h) e = cc
picking_moves i s (unlocking l) e = cc
picking_moves i s (dropped p l) e = cc

abbrev pub CanWork : ℕ → System → Type 0
CanWork n s = (t : System) × WorkStep n s t

module _ {n : ℕ} {s : System} (inv : Inv n s) where
  within : (i : ℕ) → s.pc i ≢ idle → i < n
  within i busy = elim (dec_lt i n) [
    | yes lt ↦ lt
    | no far ↦ absurd (busy (inv.beyond i (omega arith)))
  ]

  holder_moves : (j : ℕ) → s.mem.mu ≡ some j → CanWork n s
  holder_moves j e =
      let inside : in_mu (s.pc j) ≡ true = inv.mu_in j e in
      let (t, p, mv) = picking_moves j s.mem (s.pc j) inside in
      (_, work j (within j (λ none_here. ground arith)) mv)

  -- From a thread that waits for a lock to its owner, and on: the keys ascend, so this ends.
  chain :
      (fuel x j : ℕ)
      → s.mem.owner x ≡ some j
      → above s.mem.m (key_of s.mem.m x) < fuel
      → CanWork n s
  chain zero x j o lt = absurd (omega arith)
  chain (suc fuel) x j o lt =
      let mine : has x (taken (s.pc j)) ≡ true = inv.owns j x o in
      elim (stands j s.mem (s.pc j)) [
        | out e ↦ absurd (ground arith)
        | can t p mv ↦ (_, work j (within j (λ e. ground arith)) mv)
        | at_mu k e ↦ holder_moves k e
        | at_lock h w y k e o' ↦
            let g = subst (IsGood s.mem.m) e (inv.good j) in
            let h_has : has x h ≡ true = subst (λ q. has x (taken q) ≡ true) e mine in
            let up : before (key_of s.mem.m x) (key_of s.mem.m y) ≡ true =
              Ascends-split s.mem.m h w x y (unfold IsGood in g.1) h_has in
            let known : y < length s.mem.m = Known-middle s.mem.m h w y (unfold IsGood in g.0) in
            chain fuel y k o' (omega (arith, above-lt s.mem.m (key_of s.mem.m x) y known up))
      ]

  pub some_moves : (i : ℕ) → s.pc i ≢ idle → CanWork n s
  some_moves i busy = elim (stands i s.mem (s.pc i)) [
    | out e ↦ absurd (busy e)
    | can t p mv ↦ (_, work i (within i busy) mv)
    | at_mu j e ↦ holder_moves j e
    | at_lock h w x j e o ↦ chain (above s.mem.m (key_of s.mem.m x) + 1) x j o (omega arith)
  ]

-- Where each thread has one `LockSetLock` and uses it for one call at a time, there is no deadlock: as
-- long as a thread is within `locksFor` or `unlock` or between them, one such thread can move.
pub no_deadlock : {n : ℕ} {s : System} → Reach false n s → (i : ℕ) → s.pc i ≢ idle → CanWork n s
no_deadlock r i busy = some_moves (Reach-Inv r) i busy
