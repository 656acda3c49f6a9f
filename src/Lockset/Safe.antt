-- ===== src/Lockset/Safe.antt =====
-- What holds while each thread uses its `LockSetLock` for one call at a time: the owners of the mutexes are
-- the threads that took them, and every thread takes its locks in the order of their keys.
use cc_common.Base.{
  has, ℕ, ◌≤◌, ◌<◌, ◌≡◌, arith, Bool, true, false, ◌==◌, List, [], ◌++◌, some, Bool-cases, inl, inr,
  All, length, ap, ◌∙◌,
}
use cc_common.Lockset.{Memory, update}
use cc_common.Lockset.Keys.{Key, up_to, SortedFrom}
use cc_common.Lockset.Locks.{key_of, Known, Ascends}
use cc_common.Lockset.Thread.{
  Pc, idle, asking, picking, locking, holding, unlocking, dropped, System,
}

-- The locks whose mutexes the thread has taken and not released.
abbrev pub taken : Pc → List ℕ
taken idle = []
taken (asking h ks) = h
taken (picking h new last ks) = h
taken (locking h w) = h
taken (holding h) = h
taken (unlocking l) = l
taken (dropped p l) = l

-- The thread has `LockSet::mu_`.
abbrev pub in_mu : Pc → Bool
in_mu (picking h new last ks) = true
in_mu pc = false

-- The thread's own part: its locks are known and ascend, and the keys to come do not go back.
unfoldable pub IsGood : List Key → Pc → Type 0
IsGood m idle = Unit
IsGood m (asking h ks) = (h ≡ []) × SortedFrom [] ks
IsGood m (picking h new last ks) =
    (h ≡ [])
    × Known m new
    × Ascends m new
    × All (λ p. up_to (key_of m p) last ≡ true) new
    × SortedFrom last ks
IsGood m (locking h w) = Known m (h ++ w) × Ascends m (h ++ w)
IsGood m (holding h) = Known m h × Ascends m h
IsGood m (unlocking l) = Known m l × Ascends m l
IsGood m (dropped p l) = (p < length m) × Known m l × Ascends m l

pub record Inv (n : ℕ) (s : System) : Type 0 where
  pub good : (i : ℕ) → IsGood s.mem.m (s.pc i)
  pub beyond : (i : ℕ) → n ≤ i → s.pc i ≡ idle
  pub owned : (i p : ℕ) → has p (taken (s.pc i)) ≡ true → s.mem.owner p ≡ some i
  pub owns : (i p : ℕ) → s.mem.owner p ≡ some i → has p (taken (s.pc i)) ≡ true
  pub mu_in : (i : ℕ) → s.mem.mu ≡ some i → in_mu (s.pc i) ≡ true
  pub in_mu_mu : (i : ℕ) → in_mu (s.pc i) ≡ true → s.mem.mu ≡ some i

-- What a step of thread `i` to `p` and memory `t` does for the invariant.
pub record Moved (i : ℕ) (s t : Memory) (p : Pc) : Type 0 where
  pub good : IsGood t.m p
  pub goods : (q : Pc) → IsGood s.m q → IsGood t.m q
  pub owned : (x : ℕ) → has x (taken p) ≡ true → t.owner x ≡ some i
  pub owns : (x : ℕ) → t.owner x ≡ some i → has x (taken p) ≡ true
  pub others : (j x : ℕ) → (j == i) ≡ false → s.owner x ≡ some j → t.owner x ≡ some j
  pub others_before : (j x : ℕ) → (j == i) ≡ false → t.owner x ≡ some j → s.owner x ≡ some j
  pub mu_in : t.mu ≡ some i → in_mu p ≡ true
  pub in_mu_mu : in_mu p ≡ true → t.mu ≡ some i
  pub mu_others : (j : ℕ) → (j == i) ≡ false → s.mu ≡ some j → t.mu ≡ some j
  pub mu_others_before : (j : ℕ) → (j == i) ≡ false → t.mu ≡ some j → s.mu ≡ some j

-- Thread `j` is the one that moved, or another.
at_thread {κ} :
    (P : Pc → Type κ) (f : ℕ → Pc) (i j : ℕ) (p : Pc)
    → (j ≡ i → P p)
    → ((j == i) ≡ false → P (f j))
    → P (update f i p j)
at_thread P f i j p mine other = elim (Bool-cases (j == i)) [
  | inl e ↦ rw e (mine (ground arith))
  | inr e ↦ rw e (other e)
]

pub Moved-Inv :
    (n i : ℕ) (s : System) (t : Memory) (p : Pc)
    → i < n
    → Inv n s
    → Moved i s.mem t p
    → Inv n (record { mem = t; pc = update s.pc i p })
Moved-Inv n i s t p lt inv mv = record {
  good =
      λ j. at_thread (IsGood t.m) s.pc i j p (λ e. mv.good) (λ e. mv.goods (s.pc j) (inv.good j));
  beyond = λ j far.
      at_thread (λ q. q ≡ idle) s.pc i j p (λ e. absurd (omega arith)) (λ e. inv.beyond j far);
  owned = λ j x.
      at_thread (λ q. has x (taken q) ≡ true → t.owner x ≡ some j) s.pc i j p
        (λ e h. rw e (mv.owned x h)) (λ e h. mv.others j x e (inv.owned j x h));
  owns = λ j x.
      at_thread (λ q. t.owner x ≡ some j → has x (taken q) ≡ true) s.pc i j p
        (λ e h. mv.owns x (h ∙ ap some e)) (λ e h. inv.owns j x (mv.others_before j x e h));
  mu_in = λ j.
      at_thread (λ q. t.mu ≡ some j → in_mu q ≡ true) s.pc i j p (λ e h. mv.mu_in (h ∙ ap some e))
        (λ e h. inv.mu_in j (mv.mu_others_before j e h));
  in_mu_mu = λ j.
      at_thread (λ q. in_mu q ≡ true → t.mu ≡ some j) s.pc i j p (λ e h. rw e (mv.in_mu_mu h))
        (λ e h. mv.mu_others j e (inv.in_mu_mu j h));
}
