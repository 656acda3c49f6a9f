-- ===== src/Lockset/Invariant.antt =====
-- The invariant holds in every state that threads reach, where each `LockSetLock` is used for one call
-- at a time.
use cc_common.Base.{
  has, ℕ, ◌<◌, ◌≡◌, refl, arith, true, false, ◌==◌, List, [], ◌∷◌, ◌++◌, length, Bool-cases, inl,
  inr,
}
use cc_common.Lockset.Keys.{Key}
use cc_common.Lockset.Locks.{Known}
use cc_common.Lockset.Thread.{
  Pc, idle, asking, picking, locking, holding, unlocking, dropped, System, WorkStep, work, Step,
  works, calls, Reach, started, later,
}
use cc_common.Lockset.Safe.{taken, IsGood, Inv, Moved-Inv}
use cc_common.Lockset.Moves.{Here, Call-Moved, Work-Moved}

pub Known-has : (m : List Key) (x : ℕ) (ps : List ℕ) → Known m ps → has x ps ≡ true → x < length m
Known-has m x [] h e = cc
Known-has m x (p ∷ ps) h e = elim (Bool-cases (x == p)) [
  | inl here ↦ ground (arith, here)
  | inr there ↦ Known-has m x ps h.1 (ground (arith, there))
]

Known-front : (m : List Key) (ps qs : List ℕ) → Known m (ps ++ qs) → Known m ps
Known-front m [] qs h = tt
Known-front m (p ∷ ps) qs h = (h.0, Known-front m ps qs h.1)

taken-Known : (m : List Key) (q : Pc) → IsGood m q → Known m (taken q)
unfolding IsGood
taken-Known m idle g = tt
taken-Known m (asking h ks) g = rw (g.0) tt
taken-Known m (picking h new last ks) g = rw (g.0) tt
taken-Known m (locking h w) g = Known-front m h w g.0
taken-Known m (holding h) g = g.0
taken-Known m (unlocking l) g = g.0
taken-Known m (dropped p l) g = g.1

pub Inv-Here : (n i : ℕ) (s : System) → Inv n s → Here i s.mem (s.pc i)
Inv-Here n i s inv = record {
  good = inv.good i;
  owned = inv.owned i;
  owns = inv.owns i;
  old = λ j x o.
      Known-has s.mem.m x (taken (s.pc j)) (taken-Known s.mem.m (s.pc j) (inv.good j))
        (inv.owns j x o);
  mu_in = inv.mu_in i;
  in_mu_mu = inv.in_mu_mu i;
}

pub WorkStep-Inv : (n : ℕ) (s t : System) → WorkStep n s t → Inv n s → Inv n t
WorkStep-Inv n s t (work i {m} {p} lt mv) inv =
    Moved-Inv n i s m p lt inv (Work-Moved i s.mem m (s.pc i) p mv (Inv-Here n i s inv))

Step-Inv : (n : ℕ) (s t : System) → Step false n s t → Inv n s → Inv n t
Step-Inv n s t (works st) inv = WorkStep-Inv n s t st inv
Step-Inv n s t (calls i {p} lt c) inv =
    Moved-Inv n i s s.mem p lt inv (Call-Moved i s.mem (s.pc i) p c (Inv-Here n i s inv))

pub Reach-Inv : {n : ℕ} {s : System} → Reach false n s → Inv n s
unfolding IsGood
Reach-Inv started = record {
  good = λ i. tt;
  beyond = λ i far. refl;
  owned = λ i p h. cc;
  owns = λ i p h. cc;
  mu_in = λ i h. cc;
  in_mu_mu = λ i h. cc;
}
Reach-Inv {n} {s = t} (later {s} r st) = Step-Inv n s t st (Reach-Inv r)
