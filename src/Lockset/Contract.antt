-- ===== src/Lockset/Contract.antt =====
-- What `locksFor` promises: when it returns, the thread has the locks of exactly the keys that it
-- asked for, the empty one left out, whatever other threads do meanwhile.
use cc_common.Base.{
  ℕ, ◌<◌, ◌≡◌, refl, sym, ap, ◌∙◌, arith, Bool, true, false, ◌==◌, List, [], inl, inr, ◌↔◌,
}
use mathlib.Core.Path.{subst}
use cc_common.Lockset.{Memory, update}
use cc_common.Lockset.Keys.{Key, same, sort}
use cc_common.Lockset.Thread.{
  Pc, idle, asking, picking, locking, holding, Call, first, Work, System, work, works, calls, Reach,
  later,
}
use cc_common.Lockset.Invariant.{Reach-Inv}
use cc_common.Lockset.Covers.{has_key, HasLock, Covers, InCall, other-InCall, own-InCall}

-- Within `locksFor`.
abbrev pub calling : Pc → Bool
calling (asking h ks) = true
calling (picking h new last ks) = true
calling (locking h w) = true
calling q = false

-- The states from a call by thread `i` for the keys `ks` on, up to its return and as long as the thread
-- then does nothing, with the steps of all threads in any order.
pub data CallOf (n i : ℕ) (ks : List Key) : System → Type 0 where
  called :
      {s : System}
      → Reach false n s
      → i < n
      → s.pc i ≡ idle
      → CallOf n i ks (record s { pc = update s.pc i (asking [] (sort ks)) })
  own :
      {s : System} {m : Memory} {p : Pc}
      → CallOf n i ks s
      → i < n
      → calling (s.pc i) ≡ true
      → Work i s.mem (s.pc i) m p
      → CallOf n i ks (record { mem = m; pc = update s.pc i p })
  others_work :
      {s : System} {m : Memory} {p : Pc}
      → CallOf n i ks s
      → (j : ℕ) → j < n
      → (i == j) ≡ false
      → Work j s.mem (s.pc j) m p
      → CallOf n i ks (record { mem = m; pc = update s.pc j p })
  others_call :
      {s : System} {p : Pc}
      → CallOf n i ks s
      → (j : ℕ) → j < n
      → (i == j) ≡ false
      → Call false (s.pc j) p
      → CallOf n i ks (record s { pc = update s.pc j p })

CallOf-Reach : {n i : ℕ} {ks : List Key} {s : System} → CallOf n i ks s → Reach false n s
CallOf-Reach {n} {i} {ks} (called {s} r lt e) =
    later r (calls i lt (subst (λ q. Call false q (asking [] (sort ks))) (sym e) (first ks)))
CallOf-Reach {n} {i} (own c lt e mv) = later (CallOf-Reach c) (works (work i lt mv))
CallOf-Reach (others_work c j lt e mv) = later (CallOf-Reach c) (works (work j lt mv))
CallOf-Reach (others_call c j lt e call) = later (CallOf-Reach c) (calls j lt call)

CallOf-InCall :
    {n i : ℕ} {ks : List Key} {s : System} → CallOf n i ks s → InCall ks s.mem.m (s.pc i)
CallOf-InCall {n} {i} {ks} (called {s} r lt e) =
    let here : (i == i) ≡ true = ground arith in rw here (unfold InCall in refl)
CallOf-InCall {n} {i} {ks} (own {s} {m} {p} c lt e mv) =
    let here : (i == i) ≡ true = ground arith in
    rw here (
      own-InCall ks i s.mem m (s.pc i) p mv ((Reach-Inv (CallOf-Reach c)).good i) (CallOf-InCall c))
CallOf-InCall {n} {i} {ks} (others_work {s} {m} {p} c j lt e mv) = rw e (
    other-InCall ks j s.mem m (s.pc j) p (s.pc i) mv ((Reach-Inv (CallOf-Reach c)).good i)
      (CallOf-InCall c))
CallOf-InCall {n} {i} {ks} (others_call {s} {p} c j lt e call) = rw e (CallOf-InCall c)

-- Where each thread has one `LockSetLock` and uses it for one call at a time: when `locksFor` has returned, a key other
-- than "" has a lock among those that the thread has taken if and only if the thread asked for it.
pub locks_for_lem :
    {n i : ℕ} {ks : List Key} {s : System} {h : List ℕ}
    → CallOf n i ks s
    → s.pc i ≡ holding h
    → (k : Key) → same k [] ≡ false
    → (has_key k ks ≡ true) ↔ HasLock s.mem.m h k
locks_for_lem {n} {i} {ks} {s} {h} c e k real =
    let covers : Covers ks s.mem.m h [] =
      unfold InCall in subst (λ q. InCall ks s.mem.m q) e (CallOf-InCall c) in
    (
      λ asked. elim (covers.complete k asked real) [ inl later_on ↦ cc | inr had ↦ had ],
      λ had. ap (λ x. has_key x ks) (sym had.2) ∙ (covers.sound had.0 had.1).0,
    )
