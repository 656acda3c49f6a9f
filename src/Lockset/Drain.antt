-- ===== src/Lockset/Drain.antt =====
-- What the threads have left to do within their calls, and runs without new calls.
use cc_common.Base.{
  ℕ, zero, suc, ◌+◌, ◌*◌, ◌≤◌, ◌<◌, ◌≡◌, ◌≢◌, refl, arith, Bool, false, ◌==◌, [], ◌∷◌, none, length,
  length-append, Bool-cases, inl, inr,
}
use native.Mathlib.Decide.{dec_lt}
use cc_common.Lockset.{Memory, update}
use cc_common.Lockset.Thread.{
  Pc, idle, asking, picking, locking, holding, unlocking, dropped, Work, enter, pass, pick, leave,
  lock, ready, begin, unlock, uncount, clear, System, WorkStep, work, works, Reach, later,
}
use cc_common.Lockset.Safe.{Inv}
use cc_common.Lockset.Invariant.{Reach-Inv, WorkStep-Inv}
use cc_common.Lockset.Progress.{Option-cases, some_moves}

-- The sum over the first `n` threads.
unfoldable pub total : ℕ → (Pc → ℕ) → (ℕ → Pc) → ℕ
total zero w f = 0
total (suc n) w f = total n w f + w (f n)

total-update_beyond :
    (n i : ℕ) (w : Pc → ℕ) (f : ℕ → Pc) (p : Pc) → n ≤ i → total n w (update f i p) ≡ total n w f
unfolding total
total-update_beyond zero i w f p h = refl
total-update_beyond (suc n) i w f p h = ground (arith, total-update_beyond n i w f p)

pub total-update :
    (n i : ℕ) (w : Pc → ℕ) (f : ℕ → Pc) (p : Pc)
    → i < n
    → total n w (update f i p) + w (f i) ≡ total n w f + w p
unfolding total
total-update zero i w f p h = absurd (omega arith)
total-update (suc n) i w f p h = elim (Bool-cases (n == i)) [
  | inl here ↦
      let e : n ≡ i = ground arith in
      rw (here, total-update_beyond n i w f p (omega arith), e) (omega arith)
  | inr there ↦ rw there (omega (arith, total-update n i w f p (ground arith)))
]

pub total-le : (n i : ℕ) (w : Pc → ℕ) (f : ℕ → Pc) → i < n → w (f i) ≤ total n w f
unfolding total
total-le zero i w f h = absurd (omega arith)
total-le (suc n) i w f h = elim (dec_lt i n) [
  | yes lt ↦ omega (arith, total-le n i w f lt)
  | no ge ↦ let e : i ≡ n = omega arith in rw e (omega arith)
]

-- The steps that a thread has left, at most.
weight : Pc → ℕ
weight idle = 0
weight (asking h ks) = 2 * length h + 4 * length ks + 5
weight (picking h new last ks) = 2 * length h + 3 * length new + 4 * length ks + 4
weight (locking h w) = 2 * length h + 3 * length w + 3
weight (holding h) = 2 * length h + 2
weight (unlocking l) = 2 * length l + 1
weight (dropped p l) = 2 * length l + 2

weight-zero : (q : Pc) → weight q ≡ 0 → q ≡ idle
unfolding weight
weight-zero idle e = refl
weight-zero (asking h ks) e = absurd (omega arith)
weight-zero (picking h new last ks) e = absurd (omega arith)
weight-zero (locking h w) e = absurd (omega arith)
weight-zero (holding h) e = absurd (omega arith)
weight-zero (unlocking l) e = absurd (omega arith)
weight-zero (dropped p l) e = absurd (omega arith)

Work-weight : (i : ℕ) (s t : Memory) (q p : Pc) → Work i s q t p → weight p < weight q
unfolding weight
Work-weight i s t q p (enter e) = omega arith
Work-weight i s t q p (pass e) = omega arith
Work-weight i s t q p (pick {h} {new} {k} e) = omega (arith, length-append new (_ ∷ []))
Work-weight i s t q p leave = omega arith
Work-weight i s t q p (lock {h} {w} {p = x} e) = omega (arith, length-append h (x ∷ []))
Work-weight i s t q p ready = omega arith
Work-weight i s t q p begin = omega arith
Work-weight i s t q p unlock = omega arith
Work-weight i s t q p uncount = omega arith
Work-weight i s t q p clear = omega arith

-- What the threads have left to do.
pub left_over : ℕ → System → ℕ
left_over n s = total n weight s.pc

WorkStep-left_over : (n : ℕ) (s t : System) → WorkStep n s t → left_over n t < left_over n s
unfolding left_over
WorkStep-left_over n s t (work i {m} {p} lt mv) =
    omega (arith, total-update n i weight s.pc p lt, Work-weight i s.mem m (s.pc i) p mv)

-- A run of `k` steps within calls, without new ones.
pub data Run (n : ℕ) : ℕ → System → System → Type 0 where
  stop : {s : System} → Run n 0 s s
  go : {k : ℕ} {s t u : System} → WorkStep n s t → Run n k t u → Run n (suc k) s u

pub Run-add : {n k : ℕ} {s t u : System} → Run n k s t → WorkStep n t u → (l : ℕ) × Run n l s u
Run-add stop st = (_, go st stop)
Run-add (go first r) st = let (l, r') = Run-add r st in (_, go first r')

pub Run-Reach :
    {again : Bool} {n k : ℕ} {s t : System} → Reach again n s → Run n k s t → Reach again n t
Run-Reach before stop = before
Run-Reach before (go st r) = Run-Reach (later before (works st)) r

-- All threads have left their calls, and no mutex is anyone's.
pub record Drained (s : System) : Type 0 where
  pub left : (i : ℕ) → s.pc i ≡ idle
  pub released : (p : ℕ) → s.mem.owner p ≡ none
  pub mu_released : s.mem.mu ≡ none

idle-Drained : (n : ℕ) (s : System) → Inv n s → ((i : ℕ) → s.pc i ≡ idle) → Drained s
idle-Drained n s inv left = record {
  left = left;
  released = λ p. elim (Option-cases (s.mem.owner p)) [
    | inl e ↦ e
    | inr (j, e) ↦ absurd (ground (arith, left j, inv.owns j p e))
  ];
  mu_released = elim (Option-cases s.mem.mu) [
    | inl e ↦ e
    | inr (j, e) ↦ absurd (ground (arith, left j, inv.mu_in j e))
  ];
}

busy_thread : (n : ℕ) (f : ℕ → Pc) → 0 < total n weight f → (i : ℕ) × (f i ≢ idle)
unfolding total weight
busy_thread zero f h = absurd (omega arith)
busy_thread (suc n) f h = elim (dec_lt 0 (weight (f n))) [
  | yes pos ↦ (n, λ e. ground (arith, e))
  | no none_here ↦ busy_thread n f (omega arith)
]

drain :
    (fuel n : ℕ) (s : System)
    → Inv n s
    → left_over n s < fuel
    → (k : ℕ) × (t : System) × Run n k s t × Drained t
unfolding left_over
drain zero n s inv lt = absurd (omega arith)
drain (suc fuel) n s inv lt = elim (dec_lt 0 (total n weight s.pc)) [
  | yes pos ↦
      let (i, busy) = busy_thread n s.pc pos in
      let (t, st) = some_moves inv i busy in
      let (k, u, r, done) =
        drain fuel n t (WorkStep-Inv n s t st inv) (omega (arith, WorkStep-left_over n s t st)) in
      (suc k, u, go st r, done)
  | no nothing ↦ (
    0,
    s,
    stop,
    idle-Drained n s inv (λ i. elim (dec_lt i n) [
      | yes lt ↦ weight-zero (s.pc i) (omega (arith, total-le n i weight s.pc lt))
      | no far ↦ inv.beyond i (omega arith)
    ]),
  )
]

-- Where each thread has one `LockSetLock` and uses it for one call at a time, every reachable state has
-- a run without new calls to one in which every thread has left its call, and neither `mu_` nor the
-- mutex of any lock is taken.
pub Run-drains :
    {n : ℕ} {s : System} → Reach false n s → (k : ℕ) × (t : System) × Run n k s t × Drained t
Run-drains {n} {s} r = drain (left_over n s + 1) n s (Reach-Inv r) (omega arith)
