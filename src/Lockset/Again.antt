-- ===== src/Lockset/Again.antt =====
-- A second call of `locksFor` on the same `LockSetLock` may wait for the thread itself.
use cc_common.Base.{ℕ, ◌≡◌, refl, sym, ap, ◌∙◌, arith, true, false, ◌||◌, List, [], ◌∷◌, none, some}
use mathlib.Core.Path.{subst}
use cc_common.Lockset.{Memory, update, find, found, counted, lock_for}
use cc_common.Lockset.Keys.{Key, same, same_refl, sort, insert_key}
use cc_common.Lockset.Thread.{
  Pc, asking, picking, locking, holding, first, second, Call, Work, enter, pick, leave, lock, ready,
  System, work, Step, works, calls, start, Reach, started, later,
}
use cc_common.Lockset.Drain.{Run, stop, Run-add, Run-Reach}

-- The first call makes the lock of its key, the second finds it.
lock_for_first : (k : Key) (s : Memory) → s.m ≡ [] → lock_for k s ≡ found k s none
unfolding lock_for find
lock_for_first k s e = rw e

abbrev none_yet : Memory
none_yet = record { m = []; owner = λ p. none; count = λ p. 0; mu = some 0 }

-- The memory after the first call, and after the second took `mu_`.
abbrev pub taken_once : Key → Memory
taken_once k = record {
  m = k ∷ [];
  owner = update (update (λ p. none) 0 none) 0 (some 0);
  count = update (update (λ p. 0) 0 0) 0 1;
  mu = none;
}

abbrev asked_twice : Key → Memory
asked_twice k = record (taken_once k) { mu = some 0 }

-- Thread 0 has called `locksFor` with the key alone, on a `LockSetLock` whose `locks_` are `h`.
abbrev pub asks : System → List ℕ → Key → System
asks s h k = record s { pc = update s.pc 0 (asking h (sort (k ∷ []))) }

-- A run of thread 0 alone, to some end.
abbrev pub Runs : System → Memory → (ℕ → Pc) → Type 0
Runs a s f = (l : ℕ) × Run 1 l a (record { mem = s; pc = f })

one_step :
    (a : System) (s t : Memory) (f : ℕ → Pc) (p : Pc)
    → Runs a s f
    → Work 0 s (f 0) t p
    → Runs a t (update f 0 p)
one_step a s t f p r mv = Run-add r.1 (work 0 (omega arith) mv)

-- The first call, alone.
pub first_call :
    (k : Key)
    → same k [] ≡ false
    → (f : ℕ → Pc) × Runs (asks start [] k) (taken_once k) f × (f 0 ≡ holding (0 ∷ []))
unfolding sort insert_key
first_call k real =
    let fresh : (same k [] || same k []) ≡ false = ground arith in
    let a = asks start [] k in
    let r1 = one_step a _ none_yet _ (picking [] [] [] (k ∷ [])) (0, stop) (enter refl) in
    let r2 = one_step a _ _ _ _ r1 (pick {h = []} {new = []} {k = k} {last = []} {ks = []} fresh) in
    let r2' =
      subst
        (λ (r : ℕ × Memory). Runs a r.1 (
          update (update (update start.pc 0 (asking [] (k ∷ []))) 0 (picking [] [] [] (k ∷ []))) 0
            (picking [] (r.0 ∷ []) k [])))
        (lock_for_first k none_yet refl) r2 in
    let r3 = one_step a _ _ _ _ r2' leave in
    let r4 = one_step a _ _ _ _ r3 (lock refl) in
    (_, one_step a _ (taken_once k) _ _ r4 ready, refl)

lock_for_second : (k : Key) → lock_for k (asked_twice k) ≡ counted 0 (asked_twice k)
unfolding lock_for find
lock_for_second k = rw (same_refl k)

-- No step of anyone is left where the only thread waits for a mutex that is taken.
stuck :
    (s : Memory) (f : ℕ → Pc) (x j : ℕ) (h w : List ℕ)
    → s.owner x ≡ some j
    → f 0 ≡ locking h (x ∷ w)
    → (t : System) → ¬ Step true 1 (record { mem = s; pc = f }) t
stuck s f x j h w o e t (works (work i {m} {p} lt mv)) =
    let zero_i : i ≡ 0 = omega arith in
    no_work m p (subst (λ q. Work i s q m p) (ap f zero_i ∙ e) mv)
  where
    no_work : (m : Memory) (p : Pc) → ¬ Work i s (locking h (x ∷ w)) m p
    no_work m p (lock free) = cc
stuck s f x j h w o e t (calls i {p} lt c) =
    let zero_i : i ≡ 0 = omega arith in no_call p (subst (λ q. Call true q p) (ap f zero_i ∙ e) c)
  where
    no_call : (p : Pc) → ¬ Call true (locking h (x ∷ w)) p
    no_call p c = elim c [ ]

-- If a second call on the same `LockSetLock` is allowed, then for every key but "": a thread alone
-- that calls `locksFor` with the key comes to hold the one lock that there is, which is the key's; if it
-- then calls `locksFor` with the key again, it comes to wait for that lock, and no step is possible.
pub second-stuck :
    (k : Key)
    → same k [] ≡ false
    → (l m : ℕ) × (s t : System) × Run 1 l (asks start [] k) s
      × (s.pc 0 ≡ holding (0 ∷ []))
      × (s.mem.m ≡ k ∷ [])
      × Run 1 m (asks s (0 ∷ []) k) t
      × (t.pc 0 ≡ locking (0 ∷ []) (0 ∷ []))
      × (t.mem.m ≡ k ∷ [])
      × Reach true 1 t
      × ((u : System) → ¬ Step true 1 t u)
unfolding sort insert_key
second-stuck k real =
    let fresh : (same k [] || same k []) ≡ false = ground arith in
    let (f, (l, r), at_hold) = first_call k real in
    let held : System = record { mem = taken_once k; pc = f } in
    let a = asks held (0 ∷ []) k in
    let asked_first : Reach true 1 (asks start [] k) =
      later started (calls 0 (omega arith) (first (k ∷ []))) in
    let again : Call true (f 0) (asking (0 ∷ []) (k ∷ [])) =
      subst (λ q. Call true q (asking (0 ∷ []) (k ∷ []))) (sym at_hold) (second (k ∷ []) refl) in
    let asked_again : Reach true 1 a =
      later (Run-Reach asked_first r) (calls 0 (omega arith) again) in
    let r2 =
      one_step a _ (asked_twice k) _ (picking (0 ∷ []) [] [] (k ∷ [])) (0, stop) (enter refl) in
    let r3 =
      one_step a _ _ _ _ r2 (pick {h = 0 ∷ []} {new = []} {k = k} {last = []} {ks = []} fresh) in
    let r3' =
      subst
        (λ (r : ℕ × Memory). Runs a r.1 (
          update
            (update (update f 0 (asking (0 ∷ []) (k ∷ []))) 0 (picking (0 ∷ []) [] [] (k ∷ []))) 0
            (picking (0 ∷ []) (r.0 ∷ []) k [])))
        (lock_for_second k) r3 in
    let (m, waits) = one_step a _ _ _ (locking (0 ∷ []) (0 ∷ [])) r3' leave in
    (
      l,
      m,
      held,
      _,
      r,
      at_hold,
      refl,
      waits,
      refl,
      refl,
      Run-Reach asked_again waits,
      stuck _ _ 0 0 (0 ∷ []) [] refl refl,
    )
