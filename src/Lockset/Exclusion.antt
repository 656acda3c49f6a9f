-- ===== src/Lockset/Exclusion.antt =====
-- A key has one lock, so threads that have taken locks of the same key are one thread.
use cc_common.Base.{
  has, ℕ, ◌<◌, ◌≡◌, refl, ap, ◌∙◌, arith, Bool, true, false, ◌==◌, List, [], ◌∷◌, length, Option,
  none, some, Bool-cases, inl, inr,
}
use cc_common.Lockset.{Memory, find, found, lock_for}
use cc_common.Lockset.Keys.{Key, same, same_refl}
use cc_common.Lockset.Locks.{key_of}
use cc_common.Lockset.Thread.{
  Pc, Work, enter, pass, pick, leave, lock, ready, begin, unlock, uncount, clear, System, work,
  works, calls, Reach, started, later,
}
use cc_common.Lockset.Safe.{taken}
use cc_common.Lockset.Invariant.{Reach-Inv, Inv-Here}

-- No key is twice in the map.
unfoldable pub IsDistinct : List Key → Type 0
IsDistinct [] = Unit {0}
IsDistinct (k ∷ ks) = (find k ks ≡ none) × IsDistinct ks

found-IsDistinct :
    (k : Key) (s : Memory) (r : Option ℕ)
    → find k s.m ≡ r
    → IsDistinct s.m
    → IsDistinct (found k s r).1.m
unfolding IsDistinct
found-IsDistinct k s none e d = (e, d)
found-IsDistinct k s (some p) e d = d

Work-IsDistinct :
    (i : ℕ) (s t : Memory) (q p : Pc) → Work i s q t p → IsDistinct s.m → IsDistinct t.m
Work-IsDistinct i s t q p (enter e) d = d
Work-IsDistinct i s t q p (pass e) d = d
Work-IsDistinct i s t q p (pick {h} {new} {k} e) d =
    unfold lock_for in found-IsDistinct k s (find k s.m) refl d
Work-IsDistinct i s t q p leave d = d
Work-IsDistinct i s t q p (lock e) d = d
Work-IsDistinct i s t q p ready d = d
Work-IsDistinct i s t q p begin d = d
Work-IsDistinct i s t q p unlock d = d
Work-IsDistinct i s t q p uncount d = d
Work-IsDistinct i s t q p clear d = d

pub Reach-IsDistinct : {again : Bool} {n : ℕ} {s : System} → Reach again n s → IsDistinct s.mem.m
Reach-IsDistinct started = unfold IsDistinct in tt
Reach-IsDistinct (later {s} r (works (work i {m} {p} lt mv))) =
    Work-IsDistinct i s.mem m (s.pc i) p mv (Reach-IsDistinct r)
Reach-IsDistinct (later r (calls i lt c)) = Reach-IsDistinct r

find_more :
    (x : Key) (m : List Key) (k : Key) (q : ℕ)
    → find k m ≡ some q
    → (r : ℕ) × (find k (x ∷ m) ≡ some r)
unfolding find
find_more x m k q e = elim (Bool-cases (same k x)) [
  | inl hit ↦ (length m, rw hit)
  | inr miss ↦ (q, rw (miss, e))
]

find-key_of : (m : List Key) (p : ℕ) → p < length m → (q : ℕ) × (find (key_of m p) m ≡ some q)
unfolding find key_of
find-key_of [] p lt = absurd (omega arith)
find-key_of (x ∷ m) p lt = elim (Bool-cases (p == length m)) [
  | inl last ↦ (length m, rw (last, same_refl x))
  | inr older ↦
      let (q, e) = find-key_of m p (ground arith) in
      let same_key : key_of (x ∷ m) p ≡ key_of m p = rw older in
      let (r, hit) = find_more x m (key_of m p) q e in (r, ap (λ k. find k (x ∷ m)) same_key ∙ hit)
]

-- Different locks have different keys.
pub key_of-inj :
    (m : List Key) (p q : ℕ)
    → IsDistinct m
    → p < length m
    → q < length m
    → key_of m p ≡ key_of m q
    → p ≡ q
unfolding IsDistinct key_of
key_of-inj [] p q d hp hq e = absurd (omega arith)
key_of-inj (x ∷ m) p q d hp hq e = elim (Bool-cases (p == length m)) [
  | inl p_last ↦ elim (Bool-cases (q == length m)) [
    | inl q_last ↦ ground arith
    | inr q_old ↦
        let (r, hit) = find-key_of m q (ground arith) in
        let same_key : x ≡ key_of m q = ground arith in
        absurd (clash x m r d.0 (ap (λ k. find k m) same_key ∙ hit))
  ]
  | inr p_old ↦ elim (Bool-cases (q == length m)) [
    | inl q_last ↦
        let (r, hit) = find-key_of m p (ground arith) in
        let same_key : x ≡ key_of m p = ground arith in
        absurd (clash x m r d.0 (ap (λ k. find k m) same_key ∙ hit))
    | inr q_old ↦ key_of-inj m p q d.1 (ground arith) (ground arith) (ground arith)
  ]
]
  where
    clash : (x : Key) (m : List Key) (r : ℕ) → find x m ≡ none → find x m ≡ some r → ⊥
    clash x m r a b = cc

-- Where each thread has one `LockSetLock` and uses it for one call at a time, two threads that have taken locks of the
-- same key are one thread.
pub mutual_exclusion :
    {n : ℕ} {s : System}
    → Reach false n s
    → (i j p q : ℕ) → has p (taken (s.pc i)) ≡ true
    → has q (taken (s.pc j)) ≡ true
    → key_of s.mem.m p ≡ key_of s.mem.m q
    → i ≡ j
mutual_exclusion {n} {s} r i j p q hp hq e =
    let inv = Reach-Inv r in
    let here = Inv-Here n i s inv in
    let mine : s.mem.owner p ≡ some i = inv.owned i p hp in
    let yours : s.mem.owner q ≡ some j = inv.owned j q hq in
    let one : p ≡ q =
      key_of-inj s.mem.m p q (Reach-IsDistinct r) (here.old i p mine) (here.old j q yours) e in
    ground arith
