-- ===== src/Lockset/Locks.antt =====
-- The keys of locks, and lists of locks that ascend by their keys.
use cc_common.Base.{
  All-append, has, ℕ, ◌+◌, ◌<◌, ◌≡◌, refl, arith, true, false, ◌==◌, ◌||◌, if◌then◌else◌, List, [],
  ◌∷◌, ◌++◌, length, Option, none, some, All, Bool-cases, inl, inr, ◌⊎◌,
}
use cc_common.Lockset.{Memory, find, found, lock_for}
use cc_common.Lockset.Keys.{Key, same, same_eq, before, before_irrefl}

-- The key of a lock.
unfoldable pub key_of : List Key → ℕ → Key
key_of [] p = []
key_of (k ∷ ks) p = let rest = key_of ks p in if p == length ks then k else rest

pub key_of-older : (k : Key) (m : List Key) (p : ℕ) → p < length m → key_of (k ∷ m) p ≡ key_of m p
unfolding key_of
key_of-older k m p h = ground arith

pub key_of-newest : (k : Key) (m : List Key) → key_of (k ∷ m) (length m) ≡ k
unfolding key_of
key_of-newest k m = ground arith

pub find-key_of :
    (k : Key) (m : List Key) (p : ℕ) → find k m ≡ some p → (p < length m) × (key_of m p ≡ k)
unfolding find key_of
find-key_of k [] p h = cc
find-key_of k (x ∷ m) p h = elim (Bool-cases (same k x)) [
  | inl hit ↦ ground (arith, same_eq k x hit)
  | inr miss ↦ ground (arith, find-key_of k m p)
]

-- The lock is among those of the map.
abbrev pub Known : List Key → List ℕ → Type 0
Known m ps = All (λ p. p < length m) ps

-- Each key is before those that follow.
unfoldable pub Ascends : List Key → List ℕ → Type 0
Ascends m [] = Unit {0}
Ascends m (p ∷ ps) = All (λ q. before (key_of m p) (key_of m q) ≡ true) ps × Ascends m ps

module _ {ℓ κ} {A : Type ℓ} where
  pub All-map :
      {P : A → Type κ} {Q : A → Type κ} (xs : List A) → ((x : A) → P x → Q x) → All P xs → All Q xs
  All-map [] f h = tt
  All-map (x ∷ xs) f h = (f x h.0, All-map xs f h.1)

  pub All-both :
      {P : A → Type κ} {Q : A → Type κ} {R : A → Type κ} (xs : List A)
      → ((x : A) → P x → Q x → R x)
      → All P xs
      → All Q xs
      → All R xs
  All-both [] f h k = tt
  All-both (x ∷ xs) f h k = (f x h.0 k.0, All-both xs f h.1 k.1)

pub Known-grow : (k : Key) (m : List Key) (ps : List ℕ) → Known m ps → Known (k ∷ m) ps
Known-grow k m ps h = All-map ps (λ p lt. omega arith) h

pub Ascends-grow :
    (k : Key) (m : List Key) (ps : List ℕ) → Known m ps → Ascends m ps → Ascends (k ∷ m) ps
unfolding Ascends
Ascends-grow k m [] h a = tt
Ascends-grow k m (p ∷ ps) h a = (
  All-both ps (λ q lt b. rw (key_of-older k m p h.0, key_of-older k m q lt) b) h.1 a.0,
  Ascends-grow k m ps h.1 a.1,
)

pub Ascends-snoc :
    (m : List Key) (ps : List ℕ) (q : ℕ)
    → Ascends m ps
    → All (λ p. before (key_of m p) (key_of m q) ≡ true) ps
    → Ascends m (ps ++ q ∷ [])
unfolding Ascends
Ascends-snoc m [] q a h = (tt, tt)
Ascends-snoc m (p ∷ ps) q a h =
    (All-append _ ps (q ∷ []) a.0 (h.0, tt), Ascends-snoc m ps q a.1 h.1)

pub has-snoc : (p q : ℕ) (xs : List ℕ) → has p (xs ++ q ∷ []) ≡ (p == q || has p xs)
has-snoc p q [] = refl
has-snoc p q (x ∷ xs) = ground (arith, has-snoc p q xs)

All-middle {κ} : (P : ℕ → Type κ) (ps qs : List ℕ) (q : ℕ) → All P (ps ++ q ∷ qs) → P q
All-middle P [] qs q h = h.0
All-middle P (p ∷ ps) qs q h = All-middle P ps qs q h.1

-- A lock that is taken comes before one that is wanted.
pub Ascends-split :
    (m : List Key) (ps qs : List ℕ) (p q : ℕ)
    → Ascends m (ps ++ q ∷ qs)
    → has p ps ≡ true
    → before (key_of m p) (key_of m q) ≡ true
unfolding Ascends
Ascends-split m [] qs p q a h = cc
Ascends-split m (x ∷ ps) qs p q a h = elim (Bool-cases (p == x)) [
  | inl here ↦
      let e : p ≡ x = ground arith in
      rw e (All-middle (λ r. before (key_of m x) (key_of m r) ≡ true) ps qs q a.0)
  | inr there ↦ Ascends-split m ps qs p q a.1 (ground (arith, there))
]

-- No lock is twice in an ascending list.
pub Ascends-once : (m : List Key) (p : ℕ) (ps : List ℕ) → Ascends m (p ∷ ps) → has p ps ≡ false
unfolding Ascends
Ascends-once m p ps a = not_has ps a.0
  where
    not_has :
        (qs : List ℕ) → All (λ q. before (key_of m p) (key_of m q) ≡ true) qs → has p qs ≡ false
    not_has [] h = refl
    not_has (q ∷ qs) h = elim (Bool-cases (p == q)) [
      | inl here ↦ absurd (ground (arith, before_irrefl (key_of m p)))
      | inr there ↦ ground (arith, not_has qs h.1)
    ]

-- `lockFor` gives a lock of the key, counts it, and leaves the other locks as they are; a new lock is
-- free.
pub record Picked (k : Key) (s : Memory) (p : ℕ) (t : Memory) : Type 0 where
  pub known : p < length t.m
  pub key_eq : key_of t.m p ≡ k
  pub grown : (t.m ≡ s.m) ⊎ (t.m ≡ k ∷ s.m)
  pub owner_eq : (q : ℕ) → (t.owner q ≡ s.owner q) ⊎ ((q ≡ length s.m) × (t.owner q ≡ none))
  pub count_eq :
      s.count (length s.m) ≡ 0 → (q : ℕ) → t.count q ≡ (if q == p then s.count q + 1 else s.count q)
  pub mu_eq : t.mu ≡ s.mu

found-Picked :
    (k : Key) (s : Memory) (r : Option ℕ)
    → find k s.m ≡ r
    → Picked k s (found k s r).0 (found k s r).1
found-Picked k s (some p) e =
    let (known, key_eq) = find-key_of k s.m p e in
    record {
      known = known;
      key_eq = key_eq;
      grown = inl refl;
      owner_eq = λ q. inl refl;
      count_eq = λ z q. ground arith;
      mu_eq = refl;
    }
found-Picked k s none e = record {
  known = omega arith;
  key_eq = key_of-newest k s.m;
  grown = inr refl;
  owner_eq = λ q. elim (Bool-cases (q == length s.m)) [
    | inl here ↦ inr (ground arith, rw here)
    | inr there ↦ inl (rw there)
  ];
  count_eq = λ z q. ground arith;
  mu_eq = refl;
}

pub lock_for-Picked : (k : Key) (s : Memory) → Picked k s (lock_for k s).0 (lock_for k s).1
unfolding lock_for
lock_for-Picked k s = found-Picked k s (find k s.m) refl
