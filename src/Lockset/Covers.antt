-- ===== src/Lockset/Covers.antt =====
-- The keys of a call of `locksFor`, and which of them have their locks at each step of the call.
use cc_common.Base.{
  has, ℕ, ◌≡◌, refl, sym, ap, ◌∙◌, arith, Bool, true, false, ◌==◌, ◌||◌, List, [], ◌∷◌, ◌++◌,
  append-nil, append_assoc, Bool-cases, inl, inr, ◌⊎◌,
}
use mathlib.Core.Path.{subst}
use cc_common.Lockset.{Memory, lock_for}
use cc_common.Lockset.Keys.{Key, same, same_refl, same_eq, sort, insert_key}
use cc_common.Lockset.Locks.{key_of, key_of-older, Known, has-snoc, lock_for-Picked}
use cc_common.Lockset.Thread.{
  Pc, idle, asking, picking, locking, holding, unlocking, dropped, passed_over, Work, enter, pass,
  pick, leave, lock, ready, begin, unlock, uncount, clear,
}
use cc_common.Lockset.Safe.{IsGood}
use cc_common.Lockset.Invariant.{Known-has}

abbrev pub has_key : Key → List Key → Bool
has_key k [] = false
has_key k (x ∷ xs) = same k x || has_key k xs

has_key-insert :
    (k x : Key) (xs : List Key) → has_key k (insert_key x xs) ≡ (same k x || has_key k xs)
unfolding insert_key
has_key-insert k x [] = refl
has_key-insert k x (y ∷ ys) = ground (arith, has_key-insert k x ys)

has_key-sort : (k : Key) (ks : List Key) → has_key k (sort ks) ≡ has_key k ks
unfolding sort
has_key-sort k [] = refl
has_key-sort k (x ∷ xs) = ground (arith, has_key-insert k x (sort xs), has_key-sort k xs)

-- A lock of the key is in the list.
abbrev pub HasLock : List Key → List ℕ → Key → Type 0
HasLock m ps k = (p : ℕ) × (has p ps ≡ true) × (key_of m p ≡ k)

-- The locks are of keys that were asked for, and each such key has one or is among those to come.
pub record Covers (ks : List Key) (m : List Key) (ps : List ℕ) (rest : List Key) : Type 0 where
  pub complete :
      (k : Key) → has_key k ks ≡ true → same k [] ≡ false → (has_key k rest ≡ true) ⊎ HasLock m ps k
  pub sound :
      (p : ℕ) → has p ps ≡ true → (has_key (key_of m p) ks ≡ true) × (same (key_of m p) [] ≡ false)

-- How far the call for `ks` has come.
unfoldable pub InCall : List Key → List Key → Pc → Type 0
InCall ks m idle = Unit
InCall ks m (asking h rest) = rest ≡ sort ks
InCall ks m (picking h new last rest) =
    Covers ks m new rest
    × ((k : Key) → has_key k rest ≡ true → has_key k ks ≡ true)
    × ((last ≡ []) ⊎ HasLock m new last)
InCall ks m (locking h w) = Covers ks m (h ++ w) []
InCall ks m (holding h) = Covers ks m h []
InCall ks m (unlocking l) = Unit
InCall ks m (dropped p l) = Unit

Covers-start : (ks m : List Key) → Covers ks m [] (sort ks)
Covers-start ks m = record {
  complete = λ k asked real. inl (has_key-sort k ks ∙ asked);
  sound = λ p h. cc;
}

pass-InCall :
    (ks m : List Key) (h new : List ℕ) (k last : Key) (rest : List Key)
    → passed_over k last ≡ true
    → InCall ks m (picking h new last (k ∷ rest))
    → InCall ks m (picking h new last rest)
unfolding InCall
pass-InCall ks m h new k last rest over c = (
  record {
    complete = λ x asked real. elim (c.0.complete x asked real) [
      | inr had ↦ inr had
      | inl here ↦ elim (Bool-cases (same x k)) [
        | inr other ↦ inl (ground arith)
        | inl e ↦
            let x_k : x ≡ k = same_eq x k e in
            elim (Bool-cases (same k last)) [
              | inr not_last ↦ absurd (ground arith)
              | inl is_last ↦
                  let k_last : k ≡ last = same_eq k last is_last in
                  elim c.2 [
                    | inl empty ↦ absurd (ground (arith, same_refl x))
                    | inr (p, mine, key) ↦ inr (p, mine, key ∙ sym k_last ∙ sym x_k)
                  ]
            ]
      ]
    ];
    sound = c.0.sound;
  },
  λ x in_rest. c.1 x (ground arith),
  c.2,
)

pick-InCall :
    (ks m : List Key) (h new : List ℕ) (k last : Key) (rest : List Key) (p : ℕ)
    → passed_over k last ≡ false
    → key_of m p ≡ k
    → InCall ks m (picking h new last (k ∷ rest))
    → InCall ks m (picking h (new ++ p ∷ []) k rest)
unfolding InCall
pick-InCall ks m h new k last rest p fresh key c = (
  record {
    complete = λ x asked real. elim (c.0.complete x asked real) [
      | inr (q, mine, e) ↦ inr (q, ground (arith, has-snoc q p new), e)
      | inl here ↦ elim (Bool-cases (same x k)) [
        | inr other ↦ inl (ground arith)
        | inl e ↦ inr (p, ground (arith, has-snoc p p new), key ∙ sym (same_eq x k e))
      ]
    ];
    sound = λ q hq. elim (Bool-cases (q == p)) [
      | inl e ↦
          let q_p : q ≡ p = ground arith in
          let q_key : key_of m q ≡ k = ap (key_of m) q_p ∙ key in
          rw q_key (c.1 k (ground (arith, same_refl k)), ground arith)
      | inr e ↦ c.0.sound q (ground (arith, has-snoc q p new))
    ];
  },
  λ x in_rest. c.1 x (ground arith),
  inr (p, ground (arith, has-snoc p p new), key),
)

-- A lock keeps its key when the map grows.
HasLock-grow :
    (x : Key) (m : List Key) (ps : List ℕ) (k : Key)
    → Known m ps
    → HasLock m ps k
    → HasLock (x ∷ m) ps k
HasLock-grow x m ps k known (p, mine, e) =
    (p, mine, key_of-older x m p (Known-has m p ps known mine) ∙ e)

Covers-grow :
    (x : Key) (ks m : List Key) (ps : List ℕ) (rest : List Key)
    → Known m ps
    → Covers ks m ps rest
    → Covers ks (x ∷ m) ps rest
Covers-grow x ks m ps rest known c = record {
  complete = λ k asked real. elim (c.complete k asked real) [
    | inl to_come ↦ inl to_come
    | inr had ↦ inr (HasLock-grow x m ps k known had)
  ];
  sound = λ p mine. rw (key_of-older x m p (Known-has m p ps known mine)) (c.sound p mine);
}

InCall-grow :
    (x : Key) (ks m : List Key) (q : Pc) → IsGood m q → InCall ks m q → InCall ks (x ∷ m) q
unfolding InCall IsGood
InCall-grow x ks m idle g c = tt
InCall-grow x ks m (asking h rest) g c = c
InCall-grow x ks m (picking h new last rest) g c = (
  Covers-grow x ks m new rest g.1 c.0,
  c.1,
  elim c.2 [ inl e ↦ inl e | inr had ↦ inr (HasLock-grow x m new last g.1 had) ],
)
InCall-grow x ks m (locking h w) g c = Covers-grow x ks m (h ++ w) [] g.0 c
InCall-grow x ks m (holding h) g c = Covers-grow x ks m h [] g.0 c
InCall-grow x ks m (unlocking l) g c = tt
InCall-grow x ks m (dropped p l) g c = tt

InCall-grown :
    (x : Key) (ks m m' : List Key) (q : Pc)
    → (m' ≡ m) ⊎ (m' ≡ x ∷ m)
    → IsGood m q
    → InCall ks m q
    → InCall ks m' q
InCall-grown x ks m m' q (inl e) g c = subst (λ m. InCall ks m q) (sym e) c
InCall-grown x ks m m' q (inr e) g c = subst (λ m. InCall ks m q) (sym e) (InCall-grow x ks m q g c)

-- A step of another thread.
pub other-InCall :
    (ks : List Key) (i : ℕ) (s t : Memory) (q p r : Pc)
    → Work i s q t p
    → IsGood s.m r
    → InCall ks s.m r
    → InCall ks t.m r
other-InCall ks i s t q p r (enter e) g c = c
other-InCall ks i s t q p r (pass e) g c = c
other-InCall ks i s t q p r (pick {h} {new} {k} e) g c =
    InCall-grown k ks s.m t.m r (lock_for-Picked k s).grown g c
other-InCall ks i s t q p r leave g c = c
other-InCall ks i s t q p r (lock e) g c = c
other-InCall ks i s t q p r ready g c = c
other-InCall ks i s t q p r begin g c = c
other-InCall ks i s t q p r unlock g c = c
other-InCall ks i s t q p r uncount g c = c
other-InCall ks i s t q p r clear g c = c

-- A step of the thread itself.
pub own-InCall :
    (ks : List Key) (i : ℕ) (s t : Memory) (q p : Pc)
    → Work i s q t p
    → IsGood s.m q
    → InCall ks s.m q
    → InCall ks t.m p
unfolding InCall IsGood
own-InCall ks i s t q p (enter {h} {ks = rest} e) g c =
    rw c (Covers-start ks s.m, λ k asked. sym (has_key-sort k ks) ∙ asked, inl refl)
own-InCall ks i s t q p (pass {h} {new} {k} {last} {ks = rest} e) g c =
    pass-InCall ks s.m h new k last rest e c
own-InCall ks i s t q p (pick {h} {new} {k} {last} {ks = rest} e) g c =
    pick-InCall ks t.m h new k last rest (lock_for k s).0 e (lock_for-Picked k s).key_eq
      (InCall-grown k ks s.m t.m (picking h new last (k ∷ rest)) (lock_for-Picked k s).grown g c)
own-InCall ks i s t q p (leave {h} {new} {last}) g c = rw (g.0) c.0
own-InCall ks i s t q p (lock {h} {w} {p = x} e) g c = rw (append_assoc h (x ∷ []) w) c
own-InCall ks i s t q p (ready {h}) g c = subst (λ l. Covers ks s.m l []) (append-nil h) c
own-InCall ks i s t q p begin g c = tt
own-InCall ks i s t q p unlock g c = tt
own-InCall ks i s t q p uncount g c = tt
own-InCall ks i s t q p clear g c = tt
