-- ===== src/Lockset/Moves.antt =====
-- Every step of a thread does what the invariant asks for.
use cc_common.Base.{
  All-append, has, ℕ, ◌<◌, ◌≡◌, refl, sym, ap, ◌∙◌, arith, true, false, ◌==◌, List, [], ◌∷◌, ◌++◌,
  length, append_assoc, append-nil, none, some, Bool-cases, inl, inr, ◌⊎◌,
}
use mathlib.Core.Path.{subst}
use cc_common.Lockset.{Memory, update, lock_for}
use cc_common.Lockset.Keys.{
  Key, up_to_refl, up_to-before, up_to-other, before-up_to, SortedFrom-le, sort-SortedFrom, before,
}
use cc_common.Lockset.Locks.{
  key_of, key_of-older, Known-grow, Ascends, Ascends-grow, Ascends-snoc, Ascends-once, has-snoc,
  All-map, All-both, lock_for-Picked,
}
use cc_common.Lockset.Thread.{
  Pc, idle, asking, picking, locking, holding, unlocking, dropped, passed_over, Call, first, second,
  Work, enter, pass, pick, leave, lock, ready, begin, unlock, uncount, clear,
}
use cc_common.Lockset.Safe.{taken, in_mu, IsGood, Moved}

-- The invariant as thread `i` at `q` sees it.
pub record Here (i : ℕ) (s : Memory) (q : Pc) : Type 0 where
  pub good : IsGood s.m q
  pub owned : (x : ℕ) → has x (taken q) ≡ true → s.owner x ≡ some i
  pub owns : (x : ℕ) → s.owner x ≡ some i → has x (taken q) ≡ true
  pub old : (j x : ℕ) → s.owner x ≡ some j → x < length s.m
  pub mu_in : s.mu ≡ some i → in_mu q ≡ true
  pub in_mu_mu : in_mu q ≡ true → s.mu ≡ some i

-- The mutexes stay as they are.
quiet :
    (i : ℕ) (s t : Memory) (q p : Pc)
    → Here i s q
    → t.m ≡ s.m
    → t.owner ≡ s.owner
    → t.mu ≡ s.mu
    → taken p ≡ taken q
    → in_mu p ≡ in_mu q
    → IsGood s.m p
    → Moved i s t p
quiet i s t q p h em eo eu ep eq g = record {
  good = subst (λ m. IsGood m p) (sym em) g;
  goods = λ r gr. subst (λ m. IsGood m r) (sym em) gr;
  owned = λ x hx. rw eo (h.owned x (ap (has x) (sym ep) ∙ hx));
  owns = λ x ox. ap (has x) ep ∙ h.owns x (rw (← eo) ox);
  others = λ j x e o. rw eo o;
  others_before = λ j x e o. rw (← eo) o;
  mu_in = λ u. eq ∙ h.mu_in (sym eu ∙ u);
  in_mu_mu = λ u. eu ∙ h.in_mu_mu (sym eq ∙ u);
  mu_others = λ j e u. eu ∙ u;
  mu_others_before = λ j e u. sym eu ∙ u;
}

pub Call-Moved : (i : ℕ) (s : Memory) (q p : Pc) → Call false q p → Here i s q → Moved i s s p
Call-Moved i s q p (first ks) h =
    quiet i s s idle (asking [] _) h refl refl refl refl refl
      (unfold IsGood in (refl, sort-SortedFrom ks))
Call-Moved i s q p (second ks e) h = cc

enter-Moved :
    (i : ℕ) (s : Memory) (t : List ℕ) (ks : List Key)
    → s.mu ≡ none
    → Here i s (asking t ks)
    → Moved i s (record s { mu = some i }) (picking t [] [] ks)
unfolding IsGood Ascends
enter-Moved i s t ks e h = record {
  good = (h.good.0, tt, tt, tt, h.good.1);
  goods = λ r g. g;
  owned = h.owned;
  owns = h.owns;
  others = λ j x d o. o;
  others_before = λ j x d o. o;
  mu_in = λ u. refl;
  in_mu_mu = λ u. refl;
  mu_others = λ j d u. cc;
  mu_others_before = λ j d u. ground arith;
}

leave-Moved :
    (i : ℕ) (s : Memory) (t new : List ℕ) (last : Key)
    → Here i s (picking t new last [])
    → Moved i s (record s { mu = none }) (locking t new)
unfolding IsGood
leave-Moved i s t new last h =
    let mine : s.mu ≡ some i = h.in_mu_mu refl in
    record {
      good = rw (h.good.0) (h.good.1, h.good.2);
      goods = λ r g. g;
      owned = h.owned;
      owns = h.owns;
      others = λ j x d o. o;
      others_before = λ j x d o. o;
      mu_in = λ u. cc;
      in_mu_mu = λ u. cc;
      mu_others = λ j d u. ground arith;
      mu_others_before = λ j d u. cc;
    }

lock-Moved :
    (i : ℕ) (s : Memory) (t w : List ℕ) (p : ℕ)
    → s.owner p ≡ none
    → Here i s (locking t (p ∷ w))
    → Moved i s (record s { owner = update s.owner p (some i) }) (locking (t ++ p ∷ []) w)
unfolding IsGood
lock-Moved i s t w p free h = record {
  good = rw (append_assoc t (p ∷ []) w) h.good;
  goods = λ r g. g;
  owned = λ x hx. elim (Bool-cases (x == p)) [
    | inl e ↦ rw e
    | inr e ↦ rw e (h.owned x (ground (arith, has-snoc x p t)))
  ];
  owns = λ x ox. elim (Bool-cases (x == p)) [
    | inl e ↦ ground (arith, has-snoc x p t)
    | inr e ↦ ground (arith, has-snoc x p t, h.owns x)
  ];
  others = λ j x d o. elim (Bool-cases (x == p)) [ inl e ↦ ground arith | inr e ↦ rw e o ];
  others_before =
      λ j x d o. elim (Bool-cases (x == p)) [ inl e ↦ ground arith | inr e ↦ ground arith ];
  mu_in = h.mu_in;
  in_mu_mu = h.in_mu_mu;
  mu_others = λ j d u. u;
  mu_others_before = λ j d u. u;
}

unlock-Moved :
    (i : ℕ) (s : Memory) (p : ℕ) (left : List ℕ)
    → Here i s (unlocking (p ∷ left))
    → Moved i s (record s { owner = update s.owner p none }) (dropped p left)
unfolding IsGood
unlock-Moved i s p left h =
    let once : has p left ≡ false = Ascends-once s.m p left h.good.1 in
    let mine : s.owner p ≡ some i = h.owned p (ground arith) in
    record {
      good = (h.good.0.0, h.good.0.1, unfold Ascends in h.good.1.1);
      goods = λ r g. g;
      owned = λ x hx. elim (Bool-cases (x == p)) [
        | inl e ↦ ground arith
        | inr e ↦ rw e (h.owned x (ground arith))
      ];
      owns = λ x ox. elim (Bool-cases (x == p)) [
        | inl e ↦ ground arith
        | inr e ↦ ground (arith, h.owns x)
      ];
      others = λ j x d o. elim (Bool-cases (x == p)) [ inl e ↦ ground arith | inr e ↦ rw e o ];
      others_before = λ j x d o. ground arith;
      mu_in = h.mu_in;
      in_mu_mu = h.in_mu_mu;
      mu_others = λ j d u. u;
      mu_others_before = λ j d u. u;
    }

IsGood-grow : (k : Key) (m : List Key) (q : Pc) → IsGood m q → IsGood (k ∷ m) q
unfolding IsGood
IsGood-grow k m idle g = tt
IsGood-grow k m (asking h ks) g = g
IsGood-grow k m (picking h new last ks) g = (
  g.0,
  Known-grow k m new g.1,
  Ascends-grow k m new g.1 g.2,
  All-both new (λ p lt u. rw (key_of-older k m p lt) u) g.1 g.3,
  g.4,
)
IsGood-grow k m (locking h w) g = (Known-grow k m (h ++ w) g.0, Ascends-grow k m (h ++ w) g.0 g.1)
IsGood-grow k m (holding h) g = (Known-grow k m h g.0, Ascends-grow k m h g.0 g.1)
IsGood-grow k m (unlocking l) g = (Known-grow k m l g.0, Ascends-grow k m l g.0 g.1)
IsGood-grow k m (dropped p l) g = (omega arith, Known-grow k m l g.1, Ascends-grow k m l g.1 g.2)

IsGood-grown :
    (k : Key) (m m' : List Key) (q : Pc) → (m' ≡ m) ⊎ (m' ≡ k ∷ m) → IsGood m q → IsGood m' q
IsGood-grown k m m' q (inl e) g = subst (λ m. IsGood m q) (sym e) g
IsGood-grown k m m' q (inr e) g = subst (λ m. IsGood m q) (sym e) (IsGood-grow k m q g)

-- The key that is picked is behind those picked before it.
pick-IsGood :
    (m : List Key) (h new : List ℕ) (k last : Key) (ks : List Key) (p : ℕ)
    → passed_over k last ≡ false
    → p < length m
    → key_of m p ≡ k
    → IsGood m (picking h new last (k ∷ ks))
    → IsGood m (picking h (new ++ p ∷ []) k ks)
unfolding IsGood
pick-IsGood m h new k last ks p fresh known key g =
    let ahead : before last k ≡ true = up_to-other last k g.4.0 (ground arith) in
    (
      g.0,
      All-append _ new (p ∷ []) g.1 (known, tt),
      Ascends-snoc m new p g.2
          (All-map new (λ x u. rw key (up_to-before (key_of m x) last k u ahead)) g.3),
      All-append _ new (p ∷ [])
          (All-map new
            (λ x u. before-up_to (key_of m x) k (up_to-before (key_of m x) last k u ahead)) g.3)
          (rw key (up_to_refl k), tt),
      g.4.1,
    )

pick-Moved :
    (i : ℕ) (s : Memory) (h new : List ℕ) (k last : Key) (ks : List Key)
    → passed_over k last ≡ false
    → Here i s (picking h new last (k ∷ ks))
    → Moved i s (lock_for k s).1 (picking h (new ++ (lock_for k s).0 ∷ []) k ks)
pick-Moved i s h new k last ks fresh here =
    let t : Memory = (lock_for k s).1 in
    let p : ℕ = (lock_for k s).0 in
    let got = lock_for-Picked k s in
    record {
      good =
          pick-IsGood t.m h new k last ks p fresh got.known got.key_eq
            (IsGood-grown k s.m t.m (picking h new last (k ∷ ks)) got.grown here.good);
      goods = λ q g. IsGood-grown k s.m t.m q got.grown g;
      owned = λ x hx. still i x (here.owned x hx);
      owns = λ x o. here.owns x (was i x o);
      others = λ j x d o. still j x o;
      others_before = λ j x d o. was j x o;
      mu_in = λ u. refl;
      in_mu_mu = λ u. got.mu_eq ∙ here.in_mu_mu refl;
      mu_others = λ j d u. got.mu_eq ∙ u;
      mu_others_before = λ j d u. sym got.mu_eq ∙ u;
    }
  where
    still : (j x : ℕ) → s.owner x ≡ some j → (lock_for k s).1.owner x ≡ some j
    still j x o = elim ((lock_for-Picked k s).owner_eq x) [
      | inl e ↦ e ∙ o
      | inr e ↦ absurd (omega (arith, here.old j x o))
    ]

    was : (j x : ℕ) → (lock_for k s).1.owner x ≡ some j → s.owner x ≡ some j
    was j x o = elim ((lock_for-Picked k s).owner_eq x) [ inl e ↦ sym e ∙ o | inr e ↦ cc ]

pass-Moved :
    (i : ℕ) (s : Memory) (h new : List ℕ) (k last : Key) (ks : List Key)
    → passed_over k last ≡ true
    → Here i s (picking h new last (k ∷ ks))
    → Moved i s s (picking h new last ks)
pass-Moved i s h new k last ks over here =
    quiet i s s (picking h new last (k ∷ ks)) (picking h new last ks) here refl refl refl refl refl
      (unfold IsGood in
        (
          here.good.0,
          here.good.1,
          here.good.2,
          here.good.3,
          SortedFrom-le last k ks here.good.4.0 here.good.4.1,
        ))

pub Work-Moved : (i : ℕ) (s t : Memory) (q p : Pc) → Work i s q t p → Here i s q → Moved i s t p
unfolding IsGood
Work-Moved i s t q p (enter {h} {ks} e) here = enter-Moved i s h ks e here
Work-Moved i s t q p (pass {h} {new} {k} {last} {ks} e) here = pass-Moved i s h new k last ks e here
Work-Moved i s t q p (pick {h} {new} {k} {last} {ks} e) here = pick-Moved i s h new k last ks e here
Work-Moved i s t q p (leave {h} {new} {last}) here = leave-Moved i s h new last here
Work-Moved i s t q p (lock {h} {w} {p = x} e) here = lock-Moved i s h w x e here
Work-Moved i s t q p (ready {h}) here =
    quiet i s s (locking h []) (holding h) here refl refl refl refl refl
      (rw (← append-nil h) here.good)
Work-Moved i s t q p (begin {h}) here =
    quiet i s s (holding h) (unlocking h) here refl refl refl refl refl here.good
Work-Moved i s t q p (unlock {p = x} {left}) here = unlock-Moved i s x left here
Work-Moved i s t q p (uncount {p = x} {left}) here =
    quiet i s t (dropped x left) (unlocking left) here refl refl refl refl refl
      (here.good.1, here.good.2)
Work-Moved i s t q p clear here = quiet i s s (unlocking []) idle here refl refl refl refl refl tt
