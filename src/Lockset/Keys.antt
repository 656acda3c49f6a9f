-- ===== src/Lockset/Keys.antt =====
-- The keys of `LockSet`: `std::string`, as bytes, in the order of `operator<`, and `std::sort` on them.
use Prim.Native.Nat.{compare, Ordering}
use Prim.Native.Nat.Ordering.{lt, eq, gt}
use cc_common.Base.{ℕ, ◌≡◌, refl, arith, Bool, true, false, List, [], ◌∷◌, if◌then◌else◌}

abbrev pub Key : Type 0
Key = List ℕ

-- `std::string::compare`: byte by byte, and a prefix comes first.
unfoldable pub compare_keys : Key → Key → Ordering
compare_keys [] [] = eq
compare_keys [] (y ∷ ys) = lt
compare_keys (x ∷ xs) [] = gt
compare_keys (x ∷ xs) (y ∷ ys) = elim (compare x y) [ eq ↦ compare_keys xs ys | lt ↦ lt | gt ↦ gt ]

-- `a < b`, `a <= b` and `a == b`.
unfoldable pub before : Key → Key → Bool
before a b = elim (compare_keys a b) [ lt ↦ true | _ ↦ false ]

unfoldable pub up_to : Key → Key → Bool
up_to a b = elim (compare_keys a b) [ gt ↦ false | _ ↦ true ]

unfoldable pub same : Key → Key → Bool
same a b = elim (compare_keys a b) [ eq ↦ true | _ ↦ false ]

compare_refl : (a : Key) → compare_keys a a ≡ eq
unfolding compare_keys
compare_refl [] = refl
compare_refl (x ∷ xs) = ground (arith, compare_refl xs)

compare_eq : (a b : Key) → compare_keys a b ≡ eq → a ≡ b
unfolding compare_keys
compare_eq [] [] h = refl
compare_eq [] (y ∷ ys) h = cc
compare_eq (x ∷ xs) [] h = cc
compare_eq (x ∷ xs) (y ∷ ys) h = ground (arith, compare_eq xs ys)

compare_flip : (a b : Key) → compare_keys a b ≡ gt → compare_keys b a ≡ lt
unfolding compare_keys
compare_flip [] [] h = cc
compare_flip [] (y ∷ ys) h = cc
compare_flip (x ∷ xs) [] h = refl
compare_flip (x ∷ xs) (y ∷ ys) h = ground (arith, compare_flip xs ys)

compare_trans :
    (a b c : Key) → compare_keys a b ≡ lt → compare_keys b c ≡ lt → compare_keys a c ≡ lt
unfolding compare_keys
compare_trans a [] [] h k = cc
compare_trans [] [] (z ∷ zs) h k = refl
compare_trans (x ∷ xs) [] (z ∷ zs) h k = cc
compare_trans a (y ∷ ys) [] h k = cc
compare_trans [] (y ∷ ys) (z ∷ zs) h k = refl
compare_trans (x ∷ xs) (y ∷ ys) (z ∷ zs) h k = ground (arith, compare_trans xs ys zs)

pub same_refl : (a : Key) → same a a ≡ true
unfolding same
same_refl a = ground (arith, compare_refl a)

pub same_eq : (a b : Key) → same a b ≡ true → a ≡ b
unfolding same
same_eq a b h = ground (arith, compare_eq a b)

pub before_irrefl : (a : Key) → before a a ≡ false
unfolding before
before_irrefl a = ground (arith, compare_refl a)

pub before_trans : (a b c : Key) → before a b ≡ true → before b c ≡ true → before a c ≡ true
unfolding before
before_trans a b c h k = ground (arith, compare_trans a b c)

pub up_to-before : (a b c : Key) → up_to a b ≡ true → before b c ≡ true → before a c ≡ true
unfolding up_to before
up_to-before a b c h k = ground (arith, compare_trans a b c, compare_eq a b)

pub up_to_refl : (a : Key) → up_to a a ≡ true
unfolding up_to
up_to_refl a = ground (arith, compare_refl a)

pub before-up_to : (a b : Key) → before a b ≡ true → up_to a b ≡ true
unfolding up_to before
before-up_to a b h = ground arith

pub up_to_trans : (a b c : Key) → up_to a b ≡ true → up_to b c ≡ true → up_to a c ≡ true
unfolding up_to
up_to_trans a b c h k = ground (arith, compare_trans a b c, compare_eq a b, compare_eq b c)

-- A different key that is not before is behind.
pub up_to-other : (a b : Key) → up_to a b ≡ true → same b a ≡ false → before a b ≡ true
unfolding up_to before same
up_to-other a b h k = ground (arith, compare_eq a b, compare_refl a)

pub up_to-flip : (a b : Key) → up_to a b ≡ false → up_to b a ≡ true
unfolding up_to
up_to-flip a b h = ground (arith, compare_flip a b)

pub up_to-empty : (a : Key) → up_to [] a ≡ true
unfolding up_to compare_keys
up_to-empty [] = refl
up_to-empty (x ∷ xs) = refl

-- The result of `std::sort` on keys, which is one list whatever the algorithm: equal keys are the
-- same bytes.
unfoldable pub insert_key : Key → List Key → List Key
insert_key k [] = k ∷ []
insert_key k (x ∷ xs) = let rest = insert_key k xs in if up_to k x then k ∷ x ∷ xs else x ∷ rest

unfoldable pub sort : List Key → List Key
sort [] = []
sort (k ∷ ks) = insert_key k (sort ks)

-- Ascending from `a` on.
abbrev pub SortedFrom : Key → List Key → Type 0
SortedFrom a [] = Unit {0}
SortedFrom a (k ∷ ks) = (up_to a k ≡ true) × SortedFrom k ks

pub SortedFrom-le :
    (a k : Key) (ks : List Key) → up_to a k ≡ true → SortedFrom k ks → SortedFrom a ks
SortedFrom-le a k [] h s = tt
SortedFrom-le a k (x ∷ ks) h s = (up_to_trans a k x h s.0, s.1)

insert_key-SortedFrom :
    (a k : Key) (xs : List Key)
    → up_to a k ≡ true
    → SortedFrom a xs
    → SortedFrom a (insert_key k xs)
unfolding insert_key
insert_key-SortedFrom a k [] h s = (h, tt)
insert_key-SortedFrom a k (x ∷ xs) h s =
    ground (arith, insert_key-SortedFrom x k xs, up_to-flip k x)

pub sort-SortedFrom : (ks : List Key) → SortedFrom [] (sort ks)
unfolding sort
sort-SortedFrom [] = tt
sort-SortedFrom (k ∷ ks) = insert_key-SortedFrom [] k (sort ks) (up_to-empty k) (sort-SortedFrom ks)
