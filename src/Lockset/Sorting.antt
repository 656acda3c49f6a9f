-- ===== src/Lockset/Sorting.antt =====
-- The result of `std::sort` on keys does not depend on the algorithm.
use cc_common.Base.{
  ℕ, ◌+◌, ◌<◌, ◌≡◌, refl, sym, ap, ◌∙◌, arith, true, if◌then◌else◌, List, [], ◌∷◌, Bool-cases, inl,
  inr,
}
use mathlib.Core.Path.{ap₂, subst}
use cc_common.Lockset.Keys.{
  Key, same, same_refl, same_eq, up_to, before, before_irrefl, up_to-before, up_to-other,
  up_to_refl, up_to_trans, insert_key, sort, SortedFrom, sort-SortedFrom,
}

-- How often a key is in a list.
abbrev pub count_key : Key → List Key → ℕ
count_key k [] = 0
count_key k (x ∷ xs) = (if same k x then 1 else 0) + count_key k xs

count_key-insert :
    (k x : Key) (xs : List Key) → count_key k (insert_key x xs) ≡ count_key k (x ∷ xs)
unfolding insert_key
count_key-insert k x [] = refl
count_key-insert k x (y ∷ ys) = ground (arith, count_key-insert k x ys)

count_key-sort : (k : Key) (ks : List Key) → count_key k (sort ks) ≡ count_key k ks
unfolding sort
count_key-sort k [] = refl
count_key-sort k (x ∷ xs) =
    count_key-insert k x (sort xs) ∙ ap (λ n. (if same k x then 1 else 0) + n) (count_key-sort k xs)

count_key-here : (k : Key) (ks : List Key) → 0 < count_key k (k ∷ ks)
count_key-here k ks = ground (arith, same_refl k)

-- A key of a list that ascends from `a` on is not before `a`.
SortedFrom-up_to :
    (a k : Key) (xs : List Key) → SortedFrom a xs → 0 < count_key k xs → up_to a k ≡ true
SortedFrom-up_to a k [] s there = absurd (omega arith)
SortedFrom-up_to a k (x ∷ xs) s there = elim (Bool-cases (same k x)) [
  | inl here ↦ rw (same_eq k x here) s.0
  | inr further ↦
      let rest : 0 < count_key k xs = ground (arith, further, there) in
      up_to_trans a x k s.0 (SortedFrom-up_to x k xs s.1 rest)
]

up_to_antisym : (a b : Key) → up_to a b ≡ true → up_to b a ≡ true → a ≡ b
up_to_antisym a b h k = elim (Bool-cases (same b a)) [
  | inl one ↦ sym (same_eq b a one)
  | inr other ↦
      let first : before b b ≡ true = up_to-before b a b k (up_to-other a b h other) in
      absurd (ground (arith, first, before_irrefl b))
]

SortedFrom-unique :
    (a : Key) (xs ys : List Key)
    → SortedFrom a xs
    → SortedFrom a ys
    → ((k : Key) → count_key k xs ≡ count_key k ys)
    → xs ≡ ys
SortedFrom-unique a [] [] s t e = refl
SortedFrom-unique a [] (y ∷ ys) s t e = absurd (omega (arith, e y, count_key-here y ys))
SortedFrom-unique a (x ∷ xs) [] s t e = absurd (omega (arith, e x, count_key-here x xs))
SortedFrom-unique a (x ∷ xs) (y ∷ ys) s t e =
    let y_there : 0 < count_key y (x ∷ xs) = omega (arith, e y, count_key-here y ys) in
    let x_there : 0 < count_key x (y ∷ ys) = omega (arith, e x, count_key-here x xs) in
    let head : x ≡ y =
      up_to_antisym x y (SortedFrom-up_to x y (x ∷ xs) (up_to_refl x, s.1) y_there)
        (SortedFrom-up_to y x (y ∷ ys) (up_to_refl y, t.1) x_there) in
    let tails : (k : Key) → count_key k xs ≡ count_key k ys =
      (λ k. omega (arith, e k, ap {B = ℕ} (λ z. if same k z then 1 else 0) head)) in
    ap₂ ◌∷◌ head (SortedFrom-unique y xs ys (subst (λ z. SortedFrom z xs) head s.1) t.1 tails)

-- A list that ascends and has each key as often as the keys of a call is what `sort` gives, so that any
-- algorithm of `std::sort` makes the same list.
pub sort_unique :
    (ks ys : List Key)
    → SortedFrom [] ys
    → ((k : Key) → count_key k ys ≡ count_key k ks)
    → ys ≡ sort ks
sort_unique ks ys s e =
    SortedFrom-unique [] ys (sort ks) s (sort-SortedFrom ks) (λ k. e k ∙ sym (count_key-sort k ks))
