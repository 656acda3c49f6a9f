-- ===== src/Conn/Books.antt =====
-- The server's set of clients is the set of descriptors that it added and has not closed, and every
-- step keeps it so.
use cc_common.Base.{
  ℕ, ◌+◌, ◌<◌, ◌≡◌, refl, sym, ◌∙◌, arith, Bool, true, false, not, ◌&&◌, ◌||◌, ◌==◌, if◌then◌else◌,
  List, [], ◌∷◌, All, Bool-cases, inl, inr,
}
use cc_common.Conn.{
  Event, added, not_added, deleted, unregistered, closed, handled, waited, accept_tried,
  Environment,
}
use cc_common.Conn.Server.{Server, member, insert_fd, erase_fd}

-- Whether the newest call that adds or closes the descriptor adds it.
abbrev pub live : ℕ → List Event → Bool
live c [] = false
live c (added fd ∷ t) = let rest = live c t in if c == fd then true else rest
live c (closed fd ∷ t) = let rest = live c t in if c == fd then false else rest
live c (not_added fd ∷ t) = live c t
live c (deleted fd ∷ t) = live c t
live c (unregistered fd ∷ t) = live c t
live c (handled fd ∷ t) = live c t
live c (waited ∷ t) = live c t
live c (accept_tried ∷ t) = live c t

abbrev pub is_added : ℕ → Event → Bool
is_added c (added fd) = c == fd
is_added c e = false

abbrev pub is_closed : ℕ → Event → Bool
is_closed c (closed fd) = c == fd
is_closed c e = false

abbrev pub is_unregistered : ℕ → Event → Bool
is_unregistered c (unregistered fd) = c == fd
is_unregistered c e = false

abbrev pub times : (Event → Bool) → List Event → ℕ
times p [] = 0
times p (e ∷ t) = if p e then times p t + 1 else times p t

-- A set: ascending, each once.
unfoldable pub IsSetOf : List ℕ → Type 0
IsSetOf [] = Unit {0}
IsSetOf (x ∷ xs) = All (λ y. x < y) xs × IsSetOf xs

All-lt-member : (x c : ℕ) (xs : List ℕ) → All (λ y. x < y) xs → member c xs ≡ true → x < c
unfolding member
All-lt-member x c [] h m = cc
All-lt-member x c (y ∷ ys) h m = elim (Bool-cases (c == y)) [
  | inl here ↦ ground arith
  | inr there ↦ All-lt-member x c ys h.1 (ground arith)
]

pub member-insert_fd :
    (c fd : ℕ) (xs : List ℕ) → member c (insert_fd fd xs) ≡ (c == fd || member c xs)
unfolding member insert_fd
member-insert_fd c fd [] = refl
member-insert_fd c fd (x ∷ xs) = ground (arith, member-insert_fd c fd xs)

pub member-erase_fd :
    (c fd : ℕ) (xs : List ℕ)
    → IsSetOf xs
    → member c (erase_fd fd xs) ≡ (not (c == fd) && member c xs)
unfolding member erase_fd IsSetOf
member-erase_fd c fd [] s = ground arith
member-erase_fd c fd (x ∷ xs) s = elim (Bool-cases (member c xs)) [
  | inl inside ↦ ground (arith, member-erase_fd c fd xs, All-lt-member x c xs s.0 inside)
  | inr outside ↦ ground (arith, member-erase_fd c fd xs, outside)
]

All-lt-insert :
    (a fd : ℕ) (xs : List ℕ) → a < fd → All (λ y. a < y) xs → All (λ y. a < y) (insert_fd fd xs)
unfolding insert_fd
All-lt-insert a fd [] lt h = (lt, tt)
All-lt-insert a fd (x ∷ xs) lt h = ground (arith, All-lt-insert a fd xs)

All-lt-more : (a b : ℕ) (xs : List ℕ) → a < b → All (λ y. b < y) xs → All (λ y. a < y) xs
All-lt-more a b [] lt h = tt
All-lt-more a b (x ∷ xs) lt h = (omega arith, All-lt-more a b xs lt h.1)

pub insert_fd-IsSetOf : (fd : ℕ) (xs : List ℕ) → IsSetOf xs → IsSetOf (insert_fd fd xs)
unfolding insert_fd IsSetOf
insert_fd-IsSetOf fd [] s = (tt, tt)
insert_fd-IsSetOf fd (x ∷ xs) s =
    ground (arith, insert_fd-IsSetOf fd xs, All-lt-insert x fd xs, All-lt-more fd x xs)

All-lt-erase : (a fd : ℕ) (xs : List ℕ) → All (λ y. a < y) xs → All (λ y. a < y) (erase_fd fd xs)
unfolding erase_fd
All-lt-erase a fd [] h = tt
All-lt-erase a fd (x ∷ xs) h = ground (arith, All-lt-erase a fd xs)

pub erase_fd-IsSetOf : (fd : ℕ) (xs : List ℕ) → IsSetOf xs → IsSetOf (erase_fd fd xs)
unfolding erase_fd IsSetOf
erase_fd-IsSetOf fd [] s = tt
erase_fd-IsSetOf fd (x ∷ xs) s = ground (arith, erase_fd-IsSetOf fd xs, All-lt-erase x fd xs)

-- `epoll_ctl` refuses to add a descriptor twice (EEXIST).
abbrev pub RefusesTwice : Environment → Type 0
RefusesTwice k = (t : List Event) (fd : ℕ) → live fd t ≡ true → k.add_fails t fd ≡ true

-- The books of the server: for each descriptor but the listening one.
pub record Books (k : Environment) (s : Server) : Type 0 where
  pub is_set : IsSetOf s.clients
  pub no_listener : member k.listen_fd s.clients ≡ false
  pub held : (c : ℕ) → (c == k.listen_fd) ≡ false → member c s.clients ≡ live c s.trace
  pub balance :
      (c : ℕ)
      → times (is_added c) s.trace ≡ times (is_closed c) s.trace + (if live c s.trace then 1 else 0)
  pub told : (c : ℕ) → times (is_unregistered c) s.trace ≡ times (is_closed c) s.trace

-- A call that the books do not keep.
abbrev pub is_neutral : Event → Bool
is_neutral (added fd) = false
is_neutral (closed fd) = false
is_neutral (unregistered fd) = false
is_neutral e = true

same-Books :
    (k : Environment) (s : Server) (t : List Event)
    → ((c : ℕ)
        → (live c t ≡ live c s.trace)
          × (times (is_added c) t ≡ times (is_added c) s.trace)
          × (times (is_closed c) t ≡ times (is_closed c) s.trace)
          × (times (is_unregistered c) t ≡ times (is_unregistered c) s.trace))
    → Books k s
    → Books k (record s { trace = t })
same-Books k s t same b = record {
  is_set = b.is_set;
  no_listener = b.no_listener;
  held = λ c other. b.held c other ∙ sym (same c).0;
  balance = λ c. ground (arith, same c, b.balance c);
  told = λ c. (same c).3 ∙ b.told c ∙ sym (same c).2;
}

pub neutral-Books :
    (k : Environment) (s : Server) (e : Event)
    → is_neutral e ≡ true
    → Books k s
    → Books k (record s { trace = e ∷ s.trace })
neutral-Books k s (added fd) n b = cc
neutral-Books k s (closed fd) n b = cc
neutral-Books k s (unregistered fd) n b = cc
neutral-Books k s (not_added fd) n b = same-Books k s _ (λ c. (refl, refl, refl, refl)) b
neutral-Books k s (deleted fd) n b = same-Books k s _ (λ c. (refl, refl, refl, refl)) b
neutral-Books k s (handled fd) n b = same-Books k s _ (λ c. (refl, refl, refl, refl)) b
neutral-Books k s waited n b = same-Books k s _ (λ c. (refl, refl, refl, refl)) b
neutral-Books k s accept_tried n b = same-Books k s _ (λ c. (refl, refl, refl, refl)) b
