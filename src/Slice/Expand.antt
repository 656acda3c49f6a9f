-- ===== src/Slice/Expand.antt =====
-- `slice_bytes_expand` makes room and keeps the contents.
use cc_common.Slice.{Slice, zero_slice, contents, new_cap, regrown, expand}
use cc_common.Base.{ℕ, ◌+◌, ◌/◌, ◌%◌, ◌^◌, ◌≤◌, ◌<◌, ◌≡◌, refl, sym, ap, ◌∙◌, arith, u64}
use cc_common.Base.{List, [], ◌++◌, append_assoc, length, length-append, take-append, Option, some}
use cc_common.Base.{ok, le→leb, gt→leb, ◌⊎◌, inl, inr}
use native.Mathlib.Decide.{dec_le}

-- What the C library documents of `realloc`, below `limit` a success: the new block has the size
-- asked for, and begins with the old one when it is not smaller.
pub record IsRealloc (realloc : List ℕ → ℕ → Option (List ℕ)) (limit : ℕ) : Type 0 where
  pub grants :
      (mem : List ℕ) (n : ℕ)
      → length mem ≤ n
      → n ≤ limit
      → (extra : List ℕ) × (realloc mem n ≡ some (mem ++ extra)) × (length (mem ++ extra) ≡ n)

-- The slice holds exactly `xs`: they are the front of its block, and the fields agree.
pub record Holds (s : Slice) (xs : List ℕ) : Type 0 where
  pub spare : List ℕ
  pub mem_eq : s.mem ≡ xs ++ spare
  pub len_eq : s.len ≡ length xs
  pub cap_eq : s.cap ≡ length s.mem

-- A buffer of `n` bytes can be had: `n`, a quarter more and a cache line are within the limit.
abbrev pub Fits : ℕ → ℕ → Type 0
Fits limit n = (n + n / 4 + 64 ≤ limit) × (limit < 2 ^ 64)

-- A request is in whole cache lines, covers what is needed, is a quarter more than before, and is
-- bounded by a quarter and a cache line more than what is needed.
pub new_cap_bounds :
    (cap newlen limit : ℕ)
    → cap < newlen
    → Fits limit newlen
    → (newlen ≤ new_cap cap newlen)
      × (cap + cap / 4 ≤ new_cap cap newlen)
      × (new_cap cap newlen % 64 ≡ 0)
      × (new_cap cap newlen ≤ limit)
unfolding new_cap
new_cap_bounds cap newlen limit more fits = ground arith

pub Holds-zero : Holds zero_slice []
Holds-zero = record { spare = []; mem_eq = refl; len_eq = refl; cap_eq = refl }

pub Holds-contents : {s : Slice} {xs : List ℕ} → Holds s xs → contents s ≡ xs
Holds-contents {s} {xs} h = rw (h.len_eq, h.mem_eq) (take-append xs h.spare)

pub Holds-le : {s : Slice} {xs : List ℕ} → Holds s xs → length xs ≤ s.cap
Holds-le {xs} h = rw (h.cap_eq, h.mem_eq) (omega (arith, length-append xs h.spare))

-- Room for `n` more bytes, and what the slice holds is kept. The block stays as it was or has
-- grown by at least a quarter to a whole number of cache lines.
pub record Expanded (s : Slice) (xs : List ℕ) (n : ℕ) (s' : Slice) : Type 0 where
  pub held : Holds s' xs
  pub room : length xs + n ≤ s'.cap
  pub growth : (s' ≡ s) ⊎ ((s.cap + s.cap / 4 ≤ s'.cap) × (s'.cap % 64 ≡ 0))

module _ {realloc : List ℕ → ℕ → Option (List ℕ)} {limit : ℕ}
    (alloc : IsRealloc realloc limit) where
  expand_grown :
      (s : Slice) (n need : ℕ) (mem : List ℕ)
      → u64 (s.len + n) ≡ need
      → s.cap < need
      → realloc s.mem (new_cap s.cap need) ≡ some mem
      → expand realloc s n ≡ ok (record s { mem = mem; cap = new_cap s.cap need })
  unfolding expand regrown
  expand_grown s n need mem e short granted = rw (e, gt→leb need s.cap short, granted)

  grown-Holds :
      (s : Slice) (xs extra : List ℕ) (asked : ℕ)
      → Holds s xs
      → length (s.mem ++ extra) ≡ asked
      → Holds (record s { mem = s.mem ++ extra; cap = asked }) xs
  grown-Holds s xs extra asked h size = record {
    spare = h.spare ++ extra;
    mem_eq = ap (λ m. m ++ extra) h.mem_eq ∙ append_assoc xs h.spare extra;
    len_eq = h.len_eq;
    cap_eq = sym size;
  }

  -- With enough memory, making room for `n` bytes ends normally: the slice holds what it held, has
  -- room for `n` more, and its block stayed as it was or grew by at least a quarter to a whole
  -- number of cache lines.
  pub expand-Expanded :
      (s : Slice) (xs : List ℕ) (n : ℕ)
      → Holds s xs
      → Fits limit (length xs + n)
      → (s' : Slice) × (expand realloc s n ≡ ok s') × Expanded s xs n s'
  unfolding expand
  expand-Expanded s xs n h fits =
      let newlen : u64 (s.len + n) ≡ length xs + n = omega (arith, h.len_eq) in
      elim (dec_le (length xs + n) s.cap) [
        | yes enough ↦ (
          s,
          rw (newlen, le→leb (length xs + n) s.cap enough),
          record { held = h; room = enough; growth = inl refl },
        )
        | no short ↦
            let asked : ℕ = new_cap s.cap (length xs + n) in
            let bounds = new_cap_bounds s.cap (length xs + n) limit (omega arith) fits in
            let (extra, granted, size) =
              alloc.grants s.mem asked (omega (arith, h.cap_eq, bounds)) (omega (arith, bounds)) in
            (
              record s { mem = s.mem ++ extra; cap = asked },
              expand_grown s n (length xs + n) (s.mem ++ extra) newlen (omega arith) granted,
              record {
                held = grown-Holds s xs extra asked h size;
                room = omega (arith, bounds);
                growth = inr (omega (arith, bounds), omega (arith, bounds));
              },
            )
      ]
