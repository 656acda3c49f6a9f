-- ===== src/Slice/Writer.antt =====
-- The ways in which both encoders append to a slice: one byte, a word, bytes from memory.
use cc_common.Base.{
  ℕ, ◌≤◌, ◌≡◌, refl, arith, Bool, ltb, lt→ltb, if◌then◌else◌, List, [], ◌∷◌, length, take, Option,
  Outcome, ok, ◌>>=◌,
}
use native.Mathlib.Decide.{dec_lt}
use cc_common.Slice.{Slice, append, append_1, append_word}
use cc_common.Slice.Expand.{IsRealloc}
use cc_common.Slice.Append.{
  Appends, append-Appends, append_1-Appends, append_word-Appends, skip-Appends, >>=-Appends,
  Appends-eq,
}

-- An operation that appends to the slice, and one such after another.
abbrev pub Writer : Type 0
Writer = Slice → Outcome Slice

infixr 20 ◌and_then◌
abbrev pub ◌and_then◌ : Writer → Writer → Writer
◌and_then◌ m k s = m s >>= k

-- `if(*err != NULL) return` before what is left to do.
abbrev pub unless : Bool → Writer → Writer
unless failed m = if failed then ok else m

module _ (realloc : List ℕ → ℕ → Option (List ℕ)) where
  abbrev pub put_1 : ℕ → Writer
  put_1 bd s = append_1 realloc s bd

  abbrev pub put_word : List ℕ → Writer
  put_word word s = append_word realloc s word

  abbrev pub put : List ℕ → ℕ → Writer
  put src len s = append realloc s src len

  -- `if(len > 0) slice_bytes_append(…)`.
  abbrev pub put_some : List ℕ → ℕ → Writer
  put_some mem len = if ltb 0 len then put mem len else ok

module _ {realloc : List ℕ → ℕ → Option (List ℕ)} {limit : ℕ}
    (alloc : IsRealloc realloc limit) where
  pub word-Appends :
      (bd : ℕ) (word : List ℕ)
      → Appends alloc (put_1 realloc bd and_then put_word realloc word) (bd ∷ word)
  word-Appends bd word =
      >>=-Appends alloc _ _ (bd ∷ []) word (append_1-Appends alloc bd)
        (append_word-Appends alloc word)

  pub byte-Appends :
      (bd c : ℕ) → Appends alloc (put_1 realloc bd and_then put_1 realloc c) (bd ∷ c ∷ [])
  byte-Appends bd c =
      >>=-Appends alloc _ _ (bd ∷ []) (c ∷ []) (append_1-Appends alloc bd)
        (append_1-Appends alloc c)

  pub put_some-Appends :
      (mem : List ℕ) (len : ℕ)
      → len ≤ length mem
      → Appends alloc (put_some realloc mem len) (take len mem)
  put_some-Appends mem len enough = elim (dec_lt 0 len) [
    | yes pos ↦ Appends-eq alloc (rw (lt→ltb 0 len pos)) refl (append-Appends alloc mem len enough)
    | no empty ↦
        let e : len ≡ 0 = omega arith in Appends-eq alloc (rw e) (rw e) (skip-Appends alloc)
  ]
