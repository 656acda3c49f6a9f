-- ===== src/Bufio/Receipt.antt =====
-- `BufReader::readn` loses and repeats no byte: what it hands out, what is buffered and what is still
-- to come are, in order, the bytes that were to come.
use cc_common.Base.{
  ℕ, ◌+◌, ◌-◌, ◌≤◌, ◌<◌, ◌≡◌, refl, sym, ap, ◌∙◌, arith, Bool, true, false, ltb, ◌==◌,
  if◌then◌else◌, ◌>>=◌, List, [], ◌∷◌, ◌++◌, take, drop, length, ok, ◌⊎◌, inl, inr, append_assoc,
  length-append, length-take, length-drop, drop-append, take-append-le, take-drop-append,
  Bool-cases,
}
use native.Mathlib.Nat.{add-zero}
use mathlib.Core.Path.{ap₂, subst}
use cc_common.Bufio.{Source, Returned, failed, count}
use cc_common.Bufio.Reader.{BufReader, fill, Got, hand_out, readn}
use cc_common.Bufio.Fill.{Buffered, calm_count, fill-Filled}

-- A call of `readn` that ends: the bytes that it hands out are as many as it returns, and none if it
-- failed.
pub record Handed (run : Got) (n : ℕ) (all : List ℕ) (budget : ℕ) : Type 0 where
  pub ret : Returned
  pub ys : List ℕ
  pub reader : BufReader
  pub source : Source
  pub xs : List ℕ
  pub run_eq : run ≡ ok (ret, ys, reader, source)
  pub at_most : length ys ≤ n
  pub counted : ((ret ≡ failed) × (ys ≡ [])) ⊎ (ret ≡ count (length ys))
  pub held : Buffered reader xs
  pub kept : ys ++ (xs ++ source.coming) ≡ all
  pub spent : budget ≤ calm_count source.replies

-- Nothing is handed out.
idle :
    (run : Got) (n : ℕ) (ret : Returned) (s : BufReader) (k : Source) (xs : List ℕ)
    → run ≡ ok (ret, [], s, k)
    → (ret ≡ failed) ⊎ (ret ≡ count 0)
    → Buffered s xs
    → Handed run n (xs ++ k.coming) (calm_count k.replies)
idle run n ret s k xs e r h = record {
  ret = ret;
  ys = [];
  reader = s;
  source = k;
  xs = xs;
  run_eq = e;
  at_most = omega arith;
  counted = elim r [ inl bad ↦ inl (bad, refl) | inr good ↦ inr good ];
  held = h;
  kept = refl;
  spent = omega arith;
}

-- Behind the first `m` bytes of the buffer.
advanced :
    (s : BufReader) (xs : List ℕ) (m : ℕ) (h : Buffered s xs)
    → m ≤ length xs
    → Buffered (record s { r = s.r + m }) (drop m xs)
advanced s xs m h le = record {
  front = h.front ++ take m xs;
  spare = h.spare;
  buf_eq =
      h.buf_eq
      ∙ ap (λ ys. h.front ++ (ys ++ h.spare)) (sym (take-drop-append m xs))
      ∙ ap (λ ys. h.front ++ ys) (append_assoc (take m xs) (drop m xs) h.spare)
      ∙ sym (append_assoc h.front (take m xs) (drop m xs ++ h.spare));
  r_eq = omega (arith, h.r_eq, length-append h.front (take m xs), length-take m xs le);
  w_eq =
      omega
        (arith, h.w_eq, length-append h.front (take m xs), length-take m xs le, length-drop m xs);
  size = h.size;
}

read_here :
    (s : BufReader) (xs : List ℕ) (m : ℕ) (h : Buffered s xs)
    → m ≤ length xs
    → take m (drop s.r s.buf) ≡ take m xs
read_here s xs m h le =
    ap₂ (λ r b. take m (drop r b)) h.r_eq h.buf_eq
    ∙ ap (λ r. take m (drop r (h.front ++ (xs ++ h.spare)))) (sym (add-zero (length h.front)))
    ∙ ap (take m) (drop-append 0 h.front (xs ++ h.spare))
    ∙ take-append-le m xs h.spare le

hand_out-Handed :
    (n : ℕ) (s : BufReader) (k : Source) (xs : List ℕ)
    → Buffered s xs
    → Handed (hand_out n s k) n (xs ++ k.coming) (calm_count k.replies)
hand_out-Handed n s k xs h = elim (Bool-cases (s.w == 0)) [
  | inl empty ↦ elim (Bool-cases (s.errno == 0)) [
    | inl fine ↦
        idle (hand_out n s k) n (count 0) s k xs (unfold hand_out in rw (empty, fine)) (inr refl) h
    | inr bad ↦
        idle (hand_out n s k) n failed s k xs (unfold hand_out in rw (empty, bad)) (inl refl) h
  ]
  | inr some_left ↦
      let m : ℕ = if ltb (s.w - s.r) n then s.w - s.r else n in
      let le : m ≤ length xs = ground (arith, h.w_eq, h.r_eq) in
      let size : length (take m xs) ≡ m = length-take m xs le in
      let here : take m (drop s.r s.buf) ≡ take m xs = read_here s xs m h le in
      let most : m ≤ n = ground arith in
      record {
        ret = count m;
        ys = take m xs;
        reader = record s { r = s.r + m };
        source = k;
        xs = drop m xs;
        run_eq = unfold hand_out in rw (some_left, here);
        at_most = omega (arith, size, most);
        counted = inr (ap count (sym size));
        held = advanced s xs m h le;
        kept =
            sym (append_assoc (take m xs) (drop m xs) k.coming)
            ∙ ap (λ zs. zs ++ k.coming) (take-drop-append m xs);
        spent = omega arith;
      }
]

-- A smaller budget is met too.
fewer :
    {run : Got} {n budget budget' : ℕ} {all : List ℕ}
    → Handed run n all budget
    → budget' ≤ budget
    → Handed run n all budget'
fewer h le = record {
  ret = h.ret;
  ys = h.ys;
  reader = h.reader;
  source = h.source;
  xs = h.xs;
  run_eq = h.run_eq;
  at_most = h.at_most;
  counted = h.counted;
  held = h.held;
  kept = h.kept;
  spent = omega (arith, h.spent);
}

empty_list : (xs : List ℕ) → length xs ≡ 0 → xs ≡ []
empty_list [] e = refl
empty_list (x ∷ xs) e = absurd (omega (arith, e))

pub readn_cases :
    (n : ℕ) (again : Bool) (s : BufReader) (k : Source) (t : Bool)
    → s.eof ≡ false
    → (s.r == s.w) ≡ t
    → readn n again s k ≡ (
        if t
        then fill again (record s { r = 0; w = 0 }) k >>= (λ p. hand_out n p.0 p.1)
        else hand_out n s k)
unfolding readn
readn_cases n again s k t going e =
    ap₂
      (λ o d.
        if o
        then ok (count 0, [], s, k)
        else if d
        then fill again (record s { r = 0; w = 0 }) k >>= (λ p. hand_out n p.0 p.1)
        else hand_out n s k)
      going e

refilled-Handed :
    (n : ℕ) (again : Bool) (s : BufReader) (k : Source) (xs : List ℕ)
    → Buffered s xs
    → s.r ≡ s.w
    → 0 < calm_count k.replies
    → Handed
        (fill again (record s { r = 0; w = 0 }) k >>= (λ p. hand_out n p.0 p.1))
        n
        (xs ++ k.coming)
        (calm_count k.replies - 1)
refilled-Handed n again s k xs h same some_left =
    let f = fill-Filled again (record s { r = 0; w = 0 }) k refl refl h.size some_left in
    let out = hand_out-Handed n f.reader f.source f.xs f.held in
    let none_here : xs ≡ [] = empty_list xs (omega (arith, same, h.r_eq, h.w_eq)) in
    record {
      ret = out.ret;
      ys = out.ys;
      reader = out.reader;
      source = out.source;
      xs = out.xs;
      run_eq = ap (λ z. z >>= (λ p. hand_out n p.0 p.1)) f.run_eq ∙ out.run_eq;
      at_most = out.at_most;
      counted = out.counted;
      held = out.held;
      kept = out.kept ∙ f.kept ∙ ap (λ zs. zs ++ k.coming) (sym none_here);
      spent = omega (arith, out.spent, f.spent);
    }

-- With a reply to come that is not EINTR, `readn` ends, and no byte is lost or repeated: it hands
-- out at most `n` bytes, as many as it returns and none if it failed, and these, the bytes that are
-- buffered and those to come are the bytes that were buffered and to come.
pub readn-Handed :
    (n : ℕ) (again : Bool) (s : BufReader) (k : Source) (xs : List ℕ)
    → Buffered s xs
    → 0 < calm_count k.replies
    → Handed (readn n again s k) n (xs ++ k.coming) (calm_count k.replies - 1)
readn-Handed n again s k xs h some_left = elim (Bool-cases s.eof) [
  | inl ended ↦
      let out =
        idle (readn n again s k) n (count 0) s k xs (unfold readn in rw ended) (inr refl) h in
      fewer out (omega arith)
  | inr going ↦ elim (Bool-cases (s.r == s.w)) [
    | inl all_read ↦
        subst (λ z. Handed z n (xs ++ k.coming) (calm_count k.replies - 1))
          (sym (readn_cases n again s k true going all_read))
          (refilled-Handed n again s k xs h (ground (arith, all_read)) some_left)
    | inr more ↦
        let out = hand_out-Handed n s k xs h in
        subst (λ z. Handed z n (xs ++ k.coming) (calm_count k.replies - 1))
          (sym (readn_cases n again s k false going more)) (fewer out (omega arith))
  ]
]
