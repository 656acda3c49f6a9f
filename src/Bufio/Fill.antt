-- ===== src/Bufio/Fill.antt =====
-- `BufReader::fill` brings bytes into an empty buffer, and loses none.
use cc_common.Base.{
  ℕ, suc, ◌&&◌, ◌+◌, ◌-◌, ◌≤◌, ◌<◌, ◌≡◌, refl, ap, ◌∙◌, arith, Bool, true, false, ◌==◌,
  if◌then◌else◌, List, [], ◌∷◌, ◌++◌, take, drop, length, ok, inl, inr, length-append, length-drop,
  take-drop-append, Bool-cases, Outcome,
}
use mathlib.Core.Path.{ap₂}
use cc_common.Slice.Append.{store_end}
use cc_common.Bufio.{Reply, erred, ready, Source, least}
use cc_common.Bufio.Writer.{bufsize}
use cc_common.Bufio.Reader.{BufReader, e_intr, receive, fill_loop, fill}

-- The bytes `xs` stand in the buffer between `r_` and `w_`.
pub record Buffered (s : BufReader) (xs : List ℕ) : Type 0 where
  pub front : List ℕ
  pub spare : List ℕ
  pub buf_eq : s.buf ≡ front ++ (xs ++ spare)
  pub r_eq : s.r ≡ length front
  pub w_eq : s.w ≡ length front + length xs
  pub size : length s.buf ≡ bufsize

-- How many replies are not EINTR.
abbrev pub calm_count : List Reply → ℕ
calm_count [] = 0
calm_count (ready j ∷ rest) = suc (calm_count rest)
calm_count (erred e ∷ rest) = if e == e_intr then calm_count rest else suc (calm_count rest)

-- A `fill` that ends: the bytes to come are in the buffer, or still to come.
pub record Filled (run : Outcome (BufReader × Source)) (all : List ℕ) (budget : ℕ) : Type 0 where
  pub reader : BufReader
  pub source : Source
  pub xs : List ℕ
  pub run_eq : run ≡ ok (reader, source)
  pub held : Buffered reader xs
  pub front_eq : held.front ≡ []
  pub kept : xs ++ source.coming ≡ all
  pub spent : budget ≤ calm_count source.replies

still :
    (s : BufReader) (k : Source) (errno : ℕ) (eof : Bool) (src : Source) (budget : ℕ)
    (run : Outcome (BufReader × Source))
    → run ≡ ok (record s { errno = errno; eof = eof }, src)
    → s.r ≡ 0
    → s.w ≡ 0
    → length s.buf ≡ bufsize
    → src.coming ≡ k.coming
    → budget ≤ calm_count src.replies
    → Filled run k.coming budget
still s k errno eof src budget run e r0 w0 size same spent = record {
  reader = record s { errno = errno; eof = eof };
  source = src;
  xs = [];
  run_eq = e;
  held = record { front = []; spare = s.buf; buf_eq = refl; r_eq = r0; w_eq = w0; size = size };
  front_eq = refl;
  kept = same;
  spent = spent;
}

receive-Filled :
    (j : ℕ) (s : BufReader) (k : Source)
    → s.r ≡ 0
    → s.w ≡ 0
    → length s.buf ≡ bufsize
    → Filled (receive j s k) k.coming (calm_count k.replies)
receive-Filled j s k r0 w0 size =
    let n : ℕ = least j (bufsize - s.w) in
    let chunk : List ℕ = take n k.coming in
    let short : n ≤ bufsize = ground (arith, w0) in
    let fits : length chunk ≤ length s.buf = omega (
      arith,
      size,
      short,
      ap (length {A = ℕ}) (take-drop-append n k.coming),
      length-append chunk (drop n k.coming),
      length-drop n k.coming,
    ) in
    elim (Bool-cases (length chunk == 0)) [
      | inl none_left ↦
          still s k k.errno true k (calm_count k.replies) (receive j s k)
            (unfold receive in rw none_left) r0 w0 size refl (omega arith)
      | inr some_left ↦ record {
        reader = record s {
          errno = k.errno;
          w = s.w + length chunk;
          buf = chunk ++ drop (length chunk) s.buf;
        };
        source = record k { coming = drop n k.coming };
        xs = chunk;
        run_eq = unfold receive in rw (some_left, store_end [] s.buf chunk s.w w0 fits);
        held = record {
          front = [];
          spare = drop (length chunk) s.buf;
          buf_eq = refl;
          r_eq = r0;
          w_eq = omega (arith, w0);
          size = omega (
            arith,
            length-append chunk (drop (length chunk) s.buf),
            length-drop (length chunk) s.buf,
            fits,
            size,
          );
        };
        front_eq = refl;
        kept = take-drop-append n k.coming;
        spent = omega arith;
      }
    ]

loop-Filled :
    (again : Bool) (replies : List Reply) (s : BufReader) (k : Source)
    → s.r ≡ 0
    → s.w ≡ 0
    → length s.buf ≡ bufsize
    → 0 < calm_count replies
    → Filled (fill_loop again replies s k) k.coming (calm_count replies - 1)
unfolding fill_loop
loop-Filled again [] s k r0 w0 size some_left = absurd (omega arith)
loop-Filled again (ready j ∷ rest) s k r0 w0 size some_left =
    let f = receive-Filled j s (record k { replies = rest }) r0 w0 size in
    record {
      reader = f.reader;
      source = f.source;
      xs = f.xs;
      run_eq = f.run_eq;
      held = f.held;
      front_eq = f.front_eq;
      kept = f.kept;
      spent = omega (arith, f.spent);
    }
loop-Filled again (erred e ∷ rest) s k r0 w0 size some_left =
    let s' : BufReader = record s { errno = e } in
    let k' : Source = record k { replies = rest; errno = e } in
    elim (Bool-cases (e == e_intr && again)) [
      | inl retried ↦
          let more : calm_count (erred e ∷ rest) ≡ calm_count rest = ground (arith, retried) in
          let f = loop-Filled again rest s' k' r0 w0 size (omega (arith, more, some_left)) in
          record {
            reader = f.reader;
            source = f.source;
            xs = f.xs;
            run_eq = rw retried f.run_eq;
            held = f.held;
            front_eq = f.front_eq;
            kept = f.kept;
            spent = omega (arith, more, f.spent);
          }
      | inr ended ↦ still s k e s.eof k' _ _ (rw ended) r0 w0 size refl (ground arith)
    ]

pub fill_on :
    (again : Bool) (s : BufReader) (k : Source)
    → s.is_open ≡ true
    → s.eof ≡ false
    → fill again s k ≡ fill_loop again k.replies s k
unfolding fill
fill_on again s k opened going =
    ap₂ (λ o e. if o then (if e then ok (s, k) else fill_loop again k.replies s k) else ok (s, k))
      opened going

pub fill-Filled :
    (again : Bool) (s : BufReader) (k : Source)
    → s.r ≡ 0
    → s.w ≡ 0
    → length s.buf ≡ bufsize
    → 0 < calm_count k.replies
    → Filled (fill again s k) k.coming (calm_count k.replies - 1)
fill-Filled again s k r0 w0 size some_left = elim (Bool-cases s.is_open) [
  | inr closed ↦
      still s k s.errno s.eof k _ (fill again s k) (unfold fill in rw closed) r0 w0 size refl
        (omega arith)
  | inl opened ↦ elim (Bool-cases s.eof) [
    | inl ended ↦
        still s k s.errno s.eof k _ (fill again s k) (unfold fill in rw (opened, ended)) r0 w0 size
          refl (omega arith)
    | inr going ↦
        let f = loop-Filled again k.replies s k r0 w0 size some_left in
        record {
          reader = f.reader;
          source = f.source;
          xs = f.xs;
          run_eq = fill_on again s k opened going ∙ f.run_eq;
          held = f.held;
          front_eq = f.front_eq;
          kept = f.kept;
          spent = f.spent;
        }
  ]
]
