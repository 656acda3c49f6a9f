-- ===== src/Conn/Ends.antt =====
-- The loops of the server end, and its run closes what it added.
use cc_common.Base.{
  ℕ, zero, suc, ◌+◌, ◌≤◌, ◌<◌, ◌≡◌, ◌≢◌, refl, sym, ap, ◌∙◌, arith, Bool, true, false, ◌||◌, ◌==◌,
  if◌then◌else◌, List, [], ◌∷◌, ok, ◌>>=◌, Bool-cases, inl, inr,
}
use cc_common.Conn.{
  Event, added, not_added, deleted, unregistered, closed, handled, waited, accept_tried, Accepted,
  client, accept_interrupted, would_block, accept_error, Ready, Waited, events, wait_interrupted,
  wait_error, Environment,
}
use cc_common.Conn.Server.{
  Server, log, chk_run_err, erase_fd, add_fd, purge_fd, remove_fd, work_fd, accept_round,
  accept_clients, on_event, on_events, run_round, run_loop,
}
use cc_common.Conn.Books.{times, RefusesTwice, Books, neutral-Books}
use cc_common.Conn.Keeps.{add_fd-Books, remove_fd-Books, work_fd-Books, chk_run_err-Books}

abbrev pub is_waited : Event → Bool
is_waited waited = true
is_waited e = false

-- The calls of `accept4` since the newest `epoll_wait`.
abbrev pub streak : List Event → ℕ
streak [] = 0
streak (waited ∷ t) = 0
streak (accept_tried ∷ t) = streak t + 1
streak (added fd ∷ t) = streak t
streak (not_added fd ∷ t) = streak t
streak (deleted fd ∷ t) = streak t
streak (unregistered fd ∷ t) = streak t
streak (closed fd ∷ t) = streak t
streak (handled fd ∷ t) = streak t

-- After `b` calls in a row `accept4` has no client left.
abbrev pub AcceptsEnd : ℕ → Environment → Type 0
AcceptsEnd b k = (t : List Event) → b ≤ streak t → k.accept t ≡ would_block

-- The manager is closing after `w` calls of `epoll_wait` at the latest.
abbrev pub ClosesAfter : ℕ → Environment → Type 0
ClosesAfter w k = (t : List Event) → w ≤ times is_waited t → k.closing t ≡ true

add_fd-calls :
    (k : Environment) (fd : ℕ) (err : Bool) (s : Server)
    → (streak (add_fd k fd err s).1.trace ≡ streak s.trace)
      × (times is_waited (add_fd k fd err s).1.trace ≡ times is_waited s.trace)
unfolding add_fd
add_fd-calls k fd err s = ground arith

purge_fd-waits :
    (k : Environment) (fd : ℕ) (s : Server)
    → times is_waited (purge_fd k fd s).1.trace ≡ times is_waited s.trace
unfolding purge_fd
purge_fd-waits k fd s = ground arith

remove_fd-waits :
    (k : Environment) (fd : ℕ) (err : Bool) (s : Server)
    → times is_waited (remove_fd k fd err s).1.trace ≡ times is_waited s.trace
unfolding remove_fd
remove_fd-waits k fd err s =
    ground (arith, purge_fd-waits k fd (record s { clients = erase_fd fd s.clients }))

work_fd-waits :
    (k : Environment) (fd : ℕ) (s : Server)
    → times is_waited (work_fd k fd s).trace ≡ times is_waited s.trace
unfolding work_fd
work_fd-waits k fd s = ground (arith, remove_fd-waits k fd true (log (handled fd) s))

chk_run_err-trace : (err : Bool) (s : Server) → (chk_run_err err s).trace ≡ s.trace
chk_run_err-trace true s = refl
chk_run_err-trace false s = refl

-- The call ends, keeps the books, and waits for no event.
abbrev pub Kept : Environment → Server → Server → Type 0
Kept k s s' = Books k s' × (times is_waited s'.trace ≡ times is_waited s.trace)

false-ne-true : ◌≢◌ {A = Bool} false true
false-ne-true e = cc

module _ (k : Environment) (refuses : RefusesTwice k) (b : ℕ) (stops : AcceptsEnd b k) where
  accept_round-Kept :
      (f : ℕ) (retry err : Bool) (s : Server) (c : Bool) (a : Accepted)
      → k.accept s.trace ≡ a
      → b ≤ f + streak s.trace
      → Books k s
      → (a ≢ would_block
          → (err' : Bool) (s' : Server) → b < f + streak s'.trace
          → Books k s'
          → (r : Bool × Server) × (accept_clients k f retry err' s' ≡ ok r) × Kept k s' r.1)
      → (r : Bool × Server) × (accept_round k (accept_clients k f retry) retry err s c a ≡ ok r)
        × Kept k s r.1
  unfolding accept_round
  accept_round-Kept f retry err s true a e lt books next = ((err, s), refl, (books, refl))
  accept_round-Kept f retry err s false would_block e lt books next =
      ((err, log accept_tried s), refl, (neutral-Books k s accept_tried refl books, refl))
  accept_round-Kept f retry err s false (client fd) e lt books next =
      let tried : Server = log accept_tried s in
      let calls = add_fd-calls k fd err tried in
      let (r, run_eq, kept) =
        next (λ q. cc) (add_fd k fd err tried).0 (add_fd k fd err tried).1 (omega (arith, calls))
          (add_fd-Books k refuses fd err tried (neutral-Books k s accept_tried refl books)) in
      (r, run_eq, (kept.0, kept.1 ∙ calls.1))
  accept_round-Kept f retry err s false accept_interrupted e lt books next =
      next (λ q. cc) err (log accept_tried s) (omega arith)
        (neutral-Books k s accept_tried refl books)
  accept_round-Kept f retry err s false accept_error e lt books next =
      next (λ q. cc) (if retry then err else true) (log accept_tried s) (omega arith)
        (neutral-Books k s accept_tried refl books)

  pub accept_clients-Kept :
      (f : ℕ) (retry err : Bool) (s : Server)
      → b ≤ f + streak s.trace
      → Books k s
      → (r : Bool × Server) × (accept_clients k (suc f) retry err s ≡ ok r) × Kept k s r.1
  unfolding accept_clients
  accept_clients-Kept zero retry err s le books =
      accept_round-Kept 0 retry err s (k.closing s.trace) (k.accept s.trace) refl le books
        (λ busy err' s' lt' books'. absurd (busy (stops s.trace (omega arith))))
  accept_clients-Kept (suc f) retry err s le books =
      accept_round-Kept (suc f) retry err s (k.closing s.trace) (k.accept s.trace) refl le books
        (λ busy err' s' lt' books'. accept_clients-Kept f retry err' s' (omega arith) books')

  module _ (f : ℕ) (enough : b ≤ f) where
    accepted-Kept :
        (s : Server)
        → Books k s
        → (s' : Server) × ((accept_clients k (suc f) false false s
              >>= (λ r. ok (chk_run_err r.0 r.1)))
            ≡ ok s')
          × Kept k s s'
    accepted-Kept s books =
        let (r, run_eq, kept) = accept_clients-Kept f false false s (omega arith) books in
        (
          chk_run_err r.0 r.1,
          rw run_eq,
          (
            chk_run_err-Books k refuses r.0 r.1 kept.0,
            ap (times is_waited) (chk_run_err-trace r.0 r.1) ∙ kept.1,
          ),
        )

    on_event-Kept :
        (e : Ready) (s : Server)
        → Books k s
        → (s' : Server) × (on_event k (suc f) e s ≡ ok s') × Kept k s s'
    on_event-Kept e s books = elim (Bool-cases (e.err || e.hup || e.rd_hup)) [
      | inl gone ↦ elim (Bool-cases (e.fd == k.listen_fd)) [
        | inl mine ↦ (s, unfold on_event in rw (gone, mine), (books, refl))
        | inr other ↦ (
          (remove_fd k e.fd false s).1,
          unfold on_event in rw (gone, other),
          (remove_fd-Books k refuses e.fd false s other books, remove_fd-waits k e.fd false s),
        )
      ]
      | inr fine ↦ elim (Bool-cases (e.fd == k.listen_fd)) [
        | inl mine ↦ elim (Bool-cases e.read) [
          | inl read ↦
              let (s', run_eq, kept) = accepted-Kept s books in
              (s', unfold on_event in rw (fine, mine, read) run_eq, kept)
          | inr quiet ↦ (s, unfold on_event in rw (fine, mine, quiet), (books, refl))
        ]
        | inr other ↦ elim (Bool-cases (e.read || e.write)) [
          | inl some_work ↦ (
            work_fd k e.fd s,
            unfold on_event in rw (fine, other, some_work),
            (work_fd-Books k refuses e.fd s other books, work_fd-waits k e.fd s),
          )
          | inr quiet ↦ (s, unfold on_event in rw (fine, other, quiet), (books, refl))
        ]
      ]
    ]

    on_events-Kept :
        (es : List Ready) (s : Server)
        → Books k s
        → (s' : Server) × (on_events k (suc f) es s ≡ ok s') × Kept k s s'
    unfolding on_events
    on_events-Kept [] s books = (s, refl, (books, refl))
    on_events-Kept (e ∷ es) s books =
        let (s1, first, kept1) = on_event-Kept e s books in
        let (s2, rest, kept2) = on_events-Kept es s1 kept1.0 in
        (s2, rw (first, rest), (kept2.0, kept2.1 ∙ kept1.1))

    module _ (w : ℕ) (closes : ClosesAfter w k) where
      run_round-Books :
          (g : ℕ) (s : Server) (c : Bool) (a : Waited)
          → Books k s
          → (c ≡ false
              → (s' : Server) → times is_waited s'.trace ≡ times is_waited s.trace + 1
              → Books k s'
              → (s'' : Server) × (run_loop k g (suc f) s' ≡ ok s'') × Books k s'')
          → (s'' : Server) × (run_round k (run_loop k g (suc f)) (suc f) s c a ≡ ok s'')
            × Books k s''
      unfolding run_round
      run_round-Books g s true a books next = (s, refl, books)
      run_round-Books g s false wait_interrupted books next =
          next refl (log waited s) refl (neutral-Books k s waited refl books)
      run_round-Books g s false wait_error books next = (
        chk_run_err true (log waited s),
        refl,
        chk_run_err-Books k refuses true (log waited s) (neutral-Books k s waited refl books),
      )
      run_round-Books g s false (events es) books next =
          let (s1, done, kept) =
            on_events-Kept es (log waited s) (neutral-Books k s waited refl books) in
          let (s2, rest, kept2) = next refl s1 kept.1 kept.0 in (s2, rw (done, rest), kept2)

      pub run_loop-Books :
          (g : ℕ) (s : Server)
          → w ≤ g + times is_waited s.trace
          → Books k s
          → (s' : Server) × (run_loop k (suc g) (suc f) s ≡ ok s') × Books k s'
      unfolding run_loop
      run_loop-Books zero s le books =
          let closing_now : k.closing s.trace ≡ true = closes s.trace (omega arith) in
          run_round-Books 0 s (k.closing s.trace) (k.wait s.trace) books
            (λ c s' e books'. absurd (false-ne-true (sym c ∙ closing_now)))
      run_loop-Books (suc g) s le books =
          run_round-Books (suc g) s (k.closing s.trace) (k.wait s.trace) books
            (λ c s' e books'. run_loop-Books g s' (omega (arith, e)) books')
