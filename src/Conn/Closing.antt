-- ===== src/Conn/Closing.antt =====
-- A run of the server as a whole: what it added it closes. And the clients that it never closes, and
-- the errors that it never leaves.
use cc_common.Base.{
  ℕ, zero, suc, ◌≤◌, ◌≡◌, refl, sym, ap, ◌∙◌, arith, Bool, true, false, ◌==◌, ◌||◌, if◌then◌else◌,
  List, [], ◌∷◌, ok, no_fuel, abort, ◌>>=◌, Bool-cases, inl, inr,
}
use mathlib.Core.Path.{subst}
use cc_common.Conn.{Event, Ready, deleted, accept_tried, accept_error, Environment}
use cc_common.Conn.Server.{
  Server, log, chk_run_err, member, erase_fd, add_fd, purge_fd, accept_round, accept_clients,
  on_event, on_events, run_loop, purge_all, wind_up, run, new_server,
}
use cc_common.Conn.Books.{
  live, times, is_added, is_closed, is_unregistered, RefusesTwice, Books, neutral-Books,
}
use cc_common.Conn.Keeps.{add_fd-Books, purge_fd-Books, chk_run_err-Books, new_server-Books}
use cc_common.Conn.Ends.{AcceptsEnd, ClosesAfter, run_loop-Books}

-- `purgeFd` does not look at the set of clients.
purge_fd-clients :
    (k : Environment) (fd : ℕ) (s : Server) (fds : List ℕ)
    → (purge_fd k fd (record s { clients = fds })).1 ≡ record (purge_fd k fd s).1 { clients = fds }
unfolding purge_fd
purge_fd-clients k fd s fds = elim (Bool-cases (fd == k.listen_fd)) [
  | inl mine ↦ rw mine
  | inr other ↦ rw other
]

purge_listener :
    (k : Environment) (s : Server) → (purge_fd k k.listen_fd s).1 ≡ log (deleted k.listen_fd) s
unfolding purge_fd
purge_listener k s = let mine : (k.listen_fd == k.listen_fd) ≡ true = ground arith in rw mine

-- The server behind `clientfds_.clear()`.
abbrev cleared : Environment → Server → Server
cleared k s = record (purge_all k s.clients s) { clients = [] }

wind_up-log : (k : Environment) (s : Server) → wind_up k s ≡ log (deleted k.listen_fd) (cleared k s)
unfolding wind_up
wind_up-log k s = purge_listener k (cleared k s)

no_member : (c : ℕ) → member c [] ≡ false
unfolding member
no_member c = refl

run_made :
    (k : Environment) (g f : ℕ) (s : Server)
    → k.create_fails ≡ false
    → run k g f s
      ≡ run_loop k g f
          (chk_run_err (add_fd k k.listen_fd false s).0 (add_fd k k.listen_fd false s).1)
        >>= (λ s2. ok (wind_up k s2))
unfolding run
run_made k g f s made =
    ap
      (λ c.
        if c
        then abort
        else run_loop k g f
            (chk_run_err (add_fd k k.listen_fd false s).0 (add_fd k k.listen_fd false s).1)
          >>= (λ s2. ok (wind_up k s2)))
      made

module _ (k : Environment) (refuses : RefusesTwice k) where
  purge_all-Books :
      (fds : List ℕ) (s : Server)
      → Books k (record s { clients = fds })
      → Books k (record (purge_all k fds s) { clients = [] })
  unfolding purge_all
  purge_all-Books [] s b = b
  purge_all-Books (fd ∷ fds) s b =
      let other : (fd == k.listen_fd) ≡ false = unfold member in ground (arith, b.no_listener) in
      let here : member fd (fd ∷ fds) ≡ true = unfold member in ground arith in
      let rest : fds ≡ erase_fd fd (fd ∷ fds) = unfold erase_fd in ground arith in
      purge_all-Books fds (purge_fd k fd s).1 (
        rw (← purge_fd-clients k fd s fds)
          (purge_fd-Books k refuses fd (record s { clients = fd ∷ fds }) fds b other here rest))

  wind_up-Books : (s : Server) → Books k s → Books k (wind_up k s)
  wind_up-Books s b =
      subst (Books k) (sym (wind_up-log k s))
        (neutral-Books k (cleared k s) (deleted k.listen_fd) refl (purge_all-Books s.clients s b))

wind_up-clients : (k : Environment) (s : Server) → (wind_up k s).clients ≡ []
wind_up-clients k s = ap (λ (x : Server). x.clients) (wind_up-log k s)

-- If `epoll` is made and refuses to add a descriptor twice, if `accept4` has no client left after at
-- most `b` calls in a row and the manager is closing after at most `w` calls of `epoll_wait`, then the
-- server's run ends whatever else the system and the handler answer, with no client left: it has
-- closed every descriptor but the listening one as often as it added it, and told the handler each
-- time.
pub run_closes :
    (k : Environment) (b w f g : ℕ)
    → RefusesTwice k
    → AcceptsEnd b k
    → ClosesAfter w k
    → k.create_fails ≡ false
    → b ≤ f
    → w ≤ g
    → (c : ℕ) → (c == k.listen_fd) ≡ false
    → (s : Server) × (run k (suc g) (suc f) new_server ≡ ok s)
      × (s.clients ≡ [])
      × (times (is_closed c) s.trace ≡ times (is_added c) s.trace)
      × (times (is_unregistered c) s.trace ≡ times (is_closed c) s.trace)
run_closes k b w f g refuses stops closes made hb hw c other =
    let (err, s1) = add_fd k k.listen_fd false new_server in
    let b1 =
      chk_run_err-Books k refuses err s1
        (add_fd-Books k refuses k.listen_fd false new_server (new_server-Books k)) in
    let (s2, looped, b2) =
      run_loop-Books k refuses b stops f hb w closes g (chk_run_err err s1) (omega arith) b1 in
    let b3 = wind_up-Books k refuses s2 b2 in
    let empty = wind_up-clients k s2 in
    let gone : live c (wind_up k s2).trace ≡ false =
      sym (b3.held c other) ∙ ap (member c) empty ∙ no_member c in
    (
      wind_up k s2,
      run_made k (suc g) (suc f) new_server made ∙ ap (λ z. z >>= (λ x. ok (wind_up k x))) looped,
      empty,
      ground (arith, b3.balance c, gone),
      b3.told c,
    )

accept_clients-spins :
    (k : Environment)
    → ((t : List Event) → k.closing t ≡ false)
    → ((t : List Event) → k.accept t ≡ accept_error)
    → (f : ℕ) (retry err : Bool) (s : Server) → accept_clients k f retry err s ≡ no_fuel
unfolding accept_clients accept_round
accept_clients-spins k open_for fails zero retry err s = refl
accept_clients-spins k open_for fails (suc f) retry err s =
    rw (open_for s.trace, fails s.trace)
      (accept_clients-spins k open_for fails f retry (if retry then err else true)
        (log accept_tried s))

-- As long as `accept4` fails with another error than EINTR and EAGAIN and the manager does not close,
-- as where no descriptor is left, the loop of `Server::run` over the events of one `epoll_wait` never
-- gets past an event by which the listening descriptor is ready to be read, without an error on it.
pub on_events-spins :
    (k : Environment)
    → ((t : List Event) → k.closing t ≡ false)
    → ((t : List Event) → k.accept t ≡ accept_error)
    → (e : Ready) → (e.err || e.hup || e.rd_hup) ≡ false
    → e.fd ≡ k.listen_fd
    → e.read ≡ true
    → (f : ℕ) (es : List Ready) (s : Server) → on_events k f (e ∷ es) s ≡ no_fuel
unfolding on_events on_event
on_events-spins k open_for fails e fine mine ready f es s =
    let here : (e.fd == k.listen_fd) ≡ true = ground arith in
    rw (fine, here, ready, accept_clients-spins k open_for fails f false false s) refl
