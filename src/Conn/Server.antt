-- ===== src/Conn/Server.antt =====
-- `Server` of ugorji/conn/conn.h, with its methods in conn_epoll.cc.
use cc_common.Base.{
  ℕ, zero, suc, ◌+◌, Bool, true, false, ◌||◌, ltb, ◌==◌, if◌then◌else◌, List, [], ◌∷◌, Outcome, ok,
  abort, no_fuel, ◌>>=◌,
}
use cc_common.Conn.{
  Event, added, not_added, deleted, unregistered, closed, handled, waited, accept_tried, Accepted,
  client, accept_interrupted, would_block, accept_error, Ready, Waited, events, wait_interrupted,
  wait_error, Environment,
}

-- `clientfds_`, the manager's `numServerErrors_`, and the trace.
pub record Server : Type 0 where
  pub clients : List ℕ
  pub errors : ℕ
  pub trace : List Event

-- `std::set<int>`: ascending, each once.
unfoldable pub member : ℕ → List ℕ → Bool
member fd [] = false
member fd (x ∷ xs) = fd == x || member fd xs

unfoldable pub insert_fd : ℕ → List ℕ → List ℕ
insert_fd fd [] = fd ∷ []
insert_fd fd (x ∷ xs) =
    let rest = insert_fd fd xs in
    if fd == x then x ∷ xs else if ltb fd x then fd ∷ x ∷ xs else x ∷ rest

unfoldable pub erase_fd : ℕ → List ℕ → List ℕ
erase_fd fd [] = []
erase_fd fd (x ∷ xs) = let rest = erase_fd fd xs in if fd == x then xs else x ∷ rest

abbrev pub log : Event → Server → Server
log e s = record s { trace = e ∷ s.trace }

-- CHKRUNERR: an error is counted.
abbrev pub chk_run_err : Bool → Server → Server
chk_run_err err s = if err then record s { errors = s.errors + 1 } else s

module _ (k : Environment) where
  -- `Server::addFd`; `err` is what it was, or set.
  unfoldable pub add_fd : ℕ → Bool → Server → Bool × Server
  add_fd fd err s = if k.add_fails s.trace fd then (true, log (not_added fd) s) else (
    err,
    log (added fd)
        (record s { clients = if fd == k.listen_fd then s.clients else insert_fd fd s.clients }),
  )

  -- `Server::purgeFd`: the three errors are joined.
  unfoldable pub purge_fd : ℕ → Server → Bool × Server
  purge_fd fd s =
      let e1 = k.delete_fails s.trace fd in
      let s1 = log (deleted fd) s in
      if fd == k.listen_fd
      then (e1, s1)
      else (let e2 = k.unregister_fails s1.trace fd in
          let s2 = log (unregistered fd) s1 in
          let e3 = k.close_fails s2.trace fd in (e1 || e2 || e3, log (closed fd) s2))

  -- `Server::removeFd`.
  unfoldable pub remove_fd : ℕ → Bool → Server → Bool × Server
  unfolding member erase_fd
  remove_fd fd err s =
      if member fd s.clients
      then purge_fd fd (record s { clients = erase_fd fd s.clients })
      else (err, s)

  -- `Server::workFd`; its error is its own.
  unfoldable pub work_fd : ℕ → Server → Server
  work_fd fd s =
      let s1 = log (handled fd) s in
      if k.handle_fails s.trace fd then (remove_fd fd true s1).1 else s1

  -- One round of `Server::acceptClients`, with what `closing` and `accept4` answer: an error other than
  -- EINTR and EAGAIN does not end the loop, whether `retryOnError` is set or not.
  unfoldable pub accept_round :
      (Bool → Server → Outcome (Bool × Server))
      → Bool
      → Bool
      → Server
      → Bool
      → Accepted
      → Outcome (Bool × Server)
  accept_round next retry err s true a = ok (err, s)
  accept_round next retry err s false (client fd) =
      let (err', s') = add_fd fd err (log accept_tried s) in next err' s'
  accept_round next retry err s false accept_interrupted = next err (log accept_tried s)
  accept_round next retry err s false would_block = ok (err, log accept_tried s)
  accept_round next retry err s false accept_error =
      next (if retry then err else true) (log accept_tried s)

  -- `Server::acceptClients`.
  unfoldable pub accept_clients : ℕ → Bool → Bool → Server → Outcome (Bool × Server)
  accept_clients zero retry err s = no_fuel
  accept_clients (suc f) retry err s =
      accept_round (accept_clients f retry) retry err s (k.closing s.trace) (k.accept s.trace)

  -- One event of `epoll_wait`. `f` bounds the rounds of `acceptClients`.
  unfoldable pub on_event : ℕ → Ready → Server → Outcome Server
  on_event f e s =
      if e.err || e.hup || e.rd_hup
      then ok (if e.fd == k.listen_fd then s else (remove_fd e.fd false s).1)
      else if e.fd == k.listen_fd
      then (if e.read
          then accept_clients f false false s >>= (λ r. ok (chk_run_err r.0 r.1))
          else ok s)
      else ok (if e.read || e.write then work_fd e.fd s else s)

  unfoldable pub on_events : ℕ → List Ready → Server → Outcome Server
  on_events f [] s = ok s
  on_events f (e ∷ es) s = on_event f e s >>= on_events f es

  -- One round of the loop of `Server::run`, with what `closing` and `epoll_wait` answer.
  unfoldable pub run_round : (Server → Outcome Server) → ℕ → Server → Bool → Waited → Outcome Server
  run_round next f s true w = ok s
  run_round next f s false (events es) = on_events f es (log waited s) >>= next
  run_round next f s false wait_interrupted = next (log waited s)
  run_round next f s false wait_error = ok (chk_run_err true (log waited s))

  -- That loop. `g` bounds its rounds.
  unfoldable pub run_loop : ℕ → ℕ → Server → Outcome Server
  run_loop zero f s = no_fuel
  run_loop (suc g) f s = run_round (run_loop g f) f s (k.closing s.trace) (k.wait s.trace)

  -- The loop over `clientfds_` behind it.
  unfoldable pub purge_all : List ℕ → Server → Server
  purge_all [] s = s
  purge_all (fd ∷ fds) s = purge_all fds (purge_fd fd s).1

  -- The end of `Server::run`. The descriptor of `epoll` is closed too, and `serverDone` called.
  unfoldable pub wind_up : Server → Server
  wind_up s = (purge_fd k.listen_fd (record (purge_all s.clients s) { clients = [] })).1

  -- `Server::run`. If `epoll_create1` fails, `errnoChk` throws out of the thread: its third argument is
  -- `halt`, for which a text counts as true.
  unfoldable pub run : ℕ → ℕ → Server → Outcome Server
  run g f s =
      if k.create_fails
      then abort
      else (let (err, s1) = add_fd k.listen_fd false s in
          run_loop g f (chk_run_err err s1) >>= (λ s2. ok (wind_up s2)))

abbrev pub new_server : Server
new_server = record { clients = []; errors = 0; trace = [] }
