-- ===== src/Examples/Conn.antt =====
-- The server and its manager in concrete environments.
use cc_common.Base.{
  ◌≡◌, ◌≢◌, refl, arith, true, false, leb, ltb, if◌then◌else◌, [], ◌∷◌, some, ok, no_fuel,
}
use cc_common.Conn.{Ready, client, would_block, accept_error, events, Environment}
use cc_common.Conn.Server.{Server, on_events, run, new_server}
use cc_common.Conn.Books.{live, times, is_added, is_closed, is_unregistered, RefusesTwice}
use cc_common.Conn.Ends.{is_waited, streak, AcceptsEnd, ClosesAfter}
use cc_common.Conn.Closing.{run_closes, on_events-spins}
use cc_common.Conn.Manager.{
  Main, returned, Life, Setting, Step, Reach, started, later, create, add_one, wait, all_done,
  drop_one, wake_none,
}
use cc_common.Conn.Waiting.{wait-returned, wait-forever}
use cc_common.Conn.Listen.{Calls, listenport, threw, listenport_lem}

-- At each wait the listening descriptor 3 is ready, and client 7; after two waits the manager closes.
-- One client, 7, comes at each call; the handler fails on it.
abbrev busy : Environment
busy = record {
  listen_fd = 3;
  create_fails = false;
  add_fails = λ t fd. live fd t;
  delete_fails = λ t fd. false;
  close_fails = λ t fd. false;
  handle_fails = λ t fd. true;
  unregister_fails = λ t fd. false;
  accept = λ t. if ltb (streak t) 1 then client 7 else would_block;
  wait = λ t. events (
      record { fd = 3; err = false; hup = false; rd_hup = false; read = true; write = false }
      ∷ record { fd = 7; err = false; hup = false; rd_hup = false; read = true; write = false }
      ∷ []);
  closing = λ t. leb 2 (times is_waited t);
}

busy-RefusesTwice : RefusesTwice busy
busy-RefusesTwice t fd h = h

busy-AcceptsEnd : AcceptsEnd 1 busy
busy-AcceptsEnd t h = ground arith

busy-ClosesAfter : ClosesAfter 2 busy
busy-ClosesAfter t h = ground arith

run_closes_example :
    (s : Server) × (run busy 3 2 new_server ≡ ok s)
    × (s.clients ≡ [])
    × (times (is_closed 7) s.trace ≡ times (is_added 7) s.trace)
    × (times (is_unregistered 7) s.trace ≡ times (is_closed 7) s.trace)
run_closes_example =
    run_closes busy 1 2 1 2 busy-RefusesTwice busy-AcceptsEnd busy-ClosesAfter refl (omega arith)
      (omega arith) 7 refl

abbrev full : Environment
full = record busy { accept = λ t. accept_error; closing = λ t. false }

-- The listening descriptor is ready, and then client 7.
abbrev listener_ready : Ready
listener_ready = record {
  fd = 3;
  err = false;
  hup = false;
  rd_hup = false;
  read = true;
  write = false;
}

abbrev client_ready : Ready
client_ready = record listener_ready { fd = 7 }

on_events-spins_example :
    on_events full 100 (listener_ready ∷ client_ready ∷ []) new_server ≡ no_fuel
on_events-spins_example =
    on_events-spins full (λ t. refl) (λ t. refl) listener_ready refl refl refl 100
      (client_ready ∷ []) new_server

-- One worker, which ends before `wait` looks.
abbrev one_worker : Setting
one_worker = record { workers = 1; use_this_thread = false; spurious = false }

abbrev over : Life
over = record { main = returned; running = 0; notifying = 0; ups = 1; downs = 1 }

starting_blocked : Main.starting 1 ≢ Main.blocked
starting_blocked e = cc

over-Reach : Reach one_worker over
over-Reach =
    let r1 = later started (create {i = 0} refl (omega arith) refl) in
    let r2 = later r1 (add_one {i = 0} refl) in
    let r3 = later r2 (drop_one {r = 0} refl) in
    let r4 = later r3 (wake_none {r = 0} refl starting_blocked) in
    later (later r4 (wait refl)) (all_done refl refl)

wait-returned_example :
    (over.running ≡ 0) × (over.downs ≡ one_worker.workers) × (over.ups ≡ one_worker.workers)
wait-returned_example = wait-returned over-Reach refl

wait-forever_example :
    Reach one_worker
      (record { main = Main.blocked; running = 0; notifying = 0; ups = 1; downs = 1 })
    × ((t : Life)
        → ¬ Step one_worker
            (record { main = Main.blocked; running = 0; notifying = 0; ups = 1; downs = 1 })
            t)
wait-forever_example = wait-forever one_worker (omega arith) refl

abbrev port_taken : Calls
port_taken = record {
  socket = some 5;
  setsockopt = true;
  bind = false;
  get_flags = true;
  set_flags = true;
  listen = true;
}

listenport_lem_example : listenport port_taken ≡ threw
listenport_lem_example = listenport_lem port_taken
