-- ===== src/Conn/Keeps.antt =====
-- The operations of the server keep its books.
use cc_common.Base.{
  ℕ, ◌≡◌, refl, sym, ◌∙◌, arith, Bool, true, false, ◌==◌, if◌then◌else◌, List, ◌∷◌, Bool-cases, inl,
  inr,
}
use cc_common.Conn.{added, not_added, handled, Environment}
use cc_common.Conn.Server.{
  Server, chk_run_err, member, insert_fd, erase_fd, add_fd, purge_fd, remove_fd, work_fd,
  new_server,
}
use cc_common.Conn.Books.{
  live, IsSetOf, RefusesTwice, Books, neutral-Books, member-insert_fd, member-erase_fd,
  insert_fd-IsSetOf, erase_fd-IsSetOf,
}

module _ (k : Environment) (refuses : RefusesTwice k) where
  added-Books :
      (s : Server) (fd : ℕ) (clients : List ℕ)
      → live fd s.trace ≡ false
      → clients ≡ (if fd == k.listen_fd then s.clients else insert_fd fd s.clients)
      → Books k s
      → Books k (record s { clients = clients; trace = added fd ∷ s.trace })
  added-Books s fd clients new e b = elim (Bool-cases (fd == k.listen_fd)) [
    | inl listening ↦
        let same : clients ≡ s.clients = rw (e, listening) in
        record {
          is_set = rw same b.is_set;
          no_listener = rw same b.no_listener;
          held = λ c other. rw same (ground (arith, b.held c other));
          balance = λ c. ground (arith, b.balance c);
          told = b.told;
        }
    | inr client_fd ↦
        let more : clients ≡ insert_fd fd s.clients = rw (e, client_fd) in
        record {
          is_set = rw more (insert_fd-IsSetOf fd s.clients b.is_set);
          no_listener =
              rw more (ground (arith, b.no_listener, member-insert_fd k.listen_fd fd s.clients));
          held =
              λ c other. rw more (ground (arith, b.held c other, member-insert_fd c fd s.clients));
          balance = λ c. ground (arith, b.balance c);
          told = b.told;
        }
  ]

  pub add_fd-Books : (fd : ℕ) (err : Bool) (s : Server) → Books k s → Books k (add_fd k fd err s).1
  add_fd-Books fd err s b = elim (Bool-cases (k.add_fails s.trace fd)) [
    | inl fails ↦ unfold add_fd in rw fails (neutral-Books k s (not_added fd) refl b)
    | inr works ↦
        let new : live fd s.trace ≡ false = ground (arith, refuses s.trace fd) in
        unfold add_fd in rw works (added-Books s fd _ new refl b)
  ]

  -- A client that was taken out of the set is unregistered and closed.
  pub purge_fd-Books :
      (fd : ℕ) (s : Server) (clients : List ℕ)
      → Books k s
      → (fd == k.listen_fd) ≡ false
      → member fd s.clients ≡ true
      → clients ≡ erase_fd fd s.clients
      → Books k (purge_fd k fd (record s { clients = clients })).1
  purge_fd-Books fd s clients b other inside e =
      let open_fd : live fd s.trace ≡ true = sym (b.held fd other) ∙ inside in
      unfold purge_fd in
      rw other (record {
        is_set = rw e (erase_fd-IsSetOf fd s.clients b.is_set);
        no_listener =
            rw e (ground (arith, b.no_listener, member-erase_fd k.listen_fd fd s.clients b.is_set));
        held = λ c c_other.
            rw e (ground (arith, b.held c c_other, member-erase_fd c fd s.clients b.is_set));
        balance = λ c. ground (arith, b.balance c);
        told = λ c. ground (arith, b.told c);
      })

  pub remove_fd-Books :
      (fd : ℕ) (err : Bool) (s : Server)
      → (fd == k.listen_fd) ≡ false
      → Books k s
      → Books k (remove_fd k fd err s).1
  remove_fd-Books fd err s other b = elim (Bool-cases (member fd s.clients)) [
    | inl inside ↦ unfold remove_fd in rw inside (purge_fd-Books fd s _ b other inside refl)
    | inr outside ↦ unfold remove_fd in rw outside b
  ]

  pub work_fd-Books :
      (fd : ℕ) (s : Server) → (fd == k.listen_fd) ≡ false → Books k s → Books k (work_fd k fd s)
  work_fd-Books fd s other b =
      let logged = neutral-Books k s (handled fd) refl b in
      elim (Bool-cases (k.handle_fails s.trace fd)) [
        | inl fails ↦ unfold work_fd in rw fails (remove_fd-Books fd true _ other logged)
        | inr fine ↦ unfold work_fd in rw fine logged
      ]

  pub chk_run_err-Books : (err : Bool) (s : Server) → Books k s → Books k (chk_run_err err s)
  chk_run_err-Books true s b = record {
    is_set = b.is_set;
    no_listener = b.no_listener;
    held = b.held;
    balance = b.balance;
    told = b.told;
  }
  chk_run_err-Books false s b = b

pub new_server-Books : (k : Environment) → Books k new_server
new_server-Books k = record {
  is_set = unfold IsSetOf in tt;
  no_listener = unfold member in refl;
  held = λ c other. unfold member in refl;
  balance = λ c. refl;
  told = λ c. refl;
}
