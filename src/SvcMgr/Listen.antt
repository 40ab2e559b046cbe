-- ===== src/SvcMgr/Listen.antt =====
-- Adding and removing clients that the thread serves, and the references that its list holds.
use tcpserver_lib.Base.{
  ℕ, ◌+◌, ◌≤◌, ◌≡◌, refl, ap, ◌∙◌, true, false, none, some, [], ◌∷◌, ◌++◌, arith, ok, Returns,
  Returns-mono, Returns-bind, Returns-result, Returns-Post, All,
}
use tcpserver_lib.Client.{
  TcpClient, Heap, StateBit, reference, set_state, unset_state, multiplex_listen,
}
use tcpserver_lib.Client.Heap.{RefCounted, one_self, reference-RefCounted, modify-RefCounted}
use tcpserver_lib.Db.{
  ClientDb, remove, look_up_client_db, copy_all_clients_to_list, remove_client_from_db,
}
use tcpserver_lib.Client.Fds.{
  SmallFds, reference-SmallFds, set_state-SmallFds, unset_state-SmallFds,
}
use tcpserver_lib.Db.Fds.{copy_all_clients_to_list-SmallFds, remove_client_from_db-SmallFds}
use tcpserver_lib.Db.Lookup.{look_up-hit}
use tcpserver_lib.Db.Refs.{
  count, count-append, RefCounted-cong, live_lem, copy_all_clients_to_list-RefCounted,
  remove_client_from_db-RefCounted, count-remove_self,
}
use tcpserver_lib.SvcMgr.{
  TcpClientServiceManager, start_internal_simple, start_svc_thread, client_fd_start_listen_simple,
  client_fd_stop_listen_simple, get_max_fd_simple, copy_client_fd_to_fd_set,
}
use tcpserver_lib.SvcMgr.Fds.{max_fd_lem}

-- The references to each client are `n` others, one for each entry of the server's database, and
-- one for each entry of the service manager's list.
abbrev pub Counted : (ℕ → ℕ) → TcpClientServiceManager → Type 0
Counted n s = RefCounted s.heap (λ q. n q + count q s.server_db + count q s.tcp_client_db)

-- The thread runs with this list, all references are accounted for, and no descriptor that it
-- waits for is above the limit given to `select`.
abbrev pub Serves : (ℕ → ℕ) → ClientDb → ClientDb → TcpClientServiceManager → Type 0
Serves n server_db list s =
    Counted n s
    × (s.server_db ≡ server_db)
    × (s.tcp_client_db ≡ list)
    × (s.client_svc_mgr_thread ≡ true)
    × All (λ fd. fd ≤ s.max_fd) s.backup_fd_set

-- If the service manager listens and all references are accounted for, starting its thread succeeds:
-- the server's whole database is appended to its list, all references are accounted for, and no
-- watched descriptor is above `max_fd`.
pub start_svc_thread-Serves :
    (n : ℕ → ℕ) (s : TcpClientServiceManager)
    → Counted n s
    → SmallFds s.heap
    → s.not_listening_clients ≡ false
    → Returns (Serves n s.server_db (s.tcp_client_db ++ s.server_db)) (start_svc_thread s)
unfolding start_svc_thread start_internal_simple
start_svc_thread-Serves n s counted small_fds listening =
    let ((list, h), e, ((same, after), small_after)) =
      Returns-result _ (copy_all_clients_to_list s.server_db s.tcp_client_db s.heap) (
        Returns-Post {A = ClientDb × Heap}
          (λ (list, h).
            (list ≡ s.tcp_client_db ++ s.server_db)
            × RefCounted h (λ q. n q + count q s.server_db + count q list))
          (λ (list, h). SmallFds h) _
          (copy_all_clients_to_list-RefCounted s.heap (λ q. n q + count q s.server_db) s.server_db
            s.tcp_client_db counted (λ q. omega arith))
          (copy_all_clients_to_list-SmallFds s.server_db s.tcp_client_db s.heap small_fds)) in
    let (top, e_top, (_, small)) = Returns-result _ (get_max_fd_simple list h) (
      max_fd_lem h (λ q. n q + count q s.server_db + count q list) 0 list after (λ q. omega arith)
        small_after) in
    rw (listening, e, e_top)
      (Returns-bind (All (λ fd. fd ≤ top)) _ (copy_client_fd_to_fd_set list h) _ small
        (λ fds le. (after, refl, same, refl, le)))

set_state-RefCounted :
    (h : Heap) (n : ℕ → ℕ) (p : ℕ) (bit : StateBit)
    → RefCounted h n
    → (n p ≡ 0 → ⊥)
    → Returns (λ h'. RefCounted h' n) (set_state p bit h)
unfolding set_state
set_state-RefCounted h n p bit counted held =
    let (c, live) = live_lem h n p counted held in
    modify-RefCounted h n p c _ counted live refl refl

pub unset_state-RefCounted :
    (h : Heap) (n : ℕ → ℕ) (p : ℕ) (bit : StateBit)
    → RefCounted h n
    → (n p ≡ 0 → ⊥)
    → Returns (λ h'. RefCounted h' n) (unset_state p bit h)
unfolding unset_state
unset_state-RefCounted h n p bit counted held =
    let (c, live) = live_lem h n p counted held in
    modify-RefCounted h n p c _ counted live refl refl

-- The service manager listens, all references are accounted for, every object's descriptor is below
-- FD_SETSIZE, and no client of its list has the address and port of the given live client. Then
-- `ClientFDStartListenSimple` succeeds: the list is extended by the client and by the server's whole
-- database, all references are accounted for, the thread runs, and no watched descriptor is above
-- `max_fd`.
pub client_fd_start_listen_simple-Serves :
    (n : ℕ → ℕ) (s : TcpClientServiceManager) (p : ℕ) (c : TcpClient)
    → Counted n s
    → SmallFds s.heap
    → s.heap p ≡ some c
    → s.not_listening_clients ≡ false
    → look_up_client_db c.ip_addr c.port_no s.tcp_client_db s.heap ≡ ok none
    → Returns
        (Serves n s.server_db ((s.tcp_client_db ++ (p ∷ [])) ++ s.server_db))
        (client_fd_start_listen_simple p s)
unfolding client_fd_start_listen_simple
client_fd_start_listen_simple-Serves n s p c counted small_fds live listening fresh =
    let refs : ℕ → ℕ = λ q. n q + count q s.server_db + count q (s.tcp_client_db ++ (p ∷ [])) in
    rw (listening, live, fresh)
      (Returns-bind (λ h. RefCounted h refs × SmallFds h) _ (reference p s.heap) _
        (Returns-Post (λ h. RefCounted h refs) SmallFds (reference p s.heap)
          (Returns-mono _ _ (reference p s.heap) (reference-RefCounted s.heap _ p c counted live)
            (λ h r.
              RefCounted-cong h _ _ r
                (λ q. omega (arith, count-append q s.tcp_client_db (p ∷ [])))))
          (reference-SmallFds p s.heap small_fds))
        (λ h (r, small1).
          Returns-bind (λ h. RefCounted h refs × SmallFds h) _ (set_state p multiplex_listen h) _
            (Returns-Post (λ h. RefCounted h refs) SmallFds (set_state p multiplex_listen h)
              (set_state-RefCounted h refs p multiplex_listen r (λ z.
                absurd (omega (arith, z, one_self p, count-append p s.tcp_client_db (p ∷ [])))))
              (set_state-SmallFds p multiplex_listen h small1))
            (λ h' (r', small2).
              start_svc_thread-Serves n
                (record s {
                  heap = h';
                  not_listening_clients = false;
                  client_svc_mgr_thread = false;
                  tcp_client_db = s.tcp_client_db ++ (p ∷ []);
                })
                r' small2 refl)))

-- The service manager listens, all references are accounted for, every object's descriptor is below
-- FD_SETSIZE, the live client is once in the manager's list, and someone else holds a reference to
-- it. Then `ClientFDStopListenSimple` succeeds: the list becomes what is left after removing the
-- client, followed by the server's whole database, all references are again accounted for, the
-- thread runs, and no watched descriptor is above `max_fd`.
pub client_fd_stop_listen_simple-Serves :
    (n : ℕ → ℕ) (s : TcpClientServiceManager) (p : ℕ) (c : TcpClient)
    → Counted n s
    → SmallFds s.heap
    → s.heap p ≡ some c
    → s.not_listening_clients ≡ false
    → count p s.tcp_client_db ≡ 1
    → (n p + count p s.server_db ≡ 0 → ⊥)
    → Returns
        (Serves n s.server_db (remove p s.tcp_client_db ++ s.server_db))
        (client_fd_stop_listen_simple p s)
unfolding client_fd_stop_listen_simple
client_fd_stop_listen_simple-Serves n s p c counted small_fds live listening once held =
    let (found, hit) =
      look_up-hit s.heap (λ q. n q + count q s.server_db + count q s.tcp_client_db) p c
        s.tcp_client_db counted (λ q. omega arith) live (omega (arith, once)) in
    let refs : ℕ → ℕ = λ q. n q + count q s.server_db in
    rw (listening, live, hit)
      (Returns-bind
        (λ (db, h).
          ((db ≡ remove p s.tcp_client_db) × RefCounted h (λ q. refs q + count q db)) × SmallFds h)
        _ (remove_client_from_db p s.tcp_client_db s.heap) _
        (Returns-Post {A = ClientDb × Heap}
          (λ (db, h). (db ≡ remove p s.tcp_client_db) × RefCounted h (λ q. refs q + count q db))
          (λ (db, h). SmallFds h) _
          (remove_client_from_db-RefCounted s.heap refs p s.tcp_client_db counted once)
          (remove_client_from_db-SmallFds p s.tcp_client_db s.heap small_fds))
        (λ (db, h) ((same, r), small1).
          Returns-bind (λ h. RefCounted h (λ q. refs q + count q db) × SmallFds h) _
            (unset_state p multiplex_listen h) _
            (Returns-Post (λ h. RefCounted h (λ q. refs q + count q db)) SmallFds
              (unset_state p multiplex_listen h)
              (unset_state-RefCounted h (λ q. refs q + count q db) p multiplex_listen r
                (λ z. held (omega (arith, z))))
              (unset_state-SmallFds p multiplex_listen h small1))
            (λ h' (r', small2).
              let stopped = record s {
                heap = h';
                not_listening_clients = false;
                client_svc_mgr_thread = false;
                tcp_client_db = db;
              } in
              Returns-mono (Serves n s.server_db (db ++ s.server_db)) _ (start_svc_thread stopped)
                (start_svc_thread-Serves n stopped r' small2 refl)
                (λ s' (all, kept, list, runs, small).
                  (all, kept, list ∙ ap (λ t. t ++ s.server_db) same, runs, small)))))

-- Under the conditions of `client_fd_stop_listen_simple-Serves`, after `ClientFDStopListenSimple`
-- the client is in the manager's list as often as it is in the server's database: a client that the
-- database still has is still served.
pub client_fd_stop_listen_simple-still_serves :
    (n : ℕ → ℕ) (s : TcpClientServiceManager) (p : ℕ) (c : TcpClient)
    → Counted n s
    → SmallFds s.heap
    → s.heap p ≡ some c
    → s.not_listening_clients ≡ false
    → count p s.tcp_client_db ≡ 1
    → (n p + count p s.server_db ≡ 0 → ⊥)
    → Returns
        (λ s'. count p s'.tcp_client_db ≡ count p s.server_db)
        (client_fd_stop_listen_simple p s)
client_fd_stop_listen_simple-still_serves n s p c counted small_fds live listening once held =
    Returns-mono _ _ (client_fd_stop_listen_simple p s)
      (client_fd_stop_listen_simple-Serves n s p c counted small_fds live listening once held)
      (λ s' (_, _, list, _, _). omega (
        arith,
        ap (count p) list,
        count-append p (remove p s.tcp_client_db) s.server_db,
        count-remove_self p s.tcp_client_db,
      ))
