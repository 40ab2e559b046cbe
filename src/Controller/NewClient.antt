-- ===== src/Controller/NewClient.antt =====
-- `ProcessNewClient`: what the lists and the references are after a client has been taken in.
use tcpserver_lib.Base.{
  ℕ, ◌+◌, ◌≡◌, refl, sym, ap, ap₂, ◌∙◌, false, Option, none, some, [], ◌∷◌, ◌++◌, arith, ok,
  Returns, Returns-both, Returns-bind, Returns-Post,
}
use mathlib.Core.Path.{subst}
use tcpserver_lib.Client.{TcpClient, Heap, reference}
use tcpserver_lib.Client.Heap.{RefCounted, one, reference-RefCounted, one_self}
use tcpserver_lib.Client.Fds.{SmallFds}
use tcpserver_lib.Db.Fds.{add_client_to_db-SmallFds}
use tcpserver_lib.Db.{ClientDb, look_up_client_db, add_client_to_db}
use tcpserver_lib.Db.Refs.{count, count-append, RefCounted-cong, live_lem}
use tcpserver_lib.Db.Lookup.{SameKeys, key, look_up-SameKeys, reference-SameKeys}
use tcpserver_lib.SvcMgr.{client_fd_start_listen_simple}
use tcpserver_lib.SvcMgr.Listen.{Counted, Serves, client_fd_start_listen_simple-Serves}
use tcpserver_lib.Controller.{TcpServerController, process_new_client, start_listen}

-- What adding leaves of the list and the heap.
abbrev Added : (ℕ → ℕ) → ℕ → ClientDb → Heap → ClientDb × Heap → Type 0
Added n p db h (db', h') =
    (db' ≡ db ++ (p ∷ [])) × RefCounted h' (λ q. n q + count q db') × SameKeys h h'

add_client_to_db-Added :
    (n : ℕ → ℕ) (p : ℕ) (db : ClientDb) (h : Heap) (c : TcpClient)
    → RefCounted h (λ q. n q + count q db)
    → h p ≡ some c
    → look_up_client_db c.ip_addr c.port_no db h ≡ ok none
    → Returns (Added n p db h) (add_client_to_db p db h)
unfolding add_client_to_db
add_client_to_db-Added n p db h c counted live fresh =
    rw (live, fresh)
      (Returns-bind (λ h'. RefCounted h' (λ q. n q + count q db + one p q) × SameKeys h h') _
        (reference p h) _
        (Returns-both _ _ (reference p h)
          (reference-RefCounted h (λ q. n q + count q db) p c counted live)
          (reference-SameKeys p h c live))
        (λ h' (r, same).
          (refl, RefCounted-cong h' _ _ r (λ q. omega (arith, count-append q db (p ∷ []))), same)))

-- The client's key is that of the object before.
same_key :
    (h h' : Heap) (p : ℕ) (c d : TcpClient)
    → SameKeys h h'
    → h p ≡ some c
    → h' p ≡ some d
    → (c.ip_addr ≡ d.ip_addr) × (c.port_no ≡ d.port_no)
same_key h h' p c d same live live' =
    let e : some (c.ip_addr, c.port_no) ≡ some (d.ip_addr, d.port_no) =
      sym (ap key live) ∙ same p ∙ ap key live' in
    (ap ip e, ap port e)
  where
    ip : Option (ℕ × ℕ) → ℕ
    ip none = 0
    ip (some (a, b)) = a

    port : Option (ℕ × ℕ) → ℕ
    port none = 0
    port (some (a, b)) = b

-- A server that does not create threaded clients and whose service manager listens takes in a live
-- client whose address and port no client of the database or of the manager's list has, with all
-- references accounted for and every object's descriptor below FD_SETSIZE. Then `ProcessNewClient`
-- succeeds: the database ends with the client, the manager's list is the old one, the client, and
-- then the whole new database, so that the client is in it twice; all references are accounted for,
-- the thread runs, and no watched descriptor is above `max_fd`.
pub process_new_client-Serves :
    (n : ℕ → ℕ) (s : TcpServerController) (p : ℕ) (c : TcpClient)
    → Counted n s.svc
    → SmallFds s.svc.heap
    → s.svc.heap p ≡ some c
    → s.create_multi_threaded_client ≡ false
    → s.svc.not_listening_clients ≡ false
    → look_up_client_db c.ip_addr c.port_no s.svc.server_db s.svc.heap ≡ ok none
    → look_up_client_db c.ip_addr c.port_no s.svc.tcp_client_db s.svc.heap ≡ ok none
    → Returns
        (λ s'.
          Serves n
            (s.svc.server_db ++ (p ∷ []))
            ((s.svc.tcp_client_db ++ (p ∷ [])) ++ (s.svc.server_db ++ (p ∷ [])))
            s'.svc)
        (process_new_client p s)
unfolding process_new_client start_listen
process_new_client-Serves n s p c counted small_fds live single listening fresh unserved =
    let list = s.svc.tcp_client_db in
    Returns-bind
      (λ (db, h). Added (λ q. n q + count q list) p s.svc.server_db s.svc.heap (db, h) × SmallFds h)
      _ (add_client_to_db p s.svc.server_db s.svc.heap) _
      (Returns-Post {A = ClientDb × Heap}
        (Added (λ q. n q + count q list) p s.svc.server_db s.svc.heap) (λ (db, h). SmallFds h) _
        (add_client_to_db-Added (λ q. n q + count q list) p s.svc.server_db s.svc.heap c
          (RefCounted-cong s.svc.heap _ _ counted (λ q. omega arith)) live fresh)
        (add_client_to_db-SmallFds p s.svc.server_db s.svc.heap small_fds))
      (λ (db, h) ((e, r, same), small).
        let (d, live') =
          live_lem h (λ q. n q + count q list + count q db) p r
            (λ z. absurd (
              omega
                (arith, z, ap (count p) e, count-append p s.svc.server_db (p ∷ []), one_self p))) in
        let k = same_key s.svc.heap h p c d same live live' in
        let unserved' : look_up_client_db d.ip_addr d.port_no list h ≡ ok none =
          ap₂ (λ i j. look_up_client_db i j list h) (sym k.0) (sym k.1)
          ∙ sym (look_up-SameKeys c.ip_addr c.port_no list s.svc.heap h same)
          ∙ unserved in
        simp single (
          Returns-bind (Serves n db ((list ++ (p ∷ [])) ++ db)) _
            (client_fd_start_listen_simple p (record s.svc { heap = h; server_db = db })) _
            (client_fd_start_listen_simple-Serves n (record s.svc { heap = h; server_db = db }) p d
              (RefCounted-cong h _ _ r (λ q. omega arith)) small live' listening unserved')
            (λ svc' sv. subst (λ t. Serves n t ((list ++ (p ∷ [])) ++ t) svc') e sv)))
