-- ===== src/SvcMgr/Tests.antt =====
-- The service manager with one client.
use tcpserver_lib.Base.{ℕ, refl, true, false, [], ◌∷◌, arith, Returns, ◌≡◌, stop, past_end}
use tcpserver_lib.Client.{TcpClient}
use tcpserver_lib.Client.Tests.{client, only, only-RefCounted, only-SmallFds}
use tcpserver_lib.Db.{ClientDb}
use tcpserver_lib.Db.Refs.{RefCounted-cong}
use tcpserver_lib.Db.Tests.{single}
use tcpserver_lib.SvcMgr.Stop.{stop_svc-past_end}
use tcpserver_lib.SvcMgr.{
  stop_svc, TcpClientServiceManager, client_fd_start_listen_simple, client_fd_stop_listen_simple,
}
use tcpserver_lib.SvcMgr.Listen.{
  Counted, Serves, client_fd_start_listen_simple-Serves, client_fd_stop_listen_simple-Serves,
}

-- The server's database has the client, and the service manager serves these.
abbrev manager : TcpClient → ClientDb → TcpClientServiceManager
manager c db = record {
  heap = only c;
  server_db = 7 ∷ [];
  not_listening_clients = false;
  tcp_client_db = db;
  client_svc_mgr_thread = true;
  max_fd = 0;
  backup_fd_set = [];
}

abbrev nobody : ℕ → ℕ
nobody q = 0

manager-Counted : Counted nobody (manager (client 1 false false) [])
manager-Counted =
    RefCounted-cong (only (client 1 false false)) _ _
      (only-RefCounted (client 1 false false) 1 refl) (λ q. omega (arith, single q))

serving-Counted : Counted nobody (manager (client 2 false false) (7 ∷ []))
serving-Counted =
    RefCounted-cong (only (client 2 false false)) _ _
      (only-RefCounted (client 2 false false) 2 refl) (λ q. ground (arith, single q))

client_fd_start_listen_simple-Serves_example :
    Returns
      (Serves nobody (7 ∷ []) (7 ∷ 7 ∷ []))
      (client_fd_start_listen_simple 7 (manager (client 1 false false) []))
client_fd_start_listen_simple-Serves_example =
    client_fd_start_listen_simple-Serves nobody (manager (client 1 false false) []) 7
      (client 1 false false) manager-Counted (only-SmallFds (client 1 false false) (omega arith))
      refl refl refl

client_fd_stop_listen_simple-Serves_example :
    Returns
      (Serves nobody (7 ∷ []) (7 ∷ []))
      (client_fd_stop_listen_simple 7 (manager (client 2 false false) (7 ∷ [])))
client_fd_stop_listen_simple-Serves_example =
    client_fd_stop_listen_simple-Serves nobody (manager (client 2 false false) (7 ∷ [])) 7
      (client 2 false false) serving-Counted (only-SmallFds (client 2 false false) (omega arith))
      refl refl refl (λ z. absurd (omega (arith, z)))

stop_svc-past_end_example : stop_svc (manager (client 2 false false) (7 ∷ [])) ≡ stop past_end
stop_svc-past_end_example =
    stop_svc-past_end nobody (manager (client 2 false false) (7 ∷ [])) serving-Counted
      (λ q. ground (arith, single q))
