-- ===== src/Controller/Tests.antt =====
-- A server that takes in its first client.
use tcpserver_lib.Base.{some, ◌+◌, ◌≡◌, stop, memory, assertion}
use tcpserver_lib.Client.{TcpClient, assign, passive_opener}
use tcpserver_lib.Client.Heap.{RefCounted}
use tcpserver_lib.Client.Tests.{no_flags}
use tcpserver_lib.Db.Refs.{count}
use tcpserver_lib.Controller.{process_client_delete}
use tcpserver_lib.Controller.Queue.{enque_msg}
use tcpserver_lib.Controller.Delete.{Deleted, IsThreaded, process_client_delete-Deleted}
use tcpserver_lib.Controller.Stale.{process_msg_q-stale_sema}
use tcpserver_lib.Client.Connect.{refused}
use tcpserver_lib.Controller.Active.{create_active_client-uninitialised}
use tcpserver_lib.Controller.Freed.{process_msg_q-use_after_free}
use tcpserver_lib.Controller.Queue.{
  Surroundings, TcpServerMsg, MsgCode, tcp_client_delete, tcp_client_mx_to_multithreaded,
  tcp_client_multithreaded_to_mx, tcp_client_reconnect, tcp_client_process_new,
  tcp_client_multiplex_listen, tcp_client_create_threaded, tcp_client_active_connect_success,
  create_active_client, process_msg_q,
}
use tcpserver_lib.Base.{
  Bool, true, none, List, ℕ, refl, false, [], ◌∷◌, Returns, ◌==◌, if◌then◌else◌, arith,
}
use tcpserver_lib.Client.Tests.{client, only, only-RefCounted, only-SmallFds}
use tcpserver_lib.Db.Refs.{RefCounted-cong}
use tcpserver_lib.SvcMgr.Listen.{Counted, Serves}
use tcpserver_lib.Controller.{TcpServerController, process_new_client}
use tcpserver_lib.Controller.NewClient.{process_new_client-Serves}

-- Someone holds the client 7, which is in no list yet.
abbrev server : TcpServerController
server = record {
  svc = record {
    heap = only (client 1 false false);
    server_db = [];
    not_listening_clients = false;
    tcp_client_db = [];
    client_svc_mgr_thread = false;
    max_fd = 0;
    backup_fd_set = [];
  };
  create_multi_threaded_client = false;
  established_client = [];
  connect_pending_clients = [];
}

abbrev holder : ℕ → ℕ
holder q = if q == 7 then 1 else 0

server-Counted : Counted holder server.svc
server-Counted =
    RefCounted-cong (only (client 1 false false)) _ _
      (only-RefCounted (client 1 false false) 1 refl) (λ q. omega arith)

process_new_client-Serves_example :
    Returns (λ s'. Serves holder (7 ∷ []) (7 ∷ 7 ∷ []) s'.svc) (process_new_client 7 server)
process_new_client-Serves_example =
    process_new_client-Serves holder server 7 (client 1 false false) server-Counted
      (only-SmallFds (client 1 false false) (omega arith)) refl refl refl refl refl

-- An active connect at the address 9, in memory that holds zeros.
abbrev surroundings : Surroundings
surroundings = record {
  fresh = 9;
  indeterminate = record (client 0 false false) { comm_fd = 0 };
  own_ip_addr = 5;
  socket = 4;
  attempt = refused;
}

-- The memory for the new client holds a descriptor that is not 0.
abbrev unclean : Surroundings
unclean = record surroundings { indeterminate = client 0 false false }

create_active_client-uninitialised_example :
    create_active_client unclean 6 80 server ≡ stop assertion
create_active_client-uninitialised_example =
    create_active_client-uninitialised unclean 6 80 server refl

-- What the acceptor enqueues for a new client.
abbrev new_client : TcpServerMsg
new_client = record { code = is_new; data_client = 7; zero_sema = none }
  where
    is_new : MsgCode → Bool
    is_new tcp_client_process_new = true
    is_new tcp_client_multiplex_listen = true
    is_new tcp_client_delete = false
    is_new tcp_client_mx_to_multithreaded = false
    is_new tcp_client_multithreaded_to_mx = false
    is_new tcp_client_create_threaded = false
    is_new tcp_client_active_connect_success = false
    is_new tcp_client_reconnect = false

process_msg_q-use_after_free_example : ¬ (
    Returns {A = List ℕ × TcpServerController}
      (λ _. Unit {0})
      (process_msg_q (λ i. surroundings) 0 (new_client ∷ []) server))
process_msg_q-use_after_free_example =
    process_msg_q-use_after_free (λ i. surroundings) 0 new_client [] server refl refl refl

-- An accepted client with a thread, in the database.
abbrev served_client : TcpClient
served_client = record (client 2 true false) { state_flags = assign passive_opener true no_flags }

abbrev serving : TcpServerController
serving = record server {
  svc = record server.svc { heap = only served_client; server_db = 7 ∷ [] };
  create_multi_threaded_client = true;
}

abbrev nobody : ℕ → ℕ
nobody q = 0

serving-RefCounted : RefCounted serving.svc.heap (λ q. nobody q + count q serving.svc.server_db)
serving-RefCounted =
    RefCounted-cong (only served_client) _ _ (only-RefCounted served_client 1 refl)
      (λ q. ground arith)

serving-IsThreaded : IsThreaded serving 7 served_client
serving-IsThreaded = record {
  live = refl;
  thread = refl;
  connector = refl;
  passive = refl;
  not_active = refl;
  unlisted = refl;
  listed = refl;
}

process_client_delete-Deleted_example :
    Returns (Deleted 7 serving) (process_client_delete 7 serving)
process_client_delete-Deleted_example =
    process_client_delete-Deleted nobody serving 7 served_client serving-RefCounted refl
      serving-IsThreaded

abbrev only_delete : MsgCode → Bool
only_delete tcp_client_process_new = false
only_delete tcp_client_multiplex_listen = false
only_delete tcp_client_delete = true
only_delete tcp_client_mx_to_multithreaded = false
only_delete tcp_client_multithreaded_to_mx = false
only_delete tcp_client_create_threaded = false
only_delete tcp_client_active_connect_success = false
only_delete tcp_client_reconnect = false

process_msg_q-stale_sema_example :
    Returns (Deleted 7 serving) (process_client_delete 7 serving)
    × (process_msg_q
          (λ i. surroundings)
          0
          (enque_msg only_delete 7 (some (record { sem = 3; caller = some 7 })) [])
          serving
        ≡ stop memory)
process_msg_q-stale_sema_example =
    process_msg_q-stale_sema (λ i. surroundings) 0 only_delete 3 nobody [] serving 7 served_client
      refl serving-RefCounted refl serving-IsThreaded
