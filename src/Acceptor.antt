-- ===== src/Acceptor.antt =====
-- TcpNewConnectionAcceptor.h and TcpNewConnectionAcceptor.cpp: what the acceptor's loop does with a
-- connection, and the acceptor's own state.
pub mod Accepted
mod Tests
use tcpserver_lib.Base.{
  ℕ, Bool, true, false, not, Option, none, some, List, [], ◌∷◌, ◌++◌, Outcome, ok, stop, ◌>>=◌,
  ◌>>◌, assert, ◌==◌, if◌then◌else◌,
}
use tcpserver_lib.Demarcar.{instantiate, demarcar_none}
use tcpserver_lib.Client.{
  TcpClient, Heap, update, modify, set_state, connected, passive_opener, via_accept,
}
use tcpserver_lib.Client.Connect.{send_msg}
use tcpserver_lib.Controller.{TcpServerController, with_heap}
use tcpserver_lib.Controller.Queue.{
  MsgCode, TcpServerMsg, enque_msg, tcp_client_process_new, tcp_client_multiplex_listen,
  tcp_client_delete, tcp_client_mx_to_multithreaded, tcp_client_multithreaded_to_mx,
  tcp_client_create_threaded, tcp_client_active_connect_success, tcp_client_reconnect,
}

-- The thread pointer is `true` if it is not null.
pub record TcpNewConnectionAcceptor : Type 0 where
  pub accept_fd : ℕ
  pub accept_new_conn_thread : Bool
  pub accept_new_conn : Bool

-- What `accept` returns, in the host's byte order, the address that `new` returns and what the memory
-- there holds, the server's own address and port, and what `sendto` returns for the welcome.
pub record Incoming : Type 0 where
  pub comm_socket_fd : ℕ
  pub client_ip_addr : ℕ
  pub client_port_no : ℕ
  pub fresh : ℕ
  pub indeterminate : TcpClient
  pub own_ip_addr : ℕ
  pub own_port_no : ℕ
  pub welcomed : Option ℕ

-- The server, its message queue, and the descriptors that have been closed.
pub record Accepting : Type 0 where
  pub ctrlr : TcpServerController
  pub msg_q : List TcpServerMsg
  pub closed : List ℕ

abbrev pub accepted_client : Incoming → TcpClient
accepted_client conn = record conn.indeterminate {
  ref_count = 0;
  comm_fd = conn.comm_socket_fd;
  ip_addr = conn.client_ip_addr;
  port_no = conn.client_port_no;
  server_ip_addr = conn.own_ip_addr;
  server_port_no = conn.own_port_no;
}

-- CTRLR_ACTION_TCP_CLIENT_PROCESS_NEW and the way of serving.
abbrev pub new_code : Bool → MsgCode → Bool
new_code multi tcp_client_process_new = true
new_code multi tcp_client_multiplex_listen = not multi
new_code multi tcp_client_create_threaded = multi
new_code multi tcp_client_delete = false
new_code multi tcp_client_mx_to_multithreaded = false
new_code multi tcp_client_multithreaded_to_mx = false
new_code multi tcp_client_active_connect_success = false
new_code multi tcp_client_reconnect = false

unfoldable pub admit : Incoming → Accepting → Outcome Accepting
admit conn w = do
  let p = conn.fresh
  h ← set_state p connected (update w.ctrlr.svc.heap p (some (accepted_client conn)))
  h ← set_state p passive_opener h
  h ← modify p (λ c. record c { conn_type = via_accept }) h
  (sent, h) ← send_msg conn.welcomed p h
  h ← modify p (λ c. record c { msgd = instantiate demarcar_none 0 }) h
  ok (record w {
    ctrlr = with_heap h w.ctrlr;
    msg_q = enque_msg (new_code w.ctrlr.create_multi_threaded_client) p none w.msg_q;
  })

-- A round of the loop; `none` is a failure of `accept`.
unfoldable pub accept_round :
    TcpNewConnectionAcceptor → Option Incoming → Accepting → Outcome Accepting
accept_round acc none w = ok w
accept_round acc (some conn) w =
    if not acc.accept_new_conn
    then ok (record w { closed = w.closed ++ (conn.comm_socket_fd ∷ []) })
    else admit conn w

unfoldable pub set_accept_new_connection_status :
    Bool → TcpNewConnectionAcceptor → TcpNewConnectionAcceptor
set_accept_new_connection_status status acc = record acc { accept_new_conn = status }

-- `Stop`, up to the deletion of the acceptor, whose destructor makes the assertions.
unfoldable pub stop_acceptor : TcpNewConnectionAcceptor → Outcome TcpNewConnectionAcceptor
stop_acceptor acc0 = do
  let acc = record acc0 { accept_new_conn_thread = false; accept_fd = 0 }
  assert (acc.accept_fd == 0)
  assert (not acc.accept_new_conn_thread)
  ok acc
