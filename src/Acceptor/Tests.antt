-- ===== src/Acceptor/Tests.antt =====
-- A server that accepts its first connection.
use tcpserver_lib.Base.{true, false, none, some, [], Returns}
use tcpserver_lib.Client.Tests.{client}
use tcpserver_lib.Acceptor.{TcpNewConnectionAcceptor, Incoming, Accepting, accept_round}
use tcpserver_lib.Acceptor.Accepted.{Round, accept_round-Round}

abbrev acceptor : TcpNewConnectionAcceptor
acceptor = record { accept_fd = 3; accept_new_conn_thread = true; accept_new_conn = true }

-- The object gets the address 7, in memory that holds zeros; the welcome is sent whole.
abbrev incoming : Incoming
incoming = record {
  comm_socket_fd = 5;
  client_ip_addr = 10;
  client_port_no = 20;
  fresh = 7;
  indeterminate = client 0 false false;
  own_ip_addr = 30;
  own_port_no = 40;
  welcomed = some 8;
}

abbrev empty_server : Accepting
empty_server = record {
  ctrlr = record {
    svc = record {
      heap = λ _. none;
      server_db = [];
      not_listening_clients = false;
      tcp_client_db = [];
      client_svc_mgr_thread = false;
      max_fd = 0;
      backup_fd_set = [];
    };
    create_multi_threaded_client = false;
    established_client = [];
    connect_pending_clients = [];
  };
  msg_q = [];
  closed = [];
}

accept_round-Round_example :
    Returns (Round true incoming empty_server) (accept_round acceptor (some incoming) empty_server)
accept_round-Round_example = accept_round-Round acceptor incoming empty_server
