-- ===== src/Controller/Queue.antt =====
-- TcpServerController.cpp: the message queue, and the active connects that a message can start.
use tcpserver_lib.Base.{
  ℕ, suc, Bool, true, false, not, ◌&&◌, Option, none, some, List, [], ◌∷◌, ◌++◌, Outcome, ok, stop,
  memory, ◌>>=◌, ◌>>◌, deref, assert, ◌==◌, if◌then◌else◌,
}
use tcpserver_lib.Client.{
  TcpClient, Heap, update, is_state_set, set_state, connected, connect_in_progress, passive_opener,
  active_opener, multiplex_listen, threaded, via_connect, reference, stop_thread,
}
use tcpserver_lib.Client.Connect.{
  ConnectResult, done, given_up, retrying, Attempt, try_client_connect,
}
use tcpserver_lib.Db.{ClientDb, add_client_to_db, remove}
use tcpserver_lib.Controller.{
  TcpServerController, with_heap, create_threaded, start_listen, process_client_delete, leave_svc,
}

-- The bits of `tcp_server_msg_code_t`.
pub data MsgCode : Type 0 where
  tcp_client_process_new tcp_client_multiplex_listen tcp_client_delete
        tcp_client_mx_to_multithreaded :
      MsgCode
  tcp_client_multithreaded_to_mx tcp_client_create_threaded tcp_client_active_connect_success
        tcp_client_reconnect :
      MsgCode

-- The semaphore of a caller that waits. It is on the stack of the caller's thread: that of a client,
-- or one that nothing here ends.
pub record Sema : Type 0 where
  pub sem : ℕ
  pub caller : Option ℕ

-- `TcpServerMsg_t`: which bits are set, the client, and the semaphore of a caller that waits.
pub record TcpServerMsg : Type 0 where
  pub code : MsgCode → Bool
  pub data_client : ℕ
  pub zero_sema : Option Sema

-- What an active connect finds: the address that `new` returns, what the memory there holds, the
-- server's own address, the new socket, and what `connect` comes to.
pub record Surroundings : Type 0 where
  pub fresh : ℕ
  pub indeterminate : TcpClient
  pub own_ip_addr : ℕ
  pub socket : ℕ
  pub attempt : Attempt

-- `EnqueMsg` on the queue, up to the wait of the caller.
unfoldable pub enque_msg :
    (MsgCode → Bool) → ℕ → Option Sema → List TcpServerMsg → List TcpServerMsg
enque_msg code p none msg_q =
    msg_q ++ (record { code = code; data_client = p; zero_sema = none } ∷ [])
enque_msg code p (some sem) msg_q =
    record { code = code; data_client = p; zero_sema = some sem } ∷ msg_q

abbrev pub serve_established : ℕ → TcpServerController → Outcome TcpServerController
serve_established p s =
    if s.create_multi_threaded_client then create_threaded p s else start_listen p s

-- The client moves from one list to the other, which keeps its reference.
abbrev pub establish : ℕ → TcpServerController → TcpServerController
establish p s = record s {
  connect_pending_clients = remove p s.connect_pending_clients;
  established_client = s.established_client ++ (p ∷ []);
}

-- `new TcpClient()` and the assignments of `CreateActiveClient`.
abbrev pub new_active_client : Surroundings → (server_ip_addr server_port_no : ℕ) → TcpClient
new_active_client env server_ip_addr server_port_no = record env.indeterminate {
  ref_count = 0;
  server_ip_addr = server_ip_addr;
  server_port_no = server_port_no;
  ip_addr = env.own_ip_addr;
  port_no = 0;
  msgd = none;
  conn_type = via_connect;
}

unfoldable pub create_active_client :
    Surroundings
    → (server_ip_addr server_port_no : ℕ) → TcpServerController
    → Outcome TcpServerController
create_active_client env server_ip_addr server_port_no s = do
  let p = env.fresh
  h ←
      set_state p active_opener
        (update s.svc.heap p (some (new_active_client env server_ip_addr server_port_no)))
  h ← reference p h
  let s = record (with_heap h s) { connect_pending_clients = s.connect_pending_clients ++ (p ∷ []) }
  (result, h) ← try_client_connect env.socket env.attempt p true h
  connected_now result p (with_heap h s)
  where
    connected_now : ConnectResult → ℕ → TcpServerController → Outcome TcpServerController
    connected_now done p s' = serve_established p (establish p s')
    connected_now given_up p s' = ok s'
    connected_now retrying p s' = ok s'

-- A step that a bit of the code asks for.
abbrev pub on :
    Bool
    → (TcpServerController → Outcome TcpServerController)
    → TcpServerController
    → Outcome TcpServerController
on false f s = ok s
on true f s = f s

unfoldable pub reconnect : Surroundings → ℕ → TcpServerController → Outcome TcpServerController
reconnect env p s = do
  c ← deref (s.svc.heap p)
  s ← process_client_delete p s
  create_active_client env c.server_ip_addr c.server_port_no s

unfoldable pub enter_db : ℕ → TcpServerController → Outcome TcpServerController
enter_db p s = do
  (db, h) ← add_client_to_db p s.svc.server_db s.svc.heap
  ok (record s { svc = record s.svc { heap = h; server_db = db } })

unfoldable pub listen_first : ℕ → TcpServerController → Outcome TcpServerController
listen_first p s = do
  listened ← is_state_set p multiplex_listen s.svc.heap
  assert (not listened)
  start_listen p s

unfoldable pub thread_first : ℕ → TcpServerController → Outcome TcpServerController
thread_first p s = do
  has_thread ← is_state_set p threaded s.svc.heap
  assert (not has_thread)
  create_threaded p s

unfoldable pub connect_succeeded : ℕ → TcpServerController → Outcome TcpServerController
connect_succeeded p s = do
  in_progress ← is_state_set p connect_in_progress s.svc.heap
  assert (not in_progress)
  is_up ← is_state_set p connected s.svc.heap
  assert is_up
  passive ← is_state_set p passive_opener s.svc.heap
  assert (not passive)
  active ← is_state_set p active_opener s.svc.heap
  assert active
  listened ← is_state_set p multiplex_listen s.svc.heap
  assert (not listened)
  has_thread ← is_state_set p threaded s.svc.heap
  assert (not has_thread)
  serve_established p (establish p s)

-- The end of `ProcessMsgQMsg`. The first component says that the message has been freed.
unfoldable pub process_rest :
    TcpServerMsg → TcpServerController → Outcome (Bool × TcpServerController)
process_rest msg s = do
  s ← on (msg.code tcp_client_create_threaded) (thread_first msg.data_client) s
  s ← on (msg.code tcp_client_active_connect_success) (connect_succeeded msg.data_client) s
  ok (true, s)

unfoldable pub stop_own_thread : ℕ → TcpServerController → Outcome TcpServerController
stop_own_thread p s = do
  has_thread ← is_state_set p threaded s.svc.heap
  if not has_thread then ok s else do (alive, h) ← stop_thread p s.svc.heap; ok (with_heap h s)

-- From CTRLR_ACTION_TCP_CLIENT_MULTITHREADED_TO_MX on.
unfoldable pub process_to_mx :
    TcpServerMsg → TcpServerController → Outcome (Bool × TcpServerController)
process_to_mx msg s =
    if not (msg.code tcp_client_multithreaded_to_mx) then process_rest msg s else do
      listened ← is_state_set msg.data_client multiplex_listen s.svc.heap
      if listened then ok (false, s) else do
        s ← stop_own_thread msg.data_client s
        s ← start_listen msg.data_client s
        process_rest msg s

-- From CTRLR_ACTION_TCP_CLIENT_MX_TO_MULTITHREADED on.
unfoldable pub process_to_multithreaded :
    TcpServerMsg → TcpServerController → Outcome (Bool × TcpServerController)
process_to_multithreaded msg s =
    if not (msg.code tcp_client_mx_to_multithreaded) then process_to_mx msg s else do
      has_thread ← is_state_set msg.data_client threaded s.svc.heap
      if has_thread then ok (false, s) else do
        s ← leave_svc msg.data_client s
        s ← create_threaded msg.data_client s
        process_to_mx msg s

unfoldable pub process_msg_q_msg :
    Surroundings → TcpServerMsg → TcpServerController → Outcome (Bool × TcpServerController)
process_msg_q_msg env msg s =
    if msg.code tcp_client_delete
    then (do s ← process_client_delete msg.data_client s; ok (false, s))
    else do
      s ← on (msg.code tcp_client_reconnect) (reconnect env msg.data_client) s
      s ← on (msg.code tcp_client_process_new) (enter_db msg.data_client) s
      s ← on (msg.code tcp_client_multiplex_listen) (listen_first msg.data_client) s
      process_to_multithreaded msg s

-- `sem_post`. The stack of a client's thread ends with the thread.
abbrev pub sem_post : Sema → Heap → Outcome (List ℕ)
sem_post sema h = on_stack sema.caller
  where
    on_stack : Option ℕ → Outcome (List ℕ)
    on_stack none = ok (sema.sem ∷ [])
    on_stack (some p) = do
      c ← deref (h p)
      if c.client_thread then ok (sema.sem ∷ []) else stop memory

-- The reading of `msg->zero_sema` in the loop, and the post.
abbrev pub sema_of : Bool → TcpServerMsg → Heap → Outcome (List ℕ)
sema_of true msg h = stop memory
sema_of false msg h = posted msg.zero_sema
  where
    posted : Option Sema → Outcome (List ℕ)
    posted none = ok []
    posted (some sema) = sem_post sema h

-- The inner loop of `MsgQProcessingThreadFn`, which holds the lock of the queue: the semaphores posted.
-- `env` tells what the message at an index finds.
unfoldable pub process_msg_q :
    (ℕ → Surroundings)
    → ℕ
    → List TcpServerMsg
    → TcpServerController
    → Outcome (List ℕ × TcpServerController)
process_msg_q env i [] s = ok ([], s)
process_msg_q env i (msg ∷ msg_q) s = do
  (freed, s) ← process_msg_q_msg (env i) msg s
  first ← sema_of freed msg s.svc.heap
  (later, s) ← process_msg_q env (suc i) msg_q s
  ok (first ++ later, s)

-- `LookupActiveOpened`, over `establishedClient`.
abbrev pub look_up_active_opened : ℕ → ℕ → ClientDb → Heap → Outcome (Option ℕ)
look_up_active_opened ip_addr port_no [] h = ok none
look_up_active_opened ip_addr port_no (p ∷ db) h = do
  c ← deref (h p)
  let rest = look_up_active_opened ip_addr port_no db h in
      if (c.server_ip_addr == ip_addr) && (c.server_port_no == port_no) then ok (some p) else rest
