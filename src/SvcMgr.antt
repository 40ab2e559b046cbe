-- ===== src/SvcMgr.antt =====
-- TcpClientServiceManager.h and TcpClientServiceManager.cpp: the clients that one thread serves with
-- `select`. The thread is cancelled and started again round every change of its list.
pub mod Fds
pub mod Listen
pub mod Stop
mod Tests
use tcpserver_lib.Base.{
  zero, suc, stop, past_end, fuel, memory, length, ℕ, ◌<◌, Bool, true, false, not, List, [], ◌∷◌,
  ◌++◌, Outcome, ok, ◌>>=◌, ◌>>◌, deref, assert, if◌then◌else◌, ltb,
}
use tcpserver_lib.Client.{
  dereference, TcpClient, Heap, StateBit, multiplex_listen, reference, set_state, unset_state,
}
use tcpserver_lib.Client.Fds.{fd_setsize}
use tcpserver_lib.Db.{
  is_head, client_at, remove, ClientDb, look_up_client_db, is_none, remove_client_from_db,
  copy_all_clients_to_list,
}

-- The service manager, with what it reads of its server: the objects, the database of all clients,
-- and the bit `TCP_SERVER_NOT_LISTENING_CLIENTS`. `tcp_client_db` is the list of the clients served.
pub record TcpClientServiceManager : Type 0 where
  pub heap : Heap
  pub server_db : ClientDb
  pub not_listening_clients : Bool
  pub tcp_client_db : ClientDb
  pub client_svc_mgr_thread : Bool
  pub max_fd : ℕ
  pub backup_fd_set : List ℕ

-- The loop of `GetMaxFdSimple`, from `max_fd_lcl`.
abbrev pub max_fd_from : ℕ → ClientDb → Heap → Outcome ℕ
max_fd_from max_fd_lcl [] h = ok max_fd_lcl
max_fd_from max_fd_lcl (p ∷ db) h = do
  c ← deref (h p)
  max_fd_from (if ltb max_fd_lcl c.comm_fd then c.comm_fd else max_fd_lcl) db h

abbrev pub get_max_fd_simple : ClientDb → Heap → Outcome ℕ
get_max_fd_simple = max_fd_from 0

-- `FD_SET`, which writes outside the set for a descriptor of `FD_SETSIZE` or more.
abbrev pub fd_set : ℕ → List ℕ → Outcome (List ℕ)
fd_set fd fds = if ltb fd fd_setsize then ok (fd ∷ fds) else stop memory

-- `CopyClientFDtoFDSet`, into an empty set.
abbrev pub copy_client_fd_to_fd_set : ClientDb → Heap → Outcome (List ℕ)
copy_client_fd_to_fd_set [] h = ok []
copy_client_fd_to_fd_set (p ∷ db) h = do
  c ← deref (h p)
  rest ← copy_client_fd_to_fd_set db h
  fd_set c.comm_fd rest

-- What the thread does up to its loop.
unfoldable pub start_internal_simple : TcpClientServiceManager → Outcome TcpClientServiceManager
start_internal_simple s = do
  (db, h) ←
      if not s.not_listening_clients
      then copy_all_clients_to_list s.server_db s.tcp_client_db s.heap
      else ok (s.tcp_client_db, s.heap)
  fd ← get_max_fd_simple db h
  fds ← copy_client_fd_to_fd_set db h
  ok (record s { heap = h; tcp_client_db = db; max_fd = fd; backup_fd_set = fds })

-- `StartTcpClientServiceManagerThread` waits until the thread is at its loop.
unfoldable pub start_svc_thread : TcpClientServiceManager → Outcome TcpClientServiceManager
start_svc_thread s = start_internal_simple (record s { client_svc_mgr_thread = true })

-- `StopTcpClientServiceManagerThread`.
abbrev pub stop_svc_thread : TcpClientServiceManager → TcpClientServiceManager
stop_svc_thread s = record s { client_svc_mgr_thread = false }

unfoldable pub client_fd_start_listen_simple :
    ℕ → TcpClientServiceManager → Outcome TcpClientServiceManager
client_fd_start_listen_simple p s0 = do
  let s = if not s0.not_listening_clients then stop_svc_thread s0 else s0
  c ← deref (s.heap p)
  found ← look_up_client_db c.ip_addr c.port_no s.tcp_client_db s.heap
  assert (is_none found)
  h ← reference p s.heap
  h ← set_state p multiplex_listen h
  let s = record s { heap = h; tcp_client_db = s.tcp_client_db ++ (p ∷ []) }
  if not s.not_listening_clients then start_svc_thread s else ok s

unfoldable pub client_fd_stop_listen_simple :
    ℕ → TcpClientServiceManager → Outcome TcpClientServiceManager
client_fd_stop_listen_simple p s0 = do
  let s = if not s0.not_listening_clients then stop_svc_thread s0 else s0
  c ← deref (s.heap p)
  found ← look_up_client_db c.ip_addr c.port_no s.tcp_client_db s.heap
  assert (not (is_none found))
  (db, h) ← remove_client_from_db p s.tcp_client_db s.heap
  h ← unset_state p multiplex_listen h
  let s = record s { heap = h; tcp_client_db = db }
  if not s.not_listening_clients then start_svc_thread s else ok s

-- The body of the loop in `Purge`.
unfoldable pub forget_client : ℕ → Heap → Outcome Heap
forget_client p h = do h ← unset_state p multiplex_listen h; (alive, h') ← dereference p h; ok h'

-- `Purge`. The iterator is read where it begins and behind the client of each round, at the end of the
-- list too. It stands on the next element, which `remove` frees if it is the same client.
unfoldable pub forget_clients : ℕ → ClientDb → Heap → Outcome (ClientDb × Heap)
forget_clients k [] h = stop past_end
forget_clients zero (p ∷ db) h = stop fuel
forget_clients (suc k) (p ∷ db) h = do
  next ← client_at db
  rest ← if is_head p db then stop memory else ok (remove p db)
  h' ← forget_client p h
  forget_clients k rest h'

-- `Stop`, up to the deletion of the manager: its destructor asserts that the list is empty.
unfoldable pub stop_svc : TcpClientServiceManager → Outcome TcpClientServiceManager
stop_svc s0 = do
  let s = stop_svc_thread s0
  assert (not s.client_svc_mgr_thread)
  (db, h) ← forget_clients (length s.tcp_client_db) s.tcp_client_db s.heap
  assert (is_empty db)
  ok (record s { heap = h; tcp_client_db = db })
  where
    is_empty : ClientDb → Bool
    is_empty [] = true
    is_empty (p ∷ db) = false
