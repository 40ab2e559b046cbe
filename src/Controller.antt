-- ===== src/Controller.antt =====
-- TcpServerController.cpp: how clients are taken in, moved between the two ways of serving them, and
-- deleted.
pub mod Active
pub mod Delete
pub mod Freed
pub mod NewClient
pub mod Queue
pub mod Stale
mod Tests
use tcpserver_lib.Base.{
  ℕ, Bool, true, false, not, Option, none, some, List, [], ◌∷◌, ◌++◌, Outcome, ok, stop, memory,
  ◌>>=◌, ◌>>◌, deref, assert, if◌then◌else◌,
}
use tcpserver_lib.Client.{
  TcpClient, Heap, is_state_set, connected, passive_opener, active_opener, multiplex_listen,
  reference, dereference, start_thread, stop_thread,
}
use tcpserver_lib.Db.{
  ClientDb, look_up_client_db, add_client_to_db, remove, remove_client_from_db, remove_key_from_db,
}
use tcpserver_lib.SvcMgr.{
  TcpClientServiceManager, client_fd_start_listen_simple, client_fd_stop_listen_simple,
}

-- The server. `svc` is the service manager with the objects and the client database;
-- `create_multi_threaded_client` is the bit of that name.
pub record TcpServerController : Type 0 where
  pub svc : TcpClientServiceManager
  pub create_multi_threaded_client : Bool
  pub established_client : ClientDb
  pub connect_pending_clients : ClientDb

abbrev pub with_heap : Heap → TcpServerController → TcpServerController
with_heap h s = record s { svc = record s.svc { heap = h } }

unfoldable pub set_client_creation_mode : Bool → TcpServerController → TcpServerController
set_client_creation_mode status s = record s { create_multi_threaded_client = status }

unfoldable pub create_threaded : ℕ → TcpServerController → Outcome TcpServerController
create_threaded p s = do
  c ← deref (s.svc.heap p)
  assert (not c.client_thread)
  h ← start_thread p s.svc.heap
  ok (with_heap h s)

unfoldable pub start_listen : ℕ → TcpServerController → Outcome TcpServerController
start_listen p s = do svc ← client_fd_start_listen_simple p s.svc; ok (record s { svc = svc })

unfoldable pub stop_listen : ℕ → TcpServerController → Outcome TcpServerController
stop_listen p s = do svc ← client_fd_stop_listen_simple p s.svc; ok (record s { svc = svc })

unfoldable pub process_new_client : ℕ → TcpServerController → Outcome TcpServerController
process_new_client p s = do
  (db, h) ← add_client_to_db p s.svc.server_db s.svc.heap
  let s = record s { svc = record s.svc { heap = h; server_db = db } }
  if s.create_multi_threaded_client then create_threaded p s else start_listen p s

-- `ProcessClientMigrationToMultiThreaded`.
unfoldable pub migrate_to_multi_threaded : ℕ → ℕ → TcpServerController → Outcome TcpServerController
migrate_to_multi_threaded ip_addr port_no s = do
  found ← look_up_client_db ip_addr port_no s.svc.server_db s.svc.heap
  move found
  where
    move : Option ℕ → Outcome TcpServerController
    move none = ok s
    move (some p) = do
      c ← deref (s.svc.heap p)
      if c.client_thread then ok s else (stop_listen p s >>= create_threaded p)

-- `ProcessClientMigrationToMultiplex`.
unfoldable pub migrate_to_multiplex : ℕ → ℕ → TcpServerController → Outcome TcpServerController
migrate_to_multiplex ip_addr port_no s = do
  found ← look_up_client_db ip_addr port_no s.svc.server_db s.svc.heap
  move found
  where
    stopped : ℕ → Outcome TcpServerController
    stopped p = do (alive, h) ← stop_thread p s.svc.heap; start_listen p (with_heap h s)

    move : Option ℕ → Outcome TcpServerController
    move none = ok s
    move (some p) = do c ← deref (s.svc.heap p); if not c.client_thread then ok s else stopped p

-- `ProcessClientDelete(uint32_t, uint16_t)`.
unfoldable pub process_key_delete : ℕ → ℕ → TcpServerController → Outcome TcpServerController
process_key_delete ip_addr port_no s = do
  (left, db, h) ← remove_key_from_db ip_addr port_no s.svc.server_db s.svc.heap
  unlist left (record s { svc = record s.svc { heap = h; server_db = db } })
  where
    unlist : Option ℕ → TcpServerController → Outcome TcpServerController
    unlist none s' = ok s'
    unlist (some p) s' = do
      c ← deref (s'.svc.heap p)
      if not c.client_thread then stop_listen p s' else ok s'

-- The steps of `ProcessClientDelete(TcpClient *)`, each with its test.
unfoldable pub leave_db : ℕ → TcpServerController → Outcome TcpServerController
leave_db p s = do
  passive ← is_state_set p passive_opener s.svc.heap
  if not passive then ok s else do
    (db, h) ← remove_client_from_db p s.svc.server_db s.svc.heap
    ok (record s { svc = record s.svc { heap = h; server_db = db } })

unfoldable pub leave_svc : ℕ → TcpServerController → Outcome TcpServerController
leave_svc p s = do
  listened ← is_state_set p multiplex_listen s.svc.heap
  if listened then stop_listen p s else ok s

unfoldable pub leave_thread : ℕ → TcpServerController → Outcome TcpServerController
leave_thread p s = do
  c ← deref (s.svc.heap p)
  if not c.client_thread then ok s else do (alive, h) ← stop_thread p s.svc.heap; ok (with_heap h s)

unfoldable pub leave_active : ℕ → TcpServerController → Outcome TcpServerController
leave_active p s = do
  active ← is_state_set p active_opener s.svc.heap
  if not active then ok s else do
    is_up ← is_state_set p connected s.svc.heap
    (alive, h) ← dereference p s.svc.heap
    ok (with_heap h (unlisted is_up))
  where
    unlisted : Bool → TcpServerController
    unlisted true = record s { established_client = remove p s.established_client }
    unlisted false = record s { connect_pending_clients = remove p s.connect_pending_clients }

unfoldable pub process_client_delete : ℕ → TcpServerController → Outcome TcpServerController
process_client_delete p s = do
  h ← reference p s.svc.heap
  s1 ← leave_db p (with_heap h s)
  s2 ← leave_svc p s1
  s3 ← leave_thread p s2
  s4 ← leave_active p s3
  (alive, h') ← dereference p s4.svc.heap
  ok (with_heap h' s4)
