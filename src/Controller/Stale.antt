-- ===== src/Controller/Stale.antt =====
-- A client's own thread that waits until the message queue has deleted its client.
use tcpserver_lib.Base.{
  ℕ, ◌+◌, ◌≡◌, refl, Bool, true, false, some, List, ok, stop, memory, ◌>>=◌, Returns,
  Returns-result,
}
use tcpserver_lib.Client.{TcpClient}
use tcpserver_lib.Client.Heap.{RefCounted}
use tcpserver_lib.Db.Refs.{count}
use tcpserver_lib.Controller.{TcpServerController, process_client_delete}
use tcpserver_lib.Controller.Queue.{
  MsgCode, TcpServerMsg, Sema, Surroundings, tcp_client_delete, enque_msg, process_msg_q_msg,
  process_msg_q,
}
use tcpserver_lib.Controller.Delete.{Deleted, IsThreaded, process_client_delete-Deleted}

deletes :
    (env : Surroundings) (msg : TcpServerMsg) (s : TcpServerController)
    → msg.code tcp_client_delete ≡ true
    → process_msg_q_msg env msg s
      ≡ (process_client_delete msg.data_client s >>= λ s'. ok (false, s'))
unfolding process_msg_q_msg
deletes env msg s asked = rw asked refl

-- Under the conditions of `process_client_delete-Deleted`, the client's own thread enqueues a
-- message for the client whose code has the deletion among its bits, and waits, on any queue. Then
-- the deletion does what it does there, and the loop over the queue ends with an access to memory
-- that is gone: it posts a semaphore on the stack of the thread that the deletion has ended.
pub process_msg_q-stale_sema :
    (env : ℕ → Surroundings) (i : ℕ) (code : MsgCode → Bool) (sem : ℕ) (n : ℕ → ℕ)
    (msg_q : List TcpServerMsg) (s : TcpServerController) (p : ℕ) (c : TcpClient)
    → code tcp_client_delete ≡ true
    → RefCounted s.svc.heap (λ q. n q + count q s.svc.server_db)
    → n p ≡ 0
    → IsThreaded s p c
    → Returns (Deleted p s) (process_client_delete p s)
      × (process_msg_q env i
            (enque_msg code p (some (record { sem = sem; caller = some p })) msg_q)
            s
          ≡ stop memory)
unfolding process_msg_q enque_msg
process_msg_q-stale_sema env i code sem n msg_q s p c asked counted unheld t =
    let sema : Sema = record { sem = sem; caller = some p } in
    let msg : TcpServerMsg = record { code = code; data_client = p; zero_sema = some sema } in
    let deleted = process_client_delete-Deleted n s p c counted unheld t in
    let (s', e, d) = Returns-result (Deleted p s) (process_client_delete p s) deleted in
    (deleted, rw (deletes (env i) msg s asked, e, d.0.0) refl)
