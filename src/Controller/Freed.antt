-- ===== src/Controller/Freed.antt =====
-- Which messages `ProcessMsgQMsg` frees.
use tcpserver_lib.Base.{
  ℕ, suc, ◌≡◌, refl, Bool, true, false, List, ◌∷◌, ◌++◌, Outcome, ok, stop, ◌>>=◌, not,
  if◌then◌else◌, Returns, Post, Post-bind,
}
use tcpserver_lib.Controller.{TcpServerController}
use tcpserver_lib.Controller.Queue.{
  TcpServerMsg, Surroundings, tcp_client_delete, tcp_client_mx_to_multithreaded,
  tcp_client_multithreaded_to_mx, tcp_client_reconnect, tcp_client_process_new,
  tcp_client_multiplex_listen, tcp_client_create_threaded, tcp_client_active_connect_success, on,
  reconnect, enter_db, listen_first, thread_first, connect_succeeded, process_rest, process_to_mx,
  process_to_multithreaded, process_msg_q_msg, sema_of, process_msg_q,
}

abbrev IsFreed : Bool × TcpServerController → Type 0
IsFreed (freed, s) = freed ≡ true

process_rest-IsFreed :
    (msg : TcpServerMsg) (s : TcpServerController) → Post IsFreed (process_rest msg s)
unfolding process_rest
process_rest-IsFreed msg s =
    Post-bind IsFreed (on (msg.code tcp_client_create_threaded) (thread_first msg.data_client) s) _
      (λ s.
        Post-bind IsFreed
          (on (msg.code tcp_client_active_connect_success) (connect_succeeded msg.data_client) s) _
          (λ s. refl))

-- A part that a bit asks for, and that is not asked for.
skipped :
    (b : Bool) (rest part : Outcome (Bool × TcpServerController))
    → b ≡ false
    → Post IsFreed rest
    → Post IsFreed (if not b then rest else part)
skipped false rest part e freed = freed
skipped true rest part e freed = absurd (cc e)

otherwise :
    (b : Bool) (part rest : Outcome (Bool × TcpServerController))
    → b ≡ false
    → Post IsFreed rest
    → Post IsFreed (if b then part else rest)
otherwise false part rest e freed = freed
otherwise true part rest e freed = absurd (cc e)

process_to_multithreaded-IsFreed :
    (msg : TcpServerMsg) (s : TcpServerController)
    → msg.code tcp_client_mx_to_multithreaded ≡ false
    → msg.code tcp_client_multithreaded_to_mx ≡ false
    → Post IsFreed (process_to_multithreaded msg s)
unfolding process_to_multithreaded process_to_mx
process_to_multithreaded-IsFreed msg s not_threaded not_mx =
    skipped (msg.code tcp_client_mx_to_multithreaded) (process_to_mx msg s) _ not_threaded (
      skipped (msg.code tcp_client_multithreaded_to_mx) (process_rest msg s) _ not_mx
        (process_rest-IsFreed msg s))

process_msg_q_msg-IsFreed :
    (env : Surroundings) (msg : TcpServerMsg) (s : TcpServerController)
    → msg.code tcp_client_delete ≡ false
    → msg.code tcp_client_mx_to_multithreaded ≡ false
    → msg.code tcp_client_multithreaded_to_mx ≡ false
    → Post IsFreed (process_msg_q_msg env msg s)
unfolding process_msg_q_msg
process_msg_q_msg-IsFreed env msg s kept not_threaded not_mx =
    otherwise (msg.code tcp_client_delete) _ _ kept (
      Post-bind IsFreed (on (msg.code tcp_client_reconnect) (reconnect env msg.data_client) s) _
        (λ s.
          Post-bind IsFreed (on (msg.code tcp_client_process_new) (enter_db msg.data_client) s) _
            (λ s.
              Post-bind IsFreed
                (on (msg.code tcp_client_multiplex_listen) (listen_first msg.data_client) s) _
                (λ s. process_to_multithreaded-IsFreed msg s not_threaded not_mx))))

-- If the first message asks neither for a deletion nor for a move between the two ways of serving,
-- the loop over the message queue never comes to a result, whatever the server's state: either
-- handling the message fails, or the loop reads its semaphore after it has been freed.
pub process_msg_q-use_after_free :
    (env : ℕ → Surroundings) (i : ℕ) (msg : TcpServerMsg) (msg_q : List TcpServerMsg)
    (s : TcpServerController)
    → msg.code tcp_client_delete ≡ false
    → msg.code tcp_client_mx_to_multithreaded ≡ false
    → msg.code tcp_client_multithreaded_to_mx ≡ false
    → ¬ (Returns (λ _. Unit {0}) (process_msg_q env i (msg ∷ msg_q) s))
unfolding process_msg_q
process_msg_q-use_after_free env i msg msg_q s kept not_threaded not_mx =
    read_after (process_msg_q_msg (env i) msg s)
      (process_msg_q_msg-IsFreed (env i) msg s kept not_threaded not_mx)
  where
    read_after :
        (r : Outcome (Bool × TcpServerController))
        → Post IsFreed r
        → ¬ (
            Returns {A = List ℕ × TcpServerController}
              (λ _. Unit {0})
              (do
                (freed, s) ← r
                first ← sema_of freed msg s.svc.heap
                (later, s) ← process_msg_q env (suc i) msg_q s
                ok (first ++ later, s)))
    read_after (ok (true, s)) freed run = run
    read_after (ok (false, s)) freed run = cc freed
    read_after (stop e) freed run = run
