-- ===== src/Acceptor/Accepted.antt =====
-- What a round of the acceptor's loop leaves.
use tcpserver_lib.Base.{
  ℕ, ◌+◌, ◌%◌, ◌^◌, ◌≡◌, refl, Bool, true, false, not, Bool-cases, inl, inr, Option, none, some, [],
  ◌∷◌, ◌++◌, ◌==◌, Returns, Returns-bind, arith,
}
use tcpserver_lib.Client.{TcpClient, Heap, assign, connected, passive_opener, via_accept}
use tcpserver_lib.Client.Heap.{RefCounted, Owned, threads, eq_self, update_same}
use mathlib.Core.Path.{subst}
use tcpserver_lib.Demarcar.{instantiate, demarcar_none}
use tcpserver_lib.Controller.Queue.{
  enque_msg, TcpServerMsg, tcp_client_process_new, tcp_client_multiplex_listen, tcp_client_delete,
  tcp_client_mx_to_multithreaded, tcp_client_multithreaded_to_mx, tcp_client_create_threaded,
  tcp_client_active_connect_success, tcp_client_reconnect,
}
use tcpserver_lib.Acceptor.{
  Incoming, Accepting, accepted_client, new_code, admit, accept_round, TcpNewConnectionAcceptor,
}
use tcpserver_lib.Client.Connect.{send_msg}
use tcpserver_lib.Client.Connect.Refs.{
  Changed, modify-Changed, set_state-Changed, Changed-RefCounted,
}

-- The object but for its count of bytes sent.
abbrev pub ChangedButSent : Heap → ℕ → TcpClient → Heap → Type 0
ChangedButSent h p c h' = (b : ℕ) × Changed h p (record c { bytes_sent = b }) h'

-- Sending changes at most the count of bytes.
send_msg-ChangedButSent :
    (h0 h : Heap) (sent : Option ℕ) (p : ℕ) (c : TcpClient)
    → Changed h0 p c h
    → Returns (λ (r, h'). ChangedButSent h0 p c h') (send_msg sent p h)
unfolding send_msg
send_msg-ChangedButSent h0 h none p c (here, others) = elim (Bool-cases (c.comm_fd == 0)) [
  | inl e ↦ rw (here, e) (c.bytes_sent, (here, others))
  | inr e ↦ rw (here, e) (c.bytes_sent, (here, others))
]
send_msg-ChangedButSent h0 h (some n) p c (here, others) = elim (Bool-cases (c.comm_fd == 0)) [
  | inl e ↦ rw (here, e) (c.bytes_sent, (here, others))
  | inr e ↦
      rw (here, e)
        (((c.bytes_sent + n) % 2 ^ 32, (rw (eq_self p) refl, λ q away. rw away (others q away))))
]

-- The object that an accepted connection gets, but for its count of bytes sent.
abbrev pub admitted_client : Incoming → TcpClient
admitted_client conn = record conn.indeterminate {
  ip_addr = conn.client_ip_addr;
  port_no = conn.client_port_no;
  server_ip_addr = conn.own_ip_addr;
  server_port_no = conn.own_port_no;
  comm_fd = conn.comm_socket_fd;
  ref_count = 0;
  state_flags = record conn.indeterminate.state_flags {
    is_connected = true;
    is_passive_opener = true;
  };
  conn_type = via_accept;
  msgd = none;
}

-- A message that takes a client in, to be served by a thread of its own or not, and for which nobody
-- waits.
pub record TakesIn (p : ℕ) (threaded : Bool) (msg : TcpServerMsg) : Type 0 where
  pub client_is : msg.data_client ≡ p
  pub nobody_waits : msg.zero_sema ≡ none
  pub enters : msg.code tcp_client_process_new ≡ true
  pub gets_thread : msg.code tcp_client_create_threaded ≡ threaded
  pub is_listened_to : msg.code tcp_client_multiplex_listen ≡ not threaded
  pub stays : msg.code tcp_client_delete ≡ false
  pub no_thread_later : msg.code tcp_client_mx_to_multithreaded ≡ false
  pub no_listening_later : msg.code tcp_client_multithreaded_to_mx ≡ false
  pub not_active : msg.code tcp_client_active_connect_success ≡ false
  pub not_again : msg.code tcp_client_reconnect ≡ false

-- A connection is let in: one new object, and a message that names it.
pub record Admitted (conn : Incoming) (w : Accepting) (w' : Accepting) : Type 0 where
  pub entered : ChangedButSent w.ctrlr.svc.heap conn.fresh (admitted_client conn) w'.ctrlr.svc.heap
  pub message : TcpServerMsg
  pub queued : w'.msg_q ≡ w.msg_q ++ (message ∷ [])
  pub takes_in : TakesIn conn.fresh w.ctrlr.create_multi_threaded_client message
  pub kept :
      (w'.ctrlr ≡ record w.ctrlr { svc = record w.ctrlr.svc { heap = w'.ctrlr.svc.heap } })
      × (w'.closed ≡ w.closed)

-- If the memory that `new` returned was unused, and holds no thread pointer, the references stay
-- accounted for.
ChangedButSent-RefCounted :
    (conn : Incoming) (h h' : Heap) (n : ℕ → ℕ)
    → RefCounted h n
    → h conn.fresh ≡ none
    → threads conn.indeterminate ≡ 0
    → ChangedButSent h conn.fresh (admitted_client conn) h'
    → RefCounted h' n
ChangedButSent-RefCounted conn h h' n counted free idle (b, ch) =
    Changed-RefCounted h h' n n conn.fresh _ counted ch
      (omega (arith, subst (λ o. Owned o (n conn.fresh)) free (counted conn.fresh), idle))
      (λ q away. refl)

admit-Admitted : (conn : Incoming) (w : Accepting) → Returns (Admitted conn w) (admit conn w)
unfolding admit enque_msg instantiate
admit-Admitted conn w =
    let h0 = w.ctrlr.svc.heap in
    let p = conn.fresh in
    Returns-bind (Changed h0 p _) _ _ _
      (set_state-Changed h0 _ p (accepted_client conn) connected
        (update_same h0 p _, λ q away. rw away refl))
      (λ h1 ch1.
        Returns-bind (Changed h0 p _) _ _ _ (set_state-Changed h0 h1 p _ passive_opener ch1)
          (λ h2 ch2.
            Returns-bind (Changed h0 p _) _ _ _
              (modify-Changed h0 h2 p _ (λ c. record c { conn_type = via_accept }) ch2)
              (λ h3 ch3.
                Returns-bind {A = Option ℕ × Heap}
                  (λ (r, h').
                    ChangedButSent h0 p
                      (record (accepted_client conn) {
                        state_flags =
                            assign passive_opener true
                              (assign connected true conn.indeterminate.state_flags);
                        conn_type = via_accept;
                      })
                      h')
                  _ _ _ (send_msg-ChangedButSent h0 h3 conn.welcomed p _ ch3)
                  (λ (r, h4) (b, ch4).
                    Returns-bind (Changed h0 p _) _ _ _
                      (modify-Changed h0 h4 p _
                        (λ c. record c { msgd = instantiate demarcar_none 0 }) ch4)
                      (λ h5 ch5. record {
                        entered = (b, ch5);
                        message = record {
                          code = new_code w.ctrlr.create_multi_threaded_client;
                          data_client = p;
                          zero_sema = none;
                        };
                        queued = refl;
                        takes_in = record {
                          client_is = refl;
                          nobody_waits = refl;
                          enters = refl;
                          gets_thread = refl;
                          is_listened_to = refl;
                          stays = refl;
                          no_thread_later = refl;
                          no_listening_later = refl;
                          not_active = refl;
                          not_again = refl;
                        };
                        kept = (refl, refl);
                      })))))

-- What a round should do with a connection, when connections are accepted and when they are not.
abbrev pub Round : Bool → Incoming → Accepting → Accepting → Type 0
Round true conn w w' = Admitted conn w w'
Round false conn w w' =
    (w'.ctrlr ≡ w.ctrlr)
    × (w'.msg_q ≡ w.msg_q)
    × (w'.closed ≡ w.closed ++ (conn.comm_socket_fd ∷ []))

-- A round of the acceptor's loop with a connection succeeds. If connections are accepted, the object
-- at the address that `new` returns is connected and opened passively, with no references, with the
-- connection's descriptor and addresses, the server's own address and port and no demarcator, and no
-- other object has changed; the message queue has one more message, at its end, which names the
-- object, asks to take it in and to serve it by a thread of its own or by the service manager, as
-- the server's switch says, and asks for nothing else; nothing else in the server has changed, and
-- no descriptor is closed. If they are not accepted, the server and its queue are as they were, and
-- the connection's descriptor is closed.
pub accept_round-Round :
    (acc : TcpNewConnectionAcceptor) (conn : Incoming) (w : Accepting)
    → Returns (Round acc.accept_new_conn conn w) (accept_round acc (some conn) w)
unfolding accept_round
accept_round-Round acc conn w = elim (Bool-cases acc.accept_new_conn) [
  | inl e ↦ rw e (admit-Admitted conn w)
  | inr e ↦ rw e (refl, refl, refl)
]
