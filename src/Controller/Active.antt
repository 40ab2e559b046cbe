-- ===== src/Controller/Active.antt =====
-- `CreateActiveClient` when the first attempt is refused, and what the message queue does with the
-- messages that are processed to their end.
use tcpserver_lib.Base.{Bool, not, ◌||◌, stop, assertion, inl, inr, Bool-cases, Returns-result}
use tcpserver_lib.Base.{
  ℕ, ◌+◌, ◌≡◌, refl, sym, ap, true, false, none, some, [], ◌∷◌, ◌++◌, arith, ◌==◌, Returns,
  Returns-bind,
}
use mathlib.Core.Path.{subst}
use tcpserver_lib.Client.{
  TcpClient, Heap, update, modify, assign, set_state, active_opener, reference,
}
use tcpserver_lib.Client.Heap.{RefCounted, Owned, one_self, bit, update_same}
use tcpserver_lib.Client.Connect.{Attempt, retrying, refused, try_client_connect}
use tcpserver_lib.Client.Connect.Refs.{
  Changed, modify-Changed, set_state-Changed, Changed-RefCounted, IsFresh, Tried, Told,
  try_client_connect-Tried,
}
use tcpserver_lib.Db.Refs.{count, count-append}
use tcpserver_lib.Controller.{TcpServerController}
use tcpserver_lib.Controller.Queue.{Surroundings, new_active_client, create_active_client}

-- The references to each client are `n` others and one for each entry of the list of pending clients.
abbrev pub PendingCounted : (ℕ → ℕ) → TcpServerController → Type 0
PendingCounted n s = RefCounted s.svc.heap (λ q. n q + count q s.connect_pending_clients)

-- The new memory is as if it had been cleared.
abbrev pub IsCleared : TcpClient → Type 0
IsCleared c = (c.client_thread ≡ false) × (c.active_connect_thread ≡ false) × (c.comm_fd ≡ 0)

-- What is left: the client at the end of its list, with a connector thread.
abbrev pub IsPending : (ℕ → ℕ) → ℕ → TcpServerController → TcpServerController → Type 0
IsPending n p s s' =
    (s'.connect_pending_clients ≡ s.connect_pending_clients ++ (p ∷ []))
    × (s'.established_client ≡ s.established_client)
    × PendingCounted n s'
    × ((d : TcpClient) × (s'.svc.heap p ≡ some d) × Told retrying d)

-- All references are accounted for, the new client's address is that of no object, and the memory
-- there is as if it had been cleared. The server's own address, and the other server's address and
-- port, are not 0, and the first attempt to connect is refused. Then `CreateActiveClient` succeeds:
-- the list of pending clients ends with the new client, whose connector thread goes on trying, and
-- all references are accounted for.
pub create_active_client-IsPending :
    (n : ℕ → ℕ) (env : Surroundings) (server_ip_addr server_port_no : ℕ) (s : TcpServerController)
    → PendingCounted n s
    → s.svc.heap env.fresh ≡ none
    → IsCleared env.indeterminate
    → (env.own_ip_addr == 0) ≡ false
    → (server_ip_addr == 0) ≡ false
    → (server_port_no == 0) ≡ false
    → env.attempt ≡ refused
    → Returns (IsPending n env.fresh s) (create_active_client env server_ip_addr server_port_no s)
unfolding create_active_client reference
create_active_client-IsPending n env ip port s counted free (unthreaded, idle, closed) own other
      there attempt =
    let p = env.fresh in
    let before : ℕ → ℕ = λ q. n q + count q s.connect_pending_clients in
    let refs : ℕ → ℕ = λ q. n q + count q (s.connect_pending_clients ++ (p ∷ [])) in
    let unowned : before p ≡ 0 = subst (λ o. Owned o (before p)) free (counted p) in
    let c0 : TcpClient = new_active_client env ip port in
    let c1 : TcpClient = record c0 { state_flags = assign active_opener true c0.state_flags } in
    let c2 : TcpClient = record c1 { ref_count = 1 } in
    let fresh : IsFresh c2 = record {
      idle = idle;
      own_ip = own;
      no_port = refl;
      server_ip = other;
      server_port = there;
      no_socket = closed;
    } in
    Returns-bind (Changed s.svc.heap p c1) _
      (set_state p active_opener (update s.svc.heap p (some c0))) _
      (set_state-Changed s.svc.heap (update s.svc.heap p (some c0)) p c0 active_opener
        (update_same s.svc.heap p (some c0), λ q e. rw e refl))
      (λ h1 ch1.
        Returns-bind (Changed s.svc.heap p c2) _
          (modify p (λ c. record c { ref_count = c.ref_count + 1 }) h1) _
          (modify-Changed s.svc.heap h1 p c1 _ ch1)
          (λ h2 ch2.
            let held : RefCounted h2 refs =
              Changed-RefCounted s.svc.heap h2 before refs p c2 counted ch2
                (omega (
                  arith,
                  unowned,
                  one_self p,
                  count-append p s.connect_pending_clients (p ∷ []),
                  ap bit unthreaded,
                  ap bit idle,
                ))
                (λ q e. ground (arith, count-append q s.connect_pending_clients (p ∷ []), e)) in
            Returns-bind (Tried refs env.socket p retrying) _
              (try_client_connect env.socket env.attempt p true h2) _
              (subst
                (λ a.
                  Returns (Tried refs env.socket p retrying)
                    (try_client_connect env.socket a p true h2))
                (sym attempt)
                (try_client_connect-Tried refs env.socket refused p true h2 c2 held ch2.0 fresh
                  (λ e. cc e)))
              (λ (result, h3) (r, after, (d, live, _, told)).
                rw r (refl, refl, after, (d, live, subst (λ x. Told x d) r told)))))

-- A connector thread or a socket in the memory for the new client.
abbrev pub is_unclean : TcpClient → Bool
is_unclean c = c.active_connect_thread || not (c.comm_fd == 0)

unclean-stops :
    (socket : ℕ) (attempt : Attempt) (p : ℕ) (again : Bool) (h : Heap) (c : TcpClient)
    → h p ≡ some c
    → is_unclean c ≡ true
    → try_client_connect socket attempt p again h ≡ stop assertion
unfolding try_client_connect
unclean-stops socket attempt p again h c live unclean = elim (Bool-cases c.active_connect_thread) [
  | inl e ↦ rw (live, e) refl
  | inr e ↦
      let closed : (c.comm_fd == 0) ≡ false = ground (arith, e, unclean) in
      rw (live, e)
        (elim (Bool-cases (c.ip_addr == 0)) [
          | inl e1 ↦ rw e1 refl
          | inr e1 ↦ rw e1 (elim (Bool-cases (c.port_no == 0)) [
            | inr e2 ↦ rw e2 refl
            | inl e2 ↦ rw e2 (elim (Bool-cases (c.server_ip_addr == 0)) [
              | inl e3 ↦ rw e3 refl
              | inr e3 ↦ rw e3 (elim (Bool-cases (c.server_port_no == 0)) [
                | inl e4 ↦ rw e4 refl
                | inr e4 ↦ rw (e4, closed) refl
              ])
            ])
          ])
        ])
]

reference-Changed :
    (h0 h : Heap) (p : ℕ) (c : TcpClient)
    → Changed h0 p c h
    → Returns (Changed h0 p (record c { ref_count = c.ref_count + 1 })) (reference p h)
unfolding reference
reference-Changed h0 h p c ch = modify-Changed h0 h p c _ ch

-- If the memory that `new` returns holds a pointer to a connector thread that is not null or a
-- descriptor that is not 0, then `CreateActiveClient` ends at a failed assertion of
-- `TryClientConnect`, whatever the server's state, the addresses and what `connect` would come to.
pub create_active_client-uninitialised :
    (env : Surroundings) (server_ip_addr server_port_no : ℕ) (s : TcpServerController)
    → is_unclean env.indeterminate ≡ true
    → create_active_client env server_ip_addr server_port_no s ≡ stop assertion
unfolding create_active_client
create_active_client-uninitialised env ip port s unclean =
    let p = env.fresh in
    let c0 : TcpClient = new_active_client env ip port in
    let c1 : TcpClient = record c0 { state_flags = assign active_opener true c0.state_flags } in
    let (h1, e1, ch1) =
      Returns-result (Changed s.svc.heap p c1)
        (set_state p active_opener (update s.svc.heap p (some c0)))
        (set_state-Changed s.svc.heap (update s.svc.heap p (some c0)) p c0 active_opener
          (update_same s.svc.heap p (some c0), λ q e. rw e refl)) in
    let (h2, e2, ch2) =
      Returns-result (Changed s.svc.heap p (record c1 { ref_count = 1 })) (reference p h1)
        (reference-Changed s.svc.heap h1 p c1 ch1) in
    rw
      (
        e1,
        e2,
        unclean-stops env.socket env.attempt p true h2 (record c1 { ref_count = 1 }) ch2.0 unclean,
      )
      refl
