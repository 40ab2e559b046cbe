-- ===== src/Client/Connect/Refs.antt =====
-- Connecting keeps the account of references, and the flags say what became of it.
use tcpserver_lib.Base.{
  ℕ, ◌+◌, ◌≡◌, refl, ap, Bool, true, false, not, some, [], ◌∷◌, arith, zero, suc, ◌++◌, replicate,
  Outcome, assert, ◌>>◌, Returns, Returns-bind, ◌==◌,
}
use tcpserver_lib.Client.{
  TcpClient, Heap, StateBit, connect_in_progress, connected, modify, set_state, unset_state,
  reference, dereference, assign,
}
use tcpserver_lib.Client.Heap.{
  RefCounted, Dropped, one, threads, bit, change-RefCounted, eq_self, own_lem, one_self,
  dereference-Dropped,
}
use tcpserver_lib.Client.Connect.{
  ConnectResult, done, given_up, retrying, Attempt, refused, connected_on, no_name, connection_made,
  start_connector, after_connect, try_client_connect, connect_retry,
}

-- One object is this, all others are as they were.
abbrev pub Changed : Heap → ℕ → TcpClient → Heap → Type 0
Changed h p c h' = (h' p ≡ some c) × ((q : ℕ) → (q == p) ≡ false → h' q ≡ h q)

pub modify-Changed :
    (h0 h : Heap) (p : ℕ) (c : TcpClient) (f : TcpClient → TcpClient)
    → Changed h0 p c h
    → Returns (Changed h0 p (f c)) (modify p f h)
modify-Changed h0 h p c f (here, others) = rw here (rw (eq_self p) refl, λ q e. rw e (others q e))

pub set_state-Changed :
    (h0 h : Heap) (p : ℕ) (c : TcpClient) (b : StateBit)
    → Changed h0 p c h
    → Returns
        (Changed h0 p (record c { state_flags = assign b true c.state_flags }))
        (set_state p b h)
unfolding set_state
set_state-Changed h0 h p c b ch = modify-Changed h0 h p c _ ch

-- The object after a connection.
abbrev pub joined : ℕ → TcpClient → TcpClient
joined port c = record c {
  state_flags = assign connected true (assign connect_in_progress false c.state_flags);
  port_no = port;
}

connection_made-Changed :
    (h0 h : Heap) (p port : ℕ) (c : TcpClient)
    → Changed h0 p c h
    → Returns (Changed h0 p (joined port c)) (connection_made p (some port) h)
unfolding connection_made set_state unset_state
connection_made-Changed h0 h p port c ch =
    Returns-bind
      (Changed h0 p (record c { state_flags = assign connect_in_progress false c.state_flags })) _ _
      _ (modify-Changed h0 h p c _ ch)
      (λ h1 ch1.
        Returns-bind
          (Changed h0 p (record c {
            state_flags = assign connected true (assign connect_in_progress false c.state_flags);
          }))
          _ _ _ (modify-Changed h0 h1 p _ _ ch1)
          (λ h2 ch2. modify-Changed h0 h2 p _ (λ c. record c { port_no = port }) ch2))

pub Changed-RefCounted :
    (h0 h : Heap) (n m : ℕ → ℕ) (p : ℕ) (c : TcpClient)
    → RefCounted h0 n
    → Changed h0 p c h
    → c.ref_count ≡ m p + threads c
    → ((q : ℕ) → (q == p) ≡ false → m q ≡ n q)
    → RefCounted h m
Changed-RefCounted h0 h n m p c counted (here, others) own same =
    change-RefCounted h0 h n m p (some c) counted here own (λ q e. (same q e, others q e))

-- What the flags and threads of the object say after each result.
abbrev pub Told : ConnectResult → TcpClient → Type 0
Told done d =
    (d.state_flags.is_connected ≡ true)
    × (d.state_flags.is_connect_in_progress ≡ false)
    × (d.active_connect_thread ≡ false)
Told given_up d = (d.state_flags.is_connect_in_progress ≡ true) × (d.active_connect_thread ≡ false)
Told retrying d = (d.state_flags.is_connect_in_progress ≡ true) × (d.active_connect_thread ≡ true)

-- The result that an attempt should have.
abbrev pub expected : Attempt → Bool → ConnectResult
expected refused true = retrying
expected refused false = given_up
expected (connected_on port) try_again = done
expected no_name try_again = done

-- The object as `TryClientConnect` should find it.
pub record IsFresh (c : TcpClient) : Type 0 where
  pub idle : c.active_connect_thread ≡ false
  pub own_ip : (c.ip_addr == 0) ≡ false
  pub no_port : c.port_no ≡ 0
  pub server_ip : (c.server_ip_addr == 0) ≡ false
  pub server_port : (c.server_port_no == 0) ≡ false
  pub no_socket : c.comm_fd ≡ 0

-- The object with its socket, before `connect` returns.
abbrev pub dialled : ℕ → TcpClient → TcpClient
dialled socket c = record c {
  state_flags = assign connect_in_progress true c.state_flags;
  comm_fd = socket;
}

abbrev pub Tried : (ℕ → ℕ) → ℕ → ℕ → ConnectResult → ConnectResult × Heap → Type 0
Tried n socket p want (r, h') =
    (r ≡ want)
    × RefCounted h' n
    × ((d : TcpClient) × (h' p ≡ some d) × (d.comm_fd ≡ socket) × Told r d)

after_connect-Tried :
    (n : ℕ → ℕ) (socket : ℕ) (attempt : Attempt) (try_again : Bool) (p : ℕ) (h0 h : Heap)
    (c : TcpClient)
    → RefCounted h0 n
    → c.ref_count ≡ n p + threads c
    → c.active_connect_thread ≡ false
    → Changed h0 p (dialled socket c) h
    → (attempt ≡ no_name → ⊥)
    → Returns (Tried n socket p (expected attempt try_again)) (after_connect attempt try_again p h)
unfolding after_connect start_connector reference
after_connect-Tried n socket refused false p h0 h c counted own idle ch named = (
  refl,
  Changed-RefCounted h0 h n n p (dialled socket c) counted ch own (λ q e. refl),
  (dialled socket c, ch.0, refl, (refl, idle)),
)
after_connect-Tried n socket refused true p h0 h c counted own idle ch named =
    let c1 : TcpClient = record (dialled socket c) { active_connect_thread = true } in
    let c2 : TcpClient = record c1 { ref_count = c.ref_count + 1 } in
    Returns-bind (Changed h0 p c2) _ (start_connector p h) _
      (Returns-bind (Changed h0 p c1) _
        (modify p (λ d. record d { active_connect_thread = true }) h) _
        (modify-Changed h0 h p (dialled socket c) _ ch)
        (λ h1 ch1. modify-Changed h0 h1 p c1 (λ d. record d { ref_count = d.ref_count + 1 }) ch1))
      (λ h2 ch2. (
        refl,
        Changed-RefCounted h0 h2 n n p c2 counted ch2 (omega (arith, own, ap bit idle))
            (λ q e. refl),
        (c2, ch2.0, refl, (refl, refl)),
      ))
after_connect-Tried n socket (connected_on port) try_again p h0 h c counted own idle ch named =
    Returns-bind (Changed h0 p (joined port (dialled socket c))) _ (connection_made p (some port) h)
      _ (connection_made-Changed h0 h p port (dialled socket c) ch)
      (λ h1 ch1. (
        refl,
        Changed-RefCounted h0 h1 n n p (joined port (dialled socket c)) counted ch1 own
            (λ q e. refl),
        (joined port (dialled socket c), ch1.0, refl, (refl, refl, idle)),
      ))
after_connect-Tried n socket no_name try_again p h0 h c counted own idle ch named =
    absurd (named refl)

pub guarded :
    {B : Type 0} (P : B → Type 0) (b : Bool) (m : Outcome B)
    → b ≡ true
    → Returns P m
    → Returns P (assert b >> m)
guarded P true m e r = r
guarded P false m e r = absurd (cc e)

-- If all references are accounted for and a live client has no connector thread, port or socket but
-- its own address and the server's address and port, and no connection is made whose local port
-- cannot be read, then `TryClientConnect` succeeds: it is done after a connection, gives up after a
-- refusal without `try_again`, and retries after one with it. The references stay accounted for, a
-- started thread's own included, the client has the socket, and its flags and connector thread say
-- which of the three happened.
pub try_client_connect-Tried :
    (n : ℕ → ℕ) (socket : ℕ) (attempt : Attempt) (p : ℕ) (try_again : Bool) (h : Heap)
    (c : TcpClient)
    → RefCounted h n
    → h p ≡ some c
    → IsFresh c
    → (attempt ≡ no_name → ⊥)
    → Returns
        (Tried n socket p (expected attempt try_again))
        (try_client_connect socket attempt p try_again h)
unfolding try_client_connect
try_client_connect-Tried n socket attempt p try_again h c counted live fresh named = rw live (
    guarded _ _ _ (ap not fresh.idle) (
      guarded _ _ _ (ap not fresh.own_ip) (
        guarded _ _ _ (ap (λ k. k == 0) fresh.no_port) (
          guarded _ _ _ (ap not fresh.server_ip) (
            guarded _ _ _ (ap not fresh.server_port) (
              guarded _ _ _ (ap (λ k. k == 0) fresh.no_socket) (
                Returns-bind
                  (Changed h p
                    (record c { state_flags = assign connect_in_progress true c.state_flags }))
                  _ (set_state p connect_in_progress h) _
                  (set_state-Changed h h p c connect_in_progress (live, λ q e. refl))
                  (λ h1 ch1.
                    Returns-bind (Changed h p (dialled socket c)) _
                      (modify p (λ d. record d { comm_fd = socket }) h1) _
                      (modify-Changed h h1 p _ _ ch1)
                      (λ h2 ch2.
                        after_connect-Tried n socket attempt try_again p h h2 c counted
                          (own_lem h n p c counted live) fresh.idle ch2 named)))))))))

-- The thread loops over refusals and then has its connection.
abbrev pub Settled : (ℕ → ℕ) → ℕ → Bool × Heap → Type 0
Settled n p (sent, h') = (sent ≡ true) × RefCounted h' n

-- If all references are accounted for and a live client has a connector thread, then the thread,
-- after any number of refusals and one connection, succeeds: it has enqueued its message and has
-- given up its reference and no other.
pub connect_retry-Settled :
    (n : ℕ → ℕ) (before : ℕ) (port : ℕ) (p : ℕ) (h : Heap) (c : TcpClient)
    → RefCounted h n
    → h p ≡ some c
    → c.active_connect_thread ≡ true
    → Returns
        (Settled n p)
        (connect_retry (replicate before refused ++ (connected_on port ∷ [])) p h)
unfolding connect_retry
connect_retry-Settled n (suc before) port p h c counted live busy =
    connect_retry-Settled n before port p h c counted live busy
connect_retry-Settled n zero port p h c counted live busy =
    let ended : TcpClient = record (joined port c) { active_connect_thread = false } in
    Returns-bind (Changed h p (joined port c)) _ (connection_made p (some port) h) _
      (connection_made-Changed h h p port c (live, λ q e. refl))
      (λ h1 ch1.
        Returns-bind (Changed h p ended) _
          (modify p (λ d. record d { active_connect_thread = false }) h1) _
          (modify-Changed h h1 p (joined port c) _ ch1)
          (λ h2 ch2.
            Returns-bind (Dropped p n) _ (dereference p h2) _
              (dereference-Dropped h2 n p (
                Changed-RefCounted h h2 n (λ q. n q + one p q) p ended counted ch2
                  (omega (arith, own_lem h n p c counted live, ap bit busy, one_self p))
                  (λ q e. rw e (omega arith))))
              (λ (alive, h3) d. (refl, d.0))))
