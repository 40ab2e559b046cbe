-- ===== src/Client/Tests.antt =====
-- One client on the heap, and what becomes of its references.
use tcpserver_lib.Base.{
  ℕ, ◌+◌, ◌≡◌, refl, ap, Bool, true, false, none, some, Returns, ◌==◌, if◌then◌else◌,
}
use tcpserver_lib.Client.{TcpClient, StateFlags, Heap, conn_none, update, dereference}
use tcpserver_lib.Client.Connect.{refused, retrying, try_client_connect}
use tcpserver_lib.Client.Connect.Refs.{Tried, try_client_connect-Tried}
use tcpserver_lib.Base.{◌<◌, Bool-cases, inl, inr}
use tcpserver_lib.Client.Fds.{fd_setsize, SmallFds}
use tcpserver_lib.Client.Heap.{
  RefCounted, Dropped, one, threads, update-RefCounted, dereference-Dropped,
}

abbrev pub no_flags : StateFlags
no_flags = record {
  is_connect_in_progress = false;
  is_connected = false;
  is_passive_opener = false;
  is_active_opener = false;
  is_ka_based = false;
  is_ka_expired = false;
  is_multiplex_listen = false;
  is_threaded = false;
}

-- A client with this count and these threads.
abbrev pub client : ℕ → Bool → Bool → TcpClient
client count listening connecting = record {
  ip_addr = 10;
  port_no = 20;
  server_ip_addr = 30;
  server_port_no = 40;
  comm_fd = 5;
  ref_count = count;
  state_flags = no_flags;
  client_thread = listening;
  active_connect_thread = connecting;
  msgd = none;
  conn_type = conn_none;
  bytes_sent = 0;
  bytes_recvd = 0;
}

-- The client is the object 7.
abbrev pub only : TcpClient → Heap
only c = update (λ _. none) 7 (some c)

pub only-RefCounted :
    (c : TcpClient) (k : ℕ)
    → c.ref_count ≡ k + threads c
    → RefCounted (only c) (λ q. if q == 7 then k else 0)
only-RefCounted c k e =
    update-RefCounted (λ _. none) (λ _. 0) (λ q. if q == 7 then k else 0) 7 (some c) (λ _. refl) e
      (λ q out. ap (λ b. if b then k else 0) out)

dereference-Dropped_example :
    Returns (Dropped 7 (λ q. if q == 7 then 0 else 0)) (dereference 7 (only (client 1 false false)))
dereference-Dropped_example =
    dereference-Dropped (only (client 1 false false)) (λ q. if q == 7 then 0 else 0) 7 last
  where
    last : RefCounted (only (client 1 false false)) (λ q. (if q == 7 then 0 else 0) + one 7 q)
    last =
        update-RefCounted (λ _. none) (λ _. 0) (λ q. (if q == 7 then 0 else 0) + one 7 q) 7
          (some (client 1 false false)) (λ _. refl) refl
          (λ q out. ap (λ b. (if b then 0 else 0) + (if b then 1 else 0)) out)

abbrev fresh : TcpClient
fresh = record (client 1 false false) { port_no = 0; comm_fd = 0 }

try_client_connect-Tried_example :
    Returns
      (Tried (λ q. if q == 7 then 1 else 0) 9 7 retrying)
      (try_client_connect 9 refused 7 true (only fresh))
try_client_connect-Tried_example =
    try_client_connect-Tried (λ q. if q == 7 then 1 else 0) 9 refused 7 true (only fresh) fresh
      (only-RefCounted fresh 1 refl) refl
      (record {
        idle = refl;
        own_ip = refl;
        no_port = refl;
        server_ip = refl;
        server_port = refl;
        no_socket = refl;
      })
      (λ e. absurd (cc e))

pub only-SmallFds : (c : TcpClient) → c.comm_fd < fd_setsize → SmallFds (only c)
only-SmallFds c small q = elim (Bool-cases (q == 7)) [ inl e ↦ rw e small | inr e ↦ rw e tt ]
