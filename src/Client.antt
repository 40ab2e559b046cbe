-- ===== src/Client.antt =====
-- TcpClient.h and TcpClient.cpp: the objects that stand for connections, on a heap. A pointer is a
-- number, and what it points to is there until `Abort` deletes it.
pub mod Connect
pub mod Fds
pub mod Heap
pub mod Tests
pub mod Threads
use tcpserver_lib.Base.{
  ℕ, zero, suc, ◌+◌, ◌-◌, ◌%◌, ◌^◌, Bool, true, false, not, ◌&&◌, Option, none, some, List, Outcome,
  ok, stop, ◌>>=◌, ◌>>◌, deref, assert, ◌==◌, if◌then◌else◌, ltb,
}
use tcpserver_lib.Demarcar.{TcpMsgDemarcar}

-- The bits of `TcpClient::state_flags`.
pub data StateBit : Type 0 where
  connect_in_progress connected passive_opener active_opener : StateBit
  ka_based ka_expired multiplex_listen threaded : StateBit

-- Which of the bits are set.
pub record StateFlags : Type 0 where
  pub is_connect_in_progress : Bool
  pub is_connected : Bool
  pub is_passive_opener : Bool
  pub is_active_opener : Bool
  pub is_ka_based : Bool
  pub is_ka_expired : Bool
  pub is_multiplex_listen : Bool
  pub is_threaded : Bool

abbrev pub assign : StateBit → Bool → StateFlags → StateFlags
assign connect_in_progress v f = record f { is_connect_in_progress = v }
assign connected v f = record f { is_connected = v }
assign passive_opener v f = record f { is_passive_opener = v }
assign active_opener v f = record f { is_active_opener = v }
assign ka_based v f = record f { is_ka_based = v }
assign ka_expired v f = record f { is_ka_expired = v }
assign multiplex_listen v f = record f { is_multiplex_listen = v }
assign threaded v f = record f { is_threaded = v }

abbrev pub is_bit_set : StateBit → StateFlags → Bool
is_bit_set connect_in_progress f = f.is_connect_in_progress
is_bit_set connected f = f.is_connected
is_bit_set passive_opener f = f.is_passive_opener
is_bit_set active_opener f = f.is_active_opener
is_bit_set ka_based f = f.is_ka_based
is_bit_set ka_expired f = f.is_ka_expired
is_bit_set multiplex_listen f = f.is_multiplex_listen
is_bit_set threaded f = f.is_threaded

-- `tcp_connection_type_t`.
pub data ConnType : Type 0 where
  conn_none via_accept via_connect : ConnType

-- A thread pointer is `true` if it is not null. `bytes_sent` and `bytes_recvd` are those of `conn`.
pub record TcpClient : Type 0 where
  pub ip_addr : ℕ
  pub port_no : ℕ
  pub server_ip_addr : ℕ
  pub server_port_no : ℕ
  pub comm_fd : ℕ
  pub ref_count : ℕ
  pub state_flags : StateFlags
  pub client_thread : Bool
  pub active_connect_thread : Bool
  pub msgd : Option TcpMsgDemarcar
  pub conn_type : ConnType
  pub bytes_sent : ℕ
  pub bytes_recvd : ℕ

abbrev pub Heap : Type 0
Heap = ℕ → Option TcpClient

abbrev pub update : Heap → ℕ → Option TcpClient → Heap
update h p c q = if q == p then c else h q

-- A method that changes fields of the object.
abbrev pub modify : ℕ → (TcpClient → TcpClient) → Heap → Outcome Heap
modify p f h = do c ← deref (h p); ok (update h p (some (f c)))

unfoldable pub set_state : ℕ → StateBit → Heap → Outcome Heap
set_state p bit = modify p (λ c. record c { state_flags = assign bit true c.state_flags })

unfoldable pub unset_state : ℕ → StateBit → Heap → Outcome Heap
unset_state p bit = modify p (λ c. record c { state_flags = assign bit false c.state_flags })

unfoldable pub is_state_set : ℕ → StateBit → Heap → Outcome Bool
is_state_set p bit h = do c ← deref (h p); ok (is_bit_set bit c.state_flags)

unfoldable pub reference : ℕ → Heap → Outcome Heap
reference p = modify p (λ c. record c { ref_count = c.ref_count + 1 })

-- `Abort`, and the destructor's assertions on what `Abort` has not reset itself.
unfoldable pub abort : ℕ → Heap → Outcome Heap
abort p h = do
  c ← deref (h p)
  assert (not c.client_thread)
  assert (not c.active_connect_thread)
  assert (c.ref_count == 0)
  ok (update h p none)

-- The first component says whether the object is still there (`return this`).
unfoldable pub dereference : ℕ → Heap → Outcome (Bool × Heap)
dereference p h = do c ← deref (h p); if c.ref_count == 0 then gone h else dropped c
  where
    gone : Heap → Outcome (Bool × Heap)
    gone h' = do h'' ← abort p h'; ok (false, h'')

    less : TcpClient → Heap
    less c = update h p (some (record c { ref_count = c.ref_count - 1 }))

    dropped : TcpClient → Outcome (Bool × Heap)
    dropped c = if c.ref_count - 1 == 0 then gone (less c) else ok (true, less c)

-- `StartThread` waits until the new thread has taken its reference.
unfoldable pub start_thread : ℕ → Heap → Outcome Heap
start_thread p h = do
  c ← deref (h p)
  assert (not c.client_thread)
  h ← modify p (λ c. record c { client_thread = true }) h
  h ← set_state p threaded h
  reference p h

unfoldable pub stop_thread : ℕ → Heap → Outcome (Bool × Heap)
stop_thread p h = do
  c ← deref (h p)
  assert c.client_thread
  h ← modify p (λ c. record c { client_thread = false }) h
  h ← unset_state p threaded h
  dereference p h

unfoldable pub stop_connector_thread : ℕ → Heap → Outcome (Bool × Heap)
stop_connector_thread p h = do
  c ← deref (h p)
  assert c.active_connect_thread
  h ← modify p (λ c. record c { active_connect_thread = false }) h
  h ← unset_state p connect_in_progress h
  dereference p h
