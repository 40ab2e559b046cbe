-- ===== src/Client/Connect.antt =====
-- TcpClient::TryClientConnect, its retry thread, and TcpClient::SendMsg in TcpClient.cpp. What the
-- socket calls return is given.
pub mod Refs
use tcpserver_lib.Base.{
  ℕ, ◌+◌, ◌%◌, ◌^◌, Bool, true, false, not, Option, none, some, List, [], ◌∷◌, Outcome, ok, ◌>>=◌,
  ◌>>◌, deref, assert, ◌==◌, if◌then◌else◌,
}
use tcpserver_lib.Client.{
  TcpClient, Heap, connect_in_progress, connected, modify, set_state, unset_state, reference,
  dereference,
}

-- The returned 0, -1 and 1.
pub data ConnectResult : Type 0 where
  done given_up retrying : ConnectResult

-- What `connect` and then `getsockname` come to: a refusal, a connection on a local port, or a
-- connection whose local port cannot be read.
pub data Attempt : Type 0 where
  refused : Attempt
  connected_on : ℕ → Attempt
  no_name : Attempt

-- What both functions do with a connection.
unfoldable pub connection_made : ℕ → Option ℕ → Heap → Outcome Heap
connection_made p name h = do
  h ← unset_state p connect_in_progress h
  h ← set_state p connected h
  port ← named name
  modify p (λ c. record c { port_no = port }) h
  where
    -- `assert(!getsockname(...))`.
    named : Option ℕ → Outcome ℕ
    named none = do assert false; ok 0
    named (some port) = ok port

-- The end of `TryClientConnect`: the new thread has a reference.
unfoldable pub start_connector : ℕ → Heap → Outcome Heap
start_connector p h = do
  h ← modify p (λ c. record c { active_connect_thread = true }) h
  reference p h

-- `TryClientConnect` from the return of `connect` on.
unfoldable pub after_connect : Attempt → Bool → ℕ → Heap → Outcome (ConnectResult × Heap)
after_connect refused false p h = ok (given_up, h)
after_connect refused true p h = do h ← start_connector p h; ok (retrying, h)
after_connect (connected_on port) try_again p h = do
  h ← connection_made p (some port) h
  ok (done, h)
after_connect no_name try_again p h = do h ← connection_made p none h; ok (done, h)

unfoldable pub try_client_connect : ℕ → Attempt → ℕ → Bool → Heap → Outcome (ConnectResult × Heap)
try_client_connect socket attempt p try_again h = do
  c ← deref (h p)
  assert (not c.active_connect_thread)
  assert (not (c.ip_addr == 0))
  assert (c.port_no == 0)
  assert (not (c.server_ip_addr == 0))
  assert (not (c.server_port_no == 0))
  assert (c.comm_fd == 0)
  h ← set_state p connect_in_progress h
  h ← modify p (λ c. record c { comm_fd = socket }) h
  after_connect attempt try_again p h

-- `connect_retry_fn`, over the attempts until one succeeds. The first component says whether the
-- message CTRLR_ACTION_TCP_CLIENT_ACTIVE_CONNECT_SUCCESS has been enqueued: without a connection
-- the thread goes on, and nothing has changed.
unfoldable pub connect_retry : List Attempt → ℕ → Heap → Outcome (Bool × Heap)
connect_retry [] p h = ok (false, h)
connect_retry (refused ∷ attempts) p h = connect_retry attempts p h
connect_retry (connected_on port ∷ attempts) p h = do
  h ← connection_made p (some port) h
  h ← modify p (λ c. record c { active_connect_thread = false }) h
  (alive, h) ← dereference p h
  ok (true, h)
connect_retry (no_name ∷ attempts) p h = do h ← connection_made p none h; ok (false, h)

-- `SendMsg`, given what `sendto` returns: a count, or an error. The `uint32_t` sum wraps.
unfoldable pub send_msg : Option ℕ → ℕ → Heap → Outcome (Option ℕ × Heap)
send_msg sent p h = do c ← deref (h p); if c.comm_fd == 0 then ok (none, h) else counted sent
  where
    counted : Option ℕ → Outcome (Option ℕ × Heap)
    counted none = ok (none, h)
    counted (some n) = do
      h ← modify p (λ c. record c { bytes_sent = (c.bytes_sent + n) % 2 ^ 32 }) h
      ok (some n, h)
