-- ===== src/Demarcar/Process.antt =====
-- `ProcessMsg` of the base class, in terms of what the flush of the ring comes to.
use tcpserver_lib.Base.{
  ℕ, suc, ◌≡◌, ◌≢◌, ◌⊎◌, inl, inr, refl, Bool, true, false, some, List, [], arith, Outcome, ok,
  stop, Stop, ◌==◌,
}
use tcpserver_lib.Bcb.{ByteCircularBuffer}
use tcpserver_lib.Bcb
use tcpserver_lib.Demarcar.{
  Framing, TcpMsgDemarcar, Message, is_buffer_ready_to_flush, process_client_msg, process_msg,
}

Outcome-cases : (r : Outcome Bool) → (r ≡ ok true) ⊎ (r ≡ ok false) ⊎ ((s : Stop) × (r ≡ stop s))
Outcome-cases (ok true) = inl refl
Outcome-cases (ok false) = inr (inl refl)
Outcome-cases (stop s) = inr (inr (s, refl))

module _ (k : ℕ) (registered : Bool) (f : Framing) (bcb : ByteCircularBuffer)
    (buffer : List ℕ) where
  pub process_client_msg-idle :
      is_buffer_ready_to_flush f bcb ≡ ok false
      → process_client_msg (suc k) registered f bcb buffer ≡ ok ([], bcb, buffer)
  unfolding process_client_msg
  process_client_msg-idle idle = rw idle

  pub process_client_msg-stop :
      (s : Stop)
      → is_buffer_ready_to_flush f bcb ≡ stop s
      → process_client_msg (suc k) registered f bcb buffer ≡ stop s
  unfolding process_client_msg
  process_client_msg-stop s stopped = rw stopped

-- The test that `ProcessMsg` makes before the loop changes nothing.
module _ (registered : Bool) {d : TcpMsgDemarcar} {bcb bcb' : ByteCircularBuffer} {buffer : List ℕ}
    (ring : d.bcb ≡ some bcb) (room : d.buffer ≡ some buffer) (msg_recvd : List ℕ) (n : ℕ)
    (some_bytes : n ≢ 0) (written : Bcb.write bcb msg_recvd n ≡ ok (n, bcb')) where
  pub process_msg-ok :
      {ms : List Message} {bcb'' : ByteCircularBuffer} {buffer'' : List ℕ}
      → process_client_msg (suc bcb'.current_size) registered d.framing bcb' buffer
        ≡ ok (ms, bcb'', buffer'')
      → process_msg registered d msg_recvd n
        ≡ ok (ms, record d { bcb = some bcb''; buffer = some buffer'' })
  unfolding process_msg
  process_msg-ok {ms} {bcb''} {buffer''} e =
      let ne : (n == 0) ≡ false = ground arith in
      rw (ring, written, ne)
        (elim (Outcome-cases (is_buffer_ready_to_flush d.framing bcb')) [
          | inl ready ↦ rw (ready, room, e)
          | inr (inl idle) ↦ rw idle (
              ground (
                arith,
                process_client_msg-idle bcb'.current_size registered d.framing bcb' buffer idle,
              ))
          | inr (inr (s, stopped)) ↦ absurd (
              cc (
                process_client_msg-stop bcb'.current_size registered d.framing bcb' buffer s
                  stopped))
        ])
