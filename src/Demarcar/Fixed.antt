-- ===== src/Demarcar/Fixed.antt =====
-- TcpMsgFixedSizeDemarcar.cpp: every message has the size that the constructor was given.
use tcpserver_lib.Base.{
  ℕ, zero, suc, ◌+◌, ◌≤◌, ◌<◌, ◌≡◌, refl, ap, ◌∙◌, true, false, some, List, ◌++◌, arith, ok, stop,
  memory, Returns, Returns-result, Returns-bind, length-drop, leb, length, take, drop, concat, All,
  append_assoc, take-append-drop, length-take, take_all,
}
use native.Mathlib.Nat.{div-eq_of_lt, div-eq-sub-div}
use native.Mathlib.Decide.{dec_le}
use tcpserver_lib.Bcb.{ByteCircularBuffer}
use tcpserver_lib.Bcb
use tcpserver_lib.Bcb.Valid.{IsValid, contents, length-contents}
use tcpserver_lib.Bcb.Use.{write-fits, read-removes, read-overflows}
use tcpserver_lib.Demarcar.Process.{process_msg-ok}
use tcpserver_lib.Demarcar.{
  TcpMsgDemarcar, fixed_size, Message, max_client_buffer_size, is_buffer_ready_to_flush, extract,
  Flushed, process_client_msg, process_msg,
}

ready_fixed :
    (size : ℕ) (bcb : ByteCircularBuffer)
    → 0 < size
    → is_buffer_ready_to_flush (fixed_size size) bcb ≡ ok (leb size bcb.current_size)
unfolding is_buffer_ready_to_flush
ready_fixed size bcb pos = elim (dec_le size bcb.current_size) [
  | yes stored ↦ ground (arith, div-eq-sub-div pos stored)
  | no few ↦ let less : bcb.current_size < size = omega arith in ground (arith, div-eq_of_lt less)
]

module _ {bcb : ByteCircularBuffer} (v : IsValid bcb) (size : ℕ) (buffer : List ℕ)
    (small : size ≤ length buffer) where
  extract_fixed :
      size ≤ bcb.current_size
      → (buffer' : List ℕ) × (bcb' : ByteCircularBuffer) × (extract (fixed_size size) bcb buffer
          ≡ ok (take size (contents bcb), bcb', buffer'))
        × IsValid bcb'
        × (contents bcb' ≡ drop size (contents bcb))
        × (length buffer' ≡ length buffer)
        × (bcb'.buffer_size ≡ bcb.buffer_size)
  unfolding extract
  extract_fixed stored =
      let (buffer', bcb', e, out, v', rest, same, size') =
        read-removes v buffer size small stored in
      (buffer', bcb', rw e (rw out), v', rest, same, size')

-- The messages and what stays in the ring are the bytes that were there, in order; each message has
-- the size, and less than one message stays.
abbrev pub Chopped : ℕ → ByteCircularBuffer → ℕ → Flushed → Type 0
Chopped size bcb room (ms, bcb', buffer') =
    IsValid bcb'
    × (concat ms ++ contents bcb' ≡ contents bcb)
    × All (λ m. length m ≡ size) ms
    × (bcb'.current_size < size)
    × (length buffer' ≡ room)
    × (bcb'.buffer_size ≡ bcb.buffer_size)

flush_fixed :
    (size k : ℕ) {bcb : ByteCircularBuffer} (buffer : List ℕ)
    → IsValid bcb
    → 0 < size
    → size ≤ length buffer
    → bcb.current_size < k
    → Returns
        (Chopped size bcb (length buffer))
        (process_client_msg k true (fixed_size size) bcb buffer)
unfolding process_client_msg
flush_fixed size zero buffer v pos small enough = absurd (omega arith)
flush_fixed size (suc k) {bcb} buffer v pos small enough = elim (dec_le size bcb.current_size) [
  | no few ↦ rw (ready_fixed size bcb pos, few_lem few) (v, refl, tt, omega arith, refl, refl)
  | yes stored ↦
      let (buffer', bcb', e, v', rest, same, size') = extract_fixed v size buffer small stored in
      rw (ready_fixed size bcb pos, stored_lem stored, e)
        (Returns-bind (Chopped size bcb' (length buffer')) (Chopped size bcb (length buffer)) _ _
          (flush_fixed size k buffer' v' pos (omega arith) (
            omega (
              arith,
              length-contents bcb,
              length-contents bcb',
              length-drop size (contents bcb),
              ap length rest,
            )))
          λ (ms, bcb'', buffer'') (v'', bytes, sizes, few, same', cap'). (
            v'',
            append_assoc (take size (contents bcb)) (concat ms) (contents bcb'')
                ∙ ap (λ t. take size (contents bcb) ++ t) (bytes ∙ rest)
                ∙ take-append-drop size (contents bcb),
            (omega (arith, length-take size (contents bcb), length-contents bcb), sizes),
            few,
            same' ∙ same,
            cap' ∙ size',
          ))
]
  where
    few_lem : ¬ (size ≤ bcb.current_size) → leb size bcb.current_size ≡ false
    few_lem few = ground arith

    stored_lem : size ≤ bcb.current_size → leb size bcb.current_size ≡ true
    stored_lem stored = ground arith

-- A demarcator of this class that is in use: its ring is valid, and its message buffer has the size
-- that the constructor gives it.
pub record IsFixed (size : ℕ) (bcb : ByteCircularBuffer) (d : TcpMsgDemarcar) : Type 0 where
  pub class : d.framing ≡ fixed_size size
  pub ring : d.bcb ≡ some bcb
  pub valid : IsValid bcb
  pub room : (buffer : List ℕ) × (d.buffer ≡ some buffer) × (length buffer ≡ max_client_buffer_size)

-- What `ProcessMsg` hands on and leaves.
pub record Processed (size : ℕ) (bcb : ByteCircularBuffer) (msg_recvd : List ℕ) (ms : List Message)
    (d' : TcpMsgDemarcar) : Type 0 where
  pub after : ByteCircularBuffer
  pub fixed : IsFixed size after d'
  pub bytes : concat ms ++ contents after ≡ contents bcb ++ msg_recvd
  pub sizes : All (λ m. length m ≡ size) ms
  pub few : after.current_size < size
  pub cap : after.buffer_size ≡ bcb.buffer_size

module _ (size : ℕ) (pos : 0 < size) (small : size ≤ max_client_buffer_size) where
  -- A demarcator of a fixed size between 1 and 1024 in use, with a callback registered, takes any
  -- bytes that are not empty and fit into its ring: `ProcessMsg` succeeds, the messages handed on
  -- and what is left in the ring are the former contents and the new bytes, in order, every message
  -- has the size, less than one message is left, and the demarcator stays well formed.
  pub process_msg-Processed :
      {bcb : ByteCircularBuffer} {d : TcpMsgDemarcar} (msg_recvd : List ℕ)
      → IsFixed size bcb d
      → 0 < length msg_recvd
      → bcb.current_size + length msg_recvd ≤ bcb.buffer_size
      → Returns
          (λ (ms, d'). Processed size bcb msg_recvd ms d')
          (process_msg true d msg_recvd (length msg_recvd))
  unfolding process_msg
  process_msg-Processed {bcb} {d} msg_recvd f some_bytes fits =
      let (bcb', e, v', more, size') =
        write-fits f.valid msg_recvd (length msg_recvd) (omega arith) (omega arith) fits in
      let (buffer, eb, same) = f.room in
      finish bcb' e v'
        (more ∙ ap (λ t. contents bcb ++ t) (take_all (length msg_recvd) msg_recvd le)) size' buffer
        eb same
    where
      le : length msg_recvd ≤ length msg_recvd
      le = omega arith

      finish :
          (bcb' : ByteCircularBuffer)
          → Bcb.write bcb msg_recvd (length msg_recvd) ≡ ok (length msg_recvd, bcb')
          → IsValid bcb'
          → contents bcb' ≡ contents bcb ++ msg_recvd
          → bcb'.buffer_size ≡ bcb.buffer_size
          → (buffer : List ℕ) → d.buffer ≡ some buffer
          → length buffer ≡ max_client_buffer_size
          → Returns
              (λ (ms, d'). Processed size bcb msg_recvd ms d')
              (process_msg true d msg_recvd (length msg_recvd))
      finish bcb' e v' more size' buffer eb same =
          let ((ms, bcb'', buffer''), flushed, (v'', bytes, sizes, few, same', cap')) =
            Returns-result (Chopped size bcb' (length buffer)) _ (
              flush_fixed size (suc bcb'.current_size) buffer v' pos (omega arith) (omega arith)) in
          let flushed' : process_client_msg (suc bcb'.current_size) true d.framing bcb' buffer
              ≡ ok (ms, bcb'', buffer'') =
            rw f.class flushed in
          rw (process_msg-ok true f.ring eb msg_recvd (length msg_recvd) (omega arith) e flushed')
            (record {
              after = bcb'';
              fixed = record {
                class = f.class;
                ring = refl;
                valid = v'';
                room = (buffer'', refl, omega (arith, same, same'));
              };
              bytes = bytes ∙ more;
              sizes = sizes;
              few = few;
              cap = cap' ∙ size';
            })

-- If the fixed message size exceeds the message buffer, and a valid ring holds that many bytes,
-- `ProcessClientMsg` of the fixed-size demarcator accesses memory out of bounds.
pub oversized_message_overflows :
    (size k : ℕ) {bcb : ByteCircularBuffer} (buffer : List ℕ)
    → IsValid bcb
    → length buffer < size
    → size ≤ bcb.current_size
    → process_client_msg (suc k) true (fixed_size size) bcb buffer ≡ stop memory
unfolding process_client_msg extract
oversized_message_overflows size k {bcb} buffer v over stored =
    let full : leb size bcb.current_size ≡ true = ground arith in
    let broken = read-overflows v buffer size true over stored in
    rw (ready_fixed size bcb (omega arith), full) (rw broken)
