-- ===== src/Demarcar.antt =====
-- TcpMsgDemarcar.cpp, TcpMsgFixedSizeDemarcar.cpp and TcpMsgVariableSizeDemarcar.cpp: the bytes of a
-- connection are collected in a ring and handed to the application message by message. The two
-- subclasses are the constructors of `Framing`, and a virtual call is a function by clauses.
pub mod Cut
pub mod Fixed
pub mod Frames
pub mod FrameStream
pub mod Process
pub mod Stream
pub mod Variable
mod Tests
use tcpserver_lib.Base.{
  ℕ, zero, suc, ◌+◌, ◌*◌, ◌/◌, Bool, true, false, not, ◌&&◌, Option, none, some, List, [], ◌∷◌,
  ◌++◌, Outcome, ok, stop, assertion, memory, arithmetic, fuel, ◌>>=◌, ◌>>◌, deref, assert, ltb,
  leb, ◌==◌, if◌then◌else◌, length, take, replicate, get_or,
}
use tcpserver_lib.Bcb
use tcpserver_lib.Bcb.{ByteCircularBuffer}

-- `DEFAULT_CBC_SIZE`, `MAX_CLIENT_BUFFER_SIZE` and `HDR_MSG_SIZE`.
abbrev pub default_cbc_size : ℕ
default_cbc_size = 10240

abbrev pub max_client_buffer_size : ℕ
max_client_buffer_size = 1024

abbrev pub hdr_msg_size : ℕ
hdr_msg_size = 2

-- `TcpMsgDemarcarType`.
pub data TcpMsgDemarcarType : Type 0 where
  demarcar_none demarcar_fixed_size demarcar_variable_size demarcar_pattern : TcpMsgDemarcarType

-- The class of the object, with the field that a subclass adds.
pub data Framing : Type 0 where
  fixed_size : ℕ → Framing
  variable_size : Framing

-- The two pointers are null after `Destroy`.
pub record TcpMsgDemarcar : Type 0 where
  pub framing : Framing
  pub bcb : Option ByteCircularBuffer
  pub buffer : Option (List ℕ)

abbrev pub Message : Type 0
Message = List ℕ

-- The constructors.
unfoldable pub create : Framing → TcpMsgDemarcar
unfolding Bcb.create_new
create f = record {
  framing = f;
  bcb = some (Bcb.create_new default_cbc_size);
  buffer = some (replicate max_client_buffer_size 0);
}

unfoldable pub instantiate : TcpMsgDemarcarType → ℕ → Option TcpMsgDemarcar
unfolding create
instantiate demarcar_fixed_size size = some (create (fixed_size size))
instantiate demarcar_variable_size size = some (create variable_size)
instantiate demarcar_pattern size = none
instantiate demarcar_none size = none

unfoldable pub destroy : TcpMsgDemarcar → TcpMsgDemarcar
destroy d = record d { bcb = none; buffer = none }

abbrev pub is_null : {A : Type 0} → Option A → Bool
is_null none = true
is_null (some _) = false

-- The destructor asserts that `Destroy` has run.
unfoldable pub destruct : TcpMsgDemarcar → Outcome (Unit {0})
destruct d = do assert (is_null d.bcb); assert (is_null d.buffer)

unfoldable pub get_total_msg_size : TcpMsgDemarcar → Outcome ℕ
get_total_msg_size d = do bcb ← deref d.bcb; ok bcb.current_size

-- The `uint16_t` whose first two bytes in memory these are, on a little-endian host.
abbrev pub uint16_at : List ℕ → ℕ
uint16_at bytes = get_or bytes 0 0 + 256 * get_or bytes 1 0

-- `BCBRead(bcb, &msg_size, HDR_MSG_SIZE, false)`: the header stays in the ring.
unfoldable pub peek_header : ByteCircularBuffer → Outcome ℕ
peek_header bcb = do
  (count, header, _) ← Bcb.read bcb (0 ∷ 0 ∷ []) hdr_msg_size false
  ok (uint16_at header)

unfoldable pub is_buffer_ready_to_flush : Framing → ByteCircularBuffer → Outcome Bool
unfolding peek_header
is_buffer_ready_to_flush (fixed_size size) bcb =
    if size == 0 then stop arithmetic else ok (ltb 0 (bcb.current_size / size))
is_buffer_ready_to_flush variable_size bcb =
    if leb bcb.current_size hdr_msg_size
    then ok false
    else do msg_size ← peek_header bcb; ok (leb msg_size bcb.current_size)

-- One round of the loop of `ProcessClientMsg`: takes one message out of the ring.
unfoldable pub extract :
    Framing → ByteCircularBuffer → List ℕ → Outcome (Message × ByteCircularBuffer × List ℕ)
unfolding peek_header
extract (fixed_size size) bcb buffer = do
  (bytes_read, buffer', bcb') ← Bcb.read bcb buffer size true
  ok (take bytes_read buffer', bcb', buffer')
extract variable_size bcb buffer = do
  msg_size ← peek_header bcb
  (bytes_read, buffer', bcb') ← Bcb.read bcb buffer msg_size true
  assert (msg_size == bytes_read)
  ok (take msg_size buffer', bcb', buffer')

-- What `ProcessClientMsg` leaves, and the messages that it passed to `client_msg_recvd`, in order.
abbrev pub Flushed : Type 0
Flushed = List Message × ByteCircularBuffer × List ℕ

abbrev pub deliver : Message → Flushed → Flushed
deliver m (ms, bcb, buffer) = (m ∷ ms, bcb, buffer)

-- `ProcessClientMsg`. `registered` says that `client_msg_recvd` is set: the call is not guarded.
unfoldable pub process_client_msg :
    ℕ → Bool → Framing → ByteCircularBuffer → List ℕ → Outcome Flushed
process_client_msg zero registered f bcb buffer = stop fuel
process_client_msg (suc k) registered f bcb buffer = do
  ready ← is_buffer_ready_to_flush f bcb
  elim ready [
    | false ↦ ok ([], bcb, buffer)
    | true ↦ do
      (m, bcb', buffer') ← extract f bcb buffer
      if registered then ok tt else stop memory
      rest ← process_client_msg k registered f bcb' buffer'
      ok (deliver m rest)
  ]

-- `ProcessMsg`: the first `n` bytes of `msg_recvd` go into the ring, and what is complete comes out.
unfoldable pub process_msg :
    Bool → TcpMsgDemarcar → List ℕ → ℕ → Outcome (List Message × TcpMsgDemarcar)
process_msg registered d msg_recvd n = do
  bcb ← deref d.bcb
  (written, bcb') ← Bcb.write bcb msg_recvd n
  assert (not (written == 0))
  ready ← is_buffer_ready_to_flush d.framing bcb'
  if ready then flush bcb' else ok ([], record d { bcb = some bcb' })
  where
    flush : ByteCircularBuffer → Outcome (List Message × TcpMsgDemarcar)
    flush bcb = do
      buffer ← deref d.buffer
      (ms, bcb', buffer') ←
          process_client_msg (suc bcb.current_size) registered d.framing bcb buffer
      ok (ms, record d { bcb = some bcb'; buffer = some buffer' })

-- The receive loop: each segment that `recvfrom` returns goes to `ProcessMsg`.
unfoldable pub feed :
    Bool → TcpMsgDemarcar → List (List ℕ) → Outcome (List Message × TcpMsgDemarcar)
feed registered d [] = ok ([], d)
feed registered d (segment ∷ segments) = do
  (ms, d') ← process_msg registered d segment (length segment)
  (ms', d'') ← feed registered d' segments
  ok (ms ++ ms', d'')
