-- ===== src/Demarcar/Frames.antt =====
-- The loop of TcpMsgVariableSizeDemarcar::ProcessClientMsg: on frames, and on headers that no
-- frame has.
use tcpserver_lib.Base.{
  ℕ, zero, suc, ◌≤◌, ◌<◌, ◌≡◌, refl, ap, ap₂, ◌∙◌, true, List, [], ◌∷◌, ◌++◌, arith, stop, memory,
  fuel, Returns, Returns-bind, length, take, drop, concat, All, append_assoc, length-append,
  take-append-drop, append-split, length-take,
}
use tcpserver_lib.Bcb.{ByteCircularBuffer}
use tcpserver_lib.Bcb.Valid.{IsValid, contents, length-contents}
use tcpserver_lib.Bcb.Use.{read-overflows}
use tcpserver_lib.Demarcar.{
  variable_size, Message, max_client_buffer_size, uint16_at, extract, Flushed, process_client_msg,
}
use tcpserver_lib.Demarcar.Variable.{
  IsFrame, IsIncomplete, uint16_at-append, peek_header-contents, ready_variable-true,
  ready_variable-false, extract_variable,
}

-- What the loop hands on and leaves: the frames, and the bytes behind them.
abbrev pub Unpacked : List Message → List ℕ → ByteCircularBuffer → ℕ → Flushed → Type 0
Unpacked frames rest bcb room (ms, bcb', buffer') =
    IsValid bcb'
    × (ms ≡ frames)
    × (contents bcb' ≡ rest)
    × (length buffer' ≡ room)
    × (bcb'.buffer_size ≡ bcb.buffer_size)

-- If a valid ring holds well-formed frames and then an incomplete one, the callback is registered,
-- the message buffer has 1024 bytes and the fuel exceeds the number of frames, then
-- `ProcessClientMsg` of the variable-size demarcator succeeds, hands on exactly these frames, in
-- order, and leaves the incomplete one in a valid ring.
pub flush_frames :
    (frames : List Message) (rest : List ℕ) (k : ℕ) {bcb : ByteCircularBuffer} (buffer : List ℕ)
    → IsValid bcb
    → length buffer ≡ max_client_buffer_size
    → All IsFrame frames
    → IsIncomplete rest
    → contents bcb ≡ concat frames ++ rest
    → length frames < k
    → Returns
        (Unpacked frames rest bcb max_client_buffer_size)
        (process_client_msg k true variable_size bcb buffer)
unfolding process_client_msg
flush_frames frames rest zero buffer v room fs part holds enough = absurd (omega arith)
flush_frames [] rest (suc k) {bcb} buffer v room fs part holds enough =
    rw (ready_variable-false v (rw holds part)) (v, refl, holds, room, refl)
flush_frames (m ∷ frames) rest (suc k) {bcb} buffer v room fs part holds enough =
    let frame = fs.0 in
    let holds' : contents bcb ≡ m ++ (concat frames ++ rest) =
      holds ∙ append_assoc m (concat frames) rest in
    let n = length-append m (concat frames ++ rest) in
    let size : uint16_at (contents bcb) ≡ length m =
      ap uint16_at holds'
      ∙ uint16_at-append m (concat frames ++ rest) (omega (arith, frame.longer))
      ∙ frame.header in
    let stored : length m ≤ bcb.current_size =
      omega (arith, n, ap length holds', length-contents bcb) in
    let (buffer', bcb', e, v', left, same, cap') =
      extract_variable v buffer (omega (arith, frame.longer, stored)) (omega (arith, size, stored))
        (omega (arith, size, frame.fits, room)) in
    let split : (take (uint16_at (contents bcb)) (contents bcb) ≡ m)
        × (drop (uint16_at (contents bcb)) (contents bcb) ≡ concat frames ++ rest) =
      append-split _ m
        (omega (
          arith,
          size,
          stored,
          length-contents bcb,
          length-take (uint16_at (contents bcb)) (contents bcb),
        ))
        (take-append-drop (uint16_at (contents bcb)) (contents bcb) ∙ holds') in
    rw
      (ready_variable-true v (omega (arith, frame.longer, stored)) (omega (arith, size, stored)), e)
      (Returns-bind (Unpacked frames rest bcb' max_client_buffer_size)
        (Unpacked (m ∷ frames) rest bcb max_client_buffer_size)
        (process_client_msg k true variable_size bcb' buffer') _
        (flush_frames frames rest k buffer' v' (same ∙ room) fs.1 part (left ∙ split.1)
          (omega arith))
        λ (ms, bcb'', buffer'') (v'', out, kept, same', cap'').
          (v'', ap₂ ◌∷◌ split.0 out, kept, same', cap'' ∙ cap'))

-- If a valid ring holds more than 2 bytes and the header at its front is 0, the loop of
-- `ProcessClientMsg` of the variable-size demarcator ends on no amount of fuel.
pub zero_header_diverges :
    (k : ℕ) {bcb : ByteCircularBuffer} (buffer : List ℕ)
    → IsValid bcb
    → 2 < bcb.current_size
    → uint16_at (contents bcb) ≡ 0
    → process_client_msg k true variable_size bcb buffer ≡ stop fuel
unfolding process_client_msg
zero_header_diverges zero buffer v more zero_size = refl
zero_header_diverges (suc k) {bcb} buffer v more zero_size =
    let (buffer', bcb', e, v', left, same, cap') =
      extract_variable v buffer (omega arith) (omega (arith, zero_size))
        (omega (arith, zero_size)) in
    let kept : contents bcb' ≡ contents bcb = left ∙ ap (λ n. drop n (contents bcb)) zero_size in
    let again =
      zero_header_diverges k buffer' v'
        (omega (arith, ap length kept, length-contents bcb, length-contents bcb'))
        (ap uint16_at kept ∙ zero_size) in
    rw (ready_variable-true v more (omega (arith, zero_size)), e) (rw again)

-- If the header at the front of a valid ring announces more than 1024 bytes, and these bytes are in
-- the ring, `ProcessClientMsg` of the variable-size demarcator accesses memory out of bounds with a
-- message buffer of 1024 bytes.
pub oversized_frame_overflows :
    (k : ℕ) {bcb : ByteCircularBuffer} (buffer : List ℕ)
    → IsValid bcb
    → length buffer ≡ max_client_buffer_size
    → max_client_buffer_size < uint16_at (contents bcb)
    → uint16_at (contents bcb) ≤ bcb.current_size
    → process_client_msg (suc k) true variable_size bcb buffer ≡ stop memory
unfolding process_client_msg extract
oversized_frame_overflows k {bcb} buffer v room over stored =
    let head = peek_header-contents v (omega arith) in
    let broken = read-overflows v buffer (uint16_at (contents bcb)) true (omega arith) stored in
    rw (ready_variable-true v (omega arith) stored, head) (rw broken)
