-- ===== src/Bcb/Use.antt =====
-- The calls that succeed, as their callers meet them.
use tcpserver_lib.Base.{
  length-splice, ℕ, ◌+◌, ◌≤◌, ◌<◌, ◌≡◌, Bool, true, false, List, ◌++◌, arith, ok, stop, memory,
  length-take, length-drop, Returns-result, length, take, drop,
}
use tcpserver_lib.Bcb.{ByteCircularBuffer, sub16, write, read}
use tcpserver_lib.Bcb.Valid.{IsValid, contents, length-contents}
use tcpserver_lib.Bcb.Write.{Pushed, write_refines}
use tcpserver_lib.Bcb.Read.{Pulled, read_refines}

-- A write that fits appends the bytes.
pub write-fits :
    {bcb : ByteCircularBuffer}
    → IsValid bcb
    → (src : List ℕ) (n : ℕ) → n ≤ length src
    → bcb.current_size < bcb.buffer_size
    → bcb.current_size + n ≤ bcb.buffer_size
    → (bcb' : ByteCircularBuffer) × (write bcb src n ≡ ok (n, bcb'))
      × IsValid bcb'
      × (contents bcb' ≡ contents bcb ++ take n src)
      × (bcb'.buffer_size ≡ bcb.buffer_size)
write-fits {bcb} v src n given free room =
    let ((k, bcb'), e, (v', pushed, same)) =
      Returns-result (Pushed bcb src n) _ (write_refines v src n given) in
    (bcb', ground (arith, length-contents bcb), v', ground (arith, length-contents bcb), same)

-- A read of bytes that are there takes them out.
pub read-removes :
    {bcb : ByteCircularBuffer}
    → IsValid bcb
    → (out : List ℕ) (n : ℕ) → n ≤ length out
    → n ≤ bcb.current_size
    → (out' : List ℕ) × (bcb' : ByteCircularBuffer) × (read bcb out n true ≡ ok (n, out', bcb'))
      × (take n out' ≡ take n (contents bcb))
      × IsValid bcb'
      × (contents bcb' ≡ drop n (contents bcb))
      × (length out' ≡ length out)
      × (bcb'.buffer_size ≡ bcb.buffer_size)
read-removes {bcb} v out n given stored =
    let ((k, out', bcb'), e, (v', pulled, rest, same, size)) =
      Returns-result (Pulled bcb out n true) _ (read_refines v out n true given) in
    (
      out',
      bcb',
      ground (arith, length-contents bcb),
      ground (arith, length-contents bcb),
      v',
      ground (arith, length-contents bcb),
      same,
      size,
    )

-- A read that leaves the bytes where they are.
pub read-keeps :
    {bcb : ByteCircularBuffer}
    → IsValid bcb
    → (out : List ℕ) (n : ℕ) → n ≤ length out
    → n ≤ bcb.current_size
    → (out' : List ℕ) × (bcb' : ByteCircularBuffer) × (read bcb out n false ≡ ok (n, out', bcb'))
      × (take n out' ≡ take n (contents bcb))
read-keeps {bcb} v out n given stored =
    let ((k, out', bcb'), e, (v', pulled, rest, same, size)) =
      Returns-result (Pulled bcb out n false) _ (read_refines v out n false given) in
    (out', bcb', ground (arith, length-contents bcb), ground (arith, length-contents bcb))

-- On a valid ring, a read of bytes that are all there, into an array that is too short for them,
-- accesses memory out of bounds.
pub read-overflows :
    {bcb : ByteCircularBuffer}
    → IsValid bcb
    → (out : List ℕ) (n : ℕ) (remove : Bool) → length out < n
    → n ≤ bcb.current_size
    → read bcb out n remove ≡ stop memory
unfolding read
read-overflows {bcb} v out n remove over stored =
    let lead : ℕ = sub16 bcb.buffer_size bcb.rear in
    ground (
      arith,
      length-take lead (drop bcb.rear bcb.buffer),
      length-drop bcb.rear bcb.buffer,
      length-splice out 0 (take lead (drop bcb.rear bcb.buffer)),
    )
