-- ===== src/Bcb.antt =====
-- ByteCircularBuffer.h and ByteCircularBuffer.cpp: a byte buffer of fixed size with a write index
-- (`front`), a read index (`rear`) and a count. An operation that updates `*bcb` returns it anew.
pub mod Pieces
pub mod Queue
pub mod Read
pub mod Use
pub mod Valid
pub mod Write
mod Tests
use tcpserver_lib.Base.{
  ℕ, ◌+◌, ◌-◌, ◌%◌, ◌^◌, Bool, List, Outcome, ok, ◌>>=◌, ltb, leb, ◌==◌, if◌then◌else◌, replicate,
  memcpy,
}

-- `ByteCircularBuffer_t`; `buffer` is what the pointer of that name leads to.
pub record ByteCircularBuffer : Type 0 where
  pub buffer : List ℕ
  pub buffer_size : ℕ
  pub front : ℕ
  pub rear : ℕ
  pub current_size : ℕ

-- `uint16_t` addition and subtraction.
abbrev pub add16 : ℕ → ℕ → ℕ
add16 a b = (a + b) % 2 ^ 16

abbrev pub sub16 : ℕ → ℕ → ℕ
sub16 a b = (a + 2 ^ 16 - b) % 2 ^ 16

unfoldable pub create_new : ℕ → ByteCircularBuffer
create_new size = record {
  buffer = replicate size 0;
  buffer_size = size;
  front = 0;
  rear = 0;
  current_size = 0;
}

unfoldable pub available_size : ByteCircularBuffer → ℕ
available_size bcb = sub16 bcb.buffer_size bcb.current_size

unfoldable pub is_full : ByteCircularBuffer → Bool
is_full bcb = bcb.current_size == bcb.buffer_size

unfoldable pub reset : ByteCircularBuffer → ByteCircularBuffer
reset bcb = record bcb { current_size = 0; front = 0; rear = 0 }

-- `if (index == buffer_size) index = 0`.
abbrev pub wrap_index : ℕ → ℕ → ℕ
wrap_index size i = if i == size then 0 else i

-- The branches of `BCBWrite` that copy in one piece, after the `memcpy`.
abbrev pub advance_front : ByteCircularBuffer → List ℕ → ℕ → ByteCircularBuffer
advance_front bcb bytes n = record bcb {
  buffer = bytes;
  front = wrap_index bcb.buffer_size (add16 bcb.front n);
  current_size = add16 bcb.current_size n;
}

unfoldable pub write : ByteCircularBuffer → List ℕ → ℕ → Outcome (ℕ × ByteCircularBuffer)
unfolding is_full available_size
write bcb src n =
    if is_full bcb
    then ok (0, bcb)
    else if ltb (available_size bcb) n
    then ok (0, bcb)
    else if ltb bcb.front bcb.rear
    then one_piece
    else if leb n leading_space
    then one_piece
    else two_pieces
  where
    leading_space : ℕ
    leading_space = sub16 bcb.buffer_size bcb.front

    one_piece : Outcome (ℕ × ByteCircularBuffer)
    one_piece = do bytes ← memcpy bcb.buffer bcb.front src 0 n; ok (n, advance_front bcb bytes n)

    two_pieces : Outcome (ℕ × ByteCircularBuffer)
    two_pieces = do
      bytes ← memcpy bcb.buffer bcb.front src 0 leading_space
      bytes' ← memcpy bytes 0 src leading_space (n - leading_space)
      ok (
        n,
        record bcb {
          buffer = bytes';
          front = n - leading_space;
          current_size = add16 bcb.current_size n;
        },
      )

-- The branches of `BCBRead` that copy in one piece, after the `memcpy`.
abbrev pub advance_rear : ByteCircularBuffer → ℕ → Bool → ByteCircularBuffer
advance_rear bcb n remove =
    if remove
    then record bcb {
      rear = wrap_index bcb.buffer_size (add16 bcb.rear n);
      current_size = sub16 bcb.current_size n;
    }
    else bcb

-- The result holds the count, the bytes of the caller's buffer and the ring.
unfoldable pub read :
    ByteCircularBuffer → List ℕ → ℕ → Bool → Outcome (ℕ × List ℕ × ByteCircularBuffer)
read bcb out n remove =
    if ltb bcb.current_size n
    then ok (0, out, bcb)
    else if ltb bcb.rear bcb.front
    then one_piece
    else if leb n leading_space
    then one_piece
    else two_pieces
  where
    leading_space : ℕ
    leading_space = sub16 bcb.buffer_size bcb.rear

    one_piece : Outcome (ℕ × List ℕ × ByteCircularBuffer)
    one_piece = do
      bytes ← memcpy out 0 bcb.buffer bcb.rear n
      ok (n, bytes, advance_rear bcb n remove)

    removed : ByteCircularBuffer
    removed = record bcb { rear = n - leading_space; current_size = sub16 bcb.current_size n }

    two_pieces : Outcome (ℕ × List ℕ × ByteCircularBuffer)
    two_pieces = do
      bytes ← memcpy out 0 bcb.buffer bcb.rear leading_space
      bytes' ← memcpy bytes leading_space bcb.buffer 0 (n - leading_space)
      ok (n, bytes', if remove then removed else bcb)
