-- ===== src/Bcb/Read.antt =====
-- `BCBRead` against the queue: no access out of bounds, the bytes handed out, and what stays.
use native.Mathlib.Decide.{dec_le}
use tcpserver_lib.Base.{
  ℕ, ◌+◌, ◌-◌, ◌≤◌, ◌<◌, ◌≡◌, refl, inr, Bool, true, false, List, arith, ok, Returns, length, take,
  drop,
}
use tcpserver_lib.Bcb.{ByteCircularBuffer, add16, sub16, wrap_index, read}
use tcpserver_lib.Bcb.Valid.{IsValid, contents, length-contents}
use tcpserver_lib.Bcb.Queue
use tcpserver_lib.Bcb.Pieces.{
  Filled, Removed, removed_lem, one_piece-Filled, two_pieces-Filled, read-one_piece,
  read-two_pieces,
}

-- What a read returns, by the queue.
abbrev pub Pulled :
    ByteCircularBuffer → List ℕ → ℕ → Bool → ℕ × List ℕ × ByteCircularBuffer → Type 0
Pulled bcb out n remove (k, out', bcb') =
    IsValid bcb'
    × ((k, take k out', contents bcb') ≡ Queue.pull (contents bcb) n remove)
    × (drop k out' ≡ drop k out)
    × (length out' ≡ length out)
    × (bcb'.buffer_size ≡ bcb.buffer_size)

module _ {bcb : ByteCircularBuffer} (v : IsValid bcb) (n : ℕ) (stored : n ≤ bcb.current_size)
    (out : List ℕ) (out' : List ℕ) (filled : Filled bcb out n out') where
  Pulled-keep : Pulled bcb out n false (n, out', bcb)
  Pulled-keep = (v, ground (arith, length-contents bcb), filled.1, filled.2, refl)

  Pulled-remove :
      {bcb' : ByteCircularBuffer} → Removed v n stored bcb' → Pulled bcb out n true (n, out', bcb')
  unfolding Removed
  Pulled-remove gone =
      (gone.0, ground (arith, gone.1, length-contents bcb), filled.1, filled.2, gone.2)

module _ {bcb : ByteCircularBuffer} (v : IsValid bcb) (out : List ℕ) (n : ℕ)
    (given : n ≤ length out) where
  open v use {storage, size16, front_in, rear_in, count_in, joined}

  read-short : (remove : Bool) → bcb.current_size < n → read bcb out n remove ≡ ok (0, out, bcb)
  unfolding read
  read-short remove short = ground arith

  module _ (stored : n ≤ bcb.current_size) where
    read_one :
        (remove : Bool)
        → bcb.rear + n ≤ bcb.buffer_size
        → Returns (Pulled bcb out n remove) (read bcb out n remove)
    read_one false fits =
        rw (read-one_piece v n stored out given false (inr fits))
          (Pulled-keep v n stored out _ (one_piece-Filled v n stored out given fits))
    read_one true fits = rw (read-one_piece v n stored out given true (inr fits)) (
        Pulled-remove v n stored out _ (one_piece-Filled v n stored out given fits) (
          removed_lem v n stored (wrap_index bcb.buffer_size (add16 bcb.rear n))
            (sub16 bcb.current_size n) (omega arith) (ground arith) (ground arith)))

    read_two :
        (remove : Bool)
        → bcb.buffer_size < bcb.rear + n
        → Returns (Pulled bcb out n remove) (read bcb out n remove)
    read_two false over =
        rw
          (read-two_pieces v n stored out given false lead (omega arith) (omega arith)
            (grind arith))
          (Pulled-keep v n stored out _
            (two_pieces-Filled v n stored out given lead (omega arith) (omega arith)))
      where
        lead : ℕ
        lead = bcb.buffer_size - bcb.rear
    read_two true over =
        rw
          (read-two_pieces v n stored out given true lead (omega arith) (omega arith) (grind arith))
          (Pulled-remove v n stored out _
            (two_pieces-Filled v n stored out given lead (omega arith) (omega arith))
            (removed_lem v n stored (n - lead) (bcb.current_size - n) refl (omega arith)
              (omega arith)))
      where
        lead : ℕ
        lead = bcb.buffer_size - bcb.rear

-- On a valid ring, a read of `n` bytes into an array with room for them never accesses memory out of
-- bounds, leaves the ring valid and of the same capacity, and its count, the bytes handed out and
-- the remaining contents are those of the bounded queue, whether or not the bytes are removed; the
-- array keeps its length and the bytes behind those handed out.
pub read_refines :
    {bcb : ByteCircularBuffer}
    → IsValid bcb
    → (out : List ℕ) (n : ℕ) (remove : Bool) → n ≤ length out
    → Returns (Pulled bcb out n remove) (read bcb out n remove)
read_refines {bcb} v out n remove given = elim (dec_le n bcb.current_size) [
  | no short ↦
      rw (read-short v out n given remove (omega arith))
        (v, ground (arith, length-contents bcb), refl, refl, refl)
  | yes stored ↦ elim (dec_le (bcb.rear + n) bcb.buffer_size) [
    | yes fits ↦ read_one v out n given stored remove fits
    | no over ↦ read_two v out n given stored remove (omega arith)
  ]
]
