-- ===== src/Demarcar/Tests.antt =====
-- Demarcators on concrete streams.
use tcpserver_lib.Base.{
  ℕ, ◌≡◌, refl, inl, inr, true, some, [], ◌∷◌, arith, ok, stop, fuel, Returns, replicate,
  length-replicate,
}
use tcpserver_lib.Bcb.{ByteCircularBuffer}
use tcpserver_lib.Bcb.Valid.{IsValid, contents}
use tcpserver_lib.Demarcar.{
  TcpMsgDemarcar, fixed_size, variable_size, uint16_at, create, process_client_msg, process_msg,
  feed,
}
use tcpserver_lib.Demarcar.Fixed.{IsFixed, Processed, process_msg-Processed}
use tcpserver_lib.Demarcar.Stream.{feed-chop, chop}
use tcpserver_lib.Demarcar.Frames.{zero_header_diverges}
use tcpserver_lib.Demarcar.FrameStream.{IsVariable, feed_frames}

-- Five bytes, of which the first two announce three.
abbrev ring : ByteCircularBuffer
ring = record {
  buffer = 3 ∷ 0 ∷ 7 ∷ 4 ∷ 0 ∷ 0 ∷ [];
  buffer_size = 6;
  front = 5;
  rear = 0;
  current_size = 5;
}

ring-IsValid : IsValid ring
ring-IsValid = record {
  storage = refl;
  size16 = omega arith;
  front_in = omega arith;
  rear_in = omega arith;
  count_in = omega arith;
  joined = inl refl;
}

-- Three bytes, of which the first two announce none.
abbrev hollow : ByteCircularBuffer
hollow = record ring { buffer = 0 ∷ 0 ∷ 7 ∷ 4 ∷ 0 ∷ 0 ∷ [] }

hollow-IsValid : IsValid hollow
hollow-IsValid = record {
  storage = refl;
  size16 = omega arith;
  front_in = omega arith;
  rear_in = omega arith;
  count_in = omega arith;
  joined = inl refl;
}

process_msg-Processed_example :
    Returns
      (λ (ms, d'). Processed 2 ring (9 ∷ []) ms d')
      (process_msg true
        (record { framing = fixed_size 2; bcb = some ring; buffer = some (replicate 1024 0) })
        (9 ∷ [])
        1)
process_msg-Processed_example =
    process_msg-Processed 2 (omega arith) (omega arith) {bcb = ring}
      {d = record { framing = fixed_size 2; bcb = some ring; buffer = some (replicate 1024 0) }}
      (9 ∷ [])
      (record {
        class = refl;
        ring = refl;
        valid = ring-IsValid;
        room = (replicate 1024 0, refl, length-replicate {A = ℕ} 1024 0);
      })
      (omega arith) (omega arith)

feed-chop_example :
    Returns
      (λ (ms, d').
        (ring : ByteCircularBuffer) × IsFixed 2 ring d'
        × ((ms, contents ring) ≡ chop 5 2 (1 ∷ 2 ∷ 3 ∷ 4 ∷ 5 ∷ [])))
      (feed true (create (fixed_size 2)) ((1 ∷ 2 ∷ 3 ∷ []) ∷ (4 ∷ 5 ∷ []) ∷ []))
feed-chop_example =
    feed-chop 2 (omega arith) (omega arith) ((1 ∷ 2 ∷ 3 ∷ []) ∷ (4 ∷ 5 ∷ []) ∷ [])
      ((omega arith, omega arith), ((omega arith, omega arith), tt))

chop_test : chop 5 2 (1 ∷ 2 ∷ 3 ∷ 4 ∷ 5 ∷ []) ≡ ((1 ∷ 2 ∷ []) ∷ (3 ∷ 4 ∷ []) ∷ [], 5 ∷ [])
unfolding chop
chop_test = refl

feed_frames_example :
    (ring : ByteCircularBuffer) × (d : TcpMsgDemarcar) × (feed true
        (create variable_size)
        ((3 ∷ []) ∷ (0 ∷ 7 ∷ 4 ∷ 0 ∷ []) ∷ (1 ∷ 2 ∷ []) ∷ [])
      ≡ ok ((3 ∷ 0 ∷ 7 ∷ []) ∷ (4 ∷ 0 ∷ 1 ∷ 2 ∷ []) ∷ [], d))
    × IsVariable ring d
    × (contents ring ≡ [])
feed_frames_example =
    feed_frames ((3 ∷ []) ∷ (0 ∷ 7 ∷ 4 ∷ 0 ∷ []) ∷ (1 ∷ 2 ∷ []) ∷ [])
      ((3 ∷ 0 ∷ 7 ∷ []) ∷ (4 ∷ 0 ∷ 1 ∷ 2 ∷ []) ∷ [])
      ((omega arith, omega arith), ((omega arith, omega arith), ((omega arith, omega arith), tt)))
      (
        record { longer = omega arith; fits = omega arith; header = refl },
        (record { longer = omega arith; fits = omega arith; header = refl }, tt),
      )
      refl

ring_contents : contents ring ≡ 3 ∷ 0 ∷ 7 ∷ 4 ∷ 0 ∷ []
unfolding contents
ring_contents = refl

hollow_header : uint16_at (contents hollow) ≡ 0
unfolding contents
hollow_header = refl

zero_header_diverges_example : process_client_msg 9 true variable_size hollow (0 ∷ []) ≡ stop fuel
zero_header_diverges_example =
    zero_header_diverges 9 {bcb = hollow} (0 ∷ []) hollow-IsValid (omega arith) hollow_header

-- 1100 bytes, which begin with their number.
abbrev large : ByteCircularBuffer
large = record {
  buffer = 76 ∷ 4 ∷ replicate 1098 0;
  buffer_size = 1100;
  front = 0;
  rear = 0;
  current_size = 1100;
}

large-IsValid : IsValid large
large-IsValid = record {
  storage = omega (arith, length-replicate {A = ℕ} 1098 0);
  size16 = omega arith;
  front_in = omega arith;
  rear_in = omega arith;
  count_in = omega arith;
  joined = inr refl;
}

large_header : uint16_at (contents large) ≡ 1100
unfolding contents
large_header = refl
