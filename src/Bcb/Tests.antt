-- ===== src/Bcb/Tests.antt =====
-- The ring on concrete bytes.
use tcpserver_lib.Base.{◌≡◌, refl, inr, true, [], ◌∷◌, arith, ok, Returns}
use tcpserver_lib.Bcb.{ByteCircularBuffer, write, read, is_full, available_size}
use tcpserver_lib.Bcb.Valid.{IsValid, contents}
use tcpserver_lib.Bcb.Write.{Pushed, write_refines}
use tcpserver_lib.Bcb.Read.{Pulled, read_refines}

-- Four bytes of room, three in use, which go round the end.
abbrev ring : ByteCircularBuffer
ring = record {
  buffer = 3 ∷ 0 ∷ 1 ∷ 2 ∷ [];
  buffer_size = 4;
  front = 1;
  rear = 2;
  current_size = 3;
}

ring-IsValid : IsValid ring
ring-IsValid = record {
  storage = refl;
  size16 = omega arith;
  front_in = omega arith;
  rear_in = omega arith;
  count_in = omega arith;
  joined = inr refl;
}

contents_test : contents ring ≡ 1 ∷ 2 ∷ 3 ∷ []
unfolding contents
contents_test = refl

write_test :
    write ring (9 ∷ 8 ∷ []) 1
    ≡ ok (
      1,
      record {
        buffer = 3 ∷ 9 ∷ 1 ∷ 2 ∷ [];
        buffer_size = 4;
        front = 2;
        rear = 2;
        current_size = 4;
      },
    )
unfolding write is_full available_size
write_test = refl

read_test :
    read ring (0 ∷ 0 ∷ 0 ∷ []) 3 true
    ≡ ok (
      3,
      1 ∷ 2 ∷ 3 ∷ [],
      record {
        buffer = 3 ∷ 0 ∷ 1 ∷ 2 ∷ [];
        buffer_size = 4;
        front = 1;
        rear = 1;
        current_size = 0;
      },
    )
unfolding read
read_test = refl

write_refines_example : Returns (Pushed ring (9 ∷ 8 ∷ []) 1) (write ring (9 ∷ 8 ∷ []) 1)
write_refines_example = write_refines {bcb = ring} ring-IsValid (9 ∷ 8 ∷ []) 1 (omega arith)

read_refines_example :
    Returns (Pulled ring (0 ∷ 0 ∷ 0 ∷ []) 3 true) (read ring (0 ∷ 0 ∷ 0 ∷ []) 3 true)
read_refines_example = read_refines {bcb = ring} ring-IsValid (0 ∷ 0 ∷ 0 ∷ []) 3 true (omega arith)
