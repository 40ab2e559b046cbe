-- ===== src/Serialize/Tests.antt =====
-- The serialization buffer on concrete bytes.
use tcpserver_lib.Base.{
  ℕ, ◌+◌, ◌≡◌, ◌≤◌, ◌<◌, ◌↔◌, refl, [], ◌∷◌, arith, ok, stop, memory, Returns, take,
}
use tcpserver_lib.Serialize.{
  SerBuff, grow, serialize_bytes, serialize_string, de_serialize_string,
  copy_in_serialized_buffer_by_offset,
}
use tcpserver_lib.Serialize.Grow.{grow_total}
use tcpserver_lib.Serialize.Append.{IsValid, Appended, serialize_bytes-Appended}
use tcpserver_lib.Serialize.Transfer.{de_serialize_string-serialize_string, copy_in_overflows_iff}

-- Two of three bytes are written.
abbrev part : SerBuff
part = record { b = 1 ∷ 2 ∷ 0 ∷ []; size = 3; next = 2; checkpoint = 1 }

part-IsValid : IsValid part
part-IsValid = record { storage = refl; next_in = omega arith; checkpoint_in = omega arith }

-- Indeterminate bytes.
abbrev junk : ℕ → ℕ
junk k = 0

serialize_test :
    serialize_bytes junk part (7 ∷ 8 ∷ []) 2
    ≡ ok (record { b = 1 ∷ 2 ∷ 7 ∷ 8 ∷ 0 ∷ 0 ∷ []; size = 6; next = 4; checkpoint = 1 })
unfolding serialize_bytes grow
serialize_test = refl

grow_total_example : (size' : ℕ) × (grow 5 3 2 30 ≡ ok size')
grow_total_example = grow_total 4 3 2 30 (omega arith) (omega arith) (omega arith)

serialize_bytes-Appended_example :
    Returns (Appended part (7 ∷ 8 ∷ []) 2) (serialize_bytes junk part (7 ∷ 8 ∷ []) 2)
serialize_bytes-Appended_example =
    serialize_bytes-Appended junk {s = part} part-IsValid (7 ∷ 8 ∷ []) 2 (omega arith) (omega arith)
      (omega arith)

de_serialize_string-serialize_string_example :
    Returns
      (λ s'.
        Returns
          (λ (out, s''). (take 2 out ≡ 7 ∷ 8 ∷ []) × (s''.next ≡ s'.next))
          (de_serialize_string (0 ∷ 0 ∷ []) (record s' { next = 2 }) 2))
      (serialize_string junk part (7 ∷ 8 ∷ []) 2)
de_serialize_string-serialize_string_example =
    de_serialize_string-serialize_string junk {s = part} part-IsValid (7 ∷ 8 ∷ []) 2 (omega arith)
      (omega arith) (omega arith) (0 ∷ 0 ∷ []) (omega arith) (omega arith)

copy_in_overflows_iff_example :
    (copy_in_serialized_buffer_by_offset part 1 (9 ∷ []) 3 ≡ stop memory)
    ↔ ((2 + 1 ≤ 3) × (3 ≤ 3) × (3 < 3 + 1))
copy_in_overflows_iff_example =
    copy_in_overflows_iff {s = part} 1 (9 ∷ []) 3 part-IsValid (omega arith)
