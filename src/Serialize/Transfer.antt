-- ===== src/Serialize/Transfer.antt =====
-- Reading back, checkpoints, truncation, and writes at an offset.
use tcpserver_lib.Base.{
  ℕ, ◌+◌, ◌^◌, ◌≤◌, ◌<◌, ◌≡◌, refl, sym, ap, ◌∙◌, ◌↔◌, inl, inr, false, List, [], ◌++◌, arith, ok,
  stop, fuel, memory, Returns, Returns-mono, ltb, ◌==◌, ◌>>=◌, length, get_elem?, take, drop,
  replicate, splice, memcpy-ok, length-splice, get_elem?-splice, get_elem?-none, get_elem?-take,
  get_elem?-drop, get_elem?-append, length-take, length-drop, list_ext, Bool-cases,
  length-replicate,
}
use tcpserver_lib.Serialize.{
  SerBuff, rounds, serialize_bytes, serialize_string, de_serialize_string,
  mark_checkpoint_serialize_buffer, restore_checkpoint_serialize_buffer, truncate_serialize_buffer,
  copy_in_serialized_buffer_by_offset,
}
use tcpserver_lib.Serialize.Grow.{grow_zero}
use tcpserver_lib.Serialize.Append.{
  IsValid, written, length-written, Appended, serialize_bytes-Appended,
}

-- The part of a block behind its first `i` bytes.
slice_of_take :
    (b xs ys : List ℕ) (i n : ℕ)
    → take (i + n) b ≡ xs ++ ys
    → length xs ≡ i
    → length ys ≡ n
    → take n (drop i b) ≡ ys
slice_of_take b xs ys i n e p q = list_ext _ _ λ k. ground (
  arith,
  ap (λ t. get_elem? t (i + k)) e,
  get_elem?-take n (drop i b) k,
  get_elem?-drop i b k,
  get_elem?-take (i + n) b (i + k),
  get_elem?-append xs ys (i + k),
  get_elem?-none ys k,
)

front_of_take :
    (b xs ys : List ℕ) (i n : ℕ) → take (i + n) b ≡ xs ++ ys → length xs ≡ i → take i b ≡ xs
front_of_take b xs ys i n e p = list_ext _ _ λ k. ground (
  arith,
  ap (λ t. get_elem? t k) e,
  get_elem?-take i b k,
  get_elem?-take (i + n) b k,
  get_elem?-append xs ys k,
  get_elem?-none xs k,
)

-- A read of bytes that are in the buffer hands out these bytes and steps over them.
de_serialize_string-slice :
    {s : SerBuff} (dest : List ℕ) (n : ℕ)
    → IsValid s
    → 0 < n
    → s.next + n ≤ s.size
    → n ≤ length dest
    → Returns
        (λ (out, s').
          (take n out ≡ take n (drop s.next s.b)) × (s'.next ≡ s.next + n) × (s'.b ≡ s.b))
        (de_serialize_string dest s n)
unfolding de_serialize_string
de_serialize_string-slice {s} dest n v pos inside room =
    let ne : (n == 0) ≡ false = ground arith in
    let fits : ltb s.size (s.next + n) ≡ false = ground arith in
    let taken : length (take n (drop s.next s.b)) ≡ n =
      omega (arith, length-take n (drop s.next s.b), length-drop s.next s.b, v.storage) in
    rw (ne, fits, memcpy-ok dest 0 s.b s.next n (omega arith) (omega (arith, v.storage)))
      (
        ap (λ k. take k (splice dest 0 (take n (drop s.next s.b)))) (sym taken)
            ∙ splice_front dest (take n (drop s.next s.b)) (omega (arith, taken)),
        refl,
        refl,
      )
  where
    splice_front :
        (dest xs : List ℕ) → length xs ≤ length dest → take (length xs) (splice dest 0 xs) ≡ xs
    splice_front dest' xs small = list_ext _ _ λ k. ground (
      arith,
      get_elem?-take (length xs) (splice dest' 0 xs) k,
      get_elem?-splice dest' 0 xs (omega arith) k,
      get_elem?-none xs k,
    )

module _ (junk : ℕ → ℕ) {s : SerBuff} (v : IsValid s) (bytes : List ℕ) (n : ℕ)
    (given : n ≤ length bytes) (pos : 0 < s.size) (small : s.next + n ≤ 2 ^ 30) where
  -- On a valid buffer of a size other than 0, `n` bytes (at least one, up to 2^30 in all) that
  -- `serialize_string` writes are read back unchanged by `de_serialize_string` from the same offset
  -- into an array with room for them, and the offset ends where the write left it.
  pub de_serialize_string-serialize_string :
      (dest : List ℕ)
      → 0 < n
      → n ≤ length dest
      → Returns
          (λ s'.
            Returns
              (λ (out, s''). (take n out ≡ take n bytes) × (s''.next ≡ s'.next))
              (de_serialize_string dest (record s' { next = s.next }) n))
          (serialize_string junk s bytes n)
  unfolding serialize_string
  de_serialize_string-serialize_string dest more room =
      Returns-mono (Appended s bytes n) _ (serialize_bytes junk s bytes n)
        (serialize_bytes-Appended junk v bytes n given pos small)
        λ s' a.
          let back : SerBuff = record s' { next = s.next } in
          let v' : IsValid back = record {
            storage = a.valid.storage;
            next_in = omega (arith, a.next_eq, a.valid.next_in);
            checkpoint_in = a.valid.checkpoint_in;
          } in
          let whole : take (s.next + n) s'.b ≡ written s ++ take n bytes =
            ap (λ k. take k s'.b) (sym a.next_eq) ∙ a.bytes_eq in
          Returns-mono _ _ (de_serialize_string dest back n)
            (de_serialize_string-slice {s = back} dest n v' more
              (omega (arith, a.next_eq, a.valid.next_in)) room)
            λ (out, s'') (got, after, kept). (
              got
                  ∙ slice_of_take s'.b (written s) (take n bytes) s.next n whole (length-written v)
                      (omega (arith, length-take n bytes)),
              after ∙ sym a.next_eq,
            )

  -- On a valid buffer of a size other than 0, marking a checkpoint, serializing a string (up to 2^30
  -- bytes in all) and restoring the checkpoint succeeds and leaves a valid buffer with the bytes
  -- written before the mark.
  pub restore-mark :
      Returns
        (λ s'.
          (written (restore_checkpoint_serialize_buffer s') ≡ written s)
          × IsValid (restore_checkpoint_serialize_buffer s'))
        (serialize_string junk (mark_checkpoint_serialize_buffer s) bytes n)
  unfolding serialize_string mark_checkpoint_serialize_buffer restore_checkpoint_serialize_buffer
  restore-mark =
      let marked : SerBuff = record s { checkpoint = s.next } in
      let v' : IsValid marked = record {
        storage = v.storage;
        next_in = v.next_in;
        checkpoint_in = v.next_in;
      } in
      Returns-mono (Appended marked bytes n) _ (serialize_bytes junk marked bytes n)
        (serialize_bytes-Appended junk {s = marked} v' bytes n given pos small)
        λ s' a.
          let whole : take (s.next + n) s'.b ≡ written s ++ take n bytes =
            ap (λ k. take k s'.b) (sym a.next_eq) ∙ a.bytes_eq in
          (
            ap (λ k. take k s'.b) a.checkpoint_eq
                ∙ front_of_take s'.b (written s) (take n bytes) s.next n whole (length-written v),
            record {
              storage = a.valid.storage;
              next_in = a.valid.checkpoint_in;
              checkpoint_in = a.valid.checkpoint_in;
            },
          )

-- `truncate_serialize_buffer` on a valid buffer succeeds, keeps the written bytes and the offset,
-- and leaves a valid buffer whose size is the number of written bytes.
pub truncate_lem :
    {s : SerBuff}
    → IsValid s
    → Returns
        (λ s'. IsValid s' × (written s' ≡ written s) × (s'.size ≡ s.next) × (s'.next ≡ s.next))
        (truncate_serialize_buffer s)
unfolding truncate_serialize_buffer
truncate_lem {s} v = elim (Bool-cases (s.next == s.size)) [
  | inl full ↦ rw full (v, refl, ground arith, refl)
  | inr part ↦
      let new = length-replicate {A = ℕ} s.next 0 in
      let taken : length (take s.next s.b) ≡ s.next =
        omega (arith, length-take s.next s.b, v.storage, v.next_in) in
      let same =
        length-splice (replicate s.next 0) 0 (take s.next s.b) (omega (arith, taken, new)) in
      rw
        (
          part,
          memcpy-ok (replicate s.next 0) 0 s.b 0 s.next (omega (arith, new))
              (omega (arith, v.storage, v.next_in)),
        )
        (
          record { storage = same ∙ new; next_in = omega arith; checkpoint_in = omega arith },
          list_ext _ _ (copied taken new),
          refl,
          refl,
        )
]
  where
    copied :
        length (take s.next s.b) ≡ s.next
        → length (replicate {A = ℕ} s.next 0) ≡ s.next
        → (k : ℕ)
        → get_elem? (take s.next (splice (replicate s.next 0) 0 (take s.next s.b))) k
          ≡ get_elem? (take s.next s.b) k
    copied taken new k = ground (
      arith,
      get_elem?-take s.next (splice (replicate s.next 0) 0 (take s.next s.b)) k,
      get_elem?-splice (replicate s.next 0) 0 (take s.next s.b) (omega (arith, taken, new)) k,
      get_elem?-take s.next s.b k,
    )

truncate_empty :
    (s : SerBuff)
    → s.next ≡ 0
    → 0 < s.size
    → truncate_serialize_buffer s ≡ ok (record { b = []; size = 0; next = 0; checkpoint = 0 })
unfolding truncate_serialize_buffer
truncate_empty s nothing room = ground arith

-- If nothing is written in a buffer of a size other than 0, truncating it and then serializing one
-- byte or more never ends: the loop, run with 32 rounds of fuel, uses them up at size 0.
pub serialize_hangs_after_truncate :
    (junk : ℕ → ℕ) (s : SerBuff) (bytes : List ℕ) (n : ℕ)
    → s.next ≡ 0
    → 0 < s.size
    → 0 < n
    → (truncate_serialize_buffer s >>= λ s'. serialize_string junk s' bytes n) ≡ stop fuel
unfolding serialize_string
serialize_hangs_after_truncate junk s bytes n nothing room more =
    rw (truncate_empty s nothing room, grow_zero rounds 0 n (omega arith))

-- On a valid buffer and a value that has the bytes, `copy_in_serialized_buffer_by_offset` writes out
-- of bounds exactly if `n` bytes fit behind the write offset and the given offset is within the
-- buffer, but the `n` bytes from that offset on are not.
pub copy_in_overflows_iff :
    {s : SerBuff} (n : ℕ) (value : List ℕ) (offset : ℕ)
    → IsValid s
    → n ≤ length value
    → (copy_in_serialized_buffer_by_offset s n value offset ≡ stop memory)
      ↔ ((s.next + n ≤ s.size) × (offset ≤ s.size) × (s.size < offset + n))
unfolding copy_in_serialized_buffer_by_offset
copy_in_overflows_iff {s} n value offset v given = (
  λ e. (ground (arith, v.storage), ground (arith, v.storage), ground (arith, v.storage)),
  λ h. ground (arith, v.storage, h),
)
