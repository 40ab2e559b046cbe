-- ===== src/Serialize/Append.antt =====
-- Serializing appends: the bytes written so far stay, and the buffer grows as it has to.
use tcpserver_lib.Base.{
  ℕ, ◌+◌, ◌-◌, ◌^◌, ◌≤◌, ◌<◌, ◌≡◌, refl, sym, ap, ◌∙◌, inl, inr, true, List, [], ◌++◌, arith,
  Returns, ◌==◌, length, take, tabulate, splice, memcpy-ok, length-splice, get_elem?-splice,
  get_elem?-none, get_elem?-take, get_elem?-append, length-take, length-append, length-tabulate,
  list_ext, Bool-cases, length-replicate,
}
use tcpserver_lib.Serialize.{
  SerBuff, rounds, realloc, serialize_bytes, init_serialized_buffer_of_defined_size,
}
use tcpserver_lib.Serialize.Grow.{grow_room, grow_total}

-- The block has the size that the buffer says, and the offsets lie in it.
pub record IsValid (s : SerBuff) : Type 0 where
  pub storage : length s.b ≡ s.size
  pub next_in : s.next ≤ s.size
  pub checkpoint_in : s.checkpoint ≤ s.size

-- The bytes written so far.
abbrev pub written : SerBuff → List ℕ
written s = take s.next s.b

pub length-written : {s : SerBuff} → IsValid s → length (written s) ≡ s.next
length-written {s} v = omega (arith, length-take s.next s.b)

pub init-IsValid :
    (size : ℕ)
    → IsValid (init_serialized_buffer_of_defined_size size)
      × (written (init_serialized_buffer_of_defined_size size) ≡ [])
unfolding init_serialized_buffer_of_defined_size
init-IsValid size = (ground (arith, length-replicate {A = ℕ} size 0), refl)

-- A write of `xs` at the end of what is written.
splice-appends :
    (block : List ℕ) (i : ℕ) (xs : List ℕ)
    → i + length xs ≤ length block
    → take (i + length xs) (splice block i xs) ≡ take i block ++ xs
splice-appends block i xs fits = list_ext _ _ λ k. ground (
  arith,
  get_elem?-take (i + length xs) (splice block i xs) k,
  get_elem?-splice block i xs fits k,
  get_elem?-append (take i block) xs k,
  get_elem?-take i block k,
  length-take i block,
  get_elem?-none xs (k - i),
)

-- What the growth leaves in the block.
take-realloc :
    (junk : ℕ → ℕ) (b : List ℕ) (size i : ℕ)
    → i ≤ length b
    → take i (realloc junk b size) ≡ take i b
take-realloc junk b size i inside = list_ext _ _ λ k. ground (
  arith,
  get_elem?-take i (realloc junk b size) k,
  get_elem?-take i b k,
  get_elem?-append b (tabulate (size - length b) (length b) junk) k,
)

length-realloc :
    (junk : ℕ → ℕ) (b : List ℕ) (size : ℕ) → length b ≤ size → length (realloc junk b size) ≡ size
length-realloc junk b size h = omega (
  arith,
  length-append b (tabulate (size - length b) (length b) junk),
  length-tabulate (size - length b) (length b) junk,
)

-- What a `serialize_…` call leaves, for the `n` bytes `bytes`.
pub record Appended (s : SerBuff) (bytes : List ℕ) (n : ℕ) (s' : SerBuff) : Type 0 where
  pub valid : IsValid s'
  pub bytes_eq : written s' ≡ written s ++ take n bytes
  pub next_eq : s'.next ≡ s.next + n
  pub checkpoint_eq : s'.checkpoint ≡ s.checkpoint
  pub grown : s.size ≤ s'.size

module _ (junk : ℕ → ℕ) {s : SerBuff} (v : IsValid s) (bytes : List ℕ) (n : ℕ)
    (given : n ≤ length bytes) where
  block_lem :
      (block : List ℕ) (size : ℕ)
      → length block ≡ size
      → s.size ≤ size
      → s.next + n ≤ size
      → take s.next block ≡ written s
      → Appended s bytes n
          (record s { b = splice block s.next (take n bytes); size = size; next = s.next + n })
  block_lem block size same larger room kept =
      let taken : length (take n bytes) ≡ n = omega (arith, length-take n bytes) in
      let end : s.next + n ≡ s.next + length (take n bytes) = omega (arith, taken) in
      record {
        valid = record {
          storage = length-splice block s.next (take n bytes) (omega (arith, taken, same)) ∙ same;
          next_in = room;
          checkpoint_in = omega (arith, v.checkpoint_in);
        };
        bytes_eq =
            ap (λ k. take k (splice block s.next (take n bytes))) end
            ∙ splice-appends block s.next (take n bytes) (omega (arith, taken, same))
            ∙ ap (λ t. t ++ take n bytes) kept;
        next_eq = refl;
        checkpoint_eq = refl;
        grown = larger;
      }

  -- On a valid buffer of a size other than 0, serializing `n` bytes of a source that has them, up to
  -- 2^30 bytes in all, succeeds: the buffer is valid, does not shrink, and what is written in it is
  -- what was written before followed by these bytes; the offset grows by `n` and the checkpoint
  -- stays.
  pub serialize_bytes-Appended :
      0 < s.size
      → s.next + n ≤ 2 ^ 30
      → Returns (Appended s bytes n) (serialize_bytes junk s bytes n)
  unfolding serialize_bytes
  serialize_bytes-Appended pos small =
      let (size, e) = grow_total 31 s.size s.next n pos small (omega arith) in
      let (room, larger, why) = grow_room rounds s.size s.next n e in
      rw e (elim (Bool-cases (size == s.size)) [
        | inl same ↦
            rw
              (
                same,
                memcpy-ok s.b s.next bytes 0 n (omega (arith, eq same, v.storage)) (omega arith),
              )
              (block_lem s.b size (v.storage ∙ sym (eq same)) larger room refl)
        | inr grew ↦
            rw
              (
                grew,
                memcpy-ok (realloc junk s.b size) s.next bytes 0 n
                    (omega (arith, length-realloc junk s.b size (omega (arith, v.storage))))
                    (omega arith),
              )
              (block_lem (realloc junk s.b size) size
                (length-realloc junk s.b size (omega (arith, v.storage))) larger room
                (take-realloc junk s.b size s.next (omega (arith, v.storage, v.next_in))))
      ])
    where
      eq : {size : ℕ} → (size == s.size) ≡ true → size ≡ s.size
      eq same = ground arith
