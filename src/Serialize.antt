-- ===== src/Serialize.antt =====
-- CommandParser/serialize.h and serialize.c: a byte buffer that grows by doubling. `next` is the
-- write and read offset, and `checkpoint` an offset to come back to.
pub mod Append
pub mod Grow
pub mod Transfer
mod Tests
use tcpserver_lib.Base.{
  ℕ, zero, suc, ◌+◌, ◌-◌, ◌*◌, ◌/◌, ◌%◌, ◌^◌, Bool, true, false, not, ◌||◌, List, [], ◌∷◌, ◌++◌,
  Outcome, ok, stop, assertion, arithmetic, fuel, ◌>>=◌, ◌>>◌, assert, ltb, ◌==◌, if◌then◌else◌,
  length, replicate, tabulate, take, drop, memcpy,
}

-- `ser_buff_t`; `b` is the block that the pointer of that name leads to.
pub record SerBuff : Type 0 where
  pub b : List ℕ
  pub size : ℕ
  pub next : ℕ
  pub checkpoint : ℕ

abbrev pub serialize_buffer_default_size : ℕ
serialize_buffer_default_size = 512

unfoldable pub init_serialized_buffer_of_defined_size : ℕ → SerBuff
init_serialized_buffer_of_defined_size size = record {
  b = replicate size 0;
  size = size;
  next = 0;
  checkpoint = 0;
}

unfoldable pub init_serialized_buffer : SerBuff
init_serialized_buffer = record {
  b = replicate serialize_buffer_default_size 0;
  size = serialize_buffer_default_size;
  next = 0;
  checkpoint = 0;
}

unfoldable pub is_serialized_buffer_empty : SerBuff → Bool
is_serialized_buffer_empty s = s.next == 0

unfoldable pub get_serialize_buffer_size : SerBuff → ℕ
get_serialize_buffer_size s = s.next

unfoldable pub reset_serialize_buffer : SerBuff → SerBuff
reset_serialize_buffer s = record s { next = 0; checkpoint = 0 }

unfoldable pub mark_checkpoint_serialize_buffer : SerBuff → SerBuff
mark_checkpoint_serialize_buffer s = record s { checkpoint = s.next }

unfoldable pub restore_checkpoint_serialize_buffer : SerBuff → SerBuff
restore_checkpoint_serialize_buffer s = record s { next = s.checkpoint }

unfoldable pub get_serialize_buffer_checkpoint_offset : SerBuff → ℕ
get_serialize_buffer_checkpoint_offset s = s.checkpoint

-- `while (available_size < n) { size = size * 2; available_size = size - next; }` on fuel. The
-- test is that of the integers; `int` overflow is `arithmetic`.
unfoldable pub grow : ℕ → ℕ → ℕ → ℕ → Outcome ℕ
grow zero size next n = stop fuel
grow (suc k) size next n =
    let again = grow k (size * 2) next n in
    if ltb size (next + n)
    then (if ltb (size * 2) (2 ^ 31) then again else stop arithmetic)
    else ok size

-- Each round doubles an `int` that is not 0.
abbrev pub rounds : ℕ
rounds = 32

-- The bytes of the block that `realloc` adds are indeterminate: `junk` gives them.
module _ (junk : ℕ → ℕ) where
  abbrev pub realloc : List ℕ → ℕ → List ℕ
  realloc b size = b ++ tabulate (size - length b) (length b) junk

  -- The body that every `serialize_…` function has, for a value with these bytes in memory.
  unfoldable pub serialize_bytes : SerBuff → List ℕ → ℕ → Outcome SerBuff
  serialize_bytes s bytes n = do
    size ← grow rounds s.size s.next n
    block ← memcpy (if size == s.size then s.b else realloc s.b size) s.next bytes 0 n
    ok (record s { b = block; size = size; next = s.next + n })

  unfoldable pub serialize_string : SerBuff → List ℕ → ℕ → Outcome SerBuff
  unfolding serialize_bytes
  serialize_string s bytes nbytes = serialize_bytes s bytes nbytes

  -- The four bytes of an `int` or an `unsigned int` on a little-endian host.
  abbrev pub int_bytes : ℕ → List ℕ
  int_bytes x = x % 256 ∷ x / 2 ^ 8 % 256 ∷ x / 2 ^ 16 % 256 ∷ x / 2 ^ 24 % 256 ∷ []

  unfoldable pub serialize_uint32 : SerBuff → ℕ → Outcome SerBuff
  unfolding serialize_bytes
  serialize_uint32 s x = serialize_bytes s (int_bytes x) 4

  unfoldable pub serialize_int32 : SerBuff → ℕ → Outcome SerBuff
  unfolding serialize_bytes
  serialize_int32 s x = serialize_bytes s (int_bytes x) 4

  unfoldable pub serialize_int : SerBuff → ℕ → Outcome SerBuff
  unfolding serialize_bytes
  serialize_int s x = serialize_bytes s (int_bytes x) 4

  unfoldable pub serialize_int8 : SerBuff → ℕ → Outcome SerBuff
  unfolding serialize_bytes
  serialize_int8 s x = serialize_bytes s (x ∷ []) 1

  unfoldable pub serialize_uint8 : SerBuff → ℕ → Outcome SerBuff
  unfolding serialize_bytes
  serialize_uint8 s x = serialize_bytes s (x ∷ []) 1

  unfoldable pub serialize_buffer_skip : SerBuff → ℕ → Outcome SerBuff
  serialize_buffer_skip s n =
      if ltb s.size (s.next + n) then skip_grown else ok (record s { next = s.next + n })
    where
      skip_grown : Outcome SerBuff
      skip_grown = do
        size ← grow rounds s.size s.next n
        ok (record s { b = realloc s.b size; size = size; next = s.next + n })

unfoldable pub truncate_serialize_buffer : SerBuff → Outcome SerBuff
unfolding init_serialized_buffer_of_defined_size
truncate_serialize_buffer s = if s.next == s.size then ok s else truncated
  where
    clone : SerBuff
    clone = init_serialized_buffer_of_defined_size s.next

    truncated : Outcome SerBuff
    truncated = do
      block ← memcpy clone.b 0 s.b 0 s.next
      ok (record clone { b = block; next = clone.size })

-- The result holds what `dest` points to.
unfoldable pub de_serialize_string : List ℕ → SerBuff → ℕ → Outcome (List ℕ × SerBuff)
de_serialize_string dest s n = do
  assert (not (n == 0))
  assert (not (ltb s.size (s.next + n)))
  out ← memcpy dest 0 s.b s.next n
  ok (out, record s { next = s.next + n })

unfoldable pub copy_in_serialized_buffer_by_offset : SerBuff → ℕ → List ℕ → ℕ → Outcome SerBuff
copy_in_serialized_buffer_by_offset s n value offset =
    if ltb s.size (s.next + n) then ok s else if ltb s.size offset then ok s else written
  where
    written : Outcome SerBuff
    written = do block ← memcpy s.b offset value 0 n; ok (record s { b = block })
