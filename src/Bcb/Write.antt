-- ===== src/Bcb/Write.antt =====
-- `BCBWrite` against the queue: no access out of bounds, and the branch by branch effect.
use tcpserver_lib.Base.{
  splice, length-splice, get_elem?-splice, ℕ, ◌+◌, ◌-◌, ◌≤◌, ◌<◌, ◌≡◌, refl, ◌⊎◌, inl, inr, List,
  ◌++◌, arith, ok, Returns, length, get_elem?, take, drop, length-take, length-drop, list_ext,
  get_elem?-append, get_elem?-take, get_elem?-drop,
}
use native.Mathlib.Decide.{dec_lt, dec_le}
use tcpserver_lib.Bcb.{sub16, ByteCircularBuffer, advance_front, write}
use tcpserver_lib.Bcb.Valid.{IsValid, slot, contents, length-contents, get_elem?-contents}
use tcpserver_lib.Bcb.Queue

module _ {bcb : ByteCircularBuffer} (v : IsValid bcb) (src : List ℕ) (n : ℕ)
    (given : n ≤ length src) (room : bcb.current_size + n ≤ bcb.buffer_size) where
  -- What a write that is accepted leaves.
  Accepted : ByteCircularBuffer → Type 0
  Accepted bcb' =
      IsValid bcb'
      × (contents bcb' ≡ contents bcb ++ take n src)
      × (bcb'.buffer_size ≡ bcb.buffer_size)

  one_piece-Accepted :
      bcb.front + n ≤ bcb.buffer_size
      → (bcb.front < bcb.rear → bcb.front + n ≤ bcb.rear)
      → Accepted (advance_front bcb (splice bcb.buffer bcb.front (take n src)) n)
  unfolding Accepted
  one_piece-Accepted fits apart = (valid, list_ext _ _ bytes, ground arith)
    where
      open v use {storage, size16, front_in, rear_in, count_in, joined}

      bcb' : ByteCircularBuffer
      bcb' = advance_front bcb (splice bcb.buffer bcb.front (take n src)) n

      taken : length (take n src) ≡ n
      taken = omega (arith, length-take n src)

      valid : IsValid bcb'
      valid = ground (arith, taken, length-splice bcb.buffer bcb.front (take n src))

      bytes : (k : ℕ) → get_elem? (contents bcb') k ≡ get_elem? (contents bcb ++ take n src) k
      bytes k = ground (
        arith,
        taken,
        get_elem?-contents valid k,
        get_elem?-contents v k,
        length-contents bcb,
        get_elem?-append (contents bcb) (take n src) k,
        get_elem?-splice bcb.buffer bcb.front (take n src) (omega (arith, taken)) (slot bcb' k),
        get_elem?-take n src (k - bcb.current_size),
      )

  two_pieces-Accepted :
      (lead : ℕ)
      → bcb.front + lead ≡ bcb.buffer_size
      → lead < n
      → bcb.rear ≤ bcb.front
      → Accepted (record bcb {
        buffer =
            splice
              (splice bcb.buffer bcb.front (take lead src))
              0
              (take (n - lead) (drop lead src));
        front = n - lead;
        current_size = bcb.current_size + n;
      })
  unfolding Accepted
  two_pieces-Accepted lead end more below = (valid, list_ext _ _ bytes, refl)
    where
      open v use {storage, size16, front_in, rear_in, count_in, joined}

      first : List ℕ
      first = splice bcb.buffer bcb.front (take lead src)

      bcb' : ByteCircularBuffer
      bcb' = record bcb {
        buffer = splice first 0 (take (n - lead) (drop lead src));
        front = n - lead;
        current_size = bcb.current_size + n;
      }

      taken : length (take lead src) ≡ lead
      taken = omega (arith, length-take lead src)

      taken' : length (take (n - lead) (drop lead src)) ≡ n - lead
      taken' = omega (arith, length-take (n - lead) (drop lead src), length-drop lead src)

      same : length first ≡ length bcb.buffer
      same = length-splice bcb.buffer bcb.front (take lead src) (omega (arith, taken))

      valid : IsValid bcb'
      valid = ground (arith, same, taken', length-splice first 0 (take (n - lead) (drop lead src)))

      bytes : (k : ℕ) → get_elem? (contents bcb') k ≡ get_elem? (contents bcb ++ take n src) k
      bytes k = ground (
        arith,
        taken,
        taken',
        same,
        get_elem?-contents valid k,
        get_elem?-contents v k,
        length-contents bcb,
        get_elem?-append (contents bcb) (take n src) k,
        get_elem?-splice first 0 (take (n - lead) (drop lead src)) (omega (arith, taken', same))
            (slot bcb' k),
        get_elem?-splice bcb.buffer bcb.front (take lead src) (omega (arith, taken)) (slot bcb' k),
        get_elem?-take n src (k - bcb.current_size),
        get_elem?-take lead src (slot bcb' k - bcb.front),
        get_elem?-take (n - lead) (drop lead src) (slot bcb' k),
        get_elem?-drop lead src (slot bcb' k),
      )

module _ {bcb : ByteCircularBuffer} (v : IsValid bcb) (src : List ℕ) (n : ℕ) where
  write-rejected :
      (bcb.current_size ≡ bcb.buffer_size) ⊎ (bcb.buffer_size < bcb.current_size + n)
      → write bcb src n ≡ ok (0, bcb)
  unfolding write
  write-rejected full = ground arith

  module _ (given : n ≤ length src) (free : bcb.current_size < bcb.buffer_size)
      (room : bcb.current_size + n ≤ bcb.buffer_size) where
    write-one_piece :
        (bcb.front < bcb.rear) ⊎ (bcb.front + n ≤ bcb.buffer_size)
        → write bcb src n ≡ ok (n, advance_front bcb (splice bcb.buffer bcb.front (take n src)) n)
    unfolding write
    write-one_piece one = ground arith

    write-two_pieces :
        (lead : ℕ)
        → bcb.front + lead ≡ bcb.buffer_size
        → lead < n
        → bcb.rear ≤ bcb.front
        → write bcb src n
          ≡ ok (
            n,
            record bcb {
              buffer =
                  splice
                    (splice bcb.buffer bcb.front (take lead src))
                    0
                    (take (n - lead) (drop lead src));
              front = n - lead;
              current_size = bcb.current_size + n;
            },
          )
    unfolding write
    write-two_pieces lead end more below =
        let e : sub16 bcb.buffer_size bcb.front ≡ lead = omega arith in
        ground (arith, e, length-take lead src, length-splice bcb.buffer bcb.front (take lead src))

-- What a write returns, by the queue.
abbrev pub Pushed : ByteCircularBuffer → List ℕ → ℕ → ℕ × ByteCircularBuffer → Type 0
Pushed bcb src n (k, bcb') =
    IsValid bcb'
    × ((k, contents bcb') ≡ Queue.push bcb.buffer_size (contents bcb) src n)
    × (bcb'.buffer_size ≡ bcb.buffer_size)

-- On a valid ring, a write of `n` bytes from a source that has them never accesses memory out of
-- bounds, leaves the ring valid and of the same capacity, and its count and the new contents are
-- those of the bounded queue: rejected whole if the ring is full or the bytes do not fit, else
-- appended.
pub write_refines :
    {bcb : ByteCircularBuffer}
    → IsValid bcb
    → (src : List ℕ) (n : ℕ) → n ≤ length src
    → Returns (Pushed bcb src n) (write bcb src n)
unfolding Accepted
write_refines {bcb} v src n given = elim (dec_lt bcb.current_size bcb.buffer_size) [
  | no full ↦
      rw (write-rejected v src n (inl (omega arith))) (v, ground (arith, length-contents bcb), refl)
  | yes free ↦ elim (dec_le (bcb.current_size + n) bcb.buffer_size) [
    | no small ↦
        rw (write-rejected v src n (inr (omega arith)))
          (v, ground (arith, length-contents bcb), refl)
    | yes room ↦ elim (place free room) [
      | inl (one, apart, fits) ↦
          let a = one_piece-Accepted v src n given room fits apart in
          rw (write-one_piece v src n given free room one)
            (a.0, ground (arith, a.1, length-contents bcb), a.2)
      | inr (lead, end, more, below) ↦
          let a = two_pieces-Accepted v src n given room lead end more below in
          rw (write-two_pieces v src n given free room lead end more below)
            (a.0, ground (arith, a.1, length-contents bcb), a.2)
    ]
  ]
]
  where
    place :
        bcb.current_size < bcb.buffer_size
        → bcb.current_size + n ≤ bcb.buffer_size
        → (((bcb.front < bcb.rear) ⊎ (bcb.front + n ≤ bcb.buffer_size))
            × (bcb.front < bcb.rear → bcb.front + n ≤ bcb.rear)
            × (bcb.front + n ≤ bcb.buffer_size))
          ⊎ ((lead : ℕ) × (bcb.front + lead ≡ bcb.buffer_size)
              × (lead < n)
              × (bcb.rear ≤ bcb.front))
    place free room = elim (dec_le (bcb.front + n) bcb.buffer_size) [
      | yes fits ↦ inl (inr fits, grind arith, fits)
      | no over ↦ inr (bcb.buffer_size - bcb.front, omega arith, omega arith, grind arith)
    ]
