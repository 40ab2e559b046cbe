-- ===== src/Bcb/Pieces.antt =====
-- The cases of `BCBRead`: a copy in one piece or in two, with and without removal.
use tcpserver_lib.Base.{
  splice, length-splice, get_elem?-splice, ℕ, ◌+◌, ◌-◌, ◌≤◌, ◌<◌, ◌≡◌, refl, ◌⊎◌, Bool, List, arith,
  ok, ltb, if◌then◌else◌, length, get_elem?, take, drop, length-take, length-drop, list_ext,
  get_elem?-take, get_elem?-drop,
}
use tcpserver_lib.Bcb.{ByteCircularBuffer, sub16, advance_rear, read}
use tcpserver_lib.Bcb.Valid.{IsValid, contents, get_elem?-contents}

-- `out` with its first `n` bytes replaced by the oldest `n` of the ring.
abbrev pub Filled : ByteCircularBuffer → List ℕ → ℕ → List ℕ → Type 0
Filled bcb out n out' =
    (take n out' ≡ take n (contents bcb)) × (drop n out' ≡ drop n out) × (length out' ≡ length out)

module _ {bcb : ByteCircularBuffer} (v : IsValid bcb) (n : ℕ) (stored : n ≤ bcb.current_size) where
  open v use {storage, size16, front_in, rear_in, count_in, joined}

  -- What a read that removes leaves, its new index given.
  unfoldable pub Removed : ByteCircularBuffer → Type 0
  Removed bcb' =
      IsValid bcb' × (contents bcb' ≡ drop n (contents bcb)) × (bcb'.buffer_size ≡ bcb.buffer_size)

  pub removed_lem :
      (r c : ℕ)
      → c ≡ bcb.current_size - n
      → r < bcb.buffer_size
      → (r ≡ bcb.rear + n) ⊎ (r + bcb.buffer_size ≡ bcb.rear + n)
      → Removed (record bcb { rear = r; current_size = c })
  unfolding Removed
  removed_lem r c left inside at_n = (valid, list_ext _ _ bytes, refl)
    where
      bcb' : ByteCircularBuffer
      bcb' = record bcb { rear = r; current_size = c }

      valid : IsValid bcb'
      valid = ground arith

      bytes : (k : ℕ) → get_elem? (contents bcb') k ≡ get_elem? (drop n (contents bcb)) k
      bytes k = ground (
        arith,
        get_elem?-contents valid k,
        get_elem?-contents v (n + k),
        get_elem?-drop n (contents bcb) k,
      )

  module _ (out : List ℕ) (given : n ≤ length out) where
    pub one_piece-Filled :
        bcb.rear + n ≤ bcb.buffer_size
        → Filled bcb out n (splice out 0 (take n (drop bcb.rear bcb.buffer)))
    one_piece-Filled fits = (list_ext _ _ bytes, list_ext _ _ rest, same)
      where
        xs : List ℕ
        xs = take n (drop bcb.rear bcb.buffer)

        taken : length xs ≡ n
        taken =
            omega (arith, length-take n (drop bcb.rear bcb.buffer), length-drop bcb.rear bcb.buffer)

        same : length (splice out 0 xs) ≡ length out
        same = length-splice out 0 xs (omega (arith, taken))

        bytes :
            (k : ℕ) → get_elem? (take n (splice out 0 xs)) k ≡ get_elem? (take n (contents bcb)) k
        bytes k = ground (
          arith,
          taken,
          get_elem?-take n (splice out 0 xs) k,
          get_elem?-take n (contents bcb) k,
          get_elem?-contents v k,
          get_elem?-splice out 0 xs (omega (arith, taken)) k,
          get_elem?-take n (drop bcb.rear bcb.buffer) k,
          get_elem?-drop bcb.rear bcb.buffer k,
        )

        rest : (k : ℕ) → get_elem? (drop n (splice out 0 xs)) k ≡ get_elem? (drop n out) k
        rest k = ground (
          arith,
          taken,
          get_elem?-drop n (splice out 0 xs) k,
          get_elem?-drop n out k,
          get_elem?-splice out 0 xs (omega (arith, taken)) (n + k),
        )

    pub two_pieces-Filled :
        (lead : ℕ)
        → bcb.rear + lead ≡ bcb.buffer_size
        → lead < n
        → Filled bcb out n (
            splice
              (splice out 0 (take lead (drop bcb.rear bcb.buffer)))
              lead
              (take (n - lead) bcb.buffer))
    two_pieces-Filled lead end more =
        (list_ext _ _ bytes, list_ext _ _ rest, omega (arith, same, same'))
      where
        xs : List ℕ
        xs = take lead (drop bcb.rear bcb.buffer)

        ys : List ℕ
        ys = take (n - lead) bcb.buffer

        first : List ℕ
        first = splice out 0 xs

        both : List ℕ
        both = splice first lead ys

        taken : length xs ≡ lead
        taken =
            omega
              (arith, length-take lead (drop bcb.rear bcb.buffer), length-drop bcb.rear bcb.buffer)

        taken' : length ys ≡ n - lead
        taken' = omega (arith, length-take (n - lead) bcb.buffer)

        same : length first ≡ length out
        same = length-splice out 0 xs (omega (arith, taken))

        same' : length both ≡ length first
        same' = length-splice first lead ys (omega (arith, taken', same))

        at_both :
            (k : ℕ)
            → get_elem? both k ≡ (
                if ltb k lead
                then get_elem? bcb.buffer (bcb.rear + k)
                else if ltb k n
                then get_elem? bcb.buffer (k - lead)
                else get_elem? out k)
        at_both k = ground (
          arith,
          taken,
          taken',
          get_elem?-splice first lead ys (omega (arith, taken', same)) k,
          get_elem?-splice out 0 xs (omega (arith, taken)) k,
          get_elem?-take lead (drop bcb.rear bcb.buffer) k,
          get_elem?-drop bcb.rear bcb.buffer k,
          get_elem?-take (n - lead) bcb.buffer (k - lead),
        )

        bytes : (k : ℕ) → get_elem? (take n both) k ≡ get_elem? (take n (contents bcb)) k
        bytes k = ground (
          arith,
          at_both k,
          get_elem?-take n both k,
          get_elem?-take n (contents bcb) k,
          get_elem?-contents v k,
        )

        rest : (k : ℕ) → get_elem? (drop n both) k ≡ get_elem? (drop n out) k
        rest k = ground (arith, at_both (n + k), get_elem?-drop n both k, get_elem?-drop n out k)

    pub read-one_piece :
        (remove : Bool)
        → (bcb.rear < bcb.front) ⊎ (bcb.rear + n ≤ bcb.buffer_size)
        → read bcb out n remove
          ≡ ok (n, splice out 0 (take n (drop bcb.rear bcb.buffer)), advance_rear bcb n remove)
    unfolding read
    read-one_piece remove one = ground arith

    pub read-two_pieces :
        (remove : Bool) (lead : ℕ)
        → bcb.rear + lead ≡ bcb.buffer_size
        → lead < n
        → bcb.front ≤ bcb.rear
        → read bcb out n remove
          ≡ ok (
            n,
            splice
                (splice out 0 (take lead (drop bcb.rear bcb.buffer)))
                lead
                (take (n - lead) bcb.buffer),
            if remove
                then record bcb { rear = n - lead; current_size = bcb.current_size - n }
                else bcb,
          )
    unfolding read
    read-two_pieces remove lead end more below =
        let e : sub16 bcb.buffer_size bcb.rear ≡ lead = omega arith in
        ground (
          arith,
          e,
          length-take lead (drop bcb.rear bcb.buffer),
          length-drop bcb.rear bcb.buffer,
          length-splice out 0 (take lead (drop bcb.rear bcb.buffer)),
        )
