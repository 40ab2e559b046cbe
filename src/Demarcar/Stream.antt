-- ===== src/Demarcar/Stream.antt =====
-- A whole connection through a demarcator of fixed size: what the application is given depends on
-- the bytes of the stream only, not on the segments in which they arrive.
use tcpserver_lib.Base.{
  ℕ, zero, suc, ◌≤◌, ◌<◌, ◌≡◌, refl, sym, ap, ◌∙◌, List, [], ◌∷◌, ◌++◌, true, false, arith, Returns,
  Returns-result, Returns-mono, ltb, if◌then◌else◌, length, take, drop, concat, concat-append, All,
  All-append, append_assoc, append-nil, append-split, take-append-drop, length-take, length-append,
  length-replicate,
}
use tcpserver_lib.Bcb.{ByteCircularBuffer, create_new}
use tcpserver_lib.Bcb.Valid.{contents, length-contents, create_new-IsValid}
use tcpserver_lib.Demarcar.{
  TcpMsgDemarcar, fixed_size, Message, default_cbc_size, max_client_buffer_size, create,
  process_msg, feed,
}
use tcpserver_lib.Demarcar.Fixed.{IsFixed, Processed, process_msg-Processed}

-- What the stream stands for: as many messages of the size as there are, and the bytes left over.
-- The first argument bounds the number of messages.
unfoldable pub chop : ℕ → ℕ → List ℕ → List Message × List ℕ
chop zero size bytes = ([], bytes)
chop (suc k) size bytes =
    let (ms, rest) = chop k size (drop size bytes) in
    if ltb (length bytes) size then ([], bytes) else (take size bytes ∷ ms, rest)

-- There is one way to split bytes into messages of a size and a shorter rest.
chop_unique :
    (k size : ℕ) (ms : List Message) (rest : List ℕ)
    → 0 < size
    → All (λ m. length m ≡ size) ms
    → length rest < size
    → length (concat ms ++ rest) ≤ k
    → (ms, rest) ≡ chop k size (concat ms ++ rest)
unfolding chop
chop_unique zero size [] rest pos sizes few enough = refl
chop_unique zero size (m ∷ ms) rest pos sizes few enough =
    absurd
      (omega (arith, sizes.0, length-append (m ++ concat ms) rest, length-append m (concat ms)))
chop_unique (suc k) size [] rest pos sizes few enough = ground arith
chop_unique (suc k) size (m ∷ ms) rest pos sizes few enough =
    let e : (m ++ concat ms) ++ rest ≡ m ++ (concat ms ++ rest) = append_assoc m (concat ms) rest in
    let n = length-append m (concat ms ++ rest) in
    let parts =
      append-split (take size (m ++ (concat ms ++ rest))) m
        (omega (arith, sizes.0, n, length-take size (m ++ (concat ms ++ rest))))
        (take-append-drop size (m ++ (concat ms ++ rest))) in
    let full : ltb (length (m ++ (concat ms ++ rest))) size ≡ false = ground (arith, n, sizes.0) in
    let ih = chop_unique k size ms rest pos sizes.1 few (omega (arith, sizes.0, n, ap length e)) in
    rw (e, full, parts.0, parts.1) (ap (λ (t : List Message × List ℕ). (m ∷ t.0, t.1)) ih)

-- A segment as `recvfrom` returns it: not empty, and no longer than the receive buffer.
abbrev pub IsSegment : List ℕ → Type 0
IsSegment segment = (0 < length segment) × (length segment ≤ max_client_buffer_size)

-- What has been handed on so far, and the ring that holds the rest.
record Fed (size : ℕ) (bytes : List ℕ) (ms : List Message) (d : TcpMsgDemarcar) : Type 0 where
  ring : ByteCircularBuffer
  fixed : IsFixed size ring d
  split : concat ms ++ contents ring ≡ bytes
  sizes : All (λ m. length m ≡ size) ms
  few : ring.current_size < size
  cap : ring.buffer_size ≡ default_cbc_size

create-Fed : (size : ℕ) → 0 < size → Fed size [] [] (create (fixed_size size))
unfolding create
create-Fed size pos =
    let (v, empty) = create_new-IsValid default_cbc_size (omega arith) (omega arith) in
    record {
      ring = create_new default_cbc_size;
      fixed = record {
        class = refl;
        ring = refl;
        valid = v;
        room = (_, refl, length-replicate {A = ℕ} max_client_buffer_size 0);
      };
      split = empty;
      sizes = tt;
      few = omega (arith, length-contents (create_new default_cbc_size), ap length empty);
      cap = cap_lem;
    }
  where
    cap_lem : (create_new default_cbc_size).buffer_size ≡ default_cbc_size
    cap_lem = refl

module _ (size : ℕ) (pos : 0 < size) (small : size ≤ max_client_buffer_size) where
  feed-Fed :
      (segments : List (List ℕ)) {bytes : List ℕ} {ms₀ : List Message} {d : TcpMsgDemarcar}
      → All IsSegment segments
      → Fed size bytes ms₀ d
      → Returns
          (λ (ms, d'). Fed size (bytes ++ concat segments) (ms₀ ++ ms) d')
          (feed true d segments)
  unfolding feed
  feed-Fed [] {bytes} {ms₀} segs fed = rw (append-nil bytes, append-nil ms₀) fed
  feed-Fed (segment ∷ segments) {bytes} {ms₀} {d} segs fed =
      let ((ms, d'), e, p) =
        Returns-result (λ (ms, d'). Processed size fed.ring segment ms d')
          (process_msg true d segment (length segment))
          (process_msg-Processed size pos small segment fed.fixed segs.0.0
            (omega (arith, fed.few, fed.cap, segs.0.1))) in
      let next : Fed size (bytes ++ segment) (ms₀ ++ ms) d' = (record {
        ring = p.after;
        fixed = p.fixed;
        split =
            ap (λ t. t ++ contents p.after) (concat-append ms₀ ms)
            ∙ append_assoc (concat ms₀) (concat ms) (contents p.after)
            ∙ ap (λ t. concat ms₀ ++ t) p.bytes
            ∙ sym (append_assoc (concat ms₀) (contents fed.ring) segment)
            ∙ ap (λ t. t ++ segment) fed.split;
        sizes = All-append (λ m. length m ≡ size) ms₀ ms fed.sizes p.sizes;
        few = p.few;
        cap = p.cap ∙ fed.cap;
      }) in
      let ((ms', d''), e', fed') =
        Returns-result
          (λ (ms', d''). Fed size ((bytes ++ segment) ++ concat segments) ((ms₀ ++ ms) ++ ms') d'')
          (feed true d' segments) (feed-Fed segments segs.1 next) in
      rw e (
        rw e' (rw (← append_assoc bytes segment (concat segments), ← append_assoc ms₀ ms ms') fed'))

  -- A new demarcator of a fixed size between 1 and 1024, with a callback registered, is fed any
  -- sequence of segments of 1 to 1024 bytes. Then the run succeeds, and the messages handed on and
  -- the bytes left in the ring are what `chop` makes of the concatenated bytes, whatever the
  -- segments.
  pub feed-chop :
      (segments : List (List ℕ))
      → All IsSegment segments
      → Returns
          (λ (ms, d').
            (ring : ByteCircularBuffer) × IsFixed size ring d'
            × ((ms, contents ring) ≡ chop (length (concat segments)) size (concat segments)))
          (feed true (create (fixed_size size)) segments)
  feed-chop segments segs =
      Returns-mono (λ (ms, d'). Fed size (concat segments) ms d') _
        (feed true (create (fixed_size size)) segments)
        (feed-Fed segments {bytes = []} {ms₀ = []} segs (create-Fed size pos))
        λ (ms, d') fed.
          let unique =
            chop_unique (length (concat segments)) size ms (contents fed.ring) pos fed.sizes
              (omega (arith, fed.few, length-contents fed.ring))
              (omega (arith, ap length fed.split)) in
          (fed.ring, fed.fixed, unique ∙ ap (chop (length (concat segments)) size) fed.split)
