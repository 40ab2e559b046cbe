-- ===== src/Demarcar/FrameStream.antt =====
-- A whole connection through a demarcator of variable size: frames sent by the peer come out as
-- they were sent, however the stream was cut into segments.
use tcpserver_lib.Base.{
  ℕ, suc, ◌≤◌, ◌<◌, ◌≡◌, refl, sym, ap, ◌∙◌, inl, true, some, List, [], ◌∷◌, ◌++◌, arith, ok,
  Returns-result, length, length-replicate, concat, All, append_assoc, append-nil, length-append,
  take_all,
}
use mathlib.Core.Path.{subst}
use native.Mathlib.Decide.{dec_le}
use tcpserver_lib.Bcb.{ByteCircularBuffer, create_new}
use tcpserver_lib.Bcb.Valid.{IsValid, contents, length-contents, create_new-IsValid}
use tcpserver_lib.Bcb.Use.{write-fits}
use tcpserver_lib.Demarcar.{
  TcpMsgDemarcar, variable_size, Message, default_cbc_size, max_client_buffer_size, uint16_at,
  create, process_client_msg, process_msg, feed,
}
use tcpserver_lib.Demarcar.Process.{process_msg-ok}
use tcpserver_lib.Demarcar.Stream.{IsSegment}
use tcpserver_lib.Demarcar.Variable.{IsFrame, IsIncomplete, uint16_at-append}
use tcpserver_lib.Demarcar.Frames.{Unpacked, flush_frames}
use tcpserver_lib.Demarcar.Cut.{cut_lem}

-- A demarcator of this class that is in use.
pub record IsVariable (ring : ByteCircularBuffer) (d : TcpMsgDemarcar) : Type 0 where
  pub class : d.framing ≡ variable_size
  pub ring_eq : d.bcb ≡ some ring
  pub valid : IsValid ring
  pub cap : ring.buffer_size ≡ default_cbc_size
  pub room : (buffer : List ℕ) × (d.buffer ≡ some buffer) × (length buffer ≡ max_client_buffer_size)

-- Bytes that wait for more are fewer than the frame that they begin.
short_of_frame :
    (m front back rest : List ℕ)
    → IsFrame m
    → IsIncomplete front
    → front ++ back ≡ m ++ rest
    → length front < length m
short_of_frame m front back rest frame part e = elim (dec_le (length m) (length front)) [
  | no short ↦ omega arith
  | yes whole ↦
      let size : uint16_at front ≡ length m =
        sym (uint16_at-append front back (omega (arith, frame.longer)))
        ∙ ap uint16_at e
        ∙ uint16_at-append m rest (omega (arith, frame.longer))
        ∙ frame.header in
      absurd (omega (arith, size, frame.longer))
]

waiting :
    (frames : List Message) (front back : List ℕ)
    → All IsFrame frames
    → IsIncomplete front
    → front ++ back ≡ concat frames
    → length front < max_client_buffer_size
waiting [] [] back fs part e = omega arith
waiting [] (x ∷ front) back fs part e = absurd (cc e)
waiting (m ∷ frames) front back fs part e =
    let frame = fs.0 in
    omega (arith, frame.fits, short_of_frame m front back (concat frames) fs.0 part e)

nothing_left :
    (frames : List Message) (front : List ℕ)
    → All IsFrame frames
    → IsIncomplete front
    → front ≡ concat frames
    → (frames ≡ []) × (front ≡ [])
nothing_left [] front fs part e = (refl, e)
nothing_left (m ∷ frames) front fs part e = absurd (
    omega (
      arith,
      short_of_frame m front [] (concat frames) fs.0 part (append-nil front ∙ e),
      ap length e,
      length-append m (concat frames),
    ))

process_msg-frames :
    {ring : ByteCircularBuffer} {d : TcpMsgDemarcar} (segment : List ℕ) (done : List Message)
    (rest : List ℕ)
    → IsVariable ring d
    → IsSegment segment
    → length (contents ring) < max_client_buffer_size
    → All IsFrame done
    → IsIncomplete rest
    → contents ring ++ segment ≡ concat done ++ rest
    → (ring' : ByteCircularBuffer) × (d' : TcpMsgDemarcar) × (process_msg true d segment
          (length segment)
        ≡ ok (done, d'))
      × IsVariable ring' d'
      × (contents ring' ≡ rest)
process_msg-frames {ring} {d} segment done rest f seg few fs part holds =
    let (buffer, eb, same) = f.room in
    let (bcb', e, v', more, size') =
      write-fits f.valid segment (length segment) (omega arith)
        (omega (arith, f.cap, few, length-contents ring, seg.1))
        (omega (arith, f.cap, few, length-contents ring, seg.1)) in
    let holds' : contents bcb' ≡ concat done ++ rest =
      more
      ∙ ap (λ t. contents ring ++ t) (take_all (length segment) segment (omega arith))
      ∙ holds in
    let ((ms, bcb'', buffer''), flushed, (v'', out, left, same', size'')) =
      Returns-result (Unpacked done rest bcb' max_client_buffer_size)
        (process_client_msg (suc bcb'.current_size) true variable_size bcb' buffer)
        (flush_frames done rest (suc bcb'.current_size) buffer v' same fs part holds' (
          omega (
            arith,
            frames-le done fs,
            ap length holds',
            length-append (concat done) rest,
            length-contents bcb',
          ))) in
    let flushed' : process_client_msg (suc bcb'.current_size) true d.framing bcb' buffer
        ≡ ok (ms, bcb'', buffer'') =
      rw f.class flushed in
    (
      bcb'',
      record d { bcb = some bcb''; buffer = some buffer'' },
      process_msg-ok true f.ring_eq eb segment (length segment) (omega (arith, seg.0)) e flushed'
          ∙ ap (λ t. ok (t, record d { bcb = some bcb''; buffer = some buffer'' })) out,
      record {
        class = f.class;
        ring_eq = refl;
        valid = v'';
        cap = size'' ∙ size' ∙ f.cap;
        room = (buffer'', refl, same');
      },
      left,
    )
  where
    frames-le :
        (frames : List Message) → All IsFrame frames → length frames ≤ length (concat frames)
    frames-le [] fs' = omega arith
    frames-le (m ∷ frames) fs' =
        let frame = fs'.0 in
        omega (arith, frame.longer, frames-le frames fs'.1, length-append m (concat frames))

feed_two :
    (d : TcpMsgDemarcar) (segment : List ℕ) (segments : List (List ℕ)) {d' d'' : TcpMsgDemarcar}
    {ms ms' : List Message}
    → process_msg true d segment (length segment) ≡ ok (ms, d')
    → feed true d' segments ≡ ok (ms', d'')
    → feed true d (segment ∷ segments) ≡ ok (ms ++ ms', d'')
unfolding feed
feed_two d segment segments e e' = rw e (rw e')

feed-IsVariable :
    (segments : List (List ℕ)) (frames : List Message) {ring : ByteCircularBuffer}
    {d : TcpMsgDemarcar}
    → IsVariable ring d
    → All IsSegment segments
    → All IsFrame frames
    → IsIncomplete (contents ring)
    → contents ring ++ concat segments ≡ concat frames
    → (ring' : ByteCircularBuffer) × (d' : TcpMsgDemarcar) × (feed true d segments
        ≡ ok (frames, d'))
      × IsVariable ring' d'
      × (contents ring' ≡ [])
unfolding feed
feed-IsVariable [] frames {ring} {d} f segs fs part e =
    let over = nothing_left frames (contents ring) fs part (sym (append-nil (contents ring)) ∙ e) in
    (ring, d, rw over.0, f, over.1)
feed-IsVariable (segment ∷ segments) frames {ring} {d} f segs fs part e =
    let c =
      cut_lem frames (contents ring ++ segment) (concat segments) fs
        (append_assoc (contents ring) segment (concat segments) ∙ e) in
    let (ring', d', e', f', kept) =
      process_msg-frames segment c.done c.rest f segs.0
        (waiting frames (contents ring) (segment ++ concat segments) fs part e) c.done_frames c.part
        c.front_eq in
    let (ring'', d'', e'', f'', empty) =
      feed-IsVariable segments c.left f' segs.1 c.left_frames (subst IsIncomplete (sym kept) c.part)
        (ap (λ t. t ++ concat segments) kept ∙ c.back_eq) in
    (
      ring'',
      d'',
      feed_two d segment segments e' e'' ∙ ap (λ t. ok (t, d'')) (sym c.frames_eq),
      f'',
      empty,
    )

create-IsVariable :
    (ring : ByteCircularBuffer) × IsVariable ring (create variable_size) × (contents ring ≡ [])
unfolding create
create-IsVariable =
    let (v, empty) = create_new-IsValid default_cbc_size (omega arith) (omega arith) in
    (
      create_new default_cbc_size,
      record {
        class = refl;
        ring_eq = refl;
        valid = v;
        cap = refl;
        room = (_, refl, length-replicate {A = ℕ} max_client_buffer_size 0);
      },
      empty,
    )

-- A new demarcator of variable size, with a callback registered, is fed any sequence of segments of
-- 1 to 1024 bytes whose concatenation is the concatenation of well-formed frames (more than 2 and at
-- most 1024 bytes, the first two of which give the frame's length). Then the whole run succeeds, the
-- messages handed to the application are these frames, in order, and the ring is empty at the end.
pub feed_frames :
    (segments : List (List ℕ)) (frames : List Message)
    → All IsSegment segments
    → All IsFrame frames
    → concat segments ≡ concat frames
    → (ring : ByteCircularBuffer) × (d : TcpMsgDemarcar) × (feed true
          (create variable_size)
          segments
        ≡ ok (frames, d))
      × IsVariable ring d
      × (contents ring ≡ [])
feed_frames segments frames segs fs e =
    let (ring, f, empty) = create-IsVariable in
    feed-IsVariable segments frames f segs fs (inl (omega (arith, ap length empty)))
      (ap (λ t. t ++ concat segments) empty ∙ e)
