-- ===== src/Demarcar/Variable.antt =====
-- TcpMsgVariableSizeDemarcar.cpp: a message begins with its own size, header included, as a
-- `uint16_t`.
use tcpserver_lib.Base.{
  ℕ, ◌≤◌, ◌<◌, ◌≡◌, refl, sym, ap, ◌∙◌, ◌⊎◌, true, false, List, [], ◌∷◌, ◌++◌, arith, ok, leb, ◌==◌,
  length, take, drop,
}
use native.Mathlib.Decide.{dec_le}
use tcpserver_lib.Bcb.{ByteCircularBuffer}
use tcpserver_lib.Bcb.Valid.{IsValid, contents, length-contents}
use tcpserver_lib.Bcb.Use.{read-removes, read-keeps}
use tcpserver_lib.Demarcar.{
  variable_size, Message, max_client_buffer_size, uint16_at, peek_header, is_buffer_ready_to_flush,
  extract,
}

-- A message as the peer should send it.
pub record IsFrame (m : Message) : Type 0 where
  pub longer : 2 < length m
  pub fits : length m ≤ max_client_buffer_size
  pub header : uint16_at m ≡ length m

-- Bytes that do not hold a whole message yet.
abbrev pub IsIncomplete : List ℕ → Type 0
IsIncomplete bytes = (length bytes ≤ 2) ⊎ (length bytes < uint16_at bytes)

uint16_at-take : (xs : List ℕ) → uint16_at (take 2 xs) ≡ uint16_at xs
uint16_at-take [] = refl
uint16_at-take (x ∷ []) = refl
uint16_at-take (x ∷ y ∷ xs) = refl

pub uint16_at-append : (xs ys : List ℕ) → 2 ≤ length xs → uint16_at (xs ++ ys) ≡ uint16_at xs
uint16_at-append [] ys h = absurd (omega arith)
uint16_at-append (x ∷ []) ys h = absurd (omega arith)
uint16_at-append (x ∷ y ∷ xs) ys h = refl

module _ {bcb : ByteCircularBuffer} (v : IsValid bcb) where
  pub peek_header-contents : 2 ≤ bcb.current_size → peek_header bcb ≡ ok (uint16_at (contents bcb))
  unfolding peek_header
  peek_header-contents two =
      let (out', bcb', e, same) = read-keeps v (0 ∷ 0 ∷ []) 2 (omega arith) two in
      rw e (ap ok (sym (uint16_at-take out') ∙ ap uint16_at same ∙ uint16_at-take (contents bcb)))

  pub ready_variable-true :
      2 < bcb.current_size
      → uint16_at (contents bcb) ≤ bcb.current_size
      → is_buffer_ready_to_flush variable_size bcb ≡ ok true
  unfolding is_buffer_ready_to_flush
  ready_variable-true two whole =
      let head = peek_header-contents (omega arith) in
      let more : leb bcb.current_size 2 ≡ false = ground arith in
      let all : leb (uint16_at (contents bcb)) bcb.current_size ≡ true = ground arith in
      rw (more, head) (rw all)

  pub ready_variable-false :
      IsIncomplete (contents bcb) → is_buffer_ready_to_flush variable_size bcb ≡ ok false
  unfolding is_buffer_ready_to_flush
  ready_variable-false part = elim (dec_le bcb.current_size 2) [
    | yes few ↦ let none_left : leb bcb.current_size 2 ≡ true = ground arith in rw none_left
    | no more ↦
        let head = peek_header-contents (omega arith) in
        let more' : leb bcb.current_size 2 ≡ false = ground arith in
        let part' : leb (uint16_at (contents bcb)) bcb.current_size ≡ false =
          ground (arith, length-contents bcb) in
        rw (more', head) (rw part')
  ]

  pub extract_variable :
      (buffer : List ℕ)
      → 2 ≤ bcb.current_size
      → uint16_at (contents bcb) ≤ bcb.current_size
      → uint16_at (contents bcb) ≤ length buffer
      → (buffer' : List ℕ) × (bcb' : ByteCircularBuffer) × (extract variable_size bcb buffer
          ≡ ok (take (uint16_at (contents bcb)) (contents bcb), bcb', buffer'))
        × IsValid bcb'
        × (contents bcb' ≡ drop (uint16_at (contents bcb)) (contents bcb))
        × (length buffer' ≡ length buffer)
        × (bcb'.buffer_size ≡ bcb.buffer_size)
  unfolding extract
  extract_variable buffer two whole small =
      let head = peek_header-contents two in
      let (buffer', bcb', e, out, v', rest, same, cap') =
        read-removes v buffer (uint16_at (contents bcb)) small whole in
      let size_ok : (uint16_at (contents bcb) == uint16_at (contents bcb)) ≡ true = ground arith in
      (buffer', bcb', rw head (rw e (rw size_ok (rw out))), v', rest, same, cap')
