-- ===== src/Bcb/Valid.antt =====
-- The invariant of the ring and the bytes that it holds, oldest first.
use tcpserver_lib.Base.{
  ℕ, ◌+◌, ◌-◌, ◌^◌, ◌<◌, ◌≤◌, ◌≡◌, refl, ◌⊎◌, List, [], none, arith, ltb, if◌then◌else◌, length,
  get_elem?, get_or, tabulate, length-tabulate, get_elem?-tabulate, get_elem?-eq-get_or,
  length-replicate,
}
use tcpserver_lib.Bcb.{ByteCircularBuffer, create_new}

pub record IsValid (bcb : ByteCircularBuffer) : Type 0 where
  pub storage : length bcb.buffer ≡ bcb.buffer_size
  pub size16 : bcb.buffer_size < 2 ^ 16
  pub front_in : bcb.front < bcb.buffer_size
  pub rear_in : bcb.rear < bcb.buffer_size
  pub count_in : bcb.current_size ≤ bcb.buffer_size
  pub joined :
      (bcb.rear + bcb.current_size ≡ bcb.front)
      ⊎ (bcb.rear + bcb.current_size ≡ bcb.front + bcb.buffer_size)

-- The index of the `k`-th oldest byte.
abbrev pub slot : ByteCircularBuffer → ℕ → ℕ
slot bcb k =
    if ltb (bcb.rear + k) bcb.buffer_size then bcb.rear + k else bcb.rear + k - bcb.buffer_size

unfoldable pub contents : ByteCircularBuffer → List ℕ
contents bcb = tabulate bcb.current_size 0 (λ k. get_or bcb.buffer (slot bcb k) 0)

pub length-contents : (bcb : ByteCircularBuffer) → length (contents bcb) ≡ bcb.current_size
unfolding contents
length-contents bcb = length-tabulate bcb.current_size 0 _

pub get_elem?-contents :
    {bcb : ByteCircularBuffer}
    → IsValid bcb
    → (k : ℕ)
    → get_elem? (contents bcb) k
      ≡ (if ltb k bcb.current_size then get_elem? bcb.buffer (slot bcb k) else none)
unfolding contents
get_elem?-contents {bcb} v k = ground (
  arith,
  get_elem?-tabulate bcb.current_size 0 (λ j. get_or bcb.buffer (slot bcb j) 0) k,
  get_elem?-eq-get_or bcb.buffer (slot bcb k) 0,
)

-- A new ring is valid and empty.
pub create_new-IsValid :
    (size : ℕ)
    → 0 < size
    → size < 2 ^ 16
    → IsValid (create_new size) × (contents (create_new size) ≡ [])
unfolding create_new contents
create_new-IsValid size h k = (ground (arith, length-replicate {A = ℕ} size 0), refl)
