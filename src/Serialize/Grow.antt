-- ===== src/Serialize/Grow.antt =====
-- The growth loop: it ends with room enough, unless the size is 0 or would leave `int`.
use tcpserver_lib.Base.{
  ℕ, zero, suc, ◌+◌, ◌*◌, ◌^◌, ◌≤◌, ◌<◌, ◌≡◌, refl, ap, ◌⊎◌, arith, ok, stop, fuel,
}
use native.Mathlib.Nat.{pow-zero, pow-suc}
use native.Mathlib.Decide.{dec_lt}
use tcpserver_lib.Serialize.{grow}

-- A loop that returns leaves room for the bytes, and never shrinks the buffer.
pub grow_room :
    (k size next n : ℕ) {size' : ℕ}
    → grow k size next n ≡ ok size'
    → (next + n ≤ size') × (size ≤ size') × ((size' ≡ size) ⊎ (size < next + n))
unfolding grow
grow_room zero size next n e = cc
grow_room (suc k) size next n {size'} e =
    ground (arith, grow_room k (size * 2) next n {size' = size'})

-- The growth loop ends with a result on k + 1 rounds of fuel, if the size is not 0, and the bytes
-- asked for are at most 2^30 and at most the size times 2^k.
pub grow_total :
    (k size next n : ℕ)
    → 0 < size
    → next + n ≤ 2 ^ 30
    → next + n ≤ size * 2 ^ k
    → (size' : ℕ) × (grow (suc k) size next n ≡ ok size')
unfolding grow
grow_total zero size next n pos small bound = (size, ground (arith, pow-zero 2, bound))
grow_total (suc k) size next n pos small bound = elim (dec_lt size (next + n)) [
  | no enough ↦ (size, ground arith)
  | yes short ↦
      let (size', e) =
        grow_total k (size * 2) next n (omega arith) small
          (omega (arith, ap (λ (t : ℕ). size * t) (pow-suc 2 k))) in
      (size', grow_step short e)
]
  where
    grow_step :
        size < next + n
        → {size' : ℕ} → grow (suc k) (size * 2) next n ≡ ok size'
        → grow (suc (suc k)) size next n ≡ ok size'
    grow_step short e = ground arith

-- The growth loop on a buffer of size 0 that needs room ends on no amount of fuel.
pub grow_zero : (k next n : ℕ) → 0 < next + n → grow k 0 next n ≡ stop fuel
unfolding grow
grow_zero zero next n h = refl
grow_zero (suc k) next n h = ground (arith, grow_zero k next n h)
