-- ===== src/WheelTimer/Clock.antt =====
-- The wheel's clock as one number, and the place that a number of slots ahead falls on.
use tcpserver_lib.Base.{
  ℕ, ◌+◌, ◌-◌, ◌*◌, ◌/◌, ◌%◌, ◌<◌, ◌≡◌, ap, inl, inr, Bool-cases, ◌==◌, ==_iff, arith, ltb, ltb→lt,
}
use native.Mathlib.Nat.{mod-lt, div-add-mod, add-mul, mul_comm}
use tcpserver_lib.WheelTimer.{WheelTimer, advance}

-- The slot `slot` of the rotation `cycle` is the one at `n`.
abbrev pub IsAt : (size cycle slot n : ℕ) → Type 0
IsAt size cycle slot n = (cycle * size + slot ≡ n) × (slot < size)

-- The wheel's clock stands at `n`.
abbrev pub Clock : WheelTimer → ℕ → Type 0
Clock wt n = IsAt wt.wheel_size wt.current_cycle_no wt.current_clock_tic n

mul_step : (q s : ℕ) → (q + 1) * s ≡ q * s + s
mul_step q s = omega arith

pub advance-Clock : (wt : WheelTimer) (n : ℕ) → Clock wt n → Clock (advance wt) (n + 1)
unfolding advance
advance-Clock wt n (at, small) = elim (Bool-cases (wt.current_clock_tic + 1 == wt.wheel_size)) [
  | inl e ↦ rw e (
    omega (
      arith,
      mul_step wt.current_cycle_no wt.wheel_size,
      at,
      (==_iff (wt.current_clock_tic + 1) wt.wheel_size).0 e,
    ),
    omega (arith, small),
  )
  | inr e ↦ rw e (omega (arith, at), ground (arith, small, e))
]

behind : (c c' s s' size : ℕ) → c < c' → s < size → c * size + s < c' * size + s'
behind c c' s s' size less small =
    let split : c' ≡ c + 1 + (c' - c - 1) = omega arith in
    omega (
      arith,
      ap (λ k. k * size) split,
      add-mul (c + 1) (c' - c - 1) size,
      mul_step c size,
      less,
      small,
    )

-- Different places are at different times.
pub place_unique :
    (size c s c' s' n : ℕ) → IsAt size c s n → IsAt size c' s' n → (c ≡ c') × (s ≡ s')
place_unique size c s c' s' n (at, small) (at', small') = elim (Bool-cases (c == c')) [
  | inl e ↦ let same = (==_iff c c').0 e in (same, omega (arith, at, at', ap (λ k. k * size) same))
  | inr e ↦ elim (Bool-cases (ltb c c')) [
    | inl less ↦ absurd (omega (arith, at, at', behind c c' s s' size (ltb→lt c c' less) small))
    | inr more ↦
        absurd (omega (arith, at, at', behind c' c s' s size (ground (arith, e, more)) small'))
  ]
]

pub div_mod-IsAt : (size n : ℕ) → 0 < size → IsAt size (n / size) (n % size) n
div_mod-IsAt size n positive =
    (omega (arith, div-add-mod n size, mul_comm size (n / size)), mod-lt n positive)
