-- ===== src/WheelTimer/Remaining.antt =====
-- What the wheel says of its times.
use tcpserver_lib.Base.{
  ℕ, ◌+◌, ◌-◌, ◌*◌, ◌%◌, ◌^◌, ◌≤◌, ◌<◌, ◌≡◌, refl, ap, ◌∙◌, true, false, arith, ok, ltb, deref,
  ◌>>=◌, lt→ltb, Bool-cases, inl, inr,
}
use native.Mathlib.Nat.{add-mul, add-mul-mod_self_left, mod-eq_of_lt}
use tcpserver_lib.WheelTimer.{
  WheelTimer, is_unplaced, remaining, wt_get_remaining_time, hrs_min_sec,
}
use tcpserver_lib.WheelTimer.Rounds.{Alone, current_abs_slot_no-ok}

-- An element in a slot, alone on the wheel and due after r slots: if the slot numbers fit an `int`
-- and the time fits a `uint32_t`, `wt_get_remaining_time` is r times the tick.
pub wt_get_remaining_time-due :
    (p n r now : ℕ) (wt : WheelTimer) (a : Alone p n wt now r)
    → is_unplaced a.elem.opcode ≡ false
    → now + r < 2 ^ 31
    → r * a.tick < 2 ^ 32
    → wt_get_remaining_time p wt ≡ ok (r * a.tick)
unfolding wt_get_remaining_time
wt_get_remaining_time-due p n r now wt a placed bound small =
    let due : ltb (a.elem.execute_cycle_no * wt.wheel_size + a.elem.slot_no) (2 ^ 31) ≡ true =
      lt→ltb (a.elem.execute_cycle_no * wt.wheel_size + a.elem.slot_no) (2 ^ 31)
        (omega (arith, a.due.0, bound)) in
    let product : (r + 2 ^ 32) * a.tick % 2 ^ 32 ≡ r * a.tick =
      ap (λ t. t % 2 ^ 32) (add-mul r (2 ^ 32) a.tick)
      ∙ add-mul-mod_self_left (r * a.tick) (2 ^ 32) a.tick
      ∙ mod-eq_of_lt small in
    let left : a.elem.execute_cycle_no * wt.wheel_size + a.elem.slot_no + 2 ^ 32 - now
        ≡ r + 2 ^ 32 =
      omega (arith, a.due.0) in
    ap (λ o. deref o >>= λ e. remaining e wt) a.there
    ∙ rw
        (
          placed,
          due,
          current_abs_slot_no-ok wt now a.clock (omega (arith, bound)),
          a.ticks,
          left,
          product,
        )
        refl

-- Fewer than 60 seconds, at most 60 minutes, and the hours make up the seconds.
abbrev pub MakesUp : ℕ → ℕ × ℕ × ℕ → Type 0
MakesUp seconds (hrs, min, sec) = (hrs * 3600 + min * 60 + sec ≡ seconds) × (sec < 60) × (min ≤ 60)

pub hrs_min_sec-MakesUp : (seconds : ℕ) → MakesUp seconds (hrs_min_sec seconds)
unfolding hrs_min_sec
hrs_min_sec-MakesUp seconds = elim (Bool-cases (ltb 3600 seconds)) [
  | inl e ↦ rw e (omega arith, omega arith, omega arith)
  | inr e ↦ rw e (omega arith, omega arith, ground (arith, e))
]
