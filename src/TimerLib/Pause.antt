-- ===== src/TimerLib/Pause.antt =====
-- Times, and what a pause keeps.
use tcpserver_lib.Base.{ℕ, ◌+◌, ◌*◌, ◌/◌, ◌%◌, ◌^◌, ◌<◌, ◌≡◌, ap, ◌∙◌, arith}
use native.Mathlib.Nat.{mod-eq_of_lt}
use tcpserver_lib.TimerLib.{Timer, timer_resumed, timespec_to_millisec, timer_fill_itimerspec}

-- A number of milliseconds that fits an `unsigned long` is read back from the `timespec` that
-- `timer_fill_itimerspec` makes of it.
pub timespec_to_millisec-timer_fill_itimerspec :
    (msec : ℕ) → msec < 2 ^ 64 → timespec_to_millisec (timer_fill_itimerspec msec) ≡ msec
unfolding timespec_to_millisec
timespec_to_millisec-timer_fill_itimerspec msec small =
    let parts : msec / 1000 * 1000 + msec % 1000 * 1000000 / 1000000 ≡ msec = omega arith in
    ap (λ n. n % 2 ^ 64) parts ∙ mod-eq_of_lt small

-- What is armed after the timer has been resumed.
abbrev pub Resumed : ℕ → Timer → Timer → Type 0
Resumed left t t' =
    (t'.armed.it_value ≡ timer_fill_itimerspec left)
    × (t'.armed.it_interval ≡ timer_fill_itimerspec t.sec_exp_timer)
    × (t'.timer_state ≡ timer_resumed)
    × (t'.invocation_counter ≡ t.invocation_counter)
