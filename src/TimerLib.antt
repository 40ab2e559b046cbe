-- ===== src/TimerLib.antt =====
-- libtimer/timerlib.h and timerlib.cpp: a timer over a POSIX timer, and its states.
pub mod Expire
pub mod Pause
mod Tests
use tcpserver_lib.Base.{
  ℕ, zero, suc, ◌+◌, ◌-◌, ◌*◌, ◌/◌, ◌%◌, ◌^◌, Bool, true, false, not, ◌&&◌, ◌||◌, List, [], ◌∷◌,
  Outcome, ok, stop, assertion, ◌>>=◌, ◌>>◌, assert, ◌==◌, ltb, if◌then◌else◌,
}

-- `TIMER_STATE_T`.
pub data TimerState : Type 0 where
  timer_init timer_deleted timer_paused timer_cancelled timer_resumed timer_running : TimerState

pub record Timespec : Type 0 where
  pub tv_sec : ℕ
  pub tv_nsec : ℕ

pub record Itimerspec : Type 0 where
  pub it_value : Timespec
  pub it_interval : Timespec

-- `Timer_t`. Of the POSIX timer, `armed` is what `timer_settime` last got, and `posix_deleted` says
-- that it is no more.
pub record Timer : Type 0 where
  pub exp_timer : ℕ
  pub sec_exp_timer : ℕ
  pub thresdhold : ℕ
  pub exponential_backoff : Bool
  pub time_remaining : ℕ
  pub invocation_counter : ℕ
  pub ts : Itimerspec
  pub exp_back_off_time : ℕ
  pub timer_state : TimerState
  pub armed : Itimerspec
  pub posix_deleted : Bool

-- An `unsigned long` has 64 bits.
unfoldable pub timespec_to_millisec : Timespec → ℕ
timespec_to_millisec time = (time.tv_sec * 1000 + time.tv_nsec / 1000000) % 2 ^ 64

abbrev pub timer_fill_itimerspec : ℕ → Timespec
timer_fill_itimerspec msec = record { tv_sec = msec / 1000; tv_nsec = (msec % 1000) * 1000000 }

abbrev pub set_value : ℕ → Timer → Timer
set_value msec t = record t { ts = record t.ts { it_value = timer_fill_itimerspec msec } }

abbrev pub set_interval : ℕ → Timer → Timer
set_interval msec t = record t { ts = record t.ts { it_interval = timer_fill_itimerspec msec } }

abbrev pub is_zero_time : Timespec → Bool
is_zero_time time = (time.tv_sec == 0) && (time.tv_nsec == 0)

abbrev pub is_deleted : TimerState → Bool
is_deleted timer_deleted = true
is_deleted timer_init = false
is_deleted timer_paused = false
is_deleted timer_cancelled = false
is_deleted timer_resumed = false
is_deleted timer_running = false

abbrev pub is_paused : TimerState → Bool
is_paused timer_paused = true
is_paused timer_init = false
is_paused timer_deleted = false
is_paused timer_cancelled = false
is_paused timer_resumed = false
is_paused timer_running = false

abbrev pub is_cancelled : TimerState → Bool
is_cancelled timer_cancelled = true
is_cancelled timer_init = false
is_cancelled timer_deleted = false
is_cancelled timer_paused = false
is_cancelled timer_resumed = false
is_cancelled timer_running = false

abbrev pub is_resumed : TimerState → Bool
is_resumed timer_resumed = true
is_resumed timer_init = false
is_resumed timer_deleted = false
is_resumed timer_paused = false
is_resumed timer_cancelled = false
is_resumed timer_running = false

-- The state lets `cancel_timer` return at once.
abbrev pub is_idle : TimerState → Bool
is_idle timer_init = true
is_idle timer_deleted = true
is_idle timer_paused = false
is_idle timer_cancelled = false
is_idle timer_resumed = false
is_idle timer_running = false

abbrev pub zero_spec : Itimerspec
zero_spec = record { it_value = timer_fill_itimerspec 0; it_interval = timer_fill_itimerspec 0 }

-- `setup_timer` with a callback, up to the two settings.
abbrev pub new_timer : (exp_timer sec_exp_timer threshold : ℕ) → Bool → Timer
new_timer exp_timer sec_exp_timer threshold exponential_backoff = record {
  exp_timer = exp_timer;
  sec_exp_timer = sec_exp_timer;
  thresdhold = threshold;
  exponential_backoff = exponential_backoff;
  time_remaining = 0;
  invocation_counter = 0;
  ts = zero_spec;
  exp_back_off_time = 0;
  timer_state = timer_init;
  armed = zero_spec;
  posix_deleted = false;
}

unfoldable pub setup_timer : (exp_timer sec_exp_timer threshold : ℕ) → Bool → Timer
setup_timer exp_timer sec_exp_timer threshold exponential_backoff =
    let t = set_value exp_timer (new_timer exp_timer sec_exp_timer threshold exponential_backoff) in
    if not exponential_backoff
    then record (set_interval sec_exp_timer t) { exp_back_off_time = 0 }
    else record (set_interval 0 t) { exp_back_off_time = timespec_to_millisec t.ts.it_value }

-- `timer_settime` fails on a deleted timer.
unfoldable pub resurrect_timer : Timer → Outcome Timer
resurrect_timer t = do assert (not t.posix_deleted); ok (record t { armed = t.ts })

unfoldable pub start_timer : Timer → Outcome Timer
start_timer t = do t ← resurrect_timer t; ok (record t { timer_state = timer_running })

unfoldable pub delete_timer : Timer → Outcome Timer
delete_timer t = do
  assert (not t.posix_deleted)
  ok (record t { posix_deleted = true; timer_state = timer_deleted })

unfoldable pub cancel_timer : Timer → Outcome Timer
cancel_timer t = if is_idle t.timer_state then ok t else do
  t ←
      resurrect_timer
        (record (set_interval 0 (set_value 0 t)) { time_remaining = 0; invocation_counter = 0 })
  ok (record t { timer_state = timer_cancelled })

-- `left` is what `timer_gettime` tells.
unfoldable pub timer_get_time_remaining_in_mill_sec : Timespec → Timer → ℕ
timer_get_time_remaining_in_mill_sec left t =
    if is_deleted t.timer_state || is_cancelled t.timer_state
    then 2 ^ 64 - 1
    else timespec_to_millisec left

unfoldable pub pause_timer : Timespec → Timer → Outcome Timer
pause_timer left t = if is_paused t.timer_state then ok t else do
  t ← resurrect_timer (
      set_interval 0
        (set_value 0 (record t { time_remaining = timer_get_time_remaining_in_mill_sec left t })))
  ok (record t { timer_state = timer_paused })

unfoldable pub resume_timer : Timer → Outcome Timer
resume_timer t0 = do
  assert (is_paused t0.timer_state)
  let t =
      if not (t0.time_remaining == 0)
      then set_value t0.time_remaining t0
      else set_value t0.exp_timer t0
  let t' = set_interval t0.sec_exp_timer t
  assert (not (is_zero_time t'.ts.it_value))
  t'' ← resurrect_timer (record t' { time_remaining = 0 })
  ok (record t'' { timer_state = timer_resumed })

unfoldable pub restart_timer : Timer → Outcome Timer
restart_timer t = do
  assert (not (is_deleted t.timer_state))
  t ← cancel_timer t
  let t' = set_value t.exp_timer t
  let t'' = if not t.exponential_backoff then set_interval t.sec_exp_timer t' else set_interval 0 t'
  t ←
      resurrect_timer (record t'' {
        invocation_counter = 0;
        time_remaining = 0;
        exp_back_off_time = t''.exp_timer;
      })
  ok (record t { timer_state = timer_running })

unfoldable pub reschedule_timer : (exp_ti sec_exp_ti : ℕ) → Timer → Outcome Timer
reschedule_timer exp_ti sec_exp_ti t0 = do
  assert (not (is_deleted t0.timer_state))
  t ← if not (is_cancelled t0.timer_state) then cancel_timer t0 else ok t0
  let t' = set_value exp_ti (record t { invocation_counter = t0.invocation_counter })
  let t'' =
      if not t'.exponential_backoff
      then set_interval sec_exp_ti t'
      else record (set_interval 0 t') { exp_back_off_time = exp_ti }
  t ← resurrect_timer (record t'' { time_remaining = 0 })
  ok (record t { timer_state = timer_running })

abbrev pub is_timer_running : Timer → Bool
is_timer_running t = is_running t.timer_state
  where
    is_running : TimerState → Bool
    is_running timer_running = true
    is_running timer_resumed = true
    is_running timer_init = false
    is_running timer_deleted = false
    is_running timer_paused = false
    is_running timer_cancelled = false

-- `timer_callback_wrapper` after the callback, which does not change the timer.
unfoldable pub after_callback : Timer → Outcome Timer
after_callback t =
    if t.exponential_backoff
    then (do
      assert (not (t.exp_back_off_time == 0))
      let doubled = (t.exp_back_off_time * 2) % 2 ^ 64
      reschedule_timer doubled 0 (record t { exp_back_off_time = doubled }))
    else if is_resumed t.timer_state
    then reschedule_timer t.exp_timer t.sec_exp_timer t
    else ok t

-- `timer_callback_wrapper`: whether the callback has been called.
unfoldable pub timer_callback_wrapper : Timer → Outcome (Bool × Timer)
timer_callback_wrapper t0 = do
  let t = record t0 { invocation_counter = (t0.invocation_counter + 1) % 2 ^ 32 }
  if not (t.thresdhold == 0) && ltb t.thresdhold t.invocation_counter
      then (do t ← cancel_timer t; ok (false, t))
      else (do t ← after_callback t; ok (true, t))
