-- ===== src/TimerLib/Tests.antt =====
-- A running timer of 50 and then 100 milliseconds, with a threshold of 3.
use tcpserver_lib.Base.{refl, false, Returns, arith}
use tcpserver_lib.TimerLib.{Timer, timer_running, zero_spec}
use tcpserver_lib.TimerLib.Expire.{Counts, Cancelled, expirations, expirations-Cancelled}

abbrev timer : Timer
timer = record {
  exp_timer = 50;
  sec_exp_timer = 100;
  thresdhold = 3;
  exponential_backoff = false;
  time_remaining = 0;
  invocation_counter = 0;
  ts = zero_spec;
  exp_back_off_time = 0;
  timer_state = timer_running;
  armed = zero_spec;
  posix_deleted = false;
}

timer-Counts : Counts timer 0 3
timer-Counts = record {
  running = refl;
  alive = refl;
  periodic = refl;
  counter = refl;
  threshold = refl;
  limited = omega arith;
  bounded = omega arith;
}

expirations-Cancelled_example : Returns (Cancelled 3) (expirations 4 timer)
expirations-Cancelled_example = expirations-Cancelled timer 0 3 timer-Counts
