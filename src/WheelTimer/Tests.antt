-- ===== src/WheelTimer/Tests.antt =====
-- A wheel of 4 slots that turns every 10 milliseconds, with a timer of 60.
use tcpserver_lib.Base.{
  ◌≡◌, refl, true, none, some, [], ◌∷◌, Returns, ◌>>=◌, arith, ◌==◌, if◌then◌else◌,
}
use tcpserver_lib.WheelTimer.{
  WheelTimer, WheelTimerElem, wtelem_scheduled, init_wheel_timer, timer_register_app_event,
  hrs_min_sec,
}
use tcpserver_lib.WheelTimer.Rounds.{Alone}
use tcpserver_lib.WheelTimer.Periods.{periods, ticks_of}
use tcpserver_lib.WheelTimer.Register.{timer_register_app_event-periods}

-- The timer 3, placed in the slot 3 of the second rotation.
abbrev elem : WheelTimerElem
elem = record {
  opcode = wtelem_scheduled;
  time_interval = 60;
  new_time_interval = 60;
  execute_cycle_no = 1;
  slot_no = 3;
  arg = none;
  arg_size = 0;
  is_recurrence = true;
  n_scheduled = 1;
}

abbrev wheel : WheelTimer
wheel = record {
  current_clock_tic = 1;
  clock_tic_interval = 10;
  wheel_size = 4;
  current_cycle_no = 0;
  milli_seconds = true;
  reschd_list = [];
  slotlist = λ i. if i == 3 then 3 ∷ [] else [];
  elems = λ q. if q == 3 then some elem else none;
}

abbrev alone_wheel : Alone 3 6 wheel 1 6
alone_wheel = record {
  elem = elem;
  tick = 10;
  clock = (refl, omega arith);
  idle = refl;
  listed = λ i. refl;
  there = refl;
  recurs = refl;
  due = (refl, omega arith);
  ticks = refl;
  positive = omega arith;
  every = refl;
}

timer_register_app_event-periods_example :
    Returns
      (λ (fired, wt'). fired ≡ [] ∷ periods 3 5 2)
      (timer_register_app_event 3 none 0 60 true (init_wheel_timer 4 10 true) >>= ticks_of 2 13)
unfolding init_wheel_timer
timer_register_app_event-periods_example =
    timer_register_app_event-periods 3 4 10 0 5 10 1 2 true none (omega arith) refl (omega arith)
      (omega arith) (omega arith)

-- An hour is printed as 0 hours and 60 minutes.
hrs_min_sec-hour : hrs_min_sec 3600 ≡ (0, 60, 0)
unfolding hrs_min_sec
hrs_min_sec-hour = refl
