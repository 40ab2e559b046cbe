-- ===== src/WheelTimer/Register.antt =====
-- From the registration of a recurring element to its calls.
use tcpserver_lib.Base.{
  ℕ, suc, ◌+◌, ◌*◌, ◌/◌, ◌%◌, ◌^◌, ◌<◌, ◌≡◌, refl, sym, ap, ap₂, ◌∙◌, Bool, true, false, inl, inr,
  Bool-cases, ◌==◌, if◌then◌else◌, arith, ok, ◌>>=◌, deref, Option, none, some, [], ◌∷◌, Returns,
  Returns-bind,
}
use mathlib.Core.Path.{subst}
use native.Mathlib.Nat.{suc-mul, mul-div_cancel, mul-mod_left}
use tcpserver_lib.WheelTimer.{
  WheelTimer, WheelTimerElem, wtelem_create, wtelem_scheduled, wheel_fn, advance, clock_interval,
  without, set_elem, leave_slot, enter_slot, leave_reschd, place_elem, by_opcode,
  process_wt_reschedule_slotlist, fire, init_wheel_timer, request, timer_register_app_event, given,
}
use tcpserver_lib.WheelTimer.Clock.{IsAt, Clock, div_mod-IsAt, advance-Clock}
use tcpserver_lib.WheelTimer.Rounds.{
  Alone, Ticked, advance-Same, next_place-ok, current_abs_slot_no-ok,
}
use tcpserver_lib.WheelTimer.Periods.{Ran, periods, ticks_of, ticks_of-periods}

-- A wheel whose slots are empty, and on which `e` waits to be placed for the first time.
pub record Waits (p r : ℕ) (wt : WheelTimer) (now : ℕ) : Type 0 where
  pub elem : WheelTimerElem
  pub tick : ℕ
  pub clock : Clock wt now
  pub queued : wt.reschd_list ≡ p ∷ []
  pub empty : (i : ℕ) → wt.slotlist i ≡ []
  pub there : wt.elems p ≡ some elem
  pub created : elem.opcode ≡ wtelem_create
  pub recurs : elem.is_recurrence ≡ true
  pub ticks : clock_interval wt ≡ ok tick
  pub positive : 0 < tick
  pub every : elem.new_time_interval ≡ suc r * tick

entered-listed :
    (p : ℕ) (wt : WheelTimer) (e' : WheelTimerElem) (slot i : ℕ)
    → wt.slotlist i ≡ []
    → (enter_slot slot p (set_elem p (some e') (leave_slot p wt))).slotlist i
      ≡ (if i == slot then p ∷ [] else [])
entered-listed p wt e' slot i empty =
    rw empty (elim (Bool-cases (i == slot)) [ inl f ↦ rw f refl | inr f ↦ rw f refl ])

place_elem-Alone :
    (p r : ℕ) (wt : WheelTimer) (now : ℕ) (w : Waits p r wt now)
    → now + suc r < 2 ^ 31
    → Returns (λ wt'. Alone p (suc r) wt' now (suc r)) (place_elem p w.elem (leave_slot p wt))
unfolding place_elem
place_elem-Alone p r wt now w bound =
    let size : 0 < wt.wheel_size = omega (arith, w.clock.1) in
    let every : w.elem.new_time_interval / w.tick ≡ suc r =
      ap (λ t. t / w.tick) w.every ∙ mul-div_cancel (suc r) w.positive in
    let next = now + w.elem.new_time_interval / w.tick in
    let some_time : (w.elem.new_time_interval == 0) ≡ false =
      ground (arith, w.every, suc-mul r w.tick, w.positive) in
    let self : (p == p) ≡ true = ground arith in
    let placed : WheelTimerElem = record w.elem {
      time_interval = w.elem.new_time_interval;
      execute_cycle_no = next / wt.wheel_size;
      slot_no = next % wt.wheel_size;
      n_scheduled = w.elem.n_scheduled + 1;
      opcode = wtelem_scheduled;
    } in
    let after : Alone p (suc r)
        (leave_reschd p
          (enter_slot (next % wt.wheel_size) p (set_elem p (some placed) (leave_slot p wt))))
        now (suc r) =
      record {
        elem = placed;
        tick = w.tick;
        clock = w.clock;
        idle = ap (without p) w.queued ∙ rw self refl;
        listed = λ i. entered-listed p wt placed (next % wt.wheel_size) i (w.empty i);
        there = rw self refl;
        recurs = w.recurs;
        due =
            subst (λ m. IsAt wt.wheel_size (next / wt.wheel_size) (next % wt.wheel_size) m)
              (ap (λ m. now + m) every) (div_mod-IsAt wt.wheel_size next size);
        ticks = w.ticks;
        positive = w.positive;
        every = every;
      } in
    rw
      (
        some_time,
        current_abs_slot_no-ok wt now w.clock (omega (arith, bound)),
        next_place-ok wt now w.elem.new_time_interval w.tick w.ticks w.positive size
            (omega (arith, every, bound)),
      )
      after

process-Waits :
    (p r : ℕ) (wt : WheelTimer) (now : ℕ)
    → Waits p r wt now
    → now + suc r < 2 ^ 31
    → Returns
        (λ wt'. Alone p (suc r) wt' now (suc r))
        (process_wt_reschedule_slotlist wt.reschd_list wt)
unfolding process_wt_reschedule_slotlist
process-Waits p r wt now w bound =
    subst (Returns (λ wt'. Alone p (suc r) wt' now (suc r)))
      (sym (
        ap (λ l. process_wt_reschedule_slotlist l wt) w.queued
        ∙ ap
            (λ o. deref o >>= λ e.
              by_opcode e.opcode p e (leave_slot p wt) >>= process_wt_reschedule_slotlist [])
            w.there
        ∙ ap (λ c. by_opcode c p w.elem (leave_slot p wt) >>= process_wt_reschedule_slotlist [])
            w.created))
      (Returns-bind (λ wt'. Alone p (suc r) wt' now (suc r)) _
        (place_elem p w.elem (leave_slot p wt)) _ (place_elem-Alone p r wt now w bound)
        (λ wt' a. a))

advance-Waits :
    (p r : ℕ) (wt : WheelTimer) (now : ℕ) → Waits p r wt now → Waits p r (advance wt) (now + 1)
advance-Waits p r wt now w =
    let (size, slots, elems, reschd, interval) = advance-Same wt in
    record {
      elem = w.elem;
      tick = w.tick;
      clock = advance-Clock wt now w.clock;
      queued = reschd ∙ w.queued;
      empty = λ i. ap (λ f. f i) slots ∙ w.empty i;
      there = ap (λ f. f p) elems ∙ w.there;
      created = w.created;
      recurs = w.recurs;
      ticks = interval ∙ w.ticks;
      positive = w.positive;
      every = w.every;
    }

-- The first tick calls nothing, and places the element.
wheel_fn-Waits :
    (p r : ℕ) (wt : WheelTimer) (now k : ℕ)
    → Waits p r wt now
    → now + 1 + suc r < 2 ^ 31
    → Returns (Ticked p (suc r) [] (now + 1) (suc r)) (wheel_fn (suc k) wt)
unfolding wheel_fn fire
wheel_fn-Waits p r wt now k w bound =
    let w' = advance-Waits p r wt now w in
    rw (current_abs_slot_no-ok (advance wt) (now + 1) w'.clock (omega (arith, bound))) (
      rw (w'.empty (advance wt).current_clock_tic) (
        Returns-bind (λ wt'. Alone p (suc r) wt' (now + 1) (suc r)) _
          (process_wt_reschedule_slotlist (advance wt).reschd_list (advance wt)) _
          (process-Waits p r (advance wt) (now + 1) w' bound) (λ wt' a. (refl, a))))

register-Waits :
    (p size interval arg_size r tick : ℕ) (ms : Bool) (arg : Option ℕ)
    → 0 < size
    → clock_interval (init_wheel_timer size interval ms) ≡ ok tick
    → 0 < tick
    → suc r * tick < 2 ^ 31
    → Returns
        (λ wt. Waits p r wt 0)
        (timer_register_app_event p arg arg_size
          (suc r * tick)
          true
          (init_wheel_timer size interval ms))
unfolding timer_register_app_event init_wheel_timer request
register-Waits p size interval arg_size r tick ms arg sized ticks positive fits =
    let kept : suc r * tick % 2 ^ 32 ≡ suc r * tick = omega (arith, fits) in
    let some_time : (suc r * tick == 0) ≡ false = ground (arith, suc-mul r tick, positive) in
    let tick_on : (tick == 0) ≡ false = ground (arith, positive) in
    let even : suc r * tick % tick ≡ 0 = mul-mod_left (suc r) tick in
    let self : (p == p) ≡ true = ground arith in
    let first : WheelTimerElem = record {
      opcode = wtelem_create;
      time_interval = 0;
      new_time_interval = suc r * tick;
      execute_cycle_no = 0;
      slot_no = 0;
      arg = if arg_size == 0 then none else arg;
      arg_size = given arg arg_size;
      is_recurrence = true;
      n_scheduled = 0;
    } in
    rw (ticks, kept, some_time, tick_on, even)
      (rw self (record {
        elem = first;
        tick = tick;
        clock = (omega arith, sized);
        queued = refl;
        empty = λ i. refl;
        there = rw self refl;
        created = refl;
        recurs = refl;
        ticks = ticks;
        positive = positive;
        every = refl;
      }))

-- A new wheel with slots, whose tick is not 0 and fits an `int`. A recurring element is registered
-- with an interval of r + 1 ticks that fits an `int`, and then come one tick and j rounds of r + 1
-- ticks, for which the slot numbers fit an `int`. Then all succeeds: the callback is called at the
-- last tick of each round and at no other.
pub timer_register_app_event-periods :
    (p size interval arg_size r tick k j : ℕ) (ms : Bool) (arg : Option ℕ)
    → 0 < size
    → clock_interval (init_wheel_timer size interval ms) ≡ ok tick
    → 0 < tick
    → suc r * tick < 2 ^ 31
    → 1 + suc r * j + suc r < 2 ^ 31
    → Returns
        (λ (fired, wt'). fired ≡ [] ∷ periods p r j)
        (timer_register_app_event p arg arg_size
            (suc r * tick)
            true
            (init_wheel_timer size interval ms)
          >>= ticks_of (suc k) (suc (suc r * j)))
unfolding ticks_of
timer_register_app_event-periods p size interval arg_size r tick k j ms arg sized ticks positive
      fits bound =
    Returns-bind (λ wt. Waits p r wt 0) _
      (timer_register_app_event p arg arg_size (suc r * tick) true
        (init_wheel_timer size interval ms))
      _ (register-Waits p size interval arg_size r tick ms arg sized ticks positive fits)
      (λ wt w.
        Returns-bind (Ticked p (suc r) [] 1 (suc r)) _ (wheel_fn (suc k) wt) _
          (wheel_fn-Waits p r wt 0 k w (omega (arith, bound)))
          (λ (fired, wt') (called, a).
            Returns-bind (Ran p (suc r) (periods p r j) (1 + suc r * j)) _
              (ticks_of (suc k) (suc r * j) wt') _ (ticks_of-periods p r k j wt' 1 a bound)
              (λ (later, wt'') (rest, _). ap₂ ◌∷◌ called rest)))
