-- ===== src/WheelTimer.antt =====
-- libtimer/WheelTimer.h and WheelTimer.cpp: timers on a wheel of slots. An element is a number, and
-- `elems` says what it points to. A slot's list is the order of its nodes; what the operations on the
-- links make of such an order is shown in Glthread.
pub mod Clock
pub mod Periods
pub mod Register
pub mod Remaining
pub mod Rounds
mod Tests
use tcpserver_lib.Base.{
  ℕ, zero, suc, ◌+◌, ◌-◌, ◌*◌, ◌/◌, ◌%◌, ◌^◌, Bool, true, false, not, ◌&&◌, ◌||◌, Option, none,
  some, List, [], ◌∷◌, ◌++◌, Outcome, ok, stop, memory, fuel, assertion, arithmetic, ◌>>=◌, ◌>>◌,
  deref, assert, ◌==◌, ltb, leb, if◌then◌else◌,
}
use tcpserver_lib.Glthread.Chain.{head_of}
use tcpserver_lib.Glthread.Priority.{front, back}

-- `wt_opcode_t`.
pub data WtOpcode : Type 0 where
  wtelem_create wtelem_resched wtelem_delete wtelem_scheduled wtelem_unknown : WtOpcode

-- `wheel_timer_elem_t`, whose callback is not null.
pub record WheelTimerElem : Type 0 where
  pub opcode : WtOpcode
  pub time_interval : ℕ
  pub new_time_interval : ℕ
  pub execute_cycle_no : ℕ
  pub slot_no : ℕ
  pub arg : Option ℕ
  pub arg_size : ℕ
  pub is_recurrence : Bool
  pub n_scheduled : ℕ

-- `wheel_timer_t`. `milli_seconds` says which the resolution is.
pub record WheelTimer : Type 0 where
  pub current_clock_tic : ℕ
  pub clock_tic_interval : ℕ
  pub wheel_size : ℕ
  pub current_cycle_no : ℕ
  pub milli_seconds : Bool
  pub reschd_list : List ℕ
  pub slotlist : ℕ → List ℕ
  pub elems : ℕ → Option WheelTimerElem

-- A value of type `int` that is not negative.
abbrev pub int : ℕ → Outcome ℕ
int n = if ltb n (2 ^ 31) then ok n else stop arithmetic

-- `wt_get_clock_interval_in_milli_sec`.
abbrev pub clock_interval : WheelTimer → Outcome ℕ
clock_interval wt =
    if wt.milli_seconds then ok wt.clock_tic_interval else int (wt.clock_tic_interval * 1000)

-- `GET_WT_CURRENT_ABS_SLOT_NO`.
abbrev pub current_abs_slot_no : WheelTimer → Outcome ℕ
current_abs_slot_no wt = int (wt.current_cycle_no * wt.wheel_size + wt.current_clock_tic)

abbrev pub div : ℕ → ℕ → Outcome ℕ
div a b = if b == 0 then stop arithmetic else ok (a / b)

abbrev pub mod_by : ℕ → ℕ → Outcome ℕ
mod_by a b = if b == 0 then stop arithmetic else ok (a % b)

-- The computation of `next_cycle_no` and `next_slot_no`.
abbrev pub next_place : ℕ → ℕ → WheelTimer → Outcome (ℕ × ℕ)
next_place absolute_slot_no time_interval wt = do
  tick ← clock_interval wt
  rounds ← div time_interval tick
  next ← int (absolute_slot_no + rounds)
  cycle ← div next wt.wheel_size
  slot ← mod_by next wt.wheel_size
  ok (cycle, slot)

abbrev pub cycle_of : Option WheelTimerElem → ℕ
cycle_of none = 0
cycle_of (some e) = e.execute_cycle_no

-- `insert_wt_elem_in_slot` returns -1.
abbrev pub comes_before : (ℕ → Option WheelTimerElem) → ℕ → ℕ → Bool
comes_before elems a b = ltb (cycle_of (elems a)) (cycle_of (elems b))

abbrev pub without : ℕ → List ℕ → List ℕ
without p [] = []
without p (q ∷ qs) = let rest = without p qs in if q == p then rest else q ∷ rest

abbrev pub set_elem : ℕ → Option WheelTimerElem → WheelTimer → WheelTimer
set_elem p e wt = record wt { elems = λ q. if q == p then e else wt.elems q }

-- `remove_glthread(&wt_elem->glue)`: the node is in one slot's list at most.
abbrev pub leave_slot : ℕ → WheelTimer → WheelTimer
leave_slot p wt = record wt { slotlist = λ i. without p (wt.slotlist i) }

-- `glthread_priority_insert` into the list of a slot.
abbrev pub enter_slot : ℕ → ℕ → WheelTimer → WheelTimer
enter_slot slot p wt = record wt {
  slotlist = λ i.
      if i == slot
      then front (comes_before wt.elems) p (wt.slotlist i)
        ++ (p ∷ back (comes_before wt.elems) p (wt.slotlist i))
      else wt.slotlist i;
}

abbrev pub leave_reschd : ℕ → WheelTimer → WheelTimer
leave_reschd p wt = record wt { reschd_list = without p wt.reschd_list }

-- `process_wt_reschedule_slotlist`, the cases WTELEM_CREATE and WTELEM_RESCHED.
unfoldable pub place_elem : ℕ → WheelTimerElem → WheelTimer → Outcome WheelTimer
place_elem p e wt = do
  assert (not (e.new_time_interval == 0))
  now ← current_abs_slot_no wt
  (cycle, slot) ← next_place now e.new_time_interval wt
  let placed : WheelTimerElem = record e {
    time_interval = e.new_time_interval;
    execute_cycle_no = cycle;
    slot_no = slot;
    n_scheduled = e.n_scheduled + 1;
    opcode = wtelem_scheduled;
  }
  ok (leave_reschd p (enter_slot slot p (set_elem p (some placed) wt)))

abbrev pub by_opcode : WtOpcode → ℕ → WheelTimerElem → WheelTimer → Outcome WheelTimer
by_opcode wtelem_create p e wt = place_elem p e wt
by_opcode wtelem_resched p e wt = place_elem p e wt
by_opcode wtelem_delete p e wt = ok (set_elem p none (leave_reschd p wt))
by_opcode wtelem_scheduled p e wt = ok wt
by_opcode wtelem_unknown p e wt = stop assertion

-- The loop of `process_wt_reschedule_slotlist`, over the list as it stands at the start: its body takes
-- out no other element than its own.
unfoldable pub process_wt_reschedule_slotlist : List ℕ → WheelTimer → Outcome WheelTimer
process_wt_reschedule_slotlist [] wt = ok wt
process_wt_reschedule_slotlist (p ∷ ps) wt = do
  e ← deref (wt.elems p)
  wt ← by_opcode e.opcode p e (leave_slot p wt)
  process_wt_reschedule_slotlist ps wt

-- `wheel_fn` for a recurring element after its callback.
unfoldable pub schedule_again : ℕ → ℕ → WheelTimerElem → WheelTimer → Outcome WheelTimer
schedule_again absolute_slot_no p e wt = do
  (cycle, slot) ← next_place absolute_slot_no e.time_interval wt
  let again : WheelTimerElem = record e {
    execute_cycle_no = cycle;
    slot_no = slot;
    n_scheduled = e.n_scheduled + 1;
  }
  ok (enter_slot slot p (leave_slot p (set_elem p (some again) wt)))

-- The right link of a node.
abbrev pub next_of : ℕ → List ℕ → Option ℕ
next_of p [] = none
next_of p (q ∷ qs) = let rest = next_of p qs in if q == p then head_of qs else rest

-- The loop of `wheel_fn`: the elements whose callbacks it has called.
unfoldable pub fire : ℕ → ℕ → Option ℕ → WheelTimer → Outcome (List ℕ × WheelTimer)
fire k absolute_slot_no none wt = ok ([], wt)
fire zero absolute_slot_no (some p) wt = stop fuel
fire (suc k) absolute_slot_no (some p) wt = do
  e ← deref (wt.elems p)
  elim (wt.current_cycle_no == e.execute_cycle_no) [
    | false ↦ ok ([], wt)
    | true ↦ do
      wt' ← if e.is_recurrence then schedule_again absolute_slot_no p e wt else ok (leave_slot p wt)
      (fired, wt'') ← fire k absolute_slot_no (next_of p (wt.slotlist wt.current_clock_tic)) wt'
      ok (p ∷ fired, wt'')
  ]

-- The clock of `wheel_fn`.
unfoldable pub advance : WheelTimer → WheelTimer
advance wt =
    if wt.current_clock_tic + 1 == wt.wheel_size
    then record wt { current_clock_tic = 0; current_cycle_no = wt.current_cycle_no + 1 }
    else record wt { current_clock_tic = wt.current_clock_tic + 1 }

unfoldable pub wheel_fn : ℕ → WheelTimer → Outcome (List ℕ × WheelTimer)
wheel_fn k wt0 = do
  let wt = advance wt0
  absolute_slot_no ← current_abs_slot_no wt
  (fired, wt') ← fire k absolute_slot_no (head_of (wt.slotlist wt.current_clock_tic)) wt
  wt'' ← process_wt_reschedule_slotlist wt'.reschd_list wt'
  ok (fired, wt'')

-- `init_wheel_timer`.
unfoldable pub init_wheel_timer : (wheel_size clock_tic_interval : ℕ) → Bool → WheelTimer
init_wheel_timer wheel_size clock_tic_interval milli_seconds = record {
  current_clock_tic = 0;
  clock_tic_interval = clock_tic_interval;
  wheel_size = wheel_size;
  current_cycle_no = 0;
  milli_seconds = milli_seconds;
  reschd_list = [];
  slotlist = λ i. [];
  elems = λ q. none;
}

-- `_timer_reschedule`, for the opcodes that it is called with.
unfoldable pub request : ℕ → ℕ → WtOpcode → WheelTimer → Outcome WheelTimer
request p new_time_interval opcode wt = do
  e ← deref (wt.elems p)
  let asked : WheelTimerElem = record e { opcode = opcode; new_time_interval = new_time_interval }
  ok (record (set_elem p (some asked) wt) { reschd_list = p ∷ without p wt.reschd_list })

-- The size of the argument, if there is one.
abbrev pub given : Option ℕ → ℕ → ℕ
given none n = 0
given (some a) n = n

-- `timer_register_app_event` with a wheel and a callback; `p` is the new element. The interval is an
-- `int`, of which the model keeps the 32 bits: the remainder and the quotients by the tick are those of
-- `uint32_t`.
unfoldable pub timer_register_app_event :
    ℕ → Option ℕ → (arg_size time_interval : ℕ) → Bool → WheelTimer → Outcome WheelTimer
timer_register_app_event p arg arg_size time_interval is_recursive wt = do
  tick ← clock_interval wt
  let interval = time_interval % 2 ^ 32
  assert (not (interval == 0))
  left ← mod_by interval tick
  assert (left == 0)
  let new_elem : WheelTimerElem = record {
    opcode = wtelem_create;
    time_interval = 0;
    new_time_interval = 0;
    execute_cycle_no = 0;
    slot_no = 0;
    arg = if arg_size == 0 then none else arg;
    arg_size = given arg arg_size;
    is_recurrence = is_recursive;
    n_scheduled = 0;
  }
  request p interval wtelem_create (set_elem p (some new_elem) wt)

unfoldable pub timer_de_register_app_event : ℕ → WheelTimer → Outcome WheelTimer
timer_de_register_app_event p wt = do
  e ← deref (wt.elems p)
  let unset : WheelTimerElem = record e { arg = none }
  request p 0 wtelem_delete (set_elem p (some unset) wt)

unfoldable pub timer_reschedule : ℕ → ℕ → WheelTimer → Outcome WheelTimer
timer_reschedule p new_time_interval wt = do
  e ← deref (wt.elems p)
  tick ← clock_interval wt
  let interval = new_time_interval % 2 ^ 32
  assert (not (interval == 0))
  left ← mod_by interval tick
  assert (left == 0)
  request p interval wtelem_resched wt

abbrev pub is_unplaced : WtOpcode → Bool
is_unplaced wtelem_create = true
is_unplaced wtelem_resched = true
is_unplaced wtelem_delete = false
is_unplaced wtelem_scheduled = false
is_unplaced wtelem_unknown = false

-- `wt_get_remaining_time` on what the pointer leads to. The product is one of `uint32_t`, and wraps.
abbrev pub remaining : WheelTimerElem → WheelTimer → Outcome ℕ
remaining e wt = if is_unplaced e.opcode then ok e.new_time_interval else do
  due ← int (e.execute_cycle_no * wt.wheel_size + e.slot_no)
  now ← current_abs_slot_no wt
  tick ← clock_interval wt
  ok (((due + 2 ^ 32 - now) * tick) % 2 ^ 32)

unfoldable pub wt_get_remaining_time : ℕ → WheelTimer → Outcome ℕ
wt_get_remaining_time p wt = do e ← deref (wt.elems p); remaining e wt

unfoldable pub reset_wheel_timer : WheelTimer → WheelTimer
reset_wheel_timer wt = record wt { current_clock_tic = 0; current_cycle_no = 0 }

-- The numbers that `hrs_min_sec_format` prints.
unfoldable pub hrs_min_sec : ℕ → ℕ × ℕ × ℕ
hrs_min_sec seconds =
    if ltb 3600 seconds
    then (seconds / 60 / 60, seconds / 60 % 60, seconds % 60)
    else (0, seconds / 60, seconds % 60)
