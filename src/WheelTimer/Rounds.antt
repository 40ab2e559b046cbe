-- ===== src/WheelTimer/Rounds.antt =====
-- The life of a recurring element that is alone on its wheel.
use tcpserver_lib.Base.{
  ℕ, suc, ◌+◌, ◌*◌, ◌/◌, ◌%◌, ◌^◌, ◌<◌, ◌≡◌, refl, sym, ap, ◌∙◌, true, false, inl, inr, Bool-cases,
  ◌==◌, ==_iff, if◌then◌else◌, arith, Outcome, ok, ◌>>=◌, lt→ltb, none, some, List, [], ◌∷◌,
  Returns, Returns-bind,
}
use mathlib.Core.Path.{subst}
use tcpserver_lib.Glthread.Chain.{head_of}
use tcpserver_lib.WheelTimer.{
  WheelTimerElem, WheelTimer, advance, clock_interval, current_abs_slot_no, next_place, set_elem,
  leave_slot, enter_slot, schedule_again, next_of, fire, wheel_fn, process_wt_reschedule_slotlist,
}
use tcpserver_lib.WheelTimer.Clock.{IsAt, Clock, advance-Clock, place_unique, div_mod-IsAt}

-- The element `p` is the only one, recurs every `n` slots, and is due `r` slots after `now`, where the
-- clock stands. No request is pending.
pub record Alone (p n : ℕ) (wt : WheelTimer) (now r : ℕ) : Type 0 where
  pub elem : WheelTimerElem
  pub tick : ℕ
  pub clock : Clock wt now
  pub idle : wt.reschd_list ≡ []
  pub listed : (i : ℕ) → wt.slotlist i ≡ (if i == elem.slot_no then p ∷ [] else [])
  pub there : wt.elems p ≡ some elem
  pub recurs : elem.is_recurrence ≡ true
  pub due : IsAt wt.wheel_size elem.execute_cycle_no elem.slot_no (now + r)
  pub ticks : clock_interval wt ≡ ok tick
  pub positive : 0 < tick
  pub every : elem.time_interval / tick ≡ n

-- The place that it goes to next.
pub next_place-ok :
    (wt : WheelTimer) (now time tick : ℕ)
    → clock_interval wt ≡ ok tick
    → 0 < tick
    → 0 < wt.wheel_size
    → now + time / tick < 2 ^ 31
    → next_place now time wt
      ≡ ok ((now + time / tick) / wt.wheel_size, (now + time / tick) % wt.wheel_size)
next_place-ok wt now time tick ticks positive size bound =
    let tick_on : (tick == 0) ≡ false = ground (arith, positive) in
    let size_on : (wt.wheel_size == 0) ≡ false = ground (arith, size) in
    rw (ticks, tick_on, lt→ltb (now + time / tick) (2 ^ 31) bound, size_on) refl

pub current_abs_slot_no-ok :
    (wt : WheelTimer) (now : ℕ) → Clock wt now → now < 2 ^ 31 → current_abs_slot_no wt ≡ ok now
current_abs_slot_no-ok wt now (at, small) bound = rw (at, lt→ltb now (2 ^ 31) bound) refl

-- What `wheel_fn` leaves: the callbacks called, and the element due `r` slots later.
abbrev pub Ticked : (p n : ℕ) → List ℕ → (now r : ℕ) → List ℕ × WheelTimer → Type 0
Ticked p n called now r (fired, wt') = (fired ≡ called) × Alone p n wt' now r

-- What the clock leaves as it was.
abbrev pub Same : WheelTimer → WheelTimer → Type 0
Same wt wt' =
    (wt'.wheel_size ≡ wt.wheel_size)
    × (wt'.slotlist ≡ wt.slotlist)
    × (wt'.elems ≡ wt.elems)
    × (wt'.reschd_list ≡ wt.reschd_list)
    × (clock_interval wt' ≡ clock_interval wt)

pub advance-Same : (wt : WheelTimer) → Same wt (advance wt)
unfolding advance
advance-Same wt = elim (Bool-cases (wt.current_clock_tic + 1 == wt.wheel_size)) [
  | inl e ↦ rw e (refl, refl, refl, refl, refl)
  | inr e ↦ rw e (refl, refl, refl, refl, refl)
]

Alone-moved :
    (p n : ℕ) (wt wt' : WheelTimer) (now r now' r' : ℕ)
    → Alone p n wt now r
    → Same wt wt'
    → Clock wt' now'
    → now' + r' ≡ now + r
    → Alone p n wt' now' r'
Alone-moved p n wt wt' now r now' r' a (size, slots, elems, reschd, interval) clock later = record {
  elem = a.elem;
  tick = a.tick;
  clock = clock;
  idle = reschd ∙ a.idle;
  listed = λ i. ap (λ f. f i) slots ∙ a.listed i;
  there = ap (λ f. f p) elems ∙ a.there;
  recurs = a.recurs;
  due =
      subst (λ s. IsAt s a.elem.execute_cycle_no a.elem.slot_no (now' + r')) (sym size)
        (a.due.0 ∙ sym later, a.due.1);
  ticks = interval ∙ a.ticks;
  positive = a.positive;
  every = a.every;
}

advance-Alone :
    (p n : ℕ) (wt : WheelTimer) (now r : ℕ)
    → Alone p n wt now (suc r)
    → Alone p n (advance wt) (now + 1) r
advance-Alone p n wt now r a =
    Alone-moved p n wt (advance wt) now (suc r) (now + 1) r a (advance-Same wt)
      (advance-Clock wt now a.clock) (omega arith)

-- A round of the loop on an element that is there, from the end, and from the call of its callback.
abbrev serve_on : ℕ → ℕ → ℕ → WheelTimer → WheelTimer → Outcome (List ℕ × WheelTimer)
serve_on k now p wt wt' = do
  (fired, wt'') ← fire k now (next_of p (wt.slotlist wt.current_clock_tic)) wt'
  ok (p ∷ fired, wt'')

abbrev serve : ℕ → ℕ → ℕ → WheelTimer → WheelTimerElem → Outcome (List ℕ × WheelTimer)
serve k now p wt e =
    (if e.is_recurrence then schedule_again now p e wt else ok (leave_slot p wt))
    >>= serve_on k now p wt

abbrev round : ℕ → ℕ → ℕ → WheelTimer → WheelTimerElem → Outcome (List ℕ × WheelTimer)
round k now p wt e = elim (wt.current_cycle_no == e.execute_cycle_no) [
  | false ↦ ok ([], wt)
  | true ↦ serve k now p wt e
]

fire-round :
    (k now p : ℕ) (wt : WheelTimer) (e : WheelTimerElem)
    → wt.elems p ≡ some e
    → fire (suc k) now (some p) wt ≡ round k now p wt e
unfolding fire
fire-round k now p wt e at = rw (fire, at) refl

-- Before its time comes, the loop calls nothing.
fire-early :
    (p n : ℕ) (wt : WheelTimer) (now r k : ℕ)
    → Alone p n wt now (suc r)
    → fire (suc k) now (head_of (wt.slotlist wt.current_clock_tic)) wt ≡ ok ([], wt)
unfolding fire
fire-early p n wt now r k a = elim (Bool-cases (wt.current_clock_tic == a.elem.slot_no)) [
  | inr away ↦ rw (a.listed wt.current_clock_tic, away) refl
  | inl here ↦
      rw (a.listed wt.current_clock_tic, here)
        (fire-round k now p wt a.elem a.there ∙ rw (round, other here) refl)
]
  where
    other :
        (wt.current_clock_tic == a.elem.slot_no) ≡ true
        → (wt.current_cycle_no == a.elem.execute_cycle_no) ≡ false
    other here = elim (Bool-cases (wt.current_cycle_no == a.elem.execute_cycle_no)) [
      | inr e ↦ e
      | inl e ↦
          let same_slot = (==_iff wt.current_clock_tic a.elem.slot_no).0 here in
          let same_cycle = (==_iff wt.current_cycle_no a.elem.execute_cycle_no).0 e in
          absurd
            (omega (arith, a.clock.0, a.due.0, ap (λ c. c * wt.wheel_size) same_cycle, same_slot))
    ]

-- The only element taken out and put into a slot.
moved-listed :
    (p : ℕ) (wt : WheelTimer) (e e' : WheelTimerElem) (slot i : ℕ)
    → wt.slotlist i ≡ (if i == e.slot_no then p ∷ [] else [])
    → (enter_slot slot p (leave_slot p (set_elem p (some e') wt))).slotlist i
      ≡ (if i == slot then p ∷ [] else [])
moved-listed p wt e e' slot i listed =
    let self : (p == p) ≡ true = ground arith in
    elim (Bool-cases (i == e.slot_no)) [
      | inl here ↦
          rw (listed, here)
            (rw self (elim (Bool-cases (i == slot)) [ inl f ↦ rw f refl | inr f ↦ rw f refl ]))
      | inr away ↦
          rw (listed, away)
            (elim (Bool-cases (i == slot)) [ inl f ↦ rw f refl | inr f ↦ rw f refl ])
    ]

-- At its time, the loop calls it, and it is due again `n` slots later.
fire-due :
    (p n : ℕ) (wt : WheelTimer) (now k : ℕ)
    → Alone p n wt now 0
    → now + n < 2 ^ 31
    → Returns
        (Ticked p n (p ∷ []) now n)
        (fire (suc k) now (head_of (wt.slotlist wt.current_clock_tic)) wt)
unfolding fire schedule_again
fire-due p n wt now k a bound =
    let (same_cycle, same_slot) =
      place_unique wt.wheel_size wt.current_cycle_no wt.current_clock_tic a.elem.execute_cycle_no
        a.elem.slot_no now a.clock (a.due.0 ∙ omega arith, a.due.1) in
    let here : (wt.current_clock_tic == a.elem.slot_no) ≡ true =
      (==_iff wt.current_clock_tic a.elem.slot_no).1 same_slot in
    let in_time : (wt.current_cycle_no == a.elem.execute_cycle_no) ≡ true =
      (==_iff wt.current_cycle_no a.elem.execute_cycle_no).1 same_cycle in
    let self : (p == p) ≡ true = ground arith in
    let size : 0 < wt.wheel_size = omega (arith, a.due.1) in
    let next = now + a.elem.time_interval / a.tick in
    let placed =
      next_place-ok wt now a.elem.time_interval a.tick a.ticks a.positive size
        (omega (arith, a.every, bound)) in
    let moved : WheelTimerElem = record a.elem {
      execute_cycle_no = next / wt.wheel_size;
      slot_no = next % wt.wheel_size;
      n_scheduled = a.elem.n_scheduled + 1;
    } in
    let wt' = enter_slot (next % wt.wheel_size) p (leave_slot p (set_elem p (some moved) wt)) in
    let rescheduled : schedule_again now p a.elem wt ≡ ok wt' =
      ap
        (λ r. r >>= λ (cycle, slot). ok (
          enter_slot slot p (
            leave_slot p (
              set_elem p
                (some (record a.elem {
                  execute_cycle_no = cycle;
                  slot_no = slot;
                  n_scheduled = a.elem.n_scheduled + 1;
                }))
                wt))))
        placed in
    let after : Alone p n wt' now n = record {
      elem = moved;
      tick = a.tick;
      clock = a.clock;
      idle = a.idle;
      listed = λ i. moved-listed p wt a.elem moved (next % wt.wheel_size) i (a.listed i);
      there = rw self refl;
      recurs = a.recurs;
      due =
          subst (λ m. IsAt wt.wheel_size (next / wt.wheel_size) (next % wt.wheel_size) m)
            (ap (λ m. now + m) a.every) (div_mod-IsAt wt.wheel_size next size);
      ticks = a.ticks;
      positive = a.positive;
      every = a.every;
    } in
    let alone_there : next_of p (wt.slotlist wt.current_clock_tic) ≡ none =
      ap (next_of p) (a.listed wt.current_clock_tic ∙ ap (λ b. if b then p ∷ [] else []) here)
      ∙ rw self refl in
    let served : serve k now p wt a.elem ≡ ok (p ∷ [], wt') =
      ap
        (λ b.
          (if b then schedule_again now p a.elem wt else ok (leave_slot p wt))
          >>= serve_on k now p wt)
        a.recurs
      ∙ ap (λ r. r >>= serve_on k now p wt) rescheduled
      ∙ ap (λ o. fire k now o wt' >>= λ (fired, wt''). ok (p ∷ fired, wt'')) alone_there in
    let called : round k now p wt a.elem ≡ ok (p ∷ [], wt') = rw (round, in_time) served in
    subst (Returns (Ticked p n (p ∷ []) now n))
      (sym (
        ap (λ l. fire (suc k) now (head_of l) wt)
          (a.listed wt.current_clock_tic ∙ ap (λ b. if b then p ∷ [] else []) here)
        ∙ fire-round k now p wt a.elem a.there
        ∙ called))
      (refl, after)

process-idle :
    (wt : WheelTimer)
    → wt.reschd_list ≡ []
    → process_wt_reschedule_slotlist wt.reschd_list wt ≡ ok wt
unfolding process_wt_reschedule_slotlist
process-idle wt idle = ap (λ l. process_wt_reschedule_slotlist l wt) idle

-- A tick before the time comes.
pub wheel_fn-early :
    (p n : ℕ) (wt : WheelTimer) (now r k : ℕ)
    → Alone p n wt now (suc (suc r))
    → now + 1 < 2 ^ 31
    → Returns (Ticked p n [] (now + 1) (suc r)) (wheel_fn (suc k) wt)
unfolding wheel_fn
wheel_fn-early p n wt now r k a bound =
    let a' = advance-Alone p n wt now (suc r) a in
    rw
      (
        current_abs_slot_no-ok (advance wt) (now + 1) a'.clock bound,
        fire-early p n (advance wt) (now + 1) r k a',
        process-idle (advance wt) a'.idle,
      )
      (refl, a')

-- The tick at which the time comes.
pub wheel_fn-due :
    (p n : ℕ) (wt : WheelTimer) (now k : ℕ)
    → Alone p n wt now 1
    → now + 1 + n < 2 ^ 31
    → Returns (Ticked p n (p ∷ []) (now + 1) n) (wheel_fn (suc k) wt)
unfolding wheel_fn
wheel_fn-due p n wt now k a bound =
    let a' = advance-Alone p n wt now 0 a in
    rw (current_abs_slot_no-ok (advance wt) (now + 1) a'.clock (omega (arith, bound))) (
      Returns-bind (Ticked p n (p ∷ []) (now + 1) n) _
        (fire (suc k) (now + 1) (head_of ((advance wt).slotlist (advance wt).current_clock_tic))
          (advance wt))
        _ (fire-due p n (advance wt) (now + 1) k a' bound)
        (λ (fired, wt') (called, later). rw (process-idle wt' later.idle) (called, later)))
