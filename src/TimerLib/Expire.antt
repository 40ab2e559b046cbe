-- ===== src/TimerLib/Expire.antt =====
-- How often a timer with a threshold calls back.
use tcpserver_lib.Base.{
  ℕ, zero, suc, ◌+◌, ◌%◌, ◌^◌, ◌<◌, ◌≡◌, refl, ap, ◌∙◌, Bool, true, false, arith, Outcome, ok,
  ◌>>=◌, ◌==◌, ltb, List, [], ◌∷◌, Returns, Returns-bind,
}
use native.Mathlib.Nat.{mod-eq_of_lt}
use tcpserver_lib.TimerLib.{
  Timer, timer_running, timer_cancelled, zero_spec, after_callback, cancel_timer, resurrect_timer,
  timer_callback_wrapper,
}

-- The timer expires time after time: whether each expiration has called back.
unfoldable pub expirations : ℕ → Timer → Outcome (List Bool × Timer)
expirations zero t = ok ([], t)
expirations (suc m) t = do
  (called, t') ← timer_callback_wrapper t
  (later, t'') ← expirations m t'
  ok (called ∷ later, t'')

-- `m` calls, and then none.
abbrev pub then_silent : ℕ → List Bool
then_silent zero = false ∷ []
then_silent (suc m) = true ∷ then_silent m

-- The timer is cancelled, and the POSIX timer disarmed.
abbrev pub Cancelled : ℕ → List Bool × Timer → Type 0
Cancelled m (calls, t) =
    (calls ≡ then_silent m) × (t.timer_state ≡ timer_cancelled) × (t.armed ≡ zero_spec)

-- A running timer with a threshold and without backoff, some of whose calls are made.
pub record Counts (t : Timer) (made m : ℕ) : Type 0 where
  pub running : t.timer_state ≡ timer_running
  pub alive : t.posix_deleted ≡ false
  pub periodic : t.exponential_backoff ≡ false
  pub counter : t.invocation_counter ≡ made
  pub threshold : t.thresdhold ≡ made + m
  pub limited : 0 < made + m
  pub bounded : made + m + 1 < 2 ^ 32

abbrev counted : ℕ → Timer → Timer
counted made t = record t { invocation_counter = made + 1 }

wrapper-calls :
    (t : Timer) (made m : ℕ)
    → Counts t made (suc m)
    → timer_callback_wrapper t ≡ ok (true, counted made t)
unfolding timer_callback_wrapper after_callback
wrapper-calls t made m c =
    let next : (t.invocation_counter + 1) % 2 ^ 32 ≡ made + 1 =
      mod-eq_of_lt {n = t.invocation_counter + 1} (omega (arith, c.counter, c.bounded))
      ∙ ap (λ k. k + 1) c.counter in
    let below : ltb t.thresdhold (made + 1) ≡ false = ground (arith, c.threshold) in
    let set : (t.thresdhold == 0) ≡ false = ground (arith, c.threshold) in
    rw (next, below, set) (rw (c.periodic, c.running) refl)

wrapper-cancels :
    (t : Timer) (made : ℕ)
    → Counts t made 0
    → Returns
        (λ (called, t').
          (called ≡ false) × (t'.timer_state ≡ timer_cancelled) × (t'.armed ≡ zero_spec))
        (timer_callback_wrapper t)
unfolding timer_callback_wrapper cancel_timer resurrect_timer
wrapper-cancels t made c =
    let next : (t.invocation_counter + 1) % 2 ^ 32 ≡ made + 1 =
      mod-eq_of_lt {n = t.invocation_counter + 1} (omega (arith, c.counter, c.bounded))
      ∙ ap (λ k. k + 1) c.counter in
    let above : ltb t.thresdhold (made + 1) ≡ true = ground (arith, c.threshold) in
    let set : (t.thresdhold == 0) ≡ false = ground (arith, c.threshold, c.limited) in
    rw (next, above, set) (rw (c.running, c.alive) (refl, refl, refl))

counted-Counts :
    (t : Timer) (made m : ℕ) → Counts t made (suc m) → Counts (counted made t) (made + 1) m
counted-Counts t made m c = record {
  running = c.running;
  alive = c.alive;
  periodic = c.periodic;
  counter = refl;
  threshold = c.threshold ∙ omega arith;
  limited = omega arith;
  bounded = omega (arith, c.bounded);
}

-- A running timer with a threshold and without backoff, whose POSIX timer exists, has made some of
-- the calls that its threshold allows, m are left, and the counts fit a `uint32_t`. Then m + 1
-- further expirations succeed: the first m call back and the last one does not, and the timer is
-- cancelled and the POSIX timer disarmed.
pub expirations-Cancelled :
    (t : Timer) (made m : ℕ) → Counts t made m → Returns (Cancelled m) (expirations (suc m) t)
unfolding expirations
expirations-Cancelled t made zero c =
    Returns-bind
      (λ (called, t').
        (called ≡ false) × (t'.timer_state ≡ timer_cancelled) × (t'.armed ≡ zero_spec))
      _ (timer_callback_wrapper t) _ (wrapper-cancels t made c)
      (λ (called, t') (silent, state, off). (ap (λ b. b ∷ []) silent, state, off))
expirations-Cancelled t made (suc m) c = rw (wrapper-calls t made m c) (
    Returns-bind (Cancelled m) _ (expirations (suc m) (counted made t)) _
      (expirations-Cancelled (counted made t) (made + 1) m (counted-Counts t made m c))
      (λ (calls, t') (rest, state, off). (ap (λ l. true ∷ l) rest, state, off)))
