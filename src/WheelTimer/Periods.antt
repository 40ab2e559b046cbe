-- ===== src/WheelTimer/Periods.antt =====
-- The calls of a recurring element, tick after tick.
use tcpserver_lib.Base.{
  ℕ, zero, suc, ◌+◌, ◌*◌, ◌^◌, ◌<◌, ◌≡◌, refl, sym, ap₂, ◌∙◌, arith, Outcome, ok, ◌>>=◌, List, [],
  ◌∷◌, Returns, Returns-bind,
}
use mathlib.Core.Path.{subst}
use native.Mathlib.Nat.{mul-suc}
use tcpserver_lib.WheelTimer.{WheelTimer, wheel_fn}
use tcpserver_lib.WheelTimer.Rounds.{Alone, Ticked, wheel_fn-early, wheel_fn-due}

-- `wheel_fn` tick after tick: what each has called.
unfoldable pub ticks_of : ℕ → ℕ → WheelTimer → Outcome (List (List ℕ) × WheelTimer)
ticks_of k zero wt = ok ([], wt)
ticks_of k (suc m) wt = do
  (fired, wt') ← wheel_fn k wt
  (later, wt'') ← ticks_of k m wt'
  ok (fired ∷ later, wt'')

-- Nothing for `r` ticks, then a call of `p`, then as `later`.
abbrev pub after : ℕ → ℕ → List (List ℕ) → List (List ℕ)
after p zero later = (p ∷ []) ∷ later
after p (suc r) later = [] ∷ after p r later

-- `j` calls of `p`, each at the end of `r` + 1 ticks.
abbrev pub periods : (p r j : ℕ) → List (List ℕ)
periods p r zero = []
periods p r (suc j) = after p r (periods p r j)

abbrev pub steps : ℕ → ℕ → ℕ
steps zero m = suc m
steps (suc r) m = suc (steps r m)

abbrev pub Ran : (p n : ℕ) → List (List ℕ) → ℕ → List (List ℕ) × WheelTimer → Type 0
Ran p n called now (fired, wt') = (fired ≡ called) × Alone p n wt' now n

ticks_of-after :
    (p n k m : ℕ) (later : List (List ℕ)) (end r : ℕ) (wt : WheelTimer) (now : ℕ)
    → Alone p n wt now (suc r)
    → now + suc r + n < 2 ^ 31
    → ((wt' : WheelTimer)
        → Alone p n wt' (now + suc r) n
        → Returns (Ran p n later end) (ticks_of (suc k) m wt'))
    → Returns (Ran p n (after p r later) end) (ticks_of (suc k) (steps r m) wt)
unfolding ticks_of
ticks_of-after p n k m later end zero wt now a bound next =
    Returns-bind (Ticked p n (p ∷ []) (now + 1) n) _ (wheel_fn (suc k) wt) _
      (wheel_fn-due p n wt now k a bound)
      (λ (fired, wt') (called, a').
        Returns-bind (Ran p n later end) _ (ticks_of (suc k) m wt') _ (next wt' a')
          (λ (fireds, wt'') (rest, a''). (ap₂ ◌∷◌ called rest, a'')))
ticks_of-after p n k m later end (suc r) wt now a bound next =
    let moved : now + 1 + suc r ≡ now + suc (suc r) = omega arith in
    Returns-bind (Ticked p n [] (now + 1) (suc r)) _ (wheel_fn (suc k) wt) _
      (wheel_fn-early p n wt now r k a (omega (arith, bound)))
      (λ (fired, wt') (called, a').
        Returns-bind (Ran p n (after p r later) end) _ (ticks_of (suc k) (steps r m) wt') _
          (ticks_of-after p n k m later end r wt' (now + 1) a' (omega (arith, bound))
            (λ wt'' a''. next wt'' (subst (λ t. Alone p n wt'' t n) moved a'')))
          (λ (fireds, wt'') (rest, a''). (ap₂ ◌∷◌ called rest, a'')))

steps_lem : (r m : ℕ) → steps r m ≡ suc r + m
steps_lem zero m = omega arith
steps_lem (suc r) m = omega (arith, steps_lem r m)

ticks_of-periods_at :
    (p r k j : ℕ) (wt : WheelTimer) (now total : ℕ)
    → Alone p (suc r) wt now (suc r)
    → total ≡ suc r * j
    → now + total + suc r < 2 ^ 31
    → Returns (Ran p (suc r) (periods p r j) (now + total)) (ticks_of (suc k) total wt)
unfolding ticks_of
ticks_of-periods_at p r k zero wt now total a count bound =
    let none_left : total ≡ 0 = count ∙ omega arith in
    rw none_left (refl, subst (λ t. Alone p (suc r) wt t (suc r)) (omega arith) a)
ticks_of-periods_at p r k (suc j) wt now total a count bound =
    let split : total ≡ steps r (suc r * j) =
      count ∙ (omega (arith, steps_lem r (suc r * j), mul-suc (suc r) j)) in
    let end : now + suc r + suc r * j ≡ now + total =
      omega (arith, steps_lem r (suc r * j), split) in
    subst (λ t. Returns (Ran p (suc r) (periods p r (suc j)) (now + total)) (ticks_of (suc k) t wt))
      (sym split)
      (ticks_of-after p (suc r) k (suc r * j) (periods p r j) (now + total) r wt now a
        (omega (arith, bound, steps_lem r (suc r * j), split))
        (λ wt' a'.
          subst (λ t. Returns (Ran p (suc r) (periods p r j) t) (ticks_of (suc k) (suc r * j) wt'))
            end
            (ticks_of-periods_at p r k j wt' (now + suc r) (suc r * j) a' refl
              (omega (arith, bound, end)))))

-- A recurring element that is alone on the wheel, every r + 1 slots and next after as many, with no
-- request pending, and j rounds of r + 1 ticks, for which the slot numbers fit an `int`: the ticks
-- succeed, its callback is called at the last tick of each round and at no other, and it is then due
-- again after r + 1 ticks.
pub ticks_of-periods :
    (p r k j : ℕ) (wt : WheelTimer) (now : ℕ)
    → Alone p (suc r) wt now (suc r)
    → now + suc r * j + suc r < 2 ^ 31
    → Returns (Ran p (suc r) (periods p r j) (now + suc r * j)) (ticks_of (suc k) (suc r * j) wt)
ticks_of-periods p r k j wt now a bound =
    ticks_of-periods_at p r k j wt now (suc r * j) a refl bound
