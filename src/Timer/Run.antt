-- ===== src/Timer/Run.antt =====
-- Sleeps and timer interrupts of sys/timer.c in any order.
use model_lib.Base.{
  ℕ, ◌+◌, ◌≡◌, sym, ap, ◌∙◌, inl, inr, Bool, List, [], ◌∷◌, ◌++◌, arith, ltb, if◌then◌else◌,
  Bool-cases, ltb→lt, ltb→ge,
}
use model_lib.Timer.{Alarm, Timer, alarm_sleep, handle_timer_interrupt}
use model_lib.Timer.Order.{IsArmed, Inserted, alarm_sleep-Slept, handle_timer_interrupt-Woke}

-- A call of alarm_sleep, or a timer interrupt, with the time at which it comes.
pub data Event : Type 0 where
  sleeps : Alarm → ℕ → ℕ → Event
  interrupt : ℕ → Event

-- The timer after an event, the alarms it woke, and those it put to sleep.
unfoldable pub happen : Timer → Event → Timer × List Alarm × List Alarm
unfolding alarm_sleep
happen t (sleeps al now tcnt) =
    let r = alarm_sleep t al now tcnt in (r.0, [], if r.2 then r.1 ∷ [] else [])
happen t (interrupt now) = let r = handle_timer_interrupt t now in (r.0, r.1, [])

unfoldable pub run : Timer → List Event → Timer × List Alarm × List Alarm
unfolding happen
run t [] = (t, [], [])
run t (e ∷ l) = let s = happen t e in let rest = run s.0 l in (rest.0, s.1 ++ rest.1, s.2 ++ rest.2)

-- How many alarms of a list pass a test.
abbrev pub count : (Alarm → Bool) → List Alarm → ℕ
count p [] = 0
count p (a ∷ l) = (if p a then 1 else 0) + count p l

module _ (p : Alarm → Bool) where
  count-append : (l l' : List Alarm) → count p (l ++ l') ≡ count p l + count p l'
  count-append [] l' = omega arith
  count-append (a ∷ l) l' = omega (arith, count-append l l')

  count-Inserted :
      (al : Alarm) (l l' : List Alarm)
      → Inserted al l l'
      → count p l' ≡ count p l + count p (al ∷ [])
  count-Inserted al l l' i =
      let a : count p l ≡ count p i.front + count p i.back =
        ap (count p) i.before ∙ count-append i.front i.back in
      let b : count p l' ≡ count p i.front + count p (al ∷ i.back) =
        ap (count p) i.after ∙ count-append i.front (al ∷ i.back) in
      omega arith

  -- One event keeps every alarm: it is among the sleeping ones until it is woken.
  happen-count :
      (t : Timer) (e : Event)
      → IsArmed t
      → let (t', woken, slept) = happen t e in
        IsArmed t' × (count p woken + count p t'.sleep_list ≡ count p t.sleep_list + count p slept)
  unfolding happen
  happen-count t (interrupt now) o =
      let w = handle_timer_interrupt-Woke t now o in
      let r = handle_timer_interrupt t now in
      let e : count p t.sleep_list ≡ count p r.1 + count p r.0.sleep_list =
        sym (ap (count p) w.split) ∙ count-append r.1 r.0.sleep_list in
      (w.armed, omega arith)
  happen-count t (sleeps al now tcnt) o =
      let s = alarm_sleep-Slept t al now tcnt o in
      let r = alarm_sleep t al now tcnt in
      elim (Bool-cases (ltb r.1.twake now)) [
        | inl e ↦
            let (a, b) = s.passed (ltb→lt r.1.twake now e) in
            let c : count p r.0.sleep_list ≡ count p t.sleep_list =
              ap (λ (x : Timer). count p x.sleep_list) a in
            (s.armed, rw b (omega arith))
        | inr e ↦
            let (b, q, i) = s.waits (ltb→ge r.1.twake now e) in
            let c = count-Inserted r.1 t.sleep_list r.0.sleep_list i in
            (s.armed, rw b (omega arith))
      ]

-- Whatever sleeps and timer interrupts come in whatever order, an armed timer stays armed, and no
-- alarm is lost or woken twice: for every kind of alarm, those woken and those still asleep are as
-- many as those asleep at first and those put to sleep.
pub run-IsArmed :
    (p : Alarm → Bool) (t : Timer) (l : List Event)
    → IsArmed t
    → let (t', woken, slept) = run t l in
      IsArmed t' × (count p woken + count p t'.sleep_list ≡ count p t.sleep_list + count p slept)
unfolding run
run-IsArmed p t [] o = (o, omega arith)
run-IsArmed p t (e ∷ l) o =
    let s = happen t e in
    let (o', c) = happen-count p t e o in
    let (o'', c') = run-IsArmed p s.0 l o' in
    let a = count-append p s.1 (run s.0 l).1 in
    let b = count-append p s.2 (run s.0 l).2 in (o'', omega arith)
