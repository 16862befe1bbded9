-- ===== src/Timer/Order.antt =====
-- The sleep list of sys/timer.c stays in order of wake-up time, and the next timer interrupt comes
-- no later than its first alarm.
use model_lib.Base.{
  ℕ, ◌+◌, ◌%◌, ◌≤◌, ◌<◌, min, ◌≡◌, refl, ap, inl, inr, Bool, true, false, ◌&&◌, List, [], ◌∷◌, ◌++◌,
  arith, ltb, leb, if◌then◌else◌, Bool-cases, leb→le,
}
use model_lib.Timer.{
  u64_mod, slice, Alarm, Timer, add_time, insert, at_head, alarm_sleep, wake_due, next_time,
  handle_timer_interrupt,
}

-- The alarms are in order of wake-up time, from `n` on.
abbrev pub ordered_from : ℕ → List Alarm → Bool
ordered_from n [] = true
ordered_from n (a ∷ l) = leb n a.twake && ordered_from a.twake l

-- No alarm is later than `n`.
abbrev pub all_by : ℕ → List Alarm → Bool
all_by n [] = true
all_by n (a ∷ l) = leb a.twake n && all_by n l

-- The list is in order, and its first alarm no earlier than the next interrupt.
abbrev pub IsArmed : Timer → Type 0
IsArmed t = ordered_from t.stcmp t.sleep_list ≡ true

and-true : (a b : Bool) → (a && b) ≡ true → (a ≡ true) × (b ≡ true)
and-true true b h = (refl, h)
and-true false b h = ground arith

-- Where an alarm goes: behind those that are no later, before those that are.
pub record Inserted (al : Alarm) (l l' : List Alarm) : Type 0 where
  pub front : List Alarm
  pub back : List Alarm
  pub before : l ≡ front ++ back
  pub after : l' ≡ front ++ (al ∷ back)
  pub earlier : all_by al.twake front ≡ true
  pub later : ordered_from (al.twake + 1) back ≡ true

insert-Inserted :
    (n : ℕ) (al : Alarm) (l : List Alarm) → ordered_from n l ≡ true → Inserted al l (insert al l)
unfolding insert
insert-Inserted n al [] o = record {
  front = [];
  back = [];
  before = refl;
  after = refl;
  earlier = refl;
  later = refl;
}
insert-Inserted n al (c ∷ l) o =
    let (o1, o2) = and-true (leb n c.twake) (ordered_from c.twake l) o in
    elim (Bool-cases (leb c.twake al.twake)) [
      | inl e ↦
          let r = insert-Inserted c.twake al l o2 in
          record {
            front = c ∷ r.front;
            back = r.back;
            before = ap (λ (x : List Alarm). c ∷ x) r.before;
            after = rw e (ap (λ (x : List Alarm). c ∷ x) r.after);
            earlier = rw e r.earlier;
            later = r.later;
          }
      | inr e ↦ record {
        front = [];
        back = c ∷ l;
        before = refl;
        after = rw e refl;
        earlier = refl;
        later = ground arith;
      }
    ]

insert-ordered :
    (n : ℕ) (al : Alarm) (l : List Alarm)
    → n ≤ al.twake
    → ordered_from n l ≡ true
    → ordered_from n (insert al l) ≡ true
unfolding insert
insert-ordered n al [] h o = ground arith
insert-ordered n al (c ∷ l) h o =
    let (o1, o2) = and-true (leb n c.twake) (ordered_from c.twake l) o in
    elim (Bool-cases (leb c.twake al.twake)) [
      | inl e ↦ let k = insert-ordered c.twake al l (leb→le c.twake al.twake e) o2 in ground arith
      | inr e ↦ ground arith
    ]

-- What a call of alarm_sleep does.
pub record Slept (t : Timer) (now : ℕ) (r : Timer × Alarm × Bool) : Type 0 where
  pub armed : IsArmed r.0
  pub passed : r.1.twake < now → (r.0 ≡ t) × (r.2 ≡ false)
  pub waits :
      now ≤ r.1.twake → (r.2 ≡ true) × (r.0.stie ≡ true) × Inserted r.1 t.sleep_list r.0.sleep_list

insert-armed :
    (al : Alarm) (stcmp now : ℕ) (l : List Alarm)
    → ordered_from stcmp l ≡ true
    → ordered_from
        (if at_head al l then min al.twake ((now + slice) % u64_mod) else stcmp)
        (insert al l)
      ≡ true
unfolding insert at_head
insert-armed al stcmp now [] o =
    let k : min al.twake ((now + slice) % u64_mod) ≤ al.twake = omega arith in ground arith
insert-armed al stcmp now (c ∷ l) o =
    let (o1, o2) = and-true (leb stcmp c.twake) (ordered_from c.twake l) o in
    elim (Bool-cases (leb c.twake al.twake)) [
      | inl e ↦ let k = insert-ordered c.twake al l (leb→le c.twake al.twake e) o2 in ground arith
      | inr e ↦
          let k : min al.twake ((now + slice) % u64_mod) ≤ al.twake = omega arith in ground arith
    ]

-- alarm_sleep keeps the timer armed: the sleeping alarms in order of wake-up time, and none before
-- the next interrupt. If the wake-up time has passed it does nothing; else the thread waits, timer
-- interrupts are enabled, and the alarm stands behind those that wake no later than it and before
-- the others.
pub alarm_sleep-Slept :
    (t : Timer) (al : Alarm) (now tcnt : ℕ) → IsArmed t → Slept t now (alarm_sleep t al now tcnt)
unfolding alarm_sleep
alarm_sleep-Slept t al now tcnt o =
    let al' : Alarm = record al { twake = add_time al.twake tcnt } in
    elim (Bool-cases (ltb al'.twake now)) [
      | inl e ↦ rw e (record { armed = o; passed = λ h. (refl, refl); waits = λ h. ground arith })
      | inr e ↦ rw e (record {
        armed = insert-armed al' t.stcmp now t.sleep_list o;
        passed = λ h. ground arith;
        waits = λ h. (refl, refl, insert-Inserted t.stcmp al' t.sleep_list o);
      })
    ]

-- What a timer interrupt does.
pub record Woke (t : Timer) (now : ℕ) (r : Timer × List Alarm) : Type 0 where
  pub armed : IsArmed r.0
  pub split : r.1 ++ r.0.sleep_list ≡ t.sleep_list
  pub due : all_by now r.1 ≡ true
  pub not_due : ordered_from (now + 1) r.0.sleep_list ≡ true
  pub next : r.0.stcmp ≤ (now + slice) % u64_mod

wake_due-split :
    (now n : ℕ) (l : List Alarm)
    → ordered_from n l ≡ true
    → let (woken, rest) = wake_due now l in
      (woken ++ rest ≡ l) × (all_by now woken ≡ true) × (ordered_from (now + 1) rest ≡ true)
unfolding wake_due
wake_due-split now n [] o = (refl, refl, refl)
wake_due-split now n (c ∷ l) o =
    let (o1, o2) = and-true (leb n c.twake) (ordered_from c.twake l) o in
    let (s, d, r) = wake_due-split now c.twake l o2 in
    elim (Bool-cases (leb c.twake now)) [
      | inl e ↦ rw e (ap (λ (x : List Alarm). c ∷ x) s, rw e d, r)
      | inr e ↦ rw e (refl, refl, ground arith)
    ]

next_time-ordered :
    (now n : ℕ) (l : List Alarm) → ordered_from n l ≡ true → ordered_from (next_time now l) l ≡ true
unfolding next_time
next_time-ordered now n [] o = refl
next_time-ordered now n (c ∷ l) o =
    let k : min c.twake ((now + slice) % u64_mod) ≤ c.twake = omega arith in ground arith

next_time-bound : (now : ℕ) (l : List Alarm) → next_time now l ≤ (now + slice) % u64_mod
unfolding next_time
next_time-bound now [] = omega arith
next_time-bound now (c ∷ l) = omega arith

-- On a timer interrupt of an armed timer, exactly the alarms that are due are woken, in order of
-- wake-up time; the others stay, the timer is armed again, and the next interrupt is set no later
-- than ten milliseconds from now.
pub handle_timer_interrupt-Woke :
    (t : Timer) (now : ℕ) → IsArmed t → Woke t now (handle_timer_interrupt t now)
unfolding handle_timer_interrupt
handle_timer_interrupt-Woke t now o =
    let (s, d, r) = wake_due-split now t.stcmp t.sleep_list o in
    record {
      armed = next_time-ordered now (now + 1) (wake_due now t.sleep_list).1 r;
      split = s;
      due = d;
      not_due = r;
      next = next_time-bound now (wake_due now t.sleep_list).1;
    }
