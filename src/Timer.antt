-- ===== src/Timer.antt =====
-- sys/timer.c: alarms, the list of sleeping ones, and the timer interrupt. `now` is what rdtime
-- reports in a call. An alarm is known by a number; the links of sleep_list are its order. A NULL
-- alarm, with which the calls do nothing, is left out.
pub mod Order
pub mod Run
pub mod Tests
use model_lib.Base.{
  ℕ, zero, suc, ◌+◌, ◌-◌, ◌*◌, ◌/◌, ◌%◌, ◌^◌, ◌≤◌, ◌<◌, min, ◌≡◌, refl, sym, ap, ap₂, ◌∙◌, subst,
  fun_ext, ◌≢◌, ◌↔◌, ◌⊎◌, inl, inr, Bool, true, false, not, ◌&&◌, ◌||◌, Option, none, some, List,
  [], ◌∷◌, ◌++◌, map, arith, ltb, leb, ◌==◌, if◌then◌else◌, Bool-cases, Option-cases, ==_iff,
  ltb→lt, lt→ltb, leb→le, ltb→ge, ==→eq, ==→ne, ==_self, length, get_elem?, set, get_or, take, drop,
  replicate, length-append, length-set, get_elem?-set_self, get_elem?-set_ne, take-append-drop,
  length-take, length-drop, length-replicate, length-map, get_or-set_self, get_or-set_ne, take-nil,
  drop-nil, take-min,
}

abbrev pub u64_mod : ℕ
u64_mod = 2 ^ 64

-- TIMER_FREQ, and ten milliseconds of it.
abbrev pub timer_freq : ℕ
timer_freq = 10000000

abbrev pub slice : ℕ
slice = 10 * (timer_freq / 1000)

-- `struct alarm`.
pub record Alarm : Type 0 where
  pub id : ℕ
  pub twake : ℕ

-- `sleep_list`, the register stimecmp, and whether timer interrupts are enabled.
pub record Timer : Type 0 where
  pub sleep_list : List Alarm
  pub stcmp : ℕ
  pub stie : Bool

-- `timer_init`; it leaves the list as it is.
unfoldable pub timer_init : Timer → ℕ → Timer
timer_init t now = record t { stcmp = (now + slice) % u64_mod }

-- `alarm_init` and `alarm_reset`.
unfoldable pub alarm_reset : Alarm → ℕ → Alarm
alarm_reset al now = record al { twake = now }

-- The wake-up time, at most UINT64_MAX.
unfoldable pub add_time : ℕ → ℕ → ℕ
add_time twake tcnt = if ltb (u64_mod - 1 - twake) tcnt then u64_mod - 1 else twake + tcnt

-- The walk to the first alarm that is later, and the insertion before it.
unfoldable pub insert : Alarm → List Alarm → List Alarm
insert al [] = al ∷ []
insert al (c ∷ l) = if leb c.twake al.twake then c ∷ insert al l else al ∷ c ∷ l

-- Whether the walk stops at once, where `prev` is NULL.
unfoldable pub at_head : Alarm → List Alarm → Bool
at_head al [] = true
at_head al (c ∷ l) = not (leb c.twake al.twake)

-- `alarm_sleep`, up to the wait: the timer, the alarm, and whether the thread waits on it.
unfoldable pub alarm_sleep : Timer → Alarm → ℕ → ℕ → Timer × Alarm × Bool
unfolding add_time insert at_head
alarm_sleep t al now tcnt =
    let al' = record al { twake = add_time al.twake tcnt } in
    if ltb al'.twake now then (t, al', false) else (
      record {
        sleep_list = insert al' t.sleep_list;
        stcmp =
            if at_head al' t.sleep_list then min al'.twake ((now + slice) % u64_mod) else t.stcmp;
        stie = true;
      },
      al',
      true,
    )

-- `alarm_sleep_sec`, `alarm_sleep_ms` and `alarm_sleep_us`.
unfoldable pub alarm_sleep_sec : Timer → Alarm → ℕ → ℕ → Timer × Alarm × Bool
unfolding alarm_sleep
alarm_sleep_sec t al now sec = alarm_sleep t al now (sec * timer_freq % u64_mod)

unfoldable pub alarm_sleep_ms : Timer → Alarm → ℕ → ℕ → Timer × Alarm × Bool
unfolding alarm_sleep
alarm_sleep_ms t al now ms = alarm_sleep t al now (ms * (timer_freq / 1000) % u64_mod)

unfoldable pub alarm_sleep_us : Timer → Alarm → ℕ → ℕ → Timer × Alarm × Bool
unfolding alarm_sleep
alarm_sleep_us t al now us = alarm_sleep t al now (us * (timer_freq / 1000 / 1000) % u64_mod)

-- The loop of `handle_timer_interrupt`: the alarms whose conditions are broadcast, and the rest.
unfoldable pub wake_due : ℕ → List Alarm → List Alarm × List Alarm
wake_due now [] = ([], [])
wake_due now (c ∷ l) =
    let rest = wake_due now l in if leb c.twake now then (c ∷ rest.0, rest.1) else ([], c ∷ l)

-- The time of the next interrupt.
unfoldable pub next_time : ℕ → List Alarm → ℕ
next_time now [] = (now + slice) % u64_mod
next_time now (c ∷ l) = min c.twake ((now + slice) % u64_mod)

-- `handle_timer_interrupt`: the timer, and the alarms that are woken, in order.
unfoldable pub handle_timer_interrupt : Timer → ℕ → Timer × List Alarm
unfolding wake_due next_time
handle_timer_interrupt t now =
    let w = wake_due now t.sleep_list in
    (record t { sleep_list = w.1; stcmp = next_time now w.1 }, w.0)
