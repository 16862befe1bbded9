-- ===== src/Timer/Tests.antt =====
-- Runs of sys/timer.c, and its theorems at a concrete timer.
use model_lib.Base.{◌+◌, ◌≡◌, refl, Bool, true, List, [], ◌∷◌, map, ◌==◌}
use model_lib.Timer.{Alarm, Timer, alarm_sleep, insert, add_time, wake_due, handle_timer_interrupt}
use model_lib.Timer.Order.{IsArmed, Woke, handle_timer_interrupt-Woke}
use model_lib.Timer.Run.{Event, sleeps, interrupt, count, run, run-IsArmed}

abbrev two_alarms : List Alarm
two_alarms = (record { id = 1; twake = 500 }) ∷ (record { id = 2; twake = 900 }) ∷ []

abbrev timer : Timer
timer = record { sleep_list = two_alarms; stcmp = 400; stie = true }

abbrev third : Alarm
third = record { id = 3; twake = 300 }

timer-IsArmed : IsArmed timer
timer-IsArmed = refl

-- An alarm for 700 goes between the two.
alarm_sleep-middle :
    map (λ (a : Alarm). a.id) (alarm_sleep timer third 350 400).0.sleep_list ≡ 1 ∷ 3 ∷ 2 ∷ []
unfolding alarm_sleep insert add_time
alarm_sleep-middle = refl

-- At 600 the first is woken.
handle_timer_interrupt-first :
    map (λ (a : Alarm). a.id) (handle_timer_interrupt timer 600).1 ≡ 1 ∷ []
unfolding handle_timer_interrupt wake_due
handle_timer_interrupt-first = refl

handle_timer_interrupt-Woke_example : Woke timer 600 (handle_timer_interrupt timer 600)
handle_timer_interrupt-Woke_example = handle_timer_interrupt-Woke timer 600 timer-IsArmed

abbrev events : List Event
events = sleeps third 350 400 ∷ interrupt 600 ∷ interrupt 800 ∷ []

abbrev is_third : Alarm → Bool
is_third a = a.id == 3

run-IsArmed_example :
    let (t', woken, slept) = run timer events in
    IsArmed t'
    × (count is_third woken + count is_third t'.sleep_list
        ≡ count is_third two_alarms + count is_third slept)
run-IsArmed_example = run-IsArmed is_third timer events timer-IsArmed
