-- ===== src/Threads/Tests.antt =====
-- Runs of the threads of sys/thread.c, and their theorems at a concrete state.
use model_lib.Base.{
  ℕ, ◌+◌, ◌≡◌, refl, inl, inr, true, false, none, some, [], ◌∷◌, arith, ◌==◌, if◌then◌else◌,
}
use model_lib.Threads.{
  waiting, self, ready, Thread, Sys, running_thread_suspend, condition_broadcast, wake_all,
}
use model_lib.Threads.Sound.{IsSound, IsSound-MaySuspend}
use model_lib.Threads.Suspend.{running_thread_suspend-IsSound}
use model_lib.Threads.Life.{spawn_thread}
use model_lib.Threads.Steps.{spawn_thread-Spawned}
use model_lib.Threads.Run.{yields, spawns, Reach, here, then_calls, call, Reach-IsSound}

abbrev main : Thread
main = record {
  state = self;
  parent = none;
  proc = none;
  wait_cond = none;
  lock_list = [];
  stack_lowest = 0;
  started = true;
}

abbrev idle : Thread
idle = record main { state = ready; parent = some 0; started = false }

-- The main thread runs, and the idle thread is ready.
abbrev boot : Sys
boot = record {
  thrtab = λ t. if t == 0 then some main else if t == 31 then some idle else none;
  ready_list = 31 ∷ [];
  running = 0;
  wait_list = λ c. [];
  locks = λ l. record { owner = none; cnt = 0 };
  freed = [];
}

boot-IsSound : IsSound boot
boot-IsSound = record {
  listed = record { in_ready = λ t. ground arith; in_wait = λ c t. ground arith };
  one_self = λ t. ground arith;
  idle = inl refl;
}

abbrev child_exit : ℕ → ℕ
child_exit t = 1000 + t

abbrev release : ℕ → ℕ
release l = l

abbrev after_spawn : Sys
after_spawn = (spawn_thread boot 4096).0

-- The main thread spawns a thread and yields, and the idle thread runs.
reached : (u : Sys) × Reach child_exit release boot u
unfolding call
reached =
    let v = (spawn_thread-Spawned boot 4096 boot-IsSound).sound in
    let r = running_thread_suspend-IsSound after_spawn (IsSound-MaySuspend after_spawn v) in
    (r.0, then_calls yields (then_calls (spawns 4096) here tt refl) tt r.1)

Reach-IsSound_example : IsSound reached.0
Reach-IsSound_example = Reach-IsSound child_exit release boot reached.0 boot-IsSound reached.1

running_thread_suspend-IsSound_example :
    (s' : Sys) × (running_thread_suspend boot ≡ some s') × IsSound s'
running_thread_suspend-IsSound_example =
    running_thread_suspend-IsSound boot (IsSound-MaySuspend boot boot-IsSound)

-- The idle thread runs, and the main thread waits for condition 7.
abbrev asleep : Sys
asleep = record boot {
  thrtab = λ t.
      if t == 0
      then some (record main { state = waiting; wait_cond = some 7 })
      else if t == 31
      then some (record idle { state = self })
      else none;
  ready_list = [];
  running = 31;
  wait_list = λ c. if c == 7 then 0 ∷ [] else [];
}

asleep-IsSound : IsSound asleep
asleep-IsSound = record {
  listed = record { in_ready = λ t. ground arith; in_wait = λ c t. ground arith };
  one_self = λ t. ground arith;
  idle = inr refl;
}

condition_broadcast-wakes : (condition_broadcast asleep 7).ready_list ≡ 0 ∷ []
unfolding condition_broadcast wake_all
condition_broadcast-wakes = refl
