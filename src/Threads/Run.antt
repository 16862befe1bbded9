-- ===== src/Threads/Run.antt =====
-- The threads of sys/thread.c doing anything in any order.
use model_lib.Base.{ℕ, ◌≡◌, refl, sym, ap, ◌∙◌, subst, Option, none, some}
use mathlib.Core.Option.{some_inj}
use model_lib.Threads.{
  idle_tid, main_tid, Sys, running_thread_suspend, condition_wait, condition_broadcast,
}
use model_lib.Threads.Sound.{IsSound, IsSound-MaySuspend}
use model_lib.Threads.Suspend.{running_thread_suspend-IsSound, condition_wait-IsSound}
use model_lib.Threads.Broadcast.{condition_broadcast-IsSound}
use model_lib.Threads.Life.{
  spawn_thread, Join, einval, joined, waits, panics, Exit, halts, switches, running_thread_exit,
  thread_join,
}
use model_lib.Threads.Steps.{spawn_thread-Spawned}
use model_lib.Threads.Exit.{running_thread_exit-IsSound}
use model_lib.Threads.Join.{Joins, thread_join-Joins}

module _ (child_exit release : ℕ → ℕ) where
  -- What the running thread may do next; `spawns` comes with the page of the new stack.
  pub data Call : Type 0 where
    yields exits : Call
    broadcasts : ℕ → Call
    waits_for : ℕ → Call
    spawns : ℕ → Call
    joins : ℕ → Call

  abbrev after_join : Sys → Join → Option Sys
  after_join s einval = some s
  after_join s (joined i s') = some s'
  after_join s (waits s') = some s'
  after_join s panics = none

  abbrev after_exit : Exit → Option Sys
  after_exit halts = none
  after_exit (switches o) = o

  -- Some thread may wait, exit or join only if it is not the idle one, and exit only if it is not the
  -- main one, whose exit ends the run.
  abbrev pub Allowed : Sys → Call → Type 0
  Allowed s (waits_for c) = ¬ (s.running ≡ idle_tid)
  Allowed s (joins t) = ¬ (s.running ≡ idle_tid)
  Allowed s exits = ¬ (s.running ≡ main_tid) × ¬ (s.running ≡ idle_tid)
  Allowed s call = Unit

  unfoldable pub call : Sys → Call → Option Sys
  unfolding thread_join running_thread_exit condition_broadcast spawn_thread running_thread_suspend
      condition_wait
  call s yields = running_thread_suspend s
  call s exits = after_exit (running_thread_exit child_exit release s)
  call s (broadcasts c) = some (condition_broadcast s c)
  call s (waits_for c) = condition_wait s c
  call s (spawns page) = some (spawn_thread s page).0
  call s (joins tid) = after_join s (thread_join child_exit release s tid)

  -- The states that calls of running threads lead to.
  pub data Reach (s : Sys) : Sys → Type 0 where
    here : Reach s s
    then_calls : {t u : Sys} (c : Call) → Reach s t → Allowed t c → call t c ≡ some u → Reach s u

  after_join-IsSound :
      (s : Sys) (j : Join)
      → IsSound s
      → Joins child_exit release s j
      → (s' : Sys) × (after_join s j ≡ some s') × IsSound s'
  unfolding Joins
  after_join-IsSound s einval v k = (s, refl, v)
  after_join-IsSound s (joined i s') v k = (s', refl, k.2)
  after_join-IsSound s (waits s') v k = (s', refl, k)
  after_join-IsSound s panics v k = absurd k

  -- Each call that a thread may make succeeds, and leaves every thread where its state says.
  pub call-IsSound :
      (s : Sys) (c : Call)
      → IsSound s
      → Allowed s c
      → (s' : Sys) × (call s c ≡ some s') × IsSound s'
  unfolding call
  call-IsSound s yields v k = running_thread_suspend-IsSound s (IsSound-MaySuspend s v)
  call-IsSound s exits v k =
      let r = running_thread_exit-IsSound child_exit release s v k.0 k.1 in
      (r.0, ap after_exit r.1, r.2)
  call-IsSound s (broadcasts c) v k = (_, refl, (condition_broadcast-IsSound s c v).0)
  call-IsSound s (waits_for c) v k = condition_wait-IsSound s c v k
  call-IsSound s (spawns page) v k = (_, refl, (spawn_thread-Spawned s page v).sound)
  call-IsSound s (joins tid) v k =
      after_join-IsSound s (thread_join child_exit release s tid) v
        (thread_join-Joins child_exit release s tid v k)

  -- Whatever threads do, every thread is where its state says: one thread runs and it alone has the
  -- state SELF, a thread that is ready stands once in the ready list, one that waits stands once in the
  -- list of its condition alone, and the idle thread can run. It starts from a state in which it is so.
  pub Reach-IsSound : (s u : Sys) → IsSound s → Reach s u → IsSound u
  Reach-IsSound s u v here = v
  Reach-IsSound s u v (then_calls {t} c r k e) =
      let n = call-IsSound t c (Reach-IsSound s t v r) k in
      let q : n.0 ≡ u = some_inj.0 (sym n.1 ∙ e) in subst IsSound q n.2
