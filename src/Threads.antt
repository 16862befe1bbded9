-- ===== src/Threads.antt =====
-- sys/thread.c: the threads of the kernel, the list of those ready to run, conditions and locks. A
-- thread is known by its index in thrtab, which its field id holds; a condition and a lock by its
-- address. Each function runs with interrupts off where it touches a list, so that it is a step from
-- state to state. `none` is a failed assertion or a NULL dereference. Where a thread waits in a loop,
-- the step ends with the switch to another thread, and a further call is the next round of the loop.
pub mod Sound
pub mod Suspend
pub mod Broadcast
pub mod Locks
pub mod Life
pub mod Steps
pub mod Exit
pub mod Join
pub mod Run
pub mod Tests
use model_lib.Base.{
  ℕ, zero, suc, ◌+◌, ◌-◌, ◌*◌, ◌/◌, ◌%◌, ◌^◌, ◌≤◌, ◌<◌, min, ◌≡◌, refl, sym, ap, ap₂, ◌∙◌, subst,
  fun_ext, ◌≢◌, ◌↔◌, ◌⊎◌, inl, inr, Bool, true, false, not, ◌&&◌, ◌||◌, Option, none, some, List,
  [], ◌∷◌, ◌++◌, map, arith, ltb, leb, ◌==◌, if◌then◌else◌, Bool-cases, Option-cases, ==_iff,
  ltb→lt, lt→ltb, leb→le, ltb→ge, ==→eq, ==→ne, ==_self, length, get_elem?, set, get_or, take, drop,
  replicate, length-append, length-set, get_elem?-set_self, get_elem?-set_ne, take-append-drop,
  length-take, length-drop, length-replicate, length-map, get_or-set_self, get_or-set_ne, take-nil,
  drop-nil, take-min,
}

-- NTHR, the main thread and the idle thread.
abbrev pub nthr : ℕ
nthr = 32

abbrev pub main_tid : ℕ
main_tid = 0

abbrev pub idle_tid : ℕ
idle_tid = 31

-- `enum thread_state`.
pub data ThreadState : Type 0 where
  uninitialized waiting self ready exited : ThreadState

-- `struct thread`. `started` says that the thread has been switched to before: its first run does not
-- return from _thread_swtch.
pub record Thread : Type 0 where
  pub state : ThreadState
  pub parent : Option ℕ
  pub proc : Option ℕ
  pub wait_cond : Option ℕ
  pub lock_list : List ℕ
  pub stack_lowest : ℕ
  pub started : Bool

-- `struct lock`, less its condition and its link.
pub record Lock : Type 0 where
  pub owner : Option ℕ
  pub cnt : ℕ

-- `thrtab`, `ready_list`, the running thread, the wait lists of the conditions, the locks, and the
-- pages of stacks that were freed.
pub record Sys : Type 0 where
  pub thrtab : ℕ → Option Thread
  pub ready_list : List ℕ
  pub running : ℕ
  pub wait_list : ℕ → List ℕ
  pub locks : ℕ → Lock
  pub freed : List ℕ

-- A field of a thread written.
abbrev pub put : (Thread → Thread) → Option Thread → Option Thread
put f none = none
put f (some th) = some (f th)

unfoldable pub modify : Sys → ℕ → (Thread → Thread) → Sys
modify s t f = record s { thrtab = λ u. if u == t then put f (s.thrtab u) else s.thrtab u }

-- `tlinsert` at the list of ready threads and at that of a condition.
unfoldable pub insert_ready : Sys → ℕ → Sys
insert_ready s t = record s { ready_list = s.ready_list ++ (t ∷ []) }

unfoldable pub insert_wait : Sys → ℕ → ℕ → Sys
insert_wait s c t = record s {
  wait_list = λ e. if e == c then s.wait_list e ++ (t ∷ []) else s.wait_list e;
}

abbrev pub is_self : ThreadState → Bool
is_self self = true
is_self _ = false

abbrev pub is_exited : ThreadState → Bool
is_exited exited = true
is_exited _ = false

-- What the thread switched to does with the stack of the one before.
unfoldable pub after_switch : Thread → Thread → Sys → Sys
after_switch prev next s =
    if next.started && is_exited prev.state
    then record s { freed = prev.stack_lowest ∷ s.freed }
    else s

-- The thread taken off the ready list runs.
unfoldable pub resume : Thread → Sys → ℕ → List ℕ → Option Thread → Option Sys
unfolding modify after_switch
resume prev s n rest none = none
resume prev s n rest (some next) = some (
    after_switch prev next (record (modify s n (λ th. record th { state = self; started = true })) {
      ready_list = rest;
      running = n;
    }))

-- The head of the ready list becomes the running thread.
unfoldable pub switch_to : Thread → Sys → List ℕ → Option Sys
unfolding resume
switch_to prev s [] = none
switch_to prev s (n ∷ rest) = resume prev s n rest (s.thrtab n)

-- A thread that is still SELF goes to the end of the ready list.
unfoldable pub give_way : Sys → Thread → Sys
unfolding modify insert_ready
give_way s th =
    if is_self th.state
    then insert_ready (modify s s.running (λ th. record th { state = ready })) s.running
    else s

unfoldable pub suspend_thread : Sys → Option Thread → Option Sys
unfolding give_way switch_to
suspend_thread s none = none
suspend_thread s (some th) = let s1 = give_way s th in switch_to th s1 s1.ready_list

-- `running_thread_suspend`, which is also running_thread_yield.
unfoldable pub running_thread_suspend : Sys → Option Sys
unfolding suspend_thread
running_thread_suspend s = suspend_thread s (s.thrtab s.running)

-- The running thread in the wait list.
unfoldable pub mark_waiting : Sys → ℕ → Sys
unfolding modify insert_wait
mark_waiting s c =
    insert_wait (modify s s.running (λ th. record th { state = waiting; wait_cond = some c })) c
      s.running

unfoldable pub wait_thread : Sys → ℕ → Option Thread → Option Sys
unfolding mark_waiting running_thread_suspend
wait_thread s c none = none
wait_thread s c (some th) =
    if is_self th.state then running_thread_suspend (mark_waiting s c) else none

-- `condition_wait`.
unfoldable pub condition_wait : Sys → ℕ → Option Sys
unfolding wait_thread
condition_wait s c = wait_thread s c (s.thrtab s.running)

-- The loop of `condition_broadcast`, over the threads that wait.
unfoldable pub wake : Sys → ℕ → Sys
unfolding modify insert_ready
wake s t = insert_ready (modify s t (λ th. record th { state = ready; wait_cond = none })) t

unfoldable pub wake_all : Sys → List ℕ → Sys
unfolding wake
wake_all s [] = s
wake_all s (t ∷ l) = wake_all (wake s t) l

unfoldable pub condition_broadcast : Sys → ℕ → Sys
unfolding wake_all
condition_broadcast s c =
    wake_all (record s { wait_list = λ e. if e == c then [] else s.wait_list e }) (s.wait_list c)
