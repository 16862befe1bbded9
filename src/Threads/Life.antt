-- ===== src/Threads/Life.antt =====
-- The life of a thread of sys/thread.c: spawn_thread, running_thread_exit and thread_join.
-- `child_exit` gives the address of the condition in a thread, `release` of that in a lock.
use model_lib.Base.{
  ℕ, zero, suc, ◌+◌, Bool, false, not, ◌&&◌, ◌||◌, Option, none, some, [], ltb, leb, ◌==◌,
  if◌then◌else◌,
}
use model_lib.Threads.{
  nthr, main_tid, uninitialized, ready, exited, Thread, Sys, modify, insert_ready, is_exited,
  running_thread_suspend, condition_wait, condition_broadcast,
}
use model_lib.Threads.Locks.{is_owner, release_all_thread_locks}

-- The search of create_thread: the first free slot from `tid` on, with `left` slots left.
unfoldable pub find_slot : (ℕ → Option Thread) → ℕ → ℕ → Option ℕ
find_slot thrtab zero tid = none
find_slot thrtab (suc left) tid = elim (thrtab tid) [
  | none ↦ some tid
  | some th ↦ find_slot thrtab left (tid + 1)
]

abbrev pub proc_of : Option Thread → Option ℕ
proc_of none = none
proc_of (some th) = th.proc

-- The new thread of create_thread, over the page that alloc_phys_page returns.
abbrev pub new_thread : Sys → ℕ → Thread
new_thread s page = record {
  state = uninitialized;
  parent = some s.running;
  proc = proc_of (s.thrtab s.running);
  wait_cond = none;
  lock_list = [];
  stack_lowest = page;
  started = false;
}

unfoldable pub set_slot : Sys → ℕ → Option Thread → Sys
set_slot s t o = record s { thrtab = λ u. if u == t then o else s.thrtab u }

-- `create_thread`: the index of the new thread, if there is a free slot.
unfoldable pub create_thread : Sys → ℕ → Sys × Option ℕ
unfolding find_slot set_slot
create_thread s page = elim (find_slot s.thrtab 31 1) [
  | none ↦ (s, none)
  | some tid ↦ (set_slot s tid (some (new_thread s page)), some tid)
]

-- `spawn_thread`, less the registers it fills in; `none` is -EMTHR.
unfoldable pub make_ready : Sys × Option ℕ → Sys × Option ℕ
unfolding modify insert_ready
make_ready (s, none) = (s, none)
make_ready (s, some tid) =
    (insert_ready (modify s tid (λ th. record th { state = ready })) tid, some tid)

unfoldable pub spawn_thread : Sys → ℕ → Sys × Option ℕ
unfolding create_thread make_ready
spawn_thread s page = make_ready (create_thread s page)

abbrev pub parent_of : Option Thread → Option ℕ
parent_of none = none
parent_of (some th) = th.parent

-- What a call of thread_join comes to: -EINVAL, the thread that was joined, or a wait.
pub data Join : Type 0 where
  einval : Join
  joined : ℕ → Sys → Join
  waits : Sys → Join
  panics : Join

abbrev pub waited : Option Sys → Join
waited none = panics
waited (some s) = waits s

-- What running_thread_exit comes to.
pub data Exit : Type 0 where
  halts : Exit
  switches : Option Sys → Exit

module _ (child_exit release : ℕ → ℕ) where
  unfoldable pub tell_parent : Sys → Option ℕ → Sys
  unfolding condition_broadcast
  tell_parent s none = s
  tell_parent s (some p) = condition_broadcast s (child_exit p)

  -- `running_thread_exit`.
  unfoldable pub running_thread_exit : Sys → Exit
  unfolding modify tell_parent release_all_thread_locks running_thread_suspend
  running_thread_exit s =
      let s1 = modify s s.running (λ th. record th { state = exited }) in
      let s2 = tell_parent s1 (parent_of (s1.thrtab s.running)) in
      if s.running == main_tid
      then halts
      else switches (running_thread_suspend (release_all_thread_locks release s2 s.running))

  -- A child of thread `tid` gets the parent of `tid`.
  abbrev pub inherit : ℕ → Option ℕ → Option Thread → Option Thread
  inherit tid p none = none
  inherit tid p (some th) =
      if is_owner tid th.parent then some (record th { parent = p }) else some th

  -- `thread_reclaim`; its assertions hold where thread_join calls it.
  unfoldable pub thread_reclaim : Sys → ℕ → Sys
  unfolding set_slot
  thread_reclaim s tid =
      let p = parent_of (s.thrtab tid) in
      set_slot
        (record s {
          thrtab = λ u. if leb 1 u && ltb u nthr then inherit tid p (s.thrtab u) else s.thrtab u;
        })
        tid none

  abbrev pub is_child : ℕ → Option Thread → Bool
  is_child t none = false
  is_child t (some th) = is_owner t th.parent

  abbrev pub has_exited : Option Thread → Bool
  has_exited none = false
  has_exited (some th) = is_exited th.state

  -- The first thread that passes a test, from `i` on.
  unfoldable pub find_thread : (ℕ → Bool) → ℕ → ℕ → Option ℕ
  find_thread p zero i = none
  find_thread p (suc left) i = let rest = find_thread p left (i + 1) in if p i then some i else rest

  abbrev pub join_any : Sys → Option ℕ → Option ℕ → Join
  join_any s none o = einval
  join_any s (some c) (some i) = joined i (thread_reclaim s i)
  join_any s (some c) none = waited (condition_wait s (child_exit s.running))

  -- `thread_join`, one round of its loop. A negative `tid` is its unsigned pattern.
  unfoldable pub thread_join : Sys → ℕ → Join
  unfolding thread_reclaim find_thread condition_wait
  thread_join s tid =
      if tid == 0
      then join_any s (find_thread (λ i. is_child s.running (s.thrtab i)) 31 0)
          (find_thread (λ i. is_child s.running (s.thrtab i) && has_exited (s.thrtab i)) 31 0)
      else if leb nthr tid || not (is_child s.running (s.thrtab tid))
      then einval
      else if has_exited (s.thrtab tid)
      then joined tid (thread_reclaim s tid)
      else waited (condition_wait s (child_exit s.running))
