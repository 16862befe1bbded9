-- ===== src/Threads/Exit.antt =====
-- The end of a thread of sys/thread.c: running_thread_exit, and thread_join by its parent.
use model_lib.Base.{
  ℕ, ◌≡◌, refl, sym, ap, ◌∙◌, subst, true, false, Option, none, some, List, [], ◌∷◌, arith, ◌==◌,
  ==_self,
}
use model_lib.Threads.{
  idle_tid, main_tid, exited, Thread, Lock, Sys, put, modify, condition_broadcast,
}
use model_lib.Threads.Sound.{
  Counts-keep, Changes, changed, modify-Changes, ready_times, wait_times, runs, CanRun, MaySuspend,
  IsSound, IsSound-MaySuspend, self-times, runs-some,
}
use model_lib.Threads.Suspend.{running_thread_suspend-IsSound}
use model_lib.Threads.Broadcast.{IsThread, condition_broadcast-Listed}
use model_lib.Threads.Locks.{set_lock, release_locks, held_by, release_all_thread_locks}
use model_lib.Threads.Life.{parent_of, tell_parent, switches, running_thread_exit}

pub condition_broadcast-MaySuspend :
    (s : Sys) (c : ℕ) → MaySuspend s → MaySuspend (condition_broadcast s c)
condition_broadcast-MaySuspend s c v =
    let (l, r) = condition_broadcast-Listed s c v.listed in
    record {
      listed = l;
      self_runs = λ t h. v.self_runs t (sym (r.selves t) ∙ h) ∙ sym r.running;
      exists =
          subst (λ x. IsThread ((condition_broadcast s c).thrtab x)) (sym r.running)
            (r.alive s.running v.exists);
      idle = r.idle v.idle;
    }

set_lock-MaySuspend : (s : Sys) (l : ℕ) (k : Lock) → MaySuspend s → MaySuspend (set_lock s l k)
set_lock-MaySuspend s l k v = record {
  listed = record { in_ready = v.listed.in_ready; in_wait = v.listed.in_wait };
  self_runs = v.self_runs;
  exists = v.exists;
  idle = v.idle;
}

release_locks-MaySuspend :
    (release : ℕ → ℕ) (s : Sys) (ls : List ℕ)
    → MaySuspend s
    → MaySuspend (release_locks release s ls)
unfolding release_locks
release_locks-MaySuspend release s [] v = v
release_locks-MaySuspend release s (l ∷ ls) v =
    let k : Lock = record { owner = none; cnt = 0 } in
    release_locks-MaySuspend release (condition_broadcast (set_lock s l k) (release l)) ls
      (condition_broadcast-MaySuspend (set_lock s l k) (release l) (set_lock-MaySuspend s l k v))

drop_locks : Thread → Thread
drop_locks th = record th { lock_list = [] }

-- Its locks do not say where a thread is.
same_ready : (o : Option Thread) → ready_times o ≡ ready_times (put drop_locks o)
unfolding drop_locks
same_ready none = refl
same_ready (some th) = refl

same_wait : (c : ℕ) (o : Option Thread) → wait_times c o ≡ wait_times c (put drop_locks o)
unfolding drop_locks
same_wait c none = refl
same_wait c (some th) = refl

same_runs : (o : Option Thread) → runs (put drop_locks o) ≡ runs o
unfolding drop_locks
same_runs none = refl
same_runs (some th) = refl

can_run : (o : Option Thread) → CanRun o → CanRun (put drop_locks o)
unfolding drop_locks
can_run none x = x
can_run (some th) x = x

drop_locks-MaySuspend :
    (s : Sys) (t : ℕ) → MaySuspend s → MaySuspend (modify s t (λ th. record th { lock_list = [] }))
unfolding modify drop_locks
drop_locks-MaySuspend s t v =
    let ch : Changes t (s.thrtab t) (put drop_locks (s.thrtab t)) s.thrtab
        (modify s t drop_locks).thrtab =
      record {
        before = refl;
        after = rw (==_self t) refl;
        others = λ u ne. let q : (u == t) ≡ false = ground arith in rw q refl;
      } in
    record {
      listed = record {
        in_ready =
            Counts-keep ready_times t (s.thrtab t) _ s.thrtab _ ch s.ready_list
              (same_ready (s.thrtab t)) v.listed.in_ready;
        in_wait = λ d.
            Counts-keep (wait_times d) t (s.thrtab t) _ s.thrtab _ ch (s.wait_list d)
              (same_wait d (s.thrtab t)) (v.listed.in_wait d);
      };
      self_runs = λ u.
          changed (λ o. runs o ≡ true → u ≡ s.running) ch u
            (λ x y.
              v.self_runs u
                (ap (λ (z : ℕ). runs (s.thrtab z)) x ∙ sym (same_runs (s.thrtab t)) ∙ y))
            (λ x y. v.self_runs u y);
      exists =
          changed IsThread ch s.running
            (λ x.
              let (th, e) = v.exists in
              (
                drop_locks th,
                ap (λ (z : ℕ). put drop_locks (s.thrtab z)) (sym x) ∙ ap (put drop_locks) e,
              ))
            (λ x. v.exists);
      idle =
          changed CanRun ch idle_tid
            (λ x.
              subst (λ z. CanRun (put drop_locks (s.thrtab z))) x
                (can_run (s.thrtab idle_tid) v.idle))
            (λ x. v.idle);
    }

exit-MaySuspend :
    (release : ℕ → ℕ) (s : Sys) (t : ℕ)
    → MaySuspend s
    → MaySuspend (release_all_thread_locks release s t)
unfolding release_all_thread_locks
exit-MaySuspend release s t v =
    drop_locks-MaySuspend (release_locks release s (held_by release (s.thrtab t))) t
      (release_locks-MaySuspend release s (held_by release (s.thrtab t)) v)

tell_parent-MaySuspend :
    (child_exit release : ℕ → ℕ) (s : Sys) (o : Option ℕ)
    → MaySuspend s
    → MaySuspend (tell_parent child_exit release s o)
unfolding tell_parent
tell_parent-MaySuspend child_exit release s none v = v
tell_parent-MaySuspend child_exit release s (some p) v =
    condition_broadcast-MaySuspend s (child_exit p) v

-- The running thread has exited.
leave-MaySuspend :
    (s : Sys)
    → IsSound s
    → ¬ (s.running ≡ idle_tid)
    → MaySuspend (modify s s.running (λ th. record th { state = exited }))
unfolding modify
leave-MaySuspend s v ne =
    let m = IsSound-MaySuspend s v in
    let (th, e, q) = runs-some (s.thrtab s.running) (v.one_self s.running ∙ ==_self s.running) in
    let (r0, w0) = self-times th q in
    let f : Thread → Thread = λ th. record th { state = exited } in
    let ch = modify-Changes s s.running th f e in
    record {
      listed = record {
        in_ready =
            Counts-keep ready_times s.running (some th) (some (f th)) s.thrtab _ ch s.ready_list r0
              v.listed.in_ready;
        in_wait = λ d.
            Counts-keep (wait_times d) s.running (some th) (some (f th)) s.thrtab _ ch
              (s.wait_list d) (w0 d) (v.listed.in_wait d);
      };
      self_runs = λ t.
          changed (λ o. runs o ≡ true → t ≡ s.running) ch t (λ x y. x) (λ x y. m.self_runs t y);
      exists = (f th, ch.after);
      idle = changed CanRun ch idle_tid (λ x. absurd (ne (sym x))) (λ x. v.idle);
    }

-- A thread that exits, other than the main and the idle one, leaves every other thread where its state
-- says, and another one runs.
pub running_thread_exit-IsSound :
    (child_exit release : ℕ → ℕ) (s : Sys)
    → IsSound s
    → ¬ (s.running ≡ main_tid)
    → ¬ (s.running ≡ idle_tid)
    → (s' : Sys) × (running_thread_exit child_exit release s ≡ switches (some s')) × IsSound s'
unfolding running_thread_exit
running_thread_exit-IsSound child_exit release s v not_main not_idle =
    let s1 = modify s s.running (λ th. record th { state = exited }) in
    let p = parent_of (s1.thrtab s.running) in
    let s2 = tell_parent child_exit release s1 p in
    let v2 = tell_parent-MaySuspend child_exit release s1 p (leave-MaySuspend s v not_idle) in
    let r =
      running_thread_suspend-IsSound (release_all_thread_locks release s2 s.running)
        (exit-MaySuspend release s2 s.running v2) in
    let q : (s.running == main_tid) ≡ false = ground arith in (r.0, rw q (ap switches r.1), r.2)
