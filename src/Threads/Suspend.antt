-- ===== src/Threads/Suspend.antt =====
-- The switch from one thread of sys/thread.c to another.
use model_lib.Base.{
  ℕ, ◌+◌, ◌≡◌, refl, sym, ap, ◌∙◌, subst, inl, inr, true, false, ◌&&◌, some, List, [], ◌∷◌, arith,
  ◌==◌, if◌then◌else◌, Bool-cases, ==→eq, ==→ne, ==_self,
}
use model_lib.Threads.{
  idle_tid, waiting, self, ready, Thread, Sys, modify, insert_ready, insert_wait, is_self,
  is_exited, after_switch, resume, switch_to, give_way, suspend_thread, running_thread_suspend,
  mark_waiting, wait_thread, condition_wait,
}
use model_lib.Threads.Sound.{
  count, Counts, Counts-add, Counts-drop, Counts-keep, changed, modify-Changes, ready_times,
  wait_times, runs, CanRun, Listed, MaySuspend, IsSound, IsSound-MaySuspend, self-times, head-ready,
  runs-some,
}

-- A state between two threads: none has the state SELF.
record Between (s : Sys) : Type 0 where
  pub listed : Listed s
  pub no_self : (t : ℕ) → runs (s.thrtab t) ≡ false
  pub idle : CanRun (s.thrtab idle_tid)

-- What the stack of the thread before leaves as it was.
after_switch-IsSound :
    (prev next : Thread) (s : Sys) → IsSound s → IsSound (after_switch prev next s)
unfolding after_switch
after_switch-IsSound prev next s v = elim (Bool-cases (next.started && is_exited prev.state)) [
  | inl e ↦ rw e (record {
    listed = record { in_ready = v.listed.in_ready; in_wait = v.listed.in_wait };
    one_self = v.one_self;
    idle = v.idle;
  })
  | inr e ↦ rw e v
]

go : Thread → Thread
go th = record th { state = self; started = true }

-- The head of the ready list takes over.
take_over :
    (s : Sys) (n : ℕ) (rest : List ℕ) (next : Thread)
    → s.thrtab n ≡ some next
    → next.state ≡ ready
    → s.ready_list ≡ n ∷ rest
    → Between s
    → IsSound (record (modify s n go) { ready_list = rest; running = n })
unfolding modify go
take_over s n rest next e r l b =
    let ch = modify-Changes s n next go e in
    record {
      listed = record {
        in_ready =
            Counts-drop ready_times n (some next) (some (go next)) s.thrtab _ ch rest (rw r refl)
              (subst (λ x. Counts ready_times x s.thrtab) l b.listed.in_ready);
        in_wait = λ c.
            Counts-keep (wait_times c) n (some next) (some (go next)) s.thrtab _ ch (s.wait_list c)
              (rw r refl) (b.listed.in_wait c);
      };
      one_self = λ t. elim (Bool-cases (t == n)) [
        | inl q ↦
            ap (λ (x : ℕ). runs ((modify s n go).thrtab x)) (==→eq t n q) ∙ ap runs ch.after ∙ sym q
        | inr q ↦ ap runs (ch.others t (==→ne t n q)) ∙ b.no_self t ∙ sym q
      ];
      idle = elim (Bool-cases (idle_tid == n)) [
        | inl q ↦ inr (
            ap (λ (x : ℕ). runs ((modify s n go).thrtab x)) (==→eq idle_tid n q) ∙ ap runs ch.after)
        | inr q ↦ subst CanRun (sym (ch.others idle_tid (==→ne idle_tid n q))) b.idle
      ];
    }

switch_to_head :
    (prev : Thread) (s : Sys) (n : ℕ) (rest : List ℕ) (next : Thread)
    → s.thrtab n ≡ some next
    → next.state ≡ ready
    → s.ready_list ≡ n ∷ rest
    → Between s
    → (s' : Sys) × (switch_to prev s (n ∷ rest) ≡ some s') × IsSound s'
unfolding switch_to resume go
switch_to_head prev s n rest next q r e b = (
  after_switch prev next (record (modify s n go) { ready_list = rest; running = n }),
  ap (resume prev s n rest) q,
  after_switch-IsSound prev next (record (modify s n go) { ready_list = rest; running = n })
      (take_over s n rest next q r e b),
)

-- The idle thread is in the ready list, so that the list is not empty.
switch_to-IsSound :
    (prev : Thread) (s : Sys) (l : List ℕ)
    → s.ready_list ≡ l
    → Between s
    → (s' : Sys) × (switch_to prev s l ≡ some s') × IsSound s'
unfolding switch_to
switch_to-IsSound prev s [] e b =
    let idle_ready : ready_times (s.thrtab idle_tid) ≡ 0 =
      sym (b.listed.in_ready idle_tid) ∙ ap (count idle_tid) e in
    ground (arith, b.no_self idle_tid, b.idle)
switch_to-IsSound prev s (n ∷ rest) e b =
    let (next, q, r) =
      head-ready s n rest (subst (λ x. Counts ready_times x s.thrtab) e b.listed.in_ready)
        (s.thrtab n) refl in
    switch_to_head prev s n rest next q r e b

-- The running thread at the end of the ready list, if it is still SELF.
give_way-Between :
    (s : Sys) (th : Thread) → s.thrtab s.running ≡ some th → MaySuspend s → Between (give_way s th)
unfolding give_way insert_ready modify
give_way-Between s th e v =
    let not_runs : (t : ℕ) → ¬ (t ≡ s.running) → runs (s.thrtab t) ≡ false = λ t ne.
      elim (Bool-cases (runs (s.thrtab t))) [ inr k ↦ k | inl k ↦ absurd (ne (v.self_runs t k)) ] in
    elim (Bool-cases (is_self th.state)) [
      | inr q ↦ rw q (record {
        listed = v.listed;
        no_self = λ t. elim (Bool-cases (runs (s.thrtab t))) [
          | inr k ↦ k
          | inl k ↦
              let a : runs (s.thrtab t) ≡ is_self th.state =
                ap (λ (x : ℕ). runs (s.thrtab x)) (v.self_runs t k) ∙ ap runs e in
              a ∙ q
        ];
        idle = v.idle;
      })
      | inl q ↦
          let (r0, w0) = self-times th q in
          let f : Thread → Thread = λ th. record th { state = ready } in
          let ch = modify-Changes s s.running th f e in
          rw q (record {
            listed = record {
              in_ready =
                  Counts-add ready_times s.running (some th) (some (f th)) s.thrtab _ ch
                    s.ready_list (omega arith) v.listed.in_ready;
              in_wait = λ c.
                  Counts-keep (wait_times c) s.running (some th) (some (f th)) s.thrtab _ ch
                    (s.wait_list c) (w0 c) (v.listed.in_wait c);
            };
            no_self = λ t. changed (λ o. runs o ≡ false) ch t (λ e. refl) (λ ne. not_runs t ne);
            idle = changed CanRun ch idle_tid (λ e. inl refl) (λ ne. v.idle);
          })
    ]

-- running_thread_suspend always finds a thread to switch to, and leaves every thread where its state
-- says: the running thread alone has the state SELF, a thread that is ready stands once in the ready
-- list, and one that waits once in the list of its condition. The caller may have left the state SELF.
pub running_thread_suspend-IsSound :
    (s : Sys) → MaySuspend s → (s' : Sys) × (running_thread_suspend s ≡ some s') × IsSound s'
unfolding running_thread_suspend suspend_thread
running_thread_suspend-IsSound s v =
    let (th, e) = v.exists in
    let s1 = give_way s th in
    let r = switch_to-IsSound th s1 s1.ready_list refl (give_way-Between s th e v) in
    (r.0, ap (suspend_thread s) e ∙ r.1, r.2)

-- The running thread is put into the wait list of a condition.
mark_waiting-MaySuspend :
    (s : Sys) (c : ℕ) (th : Thread)
    → IsSound s
    → ¬ (s.running ≡ idle_tid)
    → s.thrtab s.running ≡ some th
    → is_self th.state ≡ true
    → MaySuspend (mark_waiting s c)
unfolding mark_waiting insert_wait modify
mark_waiting-MaySuspend s c th v ne e q =
    let (r0, w0) = self-times th q in
    let f : Thread → Thread = λ th. record th { state = waiting; wait_cond = some c } in
    let ch = modify-Changes s s.running th f e in
    let m = IsSound-MaySuspend s v in
    record {
      listed = record {
        in_ready =
            Counts-keep ready_times s.running (some th) (some (f th)) s.thrtab _ ch s.ready_list r0
              v.listed.in_ready;
        in_wait = λ d. elim (Bool-cases (d == c)) [
          | inl x ↦
              let y : (if c == d then 1 else 0) ≡ 1 = ground arith in
              rw x (
                Counts-add (wait_times d) s.running (some th) (some (f th)) s.thrtab _ ch
                  (s.wait_list d) (ap (λ (z : ℕ). z + 1) (w0 d) ∙ sym y) (v.listed.in_wait d))
          | inr x ↦
              let y : (if c == d then 1 else 0) ≡ 0 = ground arith in
              rw x (
                Counts-keep (wait_times d) s.running (some th) (some (f th)) s.thrtab _ ch
                  (s.wait_list d) (w0 d ∙ sym y) (v.listed.in_wait d))
        ];
      };
      self_runs = λ t.
          changed (λ o. runs o ≡ true → t ≡ s.running) ch t (λ x y. x) (λ x y. m.self_runs t y);
      exists = (f th, ch.after);
      idle = changed CanRun ch idle_tid (λ x. absurd (ne (sym x))) (λ x. v.idle);
    }

-- A thread other than the idle one that waits for a condition leaves every thread where its state says,
-- and another one runs.
pub condition_wait-IsSound :
    (s : Sys) (c : ℕ)
    → IsSound s
    → ¬ (s.running ≡ idle_tid)
    → (s' : Sys) × (condition_wait s c ≡ some s') × IsSound s'
unfolding condition_wait wait_thread
condition_wait-IsSound s c v ne =
    let (th, e, q) = runs-some (s.thrtab s.running) (v.one_self s.running ∙ ==_self s.running) in
    let r =
      running_thread_suspend-IsSound (mark_waiting s c) (mark_waiting-MaySuspend s c th v ne e q) in
    (r.0, ap (wait_thread s c) e ∙ rw q r.1, r.2)
