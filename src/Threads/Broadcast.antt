-- ===== src/Threads/Broadcast.antt =====
-- condition_broadcast of sys/thread.c wakes the threads that wait, in order.
use model_lib.Base.{
  ℕ, ◌+◌, ◌≤◌, ◌≡◌, refl, sym, ap, ◌∙◌, inl, inr, false, Option, none, some, List, [], ◌∷◌, ◌++◌,
  arith, ◌==◌, if◌then◌else◌, Bool-cases, ==→eq, ==→ne,
}
use mathlib.Core.List.{append_assoc, append-nil}
use model_lib.Threads.{
  idle_tid, ThreadState, uninitialized, waiting, self, ready, exited, Thread, Sys, modify,
  insert_ready, wake, wake_all, condition_broadcast,
}
use model_lib.Threads.Sound.{
  count, hit_self, Counts, Counts-add, Counts-drop, Counts-keep, changed, modify-Changes,
  ready_times, wait_times, at_cond, runs, CanRun, Listed, IsSound,
}

-- Threads `l` still to be woken, which wait for condition `c`.
record Waking (s : Sys) (c : ℕ) (l : List ℕ) : Type 0 where
  pub in_ready : Counts ready_times s.ready_list s.thrtab
  pub pending : Counts (wait_times c) l s.thrtab
  pub in_wait : (d : ℕ) → ¬ (d ≡ c) → Counts (wait_times d) (s.wait_list d) s.thrtab

state-waiting :
    (c : ℕ) (th : Thread) (st : ThreadState)
    → th.state ≡ st
    → 1 ≤ wait_times c (some th)
    → (th.state ≡ waiting) × (th.wait_cond ≡ some c)
state-waiting c th waiting e h =
    let a : wait_times c (some th) ≡ at_cond c th.wait_cond = rw e refl in
    (e, at-cond th.wait_cond (omega arith))
  where
    at-cond : (o : Option ℕ) → 1 ≤ at_cond c o → o ≡ some c
    at-cond none k = ground arith
    at-cond (some d) k = ground arith
state-waiting c th uninitialized e h =
    let q : wait_times c (some th) ≡ 0 = rw e refl in ground arith
state-waiting c th self e h = let q : wait_times c (some th) ≡ 0 = rw e refl in ground arith
state-waiting c th ready e h = let q : wait_times c (some th) ≡ 0 = rw e refl in ground arith
state-waiting c th exited e h = let q : wait_times c (some th) ≡ 0 = rw e refl in ground arith

head-waiting :
    (s : Sys) (c t : ℕ) (l : List ℕ)
    → Counts (wait_times c) (t ∷ l) s.thrtab
    → (o : Option Thread) → s.thrtab t ≡ o
    → (th : Thread) × (s.thrtab t ≡ some th) × (th.state ≡ waiting) × (th.wait_cond ≡ some c)
head-waiting s c t l v none e =
    let a : count t (t ∷ l) ≡ 0 = v t ∙ ap (wait_times c) e in ground (arith, hit_self t)
head-waiting s c t l v (some th) e =
    let a : count t (t ∷ l) ≡ wait_times c (some th) = v t ∙ ap (wait_times c) e in
    let (st, wc) = state-waiting c th th.state refl (omega (arith, hit_self t)) in (th, e, st, wc)

waiting-times :
    (c : ℕ) (th : Thread)
    → th.state ≡ waiting
    → th.wait_cond ≡ some c
    → (ready_times (some th) ≡ 0)
      × ((d : ℕ) → wait_times d (some th) ≡ at_cond d (some c))
      × (runs (some th) ≡ false)
waiting-times c th e f = (rw e refl, λ d. rw (e, f) refl, rw e refl)

wake-Waking : (s : Sys) (c t : ℕ) (l : List ℕ) → Waking s c (t ∷ l) → Waking (wake s t) c l
unfolding wake insert_ready modify
wake-Waking s c t l v =
    let (th, e, st, wc) = head-waiting s c t l v.pending (s.thrtab t) refl in
    let (r0, w0, n0) = waiting-times c th st wc in
    let f : Thread → Thread = λ th. record th { state = ready; wait_cond = none } in
    let ch = modify-Changes s t th f e in
    record {
      in_ready =
          Counts-add ready_times t (some th) (some (f th)) s.thrtab _ ch s.ready_list
            (ap (λ (x : ℕ). x + 1) r0) v.in_ready;
      pending =
          Counts-drop (wait_times c) t (some th) (some (f th)) s.thrtab _ ch l
            (w0 c ∙ (let q : at_cond c (some c) ≡ 1 = ground arith in q)) v.pending;
      in_wait = λ d ne.
          Counts-keep (wait_times d) t (some th) (some (f th)) s.thrtab _ ch (s.wait_list d)
            (w0 d ∙ (let q : at_cond d (some c) ≡ 0 = ground arith in q)) (v.in_wait d ne);
    }

abbrev pub IsThread : Option Thread → Type 0
IsThread o = (th : Thread) × (o ≡ some th)

-- What waking leaves alone.
pub record Woken (s s' : Sys) (l : List ℕ) : Type 0 where
  pub order : s'.ready_list ≡ s.ready_list ++ l
  pub lists : s'.wait_list ≡ s.wait_list
  pub running : s'.running ≡ s.running
  pub selves : (t : ℕ) → runs (s'.thrtab t) ≡ runs (s.thrtab t)
  pub idle : CanRun (s.thrtab idle_tid) → CanRun (s'.thrtab idle_tid)
  pub alive : (t : ℕ) → IsThread (s.thrtab t) → IsThread (s'.thrtab t)

wake-Woken : (s : Sys) (c t : ℕ) (l : List ℕ) → Waking s c (t ∷ l) → Woken s (wake s t) (t ∷ [])
unfolding wake insert_ready modify
wake-Woken s c t l v =
    let (th, e, st, wc) = head-waiting s c t l v.pending (s.thrtab t) refl in
    let (r0, w0, n0) = waiting-times c th st wc in
    let f : Thread → Thread = λ th. record th { state = ready; wait_cond = none } in
    let ch = modify-Changes s t th f e in
    record {
      order = refl;
      lists = refl;
      running = refl;
      selves = λ u.
          changed (λ o. runs o ≡ runs (s.thrtab u)) ch u
            (λ x. sym (ap (λ (y : ℕ). runs (s.thrtab y)) x ∙ ap runs e ∙ n0)) (λ x. refl);
      idle = λ i. changed CanRun ch idle_tid (λ x. inl refl) (λ x. i);
      alive = λ u x. changed IsThread ch u (λ y. (f th, refl)) (λ y. x);
    }

wake_all-Woken :
    (s : Sys) (c : ℕ) (l : List ℕ)
    → Waking s c l
    → Waking (wake_all s l) c [] × Woken s (wake_all s l) l
unfolding wake_all
wake_all-Woken s c [] v = (
  v,
  record {
    order = sym (append-nil s.ready_list);
    lists = refl;
    running = refl;
    selves = λ t. refl;
    idle = λ i. i;
    alive = λ t x. x;
  },
)
wake_all-Woken s c (t ∷ l) v =
    let (w, r) = wake_all-Woken (wake s t) c l (wake-Waking s c t l v) in
    let one = wake-Woken s c t l v in
    (
      w,
      record {
        order = r.order ∙ ap (λ x. x ++ l) one.order ∙ append_assoc s.ready_list (t ∷ []) l;
        lists = r.lists ∙ one.lists;
        running = r.running ∙ one.running;
        selves = λ u. r.selves u ∙ one.selves u;
        idle = λ i. r.idle (one.idle i);
        alive = λ u x. r.alive u (one.alive u x);
      },
    )

start :
    (s : Sys) (c : ℕ)
    → Listed s
    → Waking (record s { wait_list = λ e. if e == c then [] else s.wait_list e }) c (s.wait_list c)
start s c v = record {
  in_ready = v.in_ready;
  pending = v.in_wait c;
  in_wait = λ d ne. let q : (d == c) ≡ false = ground arith in rw q (v.in_wait d);
}

pub condition_broadcast-Listed :
    (s : Sys) (c : ℕ)
    → Listed s
    → Listed (condition_broadcast s c)
      × Woken
          (record s { wait_list = λ e. if e == c then [] else s.wait_list e })
          (condition_broadcast s c)
          (s.wait_list c)
unfolding condition_broadcast
condition_broadcast-Listed s c v =
    let s0 = record s { wait_list = λ e. if e == c then [] else s.wait_list e } in
    let (w, r) = wake_all-Woken s0 c (s.wait_list c) (start s c v) in
    (
      record {
        in_ready = w.in_ready;
        in_wait = λ d. elim (Bool-cases (d == c)) [
          | inl q ↦
              let e = ==→eq d c q in
              let z : (wake_all s0 (s.wait_list c)).wait_list d ≡ [] =
                ap (λ (f : ℕ → List ℕ). f d) r.lists ∙ rw q refl in
              λ t.
                ap (count t) z
                ∙ w.pending t
                ∙ ap (λ (x : ℕ). wait_times x ((wake_all s0 (s.wait_list c)).thrtab t)) (sym e)
          | inr q ↦ w.in_wait d (==→ne d c q)
        ];
      },
      r,
    )

-- condition_broadcast puts the threads that wait for the condition behind those that are ready, in the
-- order in which they began to wait, empties the wait list, and leaves every thread where its state
-- says; the running thread and the other conditions stay.
pub condition_broadcast-IsSound :
    (s : Sys) (c : ℕ)
    → IsSound s
    → let s' = condition_broadcast s c in
      IsSound s'
      × (s'.ready_list ≡ s.ready_list ++ s.wait_list c)
      × (s'.wait_list ≡ (λ d. if d == c then [] else s.wait_list d))
      × (s'.running ≡ s.running)
condition_broadcast-IsSound s c v =
    let (l, r) = condition_broadcast-Listed s c v.listed in
    (
      record {
        listed = l;
        one_self = λ t. r.selves t ∙ v.one_self t ∙ ap (λ (x : ℕ). t == x) (sym r.running);
        idle = r.idle v.idle;
      },
      r.order,
      r.lists,
      r.running,
    )
