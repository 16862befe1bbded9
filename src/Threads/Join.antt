-- ===== src/Threads/Join.antt =====
-- thread_join of sys/thread.c.
use model_lib.Base.{
  ℕ, zero, suc, ◌+◌, ◌≡◌, refl, sym, ap, ◌∙◌, subst, inl, inr, Bool, true, false, not, ◌&&◌, ◌||◌,
  Option, none, some, arith, ltb, leb, ◌==◌, if◌then◌else◌, Bool-cases,
}
use model_lib.Threads.{
  idle_tid, nthr, ThreadState, uninitialized, waiting, self, ready, exited, Thread, Sys, is_exited,
  condition_wait,
}
use model_lib.Threads.Sound.{
  count, Counts-keep, changed, ready_times, wait_times, runs, CanRun, IsSound,
}
use model_lib.Threads.Suspend.{condition_wait-IsSound}
use model_lib.Threads.Locks.{is_owner}
use model_lib.Threads.Life.{
  set_slot, parent_of, Join, einval, joined, waits, panics, waited, inherit, thread_reclaim,
  is_child, has_exited, find_thread, join_any, thread_join,
}
use model_lib.Threads.Steps.{set_slot-Changes}

module _ (child_exit release : ℕ → ℕ) where
  heir : ℕ → Option ℕ → Option Thread → Option Thread
  heir tid p o = inherit child_exit release tid p o

  -- The parent of a thread does not say where the thread is.
  inherit-keeps {ℓ} :
      (P : Option Thread → Type ℓ)
      → ((th : Thread) (p : Option ℕ) → P (some th) → P (some (record th { parent = p })))
      → (tid : ℕ) (p : Option ℕ) (o : Option Thread) → P o
      → P (heir tid p o)
  unfolding heir
  inherit-keeps P k tid p none h = h
  inherit-keeps P k tid p (some th) h = elim (Bool-cases (is_owner tid th.parent)) [
    | inl e ↦ rw e (k th p h)
    | inr e ↦ rw e h
  ]

  -- The table after the children of a thread were given to its parent.
  adopted : Sys → ℕ → ℕ → Option Thread
  adopted s tid u =
      if leb 1 u && ltb u nthr then heir tid (parent_of (s.thrtab tid)) (s.thrtab u) else s.thrtab u

  adopted-keeps {ℓ} :
      (P : Option Thread → Type ℓ)
      → ((th : Thread) (p : Option ℕ) → P (some th) → P (some (record th { parent = p })))
      → (s : Sys) (tid u : ℕ) → P (s.thrtab u)
      → P (adopted s tid u)
  unfolding adopted
  adopted-keeps P k s tid u h = elim (Bool-cases (leb 1 u && ltb u nthr)) [
    | inl e ↦ rw e (inherit-keeps P k tid (parent_of (s.thrtab tid)) (s.thrtab u) h)
    | inr e ↦ rw e h
  ]

  exited-times :
      (o : Option Thread)
      → has_exited child_exit release o ≡ true
      → (ready_times o ≡ 0) × ((c : ℕ) → wait_times c o ≡ 0) × (runs o ≡ false) × ¬ CanRun o
  exited-times none h = ground arith
  exited-times (some th) h = at th.state refl h
    where
      at :
          (st : ThreadState)
          → th.state ≡ st
          → is_exited st ≡ true
          → (ready_times (some th) ≡ 0)
            × ((c : ℕ) → wait_times c (some th) ≡ 0)
            × (runs (some th) ≡ false)
            × ¬ CanRun (some th)
      at exited e k =
          let a : ready_times (some th) ≡ 0 = rw e refl in
          let b : runs (some th) ≡ false = rw e refl in
          (a, λ c. rw e refl, b, λ x. elim x [ inl y ↦ ground arith | inr y ↦ ground arith ])
      at uninitialized e k = ground arith
      at waiting e k = ground arith
      at self e k = ground arith
      at ready e k = ground arith

  thread_reclaim-IsSound :
      (s : Sys) (tid : ℕ)
      → IsSound s
      → has_exited child_exit release (s.thrtab tid) ≡ true
      → IsSound (thread_reclaim child_exit release s tid)
  unfolding thread_reclaim set_slot adopted heir
  thread_reclaim-IsSound s tid v h =
      let s1 = record s { thrtab = adopted s tid } in
      let gone : has_exited child_exit release (adopted s tid tid) ≡ true =
        adopted-keeps (λ o. has_exited child_exit release o ≡ true) (λ th p x. x) s tid tid h in
      let (r0, w0, n0, i0) = exited-times (adopted s tid tid) gone in
      let ch = set_slot-Changes s1 tid none in
      record {
        listed = record {
          in_ready =
              Counts-keep ready_times tid (adopted s tid tid) none (adopted s tid) _ ch s.ready_list
                r0
                (λ u.
                  adopted-keeps (λ o. count u s.ready_list ≡ ready_times o) (λ th p x. x) s tid u
                    (v.listed.in_ready u));
          in_wait = λ d.
              Counts-keep (wait_times d) tid (adopted s tid tid) none (adopted s tid) _ ch
                (s.wait_list d) (w0 d)
                (λ u.
                  adopted-keeps (λ o. count u (s.wait_list d) ≡ wait_times d o) (λ th p x. x) s tid
                    u (v.listed.in_wait d u));
        };
        one_self = λ u.
            changed (λ o. runs o ≡ (u == s.running)) ch u
              (λ x.
                sym n0
                ∙ adopted-keeps (λ o. runs o ≡ (tid == s.running)) (λ th p y. y) s tid tid
                    (v.one_self tid)
                ∙ ap (λ (y : ℕ). y == s.running) (sym x))
              (λ x.
                adopted-keeps (λ o. runs o ≡ (u == s.running)) (λ th p y. y) s tid u
                  (v.one_self u));
        idle =
            changed CanRun ch idle_tid
              (λ x. absurd (
                i0 (
                  subst (λ y. CanRun (adopted s tid y)) x
                    (adopted-keeps CanRun (λ th p y. y) s tid idle_tid v.idle))))
              (λ x. adopted-keeps CanRun (λ th p y. y) s tid idle_tid v.idle);
      }

  -- What a round of thread_join may come to.
  unfoldable pub Joins : Sys → Join → Type 0
  Joins s einval = Unit
  Joins s (joined i s') =
      (is_child child_exit release s.running (s.thrtab i) ≡ true)
      × (has_exited child_exit release (s.thrtab i) ≡ true)
      × IsSound s'
  Joins s (waits s') = IsSound s'
  Joins s panics = ⊥

  find_thread-passes :
      (p : ℕ → Bool) (left i t : ℕ) → find_thread child_exit release p left i ≡ some t → p t ≡ true
  unfolding find_thread
  find_thread-passes p zero i t e = ground arith
  find_thread-passes p (suc left) i t e = elim (Bool-cases (p i)) [
    | inl q ↦
        let k : some i ≡ some t =
          let a : (if p i then some i else find_thread child_exit release p left (i + 1)) ≡ some i =
            rw q refl in
          sym a ∙ e in
        let j : i ≡ t = ground arith in ap p (sym j) ∙ q
    | inr q ↦
        let a : (if p i then some i else find_thread child_exit release p left (i + 1))
            ≡ find_thread child_exit release p left (i + 1) =
          rw q refl in
        find_thread-passes p left (i + 1) t (sym a ∙ e)
  ]

  waited-Joins :
      (s : Sys) (c : ℕ)
      → IsSound s
      → ¬ (s.running ≡ idle_tid)
      → Joins s (waited (condition_wait s c))
  unfolding Joins
  waited-Joins s c v ne =
      let r = condition_wait-IsSound s c v ne in subst (λ o. Joins s (waited o)) (sym r.1) r.2

  join_any-Joins :
      (s : Sys) (o o' : Option ℕ)
      → IsSound s
      → ¬ (s.running ≡ idle_tid)
      → ((i : ℕ) → o' ≡ some i → Joins s (joined i (thread_reclaim child_exit release s i)))
      → Joins s (join_any child_exit release s o o')
  unfolding Joins
  join_any-Joins s none o' v ne k = tt
  join_any-Joins s (some c) none v ne k = waited-Joins s (child_exit s.running) v ne
  join_any-Joins s (some c) (some i) v ne k = k i refl

  both : (a b : Bool) → (a && b) ≡ true → (a ≡ true) × (b ≡ true)
  both true b h = (refl, h)
  both false b h = ground arith

  child : (a b : Bool) → (a || not b) ≡ false → b ≡ true
  child true b h = ground arith
  child false true h = refl
  child false false h = ground arith

  pub thread_join-Joins :
      (s : Sys) (tid : ℕ)
      → IsSound s
      → ¬ (s.running ≡ idle_tid)
      → Joins s (thread_join child_exit release s tid)
  unfolding thread_join Joins
  thread_join-Joins s tid v ne = elim (Bool-cases (tid == 0)) [
    | inl e ↦ rw e (
        join_any-Joins s _ _ v ne (λ i q.
          let p : (is_child child_exit release s.running (s.thrtab i)
                && has_exited child_exit release (s.thrtab i))
              ≡ true =
            find_thread-passes
              (λ j.
                is_child child_exit release s.running (s.thrtab j)
                && has_exited child_exit release (s.thrtab j))
              31 0 i q in
          let (a, b) = both _ _ p in (a, b, thread_reclaim-IsSound s i v b)))
    | inr e ↦
        elim (Bool-cases
          (leb nthr tid || not (is_child child_exit release s.running (s.thrtab tid)))) [
            | inl f ↦ rw (e, f) tt
            | inr f ↦ elim (Bool-cases (has_exited child_exit release (s.thrtab tid))) [
              | inl g ↦ rw (e, f, g) (child _ _ f, g, thread_reclaim-IsSound s tid v g)
              | inr g ↦ rw (e, f, g) (waited-Joins s (child_exit s.running) v ne)
            ]
          ]
  ]
