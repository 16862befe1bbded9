-- ===== src/Threads/Steps.antt =====
-- What the threads of sys/thread.c do, step by step, leaves every thread where its state says.
use model_lib.Base.{
  ℕ, zero, suc, ◌+◌, ◌≤◌, ◌<◌, ◌≡◌, refl, sym, ap, ◌∙◌, subst, inl, inr, false, Option, none, some,
  [], ◌∷◌, ◌++◌, arith, ◌==◌, Bool-cases, ==→eq, ==→ne, ==_self,
}
use model_lib.Threads.{idle_tid, ready, Thread, Sys, modify, insert_ready}
use model_lib.Threads.Sound.{
  Counts-add, Counts-keep, Changes, changed, modify-Changes, ready_times, wait_times, runs, CanRun,
  IsSound,
}
use model_lib.Threads.Broadcast.{IsThread}
use model_lib.Threads.Life.{
  find_slot, new_thread, set_slot, create_thread, make_ready, spawn_thread,
}

pub set_slot-Changes :
    (s : Sys) (t : ℕ) (o : Option Thread)
    → Changes t (s.thrtab t) o s.thrtab (set_slot s t o).thrtab
unfolding set_slot
set_slot-Changes s t o = record {
  before = refl;
  after = rw (==_self t) refl;
  others = λ u ne. let q : (u == t) ≡ false = ground arith in rw q refl;
}

-- The slot that a search from `tid` on finds, among `left`: the first free one.
pub record FirstFree (tab : ℕ → Option Thread) (left tid t : ℕ) : Type 0 where
  pub free : tab t ≡ none
  pub from : tid ≤ t
  pub within : t < tid + left
  pub taken : (u : ℕ) → tid ≤ u → u < t → IsThread (tab u)

find_slot-FirstFree :
    (tab : ℕ → Option Thread) (left tid t : ℕ)
    → find_slot tab left tid ≡ some t
    → FirstFree tab left tid t
unfolding find_slot
find_slot-FirstFree tab zero tid t e = ground arith
find_slot-FirstFree tab (suc left) tid t e =
    at (tab tid) refl e (λ k. find_slot-FirstFree tab left (tid + 1) t k)
  where
    at :
        (o : Option Thread)
        → tab tid ≡ o
        → (elim o as (λ x. Option ℕ) [ none ↦ some tid | some th ↦ find_slot tab left (tid + 1) ])
          ≡ some t
        → (find_slot tab left (tid + 1) ≡ some t → FirstFree tab left (tid + 1) t)
        → FirstFree tab (suc left) tid t
    at none f k next =
        let q : tid ≡ t = ground arith in
        record {
          free = ap tab (sym q) ∙ f;
          from = omega arith;
          within = omega arith;
          taken = λ u a b. ground arith;
        }
    at (some th) f k next =
        let r = next k in
        let a = r.from in
        let b = r.within in
        record {
          free = r.free;
          from = omega arith;
          within = omega arith;
          taken = λ u x y. elim (Bool-cases (u == tid)) [
            | inl q ↦ (th, ap tab (==→eq u tid q) ∙ f)
            | inr q ↦ r.taken u (let ne = ==→ne u tid q in omega arith) y
          ];
        }

-- What spawn_thread does: it takes the first free slot behind that of the main thread, and puts its
-- thread behind those that are ready.
pub record Spawned (s : Sys) (page : ℕ) (r : Sys × Option ℕ) : Type 0 where
  pub sound : IsSound r.0
  pub full : r.1 ≡ none → r.0 ≡ s
  pub slot :
      (tid : ℕ)
      → r.1 ≡ some tid
      → FirstFree s.thrtab 31 1 tid × (r.0.ready_list ≡ s.ready_list ++ (tid ∷ []))

spawned :
    (s : Sys) (page tid : ℕ)
    → IsSound s
    → s.thrtab tid ≡ none
    → IsSound (make_ready (set_slot s tid (some (new_thread s page)), some tid)).0
unfolding make_ready modify insert_ready set_slot
spawned s page tid v e =
    let th = new_thread s page in
    let f : Thread → Thread = λ th. record th { state = ready } in
    let s1 = set_slot s tid (some th) in
    let c0 = set_slot-Changes s tid (some th) in
    let ch : Changes tid none (some (f th)) s.thrtab (modify s1 tid f).thrtab =
      let c1 = modify-Changes s1 tid th f c0.after in
      record { before = e; after = c1.after; others = λ u ne. c1.others u ne ∙ c0.others u ne } in
    record {
      listed = record {
        in_ready =
            Counts-add ready_times tid none (some (f th)) s.thrtab _ ch s.ready_list refl
              v.listed.in_ready;
        in_wait = λ d.
            Counts-keep (wait_times d) tid none (some (f th)) s.thrtab _ ch (s.wait_list d) refl
              (v.listed.in_wait d);
      };
      one_self = λ t.
          changed (λ o. runs o ≡ (t == s.running)) ch t
            (λ x. ap runs (sym e) ∙ v.one_self tid ∙ ap (λ (y : ℕ). y == s.running) (sym x))
            (λ x. v.one_self t);
      idle = changed CanRun ch idle_tid (λ x. inl refl) (λ x. v.idle);
    }

spawn-at :
    (s : Sys) (page : ℕ) (o : Option ℕ)
    → find_slot s.thrtab 31 1 ≡ o
    → IsSound s
    → Spawned s page (
        make_ready (elim o as (λ x. Sys × Option ℕ) [
          | none ↦ (s, none)
          | some tid ↦ (set_slot s tid (some (new_thread s page)), some tid)
        ]))
unfolding make_ready insert_ready modify set_slot
spawn-at s page none e v = record { sound = v; full = λ h. refl; slot = λ t h. ground arith }
spawn-at s page (some tid) e v =
    let r = find_slot-FirstFree s.thrtab 31 1 tid e in
    record {
      sound = spawned s page tid v r.free;
      full = λ h. ground arith;
      slot = λ t h.
          let q : tid ≡ t = ground arith in
          subst
            (λ x.
              FirstFree s.thrtab 31 1 x × (s.ready_list ++ (tid ∷ []) ≡ s.ready_list ++ (x ∷ [])))
            q (r, refl);
    }

-- spawn_thread leaves every thread where its state says. Without a free slot it changes nothing; else
-- it takes the first free slot behind that of the main thread, and its thread goes behind those that
-- are ready.
pub spawn_thread-Spawned : (s : Sys) (page : ℕ) → IsSound s → Spawned s page (spawn_thread s page)
unfolding spawn_thread create_thread
spawn_thread-Spawned s page v = spawn-at s page (find_slot s.thrtab 31 1) refl v
