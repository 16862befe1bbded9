-- ===== src/Threads/Sound.antt =====
-- Every thread of sys/thread.c is where its state says: running, once in the ready list, once in the
-- wait list of one condition, or in none.
use model_lib.Base.{
  ℕ, ◌+◌, ◌≤◌, ◌≡◌, refl, sym, ap, ◌∙◌, subst, ◌⊎◌, inl, inr, Bool, true, false, Option, none, some,
  List, [], ◌∷◌, ◌++◌, arith, ◌==◌, if◌then◌else◌, Bool-cases, ==→eq, ==→ne, ==_self,
}
use model_lib.Threads.{
  idle_tid, ThreadState, uninitialized, waiting, self, ready, exited, Thread, Sys, modify, is_self,
}

abbrev pub hit : ℕ → ℕ → ℕ
hit u t = if u == t then 1 else 0

pub hit_self : (t : ℕ) → hit t t ≡ 1
hit_self t = ground arith

hit-other : (t u : ℕ) → ¬ (u ≡ t) → hit t u ≡ 0
hit-other t u e = ground arith

abbrev pub count : ℕ → List ℕ → ℕ
count t [] = 0
count t (u ∷ l) = hit u t + count t l

pub count-append : (t : ℕ) (l l' : List ℕ) → count t (l ++ l') ≡ count t l + count t l'
count-append t [] l' = omega arith
count-append t (u ∷ l) l' = omega (arith, count-append t l l')

-- How often a thread is to stand in the ready list and in the wait list of a condition.
abbrev pub ready_times : Option Thread → ℕ
ready_times none = 0
ready_times (some th) = elim th.state [ ready ↦ 1 | _ ↦ 0 ]

abbrev pub at_cond : ℕ → Option ℕ → ℕ
at_cond c none = 0
at_cond c (some e) = if e == c then 1 else 0

abbrev pub wait_times : ℕ → Option Thread → ℕ
wait_times c none = 0
wait_times c (some th) = elim th.state [ waiting ↦ at_cond c th.wait_cond | _ ↦ 0 ]

abbrev pub runs : Option Thread → Bool
runs none = false
runs (some th) = is_self th.state

-- A list holds each thread as often as a measure of the thread says.
abbrev pub Counts : (Option Thread → ℕ) → List ℕ → (ℕ → Option Thread) → Type 0
Counts m l tab = (t : ℕ) → count t l ≡ m (tab t)

-- One thread of a table changes.
pub record Changes (t : ℕ) (o o' : Option Thread) (tab tab' : ℕ → Option Thread) : Type 0 where
  pub before : tab t ≡ o
  pub after : tab' t ≡ o'
  pub others : (u : ℕ) → ¬ (u ≡ t) → tab' u ≡ tab u

count-one : (t u : ℕ) (l : List ℕ) → count t (l ++ (u ∷ [])) ≡ count t l + hit u t
count-one t u l = count-append t l (u ∷ []) ∙ omega arith

module _ (m : Option Thread → ℕ) (t : ℕ) (o o' : Option Thread) (tab tab' : ℕ → Option Thread)
    (ch : Changes t o o' tab tab') where
  -- At the thread that changes, and at any other.
  split :
      (l l' : List ℕ)
      → count t l' ≡ m o'
      → ((u : ℕ) → ¬ (u ≡ t) → count u l' ≡ count u l)
      → Counts m l tab
      → Counts m l' tab'
  split l l' here there v u = elim (Bool-cases (u == t)) [
    | inl q ↦
        let e = ==→eq u t q in
        ap (λ (x : ℕ). count x l') e ∙ here ∙ sym (ap (λ (x : ℕ). m (tab' x)) e ∙ ap m ch.after)
    | inr q ↦ let e = ==→ne u t q in there u e ∙ v u ∙ ap m (sym (ch.others u e))
  ]

  pub Counts-add : (l : List ℕ) → m o + 1 ≡ m o' → Counts m l tab → Counts m (l ++ (t ∷ [])) tab'
  Counts-add l e v =
      let a : count t l ≡ m o = v t ∙ ap m ch.before in
      split l (l ++ (t ∷ []))
        (count-one t t l ∙ ap (λ (x : ℕ). count t l + x) (hit_self t) ∙ omega arith)
        (λ u ne. count-one u t l ∙ ap (λ (x : ℕ). count u l + x) (hit-other t u ne) ∙ omega arith) v

  pub Counts-drop : (l : List ℕ) → m o ≡ m o' + 1 → Counts m (t ∷ l) tab → Counts m l tab'
  Counts-drop l e v =
      let a : count t (t ∷ l) ≡ m o = v t ∙ ap m ch.before in
      split (t ∷ l) l (omega (arith, hit_self t)) (λ u ne. omega (arith, hit-other t u ne)) v

  pub Counts-keep : (l : List ℕ) → m o ≡ m o' → Counts m l tab → Counts m l tab'
  Counts-keep l e v = split l l (v t ∙ ap m ch.before ∙ e) (λ u ne. refl) v

-- What holds of a thread of the changed table.
pub changed {ℓ} :
    {t : ℕ} {o o' : Option Thread} {tab tab' : ℕ → Option Thread} (P : Option Thread → Type ℓ)
    → Changes t o o' tab tab'
    → (u : ℕ) → (u ≡ t → P o')
    → (¬ (u ≡ t) → P (tab u))
    → P (tab' u)
changed {t} {tab'} P ch u at away = elim (Bool-cases (u == t)) [
  | inl q ↦ let e = ==→eq u t q in subst P (sym (ap tab' e ∙ ch.after)) (at e)
  | inr q ↦ let e = ==→ne u t q in subst P (sym (ch.others u e)) (away e)
]

pub modify-Changes :
    (s : Sys) (t : ℕ) (th : Thread) (f : Thread → Thread)
    → s.thrtab t ≡ some th
    → Changes t (some th) (some (f th)) s.thrtab (modify s t f).thrtab
unfolding modify
modify-Changes s t th f e = record {
  before = e;
  after = rw (==_self t, e) refl;
  others = λ u ne. let q : (u == t) ≡ false = ground arith in rw q refl;
}

-- The lists are as the states say.
pub record Listed (s : Sys) : Type 0 where
  pub in_ready : Counts ready_times s.ready_list s.thrtab
  pub in_wait : (c : ℕ) → Counts (wait_times c) (s.wait_list c) s.thrtab

-- The idle thread is ready to run, or runs.
abbrev pub CanRun : Option Thread → Type 0
CanRun o = (ready_times o ≡ 1) ⊎ (runs o ≡ true)

-- No thread but the running one has the state SELF, which it may have left.
pub record MaySuspend (s : Sys) : Type 0 where
  pub listed : Listed s
  pub self_runs : (t : ℕ) → runs (s.thrtab t) ≡ true → t ≡ s.running
  pub exists : (th : Thread) × (s.thrtab s.running ≡ some th)
  pub idle : CanRun (s.thrtab idle_tid)

-- Just the running thread has the state SELF, and the lists are as the states say.
pub record IsSound (s : Sys) : Type 0 where
  pub listed : Listed s
  pub one_self : (t : ℕ) → runs (s.thrtab t) ≡ (t == s.running)
  pub idle : CanRun (s.thrtab idle_tid)

pub runs-some :
    (o : Option Thread) → runs o ≡ true → (th : Thread) × (o ≡ some th) × (is_self th.state ≡ true)
runs-some none h = ground arith
runs-some (some th) h = (th, refl, h)

pub IsSound-MaySuspend : (s : Sys) → IsSound s → MaySuspend s
IsSound-MaySuspend s v =
    let r = runs-some (s.thrtab s.running) (v.one_self s.running ∙ ==_self s.running) in
    record {
      listed = v.listed;
      self_runs = λ t h. ==→eq t s.running (sym (v.one_self t) ∙ h);
      exists = (r.0, r.1);
      idle = v.idle;
    }

state-self : (st : ThreadState) → is_self st ≡ true → st ≡ self
state-self self h = refl
state-self uninitialized h = ground arith
state-self waiting h = ground arith
state-self ready h = ground arith
state-self exited h = ground arith

-- A running thread is in no list.
pub self-times :
    (th : Thread)
    → is_self th.state ≡ true
    → (ready_times (some th) ≡ 0) × ((c : ℕ) → wait_times c (some th) ≡ 0)
self-times th h = let e = state-self th.state h in (rw e refl, λ c. rw e refl)

state-ready :
    (th : Thread) (st : ThreadState) → th.state ≡ st → 1 ≤ ready_times (some th) → th.state ≡ ready
state-ready th ready e h = e
state-ready th uninitialized e h = let q : ready_times (some th) ≡ 0 = rw e refl in ground arith
state-ready th waiting e h = let q : ready_times (some th) ≡ 0 = rw e refl in ground arith
state-ready th self e h = let q : ready_times (some th) ≡ 0 = rw e refl in ground arith
state-ready th exited e h = let q : ready_times (some th) ≡ 0 = rw e refl in ground arith

-- The thread at the head of a sound ready list.
pub head-ready :
    (s : Sys) (n : ℕ) (rest : List ℕ)
    → Counts ready_times (n ∷ rest) s.thrtab
    → (o : Option Thread) → s.thrtab n ≡ o
    → (th : Thread) × (s.thrtab n ≡ some th) × (th.state ≡ ready)
head-ready s n rest v none e =
    let a : count n (n ∷ rest) ≡ 0 = v n ∙ ap ready_times e in ground (arith, hit_self n)
head-ready s n rest v (some th) e =
    let a : count n (n ∷ rest) ≡ ready_times (some th) = v n ∙ ap ready_times e in
    (th, e, state-ready th th.state refl (omega (arith, hit_self n)))
