-- ===== src/Syscall/Counts.antt =====
-- The slots of processes that hold an endpoint, and what uio_close and uio_addref of sys/uio.c do to its
-- count of references, alone and for every entry of a table.
use model_lib.Base.{
  ℕ, zero, suc, ◌+◌, ◌-◌, ◌≤◌, ◌<◌, ◌≡◌, refl, sym, ap, ◌∙◌, inl, inr, Option, none, some, List, [],
  ◌∷◌, arith, ◌==◌, if◌then◌else◌, Bool-cases, ==→eq, length, set, get_or,
}
use model_lib.Uio.{u64_mod, Kernel, uio_close, uio_addref, put_uio}
use model_lib.Syscall.{put_entry, table_of}
use model_lib.Syscall.Processes.{addref_all, close_all}

-- The slots that hold an endpoint.
unfoldable pub in_slot : ℕ → Option ℕ → ℕ
in_slot a none = 0
in_slot a (some b) = if a == b then 1 else 0

in_slot-le-one : (a : ℕ) (o : Option ℕ) → in_slot a o ≤ 1
unfolding in_slot
in_slot-le-one a none = omega arith
in_slot-le-one a (some b) = ground arith

unfoldable pub in_table : ℕ → List (Option ℕ) → ℕ
unfolding in_slot
in_table a [] = 0
in_table a (o ∷ t) = in_slot a o + in_table a t

abbrev pub in_process : ℕ → Option (List (Option ℕ)) → ℕ
unfolding in_table
in_process a o = in_table a (table_of o)

unfoldable pub slots : ℕ → List (Option (List (Option ℕ))) → ℕ
unfolding in_table
slots a [] = 0
slots a (o ∷ l) = in_process a o + slots a l

in_table-set :
    (a : ℕ) (t : List (Option ℕ)) (n : ℕ) (o : Option ℕ)
    → in_table a (set t n o) + in_slot a (get_or t n none) ≤ in_table a t + in_slot a o
unfolding in_table in_slot
in_table-set a [] n o = omega arith
in_table-set a (x ∷ t) zero o = omega arith
in_table-set a (x ∷ t) (suc n) o = let h = in_table-set a t n o in omega arith

pub slots-set :
    (a : ℕ) (l : List (Option (List (Option ℕ)))) (p : ℕ) (o : Option (List (Option ℕ)))
    → slots a (set l p o) + in_process a (get_or l p none) ≤ slots a l + in_process a o
unfolding slots in_table in_slot
slots-set a [] p o = omega arith
slots-set a (x ∷ l) zero o = omega arith
slots-set a (x ∷ l) (suc p) o = let h = slots-set a l p o in omega arith

in_process-put_entry :
    (a : ℕ) (e : Option (List (Option ℕ))) (n : ℕ) (o : Option ℕ)
    → in_process a (put_entry e n o) + in_slot a (get_or (table_of e) n none)
      ≤ in_process a e + in_slot a o
unfolding in_table in_slot
in_process-put_entry a none n o = omega arith
in_process-put_entry a (some t) n o = in_table-set a t n o

pub slots-put_entry :
    (procs : List (Option (List (Option ℕ)))) (p n : ℕ) (o : Option ℕ) (a : ℕ)
    → slots a (set procs p (put_entry (get_or procs p none) n o))
        + in_slot a (get_or (table_of (get_or procs p none)) n none)
      ≤ slots a procs + in_slot a o
slots-put_entry procs p n o a =
    let e = get_or procs p none in
    let h = slots-set a procs p (put_entry e n o) in
    let k = in_process-put_entry a e n o in omega arith

module _ (W : Type 0) where
  -- Every slot that holds an endpoint is counted.
  abbrev pub IsCounted : Kernel W → Type 0
  IsCounted s = (a : ℕ) → slots a s.proctab ≤ (s.uios a).refcnt

  -- What a close and a new reference do to the count of each endpoint, and to the tables.
  pub uio_close-refcnt :
      (s : Kernel W) (b a : ℕ)
      → ((uio_close W s b).uios a).refcnt ≡ (s.uios a).refcnt - in_slot a (some b)
  unfolding uio_close put_uio in_slot
  uio_close-refcnt s b a = elim (Bool-cases (a == b)) [
    | inl e ↦
        let q = ==→eq a b e in
        let r : (s.uios b).refcnt ≡ (s.uios a).refcnt = ap (λ (x : ℕ). (s.uios x).refcnt) (sym q) in
        elim (Bool-cases ((s.uios b).refcnt - 1 == 0)) [
          | inl z ↦ rw (z, e) (omega arith)
          | inr z ↦ rw (z, e) (omega arith)
        ]
    | inr e ↦ elim (Bool-cases ((s.uios b).refcnt - 1 == 0)) [
      | inl z ↦ rw (z, e) (omega arith)
      | inr z ↦ rw (z, e) (omega arith)
    ]
  ]

  pub uio_close-proctab : (s : Kernel W) (b : ℕ) → (uio_close W s b).proctab ≡ s.proctab
  unfolding uio_close put_uio
  uio_close-proctab s b = elim (Bool-cases ((s.uios b).refcnt - 1 == 0)) [
    | inl z ↦ rw z refl
    | inr z ↦ rw z refl
  ]

  pub uio_addref-refcnt :
      (s : Kernel W) (b a : ℕ)
      → (s.uios b).refcnt + 1 < u64_mod
      → ((uio_addref W s b).uios a).refcnt ≡ (s.uios a).refcnt + in_slot a (some b)
  unfolding uio_addref put_uio in_slot
  uio_addref-refcnt s b a small = elim (Bool-cases (a == b)) [
    | inl e ↦
        let q = ==→eq a b e in
        let r : (s.uios b).refcnt ≡ (s.uios a).refcnt = ap (λ (x : ℕ). (s.uios x).refcnt) (sym q) in
        rw e (omega arith)
    | inr e ↦ rw e (omega arith)
  ]

  pub addref_all-proctab :
      (t : List (Option ℕ)) (s : Kernel W) → (addref_all W s t).proctab ≡ s.proctab
  unfolding addref_all uio_addref put_uio
  addref_all-proctab [] s = refl
  addref_all-proctab (none ∷ t) s = addref_all-proctab t s
  addref_all-proctab (some b ∷ t) s = addref_all-proctab t (uio_addref W s b)

  -- The copy of a table counts its endpoints, and the end of a process takes that back at most.
  pub addref_all-refcnt :
      (t : List (Option ℕ)) (s : Kernel W) (a : ℕ)
      → ((b : ℕ) → (s.uios b).refcnt + length t < u64_mod)
      → ((addref_all W s t).uios a).refcnt ≡ (s.uios a).refcnt + in_table a t
  unfolding addref_all in_table in_slot
  addref_all-refcnt [] s a small = omega arith
  addref_all-refcnt (none ∷ t) s a small =
      let h = addref_all-refcnt t s a (λ b. let x = small b in omega arith) in omega arith
  addref_all-refcnt (some b ∷ t) s a small =
      let one = λ (c : ℕ). uio_addref-refcnt s b c (let h = small b in omega arith) in
      let h = addref_all-refcnt t (uio_addref W s b) a (λ c.
        let x = one c in let y = small c in let z = in_slot-le-one c (some b) in omega arith) in
      let x = one a in omega arith

  pub close_all-proctab :
      (t : List (Option ℕ)) (s : Kernel W) → (close_all W s t).proctab ≡ s.proctab
  unfolding close_all
  close_all-proctab [] s = refl
  close_all-proctab (none ∷ t) s = close_all-proctab t s
  close_all-proctab (some b ∷ t) s = close_all-proctab t (uio_close W s b) ∙ uio_close-proctab s b

  pub close_all-refcnt :
      (t : List (Option ℕ)) (s : Kernel W) (a : ℕ)
      → (s.uios a).refcnt ≤ ((close_all W s t).uios a).refcnt + in_table a t
  unfolding close_all in_table in_slot
  close_all-refcnt [] s a = omega arith
  close_all-refcnt (none ∷ t) s a = let h = close_all-refcnt t s a in omega arith
  close_all-refcnt (some b ∷ t) s a =
      let h = close_all-refcnt t (uio_close W s b) a in
      let x = uio_close-refcnt s b a in omega arith
