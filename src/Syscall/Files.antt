-- ===== src/Syscall/Files.antt =====
-- What the system calls do to the counts of the endpoints, call by call.
use model_lib.Base.{
  ℕ, ◌+◌, ◌<◌, ◌≡◌, refl, sym, ap, ◌∙◌, ◌≢◌, inl, inr, false, ◌&&◌, Option, none, some, arith, ltb,
  ◌==◌, Bool-cases, Option-cases, ==→eq, length, set, get_or,
}
use model_lib.Uio.{ℤ, pos, negsuc, u64_mod, Kernel, uio_close, uio_addref, uio_init1, put_uio}
use model_lib.Syscall.{
  process_uiomax, is_null, lookup, uiotab, put_slot, put_entry, sysclose, sysuiodup, dup_slot,
  NewPipe, create_pipe,
}
use model_lib.Syscall.Processes.{
  process_fork, process_exit, addref_all, Forking, spawned, find_process, fork_at, nproc,
}
use model_lib.Syscall.Counts.{
  IsCounted, slots, in_slot, in_table, slots-set, slots-put_entry, uio_close-refcnt,
  uio_close-proctab, uio_addref-refcnt, addref_all-refcnt, addref_all-proctab, close_all-refcnt,
  close_all-proctab,
}

module _ (W : Type 0) where
  pub put_slot-IsCounted :
      (s : Kernel W) (p n b : ℕ)
      → get_or (uiotab W s p) n none ≡ some b
      → IsCounted W s
      → IsCounted W (put_slot W (uio_close W s b) p n none)
  unfolding put_slot in_slot
  put_slot-IsCounted s p n b e v a =
      let h = slots-put_entry s.proctab p n none a in
      let held : in_slot a (get_or (uiotab W s p) n none) ≡ in_slot a (some b) = ap (in_slot a) e in
      let empty : in_slot a none ≡ 0 = refl in
      let x = v a in rw (uio_close-proctab W s b, uio_close-refcnt W s b a) (omega arith)

  pub sysclose-IsCounted :
      (s : Kernel W) (p : ℕ) (fd : ℤ) → IsCounted W s → IsCounted W (sysclose W s p fd).0
  unfolding sysclose lookup
  sysclose-IsCounted s p (negsuc n) v = v
  sysclose-IsCounted s p (pos n) v = elim (Bool-cases (ltb n process_uiomax)) [
    | inr e ↦ rw e v
    | inl e ↦ elim (Option-cases (get_or (uiotab W s p) n none)) [
      | inl z ↦ rw (e, z) v
      | inr (b, z) ↦ rw (e, z) (put_slot-IsCounted s p n b z v)
    ]
  ]

  addref-IsCounted :
      (s : Kernel W) (p n b : ℕ)
      → (s.uios b).refcnt + 1 < u64_mod
      → IsCounted W s
      → IsCounted W (uio_addref W (put_slot W s p n (some b)) b)
  unfolding put_slot uio_addref put_uio
  addref-IsCounted s p n b small v a =
      let h = slots-put_entry s.proctab p n (some b) a in
      let k = uio_addref-refcnt W (put_slot W s p n (some b)) b a small in
      let x = v a in omega arith

  pub sysuiodup-IsCounted :
      (s : Kernel W) (p : ℕ) (oldfd newfd : ℤ)
      → ((b : ℕ) → (s.uios b).refcnt + 1 < u64_mod)
      → IsCounted W s
      → IsCounted W (sysuiodup W s p oldfd newfd).0
  unfolding sysuiodup
  sysuiodup-IsCounted s p oldfd newfd small v = elim (Option-cases (lookup (uiotab W s p) oldfd)) [
    | inl z ↦ rw z v
    | inr (b, z) ↦ rw z (dup newfd b)
  ]
    where
      dup : (newfd : ℤ) (b : ℕ) → IsCounted W (dup_slot W s p newfd (some b)).0
      dup (negsuc n) b = v
      dup (pos n) b =
          elim (Bool-cases (ltb n process_uiomax && is_null (get_or (uiotab W s p) n none))) [
            | inl e ↦ rw e (addref-IsCounted s p n b (small b) v)
            | inr e ↦ rw e v
          ]

  -- The endpoints of a new pipe are two, and in no slot yet.
  pub record IsFresh (s : Kernel W) (new : NewPipe W) : Type 0 where
    pub apart : new.wuio ≢ new.ruio
    pub no_writer : slots new.wuio s.proctab ≡ 0
    pub no_reader : slots new.ruio s.proctab ≡ 0

  pub create_pipe-IsCounted :
      (s : Kernel W) (p w r : ℕ) (new : NewPipe W)
      → IsFresh s new
      → IsCounted W s
      → IsCounted W (create_pipe W s p w r new)
  unfolding create_pipe put_slot uio_init1 put_uio in_slot
  create_pipe-IsCounted s p w r new f v a =
      let h1 = slots-put_entry s.proctab p w (some new.wuio) a in
      let h2 =
        slots-put_entry (set s.proctab p (put_entry (get_or s.proctab p none) w (some new.wuio))) p
          r (some new.ruio) a in
      let x = v a in
      elim (Bool-cases (a == new.wuio)) [
        | inl e ↦
            let q = ==→eq a new.wuio e in
            let z : slots a s.proctab ≡ 0 = ap (λ (b : ℕ). slots b s.proctab) q ∙ f.no_writer in
            let e2 : (a == new.ruio) ≡ false = elim (Bool-cases (a == new.ruio)) [
              | inl y ↦ (let no = f.apart (sym q ∙ ==→eq a new.ruio y) in ground arith)
              | inr y ↦ y
            ] in
            let i1 : in_slot a (some new.wuio) ≡ 1 = rw e refl in
            let i2 : in_slot a (some new.ruio) ≡ 0 = rw e2 refl in rw e (omega arith)
        | inr e ↦
            let i1 : in_slot a (some new.wuio) ≡ 0 = rw e refl in
            elim (Bool-cases (a == new.ruio)) [
              | inl y ↦
                  let z : slots a s.proctab ≡ 0 =
                    ap (λ (b : ℕ). slots b s.proctab) (==→eq a new.ruio y) ∙ f.no_reader in
                  let i2 : in_slot a (some new.ruio) ≡ 1 = rw y refl in rw (e, y) (omega arith)
              | inr y ↦
                  let i2 : in_slot a (some new.ruio) ≡ 0 = rw y refl in rw (e, y) (omega arith)
            ]
      ]

  pub process_exit-IsCounted :
      (leave : W → W) (s : Kernel W) (p : ℕ)
      → IsCounted W s
      → IsCounted W (process_exit W leave s p)
  unfolding process_exit in_table
  process_exit-IsCounted leave s p v a =
      let s1 = record s { proctab = set s.proctab p none } in
      let t = uiotab W s p in
      let h = slots-set a s.proctab p none in
      let k = close_all-refcnt W t s1 a in
      let x = v a in rw (close_all-proctab W t s1) (omega arith)

  spawned-IsCounted :
      (s : Kernel W) (r : W × Option ℕ) → IsCounted W s → IsCounted W (spawned W s r).0
  spawned-IsCounted s (w, none) v = v
  spawned-IsCounted s (w, some tid) v = v

  fork_at-IsCounted :
      (s : Kernel W) (p : ℕ) (how : Forking W) (i : ℕ)
      → ((b : ℕ) → (s.uios b).refcnt + length (uiotab W s p) < u64_mod)
      → IsCounted W s
      → IsCounted W (fork_at W s p how i).0
  unfolding fork_at slots
  fork_at-IsCounted s p how i small v =
      let t = uiotab W s p in
      let s1 = record s { proctab = set s.proctab i (some t); world = how.clone s.world } in
      let s2 = addref_all W s1 t in
      let core : IsCounted W s2 = λ a.
        let h = slots-set a s.proctab i (some t) in
        let k = addref_all-refcnt W t s1 a small in
        let x = v a in rw (addref_all-proctab W t s1) (omega arith) in
      elim (Bool-cases how.has_condition) [
        | inl e ↦ rw e (spawned-IsCounted s2 (how.spawn s2.world) core)
        | inr e ↦ rw e core
      ]

  pub process_fork-IsCounted :
      (s : Kernel W) (p : ℕ) (how : Forking W)
      → ((b : ℕ) → (s.uios b).refcnt + length (uiotab W s p) < u64_mod)
      → IsCounted W s
      → IsCounted W (process_fork W s p how).0
  unfolding process_fork
  process_fork-IsCounted s p how small v = elim (Bool-cases how.has_process) [
    | inr e ↦ rw e v
    | inl e ↦ elim (Option-cases (find_process W s.proctab nproc 0)) [
      | inl z ↦ rw (e, z) v
      | inr (i, z) ↦ rw (e, z) (fork_at-IsCounted s p how i small v)
    ]
  ]
