-- ===== src/Syscall/Faults.antt =====
-- syspipe of sys/syscall.c with one descriptor that is asked for, and sysopen of a path without a mount
-- point.
use model_lib.Base.{
  ℕ, zero, suc, ◌+◌, ◌-◌, ◌<◌, ◌≡◌, refl, ap, ◌∙◌, ◌⊎◌, inl, inr, Bool, true, false, not, ◌&&◌,
  Option, none, some, List, [], ◌∷◌, arith, ltb, ◌==◌, if◌then◌else◌, Bool-cases, lt→ltb, ==→eq,
  set, get_or,
}
use model_lib.Mounts.{get_fs, open_file, parse_path}
use model_lib.Paging.{PageSource, Mem, umem_start_vma, umem_end_vma}
use model_lib.Paging.Check.{TextCheck, answers, valid, einval, validate_vstr}
use model_lib.Uio.{ℤ, pos, negsuc, einval, returns, Kernel}
use model_lib.Syscall.{
  is_int, is_null, process_uiomax, is_null, is_int, uiotab, put_slot, put_entry, syspipe, NewPipe,
  create_pipe, scan, find_free,
}
use model_lib.Syscall.Calls.{
  closes_null, Files, sysopen, open_fd, text_at, ru, checked, open_path, open_parts,
}
use model_lib.Syscall.Counts.{slots, in_slot, slots-put_entry}
use model_lib.Syscall.Files.{IsFresh}

set-set : {A : Type 0} (l : List A) (i : ℕ) (x y : A) → set (set l i x) i y ≡ set l i y
set-set [] i x y = refl
set-set (a ∷ l) zero x y = refl
set-set (a ∷ l) (suc i) x y = ap (λ r. a ∷ r) (set-set l i x y)

put_entry-put_entry :
    (e : Option (List (Option ℕ))) (n : ℕ) (x y : Option ℕ)
    → put_entry (put_entry e n x) n y ≡ put_entry e n y
put_entry-put_entry none n x y = refl
put_entry-put_entry (some t) n x y = ap some (set-set t n x y)

-- The second of two writes to a slot is the one that counts.
put_twice :
    (procs : List (Option (List (Option ℕ)))) (p n : ℕ) (x y : Option ℕ)
    → let one = set procs p (put_entry (get_or procs p none) n x) in
      set one p (put_entry (get_or one p none) n y)
      ≡ set procs p (put_entry (get_or procs p none) n y)
put_twice [] p n x y = refl
put_twice (e ∷ procs) zero n x y = ap (λ r. r ∷ procs) (put_entry-put_entry e n x y)
put_twice (e ∷ procs) (suc p) n x y = ap (λ r. e ∷ r) (put_twice procs p n x y)

picks :
    (c d : Bool) {i n : ℕ} (rest : Option ℕ)
    → (if not c && d then some i else rest) ≡ some n
    → ((n ≡ i) × (d ≡ true)) ⊎ (rest ≡ some n)
picks true d rest e = inr e
picks false true rest e = inl (ground arith, refl)
picks false false rest e = inr e

-- A scan finds a descriptor that is not in use.
find_free-is_null :
    (t : List (Option ℕ)) (skip : ℤ) (left i n : ℕ)
    → find_free t skip left i ≡ some n
    → (n < i + left) × (is_null (get_or t n none) ≡ true)
unfolding find_free
find_free-is_null t skip zero i n e = ground arith
find_free-is_null t skip (suc left) i n e =
    elim (picks (is_int skip i) (is_null (get_or t i none)) (find_free t skip left (i + 1)) e) [
      | inl (q, free) ↦ (omega arith, ap (λ (j : ℕ). is_null (get_or t j none)) q ∙ free)
      | inr h ↦ (let (lt, free) = find_free-is_null t skip left (i + 1) n h in (omega arith, free))
    ]

module _ (W : Type 0) where
  -- Where syspipe is asked for any descriptor for the write end and for the descriptor n for the read
  -- end, and n is the first one that is not in use, it reports success, and the new write end is in no
  -- slot of any process.
  pub syspipe_loses_writer :
      (s : Kernel W) (p k n : ℕ) (new : NewPipe W)
      → IsFresh W s new
      → scan (uiotab W s p) (negsuc 0) ≡ some n
      → let (s', w, r, reply) = syspipe W s p (negsuc k) (pos n) new in
        (reply ≡ returns 0) × (slots new.wuio s'.proctab ≡ 0)
  unfolding syspipe create_pipe put_slot in_slot
  syspipe_loses_writer s p k n new f e =
      let (below, free) = find_free-is_null (uiotab W s p) (negsuc 0) (process_uiomax - 3) 3 n e in
      let lt : ltb n process_uiomax ≡ true = lt→ltb n process_uiomax (omega arith) in
      rw (lt, free, e) (refl, unheld)
    where
      unheld : slots new.wuio (create_pipe W s p n n new).proctab ≡ 0
      unheld =
          let h = slots-put_entry s.proctab p n (some new.ruio) new.wuio in
          let z = f.no_writer in
          let other : (new.wuio == new.ruio) ≡ false = elim (Bool-cases (new.wuio == new.ruio)) [
            | inl q ↦ (let no = f.apart (==→eq new.wuio new.ruio q) in ground arith)
            | inr q ↦ q
          ] in
          let i : in_slot new.wuio (some new.ruio) ≡ 0 = rw other refl in
          rw (put_twice s.proctab p n (some new.wuio) (some new.ruio)) (omega arith)

module _ (src : PageSource) (W : Type 0) (mem : W → Mem src) where
  missing :
      (fs : Files src W mem) (s : Kernel W) (p n c : ℕ) (mpname flname : List ℕ)
      → get_fs (Kernel W × Option ℕ) fs.mplist (c ∷ mpname) ≡ none
      → open_parts src W mem fs s p n (some (c ∷ mpname, flname)) ≡ closes_null
  unfolding open_file
  missing fs s p n c mpname flname z = rw z refl

  -- Where sysopen is given a path that is valid and has two parts, and the first names no mount point, it
  -- closes NULL as soon as it finds a descriptor.
  pub sysopen_closes_null :
      (fs : Files src W mem) (s : Kernel W) (p : ℕ) (fd : ℤ) (path n c : ℕ) (mpname flname : List ℕ)
      → validate_vstr src (mem s.world) path ru ≡ answers valid
      → open_fd (uiotab W s p) fd ≡ some n
      → parse_path (some (text_at src W mem (mem s.world) (umem_end_vma - umem_start_vma) path))
        ≡ some (c ∷ mpname, flname)
      → get_fs (Kernel W × Option ℕ) fs.mplist (c ∷ mpname) ≡ none
      → sysopen src W mem fs s p fd path ≡ closes_null
  unfolding sysopen
  sysopen_closes_null fs s p fd path n c mpname flname v e q z =
      let text = text_at src W mem (mem s.world) (umem_end_vma - umem_start_vma) path in
      let rest = open_path src W mem fs s p fd text (open_fd (uiotab W s p) fd) in
      ap (λ (u : TextCheck). checked src W mem u (s, einval) rest) v
      ∙ ap (open_path src W mem fs s p fd text) e
      ∙ ap (open_parts src W mem fs s p n) q
      ∙ missing fs s p n c mpname flname z
