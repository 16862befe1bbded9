-- ===== src/Syscall/Runs.antt =====
-- Runs of the system calls of sys/syscall.c that concern endpoints, and of the end of a process: the
-- relation of one state of the kernel to the next.
use model_lib.Base.{
  ℕ, ◌+◌, ◌≤◌, ◌<◌, ◌≡◌, refl, ap, subst, inl, inr, Bool, true, false, not, ◌||◌, Option, none,
  some, arith, ltb, if◌then◌else◌, Bool-cases, length, get_or,
}
use model_lib.Paging.{PageSource, Mem}
use model_lib.Paging.Check.{TextCheck, answers, kernel_fault, unfinished, valid, einval}
use model_lib.Uio.{ℤ, pos, negsuc, Reply, einval, ebadfd, returns, u64_mod, Kernel, uio_close}
use model_lib.Syscall.{
  process_uiomax, lookup, uiotab, put_slot, sysclose, sysuiodup, syspipe, NewPipe, can_take,
  same_fd, choose, pipe_ends, pipe_read_end,
}
use model_lib.Syscall.Calls.{
  Outcome, done, failed_assertion, closes_null, page_fault, no_end, Files, sysopen, sysexec,
  exec_slot, exec_args, checked, check_args,
}
use model_lib.Syscall.Processes.{process_fork, process_exit, Forking}
use model_lib.Syscall.Counts.{
  IsCounted, slots, in_slot, slots-put_entry, uio_close-refcnt, uio_close-proctab,
}
use model_lib.Syscall.Files.{
  IsFresh, create_pipe-IsCounted, process_exit-IsCounted, process_fork-IsCounted,
  sysclose-IsCounted, sysuiodup-IsCounted,
}
use model_lib.Syscall.Steps.{Counting, Leaves, sysopen-Leaves}

pub guarded :
    {A : Type 0} (c : Bool) (o : Option A) (b : A) → (if c then o else none) ≡ some b → o ≡ some b
guarded true o b h = h
guarded false o b h = ground arith

module _ (src : PageSource) (W : Type 0) (mem : W → Mem src) where
  syspipe-IsCounted :
      (s : Kernel W) (p : ℕ) (w r : ℤ) (new : NewPipe W)
      → IsFresh W s new
      → IsCounted W s
      → IsCounted W (syspipe W s p w r new).0
  unfolding syspipe
  syspipe-IsCounted s p w r new f v =
      elim (Bool-cases
        (not (can_take (uiotab W s p) w) || (not (can_take (uiotab W s p) r) || same_fd w r))) [
          | inl e ↦ rw e v
          | inr e ↦ rw e (ends (choose (uiotab W s p) (negsuc 0) w))
        ]
    where
      read_end : (n : ℕ) (o : Option ℕ) → IsCounted W (pipe_read_end W s p r new n o).0
      read_end n none = v
      read_end n (some m) = create_pipe-IsCounted W s p n m new f v

      ends : (o : Option ℕ) → IsCounted W (pipe_ends W s p w r new o).0
      ends none = v
      ends (some n) = read_end n (choose (uiotab W s p) (pos n) r)

  -- What sysexec leaves: the endpoint that it takes out of its slot is still counted.
  abbrev Takes : Outcome (Kernel W × Option ℕ × Reply) → Type 0
  Takes failed_assertion = Unit
  Takes closes_null = Unit
  Takes page_fault = Unit
  Takes no_end = Unit
  Takes (done (s, o, r)) = (a : ℕ) → slots a s.proctab + in_slot a o ≤ (s.uios a).refcnt

  sysexec-Takes :
      (s : Kernel W) (p : ℕ) (fd : ℤ) (argv : ℕ → ℕ) (argc : ℤ)
      → IsCounted W s
      → Takes (sysexec src W mem s p fd argv argc)
  unfolding sysexec lookup put_slot in_slot
  sysexec-Takes s p fd argv argc v = at fd (lookup (uiotab W s p) fd) refl
    where
      untaken : (r : Reply) → Takes (done (s, none, r))
      untaken r = λ a. let x = v a in omega arith

      after :
          (n b : ℕ) (u : TextCheck)
          → get_or (uiotab W s p) n none ≡ some b
          → Takes (
              checked src W mem u
                (s, none, einval)
                (done (put_slot W s p n none, some b, returns 0)))
      after n b kernel_fault h = tt
      after n b unfinished h = tt
      after n b (answers einval) h = untaken einval
      after n b (answers valid) h = λ a.
          let x = v a in
          let k = slots-put_entry s.proctab p n none a in let held = ap (in_slot a) h in omega arith

      args :
          (n b : ℕ) (c : ℤ)
          → get_or (uiotab W s p) n none ≡ some b
          → Takes (exec_args src W mem s p n argv c b)
      args n b (negsuc k) h = untaken einval
      args n b (pos k) h = after n b (check_args src W mem (mem s.world) argv k 0) h

      holds :
          (n b : ℕ) → lookup (uiotab W s p) (pos n) ≡ some b → get_or (uiotab W s p) n none ≡ some b
      holds n b h = guarded (ltb n process_uiomax) (get_or (uiotab W s p) n none) b h

      at :
          (fd : ℤ) (o : Option ℕ)
          → lookup (uiotab W s p) fd ≡ o
          → Takes (exec_slot src W mem s p fd argv argc o)
      at (negsuc n) none h = untaken ebadfd
      at (negsuc n) (some b) h = untaken ebadfd
      at (pos n) none h = untaken ebadfd
      at (pos n) (some b) h = args n b argc (holds n b h)

  -- One call of one process, or its end. Calls that read, write or control an endpoint, and all else
  -- that a process does, change the state of everything else. A new pipe and a listing are at addresses
  -- that no slot holds, and no count is near 2 ^ 64.
  pub data Step (fs : Files src W mem) (s : Kernel W) : Kernel W → Type 0 where
    acts : (w : W) → Step fs s (record s { world = w })
    closes : (p : ℕ) (fd : ℤ) → Step fs s (sysclose W s p fd).0
    dups :
        (p : ℕ) (oldfd newfd : ℤ)
        → ((b : ℕ) → (s.uios b).refcnt + 1 < u64_mod)
        → Step fs s (sysuiodup W s p oldfd newfd).0
    pipes :
        (p : ℕ) (w r : ℤ) (new : NewPipe W) → IsFresh W s new → Step fs s (syspipe W s p w r new).0
    opens :
        (p : ℕ) (fd : ℤ) (path : ℕ) (s' : Kernel W) (r : Reply)
        → slots fs.listing_at s.proctab ≡ 0
        → sysopen src W mem fs s p fd path ≡ done (s', r)
        → Step fs s s'
    execs :
        (p : ℕ) (fd : ℤ) (argv : ℕ → ℕ) (argc : ℤ) (s' : Kernel W) (b : ℕ) (r : Reply) (w : W)
        → sysexec src W mem s p fd argv argc ≡ done (s', some b, r)
        → Step fs s (uio_close W (record s' { world = w }) b)
    forks :
        (p : ℕ) (how : Forking W)
        → ((b : ℕ) → (s.uios b).refcnt + length (uiotab W s p) < u64_mod)
        → Step fs s (process_fork W s p how).0
    exits : (leave : W → W) (p : ℕ) → Step fs s (process_exit W leave s p)

  pub data Reach (fs : Files src W mem) (s : Kernel W) : Kernel W → Type 0 where
    here : Reach fs s s
    then_steps : {t u : Kernel W} → Reach fs s t → Step fs t u → Reach fs s u

  Step-IsCounted :
      (fs : Files src W mem)
      → Counting src W mem fs
      → {s t : Kernel W} → Step fs s t
      → IsCounted W s
      → IsCounted W t
  unfolding in_slot
  Step-IsCounted fs c (acts w) v = v
  Step-IsCounted fs c {s = s} (closes p fd) v = sysclose-IsCounted W s p fd v
  Step-IsCounted fs c {s = s} (dups p oldfd newfd small) v =
      sysuiodup-IsCounted W s p oldfd newfd small v
  Step-IsCounted fs c {s = s} (pipes p w r new f) v = syspipe-IsCounted s p w r new f v
  Step-IsCounted fs c {s = s} (opens p fd path s' r fresh e) v =
      subst (Leaves src W mem) e (sysopen-Leaves src W mem fs s p fd path c fresh v)
  Step-IsCounted fs c {s = s} (execs p fd argv argc s' b r w e) v = λ a.
      let h = subst Takes e (sysexec-Takes s p fd argv argc v) a in
      let u = record s' { world = w } in
      rw (uio_close-proctab W u b, uio_close-refcnt W u b a) (omega arith)
  Step-IsCounted fs c {s = s} (forks p how small) v = process_fork-IsCounted W s p how small v
  Step-IsCounted fs c {s = s} (exits leave p) v = process_exit-IsCounted W leave s p v

  -- Whatever the processes do, an endpoint has at least as many references as there are slots of processes
  -- that hold it, if the file systems count the endpoints they open.
  pub Reach-IsCounted :
      (fs : Files src W mem)
      → Counting src W mem fs
      → {s t : Kernel W} → Reach fs s t
      → IsCounted W s
      → IsCounted W t
  Reach-IsCounted fs c here v = v
  Reach-IsCounted fs c (then_steps r x) v = Step-IsCounted fs c x (Reach-IsCounted fs c r v)
