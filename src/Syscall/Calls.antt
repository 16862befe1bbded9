-- ===== src/Syscall/Calls.antt =====
-- The system calls of sys/syscall.c that take pointers of the user: sysread, syswrite, sysfcntl, sysopen
-- and the checks of sysexec. The checks of a pointer are those of Paging/Check, a path is read from the
-- memory of the process, and the mount points are those of Mounts.
use model_lib.Base.{
  ℕ, zero, suc, ◌+◌, ◌-◌, ◌^◌, true, ◌&&◌, Option, none, some, List, [], ◌∷◌, ltb, ◌==◌,
  if◌then◌else◌, get_or,
}
use model_lib.Mounts.{
  Mountpoint, FsReply, success, einval, enotsup, enoent, eexist, listing, panics, replied,
  open_file, parse_path,
}
use model_lib.Paging.{Flags, no_flags, umem_start_vma, umem_end_vma, PageSource, Mem}
use model_lib.Paging.Check.{
  Verdict, valid, einval, TextCheck, answers, kernel_fault, unfinished, validate_vptr,
  validate_vstr, load,
}
use model_lib.Uio.{
  ℤ, pos, negsuc, Reply, ebadfd, einval, emfile, enotsup, returns, replies, UioIntf, Kernel,
  uio_close, uio_init1, uio_read, uio_write, uio_cntl,
}
use model_lib.Syscall.{process_uiomax, is_null, lookup, scan, find_free, uiotab, put_slot}

-- `PTE_R | PTE_U` and `PTE_W | PTE_U`.
abbrev pub ru : Flags
ru = record no_flags { r = true; u = true }

abbrev pub wu : Flags
wu = record no_flags { w = true; u = true }

-- The descriptor that sysopen opens, and why there is none.
abbrev pub open_fd : List (Option ℕ) → ℤ → Option ℕ
open_fd t (pos n) = if ltb n process_uiomax && is_null (get_or t n none) then some n else none
open_fd t (negsuc zero) = scan t (negsuc 0)
open_fd t (negsuc (suc n)) = none

abbrev pub no_fd : ℤ → Reply
no_fd (pos n) = ebadfd
no_fd (negsuc zero) = emfile
no_fd (negsuc (suc n)) = ebadfd

-- The int that a reply stands for, as its bits.
abbrev pub reply_code : {S : Type 0} → FsReply S → ℕ
reply_code success = 0
reply_code einval = 2 ^ 32 - 1
reply_code enotsup = 2 ^ 32 - 3
reply_code enoent = 2 ^ 32 - 6
reply_code eexist = 2 ^ 32 - 15
reply_code listing = 0
reply_code panics = 0
reply_code (replied n) = n

-- How a call ends that checks a string or opens a file: with a result, with a failed assertion, with
-- uio_close(NULL), with a page fault of the kernel, or not within the rounds of the check.
pub data Outcome (A : Type 0) : Type 0 where
  done : A → Outcome A
  failed_assertion closes_null page_fault no_end : Outcome A

module _ (src : PageSource) (W : Type 0) (mem : W → Mem src) where
  -- What a call does with the end of the check of a string.
  abbrev pub checked : {A : Type 0} → TextCheck → A → Outcome A → Outcome A
  checked (answers einval) refused a = done refused
  checked (answers valid) refused a = a
  checked kernel_fault refused a = page_fault
  checked unfinished refused a = no_end

  abbrev pub read_slot : Kernel W → ℕ → ℕ → Option ℕ → Kernel W × Reply
  read_slot s buf n none = (s, ebadfd)
  read_slot s buf n (some a) = uio_read W s a buf n

  abbrev pub write_slot : Kernel W → ℕ → ℕ → Option ℕ → Kernel W × Reply
  write_slot s buf n none = (s, ebadfd)
  write_slot s buf n (some a) = uio_write W s a buf n

  abbrev pub on_valid {ℓ} : {A : Type ℓ} → Verdict → A → A → A
  on_valid einval refused a = refused
  on_valid valid refused a = a

  -- `sysread` and `syswrite`.
  unfoldable pub sysread : Kernel W → ℕ → ℤ → ℕ → ℕ → Kernel W × Reply
  unfolding lookup uio_read validate_vptr
  sysread s p fd buf n =
      if n == 0
      then (s, returns 0)
      else on_valid (validate_vptr src (mem s.world) buf n wu) (s, einval)
          (read_slot s buf n (lookup (uiotab W s p) fd))

  unfoldable pub syswrite : Kernel W → ℕ → ℤ → ℕ → ℕ → Kernel W × Reply
  unfolding lookup uio_write validate_vptr
  syswrite s p fd buf n =
      if n == 0
      then (s, returns 0)
      else on_valid (validate_vptr src (mem s.world) buf n ru) (s, einval)
          (write_slot s buf n (lookup (uiotab W s p) fd))

  abbrev cntl_slot : Kernel W → ℤ → ℕ → Option ℕ → Kernel W × Reply
  cntl_slot s cmd arg none = (s, ebadfd)
  cntl_slot s cmd arg (some a) = uio_cntl W s a cmd arg

  -- `sysfcntl`.
  unfoldable pub sysfcntl : Kernel W → ℕ → ℤ → ℤ → ℕ → Kernel W × Reply
  unfolding lookup uio_cntl
  sysfcntl s p fd cmd arg = cntl_slot s cmd arg (lookup (uiotab W s p) fd)

  -- The bytes from an address up to the NUL, over the rounds left.
  unfoldable pub text_at : Mem src → ℕ → ℕ → List ℕ
  unfolding load
  text_at m zero vma = []
  text_at m (suc left) vma =
      let rest = text_at m left (vma + 1) in
      elim (load src m vma) [ none ↦ [] | some c ↦ if c == 0 then [] else c ∷ rest ]

  -- A file system opens a file into the slot that it is given: it acts on the kernel and that slot. A
  -- listing is opened at a new address.
  pub record Files : Type 0 where
    pub mplist : List (Mountpoint (Kernel W × Option ℕ))
    pub listing_at : ℕ
    pub listing_intf : UioIntf W

  abbrev pub close_opened : Kernel W → ℕ → ℕ → ℕ → Option ℕ → Outcome (Kernel W × Reply)
  close_opened s p n code none = closes_null
  close_opened s p n code (some a) = done (put_slot W (uio_close W s a) p n none, replies code)

  abbrev pub opened_code : ℕ → ℕ → Kernel W → ℕ → Option ℕ → Outcome (Kernel W × Reply)
  opened_code p n s code o =
      if ltb code (2 ^ 31)
      then done (put_slot W s p n o, returns n)
      else if code == 2 ^ 32 - 6
      then close_opened s p n code o
      else done (put_slot W s p n o, replies code)

  abbrev pub opened :
      Files
      → ℕ
      → ℕ
      → (Kernel W × Option ℕ) × FsReply (Kernel W × Option ℕ)
      → Outcome (Kernel W × Reply)
  opened fs p n (r, panics) = failed_assertion
  opened fs p n (r, listing) = done (
    put_slot W (uio_init1 W r.0 fs.listing_at fs.listing_intf) p n (some fs.listing_at),
    returns n,
  )
  opened fs p n (r, reply) = opened_code p n r.0 (reply_code reply) r.1

  abbrev pub open_parts :
      Files → Kernel W → ℕ → ℕ → Option (List ℕ × List ℕ) → Outcome (Kernel W × Reply)
  open_parts fs s p n none = done (s, einval)
  open_parts fs s p n (some (mpname, flname)) =
      opened fs p n
        (open_file (Kernel W × Option ℕ) fs.mplist (some mpname) (some flname) (s, none))

  abbrev pub open_path : Files → Kernel W → ℕ → ℤ → List ℕ → Option ℕ → Outcome (Kernel W × Reply)
  open_path fs s p fd path none = done (s, no_fd fd)
  open_path fs s p fd path (some n) = open_parts fs s p n (parse_path (some path))

  -- `sysopen`.
  unfoldable pub sysopen : Files → Kernel W → ℕ → ℤ → ℕ → Outcome (Kernel W × Reply)
  unfolding find_free validate_vstr text_at parse_path open_file uio_close uio_init1 put_slot
  sysopen fs s p fd path =
      checked (validate_vstr src (mem s.world) path ru) (s, einval)
        (open_path fs s p fd (text_at (mem s.world) (umem_end_vma - umem_start_vma) path)
          (open_fd (uiotab W s p) fd))

  abbrev pub next_arg : TextCheck → TextCheck → TextCheck
  next_arg (answers valid) rest = rest
  next_arg (answers einval) rest = answers einval
  next_arg kernel_fault rest = kernel_fault
  next_arg unfinished rest = unfinished

  -- The check of the arguments of `sysexec`, over the arguments left.
  unfoldable pub check_args : Mem src → (ℕ → ℕ) → ℕ → ℕ → TextCheck
  unfolding validate_vstr
  check_args m argv zero i = answers valid
  check_args m argv (suc left) i =
      let rest = check_args m argv left (i + 1) in next_arg (validate_vstr src m (argv i) ru) rest

  abbrev pub exec_args : Kernel W → ℕ → ℕ → (ℕ → ℕ) → ℤ → ℕ → Outcome (Kernel W × Option ℕ × Reply)
  exec_args s p n argv (negsuc k) a = done (s, none, einval)
  exec_args s p n argv (pos argc) a =
      checked (check_args (mem s.world) argv argc 0) (s, none, einval)
        (done (put_slot W s p n none, some a, returns 0))

  abbrev pub exec_slot :
      Kernel W → ℕ → ℤ → (ℕ → ℕ) → ℤ → Option ℕ → Outcome (Kernel W × Option ℕ × Reply)
  exec_slot s p (pos n) argv argc (some a) = exec_args s p n argv argc a
  exec_slot s p (pos n) argv argc none = done (s, none, ebadfd)
  exec_slot s p (negsuc n) argv argc o = done (s, none, ebadfd)

  -- `sysexec` up to process_exec: the endpoint that it is given.
  unfoldable pub sysexec : Kernel W → ℕ → ℤ → (ℕ → ℕ) → ℤ → Outcome (Kernel W × Option ℕ × Reply)
  unfolding lookup check_args put_slot
  sysexec s p fd argv argc = exec_slot s p fd argv argc (lookup (uiotab W s p) fd)
