-- ===== src/Syscall.antt =====
-- System calls of sys/syscall.c on the open endpoints of a process, with process_fork and process_exit
-- of sys/process.c. A process is its index in proctab, and `p` is the current one. The memory of the
-- current process is a part of the state `W` of everything else.
pub mod Calls
pub mod Processes
pub mod Counts
pub mod Files
pub mod Steps
pub mod Runs
pub mod Faults
pub mod Tests
use model_lib.Base.{
  ℕ, zero, suc, ◌+◌, ◌-◌, ◌*◌, ◌/◌, ◌%◌, ◌^◌, ◌≤◌, ◌<◌, min, ◌≡◌, refl, sym, ap, ap₂, ◌∙◌, subst,
  fun_ext, ◌≢◌, ◌↔◌, ◌⊎◌, inl, inr, Bool, true, false, not, ◌&&◌, ◌||◌, Option, none, some, List,
  [], ◌∷◌, ◌++◌, map, arith, ltb, leb, ◌==◌, if◌then◌else◌, Bool-cases, Option-cases, ==_iff,
  ltb→lt, lt→ltb, leb→le, ltb→ge, ==→eq, ==→ne, ==_self, length, get_elem?, set, get_or, take, drop,
  replicate, length-append, length-set, get_elem?-set_self, get_elem?-set_ne, take-append-drop,
  length-take, length-drop, length-replicate, length-map, get_or-set_self, get_or-set_ne, take-nil,
  drop-nil, take-min,
}
use model_lib.Uio.{
  ℤ, pos, negsuc, Reply, ebadfd, emfile, returns, UioIntf, Kernel, uio_close, uio_addref, uio_init1,
}

abbrev pub process_uiomax : ℕ
process_uiomax = 16

abbrev pub is_null {ℓ} : {A : Type ℓ} → Option A → Bool
is_null none = true
is_null (some a) = false

abbrev pub table_of : Option (List (Option ℕ)) → List (Option ℕ)
table_of none = []
table_of (some t) = t

-- The endpoint that a descriptor names: `none` where the calls answer -EBADFD.
unfoldable pub lookup : List (Option ℕ) → ℤ → Option ℕ
lookup t (negsuc n) = none
lookup t (pos n) = if ltb n process_uiomax then get_or t n none else none

abbrev pub is_int : ℤ → ℕ → Bool
is_int (negsuc n) i = false
is_int (pos n) i = i == n

-- A scan for a descriptor that is not in use, over the rounds left, past the one that `skip` names.
unfoldable pub find_free : List (Option ℕ) → ℤ → ℕ → ℕ → Option ℕ
find_free t skip zero i = none
find_free t skip (suc left) i =
    let rest = find_free t skip left (i + 1) in
    if not (is_int skip i) && is_null (get_or t i none) then some i else rest

-- `i < 3` is never given out by a scan.
abbrev pub scan : List (Option ℕ) → ℤ → Option ℕ
scan t skip = find_free t skip (process_uiomax - 3) 3

abbrev pub put_entry : Option (List (Option ℕ)) → ℕ → Option ℕ → Option (List (Option ℕ))
put_entry none n o = none
put_entry (some t) n o = some (set t n o)

-- A descriptor that syspipe is given: negative, or below the limit and not in use.
abbrev pub can_take : List (Option ℕ) → ℤ → Bool
can_take t (negsuc n) = true
can_take t (pos n) = ltb n process_uiomax && is_null (get_or t n none)

abbrev pub same_fd : ℤ → ℤ → Bool
same_fd (pos m) (pos n) = m == n
same_fd (pos m) (negsuc n) = false
same_fd (negsuc m) n = false

-- The descriptor that is asked for, or the first one that the scan finds.
abbrev pub choose : List (Option ℕ) → ℤ → ℤ → Option ℕ
choose t skip (pos n) = some n
choose t skip (negsuc n) = scan t skip

module _ (W : Type 0) where
  abbrev pub uiotab : Kernel W → ℕ → List (Option ℕ)
  uiotab s p = table_of (get_or s.proctab p none)

  -- `current_process()->uiotab[n] = o`.
  unfoldable pub put_slot : Kernel W → ℕ → ℕ → Option ℕ → Kernel W
  put_slot s p n o = record s {
    proctab = set s.proctab p (put_entry (get_or s.proctab p none) n o);
  }

  abbrev close_slot : Kernel W → ℕ → ℕ → Option ℕ → Kernel W × Reply
  close_slot s p n none = (s, ebadfd)
  close_slot s p n (some a) = (put_slot (uio_close W s a) p n none, returns 0)

  -- `sysclose`.
  unfoldable pub sysclose : Kernel W → ℕ → ℤ → Kernel W × Reply
  unfolding lookup put_slot uio_close
  sysclose s p (negsuc n) = (s, ebadfd)
  sysclose s p (pos n) = close_slot s p n (lookup (uiotab s p) (pos n))

  abbrev pub dup_slot : Kernel W → ℕ → ℤ → Option ℕ → Kernel W × Reply
  dup_slot s p newfd none = (s, ebadfd)
  dup_slot s p (negsuc n) (some a) = (s, ebadfd)
  dup_slot s p (pos n) (some a) =
      if ltb n process_uiomax && is_null (get_or (uiotab s p) n none)
      then (uio_addref W (put_slot s p n (some a)) a, returns n)
      else (s, ebadfd)

  -- `sysuiodup`.
  unfoldable pub sysuiodup : Kernel W → ℕ → ℤ → ℤ → Kernel W × Reply
  unfolding lookup put_slot uio_addref
  sysuiodup s p oldfd newfd = dup_slot s p newfd (lookup (uiotab s p) oldfd)

  -- `create_pipe` for two endpoints at new addresses: what it does to everything else is a function.
  pub record NewPipe : Type 0 where
    pub wuio : ℕ
    pub ruio : ℕ
    pub wintf : UioIntf W
    pub rintf : UioIntf W
    pub others : W → W

  unfoldable pub create_pipe : Kernel W → ℕ → ℕ → ℕ → NewPipe → Kernel W
  unfolding put_slot uio_init1
  create_pipe s p w r new =
      let s1 = uio_init1 W (uio_init1 W s new.ruio new.rintf) new.wuio new.wintf in
      put_slot (put_slot (record s1 { world = new.others s1.world }) p w (some new.wuio)) p r
        (some new.ruio)

  abbrev pub pipe_read_end : Kernel W → ℕ → ℤ → NewPipe → ℕ → Option ℕ → Kernel W × ℤ × ℤ × Reply
  pipe_read_end s p r new w none = (s, pos w, r, emfile)
  pipe_read_end s p r new w (some n) = (create_pipe s p w n new, pos w, pos n, returns 0)

  abbrev pub pipe_ends : Kernel W → ℕ → ℤ → ℤ → NewPipe → Option ℕ → Kernel W × ℤ × ℤ × Reply
  pipe_ends s p w r new none = (s, w, r, emfile)
  pipe_ends s p w r new (some n) = pipe_read_end s p r new n (choose (uiotab s p) (pos n) r)

  -- `syspipe`, where neither pointer is NULL and the two are different: what is left at each of them, and the
  -- reply.
  unfoldable pub syspipe : Kernel W → ℕ → ℤ → ℤ → NewPipe → Kernel W × ℤ × ℤ × Reply
  unfolding create_pipe find_free
  syspipe s p w r new =
      if not (can_take (uiotab s p) w) || (not (can_take (uiotab s p) r) || same_fd w r)
      then (s, w, r, ebadfd)
      else pipe_ends s p w r new (choose (uiotab s p) (negsuc 0) w)
