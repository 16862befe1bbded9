-- ===== src/Syscall/Processes.antt =====
-- process_fork and process_exit of sys/process.c, as far as they concern proctab and the endpoints.
use model_lib.Base.{
  ℕ, zero, suc, ◌+◌, Bool, ◌&&◌, Option, none, some, List, [], ◌∷◌, ltb, if◌then◌else◌, length, set,
  get_or,
}
use model_lib.Uio.{Reply, enomem, emproc, emthr, returns, Kernel, uio_close, uio_addref}
use model_lib.Syscall.{is_null, uiotab}

abbrev pub nproc : ℕ
nproc = 16

module _ (W : Type 0) where
  -- The first entry of proctab that is NULL, over the rounds left.
  unfoldable pub find_process : List (Option (List (Option ℕ))) → ℕ → ℕ → Option ℕ
  find_process procs zero i = none
  find_process procs (suc left) i =
      let rest = find_process procs left (i + 1) in
      if ltb i (length procs) && is_null (get_or procs i none) then some i else rest

  -- The references that the copy of a table takes.
  unfoldable pub addref_all : Kernel W → List (Option ℕ) → Kernel W
  unfolding uio_addref
  addref_all s [] = s
  addref_all s (none ∷ t) = addref_all s t
  addref_all s (some a ∷ t) = addref_all (uio_addref W s a) t

  -- What process_fork asks of the other parts: whether there is memory for a process and a condition,
  -- the copy of the memory space, and spawn_thread with the start of the child.
  pub record Forking : Type 0 where
    pub has_process : Bool
    pub has_condition : Bool
    pub clone : W → W
    pub spawn : W → W × Option ℕ

  abbrev pub spawned : Kernel W → W × Option ℕ → Kernel W × Reply
  spawned s (w, none) = (record s { world = w }, emthr)
  spawned s (w, some tid) = (record s { world = w }, returns tid)

  -- A child in the entry of proctab that was found: its table is a copy.
  unfoldable pub fork_at : Kernel W → ℕ → Forking → ℕ → Kernel W × Reply
  unfolding addref_all
  fork_at s p how i =
      let t = uiotab W s p in
      let s1 = record s { proctab = set s.proctab i (some t); world = how.clone s.world } in
      let s2 = addref_all s1 t in
      if how.has_condition then spawned s2 (how.spawn s2.world) else (s2, enomem)

  abbrev fork_found : Kernel W → ℕ → Forking → Option ℕ → Kernel W × Reply
  fork_found s p how none = (s, emproc)
  fork_found s p how (some i) = fork_at s p how i

  -- `process_fork`.
  unfoldable pub process_fork : Kernel W → ℕ → Forking → Kernel W × Reply
  unfolding fork_at find_process
  process_fork s p how =
      if how.has_process then fork_found s p how (find_process s.proctab nproc 0) else (s, enomem)

  -- The loop of process_exit: every endpoint of the table is closed.
  unfoldable pub close_all : Kernel W → List (Option ℕ) → Kernel W
  unfolding uio_close
  close_all s [] = s
  close_all s (none ∷ t) = close_all s t
  close_all s (some a ∷ t) = close_all (uio_close W s a) t

  -- `process_exit`: the process leaves proctab and closes its endpoints. `leave` flushes the caches,
  -- discards the memory space and exits the thread.
  unfoldable pub process_exit : (W → W) → Kernel W → ℕ → Kernel W
  unfolding close_all
  process_exit leave s p =
      let s' = close_all (record s { proctab = set s.proctab p none }) (uiotab W s p) in
      record s' { world = leave s'.world }
