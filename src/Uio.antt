-- ===== src/Uio.antt =====
-- The endpoints of sys/uio.c: the dispatch to an endpoint's functions, and its count of references. An
-- endpoint is known by its address. Its functions, which may be NULL, act on the state `W` of everything
-- but the counts and the tables of the processes.
use model_lib.Base.{ℕ, ◌+◌, ◌-◌, ◌%◌, ◌^◌, Option, none, some, List, ltb, ◌==◌, if◌then◌else◌}

-- An int, by its sign.
pub data ℤ : Type 0 where
  pos negsuc : ℕ → ℤ

-- What a call returns: a number that is not an error, an error of the kernel's own, or the reply of a
-- function of an endpoint or of a file system, as its bits.
pub data Reply : Type 0 where
  ebadfd einval emfile enotsup enomem emproc emthr : Reply
  returns replies : ℕ → Reply

abbrev pub u64_mod : ℕ
u64_mod = 2 ^ 64

module _ (W : Type 0) where
  -- `struct uio_intf`: each function is given the endpoint; an operation or a buffer and its size follow.
  pub record UioIntf : Type 0 where
    pub close_fn : Option (ℕ → W → W)
    pub read_fn : Option (ℕ → ℕ → ℕ → W → W × ℕ)
    pub write_fn : Option (ℕ → ℕ → ℕ → W → W × ℕ)
    pub cntl_fn : Option (ℕ → ℤ → ℕ → W → W × ℕ)

  -- `struct uio`.
  pub record Uio : Type 0 where
    pub intf : UioIntf
    pub refcnt : ℕ

  -- The endpoints, and `proctab`: for each process its `uiotab`.
  pub record Kernel : Type 0 where
    pub uios : ℕ → Uio
    pub proctab : List (Option (List (Option ℕ)))
    pub world : W

  unfoldable pub put_uio : Kernel → ℕ → Uio → Kernel
  put_uio s a x = record s { uios = λ b. if b == a then x else s.uios b }

  abbrev pub set_refcnt : Kernel → ℕ → ℕ → Kernel
  unfolding put_uio
  set_refcnt s a n = put_uio s a (record (s.uios a) { refcnt = n })

  abbrev pub call_close : Option (ℕ → W → W) → ℕ → W → W
  call_close none a w = w
  call_close (some f) a w = f a w

  -- `uio_close`.
  unfoldable pub uio_close : Kernel → ℕ → Kernel
  unfolding put_uio
  uio_close s a =
      let n = (s.uios a).refcnt - 1 in
      let s1 = set_refcnt s a n in
      if n == 0 then record s1 { world = call_close (s.uios a).intf.close_fn a s.world } else s1

  -- `uio_addref`.
  unfoldable pub uio_addref : Kernel → ℕ → Kernel
  unfolding put_uio
  uio_addref s a = set_refcnt s a (((s.uios a).refcnt + 1) % u64_mod)

  -- `uio_init1`.
  unfoldable pub uio_init1 : Kernel → ℕ → UioIntf → Kernel
  unfolding put_uio
  uio_init1 s a i = put_uio s a (record { intf = i; refcnt = 1 })

  abbrev pub answer : Kernel → W × ℕ → Kernel × Reply
  answer s (w, n) = (record s { world = w }, replies n)

  -- `uio_read` and `uio_write`, on the function that the interface has: a size that is negative as a long
  -- is refused.
  unfoldable pub transfer : Option (ℕ → ℕ → ℕ → W → W × ℕ) → Kernel → ℕ → ℕ → ℕ → Kernel × Reply
  transfer none s a buf n = (s, enotsup)
  transfer (some f) s a buf n = if ltb n (2 ^ 63) then answer s (f a buf n s.world) else (s, einval)

  unfoldable pub uio_read : Kernel → ℕ → ℕ → ℕ → Kernel × Reply
  unfolding transfer
  uio_read s a buf n = transfer (s.uios a).intf.read_fn s a buf n

  unfoldable pub uio_write : Kernel → ℕ → ℕ → ℕ → Kernel × Reply
  unfolding transfer
  uio_write s a buf n = transfer (s.uios a).intf.write_fn s a buf n

  abbrev pub control : Option (ℕ → ℤ → ℕ → W → W × ℕ) → Kernel → ℕ → ℤ → ℕ → Kernel × Reply
  control none s a op arg = (s, enotsup)
  control (some f) s a op arg = answer s (f a op arg s.world)

  -- `uio_cntl`.
  unfoldable pub uio_cntl : Kernel → ℕ → ℤ → ℕ → Kernel × Reply
  uio_cntl s a op arg = control (s.uios a).intf.cntl_fn s a op arg

  -- `create_null_uio`: a close that does nothing, and replies of -ENOTSUP.
  abbrev pub null_uio : Uio
  null_uio = record {
    intf = record {
      close_fn = some (λ a w. w);
      read_fn = some (λ a buf n w. (w, 2 ^ 64 - 3));
      write_fn = some (λ a buf n w. (w, 2 ^ 64 - 3));
      cntl_fn = none;
    };
    refcnt = 0;
  }
