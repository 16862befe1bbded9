-- ===== src/Pipe.antt =====
-- Pipes of sys/uio.c. A call holds the pipe's lock from end to end, but for the time it waits: then
-- it lets go of the lock and starts over when it is woken. So a call is a function of the pipe as
-- it finds it, `waits` is a call that finds it has to wait, and a retry is a further call.
pub mod Stream
pub mod Narrow
pub mod Tests
use model_lib.Base.{
  ℕ, zero, suc, ◌+◌, ◌-◌, ◌*◌, ◌/◌, ◌%◌, ◌^◌, ◌≤◌, ◌<◌, min, ◌≡◌, refl, sym, ap, ap₂, ◌∙◌, subst,
  fun_ext, ◌≢◌, ◌↔◌, ◌⊎◌, inl, inr, Bool, true, false, not, ◌&&◌, ◌||◌, Option, none, some, List,
  [], ◌∷◌, ◌++◌, map, arith, ltb, leb, ◌==◌, if◌then◌else◌, Bool-cases, Option-cases, ==_iff,
  ltb→lt, lt→ltb, leb→le, ltb→ge, ==→eq, ==→ne, ==_self, length, get_elem?, set, get_or, take, drop,
  replicate, length-append, length-set, get_elem?-set_self, get_elem?-set_ne, take-append-drop,
  length-take, length-drop, length-replicate, length-map, get_or-set_self, get_or-set_ne, take-nil,
  drop-nil,
}
use model_lib.Ring.{Ringbuf, rbuf_empty, rbuf_full, read_loop, write_loop}

-- PAGE_SIZE, and the modulus of the positions.
abbrev pub page_size : ℕ
page_size = 4096

abbrev pub u64_mod : ℕ
u64_mod = 2 ^ 64

-- `struct pipe`, with the reference counts of its two uios.
pub record Pipe : Type 0 where
  pub rbuf : Ringbuf
  pub readers : ℕ
  pub writers : ℕ

-- What a call returns: a count, -EPIPE or -EINVAL; or it has to wait.
pub data Outcome : Type 0 where
  done : ℕ → Outcome
  waits epipe einval : Outcome

-- Which of the two uios.
pub data Side : Type 0 where
  reader writer : Side

-- `create_pipe`, over the page that `alloc_phys_page` returns.
unfoldable pub create_pipe : List ℕ → Pipe
create_pipe page = record {
  rbuf = record { hpos = 0; tpos = 0; cells = page };
  readers = 1;
  writers = 1;
}

module _ (fast_mod : ℕ) where
  abbrev pub empty : Pipe → Bool
  empty p = rbuf_empty page_size u64_mod fast_mod p.rbuf

  abbrev pub full : Pipe → Bool
  full p = rbuf_full page_size u64_mod fast_mod p.rbuf

  -- `pipe_read`: the pipe after the call, what it returns, and what it puts into `buf`.
  unfoldable pub pipe_read : Pipe → Bool → ℕ → Pipe × Outcome × List ℕ
  pipe_read p null_arg bufsz =
      let out = read_loop page_size u64_mod fast_mod bufsz p.rbuf in
      if null_arg
      then (p, einval, [])
      else if bufsz == 0
      then (p, done 0, [])
      else if empty p
      then (if p.writers == 0 then (p, done 0, []) else (p, waits, []))
      else (record p { rbuf = out.0 }, done (length out.1), out.1)

  -- `pipe_write` of the bytes of `buf`.
  unfoldable pub pipe_write : Pipe → Bool → List ℕ → Pipe × Outcome
  pipe_write p null_arg buf =
      let out = write_loop page_size u64_mod fast_mod p.rbuf buf 0 in
      if null_arg
      then (p, einval)
      else if length buf == 0
      then (p, done 0)
      else if full p
      then (if p.readers == 0 then (p, epipe) else (p, waits))
      else if p.readers == 0
      then (p, epipe)
      else (record p { rbuf = out.0 }, done out.1)

-- `uio_close` on one end: the pipe after it, and whether `pipe_close` frees it.
unfoldable pub uio_close : Pipe → Side → Pipe × Bool
uio_close p reader =
    let n = if ltb 0 p.readers then p.readers - 1 else p.readers in
    (record p { readers = n }, (n == 0) && (p.writers == 0))
uio_close p writer =
    let n = if ltb 0 p.writers then p.writers - 1 else p.writers in
    (record p { writers = n }, (n == 0) && (p.readers == 0))
