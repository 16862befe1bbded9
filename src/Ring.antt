-- ===== src/Ring.antt =====
-- The byte ring buffer of sys/uio.c (pipes) and sys/dev/uart.c (the serial port). The two copies
-- of the code differ in the size of the buffer and in the width of the positions, so the model
-- takes both as parameters: `sz` bytes, positions below `pos_mod`. `fast_mod` is the modulus of
-- uint_fast16_t, through which both copies pass a position when they advance it; the compiler
-- chooses it.
pub mod Refine
pub mod Loops
use model_lib.Base.{
  ℕ, zero, suc, ◌+◌, ◌-◌, ◌*◌, ◌/◌, ◌%◌, ◌^◌, ◌≤◌, ◌<◌, min, ◌≡◌, refl, sym, ap, ap₂, ◌∙◌, subst,
  fun_ext, ◌≢◌, ◌↔◌, ◌⊎◌, inl, inr, Bool, true, false, not, ◌&&◌, ◌||◌, Option, none, some, List,
  [], ◌∷◌, ◌++◌, map, arith, ltb, leb, ◌==◌, if◌then◌else◌, Bool-cases, Option-cases, ==_iff,
  ltb→lt, lt→ltb, leb→le, ltb→ge, ==→eq, ==→ne, ==_self, length, get_elem?, set, get_or, take, drop,
  replicate, length-append, length-set, get_elem?-set_self, get_elem?-set_ne, take-append-drop,
  length-take, length-drop, length-replicate, length-map,
}

-- `struct ringbuf`.
pub record Ringbuf : Type 0 where
  pub hpos : ℕ
  pub tpos : ℕ
  pub cells : List ℕ

module _ (sz pos_mod fast_mod : ℕ) where
  unfoldable pub rbuf_empty : Ringbuf → Bool
  rbuf_empty r = r.hpos == r.tpos

  unfoldable pub rbuf_full : Ringbuf → Bool
  rbuf_full r = (r.tpos + pos_mod - r.hpos) % pos_mod == sz

  -- `pos + 1`, computed in uint_fast16_t and stored in a position.
  abbrev pub next : ℕ → ℕ
  next t = (t % fast_mod + 1) % fast_mod % pos_mod

  unfoldable pub rbuf_putc : Ringbuf → ℕ → Ringbuf
  rbuf_putc r c = record r { cells = set r.cells (r.tpos % fast_mod % sz) c; tpos = next r.tpos }

  unfoldable pub rbuf_getc : Ringbuf → Ringbuf × ℕ
  rbuf_getc r = (record r { hpos = next r.hpos }, get_or r.cells (r.hpos % fast_mod % sz) 0)

  -- `while (!rbuf_empty(rbuf) && read < bufsz)` of `pipe_read`, with `bufsz - read` rounds left.
  unfoldable pub read_loop : ℕ → Ringbuf → Ringbuf × List ℕ
  unfolding rbuf_empty rbuf_getc
  read_loop zero r = (r, [])
  read_loop (suc n) r =
      let g = rbuf_getc r in
      let rest = read_loop n g.0 in if rbuf_empty r then (r, []) else (rest.0, g.1 ∷ rest.1)

  -- `while (!rbuf_full(rbuf) && written < bufsz)` of `pipe_write`: the ring and `written`.
  unfoldable pub write_loop : Ringbuf → List ℕ → ℕ → Ringbuf × ℕ
  unfolding rbuf_full rbuf_putc
  write_loop r [] written = (r, written)
  write_loop r (c ∷ buf) written =
      let rest = write_loop (rbuf_putc r c) buf (written + 1) in
      if rbuf_full r then (r, written) else rest

-- `rbuf_init` of sys/dev/uart.c, over the bytes that the device has.
unfoldable pub rbuf_init : List ℕ → Ringbuf
rbuf_init cells = record { hpos = 0; tpos = 0; cells = cells }
