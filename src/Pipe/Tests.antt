-- ===== src/Pipe/Tests.antt =====
-- Runs of the pipes of sys/uio.c, and their theorems at concrete pipes.
use model_lib.Base.{
  ℕ, ◌+◌, ◌-◌, ◌%◌, ◌^◌, ◌<◌, ◌≡◌, refl, false, List, [], ◌∷◌, ◌++◌, arith, replicate,
  length-replicate,
}
use model_lib.Ring.{Ringbuf, rbuf_empty, rbuf_full, rbuf_putc}
use model_lib.Ring.Refine.{IsValid, contents}
use model_lib.Pipe.{Pipe, writer, page_size, u64_mod, create_pipe, pipe_read, pipe_write}
use model_lib.Pipe.Stream.{
  Op, read, write, close, Valid, queue, run, run_stream, Reads, Writes, pipe_read-Reads,
  pipe_write-Writes,
}
use model_lib.Pipe.Narrow.{narrow, rbuf_putc-narrow}

-- A buffer of four bytes with byte positions, round its end.
abbrev small : Ringbuf
small = record { hpos = 255; tpos = 1; cells = 8 ∷ 0 ∷ 0 ∷ 7 ∷ [] }

small-IsValid : IsValid 4 256 256 small
small-IsValid = omega arith

small_divides : (x : ℕ) → x % 256 % 4 ≡ x % 4
small_divides x = omega arith

contents-small : contents 4 256 256 small ≡ 7 ∷ 8 ∷ []
contents-small = refl

-- A fresh pipe.
abbrev fresh : Pipe
fresh = record {
  rbuf = record { hpos = 0; tpos = 0; cells = replicate page_size 0 };
  readers = 1;
  writers = 1;
}

fresh_lem : create_pipe (replicate page_size 0) ≡ fresh
unfolding create_pipe
fresh_lem = refl

fresh-Valid : Valid narrow fresh
fresh-Valid = record {
  room = length-replicate {A = ℕ} page_size 0;
  head_in = omega arith;
  tail_in = omega arith;
  bounded = omega arith;
}

abbrev script : List Op
script = write (1 ∷ 2 ∷ 3 ∷ []) ∷ read 2 ∷ write (4 ∷ []) ∷ close writer ∷ read 9 ∷ []

-- With the 32-bit uint_fast16_t of the compiler.
run_stream_example :
    let (p', out, ins) = run narrow script fresh in
    Valid narrow p' × (out ++ queue narrow p' ≡ queue narrow fresh ++ ins)
run_stream_example =
    run_stream narrow (omega arith) script fresh fresh-Valid (omega arith, omega arith)

pipe_read-Reads_example : Reads narrow (omega arith) fresh 5 9 (pipe_read narrow fresh false 5)
pipe_read-Reads_example =
    pipe_read-Reads narrow (omega arith) fresh 5 9 fresh-Valid (omega arith, omega arith)

pipe_write-Writes_example :
    Writes narrow
      (omega arith)
      fresh
      (1 ∷ 2 ∷ 3 ∷ [])
      9
      (pipe_write narrow fresh false (1 ∷ 2 ∷ 3 ∷ []))
pipe_write-Writes_example =
    pipe_write-Writes narrow (omega arith) fresh (1 ∷ 2 ∷ 3 ∷ []) 9 fresh-Valid
      (omega arith, omega arith)

-- The last byte before 2 ^ 32, into a pipe that holds ten.
abbrev late : Ringbuf
late = record { hpos = 2 ^ 32 - 11; tpos = 2 ^ 32 - 1; cells = [] }

rbuf_putc-narrow_example :
    let r' = rbuf_putc page_size u64_mod narrow late 7 in
    (r'.tpos ≡ 0)
    × (rbuf_full page_size u64_mod narrow r' ≡ false)
    × (rbuf_empty page_size u64_mod narrow r' ≡ false)
    × (page_size < (r'.tpos + u64_mod - r'.hpos) % u64_mod)
rbuf_putc-narrow_example = rbuf_putc-narrow late 7 refl (omega arith) (omega arith)
