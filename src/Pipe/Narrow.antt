-- ===== src/Pipe/Narrow.antt =====
-- Pipes where uint_fast16_t is narrower than the positions of a ring buffer, as it is for a
-- compiler that makes it a 32-bit type.
use model_lib.Base.{ℕ, ◌+◌, ◌-◌, ◌%◌, ◌^◌, ◌≤◌, ◌<◌, ◌≡◌, false, arith}
use model_lib.Ring.{Ringbuf, rbuf_empty, rbuf_full, rbuf_putc}
use model_lib.Pipe.{page_size, u64_mod}

-- The modulus of a 32-bit uint_fast16_t.
abbrev pub narrow : ℕ
narrow = 2 ^ 32

-- If uint_fast16_t has 32 bits, then a byte written at position 2 ^ 32 - 1 sets the 64-bit tail
-- position back to 0, behind the head: the buffer then reads as neither full nor empty and as
-- holding more bytes than it has room for, so that the next writes are not held back.
pub rbuf_putc-narrow :
    (r : Ringbuf) (c : ℕ)
    → r.tpos ≡ narrow - 1
    → r.hpos ≤ r.tpos
    → r.tpos < r.hpos + page_size
    → let r' = rbuf_putc page_size u64_mod narrow r c in
      (r'.tpos ≡ 0)
      × (rbuf_full page_size u64_mod narrow r' ≡ false)
      × (rbuf_empty page_size u64_mod narrow r' ≡ false)
      × (page_size < (r'.tpos + u64_mod - r'.hpos) % u64_mod)
unfolding rbuf_putc rbuf_full rbuf_empty
rbuf_putc-narrow r c e h k = (ground arith, ground arith, ground arith, ground arith)
