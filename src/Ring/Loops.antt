-- ===== src/Ring/Loops.antt =====
-- The copy loops over a ring buffer move bytes between a queue and a user's buffer in order.
use model_lib.Base.{
  ℕ, zero, suc, ◌+◌, ◌-◌, ◌%◌, ◌≤◌, ◌<◌, min, ◌≡◌, refl, sym, ap, ◌∙◌, ◌≢◌, ◌↔◌, inl, inr, true,
  false, List, [], ◌∷◌, ◌++◌, arith, ◌==◌, Bool-cases, ==→ne, length, take, drop, length-append,
  take-nil,
}
use mathlib.Core.List.{append_assoc, append-nil}
use native.Mathlib.Nat.{mod-eq_of_lt}
use model_lib.Ring.{
  next, Ringbuf, rbuf_empty, rbuf_full, rbuf_putc, rbuf_getc, read_loop, write_loop,
}
use model_lib.Ring.Refine.{
  IsValid, contents, count, Advances, length-contents, rbuf_empty_iff, rbuf_full_iff,
  rbuf_putc_refines, rbuf_getc_refines,
}

module _ (sz pos_mod fast_mod : ℕ) (pos : 0 < sz) (wide : sz < pos_mod)
    (divides : (x : ℕ) → x % pos_mod % sz ≡ x % sz) (fast_le : fast_mod ≤ pos_mod) where
  abbrev Valid : Ringbuf → Type 0
  Valid = IsValid sz pos_mod fast_mod

  abbrev queue : Ringbuf → List ℕ
  queue = contents sz pos_mod fast_mod

  empty-queue : (r : Ringbuf) → Valid r → (rbuf_empty sz pos_mod fast_mod r ≡ true) ↔ (queue r ≡ [])
  empty-queue = rbuf_empty_iff sz pos_mod fast_mod pos wide divides

  not_empty :
      (r : Ringbuf)
      → Valid r
      → rbuf_empty sz pos_mod fast_mod r ≡ false
      → 0 < count sz pos_mod fast_mod r
  not_empty r v e = elim (Bool-cases (count sz pos_mod fast_mod r == 0)) [
    | inl z ↦
        let q : count sz pos_mod fast_mod r ≡ 0 = ground arith in
        let t : rbuf_empty sz pos_mod fast_mod r ≡ true = (empty-queue r v).1 (rw q) in
        absurd (let f : false ≡ true = sym e ∙ t in cc)
    | inr z ↦ ground arith
  ]

  -- The positions have not wrapped, and will not for `more` more bytes.
  abbrev pub Ahead : Ringbuf → ℕ → Type 0
  Ahead r more = (r.hpos ≤ r.tpos) × (r.tpos + more < fast_mod)

  step_in : (t : ℕ) → t + 1 < fast_mod → next sz pos_mod fast_mod t ≡ t + 1
  step_in t h =
      let a : t % fast_mod ≡ t = mod-eq_of_lt (omega arith) in
      let b : (t + 1) % fast_mod ≡ t + 1 = mod-eq_of_lt h in
      let c : (t + 1) % pos_mod ≡ t + 1 = mod-eq_of_lt (omega arith) in rw (a, b, c) refl

  exact : (t : ℕ) → t + 1 < fast_mod → Advances sz pos_mod fast_mod t
  exact t h = (mod-eq_of_lt (omega arith), step_in t h ∙ sym (mod-eq_of_lt (omega arith)))

  -- What the reading loop gives: the first `n` bytes, and the queue without them.
  pub record ReadOut (r : Ringbuf) (n more : ℕ) (out : Ringbuf × List ℕ) : Type 0 where
    pub ahead : Ahead out.0 more
    pub valid : Valid out.0
    pub bytes : out.1 ≡ take n (queue r)
    pub left : queue out.0 ≡ drop n (queue r)

  pub read_loop-ReadOut :
      (n more : ℕ) (r : Ringbuf)
      → Valid r
      → Ahead r more
      → ReadOut r n more (read_loop sz pos_mod fast_mod n r)
  unfolding read_loop rbuf_empty rbuf_getc
  read_loop-ReadOut zero more r v a = record { ahead = a; valid = v; bytes = refl; left = refl }
  read_loop-ReadOut (suc n) more r v a = elim (Bool-cases (rbuf_empty sz pos_mod fast_mod r)) [
    | inl e ↦
        let q : queue r ≡ [] = (empty-queue r v).0 e in
        rw e (record { ahead = a; valid = v; bytes = rw q; left = rw q })
    | inr e ↦
        let apart = ==→ne r.hpos r.tpos e in
        let some_left : 0 < count sz pos_mod fast_mod r = not_empty r v e in
        let g = rbuf_getc sz pos_mod fast_mod r in
        let (v', c) =
          rbuf_getc_refines sz pos_mod fast_mod pos wide divides r v some_left
            (exact r.hpos (omega arith)) in
        let a' : Ahead g.0 more = rw (step_in r.hpos (omega arith)) (omega arith, a.1) in
        let ih : ReadOut g.0 n more (read_loop sz pos_mod fast_mod n g.0) =
          read_loop-ReadOut n more g.0 v' a' in
        rw e (record {
          ahead = ih.ahead;
          valid = ih.valid;
          bytes = rw (c, ih.bytes);
          left = rw (c, ih.left);
        })
  ]

  below :
      (r : Ringbuf) → Valid r → count sz pos_mod fast_mod r ≢ sz → count sz pos_mod fast_mod r < sz
  below r v ne = omega (arith, v.bounded)

  -- What the writing loop gives: as many bytes as there is room for, behind the others.
  pub record WrittenIn (r : Ringbuf) (buf : List ℕ) (w more : ℕ) (out : Ringbuf × ℕ) : Type 0 where
    pub ahead : Ahead out.0 more
    pub valid : Valid out.0
    pub taken : out.1 ≡ w + min (length buf) (sz - length (queue r))
    pub bytes : queue out.0 ≡ queue r ++ take (sz - length (queue r)) buf

  pub write_loop-WrittenIn :
      (buf : List ℕ) (r : Ringbuf) (w more : ℕ)
      → Valid r
      → Ahead r (length buf + more)
      → WrittenIn r buf w more (write_loop sz pos_mod fast_mod r buf w)
  unfolding write_loop rbuf_putc
  write_loop-WrittenIn [] r w more v a = record {
    ahead = (a.0, omega arith);
    valid = v;
    taken = omega arith;
    bytes = rw (take-nil (sz - length (queue r)), append-nil);
  }
  write_loop-WrittenIn (c ∷ buf) r w more v a =
      elim (Bool-cases (rbuf_full sz pos_mod fast_mod r)) [
        | inl e ↦
            let q : length (queue r) ≡ sz =
              (rbuf_full_iff sz pos_mod fast_mod pos wide divides r).0 e in
            let z : sz - length (queue r) ≡ 0 = omega arith in
            rw e (record {
              ahead = (a.0, omega arith);
              valid = v;
              taken = omega arith;
              bytes = rw (z, append-nil);
            })
        | inr e ↦
            let len : length (queue r) ≡ count sz pos_mod fast_mod r =
              length-contents sz pos_mod fast_mod pos wide divides r in
            let full = rbuf_full_iff sz pos_mod fast_mod pos wide divides r in
            let room : count sz pos_mod fast_mod r < sz =
              below r v (λ q. absurd (let f : false ≡ true = sym e ∙ full.1 (len ∙ q) in cc)) in
            let r' = rbuf_putc sz pos_mod fast_mod r c in
            let (v', q) =
              rbuf_putc_refines sz pos_mod fast_mod pos wide divides r c v room
                (exact r.tpos (omega arith)) in
            let a' : Ahead r' (length buf + more) =
              rw (step_in r.tpos (omega arith)) (omega arith, omega arith) in
            let ih : WrittenIn r' buf (w + 1) more (write_loop sz pos_mod fast_mod r' buf (w + 1)) =
              write_loop-WrittenIn buf r' (w + 1) more v' a' in
            let l : length (queue r') ≡ length (queue r) + 1 =
              ap length q ∙ length-append (queue r) (c ∷ []) in
            let k : sz - length (queue r) ≡ suc (sz - length (queue r')) = omega (arith, l, len) in
            rw e (record {
              ahead = ih.ahead;
              valid = ih.valid;
              taken = omega (arith, ih.taken, k);
              bytes = ih.bytes ∙ rw (k, q, append_assoc);
            })
      ]
