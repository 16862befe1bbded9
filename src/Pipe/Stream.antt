-- ===== src/Pipe/Stream.antt =====
-- A pipe is a first-in first-out stream of bytes, whatever its ends do in whatever order.
use model_lib.Base.{
  ℕ, ◌+◌, ◌-◌, ◌%◌, ◌≤◌, ◌<◌, min, ◌≡◌, refl, sym, ap, ap₂, ◌∙◌, ◌≢◌, ◌↔◌, inl, inr, true, false,
  List, [], ◌∷◌, ◌++◌, arith, ◌==◌, if◌then◌else◌, Bool-cases, length, take, take-append-drop,
  length-take, take-min,
}
use mathlib.Core.List.{append_assoc, append-nil}
use model_lib.Ring.{read_loop, write_loop}
use model_lib.Ring.Refine.{IsValid, contents, rbuf_empty_iff, rbuf_full_iff}
use model_lib.Ring.Loops.{ReadOut, read_loop-ReadOut, WrittenIn, write_loop-WrittenIn}
use model_lib.Pipe.{
  Pipe, Outcome, done, waits, epipe, einval, Side, reader, writer, page_size, u64_mod, empty, full,
  pipe_read, pipe_write, uio_close,
}

-- What the threads do to a pipe, one locked section each.
pub data Op : Type 0 where
  read : ℕ → Op
  write : List ℕ → Op
  close : Side → Op

-- How many bytes a call says that it moved.
abbrev pub moved : Outcome → ℕ
moved (done n) = n
moved waits = 0
moved epipe = 0
moved einval = 0

-- The bytes that the writes offer.
abbrev pub offered : List Op → ℕ
offered [] = 0
offered (read n ∷ ops) = offered ops
offered (write buf ∷ ops) = length buf + offered ops
offered (close s ∷ ops) = offered ops

offered-cons :
    (op : Op) (ops : List Op) (t m : ℕ)
    → t + offered (op ∷ ops) < m
    → t + (offered (op ∷ []) + offered ops) < m
offered-cons (read n) ops t m h = omega arith
offered-cons (write buf) ops t m h = omega arith
offered-cons (close s) ops t m h = omega arith

module _ (fast_mod : ℕ) where
  -- The pipe after the step, the bytes read, and the bytes written.
  pub step : Pipe → Op → Pipe × List ℕ × List ℕ
  step p (read n) = let (p', o, out) = pipe_read fast_mod p false n in (p', out, [])
  step p (write buf) = let (p', o) = pipe_write fast_mod p false buf in (p', [], take (moved o) buf)
  step p (close s) = ((uio_close p s).0, [], [])

  pub run : List Op → Pipe → Pipe × List ℕ × List ℕ
  run [] p = (p, [], [])
  run (op ∷ ops) p = let s = step p op in let r = run ops s.0 in (r.0, s.1 ++ r.1, s.2 ++ r.2)

  abbrev pub Valid : Pipe → Type 0
  Valid p = IsValid page_size u64_mod fast_mod p.rbuf

  abbrev pub queue : Pipe → List ℕ
  queue p = contents page_size u64_mod fast_mod p.rbuf

  -- The positions have not wrapped, and will not for `more` bytes.
  abbrev pub Ahead : Pipe → ℕ → Type 0
  Ahead p more = (p.rbuf.hpos ≤ p.rbuf.tpos) × (p.rbuf.tpos + more < fast_mod)

  module _ (fast_le : fast_mod ≤ u64_mod) where
    divides : (x : ℕ) → x % u64_mod % page_size ≡ x % page_size
    divides x = omega arith

    -- What a read of `n` bytes means.
    pub record Reads (p : Pipe) (n more : ℕ) (r : Pipe × Outcome × List ℕ) : Type 0 where
      pub ahead : Ahead r.0 more
      pub valid : Valid r.0
      pub stream : r.2 ++ queue r.0 ≡ queue p
      pub nothing_left :
          0 < n → queue p ≡ [] → (r.1 ≡ (if p.writers == 0 then done 0 else waits)) × (r.0 ≡ p)
      pub as_many :
          queue p ≢ [] → (r.1 ≡ done (min n (length (queue p)))) × (r.2 ≡ take n (queue p))
      pub ends : (r.0.readers ≡ p.readers) × (r.0.writers ≡ p.writers)

    empty-queue : (p : Pipe) → Valid p → (empty fast_mod p ≡ true) ↔ (queue p ≡ [])
    empty-queue p =
        rbuf_empty_iff page_size u64_mod fast_mod (omega arith) (omega arith) divides p.rbuf

    full-queue : (p : Pipe) → (full fast_mod p ≡ true) ↔ (length (queue p) ≡ page_size)
    full-queue p =
        rbuf_full_iff page_size u64_mod fast_mod (omega arith) (omega arith) divides p.rbuf

    -- A read takes the oldest bytes, as many as there are up to the size of the buffer, and never
    -- waits while there is one; with none it waits, or returns 0 if no writer is left. What is read
    -- and what stays are the bytes that were there, in order. The tail position and `more` bytes stay below
    -- the modulus of uint_fast16_t, as they do behind the read.
    pub pipe_read-Reads :
        (p : Pipe) (n more : ℕ)
        → Valid p
        → Ahead p more
        → Reads p n more (pipe_read fast_mod p false n)
    unfolding pipe_read
    pipe_read-Reads p n more v h0 = elim (Bool-cases (n == 0)) [
      | inl z ↦
          let q : n ≡ 0 = ground arith in
          rw z (record {
            ahead = h0;
            valid = v;
            stream = refl;
            nothing_left = λ h e. absurd (omega arith);
            as_many = λ h. (ap done (omega arith), rw q);
            ends = (refl, refl);
          })
      | inr z ↦ elim (Bool-cases (empty fast_mod p)) [
        | inl e ↦
            let q : queue p ≡ [] = (empty-queue p v).0 e in
            elim (Bool-cases (p.writers == 0)) [
              | inl w ↦ rw (z, e, w) (none_there p n more (done 0) v h0 q (rw w))
              | inr w ↦ rw (z, e, w) (none_there p n more waits v h0 q (rw w))
            ]
        | inr e ↦
            let out = read_loop page_size u64_mod fast_mod n p.rbuf in
            let r : ReadOut page_size u64_mod fast_mod (omega arith) (omega arith) divides fast_le
                p.rbuf n more out =
              read_loop-ReadOut page_size u64_mod fast_mod (omega arith) (omega arith) divides
                fast_le n more p.rbuf v h0 in
            rw (z, e)
              (record {
                ahead = r.ahead;
                valid = r.valid;
                stream = ap₂ ◌++◌ r.bytes r.left ∙ take-append-drop n (queue p);
                nothing_left =
                    λ h q. absurd (let f : false ≡ true = sym e ∙ (empty-queue p v).1 q in cc);
                as_many = λ h. (ap done (ap length r.bytes ∙ length-take n (queue p)), r.bytes);
                ends = (refl, refl);
              })
      ]
    ]
      where
        none_there :
            (p : Pipe) (n more : ℕ) (o : Outcome)
            → Valid p
            → Ahead p more
            → queue p ≡ []
            → o ≡ (if p.writers == 0 then done 0 else waits)
            → Reads p n more (p, o, [])
        none_there p n more o v h0 q e = record {
          ahead = h0;
          valid = v;
          stream = refl;
          nothing_left = λ h z. (e, refl);
          as_many = λ h. absurd (h q);
          ends = (refl, refl);
        }

    -- What a write of `buf` means.
    pub record Writes (p : Pipe) (buf : List ℕ) (more : ℕ) (r : Pipe × Outcome) : Type 0 where
      pub ahead : Ahead r.0 more
      pub valid : Valid r.0
      pub stream : queue r.0 ≡ queue p ++ take (moved r.1) buf
      pub broken : buf ≢ [] → p.readers ≡ 0 → (r.1 ≡ epipe) × (r.0 ≡ p)
      pub no_room :
          buf ≢ [] → p.readers ≢ 0 → length (queue p) ≡ page_size → (r.1 ≡ waits) × (r.0 ≡ p)
      pub as_many :
          p.readers ≢ 0
          → length (queue p) ≢ page_size
          → r.1 ≡ done (min (length buf) (page_size - length (queue p)))
      pub ends : (r.0.readers ≡ p.readers) × (r.0.writers ≡ p.writers)

    -- A write puts as many bytes as there is room for behind the others, in order, and never waits
    -- while there is room for one; without room it waits, and without a reader it fails with
    -- -EPIPE and changes nothing. The count returned says which bytes of `buf` went in.
    -- The tail position with the bytes of `buf` and `more` stays below the modulus of uint_fast16_t.
    pub pipe_write-Writes :
        (p : Pipe) (buf : List ℕ) (more : ℕ)
        → Valid p
        → Ahead p (length buf + more)
        → Writes p buf more (pipe_write fast_mod p false buf)
    unfolding pipe_write
    pipe_write-Writes p [] more v h0 = record {
      ahead = (h0.0, omega arith);
      valid = v;
      stream = sym (append-nil (queue p));
      broken = λ h. absurd (h refl);
      no_room = λ h. absurd (h refl);
      as_many = λ h k. ap done (omega arith);
      ends = (refl, refl);
    }
    pipe_write-Writes p (c ∷ l) more v h0 =
        let buf = c ∷ l in
        let z : (length buf == 0) ≡ false = ground arith in
        elim (Bool-cases (full fast_mod p)) [
          | inl f ↦
              let q : length (queue p) ≡ page_size = (full-queue p).0 f in
              elim (Bool-cases (p.readers == 0)) [
                | inl b ↦
                    rw (z, f, b)
                      (refused p buf more epipe v h0 refl (λ h. refl)
                        (λ h. absurd (h (ground arith))) (λ h k. absurd (k q)))
                | inr b ↦
                    rw (z, f, b)
                      (refused p buf more waits v h0 refl (λ h. absurd (ground arith)) (λ h. refl)
                        (λ h k. absurd (k q)))
              ]
          | inr f ↦ elim (Bool-cases (p.readers == 0)) [
            | inl b ↦
                rw (z, f, b)
                  (refused p buf more epipe v h0 refl (λ h. refl) (λ h. absurd (h (ground arith)))
                    (λ h. absurd (h (ground arith))))
            | inr b ↦
                let out = write_loop page_size u64_mod fast_mod p.rbuf buf 0 in
                let w : WrittenIn page_size u64_mod fast_mod (omega arith) (omega arith) divides
                    fast_le p.rbuf buf 0 more out =
                  write_loop-WrittenIn page_size u64_mod fast_mod (omega arith) (omega arith)
                    divides fast_le buf p.rbuf 0 more v h0 in
                let n : out.1 ≡ min (length buf) (page_size - length (queue p)) =
                  omega (arith, w.taken) in
                rw (z, f, b)
                  (record {
                    ahead = w.ahead;
                    valid = w.valid;
                    stream =
                        w.bytes
                        ∙ ap (λ t. queue p ++ t)
                            (sym (
                              ap (λ k. take k buf) n
                              ∙ take-min buf (page_size - length (queue p))));
                    broken = λ h q. absurd (ground arith);
                    no_room =
                        λ h k q. absurd (let g : false ≡ true = sym f ∙ (full-queue p).1 q in cc);
                    as_many = λ h k. ap done n;
                    ends = (refl, refl);
                  })
          ]
        ]
      where
        refused :
            (p : Pipe) (buf : List ℕ) (more : ℕ) (o : Outcome)
            → Valid p
            → Ahead p (length buf + more)
            → moved o ≡ 0
            → (p.readers ≡ 0 → o ≡ epipe)
            → (p.readers ≢ 0 → o ≡ waits)
            → (p.readers ≢ 0
                → length (queue p) ≢ page_size
                → o ≡ done (min (length buf) (page_size - length (queue p))))
            → Writes p buf more (p, o)
        refused p buf more o v h0 m e w a = record {
          ahead = (h0.0, omega arith);
          valid = v;
          stream = rw m (sym (append-nil (queue p)));
          broken = λ h q. (e q, refl);
          no_room = λ h q k. (w q, refl);
          as_many = a;
          ends = (refl, refl);
        }

    step_stream :
        (p : Pipe) (op : Op) (more : ℕ)
        → Valid p
        → Ahead p (offered (op ∷ []) + more)
        → let (p', out, ins) = step p op in
          Valid p' × Ahead p' more × (out ++ queue p' ≡ queue p ++ ins)
    unfolding step uio_close
    step_stream p (read n) more v h =
        let r = pipe_read-Reads p n more v (h.0, omega arith) in
        (r.valid, r.ahead, r.stream ∙ sym (append-nil (queue p)))
    step_stream p (write buf) more v h =
        let w = pipe_write-Writes p buf more v (h.0, omega arith) in (w.valid, w.ahead, w.stream)
    step_stream p (close reader) more v h = (v, (h.0, omega arith), sym (append-nil (queue p)))
    step_stream p (close writer) more v h = (v, (h.0, omega arith), sym (append-nil (queue p)))

    -- Whatever sequence of reads, writes and closes the threads make of their locked sections: the
    -- bytes read, in order, followed by those still in the pipe, are the bytes that were in it
    -- followed by those that the writes accepted, in order. No byte is lost, repeated or moved, as long as
    -- the tail position and all bytes that the writes offer stay below the modulus of uint_fast16_t.
    pub run_stream :
        (ops : List Op) (p : Pipe)
        → Valid p
        → Ahead p (offered ops)
        → let (p', out, ins) = run ops p in Valid p' × (out ++ queue p' ≡ queue p ++ ins)
    unfolding run
    run_stream [] p v h = (v, sym (append-nil (queue p)))
    run_stream (op ∷ ops) p v h =
        let s = step p op in
        let (v', h', e) =
          step_stream p op (offered ops) v (h.0, offered-cons op ops p.rbuf.tpos fast_mod h.1) in
        let (v'', f) = run_stream ops s.0 v' h' in
        (
          v'',
          append_assoc s.1 (run ops s.0).1 (queue (run ops s.0).0)
              ∙ ap (λ t. s.1 ++ t) f
              ∙ sym (append_assoc s.1 (queue s.0) (run ops s.0).2)
              ∙ ap (λ t. t ++ (run ops s.0).2) e
              ∙ append_assoc (queue p) s.2 (run ops s.0).2,
        )
