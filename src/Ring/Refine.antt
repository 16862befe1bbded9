-- ===== src/Ring/Refine.antt =====
-- The ring buffer behaves as a queue of at most `sz` bytes, as long as its positions advance
-- exactly.
use model_lib.Base.{
  ℕ, zero, suc, ◌+◌, ◌-◌, ◌%◌, ◌≤◌, ◌<◌, ◌≡◌, refl, sym, ap, ap₂, ◌∙◌, ◌≢◌, ◌↔◌, inl, inr, true,
  List, [], ◌∷◌, ◌++◌, arith, ltb, if◌then◌else◌, Bool-cases, ==_iff, length, set, get_or,
  length-set, get_or-set_self, get_or-set_ne,
}
use native.Mathlib.Nat.{mod-add-mod, mod-eq_of_lt, mod-eq-sub-mod, mod-lt, mod_self}
use model_lib.Ring.{Ringbuf, rbuf_empty, rbuf_full, next, rbuf_putc, rbuf_getc}

-- Subtraction of positions.
pub sub-mod : (a b m : ℕ) → a < m → b < m → (a + m - b) % m ≡ (if ltb a b then a + m - b else a - b)
sub-mod a b m ha hb = elim (Bool-cases (ltb a b)) [
  | inl p ↦ rw p (mod-eq_of_lt (ground arith))
  | inr p ↦ rw p (mod-eq-sub-mod {n = a + m - b} {m = m} (ground arith) ∙ small (ground arith))
]
  where
    small : b ≤ a → (a + m - b - m) % m ≡ a - b
    small h = let q : a + m - b - m ≡ a - b = omega arith in rw q (mod-eq_of_lt (omega arith))

pub suc-mod_cases : (a m : ℕ) → a < m → (a + 1) % m ≡ (if ltb (a + 1) m then a + 1 else 0)
suc-mod_cases a m h = elim (Bool-cases (ltb (a + 1) m)) [
  | inl p ↦ rw p (mod-eq_of_lt (ground arith))
  | inr p ↦ rw p (let q : a + 1 ≡ m = ground arith in rw (q, mod_self))
]

module _ (sz pos_mod fast_mod : ℕ) where
  abbrev pub count : Ringbuf → ℕ
  count r = (r.tpos + pos_mod - r.hpos) % pos_mod

  -- The positions are in range, and the buffer holds at most `sz` bytes.
  pub record IsValid (r : Ringbuf) : Type 0 where
    pub room : length r.cells ≡ sz
    pub head_in : r.hpos < pos_mod
    pub tail_in : r.tpos < pos_mod
    pub bounded : count r ≤ sz

  -- The `n` bytes from position `h` on.
  abbrev pub window : List ℕ → ℕ → ℕ → List ℕ
  window cells h zero = []
  window cells h (suc n) = get_or cells (h % sz) 0 ∷ window cells (h + 1) n

  -- The bytes that the buffer holds, oldest first.
  abbrev pub contents : Ringbuf → List ℕ
  contents r = window r.cells r.hpos (count r)

  -- The position advances by one: nothing is lost on the way through uint_fast16_t.
  abbrev pub Advances : ℕ → Type 0
  Advances t = (t % fast_mod ≡ t) × (next sz pos_mod fast_mod t ≡ (t + 1) % pos_mod)

  module _ (pos : 0 < sz) (wide : sz < pos_mod)
      (divides : (x : ℕ) → x % pos_mod % sz ≡ x % sz) where
    length-window : (cells : List ℕ) (h n : ℕ) → length (window cells h n) ≡ n
    length-window cells h zero = refl
    length-window cells h (suc n) = ap suc (length-window cells (h + 1) n)

    -- Only the position's remainder counts.
    window_cong :
        (cells : List ℕ) (h h' n : ℕ) → h % sz ≡ h' % sz → window cells h n ≡ window cells h' n
    window_cong cells h h' zero e = refl
    window_cong cells h h' (suc n) e =
        let q : (h + 1) % sz ≡ (h' + 1) % sz =
          sym (mod-add-mod h sz 1) ∙ ap (λ (t : ℕ). (t + 1) % sz) e ∙ mod-add-mod h' sz 1 in
        ap₂ (λ a l. get_or cells a 0 ∷ l) e (window_cong cells (h + 1) (h' + 1) n q)

    -- Fewer than `sz` steps round the buffer do not come back.
    add-mod-ne : (h k : ℕ) → 0 < k → k < sz → (h + k) % sz ≢ h % sz
    add-mod-ne h k hk ks e = elim (Bool-cases (ltb (h % sz + k) sz)) [
      | inl p ↦
          omega (arith, mod-add-mod h sz k, mod-eq_of_lt {n = h % sz + k} {m = sz} (ground arith))
      | inr p ↦
          let le : sz ≤ h % sz + k = ground arith in
          let lt : h % sz < sz = mod-lt h pos in
          omega (
            arith,
            mod-add-mod h sz k,
            mod-eq-sub-mod {n = h % sz + k} {m = sz} le,
            mod-eq_of_lt {n = h % sz + k - sz} {m = sz} (omega arith),
          )
    ]

    -- The position behind the last byte.
    tail_pos :
        (t h : ℕ) → t < pos_mod → h < pos_mod → t ≡ (h + (t + pos_mod - h) % pos_mod) % pos_mod
    tail_pos t h ht hh = elim (Bool-cases (ltb t h)) [
      | inl p ↦
          let c : (t + pos_mod - h) % pos_mod ≡ t + pos_mod - h =
            ground (arith, sub-mod t h pos_mod ht hh) in
          let s : h + (t + pos_mod - h) ≡ t + pos_mod = ground arith in
          rw (c, s)
            (omega (
              arith,
              mod-eq-sub-mod {n = t + pos_mod} {m = pos_mod} (omega arith),
              ap (λ (k : ℕ). k % pos_mod) (let z : t + pos_mod - pos_mod ≡ t = omega arith in z),
              mod-eq_of_lt ht,
            ))
      | inr p ↦
          let c : (t + pos_mod - h) % pos_mod ≡ t - h = ground (arith, sub-mod t h pos_mod ht hh) in
          let s : h + (t - h) ≡ t = ground arith in rw (c, s) (sym (mod-eq_of_lt ht))
    ]

    count_next :
        (t h : ℕ)
        → t < pos_mod
        → h < pos_mod
        → (t + pos_mod - h) % pos_mod + 1 < pos_mod
        → ((t + 1) % pos_mod + pos_mod - h) % pos_mod ≡ (t + pos_mod - h) % pos_mod + 1
    count_next t h ht hh room = ground (
      arith,
      suc-mod_cases t pos_mod ht,
      sub-mod t h pos_mod ht hh,
      sub-mod ((t + 1) % pos_mod) h pos_mod (mod-lt (t + 1) (omega arith)) hh,
    )

    count_prev :
        (t h : ℕ)
        → t < pos_mod
        → h < pos_mod
        → 0 < (t + pos_mod - h) % pos_mod
        → (t + pos_mod - (h + 1) % pos_mod) % pos_mod + 1 ≡ (t + pos_mod - h) % pos_mod
    count_prev t h ht hh some_left = ground (
      arith,
      suc-mod_cases h pos_mod hh,
      sub-mod t h pos_mod ht hh,
      sub-mod t ((h + 1) % pos_mod) pos_mod ht (mod-lt (h + 1) (omega arith)),
    )

    -- Writing just past a window extends it by that byte.
    window-set :
        (cells : List ℕ) (c n h i : ℕ)
        → length cells ≡ sz
        → n < sz
        → i ≡ (h + n) % sz
        → window (set cells i c) h (suc n) ≡ window cells h n ++ (c ∷ [])
    window-set cells c zero h i len hn e =
        let q : i ≡ h % sz = e ∙ ap (λ (t : ℕ). t % sz) (omega arith) in
        rw q (ap (λ a. a ∷ []) (get_or-set_self cells (h % sz) c 0 (omega (arith, mod-lt h pos))))
    window-set cells c (suc n) h i len hn e =
        ap₂ ◌∷◌ (get_or-set_ne cells c 0 (λ q. add-mod-ne h (suc n) (omega arith) hn (sym e ∙ q))) (
          window-set cells c n (h + 1) i len (omega arith)
            (e ∙ ap (λ (t : ℕ). t % sz) (omega arith)))

    pub length-contents : (r : Ringbuf) → length (contents r) ≡ count r
    length-contents r = length-window r.cells r.hpos (count r)

    -- A byte put into a buffer that is not full goes behind the others, if the tail position advances
    -- exactly (the size is positive and divides the modulus of the positions).
    pub rbuf_putc_refines :
        (r : Ringbuf) (c : ℕ)
        → IsValid r
        → count r < sz
        → Advances r.tpos
        → IsValid (rbuf_putc sz pos_mod fast_mod r c)
          × (contents (rbuf_putc sz pos_mod fast_mod r c) ≡ contents r ++ (c ∷ []))
    unfolding rbuf_putc
    rbuf_putc_refines r c v room a =
        let t : next sz pos_mod fast_mod r.tpos ≡ (r.tpos + 1) % pos_mod = a.1 in
        let n : ((r.tpos + 1) % pos_mod + pos_mod - r.hpos) % pos_mod ≡ count r + 1 =
          count_next r.tpos r.hpos v.tail_in v.head_in (omega arith) in
        let i : r.tpos % sz ≡ (r.hpos + count r) % sz =
          ap (λ (t : ℕ). t % sz) (tail_pos r.tpos r.hpos v.tail_in v.head_in)
          ∙ divides (r.hpos + count r) in
        rw (t, a.0)
          (
            record {
              room = length-set r.cells (r.tpos % sz) c ∙ v.room;
              head_in = v.head_in;
              tail_in = mod-lt (r.tpos + 1) (omega arith);
              bounded = omega (arith, n, room);
            },
            rw n (
                let q : count r + 1 ≡ suc (count r) = omega arith in
                rw q (window-set r.cells c (count r) r.hpos (r.tpos % sz) v.room room i)),
          )

    -- The byte got from a buffer that is not empty is the oldest, and the others stay, if the head
    -- position advances exactly (the size is positive and divides the modulus of the positions).
    pub rbuf_getc_refines :
        (r : Ringbuf)
        → IsValid r
        → 0 < count r
        → Advances r.hpos
        → let (r', c) = rbuf_getc sz pos_mod fast_mod r in
          IsValid r' × (contents r ≡ c ∷ contents r')
    unfolding rbuf_getc
    rbuf_getc_refines r v some_left a =
        let h : next sz pos_mod fast_mod r.hpos ≡ (r.hpos + 1) % pos_mod = a.1 in
        let n : (r.tpos + pos_mod - (r.hpos + 1) % pos_mod) % pos_mod + 1 ≡ count r =
          count_prev r.tpos r.hpos v.tail_in v.head_in some_left in
        let q : count r ≡ suc ((r.tpos + pos_mod - (r.hpos + 1) % pos_mod) % pos_mod) =
          omega (arith, n) in
        rw (h, a.0)
          (
            record {
              room = v.room;
              head_in = mod-lt (r.hpos + 1) (omega arith);
              tail_in = v.tail_in;
              bounded = omega (arith, n, v.bounded);
            },
            rw q (
                ap (◌∷◌ (get_or r.cells (r.hpos % sz) 0)) (
                  window_cong r.cells (r.hpos + 1) ((r.hpos + 1) % pos_mod) _
                    (sym (divides (r.hpos + 1))))),
          )

    -- The tests say whether the queue is empty, and whether it is at its bound.
    pub rbuf_empty_iff :
        (r : Ringbuf) → IsValid r → (rbuf_empty sz pos_mod fast_mod r ≡ true) ↔ (contents r ≡ [])
    unfolding rbuf_empty
    rbuf_empty_iff r v =
        let c = sub-mod r.tpos r.hpos pos_mod v.tail_in v.head_in in
        (
          (λ e. let z : count r ≡ 0 = ground (arith, c) in rw z),
          (λ e. let z : count r ≡ 0 = sym (length-contents r) ∙ ap length e in ground (arith, c)),
        )

    pub rbuf_full_iff :
        (r : Ringbuf) → (rbuf_full sz pos_mod fast_mod r ≡ true) ↔ (length (contents r) ≡ sz)
    unfolding rbuf_full
    rbuf_full_iff r = rw (length-contents r) (==_iff (count r) sz)
