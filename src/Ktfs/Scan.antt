-- ===== src/Ktfs/Scan.antt =====
-- The loops of an allocation of sys/ktfs.c find the first clear bit.
use model_lib.Base.{
  ℕ, zero, suc, ◌+◌, ◌-◌, ◌*◌, ◌/◌, ◌%◌, ◌<◌, ◌≡◌, refl, ap, ap₂, ◌∙◌, subst, ◌⊎◌, inl, inr, Bool,
  true, false, Option, none, some, arith, ltb, Bool-cases, ltb→lt, ltb→ge,
}
use model_lib.Ktfs.{Disk, write_byte, bit_set, set_bit, scan_bits, scan_bytes, scan_blocks}

-- The `len` tests of `p` from `lo` on are all true.
abbrev pub AllSet : (ℕ → Bool) → ℕ → ℕ → Type 0
AllSet p lo len = (x : ℕ) → x < len → p (lo + x) ≡ true

-- The first test of `p` that is false, from `lo` on, is `m` further.
abbrev pub FirstClear : (ℕ → Bool) → ℕ → ℕ → Type 0
FirstClear p lo m = (p (lo + m) ≡ false) × AllSet p lo m

-- Tests numbered in another way.
pub AllSet-shift :
    (p q : ℕ → Bool) (lo lo' len : ℕ)
    → ((x : ℕ) → x < len → q (lo' + x) ≡ p (lo + x))
    → AllSet p lo len
    → AllSet q lo' len
AllSet-shift p q lo lo' len e h x k = e x k ∙ h x k

pub FirstClear-shift :
    (p q : ℕ → Bool) (lo lo' m : ℕ)
    → ((x : ℕ) → x < m + 1 → q (lo' + x) ≡ p (lo + x))
    → FirstClear p lo m
    → FirstClear q lo' m
FirstClear-shift p q lo lo' m e (c, h) = (e m (omega arith) ∙ c, λ x k. e x (omega arith) ∙ h x k)

pub AllSet-append :
    (p : ℕ → Bool) (lo a b : ℕ) → AllSet p lo a → AllSet p (lo + a) b → AllSet p lo (a + b)
AllSet-append p lo a b h g x k = elim (Bool-cases (ltb x a)) [
  | inl e ↦ h x (ltb→lt x a e)
  | inr e ↦
      let ge = ltb→ge x a e in
      subst (λ y. p y ≡ true) (let q : lo + a + (x - a) ≡ lo + x = omega arith in q)
        (g (x - a) (omega arith))
]

pub FirstClear-append :
    (p : ℕ → Bool) (lo a m : ℕ) → AllSet p lo a → FirstClear p (lo + a) m → FirstClear p lo (a + m)
FirstClear-append p lo a m h (c, g) =
    (subst (λ y. p y ≡ false) (omega arith) c, AllSet-append p lo a m h g)

-- What the innermost loop finds.
pub scan_bits-First :
    (left k byte n : ℕ)
    → ((scan_bits left k byte n ≡ (n + left, none)) × AllSet (bit_set byte) k left)
      ⊎ ((m : ℕ) × (scan_bits left k byte n ≡ (n + m, some (k + m)))
          × (m < left)
          × FirstClear (bit_set byte) k m)
unfolding scan_bits
scan_bits-First zero k byte n = inl (ap (λ (t : ℕ). (t, none)) (omega arith), λ x h. ground arith)
scan_bits-First (suc left) k byte n = elim (Bool-cases (bit_set byte k)) [
  | inr e ↦ inr (
    0,
    rw e (ap₂ (λ (a b : ℕ). (a, some b)) (omega arith) (omega arith)),
    omega arith,
    (subst (λ y. bit_set byte y ≡ false) (omega arith) e, λ x h. ground arith),
  )
  | inl e ↦
      let one : AllSet (bit_set byte) k 1 =
        λ x h. subst (λ y. bit_set byte y ≡ true) (omega arith) e in
      elim (scan_bits-First left (k + 1) byte (n + 1)) [
        | inl (r, h) ↦ inl (
          rw e (r ∙ ap (λ (t : ℕ). (t, none)) (omega arith)),
          subst (λ y. AllSet (bit_set byte) k y) (omega arith)
              (AllSet-append (bit_set byte) k 1 left one h),
        )
        | inr (m, r, lt, f) ↦ inr (
          1 + m,
          rw e (r ∙ ap₂ (λ (a b : ℕ). (a, some b)) (omega arith) (omega arith)),
          omega arith,
          FirstClear-append (bit_set byte) k 1 m one f,
        )
      ]
]

-- The bits of one bitmap block, numbered through, and a bit of it set.
abbrev pub block_bit : Disk → ℕ → ℕ → Bool
block_bit d pos x = bit_set (d pos (x / 8)) (x % 8)

abbrev pub set_at : Disk → ℕ → ℕ → Disk
set_at d pos x = write_byte d pos (x / 8) (set_bit (d pos (x / 8)) (x % 8))

at-div : (j x : ℕ) → x < 8 → (8 * j + x) / 8 ≡ j
at-div j x h = omega arith

at-mod : (j x : ℕ) → x < 8 → (8 * j + x) % 8 ≡ x
at-mod j x h = omega arith

zero-add : (x : ℕ) → 0 + x ≡ x
zero-add x = omega arith

block_bit-at :
    (d : Disk) (pos j x : ℕ) → x < 8 → block_bit d pos (8 * j + x) ≡ bit_set (d pos j) (0 + x)
block_bit-at d pos j x h = rw (at-div j x h, at-mod j x h, zero-add x) refl

set_at-at :
    (d : Disk) (pos j x : ℕ)
    → x < 8
    → write_byte d pos j (set_bit (d pos j) x) ≡ set_at d pos (8 * j + x)
set_at-at d pos j x h = rw (at-div j x h, at-mod j x h) refl

-- A round of the middle loop, from what the innermost loop found.
byte_step : Disk → ℕ → ℕ → ℕ → ℕ × Option ℕ → Disk × ℕ × Bool
byte_step d pos left j s = elim s.1 [
  | none ↦ scan_bytes d pos left (j + 1) s.0
  | some k ↦ (write_byte d pos j (set_bit (d pos j) k), s.0, true)
]

scan_bytes-step :
    (d : Disk) (pos left j n : ℕ) (s : ℕ × Option ℕ)
    → scan_bits 8 0 (d pos j) n ≡ s
    → scan_bytes d pos (suc left) j n ≡ byte_step d pos left j s
unfolding scan_bytes byte_step
scan_bytes-step d pos left j n s e = ap (byte_step d pos left j) e

-- What the middle loop finds.
pub scan_bytes-First :
    (d : Disk) (pos left j n : ℕ)
    → ((scan_bytes d pos left j n ≡ (d, n + 8 * left, false))
        × AllSet (block_bit d pos) (8 * j) (8 * left))
      ⊎ ((m : ℕ) × (scan_bytes d pos left j n ≡ (set_at d pos (8 * j + m), n + m, true))
          × (m < 8 * left)
          × FirstClear (block_bit d pos) (8 * j) m)
unfolding scan_bytes byte_step
scan_bytes-First d pos zero j n =
    inl (ap (λ (t : ℕ). (d, t, false)) (omega arith), λ x h. ground arith)
scan_bytes-First d pos (suc left) j n = elim (scan_bits-First 8 0 (d pos j) n) [
  | inr (m, r, lt, f) ↦ inr (
    m,
    scan_bytes-step d pos left j n _ (r ∙ ap (λ (t : ℕ). (n + m, some t)) (zero-add m))
        ∙ ap (λ (t : Disk). (t, n + m, true)) (set_at-at d pos j m lt),
    omega arith,
    FirstClear-shift (bit_set (d pos j)) (block_bit d pos) 0 (8 * j) m
        (λ x h. block_bit-at d pos j x (omega arith)) f,
  )
  | inl (r, h) ↦
      let here : AllSet (block_bit d pos) (8 * j) 8 =
        AllSet-shift (bit_set (d pos j)) (block_bit d pos) 0 (8 * j) 8 (block_bit-at d pos j) h in
      let e : 8 * (j + 1) ≡ 8 * j + 8 = omega arith in
      elim (scan_bytes-First d pos left (j + 1) (n + 8)) [
        | inl (r', g) ↦ inl (
          scan_bytes-step d pos left j n _ r ∙ r' ∙ ap (λ (t : ℕ). (d, t, false)) (omega arith),
          subst (λ y. AllSet (block_bit d pos) (8 * j) y) (omega arith)
              (AllSet-append (block_bit d pos) (8 * j) 8 (8 * left) here
                (subst (λ y. AllSet (block_bit d pos) y (8 * left)) e g)),
        )
        | inr (m, r', lt, f) ↦ inr (
          8 + m,
          scan_bytes-step d pos left j n _ r
              ∙ r'
              ∙ ap₂ (λ (a b : ℕ). (set_at d pos a, b, true)) (omega arith) (omega arith),
          omega arith,
          FirstClear-append (block_bit d pos) (8 * j) 8 m here
              (subst (λ y. FirstClear (block_bit d pos) y m) e f),
        )
      ]
]

module _ (bitmap : ℕ → ℕ) where
  -- The bits of a bitmap, numbered through its blocks, and a bit of it set.
  abbrev pub map_bit : Disk → ℕ → Bool
  map_bit d x = block_bit d (bitmap (x / 4096)) (x % 4096)

  abbrev pub set_item : Disk → ℕ → Disk
  set_item d x = set_at d (bitmap (x / 4096)) (x % 4096)

  item-div : (i x : ℕ) → x < 4096 → (4096 * i + x) / 4096 ≡ i
  item-div i x h = omega arith

  item-mod : (i x : ℕ) → x < 4096 → (4096 * i + x) % 4096 ≡ x
  item-mod i x h = omega arith

  map_bit-at :
      (d : Disk) (i x : ℕ)
      → x < 4096
      → map_bit d (4096 * i + x) ≡ block_bit d (bitmap i) (8 * 0 + x)
  map_bit-at d i x h = rw (item-div i x h, item-mod i x h, zero-add x) refl

  set_item-at :
      (d : Disk) (i x : ℕ) → x < 4096 → set_at d (bitmap i) (8 * 0 + x) ≡ set_item d (4096 * i + x)
  set_item-at d i x h = rw (item-div i x h, item-mod i x h, zero-add x) refl

  -- What the outermost loop finds.
  pub scan_blocks-First :
      (d : Disk) (left i n : ℕ)
      → ((scan_blocks bitmap d left i n ≡ (d, n + 4096 * left, false))
          × AllSet (map_bit d) (4096 * i) (4096 * left))
        ⊎ ((m : ℕ) × (scan_blocks bitmap d left i n ≡ (set_item d (4096 * i + m), n + m, true))
            × (m < 4096 * left)
            × FirstClear (map_bit d) (4096 * i) m)
  unfolding scan_blocks
  scan_blocks-First d zero i n =
      inl (ap (λ (t : ℕ). (d, t, false)) (omega arith), λ x h. ground arith)
  scan_blocks-First d (suc left) i n = elim (scan_bytes-First d (bitmap i) 512 0 n) [
    | inr (m, r, lt, f) ↦ inr (
      m,
      rw r (ap (λ (t : Disk). (t, n + m, true)) (set_item-at d i m lt)),
      omega arith,
      FirstClear-shift (block_bit d (bitmap i)) (map_bit d) (8 * 0) (4096 * i) m
          (λ x h. map_bit-at d i x (omega arith)) f,
    )
    | inl (r, h) ↦
        let here : AllSet (map_bit d) (4096 * i) 4096 =
          AllSet-shift (block_bit d (bitmap i)) (map_bit d) (8 * 0) (4096 * i) 4096 (map_bit-at d i)
            h in
        let e : 4096 * (i + 1) ≡ 4096 * i + 4096 = omega arith in
        elim (scan_blocks-First d left (i + 1) (n + 4096)) [
          | inl (r', g) ↦ inl (
            rw r (r' ∙ ap (λ (t : ℕ). (d, t, false)) (omega arith)),
            subst (λ y. AllSet (map_bit d) (4096 * i) y) (omega arith)
                (AllSet-append (map_bit d) (4096 * i) 4096 (4096 * left) here
                  (subst (λ y. AllSet (map_bit d) y (4096 * left)) e g)),
          )
          | inr (m, r', lt, f) ↦ inr (
            4096 + m,
            rw r (r' ∙ ap₂ (λ (a b : ℕ). (set_item d a, b, true)) (omega arith) (omega arith)),
            omega arith,
            FirstClear-append (map_bit d) (4096 * i) 4096 m here
                (subst (λ y. FirstClear (map_bit d) y m) e f),
          )
        ]
  ]
