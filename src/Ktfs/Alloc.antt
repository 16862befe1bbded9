-- ===== src/Ktfs/Alloc.antt =====
-- What an allocation and a release of sys/ktfs.c do to the two bitmaps.
use model_lib.Base.{
  ℕ, ◌+◌, ◌-◌, ◌*◌, ◌/◌, ◌%◌, ◌^◌, ◌≤◌, ◌<◌, ◌≡◌, refl, sym, ap, ap₂, ◌∙◌, subst, ◌⊎◌, inl, inr,
  Bool, true, false, not, ◌&&◌, ◌||◌, arith, if◌then◌else◌,
}
use native.Mathlib.Nat.{mod-eq_of_lt}
use model_lib.Ktfs.{
  Disk, Superblock, u32_mod, u16_mod, get_inode_bitmap, get_data_bitmap, write_byte, bit_set,
  set_bit, clear_bit, scan_blocks, allocate_data_block, allocate_inode, free_bit, free_data_block,
  free_inode,
}
use model_lib.Ktfs.Bits.{
  bit_set-set_bit, bit_set-clear_bit, set_bit-bound, clear_bit-bound, clear_bit-set_bit,
}
use model_lib.Ktfs.Scan.{AllSet, FirstClear, map_bit, set_item, scan_blocks-First}
use model_lib.Ktfs.Bitmap.{
  IsBytes, Apart, BitWritten, written-BitWritten, written, write_byte-undo, write_byte-at, mod-mod,
}

-- To clear the bit that was just set.
pub free_bit-set_item :
    (bitmap : ℕ → ℕ) (d : Disk) (m : ℕ)
    → IsBytes d
    → map_bit bitmap d m ≡ false
    → free_bit bitmap (set_item bitmap d m) m ≡ d
unfolding free_bit
free_bit-set_item bitmap d m b e =
    let pos = bitmap (m / 4096) in
    let off = m % 4096 / 8 in
    let v = set_bit (d pos off) (m % 4096 % 8) in
    let e' : clear_bit (write_byte d pos off v pos off) (m % 8) ≡ d pos off =
      ap (λ (t : ℕ). clear_bit t (m % 8)) (write_byte-at d pos off v)
      ∙ ap (λ (k : ℕ). clear_bit (set_bit (d pos off) k) (m % 8)) (mod-mod m)
      ∙ clear_bit-set_bit (d pos off) (m % 8) (b pos off) (omega arith)
          (subst (λ k. bit_set (d pos off) k ≡ false) (mod-mod m) e) in
    write_byte-undo d pos off v _ (sym e')

module _ (bitmap : ℕ → ℕ) (c : ℕ) where
  -- One item was taken: it is the first clear one, and nothing but its bit changed.
  abbrev pub Takes : Disk → ℕ → Disk → Type 0
  Takes d m d' =
      (m < 4096 * c)
      × FirstClear (map_bit bitmap d) 0 m
      × BitWritten bitmap c m (λ is_m was. is_m || was) d d'

  -- Either every item was taken before and nothing changes, or the first free one is taken.
  abbrev pub Allocates : ℕ → Disk → Disk × ℕ → Type 0
  Allocates failed d r =
      (AllSet (map_bit bitmap d) 0 (4096 * c) × (r ≡ (d, failed))) ⊎ Takes d r.1 r.0

  abbrev pub Frees : ℕ → Disk → Disk → Type 0
  Frees m d d' = BitWritten bitmap c m (λ is_m was. not is_m && was) d d'

  module _ (apart : Apart bitmap c) where
    set_item-BitWritten :
        (d : Disk) (m : ℕ)
        → IsBytes d
        → m < 4096 * c
        → BitWritten bitmap c m (λ is_m was. is_m || was) d (set_item bitmap d m)
    unfolding written
    set_item-BitWritten d m b h =
        subst
          (λ k.
            BitWritten bitmap c m (λ is_m was. is_m || was) d
              (let off = m % 4096 / 8 in
                let pos = bitmap (m / 4096) in write_byte d pos off (set_bit (d pos off) k)))
          (sym (mod-mod m))
          (written-BitWritten bitmap c apart set_bit (λ is_m was. is_m || was) (λ x. refl)
            set_bit-bound (λ byte k j p q r. bit_set-set_bit byte k j p q r) d m b h)

    pub free_bit-Frees :
        (d : Disk) (m : ℕ) → IsBytes d → m < 4096 * c → Frees m d (free_bit bitmap d m)
    unfolding free_bit written
    free_bit-Frees d m b h =
        written-BitWritten bitmap c apart clear_bit (λ is_m was. not is_m && was) (λ x. refl)
          clear_bit-bound (λ byte k j p q r. bit_set-clear_bit byte k j p q r) d m b h

    abbrev answer : ℕ → ℕ → Disk × ℕ × Bool → Disk × ℕ
    answer failed modulus s = (s.0, if s.2 then s.1 % modulus else failed)

    -- The scan from the start, and the number returned for what it found.
    answer-First :
        (failed modulus : ℕ) (d : Disk)
        → 4096 * c ≤ modulus
        → (AllSet (map_bit bitmap d) 0 (4096 * c)
            × (answer failed modulus (scan_blocks bitmap d c 0 0) ≡ (d, failed)))
          ⊎ ((m : ℕ) × (answer failed modulus (scan_blocks bitmap d c 0 0)
                ≡ (set_item bitmap d m, m))
              × (m < 4096 * c)
              × FirstClear (map_bit bitmap d) 0 m)
    answer-First failed modulus d fits = elim (scan_blocks-First bitmap d c 0 0) [
      | inl (r, h) ↦ inl (h, ap (answer failed modulus) r)
      | inr (m, r, lt, f) ↦
          let item : 4096 * 0 + m ≡ m = omega arith in
          let z : 0 + m ≡ m = omega arith in
          let small : m < modulus = omega arith in
          inr (
            m,
            ap (answer failed modulus) r
                ∙ ap₂ (λ (x y : ℕ). (set_item bitmap d x, y)) item
                    (ap (λ (t : ℕ). t % modulus) z ∙ mod-eq_of_lt small),
            lt,
            f,
          )
    ]

    pub scan_blocks-Allocates :
        (failed modulus : ℕ) (d : Disk)
        → IsBytes d
        → 4096 * c ≤ modulus
        → Allocates failed d (answer failed modulus (scan_blocks bitmap d c 0 0))
    scan_blocks-Allocates failed modulus d b fits = elim (answer-First failed modulus d fits) [
      | inl x ↦ inl x
      | inr (m, e, lt, f) ↦
          inr (subst (λ s. Takes d s.1 s.0) (sym e) (lt, f, set_item-BitWritten d m b lt))
    ]

    pub free_bit-scan_blocks :
        (failed modulus : ℕ) (d : Disk) (x : ℕ)
        → IsBytes d
        → 4096 * c ≤ modulus
        → x < 4096 * c
        → map_bit bitmap d x ≡ false
        → let r = answer failed modulus (scan_blocks bitmap d c 0 0) in free_bit bitmap r.0 r.1 ≡ d
    free_bit-scan_blocks failed modulus d x b fits lt free =
        elim (answer-First failed modulus d fits) [
          | inl (h, r) ↦
              let k : map_bit bitmap d x ≡ true =
                subst (λ y. map_bit bitmap d y ≡ true) (omega arith) (h x lt) in
              ground arith
          | inr (m, e, lm, f) ↦
              let clear : map_bit bitmap d m ≡ false =
                subst (λ y. map_bit bitmap d y ≡ false) (omega arith) f.0 in
              subst (λ s. free_bit bitmap s.0 s.1 ≡ d) (sym e)
                (free_bit-set_item bitmap d m b clear)
        ]

-- The positions of all bitmap blocks are below 2 ^ 32, and there are no more data blocks than a
-- 32-bit index can tell apart, no more inodes than one of 16 bits.
pub record Fits (sb : Superblock) : Type 0 where
  pub low : 1 + sb.inode_bitmap_block_count + sb.bitmap_block_count ≤ 2 ^ 23
  pub blocks : sb.bitmap_block_count ≤ 2 ^ 20
  pub inodes : sb.inode_bitmap_block_count ≤ 2 ^ 4

module _ (sb : Superblock) (fits : Fits sb) where
  data-Apart : Apart (get_data_bitmap sb) sb.bitmap_block_count
  data-Apart i j hi hj e = let h = fits.low in omega arith

  inodes-Apart : Apart (get_inode_bitmap sb) sb.inode_bitmap_block_count
  inodes-Apart i j hi hj e = let h = fits.low in omega arith

  -- allocateDataBlock takes the first data block whose bit is clear, sets that bit and changes
  -- nothing else, and returns its index; if all bits are set it changes nothing and returns
  -- 2 ^ 32 - 1. The disk holds bytes, and the bitmaps fit.
  pub allocate_data_block-Allocates :
      (d : Disk)
      → IsBytes d
      → Allocates
          (get_data_bitmap sb)
          sb.bitmap_block_count
          (u32_mod - 1)
          d
          (allocate_data_block sb d)
  unfolding allocate_data_block
  allocate_data_block-Allocates d b =
      let h = fits.blocks in
      scan_blocks-Allocates (get_data_bitmap sb) sb.bitmap_block_count data-Apart (u32_mod - 1)
        u32_mod d b (omega arith)

  -- freeDataBlock clears the bit of the data block it is given, and freeInode that of the inode, and
  -- nothing else changes. The disk holds bytes, the bitmaps fit, and the index is within them.
  pub free_data_block-Frees :
      (d : Disk) (m n : ℕ)
      → IsBytes d
      → m < 4096 * sb.bitmap_block_count
      → n < 4096 * sb.inode_bitmap_block_count
      → Frees (get_data_bitmap sb) sb.bitmap_block_count m d (free_data_block sb d m)
        × Frees (get_inode_bitmap sb) sb.inode_bitmap_block_count n d (free_inode sb d n)
  unfolding free_data_block free_inode
  free_data_block-Frees d m n b h k = (
    free_bit-Frees (get_data_bitmap sb) sb.bitmap_block_count data-Apart d m b h,
    free_bit-Frees (get_inode_bitmap sb) sb.inode_bitmap_block_count inodes-Apart d n b k,
  )

  -- To free the data block that was just allocated gives back the very disk there was, and so for an
  -- inode, if one of each was free. The disk holds bytes, and the bitmaps fit.
  pub free_data_block-allocate_data_block :
      (d : Disk) (x y : ℕ)
      → IsBytes d
      → x < 4096 * sb.bitmap_block_count
      → y < 4096 * sb.inode_bitmap_block_count
      → map_bit (get_data_bitmap sb) d x ≡ false
      → map_bit (get_inode_bitmap sb) d y ≡ false
      → (let r = allocate_data_block sb d in free_data_block sb r.0 r.1 ≡ d)
        × (let r = allocate_inode sb d in free_inode sb r.0 r.1 ≡ d)
  unfolding allocate_data_block free_data_block allocate_inode free_inode
  free_data_block-allocate_data_block d x y b lx ly ex ey =
      let h = fits.blocks in
      let k = fits.inodes in
      (
        free_bit-scan_blocks (get_data_bitmap sb) sb.bitmap_block_count data-Apart (u32_mod - 1)
            u32_mod d x b (omega arith) lx ex,
        free_bit-scan_blocks (get_inode_bitmap sb) sb.inode_bitmap_block_count inodes-Apart
            (u16_mod - 1) u16_mod d y b (omega arith) ly ey,
      )
