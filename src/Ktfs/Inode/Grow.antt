-- ===== src/Ktfs/Inode/Grow.antt =====
-- How allocateBlockFromInode of sys/ktfs.c answers.
use model_lib.Base.{
  ℕ, zero, suc, ◌+◌, ◌-◌, ◌*◌, ◌≤◌, ◌<◌, ◌≡◌, refl, ap, ◌∙◌, ◌↔◌, inl, inr, Bool, true, false, none,
  some, arith, ltb, lt→ltb, get_or,
}
use model_lib.Ktfs.{Disk, Superblock, u32_mod, get_data_bitmap, allocate_data_block}
use model_lib.Ktfs.Bitmap.{IsBytes}
use model_lib.Ktfs.Scan.{AllSet, map_bit}
use model_lib.Ktfs.Alloc.{Fits, allocate_data_block-Allocates}
use model_lib.Ktfs.Inode.{
  Inode, done, einval, read32, inode_at, find_block, allocate_slot, allocate_block_from_inode,
  free_block_from_inode,
}
use model_lib.Ktfs.Inode.Word.{read32-write32}

-- An item taken after all the items below it were.
AllSet-no_more :
    (p : ℕ → Bool) (len m : ℕ) → AllSet p 0 len → m < len → p (0 + m) ≡ false → (r : Type 0) → r
AllSet-no_more p len m h lt e r = let k = h m lt in ground arith

module _ (sb : Superblock) (d : Disk) where
  -- allocateBlockFromInode, freeBlockFromInode and the search for a block all stop at the same file
  -- size, 32900 blocks: that is the only failure any of them reports, and a call that fails changes
  -- nothing.
  pub allocate_block_from_inode_einval_iff :
      (pos off b : ℕ) (inode : Disk → Inode)
      → (((allocate_block_from_inode sb d pos off b).1 ≡ einval) ↔ (32900 ≤ b))
        × (((free_block_from_inode sb d inode b).1 ≡ einval) ↔ (32900 ≤ b))
        × ((find_block sb d (inode d) b ≡ none) ↔ (32900 ≤ b))
        × ((allocate_block_from_inode sb d pos off b ≡ (d, einval)) ↔ (32900 ≤ b))
        × ((free_block_from_inode sb d inode b ≡ (d, einval)) ↔ (32900 ≤ b))
  unfolding allocate_block_from_inode free_block_from_inode find_block
  allocate_block_from_inode_einval_iff pos off b inode =
      (ground arith, ground arith, ground arith, ground arith, ground arith)

  slot-at :
      (pos off b : ℕ)
      → b < 4
      → get_or (inode_at d pos off).block b 0 ≡ read32 d pos (off + 4 + 4 * b)
  unfolding inode_at
  slot-at pos off zero h = ap (read32 d pos) (omega arith)
  slot-at pos off (suc zero) h = ap (read32 d pos) (omega arith)
  slot-at pos off (suc (suc zero)) h = ap (read32 d pos) (omega arith)
  slot-at pos off (suc (suc (suc zero))) h = ap (read32 d pos) (omega arith)
  slot-at pos off (suc (suc (suc (suc b)))) h = ground arith

module _ (sb : Superblock) (fits : Fits sb) (d : Disk) (bytes : IsBytes d) where
  index-bound : (allocate_data_block sb d).1 < u32_mod
  index-bound = elim (allocate_data_block-Allocates sb fits d bytes) [
    | inl (h, e) ↦
        let q : (allocate_data_block sb d).1 ≡ u32_mod - 1 = ap (λ (s : Disk × ℕ). s.1) e in
        omega arith
    | inr (lt, f, w) ↦ let h = fits.blocks in omega arith
  ]

  -- A block of a file within the direct slots that is added to an inode is then found in the inode:
  -- it is the data block that was allocated. The disk holds bytes, and the bitmaps fit.
  pub find_block-allocate_block_from_inode :
      (pos off b : ℕ)
      → b < 4
      → let r = allocate_block_from_inode sb d pos off b in
        (r.1 ≡ done)
        × (find_block sb r.0 (inode_at r.0 pos off) b ≡ some (allocate_data_block sb d).1)
  unfolding allocate_block_from_inode find_block allocate_slot
  find_block-allocate_block_from_inode pos off b h =
      let e : ltb b 4 ≡ true = lt→ltb b 4 h in
      let a = allocate_data_block sb d in
      rw e (
        refl,
        ap some
            (slot-at sb _ pos off b h ∙ read32-write32 a.0 pos (off + 4 + 4 * b) a.1 index-bound),
      )

  -- With every data block taken, allocateBlockFromInode still reports success for a direct slot, and
  -- the slot then holds 2 ^ 32 - 1. The disk holds bytes, and the bitmaps fit.
  pub allocate_block_from_inode_full :
      (pos off b : ℕ)
      → b < 4
      → AllSet (map_bit (get_data_bitmap sb) d) 0 (4096 * sb.bitmap_block_count)
      → let r = allocate_block_from_inode sb d pos off b in
        (r.1 ≡ done) × (find_block sb r.0 (inode_at r.0 pos off) b ≡ some (u32_mod - 1))
  allocate_block_from_inode_full pos off b h full =
      let (s, e) = find_block-allocate_block_from_inode pos off b h in
      (
        s,
        e
            ∙ ap some (elim (allocate_data_block-Allocates sb fits d bytes) [
              | inl (g, q) ↦ ap (λ (x : Disk × ℕ). x.1) q
              | inr (lt, (c, f), w) ↦
                  AllSet-no_more (map_bit (get_data_bitmap sb) d) _ _ full lt c _
            ]),
      )
