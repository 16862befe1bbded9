-- ===== src/Ktfs/Tests.antt =====
-- Runs of the bitmaps of sys/ktfs.c, and their theorems at a concrete disk.
use model_lib.Base.{
  ℕ, zero, suc, ◌+◌, ◌-◌, ◌/◌, ◌%◌, ◌<◌, ◌≡◌, refl, ap, ◌∙◌, true, false, ◌&&◌, some, arith, ◌==◌,
  if◌then◌else◌,
}
use model_lib.Ktfs.{
  Disk, Superblock, u32_mod, get_inode_bitmap, get_data_bitmap, bit_set, allocate_data_block,
  allocate_inode, free_data_block, free_inode,
}
use model_lib.Ktfs.Bitmap.{IsBytes}
use model_lib.Ktfs.Scan.{AllSet, map_bit}
use model_lib.Ktfs.Inode.{done, inode_at, find_block, allocate_block_from_inode}
use model_lib.Ktfs.Inode.Grow.{allocate_block_from_inode_full}
use model_lib.Ktfs.Alloc.{
  Allocates, Fits, allocate_data_block-Allocates, free_data_block-allocate_data_block,
}

-- One bitmap block of each kind. The first eleven data blocks and the first two inodes are taken.
abbrev sb : Superblock
sb = record {
  block_count = 100;
  inode_bitmap_block_count = 1;
  bitmap_block_count = 1;
  inode_block_count = 2;
  root_directory_inode = 0;
}

abbrev disk : Disk
disk p o =
    if (p == 1024) && (o == 0)
    then 255
    else if (p == 1024) && (o == 1)
    then 7
    else if (p == 512) && (o == 0)
    then 3
    else 0

disk-IsBytes : IsBytes disk
disk-IsBytes p o = ground arith

sb-Fits : Fits sb
sb-Fits = record { low = omega arith; blocks = omega arith; inodes = omega arith }

-- The runs take data block 11 and inode 2.
allocate_data_block-disk : (allocate_data_block sb disk).1 ≡ 11
unfolding allocate_data_block
allocate_data_block-disk = refl

allocate_inode-disk : (allocate_inode sb disk).1 ≡ 2
unfolding allocate_inode
allocate_inode-disk = refl

allocate_data_block-Allocates_example :
    Allocates (get_data_bitmap sb) 1 (u32_mod - 1) disk (allocate_data_block sb disk)
allocate_data_block-Allocates_example = allocate_data_block-Allocates sb sb-Fits disk disk-IsBytes

bit-11 : map_bit (get_data_bitmap sb) disk 11 ≡ false
unfolding bit_set
bit-11 = refl

bit-2 : map_bit (get_inode_bitmap sb) disk 2 ≡ false
unfolding bit_set
bit-2 = refl

free_data_block-allocate_data_block_example :
    (let r = allocate_data_block sb disk in free_data_block sb r.0 r.1 ≡ disk)
    × (let r = allocate_inode sb disk in free_inode sb r.0 r.1 ≡ disk)
free_data_block-allocate_data_block_example =
    free_data_block-allocate_data_block sb sb-Fits disk 11 2 disk-IsBytes (omega arith)
      (omega arith) bit-11 bit-2

-- A disk whose data blocks are all taken.
abbrev full_disk : Disk
full_disk p o = if p == 1024 then 255 else 0

full_disk-IsBytes : IsBytes full_disk
full_disk-IsBytes p o = ground arith

bit_set-255 : (k : ℕ) → k < 8 → bit_set 255 k ≡ true
unfolding bit_set
bit_set-255 zero h = refl
bit_set-255 (suc zero) h = refl
bit_set-255 (suc (suc zero)) h = refl
bit_set-255 (suc (suc (suc zero))) h = refl
bit_set-255 (suc (suc (suc (suc zero)))) h = refl
bit_set-255 (suc (suc (suc (suc (suc zero))))) h = refl
bit_set-255 (suc (suc (suc (suc (suc (suc zero)))))) h = refl
bit_set-255 (suc (suc (suc (suc (suc (suc (suc zero))))))) h = refl
bit_set-255 (suc (suc (suc (suc (suc (suc (suc (suc k)))))))) h = ground arith

full_disk-AllSet : AllSet (map_bit (get_data_bitmap sb) full_disk) 0 4096
full_disk-AllSet x h =
    let e : get_data_bitmap sb ((0 + x) / 4096) ≡ 1024 = omega arith in
    ap (λ (p : ℕ). bit_set (if p == 1024 then 255 else 0) ((0 + x) % 4096 % 8)) e
    ∙ bit_set-255 ((0 + x) % 4096 % 8) (omega arith)

allocate_block_from_inode_full_example :
    let r = allocate_block_from_inode sb full_disk 1536 32 0 in
    (r.1 ≡ done) × (find_block sb r.0 (inode_at r.0 1536 32) 0 ≡ some 4294967295)
allocate_block_from_inode_full_example =
    allocate_block_from_inode_full sb sb-Fits full_disk full_disk-IsBytes 1536 32 0 (omega arith)
      full_disk-AllSet
