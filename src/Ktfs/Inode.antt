-- ===== src/Ktfs/Inode.antt =====
-- Inodes of sys/ktfs.c: the tree of a file's data blocks, with 4 direct slots, 128 under an indirect
-- block and 2 times 16384 under doubly indirect ones, and how it grows and shrinks.
pub mod Word
pub mod Grow
use model_lib.Base.{
  ℕ, zero, suc, ◌+◌, ◌-◌, ◌*◌, ◌/◌, ◌%◌, ◌^◌, ◌≤◌, ◌<◌, min, ◌≡◌, refl, sym, ap, ap₂, ◌∙◌, subst,
  fun_ext, ◌≢◌, ◌↔◌, ◌⊎◌, inl, inr, Bool, true, false, not, ◌&&◌, ◌||◌, Option, none, some, List,
  [], ◌∷◌, ◌++◌, map, arith, ltb, leb, ◌==◌, if◌then◌else◌, Bool-cases, Option-cases, ==_iff,
  ltb→lt, lt→ltb, leb→le, ltb→ge, ==→eq, ==→ne, ==_self, length, get_elem?, set, get_or, take, drop,
  replicate, length-append, length-set, get_elem?-set_self, get_elem?-set_ne, take-append-drop,
  length-take, length-drop, length-replicate, length-map, get_or-set_self, get_or-set_ne, take-nil,
  drop-nil, take-min,
}
use model_lib.Ktfs.{Disk, Superblock, u32_mod, allocate_data_block, free_data_block}

-- A little-endian word of 32 bits in a block.
unfoldable pub read32 : Disk → ℕ → ℕ → ℕ
read32 d pos off =
    d pos off + 256 * d pos (off + 1) + 65536 * d pos (off + 2) + 16777216 * d pos (off + 3)

unfoldable pub write32 : Disk → ℕ → ℕ → ℕ → Disk
write32 d pos off v p o =
    if (p == pos) && (leb off o && ltb o (off + 4)) then v / 2 ^ (8 * (o - off)) % 256 else d p o

-- `struct ktfs_inode`.
pub record Inode : Type 0 where
  pub size : ℕ
  pub block : List ℕ
  pub indirect : ℕ
  pub dindirect : List ℕ

-- Positions of blocks; the index is summed in 32 bits and multiplied in 64.
abbrev pub get_inode_block : Superblock → ℕ → ℕ
get_inode_block sb i =
    (1 + sb.inode_bitmap_block_count + sb.bitmap_block_count + i / 16) % u32_mod * 512

abbrev pub get_data_block : Superblock → ℕ → ℕ
get_data_block sb i =
    (1 + sb.inode_bitmap_block_count + sb.bitmap_block_count + sb.inode_block_count + i)
    % u32_mod
    * 512

-- The inode at an offset of a block, and `getInode`.
unfoldable pub inode_at : Disk → ℕ → ℕ → Inode
unfolding read32
inode_at d pos off = record {
  size = read32 d pos off;
  block =
      read32 d pos (off + 4)
      ∷ read32 d pos (off + 8)
      ∷ read32 d pos (off + 12)
      ∷ read32 d pos (off + 16)
      ∷ [];
  indirect = read32 d pos (off + 20);
  dindirect = read32 d pos (off + 24) ∷ read32 d pos (off + 28) ∷ [];
}

unfoldable pub get_inode : Superblock → Disk → ℕ → Inode
unfolding inode_at
get_inode sb d i = inode_at d (get_inode_block sb i) (i % 16 * 32)

-- The data block behind a block of a file, if the tree has room for it.
unfoldable pub find_block : Superblock → Disk → Inode → ℕ → Option ℕ
unfolding read32
find_block sb d inode b =
    let r = b - 132 in
    if ltb b 4
    then some (get_or inode.block b 0)
    else if ltb b 132
    then some (read32 d (get_data_block sb inode.indirect) (4 * (b - 4)))
    else if ltb b 32900
    then (let top = get_data_block sb (get_or inode.dindirect (r / 16384) 0) in
        let leaf = get_data_block sb (read32 d top (4 * (r % 16384 / 128))) in
        some (read32 d leaf (4 * (r % 16384 % 128))))
    else none

-- What allocateBlockFromInode and freeBlockFromInode return: 0 or -EINVAL. Neither sees an
-- allocation fail: the index is unsigned, so that `data_block_index < 0` never holds.
pub data Status : Type 0 where
  done einval : Status

abbrev pub is_done : Status → Bool
is_done done = true
is_done einval = false

-- A new data block with its index stored in a slot.
unfoldable pub allocate_slot : Superblock → Disk → ℕ → ℕ → Disk
unfolding write32
allocate_slot sb d pos off = let a = allocate_data_block sb d in write32 a.0 pos off a.1

unfoldable pub allocate_block_from_inode : Superblock → Disk → ℕ → ℕ → ℕ → Disk × Status
unfolding allocate_slot read32
allocate_block_from_inode sb d pos off b =
    let r = b - 132 in
    if ltb b 4
    then (allocate_slot sb d pos (off + 4 + 4 * b), done)
    else if ltb b 132
    then (let d1 = if b - 4 == 0 then allocate_slot sb d pos (off + 20) else d in
        (allocate_slot sb d1 (get_data_block sb (read32 d1 pos (off + 20))) (4 * (b - 4)), done))
    else if ltb b 32900
    then (let slot = off + 24 + 4 * (r / 16384) in
        let d1 = if r % 16384 == 0 then allocate_slot sb d pos slot else d in
        let top = get_data_block sb (read32 d1 pos slot) in
        let child = 4 * (r % 16384 / 128) in
        let d2 = if r % 16384 % 128 == 0 then allocate_slot sb d1 top child else d1 in
        (
          allocate_slot sb d2 (get_data_block sb (read32 d2 top child)) (4 * (r % 16384 % 128)),
          done,
        ))
    else (d, einval)

-- The inode that the pointer points to, as a function of the disk: a copy of it does not change.
unfoldable pub free_block_from_inode : Superblock → Disk → (Disk → Inode) → ℕ → Disk × Status
unfolding read32
free_block_from_inode sb d inode b =
    let r = b - 132 in
    if ltb b 4
    then (free_data_block sb d (get_or (inode d).block b 0), done)
    else if ltb b 132
    then (let d1 =
          free_data_block sb d (read32 d (get_data_block sb (inode d).indirect) (4 * (b - 4))) in
        (if b - 4 == 0 then free_data_block sb d1 (inode d1).indirect else d1, done))
    else if ltb b 32900
    then (let top = get_data_block sb (get_or (inode d).dindirect (r / 16384) 0) in
        let child = 4 * (r % 16384 / 128) in
        let leaf = get_data_block sb (read32 d top child) in
        let d1 = free_data_block sb d (read32 d leaf (4 * (r % 16384 % 128))) in
        let d2 = if r % 16384 % 128 == 0 then free_data_block sb d1 (read32 d1 top child) else d1 in
        (
          if r % 16384 == 0
              then free_data_block sb d2 (get_or (inode d2).dindirect (r / 16384) 0)
              else d2,
          done,
        ))
    else (d, einval)
