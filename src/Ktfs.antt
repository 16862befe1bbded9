-- ===== src/Ktfs.antt =====
-- The Keegan Teal file system of sys/ktfs.c: its layout, as the code addresses it, and the bitmaps of
-- its data blocks and inodes. The disk is what the block cache shows of it: a block is known by the
-- byte position that the code hands to cache_get_block, and holds a byte at each offset. A failure of
-- the cache is a panic in this code, and is left out.
pub mod Bits
pub mod Scan
pub mod Bitmap
pub mod Alloc
pub mod Inode
pub mod File
pub mod Dir
pub mod Store
pub mod Open
pub mod Tests
use model_lib.Base.{
  ℕ, zero, suc, ◌+◌, ◌-◌, ◌*◌, ◌/◌, ◌%◌, ◌^◌, ◌≤◌, ◌<◌, min, ◌≡◌, refl, sym, ap, ap₂, ◌∙◌, subst,
  fun_ext, ◌≢◌, ◌↔◌, ◌⊎◌, inl, inr, Bool, true, false, not, ◌&&◌, ◌||◌, Option, none, some, List,
  [], ◌∷◌, ◌++◌, map, arith, ltb, leb, ◌==◌, if◌then◌else◌, Bool-cases, Option-cases, ==_iff,
  ltb→lt, lt→ltb, leb→le, ltb→ge, ==→eq, ==→ne, ==_self, length, get_elem?, set, get_or, take, drop,
  replicate, length-append, length-set, get_elem?-set_self, get_elem?-set_ne, take-append-drop,
  length-take, length-drop, length-replicate, length-map, get_or-set_self, get_or-set_ne, take-nil,
  drop-nil, take-min,
}
use Prim.Native.Nat.{bit_and, bit_or}

abbrev pub Disk : Type 0
Disk = ℕ → ℕ → ℕ

abbrev pub u32_mod : ℕ
u32_mod = 2 ^ 32

abbrev pub u16_mod : ℕ
u16_mod = 2 ^ 16

-- `struct ktfs_superblock`.
pub record Superblock : Type 0 where
  pub block_count : ℕ
  pub inode_bitmap_block_count : ℕ
  pub bitmap_block_count : ℕ
  pub inode_block_count : ℕ
  pub root_directory_inode : ℕ

unfoldable pub write_byte : Disk → ℕ → ℕ → ℕ → Disk
write_byte d pos off v p o = if (p == pos) && (o == off) then v else d p o

-- The position of a bitmap block; `block_index*512` is computed in 32 bits.
abbrev pub get_inode_bitmap : Superblock → ℕ → ℕ
get_inode_bitmap sb i = (1 + i) % u32_mod * 512 % u32_mod

abbrev pub get_data_bitmap : Superblock → ℕ → ℕ
get_data_bitmap sb i = (1 + sb.inode_bitmap_block_count + i) % u32_mod * 512 % u32_mod

-- `(byte & (1<<k)) != 0`, `byte | (1<<k)` and `byte & ~(1<<k)`, for a byte and a bit of it.
unfoldable pub bit_set : ℕ → ℕ → Bool
bit_set byte k = not (bit_and byte (2 ^ k) == 0)

unfoldable pub set_bit : ℕ → ℕ → ℕ
set_bit byte k = bit_or byte (2 ^ k)

unfoldable pub clear_bit : ℕ → ℕ → ℕ
clear_bit byte k = bit_and byte (255 - 2 ^ k)

-- The three loops of an allocation, from the innermost. `n` counts the bits that are set, and the
-- first argument the rounds left. The first clear bit ends all three.
unfoldable pub scan_bits : ℕ → ℕ → ℕ → ℕ → ℕ × Option ℕ
unfolding bit_set
scan_bits zero k byte n = (n, none)
scan_bits (suc left) k byte n =
    let rest = scan_bits left (k + 1) byte (n + 1) in if bit_set byte k then rest else (n, some k)

unfoldable pub scan_bytes : Disk → ℕ → ℕ → ℕ → ℕ → Disk × ℕ × Bool
unfolding scan_bits write_byte set_bit
scan_bytes d pos zero j n = (d, n, false)
scan_bytes d pos (suc left) j n =
    let s = scan_bits 8 0 (d pos j) n in
    let rest = scan_bytes d pos left (j + 1) s.0 in
    elim s.1 [ none ↦ rest | some k ↦ (write_byte d pos j (set_bit (d pos j) k), s.0, true) ]

unfoldable pub scan_blocks : (ℕ → ℕ) → Disk → ℕ → ℕ → ℕ → Disk × ℕ × Bool
unfolding scan_bytes
scan_blocks bitmap d zero i n = (d, n, false)
scan_blocks bitmap d (suc left) i n =
    let s = scan_bytes d (bitmap i) 512 0 n in
    let rest = scan_blocks bitmap s.0 left (i + 1) s.1 in if s.2 then s else rest

-- `allocateDataBlock`. The count of 32 bits wraps; -EINVAL is converted to uint32_t.
unfoldable pub allocate_data_block : Superblock → Disk → Disk × ℕ
unfolding scan_blocks
allocate_data_block sb d =
    let s = scan_blocks (get_data_bitmap sb) d sb.bitmap_block_count 0 0 in
    (s.0, if s.2 then s.1 % u32_mod else u32_mod - 1)

-- `allocateInode`. The result is converted to uint16_t.
unfoldable pub allocate_inode : Superblock → Disk → Disk × ℕ
unfolding scan_blocks
allocate_inode sb d =
    let s = scan_blocks (get_inode_bitmap sb) d sb.inode_bitmap_block_count 0 0 in
    (s.0, if s.2 then s.1 % u16_mod else u16_mod - 1)

-- The bit of an item cleared, in a bitmap whose blocks stand at `bitmap`.
unfoldable pub free_bit : (ℕ → ℕ) → Disk → ℕ → Disk
unfolding write_byte clear_bit
free_bit bitmap d index =
    let pos = bitmap (index / 4096) in
    let j = index % 4096 / 8 in write_byte d pos j (clear_bit (d pos j) (index % 8))

unfoldable pub free_data_block : Superblock → Disk → ℕ → Disk
unfolding free_bit
free_data_block sb = free_bit (get_data_bitmap sb)

unfoldable pub free_inode : Superblock → Disk → ℕ → Disk
unfolding free_bit
free_inode sb = free_bit (get_inode_bitmap sb)
