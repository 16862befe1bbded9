-- ===== src/Ktfs/Dir.antt =====
-- The root directory of sys/ktfs.c: entries of 16 bytes, 32 in a block, with the inode and the name of
-- a file, and the creation and deletion of files.
pub mod First
pub mod Tests
use model_lib.Base.{
  ℕ, zero, suc, ◌+◌, ◌-◌, ◌*◌, ◌/◌, ◌%◌, ◌^◌, ◌≤◌, ◌<◌, min, ◌≡◌, refl, sym, ap, ap₂, ◌∙◌, subst,
  fun_ext, ◌≢◌, ◌↔◌, ◌⊎◌, inl, inr, Bool, true, false, not, ◌&&◌, ◌||◌, Option, none, some, List,
  [], ◌∷◌, ◌++◌, map, arith, ltb, leb, ◌==◌, if◌then◌else◌, Bool-cases, Option-cases, ==_iff,
  ltb→lt, lt→ltb, leb→le, ltb→ge, ==→eq, ==→ne, ==_self, length, get_elem?, set, get_or, take, drop,
  replicate, length-append, length-set, get_elem?-set_self, get_elem?-set_ne, take-append-drop,
  length-take, length-drop, length-replicate, length-map, get_or-set_self, get_or-set_ne, take-nil,
  drop-nil, take-min,
}
use model_lib.Ktfs.{Disk, Superblock, u32_mod, write_byte, allocate_inode, free_inode}
use model_lib.Ktfs.Inode.{
  Inode, read32, write32, get_inode_block, get_data_block, get_inode, inode_at, find_block, Status,
  done, is_done, allocate_block_from_inode, free_block_from_inode,
}
use model_lib.Text.{name_equals}

-- A string in a block, which ends with the block at the latest.
unfoldable pub read_name : Disk → ℕ → ℕ → ℕ → List ℕ
read_name d pos off zero = []
read_name d pos off (suc left) =
    let rest = read_name d pos (off + 1) left in if d pos off == 0 then [] else d pos off ∷ rest

-- The name and the inode of the entry with an index, in its block.
unfoldable pub entry_name : Disk → ℕ → ℕ → List ℕ
unfolding read_name
entry_name d pos i = read_name d pos (16 * (i % 32) + 2) (510 - 16 * (i % 32))

unfoldable pub entry_inode : Disk → ℕ → ℕ → ℕ
entry_inode d pos i = d pos (16 * (i % 32)) + 256 * d pos (16 * (i % 32) + 1)

-- `getDentryBlockWithIndex`: the position of the block of an entry; `none` is -ENOENT.
unfoldable pub get_dentry_block_with_index : Superblock → Disk → Inode → ℕ → Option ℕ
unfolding find_block
get_dentry_block_with_index sb d root i = elim (find_block sb d root (i / 32)) [
  | none ↦ none
  | some b ↦ some (get_data_block sb b)
]

-- The loop that `getDentryWithName` and `getDentryBlockWithName` share: the block and the index of the
-- entry.
unfoldable pub search : Superblock → Disk → Inode → List ℕ → ℕ → ℕ → Option (ℕ × ℕ)
unfolding entry_name get_dentry_block_with_index name_equals
search sb d root name zero i = none
search sb d root name (suc left) i =
    let rest = search sb d root name left (i + 1) in
    elim (get_dentry_block_with_index sb d root i) [
      | none ↦ none
      | some b ↦ if name_equals name (entry_name d b i) then some (b, i) else rest
    ]

abbrev pub dentry_count : Inode → ℕ
dentry_count root = root.size / 16

unfoldable pub get_dentry_block_with_name : Superblock → Disk → List ℕ → Option (ℕ × ℕ)
unfolding search get_inode
get_dentry_block_with_name sb d name =
    let root = get_inode sb d sb.root_directory_inode in search sb d root name (dentry_count root) 0

-- `getDentryWithName`: the inode and the name of the entry that is copied out.
unfoldable pub get_dentry_with_name : Superblock → Disk → List ℕ → Option (ℕ × List ℕ)
unfolding get_dentry_block_with_name entry_inode entry_name
get_dentry_with_name sb d name = elim (get_dentry_block_with_name sb d name) [
  | none ↦ none
  | some e ↦ some (entry_inode d e.0 e.1, entry_name d e.0 e.1)
]

-- What the operations on files return.
pub data Answer : Type 0 where
  success einval enoent enotsup : Answer

unfoldable pub write16 : Disk → ℕ → ℕ → ℕ → Disk
unfolding write_byte
write16 d pos off v = write_byte (write_byte d pos off (v % 256)) pos (off + 1) (v / 256 % 256)

-- Bytes copied into a block.
unfoldable pub write_bytes : Disk → ℕ → ℕ → List ℕ → Disk
unfolding write_byte
write_bytes d pos off [] = d
write_bytes d pos off (c ∷ l) = write_bytes (write_byte d pos off c) pos (off + 1) l

-- The entry written: the inode and the name with its NUL, however long it is.
unfoldable pub write_entry : Disk → ℕ → ℕ → ℕ → List ℕ → Disk
unfolding write16 write_bytes
write_entry d pos i inode name =
    write_bytes (write16 d pos (16 * (i % 32)) inode) pos (16 * (i % 32) + 2) (name ++ (0 ∷ []))

-- The end of `ktfs_create`, once the directory has room for the entry.
unfoldable pub add_entry : Superblock → Disk → Inode → ℕ → ℕ → List ℕ → Disk × Answer
unfolding get_dentry_block_with_index write_entry
add_entry sb d root i inode name = elim (get_dentry_block_with_index sb d root i) [
  | none ↦ (d, enoent)
  | some b ↦ (write_entry d b i inode name, success)
]

-- `ktfs_create`. No allocation is seen to fail: the index is unsigned.
unfoldable pub ktfs_create : Superblock → Disk → Bool → List ℕ → Disk × Answer
unfolding get_dentry_with_name allocate_inode write32 read32 inode_at allocate_block_from_inode
    add_entry
ktfs_create sb d null_arg name =
    let a = allocate_inode sb d in
    let d1 = write32 a.0 (get_inode_block sb a.1) (a.1 % 16 * 32) 0 in
    let pos = get_inode_block sb sb.root_directory_inode in
    let off = sb.root_directory_inode % 16 * 32 in
    let size = (read32 d1 pos off + 16) % u32_mod in
    let d2 = write32 d1 pos off size in
    let last = (size / 16 + u32_mod - 1) % u32_mod in
    let g = allocate_block_from_inode sb d2 pos off (last / 32) in
    let grown = if last % 32 == 0 then g else (d2, done) in
    let added = add_entry sb grown.0 (inode_at grown.0 pos off) last a.1 name in
    if null_arg then (d, einval) else elim (get_dentry_with_name sb d name) [
      | some e ↦ (d, einval)
      | none ↦ (if is_done grown.1 then added else (grown.0, einval))
    ]

-- The loop that frees the blocks of a file, from the last, with the blocks left.
unfoldable pub free_blocks : Superblock → Disk → Inode → ℕ → Disk × Status
unfolding free_block_from_inode
free_blocks sb d inode zero = (d, done)
free_blocks sb d inode (suc left) =
    let f = free_block_from_inode sb d (λ d'. inode) left in
    let rest = free_blocks sb f.0 inode left in if is_done f.1 then rest else f

-- The blocks that a file of a size has, in 32 bits.
abbrev pub blocks32 : ℕ → ℕ
blocks32 size = (size + 511) % u32_mod / 512

-- The end of `ktfs_delete`, with the entry of the file gone.
unfoldable pub free_file : Superblock → Disk → ℕ → Disk × Answer
unfolding free_blocks get_inode free_inode
free_file sb d i =
    let inode = get_inode sb d i in
    let f = free_blocks sb d inode (blocks32 inode.size) in
    if is_done f.1 then (free_inode sb f.0 i, success) else (f.0, einval)

-- `ktfs_delete` once both entries are found: the last one takes the place of the one that goes.
unfoldable pub move_entry : Disk → ℕ × ℕ → ℕ → ℕ → Disk
unfolding write_entry entry_inode entry_name write_byte
move_entry d e b2 last =
    write_byte (write_entry d e.0 e.1 (entry_inode d b2 last) (entry_name d b2 last)) b2
      (16 * (last % 32) + 2) 0

unfoldable pub remove_entry : Superblock → Disk → ℕ × ℕ → ℕ → Disk × Answer
unfolding move_entry entry_inode free_block_from_inode write32 inode_at read32 free_file
    get_dentry_block_with_index
remove_entry sb d e last =
    let pos = get_inode_block sb sb.root_directory_inode in
    let off = sb.root_directory_inode % 16 * 32 in
    let inode = entry_inode d e.0 e.1 in
    elim (get_dentry_block_with_index sb d (inode_at d pos off) last) [
      | none ↦ (d, enoent)
      | some b2 ↦
          (let d1 = move_entry d e b2 last in
            let f = free_block_from_inode sb d1 (λ d'. inode_at d' pos off) (last / 32) in
            let shrunk = if last % 32 == 0 then f else (d1, done) in
            let d2 =
              write32 shrunk.0 pos off ((read32 shrunk.0 pos off + u32_mod - 16) % u32_mod) in
            if is_done shrunk.1 then free_file sb d2 inode else (shrunk.0, einval))
    ]

-- `ktfs_delete`; the list of open files is not looked at.
unfoldable pub ktfs_delete : Superblock → Disk → Bool → List ℕ → Disk × Answer
unfolding get_dentry_block_with_name remove_entry get_inode
ktfs_delete sb d null_arg name =
    let count = dentry_count (get_inode sb d sb.root_directory_inode) in
    if null_arg then (d, einval) else elim (get_dentry_block_with_name sb d name) [
      | none ↦ (d, einval)
      | some e ↦ remove_entry sb d e ((count + u32_mod - 1) % u32_mod)
    ]
