-- ===== src/Ktfs/Store.antt =====
-- Writing to a file of sys/ktfs.c, its size and its position.
pub mod Cells
pub mod Write
pub mod Readback
pub mod Control
pub mod Tests
use model_lib.Base.{
  ℕ, zero, suc, ◌+◌, ◌-◌, ◌*◌, ◌/◌, ◌%◌, min, Bool, not, Option, none, some, List, ltb, ◌==◌,
  if◌then◌else◌, length, take, drop,
}
use model_lib.Ktfs.{Disk, Superblock, u32_mod}
use model_lib.Ktfs.Inode.{
  Inode, write32, get_inode_block, get_data_block, get_inode, find_block, Status, done, is_done,
  allocate_block_from_inode,
}
use model_lib.Ktfs.File.{File, u64_mod, round_offset, round_size}
use model_lib.Ktfs.Dir.{Answer, success, einval, enotsup, write_bytes}

-- The most bytes that the tree of an inode has room for, 32900 blocks.
abbrev pub max_size : ℕ
max_size = 16844800

-- `ROUND_UP(size, 512)/512` of a size of 64 bits, as a uint32_t.
abbrev pub blocks64 : ℕ → ℕ
blocks64 size = (size + 511) % u64_mod / 512 % u32_mod

-- The loop of `changeFileSize`, with the blocks left to add.
unfoldable pub grow_loop : Superblock → Disk → ℕ → ℕ → ℕ → ℕ → Disk × Status
unfolding allocate_block_from_inode
grow_loop sb d pos off zero b = (d, done)
grow_loop sb d pos off (suc left) b =
    let a = allocate_block_from_inode sb d pos off b in
    let rest = grow_loop sb a.0 pos off left (b + 1) in if is_done a.1 then rest else a

-- `changeFileSize`: the disk, the file and 0 or -EINVAL.
unfoldable pub change_file_size : Superblock → Disk → File → ℕ → Disk × File × Status
unfolding grow_loop write32
change_file_size sb d f new_size =
    let size = min new_size max_size in
    let pos = get_inode_block sb f.inode in
    let off = f.inode % 16 * 32 in
    let start = blocks64 f.file_size in
    let g = grow_loop sb d pos off (blocks64 size - start) start in
    if is_done g.1
    then (write32 g.0 pos off size, record f { file_size = size }, g.1)
    else (g.0, f, g.1)

-- The loop of `ktfs_store`, over the rounds left, with `written` bytes of the buffer on the disk; the
-- count at its end, or -EINVAL.
unfoldable pub store_loop : Superblock → Inode → ℕ → ℕ → List ℕ → ℕ → ℕ → Disk → Disk × Option ℕ
unfolding round_offset round_size find_block write_bytes
store_loop sb inode pos len buf zero written d = (d, some written)
store_loop sb inode pos len buf (suc fuel) written d =
    let n = round_size pos len written in
    let bytes = take n (drop written buf) in
    if ltb written len
    then elim (find_block sb d inode ((pos + written) / 512 % u32_mod)) [
      | none ↦ (d, none)
      | some i ↦
          store_loop sb inode pos len buf fuel ((written + n) % u64_mod)
            (write_bytes d (get_data_block sb i) (round_offset pos len written) bytes)
    ]
    else (d, some written)

abbrev pub after_store : File → Disk × Option ℕ → Disk × File × Option ℕ
after_store f (d, none) = (d, f, none)
after_store f (d, some n) = (d, record f { pos = (f.pos + n) % u64_mod }, some n)

-- The file made larger where the write goes past its end.
unfoldable pub make_space : Superblock → Disk → File → ℕ → Disk × File × Status
unfolding change_file_size
make_space sb d f len =
    let end = (f.pos + len) % u64_mod in
    if ltb f.file_size end then change_file_size sb d f end else (d, f, done)

-- `ktfs_store` of the bytes of a buffer. The loop is given as many rounds as bytes.
unfoldable pub ktfs_store : Superblock → Disk → File → Bool → Bool → List ℕ → Disk × File × Option ℕ
unfolding make_space store_loop get_inode
ktfs_store sb d f null_arg opened buf =
    let len = length buf in
    let room = make_space sb d f len in
    let d1 = room.0 in
    if null_arg
    then (d, f, none)
    else if len == 0
    then (d, f, some 0)
    else if not opened
    then (d, f, none)
    else if is_done room.2
    then after_store room.1
        (store_loop sb (get_inode sb d1 room.1.inode) room.1.pos len buf len 0 d1)
    else (d1, room.1, none)

-- The operations of `ktfs_cntl`.
pub data Cntl : Type 0 where
  getend setend getpos setpos other : Cntl

abbrev pub reply_of : Disk × File × Status → ℕ → Disk × File × ℕ × Answer
reply_of r arg = (r.0, r.1, arg, if is_done r.2 then success else einval)

-- `ktfs_cntl`: what the argument points to is a number of 64 bits, before and after.
unfoldable pub ktfs_cntl : Superblock → Disk → File → Bool → Cntl → ℕ → Disk × File × ℕ × Answer
unfolding change_file_size
ktfs_cntl sb d f null_arg cmd arg = if null_arg then (d, f, arg, einval) else elim cmd [
  | getend ↦ (d, f, f.file_size, success)
  | setend ↦
      (if ltb arg f.file_size
        then (d, f, arg, einval)
        else reply_of (change_file_size sb d f arg) arg)
  | getpos ↦ (d, f, f.pos, success)
  | setpos ↦ (d, record f { pos = min arg max_size }, arg, success)
  | other ↦ (d, f, arg, enotsup)
]
