-- ===== src/Ktfs/File.antt =====
-- Reading an open file of sys/ktfs.c.
pub mod Fetch
pub mod Tests
use model_lib.Base.{
  ℕ, zero, suc, ◌+◌, ◌-◌, ◌*◌, ◌/◌, ◌%◌, ◌^◌, ◌≤◌, ◌<◌, min, ◌≡◌, refl, sym, ap, ap₂, ◌∙◌, subst,
  fun_ext, ◌≢◌, ◌↔◌, ◌⊎◌, inl, inr, Bool, true, false, not, ◌&&◌, ◌||◌, Option, none, some, List,
  [], ◌∷◌, ◌++◌, map, arith, ltb, leb, ◌==◌, if◌then◌else◌, Bool-cases, Option-cases, ==_iff,
  ltb→lt, lt→ltb, leb→le, ltb→ge, ==→eq, ==→ne, ==_self, length, get_elem?, set, get_or, take, drop,
  replicate, length-append, length-set, get_elem?-set_self, get_elem?-set_ne, take-append-drop,
  length-take, length-drop, length-replicate, length-map, get_or-set_self, get_or-set_ne, take-nil,
  drop-nil, take-min,
}
use model_lib.Ktfs.{Disk, Superblock, u32_mod}
use model_lib.Ktfs.Inode.{Inode, get_data_block, get_inode, find_block}

abbrev pub u64_mod : ℕ
u64_mod = 2 ^ 64

-- `struct ktfs_file`: the inode of its directory entry, its size and position.
pub record File : Type 0 where
  pub inode : ℕ
  pub file_size : ℕ
  pub pos : ℕ

-- `memcpy` of `n` bytes from an offset of a block.
unfoldable pub block_bytes : Disk → ℕ → ℕ → ℕ → List ℕ
block_bytes d blk off zero = []
block_bytes d blk off (suc n) = d blk off ∷ block_bytes d blk (off + 1) n

-- How much of its block a round copies, and from which offset.
unfoldable pub round_offset : ℕ → ℕ → ℕ → ℕ
round_offset pos len done =
    if (pos / 512 == (pos + len) % u64_mod / 512) || (done == 0) then pos % 512 else 0

unfoldable pub round_size : ℕ → ℕ → ℕ → ℕ
round_size pos len done =
    if pos / 512 == (pos + len) % u64_mod / 512
    then ((pos + len) % u64_mod % 512 + u64_mod - pos % 512) % u64_mod
    else if done == 0
    then 512 - pos % 512
    else if ltb (len - done) 512
    then len - done
    else 512

-- The rest of the loop once the round's block is known: the bytes copied, or -EINVAL.
unfoldable pub prepend : List ℕ → Option (List ℕ) → Option (List ℕ)
prepend l none = none
prepend l (some l') = some (l ++ l')

-- The loop, over the rounds left, with `done` bytes read.
unfoldable pub fetch_loop : Superblock → Disk → Inode → ℕ → ℕ → ℕ → ℕ → Option (List ℕ)
unfolding block_bytes round_offset round_size prepend find_block
fetch_loop sb d inode pos len zero done = some []
fetch_loop sb d inode pos len (suc fuel) done =
    let n = round_size pos len done in
    let rest = fetch_loop sb d inode pos len fuel ((done + n) % u64_mod) in
    if ltb done len
    then elim (find_block sb d inode ((pos + done) / 512 % u32_mod)) [
      | none ↦ none
      | some i ↦ prepend (block_bytes d (get_data_block sb i) (round_offset pos len done) n) rest
    ]
    else some []

-- What is left of `len`, in 64 bits.
unfoldable pub fetch_len : File → ℕ → ℕ
fetch_len f len =
    if ltb f.file_size ((f.pos + len) % u64_mod)
    then (f.file_size + u64_mod - f.pos) % u64_mod
    else len

unfoldable pub after_fetch : File → Option (List ℕ) → File × Option (List ℕ)
after_fetch f none = (f, none)
after_fetch f (some l) = (record f { pos = (f.pos + length l) % u64_mod }, some l)

-- `ktfs_fetch`: the file, and the bytes read or -EINVAL. `null_arg` says that an argument is NULL, and
-- `opened` that the file is on the list of open files. The loop is given `len` rounds.
unfoldable pub ktfs_fetch : Superblock → Disk → File → Bool → Bool → ℕ → File × Option (List ℕ)
unfolding fetch_loop fetch_len after_fetch
ktfs_fetch sb d f null_arg opened len0 =
    let len = fetch_len f len0 in
    if null_arg
    then (f, none)
    else if len0 == 0
    then (f, some [])
    else if not opened
    then (f, none)
    else after_fetch f (fetch_loop sb d (get_inode sb d f.inode) f.pos len len 0)
