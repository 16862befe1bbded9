-- ===== src/Ktfs/Store/Tests.antt =====
-- Runs of writes to files of sys/ktfs.c.
use model_lib.Base.{
  ℕ, zero, suc, ◌+◌, ◌/◌, ◌%◌, ◌<◌, ◌≡◌, refl, true, false, some, List, [], ◌∷◌, ◌++◌, arith, ◌==◌,
  if◌then◌else◌,
}
use model_lib.Ktfs.{Disk, Superblock}
use model_lib.Ktfs.Inode.{get_inode, find_block, is_done}
use model_lib.Ktfs.File.{File, ktfs_fetch}
use model_lib.Ktfs.File.Fetch.{file_bytes}
use model_lib.Ktfs.Store.{change_file_size, setpos, ktfs_cntl, ktfs_store}
use model_lib.Ktfs.Store.Write.{IsTree}
use model_lib.Ktfs.Store.Readback.{ktfs_fetch-ktfs_store}
use model_lib.Ktfs.Store.Control.{change_file_size_lem, IsBounded, Controlled, ktfs_cntl-Controlled}

abbrev sb : Superblock
sb = record {
  block_count = 100;
  inode_bitmap_block_count = 1;
  bitmap_block_count = 1;
  inode_block_count = 2;
  root_directory_inode = 0;
}

-- Inode 1 has 600 bytes in the data blocks 1 and 2.
abbrev disk : Disk
disk p o =
    if p == 1536
    then (if o == 32
        then 88
        else if o == 33
        then 2
        else if o == 36
        then 1
        else if o == 40
        then 2
        else 0)
    else (p / 512 + o) % 256

abbrev file : File
file = record { inode = 1; file_size = 600; pos = 510 }

abbrev buf : List ℕ
buf = 1 ∷ 2 ∷ 3 ∷ 4 ∷ []

abbrev tree : ℕ → ℕ
tree b = b + 1

tree-found : (d : Disk) (b : ℕ) → b < 2 → find_block sb d (get_inode sb disk 1) b ≡ some (tree b)
unfolding find_block get_inode
tree-found d zero h = refl
tree-found d (suc zero) h = refl
tree-found d (suc (suc b)) h = ground arith

tree-IsTree : IsTree sb (get_inode sb disk 1) 2 tree disk
tree-IsTree = record {
  apart = λ b c h k ne e. ne (omega arith);
  stays = λ d' g b h. tree-found d' b h;
}

ktfs_fetch-ktfs_store_example :
    let s = ktfs_store sb disk file false true buf in
    (s.1 ≡ record file { pos = 514 })
    × (s.2 ≡ some 4)
    × (file_bytes sb s.0 (get_inode sb s.0 1) 0 600
        ≡ file_bytes sb disk (get_inode sb disk 1) 0 510
          ++ (buf ++ file_bytes sb disk (get_inode sb disk 1) 514 86))
    × ((ktfs_fetch sb s.0 file false true 4).1 ≡ some buf)
ktfs_fetch-ktfs_store_example =
    ktfs_fetch-ktfs_store sb disk file buf 2 tree (omega arith) tree-IsTree (λ b h e. omega arith)
      (omega arith) (omega arith) (omega arith)

change_file_size_lem_example :
    let r = change_file_size sb disk file 700 in
    (is_done r.2 ≡ true)
    × (r.1 ≡ record file { file_size = 700 })
    × ((get_inode sb r.0 1).size ≡ 700)
change_file_size_lem_example = change_file_size_lem sb disk file 700 (omega arith)

file-IsBounded : IsBounded file
file-IsBounded = record { size = omega arith; position = omega arith }

ktfs_cntl-Controlled_example :
    Controlled disk file 99999999 (ktfs_cntl sb disk file false setpos 99999999)
ktfs_cntl-Controlled_example =
    ktfs_cntl-Controlled sb disk file false setpos 99999999 file-IsBounded
