-- ===== src/Ktfs/File/Tests.antt =====
-- The theorems on reads of sys/ktfs.c at a concrete disk.
use model_lib.Base.{
  ◌+◌, ◌/◌, ◌%◌, ◌≡◌, refl, true, false, some, [], ◌∷◌, arith, ◌==◌, if◌then◌else◌,
}
use model_lib.Ktfs.{Disk, Superblock}
use model_lib.Ktfs.Inode.{get_inode}
use model_lib.Ktfs.File.{File, ktfs_fetch}
use model_lib.Ktfs.File.Fetch.{file_bytes, ktfs_fetch-file_bytes}

abbrev sb : Superblock
sb = record {
  block_count = 100;
  inode_bitmap_block_count = 1;
  bitmap_block_count = 1;
  inode_block_count = 2;
  root_directory_inode = 0;
}

-- A disk with a pattern, but for the inode of the file, whose size is 600 and which has data blocks 1
-- and 2.
abbrev disk : Disk
disk p o =
    if p == 1536
    then (if o == 32
        then 88
        else if o == 33
        then 2
        else if o == 36
        then 1
        else if o == 40
        then 2
        else 0)
    else (p / 512 + o) % 256

abbrev file : File
file = record { inode = 1; file_size = 600; pos = 510 }

-- Four bytes across the two blocks.
ktfs_fetch-across : (ktfs_fetch sb disk file false true 4).1 ≡ some (4 ∷ 5 ∷ 7 ∷ 8 ∷ [])
unfolding ktfs_fetch get_inode
ktfs_fetch-across = refl

ktfs_fetch-file_bytes_example : ktfs_fetch sb disk file false true 100 ≡ (
  record { inode = 1; file_size = 600; pos = 600 },
  some (file_bytes sb disk (get_inode sb disk 1) 510 90),
)
ktfs_fetch-file_bytes_example =
    ktfs_fetch-file_bytes sb disk file 100 (omega arith) (omega arith) (omega arith)

abbrev past : File
past = record { inode = 1; file_size = 600; pos = 700 }
