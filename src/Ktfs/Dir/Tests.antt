-- ===== src/Ktfs/Dir/Tests.antt =====
-- Runs of the directory of sys/ktfs.c.
use model_lib.Base.{◌≤◌, ◌≡◌, refl, false, none, some, [], ◌∷◌, arith, ◌==◌, if◌then◌else◌}
use model_lib.Ktfs.{Disk, Superblock}
use model_lib.Ktfs.Inode.{get_inode}
use model_lib.Ktfs.Dir.{
  success, einval, dentry_count, get_dentry_with_name, get_dentry_block_with_name, ktfs_create,
  ktfs_delete,
}
use model_lib.Ktfs.Dir.First.{First, get_dentry_block_with_name-First}

abbrev pub sb : Superblock
sb = record {
  block_count = 100;
  inode_bitmap_block_count = 1;
  bitmap_block_count = 1;
  inode_block_count = 2;
  root_directory_inode = 0;
}

-- The root directory has the files a and b, with the inodes 1 and 2, in data block 0; both are empty.
abbrev pub disk : Disk
disk p o =
    if p == 512
    then (if o == 0 then 7 else 0)
    else if p == 1024
    then (if o == 0 then 1 else 0)
    else if p == 1536
    then (if o == 0 then 32 else 0)
    else if p == 2560
    then (if o == 0
        then 1
        else if o == 2
        then 97
        else if o == 16
        then 2
        else if o == 18
        then 98
        else 0)
    else 0

get_dentry_with_name-b : get_dentry_with_name sb disk (98 ∷ []) ≡ some (2, 98 ∷ [])
unfolding get_dentry_with_name
get_dentry_with_name-b = refl

-- A new file is found with the first free inode.
get_dentry_with_name-created :
    let d = (ktfs_create sb disk false (99 ∷ 100 ∷ [])).0 in
    get_dentry_with_name sb d (99 ∷ 100 ∷ []) ≡ some (3, 99 ∷ 100 ∷ [])
unfolding ktfs_create get_dentry_with_name
get_dentry_with_name-created = refl

-- A file that was deleted is not found, and the last one is found in its place.
get_dentry_with_name-deleted :
    let r = ktfs_delete sb disk false (97 ∷ []) in
    (r.1 ≡ success)
    × (get_dentry_with_name sb r.0 (97 ∷ []) ≡ none)
    × (get_dentry_block_with_name sb r.0 (98 ∷ []) ≡ some (2560, 0))
unfolding ktfs_delete get_dentry_with_name get_dentry_block_with_name
get_dentry_with_name-deleted = (refl, refl, refl)

ktfs_create-taken : (ktfs_create sb disk false (97 ∷ [])).1 ≡ einval
unfolding ktfs_create
ktfs_create-taken = refl

few_entries : dentry_count (get_inode sb disk 0) ≤ 1052800
unfolding get_inode
few_entries = omega arith

get_dentry_block_with_name-First_example :
    let root = get_inode sb disk 0 in
    First sb disk root
      (98 ∷ [])
      0
      (dentry_count root)
      (get_dentry_block_with_name sb disk (98 ∷ []))
get_dentry_block_with_name-First_example =
    get_dentry_block_with_name-First sb disk (98 ∷ []) few_entries
