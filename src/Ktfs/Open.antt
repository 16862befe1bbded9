-- ===== src/Ktfs/Open.antt =====
-- Opening, closing and listing of sys/ktfs.c.
pub mod Names
pub mod Tests
use model_lib.Base.{
  ℕ, zero, suc, ◌+◌, ◌-◌, ◌*◌, ◌/◌, ◌%◌, ◌^◌, ◌≤◌, ◌<◌, min, ◌≡◌, refl, sym, ap, ap₂, ◌∙◌, subst,
  fun_ext, ◌≢◌, ◌↔◌, ◌⊎◌, inl, inr, Bool, true, false, not, ◌&&◌, ◌||◌, Option, none, some, List,
  [], ◌∷◌, ◌++◌, map, arith, ltb, leb, ◌==◌, if◌then◌else◌, Bool-cases, Option-cases, ==_iff,
  ltb→lt, lt→ltb, leb→le, ltb→ge, ==→eq, ==→ne, ==_self, length, get_elem?, set, get_or, take, drop,
  replicate, length-append, length-set, get_elem?-set_self, get_elem?-set_ne, take-append-drop,
  length-take, length-drop, length-replicate, length-map, get_or-set_self, get_or-set_ne, take-nil,
  drop-nil, take-min,
}
use model_lib.Ktfs.{Disk, Superblock}
use model_lib.Ktfs.Inode.{get_inode}
use model_lib.Ktfs.File.{File}
use model_lib.Ktfs.Dir.{
  Answer, success, einval, enoent, dentry_count, get_dentry_with_name, get_dentry_block_with_index,
  entry_name,
}
use model_lib.Text.{name_equals}

-- KTFS_MAX_FILENAME_LEN and one: the bytes of an entry for a name with its NUL.
abbrev pub name_capacity : ℕ
name_capacity = 14

-- A `struct ktfs_file` at its address, with the name of its copy of the directory entry, up to its NUL or
-- the end of the entry. (Where there is no NUL in the entry, strcmp would read on in the fields behind.)
pub record Opened : Type 0 where
  pub addr : ℕ
  pub name : List ℕ
  pub file : File

-- `openedFileList` and `openedListingList`.
pub record Lists : Type 0 where
  pub opened_files : List Opened
  pub opened_listings : List Opened

-- The loop at the start of `ktfs_open`.
unfoldable pub is_opened : List Opened → List ℕ → Bool
unfolding name_equals
is_opened [] name = false
is_opened (f ∷ l) name =
    let rest = is_opened l name in if name_equals f.name name then true else rest

abbrev pub new_listing : ℕ → Opened
new_listing addr = record {
  addr = addr;
  name = [];
  file = record { inode = 0; file_size = 0; pos = 0 };
}

-- The end of `ktfs_open` for a file, with what getDentryWithName found.
unfoldable pub open_entry : Superblock → Disk → Lists → ℕ → Option (ℕ × List ℕ) → Lists × Answer
unfolding get_inode
open_entry sb d s addr none = (s, enoent)
open_entry sb d s addr (some e) =
    let size = (get_inode sb d e.0).size in
    let f : Opened = record {
      addr = addr;
      name = take name_capacity e.1;
      file = record { inode = e.0; file_size = size; pos = 0 };
    } in
    (record s { opened_files = f ∷ s.opened_files }, success)

abbrev pub is_empty : List ℕ → Bool
is_empty [] = true
is_empty (c ∷ l) = false

-- `ktfs_open`, with the address that kcalloc returns. `*uioptr` is set to it, even where the name is
-- not found.
unfoldable pub ktfs_open : Superblock → Disk → Lists → Bool → ℕ → List ℕ → Lists × Answer
unfolding is_opened open_entry get_dentry_with_name
ktfs_open sb d s null_arg addr name =
    if null_arg
    then (s, einval)
    else if is_opened s.opened_files name
    then (s, einval)
    else if is_empty name
    then (record s { opened_listings = new_listing addr ∷ s.opened_listings }, success)
    else open_entry sb d s addr (get_dentry_with_name sb d name)

-- The loop of `ktfs_close` and `ktfs_listing_close`.
unfoldable pub remove_opened : List Opened → ℕ → List Opened
remove_opened [] addr = []
remove_opened (f ∷ l) addr =
    let rest = remove_opened l addr in if f.addr == addr then l else f ∷ rest

-- `ktfs_close` and `ktfs_listing_close`; the file is freed.
unfoldable pub ktfs_close : Lists → ℕ → Lists
unfolding remove_opened
ktfs_close s addr = record s { opened_files = remove_opened s.opened_files addr }

unfoldable pub ktfs_listing_close : Lists → ℕ → Lists
unfolding remove_opened
ktfs_listing_close s addr = record s { opened_listings = remove_opened s.opened_listings addr }

-- The listing with an address, and the position of it moved on.
unfoldable pub find_opened : List Opened → ℕ → Option Opened
find_opened [] addr = none
find_opened (f ∷ l) addr = let rest = find_opened l addr in if f.addr == addr then some f else rest

unfoldable pub advance : List Opened → ℕ → List Opened
advance [] addr = []
advance (f ∷ l) addr =
    let rest = advance l addr in
    if f.addr == addr
    then record f { file = record f.file { pos = f.file.pos + 1 } } ∷ l
    else f ∷ rest

-- The name at a position of the listing, with its NUL.
unfoldable pub list_name : Superblock → Disk → ℕ → Option (List ℕ)
unfolding get_dentry_block_with_index get_inode entry_name
list_name sb d i =
    elim (get_dentry_block_with_index sb d (get_inode sb d sb.root_directory_inode) i) [
      | none ↦ none
      | some b ↦ some (entry_name d b i ++ (0 ∷ []))
    ]

-- `ktfs_listing_read`: the bytes written to the buffer, whatever its size. The code does not look
-- whether there is a block at the position, and uses one it never got; the model answers `none` there.
unfoldable pub ktfs_listing_read : Superblock → Disk → Lists → Bool → ℕ → Lists × Option (List ℕ)
unfolding find_opened advance list_name get_inode
ktfs_listing_read sb d s null_arg addr =
    let count = dentry_count (get_inode sb d sb.root_directory_inode) in
    let read = (record s { opened_listings = advance s.opened_listings addr }) in
    if null_arg then (s, none) else elim (find_opened s.opened_listings addr) [
      | none ↦ (s, none)
      | some f ↦
          (if f.file.pos == count
            then (s, none)
            else elim (list_name sb d f.file.pos) [ none ↦ (s, none) | some l ↦ (read, some l) ])
    ]
