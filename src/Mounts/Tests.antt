-- ===== src/Mounts/Tests.antt =====
-- Runs of sys/filesys.c over file systems that count the calls.
use model_lib.Base.{ℕ, ◌+◌, ◌≡◌, refl, ◌↔◌, none, some, List, [], ◌∷◌, ◌++◌}
use model_lib.Text.{name_equals, strchr}
use model_lib.Mounts.{
  Filesystem, Mountpoint, enoent, enotsup, replied, attach_filesystem, get_fs, mount_nullfs, nullfs,
  open_file, create_file, fs_open_listing, fs_listing_read, skip_slash, parse_path,
}
use model_lib.Mounts.Lookup.{default_at, reply_for, get_fs-attach_filesystem}
use model_lib.Mounts.Paths.{parse_path_iff}

abbrev counting : Filesystem ℕ
counting = record {
  open_fn = some (λ flname s. (s + 1, 0));
  create_fn = none;
  delete_fn = none;
  flush_fn = none;
}

-- The mount points c and d.
abbrev c : List ℕ
c = 99 ∷ []

abbrev d : List ℕ
d = 100 ∷ []

abbrev two : List (Mountpoint ℕ)
two = record { name = c; fs = counting } ∷ record { name = d; fs = nullfs ℕ } ∷ []

mount_nullfs-two : (mount_nullfs ℕ (record { name = c; fs = counting } ∷ []) d).0 ≡ two
unfolding mount_nullfs
mount_nullfs-two = refl

open_file-c : open_file ℕ two (some c) (some d) 4 ≡ (5, replied 0)
unfolding open_file
open_file-c = refl

open_file-missing : open_file ℕ two (some (101 ∷ [])) (some d) 4 ≡ (4, enoent)
unfolding open_file
open_file-missing = refl

create_file-c : create_file ℕ two (some c) (some d) 4 ≡ (4, enotsup)
unfolding create_file
create_file-c = refl

fs_listing_read-two : fs_listing_read ℕ two (fs_open_listing ℕ two) 2 ≡ (some 1, 99 ∷ 0 ∷ [], 1)
unfolding fs_listing_read fs_open_listing
fs_listing_read-two = refl

get_fs-attach_filesystem_example :
    let r = attach_filesystem ℕ two c (nullfs ℕ) in
    (get_fs ℕ r.0 d ≡ default_at ℕ (get_fs ℕ two d) (name_equals c d) (nullfs ℕ))
    × (r.1 ≡ reply_for ℕ (get_fs ℕ two c))
get_fs-attach_filesystem_example = get_fs-attach_filesystem ℕ two c d (nullfs ℕ)

-- The path /c/d/e.
parse_path_iff_example :
    (parse_path (some (47 ∷ 99 ∷ 47 ∷ 100 ∷ 47 ∷ 101 ∷ [])) ≡ some (c, 100 ∷ 47 ∷ 101 ∷ [])) ↔ (
      (skip_slash (47 ∷ 99 ∷ 47 ∷ 100 ∷ 47 ∷ 101 ∷ []) ≡ c ++ (47 ∷ 100 ∷ 47 ∷ 101 ∷ []))
      × (strchr c 47 ≡ none))
parse_path_iff_example = parse_path_iff (47 ∷ 99 ∷ 47 ∷ 100 ∷ 47 ∷ 101 ∷ []) c (100 ∷ 47 ∷ 101 ∷ [])

parse_path-no_mount : parse_path (some (47 ∷ 99 ∷ [])) ≡ none
unfolding parse_path
parse_path-no_mount = refl
