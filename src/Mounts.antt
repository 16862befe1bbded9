-- ===== src/Mounts.antt =====
-- sys/filesys.c: the list of mounted file systems, with the operations on files that it passes on, and
-- the parts of a path. What a file system does is a parameter: its functions on the state `S` of
-- everything else, where a pointer to a function may be NULL.
pub mod Paths
pub mod Lookup
pub mod Tests
use model_lib.Base.{
  ℕ, zero, suc, ◌+◌, ◌-◌, ◌*◌, ◌/◌, ◌%◌, ◌^◌, ◌≤◌, ◌<◌, min, ◌≡◌, refl, sym, ap, ap₂, ◌∙◌, subst,
  fun_ext, ◌≢◌, ◌↔◌, ◌⊎◌, inl, inr, Bool, true, false, not, ◌&&◌, ◌||◌, Option, none, some, List,
  [], ◌∷◌, ◌++◌, map, arith, ltb, leb, ◌==◌, if◌then◌else◌, Bool-cases, Option-cases, ==_iff,
  ltb→lt, lt→ltb, leb→le, ltb→ge, ==→eq, ==→ne, ==_self, length, get_elem?, set, get_or, take, drop,
  replicate, length-append, length-set, get_elem?-set_self, get_elem?-set_ne, take-append-drop,
  length-take, length-drop, length-replicate, length-map, get_or-set_self, get_or-set_ne, take-nil,
  drop-nil, take-min,
}
use model_lib.Text.{name_equals, strchr, strlen, strncpy}

module _ (S : Type 0) where
  -- `struct filesystem`. A file's name may be NULL; the reply is an int, as a 32-bit pattern.
  pub record Filesystem : Type 0 where
    pub open_fn : Option (Option (List ℕ) → S → S × ℕ)
    pub create_fn : Option (Option (List ℕ) → S → S × ℕ)
    pub delete_fn : Option (Option (List ℕ) → S → S × ℕ)
    pub flush_fn : Option (S → S)

  -- `struct mountpoint`; the list of them is `mplist`.
  pub record Mountpoint : Type 0 where
    pub name : List ℕ
    pub fs : Filesystem

  -- What the functions return: 0 or an error of their own, a listing that was opened, or the reply of a
  -- file system. `panics` is a failed assertion.
  pub data FsReply : Type 0 where
    success einval enoent eexist enotsup listing panics : FsReply
    replied : ℕ → FsReply

  -- `attach_filesystem`: a new mount point goes to the end.
  unfoldable pub attach_filesystem :
      List Mountpoint → List ℕ → Filesystem → List Mountpoint × FsReply
  unfolding name_equals
  attach_filesystem [] mpname fs = (record { name = mpname; fs = fs } ∷ [], success)
  attach_filesystem (mp ∷ l) mpname fs =
      let rest = attach_filesystem l mpname fs in
      if name_equals mp.name mpname then (mp ∷ l, eexist) else (mp ∷ rest.0, rest.1)

  -- `getfs`; `none` is NULL.
  unfoldable pub get_fs : List Mountpoint → List ℕ → Option Filesystem
  unfolding name_equals
  get_fs [] mpname = none
  get_fs (mp ∷ l) mpname =
      let rest = get_fs l mpname in if name_equals mp.name mpname then some mp.fs else rest

  -- `nullfs`, whose open returns -ENOENT, and `mount_nullfs`.
  abbrev pub nullfs : Filesystem
  nullfs = record {
    open_fn = some (λ flname s. (s, 2 ^ 32 - 6));
    create_fn = none;
    delete_fn = none;
    flush_fn = some (λ s. s);
  }

  unfoldable pub mount_nullfs : List Mountpoint → List ℕ → List Mountpoint × FsReply
  unfolding attach_filesystem
  mount_nullfs mps name = attach_filesystem mps name nullfs

  -- `fsopen`, `fscreate` and `fsdelete`, on a file system's function.
  unfoldable pub call_fs : Option (Option (List ℕ) → S → S × ℕ) → Option (List ℕ) → S → S × FsReply
  call_fs none flname s = (s, enotsup)
  call_fs (some g) flname s = let r = g flname s in (r.0, replied r.1)

  abbrev call_found :
      (Filesystem → Option (Option (List ℕ) → S → S × ℕ))
      → Option Filesystem
      → Option (List ℕ)
      → S
      → S × FsReply
  unfolding call_fs
  call_found op none flname s = (s, enoent)
  call_found op (some fs) flname s = call_fs (op fs) flname s

  -- `open_file`.
  unfoldable pub open_file : List Mountpoint → Option (List ℕ) → Option (List ℕ) → S → S × FsReply
  unfolding get_fs call_found
  open_file mps none none s = (s, listing)
  open_file mps none (some flname) s = (s, panics)
  open_file mps (some []) flname s = (s, listing)
  open_file mps (some (c ∷ mpname)) flname s =
      call_found (λ fs. fs.open_fn) (get_fs mps (c ∷ mpname)) flname s

  -- `create_file` and `delete_file`.
  unfoldable pub create_file : List Mountpoint → Option (List ℕ) → Option (List ℕ) → S → S × FsReply
  unfolding get_fs call_found
  create_file mps none flname s = (s, einval)
  create_file mps (some mpname) none s = (s, einval)
  create_file mps (some mpname) (some flname) s =
      call_found (λ fs. fs.create_fn) (get_fs mps mpname) (some flname) s

  unfoldable pub delete_file : List Mountpoint → Option (List ℕ) → Option (List ℕ) → S → S × FsReply
  unfolding get_fs call_found
  delete_file mps none flname s = (s, einval)
  delete_file mps (some mpname) none s = (s, einval)
  delete_file mps (some mpname) (some flname) s =
      call_found (λ fs. fs.delete_fn) (get_fs mps mpname) (some flname) s

  -- `fsmgr_flushall`.
  unfoldable pub flush_fs : Option (S → S) → S → S
  flush_fs none s = s
  flush_fs (some g) s = g s

  unfoldable pub fsmgr_flushall : List Mountpoint → S → S
  unfolding flush_fs
  fsmgr_flushall [] s = s
  fsmgr_flushall (mp ∷ l) s = fsmgr_flushall l (flush_fs mp.fs.flush_fn s)

  -- A listing stands at a mount point, which is its index here, or at NULL. `fs_open_listing`, and
  -- `fs_listing_read`: the bytes that it writes, and the length it returns.
  unfoldable pub fs_open_listing : List Mountpoint → Option ℕ
  fs_open_listing mps = if ltb 0 (length mps) then some 0 else none

  abbrev name_of : Option Mountpoint → List ℕ
  name_of none = []
  name_of (some mp) = mp.name

  unfoldable pub fs_listing_read : List Mountpoint → Option ℕ → ℕ → Option ℕ × List ℕ × ℕ
  unfolding strncpy
  fs_listing_read mps none bufsz = (none, [], 0)
  fs_listing_read mps (some i) bufsz =
      let name = name_of (get_elem? mps i) in
      let after = if ltb (i + 1) (length mps) then some (i + 1) else none in
      (after, strncpy name bufsz, if ltb (length name) bufsz then length name else bufsz)

-- The slash at the start of a path is left out.
abbrev pub skip_slash : List ℕ → List ℕ
skip_slash [] = []
skip_slash (c ∷ path) = if c == 47 then path else c ∷ path

-- `parse_path`: the name of the mount point and that of the file, or -EINVAL.
unfoldable pub parts_from : List ℕ → Option ℕ → Option (List ℕ × List ℕ)
unfolding strncpy
parts_from path none = none
parts_from path (some slash) =
    let file_start = drop (slash + 1) path in
    some (strncpy path slash, strncpy file_start (length file_start))

unfoldable pub parse_path : Option (List ℕ) → Option (List ℕ × List ℕ)
unfolding strchr parts_from
parse_path none = none
parse_path (some path) = parts_from (skip_slash path) (strchr (skip_slash path) 47)
