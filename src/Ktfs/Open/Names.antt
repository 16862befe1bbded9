-- ===== src/Ktfs/Open/Names.antt =====
-- No file of sys/ktfs.c is open twice under a name.
use model_lib.Base.{
  ℕ, zero, suc, ◌≤◌, ◌<◌, ◌≡◌, refl, sym, ap, ◌∙◌, inl, inr, Bool, true, false, Option, none, some,
  List, [], ◌∷◌, arith, ◌==◌, Bool-cases, length, take,
}
use model_lib.Ktfs.{Disk, Superblock}
use model_lib.Ktfs.Dir.{get_dentry_with_name}
use model_lib.Text.{name_equals}
use model_lib.Ktfs.Dir.First.{get_dentry_with_name-name}
use model_lib.Ktfs.Open.{
  name_capacity, Opened, Lists, is_opened, open_entry, is_empty, ktfs_open, remove_opened,
  ktfs_close, ktfs_listing_close,
}

-- No two files have a name in common: none behind the first has its name.
abbrev pub Distinct : List Opened → Type 0
Distinct [] = Unit
Distinct (f ∷ l) = (is_opened l f.name ≡ false) × Distinct l

-- Removing a file opens no name.
remove_opened-is_opened :
    (l : List Opened) (addr : ℕ) (name : List ℕ)
    → is_opened l name ≡ false
    → is_opened (remove_opened l addr) name ≡ false
unfolding is_opened remove_opened
remove_opened-is_opened [] addr name h = h
remove_opened-is_opened (f ∷ l) addr name h = elim (Bool-cases (name_equals f.name name)) [
  | inl e ↦ (let k : is_opened (f ∷ l) name ≡ true = rw e refl in ground arith)
  | inr e ↦
      let q : is_opened (f ∷ l) name ≡ is_opened l name = rw e refl in
      let k = sym q ∙ h in
      elim (Bool-cases (f.addr == addr)) [
        | inl q ↦ rw q k
        | inr q ↦ rw (q, e) (remove_opened-is_opened l addr name k)
      ]
]

remove_opened-Distinct : (l : List Opened) (addr : ℕ) → Distinct l → Distinct (remove_opened l addr)
unfolding remove_opened
remove_opened-Distinct [] addr v = v
remove_opened-Distinct (f ∷ l) addr v = elim (Bool-cases (f.addr == addr)) [
  | inl q ↦ rw q v.1
  | inr q ↦ rw q (remove_opened-is_opened l addr f.name v.0, remove_opened-Distinct l addr v.1)
]

take_all : (n : ℕ) (l : List ℕ) → length l ≤ n → take n l ≡ l
take_all zero [] h = refl
take_all zero (c ∷ l) h = ground arith
take_all (suc n) [] h = refl
take_all (suc n) (c ∷ l) h = ap (λ (k : List ℕ). c ∷ k) (take_all n l (omega arith))

open_entry-Distinct :
    (sb : Superblock) (d : Disk) (s : Lists) (addr : ℕ) (name : List ℕ) (e : Option (ℕ × List ℕ))
    → length name < name_capacity
    → is_opened s.opened_files name ≡ false
    → get_dentry_with_name sb d name ≡ e
    → Distinct s.opened_files
    → Distinct (open_entry sb d s addr e).0.opened_files
unfolding open_entry
open_entry-Distinct sb d s addr name none short free q v = v
open_entry-Distinct sb d s addr name (some e) short free q v =
    let same = get_dentry_with_name-name sb d name e q in
    (
      ap (is_opened s.opened_files)
            (ap (take name_capacity) same ∙ take_all name_capacity name (omega arith))
          ∙ free,
      v,
    )

-- What a process does with the file system: it opens a name, with the disk as it is then and the
-- address of the new file, and closes a file or a listing.
pub data Step : Type 0 where
  opens : Disk → Bool → ℕ → List ℕ → Step
  closes : ℕ → Step
  closes_listing : ℕ → Step

unfoldable pub step : Superblock → Lists → Step → Lists
unfolding ktfs_open ktfs_close ktfs_listing_close
step sb s (opens d null_arg addr name) = (ktfs_open sb d s null_arg addr name).0
step sb s (closes addr) = ktfs_close s addr
step sb s (closes_listing addr) = ktfs_listing_close s addr

unfoldable pub run : Superblock → Lists → List Step → Lists
unfolding step
run sb s [] = s
run sb s (c ∷ l) = run sb (step sb s c) l

opens-Distinct :
    (sb : Superblock) (d : Disk) (s : Lists) (addr : ℕ) (name : List ℕ)
    → length name < name_capacity
    → Distinct s.opened_files
    → Distinct (ktfs_open sb d s false addr name).0.opened_files
unfolding ktfs_open
opens-Distinct sb d s addr name short v = elim (Bool-cases (is_opened s.opened_files name)) [
  | inl e ↦ rw (Distinct, e) v
  | inr e ↦ elim (Bool-cases (is_empty name)) [
    | inl z ↦ rw (Distinct, e, z) v
    | inr z ↦
        rw (Distinct, e, z)
          (open_entry-Distinct sb d s addr name (get_dentry_with_name sb d name) short e refl v)
  ]
]

-- The names that are opened fit an entry with their NUL.
abbrev pub IsShort : Step → Type 0
IsShort (opens d null_arg addr name) = length name < name_capacity
IsShort (closes addr) = Unit
IsShort (closes_listing addr) = Unit

abbrev pub AllShort : List Step → Type 0
AllShort [] = Unit
AllShort (c ∷ l) = IsShort c × AllShort l

step-Distinct :
    (sb : Superblock) (s : Lists) (c : Step)
    → IsShort c
    → Distinct s.opened_files
    → Distinct (step sb s c).opened_files
unfolding step ktfs_open
step-Distinct sb s (opens d true addr name) short v = v
step-Distinct sb s (opens d false addr name) short v = opens-Distinct sb d s addr name short v
step-Distinct sb s (closes addr) short v = remove_opened-Distinct s.opened_files addr v
step-Distinct sb s (closes_listing addr) short v = v

-- Whatever is opened and closed in whatever order, and however the disk changes meanwhile, no two open
-- files have the same name, if the names that are opened have fewer than 14 bytes.
pub run-Distinct :
    (sb : Superblock) (s : Lists) (l : List Step)
    → AllShort l
    → Distinct s.opened_files
    → Distinct (run sb s l).opened_files
unfolding run
run-Distinct sb s [] short v = v
run-Distinct sb s (c ∷ l) short v =
    run-Distinct sb (step sb s c) l short.1 (step-Distinct sb s c short.0 v)
