-- ===== src/Ktfs/Dir/First.antt =====
-- The search of the directory of sys/ktfs.c finds the first entry with a name.
use model_lib.Base.{
  ℕ, zero, suc, ◌+◌, ◌/◌, ◌≤◌, ◌<◌, ◌≡◌, refl, sym, ap, ◌∙◌, subst, inl, inr, Option, none, some,
  List, [], arith, ◌==◌, Bool-cases, Option-cases, ==→eq, ==→ne,
}
use model_lib.Ktfs.{Disk, Superblock}
use model_lib.Ktfs.Inode.{Inode, get_inode, get_data_block}
use model_lib.Ktfs.Dir.{
  entry_name, entry_inode, get_dentry_block_with_index, search, dentry_count,
  get_dentry_block_with_name, get_dentry_with_name,
}
use model_lib.Ktfs.File.Fetch.{found}
use model_lib.Text.{name_equals}
use model_lib.Text.Compare.{name_equals→eq, name_equals→ne}

module _ (sb : Superblock) (d : Disk) (root : Inode) (name : List ℕ) where
  -- The entry with an index has a name.
  abbrev pub Named : ℕ → Type 0
  Named k = (b : ℕ) × (get_dentry_block_with_index sb d root k ≡ some b) × (entry_name d b k ≡ name)

  -- What a search from index `i` to `last` finds: the first entry with the name, or that there is none.
  pub data First (i last : ℕ) : Option (ℕ × ℕ) → Type 0 where
    missing : ((k : ℕ) → i ≤ k → k < last → ¬ Named k) → First i last none
    first :
        (b j : ℕ)
        → i ≤ j
        → j < last
        → get_dentry_block_with_index sb d root j ≡ some b
        → entry_name d b j ≡ name
        → ((k : ℕ) → i ≤ k → k < j → ¬ Named k)
        → First i last (some (b, j))

  First-later :
      (i last : ℕ) (r : Option (ℕ × ℕ)) → ¬ Named i → First (i + 1) last r → First i last r
  First-later i last _ other (missing f) = missing (λ k lo hi x. elim (Bool-cases (k == i)) [
    | inl e ↦ other (subst Named (==→eq k i e) x)
    | inr e ↦ (let ne = ==→ne k i e in f k (omega arith) hi x)
  ])
  First-later i last _ other (first b j lo hi e n f) =
      first b j (omega arith) hi e n (λ k lo' hi' x. elim (Bool-cases (k == i)) [
        | inl q ↦ other (subst Named (==→eq k i q) x)
        | inr q ↦ (let ne = ==→ne k i q in f k (omega arith) hi' x)
      ])

  block-found : (i : ℕ) → i < 1052800 → (b : ℕ) × (get_dentry_block_with_index sb d root i ≡ some b)
  unfolding get_dentry_block_with_index
  block-found i h =
      let (b, e) = found sb d root (i / 32) (omega arith) in
      (get_data_block sb b, rw (get_dentry_block_with_index, e) refl)

  search-First :
      (left i : ℕ) → i + left ≤ 1052800 → First i (i + left) (search sb d root name left i)
  unfolding search
  search-First zero i lim = missing (λ k lo hi x. omega arith)
  search-First (suc left) i lim =
      let (b, e) = block-found i (omega arith) in
      let s : i + suc left ≡ i + 1 + left = omega arith in
      elim (Bool-cases (name_equals name (entry_name d b i))) [
        | inl n ↦
            rw (search, e, n)
              (first b i (omega arith) (omega arith) e
                (sym (name_equals→eq name (entry_name d b i) n)) (λ k lo hi x. omega arith))
        | inr n ↦
            rw (search, e, n, s)
              (First-later i (i + 1 + left) (search sb d root name left (i + 1))
                (λ x. name_equals→ne name (entry_name d b i) n (
                  sym x.2
                  ∙ ap (λ (o : Option ℕ). elim o [ none ↦ [] | some b' ↦ entry_name d b' i ])
                      (sym x.1 ∙ e)))
                (search-First left (i + 1) (omega arith)))
      ]

-- getDentryBlockWithName finds the first entry of the root directory with the name, or reports that no
-- entry has it, in a directory no larger than the tree of its inode.
pub get_dentry_block_with_name-First :
    (sb : Superblock) (d : Disk) (name : List ℕ)
    → let root = get_inode sb d sb.root_directory_inode in
      dentry_count root ≤ 1052800
      → First sb d root name 0 (dentry_count root) (get_dentry_block_with_name sb d name)
unfolding get_dentry_block_with_name
get_dentry_block_with_name-First sb d name lim =
    let root = get_inode sb d sb.root_directory_inode in
    let n = dentry_count root in
    subst (λ (last : ℕ). First sb d root name 0 last (search sb d root name n 0))
      (let e : 0 + n ≡ n = omega arith in e) (search-First sb d root name n 0 (omega arith))

abbrev name_at : Disk → Option (ℕ × ℕ) → List ℕ
name_at d none = []
name_at d (some e) = entry_name d e.0 e.1

search-entry_name :
    (sb : Superblock) (d : Disk) (root : Inode) (name : List ℕ) (left i : ℕ) (e : ℕ × ℕ)
    → search sb d root name left i ≡ some e
    → entry_name d e.0 e.1 ≡ name
unfolding search
search-entry_name sb d root name zero i e h = ground arith
search-entry_name sb d root name (suc left) i e h =
    elim (Option-cases (get_dentry_block_with_index sb d root i)) [
      | inl x ↦
          let k : search sb d root name (suc left) i ≡ none = rw (search, x) refl in ground arith
      | inr (b, x) ↦ elim (Bool-cases (name_equals name (entry_name d b i))) [
        | inl n ↦
            let k : search sb d root name (suc left) i ≡ some (b, i) = rw (search, x, n) refl in
            ap (name_at d) (sym h ∙ k) ∙ sym (name_equals→eq name (entry_name d b i) n)
        | inr n ↦
            let k : search sb d root name (suc left) i ≡ search sb d root name left (i + 1) =
              rw (search, x, n) refl in
            search-entry_name sb d root name left (i + 1) e (sym k ∙ h)
      ]
    ]

abbrev name_in : Option (ℕ × List ℕ) → List ℕ
name_in none = []
name_in (some e) = e.1

-- The entry that getDentryWithName copies has the name that was searched.
pub get_dentry_with_name-name :
    (sb : Superblock) (d : Disk) (name : List ℕ) (e : ℕ × List ℕ)
    → get_dentry_with_name sb d name ≡ some e
    → e.1 ≡ name
unfolding get_dentry_with_name get_dentry_block_with_name
get_dentry_with_name-name sb d name e h =
    elim (Option-cases (get_dentry_block_with_name sb d name)) [
      | inl x ↦
          let k : get_dentry_with_name sb d name ≡ none = rw (get_dentry_with_name, x) refl in
          ground arith
      | inr (p, x) ↦
          let root = get_inode sb d sb.root_directory_inode in
          let k : get_dentry_with_name sb d name
              ≡ some (entry_inode d p.0 p.1, entry_name d p.0 p.1) =
            rw (get_dentry_with_name, x) refl in
          ap name_in (sym h ∙ k) ∙ search-entry_name sb d root name (dentry_count root) 0 p x
    ]
