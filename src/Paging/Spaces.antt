-- ===== src/Paging/Spaces.antt =====
-- Memory spaces of sys/memory.c: the copy of the active one, and its reset.
use model_lib.Base.{
  ℕ, zero, suc, ◌+◌, ◌*◌, ◌/◌, Bool, false, not, ◌&&◌, Option, none, some, ◌==◌, if◌then◌else◌,
}
use model_lib.Paging.{
  Pte, leaf_pte, ptab_pte, PageSource, Mem, put_pte, write_pte, alloc_phys_pages, free_phys_page,
}

-- Valid and not global.
abbrev pub is_user : Pte → Bool
is_user e = not e.flags.g && e.flags.v

abbrev pub is_global : Pte → Bool
is_global e = e.flags.g && e.flags.v

abbrev pub clear_v : Pte → Pte
clear_v e = record e { flags = record e.flags { v = false } }

module _ (src : PageSource) where
  -- A new table or page, handed on.
  abbrev pub with_page : (ℕ → Mem src → Option (Mem src)) → Option (ℕ × Mem src) → Option (Mem src)
  with_page f none = none
  with_page f (some (p, s)) = f (p / 4096) s

  -- A loop over the entries of a table, over the rounds left.
  unfoldable pub each_entry : (ℕ → Mem src → Option (Mem src)) → ℕ → ℕ → Mem src → Option (Mem src)
  each_entry f zero i s = some s
  each_entry f (suc left) i s = elim (f i s) [
    | none ↦ none
    | some s' ↦ each_entry f left (i + 1) s'
  ]

  -- `memcpy` of a page.
  unfoldable pub copy_page : Mem src → ℕ → ℕ → Mem src
  copy_page s dst from = record s {
    bytes = λ n o. if n == dst then s.bytes from o else s.bytes n o;
  }

  -- The three loops of `clone_active_mspace`, from the innermost: entry by entry, from the table `old` to
  -- the table `new`.
  unfoldable pub clone_pte0 : ℕ → ℕ → ℕ → Mem src → Option (Mem src)
  unfolding copy_page leaf_pte put_pte alloc_phys_pages
  clone_pte0 old new k s =
      let e = s.tables old k in
      if is_user e
      then with_page
          (λ n s1. some (
            copy_page (write_pte src s1 new k (leaf_pte (n * 4096) (s1.tables old k).flags)) n
              e.ppn))
          (alloc_phys_pages src s 1)
      else some s

  unfoldable pub clone_pte1 : ℕ → ℕ → ℕ → Mem src → Option (Mem src)
  unfolding clone_pte0 each_entry ptab_pte put_pte alloc_phys_pages
  clone_pte1 old new j s =
      let e = s.tables old j in
      if is_user e
      then with_page
          (λ n s1.
            each_entry (clone_pte0 e.ppn n) 512 0 (write_pte src s1 new j (ptab_pte n false)))
          (alloc_phys_pages src s 1)
      else some s

  unfoldable pub clone_pte2 : ℕ → ℕ → ℕ → Mem src → Option (Mem src)
  unfolding clone_pte1 each_entry ptab_pte put_pte alloc_phys_pages
  clone_pte2 old new i s =
      let e = s.tables old i in
      if is_user e
      then with_page
          (λ n s1.
            each_entry (clone_pte1 e.ppn n) 512 0 (write_pte src s1 new i (ptab_pte n false)))
          (alloc_phys_pages src s 1)
      else some (if is_global e then write_pte src s new i e else s)

  abbrev pub clone_into : ℕ → Option (ℕ × Mem src) → Option (ℕ × Mem src)
  unfolding clone_pte2 each_entry
  clone_into old none = none
  clone_into old (some (p, s)) = elim (each_entry (clone_pte2 old (p / 4096)) 512 0 s) [
    | none ↦ none
    | some s' ↦ some (p / 4096, s')
  ]

  -- `clone_active_mspace`: the root of the copy, which its tag names.
  unfoldable pub clone_active_mspace : Mem src → Option (ℕ × Mem src)
  unfolding clone_into alloc_phys_pages
  clone_active_mspace s = clone_into s.root (alloc_phys_pages src s 1)

  -- The loops of `reset_active_mspace`, from the innermost: the entry of a table whose page is freed. A
  -- table is freed behind its entries; the header of its chunk, in its first two entries, is kept in the
  -- pool.
  unfoldable pub each_entry_of : (ℕ → Mem src → Mem src) → ℕ → ℕ → Mem src → Mem src
  each_entry_of f zero i s = s
  each_entry_of f (suc left) i s = each_entry_of f left (i + 1) (f i s)

  unfoldable pub drop_entry : ℕ → ℕ → Mem src → Mem src
  unfolding free_phys_page put_pte
  drop_entry t i s =
      write_pte src (free_phys_page src s (s.tables t i).ppn) t i (clear_v (s.tables t i))

  unfoldable pub reset_pte0 : ℕ → ℕ → Mem src → Mem src
  unfolding drop_entry
  reset_pte0 t k s = if is_user (s.tables t k) then drop_entry t k s else s

  unfoldable pub reset_pte1 : ℕ → ℕ → Mem src → Mem src
  unfolding reset_pte0 each_entry_of drop_entry
  reset_pte1 t j s =
      if is_user (s.tables t j)
      then drop_entry t j (each_entry_of (reset_pte0 (s.tables t j).ppn) 512 0 s)
      else s

  unfoldable pub reset_pte2 : ℕ → ℕ → Mem src → Mem src
  unfolding reset_pte1 each_entry_of drop_entry
  reset_pte2 t i s =
      if is_user (s.tables t i)
      then drop_entry t i (each_entry_of (reset_pte1 (s.tables t i).ppn) 512 0 s)
      else s

  unfoldable pub reset_active_mspace : Mem src → Mem src
  unfolding reset_pte2 each_entry_of
  reset_active_mspace s = each_entry_of (reset_pte2 s.root) 512 0 s

  -- `switch_mspace` and `discard_active_mspace`, with the root of the main space.
  unfoldable pub switch_mspace : ℕ → Mem src → Mem src
  switch_mspace root s = record s { root = root }

  unfoldable pub discard_active_mspace : ℕ → Mem src → Mem src
  unfolding reset_active_mspace switch_mspace
  discard_active_mspace main s = switch_mspace main (reset_active_mspace s)
