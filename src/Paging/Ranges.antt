-- ===== src/Paging/Ranges.antt =====
-- Ranges of pages of sys/memory.c: mapping, changing the flags, unmapping, and page faults.
use model_lib.Base.{
  ℕ, zero, suc, ◌+◌, ◌-◌, ◌*◌, ◌/◌, ◌%◌, ◌^◌, Bool, true, false, not, ◌||◌, Option, none, some, ltb,
  leb, ◌==◌, if◌then◌else◌,
}
use model_lib.Paging.{
  Flags, no_flags, leaf_pte, umem_start_vma, umem_end_vma, u64_mod, PageSource, Mem, write_pte,
  put_pte, alloc_phys_pages, free_phys_page, get_leaf,
}

-- `ROUND_UP(size, PAGE_SIZE)/PAGE_SIZE`.
abbrev pub page_count : ℕ → ℕ
page_count size = (size + 4095) % u64_mod / 4096

-- `wellformed`: bits 63 to 38 are all 0 or all 1.
unfoldable pub wellformed : ℕ → Bool
wellformed vma = (vma / 2 ^ 38 == 0) || (vma / 2 ^ 38 == 2 ^ 26 - 1)

module _ (src : PageSource) where
  -- What each round does with the entry that getLeaf finds.
  abbrev pub on_leaf : (Mem src → ℕ → ℕ → Mem src) → Option ((ℕ × ℕ) × Mem src) → Option (Mem src)
  on_leaf f none = none
  on_leaf f (some ((t, i), s)) = some (f s t i)

  -- The loop of a range, over the rounds left: `f` is given the round.
  unfoldable pub each_page :
      Bool → (ℕ → Mem src → ℕ → ℕ → Mem src) → ℕ → ℕ → ℕ → Mem src → Option (Mem src)
  unfolding get_leaf
  each_page global f vma zero i s = some s
  each_page global f vma (suc left) i s =
      elim (on_leaf (f i) (get_leaf src s ((vma + i * 4096) % u64_mod) global)) [
        | none ↦ none
        | some s' ↦ each_page global f vma left (i + 1) s'
      ]

  unfoldable pub map_one : ℕ → Flags → ℕ → Mem src → ℕ → ℕ → Mem src
  unfolding put_pte leaf_pte
  map_one pp flags i s t j = write_pte src s t j (leaf_pte ((pp + i * 4096) % u64_mod) flags)

  -- `map_range` and `map_page`.
  unfoldable pub map_range : Mem src → ℕ → ℕ → ℕ → Flags → Option (Mem src)
  unfolding each_page map_one
  map_range s vma size pp flags = each_page flags.g (map_one pp flags) vma (page_count size) 0 s

  unfoldable pub map_page : Mem src → ℕ → ℕ → Flags → Option (Mem src)
  unfolding map_range
  map_page s vma pp flags = map_range s vma 4096 pp flags

  abbrev pub then_map : ℕ → ℕ → Flags → Option (ℕ × Mem src) → Option (Mem src)
  unfolding map_range
  then_map vma size flags none = none
  then_map vma size flags (some (p, s)) = map_range s vma size p flags

  -- `alloc_and_map_range`; the count of pages is an unsigned int.
  unfoldable pub alloc_and_map_range : Mem src → ℕ → ℕ → Flags → Option (Mem src)
  unfolding then_map alloc_phys_pages
  alloc_and_map_range s vma size flags =
      let n = page_count size in then_map vma (n * 4096) flags (alloc_phys_pages src s (n % 2 ^ 32))

  unfoldable pub flag_one : Flags → ℕ → Mem src → ℕ → ℕ → Mem src
  unfolding put_pte leaf_pte
  flag_one flags i s t j = write_pte src s t j (leaf_pte ((s.tables t j).ppn * 4096) flags)

  -- `set_range_flags`.
  unfoldable pub set_range_flags : Mem src → ℕ → ℕ → Flags → Option (Mem src)
  unfolding each_page flag_one
  set_range_flags s vp size flags = each_page flags.g (flag_one flags) vp (page_count size) 0 s

  -- `unmap_and_free_range`: the page is freed, and V is cleared.
  unfoldable pub unmap_one : ℕ → Mem src → ℕ → ℕ → Mem src
  unfolding put_pte free_phys_page
  unmap_one i s t j =
      let e = s.tables t j in
      write_pte src (free_phys_page src s e.ppn) t j
        (record e { flags = record e.flags { v = false } })

  unfoldable pub unmap_and_free_range : Mem src → ℕ → ℕ → Option (Mem src)
  unfolding each_page unmap_one
  unmap_and_free_range s vp size = each_page false unmap_one vp (page_count size) 0 s

  abbrev pub rwu : Flags
  rwu = record no_flags { r = true; w = true; u = true }

  abbrev pub fault_result : Option (Mem src) → Option (Mem src × Bool)
  fault_result none = none
  fault_result (some s) = some (s, true)

  -- `handle_umode_page_fault`: whether the fault is handled. alloc_and_map_range returns the address,
  -- which is not NULL in the user range.
  unfoldable pub handle_umode_page_fault : Mem src → ℕ → Option (Mem src × Bool)
  unfolding wellformed alloc_and_map_range
  handle_umode_page_fault s vma0 =
      let vma = vma0 / 4096 * 4096 in
      if not (wellformed vma)
      then some (s, false)
      else if ltb vma umem_start_vma || leb umem_end_vma vma
      then some (s, false)
      else fault_result (alloc_and_map_range s vma 4096 rwu)
