-- ===== src/Paging/Tests.antt =====
-- Runs of the page tables over the allocator of pages.
use model_lib.Base.{◌≡◌, refl, true, Option, none, some, [], ◌∷◌, arith}
use model_lib.Memory.Pages.{alloc_phys_pages, free_phys_pages}
use model_lib.Paging.{Flags, no_flags, null_pte, superset, Mem}
use model_lib.Paging.Ranges.{map_range, unmap_and_free_range, handle_umode_page_fault}
use model_lib.Paging.Check.{kernel_fault, valid, validate_vptr, validate_vstr}
use model_lib.Paging.Tree.{IsTree}
use model_lib.Paging.Mapped.{user_top, view, mapped, ChangedRange, map_range-ChangedRange}
use model_lib.Paging.Pointers.{validate_vptr-map_range, validate_vptr-unmap_and_free_range}
use model_lib.Paging.UserText.{Judged, validate_vstr-Judged}
use model_lib.Paging.Fault.{Faults, handle_umode_page_fault-Faults}
use model_lib.Paging.Source.{kernel_pages, kernel_laws, IsPool, IsFreePage}

-- The root is page 100, with no entry; the pages from 512 on are free.
abbrev empty : Mem kernel_pages
empty = record {
  root = 100;
  tables = λ n i. null_pte;
  bytes = λ n o. 7;
  pool = record { free_chunk_list = record { addr = 2097152; pagecnt = 16 } ∷ []; ram = λ a. 7 };
}

empty-IsTree : IsTree kernel_pages kernel_laws user_top empty
unfolding IsPool IsFreePage
empty-IsTree = record {
  pool = (omega arith, omega arith);
  root_used = λ h. omega arith;
  mid_used = λ h. ground arith;
  mid_root = λ h. ground arith;
  low_used = λ j h. ground arith;
  low_root = λ j h. ground arith;
  low_mid = λ j h. ground arith;
  low_apart = λ j k h. ground arith;
}

abbrev the : Option (Mem kernel_pages) → Mem kernel_pages
the none = empty
the (some s) = s

abbrev ru : Flags
ru = record no_flags { r = true; u = true }

-- Two pages of the user range mapped for reading.
two_pages : Mem kernel_pages
unfolding map_range
two_pages = the (map_range kernel_pages empty 3221229568 8192 819200 ru)

two_pages-maps : map_range kernel_pages empty 3221229568 8192 819200 ru ≡ some two_pages
unfolding map_range two_pages alloc_phys_pages
two_pages-maps = refl

map_range-ChangedRange_example :
    ChangedRange kernel_pages kernel_laws empty 786433 786435
      (λ n old. mapped kernel_pages kernel_laws 3221229568 819200 ru n)
      two_pages
map_range-ChangedRange_example =
    map_range-ChangedRange kernel_pages kernel_laws empty two_pages 3221229568 8192 819200 ru
      empty-IsTree (omega arith) (omega arith) two_pages-maps

validate_vptr-map_range_example : validate_vptr kernel_pages two_pages 3221229600 5000 ru ≡ valid
unfolding superset
validate_vptr-map_range_example =
    validate_vptr-map_range kernel_pages kernel_laws empty two_pages 3221229568 8192 819200 ru
      3221229600 5000 ru empty-IsTree (omega arith) (omega arith) two_pages-maps (omega arith)
      (omega arith) refl

two_pages-IsTree : IsTree kernel_pages kernel_laws user_top two_pages
two_pages-IsTree = map_range-ChangedRange_example.tree

-- The first of them unmapped again.
one_page : Mem kernel_pages
unfolding unmap_and_free_range
one_page = the (unmap_and_free_range kernel_pages two_pages 3221229568 4096)

one_page-unmaps : unmap_and_free_range kernel_pages two_pages 3221229568 4096 ≡ some one_page
unfolding unmap_and_free_range one_page map_range two_pages alloc_phys_pages free_phys_pages
one_page-unmaps = refl

first_page-superset : superset (view kernel_pages kernel_laws two_pages 786433).flags ru ≡ true
unfolding superset map_range two_pages alloc_phys_pages
first_page-superset = refl

validate_vptr-unmap_and_free_range_example :
    validate_vptr kernel_pages one_page 3221229600 10 ru ≡ valid
validate_vptr-unmap_and_free_range_example =
    validate_vptr-unmap_and_free_range kernel_pages kernel_laws two_pages one_page 3221229568
      3221229600 10 ru two_pages-IsTree (omega arith) (omega arith) (omega arith) (omega arith) refl
      first_page-superset one_page-unmaps

handle_umode_page_fault-Faults_example :
    Faults kernel_pages kernel_laws two_pages 3221229568
      (handle_umode_page_fault kernel_pages two_pages 3221229568)
handle_umode_page_fault-Faults_example =
    handle_umode_page_fault-Faults kernel_pages kernel_laws two_pages 3221229568 two_pages-IsTree

-- The check of a string in it comes to a page fault.
validate_vstr-one_page : validate_vstr kernel_pages one_page 3221229568 ru ≡ kernel_fault
unfolding validate_vstr unmap_and_free_range one_page map_range two_pages alloc_phys_pages
    free_phys_pages
validate_vstr-one_page = refl

validate_vstr-Judged_example :
    Judged kernel_pages two_pages ru 3221229568 (validate_vstr kernel_pages two_pages 3221229568 ru)
validate_vstr-Judged_example = validate_vstr-Judged kernel_pages two_pages ru 3221229568
