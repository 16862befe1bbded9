-- ===== src/Memory/Pages/Tests.antt =====
-- Runs of the page allocator of sys/memory.c, and its theorems at concrete lists.
use model_lib.Base.{◌≡◌, refl, List, [], ◌∷◌, arith}
use model_lib.Memory.Pages.{Chunk, Phys, panic, block, alloc_phys_pages, free_phys_pages}
use model_lib.Memory.Pages.Layout.{Separate}
use model_lib.Memory.Pages.Alloc.{Took, alloc_phys_pages-Took}
use model_lib.Memory.Pages.Free.{Gave, free_phys_pages-Gave}
use model_lib.Memory.Pages.Canonical.{free_phys_pages-alloc_phys_pages}

-- Chunks of 3, 8 and 2 pages.
abbrev chunks : List Chunk
chunks =
    (record { addr = 0x10000; pagecnt = 3 })
    ∷ (record { addr = 0x20000; pagecnt = 8 })
    ∷ (record { addr = 0x30000; pagecnt = 2 })
    ∷ []

abbrev state : Phys
state = record { free_chunk_list = chunks; ram = λ a. 7 }

chunks-Separate : Separate 1 chunks
chunks-Separate = omega arith

-- Two pages come from the closest chunk, five from the end of the large one.
alloc_two : (alloc_phys_pages 2 state).0 ≡ block 0x30000
unfolding alloc_phys_pages
alloc_two = refl

alloc_five : (alloc_phys_pages 5 state).0 ≡ block 0x23000
unfolding alloc_phys_pages
alloc_five = refl

alloc_nine : alloc_phys_pages 9 state ≡ (panic, state)
unfolding alloc_phys_pages
alloc_nine = refl

-- The pages between two chunks join both.
free_joins :
    (free_phys_pages 0x28000 8 state).free_chunk_list
    ≡ (record { addr = 0x10000; pagecnt = 3 }) ∷ (record { addr = 0x20000; pagecnt = 18 }) ∷ []
unfolding free_phys_pages
free_joins = refl

alloc_phys_pages-Took_example : Took 5 state 0x23000 (alloc_phys_pages 5 state).1
alloc_phys_pages-Took_example =
    alloc_phys_pages-Took 5 state 0x23000 (alloc_phys_pages 5 state).1 (omega arith) (omega arith)
      chunks-Separate (unfold alloc_phys_pages in refl)

free_phys_pages-Gave_example : Gave 0x28000 2 state (free_phys_pages 0x28000 2 state)
free_phys_pages-Gave_example =
    free_phys_pages-Gave 0x28000 2 state (omega arith) (omega arith) (omega arith) (omega arith)
      chunks-Separate (λ a h. ground arith)

free_phys_pages-alloc_phys_pages_example :
    (free_phys_pages 0x23000 5 (alloc_phys_pages 5 state).1).free_chunk_list ≡ chunks
free_phys_pages-alloc_phys_pages_example =
    free_phys_pages-alloc_phys_pages 5 state 0x23000 (alloc_phys_pages 5 state).1 (omega arith)
      (omega arith) chunks-Separate (omega arith) (unfold alloc_phys_pages in refl)
