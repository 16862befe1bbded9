-- ===== src/Heap/Tests.antt =====
-- Runs of sys/heap0.c, and its theorems at a concrete heap.
use model_lib.Base.{◌≡◌, refl, inr, arith}
use model_lib.Heap.{Header, Heap, block, heap_malloc_actual}
use model_lib.Heap.Carve.{IsPool, IsFresh, Mallocs, heap_malloc_actual-Mallocs}

abbrev header : Header
header = record { magic = 0; size = 32; size_inv = 4294967263; ra32 = 0 }

-- A pool of 256 bytes.
abbrev heap : Heap
heap = record { low = 4096; top = 4352; headers = λ p. header; ram = λ a. 0 }

heap-IsPool : IsPool 4096 4352
heap-IsPool = record {
  ordered = omega arith;
  bound = omega arith;
  low_aligned = refl;
  top_aligned = refl;
}

page-IsFresh : IsFresh 4096 4352 8192
page-IsFresh = record { aligned = refl; bound = omega arith; apart = inr (omega arith) }

-- 20 bytes are rounded up to 32 and carved off the end of the pool; 300 come from the new page.
heap_malloc_actual-pool : (heap_malloc_actual heap 20 7 8192).0 ≡ block 4320
unfolding heap_malloc_actual
heap_malloc_actual-pool = refl

heap_malloc_actual-page : (heap_malloc_actual heap 300 7 8192).0 ≡ block 11984
unfolding heap_malloc_actual
heap_malloc_actual-page = refl

heap_malloc_actual-Mallocs_example :
    Mallocs heap 8192 300 7 heap-IsPool page-IsFresh (heap_malloc_actual heap 300 7 8192)
heap_malloc_actual-Mallocs_example =
    heap_malloc_actual-Mallocs heap 8192 300 7 heap-IsPool page-IsFresh (omega arith)
