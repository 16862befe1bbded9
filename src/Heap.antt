-- ===== src/Heap.antt =====
-- sys/heap0.c: the kernel heap, which carves blocks off the end of a pool. The headers are kept by
-- the pointer of their block, apart from the bytes of memory.
pub mod Carve
pub mod Tests
use model_lib.Base.{
  ℕ, zero, suc, ◌+◌, ◌-◌, ◌*◌, ◌/◌, ◌%◌, ◌^◌, ◌≤◌, ◌<◌, min, ◌≡◌, refl, sym, ap, ap₂, ◌∙◌, subst,
  fun_ext, ◌≢◌, ◌↔◌, ◌⊎◌, inl, inr, Bool, true, false, not, ◌&&◌, ◌||◌, Option, none, some, List,
  [], ◌∷◌, ◌++◌, map, arith, ltb, leb, ◌==◌, if◌then◌else◌, Bool-cases, Option-cases, ==_iff,
  ltb→lt, lt→ltb, leb→le, ltb→ge, ==→eq, ==→ne, ==_self, length, get_elem?, set, get_or, take, drop,
  replicate, length-append, length-set, get_elem?-set_self, get_elem?-set_ne, take-append-drop,
  length-take, length-drop, length-replicate, length-map, get_or-set_self, get_or-set_ne, take-nil,
  drop-nil, take-min,
}

abbrev pub u64_mod : ℕ
u64_mod = 2 ^ 64

abbrev pub u32_mod : ℕ
u32_mod = 2 ^ 32

abbrev pub page_size : ℕ
page_size = 4096

-- HEAP_ALIGN, HEAP_ALLOC_MAX, the size of a header and the magic number of one.
abbrev pub heap_align : ℕ
heap_align = 16

abbrev pub heap_alloc_max : ℕ
heap_alloc_max = 4032

abbrev pub header_size : ℕ
header_size = 16

abbrev pub heap_alloc_magic : ℕ
heap_alloc_magic = 3941264106

-- `struct heap_alloc_header`.
pub record Header : Type 0 where
  pub magic : ℕ
  pub size : ℕ
  pub size_inv : ℕ
  pub ra32 : ℕ

-- `heap_low` and `heap_end`, the headers, and the bytes.
pub record Heap : Type 0 where
  pub low : ℕ
  pub top : ℕ
  pub headers : ℕ → Header
  pub ram : ℕ → ℕ

pub data Outcome : Type 0 where
  null panic : Outcome
  block : ℕ → Outcome

-- `memset`.
unfoldable pub fill : (ℕ → ℕ) → ℕ → ℕ → ℕ → ℕ → ℕ
fill ram p n v a = if leb p a && ltb a (p + n) then v else ram a

unfoldable pub set_header : (ℕ → Header) → ℕ → Header → ℕ → Header
set_header headers ptr hdr p = if p == ptr then hdr else headers p

-- The header and the bytes of a new block, in the pool that is left.
unfoldable pub give : Heap → ℕ → ℕ → ℕ → ℕ → ℕ → Outcome × Heap
unfolding fill set_header
give h low top ptr size ra = (
  block ptr,
  record {
    low = low;
    top = top;
    headers = set_header h.headers ptr (record {
      magic = heap_alloc_magic;
      size = size % u32_mod;
      size_inv = u32_mod - 1 - size % u32_mod;
      ra32 = ra % u32_mod;
    });
    ram = fill h.ram ptr size 51;
  },
)

-- `ROUND_UP(size, HEAP_ALIGN)`, in 64 bits.
abbrev pub round_up : ℕ → ℕ
round_up size = (size + heap_align - 1) % u64_mod / heap_align * heap_align

-- `heap_malloc_actual`; `newpage` is what alloc_phys_page returns if it is called.
unfoldable pub heap_malloc_actual : Heap → ℕ → ℕ → ℕ → Outcome × Heap
unfolding give
heap_malloc_actual h size0 ra newpage =
    let size = round_up size0 in
    let room = (h.top + u64_mod - h.low) % u64_mod in
    let ptr = newpage + page_size - size in
    if size0 == 0
    then (null, h)
    else if ltb heap_alloc_max size
    then (panic, h)
    else if leb (size + header_size) room
    then give h h.low (h.top - size - header_size) (h.top - size) size ra
    else if ltb (page_size - header_size) size
    then (panic, h)
    else if ltb room (page_size - size - header_size)
    then give h newpage (ptr - header_size) ptr size ra
    else give h h.low h.top ptr size ra

-- The block zeroed.
unfoldable pub zeroed : ℕ → Outcome × Heap → Outcome × Heap
unfolding fill
zeroed size (block ptr, h) = (block ptr, record h { ram = fill h.ram ptr size 0 })
zeroed size r = r

-- `heap_calloc_actual`; a failed assertion is a panic, and `eltsz` is not 0.
unfoldable pub heap_calloc_actual : Heap → ℕ → ℕ → ℕ → ℕ → Outcome × Heap
unfolding heap_malloc_actual zeroed
heap_calloc_actual h nelts eltsz ra newpage =
    if leb nelts (heap_alloc_max / eltsz)
    then zeroed (nelts * eltsz) (heap_malloc_actual h (nelts * eltsz) ra newpage)
    else (panic, h)

-- The free record, which is 4 bytes of 0x25 and `ra32`, the filling behind it, and the header.
unfoldable pub mark_free : Heap → ℕ → ℕ → Heap
unfolding fill set_header
mark_free h ptr ra =
    let hdr = h.headers ptr in
    let marked = fill (fill h.ram (ptr + 8) ((hdr.size + u64_mod - 8) % u64_mod) 17) ptr 4 37 in
    record {
      low = h.low;
      top = h.top;
      headers = set_header h.headers ptr (record hdr { size_inv = 0 });
      ram = λ a.
          if leb (ptr + 4) a && ltb a (ptr + 8)
          then ra % u32_mod / 2 ^ (8 * (a - ptr - 4)) % 256
          else marked a;
    }

-- `heap_free_actual`: a panic, or the heap.
unfoldable pub heap_free_actual : Heap → ℕ → ℕ → Option Heap
unfolding mark_free
heap_free_actual h ptr ra =
    let hdr = h.headers ptr in
    if not (hdr.size == u32_mod - 1 - hdr.size_inv) then none else some (mark_free h ptr ra)
