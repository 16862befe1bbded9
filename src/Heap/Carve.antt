-- ===== src/Heap/Carve.antt =====
-- The blocks that the heap of sys/heap0.c gives out do not overlap each other or the pool.
use model_lib.Base.{
  ℕ, ◌+◌, ◌-◌, ◌%◌, ◌≤◌, ◌<◌, ◌≡◌, refl, ◌≢◌, ◌⊎◌, inl, inr, false, arith, ltb, leb, ◌==◌,
  Bool-cases, ltb→lt, leb→le, ltb→ge, ==→eq, ==_self,
}
use model_lib.Heap.{
  u64_mod, u32_mod, page_size, heap_align, heap_alloc_max, header_size, Heap, Outcome, null, panic,
  block, set_header, give, round_up, heap_malloc_actual,
}

-- A pool of addresses, both ends aligned.
pub record IsPool (low top : ℕ) : Type 0 where
  pub ordered : low ≤ top
  pub bound : top < u64_mod
  pub low_aligned : low % heap_align ≡ 0
  pub top_aligned : top % heap_align ≡ 0

-- A page that alloc_phys_page may return: aligned, below the end of memory, not in the pool.
pub record IsFresh (low top page : ℕ) : Type 0 where
  pub aligned : page % page_size ≡ 0
  pub bound : page + page_size < u64_mod
  pub apart : (page + page_size ≤ low) ⊎ (top ≤ page)

-- An interval of addresses within the pool or the page.
abbrev pub Within : ℕ → ℕ → ℕ → ℕ → ℕ → Type 0
Within low top page a b = ((low ≤ a) × (b ≤ top)) ⊎ ((page ≤ a) × (b ≤ page + page_size))

-- What a block of at least `size` bytes is.
pub record Carved (h : Heap) (page size ptr : ℕ) (h' : Heap) : Type 0 where
  pub bytes : ℕ
  pub enough : size ≤ bytes
  pub header : ((h'.headers ptr).size ≡ bytes) × ((h'.headers ptr).size_inv ≡ u32_mod - 1 - bytes)
  pub aligned : ptr % heap_align ≡ 0
  pub room : header_size ≤ ptr
  pub inside : Within h.low h.top page (ptr - header_size) (ptr + bytes)
  pub left : Within h.low h.top page h'.low h'.top
  pub apart : (h'.top ≤ ptr - header_size) ⊎ (ptr + bytes ≤ h'.low)
  pub pool : IsPool h'.low h'.top
  pub other : (p : ℕ) → p ≢ ptr → h'.headers p ≡ h.headers p

header-at :
    (h : Heap) (low top ptr size ra : ℕ)
    → size ≤ heap_alloc_max
    → let h' = (give h low top ptr size ra).1 in
      ((h'.headers ptr).size ≡ size) × ((h'.headers ptr).size_inv ≡ u32_mod - 1 - size)
unfolding give set_header
header-at h low top ptr size ra fits = rw (==_self ptr) (omega arith, omega arith)

header-other :
    (h : Heap) (low top ptr size ra p : ℕ)
    → p ≢ ptr
    → (give h low top ptr size ra).1.headers p ≡ h.headers p
unfolding give set_header
header-other h low top ptr size ra p ne = let e : (p == ptr) ≡ false = ground arith in rw e refl

-- The size that is carved: aligned, and no less than what was asked for.
round_up-fits :
    (size : ℕ)
    → size + heap_align ≤ u64_mod
    → (size ≤ round_up size)
      × (round_up size % heap_align ≡ 0)
      × (round_up size < size + heap_align)
round_up-fits size h = omega arith

module _ (h : Heap) (page size ra : ℕ) (v : IsPool h.low h.top) (f : IsFresh h.low h.top page) where
  give-Carved :
      (low top ptr bytes : ℕ)
      → size ≤ bytes
      → bytes ≤ heap_alloc_max
      → ptr % heap_align ≡ 0
      → header_size ≤ ptr
      → Within h.low h.top page (ptr - header_size) (ptr + bytes)
      → Within h.low h.top page low top
      → (top ≤ ptr - header_size) ⊎ (ptr + bytes ≤ low)
      → IsPool low top
      → Carved h page size ptr (give h low top ptr bytes ra).1
  unfolding give
  give-Carved low top ptr bytes a b c d e g i pool = record {
    bytes = bytes;
    enough = a;
    header = header-at h low top ptr bytes ra b;
    aligned = c;
    room = d;
    inside = e;
    left = g;
    apart = i;
    pool = pool;
    other = λ p ne. header-other h low top ptr bytes ra p ne;
  }

  -- What heap_malloc_actual does, for a size whose rounding does not wrap.
  abbrev pub Mallocs : Outcome × Heap → Type 0
  Mallocs r =
      ((size ≡ 0) × (r ≡ (null, h)))
      ⊎ (((heap_alloc_max < round_up size) × (r ≡ (panic, h)))
          ⊎ ((ptr : ℕ) × (r.0 ≡ block ptr) × Carved h page size ptr r.1))

  -- heap_malloc_actual returns NULL for size 0, panics if the rounded size is above the maximum, and
  -- else returns a block. The block is aligned and large enough; with its header it lies in the old
  -- pool or in the page, and the new pool does as well, but apart from the block. The pool stays
  -- aligned, and no other header changes. The pool is well formed, the page is fresh, and the
  -- rounding of the size does not wrap.
  pub heap_malloc_actual-Mallocs :
      size + heap_align ≤ u64_mod → Mallocs (heap_malloc_actual h size ra page)
  unfolding heap_malloc_actual
  heap_malloc_actual-Mallocs fits =
      let (ge, al, lt) = round_up-fits size fits in
      let sz = round_up size in
      let o = v.ordered in
      let bd = v.bound in
      let la = v.low_aligned in
      let ta = v.top_aligned in
      let pa = f.aligned in
      let pb = f.bound in
      let room_eq : (h.top + u64_mod - h.low) % u64_mod ≡ h.top - h.low = omega arith in
      elim (Bool-cases (size == 0)) [
        | inl e0 ↦ inl (==→eq size 0 e0, rw e0 refl)
        | inr e0 ↦ elim (Bool-cases (ltb heap_alloc_max sz)) [
          | inl e1 ↦ inr (inl (ltb→lt heap_alloc_max sz e1, rw (e0, e1) refl))
          | inr e1 ↦
              let small : sz ≤ heap_alloc_max = ltb→ge heap_alloc_max sz e1 in
              let e3 : ltb (page_size - header_size) sz ≡ false = ground arith in
              elim (Bool-cases (leb (sz + header_size) ((h.top + u64_mod - h.low) % u64_mod))) [
                | inl e2 ↦
                    let k : sz + header_size ≤ (h.top + u64_mod - h.low) % u64_mod =
                      leb→le _ _ e2 in
                    inr (
                      inr (
                        h.top - sz,
                        rw (e0, e1, e2) refl,
                        rw (e0, e1, e2)
                            (give-Carved h.low (h.top - sz - header_size) (h.top - sz) sz ge small
                              (omega arith) (omega arith) (inl (omega arith, omega arith))
                              (inl (omega arith, omega arith)) (inl (omega arith))
                              (record {
                                ordered = omega arith;
                                bound = omega arith;
                                low_aligned = la;
                                top_aligned = omega arith;
                              })),
                      ))
                | inr e2 ↦
                    let ptr = page + page_size - sz in
                    elim (Bool-cases
                      (ltb ((h.top + u64_mod - h.low) % u64_mod) (page_size - sz - header_size))) [
                        | inl e4 ↦ inr (
                            inr (
                              ptr,
                              rw (e0, e1, e2, e3, e4) refl,
                              rw (e0, e1, e2, e3, e4)
                                  (give-Carved page (ptr - header_size) ptr sz ge small
                                    (omega arith) (omega arith) (inr (omega arith, omega arith))
                                    (inr (omega arith, omega arith)) (inl (omega arith))
                                    (record {
                                      ordered = omega arith;
                                      bound = omega arith;
                                      low_aligned = omega arith;
                                      top_aligned = omega arith;
                                    })),
                            ))
                        | inr e4 ↦ inr (
                            inr (
                              ptr,
                              rw (e0, e1, e2, e3, e4) refl,
                              rw (e0, e1, e2, e3, e4)
                                  (give-Carved h.low h.top ptr sz ge small (omega arith)
                                    (omega arith) (inr (omega arith, omega arith))
                                    (inl (omega arith, omega arith))
                                    (elim f.apart [
                                      | inl q ↦ inr (omega arith)
                                      | inr q ↦ inl (omega arith)
                                    ])
                                    v),
                            ))
                      ]
              ]
        ]
      ]
