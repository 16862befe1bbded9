-- ===== src/Memory/Pages/Canonical.antt =====
-- A free chunk list that is in order and coalesced is determined by the bytes that it holds; so
-- freeing what was just allocated restores the very list.
use model_lib.Base.{ℕ, suc, ◌+◌, ◌*◌, ◌≤◌, ◌<◌, ◌≡◌, refl, sym, ap₂, List, [], ◌∷◌, arith}
use model_lib.Memory.Pages.{
  Chunk, Phys, page_size, u32_mod, block, alloc_phys_pages, free_phys_pages,
}
use model_lib.Memory.Pages.Layout.{within, holds, Separate, pages, holds_below}
use model_lib.Memory.Pages.Alloc.{Took, alloc_phys_pages-Took}
use model_lib.Memory.Pages.Free.{Gave, free_phys_pages-Gave}

abbrev SameBytes : List Chunk → List Chunk → Type 0
SameBytes l l' = (a : ℕ) → holds l a ≡ holds l' a

module _ (lo : ℕ) (c c' : Chunk) (l l' : List Chunk) (v : Separate lo (c ∷ l))
    (v' : Separate lo (c' ∷ l')) (same : SameBytes (c ∷ l) (c' ∷ l')) where
  addr-le : c'.addr ≤ c.addr
  addr-le =
      ground
        (arith, same c.addr, holds_below (suc (c'.addr + c'.pagecnt * page_size)) l' c.addr v'.4)

  pagecnt-le : c.addr ≡ c'.addr → c'.pagecnt ≤ c.pagecnt
  pagecnt-le e = ground (
    arith,
    same (c.addr + c.pagecnt * page_size),
    holds_below (suc (c.addr + c.pagecnt * page_size)) l (c.addr + c.pagecnt * page_size) v.4,
  )

-- No byte is free twice.
pub holds-le-one : (lo : ℕ) (l : List Chunk) (a : ℕ) → Separate lo l → holds l a ≤ 1
holds-le-one lo [] a v = omega arith
holds-le-one lo (c ∷ l) a v =
    let next = suc (c.addr + c.pagecnt * page_size) in
    ground (arith, holds-le-one next l a v.4, holds_below next l a v.4)

-- Two lists in order and coalesced that hold the same bytes are the same list.
pub Separate-injective :
    (lo : ℕ) (l l' : List Chunk)
    → Separate lo l
    → Separate lo l'
    → ((a : ℕ) → holds l a ≡ holds l' a)
    → l ≡ l'
Separate-injective lo [] [] v v' same = refl
Separate-injective lo [] (c ∷ l) v v' same = absurd (ground (arith, same c.addr))
Separate-injective lo (c ∷ l) [] v v' same = absurd (ground (arith, same c.addr))
Separate-injective lo (c ∷ l) (c' ∷ l') v v' same =
    let a : c.addr ≡ c'.addr =
      omega
        (arith, addr-le lo c c' l l' v v' same, addr-le lo c' c l' l v' v (λ a. sym (same a))) in
    let n : c.pagecnt ≡ c'.pagecnt = omega (
      arith,
      pagecnt-le lo c c' l l' v v' same a,
      pagecnt-le lo c' c l' l v' v (λ a. sym (same a)) (sym a),
    ) in
    let rest : l ≡ l' =
      Separate-injective (suc (c.addr + c.pagecnt * page_size)) l l' v.4 (rw (a, n) v'.4)
        (λ k. omega (arith, same k, ap₂ (λ x y. within x y k) a n)) in
    ap₂ ◌∷◌ (λ i. record { addr = a i; pagecnt = n i }) rest

-- Freeing the block that an allocation has returned restores the free chunk list.
pub free_phys_pages-alloc_phys_pages :
    (cnt : ℕ) (s : Phys) (p : ℕ) (s' : Phys)
    → 0 < cnt
    → cnt < u32_mod
    → Separate 1 s.free_chunk_list
    → pages s.free_chunk_list < u32_mod
    → alloc_phys_pages cnt s ≡ (block p, s')
    → (free_phys_pages p cnt s').free_chunk_list ≡ s.free_chunk_list
free_phys_pages-alloc_phys_pages cnt s p s' pos small v room e =
    let t : Took cnt s p s' = alloc_phys_pages-Took cnt s p s' pos small v e in
    let g : Gave p cnt s' (free_phys_pages p cnt s') =
      free_phys_pages-Gave p cnt s' t.nonnull pos t.in_range (omega (arith, t.counted)) t.separate
        (λ a h. omega (arith, t.conserved a, holds-le-one 1 s.free_chunk_list a v)) in
    Separate-injective 1 (free_phys_pages p cnt s').free_chunk_list s.free_chunk_list g.separate v
      (λ a. omega (arith, g.conserved a, t.conserved a))
