-- ===== src/Memory/Pages/Free.antt =====
-- `free_phys_pages`: the freed block joins the free chunk list, in order and coalesced.
use model_lib.Base.{
  ℕ, suc, ◌+◌, ◌*◌, ◌%◌, ◌≤◌, ◌<◌, ◌≡◌, refl, ◌∙◌, ◌⊎◌, inl, inr, false, List, [], ◌∷◌, arith, ltb,
  ◌==◌, Bool-cases,
}
use model_lib.Memory.Pages.{
  Chunk, Phys, page_size, u32_mod, u64_mod, chunk_end, insert_after, insert_chunk, coalesce_at,
  coalesce, free_phys_pages, free_phys_page_count,
}
use model_lib.Memory.Pages.Layout.{within, holds, Separate, pages, pages-le}

-- As `Separate`, but neighbours may touch.
abbrev Apart : ℕ → List Chunk → Type 0
Apart lo [] = Unit
Apart lo (c ∷ l) =
    (lo ≤ c.addr)
    × (0 < c.pagecnt)
    × (c.addr + c.pagecnt * page_size < u64_mod)
    × Apart (c.addr + c.pagecnt * page_size) l

-- No byte of the block is in a chunk of the list.
abbrev pub Disjoint : Chunk → List Chunk → Type 0
Disjoint t l = (a : ℕ) → within t.addr t.pagecnt a ≡ 1 → holds l a ≡ 0

Apart-of_Separate : (lo lo' : ℕ) (l : List Chunk) → lo' ≤ lo → Separate lo l → Apart lo' l
Apart-of_Separate lo lo' [] h v = tt
Apart-of_Separate lo lo' (c ∷ l) h v = (
  omega arith,
  v.1,
  v.3,
  Apart-of_Separate (suc (c.addr + c.pagecnt * page_size)) (c.addr + c.pagecnt * page_size) l
      (omega arith) v.4,
)

module _ (t : Chunk) (pos : 0 < t.pagecnt) (fits : t.addr + t.pagecnt * page_size < u64_mod) where
  insert_after-Apart :
      (lo lo' : ℕ) (l : List Chunk)
      → lo' ≤ lo
      → Separate lo l
      → lo' ≤ t.addr
      → Disjoint t l
      → Apart lo' (insert_after t l)
  unfolding insert_after
  insert_after-Apart lo lo' [] h v k d = (k, pos, fits, tt)
  insert_after-Apart lo lo' (c ∷ l) h v k d = elim (Bool-cases (ltb c.addr t.addr)) [
    | inl p ↦ rw p (
      omega arith,
      v.1,
      v.3,
      insert_after-Apart (suc (c.addr + c.pagecnt * page_size)) (c.addr + c.pagecnt * page_size) l
          (omega arith) v.4 (ground (arith, d t.addr)) (λ a q. ground (arith, d a q)),
    )
    | inr p ↦ rw p (
      k,
      pos,
      fits,
      (
        ground (arith, d c.addr),
        v.1,
        v.3,
        Apart-of_Separate (suc (c.addr + c.pagecnt * page_size)) _ l (omega arith) v.4,
      ),
    )
  ]

  insert_chunk-Apart :
      (lo : ℕ) (l : List Chunk)
      → Separate lo l
      → lo ≤ t.addr
      → Disjoint t l
      → Apart lo (insert_chunk t l)
  unfolding insert_chunk
  insert_chunk-Apart lo [] v k d = (k, pos, fits, tt)
  insert_chunk-Apart lo (c ∷ l) v k d = elim (Bool-cases (ltb t.addr c.addr)) [
    | inl p ↦ rw p (
      k,
      pos,
      fits,
      (
        ground (arith, d c.addr),
        v.1,
        v.3,
        Apart-of_Separate (suc (c.addr + c.pagecnt * page_size)) _ l (omega arith) v.4,
      ),
    )
    | inr p ↦ rw p (
      v.0,
      v.1,
      v.3,
      insert_after-Apart (suc (c.addr + c.pagecnt * page_size)) (c.addr + c.pagecnt * page_size) l
          (omega arith) v.4 (ground (arith, d t.addr)) (λ a q. ground (arith, d a q)),
    )
  ]

module _ (t : Chunk) where
  holds-insert_after :
      (l : List Chunk) (a : ℕ) → holds (insert_after t l) a ≡ within t.addr t.pagecnt a + holds l a
  unfolding insert_after
  holds-insert_after [] a = refl
  holds-insert_after (c ∷ l) a = elim (Bool-cases (ltb c.addr t.addr)) [
    | inl p ↦ rw p (omega (arith, holds-insert_after l a))
    | inr p ↦ rw p
  ]

  holds-insert_chunk :
      (l : List Chunk) (a : ℕ) → holds (insert_chunk t l) a ≡ within t.addr t.pagecnt a + holds l a
  unfolding insert_chunk
  holds-insert_chunk [] a = refl
  holds-insert_chunk (c ∷ l) a = elim (Bool-cases (ltb t.addr c.addr)) [
    | inl p ↦ rw p
    | inr p ↦ rw p (omega (arith, holds-insert_after l a))
  ]

  pages-insert_after : (l : List Chunk) → pages (insert_after t l) ≡ t.pagecnt + pages l
  unfolding insert_after
  pages-insert_after [] = refl
  pages-insert_after (c ∷ l) = elim (Bool-cases (ltb c.addr t.addr)) [
    | inl p ↦ rw p (omega (arith, pages-insert_after l))
    | inr p ↦ rw p
  ]

  pages-insert_chunk : (l : List Chunk) → pages (insert_chunk t l) ≡ t.pagecnt + pages l
  unfolding insert_chunk
  pages-insert_chunk [] = refl
  pages-insert_chunk (c ∷ l) = elim (Bool-cases (ltb t.addr c.addr)) [
    | inl p ↦ rw p
    | inr p ↦ rw p (omega (arith, pages-insert_after l))
  ]

-- Two chunks that touch, as one.
abbrev join : Chunk → Chunk → Chunk
join c d = record { addr = c.addr; pagecnt = (c.pagecnt + d.pagecnt) % u64_mod }

within_join :
    (c d : Chunk) (a : ℕ)
    → c.addr + c.pagecnt * page_size ≡ d.addr
    → (c.pagecnt + d.pagecnt) % u64_mod ≡ c.pagecnt + d.pagecnt
    → within c.addr ((c.pagecnt + d.pagecnt) % u64_mod) a
      ≡ within c.addr c.pagecnt a + within d.addr d.pagecnt a
within_join c d a e f = rw f (ground arith)

-- What the coalescing loop makes of a list whose chunks may touch.
record Coalesced (lo : ℕ) (l l' : List Chunk) : Type 0 where
  separate : Separate lo l'
  same : (a : ℕ) → holds l' a ≡ holds l a
  counted : pages l' ≡ pages l

coalesce_at-Coalesced :
    (lo : ℕ) (c : Chunk) (l : List Chunk)
    → Apart lo (c ∷ l)
    → pages (c ∷ l) < u32_mod
    → Coalesced lo (c ∷ l) (coalesce_at c l)
unfolding coalesce_at
coalesce_at-Coalesced lo c [] v h = record {
  separate = (v.0, v.1, omega arith, v.2, tt);
  same = λ a. refl;
  counted = refl;
}
coalesce_at-Coalesced lo c (d ∷ l) v h = elim (Bool-cases (chunk_end c == d.addr)) [
  | inl p ↦
      let touch : c.addr + c.pagecnt * page_size ≡ d.addr = ground arith in
      let sum : (c.pagecnt + d.pagecnt) % u64_mod ≡ c.pagecnt + d.pagecnt = omega arith in
      let far : c.addr + (c.pagecnt + d.pagecnt) * page_size ≡ d.addr + d.pagecnt * page_size =
        omega arith in
      let r : Coalesced lo (join c d ∷ l) (coalesce_at (join c d) l) =
        coalesce_at-Coalesced lo (join c d) l
          (omega arith, omega arith, omega (arith, v.3), rw (sum, far) v.3.3) (omega arith) in
      rw p (record {
        separate = r.separate;
        same = λ a. omega (arith, r.same a, within_join c d a touch sum);
        counted = omega (arith, r.counted, sum);
      })
  | inr p ↦
      let r : Coalesced (suc (c.addr + c.pagecnt * page_size)) (d ∷ l) (coalesce_at d l) =
        coalesce_at-Coalesced (suc (c.addr + c.pagecnt * page_size)) d l
          (ground arith, v.3.1, v.3.2, v.3.3) (omega arith) in
      rw p (record {
        separate = (v.0, v.1, omega arith, v.2, r.separate);
        same = λ a. omega (arith, r.same a);
        counted = omega (arith, r.counted);
      })
]

coalesce-Coalesced :
    (lo : ℕ) (l : List Chunk) → Apart lo l → pages l < u32_mod → Coalesced lo l (coalesce l)
unfolding coalesce
coalesce-Coalesced lo [] v h = record { separate = tt; same = λ a. refl; counted = refl }
coalesce-Coalesced lo (c ∷ l) v h = coalesce_at-Coalesced lo c l v h

-- The block that `free_phys_pages` is given.
abbrev pub freed : ℕ → ℕ → Chunk
freed pp cnt = record { addr = pp; pagecnt = cnt }

-- What a free of `cnt` pages at `pp` means.
pub record Gave (pp cnt : ℕ) (s s' : Phys) : Type 0 where
  pub separate : Separate 1 s'.free_chunk_list
  pub conserved : (a : ℕ) → holds s'.free_chunk_list a ≡ within pp cnt a + holds s.free_chunk_list a
  pub counted : pages s'.free_chunk_list ≡ cnt + pages s.free_chunk_list
  pub kept : s'.ram ≡ s.ram

-- A block that no free chunk overlaps joins the free bytes, each of them once, and no other byte
-- changes its state; the list is in order and coalesced again: no two of its chunks touch. The
-- pages in the list may be no more than a 32-bit count holds.
pub free_phys_pages-Gave :
    (pp cnt : ℕ) (s : Phys)
    → 0 < pp
    → 0 < cnt
    → pp + cnt * page_size < u64_mod
    → cnt + pages s.free_chunk_list < u32_mod
    → Separate 1 s.free_chunk_list
    → Disjoint (freed pp cnt) s.free_chunk_list
    → Gave pp cnt s (free_phys_pages pp cnt s)
unfolding free_phys_pages
free_phys_pages-Gave pp cnt s hp hc fits room v d =
    let l = s.free_chunk_list in
    let t = freed pp cnt in
    let r : Coalesced 1 (insert_chunk t l) (coalesce (insert_chunk t l)) =
      coalesce-Coalesced 1 (insert_chunk t l) (insert_chunk-Apart t hc fits 1 l v hp d)
        (omega (arith, pages-insert_chunk t l)) in
    let zp : (pp == 0) ≡ false = ground arith in
    let zc : (cnt == 0) ≡ false = ground arith in
    rw (zp, zc)
      (record {
        separate = r.separate;
        conserved = λ a. r.same a ∙ holds-insert_chunk t l a;
        counted = r.counted ∙ pages-insert_chunk t l;
        kept = refl;
      })

-- A null pointer or a count of 0 changes nothing.
pub free_phys_pages_noop :
    (pp cnt : ℕ) (s : Phys) → (pp ≡ 0) ⊎ (cnt ≡ 0) → free_phys_pages pp cnt s ≡ s
unfolding free_phys_pages
free_phys_pages_noop pp cnt s h = ground arith

-- The count of free pages is the number of pages that the list's chunks have.
pub free_phys_page_count-pages :
    (lo : ℕ) (l : List Chunk) → Separate lo l → free_phys_page_count l ≡ pages l
unfolding free_phys_page_count
free_phys_page_count-pages lo [] v = refl
free_phys_page_count-pages lo (c ∷ l) v =
    let next = suc (c.addr + c.pagecnt * page_size) in
    omega (arith, free_phys_page_count-pages next l v.4, pages-le next l v.4 (omega (arith, v.3)))
