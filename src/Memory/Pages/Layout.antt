-- ===== src/Memory/Pages/Layout.antt =====
-- The free chunk list of sys/memory.c as a set of bytes: which bytes a list holds, and the shape
-- in which `free_phys_pages` keeps it (ordered by address, no two chunks touching).
use model_lib.Base.{
  ℕ, zero, suc, ◌+◌, ◌*◌, ◌≤◌, ◌<◌, ◌≡◌, refl, ◌&&◌, some, List, [], ◌∷◌, ltb, leb, if◌then◌else◌,
  get_elem?, set, arith,
}
use model_lib.Memory.Pages.{Chunk, page_size, u64_mod, u32_mod, unlink}

-- 1 at the bytes of `n` pages from `p` on, 0 elsewhere.
abbrev pub within : ℕ → ℕ → ℕ → ℕ
within p n a = if leb p a && ltb a (p + n * page_size) then 1 else 0

-- How many chunks of the list the byte at `a` lies in.
abbrev pub holds : List Chunk → ℕ → ℕ
holds [] a = 0
holds (c ∷ l) a = within c.addr c.pagecnt a + holds l a

-- The chunks stand at `lo` or above, in order, with a gap between any two; none is empty, and
-- neither its page count nor its end is out of range.
abbrev pub Separate : ℕ → List Chunk → Type 0
Separate lo [] = Unit
Separate lo (c ∷ l) =
    (lo ≤ c.addr)
    × (0 < c.pagecnt)
    × (c.pagecnt < u32_mod)
    × (c.addr + c.pagecnt * page_size < u64_mod)
    × Separate (suc (c.addr + c.pagecnt * page_size)) l

-- The number of free pages.
abbrev pub pages : List Chunk → ℕ
pages [] = 0
pages (c ∷ l) = c.pagecnt + pages l

pub Separate-weaken : (lo lo' : ℕ) (l : List Chunk) → lo' ≤ lo → Separate lo l → Separate lo' l
Separate-weaken lo lo' [] h v = tt
Separate-weaken lo lo' (c ∷ l) h v = (omega arith, v.1, v.2, v.3, v.4)

pub holds_below : (lo : ℕ) (l : List Chunk) (a : ℕ) → Separate lo l → a < lo → holds l a ≡ 0
holds_below lo [] a v h = refl
holds_below lo (c ∷ l) a v h =
    ground (arith, holds_below (suc (c.addr + c.pagecnt * page_size)) l a v.4)

pub pages-le :
    (lo : ℕ) (l : List Chunk) → Separate lo l → lo ≤ u64_mod → pages l * page_size + lo ≤ u64_mod
pages-le lo [] v h = omega arith
pages-le lo (c ∷ l) v h =
    let (a, b, d, e, r) = v in
    omega (arith, pages-le (suc (c.addr + c.pagecnt * page_size)) l r (omega arith))

module _ (c : Chunk) where
  pub holds-unlink :
      (l : List Chunk) (i a : ℕ)
      → get_elem? l i ≡ some c
      → holds (unlink l i) a + within c.addr c.pagecnt a ≡ holds l a
  unfolding unlink
  holds-unlink [] i a h = ground arith
  holds-unlink (d ∷ l) zero a h = ground arith
  holds-unlink (d ∷ l) (suc i) a h = omega (arith, holds-unlink l i a h)

  pub holds-set :
      (d : Chunk) (l : List Chunk) (i a : ℕ)
      → get_elem? l i ≡ some c
      → holds (set l i d) a + within c.addr c.pagecnt a ≡ holds l a + within d.addr d.pagecnt a
  holds-set d [] i a h = ground arith
  holds-set d (e ∷ l) zero a h = ground arith
  holds-set d (e ∷ l) (suc i) a h = omega (arith, holds-set d l i a h)

  pub pages-unlink :
      (l : List Chunk) (i : ℕ) → get_elem? l i ≡ some c → pages (unlink l i) + c.pagecnt ≡ pages l
  unfolding unlink
  pages-unlink [] i h = ground arith
  pages-unlink (d ∷ l) zero h = ground arith
  pages-unlink (d ∷ l) (suc i) h = omega (arith, pages-unlink l i h)

  pub pages-set :
      (d : Chunk) (l : List Chunk) (i : ℕ)
      → get_elem? l i ≡ some c
      → pages (set l i d) + c.pagecnt ≡ pages l + d.pagecnt
  pages-set d [] i h = ground arith
  pages-set d (e ∷ l) zero h = ground arith
  pages-set d (e ∷ l) (suc i) h = omega (arith, pages-set d l i h)

  -- A chunk of a separate list is in range.
  pub Separate-get_elem? :
      (lo : ℕ) (l : List Chunk) (i : ℕ)
      → get_elem? l i ≡ some c
      → Separate lo l
      → (lo ≤ c.addr) × (c.pagecnt < u32_mod) × (c.addr + c.pagecnt * page_size < u64_mod)
  Separate-get_elem? lo [] i h v = ground arith
  Separate-get_elem? lo (d ∷ l) zero h v = ground arith
  Separate-get_elem? lo (d ∷ l) (suc i) h v =
      let (a, b, e, f, r) = v in
      omega (arith, Separate-get_elem? (suc (d.addr + d.pagecnt * page_size)) l i h r)

pub Separate-unlink : (lo : ℕ) (l : List Chunk) (i : ℕ) → Separate lo l → Separate lo (unlink l i)
unfolding unlink
Separate-unlink lo [] i v = tt
Separate-unlink lo (c ∷ l) zero v = Separate-weaken _ lo l (omega arith) v.4
Separate-unlink lo (c ∷ l) (suc i) v =
    (v.0, v.1, v.2, v.3, Separate-unlink (suc (c.addr + c.pagecnt * page_size)) l i v.4)

-- A chunk may give away pages at its end.
pub Separate-shrink :
    (c : Chunk) (n lo : ℕ) (l : List Chunk) (i : ℕ)
    → get_elem? l i ≡ some c
    → 0 < n
    → n ≤ c.pagecnt
    → Separate lo l
    → Separate lo (set l i (record { addr = c.addr; pagecnt = n }))
Separate-shrink c n lo [] i h p q v = tt
Separate-shrink c n lo (d ∷ l) zero h p q v =
    let e : d ≡ c = cc in
    (
      ground arith,
      p,
      ground arith,
      ground arith,
      Separate-weaken _ (suc (c.addr + n * page_size)) l (ground arith) v.4,
    )
Separate-shrink c n lo (d ∷ l) (suc i) h p q v =
    (v.0, v.1, v.2, v.3, Separate-shrink c n (suc (d.addr + d.pagecnt * page_size)) l i h p q v.4)
