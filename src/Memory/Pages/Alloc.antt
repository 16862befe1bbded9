-- ===== src/Memory/Pages/Alloc.antt =====
-- `alloc_phys_pages`: what it takes from the free chunk list, and when it panics.
use model_lib.Base.{
  ℕ, zero, suc, ◌+◌, ◌-◌, ◌*◌, ◌%◌, ◌≤◌, ◌<◌, ◌≡◌, refl, sym, ap, subst, ◌↔◌, inl, inr, true, false,
  some, List, [], ◌∷◌, arith, ltb, leb, ◌==◌, if◌then◌else◌, Bool-cases, get_elem?, set,
}
use model_lib.Memory.Pages.{
  Chunk, Phys, Outcome, panic, block, page_size, u32_mod, u64_mod, closest, unlink, clear,
  take_from, alloc_at, take_best, alloc_phys_pages,
}
use model_lib.Memory.Pages.Layout.{
  within, holds, Separate, pages, holds-unlink, holds-set, pages-unlink, pages-set,
  Separate-get_elem?, Separate-unlink, Separate-shrink,
}
use model_lib.Memory.Pages.Search.{Closest, Found, closest-Found}

-- The block that a chunk gives away: its last `cnt` pages.
abbrev pub last_pages : ℕ → Chunk → ℕ
last_pages cnt c = c.addr + (c.pagecnt - cnt) * page_size

-- The state after `cnt` pages are taken from the chunk `c` at position `i`.
unfoldable pub taken : ℕ → ℕ → Chunk → Phys → Phys
taken cnt i c s = record {
  free_chunk_list =
      if c.pagecnt == cnt
      then unlink s.free_chunk_list i
      else set s.free_chunk_list i (record { addr = c.addr; pagecnt = c.pagecnt - cnt });
  ram = clear s.ram (last_pages cnt c) (cnt * page_size);
}

-- What an allocation of `cnt` pages at `p` means.
pub record Took (cnt : ℕ) (s : Phys) (p : ℕ) (s' : Phys) : Type 0 where
  pub nonnull : 0 < p
  pub in_range : p + cnt * page_size < u64_mod
  pub conserved : (a : ℕ) → holds s'.free_chunk_list a + within p cnt a ≡ holds s.free_chunk_list a
  pub separate : Separate 1 s'.free_chunk_list
  pub counted : pages s'.free_chunk_list + cnt ≡ pages s.free_chunk_list
  pub zeroed : (a : ℕ) → within p cnt a ≡ 1 → s'.ram a ≡ 0
  pub kept : (a : ℕ) → within p cnt a ≡ 0 → s'.ram a ≡ s.ram a

within_split :
    (x n k a : ℕ) → k ≤ n → within x (n - k) a + within (x + (n - k) * page_size) k a ≡ within x n a
within_split x n k a h = ground arith

module _ (cnt i : ℕ) (c : Chunk) (s : Phys) (pos : 0 < cnt) (small : cnt < u32_mod)
    (fits : cnt ≤ c.pagecnt) (at : get_elem? s.free_chunk_list i ≡ some c)
    (v : Separate 1 s.free_chunk_list) where
  abbrev rest : Chunk
  rest = record { addr = c.addr; pagecnt = c.pagecnt - cnt }

  take_from-taken :
      (bc : ℕ)
      → bc ≡ c.pagecnt
      → take_from cnt bc i c s ≡ (block (last_pages cnt c), taken cnt i c s)
  unfolding take_from taken
  take_from-taken bc e = elim (Bool-cases (c.pagecnt == cnt)) [
    | inl p ↦ let q : last_pages cnt c ≡ c.addr = ground arith in rw (p, q)
    | inr p ↦
        let q : (c.addr + ((bc + u32_mod - cnt) % u32_mod) * page_size) % u64_mod
            ≡ last_pages cnt c =
          omega (arith, Separate-get_elem? c 1 s.free_chunk_list i at v) in
        let r : ltb cnt c.pagecnt ≡ true = ground arith in rw (p, q, r)
  ]

  conserved :
      (a : ℕ)
      → holds (taken cnt i c s).free_chunk_list a + within (last_pages cnt c) cnt a
        ≡ holds s.free_chunk_list a
  unfolding taken
  conserved a = elim (Bool-cases (c.pagecnt == cnt)) [
    | inl p ↦
        let q : cnt ≡ c.pagecnt = ground arith in
        let r : last_pages cnt c ≡ c.addr = omega arith in
        rw (p, r, q) (holds-unlink c s.free_chunk_list i a at)
    | inr p ↦ rw p (
        omega (
          arith,
          holds-set c rest s.free_chunk_list i a at,
          within_split c.addr c.pagecnt cnt a fits,
        ))
  ]

  separate : Separate 1 (taken cnt i c s).free_chunk_list
  unfolding taken
  separate = elim (Bool-cases (c.pagecnt == cnt)) [
    | inl p ↦ rw p (Separate-unlink 1 s.free_chunk_list i v)
    | inr p ↦ rw p (
        Separate-shrink c (c.pagecnt - cnt) 1 s.free_chunk_list i at (ground arith) (omega arith) v)
  ]

  counted : pages (taken cnt i c s).free_chunk_list + cnt ≡ pages s.free_chunk_list
  unfolding taken
  counted = elim (Bool-cases (c.pagecnt == cnt)) [
    | inl p ↦ rw p (ground (arith, pages-unlink c s.free_chunk_list i at))
    | inr p ↦ rw p (omega (arith, pages-set c rest s.free_chunk_list i at))
  ]

  taken-Took : Took cnt s (last_pages cnt c) (taken cnt i c s)
  unfolding taken clear
  taken-Took = record {
    nonnull = omega (arith, Separate-get_elem? c 1 s.free_chunk_list i at v);
    in_range = omega (arith, Separate-get_elem? c 1 s.free_chunk_list i at v);
    conserved = conserved;
    separate = separate;
    counted = counted;
    zeroed = λ a h. ground arith;
    kept = λ a h. ground arith;
  }

-- No chunk of the list has `cnt` pages.
abbrev pub AllShort : ℕ → List Chunk → Type 0
AllShort cnt [] = Unit
AllShort cnt (c ∷ l) = (c.pagecnt < cnt) × AllShort cnt l

AllShort-of_Closest : (cnt k : ℕ) (l : List Chunk) → Closest cnt k l → k < cnt → AllShort cnt l
AllShort-of_Closest cnt k [] h q = tt
AllShort-of_Closest cnt k (c ∷ l) h q = (ground (arith, h.0), AllShort-of_Closest cnt k l h.1 q)

-- What `alloc_phys_pages` does with a list, of which it takes the chunk at position `i`: a block
-- at the end of the closest chunk, or a panic that leaves the state, if every chunk is short.
pub data Allocates (cnt : ℕ) (s : Phys) : Outcome × Phys → Type 0 where
  took :
      (i : ℕ) (c : Chunk)
      → get_elem? s.free_chunk_list i ≡ some c
      → cnt ≤ c.pagecnt
      → Closest cnt c.pagecnt s.free_chunk_list
      → Allocates cnt s (block (last_pages cnt c), taken cnt i c s)
  failed : AllShort cnt s.free_chunk_list → Allocates cnt s (panic, s)

take_from-panic :
    (cnt bc i : ℕ) (c : Chunk) (s : Phys) → c.pagecnt < cnt → take_from cnt bc i c s ≡ (panic, s)
unfolding take_from
take_from-panic cnt bc i c s h = ground arith

module _ (cnt : ℕ) (s : Phys) (pos : 0 < cnt) (small : cnt < u32_mod)
    (v : Separate 1 s.free_chunk_list) where
  -- What follows a search that has found something.
  take_from-Allocates :
      (bc : ℕ) (out : ℕ × ℕ) (f : Found cnt bc s.free_chunk_list s.free_chunk_list out)
      → Allocates cnt s (take_from cnt out.0 out.1 f.chunk s)
  take_from-Allocates bc out f = elim (Bool-cases (leb cnt f.chunk.pagecnt)) [
    | inl p ↦
        rw (take_from-taken cnt out.1 f.chunk s pos small (ground arith) f.at v out.0 f.count)
          (took out.1 f.chunk f.at (ground arith) (rw f.count at f.least))
    | inr p ↦
        rw (take_from-panic cnt out.0 out.1 f.chunk s (ground arith)) (
          failed
            (AllShort-of_Closest cnt out.0 s.free_chunk_list f.least (ground (arith, f.count))))
  ]

  take_best-Allocates :
      (bc : ℕ) (out : ℕ × ℕ)
      → Found cnt bc s.free_chunk_list s.free_chunk_list out
      → Allocates cnt s (take_best cnt out (get_elem? s.free_chunk_list out.1) s)
  take_best-Allocates bc out f = rw f.at (unfold take_best in take_from-Allocates bc out f)

  alloc_at-Allocates : (l : List Chunk) → l ≡ s.free_chunk_list → Allocates cnt s (alloc_at cnt l s)
  unfolding alloc_at
  alloc_at-Allocates [] e = failed (rw (← e) tt)
  alloc_at-Allocates (c ∷ l) e =
      let v' : Separate 1 (c ∷ l) = subst (Separate 1) (sym e) v in
      let bc = c.pagecnt % u32_mod in
      let out = closest cnt bc 0 0 (c ∷ l) in
      let found : Found cnt bc (c ∷ l) (c ∷ l) out =
        closest-Found cnt (c ∷ l) bc 0 0 (c ∷ l) c 1 v'
          (λ j d g. let q : 0 + j ≡ j = omega arith in rw q g) refl (omega (arith, v'.2)) in
      subst (λ k. Allocates cnt s (take_best cnt out (get_elem? k out.1) s)) (sym e)
        (take_best-Allocates bc out (subst (λ k. Found cnt bc k k out) e found))

-- The whole of `alloc_phys_pages`, for a request of at least one page.
pub alloc_phys_pages-Allocates :
    (cnt : ℕ) (s : Phys)
    → 0 < cnt
    → cnt < u32_mod
    → Separate 1 s.free_chunk_list
    → Allocates cnt s (alloc_phys_pages cnt s)
unfolding alloc_phys_pages
alloc_phys_pages-Allocates cnt s pos small v =
    let q : (cnt == 0) ≡ false = ground arith in
    rw q (alloc_at-Allocates cnt s pos small v s.free_chunk_list refl)

Took-of_Allocates :
    (cnt : ℕ) (s : Phys) (p : ℕ) (s' : Phys) {r : Outcome × Phys}
    → 0 < cnt
    → cnt < u32_mod
    → Separate 1 s.free_chunk_list
    → Allocates cnt s r
    → r ≡ (block p, s')
    → Took cnt s p s'
Took-of_Allocates cnt s p s' pos small v (took i c at fits best) e =
    let q : last_pages cnt c ≡ p = ground arith in
    subst (λ k. Took cnt s p k) (ap (λ r. r.1) e)
      (subst (λ k. Took cnt s k (taken cnt i c s)) q (taken-Took cnt i c s pos small fits at v))
Took-of_Allocates cnt s p s' pos small v (failed short) e = absurd (ground arith)

-- An allocation that returns a block at `p` took exactly the bytes of `cnt` pages from the free
-- ones: every byte is free as often as before, less the block's; the list stays in order and
-- separate; the block does not start at a null pointer and does not wrap; its bytes are zero, and
-- all other bytes of RAM are as before.
pub alloc_phys_pages-Took :
    (cnt : ℕ) (s : Phys) (p : ℕ) (s' : Phys)
    → 0 < cnt
    → cnt < u32_mod
    → Separate 1 s.free_chunk_list
    → alloc_phys_pages cnt s ≡ (block p, s')
    → Took cnt s p s'
alloc_phys_pages-Took cnt s p s' pos small v =
    Took-of_Allocates cnt s p s' pos small v (alloc_phys_pages-Allocates cnt s pos small v)

short_chunk :
    (cnt i : ℕ) (c : Chunk) (l : List Chunk)
    → get_elem? l i ≡ some c
    → AllShort cnt l
    → c.pagecnt < cnt
short_chunk cnt i c [] h a = ground arith
short_chunk cnt zero c (d ∷ l) h a = ground arith
short_chunk cnt (suc i) c (d ∷ l) h a = short_chunk cnt i c l h a.1

panics_iff :
    (cnt : ℕ) (s : Phys) {r : Outcome × Phys}
    → Allocates cnt s r
    → (r ≡ (panic, s)) ↔ AllShort cnt s.free_chunk_list
panics_iff cnt s (took i c at fits best) = (
  λ e. absurd (ground arith),
  λ a. absurd (omega (arith, short_chunk cnt i c s.free_chunk_list at a)),
)
panics_iff cnt s (failed short) = (λ e. short, λ a. refl)
