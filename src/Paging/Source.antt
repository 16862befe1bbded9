-- ===== src/Paging/Source.antt =====
-- The allocator of physical pages of sys/memory.c is a source of pages for the page tables.
use model_lib.Base.{
  ℕ, zero, suc, ◌+◌, ◌-◌, ◌*◌, ◌/◌, ◌%◌, ◌^◌, ◌≤◌, ◌<◌, ◌≡◌, sym, ap, ◌∙◌, subst, inl, inr, Option,
  none, some, List, [], ◌∷◌, arith, ◌==◌, Bool-cases, get_elem?, set,
}
use model_lib.Memory.Pages.{
  Chunk, Phys, Outcome, null, panic, block, unlink, alloc_phys_pages, free_phys_pages,
}
use model_lib.Memory.Pages.Layout.{within, holds, Separate}
use model_lib.Memory.Pages.Alloc.{
  last_pages, taken, Took, Allocates, took, failed, alloc_phys_pages-Allocates,
  alloc_phys_pages-Took,
}
use model_lib.Memory.Pages.Canonical.{holds-le-one}
use model_lib.Paging.{PageSource}
use model_lib.Paging.Tree.{PageLaws}
use mathlib.Core.Option.{some_inj}

abbrev pub given_by : Outcome × Phys → Option (ℕ × Phys)
given_by (null, s) = some (0, s)
given_by (panic, s) = none
given_by (block p, s) = some (p, s)

-- The address that alloc_phys_pages returns, and the list of free chunks behind it.
abbrev pub kernel_pages : PageSource
kernel_pages = record {
  Pool = Phys;
  alloc_pages = λ cnt s. given_by (alloc_phys_pages cnt s);
  free_pages = λ p cnt s. free_phys_pages p cnt s;
}

-- Every chunk starts at a page.
abbrev pub Aligned : List Chunk → Type 0
Aligned [] = Unit
Aligned (c ∷ l) = (c.addr % 4096 ≡ 0) × Aligned l

Aligned-unlink : (l : List Chunk) (i : ℕ) → Aligned l → Aligned (unlink l i)
unfolding unlink
Aligned-unlink [] i v = v
Aligned-unlink (c ∷ l) zero v = v.1
Aligned-unlink (c ∷ l) (suc i) v = (v.0, Aligned-unlink l i v.1)

Aligned-set :
    (l : List Chunk) (i : ℕ) (d : Chunk) → d.addr % 4096 ≡ 0 → Aligned l → Aligned (set l i d)
Aligned-set [] i d h v = v
Aligned-set (c ∷ l) zero d h v = (h, v.1)
Aligned-set (c ∷ l) (suc i) d h v = (v.0, Aligned-set l i d h v.1)

Aligned-at :
    (l : List Chunk) (i : ℕ) (c : Chunk) → get_elem? l i ≡ some c → Aligned l → c.addr % 4096 ≡ 0
Aligned-at [] i c e v = ground arith
Aligned-at (d ∷ l) zero c e v = ap (λ (x : Chunk). x.addr % 4096) (sym (some_inj.0 e)) ∙ v.0
Aligned-at (d ∷ l) (suc i) c e v = Aligned-at l i c e v.1

unfoldable pub IsPool : Phys → Type 0
IsPool s = Separate 1 s.free_chunk_list × Aligned s.free_chunk_list

unfoldable pub IsFreePage : Phys → ℕ → Type 0
IsFreePage s n = holds s.free_chunk_list (n * 4096) ≡ 1

abbrev address_of : Outcome → ℕ
address_of null = 0
address_of panic = 0
address_of (block p) = p

record Gives (cnt p : ℕ) (s s' : Phys) : Type 0 where
  pub took_lem : Took cnt s p s'
  pub start : p % 4096 ≡ 0
  pub left : Aligned s'.free_chunk_list

Gives-of_Allocates :
    (cnt p : ℕ) (s s' : Phys) (r : Outcome × Phys)
    → Aligned s.free_chunk_list
    → Allocates cnt s r
    → Took cnt s p s'
    → r ≡ (block p, s')
    → Gives cnt p s s'
unfolding taken
Gives-of_Allocates cnt p s s' r v (took i c at fits closest) t e =
    let chunk = Aligned-at s.free_chunk_list i c at v in
    let address : last_pages cnt c ≡ p = ap (λ (x : Outcome × Phys). address_of x.0) e in
    record {
      took_lem = t;
      start = (let z : p ≡ last_pages cnt c = sym address in omega arith);
      left =
          subst (λ (x : Phys). Aligned x.free_chunk_list) (ap (λ (x : Outcome × Phys). x.1) e)
            (elim (Bool-cases (c.pagecnt == cnt)) [
              | inl q ↦ rw q (Aligned-unlink s.free_chunk_list i v)
              | inr q ↦ rw q (
                  Aligned-set s.free_chunk_list i
                    (record { addr = c.addr; pagecnt = c.pagecnt - cnt }) chunk v)
            ]);
    }
Gives-of_Allocates cnt p s s' r v (failed a) t e =
    let z : panic ≡ block p = ap (λ (x : Outcome × Phys). x.0) e in ground arith

given_by-block :
    (cnt : ℕ) (s : Phys) (r : Outcome × Phys) (p : ℕ) (s' : Phys)
    → Allocates cnt s r
    → given_by r ≡ some (p, s')
    → r ≡ (block p, s')
given_by-block cnt s _ p s' (took i c at fits closest) e =
    ap (λ (x : ℕ × Phys). (block x.0, x.1)) (some_inj.0 e)
given_by-block cnt s _ p s' (failed a) e = ground arith

module _ (cnt p : ℕ) (s s' : Phys) (v : IsPool s) (pos : 0 < cnt) (small : cnt < 2 ^ 32)
    (e : given_by (alloc_phys_pages cnt s) ≡ some (p, s')) where
  gives : Gives cnt p s s'
  unfolding IsPool
  gives =
      let a = alloc_phys_pages-Allocates cnt s pos small v.0 in
      let r = given_by-block cnt s (alloc_phys_pages cnt s) p s' a e in
      Gives-of_Allocates cnt p s s' (alloc_phys_pages cnt s) v.1 a
        (alloc_phys_pages-Took cnt s p s' pos small v.0 r) r

  pub gives-IsPool : IsPool s'
  unfolding IsPool
  gives-IsPool = (gives.took_lem.separate, gives.left)

  pub gives_aligned : (p % 4096 ≡ 0) × (p + cnt * 4096 < 2 ^ 64)
  gives_aligned = (gives.start, gives.took_lem.in_range)

  pub gives_fresh : (n : ℕ) → p / 4096 ≤ n → n < p / 4096 + cnt → IsFreePage s n × ¬ IsFreePage s' n
  unfolding IsFreePage IsPool
  gives_fresh n lo hi =
      let al = gives.start in
      let inside : within p cnt (n * 4096) ≡ 1 = ground arith in
      let c = gives.took_lem.conserved (n * 4096) in
      let one = holds-le-one 1 s.free_chunk_list (n * 4096) v.0 in (omega arith, λ h. omega arith)

  pub gives_others : (n : ℕ) → IsFreePage s' n → IsFreePage s n
  unfolding IsFreePage IsPool
  gives_others n h =
      let c = gives.took_lem.conserved (n * 4096) in
      let one = holds-le-one 1 s.free_chunk_list (n * 4096) v.0 in omega arith

-- The allocator keeps what the page tables ask of it, as long as its chunks are in order, apart from each
-- other and aligned.
abbrev pub kernel_laws : PageLaws kernel_pages
kernel_laws = record {
  IsFree = IsFreePage;
  IsValid = IsPool;
  valid = λ cnt p s s' v pos small e. gives-IsPool cnt p s s' v pos small e;
  aligned = λ cnt p s s' v pos small e. gives_aligned cnt p s s' v pos small e;
  fresh = λ cnt p s s' v pos small e. gives_fresh cnt p s s' v pos small e;
  others = λ cnt p s s' v pos small e. gives_others cnt p s s' v pos small e;
}
