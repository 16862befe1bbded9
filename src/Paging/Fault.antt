-- ===== src/Paging/Fault.antt =====
-- Page faults of user mode, in sys/memory.c.
use model_lib.Base.{
  ℕ, zero, suc, ◌+◌, ◌-◌, ◌*◌, ◌/◌, ◌%◌, ◌^◌, ◌≤◌, ◌<◌, ◌≡◌, refl, sym, ap, ◌∙◌, subst, ◌⊎◌, inl,
  inr, Bool, true, false, ◌&&◌, ◌||◌, Option, none, some, arith, ltb, leb, ◌==◌, if◌then◌else◌,
  Bool-cases, Option-cases, ==→eq, ==→ne,
}
use mathlib.Core.Option.{some_inj}
use model_lib.Paging.{
  Flags, vpn0, vpn1, vpn2, child, get_leaf, zero_pages, write_pte, put_pte, ptab_pte, clear_pages,
  leaf_pte, umem_start_vma, umem_end_vma, u64_mod, PageSource, Mem, alloc_phys_pages,
}
use model_lib.Paging.Ranges.{
  page_count, wellformed, map_range, map_one, each_page, alloc_and_map_range, rwu, fault_result,
  handle_umode_page_fault,
}
use model_lib.Paging.Tree.{PageLaws, IsTree}
use model_lib.Paging.Enter.{Given, given, alloc-Given}
use model_lib.Paging.Mapped.{user_top, view, map_range-ChangedRange}

module _ (src : PageSource) (laws : PageLaws src) where
  -- The page of the address is mapped to a page that was free, for reading and writing.
  pub record Handled (s : Mem src) (vma : ℕ) (s' : Mem src) : Type 0 where
    pub tree : IsTree src laws user_top s'
    pub page : ℕ
    pub was_free : laws.IsFree s.pool page
    pub pages :
        (m : ℕ)
        → 786432 ≤ m
        → m < 1048576
        → view src laws s' m
          ≡ (if m == vma / 4096 then leaf_pte (page * 4096) (rwu src) else view src laws s m)

  -- The pool has `k` pages, one after the other.
  abbrev pub HasPages : ℕ → src.Pool → Type 0
  HasPages zero pool = Unit
  HasPages (suc k) pool = (r : ℕ × src.Pool) × (src.alloc_pages 1 pool ≡ some r) × HasPages k r.1

  fewer : (k : ℕ) (pool : src.Pool) → HasPages (suc k) pool → HasPages k pool
  fewer zero pool h = tt
  fewer (suc k) pool (r, q, h) = (r, q, fewer k r.1 h)

  child-HasPages :
      (s : Mem src) (t i k : ℕ) (g : Bool)
      → HasPages (suc k) s.pool
      → (r : ℕ × Mem src) × (child src s t i g ≡ some r) × HasPages k r.1.pool
  unfolding child alloc_phys_pages put_pte ptab_pte clear_pages
  child-HasPages s t i k g h = elim (Bool-cases (s.tables t i).flags.v) [
    | inl e ↦ (((s.tables t i).ppn, s), rw e refl, fewer k s.pool h)
    | inr e ↦
        (let ((p, pool), q, more) = h in
          let s1 = record (zero_pages src s (p / 4096) 1) { pool = pool } in
          ((p / 4096, write_pte src s1 t i (ptab_pte (p / 4096) g)), rw (e, q) refl, more))
  ]

  get_leaf-HasPages :
      (s : Mem src) (vma : ℕ) (g : Bool)
      → HasPages 2 s.pool
      → (r : (ℕ × ℕ) × Mem src) × (get_leaf src s vma g ≡ some r)
  unfolding get_leaf
  get_leaf-HasPages s vma g h =
      let ((t, s1), e, h1) = child-HasPages s s.root (vpn2 vma) 1 g h in
      let ((u, s2), f, h2) = child-HasPages s1 t (vpn1 vma) 0 g h1 in
      (((u, vpn0 vma), s2), rw (e, f) refl)

  first_page :
      (g : Bool) (f : ℕ → Mem src → ℕ → ℕ → Mem src) (vma t j : ℕ) (s s2 : Mem src)
      → get_leaf src s ((vma + 0 * 4096) % u64_mod) g ≡ some ((t, j), s2)
      → each_page src g f vma 1 0 s ≡ some (f 0 s2 t j)
  unfolding each_page
  first_page g f vma t j s s2 e = rw (each_page, e) refl

  map_range-HasPages :
      (s : Mem src) (vma pp : ℕ) (flags : Flags)
      → HasPages 2 s.pool
      → ¬ (map_range src s vma 4096 pp flags ≡ none)
  unfolding map_range
  map_range-HasPages s vma pp flags h n =
      let (((t, i), s2), e) = get_leaf-HasPages s ((vma + 0 * 4096) % u64_mod) flags.g h in
      let z = sym n ∙ first_page flags.g (map_one src pp flags) vma t i s s2 e in cc

  -- What a page fault leads to. `none` is the panic of an allocation, where the pool has fewer pages than
  -- the page and two tables take.
  pub data Faults (s : Mem src) (vma : ℕ) : Option (Mem src × Bool) → Type 0 where
    ignored : (vma < umem_start_vma) ⊎ (umem_end_vma ≤ vma) → Faults s vma (some (s, false))
    handled :
        (s' : Mem src)
        → umem_start_vma ≤ vma
        → vma < umem_end_vma
        → Handled s vma s'
        → Faults s vma (some (s', true))
    panics : umem_start_vma ≤ vma → vma < umem_end_vma → ¬ HasPages 3 s.pool → Faults s vma none

  mapped-Handled :
      (s s1 s' : Mem src) (vma p : ℕ)
      → umem_start_vma ≤ vma
      → vma < umem_end_vma
      → laws.IsFree s.pool (p / 4096)
      → Given src laws user_top s 1 p s1
      → map_range src s1 (vma / 4096 * 4096) 4096 p (rwu src) ≡ some s'
      → Handled s vma s'
  mapped-Handled s s1 s' vma p lo hi free a e =
      let c =
        map_range-ChangedRange src laws s1 s' (vma / 4096 * 4096) 4096 p (rwu src) a.keeps.tree
          (omega arith) (omega arith) e in
      let al : p % 4096 ≡ 0 = a.aligned in
      let bound : p + 1 * 4096 < 2 ^ 64 = a.bound in
      record {
        tree = c.tree;
        page = p / 4096;
        was_free = free;
        pages = λ m lo' hi'.
            let kept : view src laws s1 m ≡ view src laws s m =
              a.keeps.same (m / 512 % 512) (m % 512) in
            elim (Bool-cases (m == vma / 4096)) [
              | inl q ↦
                  let eq = ==→eq m (vma / 4096) q in
                  let inside : (leb (vma / 4096 * 4096 / 4096) m
                        && ltb m (vma / 4096 * 4096 / 4096 + page_count 4096))
                      ≡ true =
                    ground arith in
                  let at : (p + (m - vma / 4096 * 4096 / 4096) * 4096) % u64_mod ≡ p / 4096 * 4096 =
                    omega arith in
                  rw q (c.pages m lo' hi' ∙ rw inside (ap (λ (x : ℕ). leaf_pte x (rwu src)) at))
              | inr q ↦
                  let ne = ==→ne m (vma / 4096) q in
                  let outside : (leb (vma / 4096 * 4096 / 4096) m
                        && ltb m (vma / 4096 * 4096 / 4096 + page_count 4096))
                      ≡ false =
                    ground arith in
                  rw q (c.pages m lo' hi' ∙ rw outside kept)
            ];
      }

  alloc_and_map_range-Faults :
      (s : Mem src) (vma : ℕ)
      → IsTree src laws user_top s
      → umem_start_vma ≤ vma
      → vma < umem_end_vma
      → Faults s vma
          (fault_result src (alloc_and_map_range src s (vma / 4096 * 4096) 4096 (rwu src)))
  unfolding alloc_and_map_range alloc_phys_pages
  alloc_and_map_range-Faults s vma v lo hi = elim (Option-cases (src.alloc_pages 1 s.pool)) [
    | inl n ↦ rw n (panics lo hi (λ h. let z = sym n ∙ h.1 in cc))
    | inr ((p, pool), q) ↦
        let s1 = given src laws user_top s (p / 4096) 1 pool in
        let a = alloc-Given src laws user_top s 1 p pool v (omega arith) (omega arith) q in
        let free =
          (laws.fresh 1 p s.pool pool v.pool (omega arith) (omega arith) q (p / 4096) (omega arith)
            (omega arith)).0 in
        elim (Option-cases (map_range src s1 (vma / 4096 * 4096) 4096 p (rwu src))) [
          | inl n ↦
              rw (q, n)
                (panics lo hi (λ h.
                  let same : h.0 ≡ (p, pool) = some_inj.0 (sym h.1 ∙ q) in
                  map_range-HasPages s1 (vma / 4096 * 4096) p (rwu src)
                    (subst (λ (r : ℕ × src.Pool). HasPages 2 r.1) same h.2) n))
          | inr (s', e) ↦ rw (q, e) (handled s' lo hi (mapped-Handled s s1 s' vma p lo hi free a e))
        ]
  ]

  -- A page fault outside the user range is not handled and changes nothing. One inside panics only if the
  -- pool has fewer than three pages. Otherwise it maps the page of the address, whatever it was mapped to
  -- before, to a page that was free, for reading and writing from user mode, and leaves every other user
  -- page as it was.
  pub handle_umode_page_fault-Faults :
      (s : Mem src) (vma : ℕ)
      → IsTree src laws user_top s
      → Faults s vma (handle_umode_page_fault src s vma)
  unfolding handle_umode_page_fault wellformed
  handle_umode_page_fault-Faults s vma v =
      let a = vma / 4096 * 4096 in
      elim (Bool-cases ((a / 2 ^ 38 == 0) || (a / 2 ^ 38 == 2 ^ 26 - 1))) [
        | inr w ↦ rw w (ignored (ground arith))
        | inl w ↦ elim (Bool-cases (ltb a umem_start_vma || leb umem_end_vma a)) [
          | inl e ↦ rw (w, e) (ignored (ground arith))
          | inr e ↦ rw (w, e) (alloc_and_map_range-Faults s vma v (ground arith) (ground arith))
        ]
      ]
