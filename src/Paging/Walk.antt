-- ===== src/Paging/Walk.antt =====
-- getLeaf of sys/memory.c: new tables change no entry, and its result is the entry of the address.
use model_lib.Base.{
  ℕ, ◌/◌, ◌≡◌, refl, sym, ap, ◌∙◌, subst, inl, inr, Bool, true, false, Option, some, arith,
  Bool-cases, Option-cases,
}
use model_lib.Paging.{
  Pte, ptab_pte, vpn0, vpn1, vpn2, PageSource, Mem, write_pte, after_alloc, alloc_phys_pages, enter,
  child, at_leaf, below, get_leaf,
}
use model_lib.Paging.Tree.{PageLaws, entry2, mid, entry1, low, IsTree, Keeps}
use mathlib.Core.Option.{some_inj}
use model_lib.Paging.Enter.{
  given, alloc-Given, Entered, enter_root-Entered, EnteredMid, enter_mid-EnteredMid,
}

module _ (src : PageSource) (laws : PageLaws src) (top : ℕ) where
  Keeps-trans :
      (s t u : Mem src) → Keeps src laws top s t → Keeps src laws top t u → Keeps src laws top s u
  Keeps-trans s t u a b = record { tree = b.tree; same = λ j i. b.same j i ∙ a.same j i }

  -- What getLeaf finds for an address: its entry, in a tree that shows the same entries as before.
  pub record Leaf (s : Mem src) (vma t i : ℕ) (s' : Mem src) : Type 0 where
    pub keeps : Keeps src laws top s s'
    pub there2 : (entry2 src laws top s').flags.v ≡ true
    pub there1 : (entry1 src laws top s' (vpn1 vma)).flags.v ≡ true
    pub table : t ≡ low src laws top s' (vpn1 vma)
    pub index : i ≡ vpn0 vma

  -- How child comes by its result.
  data Child (s : Mem src) (t i : ℕ) (g : Bool) : ℕ × Mem src → Type 0 where
    old : (s.tables t i).flags.v ≡ true → Child s t i g ((s.tables t i).ppn, s)
    new :
        (p : ℕ) (pool : src.Pool)
        → (s.tables t i).flags.v ≡ false
        → src.alloc_pages 1 s.pool ≡ some (p, pool)
        → Child s t i g (
          p / 4096,
          write_pte src (given src laws top s (p / 4096) 1 pool) t i (ptab_pte (p / 4096) g),
        )

  child-Child :
      (s : Mem src) (t i : ℕ) (g : Bool) (r : ℕ × Mem src)
      → child src s t i g ≡ some r
      → Child s t i g r
  unfolding child alloc_phys_pages
  child-Child s t i g r e = elim (Bool-cases (s.tables t i).flags.v) [
    | inl h ↦
        let k : child src s t i g ≡ some ((s.tables t i).ppn, s) = rw h refl in
        subst (Child s t i g) (some_inj.0 (sym k ∙ e)) (old h)
    | inr h ↦
        let k : child src s t i g
            ≡ enter src t i g (after_alloc src s 1 (src.alloc_pages 1 s.pool)) =
          rw h refl in
        elim (Option-cases (src.alloc_pages 1 s.pool)) [
          | inl n ↦
              let z =
                sym e
                ∙ k
                ∙ ap (λ (o : Option (ℕ × src.Pool)). enter src t i g (after_alloc src s 1 o)) n in
              ground arith
          | inr ((p, pool), q) ↦
              let z = sym k ∙ e in
              let y =
                sym (ap (λ (o : Option (ℕ × src.Pool)). enter src t i g (after_alloc src s 1 o)) q)
                ∙ z in
              subst (Child s t i g) (some_inj.0 y) (new p pool h q)
        ]
  ]

  Child-root :
      (s : Mem src) (g : Bool) (r : ℕ × Mem src)
      → IsTree src laws top s
      → Child s s.root top g r
      → Entered src laws top s r.1 × (mid src laws top r.1 ≡ r.0)
  Child-root s g _ v (old h) =
      (record { keeps = record { tree = v; same = λ j i. refl }; there = h }, refl)
  Child-root s g _ v (new p pool h e) =
      let a = alloc-Given src laws top s 1 p pool v (omega arith) (omega arith) e in
      let s1 = given src laws top s (p / 4096) 1 pool in
      let (b, m) =
        enter_root-Entered src laws top s1 (p / 4096) g a.keeps.tree
          (ap (λ (y : Pte). y.flags.v) a.same2 ∙ h)
          (a.spare (p / 4096) (omega arith) (omega arith)) in
      (
        record {
          keeps =
              Keeps-trans s s1 (write_pte src s1 s.root top (ptab_pte (p / 4096) g)) a.keeps
                b.keeps;
          there = b.there;
        },
        m,
      )

  Child-mid :
      (s : Mem src) (j : ℕ) (g : Bool) (r : ℕ × Mem src)
      → IsTree src laws top s
      → (entry2 src laws top s).flags.v ≡ true
      → Child s (mid src laws top s) j g r
      → EnteredMid src laws top j s r.1 × (low src laws top r.1 j ≡ r.0)
  Child-mid s j g _ v h (old x) =
      (record { keeps = record { tree = v; same = λ j i. refl }; there2 = h; there1 = x }, refl)
  Child-mid s j g _ v h (new p pool x e) =
      let n = p / 4096 in
      let a = alloc-Given src laws top s 1 p pool v (omega arith) (omega arith) e in
      let s1 = given src laws top s n 1 pool in
      let valid : Pte → Bool = λ (y : Pte). y.flags.v in
      let same_mid : mid src laws top s1 ≡ mid src laws top s = ap (λ (y : Pte). y.ppn) a.same2 in
      let (b, m) =
        enter_mid-EnteredMid src laws top s1 j n g a.keeps.tree (ap valid a.same2 ∙ h)
          (ap valid (a.same1 h j) ∙ x) (a.spare n (omega arith) (omega arith)) in
      subst
        (λ (t : ℕ).
          let s' = write_pte src s1 t j (ptab_pte n g) in
          EnteredMid src laws top j s s' × (low src laws top s' j ≡ n))
        same_mid
        (
          record {
            keeps =
                Keeps-trans s s1 (write_pte src s1 (mid src laws top s1) j (ptab_pte n g)) a.keeps
                  b.keeps;
            there2 = b.there2;
            there1 = b.there1;
          },
          m,
        )

  pub get_leaf-Leaf :
      (s : Mem src) (vma : ℕ) (g : Bool) (r : (ℕ × ℕ) × Mem src)
      → IsTree src laws top s
      → vpn2 vma ≡ top
      → get_leaf src s vma g ≡ some r
      → Leaf s vma r.0.0 r.0.1 r.1
  unfolding get_leaf
  get_leaf-Leaf s vma g r v top_eq e = elim (Option-cases (child src s s.root (vpn2 vma) g)) [
    | inl n ↦ (let z = sym e ∙ ap (below src vma g) n in ground arith)
    | inr ((t, s1), q) ↦ elim (Option-cases (child src s1 t (vpn1 vma) g)) [
      | inl n ↦ (let z = sym e ∙ ap (below src vma g) q ∙ ap (at_leaf src vma) n in ground arith)
      | inr ((t', s2), q') ↦
          let (a, m) =
            Child-root s g (t, s1) v
              (child-Child s s.root top g (t, s1)
                (ap (λ (x : ℕ). child src s s.root x g) (sym top_eq) ∙ q)) in
          let (b, l) =
            Child-mid s1 (vpn1 vma) g (t', s2) a.keeps.tree a.there
              (child-Child s1 (mid src laws top s1) (vpn1 vma) g (t', s2)
                (ap (λ (x : ℕ). child src s1 x (vpn1 vma) g) m ∙ q')) in
          let z : some ((t', vpn0 vma), s2) ≡ some r =
            sym (ap (below src vma g) q ∙ ap (at_leaf src vma) q') ∙ e in
          subst (λ (r : (ℕ × ℕ) × Mem src). Leaf s vma r.0.0 r.0.1 r.1) (some_inj.0 z)
            (record {
              keeps = Keeps-trans s s1 s2 a.keeps b.keeps;
              there2 = b.there2;
              there1 = b.there1;
              table = sym l;
              index = refl;
            })
    ]
  ]
