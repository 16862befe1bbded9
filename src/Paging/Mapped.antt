-- ===== src/Paging/Mapped.antt =====
-- What mapping a range of user pages leaves, in sys/memory.c.
use model_lib.Base.{
  ℕ, zero, suc, ◌+◌, ◌-◌, ◌*◌, ◌/◌, ◌%◌, ◌≤◌, ◌<◌, ◌≡◌, refl, sym, ap, ◌∙◌, subst, inl, inr, Bool,
  true, false, ◌&&◌, none, some, arith, ltb, leb, ◌==◌, if◌then◌else◌, Bool-cases, Option-cases,
  ==→eq, ==→ne,
}
use model_lib.Paging.Tree.{PageLaws, low, IsTree, seen, seen-found, write_leaf-IsTree}
use model_lib.Paging.{
  Flags, Pte, leaf_pte, vpn0, vpn1, umem_start_vma, umem_end_vma, u64_mod, PageSource, Mem,
  write_pte, get_leaf,
}
use model_lib.Paging.Ranges.{page_count, each_page, map_one, map_range}
use model_lib.Paging.Walk.{Leaf, get_leaf-Leaf}
use mathlib.Core.Option.{some_inj}

-- All user addresses are below entry 3 of the root.
abbrev pub user_top : ℕ
user_top = 3

abbrev pub IsUserPage : ℕ → Type 0
IsUserPage n = (786432 ≤ n) × (n < 1048576)

module _ (src : PageSource) (laws : PageLaws src) where
  -- The entry of a user page, by its number.
  abbrev pub view : Mem src → ℕ → Pte
  view s n = seen src laws user_top s (n / 512 % 512) (n % 512)

  -- One page is changed.
  pub record Changed (s : Mem src) (n : ℕ) (change : Pte → Pte) (s' : Mem src) : Type 0 where
    pub tree : IsTree src laws user_top s'
    pub pages :
        (m : ℕ)
        → 786432 ≤ m
        → m < 1048576
        → view s' m ≡ (if m == n then change (view s m) else view s m)

  same_page :
      (m a : ℕ)
      → 786432 ≤ m
      → m < 1048576
      → umem_start_vma ≤ a
      → a < umem_end_vma
      → ((m / 512 % 512 == vpn1 a) && (m % 512 == vpn0 a)) ≡ (m == a / 4096)
  same_page m a lo hi l h = elim (Bool-cases (m == a / 4096)) [
    | inl e ↦
        let q = ==→eq m (a / 4096) e in
        let x : ((m / 512 % 512 == vpn1 a) && (m % 512 == vpn0 a)) ≡ true = ground arith in
        rw (e, x) refl
    | inr e ↦
        let q = ==→ne m (a / 4096) e in
        let x : ((m / 512 % 512 == vpn1 a) && (m % 512 == vpn0 a)) ≡ false = ground arith in
        rw (e, x) refl
  ]

  pub Leaf-Changed :
      (s s2 : Mem src) (a t i : ℕ) (change : Pte → Pte)
      → umem_start_vma ≤ a
      → a < umem_end_vma
      → Leaf src laws user_top s a t i s2
      → Changed s (a / 4096) change (write_pte src s2 t i (change (s2.tables t i)))
  Leaf-Changed s s2 a t i change lo hi f =
      let j = vpn1 a in
      let k = vpn0 a in
      let l = low src laws user_top s2 j in
      let e = change (s2.tables l k) in
      let w = write_leaf-IsTree src laws user_top s2 j k e f.keeps.tree f.there2 f.there1 in
      let entry : s2.tables l k ≡ view s (a / 4096) =
        sym (seen-found src laws user_top s2 j k f.there2 f.there1) ∙ f.keeps.same j k in
      let main : Changed s (a / 4096) change (write_pte src s2 l k e) = record {
        tree = w.0;
        pages = λ m lo' hi'.
            w.1 (m / 512 % 512) (m % 512)
            ∙ ap
                (λ (b : Bool). if b then e else seen src laws user_top s2 (m / 512 % 512) (m % 512))
                (same_page m a lo' hi' lo hi)
            ∙ elim (Bool-cases (m == a / 4096)) [
              | inl q ↦
                  let same : view s (a / 4096) ≡ view s m =
                    ap (view s) (sym (==→eq m (a / 4096) q)) in
                  rw q (ap change (entry ∙ same))
              | inr q ↦ rw q (f.keeps.same (m / 512 % 512) (m % 512))
            ];
      } in
      subst (λ (x : ℕ). Changed s (a / 4096) change (write_pte src s2 x i (change (s2.tables x i))))
        (sym f.table)
        (subst
          (λ (x : ℕ). Changed s (a / 4096) change (write_pte src s2 l x (change (s2.tables l x))))
          (sym f.index) main)

  -- Pages from `from` to `to` are changed, each in its own way.
  pub record ChangedRange (s : Mem src) (from to : ℕ) (change : ℕ → Pte → Pte) (s' : Mem src)
      : Type 0 where
    pub tree : IsTree src laws user_top s'
    pub pages :
        (m : ℕ)
        → 786432 ≤ m
        → m < 1048576
        → view s' m ≡ (if leb from m && ltb m to then change m (view s m) else view s m)

  ChangedRange-nothing :
      (s : Mem src) (n : ℕ) (change : ℕ → Pte → Pte)
      → IsTree src laws user_top s
      → ChangedRange s n n change s
  ChangedRange-nothing s n change v = record {
    tree = v;
    pages = λ m lo hi. (let e : (leb n m && ltb m n) ≡ false = ground arith in rw e refl);
  }

  ChangedRange-first :
      (s s1 s2 : Mem src) (from to : ℕ) (change : ℕ → Pte → Pte)
      → from < to
      → Changed s from (change from) s1
      → ChangedRange s1 (from + 1) to change s2
      → ChangedRange s from to change s2
  ChangedRange-first s s1 s2 from to change h a b = record {
    tree = b.tree;
    pages = λ m lo hi.
        let x = a.pages m lo hi in
        let y = b.pages m lo hi in
        elim (Bool-cases (m == from)) [
          | inl e ↦
              let q = ==→eq m from e in
              let n : (leb (from + 1) m && ltb m to) ≡ false = ground arith in
              let p : (leb from m && ltb m to) ≡ true = ground arith in
              rw p (y ∙ rw n (x ∙ rw e (ap (λ (z : ℕ). change z (view s m)) (sym q))))
          | inr e ↦
              let q = ==→ne m from e in
              let n : (leb (from + 1) m && ltb m to) ≡ (leb from m && ltb m to) = ground arith in
              let x' : view s1 m ≡ view s m = x ∙ rw e refl in y ∙ rw (n, x') refl
        ];
  }

  -- The loop of a range, whose rounds each change the entry they find.
  pub each_page-ChangedRange :
      (g : Bool) (f : ℕ → Mem src → ℕ → ℕ → Mem src) (change : ℕ → Pte → Pte) (vma left i : ℕ)
      (s s' : Mem src)
      → ((k : ℕ) (u : Mem src) (t j : ℕ)
          → f k u t j ≡ write_pte src u t j (change (vma / 4096 + k) (u.tables t j)))
      → IsTree src laws user_top s
      → umem_start_vma ≤ vma
      → vma + (i + left) * 4096 ≤ umem_end_vma
      → each_page src g f vma left i s ≡ some s'
      → ChangedRange s (vma / 4096 + i) (vma / 4096 + (i + left)) change s'
  unfolding each_page
  each_page-ChangedRange g f change vma zero i s s' h v lo hi e =
      let z : vma / 4096 + i ≡ vma / 4096 + (i + 0) = omega arith in
      subst (λ (x : ℕ). ChangedRange s (vma / 4096 + i) x change s') z
        (subst (ChangedRange s (vma / 4096 + i) (vma / 4096 + i) change) (some_inj.0 e)
          (ChangedRange-nothing s (vma / 4096 + i) change v))
  each_page-ChangedRange g f change vma (suc left) i s s' h v lo hi e =
      let a = vma + i * 4096 in
      let w : a % u64_mod ≡ a = omega arith in
      let n : a / 4096 ≡ vma / 4096 + i = omega arith in
      elim (Option-cases (get_leaf src s (a % u64_mod) g)) [
        | inl x ↦
            let k : each_page src g f vma (suc left) i s ≡ none = rw (each_page, x) refl in
            ground arith
        | inr (((t, j), s2), x) ↦
            let k : each_page src g f vma (suc left) i s
                ≡ each_page src g f vma left (i + 1) (f i s2 t j) =
              rw (each_page, x) refl in
            let leaf =
              get_leaf-Leaf src laws user_top s a g ((t, j), s2) v (omega arith)
                (ap (λ (y : ℕ). get_leaf src s y g) (sym w) ∙ x) in
            let one =
              Leaf-Changed s s2 a t j (change (vma / 4096 + i)) (omega arith) (omega arith) leaf in
            let one' : Changed s (vma / 4096 + i) (change (vma / 4096 + i)) (f i s2 t j) =
              subst (Changed s (vma / 4096 + i) (change (vma / 4096 + i))) (sym (h i s2 t j)) (
                subst
                  (λ (y : ℕ).
                    Changed s y (change (vma / 4096 + i))
                      (write_pte src s2 t j (change (vma / 4096 + i) (s2.tables t j))))
                  n one) in
            let rest =
              each_page-ChangedRange g f change vma left (i + 1) (f i s2 t j) s' h one'.tree lo
                (omega arith) (sym k ∙ e) in
            let p : vma / 4096 + (i + 1) ≡ vma / 4096 + i + 1 = omega arith in
            let q : vma / 4096 + (i + 1 + left) ≡ vma / 4096 + (i + suc left) = omega arith in
            ChangedRange-first s (f i s2 t j) s' (vma / 4096 + i) (vma / 4096 + (i + suc left))
              change (omega arith) one'
              (subst
                (λ (x : ℕ). ChangedRange (f i s2 t j) x (vma / 4096 + (i + suc left)) change s') p
                (subst (λ (x : ℕ). ChangedRange (f i s2 t j) (vma / 4096 + (i + 1)) x change s') q
                  rest))
      ]

  -- The entry that a mapping from `vma` to `pp` gives the page `n`.
  abbrev pub mapped : ℕ → ℕ → Flags → ℕ → Pte
  mapped vma pp flags n = leaf_pte ((pp + (n - vma / 4096) * 4096) % u64_mod) flags

  map_one-mapped :
      (vma pp : ℕ) (flags : Flags) (k : ℕ) (u : Mem src) (t j : ℕ)
      → map_one src pp flags k u t j ≡ write_pte src u t j (mapped vma pp flags (vma / 4096 + k))
  unfolding map_one
  map_one-mapped vma pp flags k u t j =
      let z : k ≡ vma / 4096 + k - vma / 4096 = omega arith in
      ap (λ (x : ℕ). write_pte src u t j (leaf_pte ((pp + x * 4096) % u64_mod) flags)) z

  -- map_range maps every page of a range of user addresses to its page of the block, with the flags and
  -- A, D and V, and leaves every other user page as it was.
  pub map_range-ChangedRange :
      (s s' : Mem src) (vma size pp : ℕ) (flags : Flags)
      → IsTree src laws user_top s
      → umem_start_vma ≤ vma
      → vma + page_count size * 4096 ≤ umem_end_vma
      → map_range src s vma size pp flags ≡ some s'
      → ChangedRange s
          (vma / 4096)
          (vma / 4096 + page_count size)
          (λ n old. mapped vma pp flags n)
          s'
  unfolding map_range
  map_range-ChangedRange s s' vma size pp flags v lo hi e =
      let z : vma / 4096 + 0 ≡ vma / 4096 = omega arith in
      let y : 0 + page_count size ≡ page_count size = omega arith in
      let r =
        each_page-ChangedRange flags.g (map_one src pp flags) (λ n old. mapped vma pp flags n) vma
          (page_count size) 0 s s' (λ k u t j. map_one-mapped vma pp flags k u t j) v lo
          (omega arith) e in
      subst
        (λ (x : ℕ).
          ChangedRange s x (vma / 4096 + page_count size) (λ n old. mapped vma pp flags n) s')
        z
        (subst
          (λ (x : ℕ).
            ChangedRange s (vma / 4096 + 0) (vma / 4096 + x) (λ n old. mapped vma pp flags n) s')
          y r)
