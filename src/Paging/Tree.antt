-- ===== src/Paging/Tree.antt =====
-- The tree of page tables below one entry of the root of sys/memory.c, which is all of user memory.
use model_lib.Base.{
  ℕ, ◌+◌, ◌*◌, ◌/◌, ◌%◌, ◌^◌, ◌≤◌, ◌<◌, ◌≡◌, refl, sym, ap, ◌∙◌, subst, ◌⊎◌, inl, inr, true, false,
  ◌&&◌, some, arith, ltb, leb, ◌==◌, if◌then◌else◌, Bool-cases, ==→eq, ==→ne, ==_self,
}
use model_lib.Paging.{Pte, null_pte, PageSource, Mem, put_pte, write_pte, clear_pages}

-- What the mapping of pages relies on: a block of pages that is given out is free before, and not any
-- longer, and no page becomes free by it.
pub record PageLaws (src : PageSource) : Type 1 where
  pub IsFree : src.Pool → ℕ → Type 0
  pub IsValid : src.Pool → Type 0
  pub valid :
      (cnt p : ℕ) (s s' : src.Pool)
      → IsValid s
      → 0 < cnt
      → cnt < 2 ^ 32
      → src.alloc_pages cnt s ≡ some (p, s')
      → IsValid s'
  pub aligned :
      (cnt p : ℕ) (s s' : src.Pool)
      → IsValid s
      → 0 < cnt
      → cnt < 2 ^ 32
      → src.alloc_pages cnt s ≡ some (p, s')
      → (p % 4096 ≡ 0) × (p + cnt * 4096 < 2 ^ 64)
  pub fresh :
      (cnt p : ℕ) (s s' : src.Pool)
      → IsValid s
      → 0 < cnt
      → cnt < 2 ^ 32
      → src.alloc_pages cnt s ≡ some (p, s')
      → (n : ℕ) → p / 4096 ≤ n
      → n < p / 4096 + cnt
      → IsFree s n × ¬ IsFree s' n
  pub others :
      (cnt p : ℕ) (s s' : src.Pool)
      → IsValid s
      → 0 < cnt
      → cnt < 2 ^ 32
      → src.alloc_pages cnt s ≡ some (p, s')
      → (n : ℕ) → IsFree s' n
      → IsFree s n

pub put_pte-same : (f : ℕ → ℕ → Pte) (t i : ℕ) (e : Pte) → put_pte f t i e t i ≡ e
unfolding put_pte
put_pte-same f t i e = let a = ==_self t in let b = ==_self i in rw (a, b) refl

pub put_pte-table :
    (f : ℕ → ℕ → Pte) (t i : ℕ) (e : Pte) (n j : ℕ) → ¬ (n ≡ t) → put_pte f t i e n j ≡ f n j
unfolding put_pte
put_pte-table f t i e n j h = let a : (n == t) ≡ false = ground arith in rw a refl

pub put_pte-index :
    (f : ℕ → ℕ → Pte) (t i : ℕ) (e : Pte) (n j : ℕ) → ¬ (j ≡ i) → put_pte f t i e n j ≡ f n j
unfolding put_pte
put_pte-index f t i e n j h =
    let a : (j == i) ≡ false = ground arith in
    elim (Bool-cases (n == t)) [ inl q ↦ rw (q, a) refl | inr q ↦ rw q refl ]

pub clear_pages-kept {ℓ} :
    {A : Type ℓ} (z : A) (f : ℕ → ℕ → A) (n cnt m i : ℕ)
    → (m < n) ⊎ (n + cnt ≤ m)
    → clear_pages z f n cnt m i ≡ f m i
unfolding clear_pages
clear_pages-kept z f n cnt m i h =
    let a : (leb n m && ltb m (n + cnt)) ≡ false = ground arith in rw a refl

pub clear_pages-new {ℓ} :
    {A : Type ℓ} (z : A) (f : ℕ → ℕ → A) (n cnt m i : ℕ)
    → n ≤ m
    → m < n + cnt
    → clear_pages z f n cnt m i ≡ z
unfolding clear_pages
clear_pages-new z f n cnt m i h k =
    let a : (leb n m && ltb m (n + cnt)) ≡ true = ground arith in rw a refl

module _ (src : PageSource) (laws : PageLaws src) (top : ℕ) where
  -- The entries on the way to a page, and their tables.
  abbrev pub entry2 : Mem src → Pte
  entry2 s = s.tables s.root top

  abbrev pub mid : Mem src → ℕ
  mid s = (entry2 s).ppn

  abbrev pub entry1 : Mem src → ℕ → Pte
  entry1 s j = s.tables (mid s) j

  abbrev pub low : Mem src → ℕ → ℕ
  low s j = (entry1 s j).ppn

  -- The tables are pages that are not free, and no page is a table twice.
  pub record IsTree (s : Mem src) : Type 0 where
    pub pool : laws.IsValid s.pool
    pub root_used : ¬ laws.IsFree s.pool s.root
    pub mid_used : (entry2 s).flags.v ≡ true → ¬ laws.IsFree s.pool (mid s)
    pub mid_root : (entry2 s).flags.v ≡ true → ¬ (mid s ≡ s.root)
    pub low_used :
        (j : ℕ)
        → (entry2 s).flags.v ≡ true
        → (entry1 s j).flags.v ≡ true
        → ¬ laws.IsFree s.pool (low s j)
    pub low_root :
        (j : ℕ) → (entry2 s).flags.v ≡ true → (entry1 s j).flags.v ≡ true → ¬ (low s j ≡ s.root)
    pub low_mid :
        (j : ℕ) → (entry2 s).flags.v ≡ true → (entry1 s j).flags.v ≡ true → ¬ (low s j ≡ mid s)
    pub low_apart :
        (j k : ℕ)
        → (entry2 s).flags.v ≡ true
        → (entry1 s j).flags.v ≡ true
        → (entry1 s k).flags.v ≡ true
        → low s j ≡ low s k
        → j ≡ k

  -- The entry of a page by its indices, which is not valid where a table is missing.
  abbrev pub seen : Mem src → ℕ → ℕ → Pte
  seen s j i =
      if (entry2 s).flags.v
      then (if (entry1 s j).flags.v then s.tables (low s j) i else null_pte)
      else null_pte

  -- What an operation leaves: a tree in which every entry is as before.
  pub record Keeps (s s' : Mem src) : Type 0 where
    pub tree : IsTree s'
    pub same : (j i : ℕ) → seen s' j i ≡ seen s j i

  pub seen-no_mid : (s : Mem src) (j i : ℕ) → (entry2 s).flags.v ≡ false → seen s j i ≡ null_pte
  seen-no_mid s j i h = rw h refl

  pub seen-no_low : (s : Mem src) (j i : ℕ) → (entry1 s j).flags.v ≡ false → seen s j i ≡ null_pte
  seen-no_low s j i h = elim (Bool-cases (entry2 s).flags.v) [
    | inl e ↦ rw (e, h) refl
    | inr e ↦ rw e refl
  ]

  pub seen-found :
      (s : Mem src) (j i : ℕ)
      → (entry2 s).flags.v ≡ true
      → (entry1 s j).flags.v ≡ true
      → seen s j i ≡ s.tables (low s j) i
  seen-found s j i h k = rw (h, k) refl

  -- A change that leaves the entries of the upper tables, and frees none of the pages.
  pub IsTree-frame :
      (s s' : Mem src)
      → s'.root ≡ s.root
      → laws.IsValid s'.pool
      → ((n : ℕ) → laws.IsFree s'.pool n → laws.IsFree s.pool n)
      → entry2 s' ≡ entry2 s
      → ((entry2 s).flags.v ≡ true → (k : ℕ) → entry1 s' k ≡ entry1 s k)
      → IsTree s
      → IsTree s'
  IsTree-frame s s' r pv others e2 e1 v =
      let back2 : (entry2 s').flags.v ≡ true → (entry2 s).flags.v ≡ true =
        λ h. ap (λ (x : Pte). x.flags.v) (sym e2) ∙ h in
      let back1 : (k : ℕ)
          → (entry2 s).flags.v ≡ true
          → (entry1 s' k).flags.v ≡ true
          → (entry1 s k).flags.v ≡ true =
        λ k h x. ap (λ (y : Pte). y.flags.v) (sym (e1 h k)) ∙ x in
      let mid_eq : mid s' ≡ mid s = ap (λ (x : Pte). x.ppn) e2 in
      let low_eq : (k : ℕ) → (entry2 s).flags.v ≡ true → low s' k ≡ low s k =
        λ k h. ap (λ (x : Pte). x.ppn) (e1 h k) in
      record {
        pool = pv;
        root_used = λ f. v.root_used (others s.root (subst (laws.IsFree s'.pool) r f));
        mid_used =
            λ h f. v.mid_used (back2 h) (others (mid s) (subst (laws.IsFree s'.pool) mid_eq f));
        mid_root = λ h e. v.mid_root (back2 h) (sym mid_eq ∙ e ∙ r);
        low_used = λ j h x f.
            v.low_used j (back2 h) (back1 j (back2 h) x)
              (others (low s j) (subst (laws.IsFree s'.pool) (low_eq j (back2 h)) f));
        low_root = λ j h x e.
            v.low_root j (back2 h) (back1 j (back2 h) x) (sym (low_eq j (back2 h)) ∙ e ∙ r);
        low_mid = λ j h x e.
            v.low_mid j (back2 h) (back1 j (back2 h) x) (sym (low_eq j (back2 h)) ∙ e ∙ mid_eq);
        low_apart = λ j k h x y e.
            v.low_apart j k (back2 h) (back1 j (back2 h) x) (back1 k (back2 h) y)
              (sym (low_eq j (back2 h)) ∙ e ∙ low_eq k (back2 h));
      }

  -- A write to a table of the lowest level leaves the upper ones.
  pub write_leaf-upper :
      (s : Mem src) (j i : ℕ) (e : Pte)
      → IsTree s
      → (entry2 s).flags.v ≡ true
      → (entry1 s j).flags.v ≡ true
      → let s' = write_pte src s (low s j) i e in
        (entry2 s' ≡ entry2 s) × ((k : ℕ) → entry1 s' k ≡ entry1 s k)
  write_leaf-upper s j i e v h x =
      let s' = write_pte src s (low s j) i e in
      let e2 : entry2 s' ≡ entry2 s =
        put_pte-table s.tables (low s j) i e s.root top (λ q. v.low_root j h x (sym q)) in
      (
        e2,
        λ k.
            ap (λ (y : Pte). s'.tables y.ppn k) e2
            ∙ put_pte-table s.tables (low s j) i e (mid s) k (λ q. v.low_mid j h x (sym q)),
      )

  -- A leaf entry written.
  pub write_leaf-IsTree :
      (s : Mem src) (j i : ℕ) (e : Pte)
      → IsTree s
      → (entry2 s).flags.v ≡ true
      → (entry1 s j).flags.v ≡ true
      → let s' = write_pte src s (low s j) i e in
        IsTree s' × ((k m : ℕ) → seen s' k m ≡ (if (k == j) && (m == i) then e else seen s k m))
  write_leaf-IsTree s j i e v h x =
      let s' = write_pte src s (low s j) i e in
      let (e2, e1) = write_leaf-upper s j i e v h x in
      let split : (k m : ℕ) → seen s' k m ≡ (if (k == j) && (m == i) then e else seen s k m) =
        λ k m. elim (Bool-cases (entry1 s k).flags.v) [
          | inr n ↦
              let ne : (k == j) ≡ false = elim (Bool-cases (k == j)) [
                | inr q ↦ q
                | inl q ↦
                    let same : (entry1 s j).flags.v ≡ false =
                      ap (λ (t : ℕ). (entry1 s t).flags.v) (sym (==→eq k j q)) ∙ n in
                    cc
              ] in
              rw ne (
                seen-no_low s' k m (ap (λ (y : Pte). y.flags.v) (e1 k) ∙ n)
                ∙ sym (seen-no_low s k m n))
          | inl n ↦
              let new : seen s' k m ≡ put_pte s.tables (low s j) i e (low s k) m =
                seen-found s' k m (ap (λ (y : Pte). y.flags.v) e2 ∙ h)
                  (ap (λ (y : Pte). y.flags.v) (e1 k) ∙ n)
                ∙ ap (λ (y : Pte). s'.tables y.ppn m) (e1 k) in
              let old : seen s k m ≡ s.tables (low s k) m = seen-found s k m h n in
              elim (Bool-cases (k == j)) [
                | inr q ↦
                    let ne : ¬ (k ≡ j) = ==→ne k j q in
                    rw q (
                      new
                      ∙ put_pte-table s.tables (low s j) i e (low s k) m
                          (λ p. ne (v.low_apart k j h n x p))
                      ∙ sym old)
                | inl q ↦
                    let kj : low s k ≡ low s j = ap (low s) (==→eq k j q) in
                    let new' : seen s' k m ≡ put_pte s.tables (low s j) i e (low s j) m =
                      new ∙ ap (λ (t : ℕ). put_pte s.tables (low s j) i e t m) kj in
                    elim (Bool-cases (m == i)) [
                      | inl p ↦
                          rw (q, p)
                            (new'
                              ∙ ap (put_pte s.tables (low s j) i e (low s j)) (==→eq m i p)
                              ∙ put_pte-same s.tables (low s j) i e)
                      | inr p ↦
                          let ne : ¬ (m ≡ i) = ==→ne m i p in
                          rw (q, p)
                            (new'
                              ∙ put_pte-index s.tables (low s j) i e (low s j) m ne
                              ∙ ap (λ (t : ℕ). s.tables t m) (sym kj)
                              ∙ sym old)
                    ]
              ]
        ] in
      (IsTree-frame s s' refl v.pool (λ n f. f) e2 (λ q k. e1 k) v, split)
