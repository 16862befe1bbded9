-- ===== src/Paging/Enter.antt =====
-- Pages that come from the allocator, and the entry of a new table in the table above it.
use model_lib.Base.{
  ℕ, ◌+◌, ◌*◌, ◌/◌, ◌%◌, ◌^◌, ◌≤◌, ◌<◌, ◌≡◌, refl, sym, ap, ◌∙◌, subst, ◌⊎◌, inl, inr, Bool, true,
  false, some, arith, ltb, ◌==◌, Bool-cases, ltb→lt, ltb→ge, ==→eq, ==→ne,
}
use model_lib.Paging.{Pte, null_pte, ptab_pte, PageSource, Mem, write_pte, zero_pages}
use model_lib.Paging.Tree.{
  PageLaws, entry2, mid, entry1, low, IsTree, seen, Keeps, put_pte-same, put_pte-table,
  put_pte-index, clear_pages-kept, clear_pages-new, seen-no_mid, seen-no_low, seen-found,
  IsTree-frame,
}

module _ (src : PageSource) (laws : PageLaws src) (top : ℕ) where
  -- A page that is in use, but not as a table, with no valid entry.
  pub record Spare (s : Mem src) (n : ℕ) : Type 0 where
    pub used : ¬ laws.IsFree s.pool n
    pub not_root : ¬ (n ≡ s.root)
    pub not_mid : (entry2 src laws top s).flags.v ≡ true → ¬ (n ≡ mid src laws top s)
    pub not_low :
        (k : ℕ)
        → (entry2 src laws top s).flags.v ≡ true
        → (entry1 src laws top s k).flags.v ≡ true
        → ¬ (n ≡ low src laws top s k)
    pub zero : (i : ℕ) → s.tables n i ≡ null_pte

  -- The state behind an allocation.
  abbrev pub given : Mem src → ℕ → ℕ → src.Pool → Mem src
  given s n cnt pool = record (zero_pages src s n cnt) { pool = pool }

  pub outside : (n cnt m : ℕ) → ¬ ((n ≤ m) × (m < n + cnt)) → (m < n) ⊎ (n + cnt ≤ m)
  outside n cnt m h = elim (Bool-cases (ltb m n)) [
    | inl e ↦ inl (ltb→lt m n e)
    | inr e ↦
        (let k = ltb→ge m n e in
          elim (Bool-cases (ltb m (n + cnt))) [
            | inl f ↦ absurd (h (k, ltb→lt m (n + cnt) f))
            | inr f ↦ inr (ltb→ge m (n + cnt) f)
          ])
  ]

  pub record Given (s : Mem src) (cnt p : ℕ) (s' : Mem src) : Type 0 where
    pub keeps : Keeps src laws top s s'
    pub same2 : entry2 src laws top s' ≡ entry2 src laws top s
    pub same1 :
        (entry2 src laws top s).flags.v ≡ true
        → (k : ℕ) → entry1 src laws top s' k ≡ entry1 src laws top s k
    pub spare : (m : ℕ) → p / 4096 ≤ m → m < p / 4096 + cnt → Spare s' m
    pub aligned : p % 4096 ≡ 0
    pub bound : p + cnt * 4096 < 2 ^ 64

  pub alloc-Given :
      (s : Mem src) (cnt p : ℕ) (pool : src.Pool)
      → IsTree src laws top s
      → 0 < cnt
      → cnt < 2 ^ 32
      → src.alloc_pages cnt s.pool ≡ some (p, pool)
      → Given s cnt p (given s (p / 4096) cnt pool)
  alloc-Given s cnt p pool v pos small e =
      let n = p / 4096 in
      let s' = given s n cnt pool in
      let v2 = (entry2 src laws top s).flags.v in
      let fresh = laws.fresh cnt p s.pool pool v.pool pos small e in
      let kept : (m i : ℕ) → ¬ laws.IsFree s.pool m → s'.tables m i ≡ s.tables m i = λ m i h.
        clear_pages-kept null_pte s.tables n cnt m i
          (outside n cnt m (λ b. h (fresh m b.0 b.1).0)) in
      let e2 : entry2 src laws top s' ≡ entry2 src laws top s = kept s.root top v.root_used in
      let e1 : v2 ≡ true → (k : ℕ) → entry1 src laws top s' k ≡ entry1 src laws top s k = λ h k.
        ap (λ (y : Pte). s'.tables y.ppn k) e2 ∙ kept (mid src laws top s) k (v.mid_used h) in
      let tree =
        IsTree-frame src laws top s s' refl (laws.valid cnt p s.pool pool v.pool pos small e)
          (laws.others cnt p s.pool pool v.pool pos small e) e2 e1 v in
      record {
        keeps = record {
          tree = tree;
          same = λ j i. elim (Bool-cases v2) [
            | inr q ↦
                seen-no_mid src laws top s' j i (ap (λ (y : Pte). y.flags.v) e2 ∙ q)
                ∙ sym (seen-no_mid src laws top s j i q)
            | inl h ↦ elim (Bool-cases (entry1 src laws top s j).flags.v) [
              | inr q ↦
                  seen-no_low src laws top s' j i (ap (λ (y : Pte). y.flags.v) (e1 h j) ∙ q)
                  ∙ sym (seen-no_low src laws top s j i q)
              | inl x ↦
                  seen-found src laws top s' j i (ap (λ (y : Pte). y.flags.v) e2 ∙ h)
                    (ap (λ (y : Pte). y.flags.v) (e1 h j) ∙ x)
                  ∙ ap (λ (y : Pte). s'.tables y.ppn i) (e1 h j)
                  ∙ kept (low src laws top s j) i (v.low_used j h x)
                  ∙ sym (seen-found src laws top s j i h x)
            ]
          ];
        };
        same2 = e2;
        same1 = e1;
        spare = λ m lo hi. record {
          used = (fresh m lo hi).1;
          not_root = λ q. v.root_used (subst (laws.IsFree s.pool) q (fresh m lo hi).0);
          not_mid = λ h q.
              v.mid_used (ap (λ (y : Pte). y.flags.v) (sym e2) ∙ h)
                (subst (laws.IsFree s.pool) (q ∙ ap (λ (y : Pte). y.ppn) e2) (fresh m lo hi).0);
          not_low = λ k h x q.
              let h' = ap (λ (y : Pte). y.flags.v) (sym e2) ∙ h in
              v.low_used k h' (ap (λ (y : Pte). y.flags.v) (sym (e1 h' k)) ∙ x) (
                subst (laws.IsFree s.pool) (q ∙ ap (λ (y : Pte). y.ppn) (e1 h' k))
                  (fresh m lo hi).0);
          zero = λ i. clear_pages-new null_pte s.tables n cnt m i lo hi;
        };
        aligned = (laws.aligned cnt p s.pool pool v.pool pos small e).0;
        bound = (laws.aligned cnt p s.pool pool v.pool pos small e).1;
      }

  -- A table entered in the root.
  pub record Entered (s : Mem src) (s' : Mem src) : Type 0 where
    pub keeps : Keeps src laws top s s'
    pub there : (entry2 src laws top s').flags.v ≡ true

  pub enter_root-Entered :
      (s : Mem src) (n : ℕ) (g : Bool)
      → IsTree src laws top s
      → (entry2 src laws top s).flags.v ≡ false
      → Spare s n
      → let s' = write_pte src s s.root top (ptab_pte n g) in
        Entered s s' × (mid src laws top s' ≡ n)
  unfolding ptab_pte
  enter_root-Entered s n g v h f =
      let s' = write_pte src s s.root top (ptab_pte n g) in
      let e2 : entry2 src laws top s' ≡ ptab_pte n g =
        put_pte-same s.tables s.root top (ptab_pte n g) in
      let m : mid src laws top s' ≡ n = ap (λ (y : Pte). y.ppn) e2 in
      let e1 : (k : ℕ) → entry1 src laws top s' k ≡ null_pte = λ k.
        ap (λ (y : ℕ). s'.tables y k) m
        ∙ put_pte-table s.tables s.root top (ptab_pte n g) n k f.not_root
        ∙ f.zero k in
      let none1 : (k : ℕ) → (entry1 src laws top s' k).flags.v ≡ false =
        λ k. ap (λ (y : Pte). y.flags.v) (e1 k) in
      let clash : (k : ℕ) → ¬ ((entry1 src laws top s' k).flags.v ≡ true) =
        λ k x. (let z = sym x ∙ none1 k in ground arith) in
      (
        record {
          keeps = record {
            tree = record {
              pool = v.pool;
              root_used = v.root_used;
              mid_used = λ x y. f.used (subst (laws.IsFree s.pool) m y);
              mid_root = λ x y. f.not_root (sym m ∙ y);
              low_used = λ j x y. absurd (clash j y);
              low_root = λ j x y. absurd (clash j y);
              low_mid = λ j x y. absurd (clash j y);
              low_apart = λ j k x y z. absurd (clash j y);
            };
            same = λ j i.
                seen-no_low src laws top s' j i (none1 j) ∙ sym (seen-no_mid src laws top s j i h);
          };
          there = ap (λ (y : Pte). y.flags.v) e2;
        },
        m,
      )

  pub record EnteredMid (j : ℕ) (s : Mem src) (s' : Mem src) : Type 0 where
    pub keeps : Keeps src laws top s s'
    pub there2 : (entry2 src laws top s').flags.v ≡ true
    pub there1 : (entry1 src laws top s' j).flags.v ≡ true

  pub enter_mid-EnteredMid :
      (s : Mem src) (j n : ℕ) (g : Bool)
      → IsTree src laws top s
      → (entry2 src laws top s).flags.v ≡ true
      → (entry1 src laws top s j).flags.v ≡ false
      → Spare s n
      → let s' = write_pte src s (mid src laws top s) j (ptab_pte n g) in
        EnteredMid j s s' × (low src laws top s' j ≡ n)
  unfolding ptab_pte
  enter_mid-EnteredMid s j n g v h x f =
      let t = mid src laws top s in
      let s' = write_pte src s t j (ptab_pte n g) in
      let valid : Pte → Bool = λ (y : Pte). y.flags.v in
      let to : Pte → ℕ = λ (y : Pte). y.ppn in
      let e2 : entry2 src laws top s' ≡ entry2 src laws top s =
        put_pte-table s.tables t j (ptab_pte n g) s.root top (λ q. v.mid_root h (sym q)) in
      let here : entry1 src laws top s' j ≡ ptab_pte n g =
        ap (λ (y : Pte). s'.tables y.ppn j) e2 ∙ put_pte-same s.tables t j (ptab_pte n g) in
      let other : (k : ℕ) → ¬ (k ≡ j) → entry1 src laws top s' k ≡ entry1 src laws top s k = λ k ne.
        ap (λ (y : Pte). s'.tables y.ppn k) e2 ∙ put_pte-index s.tables t j (ptab_pte n g) t k ne in
      let below_j : low src laws top s' j ≡ n = ap to here in
      let there1 : valid (entry1 src laws top s' j) ≡ true = ap valid here in
      let there2 : valid (entry2 src laws top s') ≡ true = ap valid e2 ∙ h in
      let was : (k : ℕ)
          → ¬ (k ≡ j)
          → valid (entry1 src laws top s' k) ≡ true
          → valid (entry1 src laws top s k) ≡ true =
        λ k ne y. ap valid (sym (other k ne)) ∙ y in
      let split : (P : ℕ → Type 0) → P j → ((k : ℕ) → ¬ (k ≡ j) → P k) → (k : ℕ) → P k = λ P a b k.
        elim (Bool-cases (k == j)) [
          | inl e ↦ subst P (sym (==→eq k j e)) a
          | inr e ↦ b k (==→ne k j e)
        ] in
      (
        record {
          keeps = record {
            tree = record {
              pool = v.pool;
              root_used = v.root_used;
              mid_used = λ y z. v.mid_used h (subst (laws.IsFree s.pool) (ap to e2) z);
              mid_root = λ y z. v.mid_root h (sym (ap to e2) ∙ z);
              low_used = λ k y.
                  split
                    (λ (k : ℕ).
                      valid (entry1 src laws top s' k) ≡ true
                      → ¬ laws.IsFree s.pool (low src laws top s' k))
                    (λ z w. f.used (subst (laws.IsFree s.pool) below_j w))
                    (λ k ne z w.
                      v.low_used k h (was k ne z)
                        (subst (laws.IsFree s.pool) (ap to (other k ne)) w))
                    k;
              low_root = λ k y.
                  split
                    (λ (k : ℕ).
                      valid (entry1 src laws top s' k) ≡ true → ¬ (low src laws top s' k ≡ s.root))
                    (λ z w. f.not_root (sym below_j ∙ w))
                    (λ k ne z w. v.low_root k h (was k ne z) (sym (ap to (other k ne)) ∙ w)) k;
              low_mid = λ k y.
                  split
                    (λ (k : ℕ).
                      valid (entry1 src laws top s' k) ≡ true
                      → ¬ (low src laws top s' k ≡ mid src laws top s'))
                    (λ z w. f.not_mid h (sym below_j ∙ w ∙ ap to e2))
                    (λ k ne z w.
                      v.low_mid k h (was k ne z) (sym (ap to (other k ne)) ∙ w ∙ ap to e2))
                    k;
              low_apart = λ k m y z w e. elim (Bool-cases (k == j)) [
                | inl a ↦
                    let kj = ==→eq k j a in
                    elim (Bool-cases (m == j)) [
                      | inl b ↦ kj ∙ sym (==→eq m j b)
                      | inr b ↦
                          let ne = ==→ne m j b in
                          absurd (
                            f.not_low m h (was m ne w) (
                              sym below_j
                              ∙ ap (low src laws top s') (sym kj)
                              ∙ e
                              ∙ ap to (other m ne)))
                    ]
                | inr a ↦
                    let ne = ==→ne k j a in
                    elim (Bool-cases (m == j)) [
                      | inl b ↦ absurd (
                          f.not_low k h (was k ne z) (
                            sym below_j
                            ∙ ap (low src laws top s') (sym (==→eq m j b))
                            ∙ sym e
                            ∙ ap to (other k ne)))
                      | inr b ↦
                          let ne' = ==→ne m j b in
                          v.low_apart k m h (was k ne z) (was m ne' w)
                            (sym (ap to (other k ne)) ∙ e ∙ ap to (other m ne'))
                    ]
              ];
            };
            same = λ k i.
                split (λ (k : ℕ). seen src laws top s' k i ≡ seen src laws top s k i)
                  (seen-found src laws top s' j i there2 there1
                    ∙ ap (λ (y : ℕ). s'.tables y i) below_j
                    ∙ put_pte-table s.tables t j (ptab_pte n g) n i (f.not_mid h)
                    ∙ f.zero i
                    ∙ sym (seen-no_low src laws top s j i x))
                  (λ k ne. elim (Bool-cases (valid (entry1 src laws top s k))) [
                    | inr q ↦
                        seen-no_low src laws top s' k i (ap valid (other k ne) ∙ q)
                        ∙ sym (seen-no_low src laws top s k i q)
                    | inl q ↦
                        seen-found src laws top s' k i there2 (ap valid (other k ne) ∙ q)
                        ∙ ap (λ (y : Pte). s'.tables y.ppn i) (other k ne)
                        ∙ put_pte-table s.tables t j (ptab_pte n g) (low src laws top s k) i
                            (v.low_mid k h q)
                        ∙ sym (seen-found src laws top s k i h q)
                  ])
                  k;
          };
          there2 = there2;
          there1 = there1;
        },
        below_j,
      )
