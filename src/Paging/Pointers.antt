-- ===== src/Paging/Pointers.antt =====
-- validate_vptr of sys/memory.c.
use model_lib.Base.{
  ℕ, zero, suc, ◌+◌, ◌*◌, ◌/◌, ◌%◌, ◌^◌, ◌≤◌, ◌<◌, ◌≡◌, refl, sym, ap, ◌∙◌, subst, inl, inr, Bool,
  true, false, ◌&&◌, none, some, arith, ltb, leb, ◌==◌, Bool-cases, Option-cases,
}
use model_lib.Paging.{
  Flags, Pte, leaf_pte, superset, implies, vpn0, vpn1, vpn2, umem_start_vma, umem_end_vma, u64_mod,
  PageSource, Mem, free_phys_page, get_leaf, walk,
}
use model_lib.Paging.Ranges.{
  page_count, wellformed, each_page, map_range, unmap_one, unmap_and_free_range,
}
use model_lib.Paging.Check.{valid, allows, byte_allowed, check_bytes, validate_vptr}
use model_lib.Paging.Tree.{
  PageLaws, entry2, entry1, low, IsTree, seen-found, seen-no_mid, seen-no_low, write_leaf-upper,
  put_pte-same,
}
use model_lib.Paging.Walk.{Leaf, get_leaf-Leaf}
use model_lib.Paging.Mapped.{user_top, view, mapped, map_range-ChangedRange}
use mathlib.Core.Option.{some_inj}

module _ (src : PageSource) where
  check_bytes-all :
      (s : Mem src) (want : Flags) (vma left : ℕ)
      → ((k : ℕ) → k < left → byte_allowed src s want (vma + k) ≡ true)
      → check_bytes src s want vma left ≡ valid
  unfolding check_bytes
  check_bytes-all s want vma zero h = refl
  check_bytes-all s want vma (suc left) h =
      let z : vma + 0 ≡ vma = omega arith in
      let e : byte_allowed src s want vma ≡ true =
        ap (byte_allowed src s want) (sym z) ∙ h 0 (omega arith) in
      rw e (
        check_bytes-all s want (vma + 1) left (λ k lt.
          let y : vma + 1 + k ≡ vma + suc k = omega arith in
          ap (byte_allowed src s want) y ∙ h (suc k) (omega arith)))

  -- In the user range, only the bytes matter.
  validate_vptr-user :
      (s : Mem src) (vp len : ℕ) (want : Flags)
      → umem_start_vma ≤ vp
      → vp + len ≤ umem_end_vma
      → validate_vptr src s vp len want ≡ check_bytes src s want vp len
  unfolding validate_vptr wellformed
  validate_vptr-user s vp len want lo hi =
      let a : (vp == 0) ≡ false = ground arith in
      let b : (vp / 2 ^ 38 == 0) ≡ true = ground arith in
      let c : ltb ((vp + len) % u64_mod) vp ≡ false = ground arith in rw (a, b, c) refl

  module _ (laws : PageLaws src) where
    walk-view :
        (s : Mem src) (a : ℕ)
        → umem_start_vma ≤ a
        → a < umem_end_vma
        → (view src laws s (a / 4096)).flags.v ≡ true
        → walk src s a ≡ some (view src laws s (a / 4096))
    unfolding walk
    walk-view s a lo hi h =
        let top : vpn2 a ≡ user_top = omega arith in
        let j = vpn1 a in
        let i = vpn0 a in
        rw top (elim (Bool-cases (entry2 src laws user_top s).flags.v) [
          | inr q ↦
              let z : false ≡ true =
                ap (λ (y : Pte). y.flags.v) (sym (seen-no_mid src laws user_top s j i q)) ∙ h in
              ground arith
          | inl q ↦ elim (Bool-cases (entry1 src laws user_top s j).flags.v) [
            | inr x ↦
                let z : false ≡ true =
                  ap (λ (y : Pte). y.flags.v) (sym (seen-no_low src laws user_top s j i x)) ∙ h in
                ground arith
            | inl x ↦ rw (q, x) refl
          ]
        ])

    -- What validate_vptr finds behind map_range: any part of the range is valid for any flags that it was
    -- mapped with, and for A, D and V.
    pub validate_vptr-map_range :
        (s s' : Mem src) (vma size pp : ℕ) (flags : Flags) (vp len : ℕ) (want : Flags)
        → IsTree src laws user_top s
        → umem_start_vma ≤ vma
        → vma + page_count size * 4096 ≤ umem_end_vma
        → map_range src s vma size pp flags ≡ some s'
        → vma / 4096 * 4096 ≤ vp
        → vp + len ≤ (vma / 4096 + page_count size) * 4096
        → superset (record flags { v = true; a = true; d = true }) want ≡ true
        → validate_vptr src s' vp len want ≡ valid
    unfolding leaf_pte byte_allowed
    validate_vptr-map_range s s' vma size pp flags vp len want v lo hi e from to allowed =
        let r = map_range-ChangedRange src laws s s' vma size pp flags v lo hi e in
        validate_vptr-user s' vp len want (omega arith) (omega arith)
        ∙ check_bytes-all s' want vp len (λ k lt.
          let n = (vp + k) / 4096 in
          let inside : (leb (vma / 4096) n && ltb n (vma / 4096 + page_count size)) ≡ true =
            ground arith in
          let entry : view src laws s' n ≡ mapped src laws vma pp flags n =
            r.pages n (omega arith) (omega arith) ∙ rw inside refl in
          ap (allows want)
            (walk-view s' (vp + k) (omega arith) (omega arith) (ap (λ (y : Pte). y.flags.v) entry))
          ∙ ap (λ (y : Pte). superset y.flags want) entry
          ∙ allowed)

    and_weaken :
        (b x rest : Bool)
        → b ≡ false
        → (implies b x && rest) ≡ true
        → (implies b false && rest) ≡ true
    and_weaken true x rest n h = ground arith
    and_weaken false x rest n h = h

    superset-no_v :
        (f want : Flags)
        → want.v ≡ false
        → superset f want ≡ true
        → superset (record f { v = false }) want ≡ true
    unfolding superset
    superset-no_v f want n h = and_weaken want.v f.v _ n h

    walk-found :
        (s : Mem src) (a j i : ℕ)
        → vpn2 a ≡ user_top
        → vpn1 a ≡ j
        → vpn0 a ≡ i
        → (entry2 src laws user_top s).flags.v ≡ true
        → (entry1 src laws user_top s j).flags.v ≡ true
        → walk src s a ≡ some (s.tables (low src laws user_top s j) i)
    unfolding walk
    walk-found s a j i x y z h k = rw (x, y, z, h, k) refl

    cleared : Pte → Pte
    cleared e = record e { flags = record e.flags { v = false } }

    unmap_one-allowed :
        (s s2 : Mem src) (vma a t i : ℕ) (want : Flags)
        → Leaf src laws user_top s vma t i s2
        → a / 4096 ≡ vma / 4096
        → umem_start_vma ≤ vma
        → vma < umem_end_vma
        → want.v ≡ false
        → superset (view src laws s (vma / 4096)).flags want ≡ true
        → byte_allowed src (unmap_one src 0 s2 t i) want a ≡ true
    unfolding byte_allowed unmap_one free_phys_page cleared
    unmap_one-allowed s s2 vma a t i want f p lo hi no_v allowed =
        let j = vpn1 vma in
        let k = vpn0 vma in
        let l = low src laws user_top s2 j in
        let e = cleared (s2.tables l k) in
        let s3 = unmap_one src 0 s2 l k in
        let valid_pte : Pte → Bool = λ (y : Pte). y.flags.v in
        let (e2, e1) = write_leaf-upper src laws user_top s2 j k e f.keeps.tree f.there2 f.there1 in
        let found : walk src s3 a ≡ some (s3.tables (low src laws user_top s3 j) k) =
          walk-found s3 a j k (omega arith) (omega arith) (omega arith) (ap valid_pte e2 ∙ f.there2)
            (ap valid_pte (e1 j) ∙ f.there1) in
        let entry : s3.tables (low src laws user_top s3 j) k ≡ e =
          ap (λ (y : Pte). s3.tables y.ppn k) (e1 j) ∙ put_pte-same s2.tables l k e in
        let old : s2.tables l k ≡ view src laws s (vma / 4096) =
          sym (seen-found src laws user_top s2 j k f.there2 f.there1) ∙ f.keeps.same j k in
        let main : byte_allowed src s3 want a ≡ true =
          ap (allows want) found
          ∙ ap (λ (y : Pte). superset y.flags want) entry
          ∙ superset-no_v (s2.tables l k).flags want no_v
              (ap (λ (y : Pte). superset y.flags want) old ∙ allowed) in
        subst (λ (x : ℕ). byte_allowed src (unmap_one src 0 s2 x i) want a ≡ true) (sym f.table)
          (subst (λ (x : ℕ). byte_allowed src (unmap_one src 0 s2 l x) want a ≡ true) (sym f.index)
            main)

    one_page :
        (g : Bool) (f : ℕ → Mem src → ℕ → ℕ → Mem src) (vma i t j : ℕ) (s s2 : Mem src)
        → get_leaf src s ((vma + i * 4096) % u64_mod) g ≡ some ((t, j), s2)
        → each_page src g f vma 1 i s ≡ some (f i s2 t j)
    unfolding each_page
    one_page g f vma i t j s s2 x = rw (each_page, x) refl

    no_page :
        (g : Bool) (f : ℕ → Mem src → ℕ → ℕ → Mem src) (vma i : ℕ) (s : Mem src)
        → get_leaf src s ((vma + i * 4096) % u64_mod) g ≡ none
        → each_page src g f vma 1 i s ≡ none
    unfolding each_page
    no_page g f vma i s x = rw (each_page, x) refl

    -- unmap_and_free_range of one user page clears V in its entry only, and validate_vptr does not look at V
    -- there unless it is asked to: a pointer into the page that was valid before is still valid.
    pub validate_vptr-unmap_and_free_range :
        (s s' : Mem src) (vma vp len : ℕ) (want : Flags)
        → IsTree src laws user_top s
        → umem_start_vma ≤ vma
        → vma < umem_end_vma
        → vma / 4096 * 4096 ≤ vp
        → vp + len ≤ (vma / 4096 + 1) * 4096
        → want.v ≡ false
        → superset (view src laws s (vma / 4096)).flags want ≡ true
        → unmap_and_free_range src s vma 4096 ≡ some s'
        → validate_vptr src s' vp len want ≡ valid
    unfolding unmap_and_free_range
    validate_vptr-unmap_and_free_range s s' vma vp len want v lo hi from to no_v allowed e =
        let w : (vma + 0 * 4096) % u64_mod ≡ vma = omega arith in
        elim (Option-cases (get_leaf src s ((vma + 0 * 4096) % u64_mod) false)) [
          | inl x ↦ let z = sym e ∙ no_page false (unmap_one src) vma 0 s x in ground arith
          | inr (((t, i), s2), x) ↦
              let f =
                get_leaf-Leaf src laws user_top s vma false ((t, i), s2) v (omega arith)
                  (ap (λ (y : ℕ). get_leaf src s y false) (sym w) ∙ x) in
              subst (λ (u : Mem src). validate_vptr src u vp len want ≡ valid)
                (some_inj.0 (sym (one_page false (unmap_one src) vma 0 t i s s2 x) ∙ e))
                (validate_vptr-user (unmap_one src 0 s2 t i) vp len want (omega arith) (omega arith)
                  ∙ check_bytes-all (unmap_one src 0 s2 t i) want vp len (λ k lt.
                    unmap_one-allowed s s2 vma (vp + k) t i want f (omega arith) lo hi no_v
                      allowed))
        ]
