-- ===== src/Mounts/Paths.antt =====
-- The parts of a path, as parse_path of sys/filesys.c takes them.
use model_lib.Base.{
  ℕ, zero, suc, ◌+◌, ◌≤◌, ◌<◌, ◌≡◌, refl, sym, ap, ap₂, ◌∙◌, subst, ◌↔◌, inl, inr, false, none,
  some, List, [], ◌∷◌, ◌++◌, arith, ◌==◌, Bool-cases, Option-cases, ==→eq, ==_self, length, take,
  drop, length-append,
}
use mathlib.Core.Option.{some_inj}
use model_lib.Text.{strchr, strncpy}
use model_lib.Mounts.{skip_slash, parse_path, parts_from}

strncpy-take : (s : List ℕ) (n : ℕ) → n ≤ length s → strncpy s n ≡ take n s
unfolding strncpy
strncpy-take s zero h = refl
strncpy-take [] (suc n) h = ground arith
strncpy-take (c ∷ s) (suc n) h = ap (λ (l : List ℕ). c ∷ l) (strncpy-take s n (omega arith))

take_all : (s : List ℕ) → take (length s) s ≡ s
take_all [] = refl
take_all (c ∷ s) = ap (λ (l : List ℕ). c ∷ l) (take_all s)

-- Where strchr finds a char: it splits the string there, and does not stand before.
record Split (s : List ℕ) (c i : ℕ) : Type 0 where
  pub parts : s ≡ take i s ++ (c ∷ drop (i + 1) s)
  pub before : strchr (take i s) c ≡ none
  pub inside : i < length s

Split-here : (a c : ℕ) (s : List ℕ) → a ≡ c → Split (a ∷ s) c 0
unfolding strchr
Split-here a c s e = record { parts = ap (λ (x : ℕ). x ∷ s) e; before = refl; inside = omega arith }

Split-later : (a c j : ℕ) (s : List ℕ) → (a == c) ≡ false → Split s c j → Split (a ∷ s) c (j + 1)
unfolding strchr
Split-later a c j s e v =
    let q : suc j ≡ j + 1 = omega arith in
    subst (Split (a ∷ s) c) q (record {
      parts =
          ap (λ (l : List ℕ). a ∷ l) v.parts
          ∙ ap (λ (x : ℕ). a ∷ (take j s ++ (c ∷ drop x (a ∷ s))))
              (let z : suc (j + 1) ≡ suc j + 1 = omega arith in z);
      before = (let b = v.before in rw (e, b) refl);
      inside = (let b = v.inside in omega arith);
    })

strchr-Split : (s : List ℕ) (c i : ℕ) → strchr s c ≡ some i → Split s c i
unfolding strchr
strchr-Split [] c i h = ground arith
strchr-Split (a ∷ s) c i h = elim (Bool-cases (a == c)) [
  | inl e ↦
      let k : strchr (a ∷ s) c ≡ some 0 = rw e refl in
      subst (Split (a ∷ s) c) (some_inj.0 (sym k ∙ h)) (Split-here a c s (==→eq a c e))
  | inr e ↦ elim (Option-cases (strchr s c)) [
    | inl n ↦ let k : strchr (a ∷ s) c ≡ none = rw (e, n) refl in ground arith
    | inr (j, n) ↦
        let k : strchr (a ∷ s) c ≡ some (j + 1) = rw (e, n) refl in
        subst (Split (a ∷ s) c) (some_inj.0 (sym k ∙ h))
          (Split-later a c j s e (strchr-Split s c j n))
  ]
]

strchr-append :
    (m f : List ℕ) (c : ℕ) → strchr m c ≡ none → strchr (m ++ (c ∷ f)) c ≡ some (length m)
unfolding strchr
strchr-append [] f c h = let e = ==_self c in rw e refl
strchr-append (a ∷ m) f c h = elim (Bool-cases (a == c)) [
  | inl e ↦ let k : strchr (a ∷ m) c ≡ some 0 = rw e refl in ground arith
  | inr e ↦ elim (Option-cases (strchr m c)) [
    | inl n ↦
        let ih = strchr-append m f c n in
        rw (e, ih) (ap some (let q : length m + 1 ≡ suc (length m) = omega arith in q))
    | inr (j, n) ↦ let k : strchr (a ∷ m) c ≡ some (j + 1) = rw (e, n) refl in ground arith
  ]
]

take-append : (m l : List ℕ) → take (length m) (m ++ l) ≡ m
take-append [] l = refl
take-append (a ∷ m) l = ap (λ (x : List ℕ). a ∷ x) (take-append m l)

drop-append : (m l : List ℕ) (c : ℕ) → drop (length m + 1) (m ++ (c ∷ l)) ≡ l
drop-append [] l c = refl
drop-append (a ∷ m) l c =
    ap (λ (n : ℕ). drop n (a ∷ (m ++ (c ∷ l))))
      (let q : suc (length m) + 1 ≡ suc (length m + 1) = omega arith in q)
    ∙ drop-append m l c

parts_from-some :
    (path : List ℕ) (i : ℕ)
    → i < length path
    → parts_from path (some i) ≡ some (take i path, drop (i + 1) path)
unfolding parts_from
parts_from-some path i h =
    let rest = drop (i + 1) path in
    ap some (
      ap₂ (λ (x y : List ℕ). (x, y)) (strncpy-take path i (omega arith))
        (strncpy-take rest (length rest) (omega arith) ∙ take_all rest))

parts_from-none : (path : List ℕ) → parts_from path none ≡ none
unfolding parts_from
parts_from-none path = refl

-- parse_path splits a path at the first slash behind the one it may start with: it gives the name of a
-- mount point and that of a file exactly where the path is those two with a slash between them, and the
-- first has none.
pub parse_path_iff :
    (path m f : List ℕ)
    → (parse_path (some path) ≡ some (m, f))
      ↔ ((skip_slash path ≡ m ++ (47 ∷ f)) × (strchr m 47 ≡ none))
unfolding parse_path
parse_path_iff path0 m f =
    let path = skip_slash path0 in
    (
      λ h. elim (Option-cases (strchr path 47)) [
        | inl n ↦
            let k : parse_path (some path0) ≡ none =
              ap (parts_from path) n ∙ parts_from-none path in
            ground arith
        | inr (i, e) ↦
            let v = strchr-Split path 47 i e in
            let k : some (take i path, drop (i + 1) path) ≡ some (m, f) =
              sym (ap (parts_from path) e ∙ parts_from-some path i v.inside) ∙ h in
            let q = some_inj.0 k in
            let a : take i path ≡ m = ap (λ (x : List ℕ × List ℕ). x.0) q in
            let b : drop (i + 1) path ≡ f = ap (λ (x : List ℕ × List ℕ). x.1) q in
            (
              v.parts ∙ ap₂ (λ (x y : List ℕ). x ++ (47 ∷ y)) a b,
              ap (λ (x : List ℕ). strchr x 47) (sym a) ∙ v.before,
            )
      ],
      λ h.
          let lt : length m < length (m ++ (47 ∷ f)) = omega (arith, length-append m (47 ∷ f)) in
          ap (λ (p : List ℕ). parts_from p (strchr p 47)) h.0
          ∙ ap (parts_from (m ++ (47 ∷ f))) (strchr-append m f 47 h.1)
          ∙ parts_from-some (m ++ (47 ∷ f)) (length m) lt
          ∙ ap some (ap₂ (λ (x y : List ℕ). (x, y)) (take-append m (47 ∷ f)) (drop-append m f 47)),
    )
