-- ===== src/Stack/Layout.antt =====
-- Where build_stack of sys/process.c puts the arguments.
use model_lib.Base.{
  ℕ, zero, suc, ◌+◌, ◌-◌, ◌*◌, ◌/◌, ◌%◌, ◌≤◌, ◌<◌, ◌≡◌, refl, sym, ap, ◌∙◌, ◌⊎◌, inl, inr, true,
  false, ◌&&◌, Option, none, some, List, [], ◌∷◌, arith, ltb, leb, ◌==◌, Bool-cases, ltb→lt, ltb→ge,
  ==_self, length, get_elem?, get_or,
}
use mathlib.Core.Option.{some_inj}
use model_lib.Paging.{umem_end_vma}
use model_lib.Stack.{Page, stack_size, put_word, put_text, copy_args, build_stack}

-- The bytes that the strings take.
abbrev total : List (List ℕ) → ℕ
total [] = 0
total (a ∷ args) = length a + 1 + total args

-- A string of the vector: its pointer stands in the vector, and points at its bytes and its NUL, which
-- lie between two offsets of the page.
pub record Placed (newargv i low high : ℕ) (a : List ℕ) (s : Page) : Type 0 where
  pub off : ℕ
  pub pointer : s.words (newargv + 8 * i) ≡ umem_end_vma - 4096 + off
  pub above : low ≤ off
  pub under : off + length a < high
  pub text : (k : ℕ) → k ≤ length a → s.bytes (off + k) ≡ get_or a k 0

pub record Laid (args : List (List ℕ)) (s : Page) (stksz : ℕ) : Type 0 where
  pub fits : stksz ≤ 4096
  pub aligned : stksz % 16 ≡ 0
  pub strings :
      (i : ℕ) (a : List ℕ)
      → get_elem? args i ≡ some a
      → Placed (4096 - stksz) i (4096 - stksz + 8 * (length args + 1)) 4096 a s
  pub null : s.words (4096 - stksz + 8 * length args) ≡ 0

pub data Built (args : List (List ℕ)) : Option (Page × ℕ) → Type 0 where
  refused : 4096 < 8 * (length args + 1) + total args → Built args none
  laid :
      {s : Page} {stksz : ℕ}
      → 8 * (length args + 1) + total args ≤ stksz
      → stksz < 8 * (length args + 1) + total args + 16
      → Laid args s stksz
      → Built args (some (s, stksz))

stack_size-total :
    (args : List (List ℕ)) (n : ℕ)
    → n ≤ 4096
    → ((stack_size args n ≡ some (n + total args)) × (n + total args ≤ 4096))
      ⊎ ((stack_size args n ≡ none) × (4096 < n + total args))
unfolding stack_size
stack_size-total [] n h = let z : n ≡ n + 0 = omega arith in inl (ap some z, omega arith)
stack_size-total (a ∷ args) n h = elim (Bool-cases (ltb (4096 - n) (length a + 1))) [
  | inl e ↦ rw e (inr (refl, ground arith))
  | inr e ↦
      let g : length a + 1 ≤ 4096 - n = ltb→ge (4096 - n) (length a + 1) e in
      let z : n + (length a + 1) + total args ≡ n + (length a + 1 + total args) = omega arith in
      rw (e, sym z) (stack_size-total args (n + (length a + 1)) (omega arith))
]

less_ne : (m n : ℕ) → m < n → (m == n) ≡ false
less_ne m n h = ground arith

-- What is laid out later leaves the words and the bytes before it.
copy_args-words :
    (args : List (List ℕ)) (i v p : ℕ) (s : Page) (o : ℕ)
    → o < v + 8 * i
    → (copy_args args i v p s).words o ≡ s.words o
unfolding copy_args put_word put_text
copy_args-words [] i v p s o h = rw (less_ne o (v + 8 * i) h) refl
copy_args-words (a ∷ args) i v p s o h =
    copy_args-words args (i + 1) v (p + (length a + 1))
      (put_text (put_word s (v + 8 * i) (umem_end_vma - 4096 + p)) p a) o (omega arith)
    ∙ rw (less_ne o (v + 8 * i) h) refl

copy_args-bytes :
    (args : List (List ℕ)) (i v p : ℕ) (s : Page) (o : ℕ)
    → o < p
    → (copy_args args i v p s).bytes o ≡ s.bytes o
unfolding copy_args put_word put_text
copy_args-bytes [] i v p s o h = refl
copy_args-bytes (a ∷ args) i v p s o h =
    let before : (leb p o && ltb o (p + (length a + 1))) ≡ false = ground arith in
    copy_args-bytes args (i + 1) v (p + (length a + 1))
      (put_text (put_word s (v + 8 * i) (umem_end_vma - 4096 + p)) p a) o (omega arith)
    ∙ rw before refl

copy_args-null :
    (args : List (List ℕ)) (i v p : ℕ) (s : Page)
    → (copy_args args i v p s).words (v + 8 * (i + length args)) ≡ 0
unfolding copy_args put_word
copy_args-null [] i v p s =
    let z : (v + 8 * (i + 0) == v + 8 * i) ≡ true = ground arith in rw z refl
copy_args-null (a ∷ args) i v p s =
    let s1 = put_text (put_word s (v + 8 * i) (umem_end_vma - 4096 + p)) p a in
    let z : v + 8 * (i + suc (length args)) ≡ v + 8 * (i + 1 + length args) = omega arith in
    ap (copy_args args (i + 1) v (p + (length a + 1)) s1).words z
    ∙ copy_args-null args (i + 1) v (p + (length a + 1)) s1

copy_args-Placed :
    (args : List (List ℕ)) (i v p : ℕ) (s : Page) (k : ℕ) (a : List ℕ)
    → get_elem? args k ≡ some a
    → Placed v (i + k) p (p + total args) a (copy_args args i v p s)
unfolding copy_args put_word put_text
copy_args-Placed [] i v p s k a e = ground arith
copy_args-Placed (b ∷ args) i v p s (suc k) a e =
    let s1 = put_text (put_word s (v + 8 * i) (umem_end_vma - 4096 + p)) p b in
    let r = copy_args-Placed args (i + 1) v (p + (length b + 1)) s1 k a e in
    let z : v + 8 * (i + suc k) ≡ v + 8 * (i + 1 + k) = omega arith in
    let low = r.above in
    let high = r.under in
    record {
      off = r.off;
      pointer = ap (copy_args args (i + 1) v (p + (length b + 1)) s1).words z ∙ r.pointer;
      above = omega arith;
      under = omega arith;
      text = r.text;
    }
copy_args-Placed (b ∷ args) i v p s zero a e =
    let same : b ≡ a = some_inj.0 e in
    let s1 = put_text (put_word s (v + 8 * i) (umem_end_vma - 4096 + p)) p b in
    let z : v + 8 * (i + 0) ≡ v + 8 * i = omega arith in
    let len = ap (λ (x : List ℕ). length x) same in
    record {
      off = p;
      pointer =
          ap (copy_args args (i + 1) v (p + (length b + 1)) s1).words z
          ∙ copy_args-words args (i + 1) v (p + (length b + 1)) s1 (v + 8 * i) (omega arith)
          ∙ rw (==_self (v + 8 * i)) refl;
      above = omega arith;
      under = omega arith;
      text = λ j h.
          let inside : (leb p (p + j) && ltb (p + j) (p + (length b + 1))) ≡ true = ground arith in
          let q : p + j - p ≡ j = omega arith in
          copy_args-bytes args (i + 1) v (p + (length b + 1)) s1 (p + j) (omega arith)
          ∙ rw (inside, q) (ap (λ (x : List ℕ). get_or x j 0) same);
    }

layout :
    (args : List (List ℕ)) (s : Page) (n : ℕ)
    → n ≡ 8 * (length args + 1) + total args
    → n ≤ 4096
    → let stksz = (n + 15) / 16 * 16 in
      Laid args (copy_args args 0 (4096 - stksz) (4096 - stksz + 8 * (length args + 1)) s) stksz
layout args s n e small =
    let stksz = (n + 15) / 16 * 16 in
    let v = 4096 - stksz in
    let p = v + 8 * (length args + 1) in
    let words = (copy_args args 0 v p s).words in
    let from_zero : (j : ℕ) → v + 8 * j ≡ v + 8 * (0 + j) = λ j. omega arith in
    record {
      fits = omega arith;
      aligned = omega arith;
      strings = λ i a h.
          let r = copy_args-Placed args 0 v p s i a h in
          let high = r.under in
          record {
            off = r.off;
            pointer = ap words (from_zero i) ∙ r.pointer;
            above = r.above;
            under = omega arith;
            text = r.text;
          };
      null = ap words (from_zero (length args)) ∙ copy_args-null args 0 v p s;
    }

-- build_stack fails exactly if the vector, its NULL and the strings take more than a page. Otherwise it
-- returns what they take, rounded up to a multiple of 16, within a page: at that distance from the end of the page stands the vector,
-- whose pointers, as the user sees the page, lead to the strings with their NULs behind the vector, and
-- which ends in NULL.
pub build_stack-Built : (args : List (List ℕ)) (s : Page) → Built args (build_stack args s)
unfolding build_stack
build_stack-Built args s = elim (Bool-cases (ltb 511 (length args))) [
  | inl e ↦ (let h = ltb→lt 511 (length args) e in rw e (refused (omega arith)))
  | inr e ↦
      let h = ltb→ge 511 (length args) e in
      let n = 8 * (length args + 1) in
      elim (stack_size-total args n (omega arith)) [
        | inr (q, big) ↦ rw (e, q) (refused big)
        | inl (q, small) ↦
            rw (e, q) (laid (omega arith) (omega arith) (layout args s (n + total args) refl small))
      ]
]
