-- ===== src/Text/Digits.antt =====
-- strtoul of sys/string.c reads what format_int prints.
use model_lib.Base.{
  ℕ, zero, suc, ◌+◌, ◌-◌, ◌*◌, ◌/◌, ◌%◌, ◌^◌, ◌≤◌, ◌<◌, ◌≡◌, refl, sym, ap, ap₂, ◌∙◌, inl, inr,
  Bool, true, false, ◌&&◌, ◌||◌, some, List, [], ◌∷◌, ◌++◌, arith, ltb, leb, ◌==◌, Bool-cases,
  ==→eq, length, replicate, length-append,
}
use native.Mathlib.Nat.{
  mod-eq_of_lt, mod-lt, div-lt_iff_lt-mul, div-le_self, mul-le-mul_left, div-add-mod', two-pow-succ,
}
use model_lib.Text.{read_digits, read_signed, strtoul}
use model_lib.Text.Format.{digit, int_digits, format_int}

-- The chars of a number: digits below the base.
abbrev all_digits : ℕ → List ℕ → Bool
all_digits base [] = true
all_digits base (c ∷ s) = leb 48 c && (ltb c (48 + base) && all_digits base s)

module _ (base : ℕ) (two : 2 ≤ base) (ten : base ≤ 10) where
  digit-is_digit :
      (v : ℕ)
      → (48 ≤ digit (v % base))
        × (digit (v % base) < 48 + base)
        × (digit (v % base) - 48 ≡ v % base)
  digit-is_digit v =
      let h : v % base < base = mod-lt v (let q : 0 < base = omega arith in q) in
      let e : ltb (v % base) 10 ≡ true = ground arith in
      rw e (omega arith, omega arith, omega arith)

  int_digits-all_digits :
      (left v : ℕ) (buf : List ℕ)
      → all_digits base buf ≡ true
      → all_digits base (int_digits left v base buf) ≡ true
  unfolding int_digits
  int_digits-all_digits zero v buf h = h
  int_digits-all_digits (suc left) v buf h =
      let (a, b, c) = digit-is_digit v in
      let here : all_digits base (digit (v % base) ∷ buf) ≡ true = ground arith in
      elim (Bool-cases (v / base == 0)) [
        | inl e ↦ rw e here
        | inr e ↦ rw e (int_digits-all_digits left (v / base) (digit (v % base) ∷ buf) here)
      ]

  read_digits-nil : (v i : ℕ) → read_digits [] base v i ≡ (v, i)
  unfolding read_digits
  read_digits-nil v i = refl

  -- A digit is read to the value so far, which does not wrap.
  read_digits-digit :
      (c : ℕ) (s : List ℕ) (x i : ℕ)
      → 48 ≤ c
      → c < 48 + base
      → x * base + (c - 48) < 2 ^ 64
      → read_digits (c ∷ s) base x i ≡ read_digits s base (x * base + (c - 48)) (i + 1)
  unfolding read_digits
  read_digits-digit c s x i lo hi fits =
      let e : (ltb c 48 || leb (48 + base) c) ≡ false = ground arith in
      let a : x * base % 2 ^ 64 ≡ x * base = mod-eq_of_lt (omega arith) in
      let b : (x * base % 2 ^ 64 + (c - 48)) % 2 ^ 64 ≡ x * base + (c - 48) =
        rw a (mod-eq_of_lt fits) in
      rw (e, b) refl

  -- All of a string of digits is read.
  read_digits-length :
      (s : List ℕ) (x i : ℕ) → all_digits base s ≡ true → (read_digits s base x i).1 ≡ i + length s
  unfolding read_digits
  read_digits-length [] x i h = omega arith
  read_digits-length (c ∷ s) x i h =
      let e : (ltb c 48 || leb (48 + base) c) ≡ false = ground arith in
      let k : all_digits base s ≡ true = ground arith in
      rw e (read_digits-length s ((x * base % 2 ^ 64 + (c - 48)) % 2 ^ 64) (i + 1) k ∙ omega arith)

  half : (left v : ℕ) → v < 2 ^ (suc left) → v / base < 2 ^ left
  half left v h =
      let p : 2 ^ (suc left) ≡ 2 ^ left + 2 ^ left = two-pow-succ left in
      let m : 2 ^ left * 2 ≤ 2 ^ left * base = mul-le-mul_left (2 ^ left) two in
      let k : v < 2 ^ left * base = omega arith in
      (div-lt_iff_lt-mul (let q : 0 < base = omega arith in q)).1 k

  -- The digits of a number are read as the number.
  read_digits-int_digits :
      (left v : ℕ) (buf : List ℕ) (i : ℕ)
      → v < 2 ^ left
      → v < 2 ^ 64
      → (j : ℕ) × (read_digits (int_digits left v base buf) base 0 i ≡ read_digits buf base v j)
  unfolding int_digits
  read_digits-int_digits zero v buf i h fits =
      let z : 0 ≡ v = omega arith in (i, ap (λ (x : ℕ). read_digits buf base x i) z)
  read_digits-int_digits (suc left) v buf i h fits =
      let (lo, hi, val) = digit-is_digit v in
      let c = digit (v % base) in
      let whole : v / base * base + v % base ≡ v = div-add-mod' v base in
      let sum : v / base * base + (c - 48) ≡ v = ap (λ (x : ℕ). v / base * base + x) val ∙ whole in
      elim (Bool-cases (v / base == 0)) [
        | inl e ↦
            let z : 0 ≡ v / base = sym (==→eq (v / base) 0 e) in
            (
              i + 1,
              rw e (
                  ap (λ (x : ℕ). read_digits (c ∷ buf) base x i) z
                  ∙ read_digits-digit c buf (v / base) i lo hi (omega arith)
                  ∙ ap (λ (x : ℕ). read_digits buf base x (i + 1)) sum),
            )
        | inr e ↦
            let q : v / base ≤ v = div-le_self v base in
            let (j, r) =
              read_digits-int_digits left (v / base) (c ∷ buf) i (half left v h) (omega arith) in
            (
              j + 1,
              rw e (
                  r
                  ∙ read_digits-digit c buf (v / base) j lo hi (omega arith)
                  ∙ ap (λ (x : ℕ). read_digits buf base x (j + 1)) sum),
            )
      ]

  -- Zeros in front are read as nothing.
  read_digits-zeros :
      (k : ℕ) (s : List ℕ) (i : ℕ)
      → (j : ℕ) × (read_digits (replicate k 48 ++ s) base 0 i ≡ read_digits s base 0 j)
  read_digits-zeros zero s i = (i, refl)
  read_digits-zeros (suc k) s i =
      let (j, r) = read_digits-zeros k s (i + 1) in
      let z : 0 * base + (48 - 48) ≡ 0 = omega arith in
      (
        j,
        read_digits-digit 48 (replicate k 48 ++ s) 0 i (omega arith) (omega arith) (omega arith)
            ∙ ap (λ (x : ℕ). read_digits (replicate k 48 ++ s) base x (i + 1)) z
            ∙ r,
      )

  zeros-all_digits :
      (k : ℕ) (s : List ℕ) → all_digits base s ≡ true → all_digits base (replicate k 48 ++ s) ≡ true
  zeros-all_digits zero s h = h
  zeros-all_digits (suc k) s h = let r = zeros-all_digits k s h in ground arith

  -- A string of digits has no sign.
  read_signed-digits :
      (s : List ℕ)
      → all_digits base s ≡ true
      → 0 < length s
      → read_signed s base ≡ read_digits s base 0 0
  unfolding read_signed
  read_signed-digits [] h k = ground arith
  read_signed-digits (c ∷ s) h k =
      let a : (c == 45) ≡ false = ground arith in
      let b : (c == 43) ≡ false = ground arith in rw (a, b) refl

  length-int_digits :
      (left v : ℕ) (buf : List ℕ) → 0 < left + length buf → 0 < length (int_digits left v base buf)
  unfolding int_digits
  length-int_digits zero v buf h = omega arith
  length-int_digits (suc left) v buf h = elim (Bool-cases (v / base == 0)) [
    | inl e ↦ rw e (omega arith)
    | inr e ↦ rw e (length-int_digits left (v / base) (digit (v % base) ∷ buf) (omega arith))
  ]

  -- strtoul reads back any number below 2 ^ 64 that format_int prints, in bases from 2 to 10 where its
  -- digits fit the buffer of 40, padded with zeros to any width, and ends behind its last char.
  pub strtoul-format_int :
      (v len : ℕ)
      → v < 2 ^ 64
      → length (int_digits 64 v base []) ≤ 40
      → let s = format_int v base true len in strtoul (some s) base ≡ (v, some (length s))
  unfolding strtoul format_int
  strtoul-format_int v len h room =
      let ds = int_digits 64 v base [] in
      let k = len - length ds in
      let s = replicate k 48 ++ ds in
      let all : all_digits base s ≡ true =
        zeros-all_digits k ds (int_digits-all_digits 64 v [] refl) in
      let some_digit : 0 < length ds = length-int_digits 64 v [] (omega arith) in
      let e : (leb base 1 || ltb 10 base) ≡ false = ground arith in
      let some_char : 0 < length s = omega (arith, length-append (replicate k 48) ds) in
      let (j, r) = read_digits-zeros k ds 0 in
      let (j', r') = read_digits-int_digits 64 v [] j h h in
      let whole = read_signed-digits s all some_char in
      let val : (read_signed s base).0 ≡ v =
        ap (λ (x : ℕ × ℕ). x.0) (whole ∙ r ∙ r' ∙ read_digits-nil v j') in
      let end : (read_signed s base).1 ≡ length s =
        ap (λ (x : ℕ × ℕ). x.1) whole ∙ read_digits-length s 0 0 all ∙ omega arith in
      rw e (ap₂ (λ (x y : ℕ). (x, some y)) val end)
