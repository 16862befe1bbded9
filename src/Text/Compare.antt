-- ===== src/Text/Compare.antt =====
-- Comparison of strings of sys/string.c.
use model_lib.Base.{
  ℕ, ◌<◌, ◌≡◌, refl, ap, ap₂, subst, inl, inr, true, false, some, List, [], ◌∷◌, arith, ltb, ◌==◌,
  Bool-cases, ltb→lt, ltb→ge, ==→eq, ==→ne, ==_self,
}
use model_lib.Text.{Order, less, same, more, compare_bytes, strcmp, is_same, name_equals}

-- The first difference of two strings decides: what stands before it is equal, and behind it stands a
-- smaller byte, or the end, in the smaller string.
pub data Before : List ℕ → List ℕ → Type 0 where
  ends : (b : ℕ) (t : List ℕ) → Before [] (b ∷ t)
  differs : (a b : ℕ) (s t : List ℕ) → a < b → Before (a ∷ s) (b ∷ t)
  agrees : (c : ℕ) (s t : List ℕ) → Before s t → Before (c ∷ s) (c ∷ t)

-- What an order says of two strings.
abbrev pub Says : Order → List ℕ → List ℕ → Type 0
Says less s t = Before s t
Says same s t = s ≡ t
Says more s t = Before t s

Says-agrees : (a b : ℕ) (s t : List ℕ) (o : Order) → a ≡ b → Says o s t → Says o (a ∷ s) (b ∷ t)
Says-agrees a b s t less e h = subst (λ (x : ℕ). Before (a ∷ s) (x ∷ t)) e (agrees a s t h)
Says-agrees a b s t same e h = ap₂ (λ (x : ℕ) (y : List ℕ). x ∷ y) e h
Says-agrees a b s t more e h = subst (λ (x : ℕ). Before (x ∷ t) (a ∷ s)) e (agrees a t s h)

pub compare_bytes-Says : (s t : List ℕ) → Says (compare_bytes s t) s t
unfolding compare_bytes
compare_bytes-Says [] [] = refl
compare_bytes-Says [] (b ∷ t) = ends b t
compare_bytes-Says (a ∷ s) [] = ends a s
compare_bytes-Says (a ∷ s) (b ∷ t) = elim (Bool-cases (a == b)) [
  | inl e ↦ rw e (Says-agrees a b s t (compare_bytes s t) (==→eq a b e) (compare_bytes-Says s t))
  | inr e ↦ elim (Bool-cases (ltb a b)) [
    | inl l ↦ rw (e, l) (differs a b s t (ltb→lt a b l))
    | inr l ↦
        (let n = ==→ne a b e in let g = ltb→ge a b l in rw (e, l) (differs b a t s (omega arith)))
  ]
]

-- strcmp of two strings says which of them comes first in the lexicographic order of their bytes, or that
-- they are equal.
pub strcmp-Says : (s t : List ℕ) → Says (strcmp (some s) (some t)) s t
unfolding strcmp
strcmp-Says s t = compare_bytes-Says s t

compare_bytes_self : (s : List ℕ) → compare_bytes s s ≡ same
unfolding compare_bytes
compare_bytes_self [] = refl
compare_bytes_self (c ∷ s) = let e = ==_self c in rw e (compare_bytes_self s)

Says-eq : (o : Order) (s t : List ℕ) → Says o s t → is_same o ≡ true → s ≡ t
Says-eq same s t h e = h
Says-eq less s t h e = ground arith
Says-eq more s t h e = ground arith

-- strcmp answers 0 for equal names only.
pub name_equals→eq : (s t : List ℕ) → name_equals s t ≡ true → s ≡ t
unfolding name_equals strcmp
name_equals→eq s t e = Says-eq (compare_bytes s t) s t (strcmp-Says s t) e

pub name_equals_self : (s : List ℕ) → name_equals s s ≡ true
unfolding name_equals strcmp
name_equals_self s = ap is_same (compare_bytes_self s)

pub name_equals→ne : (s t : List ℕ) → name_equals s t ≡ false → ¬ (s ≡ t)
name_equals→ne s t e q =
    let h : name_equals s t ≡ true =
      subst (λ (x : List ℕ). name_equals s x ≡ true) q (name_equals_self s) in
    ground arith
