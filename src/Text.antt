-- ===== src/Text.antt =====
-- sys/string.c. A string is the list of its bytes before the NUL, so that the end of a list reads as
-- the NUL; a char is unsigned. A function that puts characters one by one is the list of those.
pub mod Compare
pub mod Format
pub mod Digits
pub mod Print
pub mod Tests
use model_lib.Base.{
  ℕ, zero, suc, ◌+◌, ◌-◌, ◌*◌, ◌/◌, ◌%◌, ◌^◌, ◌≤◌, ◌<◌, min, ◌≡◌, refl, sym, ap, ap₂, ◌∙◌, subst,
  fun_ext, ◌≢◌, ◌↔◌, ◌⊎◌, inl, inr, Bool, true, false, not, ◌&&◌, ◌||◌, Option, none, some, List,
  [], ◌∷◌, ◌++◌, map, arith, ltb, leb, ◌==◌, if◌then◌else◌, Bool-cases, Option-cases, ==_iff,
  ltb→lt, lt→ltb, leb→le, ltb→ge, ==→eq, ==→ne, ==_self, length, get_elem?, set, get_or, take, drop,
  replicate, length-append, length-set, get_elem?-set_self, get_elem?-set_ne, take-append-drop,
  length-take, length-drop, length-replicate, length-map, get_or-set_self, get_or-set_ne, take-nil,
  drop-nil, take-min,
}

-- What strcmp returns: -1, 0 or 1.
pub data Order : Type 0 where
  less same more : Order

-- The loop of `strcmp` and the comparison behind it.
unfoldable pub compare_bytes : List ℕ → List ℕ → Order
compare_bytes [] [] = same
compare_bytes [] (b ∷ t) = less
compare_bytes (a ∷ s) [] = more
compare_bytes (a ∷ s) (b ∷ t) =
    let rest = compare_bytes s t in if a == b then rest else if ltb a b then less else more

-- `strcmp`; a null pointer is `none`.
unfoldable pub strcmp : Option (List ℕ) → Option (List ℕ) → Order
unfolding compare_bytes
strcmp none none = same
strcmp none (some t) = less
strcmp (some s) none = more
strcmp (some s) (some t) = compare_bytes s t

-- `strcmp(s, t) == 0`.
abbrev pub is_same : Order → Bool
is_same same = true
is_same less = false
is_same more = false

unfoldable pub name_equals : List ℕ → List ℕ → Bool
unfolding strcmp
name_equals s t = is_same (strcmp (some s) (some t))

-- The byte at the start of what is left of a string.
abbrev pub head : List ℕ → ℕ
head [] = 0
head (c ∷ s) = c

-- `strncmp`: the difference of two chars, as a 32-bit pattern.
unfoldable pub strncmp : List ℕ → List ℕ → ℕ → ℕ
strncmp s t zero = 0
strncmp [] t (suc n) = (2 ^ 32 - head t) % 2 ^ 32
strncmp (a ∷ s) t (suc n) = elim t [
  | [] ↦ a
  | b ∷ t' ↦ (let rest = strncmp s t' n in if a == b then rest else (a + 2 ^ 32 - b) % 2 ^ 32)
]

unfoldable pub strlen : Option (List ℕ) → ℕ
strlen none = 0
strlen (some s) = length s

-- The `n` bytes that `strncpy` writes.
unfoldable pub strncpy : List ℕ → ℕ → List ℕ
strncpy s zero = []
strncpy [] (suc n) = 0 ∷ strncpy [] n
strncpy (c ∷ s) (suc n) = c ∷ strncpy s n

-- `strchr` and `strrchr`: the index of the char, if there is one.
unfoldable pub strchr : List ℕ → ℕ → Option ℕ
strchr [] c = none
strchr (a ∷ s) c =
    let rest = strchr s c in
    if a == c then some 0 else elim rest [ none ↦ none | some i ↦ some (i + 1) ]

-- The loop of `strrchr`, at index `i`, with the last match so far.
unfoldable pub last_match : List ℕ → ℕ → ℕ → Option ℕ → Option ℕ
last_match [] c i p = p
last_match (a ∷ s) c i p = last_match s c (i + 1) (if a == c then some i else p)

unfoldable pub strrchr : List ℕ → ℕ → Option ℕ
unfolding last_match
strrchr s c = last_match s c 0 none

-- `memcpy`: `n` bytes from `src` to `dst`, one by one.
unfoldable pub memcpy : (ℕ → ℕ) → ℕ → ℕ → ℕ → ℕ → ℕ
memcpy ram dst src zero = ram
memcpy ram dst src (suc n) = memcpy (λ a. if a == dst then ram src else ram a) (dst + 1) (src + 1) n

-- `memcmp`: the difference of two bytes, as a 32-bit pattern.
unfoldable pub memcmp : (ℕ → ℕ) → ℕ → ℕ → ℕ → ℕ
memcmp ram p q zero = 0
memcmp ram p q (suc n) =
    let rest = memcmp ram (p + 1) (q + 1) n in
    if ram p == ram q then rest else (ram p + 2 ^ 32 - ram q) % 2 ^ 32

-- The loop of `strtoul`: the value and the number of digits read.
unfoldable pub read_digits : List ℕ → ℕ → ℕ → ℕ → ℕ × ℕ
read_digits [] base val i = (val, i)
read_digits (c ∷ s) base val i =
    let rest = read_digits s base ((val * base % 2 ^ 64 + (c - 48)) % 2 ^ 64) (i + 1) in
    if ltb c 48 || leb (48 + base) c then (val, i) else rest

abbrev pub negate : Bool → ℕ → ℕ
negate neg val = if neg then (2 ^ 64 - val) % 2 ^ 64 else val

-- The digits behind a sign.
unfoldable pub read_signed : List ℕ → ℕ → ℕ × ℕ
unfolding read_digits
read_signed [] base = (0, 0)
read_signed (c ∷ s) base =
    let behind = read_digits s base 0 1 in
    let whole = read_digits (c ∷ s) base 0 0 in
    if c == 45 then (negate true behind.0, behind.1) else if c == 43 then behind else whole

-- `strtoul`: the value and where `endptr` is set to; `none` is NULL.
unfoldable pub strtoul : Option (List ℕ) → ℕ → ℕ × Option ℕ
unfolding read_signed
strtoul none base = (2 ^ 64 - 1, none)
strtoul (some s) base =
    let r = read_signed s base in
    if leb base 1 || ltb 10 base then (2 ^ 64 - 1, none) else (r.0, some r.1)
