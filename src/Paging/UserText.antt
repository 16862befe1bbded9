-- ===== src/Paging/UserText.antt =====
-- How validate_vstr of sys/memory.c ends.
use model_lib.Base.{
  ℕ, zero, suc, ◌+◌, ◌-◌, ◌≤◌, ◌<◌, ◌≡◌, refl, sym, ap, ◌∙◌, ◌⊎◌, inl, inr, Bool, true, false, not,
  ◌||◌, Option, none, some, arith, ltb, leb, ◌==◌, if◌then◌else◌, Bool-cases, ltb→lt, ltb→ge, ==→eq,
  ==→ne,
}
use mathlib.Core.Option.{some_inj}
use model_lib.Paging.{Flags, umem_start_vma, umem_end_vma, PageSource, Mem}
use model_lib.Paging.Ranges.{wellformed}
use model_lib.Paging.Check.{
  valid, einval, TextCheck, answers, kernel_fault, unfinished, byte_allowed, load, after_char,
  check_string, validate_vstr,
}

module _ (src : PageSource) (s : Mem src) (want : Flags) where
  -- An address of the user range whose page has the flags that are asked for.
  abbrev pub IsAllowed : ℕ → Type 0
  IsAllowed vma =
      (umem_start_vma ≤ vma) × (vma < umem_end_vma) × (byte_allowed src s want vma ≡ true)

  -- The bytes from an address on up to a NUL are allowed and can be read.
  pub data IsText : ℕ → Type 0 where
    ends : (vma : ℕ) → IsAllowed vma → load src s vma ≡ some 0 → IsText vma
    goes_on :
        (vma c : ℕ)
        → IsAllowed vma
        → load src s vma ≡ some c
        → ¬ (c ≡ 0)
        → IsText (vma + 1)
        → IsText vma

  -- The bytes from an address on come to one that is allowed and cannot be read, with no NUL before.
  pub data IsBroken : ℕ → Type 0 where
    stops : (vma : ℕ) → IsAllowed vma → load src s vma ≡ none → IsBroken vma
    goes_on :
        (vma c : ℕ)
        → IsAllowed vma
        → load src s vma ≡ some c
        → ¬ (c ≡ 0)
        → IsBroken (vma + 1)
        → IsBroken vma

  -- What the end of a check says of the string at an address.
  abbrev pub Judged : ℕ → TextCheck → Type 0
  Judged vma (answers valid) = IsText vma
  Judged vma (answers einval) = ¬ IsText vma × ¬ IsBroken vma
  Judged vma kernel_fault = IsBroken vma
  Judged vma unfinished = ¬ Unit

  text-IsAllowed : (vma : ℕ) → IsText vma → IsAllowed vma
  text-IsAllowed _ (ends vma a d) = a
  text-IsAllowed _ (goes_on vma c a d h t) = a

  broken-IsAllowed : (vma : ℕ) → IsBroken vma → IsAllowed vma
  broken-IsAllowed _ (stops vma a d) = a
  broken-IsAllowed _ (goes_on vma c a d h t) = a

  next-IsText : (vma c : ℕ) → IsText vma → load src s vma ≡ some c → ¬ (c ≡ 0) → IsText (vma + 1)
  next-IsText _ c (ends vma a d) e h = absurd (h (some_inj.0 (sym e ∙ d)))
  next-IsText _ c (goes_on vma b a d k t) e h = t

  next-IsBroken : (vma c : ℕ) → IsBroken vma → load src s vma ≡ some c → IsBroken (vma + 1)
  next-IsBroken _ c (stops vma a d) e = absurd (let z = sym e ∙ d in cc)
  next-IsBroken _ c (goes_on vma b a d k t) e = t

  later :
      (vma c : ℕ) (o : TextCheck)
      → IsAllowed vma
      → load src s vma ≡ some c
      → ¬ (c ≡ 0)
      → Judged (vma + 1) o
      → Judged vma o
  later vma c (answers valid) a e h j = goes_on vma c a e h j
  later vma c (answers einval) a e h j =
      (λ t. j.0 (next-IsText vma c t e h), λ t. j.1 (next-IsBroken vma c t e))
  later vma c kernel_fault a e h j = goes_on vma c a e h j
  later vma c unfinished a e h j = j

  refused : (vma : ℕ) → ¬ IsAllowed vma → Judged vma (answers einval)
  refused vma h = (λ t. h (text-IsAllowed vma t), λ t. h (broken-IsAllowed vma t))

  after_char-Judged :
      (vma : ℕ) (o : Option ℕ) (rest : TextCheck)
      → IsAllowed vma
      → load src s vma ≡ o
      → Judged (vma + 1) rest
      → Judged vma (after_char src o rest)
  after_char-Judged vma none rest a e j = stops vma a e
  after_char-Judged vma (some c) rest a e j = elim (Bool-cases (c == 0)) [
    | inl z ↦ rw z (ends vma a (e ∙ ap some (==→eq c 0 z)))
    | inr z ↦ rw z (later vma c rest a e (==→ne c 0 z) j)
  ]

  check_string-Judged :
      (fuel vma : ℕ)
      → 0 < fuel
      → (umem_end_vma < vma + fuel) ⊎ (vma < umem_start_vma)
      → Judged vma (check_string src s want fuel vma)
  unfolding check_string
  check_string-Judged zero vma h k = ground arith
  check_string-Judged (suc fuel) vma h k =
      elim (Bool-cases (ltb vma umem_start_vma || leb umem_end_vma vma)) [
        | inl e ↦
            let out : (vma < umem_start_vma) ⊎ (umem_end_vma ≤ vma) = ground arith in
            rw e (refused vma (λ (a, b, c). ground arith))
        | inr e ↦
            let lo : umem_start_vma ≤ vma = ground arith in
            let hi : vma < umem_end_vma = ground arith in
            elim (Bool-cases (byte_allowed src s want vma)) [
              | inr f ↦
                  rw (e, f) (refused vma (λ (a, b, c). let z : true ≡ false = sym c ∙ f in cc))
              | inl f ↦
                  rw (e, f)
                    (after_char-Judged vma (load src s vma) (check_string src s want fuel (vma + 1))
                      (lo, hi, f) refl
                      (check_string-Judged fuel (vma + 1) (ground arith) (inl (ground arith))))
            ]
      ]

  unless :
      (vs : ℕ) (bad : Bool) (o : TextCheck)
      → (bad ≡ true → ¬ IsAllowed vs)
      → Judged vs o
      → Judged vs (if bad then answers einval else o)
  unless vs true o h j = refused vs (h refl)
  unless vs false o h j = j

  -- validate_vstr always ends. It accepts a pointer exactly if the bytes from it up to a NUL all lie in the
  -- user range, have the flags and can be read, and comes to a page fault of the kernel exactly if they do up
  -- to one whose page has the flags but cannot be read.
  pub validate_vstr-Judged : (vs : ℕ) → Judged vs (validate_vstr src s vs want)
  unfolding validate_vstr wellformed
  validate_vstr-Judged vs =
      unless vs ((vs == 0) || not (wellformed vs))
        (check_string src s want (umem_end_vma - umem_start_vma + 1) vs)
        (λ e (a, b, c). ground arith)
        (check_string-Judged (umem_end_vma - umem_start_vma + 1) vs (omega arith)
          (elim (Bool-cases (ltb vs umem_start_vma)) [
            | inl l ↦ inr (ltb→lt vs umem_start_vma l)
            | inr l ↦ (let g = ltb→ge vs umem_start_vma l in inl (omega arith))
          ]))
