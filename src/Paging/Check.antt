-- ===== src/Paging/Check.antt =====
-- validate_vptr and validate_vstr of sys/memory.c.
use model_lib.Base.{
  ℕ, zero, suc, ◌+◌, ◌-◌, ◌%◌, Bool, false, not, ◌&&◌, ◌||◌, Option, none, some, ltb, leb, ◌==◌,
  if◌then◌else◌,
}
use model_lib.Paging.{
  Flags, Pte, superset, umem_start_vma, umem_end_vma, u64_mod, PageSource, Mem, walk,
}
use model_lib.Paging.Ranges.{wellformed}

-- 0 or -EINVAL.
pub data Verdict : Type 0 where
  valid einval : Verdict

-- How the check of a string ends: with an answer, or with a page fault of the kernel that reads it, which
-- is a panic. `unfinished` says that the rounds ran out.
pub data TextCheck : Type 0 where
  answers : Verdict → TextCheck
  kernel_fault unfinished : TextCheck

abbrev pub allows : Flags → Option Pte → Bool
unfolding superset
allows want none = false
allows want (some e) = superset e.flags want

module _ (src : PageSource) where
  unfoldable pub byte_allowed : Mem src → Flags → ℕ → Bool
  unfolding walk allows
  byte_allowed s want vma = allows want (walk src s vma)

  -- The loop of `validate_vptr`, over the bytes left.
  unfoldable pub check_bytes : Mem src → Flags → ℕ → ℕ → Verdict
  unfolding byte_allowed
  check_bytes s want vma zero = valid
  check_bytes s want vma (suc left) =
      let rest = check_bytes s want (vma + 1) left in
      if byte_allowed s want vma then rest else einval

  -- `validate_vptr`. Its counter is an int: the length of a range that is checked fits one.
  unfoldable pub validate_vptr : Mem src → ℕ → ℕ → Flags → Verdict
  unfolding wellformed check_bytes
  validate_vptr s vp len want =
      if (vp == 0) || (not (wellformed vp) || ltb ((vp + len) % u64_mod) vp)
      then einval
      else check_bytes s want vp len

  -- The byte that the kernel reads at a user address: `none` is a page fault, where the entry is not
  -- valid or not readable.
  unfoldable pub load : Mem src → ℕ → Option ℕ
  unfolding walk
  load s vma = elim (walk src s vma) [
    | none ↦ none
    | some e ↦ if e.flags.v && e.flags.r then some (s.bytes e.ppn (vma % 4096)) else none
  ]

  -- What follows the read of a char of the string.
  abbrev pub after_char : Option ℕ → TextCheck → TextCheck
  after_char none rest = kernel_fault
  after_char (some c) rest = if c == 0 then answers valid else rest

  -- The loop of `validate_vstr`, over the rounds left.
  unfoldable pub check_string : Mem src → Flags → ℕ → ℕ → TextCheck
  unfolding byte_allowed load
  check_string s want zero vma = unfinished
  check_string s want (suc fuel) vma =
      let rest = check_string s want fuel (vma + 1) in
      if ltb vma umem_start_vma || leb umem_end_vma vma
      then answers einval
      else if not (byte_allowed s want vma)
      then answers einval
      else after_char (load s vma) rest

  -- `validate_vstr`, with a round for each byte of the user range and one more.
  unfoldable pub validate_vstr : Mem src → ℕ → Flags → TextCheck
  unfolding wellformed check_string
  validate_vstr s vs want =
      if (vs == 0) || not (wellformed vs)
      then answers einval
      else check_string s want (umem_end_vma - umem_start_vma + 1) vs
