-- ===== src/Stack.antt =====
-- build_stack of sys/process.c: the arguments of a new program on the page of its stack. A string is the
-- list of its bytes before the NUL; the words of the argument vector are kept apart from the bytes of
-- the strings, both by their offset in the page.
pub mod Layout
pub mod Tests
use model_lib.Base.{
  ℕ, zero, suc, ◌+◌, ◌-◌, ◌*◌, ◌/◌, ◌%◌, ◌^◌, ◌≤◌, ◌<◌, min, ◌≡◌, refl, sym, ap, ap₂, ◌∙◌, subst,
  fun_ext, ◌≢◌, ◌↔◌, ◌⊎◌, inl, inr, Bool, true, false, not, ◌&&◌, ◌||◌, Option, none, some, List,
  [], ◌∷◌, ◌++◌, map, arith, ltb, leb, ◌==◌, if◌then◌else◌, Bool-cases, Option-cases, ==_iff,
  ltb→lt, lt→ltb, leb→le, ltb→ge, ==→eq, ==→ne, ==_self, length, get_elem?, set, get_or, take, drop,
  replicate, length-append, length-set, get_elem?-set_self, get_elem?-set_ne, take-append-drop,
  length-take, length-drop, length-replicate, length-map, get_or-set_self, get_or-set_ne, take-nil,
  drop-nil, take-min,
}
use model_lib.Paging.{umem_end_vma}

pub record Page : Type 0 where
  pub words : ℕ → ℕ
  pub bytes : ℕ → ℕ

-- The loop that adds up the sizes: `none` is -ENOMEM.
unfoldable pub stack_size : List (List ℕ) → ℕ → Option ℕ
stack_size [] stksz = some stksz
stack_size (a ∷ args) stksz =
    let rest = stack_size args (stksz + (length a + 1)) in
    if ltb (4096 - stksz) (length a + 1) then none else rest

unfoldable pub put_word : Page → ℕ → ℕ → Page
put_word s at n = record s { words = λ o. if o == at then n else s.words o }

-- `memcpy(p, argv[i], argsz)`, the NUL included.
unfoldable pub put_text : Page → ℕ → List ℕ → Page
put_text s p a = record s {
  bytes = λ o. if leb p o && ltb o (p + (length a + 1)) then get_or a (o - p) 0 else s.bytes o;
}

-- The loop that lays out the strings from `p` on, and the NULL behind the vector, which is at `newargv`.
unfoldable pub copy_args : List (List ℕ) → ℕ → ℕ → ℕ → Page → Page
unfolding put_word put_text
copy_args [] i newargv p s = put_word s (newargv + 8 * i) 0
copy_args (a ∷ args) i newargv p s =
    copy_args args (i + 1) newargv (p + (length a + 1))
      (put_text (put_word s (newargv + 8 * i) (umem_end_vma - 4096 + p)) p a)

abbrev pub laid_out : List (List ℕ) → Page → Option ℕ → Option (Page × ℕ)
laid_out args s none = none
laid_out args s (some n) =
    let stksz = (n + 15) / 16 * 16 in
    let newargv = 4096 - stksz in
    some (copy_args args 0 newargv (newargv + 8 * (length args + 1)) s, stksz)

-- `build_stack`: the page and the size of the stack.
unfoldable pub build_stack : List (List ℕ) → Page → Option (Page × ℕ)
unfolding copy_args stack_size
build_stack args s =
    if ltb 511 (length args)
    then none
    else laid_out args s (stack_size args (8 * (length args + 1)))
