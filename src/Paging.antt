-- ===== src/Paging.antt =====
-- sys/memory.c: page tables of three levels, mapping and unmapping of pages, the checks of pointers
-- from user mode, and page faults. A table or another page is known by its page number; its entries as
-- a table are kept apart from its bytes. The pages come from the interface `PageSource`, which
-- Memory/Pages implements. `none` is a panic.
pub mod Ranges
pub mod Check
pub mod Tree
pub mod Enter
pub mod Walk
pub mod Mapped
pub mod Pointers
pub mod UserText
pub mod Fault
pub mod Spaces
pub mod Source
pub mod Tests
use model_lib.Base.{
  ℕ, zero, suc, ◌+◌, ◌-◌, ◌*◌, ◌/◌, ◌%◌, ◌^◌, ◌≤◌, ◌<◌, min, ◌≡◌, refl, sym, ap, ap₂, ◌∙◌, subst,
  fun_ext, ◌≢◌, ◌↔◌, ◌⊎◌, inl, inr, Bool, true, false, not, ◌&&◌, ◌||◌, Option, none, some, List,
  [], ◌∷◌, ◌++◌, map, arith, ltb, leb, ◌==◌, if◌then◌else◌, Bool-cases, Option-cases, ==_iff,
  ltb→lt, lt→ltb, leb→le, ltb→ge, ==→eq, ==→ne, ==_self, length, get_elem?, set, get_or, take, drop,
  replicate, length-append, length-set, get_elem?-set_self, get_elem?-set_ne, take-append-drop,
  length-take, length-drop, length-replicate, length-map, get_or-set_self, get_or-set_ne, take-nil,
  drop-nil, take-min,
}

-- The flags of an entry, bit by bit from V up.
pub record Flags : Type 0 where
  pub v : Bool
  pub r : Bool
  pub w : Bool
  pub x : Bool
  pub u : Bool
  pub g : Bool
  pub a : Bool
  pub d : Bool

-- `struct pte`; its other fields are 0.
pub record Pte : Type 0 where
  pub flags : Flags
  pub ppn : ℕ

abbrev pub no_flags : Flags
no_flags = record {
  v = false;
  r = false;
  w = false;
  x = false;
  u = false;
  g = false;
  a = false;
  d = false;
}

-- `null_pte`, `leaf_pte` and `ptab_pte`, of an address and of a table's page number.
abbrev pub null_pte : Pte
null_pte = record { flags = no_flags; ppn = 0 }

unfoldable pub leaf_pte : ℕ → Flags → Pte
leaf_pte pp f = record { flags = record f { v = true; a = true; d = true }; ppn = pp / 4096 }

unfoldable pub ptab_pte : ℕ → Bool → Pte
ptab_pte n global = record { flags = record no_flags { v = true; g = global }; ppn = n }

-- `(flags & rwxu_flags) == rwxu_flags`.
abbrev pub implies : Bool → Bool → Bool
implies false b = true
implies true b = b

unfoldable pub superset : Flags → Flags → Bool
superset f want =
    implies want.v f.v
    && (implies want.r f.r
        && (implies want.w f.w
            && (implies want.x f.x
                && (implies want.u f.u
                    && (implies want.g f.g && (implies want.a f.a && implies want.d f.d))))))

-- VPN2, VPN1 and VPN0.
abbrev pub vpn2 : ℕ → ℕ
vpn2 vma = vma / 4096 / 262144 % 512

abbrev pub vpn1 : ℕ → ℕ
vpn1 vma = vma / 4096 / 512 % 512

abbrev pub vpn0 : ℕ → ℕ
vpn0 vma = vma / 4096 % 512

abbrev pub umem_start_vma : ℕ
umem_start_vma = 3221225472

abbrev pub umem_end_vma : ℕ
umem_end_vma = 4294967296

abbrev pub u64_mod : ℕ
u64_mod = 2 ^ 64

-- What the code asks of the allocator of pages: a block of pages by its address, where there is one,
-- and the return of a block.
pub record PageSource : Type 1 where
  pub Pool : Type 0
  pub alloc_pages : ℕ → Pool → Option (ℕ × Pool)
  pub free_pages : ℕ → ℕ → Pool → Pool

-- The pages of memory, the root of the active space, and the pool of free pages.
pub record Space (Pool : Type 0) : Type 0 where
  pub root : ℕ
  pub tables : ℕ → ℕ → Pte
  pub bytes : ℕ → ℕ → ℕ
  pub pool : Pool

unfoldable pub put_pte : (ℕ → ℕ → Pte) → ℕ → ℕ → Pte → ℕ → ℕ → Pte
put_pte tables t i e n j = if (n == t) && (j == i) then e else tables n j

-- Pages as alloc_phys_pages gives them, full of zeros.
unfoldable pub clear_pages {ℓ} : {A : Type ℓ} → A → (ℕ → ℕ → A) → ℕ → ℕ → ℕ → ℕ → A
clear_pages z f n cnt m i = if leb n m && ltb m (n + cnt) then z else f m i

module _ (src : PageSource) where
  abbrev pub Mem : Type 0
  Mem = Space src.Pool

  abbrev pub write_pte : Mem → ℕ → ℕ → Pte → Mem
  write_pte s t i e = record s { tables = put_pte s.tables t i e }

  abbrev pub zero_pages : Mem → ℕ → ℕ → Mem
  zero_pages s n cnt = record s {
    tables = clear_pages null_pte s.tables n cnt;
    bytes = clear_pages 0 s.bytes n cnt;
  }

  abbrev pub after_alloc : Mem → ℕ → Option (ℕ × src.Pool) → Option (ℕ × Mem)
  unfolding clear_pages
  after_alloc s cnt none = none
  after_alloc s cnt (some (p, pool)) =
      some (p, record (zero_pages s (p / 4096) cnt) { pool = pool })

  unfoldable pub alloc_phys_pages : Mem → ℕ → Option (ℕ × Mem)
  unfolding after_alloc
  alloc_phys_pages s cnt = after_alloc s cnt (src.alloc_pages cnt s.pool)

  -- `free_phys_page`. The header of a free chunk, which the code writes to the start of the page, is kept in
  -- the pool: the entries and the bytes of a free page say nothing.
  unfoldable pub free_phys_page : Mem → ℕ → Mem
  free_phys_page s n = record s { pool = src.free_pages (n * 4096) 1 s.pool }

  -- The table below an entry, which is a new one where the entry is not valid.
  abbrev pub enter : ℕ → ℕ → Bool → Option (ℕ × Mem) → Option (ℕ × Mem)
  unfolding put_pte ptab_pte
  enter t i global none = none
  enter t i global (some (p, s)) = some (p / 4096, write_pte s t i (ptab_pte (p / 4096) global))

  unfoldable pub child : Mem → ℕ → ℕ → Bool → Option (ℕ × Mem)
  unfolding alloc_phys_pages enter
  child s t i global =
      if (s.tables t i).flags.v
      then some ((s.tables t i).ppn, s)
      else enter t i global (alloc_phys_pages s 1)

  abbrev pub at_leaf : ℕ → Option (ℕ × Mem) → Option ((ℕ × ℕ) × Mem)
  at_leaf vma none = none
  at_leaf vma (some (t, s)) = some ((t, vpn0 vma), s)

  abbrev pub below : ℕ → Bool → Option (ℕ × Mem) → Option ((ℕ × ℕ) × Mem)
  unfolding child
  below vma global none = none
  below vma global (some (t, s)) = at_leaf vma (child s t (vpn1 vma) global)

  -- `getLeaf`: the table and the index of the entry of an address.
  unfoldable pub get_leaf : Mem → ℕ → Bool → Option ((ℕ × ℕ) × Mem)
  unfolding child below
  get_leaf s vma global = below vma global (child s s.root (vpn2 vma) global)

  -- The entry that the hardware and the checks find for an address: `none` where a table is missing.
  unfoldable pub walk : Mem → ℕ → Option Pte
  walk s vma =
      let e2 = s.tables s.root (vpn2 vma) in
      let e1 = s.tables e2.ppn (vpn1 vma) in
      if e2.flags.v then (if e1.flags.v then some (s.tables e1.ppn (vpn0 vma)) else none) else none
