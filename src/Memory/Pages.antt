-- ===== src/Memory/Pages.antt =====
-- sys/memory.c: the free chunk list and `alloc_phys_pages`, `free_phys_pages` and
-- `free_phys_page_count`. A chunk's header stands in the free page itself; the model keeps the
-- headers as a list in list order, apart from the bytes of RAM.
pub mod Layout
pub mod Search
pub mod Alloc
pub mod Free
pub mod Canonical
pub mod Tests
use model_lib.Base.{
  ℕ, zero, suc, ◌+◌, ◌-◌, ◌*◌, ◌%◌, ◌^◌, true, false, ◌||◌, ◌&&◌, Option, none, some, List, [], ◌∷◌,
  ltb, leb, ◌==◌, if◌then◌else◌, get_elem?, set,
}

abbrev pub page_size : ℕ
page_size = 4096

abbrev pub u64_mod : ℕ
u64_mod = 2 ^ 64

abbrev pub u32_mod : ℕ
u32_mod = 2 ^ 32

-- `struct page_chunk`, with the address at which it stands.
pub record Chunk : Type 0 where
  pub addr : ℕ
  pub pagecnt : ℕ

-- `free_chunk_list`, and the bytes of RAM.
pub record Phys : Type 0 where
  pub free_chunk_list : List Chunk
  pub ram : ℕ → ℕ

-- What `alloc_phys_pages` does: a null pointer, a panic, or a block.
pub data Outcome : Type 0 where
  null : Outcome
  panic : Outcome
  block : ℕ → Outcome

-- The search for the closest chunk: `best_cnt` and the position of `best_curr`, over the list
-- that is left at position `i`.
unfoldable pub closest : ℕ → ℕ → ℕ → ℕ → List Chunk → ℕ × ℕ
closest cnt best_cnt best i [] = (best_cnt, best)
closest cnt best_cnt best i (c ∷ l) =
    let better = ltb best_cnt cnt || (leb cnt c.pagecnt && ltb c.pagecnt best_cnt) in
    closest cnt (if better then c.pagecnt % u32_mod else best_cnt) (if better then i else best)
      (i + 1) l

-- `best_prev->next = best_curr->next`, or the same at the list's head.
unfoldable pub unlink : List Chunk → ℕ → List Chunk
unlink [] i = []
unlink (c ∷ l) zero = l
unlink (c ∷ l) (suc i) = c ∷ unlink l i

-- `memset(p, 0, n)`.
unfoldable pub clear : (ℕ → ℕ) → ℕ → ℕ → ℕ → ℕ
clear ram p n a = if leb p a && ltb a (p + n) then 0 else ram a

-- What follows the search, at the chosen chunk.
unfoldable pub take_from : ℕ → ℕ → ℕ → Chunk → Phys → Outcome × Phys
unfolding unlink clear
take_from cnt best_cnt best c s =
    if c.pagecnt == cnt
    then (
      block c.addr,
      record {
        free_chunk_list = unlink s.free_chunk_list best;
        ram = clear s.ram c.addr (cnt * page_size);
      },
    )
    else if ltb cnt c.pagecnt
    then (let p = (c.addr + ((best_cnt + u32_mod - cnt) % u32_mod) * page_size) % u64_mod in
        (
          block p,
          record {
            free_chunk_list =
                set s.free_chunk_list best (record { addr = c.addr; pagecnt = c.pagecnt - cnt });
            ram = clear s.ram p (cnt * page_size);
          },
        ))
    else (panic, s)

-- The search's result, with the chunk that stands at its position.
unfoldable pub take_best : ℕ → ℕ × ℕ → Option Chunk → Phys → Outcome × Phys
unfolding take_from
take_best cnt out none s = (panic, s)
take_best cnt out (some c) s = take_from cnt out.0 out.1 c s

unfoldable pub alloc_at : ℕ → List Chunk → Phys → Outcome × Phys
unfolding closest take_best
alloc_at cnt [] s = (panic, s)
alloc_at cnt (c ∷ l) s =
    let out = closest cnt (c.pagecnt % u32_mod) 0 0 (c ∷ l) in
    take_best cnt out (get_elem? (c ∷ l) out.1) s

unfoldable pub alloc_phys_pages : ℕ → Phys → Outcome × Phys
unfolding alloc_at
alloc_phys_pages cnt s = if cnt == 0 then (null, s) else alloc_at cnt s.free_chunk_list s

-- The walk of `free_phys_pages` from the second chunk on.
unfoldable pub insert_after : Chunk → List Chunk → List Chunk
insert_after t [] = t ∷ []
insert_after t (c ∷ l) = if ltb c.addr t.addr then c ∷ insert_after t l else t ∷ c ∷ l

unfoldable pub insert_chunk : Chunk → List Chunk → List Chunk
unfolding insert_after
insert_chunk t [] = t ∷ []
insert_chunk t (c ∷ l) = if ltb t.addr c.addr then t ∷ c ∷ l else c ∷ insert_after t l

-- `curr_end`.
abbrev pub chunk_end : Chunk → ℕ
chunk_end c = (c.addr + c.pagecnt * page_size) % u64_mod

-- The second loop, at `curr` with the chunks behind it.
unfoldable pub coalesce_at : Chunk → List Chunk → List Chunk
coalesce_at c [] = c ∷ []
coalesce_at c (d ∷ l) =
    let merged =
      coalesce_at (record { addr = c.addr; pagecnt = (c.pagecnt + d.pagecnt) % u64_mod }) l in
    let kept = c ∷ coalesce_at d l in if chunk_end c == d.addr then merged else kept

unfoldable pub coalesce : List Chunk → List Chunk
unfolding coalesce_at
coalesce [] = []
coalesce (c ∷ l) = coalesce_at c l

unfoldable pub free_phys_pages : ℕ → ℕ → Phys → Phys
unfolding insert_chunk coalesce
free_phys_pages pp cnt s = if (pp == 0) || (cnt == 0) then s else record s {
  free_chunk_list = coalesce (insert_chunk (record { addr = pp; pagecnt = cnt }) s.free_chunk_list);
}

unfoldable pub free_phys_page_count : List Chunk → ℕ
free_phys_page_count [] = 0
free_phys_page_count (c ∷ l) = (c.pagecnt + free_phys_page_count l) % u64_mod
