-- ===== src/Memory/Pages/Search.antt =====
-- The search loop of `alloc_phys_pages` finds the closest chunk.
use model_lib.Base.{
  ℕ, suc, ◌+◌, ◌%◌, ◌*◌, ◌≤◌, ◌≡◌, refl, Bool, true, false, inl, inr, ◌||◌, ◌&&◌, some, List, [],
  ◌∷◌, ltb, leb, get_elem?, Bool-cases, arith,
}
use model_lib.Memory.Pages.{Chunk, page_size, u32_mod, closest}
use model_lib.Memory.Pages.Layout.{Separate}

-- Among the chunks of the list that have `cnt` pages, none has fewer than `k`; and if there is
-- one, `k` is enough itself.
abbrev pub Closest : ℕ → ℕ → List Chunk → Type 0
Closest cnt k [] = Unit
Closest cnt k (c ∷ l) = (cnt ≤ c.pagecnt → (cnt ≤ k) × (k ≤ c.pagecnt)) × Closest cnt k l

-- What the loop has found when it stops: a position in the whole list, its page count, and that
-- it is closest among what the loop has seen.
pub record Found (cnt bc : ℕ) (all l : List Chunk) (out : ℕ × ℕ) : Type 0 where
  pub chunk : Chunk
  pub at : get_elem? all out.1 ≡ some chunk
  pub count : out.0 ≡ chunk.pagecnt
  pub improves : cnt ≤ bc → (cnt ≤ out.0) × (out.0 ≤ bc)
  pub least : Closest cnt out.0 l

-- The loop's test.
abbrev better : ℕ → ℕ → Chunk → Bool
better cnt bc c = ltb bc cnt || (leb cnt c.pagecnt && ltb c.pagecnt bc)

module _ (cnt bc : ℕ) (all : List Chunk) (c : Chunk) (l : List Chunk) {out : ℕ × ℕ} where
  Found-better :
      better cnt bc c ≡ true → Found cnt c.pagecnt all l out → Found cnt bc all (c ∷ l) out
  Found-better p f = record {
    chunk = f.chunk;
    at = f.at;
    count = f.count;
    improves = λ q. ground (arith, f.improves);
    least = (f.improves, f.least);
  }

  Found-same : better cnt bc c ≡ false → Found cnt bc all l out → Found cnt bc all (c ∷ l) out
  Found-same p f = record {
    chunk = f.chunk;
    at = f.at;
    count = f.count;
    improves = f.improves;
    least = ((λ q. ground (arith, f.improves)), f.least);
  }

module _ (cnt : ℕ) (all : List Chunk) where
  pub closest-Found :
      (bc bi i : ℕ) (l : List Chunk) (b : Chunk) (lo : ℕ)
      → Separate lo l
      → ((j : ℕ) (c : Chunk) → get_elem? l j ≡ some c → get_elem? all (i + j) ≡ some c)
      → get_elem? all bi ≡ some b
      → bc ≡ b.pagecnt
      → Found cnt bc all l (closest cnt bc bi i l)
  unfolding closest
  closest-Found bc bi i [] b lo v suffix h e = record {
    chunk = b;
    at = h;
    count = e;
    improves = λ q. omega arith;
    least = tt;
  }
  closest-Found bc bi i (c ∷ l) b lo v suffix h e = elim (Bool-cases (better cnt bc c)) [
    | inl p ↦
        rw (p, small)
          (Found-better cnt bc all c l p
            (closest-Found c.pagecnt i (i + 1) l c next v.4 shifted here refl))
    | inr p ↦
        rw p (Found-same cnt bc all c l p (closest-Found bc bi (i + 1) l b next v.4 shifted h e))
  ]
    where
      next : ℕ
      next = suc (c.addr + c.pagecnt * page_size)

      small : c.pagecnt % u32_mod ≡ c.pagecnt
      small = omega (arith, v.2)

      here : get_elem? all i ≡ some c
      here = let q : i + 0 ≡ i = omega arith in rw q at (suffix 0 c refl)

      shifted : (j : ℕ) (d : Chunk) → get_elem? l j ≡ some d → get_elem? all (i + 1 + j) ≡ some d
      shifted j d g = let q : i + suc j ≡ i + 1 + j = omega arith in rw q at (suffix (suc j) d g)
