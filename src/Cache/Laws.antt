-- ===== src/Cache/Laws.antt =====
-- What sys/cache.c relies on of a storage device, the invariant of a cache, and its abstract
-- view: the blocks that a reader sees.
use model_lib.Base.{
  ℕ, ◌*◌, ◌/◌, ◌^◌, ◌≤◌, ◌<◌, min, ◌≡◌, sym, ◌∙◌, ◌≢◌, Option, none, some, List, [], ◌∷◌, ◌==◌,
  if◌then◌else◌, length,
}
use model_lib.Cache.{Storage, Node, Cache, cache_blksz, cache_max_nodes, find_blk}
use model_lib.Cache.Nodes.{Distinct, All}

-- The blocks of a device, whose positions are 64-bit numbers.
abbrev pub max_blk : Storage → ℕ
max_blk sto = min (sto.capacity / cache_blksz) (2 ^ 55)

-- A storage device of 512-byte blocks: `content` is what its blocks hold. `fetch` reads a block
-- and `store` replaces one, if they return 512; a short return changes nothing. No call within the
-- capacity returns an error code; one past it may. (With an error code the cache does not notice the
-- failure, since its test compares the result as unsigned.)
pub record DeviceLaws (sto : Storage) (content : Storage.Disc sto → ℕ → List ℕ) : Type 0 where
  pub fetch_count :
      (d : sto.Disc) (b : ℕ) → b < max_blk sto → (sto.fetch d (b * cache_blksz)).1 ≤ cache_blksz
  pub fetch_bytes :
      (d : sto.Disc) (b : ℕ)
      → b < max_blk sto
      → (sto.fetch d (b * cache_blksz)).1 ≡ cache_blksz
      → (sto.fetch d (b * cache_blksz)).2 ≡ content d b
  pub fetch_content :
      (d : sto.Disc) (b k : ℕ)
      → b < max_blk sto
      → content (sto.fetch d (b * cache_blksz)).0 k ≡ content d k
  pub store_count :
      (d : sto.Disc) (b : ℕ) (bytes : List ℕ)
      → b < max_blk sto
      → (sto.store d (b * cache_blksz) bytes).1 ≤ cache_blksz
  pub store_full :
      (d : sto.Disc) (b : ℕ) (bytes : List ℕ) (k : ℕ)
      → b < max_blk sto
      → (sto.store d (b * cache_blksz) bytes).1 ≡ cache_blksz
      → content (sto.store d (b * cache_blksz) bytes).0 k ≡ (if b == k then bytes else content d k)
  pub store_short :
      (d : sto.Disc) (b : ℕ) (bytes : List ℕ) (k : ℕ)
      → b < max_blk sto
      → (sto.store d (b * cache_blksz) bytes).1 < cache_blksz
      → content (sto.store d (b * cache_blksz) bytes).0 k ≡ content d k

-- The bytes of the node, if there is one.
abbrev pub bytes_of : Option Node → List ℕ → List ℕ
bytes_of none other = other
bytes_of (some n) other = n.bytes

module _ (sto : Storage) (content : Storage.Disc sto → ℕ → List ℕ) where
  -- A node is in range, and agrees with the device unless it is dirty.
  abbrev pub Synced : Storage.Disc sto → Node → Type 0
  Synced d n = (n.blk_pos < max_blk sto) × (n.dirty ≢ 1 → n.bytes ≡ content d n.blk_pos)

  pub record IsValid (c : Cache sto) : Type 0 where
    pub counted : c.count ≡ length c.nodes
    pub bounded : c.count ≤ cache_max_nodes
    pub distinct : Distinct c.nodes
    pub synced : All (Synced c.disc) c.nodes

  abbrev pub view_of : Storage.Disc sto → List Node → ℕ → List ℕ
  view_of d l b = bytes_of (find_blk b l) (content d b)

  -- What a reader of block `b` sees: the cached bytes, or else the device's.
  abbrev pub view : Cache sto → ℕ → List ℕ
  view c = view_of c.disc c.nodes

  pub All-Synced-content :
      (d d' : Storage.Disc sto) (l : List Node)
      → ((b : ℕ) → content d' b ≡ content d b)
      → All (Synced d) l
      → All (Synced d') l
  All-Synced-content d d' [] e a = tt
  All-Synced-content d d' (n ∷ l) e a =
      ((a.0.0, λ q. a.0.1 q ∙ sym (e n.blk_pos)), All-Synced-content d d' l e a.1)
