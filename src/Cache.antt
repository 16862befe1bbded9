-- ===== src/Cache.antt =====
-- sys/cache.c: the block cache between KTFS and a storage device. An operation runs under the
-- cache's lock from end to end, so it is a function on the cache. The storage device is reached
-- through its interface (sys/devimpl.h), which is a parameter here.
pub mod Nodes
pub mod Laws
pub mod Room
pub mod Get
pub mod Busy
pub mod Flush
pub mod Release
pub mod Tests
use model_lib.Base.{
  ℕ, zero, suc, ◌+◌, ◌-◌, ◌*◌, ◌/◌, ◌%◌, ◌^◌, ◌≤◌, ◌<◌, min, ◌≡◌, refl, sym, ap, ap₂, ◌∙◌, subst,
  fun_ext, ◌≢◌, ◌↔◌, ◌⊎◌, inl, inr, Bool, true, false, not, ◌&&◌, ◌||◌, Option, none, some, List,
  [], ◌∷◌, ◌++◌, map, arith, ltb, leb, ◌==◌, if◌then◌else◌, Bool-cases, Option-cases, ==_iff,
  ltb→lt, lt→ltb, leb→le, ltb→ge, ==→eq, ==→ne, ==_self, length, get_elem?, set, get_or, take, drop,
  replicate, length-append, length-set, get_elem?-set_self, get_elem?-set_ne, take-append-drop,
  length-take, length-drop, length-replicate, length-map, get_or-set_self, get_or-set_ne, take-nil,
  drop-nil, take-min,
}

-- CACHE_BLKSZ and CACHE_MAX_NODES.
abbrev pub cache_blksz : ℕ
cache_blksz = 512

abbrev pub cache_max_nodes : ℕ
cache_max_nodes = 64

abbrev pub u64_mod : ℕ
u64_mod = 2 ^ 64

-- The `fetch` and `store` of a storage device: the device after the call and the result, a `long`
-- as its 64-bit pattern (-EIO is 2 ^ 64 - 4). `fetch` also says what a zeroed buffer of one block
-- holds after the call. `capacity` is in bytes.
pub record Storage : Type 1 where
  pub Disc : Type 0
  pub capacity : ℕ
  pub fetch : Disc → ℕ → Disc × ℕ × List ℕ
  pub store : Disc → ℕ → List ℕ → Disc × ℕ

-- `struct cache_node`, with the pointer that `kcalloc` gave; `pptr` of a block is its node's
-- pointer, as `cache_node_from_pblk` converts one to the other. The links are the list's order.
pub record Node : Type 0 where
  pub ptr : ℕ
  pub bytes : List ℕ
  pub blk_pos : ℕ
  pub dirty : ℕ
  pub refcnt : ℕ

pub data Status : Type 0 where
  ok einval ebusy eio enomem : Status

-- The first loop of `cache_get_block`: the first node of the block.
unfoldable pub find_blk : ℕ → List Node → Option Node
find_blk b [] = none
find_blk b (n ∷ l) = if n.blk_pos == b then some n else find_blk b l

-- Takes the node out of the doubly linked list.
unfoldable pub unlink : ℕ → List Node → List Node
unlink p [] = []
unlink p (n ∷ l) = if n.ptr == p then l else n ∷ unlink p l

-- The walk from the tail to the first node with no reference.
unfoldable pub find_victim : List Node → Option Node
find_victim [] = none
find_victim (n ∷ l) = elim (find_victim l) [
  | some v ↦ some v
  | none ↦ if n.refcnt == 0 then some n else none
]

-- The node of a pointer, changed.
unfoldable pub update : (Node → Node) → ℕ → List Node → List Node
update f p [] = []
update f p (n ∷ l) = if n.ptr == p then f n ∷ l else n ∷ update f p l

-- What `cache_release_block` does to its node.
unfoldable pub release_node : ℕ → Node → Node
release_node dirty n = record n {
  dirty = if dirty == 0 then n.dirty else 1;
  refcnt = if ltb 0 n.refcnt then n.refcnt - 1 else n.refcnt;
}

module _ (sto : Storage) where
  open sto use {Disc, fetch, store}

  -- `struct cache`, head first, with the device as it stands.
  pub record Cache : Type 0 where
    pub disc : Disc
    pub nodes : List Node
    pub count : ℕ

  -- What `create_cache` makes in the memory that `kcalloc` returns, if it returns some.
  unfoldable pub new_cache : Option ℕ → Disc → Option Cache × Status
  new_cache none d = (none, enomem)
  new_cache (some p) d = (some (record { disc = d; nodes = []; count = 0 }), ok)

  -- `create_cache`; `null_arg` says that `disk` or `cptr` is NULL.
  unfoldable pub create_cache : Bool → Option ℕ → Disc → Option Cache × Status
  unfolding new_cache
  create_cache null_arg fresh d = if null_arg then (none, einval) else new_cache fresh d

  -- Unlink and free the victim.
  unfoldable pub evict : Cache → Disc → Node → Cache
  unfolding unlink
  evict c d v = record { disc = d; nodes = unlink v.ptr c.nodes; count = c.count - 1 }

  -- The eviction of the victim, with its write-back.
  unfoldable pub evict_victim : Cache → Node → Cache × Status
  unfolding evict
  evict_victim c v =
      if v.dirty == 1
      then (let (d, result) = store c.disc (v.blk_pos * cache_blksz % u64_mod) v.bytes in
          if ltb result cache_blksz then (record c { disc = d }, eio) else (evict c d v, ok))
      else (evict c c.disc v, ok)

  unfoldable pub pick_victim : Cache → Option Node → Cache × Status
  unfolding evict_victim
  pick_victim c none = (c, ebusy)
  pick_victim c (some v) = evict_victim c v

  -- What happens before a new block is read.
  unfoldable pub make_room : Cache → Cache × Status
  unfolding find_victim pick_victim
  make_room c = if c.count == cache_max_nodes then pick_victim c (find_victim c.nodes) else (c, ok)

  abbrev pub Reply : Type 0
  Reply = Cache × Status × Option ℕ

  -- The new node, from `kcalloc` on.
  unfoldable pub read_block : Cache → ℕ → Option ℕ → Reply
  read_block c blknum none = (c, enomem, none)
  read_block c blknum (some p) =
      let (d, result, bytes) = fetch c.disc (blknum * cache_blksz % u64_mod) in
      if ltb result cache_blksz then (record c { disc = d }, eio, none) else (
        record {
          disc = d;
          nodes =
              (record { ptr = p; bytes = bytes; blk_pos = blknum; dirty = 0; refcnt = 1 })
              ∷ c.nodes;
          count = c.count + 1;
        },
        ok,
        some p,
      )

  unfoldable pub read_if_room : Cache × Status → ℕ → Option ℕ → Reply
  unfolding read_block
  read_if_room (c, ok) blknum fresh = read_block c blknum fresh
  read_if_room (c, s) blknum fresh = (c, s, none)

  -- A hit goes to the front, with one reference more; a miss reads the block.
  unfoldable pub get_found : Cache → ℕ → Option Node → Option ℕ → Reply
  unfolding unlink make_room read_if_room
  get_found c blknum (some n) fresh = (
    record c { nodes = (record n { refcnt = (n.refcnt + 1) % 2 ^ 32 }) ∷ unlink n.ptr c.nodes },
    ok,
    some n.ptr,
  )
  get_found c blknum none fresh = read_if_room (make_room c) blknum fresh

  -- `cache_get_block`; `null_arg` says that `cache` or `pptr` is NULL, `fresh` is what `kcalloc`
  -- returns if it is called.
  unfoldable pub cache_get_block : Cache → Bool → ℕ → Option ℕ → Reply
  unfolding find_blk get_found
  cache_get_block c null_arg pos fresh =
      if not (pos % cache_blksz == 0) || null_arg
      then (c, einval, none)
      else get_found c (pos / cache_blksz) (find_blk (pos / cache_blksz) c.nodes) fresh

  -- `cache_release_block`; `null_cache` says that `cache` is NULL, and a null `pblk` is 0.
  unfoldable pub cache_release_block : Cache → Bool → ℕ → ℕ → Cache
  unfolding update release_node
  cache_release_block c null_cache pblk dirty =
      if null_cache || (pblk == 0)
      then c
      else record c { nodes = update (release_node dirty) pblk c.nodes }

  abbrev pub Flushed : Type 0
  Flushed = Disc × List Node × Bool

  unfoldable pub after_node : Node → Flushed → Flushed
  after_node n (d, l, failed) = (d, n ∷ l, failed)

  -- The loop of `cache_flush`: the device, the nodes, and whether a store failed.
  unfoldable pub flush_nodes : Disc → List Node → Flushed
  unfolding after_node
  flush_nodes d [] = (d, [], false)
  flush_nodes d (n ∷ l) =
      let w = store d (n.blk_pos * cache_blksz % u64_mod) n.bytes in
      let stored = after_node (record n { dirty = 0 }) (flush_nodes w.0 l) in
      let clean = after_node n (flush_nodes d l) in
      if n.dirty == 1 then (if ltb w.1 cache_blksz then (w.0, n ∷ l, true) else stored) else clean

  unfoldable pub cache_flush : Cache → Bool → Cache × Status
  unfolding flush_nodes
  cache_flush c null_cache =
      let r = flush_nodes c.disc c.nodes in
      if null_cache
      then (c, einval)
      else (record c { disc = r.0; nodes = r.1 }, if r.2 then eio else ok)
