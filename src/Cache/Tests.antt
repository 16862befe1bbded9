-- ===== src/Cache/Tests.antt =====
-- Runs of sys/cache.c over a device in memory, and its theorems at concrete caches.
use model_lib.Base.{
  ℕ, ◌-◌, ◌*◌, ◌/◌, ◌<◌, ◌≡◌, refl, ap, ◌≢◌, ◌↔◌, inl, inr, true, false, none, some, List, [], ◌∷◌,
  arith, ltb, ◌==◌, if◌then◌else◌, lt→ltb,
}
use model_lib.Cache.{
  Storage, Node, Cache, ok, ebusy, cache_max_nodes, u64_mod, find_blk, update, cache_get_block,
  cache_release_block, cache_flush,
}
use model_lib.Cache.Nodes.{All, In}
use model_lib.Cache.Release.{Released, change_bytes, cache_release_block-Released}
use model_lib.Cache.Laws.{DeviceLaws, IsValid, max_blk}
use model_lib.Cache.Get.{Got, cache_get_block-Got}
use model_lib.Cache.Busy.{cache_get_block_ebusy_iff}
use model_lib.Cache.Flush.{FlushedCache, cache_flush-FlushedCache, cache_flush_unnoticed}

-- A device in memory, which answers -EINVAL past its capacity.
abbrev memory : Storage
memory = record {
  Disc = ℕ → List ℕ;
  capacity = 2097152;
  fetch = λ d pos. if ltb pos 2097152 then (d, 512, d (pos / 512)) else (d, u64_mod - 1, []);
  store = λ d pos bytes.
      if ltb pos 2097152
      then (λ k. if pos / 512 == k then bytes else d k, 512)
      else (d, u64_mod - 1);
}

abbrev content : (ℕ → List ℕ) → ℕ → List ℕ
content d k = d k

block_of_pos : (b : ℕ) → b * 512 / 512 ≡ b
block_of_pos b = omega arith

within : (b : ℕ) → b < max_blk memory → ltb (b * 512) 2097152 ≡ true
within b h = lt→ltb (b * 512) 2097152 (omega arith)

memory-DeviceLaws : DeviceLaws memory content
memory-DeviceLaws = record {
  fetch_count = λ d b h. rw (within b h) (omega arith);
  fetch_bytes = λ d b h e. rw (within b h) (ap d (block_of_pos b));
  fetch_content = λ d b k h. rw (within b h) refl;
  store_count = λ d b bytes h. rw (within b h) (omega arith);
  store_full = λ d b bytes k h e. rw (within b h, block_of_pos b) refl;
  store_short = λ d b bytes k h e. absurd (let z : 512 < 512 = rw (within b h) at e in omega arith);
}

-- Block 3 is held and dirty, block 1 is clean.
abbrev two : Cache memory
two = record {
  disc = λ k. k ∷ [];
  nodes =
      (record { ptr = 100; bytes = 33 ∷ []; blk_pos = 3; dirty = 1; refcnt = 1 })
      ∷ (record { ptr = 200; bytes = 1 ∷ []; blk_pos = 1; dirty = 0; refcnt = 0 })
      ∷ [];
  count = 2;
}

two-IsValid : IsValid memory content two
two-IsValid = record {
  counted = refl;
  bounded = omega arith;
  distinct = ((omega arith, omega arith, tt), (tt, tt));
  synced = ((omega arith, λ q. absurd (q refl)), ((omega arith, λ q. refl), tt));
}

-- A hit moves to the front and is held; a miss reads the device.
hit : (cache_get_block memory two false 512 none).2 ≡ some 200
unfolding cache_get_block
hit = refl

miss : (cache_get_block memory two false 1024 (some 300)).2 ≡ some 300
unfolding cache_get_block
miss = refl

unused : (n : Node) → In n two.nodes → n.ptr ≢ 300
unused n (inl e) = omega (arith, ap (λ (k : Node). k.ptr) e)
unused n (inr (inl e)) = omega (arith, ap (λ (k : Node). k.ptr) e)
unused n (inr (inr e)) = absurd e

cache_get_block-Got_example :
    Got memory content memory-DeviceLaws two
      (1024 / 512)
      (cache_get_block memory two false 1024 (some 300))
cache_get_block-Got_example =
    cache_get_block-Got memory content memory-DeviceLaws two 1024 (some 300) two-IsValid
      (omega arith) refl unused

cache_get_block_ebusy_iff_example : ((cache_get_block memory two false 512 none).1 ≡ ebusy) ↔ (
    (find_blk 1 two.nodes ≡ none)
    × (two.count ≡ cache_max_nodes)
    × All (λ n. n.refcnt ≢ 0) two.nodes)
cache_get_block_ebusy_iff_example = cache_get_block_ebusy_iff memory two 512 none refl

cache_flush-FlushedCache_example :
    let (c', s) = cache_flush memory two false in
    FlushedCache memory content memory-DeviceLaws two c' s
cache_flush-FlushedCache_example =
    cache_flush-FlushedCache memory content memory-DeviceLaws two two-IsValid

-- A device that refuses to store.
abbrev broken : Storage
broken = record memory { store = λ d pos bytes. (d, u64_mod - 4) }

abbrev dirty : Cache broken
dirty = record { disc = two.disc; nodes = two.nodes; count = 2 }

cache_flush_unnoticed_example :
    let (c', s) = cache_flush broken dirty false in
    (s ≡ ok) × (c'.disc ≡ dirty.disc) × All (λ n. n.dirty ≢ 1) c'.nodes
cache_flush_unnoticed_example = cache_flush_unnoticed broken dirty (λ d pos bytes. refl)

abbrev three : Node
three = record { ptr = 100; bytes = 33 ∷ []; blk_pos = 3; dirty = 1; refcnt = 1 }

cache_release_block-Released_example : Released memory content two three (7 ∷ []) (
    cache_release_block memory
      (record two { nodes = update (change_bytes (7 ∷ [])) 100 two.nodes })
      false
      100
      1)
cache_release_block-Released_example =
    cache_release_block-Released memory content two three (7 ∷ []) two-IsValid (inl refl)
      (omega arith)
