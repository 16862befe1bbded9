-- ===== src/Cache/Get.antt =====
-- `cache_get_block`: every branch keeps the invariant, what a reader sees, and the blocks that
-- somebody holds; a success hands out the block's bytes.
use model_lib.Base.{
  ℕ, ◌+◌, ◌*◌, ◌/◌, ◌%◌, ◌^◌, ◌<◌, ◌≡◌, refl, sym, ap, ◌∙◌, ◌≢◌, inl, inr, true, false, Option,
  none, some, List, arith, ltb, ◌==◌, Bool-cases,
}
use model_lib.Cache.{
  Storage, Node, Cache, Status, ok, einval, ebusy, eio, enomem, Reply, cache_blksz, cache_max_nodes,
  u64_mod, find_blk, make_room, read_block, read_if_room, get_found, cache_get_block,
}
use model_lib.Cache.Nodes.{
  In, All, All-In, All-unlink, find_blk-In, Distinct-unlink, New-unlink_self, length-unlink,
  find_blk-unlink, In-unlink, In-eq_of_ptr, find_blk-cons, New-of_unfound,
}
use model_lib.Cache.Laws.{DeviceLaws, IsValid, Synced, view, max_blk, All-Synced-content}
use model_lib.Cache.Room.{MadeRoom, make_room-MadeRoom}

-- A node of the list with the pointer, block, bytes and dirty flag of `n`.
pub record Keeps (n : Node) (l : List Node) : Type 0 where
  pub node : Node
  pub there : In node l
  pub same_ptr : node.ptr ≡ n.ptr
  pub same_blk : node.blk_pos ≡ n.blk_pos
  pub same_bytes : node.bytes ≡ n.bytes
  pub same_dirty : node.dirty ≡ n.dirty

Keeps-of_In : (n : Node) (l : List Node) → In n l → Keeps n l
Keeps-of_In n l i = record {
  node = n;
  there = i;
  same_ptr = refl;
  same_blk = refl;
  same_bytes = refl;
  same_dirty = refl;
}

-- `kcalloc` gives no pointer that is in use.
abbrev pub Unused : Option ℕ → List Node → Type 0
Unused none l = Unit
Unused (some p) l = (n : Node) → In n l → n.ptr ≢ p

module _ (sto : Storage) (content : Storage.Disc sto → ℕ → List ℕ)
    (laws : DeviceLaws sto content) where
  -- What a request for block `b` means.
  pub record Got (c : Cache sto) (b : ℕ) (r : Reply sto) : Type 0 where
    pub valid : IsValid sto content r.0
    pub seen : (k : ℕ) → view sto content r.0 k ≡ view sto content c k
    pub held : (n : Node) → In n c.nodes → n.refcnt ≢ 0 → Keeps n r.0.nodes
    pub handed :
        r.1 ≡ ok
        → (n : Node) × (r.2 ≡ some n.ptr)
          × In n r.0.nodes
          × (n.blk_pos ≡ b)
          × (n.bytes ≡ view sto content c b)
    pub refused : r.1 ≢ ok → r.2 ≡ none

  hit-Got :
      (c : Cache sto) (b : ℕ) (n : Node) (fresh : Option ℕ)
      → IsValid sto content c
      → find_blk b c.nodes ≡ some n
      → Got c b (get_found sto c b (some n) fresh)
  unfolding get_found
  hit-Got c b n fresh h e =
      let (i, at) = find_blk-In b c.nodes n e in
      let n' : Node = record n { refcnt = (n.refcnt + 1) % 2 ^ 32 } in
      record {
        valid = record {
          counted = omega (arith, h.counted, length-unlink n c.nodes i);
          bounded = h.bounded;
          distinct =
              (New-unlink_self n c.nodes h.distinct i, Distinct-unlink n.ptr c.nodes h.distinct);
          synced = (
            All-In (Synced sto content c.disc) n c.nodes h.synced i,
            All-unlink (Synced sto content c.disc) n.ptr c.nodes h.synced,
          );
        };
        seen = λ k. elim (Bool-cases (n.blk_pos == k)) [
          | inl p ↦
              let q : b ≡ k = ground arith in
              let there : find_blk k c.nodes ≡ some n = rw (← q) e in rw (find_blk-cons, p, there)
          | inr p ↦ rw (find_blk-cons, p, find_blk-unlink n c.nodes k h.distinct i (ground arith))
        ];
        held = λ m j r. elim (Bool-cases (m.ptr == n.ptr)) [
          | inl p ↦
              let q : n ≡ m = In-eq_of_ptr n m c.nodes h.distinct i j (ground arith) in
              record {
                node = n';
                there = inl refl;
                same_ptr = ap (λ (k : Node). k.ptr) q;
                same_blk = ap (λ (k : Node). k.blk_pos) q;
                same_bytes = ap (λ (k : Node). k.bytes) q;
                same_dirty = ap (λ (k : Node). k.dirty) q;
              }
          | inr p ↦
              let k = In-unlink n m c.nodes h.distinct i j (ground arith) in
              record {
                node = m;
                there = inr k;
                same_ptr = refl;
                same_blk = refl;
                same_bytes = refl;
                same_dirty = refl;
              }
        ];
        handed = λ q. (n', refl, inl refl, at, rw e);
        refused = λ q. absurd (q refl);
      }

  read-Got :
      (c : Cache sto) (b : ℕ) (fresh : Option ℕ)
      → IsValid sto content c
      → b < max_blk sto
      → c.count < cache_max_nodes
      → find_blk b c.nodes ≡ none
      → Unused fresh c.nodes
      → Got c b (read_block sto c b fresh)
  unfolding read_block
  read-Got c b none h small room e u = record {
    valid = h;
    seen = λ k. refl;
    held = λ n i r. Keeps-of_In n c.nodes i;
    handed = λ q. absurd (cc);
    refused = λ q. refl;
  }
  read-Got c b (some p) h small room e u =
      let pos : b * cache_blksz % u64_mod ≡ b * cache_blksz = omega arith in
      let f = sto.fetch c.disc (b * cache_blksz) in
      let same : (k : ℕ) → content f.0 k ≡ content c.disc k =
        λ k. laws.fetch_content c.disc b k small in
      let kept : All (Synced sto content f.0) c.nodes =
        All-Synced-content sto content c.disc f.0 c.nodes same h.synced in
      let n : Node = record { ptr = p; bytes = f.2; blk_pos = b; dirty = 0; refcnt = 1 } in
      elim (Bool-cases (ltb f.1 cache_blksz)) [
        | inl q ↦
            rw (pos, q)
              (record {
                valid = record {
                  counted = h.counted;
                  bounded = h.bounded;
                  distinct = h.distinct;
                  synced = kept;
                };
                seen = λ k. rw (same k);
                held = λ m i r. Keeps-of_In m c.nodes i;
                handed = λ q. absurd (cc);
                refused = λ q. refl;
              })
        | inr q ↦
            let full : f.2 ≡ content c.disc b =
              laws.fetch_bytes c.disc b small (ground (arith, laws.fetch_count c.disc b small)) in
            rw (pos, q)
              (record {
                valid = record {
                  counted = omega (arith, h.counted);
                  bounded = omega (arith, room);
                  distinct = (New-of_unfound n c.nodes e (λ m i. u m i), h.distinct);
                  synced = ((small, λ z. full ∙ sym (same b)), kept);
                };
                seen = λ k. elim (Bool-cases (b == k)) [
                  | inl z ↦
                      let y : b ≡ k = ground arith in
                      let gone : find_blk k c.nodes ≡ none = rw (← y) e in
                      rw (find_blk-cons, z, gone) (rw (← y) full)
                  | inr z ↦ rw (find_blk-cons, z, same k)
                ];
                held = λ m i r. record {
                  node = m;
                  there = inr i;
                  same_ptr = refl;
                  same_blk = refl;
                  same_bytes = refl;
                  same_dirty = refl;
                };
                handed = λ z. (n, refl, inl refl, refl, rw e full);
                refused = λ z. absurd (z refl);
              })
      ]

  room_refused :
      (c c' : Cache sto) (s : Status) (b : ℕ)
      → MadeRoom sto content laws c c' s
      → s ≢ ok
      → Got c b (c', s, none)
  room_refused c c' s b m ne = record {
    valid = m.valid;
    seen = m.seen;
    held = λ n i r. Keeps-of_In n c'.nodes (m.held n i r);
    handed = λ q. absurd (ne q);
    refused = λ q. refl;
  }

  room-Got :
      (c c' : Cache sto) (s : Status) (b : ℕ) (fresh : Option ℕ)
      → MadeRoom sto content laws c c' s
      → b < max_blk sto
      → find_blk b c.nodes ≡ none
      → Unused fresh c.nodes
      → Got c b (read_if_room sto (c', s) b fresh)
  unfolding read_if_room
  room-Got c c' ok b fresh m small e u =
      let g : Got c' b (read_block sto c' b fresh) =
        read-Got c' b fresh m.valid small (m.room refl) (m.absent b e) (fewer fresh u) in
      (record {
        valid = g.valid;
        seen = λ k. g.seen k ∙ m.seen k;
        held = λ n i r. g.held n (m.held n i r) r;
        handed = λ q. let (n, a, i, z, y) = g.handed q in (n, a, i, z, y ∙ m.seen b);
        refused = g.refused;
      })
    where
      fewer : (o : Option ℕ) → Unused o c.nodes → Unused o c'.nodes
      fewer none w = tt
      fewer (some p) w = λ n i. w n (m.came n i)
  room-Got c c' ebusy b fresh m small e u = room_refused c c' ebusy b m (λ q. cc)
  room-Got c c' eio b fresh m small e u = room_refused c c' eio b m (λ q. cc)
  room-Got c c' einval b fresh m small e u = room_refused c c' einval b m (λ q. cc)
  room-Got c c' enomem b fresh m small e u = room_refused c c' enomem b m (λ q. cc)

  found-Got :
      (c : Cache sto) (b : ℕ) (o fresh : Option _)
      → IsValid sto content c
      → b < max_blk sto
      → find_blk b c.nodes ≡ o
      → Unused fresh c.nodes
      → Got c b (get_found sto c b o fresh)
  found-Got c b (some n) fresh h small e u = hit-Got c b n fresh h e
  found-Got c b none fresh h small e u =
      let (c', s) = make_room sto c in
      unfold get_found in
      room-Got c c' s b fresh (make_room-MadeRoom sto content laws c h) small e u

  -- For an aligned position and whatever happens (a hit, a miss, an eviction with or without a
  -- write-back, a failure): the invariant is kept; every block reads as before, and a block that
  -- somebody holds stays in the cache at its address, with its bytes; with `ok` the caller gets a
  -- node of the cache for the block that was asked for, holding the bytes that a reader sees; and
  -- otherwise it gets no pointer. The block is one of the device, which returns no error code within
  -- its capacity, and `kcalloc` returns no pointer in use.
  pub cache_get_block-Got :
      (c : Cache sto) (pos : ℕ) (fresh : Option ℕ)
      → IsValid sto content c
      → pos / cache_blksz < max_blk sto
      → pos % cache_blksz ≡ 0
      → Unused fresh c.nodes
      → Got c (pos / cache_blksz) (cache_get_block sto c false pos fresh)
  unfolding cache_get_block
  cache_get_block-Got c pos fresh h small e u =
      let q : (pos % cache_blksz == 0) ≡ true = ground arith in
      rw q (
        found-Got c (pos / cache_blksz) (find_blk (pos / cache_blksz) c.nodes) fresh h small refl u)
