-- ===== src/Cache/Room.antt =====
-- The eviction in `cache_get_block`: a full cache gives up its least recently used block that
-- nobody holds, after writing it back; what a reader sees does not change.
use model_lib.Base.{
  ℕ, ◌*◌, ◌%◌, ◌<◌, ◌≡◌, refl, ap, ◌∙◌, ◌≢◌, ◌⊎◌, inl, inr, Option, none, some, List, [], ◌∷◌,
  arith, ltb, ◌==◌, if◌then◌else◌, Bool-cases,
}
use model_lib.Cache.{
  Storage, Node, Cache, Status, ok, ebusy, eio, cache_blksz, cache_max_nodes, u64_mod, find_blk,
  unlink, find_victim, evict, evict_victim, pick_victim, make_room,
}
use model_lib.Cache.Nodes.{
  New, In-of_unlink, In-eq_of_ptr, In, All, All-In, All-unlink, find_blk-New, find_blk_of_In,
  Distinct-unlink, New-unlink_self, length-unlink, find_blk-unlink, In-unlink, find_victim-In,
}
use model_lib.Cache.Laws.{DeviceLaws, IsValid, Synced, view, view_of, All-Synced-content}

module _ (sto : Storage) (content : Storage.Disc sto → ℕ → List ℕ)
    (laws : DeviceLaws sto content) where
  -- What making room does to a cache: it keeps what a reader sees and every node that somebody
  -- holds, and with `ok` there is room.
  pub record MadeRoom (c : Cache sto) (c' : Cache sto) (s : Status) : Type 0 where
    pub valid : IsValid sto content c'
    pub seen : (b : ℕ) → view sto content c' b ≡ view sto content c b
    pub held : (n : Node) → In n c.nodes → n.refcnt ≢ 0 → In n c'.nodes
    pub absent : (b : ℕ) → find_blk b c.nodes ≡ none → find_blk b c'.nodes ≡ none
    pub came : (n : Node) → In n c'.nodes → In n c.nodes
    pub room : s ≡ ok → c'.count < cache_max_nodes
    pub known : (s ≡ ok) ⊎ (s ≡ ebusy) ⊎ (s ≡ eio)

  -- The nodes still agree with a device that differs only at a block which they lack.
  pub All-Synced-store :
      (v : Node) (d d' : Storage.Disc sto) (l : List Node)
      → ((b : ℕ) → content d' b ≡ (if v.blk_pos == b then v.bytes else content d b))
      → New v l
      → All (Synced sto content d) l
      → All (Synced sto content d') l
  All-Synced-store v d d' [] e new a = tt
  All-Synced-store v d d' (n ∷ l) e new a =
      ((a.0.0, λ q. ground (arith, a.0.1, e n.blk_pos)), All-Synced-store v d d' l e new.2 a.1)

  module _ (c : Cache sto) (v : Node) (h : IsValid sto content c) (i : In v c.nodes)
      (free : v.refcnt ≡ 0) where
    found : find_blk v.blk_pos c.nodes ≡ some v
    found = find_blk_of_In v c.nodes h.distinct i

    seen_after :
        (d : Storage.Disc sto)
        → ((b : ℕ) → content d b ≡ (if v.blk_pos == b then v.bytes else content c.disc b))
        → (b : ℕ) → view_of sto content d (unlink v.ptr c.nodes) b ≡ view sto content c b
    seen_after d e b = elim (Bool-cases (v.blk_pos == b)) [
      | inl p ↦
          let q : v.blk_pos ≡ b = ground arith in
          let gone : find_blk b (unlink v.ptr c.nodes) ≡ none =
            rw (← q)
              (find_blk-New v (unlink v.ptr c.nodes) (New-unlink_self v c.nodes h.distinct i)) in
          let there : find_blk b c.nodes ≡ some v = rw (← q) found in rw (gone, there, e b, p)
      | inr p ↦ rw (find_blk-unlink v c.nodes b h.distinct i (ground arith), e b, p)
    ]

    -- The victim leaves, over a device that holds the victim's bytes and is else the same.
    evict-MadeRoom :
        (d : Storage.Disc sto)
        → ((b : ℕ) → content d b ≡ (if v.blk_pos == b then v.bytes else content c.disc b))
        → MadeRoom c (evict sto c d v) ok
    unfolding evict
    evict-MadeRoom d e = record {
      valid = record {
        counted = omega (arith, h.counted, length-unlink v c.nodes i);
        bounded = omega (arith, h.bounded);
        distinct = Distinct-unlink v.ptr c.nodes h.distinct;
        synced =
            All-Synced-store v c.disc d (unlink v.ptr c.nodes) e
              (New-unlink_self v c.nodes h.distinct i)
              (All-unlink (Synced sto content c.disc) v.ptr c.nodes h.synced);
      };
      seen = seen_after d e;
      held = λ n j r.
          In-unlink v n c.nodes h.distinct i j (λ q.
            r (ap (λ (k : Node). k.refcnt) (In-eq_of_ptr n v c.nodes h.distinct j i q) ∙ free));
      absent = λ b q. find_blk-unlink v c.nodes b h.distinct i (λ p. ground (arith, found)) ∙ q;
      came = λ n j. In-of_unlink n v.ptr c.nodes j;
      room = λ e. omega (arith, h.counted, h.bounded, length-unlink v c.nodes i);
      known = inl refl;
    }

  -- The nodes stay, over a device with the same content.
  unchanged-MadeRoom :
      (c : Cache sto) (d : Storage.Disc sto) (s : Status)
      → IsValid sto content c
      → ((b : ℕ) → content d b ≡ content c.disc b)
      → (s ≡ ok → c.count < cache_max_nodes)
      → (s ≡ ok) ⊎ (s ≡ ebusy) ⊎ (s ≡ eio)
      → MadeRoom c (record c { disc = d }) s
  unchanged-MadeRoom c d s h e r k = record {
    valid = record {
      counted = h.counted;
      bounded = h.bounded;
      distinct = h.distinct;
      synced = All-Synced-content sto content c.disc d c.nodes e h.synced;
    };
    seen = λ b. rw (e b);
    held = λ n j q. j;
    absent = λ b q. q;
    came = λ n j. j;
    room = r;
    known = k;
  }

  evict_victim-MadeRoom :
      (c : Cache sto) (v : Node)
      → IsValid sto content c
      → In v c.nodes
      → v.refcnt ≡ 0
      → let (c', s) = evict_victim sto c v in MadeRoom c c' s
  unfolding evict_victim
  evict_victim-MadeRoom c v h i free =
      let (small, clean) = All-In (Synced sto content c.disc) v c.nodes h.synced i in
      let pos : v.blk_pos * cache_blksz % u64_mod ≡ v.blk_pos * cache_blksz = omega arith in
      let w = sto.store c.disc (v.blk_pos * cache_blksz) v.bytes in
      elim (Bool-cases (v.dirty == 1)) [
        | inl p ↦ elim (Bool-cases (ltb w.1 cache_blksz)) [
          | inl q ↦
              rw (p, pos, q)
                (unchanged-MadeRoom c w.0 eio h
                  (λ b. laws.store_short c.disc v.blk_pos v.bytes b small (ground arith)) (λ e. cc)
                  (inr (inr refl)))
          | inr q ↦
              rw (p, pos, q)
                (evict-MadeRoom c v h i free w.0 (λ b.
                  laws.store_full c.disc v.blk_pos v.bytes b small
                    (ground (arith, laws.store_count c.disc v.blk_pos v.bytes small))))
        ]
        | inr p ↦ rw p (evict-MadeRoom c v h i free c.disc (λ b. ground (arith, clean)))
      ]

  pick_victim-MadeRoom :
      (c : Cache sto) (o : Option Node)
      → IsValid sto content c
      → find_victim c.nodes ≡ o
      → let (c', s) = pick_victim sto c o in MadeRoom c c' s
  unfolding pick_victim
  pick_victim-MadeRoom c none h e =
      unchanged-MadeRoom c c.disc ebusy h (λ b. refl) (λ q. cc) (inr (inl refl))
  pick_victim-MadeRoom c (some v) h e =
      let (i, free) = find_victim-In c.nodes v e in evict_victim-MadeRoom c v h i free

  pub make_room-MadeRoom :
      (c : Cache sto) → IsValid sto content c → let (c', s) = make_room sto c in MadeRoom c c' s
  unfolding make_room
  make_room-MadeRoom c h = elim (Bool-cases (c.count == cache_max_nodes)) [
    | inl p ↦ rw p (pick_victim-MadeRoom c (find_victim c.nodes) h refl)
    | inr p ↦
        rw p
          (unchanged-MadeRoom c c.disc ok h (λ b. refl) (λ e. ground (arith, h.bounded)) (inl refl))
  ]
