-- ===== src/Cache/Busy.antt =====
-- `cache_get_block`: when it answers -EBUSY or -EINVAL.
use model_lib.Base.{
  ℕ, ◌/◌, ◌%◌, ◌≡◌, refl, ◌≢◌, ◌↔◌, ◌⊎◌, inl, inr, Bool, true, false, Option, none, some, arith,
  ◌==◌, Bool-cases, Option-cases,
}
use model_lib.Cache.{
  Storage, Node, Cache, Status, ok, einval, ebusy, eio, enomem, cache_blksz, cache_max_nodes,
  find_blk, find_victim, make_room, read_block, read_if_room, get_found, cache_get_block,
  evict_victim, pick_victim,
}
use model_lib.Cache.Nodes.{All, find_victim-eq-none_iff}

module _ (sto : Storage) where
  read_block-ne-ebusy :
      (c : Cache sto) (b : ℕ) (fresh : Option ℕ) → (read_block sto c b fresh).1 ≢ ebusy
  unfolding read_block
  read_block-ne-ebusy c b none = cc
  read_block-ne-ebusy c b (some p) = ground arith

  -- Which results of the eviction make the call busy.
  read_if_room_ebusy :
      (r : Cache sto × Status) (b : ℕ) (fresh : Option ℕ)
      → (read_if_room sto r b fresh).1 ≡ ebusy
      → r.1 ≡ ebusy
  unfolding read_if_room
  read_if_room_ebusy (c, ok) b fresh h = absurd (read_block-ne-ebusy c b fresh h)
  read_if_room_ebusy (c, ebusy) b fresh h = h
  read_if_room_ebusy (c, eio) b fresh h = h
  read_if_room_ebusy (c, einval) b fresh h = h
  read_if_room_ebusy (c, enomem) b fresh h = h

  make_room_ebusy : (c : Cache sto) (o : Option Node) → (pick_victim sto c o).1 ≡ ebusy → o ≡ none
  unfolding pick_victim evict_victim
  make_room_ebusy c none h = refl
  make_room_ebusy c (some v) h = absurd (ground arith)

  miss_ebusy :
      (c : Cache sto)
      → (make_room sto c).1 ≡ ebusy
      → (c.count ≡ cache_max_nodes) × All (λ n. n.refcnt ≢ 0) c.nodes
  unfolding make_room
  miss_ebusy c h = elim (Bool-cases (c.count == cache_max_nodes)) [
    | inl p ↦ (
      ground arith,
      (find_victim-eq-none_iff c.nodes).0 (make_room_ebusy c (find_victim c.nodes) (rw p at h)),
    )
    | inr p ↦ absurd (let g : ok ≡ ebusy = rw p at h in cc)
  ]

  busy :
      (c : Cache sto) (b : ℕ) (fresh : Option ℕ)
      → ((get_found sto c b (find_blk b c.nodes) fresh).1 ≡ ebusy) ↔ (
          (find_blk b c.nodes ≡ none)
          × (c.count ≡ cache_max_nodes)
          × All (λ n. n.refcnt ≢ 0) c.nodes)
  unfolding get_found
  busy c b fresh = (
    (λ h. elim (Option-cases (find_blk b c.nodes)) [
      | inl f ↦
          let g : (read_if_room sto (make_room sto c) b fresh).1 ≡ ebusy = rw (f, get_found) at h in
          let (full, held) = miss_ebusy c (read_if_room_ebusy (make_room sto c) b fresh g) in
          (f, full, held)
      | inr (n, f) ↦ absurd (let g : ok ≡ ebusy = rw (f, get_found) at h in cc)
    ]),
    (λ (f, full, held).
        let none_free : find_victim c.nodes ≡ none = (find_victim-eq-none_iff c.nodes).1 held in
        let at_max : (c.count == cache_max_nodes) ≡ true = ground arith in
        rw (f, get_found)
          (unfold make_room pick_victim in
            rw (at_max, none_free, pick_victim) (unfold read_if_room in refl))),
  )

  -- Whether the last block that nobody holds is missing decides: the call is busy exactly when
  -- the block is not cached, the cache is full and every cached block is held.
  pub cache_get_block_ebusy_iff :
      (c : Cache sto) (pos : ℕ) (fresh : Option ℕ)
      → pos % cache_blksz ≡ 0
      → ((cache_get_block sto c false pos fresh).1 ≡ ebusy) ↔ (
          (find_blk (pos / cache_blksz) c.nodes ≡ none)
          × (c.count ≡ cache_max_nodes)
          × All (λ n. n.refcnt ≢ 0) c.nodes)
  unfolding cache_get_block
  cache_get_block_ebusy_iff c pos fresh e =
      let q : (pos % cache_blksz == 0) ≡ true = ground arith in
      rw q (busy c (pos / cache_blksz) fresh)

  -- A position that is not aligned, or a null argument, changes nothing.
  pub cache_get_block_einval :
      (c : Cache sto) (null_arg : Bool) (pos : ℕ) (fresh : Option ℕ)
      → (pos % cache_blksz ≢ 0) ⊎ (null_arg ≡ true)
      → cache_get_block sto c null_arg pos fresh ≡ (c, einval, none)
  unfolding cache_get_block
  cache_get_block_einval c null_arg pos fresh h = ground arith
