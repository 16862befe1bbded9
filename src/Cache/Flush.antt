-- ===== src/Cache/Flush.antt =====
-- `cache_flush` and `cache_release_block`.
use model_lib.Base.{
  ℕ, suc, ◌-◌, ◌*◌, ◌%◌, ◌<◌, ◌≡◌, refl, sym, ap, ◌∙◌, ◌≢◌, inl, inr, true, false, none, some, List,
  [], ◌∷◌, arith, ltb, ◌==◌, if◌then◌else◌, Bool-cases, length,
}
use model_lib.Cache.{
  Storage, Node, Cache, Status, ok, cache_blksz, u64_mod, find_blk, Flushed, after_node,
  flush_nodes, cache_flush,
}
use model_lib.Cache.Nodes.{New, Distinct, All, find_blk-New, find_blk-cons}
use model_lib.Cache.Laws.{
  DeviceLaws, IsValid, Synced, view, view_of, bytes_of, max_blk, All-Synced-content,
}
use model_lib.Cache.Room.{All-Synced-store}

-- The same nodes in the same order, but for the dirty flag.
abbrev pub SameNodes : List Node → List Node → Type 0
SameNodes [] [] = Unit
SameNodes (n ∷ l) (m ∷ k) =
    (m.ptr ≡ n.ptr)
    × (m.blk_pos ≡ n.blk_pos)
    × (m.bytes ≡ n.bytes)
    × (m.refcnt ≡ n.refcnt)
    × SameNodes l k
SameNodes [] (m ∷ k) = ⊥
SameNodes (n ∷ l) [] = ⊥

SameNodes-refl : (l : List Node) → SameNodes l l
SameNodes-refl [] = tt
SameNodes-refl (n ∷ l) = (refl, refl, refl, refl, SameNodes-refl l)

length-SameNodes : (l k : List Node) → SameNodes l k → length k ≡ length l
length-SameNodes [] [] s = refl
length-SameNodes (n ∷ l) (m ∷ k) s = ap suc (length-SameNodes l k s.4)
length-SameNodes [] (m ∷ k) s = absurd s
length-SameNodes (n ∷ l) [] s = absurd s

New-SameNodes :
    (x y : Node) (l k : List Node)
    → x.ptr ≡ y.ptr
    → x.blk_pos ≡ y.blk_pos
    → SameNodes l k
    → New x l
    → New y k
New-SameNodes x y [] [] p b s w = tt
New-SameNodes x y (n ∷ l) (m ∷ k) p b s w =
    (omega (arith, s.1, w.0), omega (arith, s.0, w.1), New-SameNodes x y l k p b s.4 w.2)
New-SameNodes x y [] (m ∷ k) p b s w = absurd s
New-SameNodes x y (n ∷ l) [] p b s w = absurd s

Distinct-SameNodes : (l k : List Node) → SameNodes l k → Distinct l → Distinct k
Distinct-SameNodes [] [] s d = tt
Distinct-SameNodes (n ∷ l) (m ∷ k) s d =
    (New-SameNodes n m l k (sym s.0) (sym s.1) s.4 d.0, Distinct-SameNodes l k s.4 d.1)
Distinct-SameNodes [] (m ∷ k) s d = absurd s
Distinct-SameNodes (n ∷ l) [] s d = absurd s

find_blk-SameNodes :
    (l k : List Node) (b : ℕ) (other : List ℕ)
    → SameNodes l k
    → (find_blk b l ≡ none → find_blk b k ≡ none)
      × (bytes_of (find_blk b k) other ≡ bytes_of (find_blk b l) other)
unfolding find_blk
find_blk-SameNodes [] [] b other s = (λ e. e, refl)
find_blk-SameNodes (n ∷ l) (m ∷ k) b other s =
    let (f, g) = find_blk-SameNodes l k b other s.4 in
    elim (Bool-cases (n.blk_pos == b)) [
      | inl p ↦ let q : (m.blk_pos == b) ≡ true = ground arith in rw (p, q) (λ e. absurd (cc), s.2)
      | inr p ↦ let q : (m.blk_pos == b) ≡ false = ground arith in rw (p, q) (f, g)
    ]
find_blk-SameNodes [] (m ∷ k) b other s = absurd s
find_blk-SameNodes (n ∷ l) [] b other s = absurd s

module _ (sto : Storage) (content : Storage.Disc sto → ℕ → List ℕ)
    (laws : DeviceLaws sto content) where
  -- What flushing a list of nodes means.
  pub record Written (d : Storage.Disc sto) (l : List Node) (r : Flushed sto) : Type 0 where
    pub synced : All (Synced sto content r.0) r.1
    pub same : SameNodes l r.1
    pub seen : (k : ℕ) → view_of sto content r.0 r.1 k ≡ view_of sto content d l k
    pub frame : (k : ℕ) → find_blk k l ≡ none → content r.0 k ≡ content d k
    pub clean : r.2 ≡ false → All (λ n. n.dirty ≢ 1) r.1
    pub stored : r.2 ≡ false → (k : ℕ) → content r.0 k ≡ view_of sto content d l k

  -- A node whose bytes the device holds, in front of nodes that are flushed.
  after_node-Written :
      (d d' : Storage.Disc sto) (n m : Node) (l : List Node) (r : Flushed sto)
      → n.blk_pos < max_blk sto
      → New n l
      → m.ptr ≡ n.ptr
      → m.blk_pos ≡ n.blk_pos
      → m.bytes ≡ n.bytes
      → m.refcnt ≡ n.refcnt
      → m.dirty ≢ 1
      → ((k : ℕ) → content d' k ≡ (if n.blk_pos == k then n.bytes else content d k))
      → Written d' l r
      → Written d (n ∷ l) (after_node sto m r)
  unfolding after_node
  after_node-Written d d' n m l r small new ep eb ey er clean e w =
      let here : content r.0 n.blk_pos ≡ n.bytes =
        w.frame n.blk_pos (find_blk-New n l new) ∙ ground (arith, e n.blk_pos) in
      let other : (k : ℕ)
          → (n.blk_pos == k) ≡ false
          → view_of sto content d' l k ≡ view_of sto content d l k =
        λ k p. let z : content d' k ≡ content d k = ground (arith, e k) in rw z in
      record {
        synced = ((omega arith, λ q. rw (eb, ey) (sym here)), w.synced);
        same = (ep, eb, ey, er, w.same);
        seen = λ k. elim (Bool-cases (n.blk_pos == k)) [
          | inl p ↦
              let q : (m.blk_pos == k) ≡ true = ground arith in
              rw (find_blk-cons, q, find_blk-cons, p) ey
          | inr p ↦
              let q : (m.blk_pos == k) ≡ false = ground arith in
              rw (find_blk-cons, q, find_blk-cons, p) (w.seen k ∙ other k p)
        ];
        frame = λ k q.
            let c : (if n.blk_pos == k then some n else find_blk k l) ≡ none =
              rw find_blk-cons at q in
            w.frame k (ground arith) ∙ ground (arith, e k);
        clean = λ q. (clean, w.clean q);
        stored = λ q k. elim (Bool-cases (n.blk_pos == k)) [
          | inl p ↦ let z : n.blk_pos ≡ k = ground arith in rw (find_blk-cons, p) (rw z at here)
          | inr p ↦ rw (find_blk-cons, p) (w.stored q k ∙ other k p)
        ];
      }

  flush_nodes-Written :
      (d : Storage.Disc sto) (l : List Node)
      → Distinct l
      → All (Synced sto content d) l
      → Written d l (flush_nodes sto d l)
  unfolding flush_nodes
  flush_nodes-Written d [] u a = record {
    synced = tt;
    same = tt;
    seen = λ k. refl;
    frame = λ k q. refl;
    clean = λ q. tt;
    stored = λ q k. unfold find_blk in refl;
  }
  flush_nodes-Written d (n ∷ l) u a =
      let small = a.0.0 in
      let pos : n.blk_pos * cache_blksz % u64_mod ≡ n.blk_pos * cache_blksz = omega arith in
      let w = sto.store d (n.blk_pos * cache_blksz) n.bytes in
      elim (Bool-cases (n.dirty == 1)) [
        | inl p ↦ elim (Bool-cases (ltb w.1 cache_blksz)) [
          | inl q ↦
              let short : (k : ℕ) → content w.0 k ≡ content d k =
                λ k. laws.store_short d n.blk_pos n.bytes k small (ground arith) in
              rw (p, pos, q)
                (record {
                  synced = All-Synced-content sto content d w.0 (n ∷ l) short a;
                  same = SameNodes-refl (n ∷ l);
                  seen = λ k. rw (short k);
                  frame = λ k q. short k;
                  clean = λ q. absurd (cc);
                  stored = λ q k. absurd (cc);
                })
          | inr q ↦
              let full : (k : ℕ)
                  → content w.0 k ≡ (if n.blk_pos == k then n.bytes else content d k) =
                λ k.
                  laws.store_full d n.blk_pos n.bytes k small
                    (ground (arith, laws.store_count d n.blk_pos n.bytes small)) in
              rw (p, pos, q)
                (after_node-Written d w.0 n (record n { dirty = 0 }) l (flush_nodes sto w.0 l) small
                  u.0 refl refl refl refl (omega arith) full
                  (flush_nodes-Written w.0 l u.1
                    (All-Synced-store sto content laws n d w.0 l full u.0 a.1)))
        ]
        | inr p ↦ rw p (
            after_node-Written d d n n l (flush_nodes sto d l) small u.0 refl refl refl refl
              (ground arith) (λ k. ground (arith, a.0.1)) (flush_nodes-Written d l u.1 a.1))
      ]

  -- What a flush means for the cache.
  pub record FlushedCache (c c' : Cache sto) (s : Status) : Type 0 where
    pub valid : IsValid sto content c'
    pub seen : (k : ℕ) → view sto content c' k ≡ view sto content c k
    pub same : SameNodes c.nodes c'.nodes
    pub clean : s ≡ ok → All (λ n. n.dirty ≢ 1) c'.nodes
    pub stored : s ≡ ok → (k : ℕ) → content c'.disc k ≡ view sto content c k

  -- A flush, also one that fails, keeps the invariant, all nodes but for their dirty flags, and
  -- what a reader sees of every block; if it returns 0, no node is dirty and the device itself
  -- holds in every block what a reader sees. The device returns no error code within its capacity.
  pub cache_flush-FlushedCache :
      (c : Cache sto)
      → IsValid sto content c
      → let (c', s) = cache_flush sto c false in FlushedCache c c' s
  unfolding cache_flush
  cache_flush-FlushedCache c h =
      let r = flush_nodes sto c.disc c.nodes in
      let w : Written c.disc c.nodes r = flush_nodes-Written c.disc c.nodes h.distinct h.synced in
      record {
        valid = record {
          counted = h.counted ∙ sym (length-SameNodes c.nodes r.1 w.same);
          bounded = h.bounded;
          distinct = Distinct-SameNodes c.nodes r.1 w.same h.distinct;
          synced = w.synced;
        };
        seen = w.seen;
        same = w.same;
        clean = λ q. w.clean (ground arith);
        stored = λ q. w.stored (ground arith);
      }

-- A device whose stores fail with -EIO (as a 64-bit pattern) and write nothing.
abbrev pub Refuses : (sto : Storage) → Type 0
Refuses sto = (d : sto.Disc) (pos : ℕ) (bytes : List ℕ) → sto.store d pos bytes ≡ (d, u64_mod - 4)

flush_nodes_refused :
    (sto : Storage)
    → Refuses sto
    → (d : sto.Disc) (l : List Node)
    → let r = flush_nodes sto d l in (r.0 ≡ d) × (r.2 ≡ false) × All (λ n. n.dirty ≢ 1) r.1
unfolding flush_nodes after_node
flush_nodes_refused sto h d [] = (refl, refl, tt)
flush_nodes_refused sto h d (n ∷ l) =
    let ih = flush_nodes_refused sto h d l in
    elim (Bool-cases (n.dirty == 1)) [
      | inl p ↦
          let e = h d (n.blk_pos * cache_blksz % u64_mod) n.bytes in
          rw (p, e) (ih.0, ih.1, (omega arith, ih.2))
      | inr p ↦ rw p (ih.0, ih.1, (ground arith, ih.2))
    ]

-- If every store of the device fails with -EIO and writes nothing, `cache_flush` returns 0 all the
-- same, leaves the device as it was, and marks every block clean: the failure is not noticed.
pub cache_flush_unnoticed :
    (sto : Storage) (c : Cache sto)
    → Refuses sto
    → let (c', s) = cache_flush sto c false in
      (s ≡ ok) × (c'.disc ≡ c.disc) × All (λ n. n.dirty ≢ 1) c'.nodes
unfolding cache_flush
cache_flush_unnoticed sto c h =
    let r = flush_nodes_refused sto h c.disc c.nodes in (rw (r.1), r.0, r.2)
