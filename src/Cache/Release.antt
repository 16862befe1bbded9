-- ===== src/Cache/Release.antt =====
-- `cache_release_block` of sys/cache.c, behind a change of the block in place.
use model_lib.Base.{
  ℕ, suc, ◌-◌, ◌<◌, ◌≡◌, refl, sym, ap, ◌∙◌, inl, inr, true, false, List, [], ◌∷◌, arith, ◌==◌,
  if◌then◌else◌, Bool-cases, length,
}
use model_lib.Cache.{Storage, Node, Cache, find_blk, update, release_node, cache_release_block}
use model_lib.Cache.Nodes.{New, Distinct, In, All, New-In}
use model_lib.Cache.Laws.{IsValid, Synced, view, bytes_of}

-- A change of a node that keeps its pointer and block.
record KeepsBlock (f : Node → Node) : Type 0 where
  ptr_lem : (n : Node) → (f n).ptr ≡ n.ptr
  blk_lem : (n : Node) → (f n).blk_pos ≡ n.blk_pos

-- What the holder of a block does to it in place, and then gives it back as dirty.
abbrev pub change_bytes : List ℕ → Node → Node
change_bytes bytes n = record n { bytes = bytes }

abbrev given_back : List ℕ → Node → Node
given_back bytes n = release_node 1 (change_bytes bytes n)

given_back-KeepsBlock : (bytes : List ℕ) → KeepsBlock (given_back bytes)
unfolding release_node
given_back-KeepsBlock bytes = record { ptr_lem = λ n. refl; blk_lem = λ n. refl }

update-update :
    (bytes : List ℕ) (p : ℕ) (l : List Node)
    → update (release_node 1) p (update (change_bytes bytes) p l) ≡ update (given_back bytes) p l
unfolding update
update-update bytes p [] = refl
update-update bytes p (n ∷ l) = elim (Bool-cases (n.ptr == p)) [
  | inl e ↦ rw (e, e) refl
  | inr e ↦ rw (e, e) (ap (λ (k : List Node). n ∷ k) (update-update bytes p l))
]

module _ (f : Node → Node) (k : KeepsBlock f) (p : ℕ) where
  length-update : (l : List Node) → length (update f p l) ≡ length l
  unfolding update
  length-update [] = refl
  length-update (n ∷ l) = elim (Bool-cases (n.ptr == p)) [
    | inl e ↦ rw e
    | inr e ↦ rw e (ap suc (length-update l))
  ]

  New-update : (x : Node) (l : List Node) → New x l → New x (update f p l)
  unfolding update
  New-update x [] w = tt
  New-update x (n ∷ l) w = elim (Bool-cases (n.ptr == p)) [
    | inl e ↦ rw e (rw (k.blk_lem n) w.0, rw (k.ptr_lem n) w.1, w.2)
    | inr e ↦ rw e (w.0, w.1, New-update x l w.2)
  ]

  New-of_same : (n : Node) (l : List Node) → New n l → New (f n) l
  New-of_same n [] w = tt
  New-of_same n (m ∷ l) w = (rw (k.blk_lem n) w.0, rw (k.ptr_lem n) w.1, New-of_same n l w.2)

  Distinct-update : (l : List Node) → Distinct l → Distinct (update f p l)
  unfolding update
  Distinct-update [] d = tt
  Distinct-update (n ∷ l) d = elim (Bool-cases (n.ptr == p)) [
    | inl e ↦ rw e (New-of_same n l d.0, d.1)
    | inr e ↦ rw e (New-update n l d.0, Distinct-update l d.1)
  ]

  find_blk-update :
      (n : Node) (l : List Node) (b : ℕ) (other : List ℕ)
      → Distinct l
      → In n l
      → n.ptr ≡ p
      → bytes_of (find_blk b (update f p l)) other
        ≡ (if n.blk_pos == b then (f n).bytes else bytes_of (find_blk b l) other)
  unfolding update find_blk
  find_blk-update n [] b other d i e = absurd i
  find_blk-update n (m ∷ l) b other d (inl q) e =
      let z : (m.ptr == p) ≡ true = ground arith in
      let blk = ap (λ (x : Node). x.blk_pos) q in
      let at = ap (λ (x : Node). (f x).bytes) q in
      elim (Bool-cases (n.blk_pos == b)) [
        | inl y ↦
            (let x : (m.blk_pos == b) ≡ true = ground arith in rw (z, k.blk_lem m, x, y) (sym at))
        | inr y ↦
            (let x : (m.blk_pos == b) ≡ false = ground arith in rw (z, k.blk_lem m, x, y) refl)
      ]
  find_blk-update n (m ∷ l) b other d (inr i) e =
      let (u, z) = New-In m n l d.0 i in
      let w : (m.ptr == p) ≡ false = ground arith in
      elim (Bool-cases (m.blk_pos == b)) [
        | inl y ↦ (let x : (n.blk_pos == b) ≡ false = ground arith in rw (w, y, x) refl)
        | inr y ↦ rw (w, y) (find_blk-update n l b other d.1 i e)
      ]

  All-update {ℓ} :
      (P : Node → Type ℓ) (l : List Node)
      → ((n : Node) → P n → P (f n))
      → All P l
      → All P (update f p l)
  unfolding update
  All-update P [] h a = tt
  All-update P (n ∷ l) h a = elim (Bool-cases (n.ptr == p)) [
    | inl e ↦ rw e (h n a.0, a.1)
    | inr e ↦ rw e (a.0, All-update P l h a.1)
  ]

  In-update : (n : Node) (l : List Node) → Distinct l → In n l → n.ptr ≡ p → In (f n) (update f p l)
  unfolding update
  In-update n [] d i e = i
  In-update n (m ∷ l) d (inl q) e =
      let z : (m.ptr == p) ≡ true = ground arith in rw z (inl (ap f q))
  In-update n (m ∷ l) d (inr i) e =
      let (b, z) = New-In m n l d.0 i in
      let w : (m.ptr == p) ≡ false = ground arith in rw w (inr (In-update n l d.1 i e))

module _ (sto : Storage) (content : Storage.Disc sto → ℕ → List ℕ) where
  -- What changing a block in place and giving it back as dirty means.
  pub record Released (c : Cache sto) (n : Node) (bytes : List ℕ) (c' : Cache sto) : Type 0 where
    pub valid : IsValid sto content c'
    pub seen :
        (b : ℕ) → view sto content c' b ≡ (if n.blk_pos == b then bytes else view sto content c b)
    pub node : Node
    pub there : In node c'.nodes
    pub held_less : node.refcnt ≡ n.refcnt - 1
    pub same : (node.ptr ≡ n.ptr) × (node.blk_pos ≡ n.blk_pos) × (node.bytes ≡ bytes)

  -- Where the holder of a block changes its bytes in place and gives it back as dirty, the cache keeps its
  -- invariant, a reader sees the new bytes in that block and every other block as before, and the node
  -- has one reference less (none stays none).
  pub cache_release_block-Released :
      (c : Cache sto) (n : Node) (bytes : List ℕ)
      → IsValid sto content c
      → In n c.nodes
      → 0 < n.ptr
      → Released c n bytes (
          cache_release_block sto
            (record c { nodes = update (change_bytes bytes) n.ptr c.nodes })
            false
            n.ptr
            1)
  unfolding cache_release_block
  cache_release_block-Released c n bytes h i pos =
      let q : (n.ptr == 0) ≡ false = ground arith in
      let f = given_back bytes in
      let k = given_back-KeepsBlock bytes in
      rw (q, update-update bytes n.ptr c.nodes)
        (record {
          valid = record {
            counted = h.counted ∙ sym (length-update f k n.ptr c.nodes);
            bounded = h.bounded;
            distinct = Distinct-update f k n.ptr c.nodes h.distinct;
            synced =
                All-update f k n.ptr (Synced sto content c.disc) c.nodes
                  (λ m s. unfold release_node in (s.0, λ z. absurd (z refl))) h.synced;
          };
          seen = λ b.
              unfold release_node in
              find_blk-update f k n.ptr n c.nodes b (content c.disc b) h.distinct i refl;
          node = f n;
          there = In-update f k n.ptr n c.nodes h.distinct i refl;
          held_less = unfold release_node in ground arith;
          same = unfold release_node in (refl, refl, refl);
        })
