-- ===== src/Cache/Nodes.antt =====
-- The node list of sys/cache.c: distinct blocks and pointers, and what unlinking and updating a
-- node leave.
use model_lib.Base.{
  ℕ, ◌+◌, ◌≡◌, refl, sym, ◌∙◌, subst, ◌≢◌, ◌↔◌, ◌⊎◌, inl, inr, true, false, none, some, List, [],
  ◌∷◌, arith, ◌==◌, if◌then◌else◌, Bool-cases, Option-cases, ==_self, length,
}
use model_lib.Cache.{Node, find_blk, unlink, find_victim}

-- The node's block and pointer differ from those of all nodes of the list.
abbrev pub New : Node → List Node → Type 0
New n [] = Unit
New n (m ∷ l) = (m.blk_pos ≢ n.blk_pos) × (m.ptr ≢ n.ptr) × New n l

abbrev pub Distinct : List Node → Type 0
Distinct [] = Unit
Distinct (n ∷ l) = New n l × Distinct l

abbrev pub In : Node → List Node → Type 0
In n [] = ⊥
In n (m ∷ l) = (n ≡ m) ⊎ In n l

abbrev pub All {ℓ} : (Node → Type ℓ) → List Node → Type ℓ
All P [] = Unit
All P (n ∷ l) = P n × All P l

pub All-In {ℓ} : (P : Node → Type ℓ) (n : Node) (l : List Node) → All P l → In n l → P n
All-In P n (m ∷ l) a (inl e) = subst P (sym e) a.0
All-In P n (m ∷ l) a (inr i) = All-In P n l a.1 i
All-In P n [] a i = absurd i

pub All-unlink {ℓ} : (P : Node → Type ℓ) (p : ℕ) (l : List Node) → All P l → All P (unlink p l)
unfolding unlink
All-unlink P p [] a = tt
All-unlink P p (n ∷ l) a = elim (Bool-cases (n.ptr == p)) [
  | inl e ↦ rw e a.1
  | inr e ↦ rw e (a.0, All-unlink P p l a.1)
]

pub find_blk-In :
    (b : ℕ) (l : List Node) (n : Node) → find_blk b l ≡ some n → In n l × (n.blk_pos ≡ b)
unfolding find_blk
find_blk-In b [] n h = absurd (ground arith)
find_blk-In b (m ∷ l) n h = elim (Bool-cases (m.blk_pos == b)) [
  | inl e ↦ let q : m ≡ n = ground arith in (inl (sym q), ground arith)
  | inr e ↦ let (i, q) = find_blk-In b l n (ground arith) in (inr i, q)
]

-- A new node is not in the list, by block or by pointer.
pub New-In :
    (n m : Node) (l : List Node) → New n l → In m l → (m.blk_pos ≢ n.blk_pos) × (m.ptr ≢ n.ptr)
New-In n m l a i = All-In (λ k. (k.blk_pos ≢ n.blk_pos) × (k.ptr ≢ n.ptr)) m l (flat l a) i
  where
    flat : (l : List Node) → New n l → All (λ k. (k.blk_pos ≢ n.blk_pos) × (k.ptr ≢ n.ptr)) l
    flat [] a = tt
    flat (k ∷ l) a = ((a.0, a.1), flat l a.2)

pub find_blk-New : (n : Node) (l : List Node) → New n l → find_blk n.blk_pos l ≡ none
unfolding find_blk
find_blk-New n [] a = refl
find_blk-New n (m ∷ l) a = ground (arith, find_blk-New n l a.2)

pub find_blk_of_In :
    (n : Node) (l : List Node) → Distinct l → In n l → find_blk n.blk_pos l ≡ some n
unfolding find_blk
find_blk_of_In n [] d i = absurd i
find_blk_of_In n (m ∷ l) d (inl e) = ground arith
find_blk_of_In n (m ∷ l) d (inr i) = ground (arith, New-In m n l d.0 i, find_blk_of_In n l d.1 i)

pub New-unlink : (n : Node) (p : ℕ) (l : List Node) → New n l → New n (unlink p l)
unfolding unlink
New-unlink n p [] a = tt
New-unlink n p (m ∷ l) a = elim (Bool-cases (m.ptr == p)) [
  | inl e ↦ rw e a.2
  | inr e ↦ rw e (a.0, a.1, New-unlink n p l a.2)
]

pub Distinct-unlink : (p : ℕ) (l : List Node) → Distinct l → Distinct (unlink p l)
unfolding unlink
Distinct-unlink p [] d = tt
Distinct-unlink p (n ∷ l) d = elim (Bool-cases (n.ptr == p)) [
  | inl e ↦ rw e d.1
  | inr e ↦ rw e (New-unlink n p l d.0, Distinct-unlink p l d.1)
]

-- A node that is unlinked is new to the rest.
pub New-unlink_self : (n : Node) (l : List Node) → Distinct l → In n l → New n (unlink n.ptr l)
unfolding unlink
New-unlink_self n [] d i = absurd i
New-unlink_self n (m ∷ l) d (inl e) = rw e (ground (arith, ==_self m.ptr))
New-unlink_self n (m ∷ l) d (inr i) =
    let (b, p) = New-In m n l d.0 i in
    let q : (m.ptr == n.ptr) ≡ false = ground arith in
    rw q (λ e. b (sym e), λ e. p (sym e), New-unlink_self n l d.1 i)

pub length-unlink : (n : Node) (l : List Node) → In n l → length (unlink n.ptr l) + 1 ≡ length l
unfolding unlink
length-unlink n [] i = absurd i
length-unlink n (m ∷ l) (inl e) = ground arith
length-unlink n (m ∷ l) (inr i) = ground (arith, length-unlink n l i)

-- The other blocks are found as before.
pub find_blk-unlink :
    (n : Node) (l : List Node) (b : ℕ)
    → Distinct l
    → In n l
    → n.blk_pos ≢ b
    → find_blk b (unlink n.ptr l) ≡ find_blk b l
unfolding find_blk unlink
find_blk-unlink n [] b d i h = refl
find_blk-unlink n (m ∷ l) b d (inl e) h = ground arith
find_blk-unlink n (m ∷ l) b d (inr i) h =
    ground (arith, New-In m n l d.0 i, find_blk-unlink n l b d.1 i h)

-- Every other node stays.
pub In-unlink :
    (n m : Node) (l : List Node)
    → Distinct l
    → In n l
    → In m l
    → m.ptr ≢ n.ptr
    → In m (unlink n.ptr l)
unfolding unlink
In-unlink n m [] d i j h = absurd i
In-unlink n m (k ∷ l) d i (inl e) h =
    let q : (k.ptr == n.ptr) ≡ false = ground arith in rw q (inl e)
In-unlink n m (k ∷ l) d (inl e) (inr j) h = let q : (k.ptr == n.ptr) ≡ true = ground arith in rw q j
In-unlink n m (k ∷ l) d (inr i) (inr j) h =
    let (b, p) = New-In k n l d.0 i in
    let q : (k.ptr == n.ptr) ≡ false = ground arith in rw q (inr (In-unlink n m l d.1 i j h))

-- The victim is a node of the list with no reference; there is none exactly when every node has
-- one.
pub find_victim-In : (l : List Node) (v : Node) → find_victim l ≡ some v → In v l × (v.refcnt ≡ 0)
unfolding find_victim
find_victim-In [] v h = absurd (ground arith)
find_victim-In (n ∷ l) v h = elim (Option-cases (find_victim l)) [
  | inl e ↦ let q : n ≡ v = ground arith in (inl (sym q), ground arith)
  | inr (w, e) ↦
      let (i, z) = find_victim-In l w e in
      let q : w ≡ v = ground arith in (inr (subst (λ k. In k l) q i), ground arith)
]

pub find_victim-eq-none_iff : (l : List Node) → (find_victim l ≡ none) ↔ All (λ n. n.refcnt ≢ 0) l
unfolding find_victim
find_victim-eq-none_iff [] = (λ h. tt, λ a. refl)
find_victim-eq-none_iff (n ∷ l) =
    let (f, g) = find_victim-eq-none_iff l in
    (
      (λ h. elim (Option-cases (find_victim l)) [
        | inl e ↦ (ground arith, f e)
        | inr (w, e) ↦ absurd (ground arith)
      ]),
      (λ a. ground (arith, g a.1)),
    )

pub In-of_unlink : (n : Node) (p : ℕ) (l : List Node) → In n (unlink p l) → In n l
unfolding unlink
In-of_unlink n p [] i = i
In-of_unlink n p (m ∷ l) i = elim (Bool-cases (m.ptr == p)) [
  | inl e ↦ inr (rw e at i)
  | inr e ↦
      let j : (n ≡ m) ⊎ In n (unlink p l) = rw e at i in
      elim j [ inl q ↦ inl q | inr k ↦ inr (In-of_unlink n p l k) ]
]

-- A pointer names one node.
pub In-eq_of_ptr :
    (n m : Node) (l : List Node) → Distinct l → In n l → In m l → n.ptr ≡ m.ptr → n ≡ m
In-eq_of_ptr n m [] d i j e = absurd i
In-eq_of_ptr n m (k ∷ l) d (inl a) (inl b) e = a ∙ sym b
In-eq_of_ptr n m (k ∷ l) d (inl a) (inr j) e = absurd (ground (arith, New-In k m l d.0 j))
In-eq_of_ptr n m (k ∷ l) d (inr i) (inl b) e = absurd (ground (arith, New-In k n l d.0 i))
In-eq_of_ptr n m (k ∷ l) d (inr i) (inr j) e = In-eq_of_ptr n m l d.1 i j e

pub find_blk-cons :
    (n : Node) (l : List Node) (b : ℕ)
    → find_blk b (n ∷ l) ≡ (if n.blk_pos == b then some n else find_blk b l)
unfolding find_blk
find_blk-cons n l b = refl

-- A node is new to a list that has neither its block nor its pointer.
pub New-of_unfound :
    (n : Node) (l : List Node)
    → find_blk n.blk_pos l ≡ none
    → ((m : Node) → In m l → m.ptr ≢ n.ptr)
    → New n l
unfolding find_blk
New-of_unfound n [] e u = tt
New-of_unfound n (m ∷ l) e u =
    (ground arith, u m (inl refl), New-of_unfound n l (ground arith) (λ k i. u k (inr i)))
