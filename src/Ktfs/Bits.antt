-- ===== src/Ktfs/Bits.antt =====
-- The bit operations of sys/ktfs.c on a byte of a bitmap.
use model_lib.Base.{
  ℕ, zero, suc, ◌<◌, ◌≡◌, refl, sym, subst, inl, inr, Bool, true, false, not, ◌&&◌, ◌||◌, arith,
  leb, ◌==◌, Bool-cases, leb→le, ==→eq,
}
use model_lib.Ktfs.{bit_set, set_bit, clear_bit}

-- A test that holds of every number below a bound.
unfoldable all : ℕ → (ℕ → Bool) → Bool
all zero p = true
all (suc n) p = p n && all n p

and-true : (a b : Bool) → (a && b) ≡ true → (a ≡ true) × (b ≡ true)
and-true true b h = (refl, h)
and-true false b h = ground arith

all-at : (n : ℕ) (p : ℕ → Bool) → all n p ≡ true → (i : ℕ) → i < n → p i ≡ true
unfolding all
all-at zero p h i k = ground arith
all-at (suc n) p h i k =
    let (h0, h1) = and-true (p n) (all n p) h in
    elim (Bool-cases (i == n)) [
      | inl e ↦ subst (λ x. p x ≡ true) (sym (==→eq i n e)) h0
      | inr e ↦ all-at n p h1 i (ground arith)
    ]

same : Bool → Bool → Bool
same true b = b
same false b = not b

-- What the three operations do to one bit `j`, when bit `k` is set and then cleared.
unfoldable row : ℕ → ℕ → ℕ → Bool
unfolding bit_set set_bit clear_bit same
row byte k j =
    leb (set_bit byte k) 255
    && (leb (clear_bit byte k) 255
        && (same (bit_set (set_bit byte k) j) ((j == k) || bit_set byte j)
            && (same (bit_set (clear_bit byte k) j) (not (j == k) && bit_set byte j)
                && (bit_set byte k || (clear_bit (set_bit byte k) k == byte)))))

table : all 256 (λ byte. all 8 (λ k. all 8 (row byte k))) ≡ true
unfolding row all bit_set set_bit clear_bit same
table = refl

same-eq : (a b : Bool) → same a b ≡ true → a ≡ b
unfolding same
same-eq true b h = sym h
same-eq false true h = ground arith
same-eq false false h = refl

module _ (byte k j : ℕ) (hb : byte < 256) (hk : k < 8) (hj : j < 8) where
  row-true : row byte k j ≡ true
  row-true = all-at 8 (row byte k) (all-at 8 _ (all-at 256 _ table byte hb) k hk) j hj

  parts :
      (leb (set_bit byte k) 255 ≡ true)
      × (leb (clear_bit byte k) 255 ≡ true)
      × (same (bit_set (set_bit byte k) j) ((j == k) || bit_set byte j) ≡ true)
      × (same (bit_set (clear_bit byte k) j) (not (j == k) && bit_set byte j) ≡ true)
      × ((bit_set byte k || (clear_bit (set_bit byte k) k == byte)) ≡ true)
  unfolding row
  parts =
      let a = and-true _ _ row-true in
      let b = and-true _ _ a.1 in
      let c = and-true _ _ b.1 in let e = and-true _ _ c.1 in (a.0, b.0, c.0, e.0, e.1)

  pub bit_set-set_bit : bit_set (set_bit byte k) j ≡ ((j == k) || bit_set byte j)
  bit_set-set_bit = same-eq _ _ parts.2

  pub bit_set-clear_bit : bit_set (clear_bit byte k) j ≡ (not (j == k) && bit_set byte j)
  bit_set-clear_bit = same-eq _ _ parts.3

or-false : (a b : Bool) → (a || b) ≡ true → a ≡ false → b ≡ true
or-false true b h e = ground arith
or-false false b h e = h

module _ (byte k : ℕ) (hb : byte < 256) (hk : k < 8) where
  pub set_bit-bound : set_bit byte k < 256
  set_bit-bound = let h = leb→le _ _ (parts byte k k hb hk hk).0 in omega arith

  pub clear_bit-bound : clear_bit byte k < 256
  clear_bit-bound = let h = leb→le _ _ (parts byte k k hb hk hk).1 in omega arith

  pub clear_bit-set_bit : bit_set byte k ≡ false → clear_bit (set_bit byte k) k ≡ byte
  clear_bit-set_bit e = ==→eq _ _ (or-false _ _ (parts byte k k hb hk hk).4 e)
