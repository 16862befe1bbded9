-- ===== src/Ktfs/Bitmap.antt =====
-- Allocation and release of data blocks and inodes in the bitmaps of sys/ktfs.c.
use model_lib.Base.{
  ℕ, ◌*◌, ◌/◌, ◌%◌, ◌<◌, ◌≡◌, refl, sym, ap, ap₂, ◌∙◌, fun_ext, ◌≢◌, inl, inr, Bool, false, arith,
  ◌==◌, Bool-cases, ==→eq, ==→ne, ==_self,
}
use model_lib.Ktfs.{Disk, write_byte, bit_set}
use model_lib.Ktfs.Scan.{map_bit}

-- Every offset of every block holds a byte.
abbrev pub IsBytes : Disk → Type 0
IsBytes d = (p o : ℕ) → d p o < 256

-- A bitmap whose `c` blocks stand at different positions.
abbrev pub Apart : (ℕ → ℕ) → ℕ → Type 0
Apart bitmap c = (i j : ℕ) → i < c → j < c → bitmap i ≡ bitmap j → i ≡ j

-- The byte that an update writes is the only one that it changes.
pub write_byte-at : (d : Disk) (pos off v : ℕ) → write_byte d pos off v pos off ≡ v
unfolding write_byte
write_byte-at d pos off v = rw (==_self pos, ==_self off) refl

write_byte-block : (d : Disk) (pos off v p o : ℕ) → p ≢ pos → write_byte d pos off v p o ≡ d p o
unfolding write_byte
write_byte-block d pos off v p o h = ground arith

write_byte-off : (d : Disk) (pos off v p o : ℕ) → o ≢ off → write_byte d pos off v p o ≡ d p o
unfolding write_byte
write_byte-off d pos off v p o h = ground arith

write_byte-IsBytes :
    (d : Disk) (pos off v : ℕ) → v < 256 → IsBytes d → IsBytes (write_byte d pos off v)
unfolding write_byte
write_byte-IsBytes d pos off v h b p o = let k = b p o in ground arith

pub write_byte-undo :
    (d : Disk) (pos off v w : ℕ) → d pos off ≡ w → write_byte (write_byte d pos off v) pos off w ≡ d
unfolding write_byte
write_byte-undo d pos off v w e = fun_ext λ p. fun_ext λ o. elim (Bool-cases (p == pos)) [
  | inr h ↦ rw h refl
  | inl h ↦ elim (Bool-cases (o == off)) [
    | inr k ↦ rw (h, k) refl
    | inl k ↦ rw (h, k) (sym e ∙ ap₂ d (sym (==→eq p pos h)) (sym (==→eq o off k)))
  ]
]

-- One bit of a bitmap written: what the byte becomes decides the bits of the byte, and the others stay.
pub record BitWritten (bitmap : ℕ → ℕ) (c : ℕ) (m : ℕ) (new : Bool → Bool → Bool) (d d' : Disk)
    : Type 0 where
  pub bits : (x : ℕ) → x < 4096 * c → map_bit bitmap d' x ≡ new (x == m) (map_bit bitmap d x)
  pub others : (p o : ℕ) → p ≢ bitmap (m / 4096) → d' p o ≡ d p o
  pub bytes : IsBytes d'

same-item :
    (x m : ℕ) → x / 4096 ≡ m / 4096 → x % 4096 / 8 ≡ m % 4096 / 8 → (x % 8 == m % 8) ≡ (x == m)
same-item x m e f = ground arith

pub mod-mod : (x : ℕ) → x % 4096 % 8 ≡ x % 8
mod-mod x = omega arith

module _ (bitmap : ℕ → ℕ) (c : ℕ) (apart : Apart bitmap c) (op : ℕ → ℕ → ℕ)
    (new : Bool → Bool → Bool) (keeps : (b : Bool) → new false b ≡ b)
    (bound : (byte k : ℕ) → byte < 256 → k < 8 → op byte k < 256)
    (works : (byte k j : ℕ)
      → byte < 256
      → k < 8
      → j < 8
      → bit_set (op byte k) j ≡ new (j == k) (bit_set byte j)) where
  unfoldable pub written : Disk → ℕ → Disk
  written d m =
      let pos = bitmap (m / 4096) in
      let off = m % 4096 / 8 in write_byte d pos off (op (d pos off) (m % 8))

  written-bit :
      (d : Disk) (m x : ℕ)
      → IsBytes d
      → m < 4096 * c
      → x < 4096 * c
      → map_bit bitmap (written d m) x ≡ new (x == m) (map_bit bitmap d x)
  unfolding written
  written-bit d m x b lm lx =
      let pos = bitmap (m / 4096) in
      let off = m % 4096 / 8 in
      let v = op (d pos off) (m % 8) in
      let differ : ¬ (x ≡ m) → new false (map_bit bitmap d x) ≡ new (x == m) (map_bit bitmap d x) =
        λ h.
          ap (λ (t : Bool). new t (map_bit bitmap d x))
            (let q : (x == m) ≡ false = ground arith in sym q) in
      elim (Bool-cases (x / 4096 == m / 4096)) [
        | inr e ↦
            let ne : bitmap (x / 4096) ≢ pos =
              λ q. ==→ne _ _ e (apart (x / 4096) (m / 4096) (omega arith) (omega arith) q) in
            ap (λ (t : ℕ). bit_set t (x % 4096 % 8)) (write_byte-block d pos off v _ _ ne)
            ∙ sym (keeps _)
            ∙ differ (λ q. ==→ne _ _ e (ap (λ (t : ℕ). t / 4096) q))
        | inl e0 ↦
            let e = ==→eq _ _ e0 in
            elim (Bool-cases (x % 4096 / 8 == off)) [
              | inr f ↦
                  ap (λ (t : ℕ). bit_set t (x % 4096 % 8))
                    (write_byte-off d pos off v _ _ (==→ne _ _ f))
                  ∙ sym (keeps _)
                  ∙ differ (λ q. ==→ne _ _ f (ap (λ (t : ℕ). t % 4096 / 8) q))
              | inl f0 ↦
                  let f = ==→eq _ _ f0 in
                  ap₂ (λ (s t : ℕ). bit_set (write_byte d pos off v s t) (x % 4096 % 8))
                    (ap bitmap e) f
                  ∙ ap₂ bit_set (write_byte-at d pos off v) (mod-mod x)
                  ∙ works (d pos off) (m % 8) (x % 8) (b pos off) (omega arith) (omega arith)
                  ∙ ap₂ new (same-item x m e f)
                      (ap₂ bit_set (ap₂ d (ap bitmap (sym e)) (sym f)) (sym (mod-mod x)))
            ]
      ]

  pub written-BitWritten :
      (d : Disk) (m : ℕ) → IsBytes d → m < 4096 * c → BitWritten bitmap c m new d (written d m)
  unfolding written
  written-BitWritten d m b lm = record {
    bits = λ x lx. written-bit d m x b lm lx;
    others = λ p o h. write_byte-block d _ _ _ p o h;
    bytes = write_byte-IsBytes d _ _ _ (bound _ _ (b _ _) (omega arith)) b;
  }
