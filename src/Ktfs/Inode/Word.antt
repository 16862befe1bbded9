-- ===== src/Ktfs/Inode/Word.antt =====
-- Words of 32 bits in the blocks of sys/ktfs.c.
use model_lib.Base.{
  ℕ, ◌+◌, ◌-◌, ◌*◌, ◌/◌, ◌%◌, ◌^◌, ◌<◌, ◌≡◌, refl, sym, ap, ◌∙◌, ◌≢◌, true, false, arith, ltb, leb,
  ◌==◌, ==_self,
}
use model_lib.Ktfs.{Disk, u32_mod}
use model_lib.Ktfs.Inode.{read32, write32}

write32-at :
    (d : Disk) (pos off v k : ℕ) → k < 4 → write32 d pos off v pos (off + k) ≡ v / 2 ^ (8 * k) % 256
unfolding write32
write32-at d pos off v k h =
    let a : leb off (off + k) ≡ true = ground arith in
    let b : ltb (off + k) (off + 4) ≡ true = ground arith in
    let e : off + k - off ≡ k = omega arith in rw (==_self pos, a, b, e) refl

-- A word that is read back is the word that was written.
pub read32-write32 :
    (d : Disk) (pos off v : ℕ) → v < u32_mod → read32 (write32 d pos off v) pos off ≡ v
unfolding read32
read32-write32 d pos off v h =
    let z : off + 0 ≡ off = omega arith in
    let a : write32 d pos off v pos off ≡ v % 256 =
      ap (λ (t : ℕ). write32 d pos off v pos t) (sym z)
      ∙ write32-at d pos off v 0 (omega arith)
      ∙ (let q : v / 1 % 256 ≡ v % 256 = omega arith in q) in
    let b : write32 d pos off v pos (off + 1) ≡ v / 256 % 256 =
      write32-at d pos off v 1 (omega arith) in
    let c : write32 d pos off v pos (off + 2) ≡ v / 65536 % 256 =
      write32-at d pos off v 2 (omega arith) in
    let e : write32 d pos off v pos (off + 3) ≡ v / 16777216 % 256 =
      write32-at d pos off v 3 (omega arith) in
    rw (a, b, c, e) (omega arith)

-- A word written in another block is not seen.
pub read32-write32_block :
    (d : Disk) (pos off v p o : ℕ) → p ≢ pos → read32 (write32 d pos off v) p o ≡ read32 d p o
unfolding read32 write32
read32-write32_block d pos off v p o h = let e : (p == pos) ≡ false = ground arith in rw e refl
