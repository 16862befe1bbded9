-- ===== src/Ktfs/Store/Readback.antt =====
-- A write to a file of sys/ktfs.c puts the bytes of the buffer in the place of those it had, and a
-- read returns them.
use model_lib.Base.{
  ℕ, zero, suc, ◌+◌, ◌-◌, ◌*◌, ◌/◌, ◌%◌, ◌≤◌, ◌<◌, min, ◌≡◌, refl, sym, ap, ap₂, ◌∙◌, fun_ext, inl,
  true, false, ◌&&◌, Option, some, List, [], ◌∷◌, ◌++◌, arith, ltb, leb, ◌==◌, length, get_or,
}
use model_lib.Ktfs.{Disk, Superblock}
use model_lib.Ktfs.Inode.{Inode, read32, inode_at, get_data_block, get_inode_block, get_inode}
use model_lib.Ktfs.File.{File, u64_mod, ktfs_fetch}
use model_lib.Ktfs.File.Fetch.{
  byte_in, file_byte, file_bytes, file_bytes-append, ktfs_fetch-file_bytes,
}
use model_lib.Ktfs.Store.{max_size, store_loop, make_space, ktfs_store}
use model_lib.Ktfs.Store.Write.{cell, Agree, IsTree, Wrote, store_loop-Wrote}

inode_at-agrees :
    (d d' : Disk) (pos off : ℕ)
    → ((o : ℕ) → d' pos o ≡ d pos o)
    → inode_at d' pos off ≡ inode_at d pos off
unfolding inode_at read32
inode_at-agrees d d' pos off h = ap (λ (g : ℕ → ℕ). inode_at (λ p o. g o) pos off) (fun_ext h)

get_inode-agrees :
    (sb : Superblock) (d d' : Disk) (i : ℕ)
    → ((o : ℕ) → d' (get_inode_block sb i) o ≡ d (get_inode_block sb i) o)
    → get_inode sb d' i ≡ get_inode sb d i
unfolding get_inode
get_inode-agrees sb d d' i h = inode_at-agrees d d' (get_inode_block sb i) (i % 16 * 32) h

module _ (sb : Superblock) (inode : Inode) where
  file_bytes-same :
      (d d' : Disk) (p n : ℕ)
      → ((q : ℕ) → p ≤ q → q < p + n → file_byte sb d' inode q ≡ file_byte sb d inode q)
      → file_bytes sb d' inode p n ≡ file_bytes sb d inode p n
  file_bytes-same d d' p zero h = refl
  file_bytes-same d d' p (suc n) h =
      ap₂ (λ (x : ℕ) (l : List ℕ). x ∷ l) (h p (omega arith) (omega arith))
        (file_bytes-same d d' (p + 1) n (λ q lo hi. h q (omega arith) (omega arith)))

  file_bytes-buf :
      (d : Disk) (p : ℕ) (buf : List ℕ)
      → ((k : ℕ) → k < length buf → file_byte sb d inode (p + k) ≡ get_or buf k 0)
      → file_bytes sb d inode p (length buf) ≡ buf
  file_bytes-buf d p [] h = refl
  file_bytes-buf d p (c ∷ buf) h =
      let z : p + 0 ≡ p = omega arith in
      ap₂ (λ (x : ℕ) (l : List ℕ). x ∷ l) (sym (ap (file_byte sb d inode) z) ∙ h 0 (omega arith))
        (file_bytes-buf d (p + 1) buf (λ k lt.
          let e : p + 1 + k ≡ p + suc k = omega arith in
          ap (file_byte sb d inode) e ∙ h (suc k) (omega arith)))

  module _ (count : ℕ) (tree : ℕ → ℕ) (d d' : Disk) (v : IsTree sb inode count tree d)
      (g : Agree sb inode count tree d d') where
    file_byte-cell :
        (q : ℕ) → q < 512 * count → file_byte sb d' inode q ≡ cell sb inode count tree d' q
    file_byte-cell q h =
        ap (λ (o : Option ℕ). byte_in d' sb o q) (v.stays d' g (q / 512) (omega arith))

    middle :
        (pos : ℕ) (buf : List ℕ)
        → Wrote sb inode count tree pos 0 (length buf) buf d d'
        → pos + length buf ≤ 512 * count
        → file_bytes sb d' inode pos (length buf) ≡ buf
    middle pos buf w lim = file_bytes-buf d' pos buf (λ k lt.
        let inside : (leb (pos + 0) (pos + k) && ltb (pos + k) (pos + length buf)) ≡ true =
          ground arith in
        let z : pos + k - pos ≡ k = omega arith in
        file_byte-cell (pos + k) (omega arith)
        ∙ w.bytes (pos + k) (omega arith)
        ∙ rw (inside, z) refl)

    -- The file behind a write: the bytes of the buffer stand at its position, and the others as before.
    splice :
        (pos size : ℕ) (buf : List ℕ)
        → Wrote sb inode count tree pos 0 (length buf) buf d d'
        → pos + length buf ≤ size
        → size ≤ 512 * count
        → file_bytes sb d' inode 0 size
          ≡ file_bytes sb d inode 0 pos
            ++ (buf ++ file_bytes sb d inode (pos + length buf) (size - (pos + length buf)))
    splice pos size buf w room lim =
        let n = length buf in
        let rest = size - (pos + n) in
        let before : (q : ℕ)
            → q < 512 * count
            → file_byte sb d inode q ≡ cell sb inode count tree d q =
          λ q h.
            ap (λ (o : Option ℕ). byte_in d sb o q)
              (v.stays d (λ p o z. refl) (q / 512) (omega arith)) in
        let e : size ≡ pos + (n + rest) = omega arith in
        let kept : (q : ℕ)
            → q < 512 * count
            → (leb (pos + 0) q && ltb q (pos + n)) ≡ false
            → file_byte sb d' inode q ≡ file_byte sb d inode q =
          λ q h out. file_byte-cell q h ∙ w.bytes q h ∙ rw out (sym (before q h)) in
        ap (file_bytes sb d' inode 0) e
        ∙ file_bytes-append sb d' inode 0 pos (n + rest)
        ∙ ap₂ (λ (x y : List ℕ). x ++ y)
            (file_bytes-same d d' 0 pos (λ q lo hi. kept q (omega arith) (ground arith)))
            (file_bytes-append sb d' inode (0 + pos) n rest
              ∙ ap₂ (λ (x y : List ℕ). x ++ y)
                  (ap (λ (x : ℕ). file_bytes sb d' inode x n)
                      (let z : 0 + pos ≡ pos = omega arith in z)
                    ∙ middle pos buf w (omega arith))
                  (ap (λ (x : ℕ). file_bytes sb d' inode x rest)
                      (let z : 0 + pos + n ≡ pos + n = omega arith in z)
                    ∙ file_bytes-same d d' (pos + n) rest
                        (λ q lo hi. kept q (omega arith) (ground arith))))

abbrev whole : Superblock → Disk → File → ℕ → ℕ → List ℕ
whole sb d f p n = file_bytes sb d (get_inode sb d f.inode) p n

ktfs_store-splice :
    (sb : Superblock) (d : Disk) (f : File) (buf : List ℕ) (d' : Disk)
    → 0 < length buf
    → f.pos + length buf ≤ f.file_size
    → f.file_size ≤ max_size
    → store_loop sb (get_inode sb d f.inode) f.pos (length buf) buf (length buf) 0 d
      ≡ (d', some (length buf))
    → ktfs_store sb d f false true buf
      ≡ (d', record f { pos = f.pos + length buf }, some (length buf))
unfolding ktfs_store make_space
ktfs_store-splice sb d f buf d' some_byte room lim loop =
    let z : (length buf == 0) ≡ false = ground arith in
    let w : (f.pos + length buf) % u64_mod ≡ f.pos + length buf = omega arith in
    let e : ltb f.file_size (f.pos + length buf) ≡ false = ground arith in
    rw (z, w, e, loop, w) refl

-- A write within a file puts all bytes of the buffer in the place of those at the position, and the file
-- keeps the others; it returns their number and moves the position behind them. A read from the old
-- position then returns the buffer. The blocks that the file has stand apart from each other, from its tree
-- and from its inode, and the buffer is not empty.
pub ktfs_fetch-ktfs_store :
    (sb : Superblock) (d : Disk) (f : File) (buf : List ℕ) (count : ℕ) (tree : ℕ → ℕ)
    → count ≤ 32900
    → IsTree sb (get_inode sb d f.inode) count tree d
    → ((b : ℕ) → b < count → ¬ (get_inode_block sb f.inode ≡ get_data_block sb (tree b)))
    → 0 < length buf
    → f.pos + length buf ≤ f.file_size
    → f.file_size ≤ 512 * count
    → let s = ktfs_store sb d f false true buf in
      let n = length buf in
      (s.1 ≡ record f { pos = f.pos + n })
      × (s.2 ≡ some n)
      × (file_bytes sb s.0 (get_inode sb s.0 f.inode) 0 f.file_size
          ≡ file_bytes sb d (get_inode sb d f.inode) 0 f.pos
            ++ (buf
                ++ file_bytes sb d
                    (get_inode sb d f.inode)
                    (f.pos + n)
                    (f.file_size - (f.pos + n))))
      × ((ktfs_fetch sb s.0 f false true n).1 ≡ some buf)
ktfs_fetch-ktfs_store sb d f buf count tree few v outside some_byte room lim =
    let inode = get_inode sb d f.inode in
    let n = length buf in
    let (d', e, w) =
      store_loop-Wrote sb inode count tree d d f.pos n n 0 buf few v (λ p o z. refl) (omega arith)
        (omega arith) (omega arith) refl (inl (inl refl)) in
    let stored = ktfs_store-splice sb d f buf d' some_byte room (omega arith) e in
    let same : get_inode sb d' f.inode ≡ inode =
      get_inode-agrees sb d d' f.inode (λ o. w.others (get_inode_block sb f.inode) o outside) in
    let fetched = ktfs_fetch-file_bytes sb d' f n (omega arith) (omega arith) (omega arith) in
    let m : min n (f.file_size - f.pos) ≡ n = omega arith in
    (
      ap (λ (s : Disk × File × Option ℕ). s.1) stored,
      ap (λ (s : Disk × File × Option ℕ). s.2) stored,
      ap (λ (s : Disk × File × Option ℕ). whole sb s.0 f 0 f.file_size) stored
          ∙ ap (λ (i : Inode). file_bytes sb d' i 0 f.file_size) same
          ∙ splice sb inode count tree d d' v w.others f.pos f.file_size buf w room lim,
      ap (λ (s : Disk × File × Option ℕ). (ktfs_fetch sb s.0 f false true n).1) stored
          ∙ ap (λ (r : File × Option (List ℕ)). r.1) fetched
          ∙ ap (λ (x : ℕ). some (whole sb d' f f.pos x)) m
          ∙ ap (λ (i : Inode). some (file_bytes sb d' i f.pos n)) same
          ∙ ap some (middle sb inode count tree d d' v w.others f.pos buf w (omega arith)),
    )
