-- ===== src/Ktfs/File/Fetch.antt =====
-- A read of a file of sys/ktfs.c returns the bytes of the file.
use model_lib.Base.{
  ℕ, zero, suc, ◌+◌, ◌-◌, ◌/◌, ◌%◌, ◌^◌, ◌≤◌, ◌<◌, min, ◌≡◌, refl, sym, ap, ap₂, ◌∙◌, ◌⊎◌, inl, inr,
  true, false, Option, none, some, List, [], ◌∷◌, ◌++◌, arith, ltb, ◌==◌, Bool-cases, Option-cases,
  ltb→lt, ltb→ge, ==→eq, ==→ne, length,
}
use model_lib.Ktfs.{Disk, Superblock, u32_mod}
use model_lib.Ktfs.Inode.{Inode, get_data_block, get_inode, find_block}
use model_lib.Ktfs.Inode.Grow.{allocate_block_from_inode_einval_iff}
use model_lib.Ktfs.File.{
  u64_mod, File, block_bytes, round_offset, round_size, prepend, fetch_loop, fetch_len, after_fetch,
  ktfs_fetch,
}

-- The byte of a file at a position, where its tree has a block for it.
abbrev pub byte_in : Disk → Superblock → Option ℕ → ℕ → ℕ
byte_in d sb none p = 0
byte_in d sb (some i) p = d (get_data_block sb i) (p % 512)

abbrev pub file_byte : Superblock → Disk → Inode → ℕ → ℕ
file_byte sb d inode p = byte_in d sb (find_block sb d inode (p / 512)) p

-- The `n` bytes of a file from a position on.
abbrev pub file_bytes : Superblock → Disk → Inode → ℕ → ℕ → List ℕ
file_bytes sb d inode p zero = []
file_bytes sb d inode p (suc n) = file_byte sb d inode p ∷ file_bytes sb d inode (p + 1) n

module _ (sb : Superblock) (d : Disk) (inode : Inode) where
  pub file_bytes-append :
      (p a b : ℕ)
      → file_bytes sb d inode p (a + b)
        ≡ file_bytes sb d inode p a ++ file_bytes sb d inode (p + a) b
  file_bytes-append p zero b =
      let e : 0 + b ≡ b = omega arith in
      let z : p + 0 ≡ p = omega arith in
      ap (file_bytes sb d inode p) e ∙ ap (λ (t : ℕ). file_bytes sb d inode t b) (sym z)
  file_bytes-append p (suc a) b =
      let e : suc a + b ≡ suc (a + b) = omega arith in
      let z : p + suc a ≡ p + 1 + a = omega arith in
      ap (file_bytes sb d inode p) e
      ∙ ap (λ (l : List ℕ). file_byte sb d inode p ∷ l)
          (file_bytes-append (p + 1) a b
            ∙ ap (λ (t : ℕ). file_bytes sb d inode (p + 1) a ++ file_bytes sb d inode t b) (sym z))

  -- Bytes copied from one block of the file.
  block_bytes-file_bytes :
      (i p off n : ℕ)
      → find_block sb d inode (p / 512) ≡ some i
      → off ≡ p % 512
      → off + n ≤ 512
      → block_bytes d (get_data_block sb i) off n ≡ file_bytes sb d inode p n
  unfolding block_bytes
  block_bytes-file_bytes i p off zero e o h = refl
  block_bytes-file_bytes i p off (suc zero) e o h =
      ap (λ (x : ℕ). x ∷ [])
        (ap (d (get_data_block sb i)) o ∙ ap (λ (x : Option ℕ). byte_in d sb x p) (sym e))
  block_bytes-file_bytes i p off (suc (suc n)) e o h =
      let q : (p + 1) / 512 ≡ p / 512 = omega arith in
      ap₂ (λ (x : ℕ) (l : List ℕ). x ∷ l)
        (ap (d (get_data_block sb i)) o ∙ ap (λ (x : Option ℕ). byte_in d sb x p) (sym e))
        (block_bytes-file_bytes i (p + 1) (off + 1) (suc n) (ap (find_block sb d inode) q ∙ e)
          (omega arith) (omega arith))

  pub found : (b : ℕ) → b < 32900 → (i : ℕ) × (find_block sb d inode b ≡ some i)
  found b h = elim (Option-cases (find_block sb d inode b)) [
    | inr x ↦ x
    | inl e ↦
        let k : 32900 ≤ b = (allocate_block_from_inode_einval_iff sb d 0 0 b (λ x. inode)).2.0 e in
        ground arith
  ]

  -- A round starts where a block does, but for the first.
  abbrev pub Starts : ℕ → ℕ → ℕ → Type 0
  Starts pos len at = ((at ≡ 0) ⊎ (len ≤ at)) ⊎ (((pos + at) % 512 ≡ 0) × (512 ≤ pos % 512 + at))

  -- What a round copies: `n` bytes from offset `o`, at least one, within its block and within what is
  -- left.
  pub record Round (pos len at o n : ℕ) : Type 0 where
    pub some_byte : 1 ≤ n
    pub left : at + n ≤ len
    pub offset : o ≡ (pos + at) % 512
    pub one_block : o + n ≤ 512
    pub starts : Starts pos len (at + n)

  pub Starts-Round :
      (pos len at : ℕ)
      → pos + len ≤ 16844800
      → at < len
      → Starts pos len at
      → Round pos len at (round_offset pos len at) (round_size pos len at)
  unfolding round_size round_offset
  Starts-Round pos len at lim h s =
      let small : (pos + len) % u64_mod ≡ pos + len = omega arith in
      elim (Bool-cases (pos / 512 == (pos + len) / 512)) [
        | inl e ↦
            let q : pos / 512 ≡ (pos + len) / 512 = ==→eq (pos / 512) ((pos + len) / 512) e in
            let a : at ≡ 0 = omega arith in
            let n : ((pos + len) % 512 + u64_mod - pos % 512) % u64_mod ≡ len = omega arith in
            rw (small, e, n)
              (record {
                some_byte = omega arith;
                left = omega arith;
                offset = omega arith;
                one_block = omega arith;
                starts = inl (inr (omega arith));
              })
        | inr e ↦
            let q : ¬ (pos / 512 ≡ (pos + len) / 512) = ==→ne (pos / 512) ((pos + len) / 512) e in
            elim (Bool-cases (at == 0)) [
              | inl z ↦
                  let a : at ≡ 0 = ==→eq at 0 z in
                  rw (small, e, z)
                    (record {
                      some_byte = omega arith;
                      left = omega arith;
                      offset = omega arith;
                      one_block = omega arith;
                      starts = inr (omega arith, omega arith);
                    })
              | inr z ↦
                  let a : ¬ (at ≡ 0) = ==→ne at 0 z in
                  elim (Bool-cases (ltb (len - at) 512)) [
                    | inl y ↦
                        let b : len - at < 512 = ltb→lt (len - at) 512 y in
                        rw (small, e, z, y)
                          (record {
                            some_byte = omega arith;
                            left = omega arith;
                            offset = omega arith;
                            one_block = omega arith;
                            starts = inl (inr (omega arith));
                          })
                    | inr y ↦
                        let b : 512 ≤ len - at = ltb→ge (len - at) 512 y in
                        rw (small, e, z, y)
                          (record {
                            some_byte = omega arith;
                            left = omega arith;
                            offset = omega arith;
                            one_block = omega arith;
                            starts = inr (omega arith, omega arith);
                          })
                  ]
            ]
      ]

  fetch_loop-file_bytes :
      (pos len fuel at : ℕ)
      → pos + len ≤ 16844800
      → at ≤ len
      → len ≤ at + fuel
      → Starts pos len at
      → fetch_loop sb d inode pos len fuel at ≡ some (file_bytes sb d inode (pos + at) (len - at))
  unfolding fetch_loop prepend
  fetch_loop-file_bytes pos len zero at lim h k s =
      ap (λ (n : ℕ). some (file_bytes sb d inode (pos + at) n))
        (let q : 0 ≡ len - at = omega arith in q)
  fetch_loop-file_bytes pos len (suc fuel) at lim h k s = elim (Bool-cases (ltb at len)) [
    | inr e ↦
        let g : len ≤ at = ltb→ge at len e in
        rw e (
          ap (λ (n : ℕ). some (file_bytes sb d inode (pos + at) n))
            (let q : 0 ≡ len - at = omega arith in q))
    | inl e ↦
        let lt : at < len = ltb→lt at len e in
        let r = Starts-Round pos len at lim lt s in
        let n = round_size pos len at in
        let (sb1, lf, ofs, ob) : (1 ≤ n)
            × (at + n ≤ len)
            × (round_offset pos len at ≡ (pos + at) % 512)
            × (round_offset pos len at + n ≤ 512) =
          (r.some_byte, r.left, r.offset, r.one_block) in
        let (i, b) = found ((pos + at) / 512) (omega arith) in
        let w : (pos + at) / 512 % u32_mod ≡ (pos + at) / 512 = omega arith in
        let w' : (at + n) % u64_mod ≡ at + n = omega arith in
        let ih = fetch_loop-file_bytes pos len fuel (at + n) lim lf (omega arith) r.starts in
        let bytes = block_bytes-file_bytes i (pos + at) (round_offset pos len at) n b ofs ob in
        let m : len - at ≡ n + (len - (at + n)) = omega arith in
        let m' : pos + (at + n) ≡ pos + at + n = omega arith in
        rw (e, w, b, w', ih)
          (ap some (
            ap₂ (λ (x y : List ℕ). x ++ y) bytes
              (ap (λ (t : ℕ). file_bytes sb d inode t (len - (at + n))) m')
            ∙ sym (file_bytes-append (pos + at) n (len - (at + n)))
            ∙ ap (file_bytes sb d inode (pos + at)) (sym m)))
  ]

  length-file_bytes : (p n : ℕ) → length (file_bytes sb d inode p n) ≡ n
  length-file_bytes p zero = refl
  length-file_bytes p (suc n) = ap suc (length-file_bytes (p + 1) n)

fetch_len-eq :
    (f : File) (len : ℕ)
    → f.pos ≤ f.file_size
    → f.file_size ≤ 16844800
    → len < 2 ^ 63
    → fetch_len f len ≡ min len (f.file_size - f.pos)
unfolding fetch_len
fetch_len-eq f len h k l = elim (Bool-cases (ltb f.file_size ((f.pos + len) % u64_mod))) [
  | inl e ↦ let q = ltb→lt f.file_size ((f.pos + len) % u64_mod) e in rw e (omega arith)
  | inr e ↦ let q = ltb→ge f.file_size ((f.pos + len) % u64_mod) e in rw e (omega arith)
]

abbrev reply : File → ℕ → List ℕ → File × Option (List ℕ)
reply f x y = (record f { pos = x }, some y)

-- A read of an open file returns the bytes of the file from its position on, as many as were asked
-- for or as are left, and moves the position behind them. The position is within the file, the file
-- no larger than 32900 blocks, and the number of bytes asked for is that of a signed count.
pub ktfs_fetch-file_bytes :
    (sb : Superblock) (d : Disk) (f : File) (len : ℕ)
    → f.pos ≤ f.file_size
    → f.file_size ≤ 16844800
    → len < 2 ^ 63
    → let n = min len (f.file_size - f.pos) in
      ktfs_fetch sb d f false true len
      ≡ (record f { pos = f.pos + n }, some (file_bytes sb d (get_inode sb d f.inode) f.pos n))
unfolding ktfs_fetch after_fetch
ktfs_fetch-file_bytes sb d f len h k l =
    let n = min len (f.file_size - f.pos) in
    let inode = get_inode sb d f.inode in
    let bytes = file_bytes sb d inode f.pos n in
    elim (Bool-cases (len == 0)) [
      | inl e ↦
          let z : 0 ≡ n = let q = ==→eq len 0 e in omega arith in
          let p : f.pos ≡ f.pos + n = omega arith in
          rw e (ap₂ (λ (x : ℕ) (y : List ℕ). reply f x y) p (ap (file_bytes sb d inode f.pos) z))
      | inr e ↦
          let loop : fetch_loop sb d inode f.pos (fetch_len f len) (fetch_len f len) 0
              ≡ some bytes =
            ap (λ (t : ℕ). fetch_loop sb d inode f.pos t t 0) (fetch_len-eq f len h k l)
            ∙ fetch_loop-file_bytes sb d inode f.pos n n 0 (omega arith) (omega arith) (omega arith)
                (inl (inl refl))
            ∙ ap some (
                ap₂ (file_bytes sb d inode) (let q : f.pos + 0 ≡ f.pos = omega arith in q)
                  (let q : n - 0 ≡ n = omega arith in q)) in
          let size = length-file_bytes sb d inode f.pos n in
          let p : (f.pos + length bytes) % u64_mod ≡ f.pos + n = omega arith in
          rw (e, loop) (ap (λ (x : ℕ). reply f x bytes) p)
    ]
