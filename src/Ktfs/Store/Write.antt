-- ===== src/Ktfs/Store/Write.antt =====
-- A write to a file of sys/ktfs.c, and what a read returns behind it.
use model_lib.Base.{
  ℕ, zero, suc, ◌+◌, ◌-◌, ◌*◌, ◌/◌, ◌%◌, ◌≤◌, ◌<◌, ◌≡◌, refl, sym, ap, ◌∙◌, inl, inr, true, false,
  ◌&&◌, some, List, arith, ltb, leb, ◌==◌, if◌then◌else◌, Bool-cases, ltb→lt, lt→ltb, ltb→ge, ==→eq,
  ==→ne, length, get_or, take, drop, length-take, length-drop,
}
use model_lib.Ktfs.{Disk, Superblock, u32_mod}
use model_lib.Ktfs.Inode.{Inode, get_data_block, find_block}
use model_lib.Ktfs.Dir.{write_bytes}
use model_lib.Ktfs.File.{u64_mod, round_offset, round_size}
use model_lib.Ktfs.File.Fetch.{Starts, Starts-Round}
use model_lib.Ktfs.Store.{max_size, store_loop}
use model_lib.Ktfs.Store.Cells.{
  get_or-take, get_or-drop, written_byte, write_bytes-same, write_bytes-other,
}

module _ (sb : Superblock) (inode : Inode) (count : ℕ) (tree : ℕ → ℕ) where
  abbrev pub place : ℕ → ℕ
  place b = get_data_block sb (tree b)

  -- The byte of the file at a position.
  abbrev pub cell : Disk → ℕ → ℕ
  cell d q = d (place (q / 512)) (q % 512)

  -- Two disks that differ in the first blocks of the file at most.
  abbrev pub Agree : Disk → Disk → Type 0
  Agree d d' = (p o : ℕ) → ((b : ℕ) → b < count → ¬ (p ≡ place b)) → d' p o ≡ d p o

  -- The first blocks of the file stand apart from each other, and none of them holds a part of its tree: a
  -- disk that differs from this one in those blocks only has the same tree.
  pub record IsTree (d : Disk) : Type 0 where
    pub apart : (b c : ℕ) → b < count → c < count → ¬ (b ≡ c) → ¬ (place b ≡ place c)
    pub stays :
        (d' : Disk) → Agree d d' → (b : ℕ) → b < count → find_block sb d' inode b ≡ some (tree b)

  -- Bytes written at a position of the file.
  abbrev pub new_byte : Disk → ℕ → ℕ → ℕ → List ℕ → ℕ → ℕ
  new_byte d pos from to buf q =
      if leb (pos + from) q && ltb q (pos + to) then get_or buf (q - pos) 0 else cell d q

  -- What the rounds from `from` on leave.
  pub record Wrote (pos from to : ℕ) (buf : List ℕ) (d : Disk) (d' : Disk) : Type 0 where
    pub bytes : (q : ℕ) → q < 512 * count → cell d' q ≡ new_byte d pos from to buf q
    pub others : Agree d d'

  round-Wrote :
      (d : Disk) (pos at n len off : ℕ) (buf : List ℕ)
      → ((b c : ℕ) → b < count → c < count → ¬ (b ≡ c) → ¬ (place b ≡ place c))
      → pos + len ≤ 512 * count
      → 1 ≤ n
      → at + n ≤ len
      → len ≡ length buf
      → off ≡ (pos + at) % 512
      → off + n ≤ 512
      → Wrote pos at
          (at + n)
          buf
          d
          (write_bytes d (place ((pos + at) / 512)) off (take n (drop at buf)))
  round-Wrote d pos at n len off buf apart lim one left size o block =
      let b = (pos + at) / 512 in
      let l = take n (drop at buf) in
      let d' = write_bytes d (place b) off l in
      let k : length l ≡ n = length-take n (drop at buf) ∙ omega (arith, length-drop at buf) in
      record {
        bytes = λ q h. elim (Bool-cases (q / 512 == b)) [
          | inr e ↦
              let ne : ¬ (q / 512 ≡ b) = ==→ne (q / 512) b e in
              let out : (leb (pos + at) q && ltb q (pos + (at + n))) ≡ false = ground arith in
              rw out (
                write_bytes-other d (place b) off l (place (q / 512)) (q % 512)
                  (apart (q / 512) b (omega arith) (omega arith) ne))
          | inl e ↦
              let eq : q / 512 ≡ b = ==→eq (q / 512) b e in
              let same : cell d' q ≡ written_byte off l (d (place b) (q % 512)) (q % 512) =
                rw eq (write_bytes-same d (place b) off l (q % 512)) in
              elim (Bool-cases (leb (pos + at) q && ltb q (pos + (at + n)))) [
                | inl i ↦
                    let inside : (leb off (q % 512) && ltb (q % 512) (off + length l)) ≡ true =
                      ground arith in
                    let lt : q % 512 - off < n = ground arith in
                    let t : at + (q % 512 - off) ≡ q - pos = ground arith in
                    rw (i, same, inside)
                      (get_or-take n (q % 512 - off) (drop at buf) lt
                        ∙ get_or-drop at (q % 512 - off) buf
                        ∙ ap (λ (x : ℕ). get_or buf x 0) t)
                | inr i ↦
                    let outside : (leb off (q % 512) && ltb (q % 512) (off + length l)) ≡ false =
                      ground arith in
                    rw (i, same, outside) (ap (λ (x : ℕ). d (place x) (q % 512)) (sym eq))
              ]
        ];
        others = λ p x h. write_bytes-other d (place b) off l p x (h b (omega arith));
      }

  Wrote-then :
      (d d1 d2 : Disk) (pos a b c : ℕ) (buf : List ℕ)
      → a ≤ b
      → b ≤ c
      → Wrote pos a b buf d d1
      → Wrote pos b c buf d1 d2
      → Wrote pos a c buf d d2
  Wrote-then d d1 d2 pos a b c buf h k v w = record {
    bytes = λ q lim.
        let x = v.bytes q lim in
        let y = w.bytes q lim in
        elim (Bool-cases (leb (pos + b) q && ltb q (pos + c))) [
          | inl e ↦
              let all : (leb (pos + a) q && ltb q (pos + c)) ≡ true = ground arith in
              rw all (y ∙ rw e refl)
          | inr e ↦ elim (Bool-cases (leb (pos + a) q && ltb q (pos + b))) [
            | inl f ↦
                let all : (leb (pos + a) q && ltb q (pos + c)) ≡ true = ground arith in
                rw all (y ∙ rw e (x ∙ rw f refl))
            | inr f ↦
                let all : (leb (pos + a) q && ltb q (pos + c)) ≡ false = ground arith in
                rw all (y ∙ rw e (x ∙ rw f refl))
          ]
        ];
    others = λ p o z. w.others p o z ∙ v.others p o z;
  }

  Wrote-nothing : (d : Disk) (pos a c : ℕ) (buf : List ℕ) → c ≤ a → Wrote pos a c buf d d
  Wrote-nothing d pos a c buf h = record {
    bytes =
        λ q lim. (let e : (leb (pos + a) q && ltb q (pos + c)) ≡ false = ground arith in rw e refl);
    others = λ p o z. refl;
  }

  -- One round of the loop.
  store_loop-round :
      (d : Disk) (pos len fuel at n b : ℕ) (buf : List ℕ)
      → at < len
      → len ≤ max_size
      → n ≡ round_size pos len at
      → at + n ≤ len
      → (pos + at) / 512 ≡ b
      → b < 32900
      → find_block sb d inode b ≡ some (tree b)
      → store_loop sb inode pos len buf (suc fuel) at d
        ≡ store_loop sb inode pos len buf fuel
            (at + n)
            (write_bytes d (place b) (round_offset pos len at) (take n (drop at buf)))
  unfolding store_loop
  store_loop-round d pos len fuel at n b buf lt lim size left here small f =
      let e : ltb at len ≡ true = lt→ltb at len lt in
      let w : (pos + at) / 512 % u32_mod ≡ b = omega arith in
      let w' : (at + n) % u64_mod ≡ at + n = omega arith in rw (e, w, f, sym size, w') refl

  pub store_loop-Wrote :
      (d d0 : Disk) (pos len fuel at : ℕ) (buf : List ℕ)
      → count ≤ 32900
      → IsTree d0
      → Agree d0 d
      → pos + len ≤ 512 * count
      → at ≤ len
      → len ≤ at + fuel
      → len ≡ length buf
      → Starts sb d0 inode pos len at
      → (d' : Disk) × (store_loop sb inode pos len buf fuel at d ≡ (d', some len))
        × Wrote pos at len buf d d'
  unfolding store_loop
  store_loop-Wrote d d0 pos len zero at buf few v g lim h k size s = (
    d,
    ap (λ (x : ℕ). (d, some x)) (let q : at ≡ len = omega arith in q),
    Wrote-nothing d pos at len buf (omega arith),
  )
  store_loop-Wrote d d0 pos len (suc fuel) at buf few v g lim h k size s =
      elim (Bool-cases (ltb at len)) [
        | inr e ↦
            (let q : at ≡ len = (let g' = ltb→ge at len e in omega arith) in
              (
                d,
                rw e (ap (λ (x : ℕ). (d, some x)) q),
                Wrote-nothing d pos at len buf (omega arith),
              ))
        | inl e ↦
            let lt : at < len = ltb→lt at len e in
            let r = Starts-Round sb d0 inode pos len at (omega arith) lt s in
            let n = round_size pos len at in
            let b = (pos + at) / 512 in
            let off = round_offset pos len at in
            let f = v.stays d g b (omega arith) in
            let left : at + n ≤ len = r.left in
            let step =
              store_loop-round d pos len fuel at n b buf lt (omega arith) refl left refl
                (omega arith) f in
            let d1 = write_bytes d (place b) off (take n (drop at buf)) in
            let one =
              round-Wrote d pos at n len off buf v.apart lim r.some_byte left size r.offset
                r.one_block in
            let some1 : 1 ≤ n = r.some_byte in
            let (d2, e2, w2) =
              store_loop-Wrote d1 d0 pos len fuel (at + n) buf few v
                (λ p o z. one.others p o z ∙ g p o z) lim left (omega arith) size r.starts in
            (d2, step ∙ e2, Wrote-then d d1 d2 pos at (at + n) len buf (omega arith) left one w2)
      ]
