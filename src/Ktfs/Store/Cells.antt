-- ===== src/Ktfs/Store/Cells.antt =====
-- What a write of bytes to a block leaves on the disk.
use model_lib.Base.{
  ℕ, zero, suc, ◌+◌, ◌-◌, ◌<◌, ◌≡◌, refl, sym, ap, ◌∙◌, inl, inr, true, false, ◌&&◌, List, [], ◌∷◌,
  arith, ltb, leb, ◌==◌, if◌then◌else◌, Bool-cases, ==→eq, ==→ne, ==_self, length, get_or, take,
  drop,
}
use model_lib.Ktfs.{Disk, write_byte}
use model_lib.Ktfs.Dir.{write_bytes}

pub get_or-take : (n i : ℕ) (l : List ℕ) → i < n → get_or (take n l) i 0 ≡ get_or l i 0
get_or-take zero i l h = elim h [ ]
get_or-take (suc n) i [] h = refl
get_or-take (suc n) zero (c ∷ l) h = refl
get_or-take (suc n) (suc i) (c ∷ l) h = get_or-take n i l (omega arith)

pub get_or-drop : (n i : ℕ) (l : List ℕ) → get_or (drop n l) i 0 ≡ get_or l (n + i) 0
get_or-drop zero i l = ap (λ (x : ℕ). get_or l x 0) (let e : i ≡ 0 + i = omega arith in e)
get_or-drop (suc n) i [] = refl
get_or-drop (suc n) i (c ∷ l) =
    let e : suc n + i ≡ suc (n + i) = omega arith in
    get_or-drop n i l ∙ ap (λ (x : ℕ). get_or (c ∷ l) x 0) (sym e)

-- A byte behind a write: one of those written, or the one before.
abbrev pub written_byte : ℕ → List ℕ → ℕ → ℕ → ℕ
written_byte off l old o = if leb off o && ltb o (off + length l) then get_or l (o - off) 0 else old

pub write_bytes-same :
    (d : Disk) (pos off : ℕ) (l : List ℕ) (o : ℕ)
    → write_bytes d pos off l pos o ≡ written_byte off l (d pos o) o
unfolding write_bytes write_byte
write_bytes-same d pos off [] o =
    let e : (leb off o && ltb o (off + 0)) ≡ false = ground arith in rw e refl
write_bytes-same d pos off (c ∷ l) o =
    let ih = write_bytes-same (write_byte d pos off c) pos (off + 1) l o in
    let r = ==_self pos in
    elim (Bool-cases (o == off)) [
      | inl e ↦
          let q : o ≡ off = ==→eq o off e in
          let z : o - off ≡ 0 = omega arith in
          let a : (leb (off + 1) o && ltb o (off + 1 + length l)) ≡ false = ground arith in
          let b : (leb off o && ltb o (off + suc (length l))) ≡ true = ground arith in
          rw (ih, a, b, z, r, e) refl
      | inr e ↦
          let q : ¬ (o ≡ off) = ==→ne o off e in
          elim (Bool-cases (leb (off + 1) o && ltb o (off + 1 + length l))) [
            | inl a ↦
                let b : (leb off o && ltb o (off + suc (length l))) ≡ true = ground arith in
                let z : o - off ≡ suc (o - (off + 1)) = ground arith in rw (ih, a, b, z) refl
            | inr a ↦
                let b : (leb off o && ltb o (off + suc (length l))) ≡ false = ground arith in
                rw (ih, a, b, r, e) refl
          ]
    ]

pub write_bytes-other :
    (d : Disk) (pos off : ℕ) (l : List ℕ) (p o : ℕ)
    → ¬ (p ≡ pos)
    → write_bytes d pos off l p o ≡ d p o
unfolding write_bytes write_byte
write_bytes-other d pos off [] p o h = refl
write_bytes-other d pos off (c ∷ l) p o h =
    let e : (p == pos) ≡ false = ground arith in
    write_bytes-other (write_byte d pos off c) pos (off + 1) l p o h ∙ rw e refl
