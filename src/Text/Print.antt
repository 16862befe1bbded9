-- ===== src/Text/Print.antt =====
-- vsnprintf of sys/string.c keeps to its buffer.
use model_lib.Base.{
  ℕ, zero, suc, ◌+◌, ◌-◌, ◌≤◌, min, ◌≡◌, refl, sym, ap, ap₂, ◌∙◌, true, false, List, [], ◌∷◌, ◌++◌,
  arith, leb, ◌==◌, length, take, length-append, length-take, take-nil,
}
use model_lib.Text.Format.{Arg, vgprintf, vsnprintf_putc, put_all, vsnprintf}

-- What is put when only the end of the buffer is left is dropped.
put_all-full : (out buf : List ℕ) (rem : ℕ) → rem ≤ 1 → put_all (buf, rem) out ≡ (buf, rem)
unfolding put_all vsnprintf_putc
put_all-full [] buf rem h = refl
put_all-full (c ∷ out) buf rem h =
    let e : leb rem 1 ≡ true = ground arith in rw e (put_all-full out buf rem h)

append_assoc : (xs ys zs : List ℕ) → (xs ++ ys) ++ zs ≡ xs ++ (ys ++ zs)
append_assoc [] ys zs = refl
append_assoc (x ∷ xs) ys zs = ap (λ (l : List ℕ). x ∷ l) (append_assoc xs ys zs)

append_nil : (xs : List ℕ) → xs ++ [] ≡ xs
append_nil [] = refl
append_nil (x ∷ xs) = ap (λ (l : List ℕ). x ∷ l) (append_nil xs)

put_all-take :
    (out buf : List ℕ) (room : ℕ)
    → put_all (buf, suc room) out ≡ (buf ++ take room out, suc room - min room (length out))
unfolding put_all vsnprintf_putc
put_all-take [] buf room =
    ap₂ (λ (l : List ℕ) (n : ℕ). (l, n)) (rw (take-nil {A = ℕ} room) (sym (append_nil buf)))
      (omega arith)
put_all-take (c ∷ out) buf zero =
    put_all-full (c ∷ out) buf 1 (omega arith)
    ∙ ap₂ (λ (l : List ℕ) (n : ℕ). (l, n)) (sym (append_nil buf)) (omega arith)
put_all-take (c ∷ out) buf (suc room) =
    let e : leb (suc (suc room)) 1 ≡ false = ground arith in
    let q : suc (suc room) - 1 ≡ suc room = omega arith in
    rw (e, q)
      (put_all-take out (buf ++ (c ∷ [])) room
        ∙ ap₂ (λ (l : List ℕ) (n : ℕ). (l, n)) (append_assoc buf (c ∷ []) (take room out))
            (omega arith))

-- For a buffer of at least one byte, vsnprintf writes the first bytes of the output that fit, and a NUL
-- behind them, and no more than bufsz bytes. It returns the length of the whole output, with the NUL.
pub vsnprintf-take :
    (room : ℕ) (fmt : List ℕ) (args : List Arg)
    → let out = vgprintf fmt args in
      (vsnprintf (suc room) fmt args ≡ (take room out ++ (0 ∷ []), length out + 1))
      × (length (vsnprintf (suc room) fmt args).0 ≤ suc room)
unfolding vsnprintf
vsnprintf-take room fmt args =
    let out = vgprintf fmt args in
    let p = put_all-take out [] room in
    let e : (suc room - min room (length out) == 0) ≡ false = ground arith in
    let l = length-append (take room out) (0 ∷ []) in
    let k = length-take room out in (rw (p, e) refl, rw (p, e, l) (omega (arith, k)))
