-- ===== src/Mounts/Lookup.antt =====
-- The list of mount points of sys/filesys.c is a map from names to file systems.
use model_lib.Base.{
  ℕ, ◌≡◌, refl, sym, ap, ◌∙◌, inl, inr, Bool, true, false, Option, none, some, List, [], ◌∷◌,
  if◌then◌else◌, Bool-cases,
}
use model_lib.Text.{name_equals}
use model_lib.Text.Compare.{name_equals→eq}
use model_lib.Mounts.{Filesystem, Mountpoint, FsReply, success, eexist, attach_filesystem, get_fs}

module _ (S : Type 0) where
  -- A map with a value at a name where it has none.
  abbrev pub default_at : Option (Filesystem S) → Bool → Filesystem S → Option (Filesystem S)
  default_at (some g) here fs = some g
  default_at none here fs = if here then some fs else none

  abbrev pub reply_for : Option (Filesystem S) → FsReply S
  reply_for none = success
  reply_for (some g) = eexist

  default_at-false : (x : Option (Filesystem S)) (fs : Filesystem S) → default_at x false fs ≡ x
  default_at-false none fs = refl
  default_at-false (some g) fs = refl

  name_equals_trans : (s t u : List ℕ) → name_equals s t ≡ true → name_equals s u ≡ name_equals t u
  name_equals_trans s t u e = ap (λ (x : List ℕ). name_equals x u) (name_equals→eq s t e)

  -- Attaching a file system is refused exactly where the name has one already, and otherwise adds it
  -- to the map from names to file systems; every other name keeps what it has.
  pub get_fs-attach_filesystem :
      (mps : List (Mountpoint S)) (mpname other : List ℕ) (fs : Filesystem S)
      → let r = attach_filesystem S mps mpname fs in
        (get_fs S r.0 other ≡ default_at (get_fs S mps other) (name_equals mpname other) fs)
        × (r.1 ≡ reply_for (get_fs S mps mpname))
  unfolding get_fs attach_filesystem
  get_fs-attach_filesystem [] mpname other fs = (refl, refl)
  get_fs-attach_filesystem (mp ∷ l) mpname other fs =
      let (a, b) = get_fs-attach_filesystem l mpname other fs in
      elim (Bool-cases (name_equals mp.name mpname)) [
        | inl e ↦
            let t = name_equals_trans mp.name mpname other e in
            elim (Bool-cases (name_equals mp.name other)) [
              | inl o ↦ rw (e, o) (refl, refl)
              | inr o ↦
                  (let n : name_equals mpname other ≡ false = sym t ∙ o in
                    rw (e, o, n) (sym (default_at-false (get_fs S l other) fs), refl))
            ]
        | inr e ↦ elim (Bool-cases (name_equals mp.name other)) [
          | inl o ↦ rw (e, o) (refl, b)
          | inr o ↦ rw (e, o) (a, b)
        ]
      ]
