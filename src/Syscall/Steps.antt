-- ===== src/Syscall/Steps.antt =====
-- sysopen of sys/syscall.c and the counts of the endpoints, over file systems that count what they open.
use model_lib.Base.{
  ℕ, ◌+◌, ◌-◌, ◌^◌, ◌≤◌, ◌≡◌, refl, ap, ◌∙◌, inl, inr, Bool, true, false, Option, none, some, List,
  [], ◌∷◌, arith, ltb, ◌==◌, if◌then◌else◌, Bool-cases, Option-cases, ==→eq,
}
use model_lib.Mounts.{
  Filesystem, FsReply, success, einval, enotsup, enoent, eexist, listing, panics, replied, get_fs,
  open_file, call_fs, parse_path,
}
use model_lib.Paging.Check.{
  TextCheck, answers, kernel_fault, unfinished, valid, einval, validate_vstr,
}
use model_lib.Syscall.Calls.{
  Outcome, done, failed_assertion, closes_null, page_fault, no_end, sysopen, opened, checked,
  open_path, open_parts, open_fd, text_at, ru,
}
use model_lib.Syscall.{uiotab}
use model_lib.Paging.{umem_start_vma, umem_end_vma}
use model_lib.Uio.{ℤ, einval}
use model_lib.Paging.{PageSource, Mem}
use model_lib.Uio.{Reply, UioIntf, Kernel, uio_init1, put_uio, replies, returns}
use model_lib.Syscall.{put_slot}
use model_lib.Syscall.Calls.{Files, opened_code, close_opened}
use model_lib.Syscall.Counts.{
  IsCounted, slots, in_slot, slots-put_entry, uio_close-refcnt, uio_close-proctab,
}

module _ (src : PageSource) (W : Type 0) (mem : W → Mem src) where
  -- What a file system leaves when it opens a file: the tables as they were, and a reference for the
  -- caller where there is an endpoint.
  pub record Opens (s : Kernel W) (r : Kernel W × Option ℕ) : Type 0 where
    pub same : r.0.proctab ≡ s.proctab
    pub counted : (a : ℕ) → slots a s.proctab + in_slot a r.1 ≤ (r.0.uios a).refcnt

  pub record Counting (fs : Files src W mem) : Type 0 where
    pub opens :
        (mpname : List ℕ) (f : Filesystem (Kernel W × Option ℕ))
        (g : Option (List ℕ) → Kernel W × Option ℕ → (Kernel W × Option ℕ) × ℕ)
        → get_fs (Kernel W × Option ℕ) fs.mplist mpname ≡ some f
        → f.open_fn ≡ some g
        → (flname : Option (List ℕ)) (s : Kernel W) → IsCounted W s
        → Opens s (g flname (s, none)).0

  unopened : (s : Kernel W) → IsCounted W s → Opens s (s, none)
  unfolding in_slot
  unopened s v = record { same = refl; counted = λ a. let x = v a in omega arith }

  open_file-Opens :
      (fs : Files src W mem)
      → Counting fs
      → (mpname flname : List ℕ) (s : Kernel W) → IsCounted W s
      → Opens s (open_file (Kernel W × Option ℕ) fs.mplist (some mpname) (some flname) (s, none)).0
  unfolding open_file call_fs
  open_file-Opens fs c [] flname s v = unopened s v
  open_file-Opens fs c (x ∷ mpname) flname s v =
      elim (Option-cases (get_fs (Kernel W × Option ℕ) fs.mplist (x ∷ mpname))) [
        | inl e ↦ rw e (unopened s v)
        | inr (f, e) ↦ elim (Option-cases f.open_fn) [
          | inl z ↦ rw (e, z) (unopened s v)
          | inr (g, z) ↦ rw (e, z) (c.opens (x ∷ mpname) f g e z (some flname) s v)
        ]
      ]

  -- The states that a call may leave.
  abbrev pub Leaves : Outcome (Kernel W × Reply) → Type 0
  Leaves (done (s, r)) = IsCounted W s
  Leaves failed_assertion = Unit
  Leaves closes_null = Unit
  Leaves page_fault = Unit
  Leaves no_end = Unit

  put_opened :
      (s s' : Kernel W) (o : Option ℕ) (p n : ℕ)
      → Opens s (s', o)
      → IsCounted W (put_slot W s' p n o)
  unfolding put_slot
  put_opened s s' o p n h a =
      let x = h.counted a in
      let k = slots-put_entry s'.proctab p n o a in let e = ap (slots a) h.same in omega arith

  close_opened-Leaves :
      (s s' : Kernel W) (o : Option ℕ) (p n code : ℕ)
      → Opens s (s', o)
      → Leaves (close_opened src W mem s' p n code o)
  unfolding put_slot in_slot
  close_opened-Leaves s s' none p n code h = tt
  close_opened-Leaves s s' (some b) p n code h = λ a.
      let x = h.counted a in
      let k = slots-put_entry s'.proctab p n none a in
      let e = ap (slots a) h.same in
      rw (uio_close-proctab W s' b, uio_close-refcnt W s' b a) (omega arith)

  if_either :
      (b : Bool) (x y : Outcome (Kernel W × Reply))
      → Leaves x
      → Leaves y
      → Leaves (if b then x else y)
  if_either true x y h k = h
  if_either false x y h k = k

  opened_code-Leaves :
      (s : Kernel W) (r : Kernel W × Option ℕ) (p n code : ℕ)
      → Opens s r
      → Leaves (opened_code src W mem p n r.0 code r.1)
  opened_code-Leaves s (s', o) p n code h =
      let kept = put_opened s s' o p n h in
      if_either (ltb code (2 ^ 31)) (done (put_slot W s' p n o, returns n))
        (if code == 2 ^ 32 - 6
          then close_opened src W mem s' p n code o
          else done (put_slot W s' p n o, replies code))
        kept
        (if_either (code == 2 ^ 32 - 6) (close_opened src W mem s' p n code o)
          (done (put_slot W s' p n o, replies code)) (close_opened-Leaves s s' o p n code h) kept)

  put_listing :
      (s : Kernel W) (r : Kernel W × Option ℕ) (p n at : ℕ) (i : UioIntf W)
      → Opens s r
      → slots at s.proctab ≡ 0
      → IsCounted W (put_slot W (uio_init1 W r.0 at i) p n (some at))
  unfolding put_slot uio_init1 put_uio in_slot
  put_listing s (s', o) p n at i h fresh a =
      let x = h.counted a in
      let k = slots-put_entry s'.proctab p n (some at) a in
      let e = ap (slots a) h.same in
      elim (Bool-cases (a == at)) [
        | inl q ↦
            let z : slots a s.proctab ≡ 0 =
              ap (λ (b : ℕ). slots b s.proctab) (==→eq a at q) ∙ fresh in
            let j : in_slot a (some at) ≡ 1 = rw q refl in rw q (omega arith)
        | inr q ↦ (let j : in_slot a (some at) ≡ 0 = rw q refl in rw q (omega arith))
      ]

  opened-Leaves :
      (fs : Files src W mem) (s : Kernel W) (r : Kernel W × Option ℕ) (p n : ℕ)
      (reply : FsReply (Kernel W × Option ℕ))
      → slots fs.listing_at s.proctab ≡ 0
      → Opens s r
      → Leaves (opened src W mem fs p n (r, reply))
  opened-Leaves fs s r p n panics fresh h = tt
  opened-Leaves fs s r p n listing fresh h =
      put_listing s r p n fs.listing_at fs.listing_intf h fresh
  opened-Leaves fs s r p n success fresh h = opened_code-Leaves s r p n 0 h
  opened-Leaves fs s r p n einval fresh h = opened_code-Leaves s r p n (2 ^ 32 - 1) h
  opened-Leaves fs s r p n enotsup fresh h = opened_code-Leaves s r p n (2 ^ 32 - 3) h
  opened-Leaves fs s r p n enoent fresh h = opened_code-Leaves s r p n (2 ^ 32 - 6) h
  opened-Leaves fs s r p n eexist fresh h = opened_code-Leaves s r p n (2 ^ 32 - 15) h
  opened-Leaves fs s r p n (replied code) fresh h = opened_code-Leaves s r p n code h

  checked-Leaves :
      (v : TextCheck) (refused : Kernel W × Reply) (a : Outcome (Kernel W × Reply))
      → Leaves (done refused)
      → Leaves a
      → Leaves (checked src W mem v refused a)
  checked-Leaves (answers einval) refused a h k = h
  checked-Leaves (answers valid) refused a h k = k
  checked-Leaves kernel_fault refused a h k = tt
  checked-Leaves unfinished refused a h k = tt

  -- sysopen, whichever path it takes.
  pub sysopen-Leaves :
      (fs : Files src W mem) (s : Kernel W) (p : ℕ) (fd : ℤ) (path : ℕ)
      → Counting fs
      → slots fs.listing_at s.proctab ≡ 0
      → IsCounted W s
      → Leaves (sysopen src W mem fs s p fd path)
  unfolding sysopen
  sysopen-Leaves fs s p fd path c fresh v =
      let text = text_at src W mem (mem s.world) (umem_end_vma - umem_start_vma) path in
      checked-Leaves (validate_vstr src (mem s.world) path ru) (s, einval)
        (open_path src W mem fs s p fd text (open_fd (uiotab W s p) fd)) v
        (at (open_fd (uiotab W s p) fd) text)
    where
      parts : (n : ℕ) (q : Option (List ℕ × List ℕ)) → Leaves (open_parts src W mem fs s p n q)
      parts n none = v
      parts n (some (mpname, flname)) =
          let o = open_file (Kernel W × Option ℕ) fs.mplist (some mpname) (some flname) (s, none) in
          opened-Leaves fs s o.0 p n o.1 fresh (open_file-Opens fs c mpname flname s v)

      at : (n : Option ℕ) (text : List ℕ) → Leaves (open_path src W mem fs s p fd text n)
      at none text = v
      at (some n) text = parts n (parse_path (some text))
