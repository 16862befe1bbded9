-- ===== src/Ktfs/Store/Control.antt =====
-- The size of a file of sys/ktfs.c, and ktfs_cntl.
use model_lib.Base.{
  ℕ, zero, suc, ◌+◌, ◌-◌, ◌*◌, ◌%◌, ◌≤◌, min, ◌≡◌, refl, sym, ap, ap₂, ◌∙◌, subst, ◌⊎◌, inl, inr,
  Bool, true, false, arith, ltb, Bool-cases, ltb→ge,
}
use model_lib.Ktfs.{Disk, Superblock}
use model_lib.Ktfs.Inode.{
  read32, write32, inode_at, get_inode_block, get_inode, Status, done, einval, is_done,
  allocate_block_from_inode,
}
use model_lib.Ktfs.Inode.Word.{read32-write32}
use model_lib.Ktfs.Inode.Grow.{allocate_block_from_inode_einval_iff}
use model_lib.Ktfs.File.{File}
use model_lib.Ktfs.Dir.{Answer, success, einval, enotsup}
use model_lib.Ktfs.Store.{
  max_size, blocks64, grow_loop, change_file_size, Cntl, getend, setend, getpos, setpos, other,
  reply_of, ktfs_cntl,
}

Status-cases : (s : Status) → (is_done s ≡ true) ⊎ (s ≡ einval)
Status-cases done = inl refl
Status-cases einval = inr refl

grow_loop_done :
    (sb : Superblock) (d : Disk) (pos off left b : ℕ)
    → b + left ≤ 32900
    → is_done (grow_loop sb d pos off left b).1 ≡ true
unfolding grow_loop
grow_loop_done sb d pos off zero b h = refl
grow_loop_done sb d pos off (suc left) b h =
    let a = allocate_block_from_inode sb d pos off b in
    elim (Status-cases a.1) [
      | inl e ↦ rw e (grow_loop_done sb a.0 pos off left (b + 1) (omega arith))
      | inr e ↦
          let k : 32900 ≤ b =
            (allocate_block_from_inode_einval_iff sb d pos off b (λ d'. inode_at d' pos off)).0.0
              e in
          ground arith
    ]

get_inode-size :
    (sb : Superblock) (d : Disk) (i : ℕ)
    → (get_inode sb d i).size ≡ read32 d (get_inode_block sb i) (i % 16 * 32)
unfolding get_inode inode_at
get_inode-size sb d i = refl

-- changeFileSize succeeds for any size, cut to the most that the tree has room for, which the inode on
-- the disk and the open file then both have.
pub change_file_size_lem :
    (sb : Superblock) (d : Disk) (f : File) (size : ℕ)
    → f.file_size ≤ max_size
    → let r = change_file_size sb d f size in
      (is_done r.2 ≡ true)
      × (r.1 ≡ record f { file_size = min size max_size })
      × ((get_inode sb r.0 f.inode).size ≡ min size max_size)
unfolding change_file_size
change_file_size_lem sb d f size h =
    let new = min size max_size in
    let pos = get_inode_block sb f.inode in
    let off = f.inode % 16 * 32 in
    let start = blocks64 f.file_size in
    let left = blocks64 new - start in
    let fit : blocks64 new ≤ 32900 = omega arith in
    let fit' : start ≤ 32900 = omega arith in
    let e = grow_loop_done sb d pos off left start (omega arith) in
    let g = grow_loop sb d pos off left start in
    let eq : change_file_size sb d f size
        ≡ (write32 g.0 pos off new, record f { file_size = new }, g.1) =
      rw e refl in
    (
      ap (λ (r : Disk × File × Status). is_done r.2) eq ∙ e,
      ap (λ (r : Disk × File × Status). r.1) eq,
      ap (λ (r : Disk × File × Status). (get_inode sb r.0 f.inode).size) eq
          ∙ get_inode-size sb (write32 g.0 pos off new) f.inode
          ∙ read32-write32 g.0 pos off new (omega arith),
    )

-- The bounds of an open file: neither its size nor its position is past 32900 blocks.
pub record IsBounded (f : File) : Type 0 where
  pub size : f.file_size ≤ max_size
  pub position : f.pos ≤ max_size

-- What ktfs_cntl may do to a disk, a file and the argument.
pub record Controlled (d : Disk) (f : File) (arg : ℕ) (r : Disk × File × ℕ × Answer) : Type 0 where
  pub bounded : IsBounded r.1
  pub grows : f.file_size ≤ r.1.file_size
  pub same_inode : r.1.inode ≡ f.inode
  pub refused : (r.3 ≡ success) ⊎ (r ≡ (d, f, arg, r.3))

reply_of-Controlled :
    (d : Disk) (f : File) (arg size : ℕ) (r : Disk × File × Status)
    → IsBounded f
    → f.file_size ≤ size
    → size ≤ max_size
    → is_done r.2 ≡ true
    → r.1 ≡ record f { file_size = size }
    → Controlled d f arg (reply_of r arg)
reply_of-Controlled d f arg size r v lo hi ok e = record {
  bounded = subst IsBounded (sym e) (record { size = hi; position = v.position });
  grows = subst (λ (x : File). f.file_size ≤ x.file_size) (sym e) lo;
  same_inode = ap (λ (x : File). x.inode) e;
  refused = inl (rw ok refl);
}

kept-Controlled :
    (d : Disk) (f f' : File) (arg arg' : ℕ) (reply : Answer)
    → IsBounded f'
    → f'.file_size ≡ f.file_size
    → f'.inode ≡ f.inode
    → (reply ≡ success) ⊎ ((f' ≡ f) × (arg' ≡ arg))
    → Controlled d f arg (d, f', arg', reply)
kept-Controlled d f f' arg arg' reply v s i k = record {
  bounded = v;
  grows = omega arith;
  same_inode = i;
  refused = elim k [
    | inl e ↦ inl e
    | inr e ↦ inr (ap₂ (λ (x : File) (y : ℕ). (d, x, y, reply)) e.0 e.1)
  ];
}

-- Whatever ktfs_cntl is called with, an open file within the bounds stays within them and does not
-- shrink, and a call that is refused changes nothing.
pub ktfs_cntl-Controlled :
    (sb : Superblock) (d : Disk) (f : File) (null_arg : Bool) (cmd : Cntl) (arg : ℕ)
    → IsBounded f
    → Controlled d f arg (ktfs_cntl sb d f null_arg cmd arg)
unfolding ktfs_cntl
ktfs_cntl-Controlled sb d f true cmd arg v =
    kept-Controlled d f f arg arg einval v refl refl (inr (refl, refl))
ktfs_cntl-Controlled sb d f false getend arg v =
    kept-Controlled d f f arg f.file_size success v refl refl (inl refl)
ktfs_cntl-Controlled sb d f false getpos arg v =
    kept-Controlled d f f arg f.pos success v refl refl (inl refl)
ktfs_cntl-Controlled sb d f false other arg v =
    kept-Controlled d f f arg arg enotsup v refl refl (inr (refl, refl))
ktfs_cntl-Controlled sb d f false setpos arg v =
    kept-Controlled d f (record f { pos = min arg max_size }) arg arg success
      (record { size = v.size; position = omega arith }) refl refl (inl refl)
ktfs_cntl-Controlled sb d f false setend arg v = elim (Bool-cases (ltb arg f.file_size)) [
  | inl e ↦ rw e (kept-Controlled d f f arg arg einval v refl refl (inr (refl, refl)))
  | inr e ↦
      let g : f.file_size ≤ arg = ltb→ge arg f.file_size e in
      let top : f.file_size ≤ max_size = v.size in
      let c = change_file_size_lem sb d f arg v.size in
      rw e (
        reply_of-Controlled d f arg (min arg max_size) (change_file_size sb d f arg) v (omega arith)
          (omega arith) c.0 c.1)
]
