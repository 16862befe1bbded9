-- ===== src/Syscall/Tests.antt =====
-- Runs of the system calls of sys/syscall.c, and the theorems about them at concrete states.
use mathlib.Core.Option.{some_inj}
use model_lib.Text.{name_equals}
use model_lib.Syscall.Faults.{syspipe_loses_writer, sysopen_closes_null}
use model_lib.Syscall.Runs.{Reach, here, then_steps, opens, forks, exits, guarded, Reach-IsCounted}
use model_lib.Syscall.Steps.{Opens, Counting}
use model_lib.Syscall.Files.{IsFresh}
use model_lib.Syscall.Processes.{Forking, process_fork, process_exit}
use model_lib.Base.{
  ℕ, ◌+◌, ◌<◌, ◌≡◌, refl, ap, ◌∙◌, subst, inl, inr, true, false, ◌&&◌, Option, none, some, List, [],
  ◌∷◌, arith, ◌==◌, if◌then◌else◌, Bool-cases, ==→eq, length, get_or, replicate,
}
use model_lib.Mounts.{Filesystem, get_fs, parse_path}
use model_lib.Paging.{PageSource, Mem, null_pte, leaf_pte, ptab_pte}
use model_lib.Paging.Check.{answers, valid, validate_vstr}
use model_lib.Uio.{pos, negsuc, Reply, ebadfd, returns, UioIntf, Kernel, put_uio, u64_mod}
use model_lib.Syscall.{sysclose, sysuiodup, NewPipe, syspipe, scan, uiotab, find_free}
use model_lib.Syscall.Calls.{
  Outcome, done, failed_assertion, closes_null, page_fault, no_end, Files, sysopen, ru, text_at,
  open_fd,
}
use model_lib.Syscall.Counts.{IsCounted, slots, in_slot}

-- No more pages: the memory is fixed.
abbrev no_pages : PageSource
no_pages = record { Pool = ℕ; alloc_pages = λ cnt pool. none; free_pages = λ p cnt pool. pool }

-- One page of the user range that holds the path c/d, at 0xC0001000.
abbrev path : List ℕ
path = 99 ∷ 47 ∷ 100 ∷ 0 ∷ []

abbrev mem : Mem no_pages
mem = record {
  root = 1;
  tables = λ n i.
      if (n == 1) && (i == 3)
      then ptab_pte 2 false
      else if (n == 2) && (i == 0)
      then ptab_pte 3 false
      else if (n == 3) && (i == 1)
      then leaf_pte 20480 ru
      else null_pte;
  bytes = λ n o. if n == 5 then get_or path o 0 else 0;
  pool = 0;
}

-- A process that has endpoint 7 open in slot 3.
abbrev silent : UioIntf (Mem no_pages)
silent = record { close_fn = none; read_fn = none; write_fn = none; cntl_fn = none }

abbrev table : List (Option ℕ)
table = none ∷ none ∷ none ∷ some 7 ∷ replicate 12 none

abbrev start : Kernel (Mem no_pages)
start = record {
  uios = λ a. record { intf = silent; refcnt = if a == 7 then 1 else 0 };
  proctab = some table ∷ replicate 15 none;
  world = mem;
}

-- A file system that opens one endpoint again and again.
abbrev State : Type 0
State = Kernel (Mem no_pages) × Option ℕ

open_nine : Option (List ℕ) → State → State × ℕ
unfolding put_uio
open_nine flname (s, o) =
    ((put_uio (Mem no_pages) s 9 (record (s.uios 9) { refcnt = (s.uios 9).refcnt + 1 }), some 9), 0)

abbrev nine : Filesystem State
nine = record { open_fn = some open_nine; create_fn = none; delete_fn = none; flush_fn = none }

abbrev files : Files no_pages (Mem no_pages) (λ m. m)
files = record {
  mplist = record { name = 99 ∷ []; fs = nine } ∷ [];
  listing_at = 11;
  listing_intf = silent;
}

abbrev no_files : Files no_pages (Mem no_pages) (λ m. m)
no_files = record { mplist = []; listing_at = 11; listing_intf = silent }

start-IsCounted : IsCounted (Mem no_pages) start
unfolding slots in_slot
start-IsCounted a = elim (Bool-cases (a == 7)) [
  | inl e ↦ rw e (omega arith)
  | inr e ↦ rw e (omega arith)
]

path-valid : validate_vstr no_pages mem 3221229568 ru ≡ answers valid
unfolding validate_vstr ptab_pte leaf_pte
path-valid = refl

path_text : text_at no_pages (Mem no_pages) (λ m. m) mem 1073741824 3221229568 ≡ 99 ∷ 47 ∷ 100 ∷ []
unfolding text_at ptab_pte leaf_pte
path_text = refl

sysclose-three : (sysclose (Mem no_pages) start 0 (pos 3)).1 ≡ returns 0
unfolding sysclose
sysclose-three = refl

sysclose-four : (sysclose (Mem no_pages) start 0 (pos 4)).1 ≡ ebadfd
unfolding sysclose
sysclose-four = refl

sysuiodup-three : (sysuiodup (Mem no_pages) start 0 (pos 3) (pos 5)).1 ≡ returns 5
unfolding sysuiodup
sysuiodup-three = refl

abbrev ap_reply : Outcome (Kernel (Mem no_pages) × Reply) → Option Reply
ap_reply (done (s, r)) = some r
ap_reply failed_assertion = none
ap_reply closes_null = none
ap_reply page_fault = none
ap_reply no_end = none

sysopen-three :
    ap_reply (sysopen no_pages (Mem no_pages) (λ m. m) files start 0 (negsuc 0) 3221229568)
    ≡ some (returns 4)
unfolding sysopen ptab_pte leaf_pte open_nine
sysopen-three = refl

nine-Opens :
    (flname : Option (List ℕ)) (s : Kernel (Mem no_pages))
    → IsCounted (Mem no_pages) s
    → Opens no_pages (Mem no_pages) (λ m. m) s (open_nine flname (s, none)).0
unfolding open_nine put_uio in_slot
nine-Opens flname s v = record {
  same = refl;
  counted = λ a.
      let x = v a in
      elim (Bool-cases (a == 9)) [
        | inl e ↦
            let q : (s.uios a).refcnt ≡ (s.uios 9).refcnt =
              ap (λ (b : ℕ). (s.uios b).refcnt) (==→eq a 9 e) in
            rw e (omega arith)
        | inr e ↦ rw e (omega arith)
      ];
}

files-Counting : Counting no_pages (Mem no_pages) (λ m. m) files
unfolding get_fs
files-Counting = record {
  opens = λ mpname f g e z flname s v.
      let is_nine : nine ≡ f =
        some_inj.0 (guarded (name_equals (99 ∷ []) mpname) (some nine) f e) in
      let is_open : open_nine ≡ g =
        some_inj.0 (ap (λ (x : Filesystem State). x.open_fn) is_nine ∙ z) in
      subst
        (λ (h : Option (List ℕ) → State → State × ℕ).
          Opens no_pages (Mem no_pages) (λ m. m) s (h flname (s, none)).0)
        is_open (nine-Opens flname s v);
}

abbrev child : Forking (Mem no_pages)
child = record {
  has_process = true;
  has_condition = true;
  clone = λ m. m;
  spawn = λ m. (m, some 2);
}

start_counts : (b : ℕ) → (start.uios b).refcnt + length (uiotab (Mem no_pages) start 0) < u64_mod
start_counts b = elim (Bool-cases (b == 7)) [
  | inl e ↦ rw e (omega arith)
  | inr e ↦ rw e (omega arith)
]

-- The process forks a child, opens a file and exits; the child still has endpoint 7.
forked : Kernel (Mem no_pages)
unfolding process_fork
forked = (process_fork (Mem no_pages) start 0 child).0

abbrev kernel_of : Outcome (Kernel (Mem no_pages) × Reply) → Kernel (Mem no_pages)
kernel_of (done (s, r)) = s
kernel_of failed_assertion = start
kernel_of closes_null = start
kernel_of page_fault = start
kernel_of no_end = start

opened_there : Kernel (Mem no_pages)
unfolding sysopen forked
opened_there =
    kernel_of (sysopen no_pages (Mem no_pages) (λ m. m) files forked 0 (negsuc 0) 3221229568)

last : Kernel (Mem no_pages)
unfolding process_exit opened_there
last = process_exit (Mem no_pages) (λ m. m) opened_there 0

last-holds : slots 7 last.proctab ≡ 1
unfolding last sysopen process_fork process_exit ptab_pte leaf_pte slots open_nine
last-holds = refl

last-counts : (last.uios 7).refcnt ≡ 1
unfolding last sysopen process_fork process_exit ptab_pte leaf_pte open_nine
last-counts = refl

opened_there_lem :
    sysopen no_pages (Mem no_pages) (λ m. m) files forked 0 (negsuc 0) 3221229568
    ≡ done (opened_there, returns 4)
unfolding opened_there sysopen process_fork ptab_pte leaf_pte open_nine
opened_there_lem = refl

unheld : slots 11 forked.proctab ≡ 0
unfolding process_fork forked slots
unheld = refl

run : Reach no_pages (Mem no_pages) (λ m. m) files start last
unfolding forked last
run =
    then_steps
      (then_steps (then_steps here (forks 0 child start_counts))
        (opens 0 (negsuc 0) 3221229568 opened_there (returns 4) unheld opened_there_lem))
      (exits (λ m. m) 0)

Reach-IsCounted_example : IsCounted (Mem no_pages) last
Reach-IsCounted_example =
    Reach-IsCounted no_pages (Mem no_pages) (λ m. m) files files-Counting run start-IsCounted

abbrev new_pipe : NewPipe (Mem no_pages)
new_pipe = record { wuio = 20; ruio = 21; wintf = silent; rintf = silent; others = λ m. m }

new_pipe-IsFresh : IsFresh (Mem no_pages) start new_pipe
unfolding slots in_slot
new_pipe-IsFresh = record { apart = λ e. ground arith; no_writer = refl; no_reader = refl }

four_free : scan (uiotab (Mem no_pages) start 0) (negsuc 0) ≡ some 4
unfolding find_free
four_free = refl

syspipe_loses_writer_example :
    let (s', w, r, reply) = syspipe (Mem no_pages) start 0 (negsuc 0) (pos 4) new_pipe in
    (reply ≡ returns 0) × (slots 20 s'.proctab ≡ 0)
syspipe_loses_writer_example =
    syspipe_loses_writer (Mem no_pages) start 0 0 4 new_pipe new_pipe-IsFresh four_free

open_four : open_fd (uiotab (Mem no_pages) start 0) (negsuc 0) ≡ some 4
unfolding find_free
open_four = refl

two_parts :
    parse_path (some (text_at no_pages (Mem no_pages) (λ m. m) mem 1073741824 3221229568))
    ≡ some (99 ∷ [], 100 ∷ [])
unfolding parse_path text_at ptab_pte leaf_pte
two_parts = refl

not_mounted : get_fs State [] (99 ∷ []) ≡ none
unfolding get_fs
not_mounted = refl

sysopen_closes_null_example :
    sysopen no_pages (Mem no_pages) (λ m. m) no_files start 0 (negsuc 0) 3221229568 ≡ closes_null
sysopen_closes_null_example =
    sysopen_closes_null no_pages (Mem no_pages) (λ m. m) no_files start 0 (negsuc 0) 3221229568 4 99
      [] (100 ∷ []) path-valid open_four two_parts not_mounted
