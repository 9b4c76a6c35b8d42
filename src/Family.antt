-- ===== src/Family.antt =====
-- The relations between processes: `parent`, and the list of the children of a process through
-- `cptr`, `optr` and `yptr` (set_links, remove_links, do_exit and do_wait of kern/process/proc.c). A
-- process is its number.
pub mod Adoption
pub mod Children
pub mod Removal
pub mod Search
mod Tests
pub mod Unlink
use os_exercises.Base.{
  ℕ, zero, suc, ◌+◌, ◌-◌, Bool, true, false, not, Option, none, some, List, [], ◌∷◌, ◌==◌, ◌&&◌,
  if◌then◌else◌, Outcome, done, panic, ◌>>=◌, ◌>>◌, assert,
}
use os_exercises.Sched.{Kernel, is_zombie, wakeup_proc}

abbrev pub initproc : ℕ
initproc = 1

-- WT_CHILD.
abbrev pub wt_child : ℕ
wt_child = 0x80000001

-- The relations of all processes, `proc_list` and `nr_process`.
pub record Links : Type 0 where
  pub parent : ℕ → Option ℕ
  pub cptr : ℕ → Option ℕ
  pub yptr : ℕ → Option ℕ
  pub optr : ℕ → Option ℕ
  pub proc_list : List ℕ
  pub nr_process : ℕ

abbrev pub put : ℕ → Option ℕ → (ℕ → Option ℕ) → ℕ → Option ℕ
put p v f q = if q == p then v else f q

-- A write to a field of the process that a pointer leads to, if it is not NULL.
abbrev pub put_at : Option ℕ → Option ℕ → (ℕ → Option ℕ) → ℕ → Option ℕ
put_at none v f = f
put_at (some p) v f = put p v f

-- The process `p` becomes the first child of `q`.
abbrev pub push_child : ℕ → ℕ → Links → Links
push_child q p l =
    let first = l.cptr q in
    record l {
      yptr = put_at first (some p) (put p none l.yptr);
      optr = put p first l.optr;
      cptr = put q (some p) l.cptr;
    }

abbrev pub link_under : Option ℕ → ℕ → Links → Outcome Links
link_under none p l = panic
link_under (some q) p l =
    done (record (push_child q p l) { proc_list = p ∷ l.proc_list; nr_process = l.nr_process + 1 })

unfoldable pub set_links : ℕ → Links → Outcome Links
set_links p l = link_under (l.parent p) p l

abbrev pub unlist : ℕ → List ℕ → List ℕ
unlist p [] = []
unlist p (q ∷ l) = if p == q then l else q ∷ unlist p l

-- `remove_links`; NULL as the parent of a first child would fault, and is left without effect.
unfoldable pub remove_links : ℕ → Links → Links
remove_links p l =
    let older = l.optr p in
    let younger = l.yptr p in
    record l {
      proc_list = unlist p l.proc_list;
      yptr = put_at older younger l.yptr;
      optr = put_at younger older l.optr;
      cptr = elim younger [ none ↦ put_at (l.parent p) older l.cptr | some y ↦ l.cptr ];
      nr_process = l.nr_process - 1;
    }

-- One round of the loop of `do_exit`: the child `p` of `current` goes to `initproc`, which is woken
-- if it waits for a child and `p` is a zombie.
abbrev pub adopt : ℕ → ℕ → Links → Links
adopt current p l =
    let l' = record l { cptr = put current (l.optr p) l.cptr } in
    record (push_child initproc p l') { parent = put p (some initproc) l.parent }

abbrev pub notify : ℕ → Kernel → Outcome Kernel
notify p k =
    if is_zombie (k.procs p).state && (k.procs initproc).wait_state == wt_child
    then wakeup_proc initproc k
    else done k

-- The loop of `do_exit`; `panic` stands for a loop that the fuel does not end.
unfoldable pub adopt_all : ℕ → ℕ → Option ℕ → Links → Kernel → Outcome (Links × Kernel)
adopt_all fuel current none l k = done (l, k)
adopt_all zero current (some p) l k = panic
adopt_all (suc fuel) current (some p) l k =
    let l' = adopt current p l in do k' ← notify p k; adopt_all fuel current (l'.cptr current) l' k'

-- The search of `do_wait` with pid 0 along the children: is there one, and is one a zombie?
unfoldable pub find_zombie : ℕ → Option ℕ → Links → Kernel → Option (Bool × Option ℕ)
find_zombie fuel none l k = some (false, none)
find_zombie zero (some p) l k = none
find_zombie (suc fuel) (some p) l k =
    let later = find_zombie fuel (l.optr p) l k in
    if is_zombie (k.procs p).state
    then some (true, some p)
    else elim later [ none ↦ none | some r ↦ some (true, r.1) ]
