-- ===== src/Fork/Leak.antt =====
-- The reference that a call of `do_fork` loses.
use os_exercises.Base.{
  ℕ, ◌+◌, ◌≡◌, refl, ap, ◌∙◌, inl, true, false, none, some, arith, leb, ◌==◌, bit_and, done,
  e_no_mem,
}
use os_exercises.Pid.{max_process}
use os_exercises.Process.{Task, World}
use os_exercises.Fork.{
  Answers, clone_vm, clone_fs, alloc_proc, free_proc, setup_kstack, put_kstack, share_fs, copy_fs,
  copy_mm, fork_mm, cleanup_kstack, set_parent, do_fork,
}
use os_exercises.Fork.Fails.{users, Fresh, fork_fs-fork_mm}
use os_exercises.Fork.Undo.{prepared, returned, lost-users, prepared-Taken, share_fs-Taken}
use os_exercises.Fork.Restores.{
  Current, do_fork-fork_proc, current_ne, prepared-tasks, Near-refl, fork_proc-fork_fs,
  returned-put_kstack,
}

copy_fs-shared :
    (a : Answers) (fl p old : ℕ) (w : World)
    → (w.tasks w.kernel.current).filesp ≡ some old
    → (bit_and fl clone_fs == 0) ≡ false
    → copy_fs a fl p w ≡ done (share_fs old p w, true)
unfolding copy_fs
copy_fs-shared a fl p old w e shared = rw (copy_fs, e, shared) refl

copy_mm-none :
    (a : Answers) (fl p m : ℕ) (w : World)
    → (w.tasks w.kernel.current).mm ≡ some m
    → (bit_and fl clone_vm == 0) ≡ true
    → a.mm ≡ none
    → copy_mm a fl p w ≡ (w, false)
unfolding copy_mm
copy_mm-none a fl p m w e own no_mm = rw (copy_mm, e, own, no_mm) refl

fork_mm-cleanup :
    (a : Answers) (fl p : ℕ) (w : World)
    → copy_mm a fl p w ≡ (w, false)
    → fork_mm a fl p w ≡ cleanup_kstack p w
fork_mm-cleanup a fl p w e = rw e refl

parent-awake :
    (p : ℕ) (w : World)
    → Current w
    → w.memory.procs p ≡ false
    → ((w.kernel.procs w.kernel.current).wait_state == 0) ≡ true
    → let W = set_parent p (alloc_proc p w) in
      ((W.kernel.procs W.kernel.current).wait_state == 0) ≡ true
unfolding alloc_proc
parent-awake p w c free awake = let ne = current_ne p w c free in ground (arith, awake)

shared-mm :
    (s p old m : ℕ) (w : World)
    → Current w
    → w.memory.procs p ≡ false
    → (w.tasks w.kernel.current).mm ≡ some m
    → let v = share_fs old p (prepared s p w) in (v.tasks v.kernel.current).mm ≡ some m
unfolding setup_kstack alloc_proc
shared-mm s p old m w c free space = let ne = current_ne p w c free in ground (arith, space)

-- Where the table of open files is shared with the child and there is no memory for its address
-- space, the call fails and the table keeps a user too many: its reference is never given back.
pub do_fork-FilesLost :
    (a : Answers) (fl p s old m : ℕ) (w : World)
    → Fresh a w
    → Current w
    → leb max_process w.links.nr_process ≡ false
    → ((w.kernel.procs w.kernel.current).wait_state == 0) ≡ true
    → a.proc ≡ some p
    → a.kstack ≡ some s
    → (w.tasks w.kernel.current).filesp ≡ some old
    → (bit_and fl clone_fs == 0) ≡ false
    → (w.tasks w.kernel.current).mm ≡ some m
    → (bit_and fl clone_vm == 0) ≡ true
    → a.mm ≡ none
    → (w' : World) × (do_fork a fl w ≡ done (w', inl e_no_mem)) × (users w' old ≡ users w old + 1)
do_fork-FilesLost a fl p s old m w fresh c room awake proc stack used shared space own no_mm =
    let free = fresh.proc p proc in
    let t = share_fs-Taken s p old w (prepared s p w) (prepared-Taken s p w) in
    let v = share_fs old p (prepared s p w) in
    let task = prepared-tasks s p w c free in
    (
      returned s p v,
      do_fork-fork_proc a fl p w room proc
          ∙ fork_proc-fork_fs a fl p s (set_parent p (alloc_proc p w))
              (parent-awake p w c free awake) stack
          ∙ fork_fs-fork_mm a fl p (prepared s p w) v (
              copy_fs-shared a fl p old (prepared s p w) (ap (λ (t : Task). t.filesp) task ∙ used)
                shared)
          ∙ fork_mm-cleanup a fl p v
              (copy_mm-none a fl p m v (shared-mm s p old m w c free space) own no_mm)
          ∙ ap (λ W. done (W, inl e_no_mem))
              (returned-put_kstack s p w v v (free_proc p (put_kstack p v)) t (Near-refl v) refl),
      lost-users s p old w v (c.tables old used) (Near-refl v),
    )
