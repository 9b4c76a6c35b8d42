-- ===== src/Exit.antt =====
-- `do_exit` and `do_wait` of kern/process/proc.c. A process that sleeps in `do_wait` goes on with
-- `do_wait_woken`. The fuel is for the walks along the children.
pub mod Parts
pub mod Zombie
pub mod Reaps
mod Tests
use os_exercises.Base.{
  ℕ, zero, suc, ◌+◌, ◌-◌, Bool, true, false, not, Option, none, some, List, [], ◌∷◌, ◌==◌, ◌&&◌,
  ◌||◌, bit_and, if◌then◌else◌, Outcome, done, panic, ◌>>=◌, ◌>>◌, assert, Error, e_inval,
  e_bad_proc,
}
use os_exercises.Sched.{
  Kernel, proc_zombie, proc_sleeping, idleproc, is_zombie, put_proc, wakeup_proc, schedule,
}
use os_exercises.Family.{Links, initproc, wt_child, adopt_all, find_zombie, remove_links}
use os_exercises.Process.{Task, Memory, World, put, put_task, find_proc, unhash_proc, pf_exiting}
use os_exercises.Files.{Files}
use os_exercises.Fork.{put_fs, put_kstack, put_pgdir, mm_destroy, free_proc}

-- The address space of the process, which goes with its last user.
unfoldable pub put_mm : ℕ → World → World
put_mm p w = elim (w.tasks p).mm [
  | none ↦ w
  | some m ↦
      let w' =
        put_task p (record (w.tasks p) { mm = none })
          (record w { mm_count = put m (w.mm_count m - 1) w.mm_count }) in
      if w.mm_count m == 1 then mm_destroy m (put_pgdir m w') else w'
]

-- `PROC_ZOMBIE` and the exit code.
abbrev pub bury : ℕ → ℕ → World → World
bury p error_code w =
    put_task p (record (w.tasks p) { exit_code = error_code })
      (record w {
        kernel = put_proc p (record (w.kernel.procs p) { state = proc_zombie }) w.kernel;
      })

-- The parent, which NULL is never.
abbrev pub wake_parent : Option ℕ → Kernel → Outcome Kernel
wake_parent none k = panic
wake_parent (some q) k = if (k.procs q).wait_state == wt_child then wakeup_proc q k else done k

-- With interrupts off: the parent is woken, and the children go to initproc.
abbrev pub leave : ℕ → ℕ → World → Outcome World
leave fuel p w = do
  k ← wake_parent (w.links.parent p) w.kernel
  r ← adopt_all fuel p (w.links.cptr p) w.links k
  done (record w { links = r.0; kernel = r.1 })

abbrev pub reschedule : (List ℕ → Option ℕ) → World → World
reschedule pick_next w = record w { kernel = schedule pick_next w.kernel }

-- `table` is what the table of open files of the process holds. The result is the state after the
-- processor has gone to another process; the call does not return.
unfoldable pub do_exit : ℕ → (List ℕ → Option ℕ) → Files → ℕ → World → Outcome World
do_exit fuel pick_next table error_code w =
    let p = w.kernel.current in
    assert (not (p == idleproc))
    >> assert (not (p == initproc))
    >> (put_fs table p (put_mm p w) >>= λ v.
        leave fuel p (bury p error_code v) >>= λ w'. done (reschedule pick_next w'))

pub data Waited : Type 0 where
  reaped : ℕ → Waited
  asleep : Waited
  refused : Error → Waited

abbrev pub is_parent : Option ℕ → ℕ → Bool
is_parent none q = false
is_parent (some p) q = p == q

-- Is there a child to wait for, and is one a zombie?
unfoldable pub find_kid : ℕ → ℕ → World → Option (Bool × Option ℕ)
find_kid fuel pid w =
    if not (pid == 0)
    then elim (find_proc pid w) [
      | none ↦ some (false, none)
      | some p ↦
          if is_parent (w.links.parent p) w.kernel.current
          then some (true, if is_zombie (w.kernel.procs p).state then some p else none)
          else some (false, none)
    ]
    else find_zombie fuel (w.links.cptr w.kernel.current) w.links w.kernel

-- From the label `found` on.
abbrev pub unlinked : ℕ → World → World
unlinked p w = let w' = unhash_proc p w in record w' { links = remove_links p w'.links }

unfoldable pub reap : ℕ → World → Outcome (World × Waited)
reap p w =
    assert (not ((p == idleproc) || (p == initproc)))
    >> done (free_proc p (put_kstack p (unlinked p w)), reaped (w.tasks p).exit_code)

unfoldable pub sleep_for_child : (List ℕ → Option ℕ) → World → World
sleep_for_child pick_next w =
    let k = w.kernel in
    reschedule pick_next (record w {
      kernel =
          put_proc k.current
            (record (k.procs k.current) { state = proc_sleeping; wait_state = wt_child }) k;
    })

-- One round from `repeat` on.
abbrev pub wait_round : ℕ → (List ℕ → Option ℕ) → ℕ → World → Outcome (World × Waited)
wait_round fuel pick_next pid w = elim (find_kid fuel pid w) [
  | none ↦ panic
  | some (haskid, found) ↦ elim found [
    | some p ↦ reap p w
    | none ↦
        if haskid then done (sleep_for_child pick_next w, asleep) else done (w, refused e_bad_proc)
  ]
]

-- `code_store`: NULL, or what user_mem_check says of it. The code is part of the result.
unfoldable pub do_wait :
    ℕ → (List ℕ → Option ℕ) → ℕ → Option Bool → World → Outcome (World × Waited)
do_wait fuel pick_next pid none w = wait_round fuel pick_next pid w
do_wait fuel pick_next pid (some false) w = done (w, refused e_inval)
do_wait fuel pick_next pid (some true) w = wait_round fuel pick_next pid w

-- -E_KILLED as a word.
abbrev pub killed_code : ℕ
killed_code = 0xffff_fff7

-- After the sleep: a process that was killed exits, another goes round again.
unfoldable pub do_wait_woken :
    ℕ → (List ℕ → Option ℕ) → Files → ℕ → World → Outcome (World × Waited)
do_wait_woken fuel pick_next table pid w =
    if not (bit_and (w.tasks w.kernel.current).flags pf_exiting == 0)
    then (do_exit fuel pick_next table killed_code w >>= λ w'. done (w', asleep))
    else wait_round fuel pick_next pid w
