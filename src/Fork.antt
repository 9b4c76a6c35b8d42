-- ===== src/Fork.antt =====
-- `do_fork` of kern/process/proc.c with what it takes and gives back. What kmalloc and alloc_pages
-- answer is an argument. The trap frame, the context and the contents of an address space are left
-- out.
pub mod Branches
pub mod Fails
pub mod Undo
pub mod Restores
pub mod Steady
pub mod Child
pub mod Leak
mod Tests
use os_exercises.Base.{
  ℕ, zero, suc, ◌+◌, ◌-◌, Bool, true, false, not, Option, none, some, List, [], ◌∷◌, map, leb, ◌==◌,
  bit_and, if◌then◌else◌, Outcome, done, panic, ◌>>=◌, ◌>>◌, assert, Error, e_no_mem,
  e_no_free_proc, ◌⊎◌, inl, inr, is_some,
}
use os_exercises.Sched.{Kernel, wakeup_proc, proc_uninit}
use os_exercises.Family.{Links, set_links}
use os_exercises.Pid.{Cursor, get_pid, max_process}
use os_exercises.Files.{File, Files, fd_array_init}
use os_exercises.Files.Destroy.{files_destroy}
use os_exercises.Files.Duplicate.{dup_fs}
use os_exercises.Process.{Task, Memory, World, put, put_task, no_pid, hash_proc}

-- The answers: the new `proc_struct`, the kernel stack, the new table of open files, the new
-- `mm_struct`, and whether setup_pgdir and dup_mmap have the memory that they need.
pub record Answers : Type 0 where
  pub proc : Option ℕ
  pub kstack : Option ℕ
  pub filesp : Option ℕ
  pub mm : Option ℕ
  pub setup_pgdir : Bool
  pub dup_mmap : Bool
  -- What the table of the calling process holds, and the memory for the entries of a new one.
  pub open_files : Files
  pub entries : ℕ → File

abbrev pub clone_vm : ℕ
clone_vm = 0x100

abbrev pub clone_fs : ℕ
clone_fs = 0x800

-- `alloc_proc` with its memory: the fields of a new process.
unfoldable pub alloc_proc : ℕ → World → World
alloc_proc p w =
    let k = w.kernel in
    let l = w.links in
    record w {
      tasks =
          put p
            (record (w.tasks p) {
              pid = no_pid;
              kstack = none;
              mm = none;
              filesp = none;
              flags = 0;
            })
            w.tasks;
      kernel = record k {
        procs =
            put p (record { state = proc_uninit; wait_state = 0; need_resched = false; runs = 0 })
              k.procs;
      };
      links = record l {
        parent = put p none l.parent;
        cptr = put p none l.cptr;
        yptr = put p none l.yptr;
        optr = put p none l.optr;
      };
      memory = record w.memory { procs = put p true w.memory.procs };
    }

-- kfree(proc)
abbrev pub free_proc : ℕ → World → World
free_proc p w = record w { memory = record w.memory { procs = put p false w.memory.procs } }

unfoldable pub setup_kstack : ℕ → ℕ → World → World
setup_kstack s p w = record (put_task p (record (w.tasks p) { kstack = some s }) w) {
  memory = record w.memory { stacks = put s true w.memory.stacks };
}

unfoldable pub put_kstack : ℕ → World → World
put_kstack p w = elim (w.tasks p).kstack [
  | none ↦ w
  | some s ↦ record w { memory = record w.memory { stacks = put s false w.memory.stacks } }
]

-- From `good_files_struct` on.
abbrev pub share_fs : ℕ → ℕ → World → World
share_fs f p w = record (put_task p (record (w.tasks p) { filesp = some f }) w) {
  files_count = put f (w.files_count f + 1) w.files_count;
}

-- A new table, which has no user.
abbrev pub new_fs : ℕ → World → World
new_fs f w = record w {
  memory = record w.memory { tables = put f true w.memory.tables };
  files_count = put f 0 w.files_count;
}

-- files_create and dup_fs on the entries of a new table; `count` is how many users the old one has.
abbrev pub fill_table : Answers → ℕ → Outcome Files
fill_table a count =
    dup_fs (record a.open_files { fd_array = fd_array_init a.entries; files_count = 0 })
      (record a.open_files { files_count = count })

-- Whether it succeeds, with the state.
unfoldable pub copy_fs : Answers → ℕ → ℕ → World → Outcome (World × Bool)
copy_fs a clone_flags p w = elim (w.tasks w.kernel.current).filesp [
  | none ↦ panic
  | some old ↦
      if not (bit_and clone_flags clone_fs == 0)
      then done (share_fs old p w, true)
      else elim a.filesp [
        | none ↦ done (w, false)
        | some f ↦ fill_table a (w.files_count old) >>= λ _. done (share_fs f p (new_fs f w), true)
      ]
]

-- `table` is what the table of the process holds.
unfoldable pub put_fs : Files → ℕ → World → Outcome World
put_fs table p w = elim (w.tasks p).filesp [
  | none ↦ done w
  | some f ↦
      let w' = record w { files_count = put f (w.files_count f - 1) w.files_count } in
      if w.files_count f == 1
      then (files_destroy (w.files_count f - 1) table >>= λ _.
          done (record w' { memory = record w.memory { tables = put f false w.memory.tables } }))
      else done w'
]

-- From `good_mm` on.
abbrev pub share_mm : ℕ → ℕ → World → World
share_mm m p w = record (put_task p (record (w.tasks p) { mm = some m }) w) {
  mm_count = put m (w.mm_count m + 1) w.mm_count;
}

-- mm_create, with the count 0.
abbrev pub mm_create : ℕ → World → World
mm_create m w = record w {
  memory = record w.memory { mms = put m true w.memory.mms };
  mm_count = put m 0 w.mm_count;
}

abbrev pub mm_destroy : ℕ → World → World
mm_destroy m w = record w { memory = record w.memory { mms = put m false w.memory.mms } }

abbrev pub setup_pgdir : ℕ → World → World
setup_pgdir m w = record w { memory = record w.memory { pgdirs = put m true w.memory.pgdirs } }

abbrev pub put_pgdir : ℕ → World → World
put_pgdir m w = record w { memory = record w.memory { pgdirs = put m false w.memory.pgdirs } }

-- The copy of an address space into the new `mm`.
abbrev pub dup_mm : Answers → ℕ → ℕ → World → World × Bool
dup_mm a m p w =
    if a.setup_pgdir
    then (if a.dup_mmap
        then (share_mm m p (setup_pgdir m (mm_create m w)), true)
        else (mm_destroy m (put_pgdir m (setup_pgdir m (mm_create m w))), false))
    else (mm_destroy m (mm_create m w), false)

unfoldable pub copy_mm : Answers → ℕ → ℕ → World → World × Bool
copy_mm a clone_flags p w = elim (w.tasks w.kernel.current).mm [
  | none ↦ (w, true)
  | some old ↦
      if not (bit_and clone_flags clone_vm == 0)
      then (share_mm old p w, true)
      else elim a.mm [ none ↦ (w, false) | some m ↦ dup_mm a m p w ]
]

-- The numbers of all processes.
abbrev pub pids : World → List ℕ
pids w = map (λ p. (w.tasks p).pid) w.links.proc_list

abbrev pub wake_child : ℕ → ℕ → World → Outcome (World × (Error ⊎ ℕ))
wake_child p pid w = wakeup_proc p w.kernel >>= λ k. done (record w { kernel = k }, inr pid)

abbrev pub link_child : ℕ → ℕ → World → Outcome (World × (Error ⊎ ℕ))
link_child p pid w = set_links p w.links >>= λ l. wake_child p pid (record w { links = l })

abbrev pub number_child : ℕ → Cursor → World → World
number_child p c w = put_task p (record (w.tasks p) { pid = c.last_pid }) (record w { cursor = c })

-- From the allocation of the number on; the search for one runs on the fuel of get_pid.
abbrev pub enter : ℕ → Cursor → World → Outcome (World × (Error ⊎ ℕ))
enter p c w = link_child p c.last_pid (hash_proc p (number_child p c w))

abbrev pub start_child : ℕ → World → Outcome (World × (Error ⊎ ℕ))
start_child p w = elim (get_pid (pids w) w.cursor) [ none ↦ panic | some c ↦ enter p c w ]

-- From the label bad_fork_cleanup_kstack on; put_fs, which stands before it, is not reached.
abbrev pub cleanup_kstack : ℕ → World → Outcome (World × (Error ⊎ ℕ))
cleanup_kstack p w = done (free_proc p (put_kstack p w), inl e_no_mem)

abbrev pub fork_mm : Answers → ℕ → ℕ → World → Outcome (World × (Error ⊎ ℕ))
fork_mm a clone_flags p w =
    let (w', ok) = copy_mm a clone_flags p w in if ok then start_child p w' else cleanup_kstack p w'

abbrev pub fork_fs : Answers → ℕ → ℕ → World → Outcome (World × (Error ⊎ ℕ))
fork_fs a clone_flags p w = copy_fs a clone_flags p w >>= λ r.
    if r.1 then fork_mm a clone_flags p r.0 else cleanup_kstack p r.0

abbrev pub fork_proc : Answers → ℕ → ℕ → World → Outcome (World × (Error ⊎ ℕ))
fork_proc a clone_flags p w =
    assert ((w.kernel.procs w.kernel.current).wait_state == 0) >> elim a.kstack [
      | none ↦ done (free_proc p w, inl e_no_mem)
      | some s ↦ fork_fs a clone_flags p (setup_kstack s p w)
    ]

abbrev pub set_parent : ℕ → World → World
set_parent p w = record w {
  links = record w.links { parent = put p (some w.kernel.current) w.links.parent };
}

unfoldable pub do_fork : Answers → ℕ → World → Outcome (World × (Error ⊎ ℕ))
do_fork a clone_flags w =
    if leb max_process w.links.nr_process then done (w, inl e_no_free_proc) else elim a.proc [
      | none ↦ done (w, inl e_no_mem)
      | some p ↦ fork_proc a clone_flags p (set_parent p (alloc_proc p w))
    ]
