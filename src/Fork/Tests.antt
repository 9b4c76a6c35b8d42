-- ===== src/Fork/Tests.antt =====
-- Process 2, a child of process 1, forks.
use os_exercises.Base.{
  ◌==◌, ℕ, ◌+◌, ◌<◌, ◌≡◌, refl, inl, inr, ◌⊎◌, true, false, none, some, [], ◌∷◌, arith, leb,
  if◌then◌else◌, done, e_no_mem, e_no_free_proc,
}
use os_exercises.Sched.{is_runnable}
use os_exercises.Sched.Ready.{IsValid}
use os_exercises.Family.Children.{Represents, put_children}
use os_exercises.Pid.{max_pid, max_process}
use os_exercises.Pid.Walk
use os_exercises.Process.{World, find_proc}
use os_exercises.Process.Sample.{children, world, children-Represents, kernel-IsValid}
use os_exercises.Files.{File, fd_none, fd_opened, Files, dup_file, fd_array_init, fd_array_open}
use os_exercises.Files.Duplicate.{dup_fs, dup_entries}
use os_exercises.Fork.{
  Answers, do_fork, copy_fs, copy_mm, pids, alloc_proc, setup_kstack, put_kstack,
}
use os_exercises.Fork.Fails.{Fresh, Restored, users, FilesKept, FilesLost}
use os_exercises.Fork.Undo.{prepared}
use os_exercises.Fork.Restores.{Current, do_fork-Restored}
use os_exercises.Fork.Leak.{do_fork-FilesLost}
use os_exercises.Fork.Child.{IsOrdered, IsUnused, do_fork-IsOrdered}

-- An unused entry, and a table with an open one.
abbrev no_entries : ℕ → File
no_entries i = record {
  status = fd_none;
  readable = false;
  writable = false;
  fd = i;
  pos = 0;
  node = none;
  open_count = 0;
}

abbrev open_files : Files
open_files = record {
  fd_array = λ i.
      if i == 0
      then record (no_entries 0) { status = fd_opened; node = some 4; open_count = 1 }
      else no_entries i;
  files_count = 2;
  inodes = λ n. record { refs = 1; opens = 1 };
}

-- CLONE_FS, and there is no memory for the address space.
abbrev no_space : Answers
no_space = record {
  proc = some 9;
  kstack = some 90;
  filesp = some 51;
  mm = none;
  setup_pgdir = false;
  dup_mmap = false;
  open_files = open_files;
  entries = no_entries;
}

abbrev memory : Answers
memory = record {
  proc = some 9;
  kstack = some 90;
  filesp = some 51;
  mm = some 63;
  setup_pgdir = true;
  dup_mmap = true;
  open_files = open_files;
  entries = no_entries;
}

no_space-Fresh : Fresh no_space world
no_space-Fresh = record {
  proc = λ p e. let at : 9 ≡ p = cc e in rw (← at) refl;
  kstack = λ s e. let at : 90 ≡ s = cc e in rw (← at) refl;
  filesp = λ f e. let at : 51 ≡ f = cc e in rw (← at) refl;
  mm = λ m e. absurd (ground (arith, e));
}

world-Current : Current world
world-Current = record { procs = refl; tables = λ f e. let at : 50 ≡ f = cc e in rw (← at) refl }

do_fork-FilesLost_example :
    (w' : World) × (do_fork no_space 0x800 world ≡ done (w', inl e_no_mem))
    × (users w' 50 ≡ users world 50 + 1)
do_fork-FilesLost_example =
    do_fork-FilesLost no_space 0x800 9 90 50 62 world no_space-Fresh world-Current refl refl refl
      refl refl refl refl refl refl

world-IsOrdered : IsOrdered children world
world-IsOrdered = record {
  kernel = kernel-IsValid;
  links = children-Represents;
  cursor = (inl (omega arith), (inl (omega arith), tt));
  next_safe = omega arith;
  room = omega arith;
}

nine-IsUnused : IsUnused 9 children world
nine-IsUnused = record {
  other = omega arith;
  busy = omega arith;
  childless = refl;
  orphan = λ q. ground arith;
  unqueued = refl;
  unlisted = refl;
}

-- The state after copy_fs without CLONE_FS.
own_table : (W : World) × (copy_fs memory 0 9 (prepared 90 9 world) ≡ done (W, true))
unfolding copy_fs setup_kstack alloc_proc dup_fs dup_entries dup_file fd_array_init fd_array_open
own_table = (_, refl)

own_space : (copy_mm memory 0 9 own_table.0).1 ≡ true
unfolding copy_mm own_table copy_fs setup_kstack alloc_proc dup_fs dup_entries dup_file
    fd_array_init fd_array_open
own_space = refl

do_fork-IsOrdered_example :
    (w' : World) × (pid : ℕ) × (do_fork memory 0 world ≡ done (w', inr pid))
    × (0 < pid)
    × (pid < max_pid)
    × (Walk.member pid (pids world) ≡ false)
    × (find_proc pid w' ≡ some 9)
    × Represents (put_children children 2 (9 ∷ [])) w'.links
    × IsValid w'.kernel
    × (is_runnable (w'.kernel.procs 9).state ≡ true)
    × (w'.links.proc_list ≡ 9 ∷ world.links.proc_list)
    × (w'.links.nr_process ≡ world.links.nr_process + 1)
do_fork-IsOrdered_example =
    do_fork-IsOrdered memory 0 9 90 world own_table.0 world-IsOrdered nine-IsUnused own_table.1
      own_space refl refl refl refl

-- What the failing call gives back.
failed : (w' : World) × (do_fork no_space 0x800 world ≡ done (w', inl e_no_mem))
unfolding do_fork copy_fs copy_mm setup_kstack alloc_proc put_kstack
failed = (_, refl)

do_fork-Restored_example :
    Restored world failed.0
    × (FilesKept world failed.0 ⊎ FilesLost world failed.0)
    × (e_no_mem ≡ (if leb max_process world.links.nr_process then e_no_free_proc else e_no_mem))
do_fork-Restored_example =
    do_fork-Restored no_space 0x800 world failed.0 e_no_mem no_space-Fresh world-Current failed.1
