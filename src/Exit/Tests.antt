-- ===== src/Exit/Tests.antt =====
-- Process 2 exits, and process 1 waits for it.
use os_exercises.Base.{ℕ, ◌≡◌, refl, true, false, none, some, [], arith, ◌==◌, if◌then◌else◌, done}
use os_exercises.Files.{File, fd_none, fd_opened, Files, nentry}
use os_exercises.Files.Valid.{users}
use os_exercises.Sched.{Kernel, proc_runnable, proc_zombie}
use os_exercises.Sched.Ready.{IsValid}
use os_exercises.Process.{World}
use os_exercises.Process.Sample.{world, children, children-Represents, pick_first, pick_first-Picks}
use os_exercises.Exit.{do_wait, Waited}
use os_exercises.Exit.Reaps.{WaitEnds, do_wait-WaitEnds}

-- A table whose first entry is open, with the inode 4.
abbrev entries : ℕ → File
entries i = record {
  status = if i == 0 then fd_opened else fd_none;
  readable = true;
  writable = false;
  fd = i;
  pos = 0;
  node = some 4;
  open_count = if i == 0 then 1 else 0;
}

abbrev table : Files
table = record {
  fd_array = entries;
  files_count = 1;
  inodes = λ n. record { refs = users n entries nentry; opens = users n entries nentry };
}

-- The process is the last user of its table.
abbrev last_world : World
last_world = record world { files_count = λ f. 1 }

-- Process 1 runs, and its child 2 is a zombie.
abbrev parent_kernel : Kernel
parent_kernel = record {
  procs = λ p.
      if p == 2
      then record { state = proc_zombie; wait_state = 0; need_resched = false; runs = 0 }
      else record {
        state = if p == 1 then proc_runnable else proc_zombie;
        wait_state = 0;
        need_resched = false;
        runs = 0;
      };
  current = 1;
  ready = [];
}

abbrev parent_world : World
parent_world = record world { kernel = parent_kernel }

parent_kernel-IsValid : IsValid parent_kernel
parent_kernel-IsValid = record { queued = λ q. ground arith }

do_wait-WaitEnds_example :
    (r : World × Waited) × (do_wait 1 pick_first 0 none parent_world ≡ done r)
    × WaitEnds children parent_world (some 2) r
do_wait-WaitEnds_example =
    do_wait-WaitEnds pick_first parent_world pick_first-Picks children-Represents
      parent_kernel-IsValid (λ e. omega (arith, e)) (λ q. ground arith) refl
