-- ===== src/Fork/Undo.antt =====
-- What `do_fork` has taken up to the allocation of the table of open files, and gives back.
use os_exercises.Base.{ℕ, ◌+◌, ◌≡◌, refl, ap, ◌∙◌, true, false, some, arith}
use os_exercises.Sched.{Kernel}
use os_exercises.Family.{Links}
use os_exercises.Process.{World, put}
use os_exercises.Fork.{alloc_proc, free_proc, setup_kstack, share_fs, new_fs, set_parent}
use os_exercises.Fork.Branches.{put-restores}
use os_exercises.Fork.Fails.{Restored, users, FilesKept, FilesLost, Near}

-- After the process and its stack are allocated.
pub record Taken (s p : ℕ) (w w' : World) : Type 0 where
  pub proc_list : w'.links.proc_list ≡ w.links.proc_list
  pub nr_process : w'.links.nr_process ≡ w.links.nr_process
  pub hash_list : w'.hash_list ≡ w.hash_list
  pub ready : w'.kernel.ready ≡ w.kernel.ready
  pub current : w'.kernel.current ≡ w.kernel.current
  pub procs : w'.memory.procs ≡ put p true w.memory.procs
  pub stacks : w'.memory.stacks ≡ put s true w.memory.stacks
  pub mms : w'.memory.mms ≡ w.memory.mms
  pub pgdirs : w'.memory.pgdirs ≡ w.memory.pgdirs
  pub mm_count : w'.mm_count ≡ w.mm_count
  pub kstack : (w'.tasks p).kstack ≡ some s

-- With the process and the stack given back.
abbrev pub returned : ℕ → ℕ → World → World
returned s p v =
    free_proc p (record v { memory = record v.memory { stacks = put s false v.memory.stacks } })

pub Taken-Restored :
    (s p : ℕ) (w W v : World)
    → w.memory.procs p ≡ false
    → w.memory.stacks s ≡ false
    → Taken s p w W
    → Near W v
    → Restored w (returned s p v)
Taken-Restored s p w W v free_p free_s t n = record {
  proc_list = ap (λ (l : Links). l.proc_list) n.links ∙ t.proc_list;
  nr_process = ap (λ (l : Links). l.nr_process) n.links ∙ t.nr_process;
  hash_list = n.hash_list ∙ t.hash_list;
  ready = ap (λ (k : Kernel). k.ready) n.kernel ∙ t.ready;
  current = ap (λ (k : Kernel). k.current) n.kernel ∙ t.current;
  procs =
      λ x. ap (λ f. put p false f x) (n.procs ∙ t.procs) ∙ put-restores p x w.memory.procs free_p;
  stacks = λ x.
      ap (λ f. put s false f x) (n.stacks ∙ t.stacks) ∙ put-restores s x w.memory.stacks free_s;
  mms = λ x. n.mms x ∙ ap (λ f. f x) t.mms;
  pgdirs = λ x. n.pgdirs x ∙ ap (λ f. f x) t.pgdirs;
  mm_count = λ x held. n.mm_count x (ap (λ f. f x) t.mms ∙ held) ∙ ap (λ f. f x) t.mm_count;
}

-- The state in which the process and the stack are allocated.
abbrev pub prepared : ℕ → ℕ → World → World
prepared s p w = setup_kstack s p (set_parent p (alloc_proc p w))

pub prepared-Taken : (s p : ℕ) (w : World) → Taken s p w (prepared s p w)
unfolding setup_kstack alloc_proc
prepared-Taken s p w = record {
  proc_list = refl;
  nr_process = refl;
  hash_list = refl;
  ready = refl;
  current = refl;
  procs = refl;
  stacks = refl;
  mms = refl;
  pgdirs = refl;
  mm_count = refl;
  kstack = ground arith;
}

pub share_fs-Taken : (s p f : ℕ) (w W : World) → Taken s p w W → Taken s p w (share_fs f p W)
share_fs-Taken s p f w W t = record {
  proc_list = t.proc_list;
  nr_process = t.nr_process;
  hash_list = t.hash_list;
  ready = t.ready;
  current = t.current;
  procs = t.procs;
  stacks = t.stacks;
  mms = t.mms;
  pgdirs = t.pgdirs;
  mm_count = t.mm_count;
  kstack = ground (arith, t.kstack);
}

pub new_fs-Taken : (s p f : ℕ) (w W : World) → Taken s p w W → Taken s p w (new_fs f W)
new_fs-Taken s p f w W t = record {
  proc_list = t.proc_list;
  nr_process = t.nr_process;
  hash_list = t.hash_list;
  ready = t.ready;
  current = t.current;
  procs = t.procs;
  stacks = t.stacks;
  mms = t.mms;
  pgdirs = t.pgdirs;
  mm_count = t.mm_count;
  kstack = t.kstack;
}

pub lost-users :
    (s p f : ℕ) (w v : World)
    → w.memory.tables f ≡ true
    → Near (share_fs f p (prepared s p w)) v
    → users (returned s p v) f ≡ users w f + 1
unfolding setup_kstack alloc_proc
lost-users s p f w v held n = rw (n.tables, n.files_count) (ground (arith, held))

pub lost_old :
    (s p f : ℕ) (w v : World)
    → w.memory.tables f ≡ true
    → Near (share_fs f p (prepared s p w)) v
    → FilesLost w (returned s p v)
unfolding setup_kstack alloc_proc
lost_old s p f w v held n =
    (f, lost-users s p f w v held n, λ g ne. rw (n.tables, n.files_count) (ground arith))

pub lost_new :
    (s p f : ℕ) (w v : World)
    → w.memory.tables f ≡ false
    → Near (share_fs f p (new_fs f (prepared s p w))) v
    → FilesLost w (returned s p v)
unfolding setup_kstack alloc_proc
lost_new s p f w v free n = (
  f,
  rw (n.tables, n.files_count) (ground (arith, free)),
  λ g ne. rw (n.tables, n.files_count) (ground arith),
)

pub kept_all : (s p : ℕ) (w v : World) → Near (prepared s p w) v → FilesKept w (returned s p v)
unfolding setup_kstack alloc_proc
kept_all s p w v n f = rw (n.tables, n.files_count) refl
