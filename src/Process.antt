-- ===== src/Process.antt =====
-- Processes, the list of them by their numbers, and `do_kill` (kern/process/proc.c). A process is the
-- address of its `struct proc_struct`; the state for the scheduler stands in Sched, the relations in
-- Family, the numbers in Pid.
pub mod Hashed
pub mod Kill
pub mod Sample
mod Tests
use os_exercises.Base.{
  ℕ, zero, suc, ◌+◌, ◌-◌, ◌^◌, Bool, true, false, not, Option, none, some, List, [], ◌∷◌, ltb, ◌==◌,
  ◌&&◌, bit_and, bit_or, if◌then◌else◌, Outcome, done, panic, ◌>>=◌, Error, e_inval, e_killed, ◌⊎◌,
  inl, inr,
}
use os_exercises.Sched.{Kernel, wakeup_proc}
use os_exercises.Wait.{wt_interrupted}
use os_exercises.Family.{Links}
use os_exercises.Pid.{Cursor, max_pid}
use os_exercises.Hash.{hash32}

-- The other fields of `struct proc_struct`; addresses of what it points to, and `none` for NULL.
pub record Task : Type 0 where
  pub pid : ℕ
  pub kstack : Option ℕ
  pub mm : Option ℕ
  pub filesp : Option ℕ
  pub flags : ℕ
  pub exit_code : ℕ

-- What is allocated: descriptors of processes, kernel stacks, descriptors of memory with their page
-- directories, and tables of open files.
pub record Memory : Type 0 where
  pub procs : ℕ → Bool
  pub stacks : ℕ → Bool
  pub mms : ℕ → Bool
  pub pgdirs : ℕ → Bool
  pub tables : ℕ → Bool

-- The state of proc.c; `mm_count` and `files_count` are the counts of users of an `mm` or a table.
pub record World : Type 0 where
  pub kernel : Kernel
  pub links : Links
  pub hash_list : ℕ → List ℕ
  pub cursor : Cursor
  pub tasks : ℕ → Task
  pub memory : Memory
  pub mm_count : ℕ → ℕ
  pub files_count : ℕ → ℕ

abbrev pub put {ℓ} : {A : Type ℓ} → ℕ → A → (ℕ → A) → ℕ → A
put i v f j = if j == i then v else f j

abbrev pub put_task : ℕ → Task → World → World
put_task p t w = record w { tasks = put p t w.tasks }

-- -1 as a word.
abbrev pub no_pid : ℕ
no_pid = 0xffff_ffff

-- HASH_SHIFT is 10.
abbrev pub pid_hashfn : ℕ → ℕ
pid_hashfn pid = hash32 pid 10

unfoldable pub hash_proc : ℕ → World → World
hash_proc p w =
    let b = pid_hashfn (w.tasks p).pid in
    record w { hash_list = put b (p ∷ w.hash_list b) w.hash_list }

unfoldable pub list_del : ℕ → List ℕ → List ℕ
list_del p [] = []
list_del p (q ∷ l) = let rest = q ∷ list_del p l in if p == q then l else rest

-- `list_del` on the link of the process, which stands in the list of its number.
unfoldable pub unhash_proc : ℕ → World → World
unhash_proc p w =
    let b = pid_hashfn (w.tasks p).pid in
    record w { hash_list = put b (list_del p (w.hash_list b)) w.hash_list }

-- The walk along one list.
unfoldable pub find_hashed : ℕ → (ℕ → Task) → List ℕ → Option ℕ
find_hashed pid tasks [] = none
find_hashed pid tasks (p ∷ l) =
    let rest = find_hashed pid tasks l in if (tasks p).pid == pid then some p else rest

unfoldable pub find_proc : ℕ → World → Option ℕ
find_proc pid w =
    if ltb 0 pid && ltb pid max_pid
    then find_hashed pid w.tasks (w.hash_list (pid_hashfn pid))
    else none

-- PF_EXITING.
abbrev pub pf_exiting : ℕ
pf_exiting = 1

-- A process that is found is marked, and woken where its wait can be interrupted.
abbrev pub kill : ℕ → World → Outcome World
kill p w =
    let t = w.tasks p in
    let w' = put_task p (record t { flags = bit_or t.flags pf_exiting }) w in
    if not (bit_and (w.kernel.procs p).wait_state wt_interrupted == 0)
    then (wakeup_proc p w.kernel >>= λ k. done (record w' { kernel = k }))
    else done w'

unfoldable pub do_kill : ℕ → World → Outcome (World × (Error ⊎ Unit {0}))
do_kill pid w = elim (find_proc pid w) [
  | none ↦ done (w, inl e_inval)
  | some p ↦
      if bit_and (w.tasks p).flags pf_exiting == 0
      then (kill p w >>= λ w'. done (w', inr tt))
      else done (w, inl e_killed)
]

unfoldable pub do_yield : World → World
do_yield w =
    let k = w.kernel in
    record w {
      kernel = record k {
        procs = put k.current (record (k.procs k.current) { need_resched = true }) k.procs;
      };
    }
