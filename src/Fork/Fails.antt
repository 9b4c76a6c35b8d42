-- ===== src/Fork/Fails.antt =====
-- What the parts of a call of `do_fork` that fails leave behind.
use os_exercises.Base.{
  Outcome-cases, ℕ, ◌+◌, ◌≡◌, ◌≢◌, refl, sym, ◌∙◌, inl, inr, Bool, true, false, some, ◌==◌, bit_and,
  if◌then◌else◌, Bool-cases, Option-cases, done, Error, e_no_mem, ◌⊎◌,
}
use os_exercises.Process.{World, put}
use os_exercises.Files.{Files}
use os_exercises.Fork.{
  Answers, clone_fs, free_proc, put_kstack, share_fs, new_fs, copy_fs, fill_table, copy_mm, fork_mm,
  fork_fs,
}
use os_exercises.Fork.Branches.{copy_mm-fails, fork_mm-fails, no_panic}

-- kmalloc and alloc_pages answer with what is free.
pub record Fresh (a : Answers) (w : World) : Type 0 where
  pub proc : (p : ℕ) → a.proc ≡ some p → w.memory.procs p ≡ false
  pub kstack : (s : ℕ) → a.kstack ≡ some s → w.memory.stacks s ≡ false
  pub filesp : (f : ℕ) → a.filesp ≡ some f → w.memory.tables f ≡ false
  pub mm : (m : ℕ) → a.mm ≡ some m → (w.memory.mms m ≡ false) × (w.memory.pgdirs m ≡ false)

-- Lists of processes, run queue, and what the memory of processes takes are as before.
pub record Restored (w w' : World) : Type 0 where
  pub proc_list : w'.links.proc_list ≡ w.links.proc_list
  pub nr_process : w'.links.nr_process ≡ w.links.nr_process
  pub hash_list : w'.hash_list ≡ w.hash_list
  pub ready : w'.kernel.ready ≡ w.kernel.ready
  pub current : w'.kernel.current ≡ w.kernel.current
  pub procs : (x : ℕ) → w'.memory.procs x ≡ w.memory.procs x
  pub stacks : (x : ℕ) → w'.memory.stacks x ≡ w.memory.stacks x
  pub mms : (x : ℕ) → w'.memory.mms x ≡ w.memory.mms x
  pub pgdirs : (x : ℕ) → w'.memory.pgdirs x ≡ w.memory.pgdirs x
  pub mm_count : (x : ℕ) → w.memory.mms x ≡ true → w'.mm_count x ≡ w.mm_count x

-- How many users a table has; one that is not allocated has none.
abbrev pub users : World → ℕ → ℕ
users w f = if w.memory.tables f then w.files_count f else 0

abbrev pub FilesKept : World → World → Type 0
FilesKept w w' = (f : ℕ) → users w' f ≡ users w f

-- One table has a user more, and it is not the new process.
abbrev pub FilesLost : World → World → Type 0
FilesLost w w' = (f : ℕ) × (users w' f ≡ users w f + 1) × ((g : ℕ) → g ≢ f → users w' g ≡ users w g)

pub put_kstack-run :
    (p s : ℕ) (w : World)
    → (w.tasks p).kstack ≡ some s
    → put_kstack p w
      ≡ record w { memory = record w.memory { stacks = put s false w.memory.stacks } }
unfolding put_kstack
put_kstack-run p s w e = rw (put_kstack, e) refl

-- Before the stack is given back: only the memory for a copy of the address space may differ.
pub record Near (w w' : World) : Type 0 where
  pub tasks : w'.tasks ≡ w.tasks
  pub links : w'.links ≡ w.links
  pub hash_list : w'.hash_list ≡ w.hash_list
  pub kernel : w'.kernel ≡ w.kernel
  pub procs : w'.memory.procs ≡ w.memory.procs
  pub stacks : w'.memory.stacks ≡ w.memory.stacks
  pub tables : w'.memory.tables ≡ w.memory.tables
  pub files_count : w'.files_count ≡ w.files_count
  pub mms : (x : ℕ) → w'.memory.mms x ≡ w.memory.mms x
  pub pgdirs : (x : ℕ) → w'.memory.pgdirs x ≡ w.memory.pgdirs x
  pub mm_count : (x : ℕ) → w.memory.mms x ≡ true → w'.mm_count x ≡ w.mm_count x

pub copy_mm-Near :
    (a : Answers) (fl p : ℕ) (w : World)
    → ((m : ℕ) → a.mm ≡ some m → (w.memory.mms m ≡ false) × (w.memory.pgdirs m ≡ false))
    → (copy_mm a fl p w).1 ≡ false
    → Near w (copy_mm a fl p w).0
copy_mm-Near a fl p w fresh h =
    let (mms, pgdirs, mm_count, state, mm_same, pgdir_same, counts) =
      copy_mm-fails a fl p w fresh h in
    near w (copy_mm a fl p w).0 mms pgdirs mm_count state mm_same pgdir_same counts
  where
    near :
        (w w' : World) (mms pgdirs : ℕ → Bool) (mm_count : ℕ → ℕ)
        → w' ≡ record w {
          memory = record w.memory { mms = mms; pgdirs = pgdirs };
          mm_count = mm_count;
        }
        → ((x : ℕ) → mms x ≡ w.memory.mms x)
        → ((x : ℕ) → pgdirs x ≡ w.memory.pgdirs x)
        → ((x : ℕ) → w.memory.mms x ≡ true → mm_count x ≡ w.mm_count x)
        → Near w w'
    near w w' mms pgdirs mm_count e mm_same pgdir_same counts = rw e (record {
      tasks = refl;
      links = refl;
      hash_list = refl;
      kernel = refl;
      procs = refl;
      stacks = refl;
      tables = refl;
      files_count = refl;
      mms = mm_same;
      pgdirs = pgdir_same;
      mm_count = counts;
    })

pub fork_fs-fork_mm :
    (a : Answers) (fl p : ℕ) (w v : World)
    → copy_fs a fl p w ≡ done (v, true)
    → fork_fs a fl p w ≡ fork_mm a fl p v
fork_fs-fork_mm a fl p w v e = rw e refl

copy_fs-new :
    (a : Answers) (fl p old f : ℕ) (w : World) (to : Files)
    → (w.tasks w.kernel.current).filesp ≡ some old
    → (bit_and fl clone_fs == 0) ≡ true
    → a.filesp ≡ some f
    → fill_table a (w.files_count old) ≡ done to
    → copy_fs a fl p w ≡ done (share_fs f p (new_fs f w), true)
unfolding copy_fs
copy_fs-new a fl p old f w to e own new shared = rw (copy_fs, e, own, new, shared) refl

-- The three ways in which fork_fs fails: no table, or no address space, with or without a new table.
pub fork_fs-fails :
    (a : Answers) (fl p : ℕ) (w w' : World) (e : Error)
    → fork_fs a fl p w ≡ done (w', inl e)
    → (e ≡ e_no_mem)
      × (W : World) × (v : World) × ((W ≡ w)
          ⊎ ((old : ℕ) × ((w.tasks w.kernel.current).filesp ≡ some old) × (W ≡ share_fs old p w))
          ⊎ ((f : ℕ) × (a.filesp ≡ some f) × (W ≡ share_fs f p (new_fs f w))))
      × ((v ≡ W) ⊎ ((v ≡ (copy_mm a fl p W).0) × ((copy_mm a fl p W).1 ≡ false)))
      × (w' ≡ free_proc p (put_kstack p v))
unfolding copy_fs
fork_fs-fails a fl p w w' e h = elim (Option-cases (w.tasks w.kernel.current).filesp) [
  | inl none_open ↦
      let never = rw (fork_fs, copy_fs, none_open) at h in absurd (no_panic w' (inl e) never)
  | inr (old, used) ↦ elim (Bool-cases (bit_and fl clone_fs == 0)) [
    | inl own ↦ elim (Option-cases a.filesp) [
      | inl no_table ↦
          let went = rw (fork_fs, copy_fs, used, own, no_table) at h in
          (cc went, w, w, inl refl, inl refl, cc went)
      | inr (f, table) ↦ elim (Outcome-cases (fill_table a (w.files_count old))) [
        | inr unshared ↦
            let never = rw (fork_fs, copy_fs, used, own, table, unshared) at h in
            absurd (no_panic w' (inl e) never)
        | inl (to, held) ↦
            let went : fork_mm a fl p (share_fs f p (new_fs f w)) ≡ done (w', inl e) =
              sym (
                fork_fs-fork_mm a fl p w (share_fs f p (new_fs f w))
                  (copy_fs-new a fl p old f w to used own table held))
              ∙ h in
            let (failed, state, err) = fork_mm-fails a fl p (share_fs f p (new_fs f w)) w' e went in
            (
              err,
              share_fs f p (new_fs f w),
              (copy_mm a fl p (share_fs f p (new_fs f w))).0,
              inr (inr (f, table, refl)),
              inr (refl, failed),
              state,
            )
      ]
    ]
    | inr shared ↦
        let went : fork_mm a fl p (share_fs old p w) ≡ done (w', inl e) =
          rw (fork_fs, copy_fs, used, shared) at h in
        let (failed, state, err) = fork_mm-fails a fl p (share_fs old p w) w' e went in
        (
          err,
          share_fs old p w,
          (copy_mm a fl p (share_fs old p w)).0,
          inr (inl (old, used, refl)),
          inr (refl, failed),
          state,
        )
  ]
]
