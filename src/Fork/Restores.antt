-- ===== src/Fork/Restores.antt =====
-- What a call of `do_fork` that fails leaves behind.
use os_exercises.Base.{
  assert, ◌>>◌, ℕ, ◌≡◌, ◌≢◌, refl, sym, ap, ◌∙◌, inl, inr, true, false, Option, none, some, arith,
  leb, ◌==◌, if◌then◌else◌, Bool-cases, Option-cases, Outcome, done, Error, e_no_mem,
  e_no_free_proc, ◌⊎◌,
}
use os_exercises.Pid.{max_process}
use os_exercises.Process.{Task, World}
use os_exercises.Fork.{
  Answers, alloc_proc, free_proc, setup_kstack, put_kstack, share_fs, new_fs, copy_mm, fork_fs,
  fork_proc, set_parent, do_fork,
}
use os_exercises.Fork.Branches.{no_panic, put-restores}
use os_exercises.Fork.Fails.{
  Fresh, Restored, FilesKept, FilesLost, Near, put_kstack-run, copy_mm-Near, fork_fs-fails,
}
use os_exercises.Fork.Undo.{
  Taken, returned, Taken-Restored, prepared, prepared-Taken, share_fs-Taken, new_fs-Taken, lost_old,
  lost_new, kept_all,
}

-- The current process is allocated, and so is its table.
pub record Current (w : World) : Type 0 where
  pub procs : w.memory.procs w.kernel.current ≡ true
  pub tables : (f : ℕ) → (w.tasks w.kernel.current).filesp ≡ some f → w.memory.tables f ≡ true

-- A new process is not the current one.
pub current_ne : (p : ℕ) (w : World) → Current w → w.memory.procs p ≡ false → w.kernel.current ≢ p
current_ne p w c free e =
    let clash : w.memory.procs p ≡ true = ap w.memory.procs (sym e) ∙ c.procs in
    absurd (ground (arith, free, clash))

pub prepared-tasks :
    (s p : ℕ) (w : World)
    → Current w
    → w.memory.procs p ≡ false
    → (prepared s p w).tasks (prepared s p w).kernel.current ≡ w.tasks w.kernel.current
unfolding setup_kstack alloc_proc
prepared-tasks s p w c free = let ne = current_ne p w c free in ground arith

pub Near-refl : (w : World) → Near w w
Near-refl w = record {
  tasks = refl;
  links = refl;
  hash_list = refl;
  kernel = refl;
  procs = refl;
  stacks = refl;
  tables = refl;
  files_count = refl;
  mms = λ x. refl;
  pgdirs = λ x. refl;
  mm_count = λ x held. refl;
}

-- What fails after the process is allocated.
abbrev Outcomes : World → World → Type 0
Outcomes w w' = Restored w w' × (FilesKept w w' ⊎ FilesLost w w')

pub returned-put_kstack :
    (s p : ℕ) (w W v w' : World)
    → Taken s p w W
    → Near W v
    → w' ≡ free_proc p (put_kstack p v)
    → w' ≡ returned s p v
returned-put_kstack s p w W v w' t n e =
    e ∙ ap (free_proc p) (put_kstack-run p s v (ap (λ f. (f p).kstack) n.tasks ∙ t.kstack))

module _ (a : Answers) (fl s p : ℕ) (w w' : World) (fresh : Fresh a w) (c : Current w)
    (free_p : w.memory.procs p ≡ false) (free_s : w.memory.stacks s ≡ false) where
  abbrev W0 : World
  W0 = prepared s p w

  restored :
      (W v : World)
      → Taken s p w W
      → Near W v
      → w' ≡ free_proc p (put_kstack p v)
      → (FilesKept w (returned s p v) ⊎ FilesLost w (returned s p v))
      → Outcomes w w'
  restored W v t n e files =
      rw (returned-put_kstack s p w W v w' t n e)
        (Taken-Restored s p w W v free_p free_s t n, files)

  near :
      (W v : World)
      → W.memory.mms ≡ w.memory.mms
      → W.memory.pgdirs ≡ w.memory.pgdirs
      → (v ≡ W) ⊎ ((v ≡ (copy_mm a fl p W).0) × ((copy_mm a fl p W).1 ≡ false))
      → Near W v
  near W v mms pgdirs h = elim h [
    | inl e ↦ rw e (Near-refl W)
    | inr r ↦ rw (r.0) (copy_mm-Near a fl p W (λ m new. rw (mms, pgdirs) (fresh.mm m new)) r.1)
  ]

  kept-Near :
      (W W' v : World)
      → W ≡ W'
      → W'.memory.mms ≡ w.memory.mms
      → W'.memory.pgdirs ≡ w.memory.pgdirs
      → (v ≡ W) ⊎ ((v ≡ (copy_mm a fl p W).0) × ((copy_mm a fl p W).1 ≡ false))
      → Near W' v
  kept-Near W W' v e mms pgdirs h = let h' = rw e at h in near W' v mms pgdirs h'

  on_table :
      (W v : World)
      → (W ≡ W0)
        ⊎ ((old : ℕ) × ((W0.tasks W0.kernel.current).filesp ≡ some old) × (W ≡ share_fs old p W0))
        ⊎ ((f : ℕ) × (a.filesp ≡ some f) × (W ≡ share_fs f p (new_fs f W0)))
      → (v ≡ W) ⊎ ((v ≡ (copy_mm a fl p W).0) × ((copy_mm a fl p W).1 ≡ false))
      → w' ≡ free_proc p (put_kstack p v)
      → Outcomes w w'
  on_table W v table space state = elim table [
    | inl e ↦
        let t = prepared-Taken s p w in
        let n = kept-Near W W0 v e t.mms t.pgdirs space in
        restored W0 v t n state (inl (kept_all s p w v n))
    | inr (inl (old, used, e)) ↦
        let t = share_fs-Taken s p old w W0 (prepared-Taken s p w) in
        let n = kept-Near W (share_fs old p W0) v e t.mms t.pgdirs space in
        let held =
          c.tables old (sym (ap (λ (t : Task). t.filesp) (prepared-tasks s p w c free_p)) ∙ used) in
        restored (share_fs old p W0) v t n state (inr (lost_old s p old w v held n))
    | inr (inr (f, new, e)) ↦
        let t =
          share_fs-Taken s p f w (new_fs f W0) (new_fs-Taken s p f w W0 (prepared-Taken s p w)) in
        let n = kept-Near W (share_fs f p (new_fs f W0)) v e t.mms t.pgdirs space in
        restored (share_fs f p (new_fs f W0)) v t n state
          (inr (lost_new s p f w v (fresh.filesp f new) n))
  ]

  fork_fs-Outcomes :
      (e : Error) → fork_fs a fl p W0 ≡ done (w', inl e) → (e ≡ e_no_mem) × Outcomes w w'
  fork_fs-Outcomes e h =
      let (err, W, v, table, space, state) = fork_fs-fails a fl p W0 w' e h in
      (err, on_table W v table space state)

abbrev pub stacked : Answers → ℕ → ℕ → World → Option ℕ → Outcome (World × (Error ⊎ ℕ))
stacked a fl p w none = done (free_proc p w, inl e_no_mem)
stacked a fl p w (some s) = fork_fs a fl p (setup_kstack s p w)

pub fork_proc-fork_fs :
    (a : Answers) (fl p s : ℕ) (W : World)
    → ((W.kernel.procs W.kernel.current).wait_state == 0) ≡ true
    → a.kstack ≡ some s
    → fork_proc a fl p W ≡ fork_fs a fl p (setup_kstack s p W)
fork_proc-fork_fs a fl p s W awake stack =
    ap (λ b. assert b >> stacked a fl p W a.kstack) awake ∙ ap (stacked a fl p W) stack

fork_proc-cases :
    (a : Answers) (fl p : ℕ) (W w' : World) (e : Error)
    → fork_proc a fl p W ≡ done (w', inl e)
    → ((w' ≡ free_proc p W) × (e ≡ e_no_mem))
      ⊎ ((s : ℕ) × (a.kstack ≡ some s) × (fork_fs a fl p (setup_kstack s p W) ≡ done (w', inl e)))
fork_proc-cases a fl p W w' e h =
    elim (Bool-cases ((W.kernel.procs W.kernel.current).wait_state == 0)) [
      | inl awake ↦ elim (Option-cases a.kstack) [
        | inl none_left ↦ let went = rw (fork_proc, awake, none_left) at h in inl (cc went, cc went)
        | inr (s, stack) ↦ inr (s, stack, sym (fork_proc-fork_fs a fl p s W awake stack) ∙ h)
      ]
      | inr waits ↦ let never = rw (fork_proc, waits) at h in absurd (no_panic w' (inl e) never)
    ]

pub do_fork-fork_proc :
    (a : Answers) (fl p : ℕ) (w : World)
    → leb max_process w.links.nr_process ≡ false
    → a.proc ≡ some p
    → do_fork a fl w ≡ fork_proc a fl p (set_parent p (alloc_proc p w))
unfolding do_fork
do_fork-fork_proc a fl p w room proc = rw (do_fork, room, proc) refl

no_stack :
    (p : ℕ) (w w' : World)
    → w.memory.procs p ≡ false
    → w' ≡ free_proc p (set_parent p (alloc_proc p w))
    → Restored w w' × FilesKept w w'
unfolding alloc_proc
no_stack p w w' free e = rw e (
  record {
    proc_list = refl;
    nr_process = refl;
    hash_list = refl;
    ready = refl;
    current = refl;
    procs = λ x. put-restores p x w.memory.procs free;
    stacks = λ x. refl;
    mms = λ x. refl;
    pgdirs = λ x. refl;
    mm_count = λ x held. refl;
  },
  λ f. refl,
)

-- Where kmalloc and alloc_pages answer with what is free, a call of `do_fork` that fails returns
-- -E_NO_FREE_PROC exactly when there are MAX_PROCESS processes, and -E_NO_MEM otherwise; lists of
-- processes, run queue and the memory of processes, stacks and address spaces are as before, and so
-- are the users of the tables of open files, but that one table may be left with a user too many.
pub do_fork-Restored :
    (a : Answers) (fl : ℕ) (w w' : World) (e : Error)
    → Fresh a w
    → Current w
    → do_fork a fl w ≡ done (w', inl e)
    → Restored w w'
      × (FilesKept w w' ⊎ FilesLost w w')
      × (e ≡ (if leb max_process w.links.nr_process then e_no_free_proc else e_no_mem))
unfolding do_fork
do_fork-Restored a fl w w' e fresh c h = elim (Bool-cases (leb max_process w.links.nr_process)) [
  | inl full ↦
      let went = rw (do_fork, full) at h in
      let same : w ≡ w' = cc went in
      let err : e_no_free_proc ≡ e = cc went in
      rw full (unchanged w w' same, inl (kept w w' same), sym err)
  | inr room ↦ elim (Option-cases a.proc) [
    | inl no_proc ↦
        let went = rw (do_fork, room, no_proc) at h in
        let same : w ≡ w' = cc went in
        let err : e_no_mem ≡ e = cc went in
        rw room (unchanged w w' same, inl (kept w w' same), sym err)
    | inr (p, proc) ↦
        let W = set_parent p (alloc_proc p w) in
        let went = sym (do_fork-fork_proc a fl p w room proc) ∙ h in
        elim (fork_proc-cases a fl p W w' e went) [
          | inl (state, err) ↦
              let (r, files) = no_stack p w w' (fresh.proc p proc) state in
              rw room (r, inl files, err)
          | inr (s, kstack, went) ↦
              let (err, (r, files)) =
                fork_fs-Outcomes a fl s p w w' fresh c (fresh.proc p proc) (fresh.kstack s kstack) e
                  went in
              rw room (r, files, err)
        ]
  ]
]
  where
    unchanged : (w w' : World) → w ≡ w' → Restored w w'
    unchanged w w' e = rw (← e) (record {
      proc_list = refl;
      nr_process = refl;
      hash_list = refl;
      ready = refl;
      current = refl;
      procs = λ x. refl;
      stacks = λ x. refl;
      mms = λ x. refl;
      pgdirs = λ x. refl;
      mm_count = λ x held. refl;
    })

    kept : (w w' : World) → w ≡ w' → FilesKept w w'
    kept w w' e f = rw (← e) refl
