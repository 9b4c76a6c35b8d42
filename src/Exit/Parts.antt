-- ===== src/Exit/Parts.antt =====
-- What the parts of `do_exit` do to the run queue and to memory.
use os_exercises.Base.{
  ℕ, ◌-◌, ◌≡◌, refl, sym, ap, ◌∙◌, inl, inr, true, false, Option, none, some, zero, suc, arith,
  ◌==◌, ◌&&◌, Bool-cases, Option-cases, done, Outcome, panic,
}
use os_exercises.Sched.{
  ProcState, proc_uninit, proc_sleeping, sched_class_enqueue, Kernel, Proc, idleproc, is_zombie,
  is_runnable, proc_zombie, proc_runnable, put_proc, wakeup_proc,
}
use os_exercises.Sched.Ready.{IsValid, wakeup_proc-IsValid}
use os_exercises.Family.{Links, initproc, wt_child, adopt, notify, adopt_all}
use os_exercises.Process.{Task, Memory, World, put}
use os_exercises.Files.{Files}
use os_exercises.Files.Destroy.{IsAtRest, files_destroy-run}
use os_exercises.Fork.{put_fs}
use os_exercises.Exit.{put_mm, wake_parent}

-- The run queue stays right, and processes only wake up.
pub record Woken (k k' : Kernel) : Type 0 where
  pub kernel : IsValid k'
  pub current : k'.current ≡ k.current
  pub zombies : (q : ℕ) → is_zombie (k'.procs q).state ≡ is_zombie (k.procs q).state
  pub ready : (q : ℕ) → is_runnable (k.procs q).state ≡ true → is_runnable (k'.procs q).state ≡ true

Woken-refl : (k : Kernel) → IsValid k → Woken k k
Woken-refl k v = record { kernel = v; current = refl; zombies = λ q. refl; ready = λ q r. r }

pub Woken-trans : {i j k : Kernel} → Woken i j → Woken j k → Woken i k
Woken-trans s t = record {
  kernel = t.kernel;
  current = t.current ∙ s.current;
  zombies = λ q. t.zombies q ∙ s.zombies q;
  ready = λ q r. t.ready q (s.ready q r);
}

current_or : ℕ → Outcome Kernel → ℕ
current_or c (done k) = k.current
current_or c panic = c

wakeup_proc-current : (p : ℕ) (k : Kernel) → current_or k.current (wakeup_proc p k) ≡ k.current
unfolding current_or wakeup_proc sched_class_enqueue
wakeup_proc-current p k = elim (Bool-cases (is_zombie (k.procs p).state)) [
  | inl e ↦ rw e refl
  | inr e ↦ elim (Bool-cases (is_runnable (k.procs p).state)) [
    | inl r ↦ rw (e, r) refl
    | inr r ↦ elim (Bool-cases (p == k.current)) [
      | inl c ↦ rw (e, r, c) refl
      | inr c ↦ elim (Bool-cases (p == idleproc)) [
        | inl i ↦ rw (e, r, c, i) refl
        | inr i ↦ rw (e, r, c, i) refl
      ]
    ]
  ]
]

wakeup_proc-keeps : (p : ℕ) (k k' : Kernel) → wakeup_proc p k ≡ done k' → k'.current ≡ k.current
unfolding current_or
wakeup_proc-keeps p k k' h = rw h at (wakeup_proc-current p k)

runnable_lives : (s : ProcState) → is_runnable s ≡ true → is_zombie s ≡ false
runnable_lives proc_uninit h = refl
runnable_lives proc_sleeping h = refl
runnable_lives proc_runnable h = refl
runnable_lives proc_zombie h = absurd (ground (arith, h))

wakeup_proc-Woken :
    (p : ℕ) (k : Kernel)
    → IsValid k
    → is_zombie (k.procs p).state ≡ false
    → (k' : Kernel) × (wakeup_proc p k ≡ done k')
      × Woken k k'
      × (is_runnable (k'.procs p).state ≡ true)
wakeup_proc-Woken p k v alive =
    let (k', run, valid, ready, same) = wakeup_proc-IsValid p v alive in
    (
      k',
      run,
      record {
        kernel = valid;
        current = wakeup_proc-keeps p k k' run;
        zombies = λ q. elim (Bool-cases (q == p)) [
          | inl e ↦
              let at : q ≡ p = ground arith in
              rw at (runnable_lives (k'.procs p).state ready ∙ sym alive)
          | inr e ↦ ap (λ (c : Proc). is_zombie c.state) (same q (ground arith))
        ];
        ready = λ q r. elim (Bool-cases (q == p)) [
          | inl e ↦ let at : q ≡ p = ground arith in rw at ready
          | inr e ↦ ap (λ (c : Proc). is_runnable c.state) (same q (ground arith)) ∙ r
        ];
      },
      ready,
    )

notify-Woken :
    (p : ℕ) (k : Kernel)
    → IsValid k
    → is_zombie (k.procs initproc).state ≡ false
    → (k' : Kernel) × (notify p k ≡ done k') × Woken k k'
notify-Woken p k v alive =
    elim (Bool-cases (is_zombie (k.procs p).state && (k.procs initproc).wait_state == wt_child)) [
      | inl e ↦
          let (k', run, woken, ready) = wakeup_proc-Woken initproc k v alive in
          (k', rw e run, woken)
      | inr e ↦ (k, rw e refl, Woken-refl k v)
    ]

pub adopt_all-Woken :
    (fuel current : ℕ) (o : Option ℕ) (l l' : Links) (k k' : Kernel)
    → IsValid k
    → is_zombie (k.procs initproc).state ≡ false
    → adopt_all fuel current o l k ≡ done (l', k')
    → Woken k k'
unfolding adopt_all
adopt_all-Woken fuel current none l l' k k' v alive h =
    let e : k ≡ k' = cc h in rw (← e) (Woken-refl k v)
adopt_all-Woken zero current (some p) l l' k k' v alive h = absurd (ground (arith, h))
adopt_all-Woken (suc fuel) current (some p) l l' k k' v alive h =
    let (j, run, woken) = notify-Woken p k v alive in
    let rest = rw run at h in
    Woken-trans {j = j} woken (
      adopt_all-Woken fuel current ((adopt current p l).cptr current) (adopt current p l) l' j k'
        woken.kernel (woken.zombies initproc ∙ alive) rest)

pub wake_parent-Woken :
    (q : ℕ) (k : Kernel)
    → IsValid k
    → is_zombie (k.procs q).state ≡ false
    → (k' : Kernel) × (wake_parent (some q) k ≡ done k')
      × Woken k k'
      × (((k.procs q).wait_state == wt_child) ≡ true → is_runnable (k'.procs q).state ≡ true)
wake_parent-Woken q k v alive = elim (Bool-cases ((k.procs q).wait_state == wt_child)) [
  | inl e ↦
      let (k', run, woken, ready) = wakeup_proc-Woken q k v alive in
      (k', rw e run, woken, λ w. ready)
  | inr e ↦ (k, rw e refl, Woken-refl k v, λ w. absurd (ground (arith, w, e)))
]

pub buried-IsValid :
    (k : Kernel)
    → IsValid k
    → IsValid (put_proc k.current (record (k.procs k.current) { state = proc_zombie }) k)
buried-IsValid k v = record { queued = λ q. ground (arith, v.queued q) }

-- The state with other tasks, memory and counts.
abbrev pub changed : World → (ℕ → Task) → Memory → (ℕ → ℕ) → (ℕ → ℕ) → World
changed w t m c f = record w { tasks = t; memory = m; mm_count = c; files_count = f }

put_mm-changed :
    (p : ℕ) (w : World)
    → (t : ℕ → Task) × (m : Memory) × (c : ℕ → ℕ) × (put_mm p w ≡ changed w t m c w.files_count)
      × ((t p).filesp ≡ (w.tasks p).filesp)
unfolding put_mm
put_mm-changed p w = elim (Option-cases (w.tasks p).mm) [
  | inl e ↦ (w.tasks, w.memory, w.mm_count, rw (put_mm, e) refl, refl)
  | inr (m, e) ↦ elim (Bool-cases (w.mm_count m == 1)) [
    | inl last ↦ (
      put p (record (w.tasks p) { mm = none }) w.tasks,
      record w.memory { mms = put m false w.memory.mms; pgdirs = put m false w.memory.pgdirs },
      put m (w.mm_count m - 1) w.mm_count,
      rw (put_mm, e, last) refl,
      ground arith,
    )
    | inr more ↦ (
      put p (record (w.tasks p) { mm = none }) w.tasks,
      w.memory,
      put m (w.mm_count m - 1) w.mm_count,
      rw (put_mm, e, more) refl,
      ground arith,
    )
  ]
]

put_fs-changed :
    {opens refs : ℕ → ℕ} (table : Files) (p : ℕ) (w : World)
    → ((f : ℕ) → (w.tasks p).filesp ≡ some f → w.files_count f ≡ 1 → IsAtRest opens refs table)
    → (m : Memory) × (f : ℕ → ℕ) × (put_fs table p w ≡ done (changed w w.tasks m w.mm_count f))
unfolding put_fs
put_fs-changed table p w rest = elim (Option-cases (w.tasks p).filesp) [
  | inl e ↦ (w.memory, w.files_count, rw (put_fs, e) refl)
  | inr (f, e) ↦ elim (Bool-cases (w.files_count f == 1)) [
    | inl last ↦
        let one : w.files_count f ≡ 1 = ground arith in
        let (_, run) = files_destroy-run table (rest f e one) in
        let left : w.files_count f - 1 ≡ 0 = omega arith in
        (
          record w.memory { tables = put f false w.memory.tables },
          put f (w.files_count f - 1) w.files_count,
          rw (put_fs, e, last, left, run) refl,
        )
    | inr more ↦ (w.memory, put f (w.files_count f - 1) w.files_count, rw (put_fs, e, more) refl)
  ]
]

-- The memory and the table of open files are given up; relations and scheduling are not touched.
pub released :
    {opens refs : ℕ → ℕ} (table : Files) (p : ℕ) (w : World)
    → ((f : ℕ) → (w.tasks p).filesp ≡ some f → w.files_count f ≡ 1 → IsAtRest opens refs table)
    → (t : ℕ → Task) × (m : Memory) × (c : ℕ → ℕ) × (f : ℕ → ℕ) × (put_fs table p (put_mm p w)
        ≡ done (changed w t m c f))
released table p w rest =
    let (t, m, c, e, same) = put_mm-changed p w in
    let (m', f, e') =
      put_fs-changed table p (changed w t m c w.files_count) (λ f h. rest f (sym same ∙ h)) in
    (t, m', c, f, ap (put_fs table p) e ∙ e')
