-- ===== src/Fork/Child.antt =====
-- What a call of `do_fork` that succeeds makes of the new process.
use os_exercises.Base.{
  ℕ, ◌+◌, ◌-◌, ◌<◌, ◌≤◌, ◌≡◌, ◌≢◌, refl, sym, ap, ◌∙◌, inl, inr, true, false, none, some, List, [],
  ◌∷◌, map, arith, leb, ◌==◌, length, Bool-cases, done,
}
use os_exercises.Wait.{member}
use os_exercises.Sched.{Kernel, idleproc, is_runnable, is_zombie, wakeup_proc}
use os_exercises.Sched.Ready.{IsValid, count, wakeup_proc-IsValid}
use os_exercises.Family.{Links, set_links}
use os_exercises.Family.Children.{
  Represents, member_ne, put_children, Linked-same, set_links-Represents,
}
use os_exercises.Pid.{Cursor, get_pid, max_pid, max_process}
use os_exercises.Pid.Walk
use os_exercises.Pid.Walk.{Safe}
use os_exercises.Pid.Unique.{get_pid-fresh}
use os_exercises.Process.{Task, World, hash_proc, find_proc}
use os_exercises.Process.Hashed.{hash_proc-finds}
use os_exercises.Fork.{
  Answers, alloc_proc, setup_kstack, copy_fs, copy_mm, fork_mm, set_parent, do_fork, pids,
  start_child, number_child, link_child, wake_child,
}
use os_exercises.Fork.Steady.{Steady, Steady-trans, copy_fs-Steady, copy_mm-Steady}
use os_exercises.Fork.Fails.{fork_fs-fork_mm}
use os_exercises.Fork.Undo.{prepared}
use os_exercises.Fork.Restores.{do_fork-fork_proc, fork_proc-fork_fs}

-- The lists of processes are right.
pub record IsOrdered (children : ℕ → List ℕ) (w : World) : Type 0 where
  pub kernel : IsValid w.kernel
  pub links : Represents children w.links
  pub cursor : Safe w.cursor (pids w)
  pub next_safe : w.cursor.next_safe ≤ max_pid
  pub room : length (pids w) < max_pid - 1

-- Nothing leads to the address of a new process.
pub record IsUnused (p : ℕ) (children : ℕ → List ℕ) (w : World) : Type 0 where
  pub other : p ≢ w.kernel.current
  pub busy : p ≢ idleproc
  pub childless : children p ≡ []
  pub orphan : (q : ℕ) → member p (children q) ≡ false
  pub unqueued : count p w.kernel.ready ≡ 0
  pub unlisted : member p w.links.proc_list ≡ false

prepared-Represents :
    {children : ℕ → List ℕ} (s p : ℕ) (w : World)
    → Represents children w.links
    → IsUnused p children w
    → Represents children (prepared s p w).links
unfolding setup_kstack alloc_proc
prepared-Represents {children} s p w v u = record {
  heads = λ q. elim (Bool-cases (q == p)) [
    | inl e ↦ let at : q ≡ p = ground arith in rw (at, u.childless) ground arith
    | inr e ↦ rw e (v.heads q)
  ];
  linked =
      λ q. Linked-same w.links (prepared s p w).links q none (children q) (same q) (v.linked q);
  distinct = v.distinct;
}
  where
    same :
        (q a : ℕ)
        → member a (children q) ≡ true
        → ((prepared s p w).links.yptr a ≡ w.links.yptr a)
          × ((prepared s p w).links.optr a ≡ w.links.optr a)
          × ((prepared s p w).links.parent a ≡ w.links.parent a)
    same q a m =
        let ne = member_ne a p (children q) m (u.orphan q) in
        (ground arith, ground arith, ground arith)

prepared-kernel :
    {children : ℕ → List ℕ} (s p : ℕ) (w : World)
    → IsValid w.kernel
    → IsUnused p children w
    → IsValid (prepared s p w).kernel
unfolding setup_kstack alloc_proc
prepared-kernel s p w v u = record {
  queued = λ q. elim (Bool-cases (q == p)) [
    | inl e ↦ let at : q ≡ p = ground arith in rw at (ground (arith, u.unqueued))
    | inr e ↦ ground (arith, v.queued q)
  ];
}

same_pids :
    (p : ℕ) (f g : ℕ → Task) (l : List ℕ)
    → ((q : ℕ) → q ≢ p → g q ≡ f q)
    → member p l ≡ false
    → map (λ q. (g q).pid) l ≡ map (λ q. (f q).pid) l
same_pids p f g [] same out = refl
same_pids p f g (q ∷ l) same out =
    let ne : q ≢ p = ground arith in rw (same q ne, same_pids p f g l same (ground arith)) refl

number_child-pid :
    (p : ℕ) (c : Cursor) (w : World) → ((number_child p c w).tasks p).pid ≡ c.last_pid
number_child-pid p c w = ground arith

listed_world : (p : ℕ) (c : Cursor) (w : World) (l : Links) (k : Kernel) → World
listed_world p c w l k = record (hash_proc p (number_child p c w)) { links = l; kernel = k }

listed_world-found :
    (p : ℕ) (c : Cursor) (w : World) (l : Links) (k : Kernel)
    → 0 < c.last_pid
    → c.last_pid < max_pid
    → find_proc c.last_pid (listed_world p c w l k) ≡ some p
unfolding find_proc listed_world
listed_world-found p c w l k low high =
    hash_proc-finds c.last_pid p (number_child p c w) (number_child-pid p c w) low high

start_child-run :
    (p : ℕ) (c : Cursor) (w : World) (l : Links) (k : Kernel)
    → get_pid (pids w) w.cursor ≡ some c
    → set_links p w.links ≡ done l
    → wakeup_proc p w.kernel ≡ done k
    → start_child p w ≡ done (listed_world p c w l k, inr c.last_pid)
unfolding hash_proc listed_world
start_child-run p c w l k number link wake =
    rw (start_child, number, link_child, link, wake_child, wake) refl

-- From the search for a number on.
start_child-Represents :
    {children : ℕ → List ℕ} (p q : ℕ) (w : World)
    → IsOrdered children w
    → w.links.parent p ≡ some q
    → member p (children q) ≡ false
    → is_zombie (w.kernel.procs p).state ≡ false
    → (w' : World) × (pid : ℕ) × (start_child p w ≡ done (w', inr pid))
      × (0 < pid)
      × (pid < max_pid)
      × (Walk.member pid (pids w) ≡ false)
      × (find_proc pid w' ≡ some p)
      × Represents (put_children children q (p ∷ children q)) w'.links
      × IsValid w'.kernel
      × (is_runnable (w'.kernel.procs p).state ≡ true)
      × (w'.links.proc_list ≡ p ∷ w.links.proc_list)
      × (w'.links.nr_process ≡ w.links.nr_process + 1)
unfolding listed_world
start_child-Represents p q w v par new alive =
    let (c, number, low, high, free, safe, next) =
      get_pid-fresh (pids w) w.cursor v.cursor v.next_safe v.room in
    let (l, link, represents, listed, counted) = set_links-Represents w.links q p v.links par new in
    let (k, wake, valid, runs, same) = wakeup_proc-IsValid p v.kernel alive in
    (
      listed_world p c w l k,
      c.last_pid,
      start_child-run p c w l k number link wake,
      low,
      high,
      free,
      listed_world-found p c w l k low high,
      represents,
      valid,
      runs,
      listed,
      counted,
    )

module _ {children : ℕ → List ℕ} (a : Answers) (fl p s : ℕ) (w W : World) (v : IsOrdered children w)
    (u : IsUnused p children w) (fs : copy_fs a fl p (prepared s p w) ≡ done (W, true))
    (mm : (copy_mm a fl p W).1 ≡ true) where
  V : World
  V = (copy_mm a fl p W).0

  steady : Steady p (prepared s p w) V
  unfolding V
  steady =
      Steady-trans {v = W} (copy_fs-Steady a fl p (prepared s p w) W true fs)
        (copy_mm-Steady a fl p W)

  kept_pids : pids V ≡ pids w
  unfolding setup_kstack alloc_proc
  kept_pids =
      ap (λ (l : Links). map (λ q. (V.tasks q).pid) l.proc_list) steady.links
      ∙ same_pids p w.tasks V.tasks w.links.proc_list (λ q ne. steady.tasks q ne ∙ ground arith)
          u.unlisted

  kept_list : V.links.proc_list ≡ w.links.proc_list
  unfolding setup_kstack alloc_proc
  kept_list = ap (λ (l : Links). l.proc_list) steady.links

  kept_count : V.links.nr_process ≡ w.links.nr_process
  unfolding setup_kstack alloc_proc
  kept_count = ap (λ (l : Links). l.nr_process) steady.links

  ordered : IsOrdered children V
  unfolding setup_kstack alloc_proc
  ordered = record {
    kernel = rw (steady.kernel) (prepared-kernel s p w v.kernel u);
    links = rw (steady.links) (prepared-Represents s p w v.links u);
    cursor = rw (steady.cursor, kept_pids) v.cursor;
    next_safe = rw (steady.cursor) v.next_safe;
    room = rw (kept_pids) v.room;
  }

  parent : V.links.parent p ≡ some w.kernel.current
  unfolding setup_kstack alloc_proc
  parent = ap (λ (l : Links). l.parent p) steady.links ∙ ground arith

  not_zombie : is_zombie (V.kernel.procs p).state ≡ false
  unfolding setup_kstack alloc_proc
  not_zombie = ap (λ (k : Kernel). is_zombie (k.procs p).state) steady.kernel ∙ ground arith

  fork_mm-start_child : fork_mm a fl p W ≡ start_child p V
  unfolding V
  fork_mm-start_child = rw (mm) refl

  awake_still :
      ((w.kernel.procs w.kernel.current).wait_state == 0) ≡ true
      → let W = set_parent p (alloc_proc p w) in
        ((W.kernel.procs W.kernel.current).wait_state == 0) ≡ true
  unfolding alloc_proc
  awake_still awake = let ne = u.other in ground (arith, awake)

  -- In a state whose lists are right, with room for a process, the current one not waiting, and an
  -- unused address, a call of `do_fork` for which copy_fs and copy_mm succeed succeeds. It returns a
  -- number in the range from 1 to MAX_PID - 1 that no process had and by which find_proc finds the
  -- new process; this is the youngest child of the current one, it can run, the run queue is right,
  -- and it stands in the list of all processes, in front of those that were there, and is counted.
  pub do_fork-IsOrdered :
      leb max_process w.links.nr_process ≡ false
      → ((w.kernel.procs w.kernel.current).wait_state == 0) ≡ true
      → a.proc ≡ some p
      → a.kstack ≡ some s
      → (w' : World) × (pid : ℕ) × (do_fork a fl w ≡ done (w', inr pid))
        × (0 < pid)
        × (pid < max_pid)
        × (Walk.member pid (pids w) ≡ false)
        × (find_proc pid w' ≡ some p)
        × Represents
            (put_children children w.kernel.current (p ∷ children w.kernel.current))
            w'.links
        × IsValid w'.kernel
        × (is_runnable (w'.kernel.procs p).state ≡ true)
        × (w'.links.proc_list ≡ p ∷ w.links.proc_list)
        × (w'.links.nr_process ≡ w.links.nr_process + 1)
  do_fork-IsOrdered room awake proc stack =
      let (w', pid, run, low, high, free, found, represents, valid, runs, listed, counted) =
        start_child-Represents p w.kernel.current V ordered parent (u.orphan w.kernel.current)
          not_zombie in
      (
        w',
        pid,
        do_fork-fork_proc a fl p w room proc
            ∙ fork_proc-fork_fs a fl p s (set_parent p (alloc_proc p w)) (awake_still awake) stack
            ∙ fork_fs-fork_mm a fl p (prepared s p w) W fs
            ∙ fork_mm-start_child
            ∙ run,
        low,
        high,
        ap (Walk.member pid) (sym kept_pids) ∙ free,
        found,
        represents,
        valid,
        runs,
        listed ∙ ap (λ l. p ∷ l) kept_list,
        counted ∙ ap (λ n. n + 1) kept_count,
      )
