-- ===== src/Sched.antt =====
-- Waking and scheduling of processes (kern/schedule/sched.c). A process is its number; the idle
-- process is number 0.
pub mod Ready
mod Tests
use os_exercises.Base.{
  ℕ, zero, suc, ◌+◌, ◌%◌, ◌^◌, Bool, true, false, not, Option, none, some, List, [], ◌∷◌, ◌++◌,
  ◌==◌, if◌then◌else◌, Outcome, done, panic, ◌>>=◌, ◌>>◌, assert,
}

-- `enum proc_state`.
pub data ProcState : Type 0 where
  proc_uninit proc_sleeping proc_runnable proc_zombie : ProcState

-- The fields of `struct proc_struct` that are read or written here.
pub record Proc : Type 0 where
  pub state : ProcState
  pub wait_state : ℕ
  pub need_resched : Bool
  pub runs : ℕ

-- The processes, `current`, and the processes that the run queue holds.
pub record Kernel : Type 0 where
  pub procs : ℕ → Proc
  pub current : ℕ
  pub ready : List ℕ

abbrev pub idleproc : ℕ
idleproc = 0

abbrev pub is_runnable : ProcState → Bool
is_runnable s = elim s [ proc_runnable ↦ true | _ ↦ false ]

abbrev pub is_zombie : ProcState → Bool
is_zombie s = elim s [ proc_zombie ↦ true | _ ↦ false ]

abbrev pub put_proc : ℕ → Proc → Kernel → Kernel
put_proc p c k = record k { procs = λ q. if q == p then c else k.procs q }

-- `sched_class_enqueue`.
unfoldable pub sched_class_enqueue : ℕ → Kernel → Kernel
sched_class_enqueue p k = if p == idleproc then k else record k { ready = p ∷ k.ready }

-- `sched_class_dequeue`.
unfoldable pub unready : ℕ → List ℕ → List ℕ
unready p [] = []
unready p (q ∷ l) = let rest = q ∷ unready p l in if p == q then l else rest

unfoldable pub wakeup_proc : ℕ → Kernel → Outcome Kernel
wakeup_proc p k =
    let c = k.procs p in
    let woken = put_proc p (record c { state = proc_runnable; wait_state = 0 }) k in
    do
      assert (not (is_zombie c.state))
      done (
          if is_runnable c.state
          then k
          else if p == k.current
          then woken
          else sched_class_enqueue p woken)

-- `next->runs ++` and `proc_run(next)`, which makes it the current process.
abbrev pub run_next : ℕ → Kernel → Kernel
run_next p k =
    let c = k.procs p in
    record (put_proc p (record c { runs = (c.runs + 1) % 2 ^ 32 }) k) { current = p }

abbrev pub switch : Option ℕ → Kernel → Kernel
switch none k = run_next idleproc k
switch (some p) k = run_next p (record k { ready = unready p k.ready })

-- `current->need_resched = 0`, and the current process back in the run queue.
abbrev pub yielded : Kernel → Kernel
yielded k =
    let k' = put_proc k.current (record (k.procs k.current) { need_resched = false }) k in
    if is_runnable (k.procs k.current).state then sched_class_enqueue k.current k' else k'

-- `schedule`, with the choice of the scheduling class.
unfoldable pub schedule : (List ℕ → Option ℕ) → Kernel → Kernel
schedule pick_next k = switch (pick_next (yielded k).ready) (yielded k)
