-- ===== src/Process/Kill.antt =====
-- What `do_kill` does.
use os_exercises.Base.{ℕ, ◌≡◌, ◌≢◌, true, false, ◌==◌, bit_and, bit_or}
use os_exercises.Wait.{wt_interrupted}
use os_exercises.Sched.{is_runnable}
use os_exercises.Sched.Ready.{IsValid}
use os_exercises.Process.{World, pf_exiting}
use os_exercises.Process.Hashed.{Hashed}

-- The process is marked, the run queue is right, and it can run if its wait can be interrupted.
pub record Killed (p : ℕ) (w w' : World) : Type 0 where
  pub flags : (w'.tasks p).flags ≡ bit_or (w.tasks p).flags pf_exiting
  pub others : (q : ℕ) → q ≢ p → w'.tasks q ≡ w.tasks q
  pub kernel : IsValid w'.kernel
  pub woken :
      (bit_and (w.kernel.procs p).wait_state wt_interrupted == 0) ≡ false
      → is_runnable (w'.kernel.procs p).state ≡ true
