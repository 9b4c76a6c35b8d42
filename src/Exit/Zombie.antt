-- ===== src/Exit/Zombie.antt =====
-- What `do_exit` leaves behind.
use os_exercises.Base.{ℕ, ◌≡◌, ◌≢◌, true, false, Option, some, List, ◌==◌}
use os_exercises.Sched.{is_zombie, is_runnable}
use os_exercises.Sched.Ready.{IsValid, Picks}
use os_exercises.Family.{initproc, wt_child}
use os_exercises.Family.Children.{Represents}
use os_exercises.Family.Adoption.{inherited}
use os_exercises.Process.{Task, Memory, World}
use os_exercises.Files.{Files}
use os_exercises.Exit.{bury}
use os_exercises.Exit.Parts.{changed}

-- The process is a zombie with its code, its parent is awake if it waited for a child, its children
-- are those of initproc, and the run queue is right.
pub record Exited (children : ℕ → List ℕ) (q error_code : ℕ) (w w' : World) : Type 0 where
  pub state : is_zombie (w'.kernel.procs w.kernel.current).state ≡ true
  pub exit_code : (w'.tasks w.kernel.current).exit_code ≡ error_code
  pub parent :
      ((w.kernel.procs q).wait_state == wt_child) ≡ true
      → is_runnable (w'.kernel.procs q).state ≡ true
  pub links : Represents (inherited children w.kernel.current (children w.kernel.current)) w'.links
  pub kernel : IsValid w'.kernel

-- The state when the memory and the table of open files have been given up.
module _ {children : ℕ → List ℕ} (pick_next : List ℕ → Option ℕ) (q code : ℕ) (w : World)
    (t : ℕ → Task) (m : Memory) (c f : ℕ → ℕ) (picks : Picks pick_next)
    (v : Represents children w.links) (ready : IsValid w.kernel)
    (parent : w.links.parent w.kernel.current ≡ some q) (other : q ≢ w.kernel.current)
    (alive : is_zombie (w.kernel.procs q).state ≡ false) (root : w.kernel.current ≢ initproc)
    (root_alive : is_zombie (w.kernel.procs initproc).state ≡ false) where
  buried : World
  buried = bury w.kernel.current code (changed w t m c f)
