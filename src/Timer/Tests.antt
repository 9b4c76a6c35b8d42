-- ===== src/Timer/Tests.antt =====
-- Timers on a concrete list.
use os_exercises.Base.{ℕ, ◌≡◌, refl, inr, false, ◌==◌, if◌then◌else◌, List, [], ◌∷◌, arith, done}
use os_exercises.Timer.{Timer, insert_timer, add_timer, run_timer_list}
use os_exercises.Timer.Due.{due, due_next, due_at, nearer, insert_due, due-insert_timer}
use os_exercises.Sched.{Kernel, proc_runnable, proc_sleeping}
use os_exercises.Sched.Ready.{IsValid}
use os_exercises.Timer.Tick.{HeadWaits, Wakeable, Woken, run_timer_list-due}

abbrev timer : ℕ → ℕ → ℕ → Timer
timer e p i = record { expires = e; proc = p; id = i }

-- Due at 1, 1 and 4.
abbrev timers : List Timer
timers = timer 1 7 70 ∷ timer 0 8 80 ∷ timer 3 9 90 ∷ []

added :
    add_timer (timer 3 6 60) timers
    ≡ done (timer 1 7 70 ∷ timer 0 8 80 ∷ timer 2 6 60 ∷ timer 1 9 90 ∷ [])
unfolding add_timer insert_timer
added = refl

-- Processes 7, 8 and 9 sleep for their timers, and the idle process runs.
abbrev kernel : Kernel
kernel = record {
  procs = λ p. record {
    state = if p == 0 then proc_runnable else proc_sleeping;
    wait_state = 0x80000002;
    need_resched = false;
    runs = 0;
  };
  current = 0;
  ready = [];
}

kernel-IsValid : IsValid kernel
kernel-IsValid = record { queued = λ q. ground arith }

kernel-Wakeable : (p : ℕ) → Wakeable kernel p
kernel-Wakeable p = (ground arith, inr (λ e. cc e))

run_timer_list-due_example :
    (k' : Kernel) × (rest : List Timer) × (run_timer_list timers kernel ≡ done (k', rest))
    × Woken (due_next (due 0 timers)) kernel k'
    × (due 0 rest ≡ nearer (due 0 timers))
    × HeadWaits rest
run_timer_list-due_example =
    run_timer_list-due timers kernel (omega arith) kernel-IsValid (λ p m. kernel-Wakeable p)

due-insert_timer_example :
    due 0 (insert_timer (timer 3 6 60) timers) ≡ insert_due (due_at 0 (timer 3 6 60)) (due 0 timers)
due-insert_timer_example = due-insert_timer 0 (timer 3 6 60) timers
