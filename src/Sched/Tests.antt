-- ===== src/Sched/Tests.antt =====
-- Three processes, of which the first runs and the third sleeps.
use os_exercises.Base.{
  ℕ, ◌≡◌, ◌≢◌, ◌⊎◌, inl, inr, refl, true, false, Option, none, some, List, [], ◌∷◌, arith, ◌==◌,
  if◌then◌else◌,
}
use os_exercises.Sched.{
  Kernel, idleproc, proc_runnable, proc_sleeping, proc_uninit, is_runnable, schedule,
}
use os_exercises.Sched.Ready.{IsValid, Picks, schedule-IsValid}

abbrev kernel : Kernel
kernel = record {
  procs = λ p. record {
    state =
        if p == 1
        then proc_runnable
        else if p == 2
        then proc_runnable
        else if p == 3
        then proc_sleeping
        else proc_uninit;
    wait_state = if p == 3 then 0x100 else 0;
    need_resched = true;
    runs = 4;
  };
  current = 1;
  ready = 2 ∷ [];
}

kernel-IsValid : IsValid kernel
kernel-IsValid = record { queued = λ p. ground arith }

-- First come, first served.
abbrev first : List ℕ → Option ℕ
first [] = none
first (p ∷ l) = some p

first-Picks : Picks first
first-Picks [] = inl (refl, refl)
first-Picks (p ∷ l) = inr (p, refl, ground arith)

schedule-IsValid_example :
    IsValid (schedule first kernel)
    × (((schedule first kernel).current ≡ idleproc)
          × ((q : ℕ) → q ≢ idleproc → is_runnable (kernel.procs q).state ≡ false)
        ⊎ ((schedule first kernel).current ≢ idleproc)
          × (is_runnable (kernel.procs (schedule first kernel).current).state ≡ true))
schedule-IsValid_example = schedule-IsValid first first-Picks {k = kernel} kernel-IsValid
