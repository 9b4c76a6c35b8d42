-- ===== src/Sem/Tests.antt =====
-- A mutex that two processes use.
use os_exercises.Base.{ℕ, ◌==◌, ◌||◌, false, Option, none, some, if◌then◌else◌, List, [], ◌∷◌}
use os_exercises.Sched.{proc_runnable, proc_uninit}
use os_exercises.Sem.World.{World, Call, upping, trying, entering, leaving, switching}

abbrev mutex : World
mutex = record {
  sem = record {
    value = 1;
    waits = record {
      kernel = record {
        procs = λ p. record {
          state = if p == 1 || p == 2 then proc_runnable else proc_uninit;
          wait_state = 0;
          need_resched = false;
          runs = 0;
        };
        current = 1;
        ready = 2 ∷ [];
      };
      wait = λ i. record { proc = 0; wakeup_flags = 0 };
      wait_head = [];
    };
  };
  woken = [];
  ups = 0;
  passed = 0;
}

-- First come, first served.
abbrev first : List ℕ → Option ℕ
first [] = none
first (p ∷ l) = some p

-- Process 1 has the mutex when its time slice ends; process 2 has to wait, and gets it from process
-- 1.
abbrev calls : List Call
calls = entering ∷ switching ∷ entering ∷ trying ∷ upping ∷ switching ∷ leaving ∷ upping ∷ []
