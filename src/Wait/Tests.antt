-- ===== src/Wait/Tests.antt =====
-- A queue of two waits.
use os_exercises.Base.{◌≡◌, refl, true, false, some, [], ◌∷◌, arith, ◌==◌, if◌then◌else◌, done}
use os_exercises.Sched.{proc_sleeping, proc_runnable}
use os_exercises.Wait.{Waits, wait_queue_next, next_of, wakeup_queue}
use os_exercises.Wait.Wake.{AllWoken, wakeup_queue-AllWoken}

abbrev waits : Waits
waits = record {
  kernel = record {
    procs = λ p. record {
      state = if p == 1 then proc_runnable else proc_sleeping;
      wait_state = 0x100;
      need_resched = false;
      runs = 0;
    };
    current = 1;
    ready = [];
  };
  wait = λ i. record { proc = i; wakeup_flags = 0 };
  wait_head = 4 ∷ 3 ∷ [];
}

next_wait : wait_queue_next 4 waits ≡ done (some 3)
unfolding wait_queue_next next_of
next_wait = refl

wakeup_queue-AllWoken_example :
    (w' : Waits) × (wakeup_queue 0x100 true waits ≡ done w') × AllWoken waits 0x100 (4 ∷ 3 ∷ []) w'
wakeup_queue-AllWoken_example = wakeup_queue-AllWoken waits 0x100 (λ p. ground arith)
