-- ===== src/Sem.antt =====
-- Semaphores (kern/sync/sem.c). Every process has one `wait_t` for the semaphore, on its stack,
-- which has the number of the process.
pub mod Queue
pub mod Downs
pub mod Sound
pub mod Ups
pub mod World
mod Tests
use os_exercises.Base.{
  ℕ, zero, suc, ◌+◌, ◌-◌, Bool, true, false, not, Option, none, some, ltb, ◌==◌, if◌then◌else◌,
  Outcome, done, panic, ◌>>=◌, ◌>>◌, assert,
}
use os_exercises.Sched.{Kernel, put_proc}
use os_exercises.Wait.{
  Wait, Waits, wait_queue_first, wakeup_wait, wait_current_set, wait_current_del,
}

-- WT_KSEM.
abbrev pub wt_ksem : ℕ
wt_ksem = 0x100

-- `semaphore_t`, with its wait queue and the processes.
pub record Sem : Type 0 where
  pub value : ℕ
  pub waits : Waits

abbrev pub up_found : Option ℕ → ℕ → Sem → Outcome Sem
up_found none wait_state s = done (record s { value = s.value + 1 })
up_found (some i) wait_state s = do
  assert ((s.waits.kernel.procs (s.waits.wait i).proc).wait_state == wait_state)
  w ← wakeup_wait i wait_state true s.waits
  done (record s { waits = w })

-- `__up`.
unfoldable pub up_with : ℕ → Sem → Outcome Sem
up_with wait_state s = up_found (wait_queue_first s.waits) wait_state s

-- `__down` up to `schedule`; `true` if it returns 0 at once.
unfoldable pub down_enter : ℕ → Sem → Outcome (Bool × Sem)
down_enter wait_state s =
    if ltb 0 s.value then done (true, record s { value = s.value - 1 }) else (do
      w ← wait_current_set s.waits.kernel.current wait_state s.waits
      done (false, record s { waits = w }))

-- `__down` from `schedule` on, in the process `p`: the flags that it returns.
unfoldable pub down_leave : ℕ → ℕ → Sem → Outcome (ℕ × Sem)
down_leave p wait_state s = do
  w ← wait_current_del p s.waits
  done (
    if (w.wait p).wakeup_flags == wait_state then 0 else (w.wait p).wakeup_flags,
    record s { waits = w },
  )

unfoldable pub up : Sem → Outcome Sem
up s = up_with wt_ksem s

-- The end of `down`: `assert(flags == 0)`.
unfoldable pub down_end : ℕ → Sem → Outcome Sem
down_end p s = do r ← down_leave p wt_ksem s; assert (r.0 == 0); done r.1

unfoldable pub try_down : Sem → Bool × Sem
try_down s = if ltb 0 s.value then (true, record s { value = s.value - 1 }) else (false, s)
