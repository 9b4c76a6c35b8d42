-- ===== src/Timer.antt =====
-- The timer list of kern/schedule/sched.c: each timer holds the ticks that it is due after the one
-- before it. A timer is named by a number that stands for its address.
pub mod Due
pub mod Tick
mod Tests
use os_exercises.Base.{
  ℕ, ◌+◌, ◌-◌, ◌%◌, ◌^◌, Bool, true, false, not, List, [], ◌∷◌, ltb, ◌==◌, ◌||◌, if◌then◌else◌,
  bit_and, Outcome, done, panic, ◌>>=◌, ◌>>◌, assert,
}
use os_exercises.Sched.{Kernel, wakeup_proc}
use os_exercises.Wait.{wt_interrupted}

-- `timer_t`; `proc` is the number of the process that it wakes.
pub record Timer : Type 0 where
  pub expires : ℕ
  pub proc : ℕ
  pub id : ℕ

-- `!list_empty(&(timer->timer_link))`: the timer stands in the list.
abbrev pub linked : ℕ → List Timer → Bool
linked i [] = false
linked i (t ∷ ts) = i == t.id || linked i ts

-- The walk of `add_timer`.
unfoldable pub insert_timer : Timer → List Timer → List Timer
insert_timer t [] = t ∷ []
insert_timer t (next ∷ ts) =
    let later = next ∷ insert_timer (record t { expires = t.expires - next.expires }) ts in
    if ltb t.expires next.expires
    then t ∷ record next { expires = next.expires - t.expires } ∷ ts
    else later

unfoldable pub add_timer : Timer → List Timer → Outcome (List Timer)
add_timer t ts = do
  assert (ltb 0 t.expires)
  assert (not (linked t.id ts))
  done (insert_timer t ts)

-- The timer behind a deleted one takes over its ticks.
abbrev pub pass_on : ℕ → List Timer → List Timer
pass_on e [] = []
pass_on e (next ∷ ts) =
    if e == 0 then next ∷ ts else record next { expires = (next.expires + e) % 2 ^ 32 } ∷ ts

unfoldable pub del_timer : ℕ → List Timer → List Timer
del_timer i [] = []
del_timer i (t ∷ ts) =
    let later = t ∷ del_timer i ts in if i == t.id then pass_on t.expires ts else later

-- A timer that is due wakes its process, whose wait has to be one that can be interrupted.
unfoldable pub wake_timed : ℕ → Kernel → Outcome Kernel
wake_timed p k =
    let s = (k.procs p).wait_state in
    assert (s == 0 || not (bit_and s wt_interrupted == 0)) >> wakeup_proc p k

-- The loop of `run_timer_list`: the timers that are due are taken off.
unfoldable pub expire : List Timer → Kernel → Outcome (Kernel × List Timer)
expire [] k = done (k, [])
expire (t ∷ ts) k = if t.expires == 0 then (wake_timed t.proc k >>= expire ts) else done (k, t ∷ ts)

-- `run_timer_list`, up to the tick of the scheduling class.
unfoldable pub run_timer_list : List Timer → Kernel → Outcome (Kernel × List Timer)
run_timer_list [] k = done (k, [])
run_timer_list (t ∷ ts) k =
    assert (not (t.expires == 0)) >> expire (record t { expires = t.expires - 1 } ∷ ts) k
