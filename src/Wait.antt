-- ===== src/Wait.antt =====
-- Wait queues (kern/sync/wait.c). A `wait_t` is a number that stands for its address; it stands in
-- this queue or in none, so that its link is not empty just when the queue holds it.
mod Tests
pub mod Wake
use os_exercises.Base.{
  ℕ, zero, suc, ◌+◌, Bool, true, false, not, Option, none, some, List, [], ◌∷◌, ◌++◌, ◌==◌, ◌||◌,
  length, if◌then◌else◌, Outcome, done, panic, ◌>>=◌, ◌>>◌, assert,
}
use os_exercises.Sched.{Kernel, proc_sleeping, put_proc, wakeup_proc}

abbrev pub wt_interrupted : ℕ
wt_interrupted = 0x80000000

-- `wait_t`.
pub record Wait : Type 0 where
  pub proc : ℕ
  pub wakeup_flags : ℕ

-- A queue in the order of `wait_head`, with all waits, and the processes.
pub record Waits : Type 0 where
  pub kernel : Kernel
  pub wait : ℕ → Wait
  pub wait_head : List ℕ

abbrev pub member : ℕ → List ℕ → Bool
member i [] = false
member i (j ∷ l) = i == j || member i l

abbrev pub put_wait : ℕ → Wait → Waits → Waits
put_wait i c w = record w { wait = λ j. if j == i then c else w.wait j }

abbrev pub wait_init : ℕ → ℕ → Waits → Waits
wait_init i p w = put_wait i (record { proc = p; wakeup_flags = wt_interrupted }) w

abbrev pub wait_in_queue : ℕ → Waits → Bool
wait_in_queue i w = member i w.wait_head

-- `list_add_before(&(queue->wait_head), …)`: at the end.
unfoldable pub wait_queue_add : ℕ → Waits → Outcome Waits
wait_queue_add i w = do
  assert (not (wait_in_queue i w))
  done (record w { wait_head = w.wait_head ++ (i ∷ []) })

-- `list_del_init`.
unfoldable pub unlink : ℕ → List ℕ → List ℕ
unlink i [] = []
unlink i (j ∷ l) = let rest = j ∷ unlink i l in if i == j then l else rest

unfoldable pub wait_queue_del : ℕ → Waits → Outcome Waits
wait_queue_del i w = do
  assert (wait_in_queue i w)
  done (record w { wait_head = unlink i w.wait_head })

abbrev pub first : List ℕ → Option ℕ
first [] = none
first (i ∷ l) = some i

abbrev pub last : List ℕ → Option ℕ
last [] = none
last (i ∷ []) = some i
last (i ∷ (j ∷ l)) = last (j ∷ l)

-- What stands behind `i`, and before it.
unfoldable pub next_of : ℕ → List ℕ → Option ℕ
next_of i [] = none
next_of i (j ∷ l) = let later = next_of i l in if i == j then first l else later

unfoldable pub prev_of : ℕ → Option ℕ → List ℕ → Option ℕ
prev_of i before [] = none
prev_of i before (j ∷ l) = let later = prev_of i (some j) l in if i == j then before else later

abbrev pub wait_queue_first : Waits → Option ℕ
wait_queue_first w = first w.wait_head

abbrev pub wait_queue_last : Waits → Option ℕ
wait_queue_last w = last w.wait_head

unfoldable pub wait_queue_next : ℕ → Waits → Outcome (Option ℕ)
wait_queue_next i w = assert (wait_in_queue i w) >> done (next_of i w.wait_head)

unfoldable pub wait_queue_prev : ℕ → Waits → Outcome (Option ℕ)
wait_queue_prev i w = assert (wait_in_queue i w) >> done (prev_of i none w.wait_head)

unfoldable pub wakeup_wait : ℕ → (flags : ℕ) → (del : Bool) → Waits → Outcome Waits
wakeup_wait i flags del w = do
  w' ← if del then wait_queue_del i w else done w
  k ← wakeup_proc (w'.wait i).proc w'.kernel
  done (record (put_wait i (record (w'.wait i) { wakeup_flags = flags }) w') { kernel = k })

abbrev pub wake_found : Option ℕ → ℕ → Bool → Waits → Outcome Waits
wake_found none flags del w = done w
wake_found (some i) flags del w = wakeup_wait i flags del w

unfoldable pub wakeup_first : (flags : ℕ) → (del : Bool) → Waits → Outcome Waits
wakeup_first flags del w = wake_found (wait_queue_first w) flags del w

-- The two loops of `wakeup_queue`; a loop that the fuel does not end stops the kernel.
unfoldable pub wake_all : ℕ → ℕ → Option ℕ → Waits → Outcome Waits
wake_all fuel flags none w = done w
wake_all zero flags (some i) w = panic
wake_all (suc fuel) flags (some i) w = do
  w' ← wakeup_wait i flags true w
  wake_all fuel flags (wait_queue_first w') w'

unfoldable pub wake_each : ℕ → ℕ → Option ℕ → Waits → Outcome Waits
wake_each fuel flags none w = done w
wake_each zero flags (some i) w = panic
wake_each (suc fuel) flags (some i) w = do
  w' ← wakeup_wait i flags false w
  next ← wait_queue_next i w'
  wake_each fuel flags next w'

unfoldable pub wakeup_queue : (flags : ℕ) → (del : Bool) → Waits → Outcome Waits
wakeup_queue flags del w =
    if del
    then wake_all (length w.wait_head) flags (wait_queue_first w) w
    else wake_each (length w.wait_head) flags (wait_queue_first w) w

-- `current` waits with the wait `i`.
unfoldable pub wait_current_set : ℕ → (wait_state : ℕ) → Waits → Outcome Waits
wait_current_set i wait_state w =
    let k = w.kernel in
    let p = k.current in
    let asleep =
      put_proc p (record (k.procs p) { state = proc_sleeping; wait_state = wait_state }) k in
    wait_queue_add i (record (wait_init i p w) { kernel = asleep })

-- `wait_current_del`.
unfoldable pub wait_current_del : ℕ → Waits → Outcome Waits
wait_current_del i w = if wait_in_queue i w then wait_queue_del i w else done w
