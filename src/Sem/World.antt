-- ===== src/Sem/World.antt =====
-- Processes that use one semaphore, in any order. A `down` that has to wait is two steps: one that
-- puts the process to sleep and one that it takes when it runs again. Which process runs is up to
-- `schedule`.
use os_exercises.Base.{
  ℕ, ◌+◌, ◌≡◌, ◌⊎◌, Bool, true, false, not, Option, List, [], ◌∷◌, ◌&&◌, length, if◌then◌else◌,
  Outcome, done, ◌>>=◌,
}
use os_exercises.Sched.{is_runnable, schedule}
use os_exercises.Sched.Ready
use os_exercises.Wait.{member, unlink}
use os_exercises.Sem.{wt_ksem, Sem, up, down_enter, down_end, try_down}
use os_exercises.Sem.Queue.{Distinct, Sleeps}

-- The semaphore, the processes that were woken and have not returned from `down` yet, the calls of
-- `up` so far, and how often `down` or `try_down` has succeeded.
pub record World : Type 0 where
  pub sem : Sem
  pub woken : List ℕ
  pub ups : ℕ
  pub passed : ℕ

-- `switching` is any other call of `schedule`, such as one at the end of a time slice.
pub data Call : Type 0 where
  upping trying entering leaving switching : Call

abbrev pub head_of : List ℕ → List ℕ → List ℕ
head_of [] woken = woken
head_of (i ∷ l) woken = i ∷ woken

module _ (pick_next : List ℕ → Option ℕ) where
  abbrev pub scheduled : Sem → Sem
  scheduled s = record s { waits = record s.waits { kernel = schedule pick_next s.waits.kernel } }

  -- A process that has to wait gives the processor away.
  abbrev pub entered : World → Bool × Sem → World
  entered w (true, s) = record w { sem = s; passed = w.passed + 1 }
  entered w (false, s) = record w { sem = scheduled s }

  -- The current process calls `down` where it runs and is in no other call; it returns from `down`
  -- after it has been woken. Other calls do not happen.
  unfoldable pub perform : Call → World → Outcome World
  perform upping w = do
    s ← up w.sem
    done (record w { sem = s; woken = head_of w.sem.waits.wait_head w.woken; ups = w.ups + 1 })
  perform trying w =
      let (got, s) = try_down w.sem in
      done (record w { sem = s; passed = if got then w.passed + 1 else w.passed })
  perform entering w =
      let k = w.sem.waits.kernel in
      if is_runnable (k.procs k.current).state && not (member k.current w.woken)
      then (down_enter wt_ksem w.sem >>= λ r. done (entered w r))
      else done w
  perform leaving w =
      let p = w.sem.waits.kernel.current in
      if member p w.woken
      then (do
        s ← down_end p w.sem
        done (record w { sem = s; woken = unlink p w.woken; passed = w.passed + 1 }))
      else done w
  perform switching w = done (record w { sem = scheduled w.sem })

  unfoldable pub run_calls : List Call → World → Outcome World
  run_calls [] w = done w
  run_calls (c ∷ cs) w = perform c w >>= run_calls cs

-- `start` is the value at `sem_init`.
pub record IsValid (start : ℕ) (w : World) : Type 0 where
  pub ready : Ready.IsValid w.sem.waits.kernel
  pub queued : (i : ℕ) → member i w.sem.waits.wait_head ≡ true → Sleeps w.sem.waits i
  pub distinct : Distinct w.sem.waits.wait_head
  pub apart : (i : ℕ) → member i w.woken ≡ true → member i w.sem.waits.wait_head ≡ false
  pub signalled : (i : ℕ) → member i w.woken ≡ true → (w.sem.waits.wait i).wakeup_flags ≡ wt_ksem
  pub awake :
      (i : ℕ) → member i w.woken ≡ true → is_runnable (w.sem.waits.kernel.procs i).state ≡ true
  pub idle : (w.sem.value ≡ 0) ⊎ (w.sem.waits.wait_head ≡ [])
  pub balance : w.sem.value + (length w.woken + w.passed) ≡ start + w.ups
