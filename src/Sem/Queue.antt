-- ===== src/Sem/Queue.antt =====
-- The steps of a semaphore on its wait queue.
use os_exercises.Base.{
  ℕ, ◌≡◌, ◌≢◌, refl, true, false, List, [], ◌∷◌, ◌++◌, arith, ◌==◌, ◌||◌, if◌then◌else◌, done,
}
use os_exercises.Sched.{proc_sleeping, is_runnable, is_zombie, put_proc}
use os_exercises.Sched.Ready.{IsValid, wakeup_proc-IsValid}
use os_exercises.Wait.{
  Waits, member, put_wait, unlink, wait_queue_add, wait_queue_del, wakeup_wait, wait_current_set,
  wt_interrupted,
}
use os_exercises.Sem.{wt_ksem}

abbrev pub Distinct : List ℕ → Type 0
Distinct [] = Unit
Distinct (i ∷ l) = (member i l ≡ false) × Distinct l

pub member-append : (i j : ℕ) (l : List ℕ) → member i (l ++ (j ∷ [])) ≡ (member i l || i == j)
member-append i j [] = ground arith
member-append i j (k ∷ l) = ground (arith, member-append i j l)

pub Distinct-append :
    (j : ℕ) (l : List ℕ) → member j l ≡ false → Distinct l → Distinct (l ++ (j ∷ []))
Distinct-append j [] m d = (refl, tt)
Distinct-append j (k ∷ l) m d =
    (ground (arith, member-append k j l, d.0), Distinct-append j l (ground arith) d.1)

-- The process of the wait `i` sleeps for the semaphore.
abbrev pub Sleeps : Waits → ℕ → Type 0
Sleeps w i =
    ((w.kernel.procs i).state ≡ proc_sleeping)
    × ((w.kernel.procs i).wait_state ≡ wt_ksem)
    × ((w.wait i).proc ≡ i)

-- The waits after the first one, `i`, has been woken.
pub record Woken (w : Waits) (i : ℕ) (l : List ℕ) (w' : Waits) : Type 0 where
  pub rest : w'.wait_head ≡ l
  pub flags : (w'.wait i).wakeup_flags ≡ wt_ksem
  pub same_wait : (j : ℕ) → j ≢ i → w'.wait j ≡ w.wait j
  pub ready : IsValid w'.kernel
  pub runs : is_runnable (w'.kernel.procs i).state ≡ true
  pub same_proc : (j : ℕ) → j ≢ i → w'.kernel.procs j ≡ w.kernel.procs j

pub wakeup_wait-first :
    (w : Waits) (i : ℕ) (l : List ℕ)
    → IsValid w.kernel
    → w.wait_head ≡ i ∷ l
    → Sleeps w i
    → (w' : Waits) × (wakeup_wait i wt_ksem true w ≡ done w') × Woken w i l w'
unfolding wakeup_wait wait_queue_del unlink
wakeup_wait-first w i l v e s =
    let alive : is_zombie (w.kernel.procs i).state ≡ false = rw (s.0) refl in
    let (k, run, ready, runs, others) = wakeup_proc-IsValid i v alive in
    let head : member i w.wait_head ≡ true = rw e (ground arith) in
    let tail : unlink i w.wait_head ≡ l = rw e (ground arith) in
    let w' = record (put_wait i (record (w.wait i) { wakeup_flags = wt_ksem }) w) {
      kernel = k;
      wait_head = l;
    } in
    (
      w',
      rw (head, tail, s.2, run) refl,
      record {
        rest = refl;
        flags = ground arith;
        same_wait = λ j ne. ground arith;
        ready = ready;
        runs = runs;
        same_proc = others;
      },
    )

-- The waits after the current process `p` has gone to sleep.
pub record Asleep (w : Waits) (p : ℕ) (w' : Waits) : Type 0 where
  pub longer : w'.wait_head ≡ w.wait_head ++ (p ∷ [])
  pub sleeps : Sleeps w' p
  pub ready : IsValid w'.kernel
  pub same_wait : (j : ℕ) → j ≢ p → w'.wait j ≡ w.wait j
  pub same_proc : (j : ℕ) → j ≢ p → w'.kernel.procs j ≡ w.kernel.procs j

pub wait_current_set-Asleep :
    (w : Waits) (p : ℕ)
    → IsValid w.kernel
    → member p w.wait_head ≡ false
    → w.kernel.current ≡ p
    → (w' : Waits) × (wait_current_set p wt_ksem w ≡ done w') × Asleep w p w'
unfolding wait_current_set wait_queue_add
wait_current_set-Asleep w p v m e =
    let k = w.kernel in
    let asleep =
      put_proc p (record (k.procs p) { state = proc_sleeping; wait_state = wt_ksem }) k in
    let w' : Waits = record {
      kernel = asleep;
      wait = λ j. if j == p then record { proc = p; wakeup_flags = wt_interrupted } else w.wait j;
      wait_head = w.wait_head ++ (p ∷ []);
    } in
    (
      w',
      rw m (rw e refl),
      record {
        longer = refl;
        sleeps = (ground arith, ground arith, ground arith);
        ready = record { queued = λ q. ground (arith, v.queued q, e) };
        same_wait = λ j ne. ground arith;
        same_proc = λ j ne. ground arith;
      },
    )
