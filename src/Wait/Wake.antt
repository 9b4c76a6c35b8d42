-- ===== src/Wait/Wake.antt =====
-- `wakeup_queue` wakes every process of a wait queue.
use os_exercises.Base.{
  ℕ, suc, ◌≡◌, ◌≢◌, inl, inr, refl, true, false, some, List, [], ◌∷◌, arith, ◌==◌, length,
  if◌then◌else◌, Bool-cases, done,
}
use os_exercises.Sched.{
  proc_runnable, Kernel, is_runnable, is_zombie, put_proc, wakeup_proc, sched_class_enqueue,
}
use os_exercises.Wait.{
  Waits, member, put_wait, first, unlink, wait_queue_del, wakeup_wait, wake_all, wakeup_queue,
}

-- No process that waits in the queue is a zombie.
abbrev pub Alive : Waits → Type 0
Alive w = (p : ℕ) → is_zombie (w.kernel.procs p).state ≡ false

-- The waits after the first of the queue has been woken.
pub record After (w : Waits) (i flags : ℕ) (l : List ℕ) (w' : Waits) : Type 0 where
  pub rest : w'.wait_head ≡ l
  pub flagged : (w'.wait i).wakeup_flags ≡ flags
  pub same_flags : (j : ℕ) → j ≢ i → (w'.wait j).wakeup_flags ≡ (w.wait j).wakeup_flags
  pub same_proc : (j : ℕ) → (w'.wait j).proc ≡ (w.wait j).proc
  pub alive : Alive w'
  pub woken : is_runnable (w'.kernel.procs (w.wait i).proc).state ≡ true
  pub stays :
      (p : ℕ)
      → is_runnable (w.kernel.procs p).state ≡ true
      → is_runnable (w'.kernel.procs p).state ≡ true

wakeup_proc_alive :
    (p : ℕ) (k : Kernel)
    → ((q : ℕ) → is_zombie (k.procs q).state ≡ false)
    → (k' : Kernel) × (wakeup_proc p k ≡ done k')
      × ((q : ℕ) → is_zombie (k'.procs q).state ≡ false)
      × (is_runnable (k'.procs p).state ≡ true)
      × ((q : ℕ) → is_runnable (k.procs q).state ≡ true → is_runnable (k'.procs q).state ≡ true)
unfolding wakeup_proc sched_class_enqueue
wakeup_proc_alive p k alive = elim (Bool-cases (is_runnable (k.procs p).state)) [
  | inl e ↦ (k, ground (arith, alive p), alive, e, λ q r. r)
  | inr e ↦
      let woken = put_proc p (record (k.procs p) { state = proc_runnable; wait_state = 0 }) k in
      let k' = if p == k.current then woken else sched_class_enqueue p woken in
      (k', ground (arith, alive p), λ q. ground (arith, alive q), ground arith, λ q r. ground arith)
]

wakeup_wait-After :
    (w : Waits) (i flags : ℕ) (l : List ℕ)
    → w.wait_head ≡ i ∷ l
    → Alive w
    → (w' : Waits) × (wakeup_wait i flags true w ≡ done w') × After w i flags l w'
unfolding wakeup_wait wait_queue_del unlink
wakeup_wait-After w i flags l e alive =
    let p = (w.wait i).proc in
    let (k, run, alive', woken, stays) = wakeup_proc_alive p w.kernel alive in
    let head : member i w.wait_head ≡ true = rw e (ground arith) in
    let tail : unlink i w.wait_head ≡ l = rw e (ground arith) in
    let w' = record (put_wait i (record (w.wait i) { wakeup_flags = flags }) w) {
      kernel = k;
      wait_head = l;
    } in
    (
      w',
      rw (head, tail, run) refl,
      record {
        rest = refl;
        flagged = ground arith;
        same_flags = λ j ne. ground arith;
        same_proc = λ j. ground arith;
        alive = alive';
        woken = woken;
        stays = stays;
      },
    )

-- The queue is empty, and the waits of `l` were woken with the flags.
pub record AllWoken (w : Waits) (flags : ℕ) (l : List ℕ) (w' : Waits) : Type 0 where
  pub empty : w'.wait_head ≡ []
  pub runs :
      (j : ℕ) → member j l ≡ true → is_runnable (w'.kernel.procs (w.wait j).proc).state ≡ true
  pub flagged : (j : ℕ) → member j l ≡ true → (w'.wait j).wakeup_flags ≡ flags
  pub others : (j : ℕ) → member j l ≡ false → (w'.wait j).wakeup_flags ≡ (w.wait j).wakeup_flags
  pub stays :
      (p : ℕ)
      → is_runnable (w.kernel.procs p).state ≡ true
      → is_runnable (w'.kernel.procs p).state ≡ true

wake_all_step :
    (w w1 w2 : Waits) (fuel i flags : ℕ) (l : List ℕ)
    → wakeup_wait i flags true w ≡ done w1
    → w1.wait_head ≡ l
    → wake_all fuel flags (first l) w1 ≡ done w2
    → wake_all (suc fuel) flags (some i) w ≡ done w2
unfolding wake_all
wake_all_step w w1 w2 fuel i flags l run head rest = ground (arith, run, head, rest)

wake_all-AllWoken :
    (l : List ℕ) (w : Waits) (flags : ℕ)
    → w.wait_head ≡ l
    → Alive w
    → (w' : Waits) × (wake_all (length l) flags (first l) w ≡ done w') × AllWoken w flags l w'
unfolding wake_all
wake_all-AllWoken [] w flags e alive = (
  w,
  refl,
  record {
    empty = e;
    runs = λ j m. cc;
    flagged = λ j m. cc;
    others = λ j m. refl;
    stays = λ p r. r;
  },
)
wake_all-AllWoken (i ∷ l) w flags e alive =
    let (w1, run, a) = wakeup_wait-After w i flags l e alive in
    let (w2, rest, all) = wake_all-AllWoken l w1 flags a.rest a.alive in
    (w2, wake_all_step w w1 w2 (length l) i flags l run a.rest rest, step w1 w2 a all)
  where
    step :
        (w1 w2 : Waits)
        → After w i flags l w1
        → AllWoken w1 flags l w2
        → AllWoken w flags (i ∷ l) w2
    step w1 w2 a all = record {
      empty = all.empty;
      runs = λ j m. elim (Bool-cases (member j l)) [
        | inl later ↦ rw (← a.same_proc j) (all.runs j later)
        | inr once ↦ let at : j ≡ i = ground arith in rw at (all.stays (w.wait i).proc a.woken)
      ];
      flagged = λ j m. elim (Bool-cases (member j l)) [
        | inl later ↦ all.flagged j later
        | inr once ↦
            let at : j ≡ i = ground arith in
            let same = all.others j once in rw same (rw at a.flagged)
      ];
      others = λ j m.
          let ne : j ≢ i = ground arith in rw (all.others j (ground arith)) (a.same_flags j ne);
      stays = λ p r. all.stays p (a.stays p r);
    }

-- `wakeup_queue` with `del` empties the queue: every process that waits in it can run, its wait has
-- the flags, and no other wait gets them; it ends and fails no assertion where no process is a
-- zombie.
pub wakeup_queue-AllWoken :
    (w : Waits) (flags : ℕ)
    → Alive w
    → (w' : Waits) × (wakeup_queue flags true w ≡ done w') × AllWoken w flags w.wait_head w'
unfolding wakeup_queue
wakeup_queue-AllWoken w flags alive = wake_all-AllWoken w.wait_head w flags refl alive
