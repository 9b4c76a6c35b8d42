-- ===== src/Sched/Ready.antt =====
-- The run queue holds each process that could run and does not, once.
use os_exercises.Base.{
  ℕ, ◌+◌, ◌<◌, ◌≡◌, ◌≢◌, ◌⊎◌, inl, inr, refl, ◌∙◌, Bool, true, false, not, Option, none, some, List,
  [], ◌∷◌, arith, ◌==◌, ◌&&◌, if◌then◌else◌, Bool-cases, done,
}
use os_exercises.Sched.{
  proc_runnable, Proc, Kernel, switch, idleproc, is_runnable, is_zombie, sched_class_enqueue,
  unready, wakeup_proc, yielded, run_next, schedule, put_proc,
}

abbrev pub count : ℕ → List ℕ → ℕ
count p [] = 0
count p (q ∷ l) = (if p == q then 1 else 0) + count p l

count-unready :
    (p q : ℕ) (l : List ℕ)
    → 0 < count p l
    → count q (unready p l) + (if q == p then 1 else 0) ≡ count q l
unfolding unready
count-unready p q [] h = absurd (omega arith)
count-unready p q (x ∷ l) h = ground (arith, count-unready p q l)

-- Does the process wait for its turn?
abbrev pub waits_turn : Kernel → ℕ → Bool
waits_turn k p = is_runnable (k.procs p).state && (not (p == k.current) && not (p == idleproc))

pub record IsValid (k : Kernel) : Type 0 where
  pub queued : (p : ℕ) → count p k.ready ≡ (if waits_turn k p then 1 else 0)

-- What a scheduling class has to do: pick a process of its run queue, if it has any.
abbrev pub Picks : (List ℕ → Option ℕ) → Type 0
Picks pick_next =
    (l : List ℕ)
    → ((pick_next l ≡ none) × (l ≡ [])) ⊎ ((p : ℕ) × (pick_next l ≡ some p) × (0 < count p l))

-- With a right run queue, waking a process that is no zombie never fails, leaves it runnable and
-- the run queue right, and changes no other process.
pub wakeup_proc-IsValid :
    (p : ℕ) {k : Kernel}
    → IsValid k
    → is_zombie (k.procs p).state ≡ false
    → (k' : Kernel) × (wakeup_proc p k ≡ done k')
      × IsValid k'
      × (is_runnable (k'.procs p).state ≡ true)
      × ((q : ℕ) → q ≢ p → k'.procs q ≡ k.procs q)
unfolding wakeup_proc sched_class_enqueue
wakeup_proc-IsValid p {k} v alive = elim (Bool-cases (is_runnable (k.procs p).state)) [
  | inl e ↦ (k, ground arith, v, e, λ q ne. refl)
  | inr e ↦
      let c = k.procs p in
      let woken = put_proc p (record c { state = proc_runnable; wait_state = 0 }) k in
      let k' = if p == k.current then woken else sched_class_enqueue p woken in
      (
        k',
        ground arith,
        record { queued = λ q. ground (arith, v.queued q) },
        ground arith,
        λ q ne. ground arith,
      )
]

-- The current process offers itself too.
yielded-queued :
    {k : Kernel} (p : ℕ)
    → IsValid k
    → count p (yielded k).ready
      ≡ (if is_runnable (k.procs p).state && not (p == idleproc) then 1 else 0)
unfolding sched_class_enqueue
yielded-queued {k} p v = ground (arith, v.queued p)

yielded-state : (k : Kernel) (q : ℕ) → ((yielded k).procs q).state ≡ (k.procs q).state
unfolding sched_class_enqueue
yielded-state k q = ground arith

next-IsValid :
    (y : Kernel) (p : ℕ) (l : List ℕ)
    → ((q : ℕ)
        → count q l ≡ (
            if is_runnable (y.procs q).state && (not (q == p) && not (q == idleproc))
            then 1
            else 0))
    → IsValid (run_next p (record y { ready = l }))
next-IsValid y p l queued = record { queued = λ q. ground (arith, queued q) }

abbrev pub Like : Proc → Proc → Type 0
Like c d = (c.state ≡ d.state) × (c.wait_state ≡ d.wait_state)

switch-Like : (o : Option ℕ) (k : Kernel) (q : ℕ) → Like ((switch o k).procs q) (k.procs q)
switch-Like none k q = (ground arith, ground arith)
switch-Like (some p) k q = (ground arith, ground arith)

yielded-Like : (k : Kernel) (q : ℕ) → Like ((yielded k).procs q) (k.procs q)
unfolding sched_class_enqueue
yielded-Like k q = (ground arith, ground arith)

-- A switch changes neither what a process does nor what it waits for.
pub schedule-Like :
    (pick_next : List ℕ → Option ℕ) (k : Kernel) (q : ℕ)
    → Like ((schedule pick_next k).procs q) (k.procs q)
unfolding schedule
schedule-Like pick_next k q =
    let a = switch-Like (pick_next (yielded k).ready) (yielded k) q in
    let b = yielded-Like k q in (a.0 ∙ b.0, a.1 ∙ b.1)

module _ (pick_next : List ℕ → Option ℕ) (picks : Picks pick_next) where
  -- From a run queue that holds each process that could run and does not, once, and with a
  -- scheduling class that picks from its queue whenever it can, `schedule` keeps the run queue
  -- right, and it either runs a process that can run and is not the idle process, or runs the idle
  -- process where no other process can run.
  pub schedule-IsValid :
      {k : Kernel}
      → IsValid k
      → IsValid (schedule pick_next k)
        × (((schedule pick_next k).current ≡ idleproc)
              × ((q : ℕ) → q ≢ idleproc → is_runnable (k.procs q).state ≡ false)
            ⊎ ((schedule pick_next k).current ≢ idleproc)
              × (is_runnable (k.procs (schedule pick_next k).current).state ≡ true))
  unfolding schedule sched_class_enqueue
  schedule-IsValid {k} v = elim (picks (yielded k).ready) [
    | inl (run, empty) ↦
        let none_left = (λ (q : ℕ). rw empty at (yielded-queued q v)) in
        (
          rw run (
              next-IsValid (yielded k) idleproc (yielded k).ready
                (λ q. rw (yielded-state k q) (ground (arith, yielded-queued q v)))),
          rw run (inl (refl, λ q ne. ground (arith, none_left q))),
        )
    | inr (p, run, held) ↦ (
      rw run (
          next-IsValid (yielded k) p (unready p (yielded k).ready) (λ q.
            rw (yielded-state k q)
              (ground (arith, yielded-queued q v, count-unready p q (yielded k).ready held)))),
      rw run
          (inr ((λ same. ground (arith, yielded-queued p v)), ground (arith, yielded-queued p v))),
    )
  ]
