-- ===== src/Timer/Tick.antt =====
-- `run_timer_list`: one tick of the clock.
use mathlib.Core.Path.{subst}
use os_exercises.Base.{
  ℕ, ◌+◌, ◌-◌, ◌%◌, ◌^◌, ◌<◌, ◌≡◌, ◌≢◌, ◌⊎◌, refl, sym, ap, ◌∙◌, Bool-cases, inl, inr, true, false,
  not, List, [], ◌∷◌, arith, ◌==◌, ◌||◌, if◌then◌else◌, bit_and, done,
}
use os_exercises.Wait.{wt_interrupted, member}
use os_exercises.Sched.{
  Kernel, proc_runnable, is_runnable, is_zombie, put_proc, sched_class_enqueue, wakeup_proc,
}
use os_exercises.Sched.Ready.{IsValid}
use os_exercises.Timer.{
  Timer, wake_timed, expire, run_timer_list, insert_timer, add_timer, del_timer,
}
use os_exercises.Timer.Due.{Bounded, due, due_next, nearer}

-- No timer in front waits for nothing.
abbrev pub HeadWaits : List Timer → Type 0
HeadWaits [] = Unit
HeadWaits (t ∷ ts) = 0 < t.expires

-- Timers that are due later than at the next tick.
far_due :
    (now : ℕ) (ts : List Timer)
    → 1 < now
    → (due_next (due now ts) ≡ []) × (nearer (due now ts) ≡ due (now - 1) ts)
unfolding due_next nearer
far_due now [] h = (refl, refl)
far_due now (t ∷ ts) h =
    let (a, b) = far_due (now + t.expires) ts (omega arith) in
    let e : now + t.expires - 1 ≡ now - 1 + t.expires = omega arith in (ground arith, ground arith)

-- The processes of the timers that are due, in the order of the list, and the timers behind them.
abbrev pub expired : List Timer → List ℕ × List Timer
expired [] = ([], [])
expired (t ∷ ts) =
    let (due_now, rest) = expired ts in
    if t.expires == 0 then (t.proc ∷ due_now, rest) else ([], t ∷ ts)

expired-due :
    (ts : List Timer)
    → ((expired ts).0 ≡ due_next (due 1 ts))
      × (due 0 (expired ts).1 ≡ nearer (due 1 ts))
      × HeadWaits (expired ts).1
unfolding due_next nearer
expired-due [] = (refl, refl, tt)
expired-due (t ∷ ts) = elim (Bool-cases (t.expires == 0)) [
  | inl e ↦
      let (woken, rest, waits) = expired-due ts in
      let now : 1 + t.expires ≡ 1 = ground arith in
      rw (e, now) (ap (λ l. t.proc ∷ l) woken, rest, waits)
  | inr e ↦
      let (none_due, others) = far_due (1 + t.expires) ts (ground arith) in
      let now : 1 + t.expires - 1 ≡ 0 + t.expires = omega arith in
      (ground arith, ground arith, ground arith)
]

-- A timer may wake the process: it is no zombie, and a wait of it can be interrupted.
abbrev pub Wakeable : Kernel → ℕ → Type 0
Wakeable k p =
    (is_zombie (k.procs p).state ≡ false)
    × (((k.procs p).wait_state ≡ 0) ⊎ (bit_and (k.procs p).wait_state wt_interrupted ≢ 0))

-- The processes of `l` can run, the others are as before, and the run queue is right.
pub record Woken (l : List ℕ) (k k' : Kernel) : Type 0 where
  pub ready : IsValid k'
  pub runs : (p : ℕ) → member p l ≡ true → is_runnable (k'.procs p).state ≡ true
  pub others : (p : ℕ) → member p l ≡ false → k'.procs p ≡ k.procs p

wake_timed-Wakeable :
    (p : ℕ) (k : Kernel)
    → IsValid k
    → Wakeable k p
    → (k' : Kernel) × (wake_timed p k ≡ done k')
      × IsValid k'
      × (is_runnable (k'.procs p).state ≡ true)
      × Wakeable k' p
      × ((q : ℕ) → q ≢ p → k'.procs q ≡ k.procs q)
unfolding wake_timed wakeup_proc sched_class_enqueue
wake_timed-Wakeable p k v h =
    let test : ((k.procs p).wait_state == 0
          || not (bit_and (k.procs p).wait_state wt_interrupted == 0))
        ≡ true =
      passes h.1 in
    let alive = h.0 in
    elim (Bool-cases (is_runnable (k.procs p).state)) [
      | inl e ↦ (k, rw test (ground (arith, alive, e)), v, e, h, λ q ne. refl)
      | inr e ↦
          let c = k.procs p in
          let woken = put_proc p (record c { state = proc_runnable; wait_state = 0 }) k in
          let k' = if p == k.current then woken else sched_class_enqueue p woken in
          (
            k',
            rw test (ground (arith, alive, e)),
            record { queued = λ q. ground (arith, v.queued q, e) },
            ground arith,
            (ground arith, inl (ground arith)),
            λ q ne. ground arith,
          )
    ]
  where
    passes :
        ((k.procs p).wait_state ≡ 0) ⊎ (bit_and (k.procs p).wait_state wt_interrupted ≢ 0)
        → ((k.procs p).wait_state == 0 || not (bit_and (k.procs p).wait_state wt_interrupted == 0))
          ≡ true
    passes (inl e) = let t : ((k.procs p).wait_state == 0) ≡ true = ground arith in rw t refl
    passes (inr ne) =
        let t : (bit_and (k.procs p).wait_state wt_interrupted == 0) ≡ false = ground arith in
        rw t (ground arith)

expire-Woken :
    (ts : List Timer) (k : Kernel)
    → IsValid k
    → ((p : ℕ) → member p (expired ts).0 ≡ true → Wakeable k p)
    → (k' : Kernel) × (expire ts k ≡ done (k', (expired ts).1)) × Woken (expired ts).0 k k'
unfolding expire
expire-Woken [] k v h = (k, refl, record { ready = v; runs = λ p m. cc; others = λ p m. refl })
expire-Woken (t ∷ ts) k v h = elim (Bool-cases (t.expires == 0)) [
  | inr e ↦ rw e (k, refl, record { ready = v; runs = λ p m. cc; others = λ p m. refl })
  | inl e ↦
      let all : (p : ℕ) → member p (t.proc ∷ (expired ts).0) ≡ true → Wakeable k p =
        λ p m. h p (rw e m) in
      let (k1, run, valid, runs, can, same) =
        wake_timed-Wakeable t.proc k v (all t.proc (ground arith)) in
      let later : (p : ℕ) → member p (expired ts).0 ≡ true → Wakeable k1 p = λ p m.
        elim (Bool-cases (p == t.proc)) [
          | inl at ↦ let it : p ≡ t.proc = ground arith in rw it can
          | inr other ↦ rw (same p (ground arith)) (all p (ground arith))
        ] in
      let (k', run2, woken) = expire-Woken ts k1 valid later in
      rw e (
        k',
        rw run run2,
        record {
          ready = woken.ready;
          runs = λ p m. elim (Bool-cases (member p (expired ts).0)) [
            | inl again ↦ woken.runs p again
            | inr once ↦ let it : p ≡ t.proc = ground arith in rw (woken.others p once, it) runs
          ];
          others = λ p m. woken.others p (ground arith) ∙ same p (ground arith);
        },
      )
]

-- A tick never stops the kernel on a list whose first timer waits, where the run queue is right and
-- the processes of the timers that are due at that tick are no zombies, and in a wait that can be
-- interrupted or in none. It makes these processes able to run, leaves the others and a right run
-- queue, brings every other due time one tick nearer, and leaves a list whose first timer waits.
pub run_timer_list-due :
    (ts : List Timer) (k : Kernel)
    → HeadWaits ts
    → IsValid k
    → ((p : ℕ) → member p (due_next (due 0 ts)) ≡ true → Wakeable k p)
    → (k' : Kernel) × (rest : List Timer) × (run_timer_list ts k ≡ done (k', rest))
      × Woken (due_next (due 0 ts)) k k'
      × (due 0 rest ≡ nearer (due 0 ts))
      × HeadWaits rest
unfolding run_timer_list due_next nearer
run_timer_list-due [] k h v can =
    (k, [], refl, record { ready = v; runs = λ p m. cc; others = λ p m. refl }, refl, tt)
run_timer_list-due (t ∷ ts) k h v can =
    let started = record t { expires = t.expires - 1 } ∷ ts in
    let (names, rest, waits) = expired-due started in
    let now : 1 + (t.expires - 1) ≡ 0 + t.expires = omega arith in
    let same : (expired started).0 ≡ due_next (due 0 (t ∷ ts)) =
      names ∙ ap (λ n. due_next (record { time = n; id = t.id; proc = t.proc } ∷ due n ts)) now in
    let (k', run, woken) = expire-Woken started k v (λ p m. can p (sym (ap (member p) same) ∙ m)) in
    let waiting : (t.expires == 0) ≡ false = ground arith in
    (
      k',
      (expired started).1,
      rw waiting run,
      subst (λ l. Woken l k k') same woken,
      rest ∙ ap (λ n. nearer (record { time = n; id = t.id; proc = t.proc } ∷ due n ts)) now,
      waits,
    )

-- An addition that succeeds leaves a list whose first timer waits, if the list was one.
pub add_timer-HeadWaits :
    (t : Timer) (ts ts' : List Timer) → HeadWaits ts → add_timer t ts ≡ done ts' → HeadWaits ts'
unfolding add_timer insert_timer
add_timer-HeadWaits t [] ts' h e = ground arith
add_timer-HeadWaits t (next ∷ ts) ts' h e = ground arith

-- A deletion from a list whose first timer waits leaves such a list, where the due times fit in 32
-- bits.
pub del_timer-HeadWaits :
    (i : ℕ) (ts : List Timer) → Bounded 0 ts → HeadWaits ts → HeadWaits (del_timer i ts)
unfolding del_timer
del_timer-HeadWaits i [] b h = tt
del_timer-HeadWaits i (t ∷ []) b h = ground arith
del_timer-HeadWaits i (t ∷ (next ∷ ts)) b h =
    let sum : 0 < (next.expires + t.expires) % 2 ^ 32 = omega (arith, b.0, b.1) in ground arith
