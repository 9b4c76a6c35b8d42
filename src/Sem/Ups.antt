-- ===== src/Sem/Ups.antt =====
-- `up` and `try_down` from a consistent state.
use os_exercises.Base.{
  ℕ, ◌+◌, ◌-◌, ◌≡◌, ◌≢◌, inl, inr, refl, true, false, Option, List, [], ◌∷◌, arith, ltb, ◌==◌,
  Bool-cases, done,
}
use os_exercises.Sched.{is_runnable}
use os_exercises.Wait.{Waits, member, wakeup_wait}
use os_exercises.Sem.{wt_ksem, up, up_with, try_down}
use os_exercises.Sem.Queue.{Distinct, Sleeps, Woken, wakeup_wait-first}
use os_exercises.Sem.World.{World, upping, trying, perform, IsValid}

pub member_ne : (i j : ℕ) (l : List ℕ) → member i l ≡ true → member j l ≡ false → i ≢ j
member_ne i j [] m n e = cc
member_ne i j (k ∷ l) m n e = ground (arith, member_ne i j l)

woken-IsValid :
    {start : ℕ} (w : World) (i : ℕ) (l : List ℕ) (waits : Waits)
    → IsValid start w
    → w.sem.waits.wait_head ≡ i ∷ l
    → Woken w.sem.waits i l waits
    → IsValid start
        (record w { sem = record w.sem { waits = waits }; woken = i ∷ w.woken; ups = w.ups + 1 })
woken-IsValid {start} w i l waits v e woken =
    let (fresh, distinct) : (member i l ≡ false) × Distinct l = rw e at v.distinct in
    record {
      ready = woken.ready;
      queued = λ j m. still j (rw woken.rest at m) fresh;
      distinct = rw woken.rest distinct;
      apart = λ j m. rw woken.rest (out j m fresh);
      signalled = λ j m. flags j m;
      awake = λ j m. can_run j m;
      idle = elim v.idle [ inl zero_value ↦ inl zero_value | inr empty ↦ inl (not_empty empty) ];
      balance = omega (arith, v.balance);
    }
  where
    not_empty : w.sem.waits.wait_head ≡ [] → w.sem.value ≡ 0
    not_empty h = cc (rw e at h)

    still : (j : ℕ) → member j l ≡ true → member i l ≡ false → Sleeps waits j
    still j m fresh =
        let ne = member_ne j i l m fresh in
        rw (woken.same_proc j ne, woken.same_wait j ne) (v.queued j (rw e (ground arith)))

    out : (j : ℕ) → member j (i ∷ w.woken) ≡ true → member i l ≡ false → member j l ≡ false
    out j m fresh = elim (Bool-cases (j == i)) [
      | inl same ↦ let at : j ≡ i = ground arith in rw at fresh
      | inr other ↦
          let gone : member j (i ∷ l) ≡ false = rw e at (v.apart j (ground arith)) in ground arith
    ]

    flags : (j : ℕ) → member j (i ∷ w.woken) ≡ true → (waits.wait j).wakeup_flags ≡ wt_ksem
    flags j m = elim (Bool-cases (j == i)) [
      | inl same ↦ let at : j ≡ i = ground arith in rw at woken.flags
      | inr other ↦ rw (woken.same_wait j (ground arith)) (v.signalled j (ground arith))
    ]

    can_run :
        (j : ℕ) → member j (i ∷ w.woken) ≡ true → is_runnable (waits.kernel.procs j).state ≡ true
    can_run j m = elim (Bool-cases (j == i)) [
      | inl same ↦ let at : j ≡ i = ground arith in rw at woken.runs
      | inr other ↦ rw (woken.same_proc j (ground arith)) (v.awake j (ground arith))
    ]

up-run :
    (pick_next : List ℕ → Option ℕ) (w : World) (i : ℕ) (l : List ℕ) (waits : Waits)
    → w.sem.waits.wait_head ≡ i ∷ l
    → ((w.sem.waits.kernel.procs (w.sem.waits.wait i).proc).wait_state == wt_ksem) ≡ true
    → wakeup_wait i wt_ksem true w.sem.waits ≡ done waits
    → perform pick_next upping w
      ≡ done
          (record w { sem = record w.sem { waits = waits }; woken = i ∷ w.woken; ups = w.ups + 1 })
unfolding perform up up_with
up-run pick_next w i l waits e state run = ground (arith, e, state, run)

pub up-IsValid :
    {start : ℕ} (pick_next : List ℕ → Option ℕ) (w : World)
    → IsValid start w
    → (w' : World) × (perform pick_next upping w ≡ done w') × IsValid start w'
unfolding perform up up_with
up-IsValid {start} pick_next w v = by_queue w.sem.waits.wait_head refl
  where
    by_queue :
        (l : List ℕ)
        → w.sem.waits.wait_head ≡ l
        → (w' : World) × (perform pick_next upping w ≡ done w') × IsValid start w'
    by_queue [] e = (
      record w { sem = record w.sem { value = w.sem.value + 1 }; ups = w.ups + 1 },
      rw e refl,
      record {
        ready = v.ready;
        queued = v.queued;
        distinct = v.distinct;
        apart = v.apart;
        signalled = v.signalled;
        awake = v.awake;
        idle = inr e;
        balance = omega (arith, v.balance);
      },
    )
    by_queue (i ∷ l) e =
        let sleeps = v.queued i (rw e (ground arith)) in
        let (waits, run, woken) = wakeup_wait-first w.sem.waits i l v.ready e sleeps in
        let state : ((w.sem.waits.kernel.procs (w.sem.waits.wait i).proc).wait_state == wt_ksem)
            ≡ true =
          rw (sleeps.2, sleeps.1) refl in
        (
          record w { sem = record w.sem { waits = waits }; woken = i ∷ w.woken; ups = w.ups + 1 },
          up-run pick_next w i l waits e state run,
          woken-IsValid w i l waits v e woken,
        )

pub try-IsValid :
    {start : ℕ} (pick_next : List ℕ → Option ℕ) (w : World)
    → IsValid start w
    → (w' : World) × (perform pick_next trying w ≡ done w') × IsValid start w'
unfolding perform try_down
try-IsValid {start} pick_next w v = elim (Bool-cases (ltb 0 w.sem.value)) [
  | inl e ↦ (
    record w { sem = record w.sem { value = w.sem.value - 1 }; passed = w.passed + 1 },
    rw e refl,
    record {
      ready = v.ready;
      queued = v.queued;
      distinct = v.distinct;
      apart = v.apart;
      signalled = v.signalled;
      awake = v.awake;
      idle = ground (arith, v.idle);
      balance = ground (arith, v.balance);
    },
  )
  | inr e ↦ (w, rw e refl, v)
]
