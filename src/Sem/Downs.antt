-- ===== src/Sem/Downs.antt =====
-- `down` from a consistent state.
use os_exercises.Base.{
  ℕ, ◌+◌, ◌-◌, ◌≡◌, ◌≢◌, ap, ◌∙◌, inl, inr, refl, true, false, not, Option, List, [], ◌∷◌, ◌++◌,
  arith, ltb, ◌==◌, ◌&&◌, length, Bool-cases, done,
}
use os_exercises.Sched.{is_runnable}
use os_exercises.Sched.Ready.{Picks, schedule-IsValid, schedule-Like}
use os_exercises.Wait.{Waits, member, unlink, wait_current_del}
use os_exercises.Sem.{down_enter, down_leave, down_end}
use os_exercises.Sem.Queue.{member-append, Distinct-append, Sleeps, Asleep, wait_current_set-Asleep}
use os_exercises.Sem.World.{World, entering, leaving, scheduled, perform, IsValid}
use os_exercises.Sem.Ups.{member_ne}

Asleep-IsValid :
    {start : ℕ} (w : World) (p : ℕ) (waits : Waits)
    → IsValid start w
    → member p w.sem.waits.wait_head ≡ false
    → member p w.woken ≡ false
    → w.sem.value ≡ 0
    → Asleep w.sem.waits p waits
    → IsValid start (record w { sem = record w.sem { waits = waits } })
Asleep-IsValid {start} w p waits v out awake empty a = record {
  ready = a.ready;
  queued = λ j m. sleeps j (rw a.longer at m);
  distinct = rw a.longer (Distinct-append p w.sem.waits.wait_head out v.distinct);
  apart = λ j m.
      let ne : j ≢ p = member_ne j p w.woken m awake in
      rw (a.longer, member-append j p w.sem.waits.wait_head) (ground (arith, v.apart j m));
  signalled = λ j m.
      let ne : j ≢ p = member_ne j p w.woken m awake in rw (a.same_wait j ne) (v.signalled j m);
  awake =
      λ j m. let ne : j ≢ p = member_ne j p w.woken m awake in rw (a.same_proc j ne) (v.awake j m);
  idle = inl empty;
  balance = v.balance;
}
  where
    sleeps : (j : ℕ) → member j (w.sem.waits.wait_head ++ (p ∷ [])) ≡ true → Sleeps waits j
    sleeps j m = elim (Bool-cases (j == p)) [
      | inl same ↦ let at : j ≡ p = ground arith in rw at a.sleeps
      | inr other ↦
          let ne : j ≢ p = ground arith in
          rw (a.same_proc j ne, a.same_wait j ne)
            (v.queued j (ground (arith, member-append j p w.sem.waits.wait_head)))
    ]

-- A process that can run sleeps in no queue.
not_queued :
    (w : World) (p : ℕ)
    → ((i : ℕ) → member i w.sem.waits.wait_head ≡ true → Sleeps w.sem.waits i)
    → is_runnable (w.sem.waits.kernel.procs p).state ≡ true
    → member p w.sem.waits.wait_head ≡ false
not_queued w p queued e = elim (Bool-cases (member p w.sem.waits.wait_head)) [
  | inr out ↦ out
  | inl inside ↦ let asleep = (queued p inside).0 in cc (rw asleep at e)
]

-- The processor goes to another process.
pub scheduled-IsValid :
    {start : ℕ} (pick_next : List ℕ → Option ℕ) (w : World)
    → Picks pick_next
    → IsValid start w
    → IsValid start (record w { sem = scheduled pick_next w.sem })
scheduled-IsValid pick_next w picks v = record {
  ready = (schedule-IsValid pick_next picks v.ready).0;
  queued = λ i m.
      let like = schedule-Like pick_next w.sem.waits.kernel i in
      let s = v.queued i m in (like.0 ∙ s.0, like.1 ∙ s.1, s.2);
  distinct = v.distinct;
  apart = v.apart;
  signalled = v.signalled;
  awake = λ i m.
      let like = schedule-Like pick_next w.sem.waits.kernel i in
      ap is_runnable like.0 ∙ v.awake i m;
  idle = v.idle;
  balance = v.balance;
}

pub enter-IsValid :
    {start : ℕ} (pick_next : List ℕ → Option ℕ) (w : World)
    → Picks pick_next
    → IsValid start w
    → (w' : World) × (perform pick_next entering w ≡ done w') × IsValid start w'
unfolding perform down_enter
enter-IsValid {start} pick_next w picks v =
    let p = w.sem.waits.kernel.current in
    elim (Bool-cases (is_runnable (w.sem.waits.kernel.procs p).state && not (member p w.woken))) [
      | inr no_call ↦ (w, rw no_call refl, v)
      | inl call ↦ elim (Bool-cases (ltb 0 w.sem.value)) [
        | inl e ↦ (
          record w { sem = record w.sem { value = w.sem.value - 1 }; passed = w.passed + 1 },
          rw (call, e) refl,
          record {
            ready = v.ready;
            queued = v.queued;
            distinct = v.distinct;
            apart = v.apart;
            signalled = v.signalled;
            awake = v.awake;
            idle = ground (arith, v.idle);
            balance = ground (arith, v.balance);
          },
        )
        | inr e ↦
            let out = not_queued w p v.queued (ground arith) in
            let (waits, run, asleep) = wait_current_set-Asleep w.sem.waits p v.ready out refl in
            let w1 = record w { sem = record w.sem { waits = waits } } in
            let valid : IsValid start w1 =
              Asleep-IsValid w p waits v out (ground arith) (ground arith) asleep in
            (
              record w { sem = scheduled pick_next (record w.sem { waits = waits }) },
              rw (call, e, run) refl,
              scheduled-IsValid pick_next w1 picks valid,
            )
      ]
    ]

unlink-member : (j p : ℕ) (l : List ℕ) → member j (unlink p l) ≡ true → member j l ≡ true
unfolding unlink
unlink-member j p [] m = cc
unlink-member j p (k ∷ l) m = ground (arith, unlink-member j p l)

length-unlink : (p : ℕ) (l : List ℕ) → member p l ≡ true → length l ≡ length (unlink p l) + 1
unfolding unlink
length-unlink p [] m = cc
length-unlink p (k ∷ l) m = ground (arith, length-unlink p l)

pub leave-IsValid :
    {start : ℕ} (pick_next : List ℕ → Option ℕ) (w : World)
    → IsValid start w
    → (w' : World) × (perform pick_next leaving w ≡ done w') × IsValid start w'
unfolding perform down_end down_leave wait_current_del
leave-IsValid {start} pick_next w v =
    let p = w.sem.waits.kernel.current in
    elim (Bool-cases (member p w.woken)) [
      | inr no_call ↦ (w, rw no_call refl, v)
      | inl call ↦ (
        record w { woken = unlink p w.woken; passed = w.passed + 1 },
        rw (call, v.apart p call, v.signalled p call) refl,
        record {
          ready = v.ready;
          queued = v.queued;
          distinct = v.distinct;
          apart = λ j m. v.apart j (unlink-member j p w.woken m);
          signalled = λ j m. v.signalled j (unlink-member j p w.woken m);
          awake = λ j m. v.awake j (unlink-member j p w.woken m);
          idle = v.idle;
          balance = omega (arith, v.balance, length-unlink p w.woken call);
        },
      )
    ]
