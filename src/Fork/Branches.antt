-- ===== src/Fork/Branches.antt =====
-- The branches of `do_fork` on which it fails, and what copy_mm gives back.
use os_exercises.Base.{
  ℕ, ◌≡◌, refl, sym, ap, ◌∙◌, inl, inr, Bool, true, false, some, arith, ◌==◌, bit_and, Bool-cases,
  Option-cases, Outcome, Outcome-cases, done, panic, Error, e_no_mem, ◌⊎◌,
}
use os_exercises.Sched.{wakeup_proc}
use os_exercises.Family.{set_links}
use os_exercises.Pid.{get_pid}
use os_exercises.Process.{World, put, hash_proc}
use os_exercises.Fork.{
  Answers, clone_vm, free_proc, put_kstack, number_child, wake_child, link_child, dup_mm, copy_mm,
  pids, start_child, fork_mm,
}

pub put-restores : (s x : ℕ) (f : ℕ → Bool) → f s ≡ false → put s false (put s true f) x ≡ f x
put-restores s x f h = elim (Bool-cases (x == s)) [
  | inl e ↦ let at : x ≡ s = ground arith in ground (arith, ap f at)
  | inr e ↦ ground arith
]

abbrev pub forked : World → Error ⊎ ℕ → Outcome (World × (Error ⊎ ℕ))
forked w r = done (w, r)

no_failure : (w w' : World) (n : ℕ) (e : Error) → forked w (inr n) ≡ forked w' (inl e) → ⊥
no_failure w w' n e h = absurd (ground (arith, h))

pub no_panic : (w : World) (r : Error ⊎ ℕ) → panic ≡ forked w r → ⊥
no_panic w r h = absurd (ground (arith, h))

wake_child-outcome :
    (p pid : ℕ) (w w' : World) (e : Error) → wake_child p pid w ≡ done (w', inl e) → ⊥
wake_child-outcome p pid w w' e h = elim (Outcome-cases (wakeup_proc p w.kernel)) [
  | inl (k, run) ↦
      let went = rw (wake_child, run) at h in no_failure (record w { kernel = k }) w' pid e went
  | inr run ↦ let never = rw (wake_child, run) at h in no_panic w' (inl e) never
]

link_child-outcome :
    (p pid : ℕ) (w w' : World) (e : Error) → link_child p pid w ≡ done (w', inl e) → ⊥
link_child-outcome p pid w w' e h = elim (Outcome-cases (set_links p w.links)) [
  | inl (l, run) ↦
      let went = rw (link_child, run) at h in
      wake_child-outcome p pid (record w { links = l }) w' e went
  | inr run ↦ let never = rw (link_child, run) at h in no_panic w' (inl e) never
]

-- With a number for the process the call succeeds.
start_child-outcome : (p : ℕ) (w w' : World) (e : Error) → start_child p w ≡ done (w', inl e) → ⊥
start_child-outcome p w w' e h = elim (Option-cases (get_pid (pids w) w.cursor)) [
  | inl none_left ↦ let never = rw (start_child, none_left) at h in no_panic w' (inl e) never
  | inr (c, number) ↦
      let went = rw (start_child, number) at h in
      link_child-outcome p c.last_pid (hash_proc p (number_child p c w)) w' e went
]

-- A copy of an address space that fails gives back what it took.
dup_mm-fails :
    (a : Answers) (m p : ℕ) (w : World)
    → (w.memory.mms m ≡ false) × (w.memory.pgdirs m ≡ false)
    → (dup_mm a m p w).1 ≡ false
    → (mms pgdirs : ℕ → Bool) × (mm_count : ℕ → ℕ) × ((dup_mm a m p w).0
        ≡ record w { memory = record w.memory { mms = mms; pgdirs = pgdirs }; mm_count = mm_count })
      × ((x : ℕ) → mms x ≡ w.memory.mms x)
      × ((x : ℕ) → pgdirs x ≡ w.memory.pgdirs x)
      × ((x : ℕ) → w.memory.mms x ≡ true → mm_count x ≡ w.mm_count x)
dup_mm-fails a m p w fresh h =
    let mms = put m false (put m true w.memory.mms) in
    let mm_restores : (x : ℕ) → mms x ≡ w.memory.mms x =
      λ x. put-restores m x w.memory.mms fresh.0 in
    let count = put m 0 w.mm_count in
    let counts : (x : ℕ) → w.memory.mms x ≡ true → count x ≡ w.mm_count x = kept m w fresh.0 in
    elim (Bool-cases a.setup_pgdir) [
      | inl pgdir ↦ elim (Bool-cases a.dup_mmap) [
        | inl copied ↦ let never = rw (pgdir, copied) at h in absurd (ground (arith, never))
        | inr e ↦ (
          mms,
          put m false (put m true w.memory.pgdirs),
          count,
          rw (pgdir, e) refl,
          mm_restores,
          λ x. put-restores m x w.memory.pgdirs fresh.1,
          counts,
        )
      ]
      | inr e ↦ (mms, w.memory.pgdirs, count, rw e refl, mm_restores, λ x. refl, counts)
    ]
  where
    kept :
        (m : ℕ) (w : World)
        → w.memory.mms m ≡ false
        → (x : ℕ) → w.memory.mms x ≡ true
        → put m 0 w.mm_count x ≡ w.mm_count x
    kept m w free x held = elim (Bool-cases (x == m)) [
      | inl e ↦
          let at : x ≡ m = ground arith in
          let clash = rw at at held in absurd (ground (arith, clash, free))
      | inr e ↦ ground arith
    ]

pub copy_mm-dup_mm :
    (a : Answers) (fl p old m : ℕ) (w : World)
    → (w.tasks w.kernel.current).mm ≡ some old
    → (bit_and fl clone_vm == 0) ≡ true
    → a.mm ≡ some m
    → copy_mm a fl p w ≡ dup_mm a m p w
unfolding copy_mm
copy_mm-dup_mm a fl p old m w e own new = rw (copy_mm, e, own, new) refl

-- The state in which copy_mm fails, with what it has taken given back.
pub copy_mm-fails :
    (a : Answers) (fl p : ℕ) (w : World)
    → ((m : ℕ) → a.mm ≡ some m → (w.memory.mms m ≡ false) × (w.memory.pgdirs m ≡ false))
    → (copy_mm a fl p w).1 ≡ false
    → (mms pgdirs : ℕ → Bool) × (mm_count : ℕ → ℕ) × ((copy_mm a fl p w).0
        ≡ record w { memory = record w.memory { mms = mms; pgdirs = pgdirs }; mm_count = mm_count })
      × ((x : ℕ) → mms x ≡ w.memory.mms x)
      × ((x : ℕ) → pgdirs x ≡ w.memory.pgdirs x)
      × ((x : ℕ) → w.memory.mms x ≡ true → mm_count x ≡ w.mm_count x)
unfolding copy_mm
copy_mm-fails a fl p w fresh h = elim (Option-cases (w.tasks w.kernel.current).mm) [
  | inl e ↦ let never = rw (copy_mm, e) at h in absurd (ground (arith, never))
  | inr (old, e) ↦ elim (Bool-cases (bit_and fl clone_vm == 0)) [
    | inl own ↦ elim (Option-cases a.mm) [
      | inl no_mm ↦ (
        w.memory.mms,
        w.memory.pgdirs,
        w.mm_count,
        rw (copy_mm, e, own, no_mm) refl,
        λ x. refl,
        λ x. refl,
        λ x held. refl,
      )
      | inr (m, new) ↦
          let failed : (dup_mm a m p w).1 ≡ false =
            ap (λ r. r.1) (sym (copy_mm-dup_mm a fl p old m w e own new)) ∙ h in
          let (mms, pgdirs, mm_count, state, mm_same, pgdir_same, counts) =
            dup_mm-fails a m p w (fresh m new) failed in
          (
            mms,
            pgdirs,
            mm_count,
            ap (λ r. r.0) (copy_mm-dup_mm a fl p old m w e own new) ∙ state,
            mm_same,
            pgdir_same,
            counts,
          )
    ]
    | inr shared ↦ let never = rw (copy_mm, e, shared) at h in absurd (ground (arith, never))
  ]
]

pub fork_mm-fails :
    (a : Answers) (fl p : ℕ) (w w' : World) (e : Error)
    → fork_mm a fl p w ≡ done (w', inl e)
    → ((copy_mm a fl p w).1 ≡ false)
      × (w' ≡ free_proc p (put_kstack p (copy_mm a fl p w).0))
      × (e ≡ e_no_mem)
fork_mm-fails a fl p w w' e h = elim (Bool-cases (copy_mm a fl p w).1) [
  | inl ok ↦ let went = rw ok at h in absurd (start_child-outcome p (copy_mm a fl p w).0 w' e went)
  | inr no_mm ↦ let went = rw no_mm at h in (no_mm, cc went, cc went)
]
