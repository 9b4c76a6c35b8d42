-- ===== src/Files/Open.antt =====
-- The steps of `file_open` on a consistent table, over what `vfs_open` promises.
use os_exercises.Base.{
  ℕ, ◌+◌, ◌-◌, ◌≤◌, ◌<◌, ◌≡◌, ◌⊎◌, refl, Bool, true, some, arith, ◌==◌, if◌then◌else◌, Bool-cases,
  Option-cases, inl, inr, Outcome, done, Error, bit_and,
}
use os_exercises.Files.{
  Status, fd_none, fd_init, fd_opened, fd_closed, File, Inodes, Files, nentry, is_none, is_init,
  put_file, put_inode, fd_array_free, fd_array_open, vfs_close,
}
use os_exercises.Files.Valid.{Counted, Entry, uses, users-uses}
use os_exercises.Files.Alloc.{claimed, fd_array_alloc-lowest, free-Counted, uses-free}
use os_exercises.Files.Calls.{o_append, access_mode, fill}
use os_exercises.Files.World.{
  Pending, not_opening, looking_up, asking_size, World, opening, found, sized, put_pending, settled,
  answered, continue, complete, perform,
}
use os_exercises.Files.Pending.{is_opening, shadow, IsConsistent, step-IsConsistent}

abbrev pub one_at : ℕ → ℕ → ℕ
one_at n m = if m == n then 1 else 0

-- Where `vfs_open` finds an inode, its counts go up by one and no others change. Where it fails, no
-- count of opens changes, and it may leave references behind but takes none away.
abbrev pub Counts : Inodes → (Error ⊎ ℕ) × Inodes → Type 0
Counts ns (inl e, ns') = (m : ℕ) → ((ns' m).opens ≡ (ns m).opens) × ((ns m).refs ≤ (ns' m).refs)
Counts ns (inr n, ns') =
    (m : ℕ)
    → ((ns' m).opens ≡ (ns m).opens + one_at n m) × ((ns' m).refs ≡ (ns m).refs + one_at n m)

init-Counted :
    (f : File) (k : ℕ)
    → is_init f.status ≡ true
    → Counted f.status k f
    → (f.status ≡ fd_init) × (f.open_count ≡ 0) × (k ≡ 0)
init-Counted f k e c = by_status f.status refl e c
  where
    by_status :
        (st : Status)
        → f.status ≡ st
        → is_init st ≡ true
        → Counted st k f
        → (f.status ≡ fd_init) × (f.open_count ≡ 0) × (k ≡ 0)
    by_status fd_none s h c = cc
    by_status fd_init s h c = (s, c.0, c.1)
    by_status fd_opened s h c = cc
    by_status fd_closed s h c = cc

-- A step of a call of `file_open` ends, and leaves the table consistent.
abbrev pub Goes : (opens refs : ℕ → ℕ) → Outcome World → Type 0
Goes opens refs m = (w' : World) × (m ≡ done w') × IsConsistent opens refs w'

module _ (vfs_open : ℕ → Inodes → (Error ⊎ ℕ) × Inodes) (vop_fstat : ℕ → Error ⊎ ℕ)
    (vfs_open-Counts : (flags : ℕ) (ns : Inodes) → Counts ns (vfs_open flags ns))
    {opens refs : ℕ → ℕ} (w : World) (v : IsConsistent opens refs w) where
  not_waiting : (i : ℕ) → is_none (w.files.fd_array i).status ≡ true → w.pending i ≡ not_opening
  not_waiting i free = by_pending (w.pending i) refl
    where
      none_is_init :
          (st : Status) → is_none st ≡ true → is_init st ≡ true → w.pending i ≡ not_opening
      none_is_init fd_none a b = cc
      none_is_init fd_init a b = cc
      none_is_init fd_opened a b = cc
      none_is_init fd_closed a b = cc

      clash : is_opening (w.pending i) ≡ true → w.pending i ≡ not_opening
      clash h = none_is_init (w.files.fd_array i).status free (v.claimed i h).1

      by_pending : (p : Pending) → w.pending i ≡ p → w.pending i ≡ not_opening
      by_pending not_opening e = e
      by_pending (looking_up flags mode) e = clash (rw e refl)
      by_pending (asking_size mode n) e = clash (rw e refl)

  pub begin-Goes : (flags : ℕ) → Goes opens refs (perform vfs_open vop_fstat (opening flags) w)
  unfolding perform
  begin-Goes flags = elim (Option-cases (access_mode flags)) [
    | inl bad ↦ (w, rw bad refl, v)
    | inr (mode, good) ↦ elim (fd_array_alloc-lowest v.files) [
      | inr (full, _) ↦ (w, rw (good, full) refl, v)
      | inl (i, run, lt, free, below) ↦
          let none_yet = not_waiting i free in
          let empty = free-Counted v.files i lt free in
          let gone : (n : ℕ) → uses n (shadow (w.pending i)) ≡ 0 = λ n. rw none_yet refl in
          let unused : (n : ℕ) → uses n (w.files.fd_array i) ≡ 0 =
            λ n. uses-free n (w.files.fd_array i) free in
          let s = claimed i w.files in
          let init : (s.fd_array i).status ≡ fd_init = ground arith in
          let blank : (n : ℕ) → uses n (s.fd_array i) ≡ 0 = λ n. rw init refl in
          (
            record w { files = s; pending = put_pending w.pending i (looking_up flags mode) },
            rw (good, run) refl,
            step-IsConsistent w i s (looking_up flags mode) w.left v lt unused empty.1
                (λ j ne. ground arith) (ground (arith, v.files.entries i lt, empty))
                (λ n. omega (arith, gone n, blank n)) (λ n. omega (arith, gone n, blank n)) refl
                (λ h. rw init refl),
          )
    ]
  ]

  module _ (i : ℕ) (lt : i < nentry) (init : is_init (w.files.fd_array i).status ≡ true) where
    abbrev f : File
    f = w.files.fd_array i

    facts : (f.status ≡ fd_init) × (f.open_count ≡ 0) × (w.held i ≡ 0)
    facts = init-Counted f (w.held i) init (v.files.entries i lt).1

    unused : (n : ℕ) → uses n f ≡ 0
    unused n = rw (facts.0) refl

    -- The entry given back.
    abbrev returned : Inodes → Files
    returned ns = put_file i (record f { status = fd_none }) (record w.files { inodes = ns })

    returned-run :
        (ns : Inodes) → fd_array_free i (record w.files { inodes = ns }) ≡ done (returned ns)
    unfolding fd_array_free
    returned-run ns = let (st, empty, idle) = facts in ground (arith, st, empty)

    -- The entry opened on the inode `n`.
    abbrev opened : ℕ → ℕ → Bool × Bool → Inodes → Files
    opened n pos mode ns =
        put_file i
          (record {
            status = fd_opened;
            readable = mode.0;
            writable = mode.1;
            fd = f.fd;
            pos = pos;
            node = some n;
            open_count = f.open_count + 1;
          })
          (record w.files { inodes = ns })

    opened-run :
        (n pos : ℕ) (mode : Bool × Bool) (ns : Inodes)
        → fill i n pos mode (record w.files { inodes = ns }) ≡ done (inr f.fd, opened n pos mode ns)
    unfolding fd_array_open
    opened-run n pos mode ns = let (st, empty, idle) = facts in ground (arith, st, empty)

    opened-uses :
        (n pos : ℕ) (mode : Bool × Bool) (ns : Inodes) (m : ℕ)
        → uses m ((opened n pos mode ns).fd_array i) ≡ one_at n m
    opened-uses n pos mode ns m = ground arith

    opened-Entry :
        (n pos : ℕ) (mode : Bool × Bool) (ns : Inodes)
        → Entry i 0 ((opened n pos mode ns).fd_array i)
    opened-Entry n pos mode ns =
        let (st, empty, idle) = facts in ground (arith, v.files.entries i lt, empty)

    returned-uses : (ns : Inodes) (m : ℕ) → uses m ((returned ns).fd_array i) ≡ 0
    returned-uses ns m = ground arith

    returned-Entry : (ns : Inodes) → Entry i 0 ((returned ns).fd_array i)
    returned-Entry ns = let (st, empty, idle) = facts in ground (arith, v.files.entries i lt, empty)

    module _ (flags : ℕ) (mode : Bool × Bool) (e : w.pending i ≡ looking_up flags mode) where
      gone : (m : ℕ) → uses m (shadow (w.pending i)) ≡ 0
      gone m = rw e refl

      answered-Goes :
          (a : (Error ⊎ ℕ) × Inodes)
          → Counts w.files.inodes a
          → Goes opens refs (answered vfs_open vop_fstat w i flags mode a)
      answered-Goes (inl err, ns) c =
          let left : ℕ → ℕ = λ m. w.left m + ((ns m).refs - (w.files.inodes m).refs) in
          (
            record (settled w i (returned ns)) { left = left },
            rw (returned-run ns) refl,
            step-IsConsistent w i (returned ns) not_opening left v lt unused facts.2
                (λ j ne. ground arith) (returned-Entry ns)
                (λ m. omega (arith, c m, gone m, returned-uses ns m))
                (λ m. omega (arith, c m, gone m, returned-uses ns m)) refl (λ h. cc),
          )
      answered-Goes (inr n, ns) c = elim (Bool-cases (bit_and flags o_append == 0)) [
        | inl start ↦
            let s' = opened n 0 mode ns in
            (
              settled w i s',
              rw (start, opened-run n 0 mode ns) refl,
              step-IsConsistent w i s' not_opening w.left v lt unused facts.2 (λ j ne. ground arith)
                  (opened-Entry n 0 mode ns)
                  (λ m. omega (arith, c m, gone m, opened-uses n 0 mode ns m))
                  (λ m. omega (arith, c m, gone m, opened-uses n 0 mode ns m)) refl (λ h. cc),
            )
        | inr append ↦
            let s' = record w.files { inodes = ns } in
            let one : (m : ℕ) → uses m (shadow (asking_size mode n)) ≡ one_at n m =
              λ m. ground arith in
            let held : Entry i 0 f = rw (facts.2) at (v.files.entries i lt) in
            (
              record w { files = s'; pending = put_pending w.pending i (asking_size mode n) },
              rw append refl,
              step-IsConsistent w i s' (asking_size mode n) w.left v lt unused facts.2
                  (λ j ne. refl) held (λ m. omega (arith, c m, gone m, unused m, one m))
                  (λ m. omega (arith, c m, gone m, unused m, one m)) refl (λ h. init),
            )
      ]

    module _ (mode : Bool × Bool) (n : ℕ) (e : w.pending i ≡ asking_size mode n) where
      waits : (m : ℕ) → uses m (shadow (w.pending i)) ≡ one_at n m
      waits m = rw e (ground arith)

      -- The call that waits is counted.
      counted : (0 < (w.files.inodes n).opens) × (0 < (w.files.inodes n).refs)
      counted =
          let own : one_at n n ≡ 1 = ground arith in
          let among = users-uses n (λ j. shadow (w.pending j)) i nentry lt in
          omega (arith, own, waits n, among, v.files.opened n, v.files.counted n)

      abbrev dropped : Inodes
      dropped =
          let c = w.files.inodes n in
          put_inode n (record { refs = c.refs - 1; opens = c.opens - 1 }) w.files.inodes

      dropped-run : vfs_close (some n) w.files.inodes ≡ done dropped
      unfolding vfs_close
      dropped-run = let (o, r) = counted in ground (arith, o, r)

      completed-Goes :
          (a : Error ⊎ ℕ)
          → vop_fstat n ≡ a
          → Goes opens refs (complete vfs_open vop_fstat w i (asking_size mode n))
      completed-Goes (inl err) a =
          let (o, r) = counted in
          (
            settled w i (returned dropped),
            rw (a, dropped-run, returned-run dropped) refl,
            step-IsConsistent w i (returned dropped) not_opening w.left v lt unused facts.2
                (λ j ne. ground arith) (returned-Entry dropped)
                (λ m. rw (waits m, returned-uses dropped m) (ground (arith, o)))
                (λ m. rw (waits m, returned-uses dropped m) (ground (arith, r))) refl (λ h. cc),
          )
      completed-Goes (inr size) a =
          let s' = opened n size mode w.files.inodes in
          (
            settled w i s',
            rw (a, opened-run n size mode w.files.inodes) refl,
            step-IsConsistent w i s' not_opening w.left v lt unused facts.2 (λ j ne. ground arith)
                (opened-Entry n size mode w.files.inodes)
                (λ m. omega (arith, waits m, opened-uses n size mode w.files.inodes m))
                (λ m. omega (arith, waits m, opened-uses n size mode w.files.inodes m)) refl
                (λ h. cc),
          )

  pub found-Goes : (i : ℕ) → Goes opens refs (perform vfs_open vop_fstat (found i) w)
  unfolding perform
  found-Goes i = by_pending (w.pending i) refl
    where
      by_pending :
          (p : Pending)
          → w.pending i ≡ p
          → Goes opens refs (continue vfs_open vop_fstat w i (w.pending i))
      by_pending not_opening e = (w, rw e refl, v)
      by_pending (asking_size mode n) e = (w, rw e refl, v)
      by_pending (looking_up flags mode) e =
          let (lt, init) = v.claimed i (rw e refl) in
          rw e (
            answered-Goes i lt init flags mode e (vfs_open flags w.files.inodes)
              (vfs_open-Counts flags w.files.inodes))

  pub sized-Goes : (i : ℕ) → Goes opens refs (perform vfs_open vop_fstat (sized i) w)
  unfolding perform
  sized-Goes i = by_pending (w.pending i) refl
    where
      by_pending :
          (p : Pending)
          → w.pending i ≡ p
          → Goes opens refs (complete vfs_open vop_fstat w i (w.pending i))
      by_pending not_opening e = (w, rw e refl, v)
      by_pending (looking_up flags mode) e = (w, rw e refl, v)
      by_pending (asking_size mode n) e =
          let (lt, init) = v.claimed i (rw e refl) in
          rw e (completed-Goes i lt init mode n e (vop_fstat n) refl)
