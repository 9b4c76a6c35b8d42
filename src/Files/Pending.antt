-- ===== src/Files/Pending.antt =====
-- The table while calls of `file_open` wait.
use os_exercises.Base.{
  ℕ, ◌+◌, ◌<◌, ◌≡◌, ◌≢◌, ap, ◌∙◌, Bool, true, false, none, some, arith, ◌==◌, Bool-cases, inl, inr,
}
use os_exercises.Files.{File, fd_none, fd_opened, Files, nentry, is_init}
use os_exercises.Files.Valid.{Entry, uses, users, users-change, IsValid, Frame}
use os_exercises.Files.World.{Pending, not_opening, asking_size, World, put_pending}

abbrev pub is_opening : Pending → Bool
is_opening p = elim p [ not_opening ↦ false | _ ↦ true ]

-- The entry that stands for the counts of a call that waits for the size.
abbrev pub shadow : Pending → File
shadow (asking_size mode n) = record {
  status = fd_opened;
  readable = false;
  writable = false;
  fd = 0;
  pos = 0;
  node = some n;
  open_count = 0;
}
shadow p = record {
  status = fd_none;
  readable = false;
  writable = false;
  fd = 0;
  pos = 0;
  node = none;
  open_count = 0;
}

-- How many calls of `file_open` hold the inode `n` and no entry with it yet.
abbrev pub opening_with : (ℕ → Pending) → ℕ → ℕ
opening_with pending n = users n (λ i. shadow (pending i)) nentry

-- The counts of the inodes are those of the table, of the calls of `file_open` that wait, of others,
-- and for the references the ones that failed calls of `vfs_open` have left. The entry of a call that
-- waits is claimed.
pub record IsConsistent (opens refs : ℕ → ℕ) (w : World) : Type 0 where
  pub files :
      IsValid
        (λ n. opening_with w.pending n + opens n)
        (λ n. opening_with w.pending n + (refs n + w.left n))
        w.held
        w.files
  pub claimed :
      (i : ℕ)
      → is_opening (w.pending i) ≡ true
      → (i < nentry) × (is_init (w.files.fd_array i).status ≡ true)

-- A call that leaves claimed entries alone.
pub kept-IsConsistent :
    {opens refs : ℕ → ℕ} (w : World) (s : Files) (held : ℕ → ℕ)
    → IsConsistent opens refs w
    → IsValid
        (λ n. opening_with w.pending n + opens n)
        (λ n. opening_with w.pending n + (refs n + w.left n))
        held
        s
    → Frame w.files s
    → IsConsistent opens refs (record w { files = s; held = held })
kept-IsConsistent w s held v valid frame = record {
  files = valid;
  claimed = λ i h.
      let (lt, init) = v.claimed i h in
      (lt, ap (λ (f : File). is_init f.status) (frame i init) ∙ init);
}

-- The sums behind a step: the count `x` of an inode, its users `u` in the table, the calls `p` that
-- wait, and the others.
balance :
    (x x' old new later f u u' p p' others : ℕ)
    → x' + old ≡ x + new + later
    → x ≡ u + (p + others)
    → f ≡ 0
    → u' + f ≡ u + new
    → p' + old ≡ p + later
    → x' ≡ u' + (p' + others)
balance x x' old new later f u u' p p' others a b c d e = omega arith

balance_left :
    (x x' old new later f u u' p p' others l l' : ℕ)
    → x' + old + l ≡ x + new + later + l'
    → x ≡ u + (p + (others + l))
    → f ≡ 0
    → u' + f ≡ u + new
    → p' + old ≡ p + later
    → x' ≡ u' + (p' + (others + l'))
balance_left x x' old new later f u u' p p' others l l' a b c d e = omega arith

-- A step of the call that has, or gets, the entry `i`.
pub step-IsConsistent :
    {opens refs : ℕ → ℕ} (w : World) (i : ℕ) (s : Files) (q : Pending) (left : ℕ → ℕ)
    → IsConsistent opens refs w
    → i < nentry
    → ((n : ℕ) → uses n (w.files.fd_array i) ≡ 0)
    → w.held i ≡ 0
    → ((j : ℕ) → j ≢ i → s.fd_array j ≡ w.files.fd_array j)
    → Entry i 0 (s.fd_array i)
    → ((n : ℕ)
        → (s.inodes n).opens + uses n (shadow (w.pending i))
          ≡ (w.files.inodes n).opens + uses n (s.fd_array i) + uses n (shadow q))
    → ((n : ℕ)
        → (s.inodes n).refs + uses n (shadow (w.pending i)) + w.left n
          ≡ (w.files.inodes n).refs + uses n (s.fd_array i) + uses n (shadow q) + left n)
    → s.files_count ≡ w.files.files_count
    → (is_opening q ≡ true → is_init (s.fd_array i).status ≡ true)
    → IsConsistent opens refs
        (record w { files = s; pending = put_pending w.pending i q; left = left })
step-IsConsistent {opens} {refs} w i s q left v lt unused idle same entry o r shared init = record {
  files = record {
    entries = λ j h. elim (Bool-cases (j == i)) [
      | inl e ↦ let at : j ≡ i = ground arith in rw (at, idle) entry
      | inr e ↦ rw (same j (ground arith)) (v.files.entries j h)
    ];
    opened = λ n.
        balance _ _ _ _ _ _ _ _ _ _ _ (o n) (v.files.opened n) (unused n) (table n) (waiting n);
    counted = λ n.
        balance_left _ _ _ _ _ _ _ _ _ _ _ _ _ (r n) (v.files.counted n) (unused n) (table n)
          (waiting n);
    shared = rw shared v.files.shared;
  };
  claimed = λ j h. elim (Bool-cases (j == i)) [
    | inl e ↦ let at : j ≡ i = ground arith in (rw at lt, rw at (init (ground arith)))
    | inr e ↦ let (low, claim) = v.claimed j (rw e at h) in (low, rw (same j (ground arith)) claim)
  ];
}
  where
    table :
        (n : ℕ)
        → users n s.fd_array nentry + uses n (w.files.fd_array i)
          ≡ users n w.files.fd_array nentry + uses n (s.fd_array i)
    table n = users-change n w.files.fd_array s.fd_array i nentry same lt

    waiting :
        (n : ℕ)
        → opening_with (put_pending w.pending i q) n + uses n (shadow (w.pending i))
          ≡ opening_with w.pending n + uses n (shadow q)
    waiting n =
        let here : put_pending w.pending i q i ≡ q = ground arith in
        rw here at (
          users-change n (λ j. shadow (w.pending j)) (λ j. shadow (put_pending w.pending i q j)) i
            nentry (λ j ne. ground arith) lt)
