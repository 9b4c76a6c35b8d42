-- ===== src/Files/Alloc.antt =====
-- `fd_array_alloc`: the lowest free entry, or the one asked for.
use mathlib.Core.Path.{subst}
use os_exercises.Base.{
  ℕ, zero, suc, ◌+◌, ◌≤◌, ◌<◌, ◌≡◌, ◌≢◌, ◌⊎◌, refl, sym, true, false, none, some, arith, ◌==◌,
  if◌then◌else◌, Bool-cases, inl, inr, done, Error, e_inval, e_busy, e_max_open,
}
use os_exercises.Files.{
  Status, fd_none, fd_init, fd_opened, fd_closed, File, Files, nentry, no_fd, testfd, is_none,
  put_file, find_free, claim, fd_array_alloc,
}
use os_exercises.Files.Valid.{
  Counted, Entry, uses, put_count, IsValid, change-IsValid, put_count-IsValid,
}

abbrev pub Taken : Files → ℕ → Type 0
Taken s j = is_none (s.fd_array j).status ≡ false

-- The table with the entry `i` claimed.
abbrev pub claimed : ℕ → Files → Files
claimed i s = put_file i (record (s.fd_array i) { status = fd_init; node = none }) s

pub find_free-lowest :
    (n i : ℕ) (fa : ℕ → File)
    → ((j : ℕ) × (find_free n i fa ≡ some j)
        × (i ≤ j)
        × (j < i + n)
        × (is_none (fa j).status ≡ true)
        × ((k : ℕ) → i ≤ k → k < j → is_none (fa k).status ≡ false))
      ⊎ ((find_free n i fa ≡ none) × ((k : ℕ) → i ≤ k → k < i + n → is_none (fa k).status ≡ false))
unfolding find_free
find_free-lowest zero i fa = inr (refl, λ k h l. absurd (omega arith))
find_free-lowest (suc n) i fa = elim (Bool-cases (is_none (fa i).status)) [
  | inl e ↦ inl (i, rw e refl, omega arith, omega arith, e, λ k h l. absurd (omega arith))
  | inr e ↦ elim (find_free-lowest n (i + 1) fa) [
    | inl (j, run, low, high, free, below) ↦ inl (
      j,
      rw (e, run) refl,
      omega arith,
      omega arith,
      free,
      λ k h l. from_next k e (λ le. below k le l) h,
    )
    | inr (run, all) ↦
        inr (rw (e, run) refl, λ k h l. from_next k e (λ le. all k le (omega arith)) h)
  ]
]
  where
    from_next :
        (k : ℕ)
        → is_none (fa i).status ≡ false
        → (i + 1 ≤ k → is_none (fa k).status ≡ false)
        → i ≤ k
        → is_none (fa k).status ≡ false
    from_next k e later h = elim (Bool-cases (k == i)) [
      | inl same ↦ let at : k ≡ i = ground arith in rw at e
      | inr other ↦ later (ground arith)
    ]

none-Counted :
    (f : File) (k : ℕ)
    → is_none f.status ≡ true
    → Counted f.status k f
    → (f.open_count ≡ 0) × (k ≡ 0)
none-Counted f k e c = by_status f.status e c
  where
    by_status : (st : Status) → is_none st ≡ true → Counted st k f → (f.open_count ≡ 0) × (k ≡ 0)
    by_status fd_none e c = c
    by_status fd_init e c = cc
    by_status fd_opened e c = cc
    by_status fd_closed e c = cc

pub uses-free : (n : ℕ) (f : File) → is_none f.status ≡ true → uses n f ≡ 0
uses-free n f e = by_status f.status refl e
  where
    by_status : (st : Status) → f.status ≡ st → is_none st ≡ true → uses n f ≡ 0
    by_status fd_none e h = rw e refl
    by_status fd_init e h = cc
    by_status fd_opened e h = cc
    by_status fd_closed e h = cc

uses-opened :
    (m n : ℕ) (f : File)
    → f.status ≡ fd_opened
    → f.node ≡ some n
    → uses m f ≡ (if m == n then 1 else 0)
uses-opened m n f st node = rw (st, node) refl

module _ {opens refs held : ℕ → ℕ} {s : Files} (v : IsValid opens refs held s) where
  pub free-Counted :
      (j : ℕ)
      → j < nentry
      → is_none (s.fd_array j).status ≡ true
      → ((s.fd_array j).open_count ≡ 0) × (held j ≡ 0)
  free-Counted j lt e = none-Counted (s.fd_array j) (held j) e (v.entries j lt).1

  claim_lem :
      (j : ℕ)
      → j < nentry
      → is_none (s.fd_array j).status ≡ true
      → claim j s ≡ done (inr j, claimed j s)
  unfolding claim
  claim_lem j lt e = ground (arith, free-Counted j lt e)

  -- On a consistent table, `fd_array_alloc(NO_FD)` claims the lowest free entry, and fails with
  -- -E_MAX_OPEN when there is none; it stops the kernel in neither case.
  pub fd_array_alloc-lowest :
      ((j : ℕ) × (fd_array_alloc no_fd s ≡ done (inr j, claimed j s))
        × (j < nentry)
        × (is_none (s.fd_array j).status ≡ true)
        × ((k : ℕ) → k < j → Taken s k))
      ⊎ ((fd_array_alloc no_fd s ≡ done (inl e_max_open, s)) × ((k : ℕ) → k < nentry → Taken s k))
  unfolding fd_array_alloc
  fd_array_alloc-lowest = elim (find_free-lowest nentry 0 s.fd_array) [
    | inl (j, run, low, high, free, below) ↦ inl (
      j,
      ground (arith, v.shared, claim_lem j high free),
      high,
      free,
      λ k h. below k (omega arith) h,
    )
    | inr (run, all) ↦ inr (ground (arith, v.shared), λ k h. all k (omega arith) h)
  ]

  -- Whatever is asked for, the call ends, and what it claims was free.
  pub fd_array_alloc-cases :
      (fd : ℕ)
      → ((j : ℕ) × (fd_array_alloc fd s ≡ done (inr j, claimed j s))
          × (j < nentry)
          × (is_none (s.fd_array j).status ≡ true))
        ⊎ ((e : Error) × (fd_array_alloc fd s ≡ done (inl e, s)))
  unfolding fd_array_alloc
  fd_array_alloc-cases fd = elim (Bool-cases (fd == no_fd)) [
    | inl any ↦
        let at : fd ≡ no_fd = ground arith in
        rw at (elim fd_array_alloc-lowest [
          | inl (j, run, lt, free, below) ↦ inl (j, run, lt, free)
          | inr (run, all) ↦ inr (e_max_open, run)
        ])
    | inr one ↦ elim (Bool-cases (testfd fd)) [
      | inr out ↦ inr (e_inval, ground (arith, v.shared))
      | inl inside ↦ elim (Bool-cases (is_none (s.fd_array fd).status)) [
        | inr busy ↦ inr (e_busy, ground (arith, v.shared))
        | inl free ↦
            let lt : fd < nentry = ground arith in
            inl (fd, ground (arith, v.shared, claim_lem fd lt free), lt, free)
      ]
    ]
  ]

  -- The table with the free entry `j` opened as `g` on the inode `n`, whose counts went up.
  pub opened-IsValid :
      (j n : ℕ) (g : File) (s' : Files)
      → j < nentry
      → is_none (s.fd_array j).status ≡ true
      → ((k : ℕ) → k ≢ j → s'.fd_array k ≡ s.fd_array k)
      → s'.fd_array j ≡ g
      → g.fd ≡ (s.fd_array j).fd
      → g.status ≡ fd_opened
      → g.open_count ≡ 1
      → g.node ≡ some n
      → ((m : ℕ) → (s'.inodes m).opens ≡ (s.inodes m).opens + (if m == n then 1 else 0))
      → ((m : ℕ) → (s'.inodes m).refs ≡ (s.inodes m).refs + (if m == n then 1 else 0))
      → s'.files_count ≡ s.files_count
      → IsValid opens refs held s'
  opened-IsValid j n g s' lt free same at fd st count node o r shared =
      let unused : 0 ≡ held j = omega (arith, free-Counted j lt free) in
      put_count-IsValid j (
        subst (λ k. IsValid opens refs (put_count held j k) s') unused
          (change-IsValid j 0 s' v lt same (rw at entry)
            (λ m.
              rw at (
                omega
                  (arith, o m, r m, uses-free m (s.fd_array j) free, uses-opened m n g st node)))
            shared))
    where
      entry : Entry j 0 g
      entry = (
        ground (arith, v.entries j lt),
        subst (λ x. Counted x 0 g) (sym st) (omega (arith, count), ground (arith, node)),
      )
