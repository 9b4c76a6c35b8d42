-- ===== src/Files/Use.antt =====
-- The calls on descriptors on a consistent table: each one ends, and the table stays consistent.
use os_exercises.Base.{
  ℕ, ◌+◌, ◌-◌, ◌%◌, ◌^◌, ◌<◌, ◌≡◌, ◌⊎◌, refl, Bool, true, false, Option, none, some, arith, ◌==◌,
  Bool-cases, inl, inr, done, Error, e_inval,
}
use os_exercises.Files.{
  Status, fd_none, fd_init, fd_opened, fd_closed, File, Files, nentry, testfd, is_none, is_init,
  is_opened, put_file, inode_inc, fd_array_open, fd_array_dup, dup_file, fd2file,
}
use os_exercises.Files.Valid.{
  Counted, put_count, IsValid, put_count-IsValid, Frame, change-Frame, Frame-trans,
}
use os_exercises.Files.Entries.{
  Ends, opened-Counted, used-Counted, kept-IsValid, acquire-Ends, release-Ends, close-Ends,
}
use os_exercises.Files.Alloc.{claimed, fd_array_alloc-cases, opened-IsValid, free-Counted}
use os_exercises.Files.Calls.{begin_use, end_use, file_close, file_dup}

moved-Counted :
    (st : Status) (k : ℕ) (f : File) (p : ℕ) → Counted st k f → Counted st k (record f { pos = p })
moved-Counted fd_none k f p c = c
moved-Counted fd_init k f p c = c
moved-Counted fd_opened k f p c = c
moved-Counted fd_closed k f p c = c

used_not_init : (f : File) (k : ℕ) → 0 < k → Counted f.status k f → is_init f.status ≡ false
used_not_init f k h c = elim (used-Counted f k h c) [
  | inl (e, count) ↦ rw e refl
  | inr (e, count, node) ↦ rw e refl
]

pub free_not_init : (st : Status) → is_none st ≡ true → is_init st ≡ false
free_not_init fd_none h = refl
free_not_init fd_init h = cc
free_not_init fd_opened h = cc
free_not_init fd_closed h = cc

opened_not_free :
    (s : Files) (i j : ℕ)
    → (s.fd_array i).status ≡ fd_opened
    → is_none (s.fd_array j).status ≡ true
    → (i == j) ≡ false
opened_not_free s i j st free = elim (Bool-cases (i == j)) [
  | inr e ↦ e
  | inl e ↦
      let same : i ≡ j = ground arith in
      let clash : is_none (s.fd_array i).status ≡ true = rw same free in cc (rw st at clash)
]

module _ {opens refs held : ℕ → ℕ} {s : Files} (v : IsValid opens refs held s) where
  pub fd2file-cases :
      (fd : ℕ)
      → ((fd2file fd s ≡ done (some fd)) × (fd < nentry) × ((s.fd_array fd).status ≡ fd_opened))
        ⊎ (fd2file fd s ≡ done none)
  unfolding fd2file
  fd2file-cases fd = elim (Bool-cases (testfd fd)) [
    | inr out ↦ inr (ground arith)
    | inl inside ↦ let lt : fd < nentry = ground arith in by_status lt (s.fd_array fd).status refl
  ]
    where
      by_status :
          fd < nentry
          → (st : Status) → (s.fd_array fd).status ≡ st
          → ((fd2file fd s ≡ done (some fd)) × (fd < nentry) × ((s.fd_array fd).status ≡ fd_opened))
            ⊎ (fd2file fd s ≡ done none)
      by_status lt fd_none e = inr (ground (arith, v.shared))
      by_status lt fd_init e = inr (ground (arith, v.shared))
      by_status lt fd_opened e = inl (ground (arith, v.shared, v.entries fd lt), lt, e)
      by_status lt fd_closed e = inr (ground (arith, v.shared))

  -- The table after a use of the entry `i` has begun, if it has.
  pub begin_use-cases :
      (ok : File → Bool) (fd : ℕ)
      → ((s' : Files) × (begin_use ok fd s ≡ done (some fd, s'))
          × (fd < nentry)
          × IsValid opens refs (put_count held fd (held fd + 1)) s'
          × Frame s s')
        ⊎ (begin_use ok fd s ≡ done (none, s))
  unfolding begin_use
  begin_use-cases ok fd = elim (fd2file-cases fd) [
    | inr out ↦ inr (rw out refl)
    | inl (run, lt, st) ↦ elim (Bool-cases (ok (s.fd_array fd))) [
      | inr refused ↦ inr (rw (run, refused) refl)
      | inl admitted ↦
          let (s', acquired, valid, frame) = acquire-Ends fd v lt st in
          inl (s', rw (run, admitted, acquired) refl, lt, valid, frame)
    ]
  ]

  pub end_use-Ends :
      (i copied : ℕ)
      → i < nentry
      → 0 < held i
      → Ends s opens refs (put_count held i (held i - 1)) (end_use i copied s)
  unfolding end_use
  end_use-Ends i copied lt h =
      let f = s.fd_array i in
      let g = record f { pos = (f.pos + copied) % 2 ^ 32 } in
      let moved : IsValid opens refs held (put_file i g s) = put_count-IsValid i (
        kept-IsValid i v lt (held i) g refl (moved-Counted f.status (held i) f _ (v.entries i lt).1)
          (λ n. refl)) in
      let busy : is_init f.status ≡ false = used_not_init f (held i) h (v.entries i lt).1 in
      let step = change-Frame i s (put_file i g s) busy (λ j ne. ground arith) in
      elim (Bool-cases (is_opened f.status)) [
        | inl e ↦
            let (s', run, valid, frame) = release-Ends i moved lt h in
            (s', rw (e, run) refl, valid, Frame-trans s (put_file i g s) s' step frame)
        | inr e ↦
            let (s', run, valid, frame) = release-Ends i v lt h in
            (s', rw (e, run) refl, valid, frame)
      ]

  pub file_close-Ends :
      (fd : ℕ)
      → (r : Option Error) × (s' : Files) × (file_close fd s ≡ done (r, s'))
        × IsValid opens refs held s'
        × Frame s s'
  unfolding file_close
  file_close-Ends fd = elim (fd2file-cases fd) [
    | inr out ↦ (some e_inval, s, rw out refl, v, λ j h. refl)
    | inl (run, lt, st) ↦
        let (s', closed, valid, frame) = close-Ends fd v lt st in
        (none, s', rw (run, closed) refl, valid, frame)
  ]

  dup-Ends :
      (i j : ℕ)
      → i < nentry
      → j < nentry
      → (s.fd_array i).status ≡ fd_opened
      → is_none (s.fd_array j).status ≡ true
      → Ends s opens refs held (fd_array_dup j i (claimed j s))
  unfolding fd_array_dup dup_file fd_array_open
  dup-Ends i j lti ltj st free =
      let (count, (n, node)) = opened-Counted (s.fd_array i) (held i) st (v.entries i lti).1 in
      let apart : (i == j) ≡ false = opened_not_free s i j st free in
      let f = s.fd_array i in
      let t = s.fd_array j in
      let g : File = record {
        status = fd_opened;
        readable = f.readable;
        writable = f.writable;
        fd = t.fd;
        pos = f.pos;
        node = f.node;
        open_count = t.open_count + 1;
      } in
      let s' = put_file j g (record s { inodes = inode_inc n s.inodes }) in
      (
        s',
        ground (arith, apart, st, node, free),
        opened-IsValid v j n g s' ltj free (λ k ne. ground arith) (ground arith) refl refl
            (omega (arith, free-Counted v j ltj free)) node (λ m. ground arith) (λ m. ground arith)
            refl,
        change-Frame j s s' (free_not_init (s.fd_array j).status free) (λ k ne. ground arith),
      )

  pub file_dup-Ends :
      (fd1 fd2 : ℕ)
      → (r : Error ⊎ ℕ) × (s' : Files) × (file_dup fd1 fd2 s ≡ done (r, s'))
        × IsValid opens refs held s'
        × Frame s s'
  unfolding file_dup
  file_dup-Ends fd1 fd2 = elim (fd2file-cases fd1) [
    | inr out ↦ (inl e_inval, s, rw out refl, v, λ j h. refl)
    | inl (found, lt, st) ↦ elim (fd_array_alloc-cases v fd2) [
      | inr (e, run) ↦ (inl e, s, rw (found, run) refl, v, λ j h. refl)
      | inl (j, run, ltj, free) ↦
          let (s', dup, valid, frame) = dup-Ends fd1 j lt ltj st free in
          (inr (s'.fd_array j).fd, s', rw (found, run, dup) refl, valid, frame)
    ]
  ]
