-- ===== src/Files/Destroy.antt =====
-- `files_destroy` of kern/fs/fs.c, for a table that has lost its last user. The reference on the
-- working directory is left out.
use os_exercises.Base.{
  ℕ, zero, suc, ◌+◌, ◌-◌, ◌≤◌, ◌<◌, ◌≡◌, refl, false, true, arith, ◌==◌, Bool-cases, if◌then◌else◌,
  inl, inr, Outcome, done, ◌>>=◌, ◌>>◌, assert,
}
use os_exercises.Files.{
  Status, fd_none, fd_init, fd_opened, fd_closed, File, Files, nentry, is_none, is_init, is_opened,
  put_file, fd_array_close,
}
use os_exercises.Files.Valid.{Counted, uses, IsValid}
use os_exercises.Files.Entries.{opened-Counted, freed, free_last, holds, close-Ends}

-- The loop over the `n` entries from `i` on.
unfoldable pub destroy_entries : ℕ → ℕ → Files → Outcome Files
destroy_entries zero i s = done s
destroy_entries (suc n) i s = do
  s' ← if is_opened (s.fd_array i).status then fd_array_close i s else done s
  assert (is_none (s'.fd_array i).status)
  destroy_entries n (i + 1) s'

-- For a table with `count` users.
unfoldable pub files_destroy : ℕ → Files → Outcome Files
files_destroy count s = assert (count == 0) >> destroy_entries nentry 0 s

-- A consistent table that no unfinished call uses: no entry is claimed, and none is in use.
pub record IsAtRest (opens refs : ℕ → ℕ) (s : Files) : Type 0 where
  pub consistent : IsValid opens refs (λ i. 0) s
  pub unclaimed : (i : ℕ) → i < nentry → is_init (s.fd_array i).status ≡ false

free_entry :
    (st : Status) (f : File)
    → Counted st 0 f
    → is_init st ≡ false
    → is_opened st ≡ false
    → is_none st ≡ true
free_entry fd_none f c i o = refl
free_entry fd_init f c i o = cc
free_entry fd_opened f c i o = cc
free_entry fd_closed f c i o = absurd (omega (arith, c.1))

opened_status : (st : Status) → is_opened st ≡ true → st ≡ fd_opened
opened_status fd_none e = cc
opened_status fd_init e = cc
opened_status fd_opened e = refl
opened_status fd_closed e = cc

module _ {opens refs : ℕ → ℕ} (s : Files) (i : ℕ) (rest : IsAtRest opens refs s) (lt : i < nentry)
    (e : (s.fd_array i).status ≡ fd_opened) where
  close_last :
      (n : ℕ) × (fd_array_close i s
        ≡ done (
            freed i n (
              put_file i
                (record (s.fd_array i) {
                  status = fd_closed;
                  open_count = (s.fd_array i).open_count - 1;
                })
                s)))
  unfolding fd_array_close
  close_last =
      let f = s.fd_array i in
      let (count, (n, node)) = opened-Counted f 0 e (rest.consistent.entries i lt).1 in
      let g = record f { status = fd_closed; open_count = f.open_count - 1 } in
      let one : uses n f ≡ 1 = ground arith in
      let positive = holds i rest.consistent lt n one in
      let run =
        free_last i n (put_file i g s) (ground arith) (ground arith) (ground arith) (ground arith)
          (ground arith) in
      (n, ground (arith, run))

  close-IsAtRest :
      (s' : Files) × (fd_array_close i s ≡ done s')
      × IsAtRest opens refs s'
      × (is_none (s'.fd_array i).status ≡ true)
  close-IsAtRest =
      let (n, run) = close_last in
      let (s', run', v, _) = close-Ends i rest.consistent lt e in
      let f = s.fd_array i in
      let g = record f { status = fd_closed; open_count = f.open_count - 1 } in
      let same : s' ≡ freed i n (put_file i g s) = cc (run, run') in
      (
        s',
        run',
        record {
          consistent = v;
          unclaimed = λ j h. rw same (elim (Bool-cases (j == i)) [
            | inl at ↦ ground arith
            | inr other ↦ ground (arith, rest.unclaimed j h)
          ]);
        },
        rw same (ground arith),
      )

destroy_entries-run :
    {opens refs : ℕ → ℕ} (n i : ℕ) (s : Files)
    → i + n ≤ nentry
    → IsAtRest opens refs s
    → (s' : Files) × (destroy_entries n i s ≡ done s') × IsAtRest opens refs s'
unfolding destroy_entries
destroy_entries-run zero i s h rest = (s, refl, rest)
destroy_entries-run (suc n) i s h rest =
    let lt : i < nentry = omega arith in
    elim (Bool-cases (is_opened (s.fd_array i).status)) [
      | inl e ↦
          let (s1, run, rest1, free) =
            close-IsAtRest s i rest lt (opened_status (s.fd_array i).status e) in
          let (s', later, rest') = destroy_entries-run n (i + 1) s1 (omega arith) rest1 in
          (s', rw (destroy_entries, e, run, free, later) refl, rest')
      | inr e ↦
          let free =
            free_entry (s.fd_array i).status (s.fd_array i) (rest.consistent.entries i lt).1
              (rest.unclaimed i lt) e in
          let (s', later, rest') = destroy_entries-run n (i + 1) s (omega arith) rest in
          (s', rw (destroy_entries, e, free, later) refl, rest')
    ]

pub files_destroy-run :
    {opens refs : ℕ → ℕ} (s : Files)
    → IsAtRest opens refs s
    → (s' : Files) × (files_destroy 0 s ≡ done s')
unfolding files_destroy
files_destroy-run s rest =
    let (s', run, _) = destroy_entries-run nentry 0 s (omega arith) rest in (s', rw run refl)
