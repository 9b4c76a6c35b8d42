-- ===== src/Files/Duplicate.antt =====
-- `dup_fs` of kern/fs/fs.c, which fills a new table with the open entries of another. The working
-- directory is left out.
use os_exercises.Base.{
  ℕ, zero, suc, ◌+◌, ◌≤◌, ◌<◌, ◌≡◌, refl, true, arith, ltb, ◌==◌, ◌&&◌, Bool-cases, if◌then◌else◌,
  inl, inr, Outcome, done, ◌>>=◌, ◌>>◌, assert,
}
use os_exercises.Files.{
  Status, fd_none, fd_init, fd_opened, fd_closed, File, Files, nentry, is_opened, put_file,
  inode_inc, dup_file, fd_array_open,
}
use os_exercises.Files.Valid.{Entry, IsValid}
use os_exercises.Files.Entries.{opened-Counted}

-- The loop over the `n` entries from `i` on.
unfoldable pub dup_entries : ℕ → ℕ → (ℕ → File) → Files → Outcome Files
dup_entries zero i from to = done to
dup_entries (suc n) i from to = do
  to' ←
      if is_opened (from i).status
      then dup_file i (from i) (put_file i (record (to.fd_array i) { status = fd_init }) to)
      else done to
  dup_entries n (i + 1) from to'

-- The inodes are those of the table `to`.
unfoldable pub dup_fs : Files → Files → Outcome Files
dup_fs to from =
    assert (to.files_count == 0 && ltb 0 from.files_count) >> dup_entries nentry 0 from.fd_array to

opened_status : (st : Status) → is_opened st ≡ true → st ≡ fd_opened
opened_status fd_none e = cc
opened_status fd_init e = cc
opened_status fd_opened e = refl
opened_status fd_closed e = cc

-- The entry of the new table.
abbrev duplicate : File → File → File
duplicate t f = record t {
  pos = f.pos;
  readable = f.readable;
  writable = f.writable;
  node = f.node;
  status = fd_init;
}

abbrev duplicated : ℕ → ℕ → File → Files → Files
duplicated i n f to =
    let t = to.fd_array i in
    let s = put_file i (record t { status = fd_init }) to in
    put_file i (record (duplicate t f) { status = fd_opened; open_count = t.open_count + 1 })
      (put_file i (duplicate t f) (record s { inodes = inode_inc n to.inodes }))

dup_file-run :
    (i k : ℕ) (f : File) (to : Files)
    → Entry i k f
    → is_opened f.status ≡ true
    → (n : ℕ) × (dup_file i f (put_file i (record (to.fd_array i) { status = fd_init }) to)
        ≡ done (duplicated i n f to))
unfolding dup_file fd_array_open
dup_file-run i k f to c e =
    let (_, (n, node)) = opened-Counted f k (opened_status f.status e) c.1 in (n, ground arith)

dup_entries-run :
    (n i : ℕ) (held : ℕ → ℕ) (from : ℕ → File) (to : Files)
    → i + n ≤ nentry
    → ((j : ℕ) → j < nentry → Entry j (held j) (from j))
    → (to' : Files) × (dup_entries n i from to ≡ done to')
unfolding dup_entries
dup_entries-run zero i held from to h entries = (to, refl)
dup_entries-run (suc n) i held from to h entries = elim (Bool-cases (is_opened (from i).status)) [
  | inl e ↦
      let (m, run) = dup_file-run i (held i) (from i) to (entries i (omega arith)) e in
      let (to', later) =
        dup_entries-run n (i + 1) held from (duplicated i m (from i) to) (omega arith) entries in
      (to', rw (dup_entries, e, run, later) refl)
  | inr e ↦
      let (to', later) = dup_entries-run n (i + 1) held from to (omega arith) entries in
      (to', rw (dup_entries, e, later) refl)
]

-- A consistent table that has a user is copied without a failed assertion.
pub dup_fs-run :
    {opens refs held : ℕ → ℕ} (to from : Files)
    → to.files_count ≡ 0
    → IsValid opens refs held from
    → (to' : Files) × (dup_fs to from ≡ done to')
unfolding dup_fs
dup_fs-run {held = held} to from unused v =
    let (to', run) = dup_entries-run nentry 0 held from.fd_array to (omega arith) v.entries in
    let free : (to.files_count == 0) ≡ true = ground arith in
    let shared : ltb 0 from.files_count ≡ true = ground (arith, v.shared) in
    (to', rw (free, shared, run) refl)
