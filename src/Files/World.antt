-- ===== src/Files/World.antt =====
-- Calls of several processes that share one table, in any order. A call that waits for the file
-- system is several steps: `file_read` acquires the entry and releases it, and `file_open` claims
-- the entry, gets the answer of `vfs_open`, and may have to ask for the size.
use os_exercises.Base.{
  ℕ, ◌+◌, ◌-◌, ◌⊎◌, inl, inr, Bool, Option, none, some, List, [], ◌∷◌, ltb, ◌==◌, ◌&&◌, bit_and,
  if◌then◌else◌, Outcome, done, ◌>>=◌, Error,
}
use os_exercises.Files.{File, Inodes, Files, nentry, no_fd, fd_array_alloc}
use os_exercises.Files.Valid.{put_count}
use os_exercises.Files.Calls.{
  o_append, access_mode, with_size, with_node, begin_use, end_use, file_close, file_dup,
}

-- What a call of `file_open` that has claimed the entry waits for: nothing, `vfs_open`, or
-- `vop_fstat` on the inode that was found.
pub data Pending : Type 0 where
  not_opening : Pending
  looking_up : (flags : ℕ) (mode : Bool × Bool) → Pending
  asking_size : (mode : Bool × Bool) (n : ℕ) → Pending

pub data Call : Type 0 where
  opening : (flags : ℕ) → Call
  -- `vfs_open`, or `vop_fstat`, answers the call that has claimed the entry `i`.
  found : (i : ℕ) → Call
  sized : (i : ℕ) → Call
  closing : (fd : ℕ) → Call
  duplicating : (fd1 fd2 : ℕ) → Call
  -- A use of a descriptor begins, if the file passes the test.
  beginning : (ok : File → Bool) (fd : ℕ) → Call
  -- A use of the entry `i` that has begun ends, after `copied` bytes.
  ending : (i copied : ℕ) → Call

-- The table, how many unfinished calls use each entry, the unfinished calls of `file_open`, and how
-- many references calls of `vfs_open` that failed have left on each inode.
pub record World : Type 0 where
  pub files : Files
  pub held : ℕ → ℕ
  pub pending : ℕ → Pending
  pub left : ℕ → ℕ

abbrev pub put_pending : (ℕ → Pending) → ℕ → Pending → ℕ → Pending
put_pending f i q j = if j == i then q else f j

abbrev pub settled : World → ℕ → Files → World
settled w i s = record w { files = s; pending = put_pending w.pending i not_opening }

abbrev pub claimed_by : ℕ → Bool × Bool → World → (Error ⊎ ℕ) × Files → World
claimed_by flags mode w (inl e, s) = record w { files = s }
claimed_by flags mode w (inr i, s) = record w {
  files = s;
  pending = put_pending w.pending i (looking_up flags mode);
}

abbrev pub begun : World → Option ℕ × Files → World
begun w (none, s) = record w { files = s }
begun w (some i, s) = record w { files = s; held = put_count w.held i (w.held i + 1) }

module _ (vfs_open : ℕ → Inodes → (Error ⊎ ℕ) × Inodes) (vop_fstat : ℕ → Error ⊎ ℕ) where
  abbrev pub answered : World → ℕ → ℕ → Bool × Bool → (Error ⊎ ℕ) × Inodes → Outcome World
  answered w i flags mode (inl e, ns) = do
    r ← with_node vfs_open vop_fstat flags i mode (inl e) (record w.files { inodes = ns })
    done (record (settled w i r.1) {
      left = λ m. w.left m + ((ns m).refs - (w.files.inodes m).refs);
    })
  answered w i flags mode (inr n, ns) =
      let s = record w.files { inodes = ns } in
      if bit_and flags o_append == 0
      then (with_node vfs_open vop_fstat flags i mode (inr n) s >>= λ r. done (settled w i r.1))
      else done (record w { files = s; pending = put_pending w.pending i (asking_size mode n) })

  abbrev pub continue : World → ℕ → Pending → Outcome World
  continue w i not_opening = done w
  continue w i (looking_up flags mode) = answered w i flags mode (vfs_open flags w.files.inodes)
  continue w i (asking_size mode n) = done w

  abbrev pub complete : World → ℕ → Pending → Outcome World
  complete w i not_opening = done w
  complete w i (looking_up flags mode) = done w
  complete w i (asking_size mode n) =
      with_size vfs_open vop_fstat i n (vop_fstat n) mode w.files >>= λ r. done (settled w i r.1)

  abbrev pub open_begin : World → ℕ → Option (Bool × Bool) → Outcome World
  open_begin w flags none = done w
  open_begin w flags (some mode) =
      fd_array_alloc no_fd w.files >>= λ r. done (claimed_by flags mode w r)

  -- An end without a beginning does not happen.
  unfoldable pub perform : Call → World → Outcome World
  perform (opening flags) w = open_begin w flags (access_mode flags)
  perform (found i) w = continue w i (w.pending i)
  perform (sized i) w = complete w i (w.pending i)
  perform (closing fd) w = do r ← file_close fd w.files; done (record w { files = r.1 })
  perform (duplicating fd1 fd2) w = do r ← file_dup fd1 fd2 w.files; done (record w { files = r.1 })
  perform (beginning ok fd) w = do r ← begin_use ok fd w.files; done (begun w r)
  perform (ending i copied) w =
      if ltb i nentry && ltb 0 (w.held i)
      then (do
        s ← end_use i copied w.files
        done (record w { files = s; held = put_count w.held i (w.held i - 1) }))
      else done w

  unfoldable pub perform_all : List Call → World → Outcome World
  perform_all [] w = done w
  perform_all (c ∷ cs) w = perform c w >>= perform_all cs
