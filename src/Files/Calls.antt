-- ===== src/Files/Calls.antt =====
-- The calls on descriptors of kern/fs/file.c. What the file system answers is an argument: `vop_*`
-- of an inode, and `vfs_open`.
use os_exercises.Base.{
  ℕ, ◌+◌, ◌%◌, ◌^◌, ◌⊎◌, inl, inr, Bool, true, false, not, Option, none, some, ◌==◌, ◌&&◌, bit_and,
  if◌then◌else◌, Outcome, done, ◌>>=◌, Error, e_inval,
}
use os_exercises.Files.{
  File, Files, Inodes, no_fd, is_opened, put_file, fd_array_alloc, fd_array_free, fd_array_acquire,
  fd_array_release, fd_array_open, fd_array_close, fd_array_dup, fd2file, vfs_close,
}

abbrev pub o_accmode : ℕ
o_accmode = 3

abbrev pub o_append : ℕ
o_append = 0x20

-- The switch of `file_open`: may the file be read, and written? `none` for -E_INVAL.
abbrev pub access_mode : ℕ → Option (Bool × Bool)
access_mode flags =
    let m = bit_and flags o_accmode in
    if m == 0
    then some (true, false)
    else if m == 1
    then some (false, true)
    else if m == 2
    then some (true, true)
    else none

abbrev pub test_file : Bool → Bool → Option ℕ → Files → Bool
test_file r w none s = false
test_file r w (some i) s =
    not (r && not (s.fd_array i).readable) && not (w && not (s.fd_array i).writable)

unfoldable pub file_testfd : ℕ → Bool → Bool → Files → Outcome Bool
file_testfd fd r w s = do found ← fd2file fd s; done (test_file r w found s)

-- `file_open` from `file->node = node` on.
abbrev pub fill : ℕ → ℕ → ℕ → Bool × Bool → Files → Outcome ((Error ⊎ ℕ) × Files)
fill i n pos mode s = do
  s' ← fd_array_open i (
      put_file i
        (record (s.fd_array i) { pos = pos; node = some n; readable = mode.0; writable = mode.1 })
        s)
  done (inr (s'.fd_array i).fd, s')

-- `file_open` where the size is asked for and `vop_fstat` fails.
abbrev pub undo : ℕ → ℕ → Error → Files → Outcome ((Error ⊎ ℕ) × Files)
undo i n e s = do
  ns ← vfs_close (some n) s.inodes
  s' ← fd_array_free i (record s { inodes = ns })
  done (inl e, s')

module _ (vfs_open : ℕ → Inodes → (Error ⊎ ℕ) × Inodes) (vop_fstat : ℕ → Error ⊎ ℕ) where
  abbrev pub with_size : ℕ → ℕ → Error ⊎ ℕ → Bool × Bool → Files → Outcome ((Error ⊎ ℕ) × Files)
  with_size i n (inl e) mode s = undo i n e s
  with_size i n (inr size) mode s = fill i n size mode s

  -- `file_open` after `vfs_open`.
  abbrev pub with_node : ℕ → ℕ → Bool × Bool → Error ⊎ ℕ → Files → Outcome ((Error ⊎ ℕ) × Files)
  with_node flags i mode (inl e) s = do s' ← fd_array_free i s; done (inl e, s')
  with_node flags i mode (inr n) s =
      if bit_and flags o_append == 0 then fill i n 0 mode s else with_size i n (vop_fstat n) mode s

  -- `file_open` after `fd_array_alloc`.
  abbrev pub with_entry : ℕ → Bool × Bool → (Error ⊎ ℕ) × Files → Outcome ((Error ⊎ ℕ) × Files)
  with_entry flags mode (inl e, s) = done (inl e, s)
  with_entry flags mode (inr i, s) =
      let (opened, ns) = vfs_open flags s.inodes in
      with_node flags i mode opened (record s { inodes = ns })

  abbrev pub with_mode : ℕ → Option (Bool × Bool) → Files → Outcome ((Error ⊎ ℕ) × Files)
  with_mode flags none s = done (inl e_inval, s)
  with_mode flags (some mode) s = fd_array_alloc no_fd s >>= with_entry flags mode

  unfoldable pub file_open : ℕ → Files → Outcome ((Error ⊎ ℕ) × Files)
  file_open flags s = with_mode flags (access_mode flags) s

abbrev pub close_found : Option ℕ → Files → Outcome (Option Error × Files)
close_found none s = done (some e_inval, s)
close_found (some i) s = do s' ← fd_array_close i s; done (none, s')

unfoldable pub file_close : ℕ → Files → Outcome (Option Error × Files)
file_close fd s = do found ← fd2file fd s; close_found found s

-- The first half of the calls that use an open file: find, test and acquire.
abbrev pub acquire_found : (File → Bool) → Option ℕ → Files → Outcome (Option ℕ × Files)
acquire_found ok none s = done (none, s)
acquire_found ok (some i) s =
    if ok (s.fd_array i) then (do s' ← fd_array_acquire i s; done (some i, s')) else done (none, s)

unfoldable pub begin_use : (File → Bool) → ℕ → Files → Outcome (Option ℕ × Files)
begin_use ok fd s = do found ← fd2file fd s; acquire_found ok found s

-- The second half of `file_read` and `file_write`, after `copied` bytes.
unfoldable pub end_use : ℕ → ℕ → Files → Outcome Files
end_use i copied s =
    let f = s.fd_array i in
    fd_array_release i (
      if is_opened f.status then put_file i (record f { pos = (f.pos + copied) % 2 ^ 32 }) s else s)

-- `vop_read` or `vop_write` on the inode at the position: the error, and the bytes copied.
abbrev pub transfer :
    (Option ℕ → ℕ → Option Error × ℕ) → Option ℕ × Files → Outcome (Option Error × ℕ × Files)
transfer vop (none, s) = done (some e_inval, 0, s)
transfer vop (some i, s) =
    let (ret, copied) = vop (s.fd_array i).node (s.fd_array i).pos in
    do s' ← end_use i copied s; done (ret, copied, s')

unfoldable pub file_read :
    (Option ℕ → ℕ → Option Error × ℕ) → ℕ → Files → Outcome (Option Error × ℕ × Files)
file_read vop fd s = begin_use (λ f. f.readable) fd s >>= transfer vop

unfoldable pub file_write :
    (Option ℕ → ℕ → Option Error × ℕ) → ℕ → Files → Outcome (Option Error × ℕ × Files)
file_write vop fd s = begin_use (λ f. f.writable) fd s >>= transfer vop

-- The new position of `file_seek`, from the position and the answer of `vop_fstat`.
abbrev pub target : ℕ → ℕ → ℕ → Error ⊎ ℕ → Error ⊎ ℕ
target whence pos old size =
    if whence == 0
    then inr pos
    else if whence == 1
    then inr ((pos + old) % 2 ^ 32)
    else if whence == 2
    then elim size [ inl e ↦ inl e | inr n ↦ inr ((pos + n) % 2 ^ 32) ]
    else inl e_inval

module _ (vop_fstat : Option ℕ → Error ⊎ ℕ) (vop_tryseek : Option ℕ → ℕ → Option Error) where
  abbrev pub sought : Option Error → ℕ → ℕ → Files → Outcome (Option Error × Files)
  sought none i p s = do
    s' ← fd_array_release i (put_file i (record (s.fd_array i) { pos = p }) s)
    done (none, s')
  sought (some e) i p s = do s' ← fd_array_release i s; done (some e, s')

  abbrev pub seek_to : Error ⊎ ℕ → ℕ → Files → Outcome (Option Error × Files)
  seek_to (inl e) i s = do s' ← fd_array_release i s; done (some e, s')
  seek_to (inr p) i s = sought (vop_tryseek (s.fd_array i).node p) i p s

  abbrev pub seek_found : ℕ → ℕ → Option ℕ × Files → Outcome (Option Error × Files)
  seek_found pos whence (none, s) = done (some e_inval, s)
  seek_found pos whence (some i, s) =
      let f = s.fd_array i in seek_to (target whence pos f.pos (vop_fstat f.node)) i s

  unfoldable pub file_seek : ℕ → ℕ → ℕ → Files → Outcome (Option Error × Files)
  file_seek fd pos whence s = begin_use (λ f. true) fd s >>= seek_found pos whence

-- `file_fstat` and `file_fsync`: the inode's operation between acquire and release.
abbrev pub operate : (Option ℕ → Option Error) → Option ℕ × Files → Outcome (Option Error × Files)
operate vop (none, s) = done (some e_inval, s)
operate vop (some i, s) = do s' ← fd_array_release i s; done (vop (s.fd_array i).node, s')

unfoldable pub file_fstat : (Option ℕ → Option Error) → ℕ → Files → Outcome (Option Error × Files)
file_fstat vop fd s = begin_use (λ f. true) fd s >>= operate vop

unfoldable pub file_fsync : (Option ℕ → Option Error) → ℕ → Files → Outcome (Option Error × Files)
file_fsync vop fd s = begin_use (λ f. true) fd s >>= operate vop

abbrev pub dup_into : ℕ → (Error ⊎ ℕ) × Files → Outcome ((Error ⊎ ℕ) × Files)
dup_into i (inl e, s) = done (inl e, s)
dup_into i (inr j, s) = do s' ← fd_array_dup j i s; done (inr (s'.fd_array j).fd, s')

abbrev pub dup_found : Option ℕ → ℕ → Files → Outcome ((Error ⊎ ℕ) × Files)
dup_found none fd2 s = done (inl e_inval, s)
dup_found (some i) fd2 s = fd_array_alloc fd2 s >>= dup_into i

unfoldable pub file_dup : ℕ → ℕ → Files → Outcome ((Error ⊎ ℕ) × Files)
file_dup fd1 fd2 s = do found ← fd2file fd1 s; dup_found found fd2 s
