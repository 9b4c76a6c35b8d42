-- ===== src/Files.antt =====
-- The table of open files of a process group (kern/fs/file.c, kern/fs/fs.c), with the counts of the
-- inodes that it refers to (kern/fs/vfs/inode.c). An inode is a number that stands for its address.
-- Counts are bounded by the number of processes and do not overflow.
pub mod Alloc
pub mod Calls
pub mod Destroy
pub mod Duplicate
pub mod Entries
pub mod Open
pub mod Pending
mod Tests
pub mod Trace
pub mod Use
pub mod Valid
pub mod World
use os_exercises.Base.{
  ℕ, zero, suc, ◌+◌, ◌-◌, ◌%◌, ◌^◌, ◌⊎◌, inl, inr, Bool, true, false, not, Option, none, some, ltb,
  ◌==◌, ◌&&◌, ◌||◌, if◌then◌else◌, is_some, Outcome, done, panic, ◌>>=◌, ◌>>◌, assert, Error,
  e_inval, e_busy, e_max_open,
}

pub data Status : Type 0 where
  fd_none fd_init fd_opened fd_closed : Status

-- `struct file`.
pub record File : Type 0 where
  pub status : Status
  pub readable : Bool
  pub writable : Bool
  pub fd : ℕ
  pub pos : ℕ
  pub node : Option ℕ
  pub open_count : ℕ

-- The counts of `struct inode`.
pub record Inode : Type 0 where
  pub refs : ℕ
  pub opens : ℕ

abbrev pub Inodes : Type 0
Inodes = ℕ → Inode

-- `struct files_struct`, with the inodes.
pub record Files : Type 0 where
  pub fd_array : ℕ → File
  pub files_count : ℕ
  pub inodes : Inodes

-- FILES_STRUCT_NENTRY: a page less 24 bytes of `struct files_struct`, in entries of 28 bytes.
abbrev pub nentry : ℕ
nentry = 145

-- NO_FD. Descriptors are `int`, in two's complement.
abbrev pub no_fd : ℕ
no_fd = 2 ^ 32 - 0x9527

abbrev pub testfd : ℕ → Bool
testfd fd = ltb fd (2 ^ 31) && ltb fd nentry

abbrev pub is_none : Status → Bool
is_none s = elim s [ fd_none ↦ true | _ ↦ false ]

abbrev pub is_init : Status → Bool
is_init s = elim s [ fd_init ↦ true | _ ↦ false ]

abbrev pub is_opened : Status → Bool
is_opened s = elim s [ fd_opened ↦ true | _ ↦ false ]

abbrev pub is_closed : Status → Bool
is_closed s = elim s [ fd_closed ↦ true | _ ↦ false ]

abbrev pub put_file : ℕ → File → Files → Files
put_file i f s = record s { fd_array = λ j. if j == i then f else s.fd_array j }

abbrev pub put_inode : ℕ → Inode → Inodes → Inodes
put_inode n c ns m = if m == n then c else ns m

-- `vop_ref_inc` and `vop_open_inc`.
abbrev pub inode_inc : ℕ → Inodes → Inodes
inode_inc n ns = put_inode n (record { refs = (ns n).refs + 1; opens = (ns n).opens + 1 }) ns

-- `vfs_close`: `vop_open_dec` and `vop_ref_dec`; the file system's own work on an inode whose
-- count gets to 0 is left out.
unfoldable pub vfs_close : Option ℕ → Inodes → Outcome Inodes
vfs_close none ns = panic
vfs_close (some n) ns = do
  assert (ltb 0 (ns n).opens)
  assert (ltb 0 (ns n).refs)
  done (put_inode n (record { refs = (ns n).refs - 1; opens = (ns n).opens - 1 }) ns)

-- `fd_array_init` writes the entries below FILES_STRUCT_NENTRY.
unfoldable pub fd_array_init : (ℕ → File) → ℕ → File
fd_array_init old i =
    if ltb i nentry then record (old i) { open_count = 0; status = fd_none; fd = i } else old i

-- The loop of `fd_array_alloc` over the `n` entries from `i` on.
unfoldable pub find_free : ℕ → ℕ → (ℕ → File) → Option ℕ
find_free zero i fa = none
find_free (suc n) i fa =
    let later = find_free n (i + 1) fa in if is_none (fa i).status then some i else later

-- `found:` in `fd_array_alloc`.
unfoldable pub claim : ℕ → Files → Outcome ((Error ⊎ ℕ) × Files)
claim i s = do
  assert ((s.fd_array i).open_count == 0)
  done (inr i, put_file i (record (s.fd_array i) { status = fd_init; node = none }) s)

abbrev pub claim_found : Option ℕ → Files → Outcome ((Error ⊎ ℕ) × Files)
claim_found none s = done (inl e_max_open, s)
claim_found (some i) s = claim i s

unfoldable pub fd_array_alloc : ℕ → Files → Outcome ((Error ⊎ ℕ) × Files)
fd_array_alloc fd s = do
  assert (ltb 0 s.files_count)
  if fd == no_fd
      then claim_found (find_free nentry 0 s.fd_array) s
      else if testfd fd
      then (if is_none (s.fd_array fd).status then claim fd s else done (inl e_busy, s))
      else done (inl e_inval, s)

unfoldable pub fd_array_free : ℕ → Files → Outcome Files
fd_array_free i s =
    let f = s.fd_array i in
    do
      assert (is_init f.status || is_closed f.status)
      assert (f.open_count == 0)
      ns ← if is_closed f.status then vfs_close f.node s.inodes else done s.inodes
      done (put_file i (record f { status = fd_none }) (record s { inodes = ns }))

unfoldable pub fd_array_acquire : ℕ → Files → Outcome Files
fd_array_acquire i s =
    let f = s.fd_array i in
    do assert (is_opened f.status); done (put_file i (record f { open_count = f.open_count + 1 }) s)

unfoldable pub fd_array_release : ℕ → Files → Outcome Files
fd_array_release i s =
    let f = s.fd_array i in
    let s' = put_file i (record f { open_count = f.open_count - 1 }) s in
    do
      assert (is_opened f.status || is_closed f.status)
      assert (ltb 0 f.open_count)
      if f.open_count - 1 == 0 then fd_array_free i s' else done s'

unfoldable pub fd_array_open : ℕ → Files → Outcome Files
fd_array_open i s =
    let f = s.fd_array i in
    do
      assert (is_init f.status && is_some f.node)
      done (put_file i (record f { status = fd_opened; open_count = f.open_count + 1 }) s)

unfoldable pub fd_array_close : ℕ → Files → Outcome Files
fd_array_close i s =
    let f = s.fd_array i in
    let s' = put_file i (record f { status = fd_closed; open_count = f.open_count - 1 }) s in
    do
      assert (is_opened f.status)
      assert (ltb 0 f.open_count)
      if f.open_count - 1 == 0 then fd_array_free i s' else done s'

-- `vop_ref_inc(node), vop_open_inc(node)`; a fault on NULL.
abbrev pub inc_node : Option ℕ → Inodes → Outcome Inodes
inc_node none ns = panic
inc_node (some n) ns = done (inode_inc n ns)

-- `fd_array_dup` from the entry `f`, which may be one of another table.
unfoldable pub dup_file : ℕ → File → Files → Outcome Files
dup_file to f s =
    let t = s.fd_array to in
    do
      assert (is_init t.status && is_opened f.status)
      ns ← inc_node f.node s.inodes
      fd_array_open to (
          put_file to
            (record t { pos = f.pos; readable = f.readable; writable = f.writable; node = f.node })
            (record s { inodes = ns }))

unfoldable pub fd_array_dup : (to from : ℕ) → Files → Outcome Files
fd_array_dup to from s = dup_file to (s.fd_array from) s

-- `fd2file`: the entry of an open descriptor; `none` for -E_INVAL.
unfoldable pub fd2file : ℕ → Files → Outcome (Option ℕ)
fd2file fd s =
    if testfd fd
    then (do
      assert (ltb 0 s.files_count)
      if is_opened (s.fd_array fd).status && (s.fd_array fd).fd == fd
          then done (some fd)
          else done none)
    else done none
