-- ===== src/Sfs/Resize.antt =====
-- The length of a file: `sfs_truncfile`. A length is a word of 32 bits, whose upper half is the
-- negative lengths.
use os_exercises.Base.{
  ℕ, zero, suc, ◌+◌, ◌-◌, ◌/◌, true, none, some, ltb, leb, ◌==◌, ◌||◌, if◌then◌else◌, Outcome, done,
  ◌>>=◌, ◌>>◌, assert, e_inval, inl, inr,
}
use os_exercises.Sfs.{Sfs, DiskInode, Device, Result, sfs_bmap_load_nolock}
use os_exercises.Sfs.Shrink.{Ended, sfs_bmap_truncate_nolock}

abbrev pub blk_size : ℕ
blk_size = 4096

abbrev pub max_file_size : ℕ
max_file_size = 134217728

-- ROUNDUP_DIV
abbrev pub blocks_for : ℕ → ℕ
blocks_for len = (len + blk_size - 1) / blk_size

abbrev pub after_load : (DiskInode → Sfs → Outcome Ended) → Result → Outcome Ended
after_load go ((din, s), inl e) = done ((din, s), some e)
after_load go ((din, s), inr ino) = go din s

-- The first loop, with the number of rounds.
unfoldable pub grow : Device → ℕ → ℕ → DiskInode → Sfs → Outcome Ended
grow d zero nblks din s = done ((din, s), none)
grow d (suc n) nblks din s =
    sfs_bmap_load_nolock d nblks din s >>= after_load (grow d n (nblks + 1))

abbrev pub after_truncate : (DiskInode → Sfs → Outcome Ended) → Ended → Outcome Ended
after_truncate go ((din, s), some e) = done ((din, s), some e)
after_truncate go ((din, s), none) = go din s

-- The second loop, with the number of rounds.
unfoldable pub shrink : Device → ℕ → DiskInode → Sfs → Outcome Ended
shrink d zero din s = done ((din, s), none)
shrink d (suc n) din s = sfs_bmap_truncate_nolock d din s >>= after_truncate (shrink d n)

abbrev pub set_size : ℕ → Ended → Outcome Ended
set_size len ((din, s), some e) = done ((din, s), some e)
set_size len ((din, s), none) =
    assert (din.blocks == blocks_for len)
    >> done ((record din { size = len; dirty = true }, s), none)

unfoldable pub sfs_truncfile : Device → ℕ → DiskInode → Sfs → Outcome Ended
sfs_truncfile d len din s =
    if leb 2147483648 len || ltb max_file_size len
    then done ((din, s), some e_inval)
    else (if din.size == len
        then (assert (blocks_for len == din.blocks) >> done ((din, s), none))
        else ((if ltb din.blocks (blocks_for len)
              then grow d (blocks_for len - din.blocks) din.blocks din s
              else (if ltb (blocks_for len) din.blocks
                  then shrink d (din.blocks - blocks_for len) din s
                  else done ((din, s), none)))
            >>= set_size len))
