-- ===== src/Sfs/Shrink.antt =====
-- Blocks of a file that are given back: `sfs_bmap_free_nolock` and `sfs_bmap_truncate_nolock`.
use os_exercises.Base.{
  ℕ, ◌-◌, true, not, Option, none, some, ltb, ◌==◌, ◌&&◌, if◌then◌else◌, Outcome, done, ◌>>=◌, ◌>>◌,
  assert, Error, e_inval,
}
use os_exercises.Sfs.{
  Sfs, DiskInode, Device, set_at, write_entry, ndirect, blk_nentry, sfs_block_inuse, sfs_block_free,
}

-- The entry is cleared, and the block freed.
abbrev pub clear_entry : Device → ℕ → ℕ → ℕ → Sfs → Outcome (Sfs × Option Error)
clear_entry d ent index ino s =
    if ino == 0
    then done (s, none)
    else (assert (ltb ent s.blocks)
        >> (if d.reads ent && d.writes ent
            then (sfs_block_free ino (write_entry ent index 0 s) >>= λ s'. done (s', none))
            else done (s, some e_inval)))

unfoldable pub sfs_bmap_free_sub_nolock : Device → ℕ → ℕ → Sfs → Outcome (Sfs × Option Error)
sfs_bmap_free_sub_nolock d ent index s = do
  inuse ← sfs_block_inuse ent s
  assert (inuse && ltb index blk_nentry)
  assert (ltb ent s.blocks)
  if d.reads ent then clear_entry d ent index (s.disk ent index) s else done (s, some e_inval)

-- The inode, the disk, and the error.
abbrev pub Ended : Type 0
Ended = (DiskInode × Sfs) × Option Error

unfoldable pub sfs_bmap_free_nolock : Device → ℕ → DiskInode → Sfs → Outcome Ended
sfs_bmap_free_nolock d index din s =
    if ltb index ndirect
    then (if not (din.direct index == 0)
        then (sfs_block_free (din.direct index) s >>= λ s'.
            done ((record din { direct = set_at index 0 din.direct; dirty = true }, s'), none))
        else done ((din, s), none))
    else (if ltb (index - ndirect) blk_nentry
        then (if not (din.indirect == 0)
            then (sfs_bmap_free_sub_nolock d din.indirect (index - ndirect) s >>= λ r.
                done ((din, r.0), r.1))
            else done ((din, s), none))
        else done ((din, s), none))

abbrev pub drop_last : Ended → Outcome Ended
drop_last ((din, s), some e) = done ((din, s), some e)
drop_last ((din, s), none) = done ((record din { blocks = din.blocks - 1; dirty = true }, s), none)

unfoldable pub sfs_bmap_truncate_nolock : Device → DiskInode → Sfs → Outcome Ended
sfs_bmap_truncate_nolock d din s =
    assert (not (din.blocks == 0)) >> (sfs_bmap_free_nolock d (din.blocks - 1) din s >>= drop_last)
