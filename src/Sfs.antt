-- ===== src/Sfs.antt =====
-- The blocks of files on disk: block allocation and the map from a file's blocks to blocks of the disk
-- (kern/fs/sfs/sfs_inode.c). The disk holds words of 32 bits; whether the device carries out a transfer
-- of a block is an argument.
pub mod Blocks
pub mod Release
pub mod Keeps
pub mod Entry
pub mod Get
pub mod Indirect
pub mod Owned
pub mod Load
pub mod Shrink
pub mod Cut
pub mod Truncate
pub mod Resize
pub mod Resized
pub mod Length
mod Tests
use os_exercises.Base.{
  ℕ, zero, suc, ◌+◌, ◌-◌, Bool, true, false, not, Option, none, some, ltb, leb, ◌==◌, ◌&&◌, ◌||◌,
  if◌then◌else◌, Outcome, done, panic, ◌>>=◌, ◌>>◌, assert, Error, e_no_mem, e_inval, ◌⊎◌, inl, inr,
}
use os_exercises.Bitmap.{Bitmap, bitmap_alloc, bitmap_free, bitmap_test}

-- The superblock, the map of free blocks, and the words of the blocks on disk.
pub record Sfs : Type 0 where
  pub blocks : ℕ
  pub unused_blocks : ℕ
  pub super_dirty : Bool
  pub freemap : Bitmap
  pub disk : ℕ → ℕ → ℕ

-- `struct sfs_disk_inode` and the mark of the one in memory.
pub record DiskInode : Type 0 where
  pub size : ℕ
  pub blocks : ℕ
  pub direct : ℕ → ℕ
  pub indirect : ℕ
  pub dirty : Bool

-- Which blocks the device reads and writes without an error.
pub record Device : Type 0 where
  pub reads : ℕ → Bool
  pub writes : ℕ → Bool

-- SFS_NDIRECT and SFS_BLK_NENTRY.
abbrev pub ndirect : ℕ
ndirect = 12

abbrev pub blk_nentry : ℕ
blk_nentry = 1024

abbrev pub set_at {ℓ} : {A : Type ℓ} → ℕ → A → (ℕ → A) → ℕ → A
set_at i v f j = if j == i then v else f j

-- A word of a block is written.
abbrev pub write_entry : ℕ → ℕ → ℕ → Sfs → Sfs
write_entry b i v s = record s { disk = set_at b (set_at i v (s.disk b)) s.disk }

unfoldable pub sfs_block_inuse : ℕ → Sfs → Outcome Bool
sfs_block_inuse ino s =
    if not (ino == 0) && ltb ino s.blocks
    then (bitmap_test ino s.freemap >>= λ free. done (not free))
    else panic

-- The count, and the block is cleared.
abbrev pub claim_block : Device → ℕ → Sfs → Outcome (Sfs × (Error ⊎ ℕ))
claim_block d ino s = do
  assert (ltb 0 s.unused_blocks)
  inuse ← sfs_block_inuse ino (record s { unused_blocks = s.unused_blocks - 1; super_dirty = true })
  assert inuse
  done (
      if d.writes ino
      then (
        record s {
          unused_blocks = s.unused_blocks - 1;
          super_dirty = true;
          disk = set_at ino (λ i. 0) s.disk;
        },
        inr ino,
      )
      else (record s { unused_blocks = s.unused_blocks - 1; super_dirty = true }, inl e_inval))

abbrev pub block_found : Device → Sfs → Option ℕ × Bitmap → Outcome (Sfs × (Error ⊎ ℕ))
block_found d s (none, b) = done (s, inl e_no_mem)
block_found d s (some ino, b) = claim_block d ino (record s { freemap = b })

unfoldable pub sfs_block_alloc : Device → Sfs → Outcome (Sfs × (Error ⊎ ℕ))
sfs_block_alloc d s = bitmap_alloc s.freemap >>= block_found d s

unfoldable pub sfs_block_free : ℕ → Sfs → Outcome Sfs
sfs_block_free ino s = do
  inuse ← sfs_block_inuse ino s
  assert inuse
  b ← bitmap_free ino s.freemap
  done (record s { freemap = b; unused_blocks = s.unused_blocks + 1; super_dirty = true })

-- The label failed_cleanup: an entry block that was allocated is given back.
abbrev pub failed_cleanup : ℕ → ℕ → Error → Sfs → Outcome (Sfs × (Error ⊎ (ℕ × ℕ)))
failed_cleanup entp ent e s =
    if ent == entp then done (s, inl e) else (sfs_block_free ent s >>= λ s'. done (s', inl e))

-- The entry is written, or the new block is given back.
abbrev pub enter_block : Device → ℕ → ℕ → ℕ → ℕ → Sfs → Outcome (Sfs × (Error ⊎ (ℕ × ℕ)))
enter_block d entp ent index ino s =
    assert (ltb ent s.blocks)
    >> (if d.reads ent && d.writes ent
        then done (write_entry ent index ino s, inr (ent, ino))
        else (sfs_block_free ino s >>= failed_cleanup entp ent e_inval))

abbrev pub new_block : Device → ℕ → ℕ → ℕ → Sfs × (Error ⊎ ℕ) → Outcome (Sfs × (Error ⊎ (ℕ × ℕ)))
new_block d entp ent index (s, inl e) = failed_cleanup entp ent e s
new_block d entp ent index (s, inr ino) = enter_block d entp ent index ino s

abbrev pub new_entry_block : Device → ℕ → Sfs × (Error ⊎ ℕ) → Outcome (Sfs × (Error ⊎ (ℕ × ℕ)))
new_entry_block d index (s, inl e) = done (s, inl e)
new_entry_block d index (s, inr ent) = sfs_block_alloc d s >>= new_block d 0 ent index

-- The entry block, and the block that its entry holds.
unfoldable pub sfs_bmap_get_sub_nolock :
    Device → ℕ → ℕ → Bool → Sfs → Outcome (Sfs × (Error ⊎ (ℕ × ℕ)))
sfs_bmap_get_sub_nolock d entp index create s =
    assert (ltb index blk_nentry)
    >> (if not (entp == 0)
        then (assert (ltb entp s.blocks)
            >> (if d.reads entp
                then (if not (s.disk entp index == 0) || not create
                    then done (s, inr (entp, s.disk entp index))
                    else (sfs_block_alloc d s >>= new_block d entp entp index))
                else done (s, inl e_inval)))
        else (if create
            then (sfs_block_alloc d s >>= new_entry_block d index)
            else done (s, inr (0, 0))))

-- What happens to the inode and the disk, and the block.
abbrev pub Result : Type 0
Result = (DiskInode × Sfs) × (Error ⊎ ℕ)

-- The assertion at the label `out`.
abbrev pub found_block : DiskInode → ℕ → Sfs → Outcome Result
found_block din ino s =
    if ino == 0
    then done ((din, s), inr ino)
    else (sfs_block_inuse ino s >>= λ inuse. assert inuse >> done ((din, s), inr ino))

abbrev pub set_direct : DiskInode → ℕ → Sfs × (Error ⊎ ℕ) → Outcome Result
set_direct din index (s, inl e) = done ((din, s), inl e)
set_direct din index (s, inr ino) =
    found_block (record din { direct = set_at index ino din.direct; dirty = true }) ino s

abbrev pub set_indirect : DiskInode → Sfs × (Error ⊎ (ℕ × ℕ)) → Outcome Result
set_indirect din (s, inl e) = done ((din, s), inl e)
set_indirect din (s, inr (ent, ino)) =
    if ent == din.indirect
    then found_block din ino s
    else (assert (din.indirect == 0)
        >> found_block (record din { indirect = ent; dirty = true }) ino s)

unfoldable pub sfs_bmap_get_nolock : Device → ℕ → Bool → DiskInode → Sfs → Outcome Result
sfs_bmap_get_nolock d index create din s =
    if ltb index ndirect
    then (if (din.direct index == 0) && create
        then (sfs_block_alloc d s >>= set_direct din index)
        else found_block din (din.direct index) s)
    else (if ltb (index - ndirect) blk_nentry
        then (sfs_bmap_get_sub_nolock d din.indirect (index - ndirect) create s
            >>= set_indirect din)
        else panic)

abbrev pub load_count : Bool → Result → Outcome Result
load_count create ((din, s), inl e) = done ((din, s), inl e)
load_count create ((din, s), inr ino) = do
  inuse ← sfs_block_inuse ino s
  assert inuse
  done ((if create then record din { blocks = din.blocks + 1 } else din, s), inr ino)

unfoldable pub sfs_bmap_load_nolock : Device → ℕ → DiskInode → Sfs → Outcome Result
sfs_bmap_load_nolock d index din s =
    assert (leb index din.blocks)
    >> (sfs_bmap_get_nolock d index (index == din.blocks) din s
        >>= load_count (index == din.blocks))
