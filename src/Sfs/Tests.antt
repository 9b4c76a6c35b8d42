-- ===== src/Sfs/Tests.antt =====
-- A disk of six blocks.
use os_exercises.Base.{
  ℕ, zero, suc, sym, ◌∙◌, ◌≤◌, ◌<◌, ◌≡◌, ◌≢◌, refl, inl, inr, ◌⊎◌, true, false, arith, [], ◌∷◌, ltb,
  ◌==◌, if◌then◌else◌, done,
}
use os_exercises.Bitmap.{repeat_word, bit_at}
use os_exercises.Sfs.{Sfs, DiskInode, Device, Result, sfs_bmap_get_nolock, sfs_bmap_load_nolock}
use os_exercises.Sfs.Blocks.{free_bit, IsSound}
use os_exercises.Sfs.Get.{block_of, IsMapped, GetEnds}
use os_exercises.Sfs.Owned.{IsOwned}
use os_exercises.Sfs.Shrink.{Ended, sfs_bmap_truncate_nolock}
use os_exercises.Sfs.Truncate.{TruncateEnds, sfs_bmap_truncate_nolock-TruncateEnds}
use os_exercises.Sfs.Resize.{sfs_truncfile}
use os_exercises.Sfs.Resized.{IsFile}
use os_exercises.Sfs.Length.{LengthEnds, sfs_truncfile-LengthEnds}
use os_exercises.Sfs.Load.{
  IsFilled, LoadEnds, sfs_bmap_get_nolock-GetEnds, sfs_bmap_load_nolock-LoadEnds,
}

-- Block 5 cannot be written.
abbrev worn : Device
worn = record { reads = λ b. true; writes = λ b. ltb b 5 }

-- Blocks 1, 3 and 4 are free.
abbrev six : Sfs
six = record {
  blocks = 6;
  unused_blocks = 3;
  super_dirty = false;
  freemap = record {
    nbits = 6;
    nwords = 1;
    map = (false ∷ true ∷ false ∷ true ∷ true ∷ false ∷ repeat_word 26 false) ∷ [];
  };
  disk = λ b i. 0;
}

-- A file of one block.
abbrev file : DiskInode
file = record {
  size = 4096;
  blocks = 1;
  direct = λ j. if j == 0 then 2 else 0;
  indirect = 0;
  dirty = false;
}

all_clear : (n j : ℕ) → bit_at (repeat_word n false) j ≡ false
all_clear zero j = refl
all_clear (suc n) zero = refl
all_clear (suc n) (suc j) = all_clear n j

spare_clear : (i : ℕ) → 6 ≤ i → free_bit six i ≡ false
spare_clear zero h = absurd (omega arith)
spare_clear (suc zero) h = absurd (omega arith)
spare_clear (suc (suc zero)) h = absurd (omega arith)
spare_clear (suc (suc (suc zero))) h = absurd (omega arith)
spare_clear (suc (suc (suc (suc zero)))) h = absurd (omega arith)
spare_clear (suc (suc (suc (suc (suc zero))))) h = absurd (omega arith)
spare_clear (suc (suc (suc (suc (suc (suc i)))))) h = all_clear 26 i

six-IsSound : IsSound six
six-IsSound = record {
  freemap = record { full = (refl, tt); room = omega arith; spare = spare_clear };
  room = omega arith;
  super = refl;
  beyond = spare_clear;
  unused = refl;
}

file-IsMapped : IsMapped file six
file-IsMapped = record {
  entry = inl refl;
  mapped =
      λ j l. elim (first j) [ inl z ↦ inl z | inr e ↦ inr (rw e (omega arith, omega arith, refl)) ];
}
  where
    first : (j : ℕ) → (block_of file six j ≡ 0) ⊎ (block_of file six j ≡ 2)
    first zero = inr refl
    first (suc j) = inl (ground arith)

file-IsFilled : IsFilled file six
file-IsFilled = record { mapped = file-IsMapped; filled = only; bound = omega arith }
  where
    only : (j : ℕ) → j < 1 → block_of file six j ≢ 0
    only zero l z = omega (arith, z)
    only (suc j) l z = omega arith

file-IsOwned : IsOwned file six
file-IsOwned = record { mapped = file-IsMapped; distinct = distinct; apart = apart }
  where
    distinct :
        (i j : ℕ)
        → i < 1036
        → j < 1036
        → i ≢ j
        → block_of file six i ≢ 0
        → block_of file six j ≢ block_of file six i
    distinct zero zero l l' ne nz same = ne refl
    distinct zero (suc j) l l' ne nz same =
        let none_here : block_of file six (suc j) ≡ 0 = ground arith in nz (sym same ∙ none_here)
    distinct (suc i) j l l' ne nz same =
        let none_here : block_of file six (suc i) ≡ 0 = ground arith in nz none_here

    apart : (i : ℕ) → i < 1036 → block_of file six i ≢ 0 → 0 ≢ block_of file six i
    apart i l nz same = nz (sym same)

-- A first block behind the direct ones needs an entry block.
sfs_bmap_get_nolock-GetEnds_example :
    (r : Result) × (sfs_bmap_get_nolock worn 12 true file six ≡ done r) × GetEnds 12 true file six r
sfs_bmap_get_nolock-GetEnds_example =
    sfs_bmap_get_nolock-GetEnds worn 12 true file six six-IsSound file-IsMapped (omega arith)

-- The file grows by a block.
sfs_bmap_load_nolock-LoadEnds_example :
    (r : Result) × (sfs_bmap_load_nolock worn 1 file six ≡ done r) × LoadEnds 1 file six r
sfs_bmap_load_nolock-LoadEnds_example =
    sfs_bmap_load_nolock-LoadEnds worn 1 file six six-IsSound file-IsFilled file-IsOwned
      (omega arith) (omega arith)

-- The file loses its block.
sfs_bmap_truncate_nolock-TruncateEnds_example :
    (r : Ended) × (sfs_bmap_truncate_nolock worn file six ≡ done r) × TruncateEnds file six r
sfs_bmap_truncate_nolock-TruncateEnds_example =
    sfs_bmap_truncate_nolock-TruncateEnds worn file six six-IsSound file-IsFilled file-IsOwned
      (omega arith)

file-IsFile : IsFile file six
file-IsFile = record { sound = six-IsSound; filled = file-IsFilled; owned = file-IsOwned }

-- The file grows to three blocks.
sfs_truncfile-LengthEnds_example :
    (r : Ended) × (sfs_truncfile worn 10000 file six ≡ done r) × LengthEnds 10000 file six r
sfs_truncfile-LengthEnds_example =
    sfs_truncfile-LengthEnds worn 10000 file six file-IsFile refl (inl (omega arith))
