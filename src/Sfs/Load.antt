-- ===== src/Sfs/Load.antt =====
-- `sfs_bmap_get_nolock` and `sfs_bmap_load_nolock` in all cases.
use os_exercises.Base.{
  ℕ, ◌+◌, ◌≤◌, ◌<◌, ◌≡◌, ◌≢◌, refl, sym, ap, ◌∙◌, inl, inr, ◌⊎◌, Bool, true, false, arith, ltb, leb,
  ◌==◌, if◌then◌else◌, Bool-cases, done,
}
use os_exercises.Sfs.{
  Sfs, DiskInode, Device, Result, ndirect, blk_nentry, sfs_bmap_get_nolock, load_count,
  sfs_bmap_load_nolock,
}
use os_exercises.Sfs.Blocks.{InUse, IsSound, sfs_block_inuse-InUse}
use os_exercises.Sfs.Keeps.{Keeps}
use os_exercises.Sfs.Get.{block_of, IsMapped, Got, GetEnds, direct-GetEnds}
use os_exercises.Sfs.Owned.{IsOwned, Got-IsOwned}
use os_exercises.Sfs.Indirect.{indirect-GetEnds}

-- `sfs_bmap_get_nolock` ends without a failed assertion, for each of the blocks that an inode can
-- have (below 12 + 1024), when the map of free blocks is sound and the file's blocks are in use.
-- With a block number, it is that of block `index` of the file from now on: the one that the file
-- had, or a new one in use; a new one only when one is asked for and the file had none, and else
-- the inode and the disk are as before. The file's other blocks are as before, and the map of free
-- blocks is sound and the file's blocks are in use again. With an error, the inode and the file's
-- blocks are as before, and so is the disk if no block was asked for.
pub sfs_bmap_get_nolock-GetEnds :
    (d : Device) (index : ℕ) (create : Bool) (din : DiskInode) (s : Sfs)
    → IsSound s
    → IsMapped din s
    → index < ndirect + blk_nentry
    → (r : Result) × (sfs_bmap_get_nolock d index create din s ≡ done r)
      × GetEnds index create din s r
sfs_bmap_get_nolock-GetEnds d index create din s v m lt = elim (Bool-cases (ltb index ndirect)) [
  | inl near ↦ direct-GetEnds d index create din s v m lt near
  | inr far ↦ indirect-GetEnds d index create din s v m lt far
]

-- Each block that the file counts is there.
pub record IsFilled (din : DiskInode) (s : Sfs) : Type 0 where
  pub mapped : IsMapped din s
  pub filled : (j : ℕ) → j < din.blocks → block_of din s j ≢ 0
  pub bound : din.blocks ≤ ndirect + blk_nentry

pub record Loaded (index : ℕ) (din : DiskInode) (s : Sfs) (din' : DiskInode) (s' : Sfs) (ino : ℕ)
    : Type 0 where
  pub sound : IsSound s'
  pub filled : IsFilled din' s'
  pub owned : IsOwned din' s'
  pub here : block_of din' s' index ≡ ino
  pub inuse : InUse s' ino
  pub others : (j : ℕ) → j < din.blocks → block_of din' s' j ≡ block_of din s j
  pub size : din'.size ≡ din.size
  pub blocks : din'.blocks ≡ (if index == din.blocks then din.blocks + 1 else din.blocks)

abbrev pub LoadEnds : ℕ → DiskInode → Sfs → Result → Type 0
LoadEnds index din s ((din', s'), inl e) =
    (din' ≡ din) × Keeps s s' × ((j : ℕ) → block_of din' s' j ≡ block_of din s j)
LoadEnds index din s ((din', s'), inr ino) = Loaded index din s din' s' ino

module _ (index : ℕ) (din : DiskInode) (s : Sfs) (f : IsFilled din s) (o : IsOwned din s)
    (le : index ≤ din.blocks) (lt : index < ndirect + blk_nentry) where
  module _ (create : Bool) (test : (index == din.blocks) ≡ create) (din' : DiskInode) (s' : Sfs)
      (ino : ℕ) (g : Got index create din s din' s' ino) where
    -- The blocks below the count are as before.
    others : (j : ℕ) → j < din.blocks → block_of din' s' j ≡ block_of din s j
    others j l = elim (Bool-cases (j == index)) [
      | inr e ↦ g.others j (omega (arith, f.bound)) (ground arith)
      | inl e ↦
          let at : j ≡ index = ground arith in
          let held : block_of din s index ≢ 0 = λ z. f.filled j l (ap (block_of din s) at ∙ z) in
          ap (block_of din' s') at ∙ g.here ∙ g.stays held ∙ ap (block_of din s) (sym at)
    ]

    held : (create ≡ true) ⊎ (block_of din s index ≢ 0)
    held = elim (Bool-cases create) [
      | inl c ↦ inl c
      | inr c ↦ inr (f.filled index (ground (arith, c, test)))
    ]

    inuse : InUse s' ino
    inuse = elim held [
      | inl c ↦ g.made c
      | inr nz ↦ elim (g.mapped.mapped index lt) [
        | inl z ↦ absurd (nz (sym (g.stays nz) ∙ sym g.here ∙ z))
        | inr u ↦ rw g.here at u
      ]
    ]

    some_block : ino ≢ 0
    some_block z = omega (arith, inuse.0, z)

    kept-IsOwned : IsOwned din' s'
    kept-IsOwned = Got-IsOwned index create din s din' s' ino g o

    pub load_count-Loaded :
        (q : Result) × (load_count create ((din', s'), inr ino) ≡ done q) × LoadEnds index din s q
    load_count-Loaded = elim (Bool-cases create) [
      | inl c ↦
          let last : index ≡ din.blocks = ground (arith, c, test) in
          let counted = record din' { blocks = din'.blocks + 1 } in
          (
            ((counted, s'), inr ino),
            rw (sfs_block_inuse-InUse ino s' g.sound inuse, c) refl,
            record {
              sound = g.sound;
              filled = record {
                mapped = record { entry = g.mapped.entry; mapped = g.mapped.mapped };
                filled = λ j l. elim (Bool-cases (j == index)) [
                  | inl e ↦
                      let at : j ≡ index = ground arith in
                      λ z. some_block (sym g.here ∙ ap (block_of din' s') (sym at) ∙ z)
                  | inr e ↦
                      let below : j < din.blocks =
                        omega (arith, l, g.blocks, last, different j e) in
                      λ z. f.filled j below (sym (others j below) ∙ z)
                ];
                bound = omega (arith, g.blocks, lt, last);
              };
              owned = record {
                mapped = record { entry = g.mapped.entry; mapped = g.mapped.mapped };
                distinct = kept-IsOwned.distinct;
                apart = kept-IsOwned.apart;
              };
              here = g.here;
              inuse = inuse;
              others = others;
              size = g.size;
              blocks = rw (test, c) (ap (λ n. n + 1) g.blocks);
            },
          )
      | inr c ↦ (
        ((din', s'), inr ino),
        rw (sfs_block_inuse-InUse ino s' g.sound inuse, c) refl,
        record {
          sound = g.sound;
          filled = record {
            mapped = g.mapped;
            filled = λ j l z.
                let below : j < din.blocks = omega (arith, l, g.blocks) in
                f.filled j below (sym (others j below) ∙ z);
            bound = omega (arith, g.blocks, f.bound);
          };
          owned = kept-IsOwned;
          here = g.here;
          inuse = inuse;
          others = others;
          size = g.size;
          blocks = rw (test, c) g.blocks;
        },
      )
    ]
      where
        different : (j : ℕ) → (j == index) ≡ false → j ≢ index
        different j e = ground arith

  load_count-LoadEnds :
      (create : Bool)
      → (index == din.blocks) ≡ create
      → (r : Result) → GetEnds index create din s r
      → (q : Result) × (load_count create r ≡ done q) × LoadEnds index din s q
  load_count-LoadEnds create test ((din', s'), inl e) (same, k, blocks, asked) =
      (((din', s'), inl e), refl, (same, k, blocks))
  load_count-LoadEnds create test ((din', s'), inr ino) g =
      load_count-Loaded create test din' s' ino g

-- `sfs_bmap_load_nolock` ends without a failed assertion for a block of the file or the first one
-- after them, when the map of free blocks is sound, each block that the file counts is there and in
-- use, no block of the disk stands twice in the file, and the file has room for the block (the
-- number is below 12 + 1024). With a block number, that block is in use and is block `index` of the
-- file, the blocks that the file had are as before, and the count grows by one exactly if the block
-- is the one after them; the map of free blocks is sound, each block that the file counts is there
-- and in use, and none stands twice, again. With an error, the inode and the file's blocks are as
-- before.
pub sfs_bmap_load_nolock-LoadEnds :
    (d : Device) (index : ℕ) (din : DiskInode) (s : Sfs)
    → IsSound s
    → IsFilled din s
    → IsOwned din s
    → index ≤ din.blocks
    → index < ndirect + blk_nentry
    → (r : Result) × (sfs_bmap_load_nolock d index din s ≡ done r) × LoadEnds index din s r
unfolding sfs_bmap_load_nolock
sfs_bmap_load_nolock-LoadEnds d index din s v f o le lt =
    let (r, run, ends) =
      sfs_bmap_get_nolock-GetEnds d index (index == din.blocks) din s v f.mapped lt in
    let (q, run2, loaded) =
      load_count-LoadEnds index din s f o le lt (index == din.blocks) refl r ends in
    let inside : leb index din.blocks ≡ true = ground arith in
    (q, rw (sfs_bmap_load_nolock, inside, run) run2, loaded)
