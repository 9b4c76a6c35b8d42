-- ===== src/Sfs/Truncate.antt =====
-- `sfs_bmap_free_nolock` and `sfs_bmap_truncate_nolock` in all cases.
use os_exercises.Base.{
  ℕ, ◌+◌, ◌-◌, ◌<◌, ◌≡◌, ◌≢◌, refl, sym, ap, ◌∙◌, inl, inr, ◌⊎◌, true, false, Option, none, some,
  arith, ltb, ◌==◌, if◌then◌else◌, Bool-cases, done, lt→ltb, Error, e_inval,
}
use os_exercises.Sfs.{Sfs, DiskInode, Device, set_at, write_entry, ndirect, blk_nentry}
use os_exercises.Sfs.Blocks.{free_bit, InUse, IsSound, sfs_block_inuse-InUse}
use os_exercises.Sfs.Release.{Freed, sfs_block_free-Freed}
use os_exercises.Sfs.Entry.{written-there, written-elsewhere, written-IsSound}
use os_exercises.Sfs.Get.{block_of}
use os_exercises.Sfs.Load.{IsFilled}
use os_exercises.Sfs.Shrink.{
  Ended, sfs_bmap_free_sub_nolock, sfs_bmap_free_nolock, drop_last, sfs_bmap_truncate_nolock,
}
use os_exercises.Sfs.Owned.{IsOwned}
use os_exercises.Sfs.Cut.{Cut, FreeEnds, uncut, cut}

held_block : (b : ℕ) (s : Sfs) → (b == 0) ≡ false → (b ≡ 0) ⊎ InUse s b → InUse s b
held_block b s nz h = elim h [ inl z ↦ absurd (ground (arith, z, nz)) | inr u ↦ u ]

module _ (d : Device) (index : ℕ) (din : DiskInode) (s : Sfs) (v : IsSound s) (o : IsOwned din s)
    (lt : index < ndirect + blk_nentry) where
  module _ (near : ltb index ndirect ≡ true) where
    at : block_of din s index ≡ din.direct index
    at = rw near refl

    abbrev cleared : DiskInode
    cleared = record din { direct = set_at index 0 din.direct; dirty = true }

    direct-Cut :
        (s' : Sfs)
        → (din.direct index == 0) ≡ false
        → Freed s (din.direct index) s'
        → Cut index din s cleared s'
    direct-Cut s' nz f =
        cut index din s v o lt (λ z. absurd (ground (arith, sym at ∙ z, nz))) cleared s' f.sound
          refl refl refl f.blocks (λ j. rw at (f.changed j)) gone others
      where
        gone : block_of cleared s' index ≡ 0
        gone = let e : (index == index) ≡ true = ground arith in rw (near, e) refl

        others :
            (j : ℕ)
            → j < ndirect + blk_nentry
            → j ≢ index
            → block_of cleared s' j ≡ block_of din s j
        others j l ne =
            let e : (j == index) ≡ false = ground arith in
            rw e (
              ap
                (λ (g : ℕ → ℕ → ℕ).
                  if ltb j ndirect
                  then din.direct j
                  else (if din.indirect == 0 then 0 else g din.indirect (j - ndirect)))
                f.disk)

    direct-FreeEnds :
        (r : Ended) × (sfs_bmap_free_nolock d index din s ≡ done r) × FreeEnds index din s r
    unfolding sfs_bmap_free_nolock
    direct-FreeEnds = elim (Bool-cases (din.direct index == 0)) [
      | inl z ↦ (
        ((din, s), none),
        rw (sfs_bmap_free_nolock, near, z) refl,
        uncut index din s v o lt (at ∙ ground (arith, z)),
      )
      | inr nz ↦
          let u = held_block (din.direct index) s nz (rw near at (o.mapped.mapped index lt)) in
          let (s', run, f) = sfs_block_free-Freed s (din.direct index) v u in
          (((cleared, s'), none), rw (sfs_bmap_free_nolock, near, nz, run) refl, direct-Cut s' nz f)
    ]

  module _ (far : ltb index ndirect ≡ false) (there : (din.indirect == 0) ≡ false) where
    abbrev slot : ℕ
    slot = index - ndirect

    entry_at : block_of din s index ≡ s.disk din.indirect slot
    entry_at = rw (far, there) refl

    abbrev written : Sfs
    written = write_entry din.indirect slot 0 s

    indirect-Cut :
        (s' : Sfs)
        → (s.disk din.indirect slot == 0) ≡ false
        → Freed written (s.disk din.indirect slot) s'
        → Cut index din s din s'
    indirect-Cut s' nz f =
        cut index din s v o lt (λ z. absurd (ground (arith, sym entry_at ∙ z, nz))) din s' f.sound
          refl refl refl f.blocks (λ j. rw entry_at (f.changed j)) gone others
      where
        on_disk : (b i : ℕ) → s'.disk b i ≡ written.disk b i
        on_disk b i = ap (λ (g : ℕ → ℕ → ℕ). g b i) f.disk

        gone : block_of din s' index ≡ 0
        gone = rw (far, there) (on_disk din.indirect slot ∙ written-there din.indirect slot 0 s)

        others :
            (j : ℕ) → j < ndirect + blk_nentry → j ≢ index → block_of din s' j ≡ block_of din s j
        others j l ne = elim (Bool-cases (ltb j ndirect)) [
          | inl close ↦ rw close refl
          | inr beyond ↦
              rw (beyond, there)
                (on_disk din.indirect (j - ndirect)
                  ∙ written-elsewhere din.indirect slot 0 din.indirect (j - ndirect) s
                      (inr (ground arith)))
        ]

    sub-FreeEnds :
        (r : Sfs × Option Error) × (sfs_bmap_free_sub_nolock d din.indirect slot s ≡ done r)
        × FreeEnds index din s ((din, r.0), r.1)
    unfolding sfs_bmap_free_sub_nolock
    sub-FreeEnds =
        let u = held_block din.indirect s there o.mapped.entry in
        let inuse = sfs_block_inuse-InUse din.indirect s v u in
        let inside : ltb slot blk_nentry ≡ true = lt→ltb slot blk_nentry (ground arith) in
        let within : ltb din.indirect s.blocks ≡ true = lt→ltb din.indirect s.blocks u.1 in
        elim (Bool-cases (d.reads din.indirect)) [
          | inr bad ↦ (
            (s, some e_inval),
            rw (sfs_bmap_free_sub_nolock, inuse, inside, within, bad) refl,
            (refl, refl),
          )
          | inl ok ↦ elim (Bool-cases (s.disk din.indirect slot == 0)) [
            | inl z ↦ (
              (s, none),
              rw (sfs_bmap_free_sub_nolock, inuse, inside, within, ok, z) refl,
              uncut index din s v o lt (entry_at ∙ ground (arith, z)),
            )
            | inr nz ↦ elim (Bool-cases (d.writes din.indirect)) [
              | inr bad ↦ (
                (s, some e_inval),
                rw (sfs_bmap_free_sub_nolock, inuse, inside, within, ok, nz, bad) refl,
                (refl, refl),
              )
              | inl ok2 ↦
                  let held =
                    held_block (s.disk din.indirect slot) s nz
                      (rw (far, there) at (o.mapped.mapped index lt)) in
                  let (s', run, f) =
                    sfs_block_free-Freed written (s.disk din.indirect slot)
                      (written-IsSound din.indirect slot 0 s v) held in
                  (
                    (s', none),
                    rw (sfs_bmap_free_sub_nolock, inuse, inside, within, ok, nz, ok2, run) refl,
                    indirect-Cut s' nz f,
                  )
            ]
          ]
        ]

  indirect-FreeEnds :
      ltb index ndirect ≡ false
      → (r : Ended) × (sfs_bmap_free_nolock d index din s ≡ done r) × FreeEnds index din s r
  unfolding sfs_bmap_free_nolock
  indirect-FreeEnds far =
      let inside : ltb (index - ndirect) blk_nentry ≡ true =
        lt→ltb (index - ndirect) blk_nentry (ground arith) in
      elim (Bool-cases (din.indirect == 0)) [
        | inl none_yet ↦ (
          ((din, s), none),
          rw (sfs_bmap_free_nolock, far, inside, none_yet) refl,
          uncut index din s v o lt (rw (far, none_yet) refl),
        )
        | inr there ↦
            let (r, run, ends) = sub-FreeEnds far there in
            (((din, r.0), r.1), rw (sfs_bmap_free_nolock, far, inside, there, run) refl, ends)
      ]

  sfs_bmap_free_nolock-FreeEnds :
      (r : Ended) × (sfs_bmap_free_nolock d index din s ≡ done r) × FreeEnds index din s r
  sfs_bmap_free_nolock-FreeEnds = elim (Bool-cases (ltb index ndirect)) [
    | inl near ↦ direct-FreeEnds near
    | inr far ↦ indirect-FreeEnds far
  ]

-- The file has lost its last block.
pub record Truncated (din : DiskInode) (s : Sfs) (din' : DiskInode) (s' : Sfs) : Type 0 where
  pub sound : IsSound s'
  pub filled : IsFilled din' s'
  pub owned : IsOwned din' s'
  pub blocks : din'.blocks + 1 ≡ din.blocks
  pub size : din'.size ≡ din.size
  pub others : (j : ℕ) → j < din'.blocks → block_of din' s' j ≡ block_of din s j
  pub gone : block_of din' s' din'.blocks ≡ 0
  pub freed : free_bit s' (block_of din s din'.blocks) ≡ true

abbrev pub TruncateEnds : DiskInode → Sfs → Ended → Type 0
TruncateEnds din s ((din', s'), none) = Truncated din s din' s'
TruncateEnds din s ((din', s'), some e) = (din' ≡ din) × (s' ≡ s)

module _ (din : DiskInode) (s : Sfs) (f : IsFilled din s) (positive : 0 < din.blocks) where
  drop_last-TruncateEnds :
      (r : Ended)
      → FreeEnds (din.blocks - 1) din s r
      → (q : Ended) × (drop_last r ≡ done q) × TruncateEnds din s q
  drop_last-TruncateEnds ((din', s'), some e) ends = (((din', s'), some e), refl, ends)
  drop_last-TruncateEnds ((din', s'), none) c =
      let count : din'.blocks - 1 ≡ din.blocks - 1 = ap (λ n. n - 1) c.blocks in
      let others : (j : ℕ) → j < din'.blocks - 1 → block_of din' s' j ≡ block_of din s j = λ j l.
        let l' : j < din.blocks - 1 = omega (arith, l, count) in
        c.others j (omega (arith, l', f.bound)) (omega (arith, l')) in
      let last : block_of din s (din.blocks - 1) ≢ 0 = f.filled (din.blocks - 1) (omega arith) in
      (
        ((record din' { blocks = din'.blocks - 1; dirty = true }, s'), none),
        refl,
        record {
          sound = c.sound;
          filled = record {
            mapped = record { entry = c.owned.mapped.entry; mapped = c.owned.mapped.mapped };
            filled = λ j l z. f.filled j (omega (arith, l, count)) (sym (others j l) ∙ z);
            bound = omega (arith, count, f.bound);
          };
          owned = record {
            mapped = record { entry = c.owned.mapped.entry; mapped = c.owned.mapped.mapped };
            distinct = c.owned.distinct;
            apart = c.owned.apart;
          };
          blocks = omega (arith, count);
          size = c.size;
          others = others;
          gone = ap (block_of din' s') count ∙ c.gone;
          freed = ap (λ n. free_bit s' (block_of din s n)) count ∙ c.freed last;
        },
      )

-- `sfs_bmap_truncate_nolock` ends without a failed assertion for a file with at least one block,
-- when the map of free blocks is sound, each block that the file counts is there and in use, and
-- no block of the disk stands twice in the file. If it succeeds, the last block of the file is
-- gone and is free again, the count is less by one, the other blocks are as before, and all these conditions
-- but the one on the count hold again. With an error, the inode and the disk are as before.
pub sfs_bmap_truncate_nolock-TruncateEnds :
    (d : Device) (din : DiskInode) (s : Sfs)
    → IsSound s
    → IsFilled din s
    → IsOwned din s
    → 0 < din.blocks
    → (r : Ended) × (sfs_bmap_truncate_nolock d din s ≡ done r) × TruncateEnds din s r
unfolding sfs_bmap_truncate_nolock
sfs_bmap_truncate_nolock-TruncateEnds d din s v f o positive =
    let (r, run, ends) =
      sfs_bmap_free_nolock-FreeEnds d (din.blocks - 1) din s v o (omega (arith, f.bound)) in
    let (q, run2, cut) = drop_last-TruncateEnds din s f positive r ends in
    let some_block : (din.blocks == 0) ≡ false = ground arith in
    (q, rw (sfs_bmap_truncate_nolock, some_block, run) run2, cut)
