-- ===== src/Sfs/Length.antt =====
-- `sfs_truncfile` in all cases.
use os_exercises.Base.{
  ℕ, ◌+◌, ◌-◌, ◌≤◌, ◌<◌, ◌≡◌, refl, ap, ◌∙◌, inl, inr, ◌⊎◌, true, false, none, some, arith, ltb,
  leb, ◌==◌, ◌||◌, if◌then◌else◌, Bool-cases, Outcome, done, ◌>>=◌, e_inval,
}
use os_exercises.Sfs.{Sfs, DiskInode, Device, ndirect, blk_nentry}
use os_exercises.Sfs.Get.{block_of}
use os_exercises.Sfs.Shrink.{Ended}
use os_exercises.Sfs.Resize.{max_file_size, blocks_for, grow, shrink, set_size, sfs_truncfile}
use os_exercises.Sfs.Resized.{IsFile, Near-refl, LoopEnds, grow-LoopEnds, shrink-LoopEnds}

-- The file has the length `len`, and what it had below it.
pub record HasLength (len : ℕ) (din : DiskInode) (s : Sfs) (din' : DiskInode) (s' : Sfs)
    : Type 0 where
  pub well : IsFile din' s'
  pub size : din'.size ≡ len
  pub blocks : din'.blocks ≡ blocks_for len
  pub others : (j : ℕ) → j < din.blocks → j < blocks_for len → block_of din' s' j ≡ block_of din s j

-- The file is well formed, and has the size and what it had below both lengths.
pub record Stopped (len : ℕ) (din : DiskInode) (s : Sfs) (din' : DiskInode) (s' : Sfs)
    : Type 0 where
  pub well : IsFile din' s'
  pub size : din'.size ≡ din.size
  pub others : (j : ℕ) → j < din.blocks → j < blocks_for len → block_of din' s' j ≡ block_of din s j

abbrev pub LengthEnds : ℕ → DiskInode → Sfs → Ended → Type 0
LengthEnds len din s ((din', s'), none) = HasLength len din s din' s'
LengthEnds len din s ((din', s'), some e) = Stopped len din s din' s'

set_size-LengthEnds :
    (len n : ℕ) (din : DiskInode) (s : Sfs) (r : Ended)
    → ((j : ℕ) → j < din.blocks → j < blocks_for len → j < n)
    → LoopEnds n (blocks_for len) din s r
    → (q : Ended) × (set_size len r ≡ done q) × LengthEnds len din s q
set_size-LengthEnds len n din s ((din', s'), some e) below near = (
  ((din', s'), some e),
  refl,
  record { well = near.well; size = near.size; others = λ j l l'. near.others j (below j l l') },
)
set_size-LengthEnds len n din s ((din', s'), none) below (near, count) =
    let test : (din'.blocks == blocks_for len) ≡ true = ground arith in
    (
      ((record din' { size = len; dirty = true }, s'), none),
      rw test refl,
      record {
        well = record {
          sound = near.well.sound;
          filled = record {
            mapped = record {
              entry = near.well.filled.mapped.entry;
              mapped = near.well.filled.mapped.mapped;
            };
            filled = near.well.filled.filled;
            bound = near.well.filled.bound;
          };
          owned = record {
            mapped = record {
              entry = near.well.owned.mapped.entry;
              mapped = near.well.owned.mapped.mapped;
            };
            distinct = near.well.owned.distinct;
            apart = near.well.owned.apart;
          };
        };
        size = refl;
        blocks = count;
        others = λ j l l'. near.others j (below j l l');
      },
    )

module _ (d : Device) (len : ℕ) (din : DiskInode) (s : Sfs) (w : IsFile din s) where
  loop : Outcome Ended
  loop =
      if ltb din.blocks (blocks_for len)
      then grow d (blocks_for len - din.blocks) din.blocks din s
      else (if ltb (blocks_for len) din.blocks
          then shrink d (din.blocks - blocks_for len) din s
          else done ((din, s), none))

  loop-LengthEnds :
      blocks_for len ≤ ndirect + blk_nentry
      → (r : Ended) × (loop ≡ done r)
        × ((q : Ended) × (set_size len r ≡ done q) × LengthEnds len din s q)
  unfolding loop
  loop-LengthEnds le = elim (Bool-cases (ltb din.blocks (blocks_for len))) [
    | inl more ↦
        let lt : din.blocks < blocks_for len = ground arith in
        let (r, run, ends) =
          grow-LoopEnds d (blocks_for len - din.blocks) din s w (omega (arith, lt, le)) in
        let target : blocks_for len - din.blocks + din.blocks ≡ blocks_for len =
          omega (arith, lt) in
        (
          r,
          rw more run,
          set_size-LengthEnds len din.blocks din s r (λ j l l'. l) (rw target at ends),
        )
    | inr not_more ↦ elim (Bool-cases (ltb (blocks_for len) din.blocks)) [
      | inl fewer ↦
          let lt : blocks_for len < din.blocks = ground arith in
          let (r, run, ends) =
            shrink-LoopEnds d (din.blocks - blocks_for len) (blocks_for len) din s w
              (omega (arith, lt)) in
          (
            r,
            rw (not_more, fewer) run,
            set_size-LengthEnds len (blocks_for len) din s r (λ j l l'. l') ends,
          )
      | inr same ↦
          let count : din.blocks ≡ blocks_for len = ground arith in
          (
            ((din, s), none),
            rw (not_more, same) refl,
            set_size-LengthEnds len din.blocks din s ((din, s), none) (λ j l l'. l)
                (Near-refl din.blocks din s w, count),
          )
    ]
  ]

  changes :
      (leb 2147483648 len || ltb max_file_size len) ≡ false
      → (din.size == len) ≡ false
      → sfs_truncfile d len din s ≡ (loop >>= set_size len)
  unfolding sfs_truncfile loop
  changes fits differs = rw (sfs_truncfile, fits, differs) refl

  -- `sfs_truncfile` ends without a failed assertion, when the disk and the file are well formed (the
  -- map of free blocks is sound, each block that the file counts is there and in use, and none
  -- stands twice), the count of blocks fits the size, and the length needs at most 12 + 1024 blocks
  -- or is above the largest size. If it succeeds, the file has the new length and the
  -- blocks for it, and its blocks below both lengths are as before. With an error, the size is as
  -- before, and so are the blocks below both lengths. The disk and the file are well formed again in
  -- both cases.
  pub sfs_truncfile-LengthEnds :
      din.blocks ≡ blocks_for din.size
      → (blocks_for len ≤ ndirect + blk_nentry) ⊎ (max_file_size < len)
      → (r : Ended) × (sfs_truncfile d len din s ≡ done r) × LengthEnds len din s r
  unfolding sfs_truncfile
  sfs_truncfile-LengthEnds fit bound =
      elim (Bool-cases (leb 2147483648 len || ltb max_file_size len)) [
        | inl large ↦ (
          ((din, s), some e_inval),
          rw (sfs_truncfile, large) refl,
          record { well = w; size = refl; others = λ j l l'. refl },
        )
        | inr fits ↦ elim (Bool-cases (din.size == len)) [
          | inl same ↦
              let at : din.size ≡ len = ground arith in
              let count : din.blocks ≡ blocks_for len = fit ∙ ap blocks_for at in
              let test : (blocks_for len == din.blocks) ≡ true = ground arith in
              (
                ((din, s), none),
                rw (sfs_truncfile, fits, same, test) refl,
                record { well = w; size = at; blocks = count; others = λ j l l'. refl },
              )
          | inr differs ↦ elim bound [
            | inr above ↦ absurd (ground (arith, above, fits))
            | inl le ↦
                let (r, run, (q, run2, ends)) = loop-LengthEnds le in
                (q, changes fits differs ∙ ap (λ x. x >>= set_size len) run ∙ run2, ends)
          ]
        ]
      ]
