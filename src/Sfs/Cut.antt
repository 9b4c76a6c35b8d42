-- ===== src/Sfs/Cut.antt =====
-- What `sfs_bmap_free_nolock` does to the map of a file.
use os_exercises.Base.{
  ℕ, ◌+◌, ◌<◌, ◌≡◌, ◌≢◌, refl, sym, ap, ◌∙◌, inl, inr, ◌⊎◌, true, false, none, some, arith, ◌==◌,
  if◌then◌else◌, Bool-cases,
}
use os_exercises.Sfs.{Sfs, DiskInode, ndirect, blk_nentry}
use os_exercises.Sfs.Blocks.{free_bit, InUse, IsSound}
use os_exercises.Sfs.Get.{block_of, IsMapped}
use os_exercises.Sfs.Owned.{IsOwned}
use os_exercises.Sfs.Shrink.{Ended}

-- Block `index` is gone from the file, and free; the others are as before.
pub record Cut (index : ℕ) (din : DiskInode) (s : Sfs) (din' : DiskInode) (s' : Sfs) : Type 0 where
  pub sound : IsSound s'
  pub owned : IsOwned din' s'
  pub blocks : din'.blocks ≡ din.blocks
  pub size : din'.size ≡ din.size
  pub gone : block_of din' s' index ≡ 0
  pub others :
      (j : ℕ) → j < ndirect + blk_nentry → j ≢ index → block_of din' s' j ≡ block_of din s j
  pub freed : block_of din s index ≢ 0 → free_bit s' (block_of din s index) ≡ true

abbrev pub FreeEnds : ℕ → DiskInode → Sfs → Ended → Type 0
FreeEnds index din s ((din', s'), none) = Cut index din s din' s'
FreeEnds index din s ((din', s'), some e) = (din' ≡ din) × (s' ≡ s)

module _ (index : ℕ) (din : DiskInode) (s : Sfs) (v : IsSound s) (o : IsOwned din s)
    (lt : index < ndirect + blk_nentry) where
  pub uncut : block_of din s index ≡ 0 → Cut index din s din s
  uncut z = record {
    sound = v;
    owned = o;
    blocks = refl;
    size = refl;
    gone = z;
    others = λ j l ne. refl;
    freed = λ nz. absurd (nz z);
  }

  module _ (held : block_of din s index ≢ 0) (din' : DiskInode) (s' : Sfs) (sound : IsSound s')
      (entry : din'.indirect ≡ din.indirect) (blocks : din'.blocks ≡ din.blocks)
      (same_size : din'.size ≡ din.size) (size : s'.blocks ≡ s.blocks)
      (changed : (j : ℕ)
        → free_bit s' j ≡ (if j == block_of din s index then true else free_bit s j))
      (gone : block_of din' s' index ≡ 0)
      (others : (j : ℕ)
        → j < ndirect + blk_nentry
        → j ≢ index
        → block_of din' s' j ≡ block_of din s j) where
    kept : (b : ℕ) → b ≢ block_of din s index → InUse s b → InUse s' b
    kept b ne u =
        let e : (b == block_of din s index) ≡ false = ground arith in
        (u.0, rw size u.1, changed b ∙ rw e (u.2))

    where_from : (j : ℕ) → (j ≡ index) ⊎ (j ≢ index)
    where_from j = elim (Bool-cases (j == index)) [
      | inl e ↦ inl (ground arith)
      | inr e ↦ inr (ground arith)
    ]

    still_held :
        (j : ℕ)
        → j < ndirect + blk_nentry
        → block_of din' s' j ≢ 0
        → (j ≢ index) × (block_of din' s' j ≡ block_of din s j)
    still_held j l nz = elim (where_from j) [
      | inl at ↦ absurd (nz (ap (block_of din' s') at ∙ gone))
      | inr ne ↦ (ne, others j l ne)
    ]

    kept-IsMapped : IsMapped din' s'
    kept-IsMapped = record {
      entry = elim o.mapped.entry [
        | inl z ↦ inl (entry ∙ z)
        | inr u ↦ inr (rw entry (kept din.indirect (o.apart index lt held) u))
      ];
      mapped = λ j l. elim (where_from j) [
        | inl at ↦ inl (ap (block_of din' s') at ∙ gone)
        | inr ne ↦
            let e = others j l ne in
            elim (o.mapped.mapped j l) [
              | inl z ↦ inl (e ∙ z)
              | inr u ↦ inr (
                  rw e (kept (block_of din s j) (o.distinct index j lt l (λ x. ne (sym x)) held) u))
            ]
      ];
    }

    pub cut : Cut index din s din' s'
    cut = record {
      sound = sound;
      owned = record {
        mapped = kept-IsMapped;
        distinct = λ i j l l' ne nz.
            let (ni, ei) = still_held i l nz in
            λ same.
              let (nj, ej) = still_held j l' (λ z. nz (sym same ∙ z)) in
              o.distinct i j l l' ne (λ z. nz (ei ∙ z)) (sym ej ∙ same ∙ ei);
        apart = λ i l nz.
            let (ni, ei) = still_held i l nz in
            λ same. o.apart i l (λ z. nz (ei ∙ z)) (sym entry ∙ same ∙ ei);
      };
      blocks = blocks;
      size = same_size;
      gone = gone;
      others = others;
      freed = λ nz.
          let e : (block_of din s index == block_of din s index) ≡ true = ground arith in
          changed (block_of din s index) ∙ rw e refl;
    }
