-- ===== src/Sfs/Owned.antt =====
-- Each block of the disk stands at most once in a file.
use os_exercises.Base.{
  ℕ, ◌+◌, ◌<◌, ◌≡◌, ◌≢◌, sym, ap, ◌∙◌, inl, inr, ◌⊎◌, Bool, true, arith, ◌==◌, Bool-cases,
}
use os_exercises.Sfs.{Sfs, DiskInode, ndirect, blk_nentry}
use os_exercises.Sfs.Blocks.{free_bit}
use os_exercises.Sfs.Keeps.{other_block}
use os_exercises.Sfs.Get.{block_of, IsMapped, Got}

-- No two blocks of a file are the same block of the disk, and none is its entry block.
pub record IsOwned (din : DiskInode) (s : Sfs) : Type 0 where
  pub mapped : IsMapped din s
  pub distinct :
      (i j : ℕ)
      → i < ndirect + blk_nentry
      → j < ndirect + blk_nentry
      → i ≢ j
      → block_of din s i ≢ 0
      → block_of din s j ≢ block_of din s i
  pub apart :
      (i : ℕ) → i < ndirect + blk_nentry → block_of din s i ≢ 0 → din.indirect ≢ block_of din s i

-- A block that is free is none of the file's.
not_held :
    (din : DiskInode) (s : Sfs) (j ino : ℕ)
    → IsMapped din s
    → j < ndirect + blk_nentry
    → free_bit s ino ≡ true
    → ino ≢ 0
    → block_of din s j ≢ ino
not_held din s j ino m l free nz = elim (m.mapped j l) [
  | inl z ↦ λ e. nz (sym e ∙ z)
  | inr u ↦ other_block s (block_of din s j) ino u free
]

module _ (index : ℕ) (create : Bool) (din : DiskInode) (s : Sfs) (din' : DiskInode) (s' : Sfs)
    (ino : ℕ) (g : Got index create din s din' s' ino) (o : IsOwned din s) where
  -- A block of the file is one that it had, or the new one.
  old_or_new :
      (j : ℕ)
      → j < ndirect + blk_nentry
      → (block_of din' s' j ≡ block_of din s j)
        ⊎ ((j ≡ index)
            × (block_of din' s' j ≡ ino)
            × (free_bit s ino ≡ true)
            × (din'.indirect ≢ ino))
  old_or_new j l = elim (Bool-cases (j == index)) [
    | inr e ↦ inl (g.others j l (ground arith))
    | inl e ↦
        let at : j ≡ index = ground arith in
        let here : block_of din' s' j ≡ ino = ap (block_of din' s') at ∙ g.here in
        elim g.source [
          | inl same ↦ inl (here ∙ same ∙ ap (block_of din s) (sym at))
          | inr r ↦ inr (at, here, r.0, r.1)
        ]
  ]

  distinct :
      (i j : ℕ)
      → i < ndirect + blk_nentry
      → j < ndirect + blk_nentry
      → i ≢ j
      → block_of din' s' i ≢ 0
      → block_of din' s' j ≢ block_of din' s' i
  distinct i j l l' ne nz same = elim (old_or_new i l) [
    | inl ei ↦ elim (old_or_new j l') [
      | inl ej ↦ o.distinct i j l l' ne (λ z. nz (ei ∙ z)) (sym ej ∙ same ∙ ei)
      | inr (at, here, free, away) ↦
          not_held din s i ino o.mapped l free (λ z. nz (sym same ∙ here ∙ z))
            (sym ei ∙ sym same ∙ here)
    ]
    | inr (at, here, free, away) ↦ elim (old_or_new j l') [
      | inl ej ↦ not_held din s j ino o.mapped l' free (λ z. nz (here ∙ z)) (sym ej ∙ same ∙ here)
      | inr (at', here', free', away') ↦ ne (at ∙ sym at')
    ]
  ]

  apart :
      (i : ℕ)
      → i < ndirect + blk_nentry
      → block_of din' s' i ≢ 0
      → din'.indirect ≢ block_of din' s' i
  apart i l nz same = elim (old_or_new i l) [
    | inr (at, here, free, away) ↦ away (same ∙ here)
    | inl ei ↦ elim g.entry [
      | inl kept ↦ o.apart i l (λ z. nz (ei ∙ z)) (sym kept ∙ same ∙ ei)
      | inr free ↦
          not_held din s i din'.indirect o.mapped l free (λ z. nz (sym same ∙ z))
            (sym ei ∙ sym same)
    ]
  ]

  pub Got-IsOwned : IsOwned din' s'
  Got-IsOwned = record { mapped = g.mapped; distinct = distinct; apart = apart }
