-- ===== src/Sfs/Get.antt =====
-- What `sfs_bmap_get_nolock` and `sfs_bmap_load_nolock` do to the map of a file.
use os_exercises.Base.{
  ℕ, zero, suc, ◌+◌, ◌-◌, ◌<◌, ◌≡◌, ◌≢◌, refl, sym, ◌∙◌, inl, inr, ◌⊎◌, Bool, true, false, arith,
  ltb, ◌==◌, ◌&&◌, if◌then◌else◌, Bool-cases, done,
}
use os_exercises.Sfs.{
  Sfs, DiskInode, Device, Result, set_at, ndirect, blk_nentry, found_block, sfs_bmap_get_nolock,
}
use os_exercises.Sfs.Blocks.{free_bit, InUse, IsSound, sfs_block_inuse-InUse}
use os_exercises.Sfs.Keeps.{other_block, Keeps, Fresh, sfs_block_alloc-Keeps}

-- The disk block of block `j` of a file, and 0 where it has none.
abbrev pub block_of : DiskInode → Sfs → ℕ → ℕ
block_of din s j =
    if ltb j ndirect
    then din.direct j
    else (if din.indirect == 0 then 0 else s.disk din.indirect (j - ndirect))

-- The blocks of a file, and its entry block, are in use.
pub record IsMapped (din : DiskInode) (s : Sfs) : Type 0 where
  pub entry : (din.indirect ≡ 0) ⊎ InUse s din.indirect
  pub mapped :
      (j : ℕ) → j < ndirect + blk_nentry → (block_of din s j ≡ 0) ⊎ InUse s (block_of din s j)

-- Block `index` is `ino`, the other blocks are as before, and all are in use.
pub record Got (index : ℕ) (create : Bool) (din : DiskInode) (s : Sfs) (din' : DiskInode) (s' : Sfs)
    (ino : ℕ) : Type 0 where
  pub sound : IsSound s'
  pub mapped : IsMapped din' s'
  pub blocks : din'.blocks ≡ din.blocks
  pub size : din'.size ≡ din.size
  pub here : block_of din' s' index ≡ ino
  pub others :
      (j : ℕ) → j < ndirect + blk_nentry → j ≢ index → block_of din' s' j ≡ block_of din s j
  pub made : create ≡ true → InUse s' ino
  pub source : (ino ≡ block_of din s index) ⊎ ((free_bit s ino ≡ true) × (din'.indirect ≢ ino))
  pub entry : (din'.indirect ≡ din.indirect) ⊎ (free_bit s din'.indirect ≡ true)
  pub asked : ((create ≡ true) × (block_of din s index ≡ 0)) ⊎ ((din' ≡ din) × (s' ≡ s))
  pub stays : block_of din s index ≢ 0 → ino ≡ block_of din s index

-- On a failure the file is as before.
abbrev pub GetEnds : ℕ → Bool → DiskInode → Sfs → Result → Type 0
GetEnds index create din s ((din', s'), inl e) =
    (din' ≡ din)
    × Keeps s s'
    × ((j : ℕ) → block_of din' s' j ≡ block_of din s j)
    × ((create ≡ true) ⊎ (s' ≡ s))
GetEnds index create din s ((din', s'), inr ino) = Got index create din s din' s' ino

pub block_of-Keeps :
    (din : DiskInode) (s s' : Sfs)
    → IsMapped din s
    → Keeps s s'
    → (j : ℕ) → block_of din s' j ≡ block_of din s j
block_of-Keeps din s s' m k j = elim m.entry [
  | inl none_yet ↦ let e : (din.indirect == 0) ≡ true = ground arith in rw e refl
  | inr u ↦ ground (arith, k.disk din.indirect u (j - ndirect))
]

pub found_block-run :
    (din : DiskInode) (ino : ℕ) (s : Sfs)
    → IsSound s
    → (ino ≡ 0) ⊎ InUse s ino
    → found_block din ino s ≡ done ((din, s), inr ino)
found_block-run din ino s v h = elim h [
  | inl z ↦ let e : (ino == 0) ≡ true = ground arith in rw (found_block, e) refl
  | inr u ↦
      let e : (ino == 0) ≡ false = ground (arith, u.0) in
      rw (found_block, e, sfs_block_inuse-InUse ino s v u) refl
]

-- The blocks from those of before and the one at `index`.
pub IsMapped-step :
    (index : ℕ) (din din' : DiskInode) (s s' : Sfs) (ino : ℕ)
    → IsMapped din s
    → ((b : ℕ) → InUse s b → InUse s' b)
    → (din'.indirect ≡ 0) ⊎ InUse s' din'.indirect
    → block_of din' s' index ≡ ino
    → (ino ≡ 0) ⊎ InUse s' ino
    → ((j : ℕ) → j < ndirect + blk_nentry → j ≢ index → block_of din' s' j ≡ block_of din s j)
    → IsMapped din' s'
IsMapped-step index din din' s s' ino m inuse entry here block others = record {
  entry = entry;
  mapped = λ j lt. elim (Bool-cases (j == index)) [
    | inl e ↦ let at : j ≡ index = ground arith in rw (at, here) block
    | inr e ↦
        rw (others j lt (ground arith))
          (elim (m.mapped j lt) [ inl z ↦ inl z | inr u ↦ inr (inuse (block_of din s j) u) ])
  ];
}

module _ (d : Device) (index : ℕ) (create : Bool) (din : DiskInode) (s : Sfs) (v : IsSound s)
    (m : IsMapped din s) (lt : index < ndirect + blk_nentry) where
  -- Nothing changes.
  same-Got :
      (ino : ℕ)
      → block_of din s index ≡ ino
      → (create ≡ true → InUse s ino)
      → Got index create din s din s ino
  same-Got ino here made = record {
    sound = v;
    mapped = m;
    blocks = refl;
    size = refl;
    here = here;
    others = λ j l ne. refl;
    made = made;
    source = inl (sym here);
    asked = inr (refl, refl);
    entry = inl refl;
    stays = λ nz. sym here;
  }

  module _ (direct : ltb index ndirect ≡ true) where
    direct_here : (din' : DiskInode) (s' : Sfs) → block_of din' s' index ≡ din'.direct index
    direct_here din' s' = rw direct refl

    new_direct-Got :
        (s' : Sfs) (ino : ℕ)
        → create ≡ true
        → din.direct index ≡ 0
        → Keeps s s'
        → Fresh s s' ino
        → Got index create din s
            (record din { direct = set_at index ino din.direct; dirty = true })
            s'
            ino
    new_direct-Got s' ino make none_yet k f =
        let din' = record din { direct = set_at index ino din.direct; dirty = true } in
        let here : block_of din' s' index ≡ ino = direct_here din' s' ∙ ground arith in
        let others : (j : ℕ)
            → j < ndirect + blk_nentry
            → j ≢ index
            → block_of din' s' j ≡ block_of din s j =
          λ j l ne.
            let e : (j == index) ≡ false = ground arith in rw e (block_of-Keeps din s s' m k j) in
        record {
          sound = k.sound;
          mapped =
              IsMapped-step index din din' s s' ino m k.inuse
                (elim m.entry [ inl z ↦ inl z | inr u ↦ inr (k.inuse din.indirect u) ]) here
                (inr f.inuse) others;
          blocks = refl;
          size = refl;
          here = here;
          others = others;
          made = λ c. f.inuse;
          source = inr (
            f.free,
            elim m.entry [
              | inl z ↦ λ e. omega (arith, z, e, f.inuse.0)
              | inr u ↦ other_block s din.indirect ino u f.free
            ],
          );
          entry = inl refl;
          asked = inl (make, direct_here din s ∙ none_yet);
          stays = λ nz. absurd (nz (direct_here din s ∙ none_yet));
        }

    pub direct-GetEnds :
        (r : Result) × (sfs_bmap_get_nolock d index create din s ≡ done r)
        × GetEnds index create din s r
    unfolding sfs_bmap_get_nolock
    direct-GetEnds =
        let held : (din.direct index ≡ 0) ⊎ InUse s (din.direct index) =
          rw direct at (m.mapped index lt) in
        elim (Bool-cases ((din.direct index == 0) && create)) [
          | inr kept ↦ (
            ((din, s), inr (din.direct index)),
            rw (sfs_bmap_get_nolock, direct, kept)
                (found_block-run din (din.direct index) s v held),
            same-Got (din.direct index) (direct_here din s)
                (λ c. elim held [ inl z ↦ absurd (ground (arith, c, z, kept)) | inr u ↦ u ]),
          )
          | inl needed ↦ elim (sfs_block_alloc-Keeps d s v) [
            | inr (s', e, run, k) ↦ (
              ((din, s'), inl e),
              rw (sfs_bmap_get_nolock, direct, needed, run) refl,
              (refl, k, block_of-Keeps din s s' m k, inl (wanted (din.direct index) create needed)),
            )
            | inl (s', ino, run, k, f) ↦
                let din' = record din { direct = set_at index ino din.direct; dirty = true } in
                (
                  ((din', s'), inr ino),
                  rw (sfs_bmap_get_nolock, direct, needed, run)
                      (found_block-run din' ino s' k.sound (inr f.inuse)),
                  new_direct-Got s' ino (wanted (din.direct index) create needed)
                      (no_block (din.direct index) create needed) k f,
                )
          ]
        ]
      where
        wanted : (n : ℕ) (c : Bool) → ((n == 0) && c) ≡ true → c ≡ true
        wanted n true h = refl
        wanted n false h = absurd (ground (arith, h))

        no_block : (n : ℕ) (c : Bool) → ((n == 0) && c) ≡ true → n ≡ 0
        no_block zero c h = refl
        no_block (suc n) c h = absurd (ground (arith, h))
