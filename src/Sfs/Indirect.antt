-- ===== src/Sfs/Indirect.antt =====
-- `sfs_bmap_get_nolock` and `sfs_bmap_load_nolock` in all cases.
use os_exercises.Base.{
  ℕ, ◌+◌, ◌-◌, ◌<◌, ◌≡◌, ◌≢◌, refl, sym, ◌∙◌, inl, inr, ◌⊎◌, Bool, true, false, arith, ltb, ◌==◌,
  Bool-cases, done, lt→ltb, Error,
}
use os_exercises.Sfs.{
  Sfs, DiskInode, Device, Result, ndirect, blk_nentry, set_indirect, sfs_bmap_get_sub_nolock,
  sfs_bmap_get_nolock,
}
use os_exercises.Sfs.Blocks.{InUse, IsSound}
use os_exercises.Sfs.Entry.{Entered, Sub, present-Sub, absent-Sub}
use os_exercises.Sfs.Get.{
  block_of, IsMapped, Got, GetEnds, block_of-Keeps, found_block-run, IsMapped-step,
}

module _ (d : Device) (index : ℕ) (create : Bool) (din : DiskInode) (s : Sfs) (v : IsSound s)
    (m : IsMapped din s) (lt : index < ndirect + blk_nentry) (far : ltb index ndirect ≡ false) where
  offset : index - ndirect < blk_nentry
  offset = ground arith

  -- The entry block stays the one that the inode has.
  kept-Got :
      (s' : Sfs) (ino : ℕ)
      → Entered s din.indirect (index - ndirect) create s' din.indirect ino
      → Got index create din s din s' ino
  kept-Got s' ino e = record {
    sound = e.sound;
    mapped = IsMapped-step index din din s s' ino m e.inuse entry here e.block others;
    blocks = refl;
    size = refl;
    here = here;
    others = others;
    made = λ c. elim e.block [ inl z ↦ absurd (omega (arith, z, e.made c)) | inr u ↦ u ];
    source = elim e.source [
      | inl (inl z) ↦
          let none_yet : (din.indirect == 0) ≡ true = ground (arith, z.0) in
          inl (rw (far, none_yet) z.1)
      | inl (inr r) ↦
          let there : (din.indirect == 0) ≡ false = ground (arith, r.0.0) in
          inl (rw (far, there) (sym r.1))
      | inr r ↦ inr r
    ];
    entry = inl refl;
    asked = elim e.asked [
      | inr same ↦ inr (refl, same.0)
      | inl (make, inl z) ↦
          let none_yet : (din.indirect == 0) ≡ true = ground (arith, z) in
          inl (make, rw (far, none_yet) refl)
      | inl (make, inr z) ↦ inl (make, no_entry z)
    ];
    stays = stays;
  }
    where
      no_entry : s.disk din.indirect (index - ndirect) ≡ 0 → block_of din s index ≡ 0
      no_entry z = elim (Bool-cases (din.indirect == 0)) [
        | inl none_yet ↦ rw (far, none_yet) refl
        | inr there ↦ rw (far, there) z
      ]

      entry : (din.indirect ≡ 0) ⊎ InUse s' din.indirect
      entry = elim m.entry [ inl z ↦ inl z | inr u ↦ inr (e.inuse din.indirect u) ]

      here : block_of din s' index ≡ ino
      here = elim e.place [
        | inl z ↦
            let none_yet : (din.indirect == 0) ≡ true = ground (arith, z.0) in
            rw (far, none_yet) (sym z.2)
        | inr r ↦
            let there : (din.indirect == 0) ≡ false = ground (arith, r.0.0) in rw (far, there) r.1
      ]

      stays : block_of din s index ≢ 0 → ino ≡ block_of din s index
      stays nz = elim m.entry [
        | inl z ↦
            let none_yet : (din.indirect == 0) ≡ true = ground (arith, z) in
            absurd (nz (rw (far, none_yet) refl))
        | inr u ↦
            let there : (din.indirect == 0) ≡ false = ground (arith, u.0) in
            let at : block_of din s index ≡ s.disk din.indirect (index - ndirect) =
              rw (far, there) refl in
            e.stays u (λ z. nz (at ∙ z)) ∙ sym at
      ]

      others : (j : ℕ) → j < ndirect + blk_nentry → j ≢ index → block_of din s' j ≡ block_of din s j
      others j l ne = elim m.entry [
        | inl z ↦ let none_yet : (din.indirect == 0) ≡ true = ground (arith, z) in rw none_yet refl
        | inr u ↦ elim (Bool-cases (ltb j ndirect)) [
          | inl near ↦ rw near refl
          | inr beyond ↦
              let there : (din.indirect == 0) ≡ false = ground (arith, u.0) in
              rw (beyond, there) (e.disk din.indirect (j - ndirect) u (inr (ground arith)))
        ]
      ]

  -- The inode gets an entry block.
  new-Got :
      (s' : Sfs) (ent ino : ℕ)
      → ent ≢ din.indirect
      → Entered s din.indirect (index - ndirect) create s' ent ino
      → (din.indirect ≡ 0)
        × Got index create din s (record din { indirect = ent; dirty = true }) s' ino
  new-Got s' ent ino ne e = (
    empty,
    record {
      sound = e.sound;
      mapped = IsMapped-step index din din' s s' ino m e.inuse (inr placed.0) here e.block others;
      blocks = refl;
      size = refl;
      here = here;
      others = others;
      made = λ c. elim e.block [ inl z ↦ absurd (omega (arith, z, e.made c)) | inr u ↦ u ];
      source = elim e.source [
        | inl (inl z) ↦ inl (z.1 ∙ sym no_block)
        | inl (inr r) ↦ absurd (omega (arith, r.0.0, empty))
        | inr r ↦ inr r
      ];
      entry = elim e.entry [ inl same ↦ absurd (ne same) | inr free ↦ inr free ];
      asked = elim e.asked [ inl (make, z) ↦ inl (make, no_block) | inr same ↦ absurd (ne same.1) ];
      stays = λ nz. absurd (nz no_block);
    },
  )
    where
      din' : DiskInode
      din' = record din { indirect = ent; dirty = true }

      empty : din.indirect ≡ 0
      empty = elim e.old [ inl same ↦ absurd (ne same) | inr r ↦ r.0 ]

      no_block : block_of din s index ≡ 0
      no_block =
          let none_yet : (din.indirect == 0) ≡ true = ground (arith, empty) in
          rw (far, none_yet) refl

      zeros : (i : ℕ) → i ≢ index - ndirect → s'.disk ent i ≡ 0
      zeros = elim e.old [ inl same ↦ absurd (ne same) | inr r ↦ r.1 ]

      placed : InUse s' ent × (s'.disk ent (index - ndirect) ≡ ino)
      placed = elim e.place [ inl z ↦ absurd (ne (z.0 ∙ sym z.1)) | inr r ↦ r ]

      there : (ent == 0) ≡ false
      there = ground (arith, placed.0.0)

      here : block_of din' s' index ≡ ino
      here = rw (far, there) placed.1

      others :
          (j : ℕ) → j < ndirect + blk_nentry → j ≢ index → block_of din' s' j ≡ block_of din s j
      others j l ne_j = elim (Bool-cases (ltb j ndirect)) [
        | inl near ↦ rw near refl
        | inr beyond ↦
            let none_yet : (din.indirect == 0) ≡ true = ground (arith, empty) in
            rw (beyond, there, none_yet) (zeros (j - ndirect) (ground arith))
      ]

  sub :
      (r : _) × (sfs_bmap_get_sub_nolock d din.indirect (index - ndirect) create s ≡ done r)
      × Sub s din.indirect (index - ndirect) create r
  sub = elim m.entry [
    | inl z ↦ absent-Sub d din.indirect (index - ndirect) create s offset v z
    | inr u ↦
        let there : (din.indirect == 0) ≡ false = ground (arith, u.0) in
        let held : (s.disk din.indirect (index - ndirect) ≡ 0)
            ⊎ InUse s (s.disk din.indirect (index - ndirect)) =
          rw (far, there) at (m.mapped index lt) in
        present-Sub d din.indirect (index - ndirect) create s offset v u held
  ]

  finish :
      (r : Sfs × (Error ⊎ (ℕ × ℕ)))
      → Sub s din.indirect (index - ndirect) create r
      → (q : Result) × (set_indirect din r ≡ done q) × GetEnds index create din s q
  finish (s', inl e) k = (((din, s'), inl e), refl, (refl, k.0, block_of-Keeps din s s' m k.0, k.1))
  finish (s', inr (ent, ino)) e = elim (Bool-cases (ent == din.indirect)) [
    | inl same ↦
        let at : ent ≡ din.indirect = ground arith in
        let e' : Entered s din.indirect (index - ndirect) create s' din.indirect ino = rw at at e in
        (
          ((din, s'), inr ino),
          rw same (found_block-run din ino s' e.sound e.block),
          kept-Got s' ino e',
        )
    | inr other ↦
        let (empty, got) = new-Got s' ent ino (ground arith) e in
        let test : (din.indirect == 0) ≡ true = ground (arith, empty) in
        (
          ((record din { indirect = ent; dirty = true }, s'), inr ino),
          rw (other, test)
              (found_block-run (record din { indirect = ent; dirty = true }) ino s' e.sound
                e.block),
          got,
        )
  ]

  pub indirect-GetEnds :
      (r : Result) × (sfs_bmap_get_nolock d index create din s ≡ done r)
      × GetEnds index create din s r
  unfolding sfs_bmap_get_nolock
  indirect-GetEnds =
      let (r, run, ends) = sub in
      let (q, run2, got) = finish r ends in
      let inside : ltb (index - ndirect) blk_nentry ≡ true =
        lt→ltb (index - ndirect) blk_nentry offset in
      (q, rw (sfs_bmap_get_nolock, far, inside, run) run2, got)
