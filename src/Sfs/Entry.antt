-- ===== src/Sfs/Entry.antt =====
-- What `sfs_bmap_get_sub_nolock` does to the entry block.
use os_exercises.Base.{
  ℕ, zero, suc, ◌<◌, ◌≡◌, ◌≢◌, refl, sym, ap, ◌∙◌, inl, inr, ◌⊎◌, Bool, true, false, not, arith,
  ltb, ◌==◌, ◌&&◌, ◌||◌, Bool-cases, done, ◌>>=◌, lt→ltb, Error, e_inval,
}
use os_exercises.Sfs.{
  Sfs, Device, write_entry, sfs_block_alloc, new_block, sfs_bmap_get_sub_nolock, blk_nentry,
}
use os_exercises.Sfs.Blocks.{free_bit, InUse, IsSound}
use os_exercises.Sfs.Keeps.{
  Keeps, Keeps-refl, Keeps-trans, Fresh, other_block, sfs_block_alloc-Keeps, sfs_block_free-Keeps,
  failed_cleanup-Keeps,
}

-- The entry `index` of the entry block `ent` holds `ino`, and no other word of a block in use changed.
pub record Entered (s : Sfs) (entp index : ℕ) (create : Bool) (s' : Sfs) (ent ino : ℕ)
    : Type 0 where
  pub sound : IsSound s'
  pub inuse : (b : ℕ) → InUse s b → InUse s' b
  pub disk : (b i : ℕ) → InUse s b → (b ≢ ent) ⊎ (i ≢ index) → s'.disk b i ≡ s.disk b i
  pub place : ((ent ≡ 0) × (entp ≡ 0) × (ino ≡ 0)) ⊎ (InUse s' ent × (s'.disk ent index ≡ ino))
  pub old : (ent ≡ entp) ⊎ ((entp ≡ 0) × ((i : ℕ) → i ≢ index → s'.disk ent i ≡ 0))
  pub block : (ino ≡ 0) ⊎ InUse s' ino
  pub made : create ≡ true → 0 < ino
  pub source :
      (((entp ≡ 0) × (ino ≡ 0)) ⊎ (InUse s entp × (s.disk entp index ≡ ino)))
      ⊎ ((free_bit s ino ≡ true) × (ent ≢ ino))
  pub entry : (ent ≡ entp) ⊎ (free_bit s ent ≡ true)
  pub asked : ((create ≡ true) × ((entp ≡ 0) ⊎ (s.disk entp index ≡ 0))) ⊎ ((s' ≡ s) × (ent ≡ entp))
  pub stays : InUse s entp → s.disk entp index ≢ 0 → ino ≡ s.disk entp index

abbrev pub Sub : Sfs → ℕ → ℕ → Bool → Sfs × (Error ⊎ (ℕ × ℕ)) → Type 0
Sub s entp index create (s', inl e) = Keeps s s' × ((create ≡ true) ⊎ (s' ≡ s))
Sub s entp index create (s', inr (ent, ino)) = Entered s entp index create s' ent ino

pub written-there :
    (ent index ino : ℕ) (s : Sfs) → (write_entry ent index ino s).disk ent index ≡ ino
written-there ent index ino s =
    let e : (ent == ent) ≡ true = ground arith in
    let f : (index == index) ≡ true = ground arith in rw (e, f) refl

pub written-elsewhere :
    (ent index ino b i : ℕ) (s : Sfs)
    → (b ≢ ent) ⊎ (i ≢ index)
    → (write_entry ent index ino s).disk b i ≡ s.disk b i
written-elsewhere ent index ino b i s h = elim (Bool-cases (b == ent)) [
  | inr e ↦ rw e refl
  | inl e ↦
      let at : b ≡ ent = ground arith in
      let other : (i == index) ≡ false = ground arith in
      rw (e, other) (ap (λ c. s.disk c i) (sym at))
]

pub written-IsSound :
    (ent index ino : ℕ) (s : Sfs) → IsSound s → IsSound (write_entry ent index ino s)
written-IsSound ent index ino s v = record {
  freemap = v.freemap;
  room = v.room;
  super = v.super;
  beyond = v.beyond;
  unused = v.unused;
}

-- A block for an entry of the entry block `ent`, which was there (`s` to `s1` is then one step) or is
-- new and cleared.
module _ (d : Device) (s s1 : Sfs) (entp ent index : ℕ) (create : Bool) (make : create ≡ true)
    (k : Keeps s s1) (here : InUse s1 ent)
    (known : ((ent ≡ entp) × InUse s ent × (s.disk entp index ≡ 0))
      ⊎ ((entp ≡ 0) × (ent ≢ entp) × (free_bit s ent ≡ true) × ((i : ℕ) → s1.disk ent i ≡ 0))) where
  cleanup :
      (t : Sfs)
      → Keeps s t
      → InUse t ent
      → (ent ≡ entp) ⊎ ((ent ≢ entp) × (free_bit s ent ≡ true) × InUse t ent)
  cleanup t kt u = elim known [
    | inl (same, old, zero_entry) ↦ inl same
    | inr (no_block, ne, free, clear) ↦ inr (ne, free, u)
  ]

  within : (s2 : Sfs) → Keeps s1 s2 → ltb ent s2.blocks ≡ true
  within s2 l = lt→ltb ent s2.blocks ((l.inuse ent here).1)

  -- The new block was free before.
  was_free : (ino : ℕ) (s2 : Sfs) → Keeps s1 s2 → Fresh s1 s2 ino → free_bit s ino ≡ true
  was_free ino s2 l f = elim (Bool-cases (free_bit s ino)) [
    | inl e ↦ e
    | inr e ↦
        let u = k.inuse ino (f.inuse.0, omega (arith, f.inuse.1, l.blocks, k.blocks), e) in
        absurd (ground (arith, u.2, f.free))
  ]

  entered :
      (s2 : Sfs) (ino : ℕ)
      → Keeps s1 s2
      → Fresh s1 s2 ino
      → Entered s entp index create (write_entry ent index ino s2) ent ino
  entered s2 ino l f = record {
    sound = written-IsSound ent index ino s2 l.sound;
    inuse = λ b u. l.inuse b (k.inuse b u);
    disk = λ b i u h.
        written-elsewhere ent index ino b i s2 h ∙ l.disk b (k.inuse b u) i ∙ k.disk b u i;
    place = inr (l.inuse ent here, written-there ent index ino s2);
    old = elim known [
      | inl (same, old, zero_entry) ↦ inl same
      | inr (no_block, ne, free, clear) ↦ inr (
        no_block,
        λ i ne_i. written-elsewhere ent index ino ent i s2 (inr ne_i) ∙ l.disk ent here i ∙ clear i,
      )
    ];
    block = inr f.inuse;
    made = λ c. f.inuse.0;
    asked = inl (
      make,
      elim known [
        | inl (same, old, zero_entry) ↦ inr zero_entry
        | inr (no_block, ne, free, clear) ↦ inl no_block
      ],
    );
    source = inr (was_free ino s2 l f, other_block s1 ent ino here f.free);
    entry = elim known [
      | inl (same, old, zero_entry) ↦ inl same
      | inr (no_block, ne, free, clear) ↦ inr free
    ];
    stays = elim known [
      | inl (same, old, zero_entry) ↦ λ u nz. absurd (nz zero_entry)
      | inr (no_block, ne, free, clear) ↦ λ u nz. absurd (omega (arith, u.0, no_block))
    ];
  }

  new_block-Sub :
      (r : Sfs × (Error ⊎ (ℕ × ℕ))) × ((sfs_block_alloc d s1 >>= new_block d entp ent index)
        ≡ done r)
      × Sub s entp index create r
  new_block-Sub = elim (sfs_block_alloc-Keeps d s1 k.sound) [
    | inr (s2, e, run, l) ↦
        let kl = Keeps-trans {s = s1} k l in
        let (s3, back, k3) =
          failed_cleanup-Keeps s s2 entp ent e kl (cleanup s2 kl (l.inuse ent here)) in
        ((s3, inl e), rw (run, back) refl, (k3, inl make))
    | inl (s2, ino, run, l, f) ↦ elim (Bool-cases (d.reads ent && d.writes ent)) [
      | inl ok ↦ (
        (write_entry ent index ino s2, inr (ent, ino)),
        rw (run, within s2 l, ok) refl,
        entered s2 ino l f,
      )
      | inr bad ↦
          let kl = Keeps-trans {s = s1} k l in
          let (s3, freed, k3, others) =
            sfs_block_free-Keeps s s2 ino kl (was_free ino s2 l f) f.inuse in
          let ne : ent ≢ ino = other_block s1 ent ino here f.free in
          let (s4, back, k4) =
            failed_cleanup-Keeps s s3 entp ent e_inval k3
              (cleanup s3 k3 (others ent ne (l.inuse ent here))) in
          ((s4, inl e_inval), rw (run, within s2 l, bad, freed, back) refl, (k4, inl make))
    ]
  ]

unchanged :
    (s : Sfs) (entp index ino : ℕ) (create : Bool)
    → IsSound s
    → ((entp ≡ 0) × (ino ≡ 0)) ⊎ (InUse s entp × (s.disk entp index ≡ ino))
    → (ino ≡ 0) ⊎ InUse s ino
    → (create ≡ true → 0 < ino)
    → (InUse s entp → ino ≡ s.disk entp index)
    → Entered s entp index create s entp ino
unchanged s entp index ino create v place block made held = record {
  sound = v;
  inuse = λ b u. u;
  disk = λ b i u h. refl;
  place = elim place [ inl z ↦ inl (z.0, z.0, z.1) | inr r ↦ inr r ];
  old = inl refl;
  block = block;
  made = made;
  asked = inr (refl, refl);
  source = inl place;
  entry = inl refl;
  stays = λ u nz. held u;
}

module _ (d : Device) (entp index : ℕ) (create : Bool) (s : Sfs) (lt : index < blk_nentry)
    (v : IsSound s) where
  bounded : ltb index blk_nentry ≡ true
  bounded = lt→ltb index blk_nentry lt

  -- The entry block is there.
  pub present-Sub :
      InUse s entp
      → (s.disk entp index ≡ 0) ⊎ InUse s (s.disk entp index)
      → (r : Sfs × (Error ⊎ (ℕ × ℕ))) × (sfs_bmap_get_sub_nolock d entp index create s ≡ done r)
        × Sub s entp index create r
  unfolding sfs_bmap_get_sub_nolock
  present-Sub u held =
      let there : (entp == 0) ≡ false = ground (arith, u.0) in
      let near : ltb entp s.blocks ≡ true = lt→ltb entp s.blocks u.1 in
      elim (Bool-cases (d.reads entp)) [
        | inr bad ↦ (
          (s, inl e_inval),
          rw (sfs_bmap_get_sub_nolock, bounded, there, near, bad) refl,
          (Keeps-refl s v, inr refl),
        )
        | inl ok ↦ elim (Bool-cases (not (s.disk entp index == 0) || not create)) [
          | inl kept ↦ (
            (s, inr (entp, s.disk entp index)),
            rw (sfs_bmap_get_sub_nolock, bounded, there, near, ok, kept) refl,
            unchanged s entp index (s.disk entp index) create v (inr (u, refl)) held
                (positive (s.disk entp index) create kept) (λ u. refl),
          )
          | inr needed ↦
              let (r, run, sub) =
                new_block-Sub d s s entp entp index create
                  (wanted (s.disk entp index) create needed) (Keeps-refl s v) u
                  (inl (refl, u, no_entry (s.disk entp index) create needed)) in
              (r, rw (sfs_bmap_get_sub_nolock, bounded, there, near, ok, needed) run, sub)
        ]
      ]
    where
      positive : (n : ℕ) (c : Bool) → (not (n == 0) || not c) ≡ true → c ≡ true → 0 < n
      positive zero true h e = absurd (ground (arith, h))
      positive zero false h e = absurd (ground (arith, e))
      positive (suc n) c h e = omega arith

      wanted : (n : ℕ) (c : Bool) → (not (n == 0) || not c) ≡ false → c ≡ true
      wanted n true h = refl
      wanted n false h = absurd (ground (arith, h))

      no_entry : (n : ℕ) (c : Bool) → (not (n == 0) || not c) ≡ false → n ≡ 0
      no_entry zero c h = refl
      no_entry (suc n) c h = absurd (ground (arith, h))

  absent-run :
      (s1 : Sfs) (ent : ℕ) (r : Sfs × (Error ⊎ (ℕ × ℕ)))
      → (entp == 0) ≡ true
      → create ≡ true
      → sfs_block_alloc d s ≡ done (s1, inr ent)
      → (sfs_block_alloc d s1 >>= new_block d 0 ent index) ≡ done r
      → sfs_bmap_get_sub_nolock d entp index create s ≡ done r
  unfolding sfs_bmap_get_sub_nolock
  absent-run s1 ent r there make run run2 =
      rw (sfs_bmap_get_sub_nolock, bounded, there, make, run) run2

  -- There is none yet.
  pub absent-Sub :
      entp ≡ 0
      → (r : Sfs × (Error ⊎ (ℕ × ℕ))) × (sfs_bmap_get_sub_nolock d entp index create s ≡ done r)
        × Sub s entp index create r
  unfolding sfs_bmap_get_sub_nolock
  absent-Sub none_yet =
      let there : (entp == 0) ≡ true = ground arith in
      elim (Bool-cases create) [
        | inr keep ↦ (
          (s, inr (0, 0)),
          rw (sfs_bmap_get_sub_nolock, bounded, there, keep) refl,
          rw (none_yet, keep)
              (unchanged s 0 index 0 false v (inl (refl, refl)) (inl refl)
                (λ e. absurd (ground (arith, e))) (λ u. absurd (omega (arith, u.0)))),
        )
        | inl make ↦ elim (sfs_block_alloc-Keeps d s v) [
          | inr (s1, e, run, k) ↦ (
            (s1, inl e),
            rw (sfs_bmap_get_sub_nolock, bounded, there, make, run) refl,
            (k, inl make),
          )
          | inl (s1, ent, run, k, f) ↦
              let (r, run2, sub) =
                new_block-Sub d s s1 0 ent index create make k f.inuse
                  (inr (refl, not_zero ent f.inuse.0, f.free, f.cleared)) in
              (r, absent-run s1 ent r there make run run2, rw none_yet sub)
        ]
      ]
    where
      not_zero : (n : ℕ) → 0 < n → n ≢ 0
      not_zero n h = omega arith
