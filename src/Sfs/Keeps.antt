-- ===== src/Sfs/Keeps.antt =====
-- States that keep all blocks in use, with their contents.
use os_exercises.Base.{
  ℕ, ◌≡◌, ◌≢◌, refl, ap, ◌∙◌, inl, inr, ◌⊎◌, true, false, arith, ◌==◌, done, Error,
}
use os_exercises.Sfs.{
  Sfs, Device, set_at, write_entry, sfs_block_alloc, sfs_block_free, failed_cleanup,
}
use os_exercises.Sfs.Blocks.{free_bit, InUse, IsSound, Allocated, sfs_block_alloc-Allocated}
use os_exercises.Sfs.Release.{sfs_block_free-Freed}

pub record Keeps (s s' : Sfs) : Type 0 where
  pub sound : IsSound s'
  pub blocks : s'.blocks ≡ s.blocks
  pub inuse : (b : ℕ) → InUse s b → InUse s' b
  pub disk : (b : ℕ) → InUse s b → (i : ℕ) → s'.disk b i ≡ s.disk b i

pub Keeps-refl : (s : Sfs) → IsSound s → Keeps s s
Keeps-refl s v = record { sound = v; blocks = refl; inuse = λ b u. u; disk = λ b u i. refl }

pub Keeps-trans : {r s t : Sfs} → Keeps r s → Keeps s t → Keeps r t
Keeps-trans k l = record {
  sound = l.sound;
  blocks = l.blocks ∙ k.blocks;
  inuse = λ b u. l.inuse b (k.inuse b u);
  disk = λ b u i. l.disk b (k.inuse b u) i ∙ k.disk b u i;
}

pub other_block : (s : Sfs) (b ino : ℕ) → InUse s b → free_bit s ino ≡ true → b ≢ ino
other_block s b ino u free e =
    let clash : free_bit s b ≡ true = ap (free_bit s) e ∙ free in
    absurd (ground (arith, u.2, clash))

-- A block that was free, taken and cleared.
pub record Fresh (s s' : Sfs) (ino : ℕ) : Type 0 where
  pub free : free_bit s ino ≡ true
  pub inuse : InUse s' ino
  pub cleared : (i : ℕ) → s'.disk ino i ≡ 0

Allocated-Keeps :
    (s s' : Sfs) (ino : ℕ)
    → Allocated s ino s'
    → ((b i : ℕ) → b ≢ ino → s'.disk b i ≡ s.disk b i)
    → Keeps s s'
Allocated-Keeps s s' ino a same = record {
  sound = a.sound;
  blocks = a.blocks;
  inuse = λ b u.
      let ne = other_block s b ino u a.fresh in
      (u.0, rw (a.blocks) u.1, a.changed b ∙ ground (arith, u.2));
  disk = λ b u i. same b i (other_block s b ino u a.fresh);
}

-- An allocation keeps what is in use; the block that it takes is fresh.
pub sfs_block_alloc-Keeps :
    (d : Device) (s : Sfs)
    → IsSound s
    → ((s' : Sfs) × (ino : ℕ) × (sfs_block_alloc d s ≡ done (s', inr ino))
        × Keeps s s'
        × Fresh s s' ino)
      ⊎ ((s' : Sfs) × (e : Error) × (sfs_block_alloc d s ≡ done (s', inl e)) × Keeps s s')
sfs_block_alloc-Keeps d s v = elim (sfs_block_alloc-Allocated d s v) [
  | inl (s', ino, run, a, disk) ↦ inl (
    s',
    ino,
    run,
    Allocated-Keeps s s' ino a (λ b i ne. ap (λ f. f b i) disk ∙ elsewhere ino b i s.disk ne),
    record {
      free = a.fresh;
      inuse = a.inuse;
      cleared = λ i. ap (λ f. f ino i) disk ∙ there ino i s.disk;
    },
  )
  | inr (s', e, run, inl same) ↦ inr (s', e, run, rw same (Keeps-refl s v))
  | inr (s', e, run, inr (ino, a, disk)) ↦
      inr (s', e, run, Allocated-Keeps s s' ino a (λ b i ne. ap (λ f. f b i) disk))
]
  where
    elsewhere : (ino b i : ℕ) (f : ℕ → ℕ → ℕ) → b ≢ ino → set_at ino (λ j. 0) f b i ≡ f b i
    elsewhere ino b i f ne = let e : (b == ino) ≡ false = ground arith in rw e refl

    there : (ino i : ℕ) (f : ℕ → ℕ → ℕ) → set_at ino (λ j. 0) f ino i ≡ 0
    there ino i f = let e : (ino == ino) ≡ true = ground arith in rw e refl

-- A block that was free before is given back.
pub sfs_block_free-Keeps :
    (s s1 : Sfs) (ino : ℕ)
    → Keeps s s1
    → free_bit s ino ≡ true
    → InUse s1 ino
    → (s2 : Sfs) × (sfs_block_free ino s1 ≡ done s2)
      × Keeps s s2
      × ((b : ℕ) → b ≢ ino → InUse s1 b → InUse s2 b)
sfs_block_free-Keeps s s1 ino k free u =
    let (s2, run, f) = sfs_block_free-Freed s1 ino k.sound u in
    let others : (b : ℕ) → b ≢ ino → InUse s1 b → InUse s2 b =
      λ b ne u1. (u1.0, rw (f.blocks) u1.1, f.changed b ∙ ground (arith, u1.2)) in
    (
      s2,
      run,
      record {
        sound = f.sound;
        blocks = f.blocks ∙ k.blocks;
        inuse = λ b ub. others b (other_block s b ino ub free) (k.inuse b ub);
        disk = λ b ub i. ap (λ g. g b i) f.disk ∙ k.disk b ub i;
      },
      others,
    )

-- An entry of a block that was free before is written.
pub write_entry-Keeps :
    (s s1 : Sfs) (ent i v : ℕ)
    → Keeps s s1
    → free_bit s ent ≡ true
    → Keeps s (write_entry ent i v s1)
write_entry-Keeps s s1 ent i v k free = record {
  sound = record {
    freemap = k.sound.freemap;
    room = k.sound.room;
    super = k.sound.super;
    beyond = k.sound.beyond;
    unused = k.sound.unused;
  };
  blocks = k.blocks;
  inuse = k.inuse;
  disk = λ b u j.
      let ne = other_block s b ent u free in
      let e : (b == ent) ≡ false = ground arith in rw e (k.disk b u j);
}

-- Giving an entry block back, if it is a new one.
pub failed_cleanup-Keeps :
    (s s1 : Sfs) (entp ent : ℕ) (e : Error)
    → Keeps s s1
    → (ent ≡ entp) ⊎ ((ent ≢ entp) × (free_bit s ent ≡ true) × InUse s1 ent)
    → (s2 : Sfs) × (failed_cleanup entp ent e s1 ≡ done (s2, inl e)) × Keeps s s2
failed_cleanup-Keeps s s1 entp ent e k h = elim h [
  | inl same ↦ let t : (ent == entp) ≡ true = ground arith in (s1, rw t refl, k)
  | inr (ne, free, u) ↦
      let t : (ent == entp) ≡ false = ground arith in
      let (s2, run, k2, others) = sfs_block_free-Keeps s s1 ent k free u in
      (s2, rw (t, run) refl, k2)
]
