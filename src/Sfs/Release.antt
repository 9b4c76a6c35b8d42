-- ===== src/Sfs/Release.antt =====
-- The freeing of a block, on the sequence of bits.
use os_exercises.Base.{
  ℕ, zero, suc, ◌+◌, ◌*◌, ◌/◌, ◌%◌, ◌≡◌, ◌≢◌, refl, sym, ap, ◌∙◌, inl, inr, ◌⊎◌, true, not, List,
  [], ◌∷◌, arith, ltb, ◌==◌, if◌then◌else◌, length, Bool-cases, done, ◌>>◌, >>=-eq-done, assert,
}
use os_exercises.Bitmap.{
  Word, Bitmap, bit_at, word_at, word_bits, set_bit, change_word, bitmap_free,
}
use os_exercises.Bitmap.Bits.{bits}
use os_exercises.Bitmap.Alloc.{bitmap_free-exact}
use os_exercises.Sfs.{Sfs, sfs_block_free}
use os_exercises.Sfs.Blocks.{
  free_bit, free_count-clear, InUse, IsSound, length-bits, sfs_block_inuse-InUse,
}

length-change_word :
    (f : Word → Word) (ix : ℕ) (ws : List Word) → length (change_word f ix ws) ≡ length ws
unfolding change_word
length-change_word f ix [] = refl
length-change_word f zero (w ∷ ws) = refl
length-change_word f (suc ix) (w ∷ ws) = ap suc (length-change_word f ix ws)

bitmap_free-shape :
    (b b' : Bitmap) (i : ℕ)
    → bitmap_free i b ≡ done b'
    → (b'.nbits ≡ b.nbits) × (length b'.map ≡ length b.map)
unfolding bitmap_free
bitmap_free-shape b b' i h =
    let change = change_word (set_bit (i % word_bits)) (i / word_bits) b.map in
    let (_, first, rest) =
      >>=-eq-done (assert (ltb i b.nbits))
        (λ _.
          assert (not (bit_at (word_at b.map (i / word_bits)) (i % word_bits)))
          >> done (record b { map = change }))
        h in
    let (_, second, final) =
      >>=-eq-done (assert (not (bit_at (word_at b.map (i / word_bits)) (i % word_bits))))
        (λ _. done (record b { map = change })) rest in
    let same : record b { map = change } ≡ b' = cc final in
    (
      ap (λ (c : Bitmap). c.nbits) (sym same),
      ap (λ (c : Bitmap). length c.map) (sym same)
          ∙ length-change_word (set_bit (i % word_bits)) (i / word_bits) b.map,
    )

-- What freeing makes of the state.
pub record Freed (s : Sfs) (ino : ℕ) (s' : Sfs) : Type 0 where
  pub sound : IsSound s'
  pub changed : (j : ℕ) → free_bit s' j ≡ (if j == ino then true else free_bit s j)
  pub blocks : s'.blocks ≡ s.blocks
  pub disk : s'.disk ≡ s.disk

pub sfs_block_free-Freed :
    (s : Sfs) (ino : ℕ)
    → IsSound s
    → InUse s ino
    → (s' : Sfs) × (sfs_block_free ino s ≡ done s') × Freed s ino s'
unfolding sfs_block_free
sfs_block_free-Freed s ino v u =
    elim (bitmap_free-exact s.freemap ino v.freemap (omega (arith, u.1, v.room))) [
      | inl (set, run) ↦ absurd (ground (arith, set, u.2))
      | inr (b, run, valid, changed) ↦
          let inuse = sfs_block_inuse-InUse ino s v u in
          let shape = bitmap_free-shape s.freemap b ino run in
          let set : bit_at (bits b.map) ino ≡ true = changed ino ∙ ground arith in
          let size =
            length-bits b.map valid.full
            ∙ ap (λ n. 32 * n) shape.1
            ∙ sym (length-bits s.freemap.map v.freemap.full) in
          let count =
            free_count-clear ino (bits b.map) (bits s.freemap.map) size set
              (λ j. ground (arith, changed j, u.2, back j)) in
          (
            record s { freemap = b; unused_blocks = s.unused_blocks + 1; super_dirty = true },
            rw (sfs_block_free, inuse, run) refl,
            record {
              sound = record {
                freemap = valid;
                room = omega (arith, v.room, shape.0);
                super = changed 0 ∙ ground (arith, v.super, u.0);
                beyond = λ i h. changed i ∙ ground (arith, v.beyond i h, u.1);
                unused = omega (arith, v.unused, count);
              };
              changed = changed;
              blocks = refl;
              disk = refl;
            },
          )
    ]
  where
    back : (j : ℕ) → (j ≡ ino) ⊎ (j ≢ ino)
    back j = elim (Bool-cases (j == ino)) [
      | inl e ↦ inl (ground arith)
      | inr e ↦ inr (ground arith)
    ]
