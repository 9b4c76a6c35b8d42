-- ===== src/Sfs/Blocks.antt =====
-- The allocation of blocks, on the sequence of bits.
use os_exercises.Base.{
  ℕ, zero, suc, ◌+◌, ◌-◌, ◌*◌, lt→ltb, ◌≤◌, ◌<◌, ◌≡◌, refl, sym, ap, ◌∙◌, inl, inr, ◌⊎◌, Bool, true,
  false, not, Option, some, List, [], ◌∷◌, arith, ltb, ◌==◌, ◌&&◌, if◌then◌else◌, length,
  length-append, All, Bool-cases, done, >>=-eq-done, Error, e_no_mem, e_inval,
}
use os_exercises.Bitmap.{Word, Bitmap, bit_at, alloc_words, bitmap_alloc}
use os_exercises.Bitmap.Bits.{bits, Full}
use os_exercises.Bitmap.Alloc.{Claimed, bitmap_alloc-lowest, bitmap_free-exact, bitmap_test-bits}
use os_exercises.Bitmap.Alloc
use os_exercises.Sfs.{Sfs, Device, set_at, sfs_block_inuse, sfs_block_alloc}

abbrev pub free_bit : Sfs → ℕ → Bool
free_bit s i = bit_at (bits s.freemap.map) i

-- The number of bits that are set.
abbrev pub free_count : List Bool → ℕ
free_count [] = 0
free_count (b ∷ w) = (if b then 1 else 0) + free_count w

-- A block that is not free, and neither the superblock.
abbrev pub InUse : Sfs → ℕ → Type 0
InUse s b = (0 < b) × (b < s.blocks) × (free_bit s b ≡ false)

pub record IsSound (s : Sfs) : Type 0 where
  pub freemap : Alloc.IsValid s.freemap
  pub room : s.blocks ≤ s.freemap.nbits
  pub super : free_bit s 0 ≡ false
  pub beyond : (i : ℕ) → s.blocks ≤ i → free_bit s i ≡ false
  pub unused : s.unused_blocks ≡ free_count (bits s.freemap.map)

pub free_count-same :
    (xs ys : List Bool)
    → length xs ≡ length ys
    → ((j : ℕ) → bit_at ys j ≡ bit_at xs j)
    → free_count ys ≡ free_count xs
free_count-same [] [] size same = refl
free_count-same [] (y ∷ ys) size same = absurd (omega arith)
free_count-same (x ∷ xs) [] size same = absurd (omega arith)
free_count-same (x ∷ xs) (y ∷ ys) size same =
    rw (same 0, free_count-same xs ys (omega arith) (λ j. same (suc j))) refl

pub free_count-clear :
    (i : ℕ) (xs ys : List Bool)
    → length xs ≡ length ys
    → bit_at xs i ≡ true
    → ((j : ℕ) → bit_at ys j ≡ (if j == i then false else bit_at xs j))
    → free_count ys + 1 ≡ free_count xs
free_count-clear i [] ys size set change = absurd (ground (arith, set))
free_count-clear i (x ∷ xs) [] size set change = absurd (omega arith)
free_count-clear zero (x ∷ xs) (y ∷ ys) size set change =
    let head : y ≡ false = change 0 in
    rw (head, set, free_count-same xs ys (omega arith) (λ j. change (suc j) ∙ ground arith)) omega
      arith
free_count-clear (suc i) (x ∷ xs) (y ∷ ys) size set change =
    let head : y ≡ x = change 0 ∙ ground arith in
    let tail = free_count-clear i xs ys (omega arith) set (λ j. change (suc j) ∙ ground arith) in
    rw head (omega (arith, tail))

pub length-bits : (ws : List Word) → All Full ws → length (bits ws) ≡ 32 * length ws
length-bits [] f = omega arith
length-bits (w ∷ ws) f = omega (arith, length-append w (bits ws), length-bits ws f.1, f.0)

pub sfs_block_inuse-InUse :
    (b : ℕ) (s : Sfs) → IsSound s → InUse s b → sfs_block_inuse b s ≡ done true
unfolding sfs_block_inuse
sfs_block_inuse-InUse b s v u =
    let range : (not (b == 0) && ltb b s.blocks) ≡ true = in_range b s.blocks u.0 u.1 in
    rw
      (
        sfs_block_inuse,
        range,
        bitmap_test-bits s.freemap b v.freemap (omega (arith, v.room, u.1)),
        u.2,
      )
      refl
  where
    in_range : (b n : ℕ) → 0 < b → b < n → (not (b == 0) && ltb b n) ≡ true
    in_range zero n pos lt = absurd (omega arith)
    in_range (suc b) n pos lt = ground arith

-- What an allocation that finds a free block makes of the state.
pub record Allocated (s : Sfs) (ino : ℕ) (s' : Sfs) : Type 0 where
  pub sound : IsSound s'
  pub fresh : free_bit s ino ≡ true
  pub changed : (j : ℕ) → free_bit s' j ≡ (if j == ino then false else free_bit s j)
  pub blocks : s'.blocks ≡ s.blocks
  pub inuse : InUse s' ino

bitmap_alloc-nbits :
    (b b' : Bitmap) (o : Option ℕ) → bitmap_alloc b ≡ done (o, b') → b'.nbits ≡ b.nbits
unfolding bitmap_alloc
bitmap_alloc-nbits b b' o h =
    let (r, run, final) =
      >>=-eq-done (alloc_words 0 b.map) (λ r. done (r.0, record b { map = r.1 })) h in
    let same : record b { map = r.1 } ≡ b' = cc final in ap (λ (c : Bitmap). c.nbits) (sym same)

-- The state after a block is claimed, whatever the disk then holds.
abbrev pub claim_state : Sfs → Bitmap → (ℕ → ℕ → ℕ) → Sfs
claim_state s b disk = record s {
  freemap = b;
  unused_blocks = s.unused_blocks - 1;
  super_dirty = true;
  disk = disk;
}

Claimed-count :
    (s : Sfs) (ino : ℕ) (b : Bitmap)
    → IsSound s
    → Claimed s.freemap.map ino b.map
    → free_count (bits b.map) + 1 ≡ free_count (bits s.freemap.map)
Claimed-count s ino b v c =
    free_count-clear ino (bits s.freemap.map) (bits b.map)
      (length-bits s.freemap.map v.freemap.full
        ∙ ap (λ n. 32 * n) (sym c.size)
        ∙ sym (length-bits b.map c.full))
      c.free c.changed

claim_state-Allocated :
    (s : Sfs) (ino : ℕ) (b : Bitmap) (disk : ℕ → ℕ → ℕ)
    → IsSound s
    → Claimed s.freemap.map ino b.map
    → Alloc.IsValid b
    → b.nbits ≡ s.freemap.nbits
    → Allocated s ino (claim_state s b disk)
claim_state-Allocated s ino b disk v c valid same =
    let positive : 0 < ino = nonzero ino c.free in
    let below : ino < s.blocks = inside ino c.free in
    let count = Claimed-count s ino b v c in
    record {
      sound = record {
        freemap = valid;
        room = omega (arith, v.room, same);
        super = c.changed 0 ∙ ground (arith, v.super);
        beyond = λ i h. c.changed i ∙ ground (arith, v.beyond i h);
        unused = omega (arith, v.unused, count);
      };
      fresh = c.free;
      changed = c.changed;
      blocks = refl;
      inuse = (positive, below, c.changed ino ∙ ground arith);
    }
  where
    nonzero : (i : ℕ) → bit_at (bits s.freemap.map) i ≡ true → 0 < i
    nonzero zero set = absurd (ground (arith, set, v.super))
    nonzero (suc i) set = omega arith

    inside : (i : ℕ) → bit_at (bits s.freemap.map) i ≡ true → i < s.blocks
    inside i set = elim (Bool-cases (ltb i s.blocks)) [
      | inl e ↦ ground arith
      | inr e ↦ absurd (ground (arith, set, v.beyond i (ground arith)))
    ]

claim-run :
    (d : Device) (s : Sfs) (ino : ℕ) (b : Bitmap)
    → bitmap_alloc s.freemap ≡ done (some ino, b)
    → ltb 0 s.unused_blocks ≡ true
    → sfs_block_inuse ino (claim_state s b s.disk) ≡ done true
    → d.writes ino ≡ true
    → sfs_block_alloc d s ≡ done (claim_state s b (set_at ino (λ i. 0) s.disk), inr ino)
unfolding sfs_block_alloc
claim-run d s ino b run left inuse ok = rw (sfs_block_alloc, run, left, inuse, ok) refl

claim-fails :
    (d : Device) (s : Sfs) (ino : ℕ) (b : Bitmap)
    → bitmap_alloc s.freemap ≡ done (some ino, b)
    → ltb 0 s.unused_blocks ≡ true
    → sfs_block_inuse ino (claim_state s b s.disk) ≡ done true
    → d.writes ino ≡ false
    → sfs_block_alloc d s ≡ done (claim_state s b s.disk, inl e_inval)
unfolding sfs_block_alloc
claim-fails d s ino b run left inuse bad = rw (sfs_block_alloc, run, left, inuse, bad) refl

-- A block is claimed and cleared; or none is free; or the device fails, and the block is lost.
pub sfs_block_alloc-Allocated :
    (d : Device) (s : Sfs)
    → IsSound s
    → ((s' : Sfs) × (ino : ℕ) × (sfs_block_alloc d s ≡ done (s', inr ino))
        × Allocated s ino s'
        × (s'.disk ≡ set_at ino (λ i. 0) s.disk))
      ⊎ ((s' : Sfs) × (e : Error) × (sfs_block_alloc d s ≡ done (s', inl e))
          × ((s' ≡ s) ⊎ ((ino : ℕ) × Allocated s ino s' × (s'.disk ≡ s.disk))))
unfolding sfs_block_alloc
sfs_block_alloc-Allocated d s v = elim (bitmap_alloc-lowest s.freemap v.freemap) [
  | inr (run, none_free) ↦ inr (s, e_no_mem, rw (sfs_block_alloc, run) refl, inl refl)
  | inl (ino, b, run, lt, c, valid) ↦
      let same = bitmap_alloc-nbits s.freemap b (some ino) run in
      let t = claim_state-Allocated s ino b s.disk v c valid same in
      let left : ltb 0 s.unused_blocks ≡ true =
        lt→ltb 0 s.unused_blocks (omega (arith, v.unused, Claimed-count s ino b v c)) in
      let inuse = sfs_block_inuse-InUse ino (claim_state s b s.disk) t.sound t.inuse in
      elim (Bool-cases (d.writes ino)) [
        | inl e ↦ inl (
          claim_state s b (set_at ino (λ i. 0) s.disk),
          ino,
          claim-run d s ino b run left inuse e,
          claim_state-Allocated s ino b (set_at ino (λ i. 0) s.disk) v c valid same,
          refl,
        )
        | inr e ↦ inr (
          claim_state s b s.disk,
          e_inval,
          claim-fails d s ino b run left inuse e,
          inr (ino, t, refl),
        )
      ]
]
