-- ===== src/Bitmap/Alloc.antt =====
-- `bitmap_alloc` and `bitmap_free` on the sequence of bits.
use os_exercises.Base.{
  ℕ, zero, suc, ◌+◌, ◌-◌, ◌*◌, ◌/◌, ◌%◌, ◌≤◌, ◌<◌, ◌≡◌, ◌⊎◌, inl, inr, refl, ap, true, false, none,
  some, List, [], ◌∷◌, arith, ltb, ◌==◌, length, All, if◌then◌else◌, Bool-cases, done, panic,
}
use os_exercises.Bitmap.{
  Word, Bitmap, toggle, set_bit, bit_at, change_word, nonzero, alloc_words, bitmap_alloc,
  bitmap_test, bitmap_free,
}
use os_exercises.Bitmap.Bits.{
  bits, Full, bit_at-append, bit_at-word_at, toggle-length, set_bit-length, bit_at-toggle,
  bit_at-set_bit, find_bit-lowest,
}

-- The first set bit, `i`, is cleared, and no other bit changes.
pub record Claimed (ws : List Word) (i : ℕ) (ws' : List Word) : Type 0 where
  pub free : bit_at (bits ws) i ≡ true
  pub lowest : (j : ℕ) → j < i → bit_at (bits ws) j ≡ false
  pub changed : (j : ℕ) → bit_at (bits ws') j ≡ (if j == i then false else bit_at (bits ws) j)
  pub full : All Full ws'
  pub size : length ws' ≡ length ws

claim_here :
    (w : Word) (ws : List Word) (o : ℕ)
    → All Full (w ∷ ws)
    → o < length w
    → bit_at w o ≡ true
    → ((j : ℕ) → j < o → bit_at w j ≡ false)
    → Claimed (w ∷ ws) o (toggle o w ∷ ws)
claim_here w ws o f lt set below = record {
  free = ground (arith, bit_at-append w (bits ws) o);
  lowest = λ j h. ground (arith, bit_at-append w (bits ws) j, below j h);
  changed = λ j. ground (
    arith,
    bit_at-append w (bits ws) j,
    bit_at-append (toggle o w) (bits ws) j,
    toggle-length o w,
    bit_at-toggle o j w lt,
  );
  full = (ground (arith, toggle-length o w, f.0), f.1);
  size = refl;
}

claim_later :
    (w : Word) (ws ws' : List Word) (i : ℕ)
    → All Full (w ∷ ws)
    → ((j : ℕ) → bit_at w j ≡ false)
    → Claimed ws i ws'
    → Claimed (w ∷ ws) (32 + i) (w ∷ ws')
claim_later w ws ws' i f zero_word c = record {
  free =
      let at : 32 + i - 32 ≡ i = omega arith in
      rw (bit_at-append w (bits ws) (32 + i), f.0) (ground (arith, c.free, at));
  lowest =
      λ j h. rw (bit_at-append w (bits ws) j, f.0) (ground (arith, zero_word j, c.lowest (j - 32)));
  changed = λ j.
      rw (bit_at-append w (bits ws) j, bit_at-append w (bits ws') j, f.0)
        (ground (arith, zero_word j, c.changed (j - 32)));
  full = (f.0, c.full);
  size = ap suc c.size;
}

pub alloc_words-Claimed :
    (k : ℕ) (ws : List Word)
    → All Full ws
    → ((i : ℕ) × (ws' : List Word) × (alloc_words k ws ≡ done (some (k * 32 + i), ws'))
        × Claimed ws i ws')
      ⊎ ((alloc_words k ws ≡ done (none, ws)) × ((j : ℕ) → bit_at (bits ws) j ≡ false))
unfolding alloc_words
alloc_words-Claimed k [] f = inr (refl, λ j. refl)
alloc_words-Claimed k (w ∷ ws) f = elim (find_bit-lowest 0 w) [
  | inl (o, run, lt, set, below) ↦
      let word : nonzero w ≡ true = nonzero-bit_at w o set in
      let start : 0 + o ≡ o = omega arith in
      inl (o, toggle o w ∷ ws, rw (word, run, start) refl, claim_here w ws o f lt set below)
  | inr (run, zero_word, all) ↦ elim (alloc_words-Claimed (k + 1) ws f.1) [
    | inl (i, ws', found, c) ↦
        let at : (k + 1) * 32 + i ≡ k * 32 + (32 + i) = omega arith in
        inl (32 + i, w ∷ ws', rw (zero_word, found, at) refl, claim_later w ws ws' i f all c)
    | inr (found, later) ↦ inr (
      rw (zero_word, found) refl,
      λ j. rw (bit_at-append w (bits ws) j) (ground (arith, all j, later (j - length w))),
    )
  ]
]
  where
    nonzero-bit_at : (v : Word) (o : ℕ) → bit_at v o ≡ true → nonzero v ≡ true
    nonzero-bit_at [] o e = cc
    nonzero-bit_at (b ∷ v) zero e = ground arith
    nonzero-bit_at (b ∷ v) (suc o) e = ground (arith, nonzero-bit_at v o)

-- The bits behind the last block are in use, and the words hold the others.
pub record IsValid (b : Bitmap) : Type 0 where
  pub full : All Full b.map
  pub room : b.nbits ≤ length b.map * 32
  pub spare : (i : ℕ) → b.nbits ≤ i → bit_at (bits b.map) i ≡ false

set_inside : (b : Bitmap) → IsValid b → (i : ℕ) → bit_at (bits b.map) i ≡ true → i < b.nbits
set_inside b v i set = elim (Bool-cases (ltb i b.nbits)) [
  | inl e ↦ ground arith
  | inr e ↦ let clear = v.spare i (ground arith) in cc (rw set at clear)
]

-- In a well-formed bitmap, `bitmap_alloc` takes the lowest free block and changes no other, and it
-- fails with -E_NO_MEM only when no block is free; what it takes is a block of the bitmap, and the
-- bitmap stays well formed.
pub bitmap_alloc-lowest :
    (b : Bitmap)
    → IsValid b
    → ((i : ℕ) × (b' : Bitmap) × (bitmap_alloc b ≡ done (some i, b'))
        × (i < b.nbits)
        × Claimed b.map i b'.map
        × IsValid b')
      ⊎ ((bitmap_alloc b ≡ done (none, b)) × ((j : ℕ) → bit_at (bits b.map) j ≡ false))
unfolding bitmap_alloc
bitmap_alloc-lowest b v = elim (alloc_words-Claimed 0 b.map v.full) [
  | inr (run, none_free) ↦ inr (rw run refl, none_free)
  | inl (i, ws, run, c) ↦
      let inside = set_inside b v i c.free in
      let at : 0 * 32 + i ≡ i = omega arith in
      inl (
        i,
        record b { map = ws },
        rw (run, at) refl,
        inside,
        c,
        record {
          full = c.full;
          room = ground (arith, v.room, c.size);
          spare = λ j h. ground (arith, c.changed j, v.spare j h);
        },
      )
]

change_word-length :
    (f : Word → Word) (ix : ℕ) (ws : List Word) → length (change_word f ix ws) ≡ length ws
unfolding change_word
change_word-length f ix [] = refl
change_word-length f zero (w ∷ ws) = refl
change_word-length f (suc ix) (w ∷ ws) = ap suc (change_word-length f ix ws)

set_word-Full : (o ix : ℕ) (ws : List Word) → All Full ws → All Full (change_word (set_bit o) ix ws)
unfolding change_word
set_word-Full o ix [] f = tt
set_word-Full o zero (w ∷ ws) f = (ground (arith, set_bit-length o w, f.0), f.1)
set_word-Full o (suc ix) (w ∷ ws) f = (f.0, set_word-Full o ix ws f.1)

bit_at-set_word :
    (o ix j : ℕ) (ws : List Word)
    → All Full ws
    → o < 32
    → ix < length ws
    → bit_at (bits (change_word (set_bit o) ix ws)) j
      ≡ (if j == ix * 32 + o then true else bit_at (bits ws) j)
unfolding change_word
bit_at-set_word o ix j [] f h k = absurd (omega arith)
bit_at-set_word o zero j (w ∷ ws) f h k = ground (
  arith,
  bit_at-append w (bits ws) j,
  bit_at-append (set_bit o w) (bits ws) j,
  set_bit-length o w,
  bit_at-set_bit o j w (omega (arith, f.0)),
)
bit_at-set_word o (suc ix) j (w ∷ ws) f h k =
    rw (bit_at-append w (bits ws) j, bit_at-append w (bits (change_word (set_bit o) ix ws)) j, f.0)
      (ground (arith, bit_at-set_word o ix (j - 32) ws f.1 h (omega arith)))

-- `bitmap_test` reads the bit of a block.
pub bitmap_test-bits :
    (b : Bitmap) (i : ℕ) → IsValid b → i < b.nbits → bitmap_test i b ≡ done (bit_at (bits b.map) i)
unfolding bitmap_test
bitmap_test-bits b i v lt = ground (arith, bit_at-word_at b.map i v.full)

pub bitmap_free-exact :
    (b : Bitmap) (i : ℕ)
    → IsValid b
    → i < b.nbits
    → ((bit_at (bits b.map) i ≡ true) × (bitmap_free i b ≡ panic))
      ⊎ ((b' : Bitmap) × (bitmap_free i b ≡ done b')
          × IsValid b'
          × ((j : ℕ) → bit_at (bits b'.map) j ≡ (if j == i then true else bit_at (bits b.map) j)))
unfolding bitmap_free
bitmap_free-exact b i v lt =
    let bit = bit_at-word_at b.map i v.full in
    elim (Bool-cases (bit_at (bits b.map) i)) [
      | inl e ↦ inl (e, ground (arith, bit))
      | inr e ↦
          let set = set_bit (i % 32) in
          let index : i / 32 * 32 + i % 32 ≡ i = omega arith in
          let change = λ (j : ℕ).
            bit_at-set_word (i % 32) (i / 32) j b.map v.full (omega arith)
              (omega (arith, v.room)) in
          inr (
            record b { map = change_word set (i / 32) b.map },
            ground (arith, bit),
            record {
              full = set_word-Full (i % 32) (i / 32) b.map v.full;
              room = ground (arith, v.room, change_word-length set (i / 32) b.map);
              spare = λ j h. ground (arith, change j, v.spare j h);
            },
            λ j. ground (arith, change j),
          )
    ]
