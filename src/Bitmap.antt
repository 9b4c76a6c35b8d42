-- ===== src/Bitmap.antt =====
-- The map of free blocks (kern/fs/sfs/bitmap.c). A word of 32 bits is the list of its bits, the
-- lowest first; a bit is set where the block is free.
pub mod Bits
pub mod Alloc
pub mod Create
mod Tests
use os_exercises.Base.{
  ℕ, zero, suc, ◌+◌, ◌-◌, ◌*◌, ◌/◌, ◌%◌, ◌^◌, Bool, true, false, not, Option, none, some, List, [],
  ◌∷◌, ltb, ◌==◌, ◌&&◌, ◌||◌, if◌then◌else◌, Outcome, done, panic, ◌>>=◌, ◌>>◌, assert,
}

abbrev pub word_bits : ℕ
word_bits = 32

abbrev pub Word : Type 0
Word = List Bool

-- `struct bitmap`.
pub record Bitmap : Type 0 where
  pub nbits : ℕ
  pub nwords : ℕ
  pub map : List Word

abbrev pub repeat_word {ℓ} : {A : Type ℓ} → ℕ → A → List A
repeat_word zero a = []
repeat_word (suc n) a = a ∷ repeat_word n a

-- `word ^= (1 << offset)`.
unfoldable pub toggle : ℕ → Word → Word
toggle i [] = []
toggle zero (b ∷ w) = not b ∷ w
toggle (suc i) (b ∷ w) = b ∷ toggle i w

-- `word & (1 << offset)`.
abbrev pub bit_at : Word → ℕ → Bool
bit_at [] i = false
bit_at (b ∷ w) zero = b
bit_at (b ∷ w) (suc i) = bit_at w i

abbrev pub word_at : List Word → ℕ → Word
word_at [] ix = []
word_at (w ∷ ws) zero = w
word_at (w ∷ ws) (suc ix) = word_at ws ix

unfoldable pub change_word : (Word → Word) → ℕ → List Word → List Word
change_word f ix [] = []
change_word f zero (w ∷ ws) = f w ∷ ws
change_word f (suc ix) (w ∷ ws) = w ∷ change_word f ix ws

-- The loop of `bitmap_create` over the `n` bits from `overbits` on.
unfoldable pub clear_from : ℕ → ℕ → Word → Word
clear_from zero overbits w = w
clear_from (suc n) overbits w = clear_from n (overbits + 1) (toggle overbits w)

-- The bits behind the last block are in use.
unfoldable pub clear_spare : ℕ → ℕ → List Word → Outcome (List Word)
clear_spare nbits nwords map =
    let ix = nwords - 1 in
    let overbits = nbits - ix * word_bits in
    if nbits == nwords * word_bits then done map else (do
      assert (nbits / word_bits == ix)
      assert (ltb 0 overbits && ltb overbits word_bits)
      done (change_word (clear_from (word_bits - overbits) overbits) ix map))

-- `bitmap_create`; `got` says whether both calls of `kmalloc` have memory.
unfoldable pub bitmap_create : ℕ → (got : Bool) → Outcome (Option Bitmap)
bitmap_create nbits got =
    let nwords = (nbits + (word_bits - 1)) / word_bits in
    do
      assert (not (nbits == 0) && ltb nbits ((nbits + word_bits) % 2 ^ 32))
      if not got then done none else (do
        map ← clear_spare nbits nwords (repeat_word nwords (repeat_word word_bits true))
        done (some (record { nbits = nbits; nwords = nwords; map = map })))

-- `map[ix] != 0`.
abbrev pub nonzero : Word → Bool
nonzero [] = false
nonzero (b ∷ w) = b || nonzero w

-- The loop over `offset` in `bitmap_alloc`.
unfoldable pub find_bit : ℕ → Word → Option ℕ
find_bit offset [] = none
find_bit offset (b ∷ w) = let later = find_bit (offset + 1) w in if b then some offset else later

-- `bitmap_alloc` at the word `ix`; a word that is not 0 without a bit would be `assert(0)`.
abbrev pub alloc_in : ℕ → Option ℕ → Word → List Word → Outcome (Option ℕ × List Word)
alloc_in ix none w ws = panic
alloc_in ix (some offset) w ws = done (some (ix * word_bits + offset), toggle offset w ∷ ws)

-- The loop over `ix`.
unfoldable pub alloc_words : ℕ → List Word → Outcome (Option ℕ × List Word)
alloc_words ix [] = done (none, [])
alloc_words ix (w ∷ ws) =
    let further : Outcome (Option ℕ × List Word) = (do
      r ← alloc_words (ix + 1) ws
      done (r.0, w ∷ r.1)) in
    if nonzero w then alloc_in ix (find_bit 0 w) w ws else further

-- `bitmap_alloc`: the index, or `none` for -E_NO_MEM.
unfoldable pub bitmap_alloc : Bitmap → Outcome (Option ℕ × Bitmap)
bitmap_alloc b = do r ← alloc_words 0 b.map; done (r.0, record b { map = r.1 })

-- `bitmap_test`, with `bitmap_translate`.
unfoldable pub bitmap_test : ℕ → Bitmap → Outcome Bool
bitmap_test index b = do
  assert (ltb index b.nbits)
  done (bit_at (word_at b.map (index / word_bits)) (index % word_bits))

-- `*word |= mask`, on a bit that is not set.
unfoldable pub set_bit : ℕ → Word → Word
set_bit i [] = []
set_bit zero (b ∷ w) = true ∷ w
set_bit (suc i) (b ∷ w) = b ∷ set_bit i w

unfoldable pub bitmap_free : ℕ → Bitmap → Outcome Bitmap
bitmap_free index b = do
  assert (ltb index b.nbits)
  assert (not (bit_at (word_at b.map (index / word_bits)) (index % word_bits)))
  done (record b { map = change_word (set_bit (index % word_bits)) (index / word_bits) b.map })
