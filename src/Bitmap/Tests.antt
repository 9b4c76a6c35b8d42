-- ===== src/Bitmap/Tests.antt =====
-- A bitmap of 40 blocks.
use os_exercises.Base.{
  ℕ, zero, suc, ◌≤◌, ◌<◌, ◌≡◌, ◌⊎◌, refl, true, false, none, some, [], ◌∷◌, arith, ltb, done,
}
use os_exercises.Bitmap.{repeat_word, Bitmap, bit_at, bitmap_create, bitmap_alloc}
use os_exercises.Bitmap.Bits.{bits}
use os_exercises.Bitmap.Alloc.{Claimed, IsValid, bitmap_alloc-lowest}
use os_exercises.Bitmap.Create.{bitmap_create-free}

bitmap_create-free_example :
    (b : Bitmap) × (bitmap_create 40 true ≡ done (some b))
    × (b.nbits ≡ 40)
    × IsValid b
    × ((j : ℕ) → bit_at (bits b.map) j ≡ ltb j 40)
bitmap_create-free_example = bitmap_create-free 40 (omega arith) (omega arith)

-- Blocks 0 and 2 of three are in use.
abbrev three : Bitmap
three = record { nbits = 3; nwords = 1; map = (false ∷ true ∷ repeat_word 30 false) ∷ [] }

all_clear : (n j : ℕ) → bit_at (repeat_word n false) j ≡ false
all_clear zero j = refl
all_clear (suc n) zero = refl
all_clear (suc n) (suc j) = all_clear n j

spare_clear : (i : ℕ) → 3 ≤ i → bit_at (bits three.map) i ≡ false
spare_clear zero h = absurd (omega arith)
spare_clear (suc zero) h = absurd (omega arith)
spare_clear (suc (suc i)) h = all_clear 30 i

three-IsValid : IsValid three
three-IsValid = record { full = (refl, tt); room = omega arith; spare = spare_clear }

bitmap_alloc-lowest_example :
    ((i : ℕ) × (b' : Bitmap) × (bitmap_alloc three ≡ done (some i, b'))
      × (i < 3)
      × Claimed three.map i b'.map
      × IsValid b')
    ⊎ ((bitmap_alloc three ≡ done (none, three)) × ((j : ℕ) → bit_at (bits three.map) j ≡ false))
bitmap_alloc-lowest_example = bitmap_alloc-lowest three three-IsValid
